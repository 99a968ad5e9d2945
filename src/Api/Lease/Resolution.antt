-- ===== src/Api/Lease/Resolution.antt =====
-- What a request may change, and that resolving a name changes none of it.
use tpn_worker.Base.{ℕ, List, [], ◌∷◌, Text, none, some, ◌≡◌}
use tpn_worker.World.{World, Env, Socks5Config, WgRow, PeerState, KernelPeer, pure, lookup_host}
use tpn_worker.World.Triple.{
  Triple, Triple-bind, Triple-then, Triple-pure, Triple-raise, Triple-now, Triple-if, Triple-ok_or,
}
use tpn_worker.Net.Dns.{
  resolve_domain_to_ipv4s, get_cached, set_cached, or_cache, look_up, cached_or_look_up,
  cached_values, extract_hostname,
}
use tpn_worker.Net.Ip.{is_valid_ipv4}

-- The tables of leases, the server's peers and the kernel's interface.
abbrev pub Held : Type 0
Held = List Socks5Config × List WgRow × List (ℕ × PeerState) × List KernelPeer

abbrev pub held : World → Held
held w = (w.socks, w.leases, w.peers, w.interface)

-- Resolving a name changes the cache only.
module _ (h : Held) (env : Env) where
  abbrev Same : World → Type 0
  Same w = held w ≡ h

  cached-Same : (k : Text) → Triple Same (get_cached env k) (λ _. Same) (λ _. Same)
  unfolding get_cached pure
  cached-Same k =
      Triple-bind (λ _. Same) (Triple-now env (λ w p. p)) (λ now. record { at = λ w p. p })

  set-Same : (k v : Text) → Triple Same (set_cached env k v) (λ _. Same) (λ _. Same)
  unfolding set_cached pure
  set-Same k v =
      Triple-bind (λ _. Same) (Triple-now env (λ w p. p)) (λ now. record { at = λ w p. p })

  or_cache-Same :
      (k : Text) (ts : List Text) → Triple Same (or_cache env k ts) (λ _. Same) (λ _. Same)
  unfolding or_cache
  or_cache-Same k [] = Triple-raise _ (λ w p. p)
  or_cache-Same k (t ∷ ts) = Triple-then Same (set-Same k _) (Triple-pure _ (λ w p. p))

  look_up-Same : (k : Text) → Triple Same (look_up env k) (λ _. Same) (λ _. Same)
  unfolding look_up lookup_host
  look_up-Same k =
      Triple-bind (λ _. Same) (record { at = λ w p. p })
        λ found.
          Triple-bind (λ _. Same) (Triple-ok_or found _ (λ hosts w e p. p) (λ w e p. p))
            (λ hosts. or_cache-Same k _)

  pub resolve-Same :
      (url : Text) → Triple Same (resolve_domain_to_ipv4s env url) (λ _. Same) (λ _. Same)
  unfolding resolve_domain_to_ipv4s cached_or_look_up
  resolve-Same url =
      Triple-if (is_valid_ipv4 (extract_hostname url)) (λ _. Triple-pure _ (λ w p. p))
        λ _.
          Triple-bind (λ _. Same) (cached-Same _)
            (elim [ none ↦ look_up-Same _ | some s ↦ of_values _ (cached_values s) ])
    where
      of_values :
          (k : Text) (vs : List Text)
          → Triple Same
              (elim vs [ [] ↦ look_up env k | v ∷ us ↦ pure (v ∷ us) ])
              (λ _. Same)
              (λ _. Same)
      of_values k [] = look_up-Same k
      of_values k (v ∷ us) = Triple-pure _ (λ w p. p)
