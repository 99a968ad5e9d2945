-- ===== src/Db/Cleanup/Expired.antt =====
-- What the removal leaves of leases and peers.
use tpn_worker.Base.{
  ℕ, suc, ◌%◌, ◌^◌, ◌==◌, ℤ, leb_ℤ, Bool, true, false, ◌&&◌, List, [], ◌∷◌, map, Option, none, some,
  if◌then◌else◌, ◌≡◌, refl, ap, ◌∙◌, arith,
}
use mathlib.Core.Path.{subst}
use tpn_worker.Error.{AppError}
use tpn_worker.World.{World, Env, WgRow, PeerState, ◌>>◌, pure, for_each, fetch}
use tpn_worker.World.Triple.{
  Outcome, Triple, Triple-bind, Triple-then, Triple-ignore, Triple-pure, Triple-raise, Triple-if,
  Triple-kernel_call, Triple-state, Triple-now, Triple-execute_works, Triple-call_works,
}
use tpn_worker.Config.{AppConfig, is_worker}
use tpn_worker.Db.Table.{where_rows, delete_rows, any_row}
use tpn_worker.Db.Rows.{any-weaken}
use tpn_worker.Db.Wireguard.{has_lapsed, expired_peer_ids}
use tpn_worker.Wireguard.Server.Lookup.{get-drop}
use tpn_worker.Wireguard.Server.{
  Keys, Server, Peers, get_peer, drop_peer, take_peer, require, unlink, remove_peer,
}
use tpn_worker.Db.Cleanup.{
  cleanup_timestamps, cleanup_leases, remove_ids, remove_expired, database_cleanup,
}

-- The peers in memory without those of some ids.
abbrev drop_ids : List ℕ → Peers → Peers
drop_ids [] ps = ps
drop_ids (i ∷ is) ps = drop_ids is (drop_peer (i % 2 ^ 16) ps)

abbrev pub is_id : ℕ → ℕ → Bool
is_id j i = (i % 2 ^ 16) == j

get-drop_ids :
    (j : ℕ) (is : List ℕ) (ps : Peers)
    → get_peer j (drop_ids is ps) ≡ (if any_row (is_id j) is then none else get_peer j ps)
unfolding any_row
get-drop_ids j [] ps = refl
get-drop_ids j (i ∷ is) ps =
    get-drop_ids j is (drop_peer (i % 2 ^ 16) ps) ∙ ground (arith, get-drop (i % 2 ^ 16) j ps)

abbrev expired_ids : ℤ → List WgRow → List ℕ
expired_ids now leases = map (λ (r : WgRow). r.id) (where_rows (has_lapsed now) leases)

any-ids :
    (now : ℤ) (i : ℕ) (rows : List WgRow)
    → any_row (is_id i) (expired_ids now rows)
      ≡ any_row (λ r. has_lapsed now r && is_id i r.id) rows
unfolding any_row where_rows
any-ids now i [] = refl
any-ids now i (r ∷ rs) = ground (arith, any-ids now i rs)

lapsed_later :
    (now later : ℤ) (r : WgRow) (i : ℕ)
    → leb_ℤ now later ≡ true
    → (has_lapsed now r && is_id i r.id) ≡ true
    → (has_lapsed later r && is_id i r.id) ≡ true
lapsed_later now later r i forward old = ground arith

-- The table and the peers in memory.
abbrev Holds : List WgRow → Peers → World → Type 0
Holds leases peers w = (w.leases ≡ leases) × (w.peers ≡ peers)

module _ (env : Env) (keys : Keys) (server : Server) (leases : List WgRow) where
  unlink-keeps :
      (peers : Peers) (found : Option PeerState)
      → Triple
          (Holds leases peers)
          (unlink env keys server found)
          (λ _. Holds leases peers)
          (λ _. Holds leases peers)
  unfolding unlink require
  unlink-keeps peers none = Triple-pure tt (λ w h. h)
  unlink-keeps peers (some s) =
      Triple-then (Holds leases peers)
        (Triple-if (keys.is_key s.public_key) (λ _. Triple-pure tt (λ w h. h))
          (λ _. Triple-raise _ (λ w h. h)))
        (Triple-kernel_call env _ _ (λ w h. h) (λ w h. h))

  -- The peer leaves the memory also where the kernel's call fails.
  remove_peer-drops :
      (i : ℕ) (peers : Peers)
      → Triple
          (Holds leases peers)
          (remove_peer env keys server i)
          (λ _. Holds leases (drop_peer i peers))
          (λ _. Holds leases (drop_peer i peers))
  unfolding remove_peer take_peer pure
  remove_peer-drops i peers =
      Triple-bind (λ _. Holds leases (drop_peer i peers))
        (record { at = λ w h. (h.0, ap (drop_peer i) h.1) }) (unlink-keeps (drop_peer i peers))

  remove_ids-drops :
      (is : List ℕ) (peers : Peers)
      → Triple
          (Holds leases peers)
          (remove_ids env keys server is)
          (λ _. Holds leases (drop_ids is peers))
          (λ _. Holds leases (drop_ids is peers))
  unfolding remove_ids for_each
  remove_ids-drops [] peers = Triple-pure tt (λ w h. h)
  remove_ids-drops (i ∷ is) peers =
      Triple-then (Holds leases (drop_peer (i % 2 ^ 16) peers))
        (Triple-ignore (remove_peer-drops (i % 2 ^ 16) peers))
        (remove_ids-drops is (drop_peer (i % 2 ^ 16) peers))

module _ (env : Env) (keys : Keys) (works : (k : ℕ) → env.fails k ≡ false) where
  -- The table and the peers in memory, and how often the outside was called.
  abbrev Counts : ℕ → List WgRow → Peers → World → Type 0
  Counts n leases peers w = (w.calls ≡ n) × (w.leases ≡ leases) × (w.peers ≡ peers)

  ids_read :
      (n : ℕ) (leases : List WgRow) (peers : Peers) (E : AppError → World → Type 0)
      → Triple
          (Counts n leases peers)
          (expired_peer_ids env)
          (λ is w.
            (is ≡ expired_ids (env.clock n) leases) × (w.leases ≡ leases) × (w.peers ≡ peers))
          E
  unfolding expired_peer_ids fetch
  ids_read n leases peers E =
      Triple-bind (λ now w. (now ≡ env.clock n) × (w.leases ≡ leases) × (w.peers ≡ peers))
        (Triple-now env (λ w h. (ap env.clock h.0, h.1, h.2)))
        λ now. Triple-call_works env _ _ works (λ w h. (rw (h.0, h.1) refl, h.1, h.2))

  removed :
      (n : ℕ) (leases : List WgRow) (peers : Peers) (server : Server)
      (E : AppError → World → Type 0)
      → Triple
          (Counts n leases peers)
          (remove_expired env keys (some server))
          (λ _. Holds leases (drop_ids (expired_ids (env.clock n) leases) peers))
          E
  unfolding remove_expired
  removed n leases peers server E = Triple-ignore (
      Triple-bind _ (ids_read n leases peers _) λ is. record {
        at = λ w h.
            subst
              (λ (js : List ℕ).
                let after = Holds leases (drop_ids js peers) in
                let r = remove_ids env keys server is w in
                Outcome (λ _. after) (λ _. after) r.0 r.1)
              h.0 ((remove_ids-drops env keys server leases is peers).at w (h.1, h.2));
      })

  last :
      (server : Server) (n : ℕ) (leases : List WgRow) (peers : Peers) (now : ℤ)
      (E : AppError → World → Type 0)
      → Triple
          (Counts n leases peers)
          (remove_expired env keys (some server) >> cleanup_leases env keys now)
          (λ _.
            Holds
              (delete_rows (has_lapsed now) leases)
              (drop_ids (expired_ids (env.clock n) leases) peers))
          E
  unfolding cleanup_leases
  last server n leases peers now E = Triple-then _ (removed n leases peers server E) (
      Triple-ignore
        {Q = Holds (delete_rows (has_lapsed now) leases)
          (drop_ids (expired_ids (env.clock n) leases) peers)}
        (Triple-execute_works env _ works (λ w k. (ap (delete_rows (has_lapsed now)) k.0, k.1))))

  cleaned :
      (config : AppConfig) (server : Server) (n : ℕ) (leases : List WgRow) (peers : Peers)
      → is_worker config ≡ true
      → Triple
          (Counts n leases peers)
          (database_cleanup env keys config (some server))
          (λ _.
            Holds
              (delete_rows (has_lapsed (env.clock n)) leases)
              (drop_ids (expired_ids (env.clock (suc (suc n))) leases) peers))
          (λ _.
            Holds
              (delete_rows (has_lapsed (env.clock n)) leases)
              (drop_ids (expired_ids (env.clock (suc (suc n))) leases) peers))
  unfolding database_cleanup cleanup_timestamps cleanup_leases
  cleaned config server n leases peers worker =
      Triple-bind (λ now w. (now ≡ env.clock n) × Counts (suc n) leases peers w)
        (Triple-now env (λ w h. (ap env.clock h.0, (ap suc h.0, h.1, h.2))))
        λ now.
          Triple-then (λ w. (now ≡ env.clock n) × Counts (suc (suc n)) leases peers w)
            (Triple-ignore
              (Triple-execute_works env _ works (λ w h. (h.0, (ap suc h.1.0, h.1.1, h.1.2)))))
            (rw worker (record {
              at = λ w h.
                  subst
                    (λ (t : ℤ).
                      let after = left t in
                      let r =
                        (remove_expired env keys (some server) >> cleanup_leases env keys now) w in
                      Outcome (λ _. after) (λ _. left (env.clock n)) r.0 r.1)
                    h.0 ((last server (suc (suc n)) leases peers now _).at w h.1);
            }))
    where
      left : ℤ → World → Type 0
      left t =
          Holds (delete_rows (has_lapsed t) leases)
            (drop_ids (expired_ids (env.clock (suc (suc n))) leases) peers)

-- A cleanup of a worker with a server, where no statement fails, deletes the leases that have expired
-- by its first reading of the clock, and no others. Every peer whose id is that of a deleted lease is
-- gone from memory, if the clock does not go back, also where the kernel's interface fails. A peer
-- with no lease that has expired by the second reading is kept.
pub cleanup_removes :
    (env : Env) (keys : Keys) (config : AppConfig) (server : Server) (w : World)
    → ((k : ℕ) → env.fails k ≡ false)
    → is_worker config ≡ true
    → let w' = (database_cleanup env keys config (some server) w).1 in
      let now = env.clock w.calls in
      let later = env.clock (suc (suc w.calls)) in
      (w'.leases ≡ delete_rows (has_lapsed now) w.leases)
      × ((i : ℕ)
          → leb_ℤ now later ≡ true
          → any_row (λ r. has_lapsed now r && is_id i r.id) w.leases ≡ true
          → get_peer i w'.peers ≡ none)
      × ((i : ℕ)
          → any_row (λ r. has_lapsed later r && is_id i r.id) w.leases ≡ false
          → get_peer i w'.peers ≡ get_peer i w.peers)
cleanup_removes env keys config server w works worker =
    let h =
      Triple-state (cleaned env keys works config server w.calls w.leases w.peers worker) w
        (refl, refl, refl) in
    let peer = λ (i : ℕ).
      ap (get_peer i) h.1
      ∙ get-drop_ids i (expired_ids (env.clock (suc (suc w.calls))) w.leases) w.peers
      ∙ ap (λ (b : Bool). if b then none else get_peer i w.peers)
          (any-ids (env.clock (suc (suc w.calls))) i w.leases) in
    (
      h.0,
      λ i forward hit.
          peer i
          ∙ ap (λ (b : Bool). if b then none else get_peer i w.peers)
              (any-weaken (λ r. has_lapsed (env.clock w.calls) r && is_id i r.id) _ w.leases
                (λ r old. lapsed_later _ _ r i forward old) hit),
      λ i miss. peer i ∙ ap (λ (b : Bool). if b then none else get_peer i w.peers) miss,
    )
