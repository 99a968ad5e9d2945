-- ===== src/Wireguard/Server/Restart.antt =====
-- The peers after a restart: `restore_peers` against the rows that it reads.
use tpn_worker.Base.{
  ℕ, ◌+◌, ◌%◌, ◌^◌, ◌==◌, Bool, true, false, ◌&&◌, ◌||◌, List, [], ◌∷◌, Option, none, some,
  is_empty, if◌then◌else◌, ◌≡◌, refl, ap, ◌∙◌, arith, inl, inr, Bool-cases, ==_iff,
}
use tpn_worker.Error.{AppError, internal, bad_key, Result, ok, err}
use tpn_worker.World.{World, Env, WgRow, PeerKeys, PeerState, ◌>>◌, pure, fetch}
use tpn_worker.World.Triple.{
  Outcome, Triple, Triple-bind, Triple-weaken, Triple-pure, Triple-raise, Triple-if, Triple-catch,
  Triple-kernel_works, Triple-now, Triple-call_works,
}
use tpn_worker.Db.Table.{where_rows}
use tpn_worker.Wireguard.Server.Lookup.{get-put}
use tpn_worker.Wireguard.Server.{
  Keys, Server, Peers, get_peer, put_peer, require, add_peer_to_interface, restored_state,
  restore_row, restore_rows, restore_peers, is_restorable,
}

-- Where two ids are equal, one stands for the other.
same_id :
    (i j : ℕ) (f : ℕ → Option PeerState) (old : Option PeerState)
    → (if i == j then f i else old) ≡ (if i == j then f j else old)
same_id i j f old = elim (Bool-cases (i == j)) [
  | inl e ↦ rw e (ap f ((==_iff i j).0 e))
  | inr e ↦ rw e refl
]

module _ (env : Env) (keys : Keys) (server : Server) where
  -- The library takes the keys and the address.
  abbrev accepts : PeerKeys → Bool
  accepts k =
      keys.is_key k.public_key
      && ((is_empty k.preshared_key || keys.is_key k.preshared_key) && keys.is_mask k.allowed_ip)

  abbrev row_accepted : Option PeerKeys → Bool
  row_accepted none = false
  row_accepted (some k) = accepts k

  abbrev row_state : ℕ → Option PeerKeys → Option PeerState → Option PeerState
  row_state i none old = old
  row_state i (some k) old = if accepts k then some (restored_state env keys server i k) else old

  -- The peer of an id after some rows: that of the last row of the id that is accepted, or the one
  -- from before.
  abbrev pub peer_after : ℕ → List WgRow → Option PeerState → Option PeerState
  peer_after i [] old = old
  peer_after i (r ∷ rs) old =
      peer_after i rs (if (r.id % 2 ^ 16) == i then row_state i r.keys old else old)

  abbrev accepted_count : List WgRow → ℕ
  accepted_count [] = 0
  accepted_count (r ∷ rs) =
      let rest = accepted_count rs in if row_accepted r.keys then 1 + rest else rest

  abbrev peers_with : ℕ → Option PeerKeys → Peers → Peers
  peers_with i none ps = ps
  peers_with i (some k) ps =
      if accepts k then put_peer i (restored_state env keys server i k) ps else ps

  get-peers_with :
      (i j : ℕ) (ks : Option PeerKeys) (ps : Peers)
      → get_peer j (peers_with i ks ps)
        ≡ (if i == j then row_state j ks (get_peer j ps) else get_peer j ps)
  get-peers_with i j none ps = ground arith
  get-peers_with i j (some k) ps = elim (Bool-cases (accepts k)) [
    | inr a ↦ rw a (ground arith)
    | inl a ↦ rw a (
        get-put i j (restored_state env keys server i k) ps
        ∙ same_id i j (λ l. some (restored_state env keys server l k)) (get_peer j ps))
  ]

  module _ (works : (k : ℕ) → env.kernel_fails k ≡ false) where
    -- The checks of a key are passed, or the error says that one is not.
    require_lem :
        (b : Bool) (P : World → Type 0) (E : AppError → World → Type 0)
        → ((w : World) → b ≡ false → P w → E (internal bad_key) w)
        → Triple P (require env keys server b) (λ _ w. (b ≡ true) × P w) E
    unfolding require
    require_lem b P E failed =
        Triple-if b (λ e. Triple-pure tt (λ w h. (e, h)))
          (λ e. Triple-raise _ (λ w h. failed w e h))

    peer_added :
        (k : PeerKeys) (ps : Peers)
        → Triple
            (λ w. w.peers ≡ ps)
            (add_peer_to_interface env keys server k.public_key k.preshared_key k.allowed_ip)
            (λ _ w. (accepts k ≡ true) × (w.peers ≡ ps))
            (λ _ w. (accepts k ≡ false) × (w.peers ≡ ps))
    unfolding add_peer_to_interface ◌>>◌
    peer_added k ps =
        let key = keys.is_key k.public_key in
        let psk = is_empty k.preshared_key || keys.is_key k.preshared_key in
        Triple-bind (λ _ w. (key ≡ true) × (w.peers ≡ ps))
          (require_lem key _ _ (λ w e h. (rw e refl, h)))
          λ _.
            Triple-bind (λ _ w. (psk ≡ true) × ((key ≡ true) × (w.peers ≡ ps)))
              (require_lem psk _ _ (λ w e h. (rw (h.0, e) refl, h.1)))
              λ _.
                Triple-bind
                  (λ _ w.
                    (keys.is_mask k.allowed_ip ≡ true)
                    × ((psk ≡ true) × ((key ≡ true) × (w.peers ≡ ps))))
                  (require_lem (keys.is_mask k.allowed_ip) _ _
                    (λ w e h. (rw (h.1.0, h.0, e) refl, h.1.1)))
                  λ _.
                    Triple-kernel_works env _ _ works
                      (λ w h. (rw (h.1.1.0, h.1.0, h.0) refl, h.1.1.1))

    row_restored :
        (i : ℕ) (ks : Option PeerKeys) (ps : Peers) (E : AppError → World → Type 0)
        → Triple
            (λ w. w.peers ≡ ps)
            (restore_row env keys server i ks)
            (λ b w. (b ≡ row_accepted ks) × (w.peers ≡ peers_with i ks ps))
            E
    unfolding restore_row pure ◌>>◌
    row_restored i none ps E = record { at = λ w h. (refl, h) }
    row_restored i (some k) ps E =
        Triple-catch (λ _ w. (accepts k ≡ false) × (w.peers ≡ ps))
          (Triple-bind _ (peer_added k ps) λ _. record {
            at = λ w h. rw h.0 (refl, ap (put_peer i (restored_state env keys server i k)) h.1);
          })
          λ _. record { at = λ w h. rw h.0 (refl, h.1) }

    -- What a row does to the peer of an id, by what it does to all of them.
    carried :
        (i j : ℕ) (ks : Option PeerKeys) (ps : Peers) (old : Option PeerState)
        (E : AppError → World → Type 0)
        → get_peer j ps ≡ old
        → (r : Result Bool) (w : World)
        → Outcome (λ b v. (b ≡ row_accepted ks) × (v.peers ≡ peers_with i ks ps)) E r w
        → Outcome
            (λ b v.
              (b ≡ row_accepted ks)
              × (get_peer j v.peers ≡ (if i == j then row_state j ks old else old)))
            E
            r
            w
    carried i j ks ps old E before (err e) w h = h
    carried i j ks ps old E before (ok b) w h = (
      h.0,
      ap (get_peer j) h.1
          ∙ get-peers_with i j ks ps
          ∙ ap (λ (o : Option PeerState). if i == j then row_state j ks o else o) before,
    )

    count_lem :
        (count rest : ℕ) (b c : Bool)
        → b ≡ c
        → ((if b then count + 1 else count) + rest) ≡ (count + (if c then 1 + rest else rest))
    count_lem count rest b c e = ground arith

    rows_restored :
        (i : ℕ) (rs : List WgRow) (count : ℕ) (old : Option PeerState)
        (E : AppError → World → Type 0)
        → Triple
            (λ w. get_peer i w.peers ≡ old)
            (restore_rows env keys server rs count)
            (λ n w. (n ≡ count + accepted_count rs) × (get_peer i w.peers ≡ peer_after i rs old))
            E
    unfolding restore_rows
    rows_restored i [] count old E = Triple-pure count (λ w h. (omega arith, h))
    rows_restored i (r ∷ rs) count old E =
        Triple-bind
          (λ b w.
            (b ≡ row_accepted r.keys)
            × (get_peer i w.peers ≡ (if (r.id % 2 ^ 16) == i then row_state i r.keys old else old)))
          (record {
            at = λ w h.
                carried (r.id % 2 ^ 16) i r.keys w.peers old E h
                  (restore_row env keys server (r.id % 2 ^ 16) r.keys w).0
                  (restore_row env keys server (r.id % 2 ^ 16) r.keys w).1
                  ((row_restored (r.id % 2 ^ 16) r.keys w.peers E).at w refl);
          })
          λ b. record {
            at = λ w h.
                (Triple-weaken
                    (rows_restored i rs (if b then count + 1 else count)
                      (if (r.id % 2 ^ 16) == i then row_state i r.keys old else old) E)
                    (λ v k. k)
                    (λ n v k.
                      (k.0 ∙ count_lem count (accepted_count rs) b (row_accepted r.keys) h.0, k.1))
                    (λ x v k. k)).at
                  w h.1;
          }

    pub peers_restored :
        (n : ℕ) (rows : List WgRow) (i : ℕ) (old : Option PeerState) (E : AppError → World → Type 0)
        → ((k : ℕ) → env.fails k ≡ false)
        → Triple
            (λ w. (w.calls ≡ n) × (w.leases ≡ rows) × (get_peer i w.peers ≡ old))
            (restore_peers env keys server)
            (λ count w.
              (count
                ≡ accepted_count (where_rows (is_restorable env keys server (env.clock n)) rows))
              × (get_peer i w.peers
                  ≡ peer_after i
                      (where_rows (is_restorable env keys server (env.clock n)) rows)
                      old))
            E
    unfolding restore_peers fetch
    peers_restored n rows i old E reads =
        Triple-bind (λ now w. (now ≡ env.clock n) × (w.leases ≡ rows) × (get_peer i w.peers ≡ old))
          (Triple-now env (λ w h. (ap env.clock h.0, h.1, h.2)))
          λ now.
            Triple-bind
              (λ rs w.
                (rs ≡ where_rows (is_restorable env keys server (env.clock n)) rows)
                × (get_peer i w.peers ≡ old))
              (Triple-call_works env _ _ reads (λ w h. (rw (h.0, h.1) refl, h.2)))
              λ rs. record {
                at = λ w h.
                    (Triple-weaken (rows_restored i rs 0 old E) (λ v k. k)
                        (λ m v k. (rw (← h.0) (k.0 ∙ omega arith), rw (← h.0) k.1)) (λ x v k. k)).at
                      w h.1;
              }
