-- ===== src/World/Frame.antt =====
-- What an operation on the tables and on the peers leaves alone: a condition on the state that their
-- changes keep is kept by the operation, whether it answers or fails.
use tpn_worker.Base.{ℕ, false, ◌≡◌, List}
use tpn_worker.Error.{AppError, is_client}
use tpn_worker.World.{World, Socks5Config, WgRow, PeerState, KernelPeer, M, ignore}
use tpn_worker.World.Triple.{Triple, Stable, Triple-ignore, Triple-weaken}

-- What a change of the SOCKS5 table and an outside event keep.
pub record SocksFrame (P : World → Type 0) : Type 0 where
  pub bumped : Stable P
  pub socks : (w : World) (t : List Socks5Config) → P w → P (record w { socks = t })

-- The same, with the WireGuard table, the peers in memory and the interface.
pub record Frame (P : World → Type 0) : Type 0 where
  pub below : SocksFrame P
  pub leases : (w : World) (t : List WgRow) → P w → P (record w { leases = t })
  pub peers : (w : World) (ps : List (ℕ × PeerState)) → P w → P (record w { peers = ps })
  pub interface : (w : World) (ps : List KernelPeer) → P w → P (record w { interface = ps })

-- The condition, and an error that is not the caller's.
abbrev pub OfServer : (World → Type 0) → AppError → World → Type 0
OfServer P x w = (is_client x ≡ false) × P w

abbrev pub Framed {ℓ} : {A : Type ℓ} → (World → Type 0) → M A → Type ℓ
Framed P m = Triple P m (λ _. P) (OfServer P)

-- A fact that is not about the state may stand beside the condition.
pub Frame-and : (A : Type 0) (P : World → Type 0) → Frame P → Frame (λ w. A × P w)
Frame-and A P f = record {
  below = record {
    bumped = λ w h. (h.0, f.below.bumped w h.1);
    socks = λ w t h. (h.0, f.below.socks w t h.1);
  };
  leases = λ w t h. (h.0, f.leases w t h.1);
  peers = λ w ps h. (h.0, f.peers w ps h.1);
  interface = λ w ps h. (h.0, f.interface w ps h.1);
}

module _ {A : Type 0} {P : World → Type 0} {m : M A} (t : Framed P m) where
  -- `let _ = m.await;`
  pub ignored : {E : AppError → World → Type 0} → Triple P (ignore m) (λ _. P) E
  ignored = Triple-ignore (Triple-weaken t (λ w h. h) (λ a w h. h) (λ x w h. h.1))

  -- The condition alone.
  pub kept : Triple P m (λ _. P) (λ _. P)
  kept = Triple-weaken t (λ w h. h) (λ a w h. h) (λ x w h. h.1)
