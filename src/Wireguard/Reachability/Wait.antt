-- ===== src/Wireguard/Reachability/Wait.antt =====
-- The wait ends.
use tpn_worker.Base.{
  ℕ, zero, suc, ◌+◌, ◌-◌, ◌*◌, ◌/◌, ◌≤◌, ◌<◌, ltb, ◌==◌, ap, Bool, true, false, Text, Option, some,
  ◌≡◌, ◌↔◌, refl, arith, Bool-cases, inl, inr, if◌then◌else◌,
}
use tpn_worker.Wireguard.Server.{Server}
use tpn_worker.Wireguard.Reachability.{
  has_host, says_reachable, wait_rounds, wait_for_public_udp_reachability,
}

module _ (elapsed : ℕ → ℕ) (reachable : ℕ → Bool) (max_wait : ℕ)
    (sleeps : (k : ℕ) → elapsed k + 5000 ≤ elapsed (suc k)) where
  -- From a round on, a probe in time says that the port is reachable.
  abbrev Seen : ℕ → Type 0
  Seen round = (k : ℕ) × (round ≤ k) × (elapsed k < max_wait) × (reachable k ≡ true)

  Seen-later : (round : ℕ) → reachable round ≡ false → Seen round → Seen (suc round)
  Seen-later round silent (k, le, soon, hit) = elim (Bool-cases (k == round)) [
    | inl same ↦ absurd (at_round k (ground arith) hit)
    | inr other ↦ (k, ground arith, soon, hit)
  ]
    where
      at_round : (k : ℕ) → k ≡ round → reachable k ≡ true → ⊥
      at_round k e h = cc (silent, h, ap reachable e)

  grows : (n round : ℕ) → elapsed round ≤ elapsed (round + n)
  grows zero round = let e : round + 0 ≡ round = omega arith in omega (arith, ap elapsed e)
  grows (suc n) round =
      let more = grows n (suc round) in
      let e : suc round + n ≡ round + suc n = omega arith in
      omega (arith, sleeps round, ap elapsed e)

  too_late : (round : ℕ) → max_wait ≤ elapsed round → Seen round → ⊥
  too_late round late (k, le, soon, hit) =
      let e : round + (k - round) ≡ k = omega arith in
      omega (arith, grows (k - round) round, ap elapsed e)

  rounds_end :
      (fuel round : ℕ)
      → max_wait ≤ elapsed round + 5000 * fuel
      → (b : Bool) × (wait_rounds elapsed reachable max_wait (suc fuel) round ≡ some b)
        × ((b ≡ true) ↔ Seen round)
  unfolding wait_rounds
  rounds_end zero round enough =
      let late : ltb (elapsed round) max_wait ≡ false = ground arith in
      (false, rw late refl, (λ h. cc, λ s. absurd (too_late round (omega arith) s)))
  rounds_end (suc fuel) round enough = elim (Bool-cases (ltb (elapsed round) max_wait)) [
    | inr late ↦ (false, rw late refl, (λ h. cc, λ s. absurd (too_late round (ground arith) s)))
    | inl soon ↦ rw soon (elim (Bool-cases (reachable round)) [
      | inl hit ↦ (true, rw hit refl, (λ h. (round, omega arith, ground arith, hit), λ s. refl))
      | inr silent ↦
          let later = rounds_end fuel (suc round) (omega (arith, sleeps round)) in
          (
            later.0,
            rw silent later.1,
            (
              λ h. let s = later.2.0 h in (s.0, omega (arith, s.1), s.2, s.3),
              λ s. later.2.1 (Seen-later round silent s),
            ),
          )
    ])
  ]

both : (a b : Bool) → (if a then b else false) ≡ true → (a ≡ true) × (b ≡ true)
both a b h = ground arith

-- Where each round sleeps five seconds at least, the wait for the public port ends within the rounds
-- that five seconds each allow; it answers true exactly when, at some round that begins before the
-- time is over, the host is set and the output of the probe has the word.
pub wait_ends :
    (server : Server) (elapsed : ℕ → ℕ) (outputs : ℕ → Option (Text × Text)) (max_wait : ℕ)
    → ((k : ℕ) → elapsed k + 5000 ≤ elapsed (suc k))
    → (b : Bool) × (wait_for_public_udp_reachability server elapsed outputs max_wait ≡ some b)
      × ((b ≡ true) ↔ (
          (k : ℕ) × (elapsed k < max_wait)
          × (has_host server ≡ true)
          × (says_reachable (outputs k) ≡ true)))
unfolding wait_for_public_udp_reachability
wait_ends server elapsed outputs max_wait sleeps =
    let reachable = λ (k : ℕ). if has_host server then says_reachable (outputs k) else false in
    let r = rounds_end elapsed reachable max_wait sleeps (suc (max_wait / 5000)) 0 (omega arith) in
    (
      r.0,
      r.1,
      (
        λ h.
            let s = r.2.0 h in
            (s.0, s.2, (both (has_host server) _ s.3).0, (both (has_host server) _ s.3).1),
        λ s. r.2.1 (s.0, omega arith, s.1, rw (s.2, s.3) refl),
      ),
    )
