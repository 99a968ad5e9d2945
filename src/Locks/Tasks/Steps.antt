-- ===== src/Locks/Tasks/Steps.antt =====
-- The steps of `with_lock`, which keep the invariant.
use tpn_worker.Base.{
  ℕ, true, false, ◌==◌, ==_iff, Text, ◌∷◌, Option, none, some, ◌≡◌, ◌≢◌, refl, sym, ap, ◌∙◌, arith,
  inl, inr, Bool-cases,
}
use tpn_worker.Locks.Tasks.{
  find_lock, set_locked, or_insert, get_lock, outside, waiting, running, System, put_phase,
  call_lock, take_lock, drop_guard, Step, call, lock, time_out, finish, Reach, here, next,
}
use tpn_worker.Locks.Tasks.Invariant.{
  Inv, start-Inv, put-is, put_self, find-new, find-old, find_first, found_as, known_put, ran,
  alone_put, holder_put,
}

module _ (s : System) (h : Inv s) (i : ℕ) where
  time_out-Inv :
      (n : Text) (m : ℕ)
      → s.tasks i ≡ waiting n m
      → Inv (record s { tasks = put_phase i outside s.tasks })
  time_out-Inv n m e = record {
    made = h.made;
    apart = h.apart;
    known =
        known_put s h i outside s.manager.locks (λ k l d. elim d [ inl c ↦ cc c | inr c ↦ cc c ])
          (λ k l d. d);
    held = λ j k l r. h.held j k l (ran s h i outside (λ _ _ c. cc c) j k l r).1;
    alone = alone_put s h i outside (λ _ _ c. cc c);
    holder = λ l c. holder_put s h i outside l (λ k r. cc (e, r)) c;
  }

  finish-Inv : (n : Text) (m : ℕ) → s.tasks i ≡ running n m → Inv (drop_guard i m s)
  unfolding drop_guard set_locked
  finish-Inv n m e = record {
    made = h.made;
    apart = h.apart;
    known =
        known_put s h i outside s.manager.locks (λ k l d. elim d [ inl c ↦ cc c | inr c ↦ cc c ])
          (λ k l d. d);
    held = λ j k l r.
        let (other, before) = ran s h i outside (λ _ _ c. cc c) j k l r in
        elim (Bool-cases (m == l)) [
          | inl same ↦
              absurd (other (h.alone i j n k l (e ∙ ap (running n) ((==_iff m l).0 same)) before))
          | inr differ ↦ rw differ (h.held j k l before)
        ];
    alone = alone_put s h i outside (λ _ _ c. cc c);
    holder = λ l c. elim (Bool-cases (m == l)) [
      | inl same ↦ let no : false ≡ true = rw same at c in cc no
      | inr differ ↦
          holder_put s h i outside l
            (λ k r.
              let one : m ≡ l = cc (e, r) in
              let two : (m == l) ≡ true = (==_iff m l).1 one in cc (two, differ))
            (rw differ at c)
    ];
  }

  -- Nobody runs under a mutex that is not locked.
  not_held :
      (m l : ℕ) (k : Text) (j : ℕ) → m ≡ l → s.tasks j ≡ running k l → s.manager.locked m ≢ false
  not_held m l k j same r open_lock =
      let held : s.manager.locked m ≡ true = ap s.manager.locked same ∙ h.held j k l r in
      cc (held, open_lock)

  lock-Inv :
      (n : Text) (m : ℕ)
      → s.tasks i ≡ waiting n m
      → s.manager.locked m ≡ false
      → Inv (take_lock i n m s)
  unfolding take_lock set_locked
  lock-Inv n m e open_lock = record {
    made = h.made;
    apart = h.apart;
    known =
        known_put s h i (running n m) s.manager.locks
          (found_as (running n m) n m s.manager.locks (inr refl) (h.known i n m (inl e)))
          (λ k l d. d);
    held = λ j k l r. elim (Bool-cases (m == l)) [
      | inl same ↦ rw same refl
      | inr differ ↦ elim (put-is i j (running n m) s.tasks (running k l) r) [
        | inl (_, now) ↦
            let one : m ≡ l = cc now in
            let two : (m == l) ≡ true = (==_iff m l).1 one in cc (two, differ)
        | inr (_, before) ↦ rw differ (h.held j k l before)
      ]
    ];
    alone = λ a b k k' l at_a at_b. elim (put-is i a (running n m) s.tasks (running k l) at_a) [
      | inl (a_is, a_now) ↦ elim (put-is i b (running n m) s.tasks (running k' l) at_b) [
        | inl (b_is, b_now) ↦ sym a_is ∙ b_is
        | inr (_, b_before) ↦ absurd (not_held m l k' b (cc a_now) b_before open_lock)
      ]
      | inr (_, a_before) ↦ elim (put-is i b (running n m) s.tasks (running k' l) at_b) [
        | inl (b_is, b_now) ↦ absurd (not_held m l k a (cc b_now) a_before open_lock)
        | inr (_, b_before) ↦ h.alone a b k k' l a_before b_before
      ]
    ];
    holder = λ l c. elim (Bool-cases (m == l)) [
      | inl same ↦ (i, n, put_self i (running n m) s.tasks ∙ ap (running n) ((==_iff m l).0 same))
      | inr differ ↦ holder_put s h i (running n m) l (λ k r. cc (e, r)) (rw differ at c)
    ];
  }

  called :
      (n : Text) (o : Option ℕ)
      → s.tasks i ≡ outside
      → find_lock n s.manager.locks ≡ o
      → let (m, g) = or_insert o n s.manager in
        Inv (record { manager = g; tasks = put_phase i (waiting n m) s.tasks })
  unfolding or_insert set_locked
  called n (some m) e found = record {
    made = h.made;
    apart = h.apart;
    known =
        known_put s h i (waiting n m) s.manager.locks
          (found_as (waiting n m) n m s.manager.locks (inl refl) found) (λ k l d. d);
    held = λ j k l r. h.held j k l (ran s h i (waiting n m) (λ _ _ c. cc c) j k l r).1;
    alone = alone_put s h i (waiting n m) (λ _ _ c. cc c);
    holder = λ l c. holder_put s h i (waiting n m) l (λ k r. cc (e, r)) c;
  }
  called n none e absent =
      let x = s.manager.next in
      record {
        made = λ k l f. elim (find-new n k x l s.manager.locks f) [
          | inl (_, new) ↦ omega (arith, new)
          | inr old ↦ let below = h.made k l old in omega arith
        ];
        apart = λ k k' l f f'. elim (find-new n k x l s.manager.locks f) [
          | inl (name, new) ↦ elim (find-new n k' x l s.manager.locks f') [
            | inl (name', new') ↦ sym name ∙ name'
            | inr old' ↦ let below = h.made k' l old' in absurd (omega (arith, new))
          ]
          | inr old ↦ elim (find-new n k' x l s.manager.locks f') [
            | inl (name', new') ↦ let below = h.made k l old in absurd (omega (arith, new'))
            | inr old' ↦ h.apart k k' l old old'
          ]
        ];
        known =
            known_put s h i (waiting n x) ((n, x) ∷ s.manager.locks)
              (found_as (waiting n x) n x ((n, x) ∷ s.manager.locks) (inl refl)
                (find_first n x s.manager.locks))
              (λ k l d. find-old n k x l s.manager.locks absent d);
        held = λ j k l r.
            let before = (ran s h i (waiting n x) (λ _ _ c. cc c) j k l r).1 in
            let old = h.made k l (h.known j k l (inr before)) in
            let differ : (x == l) ≡ false = ground arith in rw differ (h.held j k l before);
        alone = alone_put s h i (waiting n x) (λ _ _ c. cc c);
        holder = λ l c. elim (Bool-cases (x == l)) [
          | inl same ↦ let no : false ≡ true = rw same at c in cc no
          | inr differ ↦ holder_put s h i (waiting n x) l (λ k r. cc (e, r)) (rw differ at c)
        ];
      }

Step-Inv : {s t : System} → Step s t → Inv s → Inv t
unfolding call_lock get_lock
Step-Inv {s} (call i n e) h = called s h i n (find_lock n s.manager.locks) e refl
Step-Inv {s} (lock i n m e open_lock) h = lock-Inv s h i n m e open_lock
Step-Inv {s} (time_out i n m e) h = time_out-Inv s h i n m e
Step-Inv {s} (finish i n m e) h = finish-Inv s h i n m e

pub Reach-Inv : {s : System} → Reach s → Inv s
Reach-Inv here = start-Inv
Reach-Inv (next before step) = Step-Inv step (Reach-Inv before)
