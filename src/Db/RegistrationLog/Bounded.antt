-- ===== src/Db/RegistrationLog/Bounded.antt =====
-- The log is the newest entries.
use tpn_worker.Base.{
  ℕ, zero, suc, Bool, true, false, not, ltb, ◌&&◌, ◌||◌, ◌==◌, Text, List, [], ◌∷◌, ◌++◌, take, ◌≡◌,
  refl, sym, ap, ◌∙◌, arith, map, pos,
}
use mathlib.Core.List.{reverse, reverse-cons, reverse-append}
use tpn_worker.World.{
  World, Env, Registration, ◌>>=◌, ◌>>◌, ignore, now_ms, execute, fetch, call, bump,
}
use tpn_worker.World.Triple.{
  Triple, Triple-bind, Triple-then, Triple-ignore, Triple-execute, Triple-now, Triple-state,
}
use tpn_worker.Db.Table.{where_rows, delete_rows, any_row, all_rows}
use tpn_worker.Db.Rows.{all-take}
use tpn_worker.Db.RegistrationLog.{
  kept_entries, newest_first, has_id_of, keep_newest, entry, insert_registration,
  recent_registrations, shown,
}

abbrev older : ℕ → Registration → Bool
older id r = ltb r.id id

-- From the newest entry to the oldest, the ids fall.
unfoldable pub falling : List Registration → Bool
falling [] = true
falling (r ∷ rs) = all_rows (older r.id) rs && falling rs

-- The ids of the log fall from the newest entry on, and the next id is above them all.
pub record IsLog (w : World) : Type 0 where
  pub falls : falling (newest_first w.registrations) ≡ true
  pub next : all_rows (older w.next_registration_id) (newest_first w.registrations) ≡ true

falling-take : (n : ℕ) (rs : List Registration) → falling rs ≡ true → falling (take n rs) ≡ true
unfolding falling
falling-take zero rs h = refl
falling-take (suc n) [] h = refl
falling-take (suc n) (r ∷ rs) h = ground (arith, all-take (older r.id) n rs, falling-take n rs)

where-congr :
    (q p p' : Registration → Bool) (rs : List Registration)
    → ((r : Registration) → q r ≡ true → p r ≡ p' r)
    → all_rows q rs ≡ true
    → where_rows p rs ≡ where_rows p' rs
unfolding where_rows all_rows
where-congr q p p' [] same h = refl
where-congr q p p' (r ∷ rs) same h = ground (arith, same r, where-congr q p p' rs same)

where_none :
    (p : Registration → Bool) (rs : List Registration)
    → ((r : Registration) → p r ≡ false)
    → where_rows p rs ≡ []
unfolding where_rows
where_none p [] never = refl
where_none p (r ∷ rs) never = ground (arith, never r, where_none p rs never)

where_nil : (p : Registration → Bool) → where_rows p [] ≡ []
unfolding where_rows
where_nil p = refl

where-keep :
    (p : Registration → Bool) (r : Registration) (rs : List Registration)
    → p r ≡ true
    → where_rows p (r ∷ rs) ≡ r ∷ where_rows p rs
unfolding where_rows
where-keep p r rs h = ground arith

-- The rows whose ids are among those of the first `n`, where ids fall, are the first `n`.
where-take :
    (n : ℕ) (rs : List Registration)
    → falling rs ≡ true
    → where_rows (λ r. any_row (has_id_of r) (take n rs)) rs ≡ take n rs
unfolding falling any_row
where-take zero rs h = where_none _ rs (λ r. refl)
where-take (suc n) [] h = where_nil _
where-take (suc n) (r ∷ rs) h =
    let p = λ (k : Registration). any_row (has_id_of k) (take n rs) in
    let p' = λ (k : Registration). (r.id == k.id) || p k in
    let older_rows : all_rows (older r.id) rs ≡ true = ground arith in
    let rest : where_rows p' rs ≡ take n rs =
      where-congr (older r.id) p' p rs (λ k lt. ground arith) older_rows
      ∙ where-take n rs (ground arith) in
    where-keep p' r rs (ground arith) ∙ ap (λ (t : List Registration). r ∷ t) rest

where-not-not :
    (p : Registration → Bool) (rs : List Registration)
    → where_rows (λ r. not (not (p r))) rs ≡ where_rows p rs
unfolding where_rows
where-not-not p [] = refl
where-not-not p (r ∷ rs) = ground (arith, where-not-not p rs)

where-append :
    (p : Registration → Bool) (rs ts : List Registration)
    → where_rows p (rs ++ ts) ≡ where_rows p rs ++ where_rows p ts
unfolding where_rows
where-append p [] ts = refl
where-append p (r ∷ rs) ts = ground (arith, where-append p rs ts)

one :
    (p : Registration → Bool) (r : Registration)
    → reverse (where_rows p (r ∷ [])) ≡ where_rows p (r ∷ [])
unfolding where_rows
one p r = ground arith

reverse-where :
    (p : Registration → Bool) (rs : List Registration)
    → reverse (where_rows p rs) ≡ where_rows p (reverse rs)
reverse-where p [] = ap reverse (where_nil p) ∙ sym (where_nil p)
reverse-where p (r ∷ rs) =
    ap reverse (where-append p (r ∷ []) rs)
    ∙ reverse-append (where_rows p (r ∷ [])) (where_rows p rs)
    ∙ ap (λ (t : List Registration). t ++ reverse (where_rows p (r ∷ []))) (reverse-where p rs)
    ∙ ap (λ (t : List Registration). where_rows p (reverse rs) ++ t) (one p r)
    ∙ sym (where-append p (reverse rs) (r ∷ []))
    ∙ ap (where_rows p) (sym (reverse-cons r rs))

-- What the deletion leaves.
pub newest_first-keep :
    (rows : List Registration)
    → falling (newest_first rows) ≡ true
    → newest_first (keep_newest rows) ≡ take kept_entries (newest_first rows)
unfolding keep_newest delete_rows
newest_first-keep rows h =
    ap reverse (where-not-not _ rows)
    ∙ reverse-where _ rows
    ∙ where-take kept_entries (newest_first rows) h

all-older :
    (n : ℕ) (rs : List Registration)
    → all_rows (older n) rs ≡ true
    → all_rows (older (suc n)) rs ≡ true
unfolding all_rows
all-older n [] h = refl
all-older n (r ∷ rs) h = ground (arith, all-older n rs)

falling-cons :
    (e : Registration) (rs : List Registration)
    → falling (e ∷ rs) ≡ (all_rows (older e.id) rs && falling rs)
unfolding falling
falling-cons e rs = refl

module _ (e : Registration) (n : ℕ) (rs : List Registration) (id : e.id ≡ n) where
  cons-falling : all_rows (older n) rs ≡ true → falling rs ≡ true → falling (e ∷ rs) ≡ true
  cons-falling below falls = rw (falling-cons e rs, id) (ground arith)

  cons-older : all_rows (older n) rs ≡ true → all_rows (older (suc n)) (e ∷ rs) ≡ true
  unfolding all_rows
  cons-older below = ground (arith, all-older n rs below)

abbrev pub added : Registration → World → World
added e w = record w {
  registrations = w.registrations ++ e ∷ [];
  next_registration_id = suc w.next_registration_id;
}

abbrev pub trimmed : World → World
trimmed w = record w { registrations = keep_newest w.registrations }

pub newest_first-added :
    (e : Registration) (w : World)
    → newest_first (added e w).registrations ≡ e ∷ newest_first w.registrations
newest_first-added e w = reverse-append w.registrations (e ∷ [])

module _ {w : World} (h : IsLog w) where
  pub IsLog-bump : IsLog (bump w)
  IsLog-bump = record { falls = h.falls; next = h.next }

  pub IsLog-added : (e : Registration) → e.id ≡ w.next_registration_id → IsLog (added e w)
  IsLog-added e id = record {
    falls = rw (newest_first-added e w) (cons-falling e w.next_registration_id _ id h.next h.falls);
    next = rw (newest_first-added e w) (cons-older e w.next_registration_id _ id h.next);
  }

  pub IsLog-trimmed : IsLog (trimmed w)
  IsLog-trimmed = record {
    falls =
        rw (newest_first-keep w.registrations h.falls)
          (falling-take kept_entries (newest_first w.registrations) h.falls);
    next = rw (newest_first-keep w.registrations h.falls) (
        all-take (older w.next_registration_id) kept_entries (newest_first w.registrations) h.next);
  }

module _ (env : Env) (url : Text) (success : Bool) (code : ℕ) (body error : Text) where
  pub insert-Triple :
      Triple IsLog (insert_registration env url success code body error) (λ _. IsLog) (λ _. IsLog)
  unfolding insert_registration
  insert-Triple =
      Triple-bind (λ _. IsLog) (Triple-now env (λ w h. IsLog-bump h))
        λ now.
          Triple-then IsLog
            (Triple-ignore (
              Triple-execute env _ (λ w h. IsLog-bump (IsLog-added h _ refl))
                (λ w h. IsLog-bump h)))
            (Triple-ignore
              (Triple-execute env _ (λ w h. IsLog-bump (IsLog-trimmed h)) (λ w h. IsLog-bump h)))

module _ (env : Env) (w : World) where
  recent :
      (n : ℕ)
      → ((k : ℕ) → env.fails k ≡ false)
      → (recent_registrations env (pos n) w).0 ≡ map shown (take n (newest_first w.registrations))
  unfolding recent_registrations fetch call
  recent n works = ground (arith, works w.calls)

  inserted :
      (url : Text) (success : Bool) (code : ℕ) (body error : Text)
      → IsLog w
      → ((k : ℕ) → env.fails k ≡ false)
      → newest_first (insert_registration env url success code body error w).1.registrations
        ≡ take kept_entries (
            entry w.next_registration_id (env.clock w.calls) url success code body error
            ∷ newest_first w.registrations)
  unfolding insert_registration ◌>>=◌ ◌>>◌ now_ms ignore execute call
  inserted url success code body error h works =
      let e = entry w.next_registration_id (env.clock w.calls) url success code body error in
      let falls = (IsLog-added h e refl).falls in
      rw (works (suc w.calls), works (suc (suc w.calls)))
        (newest_first-keep (w.registrations ++ e ∷ []) falls
          ∙ ap (take kept_entries) (newest_first-added e w))

-- Whatever statements fail, an attempt to register keeps the ids of the log in order. Where none
-- fails, the log becomes the entry of this attempt and the newest entries before it, 200 in all at
-- most, and a query for the newest `n` answers the first `n` of these.
pub insert_registration_keeps :
    (env : Env) (w : World) (url : Text) (success : Bool) (code : ℕ) (body error : Text)
    → IsLog w
    → let w' = (insert_registration env url success code body error w).1 in
      let log : List Registration = take kept_entries (
        entry w.next_registration_id (env.clock w.calls) url success code body error
        ∷ newest_first w.registrations) in
      IsLog w'
      × (((k : ℕ) → env.fails k ≡ false)
          → (newest_first w'.registrations ≡ log)
            × ((n : ℕ) → (recent_registrations env (pos n) w').0 ≡ map shown (take n log)))
insert_registration_keeps env w url success code body error h = (
  Triple-state (insert-Triple env url success code body error) w h,
  λ works.
      let kept = inserted env w url success code body error h works in
      (
        kept,
        λ n. recent env _ n works ∙ ap (λ (log : List Registration). map shown (take n log)) kept,
      ),
)
