-- ===== src/Db/RegistrationLog/Recorded.antt =====
-- The newest entry of the log is the last attempt.
use tpn_worker.Base.{ℕ, ℤ, Bool, false, Text, List, [], ◌∷◌, some, take, ◌≡◌, refl, ap, ◌∙◌}
use tpn_worker.Error.{AppError}
use tpn_worker.World.{World, Env, Registration}
use tpn_worker.World.Triple.{
  Triple, Triple-bind, Triple-then, Triple-ignore, Triple-execute_works, Triple-now,
}
use tpn_worker.Db.Table.{first_row}
use tpn_worker.Db.RegistrationLog.{kept_entries, newest_first, entry, insert_registration}
use tpn_worker.Db.RegistrationLog.Bounded.{
  IsLog, newest_first-added, newest_first-keep, IsLog-bump, IsLog-added, IsLog-trimmed,
}

-- An attempt with this outcome is the newest entry.
abbrev pub IsNewest : Text → Bool → ℕ → Text → Text → World → Type 0
IsNewest url success code body error w =
    (id : ℕ) × (now : ℤ) × (first_row (newest_first w.registrations)
      ≡ some (entry id now url success code body error))

first-take : (rs : List Registration) → first_row (take kept_entries rs) ≡ first_row rs
first-take [] = refl
first-take (r ∷ rs) = refl

module _ (env : Env) (works : (k : ℕ) → env.fails k ≡ false) (url : Text) (success : Bool)
    (code : ℕ) (body error : Text) (E : AppError → World → Type 0) where
  abbrev Recorded : World → Type 0
  Recorded w = IsLog w × IsNewest url success code body error w

  pub insert-Recorded :
      Triple IsLog (insert_registration env url success code body error) (λ _. Recorded) E
  unfolding insert_registration
  insert-Recorded =
      Triple-bind (λ _. IsLog) (Triple-now env (λ w h. IsLog-bump h))
        λ now.
          Triple-then Recorded
            (Triple-ignore (
              Triple-execute_works env _ works (λ w h.
                let e = entry w.next_registration_id now url success code body error in
                (
                  IsLog-bump (IsLog-added h e refl),
                  (w.next_registration_id, now, ap first_row (newest_first-added e w)),
                ))))
            (Triple-ignore (
              Triple-execute_works env _ works (λ w h. (
                IsLog-bump (IsLog-trimmed h.0),
                (
                  h.1.0,
                  h.1.1,
                  ap first_row (newest_first-keep w.registrations h.0.falls)
                      ∙ first-take (newest_first w.registrations)
                      ∙ h.1.2,
                ),
              ))))
