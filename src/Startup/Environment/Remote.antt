-- ===== src/Startup/Environment/Remote.antt =====
-- What the remote defaults may change.
use tpn_worker.Base.{
  Bool, true, false, not, ◌&&◌, ◌||◌, Text, codes, eq_text, eq_text→eq, List, [], ◌∷◌, Option, none,
  some, trim, split_once, starts_with, is_empty, ◌≡◌, refl, ◌∙◌, ◌⊎◌, inl, inr, Bool-cases, lines,
  eq_text_refl, arith,
}
use tpn_worker.Proxy.Utf8.{from_utf8_lossy}
use tpn_worker.Startup.Environment.{
  Vars, set_var, remote_env_keys, contains_key, set_pair, set_remote_line, set_remote_lines,
  fetch_remote_defaults, config_dir, default_path, set_pairs, load_env, bootstrap,
}

-- A variable is as before, or it is one that is managed and holds a text that is not empty.
abbrev pub IsManaged : Text → Vars → Vars → Type 0
IsManaged k before after =
    (after k ≡ before k)
    ⊎ ((contains_key remote_env_keys k ≡ true)
        × ((v : Text) × (after k ≡ some v) × (is_empty v ≡ false)))

IsManaged-then :
    (k : Text) (first second third : Vars)
    → IsManaged k first second
    → IsManaged k second third
    → IsManaged k first third
IsManaged-then k first second third (inl same) (inl kept) = inl (kept ∙ same)
IsManaged-then k first second third (inr (managed, (v, found, full))) (inl kept) =
    inr (managed, (v, kept ∙ found, full))
IsManaged-then k first second third h (inr new) = inr new

both : (a b : Bool) → (a && b) ≡ true → (a ≡ true) × (b ≡ true)
both a b h = ground arith

set_pair-IsManaged :
    (k : Text) (pair : Option (Text × Text)) (vars : Vars) → IsManaged k vars (set_pair pair vars)
unfolding set_pair set_var
set_pair-IsManaged k none vars = inl refl
set_pair-IsManaged k (some (a, v)) vars =
    elim (Bool-cases (contains_key remote_env_keys (trim a) && not (is_empty (trim v)))) [
      | inr skipped ↦ rw skipped (inl refl)
      | inl taken ↦ rw taken (assigned (both _ _ taken) (Bool-cases (eq_text (trim a) k)))
    ]
  where
    assigned :
        (contains_key remote_env_keys (trim a) ≡ true) × (not (is_empty (trim v)) ≡ true)
        → (eq_text (trim a) k ≡ true) ⊎ (eq_text (trim a) k ≡ false)
        → IsManaged k vars (set_var (trim a) (trim v) vars)
    assigned taken (inr other) = inl (rw other refl)
    assigned taken (inl same) =
        inr (rw (eq_text→eq _ _ same) at taken.0, (trim v, rw same refl, ground (arith, taken.1)))

set_remote_line-IsManaged :
    (k line : Text) (vars : Vars) → IsManaged k vars (set_remote_line line vars)
unfolding set_remote_line
set_remote_line-IsManaged k line vars =
    elim (Bool-cases (is_empty (trim line) || starts_with (codes "#") (trim line))) [
      | inl skipped ↦ rw skipped (inl refl)
      | inr taken ↦ rw taken (set_pair-IsManaged k (split_once b'=' (trim line)) vars)
    ]

set_remote_lines-IsManaged :
    (k : Text) (ls : List Text) (vars : Vars) → IsManaged k vars (set_remote_lines ls vars)
unfolding set_remote_lines
set_remote_lines-IsManaged k [] vars = inl refl
set_remote_lines-IsManaged k (l ∷ ls) vars =
    IsManaged-then k vars (set_remote_line l vars) (set_remote_lines ls (set_remote_line l vars))
      (set_remote_line-IsManaged k l vars)
      (set_remote_lines-IsManaged k ls (set_remote_line l vars))

fetch-IsManaged :
    (k : Text) (remote : Option Text) (vars : Vars)
    → IsManaged k vars (fetch_remote_defaults remote vars)
unfolding fetch_remote_defaults
fetch-IsManaged k none vars = inl refl
fetch-IsManaged k (some stdout) vars =
    set_remote_lines-IsManaged k (lines (from_utf8_lossy stdout)) vars

has_path :
    (found : Option Text) (path : Text) (vars : Vars)
    → vars (codes "SQLITE_PATH") ≡ found
    → (p : Text) × (default_path found path vars (codes "SQLITE_PATH") ≡ some p)
unfolding default_path set_var
has_path none path vars h = (path, rw (eq_text_refl (codes "SQLITE_PATH")) refl)
has_path (some t) path vars h = (t, h)

-- Whatever the remote file says, each variable has after the start the value that the .env file and
-- the process gave it, or it is one of the three managed variables and holds a text that is not
-- empty. The path of the database is always set.
pub bootstrap_vars :
    (pairs : List (Text × Text)) (remote : Option Text) (vars : Vars)
    → ((k : Text)
        → IsManaged k (load_env (config_dir vars) pairs vars) (bootstrap pairs remote vars))
      × ((p : Text) × (load_env (config_dir vars) pairs vars (codes "SQLITE_PATH") ≡ some p))
unfolding bootstrap load_env
bootstrap_vars pairs remote vars = (
  λ k. fetch-IsManaged k remote (load_env (config_dir vars) pairs vars),
  has_path _ _ (set_pairs pairs vars) refl,
)
