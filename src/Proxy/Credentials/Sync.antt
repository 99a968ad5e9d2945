-- ===== src/Proxy/Credentials/Sync.antt =====
-- The credentials in memory are those of the table.
use tpn_worker.Base.{
  ℕ, zero, suc, ℤ, false, Text, eq_text, eq_text→eq, eq_text_refl, List, [], ◌∷◌, Option, none,
  some, length, ◌≡◌, refl, sym, ap, ◌∙◌, arith, if◌then◌else◌, Bool-cases, Option-cases, inl, inr,
}
use tpn_worker.Error.{ok}
use tpn_worker.World.{World, Env, Socks5Config, pure, raise, bump}
use tpn_worker.World.Triple.{
  Triple, Triple-bind, Triple-then, Triple-pure, Triple-fetch, Triple-now, Triple-execute,
  Triple-draw, Triple-answer,
}
use tpn_worker.Db.Table.{update_rows, where_rows, any_row}
use tpn_worker.Db.Socks5.{has_username}
use tpn_worker.Db.Socks5.Names.{Unique}
use tpn_worker.Db.Socks5.Extension.{row_of}
use tpn_worker.Proxy.Credentials.{
  Credentials, password_of, drop_user, insert, insert_all, authenticate, draw_chars,
  generate_password, rotate_in_memory, rotate_password, load_from_db, reload_from_db,
}

-- The password of a row that may be there.
abbrev pub password_in : Option Socks5Config → Option Text
password_in none = none
password_in (some r) = some r.password

-- The password that the table has for a username.
abbrev pub stored_password : Text → List Socks5Config → Option Text
stored_password u t = password_in (row_of u t)

abbrev pub InSync : Credentials → List Socks5Config → Type 0
InSync cs t = (u : Text) → password_of u cs ≡ stored_password u t

password_of-drop :
    (u v : Text) (cs : Credentials)
    → password_of u (drop_user v cs) ≡ (if eq_text v u then none else password_of u cs)
unfolding password_of drop_user
password_of-drop u v [] = ground arith
password_of-drop u v ((i, p) ∷ cs) = elim (Bool-cases (eq_text i v)) [
  | inl same ↦ rw (eq_text→eq i v same) (ground (arith, password_of-drop u v cs, eq_text_refl v))
  | inr other ↦ elim (Bool-cases (eq_text v u)) [
    | inl here ↦
        let apart : eq_text i u ≡ false = rw (sym (eq_text→eq v u here)) other in
        ground (arith, password_of-drop u v cs)
    | inr there ↦ ground (arith, password_of-drop u v cs)
  ]
]

password_of-insert :
    (u v p : Text) (cs : Credentials)
    → password_of u (insert v p cs) ≡ (if eq_text v u then some p else password_of u cs)
unfolding password_of insert
password_of-insert u v p cs = ground (arith, password_of-drop u v cs)

row_missing :
    (u : Text) (t : List Socks5Config) → any_row (has_username u) t ≡ false → row_of u t ≡ none
unfolding any_row where_rows
row_missing u [] h = refl
row_missing u (r ∷ rs) h = ground (arith, row_missing u rs)

or_before : Option Text → Option Text → Option Text
or_before none before = before
or_before (some p) before = some p

password_of-insert_all :
    (u : Text) (t : List Socks5Config) (cs : Credentials)
    → Unique t
    → password_of u (insert_all t cs) ≡ or_before (stored_password u t) (password_of u cs)
unfolding insert_all where_rows or_before
password_of-insert_all u [] cs v = refl
password_of-insert_all u (r ∷ rs) cs v =
    password_of-insert_all u rs (insert r.username r.password cs) v.1
    ∙ (elim (Bool-cases (eq_text r.username u)) [
      | inl same ↦
          let missing : row_of u rs ≡ none =
            row_missing u rs (rw (eq_text→eq r.username u same) at v.0) in
          rw (password_of-insert u r.username r.password cs, same, missing) refl
      | inr other ↦ rw (password_of-insert u r.username r.password cs, other) refl
    ])

replaced : Text → Option Text → Option Text
replaced p none = none
replaced p (some q) = some p

stored-update :
    (u v p : Text) (now : ℤ) (t : List Socks5Config)
    → stored_password u
        (update_rows (has_username v) (λ r. record r { password = p; updated = now }) t)
      ≡ (if eq_text v u then replaced p (stored_password u t) else stored_password u t)
unfolding where_rows update_rows replaced
stored-update u v p now [] = ground arith
stored-update u v p now (r ∷ rs) = elim (Bool-cases (eq_text r.username v)) [
  | inl hit ↦
      let agree : eq_text r.username u ≡ eq_text v u =
        ap (λ (n : Text). eq_text n u) (eq_text→eq r.username v hit) in
      elim (Bool-cases (eq_text v u)) [
        | inl here ↦ rw (hit, here, agree ∙ here) refl
        | inr there ↦ rw (hit, there, agree ∙ there) (rw there at (stored-update u v p now rs))
      ]
  | inr miss ↦ elim (Bool-cases (eq_text v u)) [
    | inl here ↦
        let apart : eq_text r.username u ≡ false = rw (sym (eq_text→eq v u here)) miss in
        rw (miss, here, apart) (rw here at (stored-update u v p now rs))
    | inr there ↦ elim (Bool-cases (eq_text r.username u)) [
      | inl named ↦ rw (miss, there, named) refl
      | inr unnamed ↦ rw (miss, there, unnamed) (rw there at (stored-update u v p now rs))
    ]
  ]
]

module _ (env : Env) where
  draw_chars-state :
      (P : World → Type 0) (char : ℕ → ℕ) (choices n : ℕ)
      → ((w : World) → P w → P (bump w))
      → Triple P (draw_chars env char choices n) (λ _. P) (λ _ _. Unit)
  unfolding draw_chars
  draw_chars-state P char choices zero stable = Triple-pure [] (λ w h. h)
  draw_chars-state P char choices (suc n) stable =
      Triple-bind (λ _. P) (Triple-draw env stable)
        λ i.
          Triple-bind (λ _. P) (draw_chars-state P char choices n stable)
            (λ rest. Triple-pure _ (λ w h. h))

  generate-state :
      (P : World → Type 0)
      → ((w : World) → P w → P (bump w))
      → Triple P (generate_password env) (λ _. P) (λ _ _. Unit)
  unfolding generate_password
  generate-state P stable =
      Triple-bind (λ _. P) (draw_chars-state P _ _ _ stable) (λ chars. Triple-pure _ (λ w h. h))

  -- After a reload the table is as before, and the credentials are its.
  abbrev Loaded : List Socks5Config → ℕ → World → Type 0
  Loaded t n w = (n ≡ length t) × (w.socks ≡ t) × InSync w.credentials t

  load-Loaded :
      (t : List Socks5Config)
      → Unique t
      → Triple (λ w. w.socks ≡ t) (load_from_db env) (Loaded t) (λ _ _. Unit)
  unfolding load_from_db pure password_of or_before
  load-Loaded t unique =
      Triple-bind (λ configs w. (configs ≡ t) × (w.socks ≡ t))
        (Triple-fetch env _ (λ w h. (h, h)) (λ w h. tt))
        λ configs. record {
          at = λ w h. rw h.0 (
            refl,
            h.1,
            λ u. password_of-insert_all u t [] unique ∙ nothing_before (stored_password u t),
          );
        }
    where
      nothing_before : (o : Option Text) → or_before o none ≡ o
      nothing_before none = refl
      nothing_before (some p) = refl

  abbrev Synced : World → Type 0
  Synced w = InSync w.credentials w.socks

  -- In memory the user has the password already, in the table the old one.
  abbrev Halfway : Text → Text → World → Type 0
  Halfway u p w =
      (password_of u w.credentials ≡ some p)
      × ((v : Text)
          → password_of v w.credentials ≡ (
              if eq_text u v
              then replaced p (stored_password v w.socks)
              else stored_password v w.socks))

  memory-Halfway :
      (u p : Text) → Triple Synced (rotate_in_memory env u p) (λ _. Halfway u p) (λ _ _. Unit)
  unfolding rotate_in_memory pure raise replaced
  memory-Halfway u p = record {
    at = λ w h. elim (Option-cases (password_of u w.credentials)) [
      | inl unknown ↦ rw (unknown, rotate_in_memory) tt
      | inr (old, known) ↦
          rw (known, rotate_in_memory)
            (
              rw (password_of-insert u u p w.credentials, eq_text_refl u) refl,
              λ v. elim (Bool-cases (eq_text u v)) [
                | inr other ↦ rw (password_of-insert v u p w.credentials, other) (h v)
                | inl same ↦
                    let stored : stored_password v w.socks ≡ some old =
                      sym (h v) ∙ (rw (eq_text→eq u v same) at known) in
                    rw (password_of-insert v u p w.credentials, same, stored) refl
              ],
            )
    ];
  }

  abbrev Rotated : Text → Text → World → Type 0
  Rotated u p w = (password_of u w.credentials ≡ some p) × Synced w

  rotate-Rotated : (u : Text) → Triple Synced (rotate_password env u) (Rotated u) (λ _ _. Unit)
  unfolding rotate_password
  rotate-Rotated u =
      Triple-bind (λ _. Synced) (generate-state Synced (λ w h. h))
        λ p. Triple-then (Halfway u p) (memory-Halfway u p) (
          Triple-bind (λ _. Halfway u p) (Triple-now env (λ w h. h))
            λ now.
              Triple-then (Rotated u p)
                (Triple-execute env _
                  (λ w h. (h.0, λ v. h.1 v ∙ sym (stored-update v u p now w.socks))) (λ w h. tt))
                (Triple-pure p (λ w h. h)))

-- A reload that succeeds answers the number of rows, leaves the table as it was, and makes the
-- credentials in memory those of the table: every username has the password of its row, and one
-- without a row has none.
pub reload-InSync :
    (env : Env) (w : World) (n : ℕ)
    → Unique w.socks
    → (reload_from_db env w).0 ≡ ok n
    → (n ≡ length w.socks)
      × ((reload_from_db env w).1.socks ≡ w.socks)
      × InSync (reload_from_db env w).1.credentials w.socks
unfolding reload_from_db
reload-InSync env w n unique answer = Triple-answer (load-Loaded env w.socks unique) w refl answer

-- Where the credentials in memory are those of the table, a rotation that succeeds keeps them so,
-- and its user can then authenticate with the new password and with no other.
pub rotate-InSync :
    (env : Env) (u p q : Text) (w : World)
    → InSync w.credentials w.socks
    → (rotate_password env u w).0 ≡ ok p
    → let w' = (rotate_password env u w).1 in
      InSync w'.credentials w'.socks × (authenticate w'.credentials u q ≡ eq_text p q)
unfolding authenticate
rotate-InSync env u p q w synced answer =
    let (changed, synced') = Triple-answer (rotate-Rotated env u) w synced answer in
    (synced', rw (changed, authenticate) refl)
