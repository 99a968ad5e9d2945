-- ===== src/Api/Admin/Settings.antt =====
-- What an update makes of the lines of the .env file.
use tpn_worker.Base.{
  Bool, true, false, not, ◌&&◌, ◌||◌, Text, eq_text, eq_text→eq, eq_text_refl, List, [], ◌∷◌, ◌++◌,
  some, if◌then◌else◌, is_empty, is_plain, join, lines, ◌≡◌, refl, sym, ap, ◌∙◌, arith, Bool-cases,
  inl, inr,
}
use tpn_worker.Db.Table.{any_row, where_rows, all_rows}
use tpn_worker.Api.Admin.{
  sets, new_line, replace_lines, set_lines, ends_line, updated_content, EnvFile, update_env_value,
}
use tpn_worker.Api.Admin.Content.{ends_blank, written, lines-written, ends_line-written}

module _ (key value : Text) (known : sets key (new_line key value) ≡ true) where
  -- A line that sets the key, if any, is the new one.
  abbrev settled : Text → Bool
  settled l = not (sets key l) || eq_text l (new_line key value)

  any-replace :
      (ls : List Text) → any_row (sets key) (replace_lines key value ls) ≡ any_row (sets key) ls
  unfolding replace_lines any_row
  any-replace [] = refl
  any-replace (l ∷ ls) = ground (arith, known, any-replace ls)

  others-replace :
      (ls : List Text)
      → where_rows (λ l. not (sets key l)) (replace_lines key value ls)
        ≡ where_rows (λ l. not (sets key l)) ls
  unfolding replace_lines where_rows
  others-replace [] = refl
  others-replace (l ∷ ls) = ground (arith, known, others-replace ls)

  settled-replace : (ls : List Text) → all_rows settled (replace_lines key value ls) ≡ true
  unfolding replace_lines all_rows
  settled-replace [] = refl
  settled-replace (l ∷ ls) =
      ground (arith, known, eq_text_refl (new_line key value), settled-replace ls)

  settled-append :
      (ls : List Text)
      → all_rows settled ls ≡ true
      → all_rows settled (ls ++ new_line key value ∷ []) ≡ true
  unfolding all_rows
  settled-append [] h = ground (arith, known, eq_text_refl (new_line key value))
  settled-append (l ∷ ls) h = ground (arith, settled-append ls)

  any-append : (ls : List Text) → any_row (sets key) (ls ++ new_line key value ∷ []) ≡ true
  unfolding any_row
  any-append [] = ground (arith, known)
  any-append (l ∷ ls) = ground (arith, any-append ls)

  others-append :
      (ls : List Text)
      → where_rows (λ l. not (sets key l)) (ls ++ new_line key value ∷ [])
        ≡ where_rows (λ l. not (sets key l)) ls
  unfolding where_rows
  others-append [] = ground (arith, known)
  others-append (l ∷ ls) = ground (arith, others-append ls)

  replace_settled : (ls : List Text) → all_rows settled ls ≡ true → replace_lines key value ls ≡ ls
  unfolding replace_lines all_rows
  replace_settled [] h = refl
  replace_settled (l ∷ ls) h = ground (arith, replace_settled ls, eq_text→eq l (new_line key value))

  -- What an update gives.
  abbrev Set : List Text → List Text → Type 0
  Set ls out =
      (any_row (sets key) out ≡ true)
      × (all_rows settled out ≡ true)
      × (where_rows (λ l. not (sets key l)) out ≡ where_rows (λ l. not (sets key l)) ls)

  set_lines-Set : (ls : List Text) → Set ls (set_lines key value ls)
  unfolding set_lines
  set_lines-Set ls = elim (Bool-cases (any_row (sets key) ls)) [
    | inl present ↦ rw present (any-replace ls ∙ present, settled-replace ls, others-replace ls)
    | inr absent ↦ rw absent (
      any-append (replace_lines key value ls),
      settled-append (replace_lines key value ls) (settled-replace ls),
      others-append (replace_lines key value ls) ∙ others-replace ls,
    )
  ]

  set_lines_again :
      (ls : List Text) → set_lines key value (set_lines key value ls) ≡ set_lines key value ls
  unfolding set_lines
  set_lines_again ls =
      let (some_line, all_new, others) = set_lines-Set ls in
      rw (some_line, set_lines) (replace_settled (set_lines key value ls) all_new)

module _ (key value : Text) where
  new_line-full : is_empty (new_line key value) ≡ false
  new_line-full = full key
    where
      full : (k : Text) → is_empty (k ++ b'=' ∷ value) ≡ false
      full [] = refl
      full (c ∷ k) = refl

  append-plain :
      (ls : List Text)
      → is_plain (new_line key value) ≡ true
      → all_rows is_plain ls ≡ true
      → all_rows is_plain (ls ++ new_line key value ∷ []) ≡ true
  unfolding all_rows
  append-plain [] new h = ground (arith, new)
  append-plain (l ∷ ls) new h = ground (arith, append-plain ls)

  replace-plain :
      (ls : List Text)
      → is_plain (new_line key value) ≡ true
      → all_rows is_plain ls ≡ true
      → all_rows is_plain (replace_lines key value ls) ≡ true
  unfolding all_rows replace_lines
  replace-plain [] new h = refl
  replace-plain (l ∷ ls) new h = ground (arith, replace-plain ls)

  append-ends_blank : (ls : List Text) → ends_blank (ls ++ new_line key value ∷ []) ≡ false
  unfolding ends_blank
  append-ends_blank [] = new_line-full
  append-ends_blank (l ∷ []) = new_line-full
  append-ends_blank (l ∷ m ∷ ls) = append-ends_blank (m ∷ ls)

  replace-ends_blank :
      (ls : List Text) → ends_blank ls ≡ false → ends_blank (replace_lines key value ls) ≡ false
  unfolding ends_blank replace_lines
  replace-ends_blank [] h = refl
  replace-ends_blank (l ∷ []) h = ground (arith, new_line-full)
  replace-ends_blank (l ∷ m ∷ ls) h = replace-ends_blank (m ∷ ls) h

  -- The lines after an update, of which there is one at least, can be written and read again.
  set_lines-some :
      (ls : List Text)
      → is_plain (new_line key value) ≡ true
      → all_rows is_plain ls ≡ true
      → ends_blank ls ≡ false
      → (m : Text) × (ms : List Text) × (set_lines key value ls ≡ m ∷ ms)
        × (all_rows is_plain (m ∷ ms) ≡ true)
        × (ends_blank (m ∷ ms) ≡ false)
  unfolding set_lines any_row replace_lines
  set_lines-some [] new h e =
      (new_line key value, [], refl, append-plain [] new h, append-ends_blank [])
  set_lines-some (l ∷ ls) new h e =
      let line = if sets key l then new_line key value else l in
      let kept = replace_lines key value ls in
      elim (Bool-cases (any_row (sets key) (l ∷ ls))) [
        | inl present ↦ (
          line,
          kept,
          rw present refl,
          replace-plain (l ∷ ls) new h,
          replace-ends_blank (l ∷ ls) e,
        )
        | inr absent ↦ (
          line,
          kept ++ new_line key value ∷ [],
          rw absent refl,
          append-plain (line ∷ kept) new (replace-plain (l ∷ ls) new h),
          append-ends_blank (line ∷ kept),
        )
      ]

  -- The text that is written: a line feed is added where one was.
  ended :
      (b : Bool) (m : Text) (ms : List Text)
      → all_rows is_plain (m ∷ ms) ≡ true
      → ends_blank (m ∷ ms) ≡ false
      → let t = join (10 ∷ []) (m ∷ ms) in
        (if b && not (ends_line t) then t ++ 10 ∷ [] else t) ≡ written b (m ∷ ms)
  ended false m ms plain last = refl
  ended true m ms plain last =
      let open_end : ends_line (join (10 ∷ []) (m ∷ ms)) ≡ false =
        ends_line-written false m ms plain last in
      rw open_end refl

  -- The file after an update has the new lines, and a line feed at its end where it had one.
  updated-lines :
      (content : Text)
      → is_plain (new_line key value) ≡ true
      → all_rows is_plain (lines content) ≡ true
      → ends_blank (lines content) ≡ false
      → let t = updated_content key value content in
        (t ≡ written (ends_line content) (set_lines key value (lines content)))
        × (lines t ≡ set_lines key value (lines content))
        × (ends_line t ≡ ends_line content)
  unfolding updated_content
  updated-lines content new h e =
      let (m, ms, some_line, plain, last) = set_lines-some (lines content) new h e in
      let b = ends_line content in
      let is : updated_content key value content ≡ written b (m ∷ ms) =
        rw some_line (ended b m ms plain last) in
      (
        is ∙ ap (written b) (sym some_line),
        ap lines is ∙ lines-written b m ms plain last ∙ sym some_line,
        ap ends_line is ∙ ends_line-written b m ms plain last,
      )

  -- An update with nothing left to change.
  updated_again :
      (content : Text)
      → sets key (new_line key value) ≡ true
      → is_plain (new_line key value) ≡ true
      → all_rows is_plain (lines content) ≡ true
      → ends_blank (lines content) ≡ false
      → let t = updated_content key value content in updated_content key value t ≡ t
  updated_again content known new h e =
      let t = updated_content key value content in
      let (m, ms, some_line, plain, last) = set_lines-some (lines content) new h e in
      let (is, new_lines, same_end) = updated-lines content new h e in
      let read : lines t ≡ m ∷ ms = new_lines ∙ some_line in
      let (again, _, _) = updated-lines t new (rw read plain) (rw read last) in
      again ∙ rw (same_end, new_lines, set_lines_again key value known (lines content)) (sym is)

-- Where a file can be read and written, the new line sets the key, neither it nor a line of the
-- file holds a line feed or a carriage return, and the last line of the file is not empty, an update
-- succeeds, and of the written file some line sets the key, every line that sets the key is the new
-- one, and the other lines and their order are those of the file before; and the same update once
-- more succeeds and leaves the file as it is.
pub update_env_value_settled :
    (key value content : Text) (f : EnvFile)
    → f.content ≡ some content
    → f.writable ≡ true
    → sets key (new_line key value) ≡ true
    → is_plain (new_line key value) ≡ true
    → all_rows is_plain (lines content) ≡ true
    → ends_blank (lines content) ≡ false
    → let t = updated_content key value content in
      let g = record f { content = some t } in
      (update_env_value key value f ≡ (true, g))
      × (any_row (sets key) (lines t) ≡ true)
      × (all_rows (λ l. not (sets key l) || eq_text l (new_line key value)) (lines t) ≡ true)
      × (where_rows (λ l. not (sets key l)) (lines t)
          ≡ where_rows (λ l. not (sets key l)) (lines content))
      × (update_env_value key value g ≡ (true, g))
unfolding update_env_value
update_env_value_settled key value content f readable can_write known new h e =
    let new_lines = (updated-lines key value content new h e).1 in
    let (some_line, all_new, others) = set_lines-Set key value known (lines content) in
    (
      rw (readable, can_write) refl,
      rw new_lines some_line,
      rw new_lines all_new,
      rw new_lines others,
      rw (can_write, updated_again key value content known new h e) refl,
    )
