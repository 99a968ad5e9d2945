-- ===== src/Api/Logs/Tail.antt =====
-- The answer is the end of the log.
use tpn_worker.Base.{
  ℕ, zero, suc, if◌then◌else◌, ◌-◌, ◌≤◌, ◌==◌, Text, List, [], ◌∷◌, ◌++◌, Option, none, some,
  length, length-append, drop, ◌≡◌, refl, ap, ◌∙◌, sym, arith, Bool-cases, inl, inr, false,
}
use mathlib.Core.List.{append_assoc, append-nil}
use tpn_worker.Api.Logs.{max_lines, lines_asked, push_line, read_ring, get_logs}

-- The lines up to the first that cannot be read.
unfoldable pub readable : List (Option Text) → List Text
readable [] = []
readable (none ∷ ls) = []
readable (some l ∷ ls) = l ∷ readable ls

unfoldable pub last_lines : ℕ → List Text → List Text
last_lines n xs = drop (length xs - n) xs

last-short : (n : ℕ) (xs : List Text) → length xs ≤ n → last_lines n xs ≡ xs
unfolding last_lines
last-short n xs le = let all : length xs - n ≡ 0 = omega arith in ap (λ (k : ℕ). drop k xs) all

last-skip :
    (n : ℕ) (x : Text) (xs : List Text) → n ≤ length xs → last_lines n (x ∷ xs) ≡ last_lines n xs
unfolding last_lines
last-skip n x xs le =
    let more : suc (length xs) - n ≡ suc (length xs - n) = omega arith in
    ap (λ (k : ℕ). drop k (x ∷ xs)) more

ring-last :
    (n : ℕ) (ring : List Text) (ls : List (Option Text))
    → 1 ≤ n
    → length ring ≤ n
    → read_ring n ring ls ≡ last_lines n (ring ++ readable ls)
unfolding read_ring readable push_line
ring-last n ring [] one le = rw (append-nil ring) (sym (last-short n ring le))
ring-last n ring (none ∷ ls) one le = rw (append-nil ring) (sym (last-short n ring le))
ring-last n [] (some l ∷ ls) one le =
    let room : (0 == n) ≡ false = ground arith in rw room (ring-last n (l ∷ []) ls one one)
ring-last n (r ∷ rs) (some l ∷ ls) one le = elim (Bool-cases (suc (length rs) == n)) [
  | inl full ↦
      let size : suc (length rs) ≡ n = ground arith in
      let fits : length (rs ++ l ∷ []) ≤ n = rw (length-append rs (l ∷ [])) (omega arith) in
      let over : n ≤ length (rs ++ l ∷ readable ls) =
        rw (length-append rs (l ∷ readable ls)) (omega arith) in
      rw full (
        ring-last n (rs ++ l ∷ []) ls one fits
        ∙ ap (last_lines n) (append_assoc rs (l ∷ []) (readable ls))
        ∙ sym (last-skip n r (rs ++ l ∷ readable ls) over))
  | inr room ↦
      let fits : suc (length (rs ++ l ∷ [])) ≤ n = rw (length-append rs (l ∷ [])) (ground arith) in
      rw room (
        ring-last n (r ∷ rs ++ l ∷ []) ls one fits
        ∙ ap (λ (t : List Text). last_lines n (r ∷ t)) (append_assoc rs (l ∷ []) (readable ls)))
]

unbounded :
    (ring : List Text) (ls : List (Option Text))
    → 1 ≤ length ring
    → read_ring 0 ring ls ≡ ring ++ readable ls
unfolding read_ring readable push_line
unbounded ring [] one = sym (append-nil ring)
unbounded ring (none ∷ ls) one = sym (append-nil ring)
unbounded [] (some l ∷ ls) one = absurd (omega arith)
unbounded (r ∷ rs) (some l ∷ ls) one =
    let kept : (suc (length rs) == 0) ≡ false = ground arith in
    rw kept (
      unbounded (r ∷ rs ++ l ∷ []) ls (omega arith)
      ∙ ap (λ (t : List Text). r ∷ t) (append_assoc rs (l ∷ []) (readable ls)))

ring-zero : (ls : List (Option Text)) → read_ring 0 [] ls ≡ readable ls
unfolding read_ring readable push_line
ring-zero [] = refl
ring-zero (none ∷ ls) = refl
ring-zero (some l ∷ ls) = unbounded (l ∷ []) ls (omega arith)

ring-asked :
    (n : ℕ) (ls : List (Option Text))
    → read_ring n [] ls ≡ (if n == 0 then readable ls else last_lines n (readable ls))
ring-asked zero ls = ring-zero ls
ring-asked (suc n) ls =
    let some_asked : (suc n == 0) ≡ false = ground arith in
    rw some_asked (ring-last (suc n) [] ls (omega arith) (omega arith))

-- A request is answered with the last lines of the log that can be read, as many as were asked for
-- and at most a thousand, or with all of them where there are fewer. A request for no lines is
-- answered with all of them.
pub get_logs_last :
    (asked : Option ℕ) (reader : List (Option Text))
    → (lines_asked asked ≤ max_lines)
      × (get_logs asked (some reader)
          ≡ some (
              if lines_asked asked == 0
              then readable reader
              else last_lines (lines_asked asked) (readable reader)))
unfolding get_logs lines_asked
get_logs_last none reader = (omega arith, ap some (ring-asked _ reader))
get_logs_last (some n) reader = (omega arith, ap some (ring-asked _ reader))
