-- ===== src/Base/Lines.antt =====
-- The lines and the words of a text.
use Prim.Native.Nat.{ℕ}
use mathlib.Core.Bool.{Bool, true, not, ◌&&◌}
use mathlib.Core.List.{List, [], ◌∷◌, ◌++◌, reverse}
use mathlib.Core.Path.{◌≡◌, refl}
use native.Mathlib.Omega.{arith}
use tpn_worker.Base.Tests.{◌==◌, if◌then◌else◌, Bool-cases}
use mathlib.Core.Logic.{inl, inr}
use tpn_worker.Base.Lists.{length}
use tpn_worker.Base.Strings.{Text, split, is_space}

-- `str::lines`: split at line feeds, without a carriage return before one and without a last empty
-- line.
drop_cr : Text → Text
drop_cr [] = []
drop_cr (c ∷ []) = if c == 13 then [] else c ∷ []
drop_cr (c ∷ d ∷ s) = c ∷ drop_cr (d ∷ s)

line_list : List Text → List Text
unfolding drop_cr
line_list [] = []
line_list ([] ∷ []) = []
line_list (l ∷ []) = l ∷ []
line_list (l ∷ m ∷ ms) = drop_cr l ∷ line_list (m ∷ ms)

unfoldable pub lines : Text → List Text
unfolding line_list
lines s = line_list (split 10 s)

-- No line feed and no carriage return.
unfoldable pub is_plain : Text → Bool
is_plain [] = true
is_plain (c ∷ s) = not (c == 10) && not (c == 13) && is_plain s

split-plain : (p : Text) → is_plain p ≡ true → split 10 p ≡ p ∷ []
unfolding split is_plain
split-plain [] h = refl
split-plain (c ∷ s) h = ground (arith, split-plain s)

-- There is one piece at least.
split-some : (s : Text) → (q : Text) × (qs : List Text) × (split 10 s ≡ q ∷ qs)
unfolding split
split-some [] = ([], [], refl)
split-some (c ∷ s) =
    let (q, qs, e) = split-some s in
    elim (Bool-cases (c == 10)) [
      | inl feed ↦ ([], q ∷ qs, rw (e, feed) refl)
      | inr other ↦ (c ∷ q, qs, rw (e, other) refl)
    ]

-- The pieces of a text with a first line.
split-line : (p s : Text) → is_plain p ≡ true → split 10 (p ++ 10 ∷ s) ≡ p ∷ split 10 s
unfolding split is_plain
split-line [] s h = let (q, qs, e) = split-some s in rw e refl
split-line (c ∷ p) s h = ground (arith, split-line p s)

drop_cr-plain : (p : Text) → is_plain p ≡ true → drop_cr p ≡ p
unfolding drop_cr is_plain
drop_cr-plain [] h = refl
drop_cr-plain (c ∷ []) h = ground arith
drop_cr-plain (c ∷ d ∷ s) h = ground (arith, drop_cr-plain (d ∷ s))

pub lines-last : (c : ℕ) (p : Text) → is_plain (c ∷ p) ≡ true → lines (c ∷ p) ≡ (c ∷ p) ∷ []
unfolding lines line_list
lines-last c p h = rw (split-plain (c ∷ p) h) refl

line_list-line :
    (p q : Text) (qs : List Text) → line_list (p ∷ q ∷ qs) ≡ drop_cr p ∷ line_list (q ∷ qs)
unfolding line_list
line_list-line [] q qs = refl
line_list-line (c ∷ p) q qs = refl

pub lines-line : (p s : Text) → is_plain p ≡ true → lines (p ++ 10 ∷ s) ≡ p ∷ lines s
unfolding lines
lines-line p s h =
    let (q, qs, e) = split-some s in
    rw (split-line p s h, e, line_list-line p q qs, drop_cr-plain p h) refl

-- `split_whitespace`: the words between white space, none of them empty.
words_after : Text → Text → List Text
words_after [] [] = []
words_after (w ∷ ws) [] = reverse (w ∷ ws) ∷ []
words_after word (c ∷ s) =
    let next = words_after [] s in
    let longer = words_after (c ∷ word) s in
    if is_space c then (if length word == 0 then next else reverse word ∷ next) else longer

unfoldable pub split_whitespace : Text → List Text
unfolding words_after
split_whitespace s = words_after [] s
