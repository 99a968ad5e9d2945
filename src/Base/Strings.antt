-- ===== src/Base/Strings.antt =====
-- Texts as the lists of their UTF-8 bytes, with the `str` methods that the program uses.
use Prim.Native.Char.{code}
use Prim.Native.String.{String}
use Prim.Native.Nat.{ℕ, ◌+◌}
use mathlib.Core.Path.{◌≡◌, refl}
use mathlib.Core.Logic.{◌↔◌}
use mathlib.Core.Bool.{Bool, true, false, ◌&&◌, ◌||◌}
use mathlib.Core.Option.{Option, none, some}
use mathlib.Core.List.{List, [], ◌∷◌, ◌++◌, reverse}
use native.Mathlib.Omega.{arith}
use tpn_worker.Base.Tests.{leb, ◌==◌, if◌then◌else◌}

abbrev pub Text : Type 0
Text = List ℕ

-- A literal's bytes, for ASCII.
abbrev pub codes : String → Text
codes String.[] = []
codes (String.◌∷◌ c s) = code c ∷ codes s

unfoldable pub eq_text : Text → Text → Bool
eq_text [] [] = true
eq_text [] (c ∷ t) = false
eq_text (c ∷ s) [] = false
eq_text (c ∷ s) (d ∷ t) = c == d && eq_text s t

pub eq_text_refl : (s : Text) → eq_text s s ≡ true
unfolding eq_text
eq_text_refl [] = refl
eq_text_refl (c ∷ s) = ground (arith, eq_text_refl s)

pub eq_text→eq : (s t : Text) → eq_text s t ≡ true → s ≡ t
unfolding eq_text
eq_text→eq [] [] h = refl
eq_text→eq [] (d ∷ t) h = cc
eq_text→eq (c ∷ s) [] h = cc
eq_text→eq (c ∷ s) (d ∷ t) h = ground (arith, eq_text→eq s t)

pub eq_text_iff : (s t : Text) → (eq_text s t ≡ true) ↔ (s ≡ t)
eq_text_iff s t = (eq_text→eq s t, λ e. rw e (eq_text_refl t))

-- `str::strip_prefix(p)`: what follows `p`.
unfoldable pub strip_prefix : Text → Text → Option Text
strip_prefix [] s = some s
strip_prefix (c ∷ p) [] = none
strip_prefix (c ∷ p) (d ∷ s) = if c == d then strip_prefix p s else none

pub strip_prefix-append : (p s : Text) → strip_prefix p (p ++ s) ≡ some s
unfolding strip_prefix
strip_prefix-append [] s = refl
strip_prefix-append (c ∷ p) s = ground (arith, strip_prefix-append p s)

pub strip_prefix-eq_some : (p s : Text) {r : Text} → strip_prefix p s ≡ some r → s ≡ p ++ r
unfolding strip_prefix
strip_prefix-eq_some [] s h = cc
strip_prefix-eq_some (c ∷ p) [] h = cc
strip_prefix-eq_some (c ∷ p) (d ∷ s) {r} h = ground (arith, strip_prefix-eq_some p s {r = r})

-- `if let Some(t) = s.strip_prefix(p) { f(t) } else { false }`
unfoldable pub after_prefix : Text → (Text → Bool) → Text → Bool
after_prefix p f s = elim (strip_prefix p s) [ none ↦ false | some t ↦ f t ]

pub after_prefix-eq_true :
    (p : Text) (f : Text → Bool) (s : Text)
    → after_prefix p f s ≡ true
    → (t : Text) × (s ≡ p ++ t) × (f t ≡ true)
unfolding after_prefix
after_prefix-eq_true p f s = stripped (strip_prefix p s) refl
  where
    stripped :
        (o : Option Text)
        → strip_prefix p s ≡ o
        → elim o as (λ x. Bool) [ none ↦ false | some t ↦ f t ] ≡ true
        → (t : Text) × (s ≡ p ++ t) × (f t ≡ true)
    stripped none e h = cc
    stripped (some t) e h = (t, strip_prefix-eq_some p s e, h)

pub after_prefix-append : (p : Text) (f : Text → Bool) (t : Text) → after_prefix p f (p ++ t) ≡ f t
unfolding after_prefix
after_prefix-append p f t = ground (arith, strip_prefix-append p t)

unfoldable pub starts_with : Text → Text → Bool
unfolding strip_prefix
starts_with p s = elim (strip_prefix p s) [ none ↦ false | some r ↦ true ]

-- `str::split(c)`: the pieces between the occurrences of a byte; one piece at least.
unfoldable pub split : ℕ → Text → List Text
split c [] = [] ∷ []
split c (d ∷ s) = elim (split c s) [
  | [] ↦ if d == c then [] ∷ [] ∷ [] else (d ∷ []) ∷ []
  | p ∷ ps ↦ if d == c then [] ∷ p ∷ ps else (d ∷ p) ∷ ps
]

-- `join`: the pieces with a separator between them.
unfoldable pub join : Text → List Text → Text
join sep [] = []
join sep (p ∷ []) = p
join sep (p ∷ q ∷ ps) = p ++ (sep ++ join sep (q ∷ ps))

-- `str::split_once(c)`: what stands before and after the first occurrence.
unfoldable pub split_once : ℕ → Text → Option (Text × Text)
split_once c [] = none
split_once c (d ∷ s) =
    let later : Option (Text × Text) = elim (split_once c s) [
      | none ↦ none
      | some (a, b) ↦ some (d ∷ a, b)
    ] in
    if d == c then some ([], s) else later

-- The ASCII white space that `str::trim` removes; the other white space of Unicode is not
-- recognised.
abbrev pub is_space : ℕ → Bool
is_space c = (leb 9 c && leb c 13) || c == 32

unfoldable pub trim_start : Text → Text
trim_start [] = []
trim_start (c ∷ s) = let rest = trim_start s in if is_space c then rest else c ∷ s

unfoldable pub trim : Text → Text
unfolding trim_start
trim s = reverse (trim_start (reverse (trim_start s)))

-- `trim_end_matches(c)`: without the last bytes that are `c`.
unfoldable pub drop_all : ℕ → Text → Text
drop_all c [] = []
drop_all c (d ∷ s) = let rest = drop_all c s in if d == c then rest else d ∷ s

unfoldable pub trim_end_matches : ℕ → Text → Text
unfolding drop_all
trim_end_matches c s = reverse (drop_all c (reverse s))

-- `is_empty`
abbrev pub is_empty : Text → Bool
is_empty [] = true
is_empty (c ∷ s) = false

-- `to_lowercase`, on ASCII.
abbrev pub lower : ℕ → ℕ
lower c = if leb b'A' c && leb c b'Z' then c + 32 else c

unfoldable pub to_lowercase : Text → Text
to_lowercase [] = []
to_lowercase (c ∷ s) = lower c ∷ to_lowercase s
