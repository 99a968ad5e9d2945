-- ===== src/Base/Decimal.antt =====
-- Numbers as decimal text, and `str::parse` of the integer types.
use Prim.Native.Nat.{ℕ, zero, suc, ◌+◌, ◌-◌, ◌*◌, ◌/◌, ◌%◌, ◌^◌}
use mathlib.Core.Bool.{Bool, ◌&&◌}
use mathlib.Core.Option.{Option, none, some}
use mathlib.Core.List.{[], ◌∷◌, ◌++◌}
use tpn_worker.Base.Tests.{ltb, leb, ◌==◌, if◌then◌else◌}
use tpn_worker.Base.Int.{ℤ, pos, negsuc}
use tpn_worker.Base.Strings.{Text}

-- The fuel is the number itself: each round divides it by ten.
show_digits : ℕ → ℕ → Text
show_digits zero n = (b'0' + n) ∷ []
show_digits (suc f) n =
    let more = show_digits f (n / 10) ++ (b'0' + n % 10) ∷ [] in
    if ltb n 10 then (b'0' + n) ∷ [] else more

-- `to_string` of an unsigned integer.
unfoldable pub show_nat : ℕ → Text
unfolding show_digits
show_nat n = show_digits n n

-- `to_string` of a signed integer.
unfoldable pub show_int : ℤ → Text
unfolding show_nat
show_int (pos n) = show_nat n
show_int (negsuc n) = b'-' ∷ show_nat (suc n)

abbrev pub is_digit : ℕ → Bool
is_digit c = leb b'0' c && leb c b'9'

read_digits : ℕ → Text → Option ℕ
read_digits n [] = some n
read_digits n (c ∷ s) =
    let rest = read_digits (n * 10 + (c - b'0')) s in if is_digit c then rest else none

-- One digit at least.
unfoldable pub parse_nat : Text → Option ℕ
unfolding read_digits
parse_nat [] = none
parse_nat (c ∷ s) = read_digits 0 (c ∷ s)

within : ℕ → Option ℕ → Option ℤ
within bound none = none
within bound (some n) = if ltb n bound then some (pos n) else none

negated : ℕ → Option ℕ → Option ℤ
negated bound none = none
negated bound (some zero) = some (pos 0)
negated bound (some (suc n)) = if ltb n bound then some (negsuc n) else none

-- `parse::<i32>` at bound 2^31 and `parse::<i64>` at bound 2^63: a sign is allowed.
unfoldable pub parse_int : ℕ → Text → Option ℤ
unfolding within negated parse_nat
parse_int bound [] = none
parse_int bound (c ∷ s) =
    if c == b'-'
    then negated bound (parse_nat s)
    else if c == b'+'
    then within bound (parse_nat s)
    else within bound (parse_nat (c ∷ s))

-- `parse::<u32>`: a plus sign is allowed.
unfoldable pub parse_u32 : Text → Option ℕ
unfolding parse_nat
parse_u32 [] = none
parse_u32 (c ∷ s) =
    let digits = if c == b'+' then parse_nat s else parse_nat (c ∷ s) in
    elim digits [ none ↦ none | some n ↦ if ltb n (2 ^ 32) then some n else none ]
