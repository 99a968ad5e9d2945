-- ===== src/Net/Ipv6.antt =====
-- `Display` of an `Ipv6Addr`, from its sixteen bytes.
use tpn_worker.Base.{
  ℕ, ◌+◌, ◌-◌, ◌*◌, ◌/◌, ◌%◌, Bool, false, ltb, ◌==◌, ◌&&◌, List, [], ◌∷◌, ◌++◌, map, take, drop,
  join, Text, codes, if◌then◌else◌,
}
use tpn_worker.Net.Ip.{show_ipv4}

hex_digit : ℕ → ℕ
hex_digit d = if ltb d 10 then b'0' + d else b'a' + d - 10

drop_zeros : Text → Text
drop_zeros [] = []
drop_zeros (d ∷ []) = d ∷ []
drop_zeros (d ∷ e ∷ ds) = let rest = drop_zeros (e ∷ ds) in if d == b'0' then rest else d ∷ e ∷ ds

-- `{:x}` of a `u16`.
unfoldable pub show_hex : ℕ → Text
unfolding hex_digit drop_zeros
show_hex n = drop_zeros (
    hex_digit (n / 4096 % 16)
    ∷ hex_digit (n / 256 % 16)
    ∷ hex_digit (n / 16 % 16)
    ∷ hex_digit (n % 16)
    ∷ [])

unfoldable pub segments : List ℕ → List ℕ
segments (a ∷ b ∷ bs) = (a * 256 + b) ∷ segments bs
segments _ = []

record Span : Type 0 where
  start : ℕ
  len : ℕ

abbrev no_span : Span
no_span = record { start = 0; len = 0 }

extended : ℕ → Span → Span
extended i current =
    if current.len == 0
    then record { start = i; len = 1 }
    else record current { len = current.len + 1 }

-- The first of the longest runs of zeros.
longest_zeros : ℕ → Span → Span → List ℕ → Span
unfolding extended
longest_zeros i current longest [] = longest
longest_zeros i current longest (s ∷ ss) =
    let grown = extended i current in
    let zero_here = s == 0 in
    longest_zeros (i + 1) (if zero_here then grown else no_span)
      (if zero_here && ltb longest.len grown.len then grown else longest) ss

hex_groups : List ℕ → Text
unfolding show_hex
hex_groups ss = join (b':' ∷ []) (map show_hex ss)

mapped : List ℕ → Text
mapped (a ∷ b ∷ c ∷ d ∷ []) =
    codes "::ffff:" ++ show_ipv4 (record { o0 = a; o1 = b; o2 = c; o3 = d })
mapped _ = []

compressed : Span → List ℕ → Text
unfolding hex_groups
compressed longest ss =
    if ltb 1 longest.len
    then hex_groups (take longest.start ss)
      ++ (codes "::" ++ hex_groups (drop (longest.start + longest.len) ss))
    else hex_groups ss

is_mapped : List ℕ → Bool
is_mapped (a ∷ b ∷ c ∷ d ∷ e ∷ f ∷ ss) =
    (a == 0) && ((b == 0) && ((c == 0) && ((d == 0) && ((e == 0) && (f == 0xFFFF)))))
is_mapped _ = false

unfoldable pub show_ipv6 : List ℕ → Text
unfolding segments longest_zeros mapped compressed is_mapped
show_ipv6 bytes =
    let ss = segments bytes in
    if is_mapped ss
    then mapped (drop 12 bytes)
    else compressed (longest_zeros 0 no_span no_span ss) ss
