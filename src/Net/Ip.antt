-- ===== src/Net/Ip.antt =====
-- net/ip.rs: IPv4 addresses as text, and the requests that count as local.
use tpn_worker.Base.{
  ℕ, ◌/◌, Bool, true, false, ◌&&◌, ◌||◌, leb, Text, eq_text, codes, List, [], ◌∷◌, ◌++◌, Option,
  none, some, take, split, join, trim, strip_prefix, starts_with, parse_nat, parse_u32, show_nat,
  if◌then◌else◌,
}

pub record Ipv4 : Type 0 where
  pub o0 : ℕ
  pub o1 : ℕ
  pub o2 : ℕ
  pub o3 : ℕ

-- `Display` of an `Ipv4Addr`.
unfoldable pub show_ipv4 : Ipv4 → Text
show_ipv4 a =
    show_nat a.o0 ++ (b'.' ∷ show_nat a.o1 ++ (b'.' ∷ show_nat a.o2 ++ (b'.' ∷ show_nat a.o3)))

-- An octet of an address: up to three digits, no leading zero, at most 255.
unfoldable pub parse_octet : Text → Option ℕ
parse_octet s = elim (parse_nat s) [
  | none ↦ none
  | some n ↦ if leb n 255 && eq_text (show_nat n) s then some n else none
]

join_octets : Option ℕ → Option ℕ → Option ℕ → Option ℕ → Option Ipv4
join_octets (some a) (some b) (some c) (some d) = some (record { o0 = a; o1 = b; o2 = c; o3 = d })
join_octets _ _ _ _ = none

parse_octets : List Text → Option Ipv4
parse_octets (a ∷ b ∷ c ∷ d ∷ []) =
    join_octets (parse_octet a) (parse_octet b) (parse_octet c) (parse_octet d)
parse_octets _ = none

-- `Ipv4Addr::from_str`
unfoldable pub parse_ipv4 : Text → Option Ipv4
unfolding parse_octets join_octets
parse_ipv4 s = parse_octets (split b'.' s)

-- An address that parses as an IPv6 address is not valid either, so only `Ipv4Addr` counts.
unfoldable pub is_valid_ipv4 : Text → Bool
is_valid_ipv4 s = elim (parse_ipv4 s) [ none ↦ false | some a ↦ true ]

or_self : Option Text → Text → Text
or_self none s = s
or_self (some r) s = r

unfoldable pub sanitize_ipv4 : Text → Text
unfolding or_self
sanitize_ipv4 ip =
    let trimmed = trim ip in
    let stripped = or_self (strip_prefix (codes "::ffff:") trimmed) trimmed in
    if eq_text stripped (codes "::1") then codes "127.0.0.1" else stripped

-- `parse::<u32>` of the mask, 16 where there is none or it does not parse.
mask_bits : List Text → ℕ
mask_bits (ip ∷ m ∷ rest) = elim (parse_u32 m) [ none ↦ 16 | some n ↦ n ]
mask_bits _ = 16

first_part : List Text → Text
first_part [] = []
first_part (p ∷ ps) = p

dotted : List Text → Text
dotted [] = []
dotted (p ∷ ps) = join (b'.' ∷ []) (p ∷ ps) ++ b'.' ∷ []

unfoldable pub subnet_prefix : Text → Text
unfolding mask_bits first_part dotted
subnet_prefix cidr =
    let parts = split b'/' cidr in
    let significant_octets = mask_bits parts / 8 in
    dotted (take significant_octets (split b'.' (first_part parts)))

unfoldable pub is_local_ip : Text → Text → Text → Bool
is_local_ip ip internal_subnet external_subnet =
    let sanitized = sanitize_ipv4 ip in
    eq_text sanitized (codes "127.0.0.1")
    || (eq_text sanitized (codes "localhost")
        || (eq_text sanitized (codes "::1")
            || (starts_with (subnet_prefix internal_subnet) sanitized
                || starts_with (subnet_prefix external_subnet) sanitized)))
