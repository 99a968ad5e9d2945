-- ===== src/Wireguard/Network/Rules.antt =====
-- How the setup of the network changes the rules of the firewall, where any command may fail.
use tpn_worker.Base.{
  ℕ, ◌+◌, ◌≤◌, max, ltb, Bool, true, false, ◌&&◌, Text, eq_text, eq_text→eq, eq_text_refl, List, [],
  ◌∷◌, ◌++◌, Option, none, some, if◌then◌else◌, ◌≡◌, refl, ap, ◌∙◌, arith, Bool-cases, ◌⊎◌, inl,
  inr,
}
use tpn_worker.Wireguard.Network.{
  Rule, Host, passes, ensure_rule, ensure_route, prints, after_check, allow_rule,
}

unfoldable pub same_texts : List Text → List Text → Bool
same_texts [] [] = true
same_texts [] (t ∷ ts) = false
same_texts (s ∷ ss) [] = false
same_texts (s ∷ ss) (t ∷ ts) = eq_text s t && same_texts ss ts

unfoldable pub same_rule : Rule → Rule → Bool
unfolding same_texts
same_rule q r =
    eq_text q.table r.table && (eq_text q.chain r.chain && same_texts q.arguments r.arguments)

-- How often a rule stands in the firewall.
unfoldable pub count_rule : Rule → List Rule → ℕ
count_rule q [] = 0
count_rule q (r ∷ rs) = let rest = count_rule q rs in if same_rule q r then 1 + rest else rest

-- What the manual of iptables says, of a host whose rules are read off its state. A check tells
-- whether the rule is there, or else the rules may not be changed either. To append a rule puts it
-- behind the others, or fails and changes nothing. No other command changes the rules.
pub record FirewallLaws {S : Type 0} (host : Host S) (rules : S → List Rule) : Type 0 where
  pub checked :
      (r : Rule) (s : S)
      → (passes (host.check r s) ≡ ltb 0 (count_rule r (rules s))) ⊎ (host.append r s ≡ s)
  pub appended :
      (r : Rule) (s : S) → (rules (host.append r s) ≡ rules s ++ r ∷ []) ⊎ (host.append r s ≡ s)
  pub forward_rules : (s : S) → rules (host.forward s) ≡ rules s
  pub route_rules : (n d : Text) (s : S) → rules (host.route_add n d s) ≡ rules s

same_texts→eq : (ss ts : List Text) → same_texts ss ts ≡ true → ss ≡ ts
unfolding same_texts
same_texts→eq [] [] h = refl
same_texts→eq [] (t ∷ ts) h = cc h
same_texts→eq (s ∷ ss) [] h = cc h
same_texts→eq (s ∷ ss) (t ∷ ts) h = ground (arith, eq_text→eq s t, same_texts→eq ss ts)

same_texts_refl : (ts : List Text) → same_texts ts ts ≡ true
unfolding same_texts
same_texts_refl [] = refl
same_texts_refl (t ∷ ts) = rw (eq_text_refl t) (same_texts_refl ts)

pub same_rule_refl : (r : Rule) → same_rule r r ≡ true
unfolding same_rule
same_rule_refl r = rw (eq_text_refl r.table, eq_text_refl r.chain) (same_texts_refl r.arguments)

same_rule→eq : (q r : Rule) → same_rule q r ≡ true → q ≡ r
unfolding same_rule
same_rule→eq q r h = ground (
  arith,
  eq_text→eq q.table r.table,
  eq_text→eq q.chain r.chain,
  same_texts→eq q.arguments r.arguments,
)

pub count-append :
    (q r : Rule) (rs : List Rule)
    → count_rule q (rs ++ r ∷ []) ≡ count_rule q rs + (if same_rule q r then 1 else 0)
unfolding count_rule
count-append q r [] = ground arith
count-append q r (x ∷ rs) = ground (arith, count-append q r rs)

-- The states that commands which change the host lead to.
pub data Reaches {S : Type 0} (host : Host S) (s : S) : S → Type 0 where
  here : Reaches host s s
  appending : {t : S} (r : Rule) → Reaches host s t → Reaches host s (host.append r t)
  routing : {t : S} (n d : Text) → Reaches host s t → Reaches host s (host.route_add n d t)
  forwarding : {t : S} → Reaches host s t → Reaches host s (host.forward t)

module _ {S : Type 0} (host : Host S) (rules : S → List Rule) (laws : FirewallLaws host rules) where
  abbrev count : Rule → S → ℕ
  count q s = count_rule q (rules s)

  -- No rule is taken away, and none that is there is put there again.
  pub record IsCareful (f : S → S) : Type 0 where
    pub keeps : (q : Rule) (s : S) → count q s ≤ count q (f s)
    pub once : (q : Rule) (s : S) → count q (f s) ≤ max 1 (count q s)
    pub reaches : (origin s : S) → Reaches host origin s → Reaches host origin (f s)

  abbrev Between : Rule → S → S → Type 0
  Between q s t = (count q s ≤ count q t) × (count q t ≤ max 1 (count q s))

  careful :
      {f : S → S}
      → ((origin s : S) → Reaches host origin s → Reaches host origin (f s))
      → ((q : Rule) (s : S) → Between q s (f s))
      → IsCareful f
  careful reaches h = record {
    keeps = λ q s. (h q s).0;
    once = λ q s. (h q s).1;
    reaches = reaches;
  }

  same_rules : (q : Rule) {s t : S} → rules t ≡ rules s → Between q s t
  same_rules q e = rw e (omega arith, omega arith)

  pub IsCareful-then : {f g : S → S} → IsCareful f → IsCareful g → IsCareful (λ s. g (f s))
  IsCareful-then {f} a b =
      careful (λ o s r. b.reaches o (f s) (a.reaches o s r))
        (λ q s.
          let first = a.keeps q s in
          let second = b.keeps q (f s) in
          let first_once = a.once q s in
          let second_once = b.once q (f s) in (omega arith, omega arith))

  -- A rule that is found missing is put there once.
  appended-Between :
      (q r : Rule) (s : S) → passes (host.check r s) ≡ false → Between q s (host.append r s)
  appended-Between q r s missing = elim (laws.checked r s) [
    | inr refused ↦ rw refused (omega arith, omega arith)
    | inl true_answer ↦ elim (laws.appended r s) [
      | inr refused ↦ rw refused (omega arith, omega arith)
      | inl new ↦
          let size : count q (host.append r s) ≡ count q s + (if same_rule q r then 1 else 0) =
            ap (count_rule q) new ∙ count-append q r (rules s) in
          elim (Bool-cases (same_rule q r)) [
            | inr other ↦ (ground (arith, size), ground (arith, size))
            | inl same ↦
                let absent : count r s ≡ 0 = ground (arith, true_answer) in
                let none_yet : count q s ≡ 0 =
                  ap (λ (p : Rule). count p s) (same_rule→eq q r same) ∙ absent in
                (ground (arith, size), ground (arith, size))
          ]
    ]
  ]

  pub ensure_rule-IsCareful : (r : Rule) → IsCareful (ensure_rule host r)
  unfolding ensure_rule
  ensure_rule-IsCareful r =
      careful
        (λ o s h. elim (Bool-cases (passes (host.check r s))) [
          | inl there ↦ rw there h
          | inr missing ↦ rw missing (appending r h)
        ])
        λ q s. elim (Bool-cases (passes (host.check r s))) [
          | inl there ↦ rw there (omega arith, omega arith)
          | inr missing ↦ rw missing (appended-Between q r s missing)
        ]

  checked_first :
      (q r : Rule) (s : S) (b : Option Bool)
      → host.check r s ≡ b
      → Between q s (after_check host b r s)
  unfolding after_check
  checked_first q r s none e = (omega arith, omega arith)
  checked_first q r s (some true) e = (omega arith, omega arith)
  checked_first q r s (some false) e = appended-Between q r s (ap passes e)

  check-Reaches :
      (origin : S) (r : Rule) (s : S) (b : Option Bool)
      → Reaches host origin s
      → Reaches host origin (after_check host b r s)
  unfolding after_check
  check-Reaches origin r s none h = h
  check-Reaches origin r s (some true) h = h
  check-Reaches origin r s (some false) h = appending r h

  pub allow_rule-IsCareful : (r : Rule) → IsCareful (allow_rule host r)
  unfolding allow_rule
  allow_rule-IsCareful r =
      careful (λ o s h. check-Reaches o r s (host.check r s) h)
        λ q s. checked_first q r s (host.check r s) refl

  pub ensure_route-IsCareful : (n d : Text) → IsCareful (ensure_route host n d)
  unfolding ensure_route
  ensure_route-IsCareful n d =
      careful
        (λ o s h. elim (Bool-cases (prints (host.route_show n s))) [
          | inl there ↦ rw there h
          | inr missing ↦ rw missing (routing n d h)
        ])
        λ q s. elim (Bool-cases (prints (host.route_show n s))) [
          | inl there ↦ rw there (omega arith, omega arith)
          | inr missing ↦ rw missing (same_rules q (laws.route_rules n d s))
        ]

  pub forward-IsCareful : IsCareful host.forward
  forward-IsCareful = careful (λ o s h. forwarding h) λ q s. same_rules q (laws.forward_rules s)

  -- A rule is there, or in a state that commands led to from the first it could not be checked, or
  -- to append it changes nothing.
  abbrev pub IsRefused : Rule → S → Type 0
  IsRefused r origin =
      (t : S) × Reaches host origin t × ((host.append r t ≡ t) ⊎ (host.check r t ≡ none))

  abbrev pub IsThere : Rule → S → S → Type 0
  IsThere r origin s = (1 ≤ count r s) ⊎ IsRefused r origin

  pub IsThere-after :
      {f : S → S}
      → IsCareful f
      → (r : Rule) (origin s : S) → IsThere r origin s
      → IsThere r origin (f s)
  IsThere-after f r origin s (inl there) = let kept = f.keeps r s in inl (omega arith)
  IsThere-after f r origin s (inr refused) = inr refused

  appended-IsThere :
      (r : Rule) (origin s : S) → Reaches host origin s → IsThere r origin (host.append r s)
  appended-IsThere r origin s reached = elim (laws.appended r s) [
    | inr refused ↦ inr (s, reached, inl refused)
    | inl new ↦
        let size = ap (count_rule r) new ∙ count-append r r (rules s) in
        inl (ground (arith, size, same_rule_refl r))
  ]

  found-IsThere :
      (r : Rule) (origin s : S)
      → Reaches host origin s
      → passes (host.check r s) ≡ true
      → IsThere r origin s
  found-IsThere r origin s reached found = elim (laws.checked r s) [
    | inr refused ↦ inr (s, reached, inl refused)
    | inl true_answer ↦ inl (ground (arith, true_answer))
  ]

  pub ensure_rule-IsThere :
      (r : Rule) (origin s : S) → Reaches host origin s → IsThere r origin (ensure_rule host r s)
  unfolding ensure_rule
  ensure_rule-IsThere r origin s reached = elim (Bool-cases (passes (host.check r s))) [
    | inl there ↦ rw there (found-IsThere r origin s reached there)
    | inr missing ↦ rw missing (appended-IsThere r origin s reached)
  ]

  checked-IsThere :
      (r : Rule) (origin s : S)
      → Reaches host origin s
      → (b : Option Bool) → host.check r s ≡ b
      → IsThere r origin (after_check host b r s)
  unfolding after_check
  checked-IsThere r origin s reached none e = inr (s, reached, inr e)
  checked-IsThere r origin s reached (some true) e = found-IsThere r origin s reached (ap passes e)
  checked-IsThere r origin s reached (some false) e = appended-IsThere r origin s reached

  pub allow_rule-IsThere :
      (r : Rule) (origin s : S) → Reaches host origin s → IsThere r origin (allow_rule host r s)
  unfolding allow_rule
  allow_rule-IsThere r origin s reached = checked-IsThere r origin s reached (host.check r s) refl
