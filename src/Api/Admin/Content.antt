-- ===== src/Api/Admin/Content.antt =====
-- The text of a file that is written from its lines.
use tpn_worker.Base.{
  ℕ, Bool, true, false, is_empty, Text, List, [], ◌∷◌, ◌++◌, join, split, lines, is_plain,
  lines-line, lines-last, ◌≡◌, refl, ap, ◌∙◌, arith,
}
use mathlib.Core.List.{append_assoc}
use tpn_worker.Db.Table.{all_rows}
use tpn_worker.Api.Admin.{ends_line}

-- Whether the last line is empty.
unfoldable pub ends_blank : List Text → Bool
ends_blank [] = false
ends_blank (l ∷ []) = is_empty l
ends_blank (l ∷ m ∷ ls) = ends_blank (m ∷ ls)

ends_line-append : (p : Text) (c : ℕ) (s : Text) → ends_line (p ++ c ∷ s) ≡ ends_line (c ∷ s)
unfolding ends_line
ends_line-append [] c s = refl
ends_line-append (a ∷ []) c s = refl
ends_line-append (a ∷ b ∷ p) c s = ends_line-append (b ∷ p) c s

ends_line-plain : (p : Text) → is_plain p ≡ true → ends_line p ≡ false
unfolding ends_line is_plain
ends_line-plain [] h = refl
ends_line-plain (c ∷ []) h = ground arith
ends_line-plain (c ∷ d ∷ p) h = ground (arith, ends_line-plain (d ∷ p))

-- What is written, with or without a line feed after its last line.
abbrev pub written : Bool → List Text → Text
written false ls = join (10 ∷ []) ls
written true ls = join (10 ∷ []) ls ++ 10 ∷ []

-- The text of two lines or more.
written-more :
    (b : Bool) (p q : Text) (ls : List Text) → written b (p ∷ q ∷ ls) ≡ p ++ 10 ∷ written b (q ∷ ls)
unfolding join
written-more false p q ls = refl
written-more true p q ls = append_assoc p (10 ∷ join (10 ∷ []) (q ∷ ls)) (10 ∷ [])

-- A text whose last line is not empty is not.
join-some :
    (l : Text) (ls : List Text)
    → ends_blank (l ∷ ls) ≡ false
    → (c : ℕ) × (s : Text) × (join (10 ∷ []) (l ∷ ls) ≡ c ∷ s)
unfolding join ends_blank
join-some [] [] e = absurd (cc e)
join-some (c ∷ l) [] e = (c, l, refl)
join-some [] (m ∷ ls) e = (10, join (10 ∷ []) (m ∷ ls), refl)
join-some (c ∷ l) (m ∷ ls) e = (c, l ++ 10 ∷ join (10 ∷ []) (m ∷ ls), refl)

-- The lines of what is written are the ones it was written from.
pub lines-written :
    (b : Bool) (l : Text) (ls : List Text)
    → all_rows is_plain (l ∷ ls) ≡ true
    → ends_blank (l ∷ ls) ≡ false
    → lines (written b (l ∷ ls)) ≡ l ∷ ls
unfolding all_rows ends_blank join lines split
lines-written false [] [] h e = cc e
lines-written false (c ∷ l) [] h e = lines-last c l (ground arith)
lines-written true l [] h e = lines-line l [] (ground arith)
lines-written b l (m ∷ ls) h e =
    rw (written-more b l m ls, lines-line l (written b (m ∷ ls)) (ground arith))
      (ap (λ (t : List Text). l ∷ t) (lines-written b m ls (ground arith) e))

-- It ends in a line feed exactly where one was added.
pub ends_line-written :
    (b : Bool) (l : Text) (ls : List Text)
    → all_rows is_plain (l ∷ ls) ≡ true
    → ends_blank (l ∷ ls) ≡ false
    → ends_line (written b (l ∷ ls)) ≡ b
unfolding all_rows ends_blank join ends_line
ends_line-written true l ls h e = ends_line-append (join (10 ∷ []) (l ∷ ls)) 10 []
ends_line-written false l [] h e = ends_line-plain l (ground arith)
ends_line-written false l (m ∷ ls) h e =
    let (c, s, some_line) = join-some m ls e in
    let last = ends_line-written false m ls (ground arith) e in
    ends_line-append l 10 (join (10 ∷ []) (m ∷ ls)) ∙ rw some_line (rw some_line at last)
