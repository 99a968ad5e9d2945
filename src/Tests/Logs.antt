-- ===== src/Tests/Logs.antt =====
-- Requests for the log.
use tpn_worker.Base.{
  ◌==◌, if◌then◌else◌, ◌≤◌, codes, List, Option, Text, [], ◌∷◌, none, some, ◌≡◌, refl,
}
use tpn_worker.Api.Logs.{max_lines, lines_asked, get_logs, read_ring, push_line}
use tpn_worker.Api.Logs.Tail.{readable, last_lines, get_logs_last}

abbrev log : List (Option Text)
log = some (codes "a") ∷ some (codes "b") ∷ some (codes "c") ∷ none ∷ some (codes "d") ∷ []

get_logs_last_example :
    (lines_asked (some 2) ≤ max_lines)
    × (get_logs (some 2) (some log)
        ≡ some (
            if lines_asked (some 2) == 0
            then readable log
            else last_lines (lines_asked (some 2)) (readable log)))
get_logs_last_example = get_logs_last (some 2) log

last_two : get_logs (some 2) (some log) ≡ some (codes "b" ∷ codes "c" ∷ [])
unfolding get_logs lines_asked read_ring push_line
last_two = refl

all_three : get_logs (some 0) (some log) ≡ some (codes "a" ∷ codes "b" ∷ codes "c" ∷ [])
unfolding get_logs lines_asked read_ring push_line
all_three = refl
