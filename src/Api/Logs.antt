-- ===== src/Api/Logs.antt =====
-- api/logs.rs: the last lines of the log file.
pub mod Tail
use tpn_worker.Base.{
  ℕ, zero, suc, ◌-◌, ◌==◌, min, Text, List, [], ◌∷◌, ◌++◌, Option, none, some, length, drop,
  if◌then◌else◌,
}

abbrev pub default_lines : ℕ
default_lines = 100

abbrev pub max_lines : ℕ
max_lines = 1000

-- The number of lines that a request asks for.
unfoldable pub lines_asked : Option ℕ → ℕ
lines_asked none = min default_lines max_lines
lines_asked (some n) = min n max_lines

unfoldable pub push_line : ℕ → List Text → Text → List Text
push_line n ring l = (if length ring == n then drop 1 ring else ring) ++ l ∷ []

-- The lines of the reader; one that cannot be read ends the loop.
unfoldable pub read_ring : ℕ → List Text → List (Option Text) → List Text
unfolding push_line
read_ring n ring [] = ring
read_ring n ring (none ∷ ls) = ring
read_ring n ring (some l ∷ ls) = read_ring n (push_line n ring l) ls

-- `none` where the file cannot be opened.
unfoldable pub get_logs : Option ℕ → Option (List (Option Text)) → Option (List Text)
get_logs asked none = none
get_logs asked (some reader) = some (read_ring (lines_asked asked) [] reader)
