-- ===== src/Proxy/Utf8.antt =====
-- `String::from_utf8_lossy`: bytes that are not UTF-8 become U+FFFD, one for each longest start of a
-- character that breaks off.
use tpn_worker.Base.{ℕ, zero, suc, Bool, ◌&&◌, leb, ◌==◌, List, [], ◌∷◌, ◌++◌, Text, if◌then◌else◌}

-- A character that is being read: its bytes so far, how many are missing, and where the next lies.
pub data Pending : Type 0 where
  idle : Pending
  started : Text → ℕ → ℕ → ℕ → Pending

abbrev replacement : Text
replacement = 0xEF ∷ 0xBF ∷ 0xBD ∷ []

abbrev within : ℕ → ℕ → ℕ → Bool
within lo hi b = leb lo b && leb b hi

-- What a byte begins: a text that is complete, and a character that is not.
start_char : ℕ → Text × Pending
start_char b =
    if leb b 0x7F
    then (b ∷ [], idle)
    else if within 0xC2 0xDF b
    then ([], started (b ∷ []) 1 0x80 0xBF)
    else if b == 0xE0
    then ([], started (b ∷ []) 2 0xA0 0xBF)
    else if b == 0xED
    then ([], started (b ∷ []) 2 0x80 0x9F)
    else if within 0xE1 0xEF b
    then ([], started (b ∷ []) 2 0x80 0xBF)
    else if b == 0xF0
    then ([], started (b ∷ []) 3 0x90 0xBF)
    else if within 0xF1 0xF3 b
    then ([], started (b ∷ []) 3 0x80 0xBF)
    else if b == 0xF4
    then ([], started (b ∷ []) 3 0x80 0x8F)
    else (replacement, idle)

continue_char : Text → ℕ → ℕ → Text × Pending
continue_char bytes b zero = (bytes ++ b ∷ [], idle)
continue_char bytes b (suc zero) = (bytes ++ b ∷ [], idle)
continue_char bytes b (suc (suc n)) = ([], started (bytes ++ b ∷ []) (suc n) 0x80 0xBF)

read_byte : Pending → ℕ → Text × Pending
unfolding start_char continue_char
read_byte idle b = start_char b
read_byte (started bytes missing lo hi) b =
    if within lo hi b
    then continue_char bytes b missing
    else (let (t, p) = start_char b in (replacement ++ t, p))

read_bytes : Pending → List ℕ → Text
unfolding read_byte
read_bytes idle [] = []
read_bytes (started bytes missing lo hi) [] = replacement
read_bytes p (b ∷ bs) = let (t, q) = read_byte p b in t ++ read_bytes q bs

unfoldable pub from_utf8_lossy : List ℕ → Text
unfolding read_bytes
from_utf8_lossy bs = read_bytes idle bs
