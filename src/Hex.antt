-- ===== src/Hex.antt =====
-- src/app/loti/loti.cpp: byte strings in hexadecimal, as the command line prints and reads hashes.
-- A text is the list of its character codes.
pub mod RoundTrip
use loti.Base.{
  ℕ, ◌+◌, ◌-◌, ◌*◌, ◌/◌, ◌%◌, Bool, ◌&&◌, List, [], ◌∷◌, Option, none, some, ltb, leb,
  if◌then◌else◌,
}
use loti.Domain.{Bytes}

-- "0123456789abcdef"[n]
unfoldable pub digit : ℕ → ℕ
digit n = if ltb n 10 then 48 + n else 87 + n

unfoldable pub hex : Bytes → List ℕ
unfolding digit
hex [] = []
hex (b ∷ bs) = digit (b / 16) ∷ digit (b % 16) ∷ hex bs

-- The lambda `nib`; `none` is -1.
unfoldable pub nib : ℕ → Option ℕ
nib c =
    if leb 48 c && leb c 57
    then some (c - 48)
    else if leb 97 c && leb c 102
    then some (c - 97 + 10)
    else if leb 65 c && leb c 70
    then some (c - 65 + 10)
    else none

-- `(hi << 4) | lo`, where both are digits.
unfoldable pub joined : Option ℕ → Option ℕ → Option ℕ
joined none lo = none
joined (some hi) none = none
joined (some hi) (some lo) = some (16 * hi + lo)

unfoldable pub push_front : Option ℕ → Option Bytes → Option Bytes
push_front none bs = none
push_front (some b) none = none
push_front (some b) (some bs) = some (b ∷ bs)

-- A text of odd length, or with a character that is not a digit, is `none`.
unfoldable pub unhex : List ℕ → Option Bytes
unfolding nib joined push_front
unhex [] = some []
unhex (c ∷ []) = none
unhex (hi ∷ lo ∷ s) = push_front (joined (nib hi) (nib lo)) (unhex s)
