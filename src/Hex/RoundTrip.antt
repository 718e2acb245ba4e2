-- ===== src/Hex/RoundTrip.antt =====
-- src/app/loti/loti.cpp: `unhex` after `hex`, and what `unhex` accepts.
use loti.Base.{ℕ, ◌+◌, ◌*◌, ◌/◌, ◌%◌, ◌<◌, ◌≡◌, refl, ap, arith, List, [], ◌∷◌, Option, none, some}
use loti.Base.{length, All}
use loti.Domain.{Bytes}
use loti.Hex.{digit, hex, nib, joined, push_front, unhex}

nib-digit : (n : ℕ) → n < 16 → nib (digit n) ≡ some n
unfolding nib digit
nib-digit n h = ground arith

joined-digits : (b : ℕ) → b < 256 → joined (nib (digit (b / 16))) (nib (digit (b % 16))) ≡ some b
unfolding joined
joined-digits b h =
    rw (nib-digit (b / 16) (omega arith), nib-digit (b % 16) (omega arith))
      (ap (λ (x : ℕ). some x) (omega arith))

-- A string of bytes, each below 256, is read back from its hexadecimal form.
pub unhex-hex : (bs : Bytes) → All (λ b. b < 256) bs → unhex (hex bs) ≡ some bs
unfolding unhex hex push_front
unhex-hex [] h = refl
unhex-hex (b ∷ bs) (hb, hbs) = rw (joined-digits b hb, unhex-hex bs hbs) refl

nib-lt : (c n : ℕ) → nib c ≡ some n → n < 16
unfolding nib
nib-lt c n h = ground arith

-- The parts of a pair that was read.
pushed :
    (x y : Option ℕ) (r : Option Bytes) (bs : Bytes)
    → push_front (joined x y) r ≡ some bs
    → (a : ℕ) × (b : ℕ) × (t : Bytes) × (x ≡ some a)
      × (y ≡ some b)
      × (r ≡ some t)
      × (bs ≡ (16 * a + b) ∷ t)
unfolding push_front joined
pushed none y r bs h = cc
pushed (some a) none r bs h = cc
pushed (some a) (some b) none bs h = cc
pushed (some a) (some b) (some t) bs h = (a, b, t, refl, refl, refl, cc)

-- What is read from a text, where anything is, has half its length, and each element is below 256.
pub unhex-IsBytes :
    (s : List ℕ) (bs : Bytes)
    → unhex s ≡ some bs
    → (length s ≡ 2 * length bs) × All (λ b. b < 256) bs
unfolding unhex
unhex-IsBytes [] [] h = (omega arith, tt)
unhex-IsBytes [] (b ∷ bs) h = cc
unhex-IsBytes (c ∷ []) bs h = cc
unhex-IsBytes (hi ∷ lo ∷ s) bs h =
    let (a, b, t, ea, eb, et, made) = pushed (nib hi) (nib lo) (unhex s) bs h in
    let (size, bytes) = unhex-IsBytes s t et in
    let small : 16 * a + b < 256 = omega (arith, nib-lt hi a ea, nib-lt lo b eb) in
    rw made (omega (arith, size), (small, bytes))
