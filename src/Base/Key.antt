-- ===== src/Base/Key.antt =====
-- The keys of the `std::map`s: an equality test and the order by which a map is iterated.
use loti.Base.Tests.{ltb, nat_eq, nat_eq_iff}
use Prim.Native.Nat.{ℕ}
use mathlib.Core.Path.{◌≡◌, refl}
use mathlib.Core.Logic.{◌↔◌}
use mathlib.Core.Bool.{Bool, true, false, ◌&&◌, ◌||◌}
use mathlib.Core.List.{List, [], ◌∷◌}
use native.Mathlib.Omega.{arith}

pub record Key {ℓ} (K : Type ℓ) : Type ℓ where
  pub beq : K → K → Bool
  pub lt : K → K → Bool
  pub beq_iff : (a b : K) → (beq a b ≡ true) ↔ (a ≡ b)

-- `std::vector<std::uint8_t>` and `std::array` are compared element by element.
unfoldable pub bytes_eq : List ℕ → List ℕ → Bool
bytes_eq [] [] = true
bytes_eq [] (y ∷ ys) = false
bytes_eq (x ∷ xs) [] = false
bytes_eq (x ∷ xs) (y ∷ ys) = nat_eq x y && bytes_eq xs ys

unfoldable pub bytes_lt : List ℕ → List ℕ → Bool
bytes_lt [] [] = false
bytes_lt [] (y ∷ ys) = true
bytes_lt (x ∷ xs) [] = false
bytes_lt (x ∷ xs) (y ∷ ys) = ltb x y || (nat_eq x y && bytes_lt xs ys)

pub bytes_eq_sound : (a b : List ℕ) → bytes_eq a b ≡ true → a ≡ b
unfolding bytes_eq
bytes_eq_sound [] [] h = refl
bytes_eq_sound [] (y ∷ ys) h = ground arith
bytes_eq_sound (x ∷ xs) [] h = ground arith
bytes_eq_sound (x ∷ xs) (y ∷ ys) h = ground (arith, bytes_eq_sound xs ys)

pub bytes_eq_refl : (a : List ℕ) → bytes_eq a a ≡ true
unfolding bytes_eq
bytes_eq_refl [] = refl
bytes_eq_refl (x ∷ xs) = ground (arith, bytes_eq_refl xs)

pub bytes_eq_iff : (a b : List ℕ) → (bytes_eq a b ≡ true) ↔ (a ≡ b)
bytes_eq_iff a b = (bytes_eq_sound a b, λ e. ground (arith, bytes_eq_refl a))

instance abbrev pub bytes_key : Key (List ℕ)
bytes_key = record { beq = bytes_eq; lt = bytes_lt; beq_iff = bytes_eq_iff }

instance abbrev pub nat_key : Key ℕ
nat_key = record { beq = nat_eq; lt = ltb; beq_iff = nat_eq_iff }

-- `std::pair`, first component first.
unfoldable pub pair_eq : List ℕ × List ℕ → List ℕ × List ℕ → Bool
pair_eq (a, b) (c, d) = bytes_eq a c && bytes_eq b d

unfoldable pub pair_lt : List ℕ × List ℕ → List ℕ × List ℕ → Bool
pair_lt (a, b) (c, d) = bytes_lt a c || (bytes_eq a c && bytes_lt b d)

pub pair_eq_iff : (p q : List ℕ × List ℕ) → (pair_eq p q ≡ true) ↔ (p ≡ q)
unfolding pair_eq
pair_eq_iff (a, b) (c, d) = ground (arith, bytes_eq_iff a c, bytes_eq_iff b d)

instance abbrev pub pair_key : Key (List ℕ × List ℕ)
pair_key = record { beq = pair_eq; lt = pair_lt; beq_iff = pair_eq_iff }
