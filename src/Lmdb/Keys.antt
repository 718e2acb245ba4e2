-- ===== src/Lmdb/Keys.antt =====
-- src/adapters/os/lmdb_store.cpp: the keys of the records are in the order of the sequence numbers, and a
-- table that is encoded key by key and value by value is changed and read like the one that it encodes.
use native.Mathlib.Nat.{
  mod-eq_of_lt, mod-lt, div-add-mod', add-mul-mod_self_left, pow-suc, mul-le-mul_right,
}
use loti.Base.{ℕ, zero, suc, ◌+◌, ◌*◌, ◌/◌, ◌%◌, ◌^◌, ◌<◌, ◌≡◌, refl, sym, ap, ◌∙◌, arith}
use loti.Base.{Bool, true, false, ◌&&◌, ◌||◌, [], ◌∷◌, none, some}
use loti.Base.{length, ltb, nat_eq, nat_eq_iff, Bool-cases, inl, inr}
use loti.Base.Key.{Key, bytes_eq, bytes_lt, bytes_eq_iff, bytes_key, nat_key}
use loti.Base.Table.{Table, lookup, insert, erase}
use loti.Domain.{Bytes, be_bytes, length-be_bytes}
use loti.Wire.RoundTrip.Scalars.{eight_more, shift_in_back}
use loti.Lmdb.Records.{put_u64_be, get_u64_be}

-- The order of two numbers by their high and low parts.
below_high : (m a b c d : ℕ) → c < m → a < b → a * m + c < b * m + d
below_high m a b c d hc h = omega (arith, mul-le-mul_right {m = a + 1} {n = b} m (omega arith))

high_first :
    (m a b c d : ℕ)
    → c < m
    → d < m
    → ltb (a * m + c) (b * m + d) ≡ (ltb a b || (nat_eq a b && ltb c d))
high_first m a b c d hc hd = ground (arith, below_high m a b c d hc, below_high m b a d c hd)

regroup : (m a b c : ℕ) → b * m + c + m * 256 * a ≡ (a * 256 + b) * m + c
regroup m a b c = omega arith

two_parts_of : (m v : ℕ) → 0 < m → v % (m * 256) ≡ (v / m % 256) * m + v % m
two_parts_of m v h =
    let split : (v / m % 256) * m + v % m + m * 256 * (v / m / 256) ≡ v =
      regroup m (v / m / 256) (v / m % 256) (v % m)
      ∙ ap (λ (x : ℕ). x * m + v % m) (div-add-mod' (v / m) 256)
      ∙ div-add-mod' v m in
    ap (λ (x : ℕ). x % (m * 256)) (sym split)
    ∙ add-mul-mod_self_left ((v / m % 256) * m + v % m) (m * 256) (v / m / 256)
    ∙ mod-eq_of_lt {n = (v / m % 256) * m + v % m} {m = m * 256} (
        omega (arith, mod-lt v h, mul-le-mul_right {m = v / m % 256 + 1} {n = 256} m (omega arith)))

positive : (k : ℕ) → 0 < 2 ^ k
positive zero = omega arith
positive (suc k) = rw (pow-suc 2 k) (omega (arith, positive k))

two_parts :
    (k v : ℕ) → v % 2 ^ (8 * suc k) ≡ (v / 2 ^ (8 * k) % 256) * 2 ^ (8 * k) + v % 2 ^ (8 * k)
two_parts k v = rw (eight_more k) (two_parts_of (2 ^ (8 * k)) v (positive (8 * k)))

bytes_lt-be_bytes :
    (k a b : ℕ) → bytes_lt (be_bytes k a) (be_bytes k b) ≡ ltb (a % 2 ^ (8 * k)) (b % 2 ^ (8 * k))
unfolding bytes_lt be_bytes
bytes_lt-be_bytes zero a b = ground arith
bytes_lt-be_bytes (suc k) a b =
    rw (bytes_lt-be_bytes k a b, two_parts k a, two_parts k b)
      (sym (
        high_first (2 ^ (8 * k)) (a / 2 ^ (8 * k) % 256) (b / 2 ^ (8 * k) % 256) (a % 2 ^ (8 * k))
          (b % 2 ^ (8 * k)) (mod-lt a (positive (8 * k))) (mod-lt b (positive (8 * k)))))

-- A sequence number is read back from its key.
pub get_u64_be-put_u64_be : (v : ℕ) → v < 2 ^ 64 → get_u64_be (put_u64_be v) ≡ v
unfolding get_u64_be put_u64_be
get_u64_be-put_u64_be v h = shift_in_back 64 8 v h (omega arith)

-- The keys of two sequence numbers are in the order of the numbers.
pub bytes_lt-put_u64_be :
    (a b : ℕ) → a < 2 ^ 64 → b < 2 ^ 64 → bytes_lt (put_u64_be a) (put_u64_be b) ≡ ltb a b
unfolding put_u64_be
bytes_lt-put_u64_be a b ha hb =
    bytes_lt-be_bytes 8 a b
    ∙ rw (mod-eq_of_lt {n = a} {m = 2 ^ 64} ha, mod-eq_of_lt {n = b} {m = 2 ^ 64} hb) refl

pub bytes_eq-put_u64_be :
    (a b : ℕ) → a < 2 ^ 64 → b < 2 ^ 64 → bytes_eq (put_u64_be a) (put_u64_be b) ≡ nat_eq a b
bytes_eq-put_u64_be a b ha hb =
    let back : put_u64_be a ≡ put_u64_be b → a ≡ b =
      λ e. sym (get_u64_be-put_u64_be a ha) ∙ ap get_u64_be e ∙ get_u64_be-put_u64_be b hb in
    let forth : a ≡ b → put_u64_be a ≡ put_u64_be b = λ e. ap put_u64_be e in
    both (bytes_eq (put_u64_be a) (put_u64_be b)) (nat_eq a b)
      (λ e. (nat_eq_iff a b).1 (back ((bytes_eq_iff _ _).0 e)))
      (λ e. (bytes_eq_iff _ _).1 (forth ((nat_eq_iff a b).0 e)))
  where
    both : (p q : Bool) → (p ≡ true → q ≡ true) → (q ≡ true → p ≡ true) → p ≡ q
    both true q h k = sym (h refl)
    both false true h k = cc (k refl)
    both false false h k = refl

pub length-put_u64_be : (v : ℕ) → length (put_u64_be v) ≡ 8
unfolding put_u64_be
length-put_u64_be v = length-be_bytes 8 v

-- The table of the encoded keys and values.
unfoldable pub encoded {ℓ κ} :
    {K : Type ℓ} {V : Type κ} → (K → Bytes) → (V → Bytes) → Table K V → Table Bytes Bytes
encoded f g [] = []
encoded f g ((k, v) ∷ m) = (f k, g v) ∷ encoded f g m

-- What an encoding of keys keeps, on the keys that are `In`.
pub record IsOrdered {ℓ} {K : Type ℓ} ⦃k : Key K⦄ (In : K → Type 0) (f : K → Bytes) : Type ℓ where
  pub same : (a b : K) → In a → In b → bytes_eq (f a) (f b) ≡ k.beq a b
  pub less : (a b : K) → In a → In b → bytes_lt (f a) (f b) ≡ k.lt a b

-- All keys of a table are `In`.
abbrev pub Keyed {ℓ κ} : {K : Type ℓ} {V : Type κ} → (K → Type 0) → Table K V → Type 0
Keyed In [] = Unit {0}
Keyed In ((k, v) ∷ m) = In k × Keyed In m

module _ {ℓ κ} {K : Type ℓ} {V : Type κ} ⦃k : Key K⦄ where
  pub Keyed-insert :
      (In : K → Type 0) (a : K) (v : V) (m : Table K V)
      → In a
      → Keyed In m
      → Keyed In (insert a v m)
  unfolding insert
  Keyed-insert In a v [] i h = (i, tt)
  Keyed-insert In a v ((b, w) ∷ m) i h = elim (Bool-cases (k.beq b a)) [
    | inl same ↦ rw same (i, h.1)
    | inr other ↦ elim (Bool-cases (k.lt a b)) [
      | inl less ↦ rw (other, less) (i, h)
      | inr more ↦ rw (other, more) (h.0, Keyed-insert In a v m i h.1)
    ]
  ]

  pub Keyed-erase : (In : K → Type 0) (a : K) (m : Table K V) → Keyed In m → Keyed In (erase a m)
  unfolding erase
  Keyed-erase In a [] h = tt
  Keyed-erase In a ((b, w) ∷ m) h = elim (Bool-cases (k.beq b a)) [
    | inl same ↦ rw same (Keyed-erase In a m h.1)
    | inr other ↦ rw other (h.0, Keyed-erase In a m h.1)
  ]

  pub encoded-insert :
      (In : K → Type 0) (f : K → Bytes) (g : V → Bytes) (a : K) (v : V) (m : Table K V)
      → IsOrdered In f
      → In a
      → Keyed In m
      → encoded f g (insert a v m) ≡ insert (f a) (g v) (encoded f g m)
  unfolding encoded insert
  encoded-insert In f g a v [] o i h = refl
  encoded-insert In f g a v ((b, w) ∷ m) o i h =
      ground (arith, o.same b a h.0 i, o.less a b i h.0, encoded-insert In f g a v m o i h.1)

  pub encoded-erase :
      (In : K → Type 0) (f : K → Bytes) (g : V → Bytes) (a : K) (m : Table K V)
      → IsOrdered In f
      → In a
      → Keyed In m
      → encoded f g (erase a m) ≡ erase (f a) (encoded f g m)
  unfolding encoded erase
  encoded-erase In f g a [] o i h = refl
  encoded-erase In f g a ((b, w) ∷ m) o i h =
      ground (arith, o.same b a h.0 i, encoded-erase In f g a m o i h.1)

  pub lookup-encoded :
      (In : K → Type 0) (f : K → Bytes) (g : V → Bytes) (a : K) (m : Table K V)
      → IsOrdered In f
      → In a
      → Keyed In m
      → lookup (f a) (encoded f g m) ≡ (elim (lookup a m) [ none ↦ none | some v ↦ some (g v) ])
  unfolding encoded lookup
  lookup-encoded In f g a [] o i h = refl
  lookup-encoded In f g a ((b, w) ∷ m) o i h =
      ground (arith, o.same b a h.0 i, lookup-encoded In f g a m o i h.1)
