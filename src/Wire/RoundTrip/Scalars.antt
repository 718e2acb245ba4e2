-- ===== src/Wire/RoundTrip/Scalars.antt =====
-- src/core/wire/codec.hpp: u64, u32, node_id, blob and counted sequences, written and read back.
use native.Mathlib.Nat.{mod-eq_of_lt, div-div-eq-div-mul}
use native.Mathlib.Numerals.{towards_suc}
use loti.Base.{ℕ, zero, suc, ◌+◌, ◌*◌, ◌/◌, ◌%◌, ◌^◌, ◌≤◌, ◌<◌, ◌≡◌, refl, sym, ap, ◌∙◌, arith}
use loti.Base.{List, [], ◌∷◌, ◌++◌, length, length-append, take-append}
use loti.Base.{drop-append, All, le→not_ltb}
use loti.Domain.{Bytes, NodeId, be_bytes, length-be_bytes}
use loti.Domain.Ranges.{IsU32, IsU64, IsNodeId, IsShort}
use loti.Wire.Result.{Reader, ok, read_many, ◌>>=◌, ◌>>◌, bind-ok, then-ok}
use loti.Wire.RoundTrip.Rules.{Reads, Reads-bind, Reads-last}
use loti.Wire.Writer.{count_u32, put_u64, put_u32, put_node_id, put_blob, put_each}
use loti.Wire.Reader.{need, ensure_count, advance, shift_in, get_u64, get_u32, get_node_id}
use loti.Wire.Reader.{get_blob}

-- The test by division is the one by multiplication.
pub le_div : (n m k : ℕ) → 0 < m → n * m ≤ k → n ≤ k / m
le_div n m k h e = grind arith

pub need-enough : (n : ℕ) (buf : Bytes) → n ≤ length buf → need n buf ≡ ok (tt, buf)
unfolding need
need-enough n buf h = ground arith

pub advance-append : (bs rest : Bytes) → advance (length bs) (bs ++ rest) ≡ ok (bs, rest)
unfolding advance
advance-append bs rest = rw (take-append bs rest, drop-append bs rest)

-- `need n` and the next `n` bytes, where those are there.
pub need-advance :
    (n : ℕ) (bs rest : Bytes)
    → length bs ≡ n
    → (need n (bs ++ rest) ≡ ok (tt, bs ++ rest)) × (advance n (bs ++ rest) ≡ ok (bs, rest))
need-advance n bs rest h = (
  need-enough n (bs ++ rest) (omega (arith, length-append bs rest)),
  rw (← h) (advance-append bs rest),
)

pub eight_more : (k : ℕ) → 2 ^ (8 * suc k) ≡ 2 ^ (8 * k) * 256
eight_more k = rw (eight_suc k) (simp towards_suc (omega arith))
  where
    eight_suc : (k : ℕ) → 8 * suc k ≡ 8 * k + 8
    eight_suc k = omega arith

div_step : (v k : ℕ) → v / 2 ^ (8 * suc k) ≡ v / 2 ^ (8 * k) / 256
div_step v k = rw (eight_more k) (sym (div-div-eq-div-mul v (2 ^ (8 * k)) 256))

-- One round: the high part of `d`, shifted, and its low byte.
shift_round : (d m : ℕ) → d < m → d / 256 * 256 % m + d % 256 ≡ d
shift_round d m h = omega (arith, mod-eq_of_lt {n = d / 256 * 256} {m = m} (omega arith))

-- Shifting in the low `k` bytes of `v` behind its high part gives `v`.
shift_in-be_bytes : (w k v : ℕ) → v < 2 ^ w → shift_in w (v / 2 ^ (8 * k)) (be_bytes k v) ≡ v
unfolding shift_in be_bytes
shift_in-be_bytes w zero v h = omega arith
shift_in-be_bytes w (suc k) v h =
    ap (λ (t : ℕ). shift_in w t (be_bytes k v))
      (rw (div_step v k) (shift_round _ _ (div_below v k w h)))
    ∙ shift_in-be_bytes w k v h
  where
    div_below : (v k w : ℕ) → v < 2 ^ w → v / 2 ^ (8 * k) < 2 ^ w
    div_below v k w h = grind arith

pub shift_in_back : (w k v : ℕ) → v < 2 ^ w → v / 2 ^ (8 * k) ≡ 0 → shift_in w 0 (be_bytes k v) ≡ v
shift_in_back w k v h z =
    ap (λ (t : ℕ). shift_in w t (be_bytes k v)) (sym z) ∙ shift_in-be_bytes w k v h

-- A `uint64_t` is read back as it was written.
pub get_u64-put_u64 : (v : ℕ) → IsU64 v → Reads get_u64 (put_u64 v) v
unfolding get_u64 put_u64
get_u64-put_u64 v h = record {
  at = λ rest.
      let (n, a) = need-advance 8 (be_bytes 8 v) rest (length-be_bytes 8 v) in
      then-ok _ _ _ n
        (bind-ok _ _ _ a (ap (λ (t : ℕ). ok (t, rest)) (shift_in_back 64 8 v h (omega arith))));
}

pub get_u32-put_u32 : (v : ℕ) → IsU32 v → Reads get_u32 (put_u32 v) v
unfolding get_u32 put_u32
get_u32-put_u32 v h = record {
  at = λ rest.
      let (n, a) = need-advance 4 (be_bytes 4 v) rest (length-be_bytes 4 v) in
      then-ok _ _ _ n
        (bind-ok _ _ _ a (ap (λ (t : ℕ). ok (t, rest)) (shift_in_back 32 4 v h (omega arith))));
}

-- The count in front of a sequence that a `uint32_t` can count.
pub get_u32-count_u32 {ℓ} :
    {A : Type ℓ} (xs : List A) → IsShort xs → Reads get_u32 (count_u32 xs) (length xs)
get_u32-count_u32 xs h =
    rw (mod-eq_of_lt {n = length xs} {m = 2 ^ 32} h) (get_u32-put_u32 (length xs) h)

pub get_node_id-put_node_id : (id : NodeId) → IsNodeId id → Reads get_node_id (put_node_id id) id
unfolding get_node_id put_node_id
get_node_id-put_node_id id h = record {
  at = λ rest. let (n, a) = need-advance 16 id rest h in then-ok _ _ _ n a;
}

pub get_blob-put_blob : (b : Bytes) → IsShort b → Reads get_blob (put_blob b) b
unfolding get_blob put_blob
get_blob-put_blob b h =
    Reads-bind _ (get_u32-count_u32 b h) (record {
      at = λ rest. let (n, a) = need-advance (length b) b rest refl in then-ok _ _ _ n a;
    })

pub ensure_count-enough :
    (n m : ℕ) (buf : Bytes) → 0 < m → n * m ≤ length buf → ensure_count n m buf ≡ ok (tt, buf)
unfolding ensure_count
ensure_count-enough n m buf h k = rw (le→not_ltb (length buf / m) n (le_div n m (length buf) h k))

-- Elements that are read back one by one, and that take at least `m` bytes each.
module _ {ℓ} {A : Type ℓ} (w : A → Bytes) (r : Reader A) (P : A → Type 0) (m : ℕ) where
  pub read_many-put_each :
      ((x : A) → P x → Reads r (w x) x)
      → (xs : List A) → All P xs
      → Reads (read_many (length xs) r) (put_each w xs) xs
  unfolding read_many put_each
  read_many-put_each each [] h = record { at = λ rest. refl }
  read_many-put_each each (x ∷ xs) (hx, hxs) =
      Reads-bind _ (each x hx) (Reads-last _ (read_many-put_each each xs hxs) (λ rest. refl))

  length-put_each :
      ((x : A) → P x → m ≤ length (w x))
      → (xs : List A) → All P xs
      → length xs * m ≤ length (put_each w xs)
  unfolding put_each
  length-put_each size [] h = omega arith
  length-put_each size (x ∷ xs) (hx, hxs) =
      omega (arith, size x hx, length-put_each size xs hxs, length-append (w x) (put_each w xs))

  -- The count, the test that it can fit, and the elements.
  pub counted :
      0 < m
      → ((x : A) → P x → Reads r (w x) x)
      → ((x : A) → P x → m ≤ length (w x))
      → (xs : List A) → IsShort xs
      → All P xs
      → Reads
          (get_u32 >>= (λ n. ensure_count n m >> read_many n r))
          (count_u32 xs ++ put_each w xs)
          xs
  counted m_pos each size xs short all = Reads-bind _ (get_u32-count_u32 xs short) (record {
    at = λ rest.
        then-ok _ _ _ (ensure_count-enough (length xs) m (put_each w xs ++ rest) m_pos (roomy rest))
          ((read_many-put_each each xs all).at rest);
  })
    where
      roomy : (rest : Bytes) → length xs * m ≤ length (put_each w xs ++ rest)
      roomy rest = omega (arith, length-put_each size xs all, length-append (put_each w xs) rest)
