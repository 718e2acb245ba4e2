-- ===== src/Base/Ordered.antt =====
-- What a `std::map` keyed by byte strings is: its keys increase, so that a greater key goes to its end.
use Prim.Native.Nat.{ℕ}
use mathlib.Core.Path.{◌≡◌, refl, ap}
use mathlib.Core.Bool.{true, false}
use mathlib.Core.List.{List, [], ◌∷◌, ◌++◌}
use native.Mathlib.Omega.{arith}
use loti.Base.Lists.{All}
use loti.Base.Key.{bytes_eq, bytes_lt, bytes_key}
use loti.Base.Table.{Table, insert}

-- Each key is below the later ones.
abbrev pub IsIncreasing {ℓ} : {V : Type ℓ} → Table (List ℕ) V → Type ℓ
IsIncreasing [] = Unit
IsIncreasing ((k, v) ∷ m) = All (λ e. bytes_lt k e.0 ≡ true) m × IsIncreasing m

bytes_lt_asym : (a b : List ℕ) → bytes_lt a b ≡ true → bytes_lt b a ≡ false
unfolding bytes_lt
bytes_lt_asym [] [] h = refl
bytes_lt_asym [] (y ∷ ys) h = refl
bytes_lt_asym (x ∷ xs) [] h = cc h
bytes_lt_asym (x ∷ xs) (y ∷ ys) h = ground (arith, bytes_lt_asym xs ys, h)

bytes_lt_differ : (a b : List ℕ) → bytes_lt a b ≡ true → bytes_eq a b ≡ false
unfolding bytes_lt bytes_eq
bytes_lt_differ [] [] h = cc h
bytes_lt_differ [] (y ∷ ys) h = refl
bytes_lt_differ (x ∷ xs) [] h = refl
bytes_lt_differ (x ∷ xs) (y ∷ ys) h = ground (arith, bytes_lt_differ xs ys, h)

module _ {ℓ} {V : Type ℓ} where
  pub insert_last :
      (k : List ℕ) (v : V) (m : Table (List ℕ) V)
      → All (λ e. bytes_lt e.0 k ≡ true) m
      → insert k v m ≡ m ++ ((k, v) ∷ [])
  unfolding insert
  insert_last k v [] h = refl
  insert_last k v ((b, w) ∷ m) (h, hs) =
      rw (bytes_lt_differ b k h, bytes_lt_asym b k h)
        (ap (λ (t : Table (List ℕ) V). (b, w) ∷ t) (insert_last k v m hs))

  -- In front of an entry all keys are below its key.
  pub IsIncreasing-before :
      (m : Table (List ℕ) V) (k : List ℕ) (v : V) (t : Table (List ℕ) V)
      → IsIncreasing (m ++ ((k, v) ∷ t))
      → All (λ e. bytes_lt e.0 k ≡ true) m
  IsIncreasing-before [] k v t h = tt
  IsIncreasing-before ((b, w) ∷ m) k v t (h, hs) = (at_entry m h, IsIncreasing-before m k v t hs)
    where
      at_entry :
          (m : Table (List ℕ) V)
          → All (λ e. bytes_lt b e.0 ≡ true) (m ++ ((k, v) ∷ t))
          → bytes_lt b k ≡ true
      at_entry [] g = g.0
      at_entry (e ∷ m) g = at_entry m g.1
