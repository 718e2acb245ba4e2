-- ===== src/Routing/Sampling.antt =====
-- src/core/routing/discovery_router.hpp, ProbabilisticRouter: a sample without replacement.
use loti.Base.{ℕ, zero, suc, ◌+◌, ◌-◌, ◌%◌, ◌≤◌, ◌≡◌, refl, ◌∙◌, ap, arith, ◌||◌}
use loti.Base.{List, [], ◌∷◌, Option, none, some, length, get_elem?, set, take, leb, nat_eq}
use loti.Base.{if◌then◌else◌, length-take}
use loti.Base.Key.{bytes_eq}
use loti.Domain.{NodeId}
use loti.Routing.{swap, shuffle, sample_next_hops}
use loti.Routing.Members.{occurs}

abbrev one_if : NodeId → NodeId → ℕ
one_if x y = if bytes_eq y x then 1 else 0

-- A write exchanges one element for another.
occurs-set :
    (x v y : NodeId) (xs : List NodeId) (i : ℕ)
    → get_elem? xs i ≡ some y
    → occurs x (set xs i v) + one_if x y ≡ occurs x xs + one_if x v
occurs-set x v y [] i h = cc
occurs-set x v y (z ∷ xs) zero h = ground arith
occurs-set x v y (z ∷ xs) (suc i) h = omega (arith, occurs-set x v y xs i h)

get_elem?-set :
    (v a b : NodeId) (xs : List NodeId) (i j : ℕ)
    → get_elem? xs i ≡ some a
    → get_elem? xs j ≡ some b
    → get_elem? (set xs i v) j ≡ some (if nat_eq i j then v else b)
get_elem?-set v a b [] i j h k = cc
get_elem?-set v a b (z ∷ xs) zero zero h k = ground arith
get_elem?-set v a b (z ∷ xs) zero (suc j) h k = ground arith
get_elem?-set v a b (z ∷ xs) (suc i) zero h k = ground arith
get_elem?-set v a b (z ∷ xs) (suc i) (suc j) h k = get_elem?-set v a b xs i j h k ∙ ground arith

length-set : (v : NodeId) (xs : List NodeId) (i : ℕ) → length (set xs i v) ≡ length xs
length-set v [] i = refl
length-set v (x ∷ xs) zero = refl
length-set v (x ∷ xs) (suc i) = ap suc (length-set v xs i)

-- Both writes of a swap: what the first one stored at `i` is gone only where `j` is `i`.
swapped :
    (x a b : NodeId) (xs : List NodeId) (i j : ℕ)
    → get_elem? xs i ≡ some a
    → get_elem? xs j ≡ some b
    → occurs x (set (set xs i b) j a) ≡ occurs x xs
swapped x a b xs i j h k =
    let one = occurs-set x b a xs i h in
    let found : get_elem? (set xs i b) j ≡ some b = get_elem?-set b a b xs i j h k ∙ ground arith in
    let two = occurs-set x a b (set xs i b) j found in omega arith

swap_keeps :
    (x : NodeId) (i j : ℕ) (xs : List NodeId) (p q : Option NodeId)
    → get_elem? xs i ≡ p
    → get_elem? xs j ≡ q
    → (occurs x (swap i j xs) ≡ occurs x xs) × (length (swap i j xs) ≡ length xs)
unfolding swap
swap_keeps x i j xs none q h k = (rw (swap, h), rw (swap, h))
swap_keeps x i j xs (some a) none h k = (rw (swap, h, k), rw (swap, h, k))
swap_keeps x i j xs (some a) (some b) h k = (
  rw (swap, h, k) (swapped x a b xs i j h k),
  rw (swap, h, k) (length-set a (set xs i b) j ∙ length-set b xs i),
)

occurs-take : (x : NodeId) (k : ℕ) (xs : List NodeId) → occurs x (take k xs) ≤ occurs x xs
occurs-take x zero xs = omega arith
occurs-take x (suc k) [] = omega arith
occurs-take x (suc k) (y ∷ xs) = omega (arith, occurs-take x k xs)

module _ {R : Type 0} (next_salt : R → ℕ × R) where
  shuffle_keeps :
      (x : NodeId) (k i : ℕ) (cand : List NodeId) (rng : R)
      → (occurs x (shuffle next_salt k i cand rng).0 ≡ occurs x cand)
        × (length (shuffle next_salt k i cand rng).0 ≡ length cand)
  unfolding shuffle
  shuffle_keeps x zero i cand rng = (refl, refl)
  shuffle_keeps x (suc k) i cand rng =
      let (salt, rng') = next_salt rng in
      let j = i + salt % (length cand - i) in
      let (kept, same_length) =
        swap_keeps x i j cand (get_elem? cand i) (get_elem? cand j) refl refl in
      let (same, long) = shuffle_keeps x k (i + 1) (swap i j cand) rng' in
      (same ∙ kept, long ∙ same_length)

  -- A capped answer has `k` hops, an uncapped one all the candidates; and each node stands in it at
  -- most as often as among the candidates, whatever the salts.
  pub sample_next_hops_lem :
      (k : ℕ) (cand : List NodeId) (rng : R)
      → (length (sample_next_hops next_salt k cand rng).0
          ≡ (if nat_eq k 0 || leb (length cand) k then length cand else k))
        × ((x : NodeId) → occurs x (sample_next_hops next_salt k cand rng).0 ≤ occurs x cand)
  unfolding sample_next_hops
  sample_next_hops_lem k cand rng = (
    ground (
      arith,
      (shuffle_keeps [] k 0 cand rng).1,
      length-take k (shuffle next_salt k 0 cand rng).0,
    ),
    λ x. ground (
      arith,
      (shuffle_keeps x k 0 cand rng).0,
      occurs-take x k (shuffle next_salt k 0 cand rng).0,
    ),
  )
