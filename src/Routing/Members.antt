-- ===== src/Routing/Members.antt =====
-- Membership in the lists of next hops, and lists without repetition.
use loti.Base.{ℕ, ◌+◌, ◌≡◌, refl, arith, false, ◌||◌, List, [], ◌∷◌, ◌++◌}
use loti.Base.{if◌then◌else◌}
use loti.Base.Key.{bytes_eq, bytes_eq_iff}
use loti.Domain.{NodeId}
use loti.Routing.{member}

abbrev pub Distinct : List NodeId → Type 0
Distinct [] = Unit {0}
Distinct (x ∷ xs) = (member x xs ≡ false) × Distinct xs

pub member-append :
    (x : NodeId) (xs ys : List NodeId) → member x (xs ++ ys) ≡ (member x xs || member x ys)
unfolding member
member-append x [] ys = refl
member-append x (y ∷ xs) ys = ground (arith, member-append x xs ys)

pub member-snoc :
    (x y : NodeId) (xs : List NodeId) → member x (xs ++ (y ∷ [])) ≡ (member x xs || bytes_eq y x)
unfolding member
member-snoc x y xs = ground (arith, member-append x xs (y ∷ []))

pub Distinct-snoc :
    (y : NodeId) (xs : List NodeId) → Distinct xs → member y xs ≡ false → Distinct (xs ++ (y ∷ []))
unfolding member
Distinct-snoc y [] d h = (refl, tt)
Distinct-snoc y (x ∷ xs) (dx, dxs) h = (
  ground (arith, member-snoc x y xs, bytes_eq_iff x y, bytes_eq_iff y x),
  Distinct-snoc y xs dxs (ground arith),
)

-- How often `x` stands in the list.
abbrev pub occurs : NodeId → List NodeId → ℕ
occurs x [] = 0
occurs x (y ∷ ys) = (if bytes_eq y x then 1 else 0) + occurs x ys
