-- ===== src/Base/Table.antt =====
-- `std::map` as an association list in key order.
use loti.Base.Tests.{if◌then◌else◌}
use loti.Base.Key.{Key}
use mathlib.Core.Path.{◌≡◌, refl}
use mathlib.Core.List.{List, [], ◌∷◌}
use mathlib.Core.Option.{Option, none, some}
use native.Mathlib.Omega.{arith}

abbrev pub Table {ℓ κ} : Type ℓ → Type κ → Type (ℓ ⊔ κ)
Table K V = List (K × V)

module _ {ℓ κ} {K : Type ℓ} {V : Type κ} ⦃k : Key K⦄ where
  -- find
  unfoldable pub lookup : K → Table K V → Option V
  lookup a [] = none
  lookup a ((b, v) ∷ m) = if k.beq b a then some v else lookup a m

  -- operator[] = v, insert_or_assign
  unfoldable pub insert : K → V → Table K V → Table K V
  insert a v [] = (a, v) ∷ []
  insert a v ((b, w) ∷ m) =
      if k.beq b a
      then (a, v) ∷ m
      else if k.lt a b
      then (a, v) ∷ (b, w) ∷ m
      else (b, w) ∷ insert a v m

  -- erase by key
  unfoldable pub erase : K → Table K V → Table K V
  erase a [] = []
  erase a ((b, w) ∷ m) = let rest = erase a m in if k.beq b a then rest else (b, w) ∷ rest

  -- emplace, try_emplace, insert: an existing entry is kept
  unfoldable pub emplace : K → V → Table K V → Table K V
  unfolding lookup insert
  emplace a v m = elim (lookup a m) [ none ↦ insert a v m | some w ↦ m ]

  pub lookup-insert :
      (a b : K) (v : V) (m : Table K V)
      → lookup b (insert a v m) ≡ (if k.beq a b then some v else lookup b m)
  unfolding lookup insert
  lookup-insert a b v [] = refl
  lookup-insert a b v ((c, w) ∷ m) =
      ground (arith, k.beq_iff a b, k.beq_iff c a, k.beq_iff c b, lookup-insert a b v m)

  pub lookup-erase :
      (a b : K) (m : Table K V) → lookup b (erase a m) ≡ (if k.beq a b then none else lookup b m)
  unfolding lookup erase
  lookup-erase a b [] = ground arith
  lookup-erase a b ((c, w) ∷ m) =
      ground (arith, k.beq_iff a b, k.beq_iff c a, k.beq_iff c b, lookup-erase a b m)
