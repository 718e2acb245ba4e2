-- ===== src/Proof/Verdict.antt =====
-- src/core/proof/proof.cpp: what a valid proof proves.
use loti.Base.{ℤ, ◌≡◌, refl, ◌∙◌, ◌⊎◌, inl, inr, ◌≤ℤ◌, ◌<ℤ◌}
use loti.Base.{Bool, true, false, [], ◌∷◌, some, head?, last?, arith}
use loti.Base.{Bool-cases}
use loti.Base.Key.{bytes_eq_iff}
use loti.Domain.{
  Bytes, NodeId, EventHash, Signature, ClockEvent, EventChain, Order, before, undetermined, after,
}
use loti.Validate.{ChainResult, verify_chain, timestamp_of}
use loti.Validate.Encloses.{Encloses}
use loti.Validate.Exact.{verify_chain_sound}
use loti.Proof.{
  Kind, order, Proof, Reference, order_value, is_order, compare_chains, int_eq, is_blank,
  fingerprint, wrong_key, judge_order, verify,
}

pub int_eq-eq : (a b : ℤ) → int_eq a b ≡ true → a ≡ b
unfolding int_eq
int_eq-eq a b h = ground arith

pub int_eq_refl : (a : ℤ) → int_eq a a ≡ true
unfolding int_eq
int_eq_refl a = ground arith

blank-eq-nil : (b : Bytes) → is_blank b ≡ true → b ≡ []
unfolding is_blank
blank-eq-nil [] h = refl
blank-eq-nil (x ∷ xs) h = cc

-- The orders that `compare_chains` answers, in the timestamps of the ends.
abbrev pub Follows : Order → ClockEvent → ClockEvent → ClockEvent → ClockEvent → Type 0
Follows before first1 last1 first2 last2 = last1.timestamp <ℤ first2.timestamp
Follows after first1 last1 first2 last2 = last2.timestamp <ℤ first1.timestamp
Follows undetermined first1 last1 first2 last2 =
    (first2.timestamp ≤ℤ last1.timestamp) × (first1.timestamp ≤ℤ last2.timestamp)

-- The answer holds of the ends of the two chains.
pub compare_chains-Follows :
    (a b : EventChain) (first1 last1 first2 last2 : ClockEvent)
    → head? a.lower_bound ≡ some first1
    → last? a.upper_bound ≡ some last1
    → head? b.lower_bound ≡ some first2
    → last? b.upper_bound ≡ some last2
    → Follows (compare_chains a b) first1 last1 first2 last2
unfolding compare_chains timestamp_of
compare_chains-Follows a b first1 last1 first2 last2 h1 l1 h2 l2 =
    rw (h1, l1, h2, l2) (ground arith)

module _ (sha256 : Bytes → EventHash) (check_signature : Bytes → Signature → NodeId → Bool) where
  -- The reference carries no key, or a key with the fingerprint of its node.
  abbrev pub KeyFits : Reference → Type 0
  KeyFits r = (r.pubkey ≡ []) ⊎ (fingerprint sha256 check_signature r.pubkey ≡ r.node)

  pub record OrderFits (p : Proof) : Type 0 where
    pub second : (verify_chain sha256 check_signature p.event_chain2 p.reference.node).ok ≡ true
    pub recorded : order_value (compare_chains p.event_chain p.event_chain2) ≡ p.recorded_order

  pub record IsSound (p : Proof) : Type 0 where
    pub key : KeyFits p.reference
    pub first : (verify_chain sha256 check_signature p.event_chain p.reference.node).ok ≡ true
    pub order_fits : is_order p.kind ≡ true → OrderFits p

  right_key : (r : Reference) → wrong_key sha256 check_signature r ≡ false → KeyFits r
  unfolding wrong_key
  right_key r h = elim (Bool-cases (is_blank r.pubkey)) [
    | inl e ↦ inl (blank-eq-nil r.pubkey e)
    | inr e ↦ inr ((bytes_eq_iff _ _).0 (ground arith))
  ]

  judge_order-OrderFits :
      (p : Proof) (c1 : ChainResult)
      → (judge_order sha256 check_signature p c1).valid ≡ true
      → OrderFits p
        × ((judge_order sha256 check_signature p c1).lower ≡ c1.lower)
        × ((judge_order sha256 check_signature p c1).upper ≡ c1.upper)
  unfolding judge_order
  judge_order-OrderFits p c1 h = (
    record {
      second = ground arith;
      recorded =
          int_eq-eq (order_value (compare_chains p.event_chain p.event_chain2)) p.recorded_order
            (ground arith);
    },
    ground arith,
    ground arith,
  )

  -- A proof that is judged valid is sound, and its interval is that of its first chain: its key
  -- fits its node, its chains are accepted, and an order proof records the order of the intervals.
  pub verify-IsSound :
      (p : Proof)
      → (verify sha256 check_signature p).valid ≡ true
      → IsSound p
        × ((verify sha256 check_signature p).lower
            ≡ (verify_chain sha256 check_signature p.event_chain p.reference.node).lower)
        × ((verify sha256 check_signature p).upper
            ≡ (verify_chain sha256 check_signature p.event_chain p.reference.node).upper)
  unfolding verify
  verify-IsSound p h = (
    record {
      key = right_key p.reference (ground arith);
      first = ground arith;
      order_fits = λ o.
          (judge_order-OrderFits p
            (verify_chain sha256 check_signature p.event_chain p.reference.node) (ground arith)).0;
    },
    ground (
      arith,
      judge_order-OrderFits p (verify_chain sha256 check_signature p.event_chain p.reference.node),
    ),
    ground (
      arith,
      judge_order-OrderFits p (verify_chain sha256 check_signature p.event_chain p.reference.node),
    ),
  )

  fitting_key : (r : Reference) → KeyFits r → wrong_key sha256 check_signature r ≡ false
  unfolding wrong_key is_blank
  fitting_key r (inl e) = rw e
  fitting_key r (inr e) =
      ground (arith, bytes_eq_iff (fingerprint sha256 check_signature r.pubkey) r.node)

  -- Every sound proof is judged valid.
  pub IsSound-verify : (p : Proof) → IsSound p → (verify sha256 check_signature p).valid ≡ true
  unfolding verify judge_order
  IsSound-verify p s = elim (Bool-cases (is_order p.kind)) [
    | inl o ↦
        let fits = s.order_fits o in
        rw (fitting_key p.reference s.key, s.first, o, fits.second, fits.recorded)
          (rw (int_eq_refl p.recorded_order))
    | inr o ↦ rw (fitting_key p.reference s.key, s.first, o)
  ]

  order_value-injective : (a b : Order) → order_value a ≡ order_value b → a ≡ b
  unfolding order_value
  order_value-injective a b h = ground arith

  kind_is_order : (k : Kind) → k ≡ order → is_order k ≡ true
  unfolding is_order
  kind_is_order k e = rw e

  -- A valid order proof that records `o` shows it: both events lie between clock events of the
  -- reference node, at timestamps that stand in the order `o`.
  pub verify_order :
      (p : Proof) (o : Order)
      → p.kind ≡ order
      → p.recorded_order ≡ order_value o
      → (verify sha256 check_signature p).valid ≡ true
      → (first1 : ClockEvent) × (last1 : ClockEvent) × (first2 : ClockEvent) × (last2 : ClockEvent)
        × Encloses sha256 check_signature p.event_chain p.reference.node first1 last1
        × Encloses sha256 check_signature p.event_chain2 p.reference.node first2 last2
        × Follows o first1 last1 first2 last2
  verify_order p o k r h =
      let (s, _, _) = verify-IsSound p h in
      let fits = s.order_fits (kind_is_order p.kind k) in
      let (first1, last1, (e1, _, _)) =
        verify_chain_sound sha256 check_signature p.event_chain p.reference.node s.first in
      let (first2, last2, (e2, _, _)) =
        verify_chain_sound sha256 check_signature p.event_chain2 p.reference.node fits.second in
      let same : compare_chains p.event_chain p.event_chain2 ≡ o =
        order_value-injective _ _ (fits.recorded ∙ r) in
      (
        first1,
        last1,
        first2,
        last2,
        e1,
        e2,
        rw same at (
            compare_chains-Follows p.event_chain p.event_chain2 first1 last1 first2 last2 e1.starts
              e1.ends e2.starts e2.ends),
      )
