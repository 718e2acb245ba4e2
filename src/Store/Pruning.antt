-- ===== src/Store/Pruning.antt =====
-- src/adapters/sim/in_memory_store.hpp: pruning a chain keeps its newest clock events.
use loti.Base.{ℕ, ◌≤◌, ◌<◌, ◌≡◌, refl, ap, sym, ◌∙◌, arith, Bool, false, ◌||◌, if◌then◌else◌}
use loti.Base.{
  List, [], ◌∷◌, ◌++◌, none, some, length, nat_eq, nat_eq_iff, ltb, last?, Option-cases, Bool-cases,
  inl, inr,
}
use loti.Base.Key.{nat_key, bytes_key}
use loti.Base.Table.{Table, lookup, insert, lookup-erase, lookup-insert}
use loti.Store.{Store, prune_seq, prune_loop, prune_chain, seqs_of}

abbrev among : ℕ → List ℕ → Bool
among n [] = false
among n (m ∷ ms) = nat_eq m n || among n ms

prune_seq-lookup :
    (seq q : ℕ) (s : Store)
    → lookup q (prune_seq seq s).clock_events
      ≡ (if nat_eq seq q then none else lookup q s.clock_events)
unfolding prune_seq
prune_seq-lookup seq q s = elim (Option-cases (lookup seq s.clock_events)) [
  | inl e ↦ rw (prune_seq, e) (ground (arith, e, nat_eq_iff seq q))
  | inr (c, e) ↦ rw (prune_seq, e) (lookup-erase seq q s.clock_events)
]

-- The sequences of a chain are cut into those that go and those that stay.
pub record Pruned (keep : ℕ) (seqs kept : List ℕ) (s s' : Store) : Type 0 where
  pub dropped : List ℕ
  pub split : seqs ≡ dropped ++ kept
  pub size : length kept ≤ keep
  pub full : keep ≤ length seqs → length kept ≡ keep
  pub newest : 0 < keep → last? kept ≡ last? seqs
  pub reads :
      (q : ℕ)
      → lookup q s'.clock_events ≡ (if among q dropped then none else lookup q s.clock_events)

last?-tail : (n : ℕ) (ns : List ℕ) → 0 < length ns → last? (n ∷ ns) ≡ last? ns
last?-tail n [] b = absurd (omega arith)
last?-tail n (m ∷ ns) b = refl

prune_loop-Pruned :
    (keep : ℕ) (seqs : List ℕ) (s : Store)
    → Pruned keep seqs (prune_loop keep seqs s).0 s (prune_loop keep seqs s).1
unfolding prune_loop
prune_loop-Pruned keep [] s = record {
  dropped = [];
  split = refl;
  size = omega arith;
  full = λ b. omega (arith, b);
  newest = λ b. refl;
  reads = λ q. refl;
}
prune_loop-Pruned keep (seq ∷ seqs) s = elim (Bool-cases (ltb keep (length (seq ∷ seqs)))) [
  | inr fits ↦
      rw (prune_loop, fits)
        (record {
          dropped = [];
          split = refl;
          size = ground arith;
          full = λ b. ground arith;
          newest = λ b. refl;
          reads = λ q. refl;
        })
  | inl over ↦
      let rest = prune_loop-Pruned keep seqs (prune_seq seq s) in
      rw (prune_loop, over)
        (record {
          dropped = seq ∷ rest.dropped;
          split = ap (λ (t : List ℕ). seq ∷ t) rest.split;
          size = rest.size;
          full = λ b. rest.full (ground arith);
          newest = λ b. rest.newest b ∙ sym (last?-tail seq seqs (ground arith));
          reads = λ q. ground (arith, rest.reads q, prune_seq-lookup seq q s);
        })
]

-- What pruning a chain leaves of the store.
pub record ChainPruned (chain keep : ℕ) (s s' : Store) : Type 0 where
  pub unbounded : keep ≡ 0 → s' ≡ s
  pub cut : 0 < keep → Pruned keep (seqs_of chain s.chain_seqs) (seqs_of chain s'.chain_seqs) s s'

seqs_of-none : (chain : ℕ) (t : Table ℕ (List ℕ)) → lookup chain t ≡ none → seqs_of chain t ≡ []
unfolding seqs_of
seqs_of-none chain t e = rw (seqs_of, e) refl

seqs_of-some :
    (chain : ℕ) (t : Table ℕ (List ℕ)) (seqs : List ℕ)
    → lookup chain t ≡ some seqs
    → seqs_of chain t ≡ seqs
unfolding seqs_of
seqs_of-some chain t seqs e = rw (seqs_of, e) refl

seqs_of-insert :
    (chain : ℕ) (t : Table ℕ (List ℕ)) (seqs : List ℕ) → seqs_of chain (insert chain seqs t) ≡ seqs
seqs_of-insert chain t seqs =
    seqs_of-some chain (insert chain seqs t) seqs (lookup-insert chain chain seqs t ∙ ground arith)

-- A chain without clock events has nothing to give up.
nothing_to_prune : (keep : ℕ) (s : Store) → Pruned keep [] [] s s
nothing_to_prune keep s = record {
  dropped = [];
  split = refl;
  size = omega arith;
  full = λ b. omega (arith, b);
  newest = λ b. refl;
  reads = λ q. refl;
}

-- Pruning a chain to `keep` clock events keeps the newest of its sequence numbers, `keep` of them or all
-- if there are fewer, the last among them, and takes just the clock events of the others away from the
-- store; with `keep` zero, nothing goes.
pub prune_chain-ChainPruned :
    (chain keep : ℕ) (s : Store) → ChainPruned chain keep s (prune_chain chain keep s)
unfolding prune_chain
prune_chain-ChainPruned chain keep s = elim (Option-cases (lookup chain s.chain_seqs)) [
  | inl e ↦
      rw (prune_chain, e)
        (record {
          unbounded = λ z. refl;
          cut = λ b. rw (seqs_of-none chain s.chain_seqs e) (nothing_to_prune keep s);
        })
  | inr (seqs, e) ↦ elim (Bool-cases (nat_eq keep 0)) [
    | inl z ↦
        rw (prune_chain, e, z) (record { unbounded = λ _. refl; cut = λ b. absurd (ground arith) })
    | inr p ↦
        let left = prune_loop-Pruned keep seqs s in
        rw (prune_chain, e, p)
          (record {
            unbounded = λ z. absurd (ground arith);
            cut = λ b.
                rw
                  (
                    seqs_of-some chain s.chain_seqs seqs e,
                    seqs_of-insert chain _ (prune_loop keep seqs s).0,
                  )
                  (record {
                    dropped = left.dropped;
                    split = left.split;
                    size = left.size;
                    full = left.full;
                    newest = left.newest;
                    reads = left.reads;
                  });
          })
  ]
]
