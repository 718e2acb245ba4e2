-- ===== src/Lmdb/Refinement/Chains.antt =====
-- src/adapters/os/lmdb_store.cpp against src/adapters/sim/in_memory_store.hpp: the loop that cuts a
-- chain, and its transaction.
use mathlib.Core.Path.{subst}
use loti.Base.{ℕ, ◌-◌, ◌≡◌, refl, sym, ◌∙◌, arith}
use loti.Base.{List, [], ◌∷◌, some, length, Option-cases, Bool-cases, inl, inr, nat_eq, leb, ltb}
use loti.Base.{take, drop, All, if◌then◌else◌, zero, suc, leb→le, nat_eq_iff}
use loti.Base.Table.{Table, lookup, insert, lookup-erase, lookup-insert}
use loti.Base.Key.{bytes_key, nat_key}
use loti.Store
use loti.Store.{Store, prune_seq, prune_loop}
use loti.Lmdb.Engine.{returned, ◌>>=◌, check, Engine}
use loti.Lmdb.State.{LmdbStore}
use loti.Lmdb.Prune
use loti.Lmdb.Prune.{prune_record, prune_records}
use loti.Lmdb.Keys.{Keyed-erase}
use loti.Lmdb.Refinement.{Represents, IsCounted, IsSeq}
use loti.Lmdb.Refinement.Writes.{bind-returned, check-returned, Represents-moved}
use loti.Lmdb.Refinement.Pruning.{InRange, prune_record-Represents}

prune_seq-IsCounted : (q : ℕ) (s : Store) → IsCounted s → IsCounted (prune_seq q s)
unfolding prune_seq
prune_seq-IsCounted q s w = elim (Option-cases (lookup q s.clock_events)) [
  | inl e ↦ rw (prune_seq, e) w
  | inr (c, e) ↦
      rw (prune_seq, e)
        (record {
          events = w.events;
          next = w.next;
          keys = Keyed-erase IsSeq q s.clock_events w.keys;
        })
]

prune_seq-InRange : (q : ℕ) (s : Store) → InRange s → InRange (prune_seq q s)
unfolding prune_seq
prune_seq-InRange q s w = elim (Option-cases (lookup q s.clock_events)) [
  | inl e ↦ rw (prune_seq, e) w
  | inr (c, e) ↦
      rw (prune_seq, e)
        (record {
          at = λ n x h.
              let reads = lookup-erase q n s.clock_events in ground (arith, reads, h, w.at n x);
        })
]

-- The clock events of the list are pruned, one after the other.
pruned : List ℕ → Store → Store
pruned [] s = s
pruned (q ∷ qs) s = pruned qs (prune_seq q s)

prune_loop-pruned :
    (keep : ℕ) (seqs : List ℕ) (s : Store)
    → prune_loop keep seqs s
      ≡ (drop (length seqs - keep) seqs, pruned (take (length seqs - keep) seqs) s)
unfolding prune_loop pruned
prune_loop-pruned keep [] s = ground arith
prune_loop-pruned keep (q ∷ qs) s = elim (Bool-cases (ltb keep (length (q ∷ qs)))) [
  | inl more ↦
      let rest = prune_loop-pruned keep qs (prune_seq q s) in
      let n : length (q ∷ qs) - keep ≡ suc (length qs - keep) = ground arith in
      rw (prune_loop, more, n) rest
  | inr enough ↦
      let n : length (q ∷ qs) - keep ≡ 0 = ground arith in rw (prune_loop, enough, n) refl
]

pruned-chain_seqs : (qs : List ℕ) (s : Store) → (pruned qs s).chain_seqs ≡ s.chain_seqs
unfolding pruned prune_seq
pruned-chain_seqs [] s = refl
pruned-chain_seqs (q ∷ qs) s = pruned-chain_seqs qs (prune_seq q s) ∙ ground arith

take-All : (n : ℕ) (qs : List ℕ) → All IsSeq qs → All IsSeq (take n qs)
take-All zero qs h = tt
take-All (suc n) [] h = tt
take-All (suc n) (q ∷ qs) h = (h.0, take-All n qs h.1)

-- A value that is there already, put again.
same_there :
    (a b : ℕ) (seqs : List ℕ) (t : Table ℕ (List ℕ))
    → lookup a t ≡ some seqs
    → lookup b (insert a seqs t) ≡ lookup b t
same_there a b seqs t e =
    let reads = lookup-insert a b seqs t in ground (arith, reads, e, nat_eq_iff a b)

module _ (l : Engine) where
  prune_records-Represents :
      (qs : List ℕ) (st : LmdbStore l) (s : Store) (db db' : l.Db)
      → Represents l (record st { db = db }) s
      → All IsSeq qs
      → IsCounted s
      → InRange s
      → prune_records l qs db ≡ returned db'
      → Represents l (record st { db = db' }) (pruned qs s)
  unfolding prune_records pruned
  prune_records-Represents [] st s db db' r small counted ranges h =
      let same : db ≡ db' = cc h in
      subst (λ (x : l.Db). Represents l (record st { db = x }) s) same r
  prune_records-Represents (q ∷ qs) st s db db' r small counted ranges h =
      let (d1, first, rest) = bind-returned (prune_record l q db) _ db' h in
      prune_records-Represents qs st (prune_seq q s) d1 db'
        (prune_record-Represents l q st s db d1 r small.0 counted ranges first) small.1
        (prune_seq-IsCounted q s counted) (prune_seq-InRange q s ranges) rest

  -- Other sequences of the chains, the same in both stores.
  Represents-seqs :
      (st : LmdbStore l) (s : Store) (t u : Table ℕ (List ℕ))
      → Represents l st s
      → ((chain : ℕ) → lookup chain t ≡ lookup chain u)
      → Represents l (record st { chain_seqs = t }) (record s { chain_seqs = u })
  Represents-seqs st s t u r same = record {
    events = r.events;
    event_index = r.event_index;
    clock_events = r.clock_events;
    clock_index = r.clock_index;
    referencing = r.referencing;
    neighbors = r.neighbors;
    routes = r.routes;
    timed_routes = r.timed_routes;
    next_event_seq = r.next_event_seq;
    next_clock_seq = r.next_clock_seq;
    chain_tip_seq = r.chain_tip_seq;
    chain_seqs = same;
  }

  -- A chain with a bound on its size.
  prune_bounded :
      (chain keep : ℕ) (seqs : List ℕ) (st st' : LmdbStore l) (s : Store)
      → Represents l st s
      → IsCounted s
      → InRange s
      → All IsSeq seqs
      → lookup chain s.chain_seqs ≡ some seqs
      → (if leb (length seqs) keep
          then returned st
          else (prune_records l (take (length seqs - keep) seqs) st.db >>= λ d.
              check (l.commit d) >>= λ db. returned (record st {
                db = db;
                chain_seqs = insert chain (drop (length seqs - keep) seqs) st.chain_seqs;
              })))
        ≡ returned st'
      → Represents l st' (record (pruned (take (length seqs - keep) seqs) s) {
        chain_seqs =
            insert chain
              (drop (length seqs - keep) seqs)
              (pruned (take (length seqs - keep) seqs) s).chain_seqs;
      })
  unfolding pruned
  prune_bounded chain keep seqs st st' s r counted ranges small e h =
      let n = length seqs - keep in
      elim (Bool-cases (leb (length seqs) keep)) [
        | inl enough ↦
            let none_over : length seqs - keep ≡ 0 =
              omega (arith, leb→le (length seqs) keep enough) in
            let same : st ≡ st' = cc (rw enough at h) in
            rw none_over (
              subst
                (λ (x : LmdbStore l).
                  Represents l x (record s { chain_seqs = insert chain seqs s.chain_seqs }))
                same
                (Represents-seqs st s st.chain_seqs (insert chain seqs s.chain_seqs) r
                  (λ b. r.chain_seqs b ∙ sym (same_there chain b seqs s.chain_seqs e))))
        | inr more ↦
            let h0 = rw more at h in
            let (d, cut, h1) = bind-returned (prune_records l (take n seqs) st.db) _ st' h0 in
            let (db, kept, h2) = bind-returned (check (l.commit d)) _ st' h1 in
            let t : LmdbStore l = record st { db = db } in
            let u = insert chain (drop n seqs) st.chain_seqs in
            let same : record t { chain_seqs = u } ≡ st' = cc h2 in
            let cutting =
              prune_records-Represents (take n seqs) st s st.db d r (take-All n seqs small) counted
                ranges cut in
            let moved =
              Represents-moved l (record st { db = d }) (pruned (take n seqs) s) st.map_size db
                (l.commit_law d db (check-returned _ db kept)) cutting in
            let final = insert chain (drop n seqs) (pruned (take n seqs) s).chain_seqs in
            subst
              (λ (x : LmdbStore l).
                Represents l x (record (pruned (take n seqs) s) { chain_seqs = final }))
              same
              (Represents-seqs t (pruned (take n seqs) s) u final moved (λ b.
                lookup-insert chain b (drop n seqs) st.chain_seqs
                ∙ rw (moved.chain_seqs b) (
                    sym (lookup-insert chain b (drop n seqs) (pruned (take n seqs) s).chain_seqs))))
      ]

  -- Cutting a chain in the persistent store, if it returns, deletes what it deletes in the store in
  -- memory, and leaves the two stores with the same contents.
  pub prune_chain-Represents :
      (chain keep : ℕ) (st st' : LmdbStore l) (s : Store)
      → Represents l st s
      → IsCounted s
      → InRange s
      → ((seqs : List ℕ) → lookup chain s.chain_seqs ≡ some seqs → All IsSeq seqs)
      → Prune.prune_chain l chain keep st ≡ returned st'
      → Represents l st' (Store.prune_chain chain keep s)
  unfolding Prune.prune_chain Store.prune_chain
  prune_chain-Represents chain keep st st' s r counted ranges small h =
      elim (Option-cases (lookup chain s.chain_seqs)) [
        | inl e ↦
            let same : st ≡ st' = cc (rw (Prune.prune_chain, r.chain_seqs chain, e) at h) in
            rw (Store.prune_chain, e) (subst (λ (x : LmdbStore l). Represents l x s) same r)
        | inr (seqs, e) ↦ elim (Bool-cases (nat_eq keep 0)) [
          | inl unbounded ↦
              let same : st ≡ st' =
                cc (rw (Prune.prune_chain, r.chain_seqs chain, e, unbounded) at h) in
              rw (Store.prune_chain, e, unbounded)
                (subst (λ (x : LmdbStore l). Represents l x s) same r)
          | inr bounded ↦
              let h0 = rw (Prune.prune_chain, r.chain_seqs chain, e, bounded) at h in
              rw (Store.prune_chain, e, bounded, prune_loop-pruned keep seqs s)
                (prune_bounded chain keep seqs st st' s r counted ranges (small seqs e) e h0)
        ]
      ]
