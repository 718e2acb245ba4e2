-- ===== src/Lmdb/Refinement/Lookups.antt =====
-- src/adapters/os/lmdb_store.cpp against src/adapters/sim/in_memory_store.hpp: where the two stores hold
-- the same, what is read from the persistent one is what is read from the one in memory.
use loti.Base.{ℕ, suc, ◌+◌, ◌≡◌, refl, sym, ap, ◌∙◌, arith, List, [], ◌∷◌, none, some}
use loti.Base.{length, get_elem?, Option-cases, inl, inr, append-nil}
use loti.Base.Key.{bytes_key, nat_key}
use loti.Base.Table.{Table, lookup}
use loti.Domain.{Bytes, EventHash, Event, LocalClockEvent}
use loti.Domain.Ranges.{IsEvent}
use loti.Wire.Result.{Reader, ok}
use loti.Wire.Writer.{put_event}
use loti.Wire.Reader.{get_event}
use loti.Wire.RoundTrip.Rules.{Reads}
use loti.Wire.RoundTrip.Objects.{get_event-put_event}
use loti.Node.Snapshot.{put_local_clock_event, get_local_clock_event}
use loti.Node.Snapshot.RoundTrip.{IsLocalClockEvent, get_local_clock_event-put}
use loti.Store
use loti.Store.{Store}
use loti.Lmdb.Engine.{Dbi, returned, found, of_option, IsKey, Engine}
use loti.Lmdb.Records.{put_u64_be, read_record}
use loti.Lmdb.State.{LmdbStore}
use loti.Lmdb.Reads
use loti.Lmdb.Reads.{get_bytes, seq_of, record_of}
use loti.Lmdb.Keys.{encoded, Keyed, lookup-encoded, length-put_u64_be, get_u64_be-put_u64_be}
use loti.Lmdb.Refinement.{
  Represents, IsCounted, IsSeq, Any, IsOrdered-id, IsOrdered-put_u64_be, Keyed-Any, Keyed-number,
  number, lookup-number,
}

-- What is stored is in the range of its fields, and what the indices and the trackers name is there.
pub record IsLinked (s : Store) : Type 0 where
  pub events : (q : ℕ) (e : Event) → get_elem? s.events q ≡ some e → IsEvent e
  pub clock_events :
      (q : ℕ) (c : LocalClockEvent) → lookup q s.clock_events ≡ some c → IsLocalClockEvent c
  pub named :
      (h : EventHash) (q : ℕ)
      → lookup h s.event_seq ≡ some q
      → IsSeq q × ((e : Event) × (get_elem? s.events q ≡ some e))
  pub clock_named :
      (h : EventHash) (q : ℕ)
      → lookup h s.clock_seq ≡ some q
      → IsSeq q × ((c : LocalClockEvent) × (lookup q s.clock_events ≡ some c))
  pub tips :
      (chain q : ℕ)
      → lookup chain s.chain_tip_seq ≡ some q
      → IsSeq q × ((c : LocalClockEvent) × (lookup q s.clock_events ≡ some c))

read_record-Reads {ℓ} :
    {A : Type ℓ} (r : Reader A) (bs : Bytes) (a : A) → Reads r bs a → read_record r bs ≡ returned a
unfolding read_record
read_record-Reads r bs a reads =
    let ends : r bs ≡ ok (a, []) = ap r (sym (append-nil bs)) ∙ reads.at [] in
    rw (read_record, ends) refl

number-there :
    (es : List Event) (q : ℕ) (e : Event)
    → get_elem? es q ≡ some e
    → lookup q (number 0 es) ≡ some e
number-there es q e h =
    ap (λ (i : ℕ). lookup i (number 0 es)) (omega arith) ∙ lookup-number 0 q es ∙ h

length-encoded {ℓ κ} :
    {K : Type ℓ} {V : Type κ} (f : K → Bytes) (g : V → Bytes) (m : Table K V)
    → length (encoded f g m) ≡ length m
unfolding encoded
length-encoded f g [] = refl
length-encoded f g ((k, v) ∷ m) = ap suc (length-encoded f g m)

length-number {ℓ} : {A : Type ℓ} (k : ℕ) (xs : List A) → length (number k xs) ≡ length xs
unfolding number
length-number k [] = refl
length-number k (x ∷ xs) = ap suc (length-number (k + 1) xs)

-- The keys of the sequence numbers are keys.
pub seq-IsKey : (q : ℕ) → IsKey (put_u64_be q)
seq-IsKey q = record {
  some_byte = omega (arith, length-put_u64_be q);
  short = omega (arith, length-put_u64_be q);
}

module _ (l : Engine) where
  -- An index of hashes that holds the encoded table gives the table's number.
  seq_of-lookup :
      (d : Dbi) (h : EventHash) (st : LmdbStore l) (t : Table EventHash ℕ)
      → IsKey h
      → ((q : ℕ) → lookup h t ≡ some q → IsSeq q)
      → l.records d st.db ≡ encoded (λ x. x) put_u64_be t
      → seq_of l d h st ≡ returned (lookup h t)
  unfolding seq_of get_bytes found
  seq_of-lookup d h st t k small same =
      let reads : l.get d h st.db
          ≡ of_option (elim (lookup h t) [ none ↦ none | some q ↦ some (put_u64_be q) ]) =
        l.get_law d h st.db k
        ∙ ap of_option (
            ap (lookup h) same
            ∙ lookup-encoded Any (λ x. x) put_u64_be h t IsOrdered-id tt (Keyed-Any t)) in
      elim (Option-cases (lookup h t)) [
        | inl e ↦ rw (seq_of, reads, e) refl
        | inr (q, e) ↦
            rw (seq_of, reads, e, length-put_u64_be q, get_u64_be-put_u64_be q (small q e)) refl
      ]

  -- A log that holds the encoded table gives the record of a sequence number.
  record_of-lookup {ℓ} :
      {A : Type ℓ} (d : Dbi) (r : Reader A) (w : A → Bytes) (q : ℕ) (st : LmdbStore l)
      (t : Table ℕ A) (a : A)
      → IsSeq q
      → Keyed IsSeq t
      → l.records d st.db ≡ encoded put_u64_be w t
      → lookup q t ≡ some a
      → Reads r (w a) a
      → record_of l d r q st ≡ returned a
  unfolding record_of get_bytes found
  record_of-lookup d r w q st t a small keys same there reads =
      let got : l.get d (put_u64_be q) st.db ≡ of_option (some (w a)) =
        l.get_law d (put_u64_be q) st.db (seq-IsKey q)
        ∙ ap of_option (
            ap (lookup (put_u64_be q)) same
            ∙ lookup-encoded IsSeq put_u64_be w q t IsOrdered-put_u64_be small keys)
        ∙ rw there refl in
      rw (record_of, got) (read_record-Reads r (w a) a reads)

  clock_event_by_seq-lookup :
      (q : ℕ) (c : LocalClockEvent) (st : LmdbStore l) (s : Store)
      → Represents l st s
      → IsCounted s
      → IsLinked s
      → IsSeq q
      → lookup q s.clock_events ≡ some c
      → Reads.clock_event_by_seq l q st ≡ returned c
  unfolding Reads.clock_event_by_seq
  clock_event_by_seq-lookup q c st s p counted linked small there =
      record_of-lookup Dbi.clock_events get_local_clock_event put_local_clock_event q st
        s.clock_events c small counted.keys p.clock_events there
        (get_local_clock_event-put c (linked.clock_events q c there))

  -- The answers of the persistent store.
  pub record Agrees (st : LmdbStore l) (s : Store) : Type 0 where
    pub event_by_hash :
        (h : EventHash) → IsKey h → Reads.event_by_hash l h st ≡ returned (Store.event_by_hash h s)
    pub clock_event_by_hash :
        (h : EventHash)
        → IsKey h
        → Reads.clock_event_by_hash l h st ≡ returned (Store.clock_event_by_hash h s)
    pub clock_event_seq :
        (h : EventHash)
        → IsKey h
        → Reads.clock_event_seq l h st ≡ returned (Store.clock_event_seq h s)
    pub latest_on_chain :
        (chain : ℕ) → Reads.latest_on_chain l chain st ≡ returned (Store.latest_on_chain chain s)
    pub event_count : Reads.event_count l st ≡ Store.event_count s
    pub clock_event_count : Reads.clock_event_count l st ≡ Store.clock_event_count s

  -- Where the two stores hold the same, every value is in the range of its fields, the sequence numbers
  -- fit eight bytes and lead to something, the reads by a hash that LMDB takes as a key, the tips of the
  -- chains and the counts are those of the store in memory.
  pub Represents-Agrees :
      (st : LmdbStore l) (s : Store) → Represents l st s → IsCounted s → IsLinked s → Agrees st s
  unfolding Reads.event_by_hash Reads.event_by_seq Reads.clock_event_by_hash Reads.clock_event_seq
      Reads.latest_on_chain Reads.event_count Reads.clock_event_count Store.event_by_hash
      Store.clock_event_by_hash Store.clock_event_seq Store.latest_on_chain Store.event_count
      Store.clock_event_count
  Represents-Agrees st s p counted linked = record {
    event_by_hash = λ h k.
        let seq =
          seq_of-lookup Dbi.event_index h st s.event_seq k (λ q e. (linked.named h q e).0)
            p.event_index in
        elim (Option-cases (lookup h s.event_seq)) [
          | inl e ↦ rw (Reads.event_by_hash, seq, e) (rw (Store.event_by_hash, e) refl)
          | inr (q, e) ↦
              let (small, (x, there)) = linked.named h q e in
              let got =
                record_of-lookup Dbi.events get_event put_event q st (number 0 s.events) x small
                  (Keyed-number 0 s.events (omega (arith, counted.events))) p.events
                  (number-there s.events q x there)
                  (get_event-put_event x (linked.events q x there)) in
              rw (Reads.event_by_hash, seq, e, got, Store.event_by_hash, there) refl
        ];
    clock_event_by_hash = λ h k.
        let seq =
          seq_of-lookup Dbi.clock_index h st s.clock_seq k (λ q e. (linked.clock_named h q e).0)
            p.clock_index in
        elim (Option-cases (lookup h s.clock_seq)) [
          | inl e ↦ rw (Reads.clock_event_by_hash, seq, e, Store.clock_event_by_hash) refl
          | inr (q, e) ↦
              let (small, (x, there)) = linked.clock_named h q e in
              let got = clock_event_by_seq-lookup q x st s p counted linked small there in
              rw (Reads.clock_event_by_hash, seq, e, got, Store.clock_event_by_hash, there) refl
        ];
    clock_event_seq = λ h k.
        seq_of-lookup Dbi.clock_index h st s.clock_seq k (λ q e. (linked.clock_named h q e).0)
          p.clock_index;
    latest_on_chain = λ chain. elim (Option-cases (lookup chain s.chain_tip_seq)) [
      | inl e ↦ rw (Reads.latest_on_chain, p.chain_tip_seq, e, Store.latest_on_chain) refl
      | inr (q, e) ↦
          let (small, (x, there)) = linked.tips chain q e in
          let got = clock_event_by_seq-lookup q x st s p counted linked small there in
          rw (Reads.latest_on_chain, p.chain_tip_seq, e, got, Store.latest_on_chain, there) refl
    ];
    event_count =
        ap length p.events
        ∙ length-encoded put_u64_be put_event (number 0 s.events)
        ∙ length-number 0 s.events;
    clock_event_count =
        ap length p.clock_events ∙ length-encoded put_u64_be put_local_clock_event s.clock_events;
  }
