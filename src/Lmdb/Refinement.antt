-- ===== src/Lmdb/Refinement.antt =====
-- src/adapters/os/lmdb_store.cpp against src/adapters/sim/in_memory_store.hpp: what it means that the
-- persistent store holds the same as the one in memory.
pub mod Writes
pub mod Events
pub mod Clocks
pub mod Overlay
pub mod Timed
pub mod Pruning
pub mod Chains
pub mod Reset
pub mod Lookups
pub mod Runs
use loti.Base.{
  ℕ, zero, suc, ◌+◌, ◌^◌, ◌<◌, ◌≤◌, ◌≡◌, refl, sym, ap, ◌∙◌, arith, Bool, true, false, ◌&&◌, ◌||◌,
}
use loti.Base.{
  List, [], ◌∷◌, ◌++◌, Option, none, some, length, get_elem?, ltb, nat_eq, if◌then◌else◌,
}
use loti.Base.Key.{Key, bytes_eq, bytes_lt, bytes_key, nat_key, pair_key, nat_key}
use loti.Base.Table.{Table, lookup, insert, emplace}
use loti.Domain.{Bytes, EventHash, Event, LocalClockEvent, Neighbor, NodeId, TimedRoute}
use loti.Wire.Writer.{put_event}
use loti.Node.Snapshot.{put_local_clock_event}
use loti.Store.{Store}
use loti.Lmdb.Engine.{
  events, event_index, clock_events, clock_index, neighbors, routes, timed_routes, Engine,
}
use loti.Lmdb.Records.{put_u64_be, put_tips, put_timed_route_list}
use loti.Lmdb.State.{LmdbStore}
use loti.Lmdb.Keys.{
  encoded, IsOrdered, bytes_eq-put_u64_be, bytes_lt-put_u64_be, Keyed, lookup-encoded,
  encoded-insert,
}

-- The events under their sequence numbers, from `k` on.
unfoldable pub number {ℓ} : {A : Type ℓ} → ℕ → List A → Table ℕ A
number k [] = []
number k (x ∷ xs) = (k, x) ∷ number (k + 1) xs

-- The pair of a hash and a sequence number is in the multimap.
unfoldable pub has_pair : EventHash → ℕ → List (EventHash × ℕ) → Bool
has_pair h q [] = false
has_pair h q ((k, n) ∷ ps) = (bytes_eq k h && nat_eq n q) || has_pair h q ps

abbrev pub present {ℓ} : {A : Type ℓ} → Option A → Bool
present none = false
present (some a) = true

abbrev pub IsSeq : ℕ → Type 0
IsSeq n = n < 2 ^ 64

-- The contents of every sub-database are the encoded maps of the store in memory, the reverse index
-- holds the same pairs, the counters are equal, and the trackers answer the same.
pub record Represents (l : Engine) (st : LmdbStore l) (s : Store) : Type 0 where
  pub events : l.records events st.db ≡ encoded put_u64_be put_event (number 0 s.events)
  pub event_index : l.records event_index st.db ≡ encoded (λ h. h) put_u64_be s.event_seq
  pub clock_events :
      l.records clock_events st.db ≡ encoded put_u64_be put_local_clock_event s.clock_events
  pub clock_index : l.records clock_index st.db ≡ encoded (λ h. h) put_u64_be s.clock_seq
  pub referencing :
      (h : EventHash) (q : ℕ)
      → IsSeq q
      → present (lookup (h, put_u64_be q) (l.pairs st.db)) ≡ has_pair h q s.referencing
  pub neighbors :
      l.records neighbors st.db
      ≡ encoded (λ id. id) (λ (n : Neighbor). put_tips n.last_clock_event_hashes) s.neighbors
  pub routes : l.records routes st.db ≡ encoded (λ id. id) (λ id. id) s.routes
  pub timed_routes :
      l.records timed_routes st.db ≡ encoded (λ id. id) put_timed_route_list s.timed_routes
  pub next_event_seq : st.next_event_seq ≡ length s.events
  pub next_clock_seq : st.next_clock_seq ≡ s.next_clock_seq
  pub chain_tip_seq : st.chain_tip_seq ≡ s.chain_tip_seq
  pub chain_seqs : (chain : ℕ) → lookup chain st.chain_seqs ≡ lookup chain s.chain_seqs

-- The sequence numbers of the store in memory fit their eight bytes.
pub record IsCounted (s : Store) : Type 0 where
  pub events : IsSeq (length s.events)
  pub next : IsSeq s.next_clock_seq
  pub keys : Keyed IsSeq s.clock_events

pub IsOrdered-put_u64_be : IsOrdered {K = ℕ} IsSeq put_u64_be
IsOrdered-put_u64_be = record { same = bytes_eq-put_u64_be; less = bytes_lt-put_u64_be }

-- Hashes and identities are their own keys.
abbrev pub Any : List ℕ → Type 0
Any a = Unit {0}

pub IsOrdered-id : IsOrdered {K = List ℕ} Any (λ (h : List ℕ). h)
IsOrdered-id = record { same = λ a b x y. refl; less = λ a b x y. refl }

pub Keyed-Any {κ} : {V : Type κ} (m : Table (List ℕ) V) → Keyed Any m
Keyed-Any [] = tt
Keyed-Any ((k, v) ∷ m) = (tt, Keyed-Any m)

pub Keyed-number {ℓ} :
    {A : Type ℓ} (k : ℕ) (xs : List A) → k + length xs ≤ 2 ^ 64 → Keyed IsSeq (number k xs)
unfolding number
Keyed-number k [] h = tt
Keyed-number k (x ∷ xs) h = (omega arith, Keyed-number (k + 1) xs (omega arith))

abbrev single {ℓ} : {A : Type ℓ} → ℕ → A → Table ℕ A
single i x = (i, x) ∷ []

pub insert-number {ℓ} :
    {A : Type ℓ} (k : ℕ) (xs : List A) (x : A)
    → insert (k + length xs) x (number k xs) ≡ number k (xs ++ (x ∷ []))
unfolding number insert
insert-number k [] x = ap (λ (i : ℕ). single i x) (omega arith)
insert-number k (y ∷ ys) x = ground (arith, insert-number (k + 1) ys x)

pub lookup-number {ℓ} :
    {A : Type ℓ} (k q : ℕ) (xs : List A) → lookup (k + q) (number k xs) ≡ get_elem? xs q
unfolding number lookup
lookup-number k q [] = refl
lookup-number k zero (x ∷ xs) = ground arith
lookup-number k (suc q) (x ∷ xs) = ground (arith, lookup-number (k + 1) q xs)

-- The log of the events, one event longer.
pub encoded-append :
    (es : List Event) (e : Event)
    → length es < 2 ^ 64
    → insert (put_u64_be (length es)) (put_event e) (encoded put_u64_be put_event (number 0 es))
      ≡ encoded put_u64_be put_event (number 0 (es ++ (e ∷ [])))
encoded-append es e h =
    sym (
      encoded-insert IsSeq put_u64_be put_event (length es) e (number 0 es) IsOrdered-put_u64_be h
        (Keyed-number 0 es (omega arith)))
    ∙ ap (λ (i : ℕ). encoded put_u64_be put_event (insert i e (number 0 es))) (omega arith)
    ∙ ap (encoded put_u64_be put_event) (insert-number 0 es e)

-- An index of hashes, with a new hash.
pub encoded-index :
    (h : EventHash) (q : ℕ) (t : Table EventHash ℕ)
    → lookup h t ≡ none
    → insert h (put_u64_be q) (encoded (λ x. x) put_u64_be t)
      ≡ encoded (λ x. x) put_u64_be (emplace h q t)
unfolding emplace
encoded-index h q t new =
    rw (emplace, new)
      (sym (encoded-insert Any (λ x. x) put_u64_be h q t IsOrdered-id tt (Keyed-Any t)))
