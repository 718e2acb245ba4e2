-- ===== src/Store/Lookups.antt =====
-- src/adapters/sim/in_memory_store.hpp: sequence numbers are handed out once, and what is appended is
-- found again.
use loti.Base.{ℕ, ◌<◌, ◌≡◌, ◌≢◌, refl, ◌∙◌, arith, false, if◌then◌else◌}
use loti.Base.{none, some, Option-cases, inl, inr}
use loti.Base.{nat_eq_iff, ◌⊎◌, Bool-cases}
use loti.Base.Key.{Key, bytes_eq, bytes_eq_iff, bytes_key, nat_key}
use loti.Base.Table.{Table, lookup, emplace, lookup-insert, lookup-erase}
use loti.Domain.{EventHash, LocalClockEvent}
use loti.Store.{
  Store, append_clock_event, update_clock_event, prune_seq, clock_event_by_hash, latest_on_chain,
}

-- `emplace` keeps what is there.
lookup-emplace {ℓ κ} :
    {K : Type ℓ} {V : Type κ} ⦃k : Key K⦄ (a b : K) (v : V) (m : Table K V)
    → lookup a m ≡ none
    → lookup b (emplace a v m) ≡ (if k.beq a b then some v else lookup b m)
unfolding emplace
lookup-emplace a b v m e = rw (emplace, e) (lookup-insert a b v m)

-- Every sequence number that is stored was handed out.
pub record IsNumbered (s : Store) : Type 0 where
  pub live :
      (seq : ℕ) (c : LocalClockEvent) → lookup seq s.clock_events ≡ some c → seq < s.next_clock_seq
  pub named : (h : EventHash) (seq : ℕ) → lookup h s.clock_seq ≡ some seq → seq < s.next_clock_seq
  pub tips : (chain seq : ℕ) → lookup chain s.chain_tip_seq ≡ some seq → seq < s.next_clock_seq

pub fresh-none : (s : Store) → IsNumbered s → lookup s.next_clock_seq s.clock_events ≡ none
fresh-none s w = elim (Option-cases (lookup s.next_clock_seq s.clock_events)) [
  | inl e ↦ e
  | inr (c, e) ↦ absurd (omega (arith, w.live s.next_clock_seq c e))
]

lookup-emplace_any {ℓ κ} :
    {K : Type ℓ} {V : Type κ} ⦃k : Key K⦄ (a b : K) (v : V) (m : Table K V)
    → (x : V) → lookup b (emplace a v m) ≡ some x
    → (x ≡ v) ⊎ (lookup b m ≡ some x)
unfolding emplace
lookup-emplace_any a b v m x h = elim (Option-cases (lookup a m)) [
  | inr (w, e) ↦ inr (rw (emplace, e) at h)
  | inl e ↦
      let reads = lookup-insert a b v m in
      let h' = rw (emplace, e) at h in ground (arith, reads, h')
]

-- An append keeps that every sequence number in the store was handed out.
pub append_clock_event-IsNumbered :
    (c : LocalClockEvent) (s : Store) → IsNumbered s → IsNumbered (append_clock_event c s).1
unfolding append_clock_event
append_clock_event-IsNumbered c s w = record {
  live = λ seq x h.
      let reads = lookup-emplace s.next_clock_seq seq c s.clock_events (fresh-none s w) in
      ground (arith, reads, h, w.live seq x, nat_eq_iff s.next_clock_seq seq);
  named = λ k seq h. elim (lookup-emplace_any c.hash k s.next_clock_seq s.clock_seq seq h) [
    | inl e ↦ omega (arith, e)
    | inr e ↦ omega (arith, w.named k seq e)
  ];
  tips = λ chain seq h.
      let reads = lookup-insert c.chain chain s.next_clock_seq s.chain_tip_seq in
      ground (arith, reads, h, w.tips chain seq);
}

-- An update keeps that every sequence number in the store was handed out.
pub update_clock_event-IsNumbered :
    (c : LocalClockEvent) (s : Store) → IsNumbered s → IsNumbered (update_clock_event c s)
unfolding update_clock_event
update_clock_event-IsNumbered c s w = elim (Option-cases (lookup c.hash s.clock_seq)) [
  | inl e ↦ rw (update_clock_event, e) w
  | inr (seq, e) ↦
      rw (update_clock_event, e)
        (record {
          live = λ q x h.
              let reads = lookup-insert seq q c s.clock_events in
              ground (arith, reads, h, w.live q x, w.named c.hash seq e, nat_eq_iff seq q);
          named = w.named;
          tips = w.tips;
        })
]

pub prune_seq-IsNumbered : (seq : ℕ) (s : Store) → IsNumbered s → IsNumbered (prune_seq seq s)
unfolding prune_seq
prune_seq-IsNumbered seq s w = elim (Option-cases (lookup seq s.clock_events)) [
  | inl e ↦ rw (prune_seq, e) w
  | inr (c, e) ↦
      rw (prune_seq, e)
        (record {
          live = λ q x h.
              let reads = lookup-erase seq q s.clock_events in ground (arith, reads, h, w.live q x);
          named = λ k q h.
              let reads = lookup-erase c.hash k s.clock_seq in
              ground (arith, reads, h, w.named k q);
          tips = w.tips;
        })
]

lookup-emplace_other {ℓ κ} :
    {K : Type ℓ} {V : Type κ} ⦃k : Key K⦄ (a b : K) (v : V) (m : Table K V)
    → k.beq a b ≡ false
    → lookup b (emplace a v m) ≡ lookup b m
unfolding emplace
lookup-emplace_other a b v m d = elim (Option-cases (lookup a m)) [
  | inr (w, e) ↦ rw (emplace, e) refl
  | inl e ↦ rw (emplace, e) (lookup-insert a b v m ∙ rw d refl)
]

bytes_eq-false : (a b : EventHash) → a ≢ b → bytes_eq a b ≡ false
bytes_eq-false a b d = elim (Bool-cases (bytes_eq a b)) [
  | inl e ↦ absurd (d ((bytes_eq_iff a b).0 e))
  | inr e ↦ e
]

-- The entries with the sequence numbers handed out before stay where they are.
live-kept :
    (c : LocalClockEvent) (s : Store) (seq : ℕ)
    → seq < s.next_clock_seq
    → lookup seq (append_clock_event c s).1.clock_events ≡ lookup seq s.clock_events
unfolding append_clock_event
live-kept c s seq b = lookup-emplace_other s.next_clock_seq seq c s.clock_events (ground arith)

other_tips-kept :
    (c : LocalClockEvent) (s : Store) (chain : ℕ)
    → IsNumbered s
    → c.chain ≢ chain
    → latest_on_chain chain (append_clock_event c s).1 ≡ latest_on_chain chain s
unfolding append_clock_event latest_on_chain
other_tips-kept c s chain w d =
    let same : lookup chain (append_clock_event c s).1.chain_tip_seq
        ≡ lookup chain s.chain_tip_seq =
      lookup-insert c.chain chain s.next_clock_seq s.chain_tip_seq ∙ ground arith in
    elim (Option-cases (lookup chain s.chain_tip_seq)) [
      | inl e ↦ ground (arith, same, e)
      | inr (seq, e) ↦ ground (arith, same, e, live-kept c s seq (w.tips chain seq e))
    ]

others-kept :
    (c : LocalClockEvent) (s : Store) (h : EventHash)
    → IsNumbered s
    → c.hash ≢ h
    → clock_event_by_hash h (append_clock_event c s).1 ≡ clock_event_by_hash h s
unfolding append_clock_event clock_event_by_hash
others-kept c s h w d =
    let same =
      lookup-emplace_other c.hash h s.next_clock_seq s.clock_seq (bytes_eq-false c.hash h d) in
    elim (Option-cases (lookup h s.clock_seq)) [
      | inl e ↦ ground (arith, same, e)
      | inr (seq, e) ↦ ground (arith, same, e, live-kept c s seq (w.named h seq e))
    ]

-- What an append leaves: the new clock event under its hash and at the tip of its chain, all others
-- where they were.
pub record Appended (c : LocalClockEvent) (s s' : Store) : Type 0 where
  pub by_hash : lookup c.hash s.clock_seq ≡ none → clock_event_by_hash c.hash s' ≡ some c
  pub tip : latest_on_chain c.chain s' ≡ some c
  pub other_tips :
      (chain : ℕ) → c.chain ≢ chain → latest_on_chain chain s' ≡ latest_on_chain chain s
  pub others : (h : EventHash) → c.hash ≢ h → clock_event_by_hash h s' ≡ clock_event_by_hash h s

-- A clock event that is appended to a store whose sequence numbers are in order is found under its
-- hash, if that is new, and is the tip of its chain; every other hash and chain gives what it gave.
pub append_clock_event-Appended :
    (c : LocalClockEvent) (s : Store) → IsNumbered s → Appended c s (append_clock_event c s).1
unfolding append_clock_event clock_event_by_hash latest_on_chain
append_clock_event-Appended c s w =
    let reads = λ (q : ℕ). lookup-emplace s.next_clock_seq q c s.clock_events (fresh-none s w) in
    record {
      by_hash = λ new.
          let named = lookup-emplace c.hash c.hash s.next_clock_seq s.clock_seq new in
          ground (arith, named, reads s.next_clock_seq, bytes_eq_iff c.hash c.hash);
      tip =
          let named = lookup-insert c.chain c.chain s.next_clock_seq s.chain_tip_seq in
          ground (arith, named, reads s.next_clock_seq);
      other_tips = λ chain d. other_tips-kept c s chain w d;
      others = λ h d. others-kept c s h w d;
    }
