-- ===== src/Hash/Preimage.antt =====
-- src/core/hash/hashing.cpp: what the hashed bytes of a clock event determine.
use loti.Base.{ℕ, ◌≡◌, refl, sym, ap, ◌∙◌, arith, List, [], ◌∷◌, ◌++◌}
use loti.Base.{length, take, drop, take-append, drop-append, length-append, All, to_u64, to_u64-lt}
use loti.Base.{from_u64, from_u64-to_u64}
use loti.Domain.{Bytes, EventReference, ClockEvent}
use loti.Domain.Ranges.{IsU64, IsClockEvent}
use loti.Wire.Result.{Result, ok}
use loti.Wire.Writer.{put_u64}
use loti.Wire.Reader.{get_u64}
use loti.Wire.RoundTrip.Scalars.{get_u64-put_u64}
use loti.Hash.{write_u64_be, write_refs, clock_event_preimage}
use loti.Hash.Sizes.{IsDigestReference}

-- Two byte strings of one length in front of what follows them.
append_split : (a b c d : Bytes) → length a ≡ length b → a ++ c ≡ b ++ d → (a ≡ b) × (c ≡ d)
append_split a b c d h e = (
  sym (take-append a c) ∙ ap (take (length a)) e ∙ rw h (take-append b d),
  sym (drop-append a c) ∙ ap (drop (length a)) e ∙ rw h (drop-append b d),
)

-- Eight big-endian bytes determine the `uint64_t`, and what follows them.
u64_split :
    (v w : ℕ) (c d : Bytes)
    → IsU64 v
    → IsU64 w
    → write_u64_be v ++ c ≡ write_u64_be w ++ d
    → (v ≡ w) × (c ≡ d)
unfolding write_u64_be put_u64
u64_split v w c d hv hw e =
    let back : ◌≡◌ {A = Result (ℕ × Bytes)} (ok (v, c)) (ok (w, d)) =
      sym ((get_u64-put_u64 v hv).at c) ∙ ap get_u64 e ∙ (get_u64-put_u64 w hw).at d in
    (cc back, cc back)

write_refs-injective :
    (rs ss : List EventReference)
    → All IsDigestReference rs
    → All IsDigestReference ss
    → write_refs rs ≡ write_refs ss
    → rs ≡ ss
unfolding write_refs
write_refs-injective [] [] hr hs e = refl
write_refs-injective [] (s ∷ ss) hr (hs, _) e =
    absurd
      (omega (arith, ap length e, hs.creator, length-append s.creator (s.hash ++ write_refs ss)))
write_refs-injective (r ∷ rs) [] (hr, _) hs e =
    absurd
      (omega (arith, ap length e, hr.creator, length-append r.creator (r.hash ++ write_refs rs)))
write_refs-injective (r ∷ rs) (s ∷ ss) (hr, hrs) (hs, hss) e =
    let (creators, more) = append_split r.creator s.creator _ _ (hr.creator ∙ sym hs.creator) e in
    let (hashes, rest) = append_split r.hash s.hash _ _ (hr.hash ∙ sym hs.hash) more in
    cc (creators, hashes, write_refs-injective rs ss hrs hss rest)

-- The hashed bytes of a clock event determine its chain, timestamp, salt and references: two clock
-- events that differ in one of them are hashed from different bytes. The fields are in the range of
-- their C++ types, and the references are digests.
pub clock_event_preimage-injective :
    (c d : ClockEvent)
    → IsClockEvent c
    → IsClockEvent d
    → All IsDigestReference c.referenced_events
    → All IsDigestReference d.referenced_events
    → clock_event_preimage c ≡ clock_event_preimage d
    → (c.chain ≡ d.chain)
      × (c.timestamp ≡ d.timestamp)
      × (c.salt ≡ d.salt)
      × (c.referenced_events ≡ d.referenced_events)
unfolding clock_event_preimage
clock_event_preimage-injective c d vc vd rc rd e =
    let (chains, e1) =
      u64_split c.chain d.chain _ _ (omega (arith, vc.chain)) (omega (arith, vd.chain)) e in
    let (times, e2) =
      u64_split (to_u64 c.timestamp) (to_u64 d.timestamp) _ _ (to_u64-lt c.timestamp)
        (to_u64-lt d.timestamp) e1 in
    let (salts, e3) = u64_split c.salt d.salt _ _ vc.salt vd.salt e2 in
    (
      chains,
      sym (from_u64-to_u64 c.timestamp vc.timestamp)
          ∙ ap from_u64 times
          ∙ from_u64-to_u64 d.timestamp vd.timestamp,
      salts,
      write_refs-injective c.referenced_events d.referenced_events rc rd e3,
    )
