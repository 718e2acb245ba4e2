-- ===== src/Lmdb/Growth.antt =====
-- src/adapters/os/lmdb_store.cpp: the loop of a durable write comes to an end.
use native.Mathlib.Nat.{mod-eq_of_lt, mul_assoc, mul_comm, pow-suc}
use loti.Base.{ℕ, zero, suc, ◌*◌, ◌%◌, ◌^◌, ◌≤◌, ◌<◌, ◌≡◌, ◌≢◌, refl, ap, ◌∙◌, arith, ◌||◌}
use loti.Base.{none, some, Bool-cases, inl, inr, ◌⊎◌, leb, ltb, if◌then◌else◌}
use loti.Lmdb.Engine.{
  Code, success, not_found, full, failed, Try, returned, map_full, store_full, thrown, out_of_fuel,
  ◌>>=◌, check, Engine,
}
use loti.Lmdb.State.{LmdbStore, max_map_size, grown_size, grow_map}
use loti.Lmdb.Batch.{Batch, attempt, durable, on_map_full}

-- A 32-bit map below the ceiling doubles or stops at the ceiling; at the ceiling it does not grow.
grown_32 :
    (size : ℕ)
    → (grown_size 4 size ≡ none)
      ⊎ ((next : ℕ) × (grown_size 4 size ≡ some next)
          × (size < 3 * 2 ^ 29)
          × ((next ≡ 3 * 2 ^ 29) ⊎ (next ≡ size * 2)))
unfolding grown_size max_map_size
grown_32 size = elim (Bool-cases (leb (3 * 2 ^ 29) size || ltb (size * 2 % 2 ^ 32) size)) [
  | inl top ↦ inl (rw (grown_size, top) refl)
  | inr low ↦ inr (
    (if ltb (3 * 2 ^ 29) (size * 2 % 2 ^ 32) then 3 * 2 ^ 29 else size * 2 % 2 ^ 32),
    rw (grown_size, low) refl,
    ground arith,
    ground arith,
  )
]

double : (size k : ℕ) → size * 2 * 2 ^ k ≡ size * 2 ^ suc k
double size k =
    rw (pow-suc 2 k) (mul_assoc size 2 (2 ^ k) ∙ ap (λ (x : ℕ). size * x) (mul_comm 2 (2 ^ k)))

at_ceiling : (k : ℕ) → 3 * 2 ^ 29 ≤ 3 * 2 ^ 29 * 2 ^ k
at_ceiling zero = omega arith
at_ceiling (suc k) = omega (arith, at_ceiling k, double (3 * 2 ^ 29) k)

ceiling_next :
    (size next k : ℕ)
    → (next ≡ 3 * 2 ^ 29) ⊎ (next ≡ size * 2)
    → 3 * 2 ^ 29 ≤ size * 2 ^ suc k
    → 3 * 2 ^ 29 ≤ next * 2 ^ k
ceiling_next size next k (inl e) h = rw e (at_ceiling k)
ceiling_next size next k (inr e) h = rw (e, double size k) h

-- A round that ends out of fuel does so itself, or it is the next round that does.
on_map_full-out {ℓ} :
    {A : Type ℓ} (again m : Try A)
    → on_map_full again m ≡ out_of_fuel
    → (m ≡ out_of_fuel) ⊎ (again ≡ out_of_fuel)
unfolding on_map_full
on_map_full-out again (returned a) h = cc h
on_map_full-out again map_full h = inr h
on_map_full-out again store_full h = cc h
on_map_full-out again thrown h = cc h
on_map_full-out again out_of_fuel h = inl refl

Code-cases {ℓ} : {A : Type ℓ} (c : Code A) → (check c ≡ thrown) ⊎ ((a : A) × (c ≡ success a))
unfolding check
Code-cases (success a) = inr (a, refl)
Code-cases not_found = inl refl
Code-cases full = inl refl
Code-cases failed = inl refl

bind-out {ℓ κ} :
    {A : Type ℓ} {B : Type κ} (m : Try A) (f : A → Try B)
    → (m >>= f) ≡ out_of_fuel
    → (m ≡ out_of_fuel) ⊎ ((a : A) × (m ≡ returned a) × (f a ≡ out_of_fuel))
bind-out (returned a) f h = inr (a, refl, h)
bind-out map_full f h = cc h
bind-out store_full f h = cc h
bind-out thrown f h = cc h
bind-out out_of_fuel f h = inl refl

module _ (l : Engine) where
  grow_map-not_out : (s : LmdbStore l) → grow_map l s ≢ out_of_fuel
  unfolding grow_map check
  grow_map-not_out s h = ground arith

  -- What the map grows to on a 32-bit machine.
  grow_map-narrow :
      (s t : LmdbStore l)
      → s.word ≡ 4
      → grow_map l s ≡ returned t
      → (t.word ≡ 4)
        × (s.map_size < 3 * 2 ^ 29)
        × ((t.map_size ≡ 3 * 2 ^ 29) ⊎ (t.map_size ≡ s.map_size * 2))
  unfolding grow_map check
  grow_map-narrow s t narrow h = elim (grown_32 s.map_size) [
    | inl top ↦ cc (rw (grow_map, narrow, top) at h)
    | inr (next, grows, below, size) ↦
        let h' = rw (grow_map, narrow, grows) at h in
        elim (Code-cases (l.set_mapsize next s.db)) [
          | inl bad ↦ cc (rw bad at h')
          | inr (db, good) ↦
              let ends = rw good at h' in
              let grown : t.map_size ≡ next = cc ends in (cc (ends, narrow), below, rw grown size)
        ]
  ]

  -- And on a 64-bit one, while the double is a size.
  grow_map-wide :
      (s : LmdbStore l) (db : l.Db)
      → s.word ≡ 8
      → s.map_size * 2 < 2 ^ 64
      → l.set_mapsize (s.map_size * 2) s.db ≡ success db
      → grow_map l s ≡ returned (record s { map_size = s.map_size * 2; db = db })
  unfolding grow_map grown_size max_map_size check
  grow_map-wide s db wide small grew =
      let next : grown_size s.word s.map_size ≡ some (s.map_size * 2) =
        rw (grown_size, wide, mod-eq_of_lt {n = s.map_size * 2} {m = 2 ^ 64} small) refl in
      rw (grow_map, next, grew) refl

  -- What a store becomes as its map grows.
  pub data Grown : LmdbStore l → LmdbStore l → Type 0 where
    unchanged : (s : LmdbStore l) → Grown s s
    grew_to : (s t x : LmdbStore l) → grow_map l s ≡ returned t → Grown t x → Grown s x

le-or-lt : (a b : ℕ) → (a ≤ b) ⊎ (b < a)
le-or-lt a b = ground arith

module _ {ℓ} {A : Type ℓ} (l : Engine) (op : Batch l → Try (A × Batch l)) where
  ends_from :
      (k : ℕ) (s : LmdbStore l)
      → ((t : LmdbStore l) → attempt l op t ≢ out_of_fuel)
      → s.word ≡ 4
      → 3 * 2 ^ 29 ≤ s.map_size * 2 ^ k
      → durable l (suc k) op s ≢ out_of_fuel
  unfolding durable
  ends_from zero s ends narrow enough h =
      elim (on_map_full-out (grow_map l s >>= durable l zero op) (attempt l op s) h) [
        | inl own ↦ ends s own
        | inr later ↦ elim (bind-out (grow_map l s) (durable l zero op) later) [
          | inl out ↦ grow_map-not_out l s out
          | inr (t, grew, rest) ↦ omega (arith, (grow_map-narrow l s t narrow grew).1, enough)
        ]
      ]
  ends_from (suc k) s ends narrow enough h =
      elim (on_map_full-out (grow_map l s >>= durable l (suc k) op) (attempt l op s) h) [
        | inl own ↦ ends s own
        | inr later ↦ elim (bind-out (grow_map l s) (durable l (suc k) op) later) [
          | inl out ↦ grow_map-not_out l s out
          | inr (t, grew, rest) ↦
              let (word, below, size) = grow_map-narrow l s t narrow grew in
              ends_from k t ends word (ceiling_next s.map_size t.map_size k size enough) rest
        ]
      ]

  -- On a 32-bit machine, from a map that is not empty, 32 rounds are enough for a durable write, whatever
  -- it writes: it returns, or it throws, at the latest when the map is at its ceiling.
  pub durable-ends :
      (s : LmdbStore l)
      → ((t : LmdbStore l) → attempt l op t ≢ out_of_fuel)
      → s.word ≡ 4
      → 1 ≤ s.map_size
      → durable l 32 op s ≢ out_of_fuel
  durable-ends s ends narrow some_map = ends_from 31 s ends narrow (omega (arith, some_map))

  -- The write succeeds in a store.
  abbrev pub Writes : LmdbStore l → Type ℓ
  Writes s = (r : A × LmdbStore l) × (attempt l op s ≡ returned r)

  -- A 64-bit machine whose LMDB can set any size of the map, and a write that, in the store and in what it
  -- becomes as its map grows, finds the map full or succeeds, and succeeds in a map of `m` bytes or more,
  -- where twice `m` is a size: with `k + 1` rounds and a map that `k` doublings bring to `m`, the durable
  -- write returns.
  pub durable-returns :
      (m k : ℕ) (s : LmdbStore l)
      → ((t : LmdbStore l) → Grown l s t → (attempt l op t ≡ map_full) ⊎ Writes t)
      → ((t : LmdbStore l) → Grown l s t → m ≤ t.map_size → Writes t)
      → ((size : ℕ) (db : l.Db) → (db' : l.Db) × (l.set_mapsize size db ≡ success db'))
      → s.word ≡ 8
      → m * 2 ≤ 2 ^ 64
      → m ≤ s.map_size * 2 ^ k
      → (r : A × LmdbStore l) × (durable l (suc k) op s ≡ returned r)
  unfolding durable on_map_full
  durable-returns m zero s either fits sets wide sized enough =
      let (r, wrote) = fits s (unchanged s) (omega (arith, enough)) in (r, rw (durable, wrote) refl)
  durable-returns m (suc k) s either fits sets wide sized enough = elim (either s (unchanged s)) [
    | inr (r, wrote) ↦ (r, rw (durable, wrote) refl)
    | inl tight ↦ elim (le-or-lt m s.map_size) [
      | inl room ↦ let (r, wrote) = fits s (unchanged s) room in (r, rw (durable, wrote) refl)
      | inr small ↦
          let (db, grew) = sets (s.map_size * 2) s.db in
          let t : LmdbStore l = record s { map_size = s.map_size * 2; db = db } in
          let growth = grow_map-wide l s db wide (omega (arith, small, sized)) grew in
          let (r, wrote) =
            durable-returns m k t (λ x g. either x (grew_to s t x growth g))
              (λ x g. fits x (grew_to s t x growth g)) sets wide sized
              (rw (double s.map_size k) enough) in
          (r, rw (durable, tight, growth) wrote)
    ]
  ]
