-- ===== src/Wire/Result.antt =====
-- The exceptions that the decoders throw, as values, and readers of a buffer.
use loti.Base.{◌⊎◌, inl, inr, ℕ, zero, suc, ◌≡◌, refl, List, [], ◌∷◌}
use loti.Domain.{Bytes}

-- One constructor for each `std::runtime_error`.
pub data Error : Type 0 where
  truncated count_exceeds unknown_type bad_magic bad_version : Error

pub data Result {ℓ} (A : Type ℓ) : Type ℓ where
  ok : A → Result A
  err : Error → Result A

pub Result-cases {ℓ} :
    {A : Type ℓ} (r : Result A) → ((a : A) × (r ≡ ok a)) ⊎ ((e : Error) × (r ≡ err e))
Result-cases (ok a) = inl (a, refl)
Result-cases (err e) = inr (e, refl)

-- A `Reader` over its buffer: the list is what stands behind `pos_`.
abbrev pub Reader {ℓ} : Type ℓ → Type ℓ
Reader A = Bytes → Result (A × Bytes)

infixl 5 ◌>>=◌ ◌>>◌
unfoldable pub ◌>>=◌ {ℓ κ} : {A : Type ℓ} {B : Type κ} → Reader A → (A → Reader B) → Reader B
◌>>=◌ m f buf = elim (m buf) [ ok (a, rest) ↦ f a rest | err e ↦ err e ]

unfoldable pub ◌>>◌ {ℓ} : {B : Type ℓ} → Reader (Unit {0}) → Reader B → Reader B
unfolding ◌>>=◌
m >> k = m >>= λ _. k

abbrev pub pure {ℓ} : {A : Type ℓ} → A → Reader A
pure a buf = ok (a, buf)

abbrev pub throw {ℓ} : {A : Type ℓ} → Error → Reader A
throw e buf = err e

-- `for (i = 0; i < n; ++i) out.push_back(read())`
unfoldable pub read_many {ℓ} : {A : Type ℓ} → ℕ → Reader A → Reader (List A)
read_many zero r = pure []
read_many (suc n) r = do x ← r; xs ← read_many n r; pure (x ∷ xs)

module _ {ℓ κ} {A : Type ℓ} {B : Type κ} where
  -- A bind whose first part is known to succeed.
  pub bind-ok :
      (m : Reader A) (f : A → Reader B) (buf : Bytes) {a : A} {rest : Bytes}
      {r : Result (B × Bytes)}
      → m buf ≡ ok (a, rest)
      → f a rest ≡ r
      → (m >>= f) buf ≡ r
  unfolding ◌>>=◌
  bind-ok m f buf e k = rw (e, ◌>>=◌) k

  -- The inversion of a bind that succeeds.
  pub bind-eq-ok :
      (m : Reader A) (f : A → Reader B) (buf : Bytes) {q : B × Bytes}
      → (m >>= f) buf ≡ ok q
      → (p : A × Bytes) × (m buf ≡ ok p) × (f p.0 p.1 ≡ ok q)
  unfolding ◌>>=◌
  bind-eq-ok m f buf h = elim (Result-cases (m buf)) [
    | inl (p, e) ↦ (p, e, rw (e, ◌>>=◌) at h)
    | inr (x, e) ↦ cc (rw (e, ◌>>=◌) at h)
  ]

pub then-ok {ℓ} :
    {B : Type ℓ} (m : Reader (Unit {0})) (k : Reader B) (buf : Bytes) {rest : Bytes}
    {r : Result (B × Bytes)}
    → m buf ≡ ok (tt, rest)
    → k rest ≡ r
    → (m >> k) buf ≡ r
unfolding ◌>>◌
then-ok m k buf e h = bind-ok m _ buf e h
