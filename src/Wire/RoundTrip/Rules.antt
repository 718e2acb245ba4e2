-- ===== src/Wire/RoundTrip/Rules.antt =====
-- One rule for each way to build a reader, against the bytes that it is to read.
use loti.Base.{◌≡◌, ◌++◌, append_assoc}
use loti.Domain.{Bytes}
use loti.Wire.Result.{Reader, ok, ◌>>=◌, ◌>>◌, bind-ok, then-ok}

-- In front of any further bytes `m` reads the value `a` from `bs`, and takes just those.
pub record Reads {ℓ} {A : Type ℓ} (m : Reader A) (bs : Bytes) (a : A) : Type ℓ where
  pub at : (rest : Bytes) → m (bs ++ rest) ≡ ok (a, rest)

module _ {ℓ κ} {A : Type ℓ} {B : Type κ} where
  pub Reads-bind :
      {m : Reader A} (f : A → Reader B) {bs cs : Bytes} {a : A} {b : B}
      → Reads m bs a
      → Reads (f a) cs b
      → Reads (m >>= f) (bs ++ cs) b
  Reads-bind {m} f {bs} {cs} p q = record {
    at = λ rest. rw (append_assoc bs cs rest) (bind-ok m f _ (p.at (cs ++ rest)) (q.at rest));
  }

  -- The last part; what is left to do takes no bytes.
  pub Reads-last :
      {m : Reader A} (f : A → Reader B) {bs : Bytes} {a : A} {b : B}
      → Reads m bs a
      → ((rest : Bytes) → f a rest ≡ ok (b, rest))
      → Reads (m >>= f) bs b
  Reads-last {m} f {bs} p q = record { at = λ rest. bind-ok m f _ (p.at rest) (q rest) }

-- A check that takes no bytes, and the rest.
pub Reads-then {ℓ} :
    {B : Type ℓ} {m : Reader (Unit {0})} (k : Reader B) {bs : Bytes} {b : B}
    → ((rest : Bytes) → m rest ≡ ok (tt, rest))
    → Reads k bs b
    → Reads (m >> k) bs b
Reads-then {m} k {bs} p q = record { at = λ rest. then-ok m k _ (p (bs ++ rest)) (q.at rest) }
