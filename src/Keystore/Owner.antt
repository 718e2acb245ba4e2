-- ===== src/Keystore/Owner.antt =====
-- src/adapters/os/keystore.cpp: whose signatures are accepted.
use loti.Base.{
  ℕ, ◌≡◌, refl, sym, ap, ◌∙◌, arith, Bool, true, false, not, [], ◌∷◌, ◌++◌, Option, some,
}
use loti.Base.{
  length, nat_eq, nat_eq_iff, take, drop, length-append, length-take, length-drop, take-append,
  drop-append, take-append-drop, if◌then◌else◌,
}
use loti.Base.Key.{bytes_eq, bytes_eq_iff}
use loti.Domain.{Bytes, NodeId, EventHash, Signature}
use loti.Keystore.{is_unsigned, key_fingerprint, key_sign, key_verify}

-- The guards of a test that comes to `true`.
guards :
    (a b c d : Bool)
    → (if a then false else if not b then false else if not c then false else d) ≡ true
    → (b ≡ true) × (c ≡ true) × (d ≡ true)
guards true b c d h = cc
guards false false c d h = cc
guards false true false d h = cc
guards false true true d h = (refl, refl, h)

module _ (sha256 : Bytes → EventHash) (ed25519_verify : Bytes → Bytes → Bytes → Bool) where
  -- A signature of the key store's form: by the key `pub_key`, which is that of `signer`.
  pub record SignedBy (message : Bytes) (signature : Signature) (signer : NodeId) : Type 0 where
    pub raw : Bytes
    pub pub_key : Bytes
    pub split : signature ≡ raw ++ pub_key
    pub raw_length : length raw ≡ 64
    pub key_length : length pub_key ≡ 32
    pub owner : key_fingerprint sha256 pub_key ≡ signer
    pub checks : ed25519_verify pub_key raw message ≡ true

  long_signed : (s : Signature) → length s ≡ 96 → is_unsigned s ≡ false
  unfolding is_unsigned
  long_signed [] h = absurd (omega (arith, h))
  long_signed (b ∷ bs) h = refl

  -- What is accepted is a 64-byte Ed25519 signature of the message and the 32-byte key that checks it,
  -- and the claimed signer is the fingerprint of that key; an empty signature is not accepted.
  pub key_verify-SignedBy :
      (message : Bytes) (signature : Signature) (signer : NodeId)
      → key_verify sha256 ed25519_verify message signature signer ≡ true
      → SignedBy message signature signer
  unfolding key_verify
  key_verify-SignedBy message signature signer h =
      let (size, owner, checks) =
        guards (is_unsigned signature) (nat_eq (length signature) 96)
          (bytes_eq (key_fingerprint sha256 (drop 64 signature)) signer)
          (ed25519_verify (drop 64 signature) (take 64 signature) message) h in
      let long : length signature ≡ 96 = (nat_eq_iff (length signature) 96).0 size in
      record {
        raw = take 64 signature;
        pub_key = drop 64 signature;
        split = sym (take-append-drop 64 signature);
        raw_length = length-take 64 signature (omega (arith, long));
        key_length = length-drop 64 signature ∙ omega (arith, long);
        owner = (bytes_eq_iff _ signer).0 owner;
        checks = checks;
      }

  -- The other way round, everything of that form is accepted.
  pub SignedBy-key_verify :
      (message : Bytes) (signature : Signature) (signer : NodeId)
      → SignedBy message signature signer
      → key_verify sha256 ed25519_verify message signature signer ≡ true
  unfolding key_verify
  SignedBy-key_verify message signature signer s =
      let long : length signature ≡ 96 =
        ap length s.split
        ∙ length-append s.raw s.pub_key
        ∙ omega (arith, s.raw_length, s.key_length) in
      let front : take 64 signature ≡ s.raw =
        ap (take 64) s.split
        ∙ ap (λ (k : ℕ). take k (s.raw ++ s.pub_key)) (sym s.raw_length)
        ∙ take-append s.raw s.pub_key in
      let back : drop 64 signature ≡ s.pub_key =
        ap (drop 64) s.split
        ∙ ap (λ (k : ℕ). drop k (s.raw ++ s.pub_key)) (sym s.raw_length)
        ∙ drop-append s.raw s.pub_key in
      rw
        (
          key_verify,
          long_signed signature long,
          long,
          back,
          front,
          (bytes_eq_iff (key_fingerprint sha256 s.pub_key) signer).1 s.owner,
        )
        s.checks

  -- What the key store signs, it accepts as signed by its own identity, where Ed25519 gives 64 bytes
  -- that its public key of 32 bytes checks.
  pub key_verify-key_sign :
      (ed25519_sign : Bytes → Option Bytes) (public_key message raw : Bytes)
      → length public_key ≡ 32
      → ed25519_sign message ≡ some raw
      → length raw ≡ 64
      → ed25519_verify public_key raw message ≡ true
      → (key_sign ed25519_sign public_key message ≡ some (raw ++ public_key))
        × (key_verify sha256 ed25519_verify message
              (raw ++ public_key)
              (key_fingerprint sha256 public_key)
            ≡ true)
  unfolding key_sign
  key_verify-key_sign ed25519_sign public_key message raw long made size checks = (
    rw (key_sign, made, size) refl,
    SignedBy-key_verify message (raw ++ public_key) (key_fingerprint sha256 public_key) (record {
      raw = raw;
      pub_key = public_key;
      split = refl;
      raw_length = size;
      key_length = long;
      owner = refl;
      checks = checks;
    }),
  )
