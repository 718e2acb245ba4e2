-- ===== src/Examples/Keys.antt =====
-- Examples of the key store and of hexadecimal texts.
use loti.Base.{
  ℕ, ◌*◌, ◌<◌, ◌≡◌, refl, arith, Bool, true, [], ◌∷◌, ◌++◌, some, length, replicate, All,
}
use loti.Base.Key.{bytes_eq}
use loti.Domain.{Bytes}
use loti.Keystore.{key_fingerprint, key_sign, key_verify}
use loti.Keystore.Owner.{SignedBy, key_verify-SignedBy, SignedBy-key_verify, key_verify-key_sign}
use loti.Hex.{hex, unhex}
use loti.Hex.RoundTrip.{unhex-hex, unhex-IsBytes}
use loti.Examples.{toy_hash}

abbrev toy_key : Bytes
toy_key = replicate 32 5

abbrev toy_signature : Bytes
toy_signature = replicate 64 6

-- Accepts the one signature.
abbrev toy_check : Bytes → Bytes → Bytes → Bool
toy_check key s message = bytes_eq s toy_signature

checked : toy_check toy_key toy_signature (1 ∷ []) ≡ true
unfolding bytes_eq
checked = refl

toy-SignedBy :
    SignedBy toy_hash toy_check
      (1 ∷ [])
      (toy_signature ++ toy_key)
      (key_fingerprint toy_hash toy_key)
toy-SignedBy = record {
  raw = toy_signature;
  pub_key = toy_key;
  split = refl;
  raw_length = refl;
  key_length = refl;
  owner = refl;
  checks = checked;
}

SignedBy-key_verify_example :
    key_verify toy_hash toy_check
      (1 ∷ [])
      (toy_signature ++ toy_key)
      (key_fingerprint toy_hash toy_key)
    ≡ true
SignedBy-key_verify_example =
    SignedBy-key_verify toy_hash toy_check (1 ∷ []) (toy_signature ++ toy_key)
      (key_fingerprint toy_hash toy_key) toy-SignedBy

key_verify-SignedBy_example :
    SignedBy toy_hash toy_check
      (1 ∷ [])
      (toy_signature ++ toy_key)
      (key_fingerprint toy_hash toy_key)
key_verify-SignedBy_example =
    key_verify-SignedBy toy_hash toy_check (1 ∷ []) (toy_signature ++ toy_key)
      (key_fingerprint toy_hash toy_key)
      (SignedBy-key_verify toy_hash toy_check (1 ∷ []) (toy_signature ++ toy_key)
        (key_fingerprint toy_hash toy_key) toy-SignedBy)

key_verify-key_sign_example :
    (key_sign (λ m. some toy_signature) toy_key (1 ∷ []) ≡ some (toy_signature ++ toy_key))
    × (key_verify toy_hash toy_check
          (1 ∷ [])
          (toy_signature ++ toy_key)
          (key_fingerprint toy_hash toy_key)
        ≡ true)
key_verify-key_sign_example =
    key_verify-key_sign toy_hash toy_check (λ m. some toy_signature) toy_key (1 ∷ []) toy_signature
      refl refl refl checked

unhex-hex_example : unhex (hex (0 ∷ 171 ∷ [])) ≡ some (0 ∷ 171 ∷ [])
unhex-hex_example = unhex-hex (0 ∷ 171 ∷ []) (omega arith, (omega arith, tt))

-- "aB"
mixed : unhex (97 ∷ 66 ∷ []) ≡ some (171 ∷ [])
unfolding unhex
mixed = refl

unhex-IsBytes_example :
    (length {A = ℕ} (97 ∷ 66 ∷ []) ≡ 2 * length {A = ℕ} (171 ∷ [])) × All (λ b. b < 256) (171 ∷ [])
unhex-IsBytes_example = unhex-IsBytes (97 ∷ 66 ∷ []) (171 ∷ []) mixed
