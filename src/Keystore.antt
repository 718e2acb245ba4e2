-- ===== src/Keystore.antt =====
-- src/adapters/os/keystore.cpp: Ed25519KeyStore, the Signer port of the daemon.
-- OpenSSL is a parameter: `ed25519_sign` is what EVP_DigestSign leaves for the node's private key, `none`
-- where a call fails, and `ed25519_verify` is false where a call fails. Key files are not modelled.
pub mod Owner
use loti.Base.{ℕ, ◌+◌, Bool, true, false, not, List, [], ◌∷◌, ◌++◌, Option, none, some, length}
use loti.Base.{nat_eq, take, drop, replicate, if◌then◌else◌}
use loti.Base.Key.{bytes_eq}
use loti.Domain.{Bytes, NodeId, EventHash, Signature}

abbrev pub raw_bytes : ℕ
raw_bytes = 32

abbrev pub sig_bytes : ℕ
sig_bytes = 64

unfoldable pub is_unsigned : Signature → Bool
is_unsigned [] = true
is_unsigned (b ∷ bs) = false

-- Ed25519KeyStore::fingerprint; bytes that the digest lacks stay 0.
unfoldable pub key_fingerprint : (Bytes → EventHash) → Bytes → NodeId
key_fingerprint sha256 public_key = take 16 (sha256 public_key ++ replicate 16 0)

-- A signature is 64 bytes of Ed25519 and the public key; `none` is an exception.
unfoldable pub key_sign : (Bytes → Option Bytes) → Bytes → Bytes → Option Signature
key_sign ed25519_sign public_key message = elim (ed25519_sign message) [
  | none ↦ none
  | some s ↦ if nat_eq (length s) sig_bytes then some (s ++ public_key) else none
]

-- The key in the signature must be that of the claimed signer, and sign the message.
unfoldable pub key_verify :
    (Bytes → EventHash) → (Bytes → Bytes → Bytes → Bool) → Bytes → Signature → NodeId → Bool
unfolding is_unsigned key_fingerprint
key_verify sha256 ed25519_verify message signature signer =
    if is_unsigned signature
    then false
    else if not (nat_eq (length signature) (sig_bytes + raw_bytes))
    then false
    else if not (bytes_eq (key_fingerprint sha256 (drop sig_bytes signature)) signer)
    then false
    else ed25519_verify (drop sig_bytes signature) (take sig_bytes signature) message
