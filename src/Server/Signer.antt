-- ===== src/Server/Signer.antt =====
-- The signers of messages (identity/signer.go, server/signer.go). The hash, the signature scheme and
-- the serialization of a message are parameters.
pub mod Verifies
pub mod Toy
use ztg.Prelude.{ℕ, List, String, Result, ok, ◌>>=◌, wrap_err}
use ztg.Server.Verifier.{Signature, OrderedSignature}

pub record Signer : Type 0 where
  pub private_key : List ℕ
  pub address : String

pub data SignError : Type 0 where
  serialize_failed : String → SignError

-- What a signer calls: SHA-256, and Ed25519 by the private key.
pub record Signing : Type 0 where
  pub sha256 : List ℕ → List ℕ
  pub ed25519_sign : List ℕ → List ℕ → List ℕ

module _ (c : Signing) (s : Signer) where
  unfoldable pub sign : List ℕ → List ℕ
  sign message = c.ed25519_sign s.private_key (c.sha256 message)

  unfoldable pub sign_message : List ℕ → Signature
  sign_message message = record { signature = sign message; signer_address = s.address }

  unfoldable pub sign_ordered_message : List ℕ → List ℕ → ℕ → OrderedSignature
  sign_ordered_message message previous_hash sequence = record {
    signature = sign message;
    signer_address = s.address;
    previous_hash = previous_hash;
    sequence = sequence;
  }

  module _ {M : Type 0} (marshal : M → Result String (List ℕ)) where
    unfoldable pub sign_proto : M → Result SignError Signature
    sign_proto m = do message ← wrap_err serialize_failed (marshal m); ok (sign_message message)

    unfoldable pub create_signed_message : M → Result SignError (M × Signature)
    create_signed_message m = do signature ← sign_proto m; ok (m, signature)

    unfoldable pub create_signed_ordered_message :
        M → List ℕ → ℕ → Result SignError (M × OrderedSignature)
    create_signed_ordered_message m previous_hash sequence = do
      message ← wrap_err serialize_failed (marshal m)
      ok (m, sign_ordered_message message previous_hash sequence)

    unfoldable pub sign_ordered_message_proto : M → List ℕ → ℕ → Result SignError OrderedSignature
    sign_ordered_message_proto m previous_hash sequence = do
      message ← wrap_err serialize_failed (marshal m)
      ok (sign_ordered_message message previous_hash sequence)
