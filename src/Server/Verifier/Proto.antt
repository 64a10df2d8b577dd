-- ===== src/Server/Verifier/Proto.antt =====
-- The verification of messages of the protocol (server/verifier.go): without a verifier everything
-- passes, and a message is serialized before its signature is checked.
use ztg.Prelude.{List, ℕ, Option, none, some, String, Result, ok, err, panic, wrap_err}
use ztg.Prelude.Exec.{Exec}
use ztg.Server.Verifier.{
  Signature, OrderedSignature, Crypto, Outside, Verifier, Clock, VerifyError,
  verify_message_signature, verify_ordered_signature,
}

pub data ProtoError : Type 0 where
  unsigned : ProtoError
  serialize_failed : String → ProtoError
  verify_failed : VerifyError → ProtoError

module _ {W S M : Type 0} (marshal : M → Result String (List ℕ)) where
  -- The part that both kinds of verification share, with the verification of the bytes.
  abbrev pub verify_bytes :
      (List ℕ → Option S → Exec (Verifier × W) VerifyError (Unit {0}))
      → M
      → Option S
      → Exec (Option Verifier × W) ProtoError (Unit {0})
  verify_bytes verify m s (none, w) = (ok tt, (none, w))
  verify_bytes verify m none (some v, w) = (err unsigned, (some v, w))
  verify_bytes verify m (some s) (some v, w) = elim (marshal m) [
    | err e ↦ (err (serialize_failed e), (some v, w))
    | panic ↦ (panic, (some v, w))
    | ok message ↦
        let (r, x) = verify message (some s) (v, w) in (wrap_err verify_failed r, (some x.0, x.1))
  ]

module _ {W M : Type 0} (o : Outside W) (c : Crypto) (marshal : M → Result String (List ℕ)) where
  unfoldable pub verify_ordered_signature_proto :
      Clock → M → Option OrderedSignature → Exec (Option Verifier × W) ProtoError (Unit {0})
  verify_ordered_signature_proto t = verify_bytes marshal (verify_ordered_signature o c t)

  unfoldable pub verify_signature_proto :
      Clock → M → Option Signature → Exec (Option Verifier × W) ProtoError (Unit {0})
  verify_signature_proto t = verify_bytes marshal (verify_message_signature o c t)
