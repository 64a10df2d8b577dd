-- ===== src/Server/Stream/Peer.antt =====
-- The peer of a session over a stream (server/factorfight/peer.go). The stream, the hash, the
-- signature scheme and the serialization of messages are parameters. A verification may change the
-- cache and the chain of the peer's verifier.
use ztg.Prelude.{
  ℕ, ◌+◌, ◌%◌, ◌^◌, List, [], Option, none, some, String, Result, ok, err, panic, wrap_err,
}
use ztg.Prelude.Int.{ℤ}
use ztg.Prelude.Exec.{Exec, ◌>>=◌, ◌>>◌, lift, gets, modify, wrapping, outside}
use ztg.Factorfight.Moves.{Move}
use ztg.Dice.Message.{Message}
use ztg.Server.Signer.{Signer, Signing, SignError, create_signed_ordered_message}
use ztg.Server.Verifier.{OrderedSignature, Crypto, Outside, Verifier, Clock}
use ztg.Server.Verifier.Proto.{ProtoError, verify_ordered_signature_proto}
use ztg.Server.Stream.Convert.{
  ProtoMove, ProtoDice, from_proto_move, to_proto_move, from_proto_dice, to_proto_dice,
}

-- `empty` has none of the two kinds. The content of a kind may be absent.
pub data FactorFightMessage : Type 0 where
  move : Option ProtoMove → FactorFightMessage
  dice_msg : Option ProtoDice → FactorFightMessage
  empty : FactorFightMessage

pub record SignedFactorFightMessage : Type 0 where
  pub message : Option FactorFightMessage
  pub signature : Option OrderedSignature

pub record Stream (W : Type 0) : Type 0 where
  pub send : SignedFactorFightMessage → Exec W String (Unit {0})
  pub recv : Exec W String SignedFactorFightMessage

pub record Peer : Type 0 where
  pub verifier : Option Verifier
  pub last_hash : List ℕ
  pub sequence : ℕ

unfoldable pub create_factorfight_peer : Option Verifier → Peer
create_factorfight_peer v = record { verifier = v; last_hash = []; sequence = 0 }

pub data PeerError : Type 0 where
  serialize_failed stream_failed : String → PeerError
  sign_failed : SignError → PeerError
  verification_failed : ProtoError → PeerError
  expected_move expected_dice_message : PeerError

-- The `switch` of `RecvMove`; the field of an absent message is a nil pointer.
abbrev pub move_of : Option FactorFightMessage → Result PeerError Move
move_of none = panic
move_of (some (move m)) = ok (from_proto_move m)
move_of (some _) = err expected_move

-- The `switch` of `Recv`; an absent message of the dice protocol is a nil pointer.
abbrev pub dice_of : Option FactorFightMessage → Result PeerError Message
dice_of none = panic
dice_of (some (dice_msg (some m))) = ok (from_proto_dice m)
dice_of (some (dice_msg none)) = panic
dice_of (some _) = err expected_dice_message

abbrev pub next : Peer → Peer
next p = record p { sequence = (p.sequence + 1) % 2 ^ 64 }

module _ {W : Type 0} (stream : Stream W) (signing : Signing) (signer : Signer)
    (marshal : Option FactorFightMessage → Result String (List ℕ)) where
  -- What `SendMove` and `Send` do with their message.
  unfoldable pub send_message : FactorFightMessage → Exec (Peer × W) PeerError (Unit {0})
  send_message m = do
    message ← lift (wrap_err serialize_failed (marshal (some m)))
    modify (λ (x : Peer × W). (next x.0, x.1))
    p ← gets (λ (x : Peer × W). x.0)
    signed ← lift (
        wrap_err sign_failed
          (create_signed_ordered_message signing signer marshal (some m) p.last_hash p.sequence))
    modify (λ (x : Peer × W). (record x.0 { last_hash = signing.sha256 message }, x.1))
    outside (
        wrapping stream_failed
          (stream.send (record { message = signed.0; signature = some signed.1 })))

  unfoldable pub send_move : (ℤ → String) → Move → Exec (Peer × W) PeerError (Unit {0})
  send_move itoa m = send_message (move (some (to_proto_move itoa m)))

  unfoldable pub send : Message → Exec (Peer × W) PeerError (Unit {0})
  send m = send_message (dice_msg (some (to_proto_dice m)))

module _ {W : Type 0} (stream : Stream W) (o : Outside W) (c : Crypto)
    (marshal : Option FactorFightMessage → Result String (List ℕ)) where
  abbrev pub verified :
      Clock → SignedFactorFightMessage → Exec (Peer × W) PeerError (Option FactorFightMessage)
  verified t msg (p, w) =
      let (r, x) =
        verify_ordered_signature_proto o c marshal t msg.message msg.signature (p.verifier, w) in
      elim (wrap_err verification_failed r) [
        | ok _ ↦ (ok msg.message, (record p { verifier = x.0 }, x.1))
        | err e ↦ (err e, (record p { verifier = x.0 }, x.1))
        | panic ↦ (panic, (record p { verifier = x.0 }, x.1))
      ]

  -- What `RecvMove` and `Recv` do before their `switch`.
  abbrev pub recv_message : Clock → Exec (Peer × W) PeerError (Option FactorFightMessage)
  recv_message t = do msg ← outside (wrapping stream_failed stream.recv); verified t msg

  unfoldable pub recv_move : Clock → Exec (Peer × W) PeerError Move
  recv_move t = do m ← recv_message t; lift (move_of m)

  unfoldable pub recv : Clock → Exec (Peer × W) PeerError Message
  recv t = do m ← recv_message t; lift (dice_of m)
