-- ===== src/Server/Highroll.antt =====
-- The game of high roll (server/highroll/): its peer over a stream of signed messages of the dice
-- protocol, a challenge of another server, and the answer to one. The streams, the hash, the
-- signature scheme, the serialization, the text of an error and the clock are parameters. The fields
-- `lastHash` and `sequence` of the peer are not used in the source.
pub mod Challenge
mod Tests
use ztg.Prelude.{
  ℕ, List, [], ◌∷◌, Bool, Option, none, some, String, Result, ok, err, panic, wrap_err,
  if◌then◌else◌, ◌==◌, ltb, zero, suc, ◌%◌,
}
use ztg.Prelude.Int.{ℤ, pos, negsuc}
use ztg.Prelude.Exec.{Exec, ◌>>=◌, ◌>>◌, pure, lift, wrapping, outside}
use ztg.Dice.Message.{Message}
use ztg.Dice.Roller.{Roller, RollerError, new_roller}
use ztg.Dice.Protocol.{Error}
use ztg.Dice.Process.{Endpoint, Host, on_peer, roll_sync_over}
use ztg.Server.Signer.{Signer, Signing, SignError, create_signed_message}
use ztg.Server.Verifier.{Signature, Crypto, Outside, Verifier, Clock}
use ztg.Server.Verifier.Proto.{ProtoError, verify_signature_proto}
use ztg.Server.Pair.{default_die_sides, create_signer_verifier_pair}
use ztg.Server.GameService.{ChallengeResponse}
use ztg.Server.Stream.Convert.{ProtoDice, from_proto_dice, to_proto_dice}

pub record SignedMessage : Type 0 where
  pub message : Option ProtoDice
  pub signature : Option Signature

-- The last operation is `CloseSend` of a client's stream.
pub record Stream (W : Type 0) : Type 0 where
  pub send : SignedMessage → Exec W String (Unit {0})
  pub recv : Exec W String SignedMessage
  pub close_send : Exec W String (Unit {0})

pub data PeerError : Type 0 where
  sign_failed : SignError → PeerError
  stream_failed : String → PeerError
  verification_failed : ProtoError → PeerError

-- The fields of an absent message are those of a nil pointer.
abbrev pub message_of : Option ProtoDice → Result PeerError Message
message_of none = panic
message_of (some m) = ok (from_proto_dice m)

-- What the service holds and calls. `text` prints an error of the peer, which the roll wraps.
pub record Service (W : Type 0) : Type 0 where
  pub private_key : List ℕ
  pub server_addr : String
  pub outside_of : Outside W
  pub crypto : Crypto
  pub signing : Signing
  pub marshal : Option ProtoDice → Result String (List ℕ)
  pub clock : W → Clock
  pub text : PeerError → String
  pub host : Host W

module _ {W : Type 0} (s : Service W) (signer : Signer) (stream : Stream W) where
  unfoldable pub send : Message → Exec (Option Verifier × W) PeerError (Unit {0})
  send m = do
    signed ← lift (
        wrap_err sign_failed
          (create_signed_message s.signing signer s.marshal (some (to_proto_dice m))))
    outside (
        wrapping stream_failed
          (stream.send (record { message = signed.0; signature = some signed.1 })))

  abbrev pub verified : SignedMessage → Exec (Option Verifier × W) PeerError (Unit {0})
  verified msg x =
      wrapping verification_failed
        (verify_signature_proto s.outside_of s.crypto s.marshal (s.clock x.1) msg.message
          msg.signature)
        x

  unfoldable pub recv : Exec (Option Verifier × W) PeerError Message
  recv = do
    msg ← outside (wrapping stream_failed stream.recv)
    verified msg
    lift (message_of msg.message)

  -- The peer as the one that a roller talks to.
  abbrev pub new_peer : Endpoint (Option Verifier × W)
  new_peer = record { send = λ m. wrapping s.text (send m); recv = wrapping s.text recv }

-- `newRoller`; a conversion to `uint8` drops all but the low byte.
unfoldable pub new_roller_of : ℤ → Result RollerError Roller
unfolding new_roller
new_roller_of (pos zero) = new_roller default_die_sides
new_roller_of (pos (suc n)) = new_roller (suc n % 256)
new_roller_of (negsuc _) = new_roller default_die_sides

pub data ServiceError : Type 0 where
  open_failed : String → ServiceError
  roller_failed : RollerError → ServiceError
  roll_failed : Error → ServiceError

-- The indexing of the rolls panics on fewer than two.
abbrev pub response_of : List ℕ → Result ServiceError ChallengeResponse
response_of (a ∷ b ∷ _) =
    ok (record { win = some (ltb b a); message = if a == b then "Draw!" else "" })
response_of _ = panic

module _ {W : Type 0} (s : Service W) where
  -- What both sides do with their stream.
  unfoldable pub roll_over : Stream W → ℕ → Exec W ServiceError (List ℕ)
  unfolding create_signer_verifier_pair
  roll_over stream n w =
      let (signer, verifier) = create_signer_verifier_pair s.private_key s.server_addr in
      let (r, x) =
        (lift (wrap_err roller_failed (new_roller_of (pos default_die_sides))) >>= λ roller.
        wrapping roll_failed (roll_sync_over (on_peer s.host) roller (new_peer s signer stream) n))
          (some verifier, w) in
      (r, x.1)

  -- `new_stream` is the call of the peer's `Roll`.
  unfoldable pub challenge : Exec W String (Stream W) → Exec W ServiceError ChallengeResponse
  challenge new_stream = do
    stream ← wrapping open_failed new_stream
    rolls ← roll_over stream 2
    response ← lift (response_of rolls)
    λ w. (ok response, (stream.close_send w).1)

  -- The answer to a challenge.
  unfoldable pub roll : Stream W → Exec W ServiceError (Unit {0})
  roll stream = roll_over stream 1 >>= λ _. pure tt
