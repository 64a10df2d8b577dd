-- ===== src/Server/Highroll/Tests.antt =====
-- A challenge at high roll at concrete inputs: the stream gives back what was sent, the hash is
-- constant, and a signature is the key before the hash.
use ztg.Prelude.{
  ℕ, ◌≡◌, refl, List, [], ◌∷◌, ◌++◌, Option, none, some, String, ok, err, replicate, false,
}
use ztg.Prelude.Bytes.{bytes_eq}
use ztg.Prelude.Dict.{lookup, insert}
use ztg.Prelude.Exec.{Exec}
use ztg.Dice.Process.{roll_sync_over, roll_process, run}
use ztg.Dice.Roller.{new_roller, roll, roll_loop}
use ztg.Dice.Protocol.{calculate_commitment, verify_commitment, roll_sum, encode_rolls}
use ztg.Server.IdentityCache.{Identity, get, set, get_with_address_check}
use ztg.Server.Signer.{create_signed_message, sign_proto, sign_message, sign}
use ztg.Server.Verifier.{
  Clock, new_verifier, authenticate, check_key, verify_message_signature,
  get_peer_identity_from_store_or_remote,
}
use ztg.Server.Verifier.Proto.{verify_signature_proto}
use ztg.Server.Stream.Convert.{from_proto_dice, to_proto_dice}
use ztg.Server.Pair.{create_signer_verifier_pair}
use ztg.Server.GameService.{ChallengeResponse}
use ztg.Server.Highroll.{
  SignedMessage, Stream, Service, send, recv, new_roller_of, roll_over, challenge,
}

abbrev Mirror : Type 0
Mirror = Option SignedMessage

abbrev a_clock : Clock
a_clock = record { at_lookup = 10; at_set = 11; at_chain = 12; at_add = 13 }

abbrev reflected : Exec Mirror String SignedMessage
reflected none = (err "closed", none)
reflected (some m) = (ok m, some m)

abbrev mirror_stream : Stream Mirror
mirror_stream = record {
  send = λ m _. (ok tt, some m);
  recv = reflected;
  close_send = λ w. (ok tt, w);
}

abbrev an_identity : Identity
an_identity = record {
  public_key = 7 ∷ [];
  server_address = "mirror";
  server_name = "a mirror";
  owner_name = "nobody";
  capabilities = [];
  created_at = none;
  is_trusted = false;
  trust_updated_at = none;
}

abbrev a_hash : List ℕ
a_hash = 1 ∷ 0 ∷ 1 ∷ 1 ∷ replicate 28 17

abbrev a_service : Service Mirror
a_service = record {
  private_key = 7 ∷ [];
  server_addr = "mirror";
  outside_of = record { store = none; get_peer_identity = λ _ w. (ok an_identity, w) };
  crypto = record {
    sha256 = λ bs. 3 ∷ bs;
    ed25519_verify = λ key hash signature. some (bytes_eq signature (key ++ hash));
  };
  signing = record { sha256 = λ bs. 3 ∷ bs; ed25519_sign = λ key hash. key ++ hash };
  marshal = λ _. ok (1 ∷ []);
  clock = λ _. a_clock;
  text = λ _. "error";
  host = record {
    sha256 = λ _. a_hash;
    random = λ w. (replicate 32 200, w);
    context = λ _. record { at_secret = none; at_commit = none };
  };
}

abbrev new_mirror : Exec Mirror String (Stream Mirror)
new_mirror w = (ok mirror_stream, w)

abbrev a_response : ChallengeResponse
a_response = record { win = some false; message = "" }

mirror_challenge : (challenge a_service new_mirror none).0 ≡ ok a_response
unfolding challenge roll_over create_signer_verifier_pair new_roller_of new_roller roll_sync_over
    roll_process run calculate_commitment verify_commitment roll_sum encode_rolls roll roll_loop
    send recv create_signed_message sign_proto sign_message sign verify_signature_proto new_verifier
    verify_message_signature authenticate check_key get_peer_identity_from_store_or_remote
    get_with_address_check get set lookup insert from_proto_dice to_proto_dice
mirror_challenge = refl
