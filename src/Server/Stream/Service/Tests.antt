-- ===== src/Server/Stream/Service/Tests.antt =====
-- A whole game of the service (server/factorfight/service.go) at concrete inputs: every roll is a one
-- and a ten, the other player gives back the messages of the dice, and its three moves are written
-- down. The hash of a message and a signature are constant.
use ztg.Factorfight.Session.{
  add_game_log_entry, same_move, validate_move, other_turn, take_turn, play_round, play_loop, play,
  roll_initiative, play_with_initiative,
}
use ztg.Server.Stream.Service.{new_session, play_over, Service, Connection, challenge}
use ztg.Prelude.{
  ℕ, ◌≡◌, refl, List, [], ◌∷◌, ◌++◌, Bool, true, false, Option, none, some, String, Result, ok, err,
  replicate,
}
use ztg.Prelude.Bytes.{bytes_eq}
use ztg.Prelude.Dict.{lookup, insert}
use ztg.Prelude.Int.{pos}
use ztg.Factorfight.Board
use ztg.Factorfight.Moves.{
  generate_moves, all_allocations, allocation_moves, combine, bump_status_p2,
}
use ztg.Factorfight.Pawn.{
  pawn_moves, pawn_moves_zero_dice, pawn_moves_one_die, pawn_moves_two_dice, two_dice_pair,
  two_dice_body, try_expr,
}
use ztg.Factorfight.Expr.{eval_with_max, eval, apply_op}
use ztg.Prelude.Int64.{wrap64}
use ztg.Prelude.Int.{◌+ℤ◌, ◌-ℤ◌, ◌*ℤ◌, quot, rem}
use ztg.Factorfight.Strategy.{choose_move, best_of, improve}
use ztg.Dice.Process.{roll_sync_over, roll_process, run}
use ztg.Dice.Protocol.{calculate_commitment, verify_commitment, roll_sum, encode_rolls}
use ztg.Dice.Roller.{roll, roll_loop}
use ztg.Server.HashChain.{verify_and_add}
use ztg.Server.IdentityCache.{get, get_with_address_check}
use ztg.Server.Verifier.{verify_ordered_signature, add_peer_identity, authenticate}
use ztg.Server.Verifier.Proto.{verify_ordered_signature_proto}
use ztg.Server.Signer.{create_signed_ordered_message, sign}
use ztg.Factorfight.Board.{win, lose, peer_move}
use ztg.Factorfight.Print.{expr_string}
use ztg.Server.Stream.Convert.{from_proto_move, to_proto_move, from_proto_dice, to_proto_dice}
use ztg.Server.Stream.Peer.{send, recv, send_move, recv_move, send_message}
use ztg.Factorfight.Session.{add_game_log_entry, same_move, validate_move}
use ztg.Server.IdentityCache.{Identity}
use ztg.Server.Verifier.{OrderedSignature, Clock}
use ztg.Server.Pair.{create_signer_verifier_pair}
use ztg.Server.GameService.{ChallengeResponse}
use ztg.Server.Stream.Peer.{FactorFightMessage, move, SignedFactorFightMessage, Stream}
use ztg.Server.Stream.Certified.{IsReported, challenge-IsReported}

-- What the other player received last, what it is to send (`none` gives back what it received), and
-- the result that this player was told.
pub record Table : Type 0 where
  pub last : Option FactorFightMessage
  pub script : List (Option FactorFightMessage)
  pub result : Option Bool

abbrev at_any_place : OrderedSignature
at_any_place = record {
  signature = 7 ∷ [];
  signer_address = "peer";
  previous_hash = [];
  sequence = 1;
}

abbrev signed_by_peer : Option FactorFightMessage → SignedFactorFightMessage
signed_by_peer m = record { message = m; signature = some at_any_place }

abbrev answer :
    Table → List (Option FactorFightMessage) → Result String SignedFactorFightMessage × Table
answer t [] = (err "closed", t)
answer t (none ∷ rest) = (ok (signed_by_peer t.last), record t { script = rest })
answer t (some m ∷ rest) = (ok (signed_by_peer (some m)), record t { script = rest })

abbrev a_stream : Stream Table
a_stream = record {
  send = λ m t. (ok tt, record t { last = m.message });
  recv = λ t. answer t t.script;
}

abbrev proto_move : ℕ → ℕ → FactorFightMessage
proto_move second bump = move (
    some (record {
      pawn1 = some (record { result = pos 0; bump = pos 0; expr = "" });
      pawn2 = some (record { result = pos second; bump = pos bump; expr = "" });
    }))

abbrev the_script : List (Option FactorFightMessage)
the_script =
    replicate 9 none
    ++ (some (proto_move 11 0)
        ∷ (replicate 6 none
            ++ (some (proto_move 2 2)
                ∷ (replicate 6 none ++ (some (proto_move 30 0) ∷ replicate 3 none)))))

abbrev at_start : Table
at_start = record { last = none; script = the_script; result = none }

abbrev an_identity : Identity
an_identity = record {
  public_key = 7 ∷ [];
  server_address = "peer";
  server_name = "a peer";
  owner_name = "nobody";
  capabilities = [];
  created_at = none;
  is_trusted = false;
  trust_updated_at = none;
}

abbrev a_clock : Clock
a_clock = record { at_lookup = 10; at_set = 11; at_chain = 12; at_add = 13 }

abbrev a_service : Service Table
a_service = record {
  strategy = none;
  on_game_complete = some (λ win log t. record t { result = some win });
  private_key = 9 ∷ [];
  server_addr = "self";
  outside_of = record { store = none; get_peer_identity = λ _ w. (err "unreachable", w) };
  crypto = record {
    sha256 = λ _. 3 ∷ [];
    ed25519_verify = λ key _ signature. some (bytes_eq signature key);
  };
  signing = record { sha256 = λ _. 3 ∷ []; ed25519_sign = λ key _. key };
  marshal = λ _. ok (1 ∷ []);
  clock = λ _. a_clock;
  host = record {
    sha256 = λ _. 0 ∷ 0 ∷ 0 ∷ 9 ∷ replicate 28 17;
    random = λ w. (replicate 32 200, w);
    context = λ _. record { at_secret = none; at_commit = none };
  };
  itoa = λ _. "n";
  peer_text = λ _. "error";
  roll_text = λ _. "error";
}

abbrev a_connection : Connection Table
a_connection = record {
  target = "peer";
  new_stream = λ w. (ok a_stream, w);
  get_identity = λ w. (ok an_identity, w);
  close_send = λ w. (ok tt, w);
}

abbrev won : ChallengeResponse
won = record { win = some true; message = "" }

game_won : (challenge a_service 4 5 a_connection at_start).0 ≡ ok (some won)
unfolding challenge play_over new_session play_with_initiative roll_initiative play play_loop
    play_round take_turn other_turn validate_move same_move add_game_log_entry generate_moves
    all_allocations allocation_moves pawn_moves pawn_moves_zero_dice pawn_moves_one_die
    pawn_moves_two_dice two_dice_pair two_dice_body try_expr eval_with_max eval apply_op combine
    bump_status_p2 wrap64 ◌+ℤ◌ ◌-ℤ◌ ◌*ℤ◌ quot rem choose_move best_of improve win lose Board.move
    peer_move roll_sync_over roll_process run calculate_commitment verify_commitment roll_sum
    encode_rolls roll roll_loop send recv send_move recv_move send_message
    create_signed_ordered_message sign verify_ordered_signature_proto verify_ordered_signature
    add_peer_identity authenticate get get_with_address_check verify_and_add lookup insert
    from_proto_move to_proto_move expr_string from_proto_dice to_proto_dice
    create_signer_verifier_pair
game_won = refl

challenge-IsReported_example :
    (win : Bool) × (v : Table) × (won ≡ record { win = some win; message = "" })
    × IsReported a_service win v
    × ((challenge a_service 4 5 a_connection at_start).1 ≡ (a_connection.close_send v).1)
challenge-IsReported_example =
    challenge-IsReported a_service 4 5 a_connection at_start won tt game_won
