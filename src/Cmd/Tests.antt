-- ===== src/Cmd/Tests.antt =====
-- The owner's commands at concrete inputs.
use ztg.Prelude.{
  ℕ, if◌then◌else◌, replicate, ◌≡◌, refl, List, [], ◌∷◌, String, Bool, true, none, some, ok, In,
  inl, inr, err,
}
use ztg.Prelude.Bytes.{codes, bytes_eq}
use ztg.Prelude.Int.{ℤ, pos, ltb_ℤ, ◌*ℤ◌}
use ztg.Prelude.Int64.{wrap64}
use ztg.Prelude.Exec.{wrapping}
use ztg.Identity.Keys.{
  new_key_manager, load_key_from_file, load_key_from_string, read_public_key, is_example_key,
  load_example_public_key_cache, load_example_public_key,
}
use ztg.Identity.Keys.{Cache}
use ztg.Server.Signer.{sign_message, sign}
use ztg.Server.Signer.Toy.{a_library, a_signing, a_crypto}
use ztg.Server.Verifier.{
  Clock, verify_message_signature, authenticate, add_peer_identity, new_verifier,
}
use ztg.Server.IdentityCache.{get_with_address_check}
use ztg.Prelude.Dict.{lookup, insert}
use ztg.Server.IdentityService.{
  IdentityStore, Service, set_trust, add_identity, list_identities, verify_owner_signature_bytes,
}
use ztg.Server.GameService.{GameService, ChallengeResponse, challenge}
use ztg.Cmd.{decode_failed, request_failed, Network, new_client, send_trust_request}
use ztg.Cmd.Identities
use ztg.Cmd.Identities.{Decoders, decode_key, listed_key}
use ztg.Cmd.Generate.{KeyWriter}
use ztg.Cmd.Flags.{Parsed, trust_send_flags}
use ztg.Cmd.Line.{
  Tools, Command, trust_group, root, sends_trust, action, CommandLine, main, trust_send, timeout,
}
use ztg.Cmd.Line.Declared.{is_distinct, spellings, action-IsDeclared}
use text.Mathlib.Text.{◌==◌ as str_eq}

-- What the owner trusts, and the games that were played.
abbrev World : Type 0
World = List (String × Bool)

abbrev a_clock : Clock
a_clock = record { at_lookup = 10; at_set = 11; at_chain = 12; at_add = 13 }

abbrev a_store : IdentityStore World
a_store = record {
  for_verifier = record {
    get_identity_by_address = λ _ w. (err "identity not found", w);
    update_last_seen = λ _ w. (ok tt, w);
    insert_identity = λ _ w. (ok tt, w);
  };
  list_identities = λ w. (ok [], w);
  set_trust_status = λ addr trusted w. (ok tt, (addr, trusted) ∷ w);
}

abbrev a_service : Service World
a_service = record {
  owner_public_key = codes "key";
  store = some a_store;
  get_peer_identity = λ _ w. (err "unreachable", w);
}

abbrev a_response : ChallengeResponse
a_response = record { win = some true; message = "" }

abbrev a_game_service : GameService World String (Unit {0}) ChallengeResponse
a_game_service = record {
  outside = record { store = none; get_peer_identity = λ _ w. (err "unreachable", w) };
  crypto = a_crypto;
  owner_public_key = codes "key";
  registry = record { games = ("dice", "a game") ∷ [] };
  marshal = λ _. ok (1 ∷ 2 ∷ []);
  new_client = λ _ w. (ok tt, w);
  play_challenge = λ game _ w. (ok a_response, (game, true) ∷ w);
}

abbrev a_network : Network (Unit {0}) World
a_network = record {
  new_client = λ _ _ w. (ok tt, w);
  close = λ _ w. w;
  set_trust = λ _ req.
      wrapping (λ _. "refused")
        (set_trust a_service a_crypto 9 a_clock req.server_address req.trusted
          (some req.signature));
  challenge = λ _ req.
      wrapping (λ _. "refused")
        (challenge a_game_service 9 a_clock req.challenge (some req.signature));
  add_identity = λ _ i. wrapping (λ _. "refused") (add_identity a_service (λ _. none) 9 i);
  list_identities = λ _. wrapping (λ _. "refused") (list_identities a_service);
}

-- A key of two bytes in hexadecimal, which is refused for its size, and one that no decoder reads.
abbrev decoders : Decoders
decoders = record {
  hex_decode =
      λ text. if bytes_eq text (codes "0a0b") then ok (10 ∷ 11 ∷ []) else err "not hexadecimal";
  base64_decode = λ _. err "not base64";
}

prefixed : decode_key decoders (codes "0X0a0b") ≡ ok (10 ∷ 11 ∷ [])
unfolding decode_key
prefixed = refl

unreadable : decode_key decoders (codes "0a") ≡ err (decode_failed "not base64")
unfolding decode_key
unreadable = refl

too_short :
    (Identities.add_identity a_network decoders 9 "localhost:50052" "other" "two" "you"
      (codes "0a0b")
      []).0
    ≡ err (request_failed "refused")
unfolding Identities.add_identity add_identity decode_key new_client
too_short = refl

cut : listed_key (replicate 11 10) ≡ codes "0a0a0a0a0a0a0a0a0..."
unfolding listed_key
cut = refl

-- Writes nothing.
abbrev a_writer : KeyWriter World
a_writer = record {
  generate_key = λ w. (err "no random bytes", w);
  marshal_pkcs8_private_key = λ _. err "no key";
  marshal_pkix_public_key = λ _. err "no key";
  pem_encode = λ _. "";
  dir = λ path. path;
  mkdir_all = λ _ w. (ok tt, w);
  write_file = λ _ _ w. (ok tt, w);
}

-- A request with a deadline that is past is refused.
abbrev patient : ℤ → Network (Unit {0}) World
patient deadline =
    if ltb_ℤ (pos 0) deadline
    then a_network
    else (record a_network { set_trust = λ _ _ w. (err "deadline exceeded", w) })

abbrev some_tools : Tools (Unit {0}) World
some_tools = record {
  keys = a_library;
  signing = a_signing;
  marshal = λ _. ok (1 ∷ 2 ∷ []);
  decoders = decoders;
  now = 9;
  network = patient;
  writer = a_writer;
}

-- `--server=localhost:50052 --peer=other --trusted --key-path=key`, with this timeout, and the given
-- text for every other flag.
abbrev a_line : ℕ → String → Parsed
a_line seconds other = record {
  string = λ name.
      if str_eq name "server"
      then "localhost:50052"
      else if str_eq name "peer"
      then "peer"
      else if str_eq name "key-path"
      then "key"
      else other;
  bool = λ _. true;
  int = λ _. pos seconds;
}

abbrev the_command : Command
the_command = record { name = "send"; flags = trust_send_flags; action = sends_trust }

trust_group-In : In trust_group root
trust_group-In = inr (inr (inl refl))

action-IsDeclared_example :
    (is_distinct (spellings the_command.flags) ≡ true)
    × ((s : Cache × World)
        → action the_command.action some_tools (a_line 30 "") s
          ≡ action the_command.action some_tools (a_line 30 "another") s)
action-IsDeclared_example =
    action-IsDeclared trust_group the_command trust_group-In (inl refl) some_tools (a_line 30 "")
      (a_line 30 "another") (refl, (refl, (refl, (refl, (refl, tt)))))

-- Routes every line to the command that sets trust, with this timeout.
abbrev sends : ℕ → CommandLine
sends seconds = record { route = λ _ _. ok (some (sends_trust, a_line seconds "")) }

sent : (main (sends 30) some_tools [] (none, [])).1.1 ≡ ("peer", true) ∷ []
unfolding main action trust_send timeout send_trust_request new_key_manager load_key_from_file
    load_key_from_string read_public_key is_example_key load_example_public_key_cache
    load_example_public_key new_client sign_message sign set_trust wrap64 ◌*ℤ◌
    verify_owner_signature_bytes verify_message_signature authenticate get_with_address_check lookup
    add_peer_identity insert new_verifier
sent = refl

-- 9300000000 seconds are more nanoseconds than 63 bits hold, so that the deadline is past at once.
too_patient : (main (sends 9300000000) some_tools [] (none, [])).0 ≡ 1
unfolding main action trust_send timeout send_trust_request new_key_manager load_key_from_file
    load_key_from_string read_public_key is_example_key load_example_public_key_cache
    load_example_public_key new_client sign_message sign set_trust wrap64 ◌*ℤ◌
too_patient = refl
