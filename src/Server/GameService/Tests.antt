-- ===== src/Server/GameService/Tests.antt =====
-- A challenge at a concrete input, with a signature that is the key before the hash.
use ztg.Prelude.{ℕ, ◌≡◌, refl, List, [], ◌∷◌, ◌++◌, none, some, String, ok, err}
use ztg.Prelude.Bytes.{bytes_eq}
use ztg.Prelude.Dict.{lookup, insert}
use ztg.Server.IdentityCache.{
  get, get_with_address_check, set_public_key, new_identity_cache_manager,
}
use ztg.Server.Verifier.{
  Signature, Clock, new_verifier, add_peer_identity, check_key, authenticate,
  verify_message_signature,
}
use ztg.Server.Verifier.Proto.{verify_signature_proto}
use ztg.Server.Verifier.Sound.{IsAuthentic}
use ztg.Server.GameService.{GameService, ChallengeRequest, challenge, challenge_of, owner_verifier}
use ztg.Server.GameService.Permitted.{challenge-IsPermitted}

-- One game, named "dice", whose challenges are won.
abbrev a_game_service : GameService (Unit {0}) ℕ String String
a_game_service = record {
  outside = record { store = none; get_peer_identity = λ addr w. (err "unreachable", w) };
  crypto = record {
    sha256 = λ bs. 3 ∷ bs;
    ed25519_verify = λ key hash signature. some (bytes_eq signature (key ++ hash));
  };
  owner_public_key = 5 ∷ [];
  registry = record { games = ("dice", 1) ∷ [] };
  marshal = λ _. ok (1 ∷ []);
  new_client = λ target w. (ok target, w);
  play_challenge = λ _ _ w. (ok "won", w);
}

abbrev a_clock : Clock
a_clock = record { at_lookup = 10; at_set = 11; at_chain = 12; at_add = 13 }

abbrev a_challenge : ChallengeRequest
a_challenge = record { game_id = "dice"; target = "localhost" }

abbrev by_owner : Signature
by_owner = record { signature = 5 ∷ 3 ∷ 1 ∷ []; signer_address = "owner" }

challenge_won : (challenge a_game_service 9 a_clock a_challenge (some by_owner) tt).0 ≡ ok "won"
unfolding challenge challenge_of verify_signature_proto verify_message_signature authenticate
    check_key get_with_address_check get lookup insert add_peer_identity set_public_key new_verifier
    new_identity_cache_manager
challenge_won = refl

challenge-IsPermitted_example :
    (message : List ℕ) × (g : ℕ) × (a_game_service.marshal a_challenge ≡ ok message)
    × (challenge_of "dice" a_game_service.registry ≡ some g)
    × IsAuthentic a_game_service.outside a_game_service.crypto a_clock message
        (5 ∷ 3 ∷ 1 ∷ [])
        "owner"
        (owner_verifier a_game_service 9 a_clock)
        tt
challenge-IsPermitted_example =
    challenge-IsPermitted a_game_service 9 a_clock a_challenge by_owner tt "won" challenge_won
