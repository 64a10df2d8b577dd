-- ===== src/Server/Remote/Tests.antt =====
-- A message of one server to another at concrete inputs. The world counts what was asked and closed.
use ztg.Prelude.{ℕ, ◌+◌, ◌≡◌, refl, [], ◌∷◌, String, false, none, some, ok, err}
use ztg.Prelude.Bytes.{codes}
use ztg.Prelude.Dict.{lookup}
use ztg.Identity.Keys.{
  IdentityConfig, KeyManager, new_key_manager, load_key_from_file, load_key_from_string,
  read_public_key, is_example_key, load_example_public_key_cache, load_example_public_key,
}
use ztg.Server.Signer.Toy.{a_library, a_signing, a_crypto, signs}
use ztg.Server.IdentityCache.{get_with_address_check, get, set, new_identity_cache_manager}
use ztg.Server.IdentityService.{get_identity}
use ztg.Server.GameService.{Registry}
use ztg.Server.Pair.{new_signer}
use ztg.Server.Signer.{sign_message}
use ztg.Server.Remote.{Remote, RemoteError, get_peer_identity, outside_over, connect_failed}
use ztg.Server.Remote.Honest.{verify_message_signature-get_identity}
use ztg.Server.Verifier.{Clock, new_verifier, verify_message_signature}

abbrev a_config : IdentityConfig
a_config = record {
  server_name = "one";
  owner_name = "me";
  owner_public_key = "owner";
  owner_public_key_file = "";
  private_key = "key";
  private_key_file = "";
  server_address = "one:1";
  force_example = false;
}

abbrev a_key_manager : KeyManager
a_key_manager = record {
  owner_public_key = codes "owner";
  private_key = codes "key";
  public_key = codes "key";
  server_address = "one:1";
  server_name = "one";
  owner_name = "me";
  is_example = false;
}

key_loaded : (new_key_manager a_library a_config none).0 ≡ ok a_key_manager
unfolding new_key_manager load_key_from_file load_key_from_string read_public_key is_example_key
    load_example_public_key_cache load_example_public_key
key_loaded = refl

abbrev a_registry : Registry String
a_registry = record { games = ("dice", "a game") ∷ [] }

abbrev a_clock : Clock
a_clock = record { at_lookup = 10; at_set = 11; at_chain = 12; at_add = 13 }

-- A connection leads to the server.
abbrev a_remote : Remote String ℕ
a_remote = record {
  new_client = λ addr w. (ok addr, w + 1);
  close = λ _ w. w + 100;
  get_identity = λ _ w. (ok (get_identity 9 a_key_manager a_registry), w + 10);
}

no_text : RemoteError → String
no_text _ = "unreachable"

not_cached : (get_with_address_check 10 "one:1" (new_verifier 5).identity_cache).0 ≡ none
unfolding get_with_address_check get lookup new_verifier new_identity_cache_manager
not_cached = refl

verify_message_signature-get_identity_example :
    verify_message_signature
      (outside_over a_remote no_text none)
      a_crypto
      a_clock
      (7 ∷ 8 ∷ [])
      (some (sign_message a_signing (new_signer (codes "key") "one:1") (7 ∷ 8 ∷ [])))
      (new_verifier 5, 0)
    ≡ (
      ok tt,
      (
        record (new_verifier 5) {
          identity_cache =
              set 11 "one:1"
                (get_identity 9 a_key_manager a_registry)
                (get_with_address_check 10 "one:1" (new_verifier 5).identity_cache).1;
        },
        111,
      ),
    )
verify_message_signature-get_identity_example =
    verify_message_signature-get_identity a_remote no_text a_library a_signing a_crypto signs
      a_config none a_key_manager a_registry 9 a_clock (7 ∷ 8 ∷ []) (new_verifier 5) "one:1" 0 1 11
      key_loaded (λ e. cc) not_cached refl refl

-- A server that cannot be reached.
unreachable :
    (get_peer_identity (record a_remote { new_client = λ _ w. (err "refused", w + 1) }) "one:1" 0)
    ≡ (err (connect_failed "refused"), 1)
unfolding get_peer_identity
unreachable = refl
