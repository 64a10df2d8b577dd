-- ===== src/Server/IdentityService/Tests.antt =====
-- The identity service at concrete inputs, with a signature that is the key before the hash.
use ztg.Prelude.{
  ℕ, ◌≡◌, ◌≢◌, refl, ◌↔◌, List, [], ◌∷◌, ◌++◌, none, some, true, false, String, Option, ok, err,
  replicate, length,
}
use ztg.Prelude.Bytes.{bytes_eq}
use ztg.Server.IdentityCache.{Identity}
use ztg.Server.Verifier.{Signature, Crypto, Clock, get_peer_identity_from_store_or_remote}
use ztg.Server.IdentityService.{
  Service, IdentityStore, outside_of, verify_owner_signature_bytes, add_identity,
}
use ztg.Server.IdentityService.Owner.{
  verify_owner_signature_bytes_iff, verify_owner_signature_bytes-passes_peer,
}
use ztg.Server.IdentityService.Vouched.{IsVouched, add_identity-IsVouched}

abbrev toy_crypto : Crypto
toy_crypto = record {
  sha256 = λ bs. 3 ∷ bs;
  ed25519_verify = λ key hash signature. some (bytes_eq signature (key ++ hash));
}

abbrev a_clock : Clock
a_clock = record { at_lookup = 10; at_set = 11; at_chain = 12; at_add = 13 }

abbrev stranger : Identity
stranger = record {
  public_key = replicate 32 6;
  server_address = "http://stranger";
  server_name = "stranger";
  owner_name = "nobody";
  capabilities = [];
  created_at = none;
  is_trusted = false;
  trust_updated_at = none;
}

abbrev empty_store : IdentityStore (Unit {0})
empty_store = record {
  for_verifier = record {
    get_identity_by_address = λ _ w. (err "identity not found", w);
    update_last_seen = λ _ w. (ok tt, w);
    insert_identity = λ _ w. (ok tt, w);
  };
  list_identities = λ w. (ok [], w);
  set_trust_status = λ _ _ w. (ok tt, w);
}

-- Every server answers with the identity of the stranger.
abbrev a_service : Service (Unit {0})
a_service = record {
  owner_public_key = 5 ∷ [];
  store = some empty_store;
  get_peer_identity = λ _ w. (ok stranger, w);
}

abbrev by_owner : List ℕ
by_owner = 5 ∷ 3 ∷ 1 ∷ []

verify_owner_signature_bytes_iff_example :
    ((verify_owner_signature_bytes a_service toy_crypto 9 a_clock
        (1 ∷ [])
        (some (record { signature = by_owner; signer_address = "owner" }))
        tt).0
      ≡ ok tt)
    ↔ ((by_owner ≢ []) × (toy_crypto.ed25519_verify (5 ∷ []) (3 ∷ 1 ∷ []) by_owner ≡ some true))
verify_owner_signature_bytes_iff_example =
    verify_owner_signature_bytes_iff a_service toy_crypto 9 a_clock (1 ∷ []) by_owner tt

abbrev by_stranger : Signature
by_stranger = record {
  signature = replicate 32 6 ++ 3 ∷ 1 ∷ [];
  signer_address = "http://stranger";
}

named : ◌≢◌ {A = String} "http://stranger" ""
named = λ e. cc

not_owner : ◌≢◌ {A = String} "http://stranger" "owner"
not_owner = λ e. cc

stranger_found :
    (get_peer_identity_from_store_or_remote (outside_of a_service) "http://stranger" tt).0
    ≡ ok stranger
unfolding get_peer_identity_from_store_or_remote
stranger_found = refl

verify_owner_signature_bytes-passes_peer_example :
    (verify_owner_signature_bytes a_service toy_crypto 9 a_clock (1 ∷ []) (some by_stranger) tt).0
    ≡ ok tt
verify_owner_signature_bytes-passes_peer_example =
    verify_owner_signature_bytes-passes_peer a_service toy_crypto 9 a_clock (1 ∷ []) by_stranger
      stranger tt (λ e. cc) named not_owner stranger_found refl refl

abbrev parse_host : String → Option String
parse_host _ = some "stranger"

stranger_added : (add_identity a_service parse_host 20 stranger tt).0 ≡ ok tt
unfolding add_identity
stranger_added = refl

add_identity-IsVouched_example :
    (length stranger.public_key ≡ 32)
    × (stranger.is_trusted ≡ false)
    × IsVouched a_service (parse_host "http://stranger") stranger tt
add_identity-IsVouched_example =
    add_identity-IsVouched a_service parse_host 20 stranger tt stranger_added
