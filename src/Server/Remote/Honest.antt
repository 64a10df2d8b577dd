-- ===== src/Server/Remote/Honest.antt =====
-- A message between servers that do not know each other (server/signer.go, server/verifier.go,
-- server/identity_service.go).
use ztg.Prelude.{ℕ, ◌≡◌, ◌≢◌, refl, List, String, none, some, ok, arith}
use ztg.Identity.Keys.{KeyLibrary, KeyManager, IdentityConfig, Cache, new_key_manager}
use ztg.Server.IdentityCache.{get_with_address_check, set}
use ztg.Server.IdentityService.{get_identity}
use ztg.Server.IdentityService.Owner.{nonzero}
use ztg.Server.GameService.{Registry}
use ztg.Server.Pair.{new_signer}
use ztg.Server.Signer.{Signing, sign_message, sign}
use ztg.Server.Signer.Verifies.{SignsFor, ed25519_verify-ed25519_sign}
use ztg.Server.Remote.{Remote, RemoteError, get_peer_identity, outside_over}
use ztg.Server.Verifier.{
  Crypto, Verifier, Clock, verify_message_signature, authenticate, check_key,
  get_peer_identity_from_store_or_remote,
}
use text.Mathlib.TextEquality.{eq_iff}

module _ {C W : Type 0} (r : Remote C W) (text : RemoteError → String) (l : KeyLibrary)
    (signing : Signing) (c : Crypto) (laws : SignsFor l signing c) where
  -- A message that a server signs with the keys of its configuration, under its nonempty address, is
  -- verified by a verifier without a store that does not have this address in its cache, if a
  -- connection to the address leads to the server. The verifier then holds the server's identity
  -- under its address, the rest of it is as after the lookup, and the connection is closed.
  pub verify_message_signature-get_identity :
      {G : Type 0} (cfg : IdentityConfig) (cache : Cache) (km : KeyManager) (registry : Registry G)
      (now : ℕ) (t : Clock) (message : List ℕ) (v : Verifier) (conn : C) (w w' w'' : W)
      → (new_key_manager l cfg cache).0 ≡ ok km
      → km.server_address ≢ ""
      → (get_with_address_check t.at_lookup km.server_address v.identity_cache).0 ≡ none
      → r.new_client km.server_address w ≡ (ok conn, w')
      → r.get_identity conn w' ≡ (ok (get_identity now km registry), w'')
      → verify_message_signature
          (outside_over r text none)
          c
          t
          message
          (some (sign_message signing (new_signer km.private_key km.server_address) message))
          (v, w)
        ≡ (
          ok tt,
          (
            record v {
              identity_cache =
                  set t.at_set km.server_address
                    (get_identity now km registry)
                    (get_with_address_check t.at_lookup km.server_address v.identity_cache).1;
            },
            r.close conn w'',
          ),
        )
  unfolding verify_message_signature authenticate check_key get_peer_identity
      get_peer_identity_from_store_or_remote sign_message sign get_identity
  verify_message_signature-get_identity cfg cache km registry now t message v conn w w' w'' loaded
        named unknown dialled answered =
      ground (
        arith,
        nonzero (signing.ed25519_sign km.private_key (signing.sha256 message)),
        laws.nonempty km.private_key (signing.sha256 message),
        eq_iff km.server_address "",
        eq_iff km.server_address km.server_address,
        named,
        unknown,
        dialled,
        answered,
        ed25519_verify-ed25519_sign l signing c laws cfg cache km km.public_key message loaded refl,
      )
