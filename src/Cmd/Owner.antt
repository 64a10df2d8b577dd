-- ===== src/Cmd/Owner.antt =====
-- The commands of the owner against the owner's server (cmd/trust/trust.go, cmd/challenge/challenge.go,
-- server/identity_service.go, server/game_service.go).
use ztg.Server.GameService.{
  check_signature, GameService, ChallengeRequest, ChallengeResponse, ChallengeError, challenge,
  challenge_of, game_failed,
}
use ztg.Cmd.{
  SignedChallengeRequest, Network, SetTrustRequest, CommandError, request_failed, identity_config,
  trust_text, send_trust_request, send_challenge, new_client,
}
use ztg.Server.IdentityService.{
  trust_message, IdentityStore, Service, StatusError, store_failed, set_trust,
}
use ztg.Server.IdentityService.Owner.{nonzero, set_trust-owner}
use ztg.Prelude.{ℕ, ◌≡◌, List, String, Bool, true, some, Result, ok, wrap_err, arith}
use mathlib.Core.List.{append_assoc}
use ztg.Prelude.Exec.{Exec, ◌>>=◌, wrapping}
use ztg.Identity.Keys.{KeyLibrary, KeyManager, Cache, new_key_manager}
use ztg.Server.Signer.Verifies.{SignsFor, ed25519_verify-ed25519_sign}
use ztg.Server.Verifier.{Crypto, Clock}
use ztg.Server.Signer.{Signing, sign_proto, sign_message, sign}
use ztg.Server.GameService.Permitted.{check_signature-owner}

module _ {C W : Type 0} (n : Network C W) (cache : Cache) (conn : C) where
  -- What the store makes of a request for trust, over a connection that is closed at the end.
  abbrev stored_trust :
      IdentityStore W
      → (StatusError → String)
      → String
      → Bool
      → W
      → Result CommandError (Unit {0}) × (Cache × W)
  stored_trust store text peer trusted w =
      let (r, after) = store.set_trust_status peer trusted w in
      (wrap_err (λ e. request_failed (text (store_failed e))) r, (cache, n.close conn after))

  abbrev pub answered :
      (ChallengeError → String)
      → Result ChallengeError ChallengeResponse × W
      → Result CommandError ChallengeResponse × (Cache × W)
  answered text (r, after) =
      (wrap_err (λ e. request_failed (text e)) r, (cache, n.close conn after))

-- What the server does with a permitted request for a game that it knows.
abbrev pub play_registered :
    {G D W : Type 0}
    → GameService W G D ChallengeResponse
    → G
    → String
    → Exec W ChallengeError ChallengeResponse
play_registered s g target = do
  peer ← wrapping ChallengeError.connection_failed (s.new_client target)
  wrapping game_failed (s.play_challenge g peer)

module _ (l : KeyLibrary) (signing : Signing) (c : Crypto) (laws : SignsFor l signing c)
    {C W : Type 0} (n : Network C W) (key_path : String) (cache : Cache) (km : KeyManager)
    (loaded : (new_key_manager l (identity_config "owner" key_path "") cache).0 ≡ ok km) where
  owner_verifies :
      (owner_key message : List ℕ)
      → owner_key ≡ km.public_key
      → c.ed25519_verify owner_key
          (c.sha256 message)
          (signing.ed25519_sign km.private_key (signing.sha256 message))
        ≡ some true
  owner_verifies owner_key message e =
      ed25519_verify-ed25519_sign l signing c laws _ cache km owner_key message loaded e

  same_text :
      (s : Service W) (peer : String) (trusted : Bool)
      → trust_message s peer trusted ≡ trust_text peer trusted
  same_text s peer trusted = simp append_assoc

  -- If the key that the command loads is the owner's of the server which its connection leads to, and
  -- this server has a store and accepts what the key signs, then the command passes the server's
  -- check: the store sets the trust of the peer, its answer is the command's, and the connection is
  -- closed.
  send_trust_request-reaches_store :
      (s : Service W) (store : IdentityStore W) (text : StatusError → String) (now : ℕ) (t : Clock)
      (server_addr peer : String) (trusted : Bool) (conn : C) (w w' : W)
      → s.owner_public_key ≡ km.public_key
      → s.store ≡ some store
      → new_client n server_addr w ≡ (ok conn, w')
      → ((req : SetTrustRequest) (v : W)
          → n.set_trust conn req v
            ≡ wrapping text
                (set_trust s c now t req.server_address req.trusted (some req.signature))
                v)
      → send_trust_request l signing n server_addr peer trusted key_path (cache, w)
        ≡ stored_trust n
            (new_key_manager l (identity_config "owner" key_path "") cache).1
            conn
            store
            text
            peer
            trusted
            w'
  unfolding send_trust_request sign_message sign
  send_trust_request-reaches_store s store text now t server_addr peer trusted conn w w' owner
        stored dialled reached =
      ground (arith, loaded, dialled, reached req w', granted)
    where
      signature : List ℕ
      signature = signing.ed25519_sign km.private_key (signing.sha256 (trust_text peer trusted))

      req : SetTrustRequest
      req = record {
        server_address = peer;
        trusted = trusted;
        signature = record { signature = signature; signer_address = "owner" };
      }

      granted :
          set_trust s c now t peer trusted
            (some (record { signature = signature; signer_address = "owner" }))
            w'
          ≡ wrapping store_failed (store.set_trust_status peer trusted) w'
      granted =
          set_trust-owner s c now t store peer trusted signature w' stored (laws.nonempty _ _) (
            rw (same_text s peer trusted)
              (owner_verifies s.owner_public_key (trust_text peer trusted) owner))

module _ {G C D W : Type 0} (s : GameService W G D ChallengeResponse) (l : KeyLibrary)
    (signing : Signing) (laws : SignsFor l signing s.crypto) (n : Network C W) (key_path : String)
    (cache : Cache) (km : KeyManager)
    (loaded : (new_key_manager l (identity_config "owner" key_path "") cache).0 ≡ ok km) where
  -- If the key that the command loads is the owner's of the server which its connection leads to, and
  -- this server knows the game and accepts what the key signs, then a request that can be encoded
  -- passes the server's check: the server dials the target and plays the game with it, and what comes
  -- of this is the answer that the command gets before it closes the connection.
  send_challenge-plays :
      (text : ChallengeError → String) (now : ℕ) (t : Clock) (server_addr target game_id : String)
      (message : List ℕ) (g : G) (conn : C) (w w' : W)
      → s.owner_public_key ≡ km.public_key
      → s.marshal (record { game_id = game_id; target = target }) ≡ ok message
      → challenge_of game_id s.registry ≡ some g
      → new_client n server_addr w ≡ (ok conn, w')
      → ((req : SignedChallengeRequest) (v : W)
          → n.challenge conn req v
            ≡ wrapping text (challenge s now t req.challenge (some req.signature)) v)
      → send_challenge l signing n s.marshal target game_id server_addr key_path (cache, w)
        ≡ answered n
            (new_key_manager l (identity_config "owner" key_path "") cache).1
            conn
            text
            (play_registered s g target w')
  unfolding send_challenge sign_proto sign_message sign challenge
  send_challenge-plays text now t server_addr target game_id message g conn w w' owner encoded known
        dialled reached =
      ground (
        arith,
        loaded,
        encoded,
        dialled,
        known,
        reached signed w',
        permitted,
        nonzero signature,
        laws.nonempty km.private_key (signing.sha256 message),
      )
    where
      signature : List ℕ
      signature = signing.ed25519_sign km.private_key (signing.sha256 message)

      req : ChallengeRequest
      req = record { game_id = game_id; target = target }

      signed : SignedChallengeRequest
      signed = record {
        challenge = req;
        signature = record { signature = signature; signer_address = "owner" };
      }

      permitted :
          check_signature s now t req
            (some (record { signature = signature; signer_address = "owner" }))
            w'
          ≡ (ok tt, w')
      permitted =
          check_signature-owner s now t req message signature w' encoded (laws.nonempty _ _) (
            owner_verifies l signing s.crypto laws n key_path cache km loaded s.owner_public_key
              message owner)
