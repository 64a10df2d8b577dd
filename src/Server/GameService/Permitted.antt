-- ===== src/Server/GameService/Permitted.antt =====
-- Which requests for a challenge start a game (server/game_service.go).
use ztg.Prelude.{
  true, ℕ, ◌≡◌, List, some, ok, arith, Result-cases, succeeded, failed, panicked, Option-cases, inl,
  inr, ◌≢◌, [],
}
use ztg.Server.Verifier.{
  Signature, Clock, verify_message_signature, new_verifier, add_peer_identity, check_key,
  authenticate,
}
use ztg.Prelude.Dict.{lookup, insert}
use ztg.Server.IdentityCache.{
  get, get_with_address_check, set_public_key, new_identity_cache_manager,
}
use ztg.Server.IdentityService.Owner.{nonzero}
use ztg.Server.Verifier.Proto.{verify_signature_proto}
use ztg.Server.Verifier.Sound.{IsAuthentic, verify_message_signature-IsAuthentic}
use ztg.Server.GameService.{
  GameService, ChallengeRequest, challenge, challenge_of, owner_verifier, check_signature,
}

module _ {W G C R : Type 0} (s : GameService W G C R) (now : ℕ) (t : Clock) where
  -- A challenge that succeeds is of a registered game, and its signature is authentic for the
  -- verifier that holds the owner's key.
  pub challenge-IsPermitted :
      (req : ChallengeRequest) (signature : Signature) (w : W) (r : R)
      → (challenge s now t req (some signature) w).0 ≡ ok r
      → (message : List ℕ) × (g : G) × (s.marshal req ≡ ok message)
        × (challenge_of req.game_id s.registry ≡ some g)
        × IsAuthentic s.outside s.crypto t message signature.signature signature.signer_address
            (owner_verifier s now t)
            w
  unfolding challenge verify_signature_proto
  challenge-IsPermitted req signature w r h =
      let v = owner_verifier s now t in
      elim (Result-cases (s.marshal req)) [
        | failed e q ↦ absurd (ground (arith, q, h))
        | panicked q ↦ absurd (ground (arith, q, h))
        | succeeded message q ↦
            elim (Result-cases
              (verify_message_signature s.outside s.crypto t message (some signature) (v, w)).0) [
                | failed e k ↦ absurd (ground (arith, q, k, h))
                | panicked k ↦ absurd (ground (arith, q, k, h))
                | succeeded _ k ↦ elim (Option-cases (challenge_of req.game_id s.registry)) [
                  | inl n ↦ absurd (ground (arith, q, k, n, h))
                  | inr (g, n) ↦ (
                    message,
                    g,
                    q,
                    n,
                    verify_message_signature-IsAuthentic s.outside s.crypto t message signature v w
                        k,
                  )
                ]
              ]
      ]

  -- The owner's signature passes the check, which then asks nothing of the world.
  pub check_signature-owner :
      (req : ChallengeRequest) (message signature : List ℕ) (w : W)
      → s.marshal req ≡ ok message
      → signature ≢ []
      → s.crypto.ed25519_verify s.owner_public_key (s.crypto.sha256 message) signature ≡ some true
      → check_signature s now t req
          (some (record { signature = signature; signer_address = "owner" }))
          w
        ≡ (ok tt, w)
  unfolding verify_signature_proto verify_message_signature authenticate check_key
      get_with_address_check get lookup insert add_peer_identity set_public_key new_verifier
      new_identity_cache_manager
  check_signature-owner req message signature w encoded nonempty verifies =
      ground (arith, nonzero signature, encoded, nonempty, verifies)
