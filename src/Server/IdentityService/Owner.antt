-- ===== src/Server/IdentityService/Owner.antt =====
-- Who passes the check of the owner's signature.
use ztg.Server.IdentityService.{
  store_failed, wrapping, trust_message, IdentityStore, set_trust, Service, outside_of,
  verify_owner_signature_bytes,
}
use ztg.Prelude.{
  Bool, String, ℕ, ◌≡◌, ◌≢◌, refl, ◌↔◌, List, [], ◌∷◌, some, true, false, ok, arith, length, ◌==◌,
}
use ztg.Prelude.Dict.{lookup, insert}
use ztg.Server.IdentityCache.{
  Identity, get, get_with_address_check, set_public_key, new_identity_cache_manager,
}
use ztg.Server.Verifier.{
  Signature, Crypto, Clock, new_verifier, add_peer_identity, check_key, authenticate,
  get_peer_identity_from_store_or_remote, verify_message_signature,
}
use text.Mathlib.TextEquality.{eq_iff}

pub nonzero : (xs : List ℕ) → (xs ≢ []) ↔ ((length xs == 0) ≡ false)
nonzero [] = (λ n. absurd (n refl), λ h. cc)
nonzero (y ∷ ys) = (λ _. ground arith, λ _ e. cc)

module _ {W : Type 0} (s : Service W) (c : Crypto) (now : ℕ) (t : Clock) (message : List ℕ) where
  -- A signature in the name "owner" passes exactly if it is not empty and the owner's key verifies
  -- it.
  pub verify_owner_signature_bytes_iff :
      (signature : List ℕ) (w : W)
      → ((verify_owner_signature_bytes s c now t message
            (some (record { signature = signature; signer_address = "owner" }))
            w).0
          ≡ ok tt)
        ↔ ((signature ≢ [])
            × (c.ed25519_verify s.owner_public_key (c.sha256 message) signature ≡ some true))
  unfolding verify_owner_signature_bytes verify_message_signature authenticate check_key
      get_with_address_check get lookup insert add_peer_identity set_public_key new_verifier
      new_identity_cache_manager
  verify_owner_signature_bytes_iff signature w = ground (arith, nonzero signature)

  -- The check then asks nothing of the world.
  pub verify_owner_signature_bytes-owner :
      (signature : List ℕ) (w : W)
      → signature ≢ []
      → c.ed25519_verify s.owner_public_key (c.sha256 message) signature ≡ some true
      → verify_owner_signature_bytes s c now t message
          (some (record { signature = signature; signer_address = "owner" }))
          w
        ≡ (ok tt, w)
  unfolding verify_owner_signature_bytes verify_message_signature authenticate check_key
      get_with_address_check get lookup insert add_peer_identity set_public_key new_verifier
      new_identity_cache_manager
  verify_owner_signature_bytes-owner signature w nonempty verifies =
      ground (arith, nonzero signature, nonempty, verifies)

  -- A signature in another name passes if the identity that the store or the server of this name
  -- gives reports the name and its key verifies the signature: any server passes for the owner.
  pub verify_owner_signature_bytes-passes_peer :
      (signature : Signature) (i : Identity) (w : W)
      → signature.signature ≢ []
      → signature.signer_address ≢ ""
      → signature.signer_address ≢ "owner"
      → (get_peer_identity_from_store_or_remote (outside_of s) signature.signer_address w).0 ≡ ok i
      → i.server_address ≡ signature.signer_address
      → c.ed25519_verify i.public_key (c.sha256 message) signature.signature ≡ some true
      → (verify_owner_signature_bytes s c now t message (some signature) w).0 ≡ ok tt
  unfolding verify_owner_signature_bytes verify_message_signature authenticate check_key
      get_with_address_check get lookup insert add_peer_identity set_public_key new_verifier
      new_identity_cache_manager
  verify_owner_signature_bytes-passes_peer signature i w nonempty named other found reports
        verifies =
      ground (
        arith,
        nonzero signature.signature,
        nonempty,
        eq_iff signature.signer_address "",
        eq_iff "owner" signature.signer_address,
        eq_iff i.server_address signature.signer_address,
        named,
        other,
        found,
        reports,
        verifies,
      )

module _ {W : Type 0} (s : Service W) (c : Crypto) (now : ℕ) (t : Clock) where
  -- With a signature of the owner, a request to set trust is what the store makes of it.
  pub set_trust-owner :
      (store : IdentityStore W) (addr : String) (trusted : Bool) (signature : List ℕ) (w : W)
      → s.store ≡ some store
      → signature ≢ []
      → c.ed25519_verify s.owner_public_key (c.sha256 (trust_message s addr trusted)) signature
        ≡ some true
      → set_trust s c now t addr trusted
          (some (record { signature = signature; signer_address = "owner" }))
          w
        ≡ wrapping store_failed (store.set_trust_status addr trusted) w
  unfolding set_trust
  set_trust-owner store addr trusted signature w stored nonempty verifies =
      let passed =
        verify_owner_signature_bytes-owner s c now t (trust_message s addr trusted) signature w
          nonempty verifies in
      ground (arith, passed, stored)
