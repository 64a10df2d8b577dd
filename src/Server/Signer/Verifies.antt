-- ===== src/Server/Signer/Verifies.antt =====
-- What the keys of a server sign, its public key verifies (identity/key.go, server/signer.go).
use ztg.Prelude.{ℕ, ◌≡◌, ◌≢◌, List, [], true, some, ok}
use ztg.Identity.Keys.{KeyLibrary, KeyManager, IdentityConfig, Cache, new_key_manager}
use ztg.Identity.Keys.Matching.{new_key_manager-matches}
use ztg.Server.Verifier.{Crypto}
use ztg.Server.Signer.{Signing}

-- What a signer and a verifier rely on: they hash alike, and what a private key signs is not empty and
-- is verified by the key's public part.
pub record SignsFor (l : KeyLibrary) (signing : Signing) (c : Crypto) : Type 0 where
  pub same_hash : (m : List ℕ) → signing.sha256 m ≡ c.sha256 m
  pub nonempty : (key h : List ℕ) → signing.ed25519_sign key h ≢ []
  pub verifies :
      (key h : List ℕ)
      → c.ed25519_verify (l.public_part key) h (signing.ed25519_sign key h) ≡ some true

module _ (l : KeyLibrary) (signing : Signing) (c : Crypto) (laws : SignsFor l signing c) where
  pub ed25519_verify-ed25519_sign :
      (cfg : IdentityConfig) (cache : Cache) (km : KeyManager) (key message : List ℕ)
      → (new_key_manager l cfg cache).0 ≡ ok km
      → key ≡ km.public_key
      → c.ed25519_verify key
          (c.sha256 message)
          (signing.ed25519_sign km.private_key (signing.sha256 message))
        ≡ some true
  ed25519_verify-ed25519_sign cfg cache km key message loaded e =
      rw (e, new_key_manager-matches l cfg cache km loaded, laws.same_hash message)
        (laws.verifies km.private_key (c.sha256 message))
