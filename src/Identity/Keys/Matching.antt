-- ===== src/Identity/Keys/Matching.antt =====
-- The two keys of a key manager (identity/key.go).
use ztg.Prelude.{
  wrap_err-eq-ok, >>=-eq-ok, ℕ, ◌≡◌, List, String, ok, arith, Result-cases, succeeded, failed,
  panicked, Bool-cases, inl, inr,
}
use ztg.Identity.Keys.{
  private_key_failed, read_public_key, owner_key_failed, wrap_err, owner_key_text, key_manager,
  private_key_path, is_example_key, KeyLibrary, IdentityConfig, KeyManager, load_key_from_string,
  load_key_from_file, private_key_pair, configured_keys, new_key_manager, Cache,
}
use text.Mathlib.Text.{◌==◌ as str_eq}

module _ (l : KeyLibrary) where
  load_key_from_string-matches :
      (text : String) (pair : List ℕ × List ℕ)
      → load_key_from_string l text ≡ ok pair
      → pair.1 ≡ l.public_part pair.0
  unfolding load_key_from_string
  load_key_from_string-matches text pair h = ground (arith, h)

  load_key_from_file-matches :
      (path : String) (pair : List ℕ × List ℕ)
      → load_key_from_file l path ≡ ok pair
      → pair.1 ≡ l.public_part pair.0
  unfolding load_key_from_file
  load_key_from_file-matches path pair h = elim (Result-cases (l.read_file path)) [
    | failed e q ↦ absurd (ground (arith, q, h))
    | panicked q ↦ absurd (ground (arith, q, h))
    | succeeded text q ↦ load_key_from_string-matches text pair (ground (arith, q, h))
  ]

  private_key_pair-matches :
      (cfg : IdentityConfig) (pair : List ℕ × List ℕ)
      → private_key_pair l cfg ≡ ok pair
      → pair.1 ≡ l.public_part pair.0
  private_key_pair-matches cfg pair h = elim (Bool-cases (str_eq cfg.private_key "")) [
    | inl e ↦ load_key_from_file-matches (private_key_path cfg) pair (ground (arith, e, h))
    | inr e ↦ load_key_from_string-matches cfg.private_key pair (ground (arith, e, h))
  ]

  configured_keys-matches :
      (cfg : IdentityConfig) (keys : List ℕ × List ℕ × List ℕ)
      → configured_keys l cfg ≡ ok keys
      → keys.2 ≡ l.public_part keys.1
  configured_keys-matches cfg keys h =
      let text = >>=-eq-ok (owner_key_text l cfg) _ keys h in
      let owner = >>=-eq-ok (wrap_err owner_key_failed (read_public_key l text.0)) _ keys text.2 in
      let pair = >>=-eq-ok (wrap_err private_key_failed (private_key_pair l cfg)) _ keys owner.2 in
      let same : (owner.0, pair.0.0, pair.0.1) ≡ keys = ground (arith, pair.2) in
      rw (← same)
        (private_key_pair-matches cfg pair.0 (wrap_err-eq-ok private_key_failed _ pair.0 pair.1))

  -- The public key of a key manager is that of its private key, whatever they come from.
  pub new_key_manager-matches :
      (cfg : IdentityConfig) (cache : Cache) (km : KeyManager)
      → (new_key_manager l cfg cache).0 ≡ ok km
      → km.public_key ≡ l.public_part km.private_key
  unfolding new_key_manager
  new_key_manager-matches cfg cache km h = elim (Result-cases (configured_keys l cfg)) [
    | failed e q ↦ absurd (ground (arith, q, h))
    | panicked q ↦ absurd (ground (arith, q, h))
    | succeeded keys q ↦ elim (Result-cases (is_example_key l keys.2 cache).0) [
      | failed e r ↦ absurd (ground (arith, q, r, h))
      | panicked r ↦ absurd (ground (arith, q, r, h))
      | succeeded example r ↦
          let same : key_manager l cfg keys example ≡ km = ground (arith, q, r, h) in
          rw (← same) (configured_keys-matches cfg keys q)
    ]
  ]
