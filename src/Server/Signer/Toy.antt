-- ===== src/Server/Signer/Toy.antt =====
-- Keys and signatures for tests: a key file holds the key itself, the public part of a key is the key,
-- and a signature is a one, the key and the hash.
use ztg.Prelude.{refl, ◌∷◌, ◌++◌, some, ok}
use ztg.Prelude.Bytes.{codes, bytes_eq, bytes_eq_refl}
use ztg.Identity.Keys.{KeyLibrary, ed25519}
use ztg.Server.Verifier.{Crypto}
use ztg.Server.Signer.{Signing}
use ztg.Server.Signer.Verifies.{SignsFor}

abbrev pub a_library : KeyLibrary
a_library = record {
  read_file = λ path. ok path;
  pem_decode = λ text. some (record { type = "PRIVATE KEY"; bytes = codes text });
  parse_pkix_public_key = λ bs. ok (ed25519 bs);
  parse_pkcs8_private_key = λ bs. ok (ed25519 bs);
  public_part = λ key. key;
}

abbrev pub a_signing : Signing
a_signing = record { sha256 = λ bs. 3 ∷ bs; ed25519_sign = λ key hash. 1 ∷ (key ++ hash) }

abbrev pub a_crypto : Crypto
a_crypto = record {
  sha256 = λ bs. 3 ∷ bs;
  ed25519_verify = λ key hash signature. some (bytes_eq signature (1 ∷ (key ++ hash)));
}

pub signs : SignsFor a_library a_signing a_crypto
signs = record {
  same_hash = λ m. refl;
  nonempty = λ key h e. cc;
  verifies = λ key h. rw (bytes_eq_refl (1 ∷ (key ++ h)));
}
