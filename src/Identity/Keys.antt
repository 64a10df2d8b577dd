-- ===== src/Identity/Keys.antt =====
-- The keys of a server (identity/key.go, identity/example_keys.go): where the owner's public key and
-- the private key come from, and whether they are the example's. The files, PEM, the parsers of X.509
-- and the public part of a private key are parameters. The cache of the example's public key is the
-- state: a key that could not be read is read again at the next use.
pub mod Matching
use ztg.Prelude.{
  ℕ, List, [], Bool, ◌||◌, Option, none, some, String, Result, ok, err, panic, ◌>>=◌, wrap_err,
  if◌then◌else◌,
}
use ztg.Prelude.Bytes.{bytes_eq}
use ztg.Prelude.Exec.{Exec}
use ztg.Prelude.Exec
use text.Mathlib.Text.{◌==◌ as str_eq}

pub record Block : Type 0 where
  pub type : String
  pub bytes : List ℕ

-- A key of any kind that the parsers give.
pub data Key : Type 0 where
  ed25519 : List ℕ → Key
  another_kind : Key

-- What the code calls. A slice of bytes is read as the text that it holds.
pub record KeyLibrary : Type 0 where
  pub read_file : String → Result String String
  pub pem_decode : String → Option Block
  pub parse_pkix_public_key : List ℕ → Result String Key
  pub parse_pkcs8_private_key : List ℕ → Result String Key
  pub public_part : List ℕ → List ℕ

-- `config.IdentityConfig`, which the keys come from.
pub record IdentityConfig : Type 0 where
  pub server_name : String
  pub owner_name : String
  pub owner_public_key : String
  pub owner_public_key_file : String
  pub private_key : String
  pub private_key_file : String
  pub server_address : String
  pub force_example : Bool

pub record KeyManager : Type 0 where
  pub owner_public_key : List ℕ
  pub private_key : List ℕ
  pub public_key : List ℕ
  pub server_address : String
  pub server_name : String
  pub owner_name : String
  pub is_example : Bool

pub data KeyError : Type 0 where
  no_pem_block not_ed25519 : KeyError
  unsupported_type : String → KeyError
  read_failed parse_failed : String → KeyError
  owner_file_failed : String → KeyError
  owner_key_failed private_key_failed : KeyError → KeyError

abbrev pub example_key_path : String
example_key_path = "keys/example_ed25519.pem"

abbrev pub example_pub_key_path : String
example_pub_key_path = "keys/example_ed25519.pub.pem"

abbrev pub require_block : Option Block → Result KeyError Block
require_block none = err no_pem_block
require_block (some b) = ok b

-- `key.(ed25519.PublicKey)`, with the test.
abbrev pub require_ed25519 : Key → Result KeyError (List ℕ)
require_ed25519 (ed25519 k) = ok k
require_ed25519 another_kind = err not_ed25519

-- The same without it.
abbrev pub assert_ed25519 : Key → Result KeyError (List ℕ)
assert_ed25519 (ed25519 k) = ok k
assert_ed25519 another_kind = panic

abbrev pub require_type : String → String → Block → Result KeyError (Unit {0})
require_type one other b =
    if str_eq b.type one || str_eq b.type other then ok tt else err (unsupported_type b.type)

-- The cached key, `none` where it is nil.
abbrev pub Cache : Type 0
Cache = Option (List ℕ)

-- A nil slice is equal to an empty one.
abbrev pub bytes_of : Cache → List ℕ
bytes_of none = []
bytes_of (some key) = key

abbrev pub private_key_path : IdentityConfig → String
private_key_path cfg =
    if str_eq cfg.private_key_file "" then example_key_path else cfg.private_key_file

module _ (l : KeyLibrary) where
  unfoldable pub read_public_key : String → Result KeyError (List ℕ)
  read_public_key text = do
    block ← require_block (l.pem_decode text)
    key ← wrap_err parse_failed (l.parse_pkix_public_key block.bytes)
    require_ed25519 key

  -- The private key with its public part.
  unfoldable pub load_key_from_string : String → Result KeyError (List ℕ × List ℕ)
  load_key_from_string text = do
    block ← require_block (l.pem_decode text)
    _ ← require_type "PRIVATE KEY" "ED25519 PRIVATE KEY" block
    key ← wrap_err parse_failed (l.parse_pkcs8_private_key block.bytes)
    private_key ← require_ed25519 key
    ok (private_key, l.public_part private_key)

  unfoldable pub load_key_from_file : String → Result KeyError (List ℕ × List ℕ)
  load_key_from_file path = do
    text ← wrap_err read_failed (l.read_file path)
    load_key_from_string text

  unfoldable pub load_example_public_key : Result KeyError (List ℕ)
  load_example_public_key = do
    text ← wrap_err read_failed (l.read_file example_pub_key_path)
    block ← require_block (l.pem_decode text)
    _ ← require_type "PUBLIC KEY" "ED25519 PUBLIC KEY" block
    key ← wrap_err parse_failed (l.parse_pkix_public_key block.bytes)
    assert_ed25519 key

  unfoldable pub load_example_public_key_cache : Exec Cache KeyError (Unit {0})
  load_example_public_key_cache cache = elim load_example_public_key [
    | ok key ↦ (ok tt, some key)
    | err _ ↦ (ok tt, cache)
    | panic ↦ (panic, cache)
  ]

  abbrev pub ensure_example : Exec Cache KeyError (Unit {0})
  ensure_example none = load_example_public_key_cache none
  ensure_example (some key) = (ok tt, some key)

  unfoldable pub is_example_key : List ℕ → Exec Cache KeyError Bool
  is_example_key public_key cache =
      let (r, cache') = ensure_example cache in
      ((r >>= λ _. ok (bytes_eq public_key (bytes_of cache'))), cache')

  -- The text of the owner's public key: from the configuration, from its file or from the example.
  abbrev pub owner_key_text : IdentityConfig → Result KeyError String
  owner_key_text cfg =
      if str_eq cfg.owner_public_key ""
      then wrap_err owner_file_failed (
          l.read_file (
            if str_eq cfg.owner_public_key_file ""
            then example_pub_key_path
            else cfg.owner_public_key_file))
      else ok cfg.owner_public_key

  abbrev pub private_key_pair : IdentityConfig → Result KeyError (List ℕ × List ℕ)
  private_key_pair cfg =
      if str_eq cfg.private_key ""
      then load_key_from_file (private_key_path cfg)
      else load_key_from_string cfg.private_key

  abbrev pub configured_keys : IdentityConfig → Result KeyError (List ℕ × List ℕ × List ℕ)
  configured_keys cfg = do
    text ← owner_key_text cfg
    owner ← wrap_err owner_key_failed (read_public_key text)
    pair ← wrap_err private_key_failed (private_key_pair cfg)
    ok (owner, pair.0, pair.1)

  abbrev pub key_manager : IdentityConfig → List ℕ × List ℕ × List ℕ → Bool → KeyManager
  key_manager cfg (owner, private_key, public_key) is_example = record {
    owner_public_key = owner;
    private_key = private_key;
    public_key = public_key;
    server_address = cfg.server_address;
    server_name = cfg.server_name;
    owner_name = cfg.owner_name;
    is_example = is_example;
  }

  unfoldable pub new_key_manager : IdentityConfig → Exec Cache KeyError KeyManager
  new_key_manager cfg = Exec.◌>>=◌ (Exec.lift (configured_keys cfg)) λ keys.
      Exec.◌>>=◌ (is_example_key keys.2) λ is_example. Exec.pure (key_manager cfg keys is_example)
