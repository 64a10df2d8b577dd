-- ===== src/Cmd/Generate.antt =====
-- The command that generates a pair of keys (cmd/key/key.go). The generator, the encodings and the
-- files are parameters, and what is printed is left out.
pub mod Loads
mod Tests
use Prim.Native.String.{◌++◌ as str_append}
use Prim.Native.String.{String}
use text.Mathlib.TextLemmas.{append-nil, append_cancel_left}
use ztg.Prelude.{
  sym, ◌∙◌, ℕ, ap, wrap_err, Result-cases, succeeded, failed, panicked, ◌≡◌, ◌≢◌, List, some,
  Result, ok, arith,
}
use ztg.Prelude.Exec.{Exec, ◌>>=◌, ◌>>◌, lift, wrapping}
use ztg.Identity.Keys.{
  KeyLibrary, Block, ed25519, load_key_from_file, load_key_from_string, read_public_key,
}

-- What the command calls; a new pair has the public key first.
pub record KeyWriter (W : Type 0) : Type 0 where
  pub generate_key : Exec W String (List ℕ × List ℕ)
  pub marshal_pkcs8_private_key : List ℕ → Result String (List ℕ)
  pub marshal_pkix_public_key : List ℕ → Result String (List ℕ)
  pub pem_encode : Block → String
  pub dir : String → String
  pub mkdir_all : String → Exec W String (Unit {0})
  pub write_file : String → String → Exec W String (Unit {0})

pub data GenerateError : Type 0 where
  generate_failed directory_failed : String → GenerateError
  private_key_not_marshalled private_key_not_written : String → GenerateError
  public_key_not_marshalled public_key_not_written : String → GenerateError

abbrev pub public_key_path : String → String
public_key_path output_path = str_append output_path ".pub"

module _ {W : Type 0} (k : KeyWriter W) where
  unfoldable pub generate_key_pair : String → Exec W GenerateError (Unit {0})
  generate_key_pair output_path = do
    keys ← wrapping generate_failed k.generate_key
    private_key ← lift (wrap_err private_key_not_marshalled (k.marshal_pkcs8_private_key keys.1))
    wrapping directory_failed (k.mkdir_all (k.dir output_path))
    wrapping private_key_not_written (
        k.write_file output_path
          (k.pem_encode (record { type = "ED25519 PRIVATE KEY"; bytes = private_key })))
    public_key ← lift (wrap_err public_key_not_marshalled (k.marshal_pkix_public_key keys.0))
    wrapping public_key_not_written (
        k.write_file (public_key_path output_path)
          (k.pem_encode (record { type = "ED25519 PUBLIC KEY"; bytes = public_key })))
