-- ===== src/Cmd/Generate/Tests.antt =====
-- The generation of keys at concrete inputs: the one new key is the text "key", which is its own public
-- part, an encoded block is its type, and the world is the files.
use ztg.Prelude.{
  ℕ, ◌≡◌, refl, List, [], ◌∷◌, Option, none, some, String, Result, ok, err, arith, if◌then◌else◌,
}
use ztg.Prelude.Bytes.{codes, bytes_eq, bytes_eq_sound}
use ztg.Prelude.Dict.{Dict, lookup, insert, lookup-insert}
use ztg.Identity.Keys.{KeyLibrary, ed25519, load_key_from_file, read_public_key}
use ztg.Cmd.Generate.{KeyWriter, generate_key_pair, public_key_path}
use ztg.Cmd.Generate.Loads.{ReadsBack, reading, generate_key_pair-loads}
use text.Mathlib.TextEquality.{eq_iff}

abbrev marshal : List ℕ → Result String (List ℕ)
marshal key = if bytes_eq key (codes "key") then ok (1 ∷ []) else err "unknown key"

abbrev a_writer : KeyWriter (Dict String)
a_writer = record {
  generate_key = λ w. (ok (codes "key", codes "key"), w);
  marshal_pkcs8_private_key = marshal;
  marshal_pkix_public_key = marshal;
  pem_encode = λ b. b.type;
  dir = λ path. path;
  mkdir_all = λ _ w. (ok tt, w);
  write_file = λ path text w. (ok tt, insert path text w);
}

abbrev a_library : KeyLibrary
a_library = record {
  read_file = λ _. err "no file";
  pem_decode = λ text. some (record { type = text; bytes = 1 ∷ [] });
  parse_pkix_public_key = λ _. ok (ed25519 (codes "key"));
  parse_pkcs8_private_key = λ _. ok (ed25519 (codes "key"));
  public_part = λ key. key;
}

abbrev file_of : Option String → Result String String
file_of none = err "no file"
file_of (some text) = ok text

abbrev read : Dict String → String → Result String String
read w path = file_of (lookup path w)

reads_back : ReadsBack a_writer a_library read
reads_back = record {
  private_parsed = λ key bytes h. ground (arith, h, bytes_eq_sound key (codes "key"));
  public_parsed = λ key bytes h. ground (arith, h, bytes_eq_sound key (codes "key"));
  generated = λ w keys h. ground (arith, h);
  written = λ path text w h. ground (arith, lookup-insert path path text w, eq_iff path path);
  kept = λ path other text w ne.
      ground (arith, lookup-insert path other text w, eq_iff path other, ne);
}

generated : (generate_key_pair a_writer "mine" []).0 ≡ ok tt
unfolding generate_key_pair
generated = refl

generate_key_pair-loads_example :
    let after = (generate_key_pair a_writer "mine" []).1 in
    (key : List ℕ) × (load_key_from_file (reading a_writer a_library read reads_back after) "mine"
      ≡ ok (key, key))
    × (text : String) × (read after (public_key_path "mine") ≡ ok text)
    × (read_public_key (reading a_writer a_library read reads_back after) text ≡ ok key)
generate_key_pair-loads_example =
    generate_key_pair-loads a_writer a_library read reads_back "mine" [] generated
