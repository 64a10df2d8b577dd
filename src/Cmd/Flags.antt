-- ===== src/Cmd/Flags.antt =====
-- The tables of flags of the owner's commands (cmd/trust/trust.go, cmd/challenge/challenge.go,
-- cmd/identity/identity.go, cmd/key/key.go), and a command line that was read by such a table.
use ztg.Prelude.{List, [], ◌∷◌, Bool, true, false, String}
use ztg.Prelude.Int.{ℤ, pos}

-- The value of a flag that is not given, by the type of the flag.
pub data Value : Type 0 where
  string_value : String → Value
  bool_value : Bool → Value
  int_value : ℤ → Value

pub record Flag : Type 0 where
  pub name : String
  pub aliases : List String
  pub required : Bool
  pub value : Value

abbrev required_string : String → List String → Flag
required_string name aliases = record {
  name = name;
  aliases = aliases;
  required = true;
  value = string_value "";
}

abbrev trusted_flag : Flag
trusted_flag = record {
  name = "trusted";
  aliases = "r" ∷ [];
  required = true;
  value = bool_value false;
}

abbrev server_flag : Flag
server_flag = required_string "server" ("s" ∷ [])

abbrev key_path_flag : Flag
key_path_flag = record {
  name = "key-path";
  aliases = "k" ∷ [];
  required = false;
  value = string_value "keys/example_ed25519.pem";
}

abbrev timeout_flag : Flag
timeout_flag = record {
  name = "timeout";
  aliases = "T" ∷ [];
  required = false;
  value = int_value (pos 30);
}

abbrev pub trust_create_flags : List Flag
trust_create_flags = trusted_flag ∷ server_flag ∷ required_string "peer" [] ∷ key_path_flag ∷ []

abbrev pub trust_send_flags : List Flag
trust_send_flags =
    trusted_flag ∷ server_flag ∷ required_string "peer" [] ∷ key_path_flag ∷ timeout_flag ∷ []

abbrev pub challenge_create_flags : List Flag
challenge_create_flags =
    required_string "target" ("t" ∷ [])
    ∷ required_string "game" ("g" ∷ [])
    ∷ server_flag
    ∷ key_path_flag
    ∷ []

abbrev pub challenge_send_flags : List Flag
challenge_send_flags =
    required_string "target" ("t" ∷ [])
    ∷ required_string "game" ("g" ∷ [])
    ∷ server_flag
    ∷ key_path_flag
    ∷ timeout_flag
    ∷ []

abbrev pub identity_add_flags : List Flag
identity_add_flags =
    server_flag
    ∷ required_string "peer" []
    ∷ required_string "peer-name" []
    ∷ required_string "owner-name" []
    ∷ required_string "public-key" []
    ∷ key_path_flag
    ∷ timeout_flag
    ∷ []

abbrev pub identity_list_flags : List Flag
identity_list_flags = server_flag ∷ timeout_flag ∷ []

abbrev pub key_generate_flags : List Flag
key_generate_flags = required_string "output" ("o" ∷ []) ∷ []

-- `cmd.String`, `cmd.Bool` and `cmd.Int` of a command line that was read.
pub record Parsed : Type 0 where
  pub string : String → String
  pub bool : String → Bool
  pub int : String → ℤ
