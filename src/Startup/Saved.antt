-- ===== src/Startup/Saved.antt =====
-- The checks of a configuration and the writing of one (config/config.go, config/load.go). CUE, the
-- printer of JSON and the file system are parameters.
use ztg.Prelude.{
  ap, sym, ◌∙◌, ℕ, ◌≡◌, false, ◌||◌, List, String, Result, ok, err, panic, arith, Result-cases,
  succeeded, failed, panicked,
}
use ztg.Prelude.Exec.{Exec, ◌>>=◌, lift}
use ztg.Startup.{Config, ConfigLibrary, load_from_file}
use text.Mathlib.Text.{◌==◌ as str_eq}

-- The values of CUE; a value with an error is its error.
pub record Cue (V : Type 0) : Type 0 where
  pub compile_string : String → Result String V
  pub encode : Config → Result String V
  pub unify : V → V → Result String V
  pub check : V → Result String (Unit {0})

pub data ConfigError : Type 0 where
  compile_failed encode_failed validation_failed : String → ConfigError

abbrev pub or_fail :
    {A B : Type 0}
    → (String → ConfigError)
    → Result String A
    → (A → Result ConfigError B)
    → Result ConfigError B
or_fail w (ok a) k = k a
or_fail w (err e) k = err (w e)
or_fail w panic k = panic

unfoldable pub validate : {V : Type 0} → Cue V → String → Config → Result ConfigError (Unit {0})
validate cue cue_schema c = or_fail compile_failed (cue.compile_string cue_schema) λ schema.
    or_fail encode_failed (cue.encode c) λ config_value.
      or_fail validation_failed (cue.unify schema config_value)
        λ unified. or_fail validation_failed (cue.check unified) λ _. ok tt

-- The files are the state.
pub record Files (W : Type 0) : Type 0 where
  pub marshal_indent : Config → Result String (List ℕ)
  pub write_file : String → List ℕ → Exec W String (Unit {0})

-- The file is JSON, whatever its name.
unfoldable pub save_to_file : {W : Type 0} → Files W → Config → String → Exec W String (Unit {0})
save_to_file files cfg path = do
  data' ← lift (files.marshal_indent cfg)
  files.write_file path data'

load_from_file-json :
    (l : ConfigLibrary) (cfg : Config) (path : String) (text : List ℕ)
    → l.read_file path ≡ ok text
    → (str_eq (l.lower_extension path) ".yaml" || str_eq (l.lower_extension path) ".yml") ≡ false
    → l.unmarshal_json text ≡ ok cfg
    → load_from_file l path ≡ ok cfg
unfolding load_from_file
load_from_file-json l cfg path text a b c = ground (arith, a, b, c)

-- A configuration that was saved without an error, under a name that is not one of YAML, is loaded
-- again, if the file holds what was written and JSON is read as it was printed.
save_to_file-load_from_file :
    {W : Type 0} (files : Files W) (l : W → ConfigLibrary) (cfg : Config) (path : String) (w : W)
    → ((text : List ℕ) (v : W)
        → (files.write_file path text v).0 ≡ ok tt
        → (l (files.write_file path text v).1).read_file path ≡ ok text)
    → ((text : List ℕ) (v : W)
        → files.marshal_indent cfg ≡ ok text
        → (l v).unmarshal_json text ≡ ok cfg)
    → ((v : W)
        → (str_eq ((l v).lower_extension path) ".yaml"
            || str_eq ((l v).lower_extension path) ".yml")
          ≡ false)
    → (save_to_file files cfg path w).0 ≡ ok tt
    → load_from_file (l (save_to_file files cfg path w).1) path ≡ ok cfg
save_to_file-load_from_file files l cfg path w stored read not_yaml h =
    elim (Result-cases (files.marshal_indent cfg)) [
      | failed _ e ↦ absurd (unfold save_to_file in ground (arith, e, h))
      | panicked e ↦ absurd (unfold save_to_file in ground (arith, e, h))
      | succeeded text e ↦
          let same : save_to_file files cfg path w ≡ files.write_file path text w =
            unfold save_to_file in ground (arith, e) in
          let v = (files.write_file path text w).1 in
          rw same (
            load_from_file-json (l v) cfg path text (stored text w (ap (λ z. z.0) (sym same) ∙ h))
              (not_yaml v) (read text v e))
    ]
