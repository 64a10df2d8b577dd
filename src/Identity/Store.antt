-- ===== src/Identity/Store.antt =====
-- The store of identities over a database (identity/store/sqlstore.go). The queries that the build
-- generates and the encoding of JSON are parameters; a connection acts on a world `W`. `Table` gives
-- the queries by their SQL text, and `Generated` is what the build generates for them.
pub mod Table
mod Generated
use ztg.Prelude.{
  ℕ, List, [], ◌∷◌, Bool, Option, none, some, String, Result, ok, err, panic, ◌>>=◌, wrap_err,
  if◌then◌else◌,
}
use ztg.Prelude.Exec.{Exec, pure, lift, wrapping}
use ztg.Prelude.Exec
use ztg.Server.IdentityCache.{Identity}
use ztg.Server.IdentityService.{IdentityStore}
use text.Mathlib.Text.{◌==◌ as str_eq}

-- A row of `ztg.identities`; times are numbers.
pub record Row : Type 0 where
  pub id : ℕ
  pub public_key : List ℕ
  pub server_address : String
  pub server_name : String
  pub owner_name : String
  pub capabilities : String
  pub created_at : ℕ
  pub last_seen : ℕ
  pub is_trusted : Bool
  pub trust_updated_at : ℕ

pub record InsertIdentityParams : Type 0 where
  pub public_key : List ℕ
  pub server_address : String
  pub server_name : String
  pub owner_name : String
  pub capabilities : String
  pub is_trusted : Bool

pub data QueryError : Type 0 where
  no_rows : QueryError
  query_failed : String → QueryError

-- `sqlc.Queries`
pub record Queries (W : Type 0) : Type 0 where
  pub insert_identity : InsertIdentityParams → Exec W QueryError Row
  pub get_identity_by_address : String → Exec W QueryError Row
  pub update_last_seen : String → Exec W QueryError (Unit {0})
  pub list_identities : Exec W QueryError (List Row)
  pub set_trust_status : String → Bool → Exec W QueryError (Unit {0})

-- `encoding/json` on lists of texts.
pub record Json : Type 0 where
  pub marshal : List String → Result String String
  pub unmarshal : String → Result String (List String)

pub data StoreError : Type 0 where
  open_failed ping_failed marshal_failed unmarshal_failed : String → StoreError
  insert_failed get_failed update_failed list_failed trust_failed : QueryError → StoreError
  not_found : StoreError
  convert_failed : StoreError → StoreError

abbrev pub get_error : QueryError → StoreError
get_error no_rows = not_found
get_error e = get_failed e

-- `NewSQLStore`, with the calls of the driver.
unfoldable pub new_sql_store :
    {D W : Type 0}
    → (String → Exec W String D)
    → (D → Exec W String (Unit {0}))
    → String
    → Exec W StoreError D
new_sql_store open_db ping url =
    Exec.◌>>=◌ (wrapping open_failed (open_db url))
      λ db. Exec.◌>>=◌ (wrapping ping_failed (ping db)) λ _. pure db

module _ (json : Json) where
  abbrev pub parse_capabilities : String → Result StoreError (List String)
  parse_capabilities text =
      if str_eq text "" then ok [] else wrap_err unmarshal_failed (json.unmarshal text)

  unfoldable pub row_to_identity : Row → Result StoreError Identity
  row_to_identity row = do
    capabilities ← parse_capabilities row.capabilities
    ok (record {
      public_key = row.public_key;
      server_address = row.server_address;
      server_name = row.server_name;
      owner_name = row.owner_name;
      capabilities = capabilities;
      created_at = some row.created_at;
      is_trusted = row.is_trusted;
      trust_updated_at = some row.trust_updated_at;
    })

  -- The loop over the rows ends at the first that does not convert.
  unfoldable pub rows_to_identities : List Row → Result StoreError (List Identity)
  rows_to_identities [] = ok []
  rows_to_identities (row ∷ rows) =
      let rest = rows_to_identities rows in
      wrap_err convert_failed (row_to_identity row) >>= λ i. (rest >>= λ is. ok (i ∷ is))

  module _ {W : Type 0} (q : Queries W) where
    abbrev pub insert_params : Identity → String → InsertIdentityParams
    insert_params i capabilities = record {
      public_key = i.public_key;
      server_address = i.server_address;
      server_name = i.server_name;
      owner_name = i.owner_name;
      capabilities = capabilities;
      is_trusted = i.is_trusted;
    }

    unfoldable pub insert_identity : Identity → Exec W StoreError (Unit {0})
    insert_identity i =
        Exec.◌>>=◌ (lift (wrap_err marshal_failed (json.marshal i.capabilities))) λ text.
          Exec.◌>>=◌ (wrapping insert_failed (q.insert_identity (insert_params i text)))
            λ _. pure tt

    unfoldable pub get_identity_by_address : String → Exec W StoreError Identity
    get_identity_by_address addr =
        Exec.◌>>=◌ (wrapping get_error (q.get_identity_by_address addr))
          λ row. lift (row_to_identity row)

    -- The time that the caller gives is not used.
    unfoldable pub update_last_seen : String → Exec W StoreError (Unit {0})
    update_last_seen addr = wrapping update_failed (q.update_last_seen addr)

    unfoldable pub list_identities : Exec W StoreError (List Identity)
    list_identities =
        Exec.◌>>=◌ (wrapping list_failed q.list_identities) λ rows. lift (rows_to_identities rows)

    unfoldable pub set_trust_status : String → Bool → Exec W StoreError (Unit {0})
    set_trust_status addr trusted = wrapping trust_failed (q.set_trust_status addr trusted)

    -- The interface `Store`, which prints an error.
    abbrev pub sql_store : (StoreError → String) → IdentityStore W
    sql_store text = record {
      for_verifier = record {
        get_identity_by_address = λ addr. wrapping text (get_identity_by_address addr);
        update_last_seen = λ addr. wrapping text (update_last_seen addr);
        insert_identity = λ i. wrapping text (insert_identity i);
      };
      list_identities = wrapping text list_identities;
      set_trust_status = λ addr trusted. wrapping text (set_trust_status addr trusted);
    }
