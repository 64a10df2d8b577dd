-- ===== src/Identity/Store/Generated.antt =====
-- The queries that the build generates (gen/go/sqlc/): each hands a SQL text and its arguments to a
-- database and scans what comes back into a row, column by column. The database is a parameter, and so
-- is the conversion of a column's value to the type of its field. `Sql` reads the texts as statements,
-- and `Meaning` runs these on a table.
pub mod Sql
pub mod Meaning
mod Same
mod Whole
mod Tests
use ztg.Prelude.{ℕ, List, [], ◌∷◌, Bool, Option, none, some, String, Result, ok, err, ◌>>=◌}
use ztg.Prelude.Exec.{Exec, lift}
use ztg.Prelude.Exec
use ztg.Identity.Store.{Row, InsertIdentityParams, QueryError, query_failed, Queries}

-- An argument of a statement, or a column of a row; times are numbers.
pub data Value : Type 0 where
  bytes_value : List ℕ → Value
  text_value : String → Value
  number_value time_value : ℕ → Value
  bool_value : Bool → Value

-- `sql.Rows`: what `Next` and `Scan` go through, and the errors of `Close` and `Err` after it.
pub record Rows : Type 0 where
  pub values : List (List Value)
  pub close_error : Option String
  pub iteration_error : Option String

-- `DBTX`, without `PrepareContext`, which nothing calls. A query for one row answers with the first
-- row, and with `no_rows` where there is none.
pub record Database (W : Type 0) : Type 0 where
  pub exec : String → List Value → Exec W QueryError (Unit {0})
  pub query : String → List Value → Exec W QueryError Rows
  pub query_row : String → List Value → Exec W QueryError (List Value)

-- The conversions of `Scan`.
pub record Conversions : Type 0 where
  pub to_number : Value → Result QueryError ℕ
  pub to_bytes : Value → Result QueryError (List ℕ)
  pub to_text : Value → Result QueryError String
  pub to_time : Value → Result QueryError ℕ
  pub to_bool : Value → Result QueryError Bool

abbrev pub count_identities_text : String
count_identities_text =
    "-- name: CountIdentities :one\nSELECT COUNT(*) as count FROM ztg.identities\nWHERE (EXCLUDED.arg_trusted_only = false OR is_trusted = $1)\n"

abbrev pub delete_identity_text : String
delete_identity_text =
    "-- name: DeleteIdentity :exec\nDELETE FROM ztg.identities WHERE public_key = $1\n"

abbrev pub get_identity_by_address_text : String
get_identity_by_address_text =
    "-- name: GetIdentityByAddress :one\nSELECT id, public_key, server_address, server_name, owner_name, capabilities, created_at, last_seen, is_trusted, trust_updated_at FROM ztg.identities WHERE server_address = $1 LIMIT 1\n"

abbrev pub get_identity_by_key_text : String
get_identity_by_key_text =
    "-- name: GetIdentityByKey :one\nSELECT id, public_key, server_address, server_name, owner_name, capabilities, created_at, last_seen, is_trusted, trust_updated_at FROM ztg.identities WHERE public_key = $1 LIMIT 1\n"

abbrev pub insert_identity_text : String
insert_identity_text =
    "-- name: InsertIdentity :one\nINSERT INTO ztg.identities (\n    public_key, server_address, server_name, owner_name, capabilities, is_trusted\n) VALUES ($1, $2, $3, $4, $5, $6)\nRETURNING id, public_key, server_address, server_name, owner_name, capabilities, created_at, last_seen, is_trusted, trust_updated_at\n"

abbrev pub list_identities_text : String
list_identities_text =
    "-- name: ListIdentities :many\nSELECT id, public_key, server_address, server_name, owner_name, capabilities, created_at, last_seen, is_trusted, trust_updated_at FROM ztg.identities\nORDER BY created_at DESC\n"

abbrev pub set_trust_status_text : String
set_trust_status_text =
    "-- name: SetTrustStatus :exec\nUPDATE ztg.identities\nSET is_trusted = $1, trust_updated_at = NOW()\nWHERE server_address = $2\n"

abbrev pub update_last_seen_text : String
update_last_seen_text =
    "-- name: UpdateLastSeen :exec\nUPDATE ztg.identities SET last_seen = NOW() WHERE server_address = $1\n"

abbrev pub wrong_columns : QueryError
wrong_columns = query_failed "wrong number of destination arguments in Scan"

-- An error that may be `nil`.
abbrev pub unless : {A : Type 0} → Option String → Result QueryError A → Result QueryError A
unless none r = r
unless (some e) r = err (query_failed e)

module _ (c : Conversions) where
  -- `row.Scan(&i.ID, …)`
  unfoldable pub scan : List Value → Result QueryError Row
  scan (a ∷ b ∷ d ∷ e ∷ f ∷ g ∷ h ∷ l ∷ m ∷ n ∷ []) = do
    id ← c.to_number a
    public_key ← c.to_bytes b
    server_address ← c.to_text d
    server_name ← c.to_text e
    owner_name ← c.to_text f
    capabilities ← c.to_text g
    created_at ← c.to_time h
    last_seen ← c.to_time l
    is_trusted ← c.to_bool m
    trust_updated_at ← c.to_time n
    ok (record {
      id = id;
      public_key = public_key;
      server_address = server_address;
      server_name = server_name;
      owner_name = owner_name;
      capabilities = capabilities;
      created_at = created_at;
      last_seen = last_seen;
      is_trusted = is_trusted;
      trust_updated_at = trust_updated_at;
    })
  scan _ = err wrong_columns

  -- `row.Scan(&count)`
  abbrev pub scan_count : List Value → Result QueryError ℕ
  scan_count (v ∷ []) = c.to_number v
  scan_count _ = err wrong_columns

  -- The loop over `rows.Next`, which ends at the first row that cannot be scanned.
  unfoldable pub scan_rows : List (List Value) → Result QueryError (List Row)
  scan_rows [] = ok []
  scan_rows (v ∷ vs) = let rest = scan_rows vs in scan v >>= λ i. (rest >>= λ items. ok (i ∷ items))

  abbrev pub scan_all : Rows → Result QueryError (List Row)
  scan_all rows = scan_rows rows.values >>= λ items.
      unless rows.close_error (unless rows.iteration_error (ok items))

  module _ {W : Type 0} (db : Database W) where
    unfoldable pub count_identities : Bool → Exec W QueryError ℕ
    count_identities is_trusted =
        Exec.◌>>=◌ (db.query_row count_identities_text (bool_value is_trusted ∷ []))
          λ row. lift (scan_count row)

    unfoldable pub delete_identity : List ℕ → Exec W QueryError (Unit {0})
    delete_identity public_key = db.exec delete_identity_text (bytes_value public_key ∷ [])

    unfoldable pub get_identity_by_address : String → Exec W QueryError Row
    get_identity_by_address server_address =
        Exec.◌>>=◌ (db.query_row get_identity_by_address_text (text_value server_address ∷ []))
          λ row. lift (scan row)

    unfoldable pub get_identity_by_key : List ℕ → Exec W QueryError Row
    get_identity_by_key public_key =
        Exec.◌>>=◌ (db.query_row get_identity_by_key_text (bytes_value public_key ∷ []))
          λ row. lift (scan row)

    unfoldable pub insert_identity : InsertIdentityParams → Exec W QueryError Row
    insert_identity arg =
        Exec.◌>>=◌
          (db.query_row insert_identity_text (
            bytes_value arg.public_key
            ∷ text_value arg.server_address
            ∷ text_value arg.server_name
            ∷ text_value arg.owner_name
            ∷ text_value arg.capabilities
            ∷ bool_value arg.is_trusted
            ∷ []))
          λ row. lift (scan row)

    unfoldable pub list_identities : Exec W QueryError (List Row)
    list_identities = Exec.◌>>=◌ (db.query list_identities_text []) λ rows. lift (scan_all rows)

    unfoldable pub set_trust_status : Bool → String → Exec W QueryError (Unit {0})
    set_trust_status is_trusted server_address =
        db.exec set_trust_status_text (bool_value is_trusted ∷ text_value server_address ∷ [])

    unfoldable pub update_last_seen : String → Exec W QueryError (Unit {0})
    update_last_seen server_address = db.exec update_last_seen_text (text_value server_address ∷ [])

    -- `sqlc.New`, with the queries that the store calls.
    unfoldable pub new_queries : Queries W
    new_queries = record {
      insert_identity = insert_identity;
      get_identity_by_address = get_identity_by_address;
      update_last_seen = update_last_seen;
      list_identities = list_identities;
      set_trust_status = λ addr trusted. set_trust_status trusted addr;
    }
