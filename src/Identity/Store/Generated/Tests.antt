-- ===== src/Identity/Store/Generated/Tests.antt =====
-- The generated queries at concrete inputs: the table of the store's tests, and a database that breaks
-- off after its first row.
use ztg.Identity.Store.{Bool, ℕ, Option, Row, QueryError, query_failed}
use ztg.Prelude.{false, ◌≡◌, ◌↔◌, refl, List, [], ◌∷◌, String, none, some, Result, ok, err}
use ztg.Identity.Store.Table.{table_queries}
use ztg.Identity.Store.Generated.{
  Value, bytes_value, text_value, number_value, time_value, bool_value, Rows, Database, Conversions,
  scan, scan_rows, list_identities, list_identities_text, count_identities_text, new_queries,
}
use ztg.Identity.Store.Generated.Sql.{every_column, tokens, parse}
use ztg.Identity.Store.Generated.Meaning.{values_of, table_database, IsExact}
use ztg.Identity.Store.Generated.Same.{new_queries-table}
use ztg.Identity.Store.Generated.Whole.{IsWhole, list_identities-IsWhole}

abbrev wrong_type : {A : Type 0} → Result QueryError A
wrong_type = err (query_failed "unsupported Scan")

to_number : Value → Result QueryError ℕ
to_number (number_value n) = ok n
to_number _ = wrong_type

to_bytes : Value → Result QueryError (List ℕ)
to_bytes (bytes_value bs) = ok bs
to_bytes _ = wrong_type

to_text : Value → Result QueryError String
to_text (text_value s) = ok s
to_text _ = wrong_type

to_time : Value → Result QueryError ℕ
to_time (time_value n) = ok n
to_time _ = wrong_type

to_bool : Value → Result QueryError Bool
to_bool (bool_value b) = ok b
to_bool _ = wrong_type

abbrev strict : Conversions
strict = record {
  to_number = to_number;
  to_bytes = to_bytes;
  to_text = to_text;
  to_time = to_time;
  to_bool = to_bool;
}

strict-IsExact : IsExact strict
unfolding to_number to_bytes to_text to_time to_bool
strict-IsExact = record {
  number = λ _. refl;
  bytes = λ _. refl;
  text = λ _. refl;
  time = λ _. refl;
  bool = λ _. refl;
}

new_queries-table_example : new_queries strict table_database ≡ table_queries
new_queries-table_example = new_queries-table strict strict-IsExact

abbrev a_row : Row
a_row = record {
  id = 1;
  public_key = 7 ∷ [];
  server_address = "friend";
  server_name = "a friend";
  owner_name = "somebody";
  capabilities = "[]";
  created_at = 3;
  last_seen = 5;
  is_trusted = false;
  trust_updated_at = 3;
}

-- Answers with one row, and says whether more were to come.
abbrev answering : Option String → Database (Unit {0})
answering broken = record {
  exec = λ _ _ w. (ok tt, w);
  query = λ _ _ w. (
    ok (record {
      values = values_of every_column a_row ∷ [];
      close_error = none;
      iteration_error = broken;
    }),
    w,
  );
  query_row = λ _ _ w. (ok (values_of every_column a_row), w);
}

list_identities-IsWhole_example :
    ((list_identities strict (answering none) tt).0 ≡ ok (a_row ∷ [])) ↔ (
      (rows : Rows) × (((answering none).query list_identities_text [] tt).0 ≡ ok rows)
      × IsWhole strict rows (a_row ∷ []))
list_identities-IsWhole_example = list_identities-IsWhole strict (answering none) tt (a_row ∷ [])

listed : (list_identities strict (answering none) tt).0 ≡ ok (a_row ∷ [])
unfolding list_identities scan_rows scan to_number to_bytes to_text to_time to_bool
listed = refl

-- A connection that is lost after a row gives no list.
broken_off :
    (list_identities strict (answering (some "connection lost")) tt).0
    ≡ err (query_failed "connection lost")
unfolding list_identities scan_rows scan to_number to_bytes to_text to_time to_bool
broken_off = refl

-- CountIdentities makes no statement.
no_statement : parse count_identities_text ≡ none
unfolding parse tokens
no_statement = refl
