-- ===== src/Identity/Store/Generated/Meaning.antt =====
-- A database of one table that runs the statements which the generated texts make, as `Sql` reads them
-- (gen/go/sqlc/query.sql.go). A text that makes no statement is refused; so is CountIdentities, whose
-- `EXCLUDED` names the row of an insertion that conflicts, where nothing is inserted.
use ztg.Prelude.{
  ℕ, ◌+◌, List, [], ◌∷◌, ◌++◌, Bool, false, String, ok, err, map, ◌≡◌, none, some, Option,
  if◌then◌else◌, leb, ◌==◌, ◌-◌, ◌>>=◌,
}
use ztg.Prelude.Bytes.{bytes_eq}
use ztg.Prelude.Exec.{Exec}
use ztg.Identity.Store.{Row, InsertIdentityParams, QueryError, query_failed}
use ztg.Identity.Store.Table.{Table, one_row, refused}
use ztg.Identity.Store.Generated.{
  Value, bytes_value, text_value, number_value, time_value, bool_value, Rows, Database, Conversions,
}
use ztg.Identity.Store.Generated.Sql.{
  Column, Source, argument_of, now_of, Statement, select_first, select_newest, insert_into,
  update_where, delete_where, parse,
}
use text.Mathlib.Text.{◌==◌ as str_eq}

abbrev pub value_of : Column → Row → Value
value_of Column.id r = number_value r.id
value_of Column.public_key r = bytes_value r.public_key
value_of Column.server_address r = text_value r.server_address
value_of Column.server_name r = text_value r.server_name
value_of Column.owner_name r = text_value r.owner_name
value_of Column.capabilities r = text_value r.capabilities
value_of Column.created_at r = time_value r.created_at
value_of Column.last_seen r = time_value r.last_seen
value_of Column.is_trusted r = bool_value r.is_trusted
value_of Column.trust_updated_at r = time_value r.trust_updated_at

abbrev pub values_of : List Column → Row → List Value
values_of cs r = map (λ (c : Column). value_of c r) cs

-- A value of another type than the column's is not set.
abbrev pub set_column : Column → Value → Row → Row
set_column Column.id (number_value v) r = record r { id = v }
set_column Column.public_key (bytes_value v) r = record r { public_key = v }
set_column Column.server_address (text_value v) r = record r { server_address = v }
set_column Column.server_name (text_value v) r = record r { server_name = v }
set_column Column.owner_name (text_value v) r = record r { owner_name = v }
set_column Column.capabilities (text_value v) r = record r { capabilities = v }
set_column Column.created_at (time_value v) r = record r { created_at = v }
set_column Column.last_seen (time_value v) r = record r { last_seen = v }
set_column Column.is_trusted (bool_value v) r = record r { is_trusted = v }
set_column Column.trust_updated_at (time_value v) r = record r { trust_updated_at = v }
set_column _ _ r = r

-- `=` and the order of `ORDER BY`, on values of one type.
abbrev pub equal : Value → Value → Bool
equal (bytes_value a) (bytes_value b) = bytes_eq a b
equal (text_value a) (text_value b) = str_eq a b
equal (number_value a) (number_value b) = a == b
equal (time_value a) (time_value b) = a == b
equal _ _ = false

abbrev pub at_most : Value → Value → Bool
at_most (number_value a) (number_value b) = leb a b
at_most (time_value a) (time_value b) = leb a b
at_most _ _ = false

-- `$n`
abbrev pub argument_at : ℕ → List Value → Option Value
argument_at n [] = none
argument_at n (v ∷ vs) = if n == 1 then some v else argument_at (n - 1) vs

abbrev pub source_value : ℕ → List Value → Source → Option Value
source_value now args (argument_of n) = argument_at n args
source_value now args now_of = some (time_value now)

abbrev pub set_optional : Column → Option Value → Row → Row
set_optional c none r = r
set_optional c (some v) r = set_column c v r

abbrev pub assign : ℕ → List Value → List (Column × Source) → Row → Row
assign now args [] r = r
assign now args ((c, s) ∷ as') r = assign now args as' (set_optional c (source_value now args s) r)

-- The columns and the arguments of `INSERT`, one by one.
abbrev pub fill : List Value → List Column → List ℕ → Row → Row
fill args (c ∷ cs) (n ∷ ns) r = fill args cs ns (set_optional c (argument_at n args) r)
fill args _ _ r = r

-- A row of defaults.
abbrev pub blank_row : Table → Row
blank_row t = record {
  id = t.next_id;
  public_key = [];
  server_address = "";
  server_name = "";
  owner_name = "";
  capabilities = "";
  created_at = t.now;
  last_seen = t.now;
  is_trusted = false;
  trust_updated_at = t.now;
}

abbrev pub params_of : Row → InsertIdentityParams
params_of r = record {
  public_key = r.public_key;
  server_address = r.server_address;
  server_name = r.server_name;
  owner_name = r.owner_name;
  capabilities = r.capabilities;
  is_trusted = r.is_trusted;
}

-- `WHERE c = v`
unfoldable pub first_where : Column → Value → List Row → Option Row
first_where c v [] = none
first_where c v (r ∷ rs) = if equal (value_of c r) v then some r else first_where c v rs

unfoldable pub rows_without : Column → Value → List Row → List Row
rows_without c v [] = []
rows_without c v (r ∷ rs) =
    let rest = rows_without c v rs in if equal (value_of c r) v then rest else r ∷ rest

unfoldable pub update_rows : Column → Value → (Row → Row) → List Row → List Row
update_rows c v f [] = []
update_rows c v f (r ∷ rs) = (if equal (value_of c r) v then f r else r) ∷ update_rows c v f rs

-- `ORDER BY c DESC`
unfoldable pub insert_newest : Column → Row → List Row → List Row
insert_newest c r [] = r ∷ []
insert_newest c r (x ∷ xs) =
    if at_most (value_of c x) (value_of c r) then r ∷ x ∷ xs else x ∷ insert_newest c r xs

unfoldable pub newest_first : Column → List Row → List Row
newest_first c [] = []
newest_first c (r ∷ rs) = insert_newest c r (newest_first c rs)

abbrev pub refused_statement : {A : Type 0} → Exec Table QueryError A
refused_statement t = (err (query_failed "syntax error"), t)

abbrev pub row_values : List Column → Option Row → Exec Table QueryError (List Value)
row_values cs o t = (one_row o >>= λ r. ok (values_of cs r), t)

-- A refused row has taken its number all the same.
abbrev pub insert_row : Row → List Column → Exec Table QueryError (List Value)
insert_row r cs t =
    if refused t.rows (params_of r)
    then (err (query_failed "constraint"), record t { next_id = t.next_id + 1 })
    else (ok (values_of cs r), record t { next_id = t.next_id + 1; rows = t.rows ++ r ∷ [] })

abbrev pub with_argument :
    {A : Type 0} → Option Value → (Value → Exec Table QueryError A) → Exec Table QueryError A
with_argument none k = refused_statement
with_argument (some v) k = k v

abbrev pub run_exec : Option Statement → List Value → Exec Table QueryError (Unit {0})
run_exec (some (update_where as' c n)) args =
    with_argument (argument_at n args)
      (λ v t. (ok tt, record t { rows = update_rows c v (assign t.now args as') t.rows }))
run_exec (some (delete_where c n)) args =
    with_argument (argument_at n args) (λ v t. (ok tt, record t { rows = rows_without c v t.rows }))
run_exec _ args = refused_statement

abbrev pub run_query : Option Statement → List Value → Exec Table QueryError Rows
run_query (some (select_newest cs c)) args t = (
  ok (record {
    values = map (values_of cs) (newest_first c t.rows);
    close_error = none;
    iteration_error = none;
  }),
  t,
)
run_query _ args t = refused_statement t

abbrev pub run_query_row : Option Statement → List Value → Exec Table QueryError (List Value)
run_query_row (some (select_first cs c n)) args =
    with_argument (argument_at n args) (λ v t. row_values cs (first_where c v t.rows) t)
run_query_row (some (insert_into cs ns rs)) args =
    λ t. insert_row (fill args cs ns (blank_row t)) rs t
run_query_row _ args = refused_statement

abbrev pub table_database : Database Table
table_database = record {
  exec = λ sql. run_exec (parse sql);
  query = λ sql. run_query (parse sql);
  query_row = λ sql. run_query_row (parse sql);
}

-- Conversions that give back what a column of the type of the field holds.
pub record IsExact (c : Conversions) : Type 0 where
  pub number : (n : ℕ) → c.to_number (number_value n) ≡ ok n
  pub bytes : (bs : List ℕ) → c.to_bytes (bytes_value bs) ≡ ok bs
  pub text : (s : String) → c.to_text (text_value s) ≡ ok s
  pub time : (n : ℕ) → c.to_time (time_value n) ≡ ok n
  pub bool : (b : Bool) → c.to_bool (bool_value b) ≡ ok b
