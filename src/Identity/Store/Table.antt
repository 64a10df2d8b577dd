-- ===== src/Identity/Store/Table.antt =====
-- The queries of the store (identity/store/queries, with the table of migrations/), by their SQL text:
-- a table is a list of rows, the oldest first. A connection that fails is left out.
pub mod Found
pub mod Claims
pub mod History
mod Tests
use ztg.Prelude.{
  ℕ, ◌+◌, List, [], ◌∷◌, ◌++◌, Bool, ◌||◌, Option, none, some, String, Result, ok, err,
  if◌then◌else◌, leb, any,
}
use ztg.Prelude.Bytes.{bytes_eq}
use ztg.Prelude.Exec.{Exec}
use ztg.Identity.Store.{Row, InsertIdentityParams, QueryError, no_rows, query_failed, Queries}
use text.Mathlib.Text.{◌==◌ as str_eq}

-- `NOW()` is the time here.
pub record Table : Type 0 where
  pub rows : List Row
  pub next_id : ℕ
  pub now : ℕ

-- The columns `public_key` and `server_name` are unique.
abbrev pub conflicts : InsertIdentityParams → Row → Bool
conflicts p r = bytes_eq r.public_key p.public_key || str_eq r.server_name p.server_name

abbrev pub new_row : Table → InsertIdentityParams → Row
new_row t p = record {
  id = t.next_id;
  public_key = p.public_key;
  server_address = p.server_address;
  server_name = p.server_name;
  owner_name = p.owner_name;
  capabilities = p.capabilities;
  created_at = t.now;
  last_seen = t.now;
  is_trusted = p.is_trusted;
  trust_updated_at = t.now;
}

-- Every column is set, and an empty key is an absent one.
abbrev pub refused : List Row → InsertIdentityParams → Bool
refused rows p = bytes_eq p.public_key [] || any rows (conflicts p)

-- A refused row has taken its number all the same.
unfoldable pub insert : InsertIdentityParams → Exec Table QueryError Row
insert p t =
    if refused t.rows p
    then (err (query_failed "constraint"), record t { next_id = t.next_id + 1 })
    else (ok (new_row t p), record t { next_id = t.next_id + 1; rows = t.rows ++ new_row t p ∷ [] })

-- `LIMIT 1` leaves open which row it is; here it is the oldest.
unfoldable pub first_at : String → List Row → Option Row
first_at addr [] = none
first_at addr (r ∷ rs) = if str_eq r.server_address addr then some r else first_at addr rs

abbrev pub one_row : Option Row → Result QueryError Row
one_row none = err no_rows
one_row (some r) = ok r

-- `UPDATE … WHERE server_address = …`
unfoldable pub update_at : String → (Row → Row) → List Row → List Row
update_at addr f [] = []
update_at addr f (r ∷ rs) = (if str_eq r.server_address addr then f r else r) ∷ update_at addr f rs

-- `ORDER BY created_at DESC`
unfoldable pub insert_by_age : Row → List Row → List Row
insert_by_age r [] = r ∷ []
insert_by_age r (x ∷ xs) =
    if leb x.created_at r.created_at then r ∷ x ∷ xs else x ∷ insert_by_age r xs

unfoldable pub order_by_age : List Row → List Row
order_by_age [] = []
order_by_age (r ∷ rs) = insert_by_age r (order_by_age rs)

abbrev pub seen : ℕ → Row → Row
seen now r = record r { last_seen = now }

abbrev pub trust : ℕ → Bool → Row → Row
trust now trusted r = record r { is_trusted = trusted; trust_updated_at = now }

abbrev pub table_queries : Queries Table
table_queries = record {
  insert_identity = insert;
  get_identity_by_address = λ addr t. (one_row (first_at addr t.rows), t);
  update_last_seen = λ addr t. (ok tt, record t { rows = update_at addr (seen t.now) t.rows });
  list_identities = λ t. (ok (order_by_age t.rows), t);
  set_trust_status =
      λ addr trusted t. (ok tt, record t { rows = update_at addr (trust t.now trusted) t.rows });
}
