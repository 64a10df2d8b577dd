-- ===== src/Identity/Store/Generated/Same.antt =====
-- The generated queries over a table (gen/go/sqlc/query.sql.go).
use ztg.Prelude.{
  ℕ, none, some, err, ok, ◌≡◌, ◌∙◌, refl, ap, List, [], ◌∷◌, String, Bool, map, arith, Option-cases,
  inl, inr, Bool-cases,
}
use ztg.Identity.Store.{no_rows, Row, InsertIdentityParams}
use ztg.Identity.Store.Table.{
  Table, insert, first_at, update_at, table_queries, insert_by_age, order_by_age, refused, new_row,
  seen, trust,
}
use ztg.Identity.Store.Generated.{
  Value, text_value, bytes_value, Conversions, scan, scan_rows, new_queries, insert_identity,
  get_identity_by_address, update_last_seen, list_identities, set_trust_status, get_identity_by_key,
  delete_identity, insert_identity_text, get_identity_by_address_text, update_last_seen_text,
  list_identities_text, set_trust_status_text, get_identity_by_key_text, delete_identity_text,
}
use ztg.Identity.Store.Generated.Sql.{
  Column, argument_of, now_of, select_first, select_newest, insert_into, update_where, delete_where,
  every_column, tokens, parse,
}
use ztg.Identity.Store.Generated.Meaning.{
  values_of, first_where, rows_without, update_rows, insert_newest, newest_first, equal, value_of,
  table_database, IsExact,
}

-- What the texts say.
insert_identity-parsed :
    parse insert_identity_text
    ≡ some (
        insert_into
          (Column.public_key ∷ Column.server_address ∷ Column.server_name ∷ Column.owner_name
            ∷ Column.capabilities ∷ Column.is_trusted ∷ [])
          (1 ∷ 2 ∷ 3 ∷ 4 ∷ 5 ∷ 6 ∷ [])
          every_column)
unfolding parse tokens
insert_identity-parsed = refl

get_identity_by_address-parsed :
    parse get_identity_by_address_text ≡ some (select_first every_column Column.server_address 1)
unfolding parse tokens
get_identity_by_address-parsed = refl

get_identity_by_key-parsed :
    parse get_identity_by_key_text ≡ some (select_first every_column Column.public_key 1)
unfolding parse tokens
get_identity_by_key-parsed = refl

delete_identity-parsed : parse delete_identity_text ≡ some (delete_where Column.public_key 1)
unfolding parse tokens
delete_identity-parsed = refl

list_identities-parsed :
    parse list_identities_text ≡ some (select_newest every_column Column.created_at)
unfolding parse tokens
list_identities-parsed = refl

set_trust_status-parsed :
    parse set_trust_status_text
    ≡ some (
        update_where
          ((Column.is_trusted, argument_of 1) ∷ (Column.trust_updated_at, now_of) ∷ [])
          Column.server_address
          2)
unfolding parse tokens
set_trust_status-parsed = refl

update_last_seen-parsed :
    parse update_last_seen_text
    ≡ some (update_where ((Column.last_seen, now_of) ∷ []) Column.server_address 1)
unfolding parse tokens
update_last_seen-parsed = refl

first_where-address :
    (addr : String) (rows : List Row)
    → first_where Column.server_address (text_value addr) rows ≡ first_at addr rows
unfolding first_where first_at
first_where-address addr [] = refl
first_where-address addr (r ∷ rows) = ground (arith, first_where-address addr rows)

update_rows-address :
    (addr : String) (f : Row → Row) (rows : List Row)
    → update_rows Column.server_address (text_value addr) f rows ≡ update_at addr f rows
unfolding update_rows update_at
update_rows-address addr f [] = refl
update_rows-address addr f (r ∷ rows) = ground (arith, update_rows-address addr f rows)

insert_newest-age :
    (r : Row) (rows : List Row) → insert_newest Column.created_at r rows ≡ insert_by_age r rows
unfolding insert_newest insert_by_age
insert_newest-age r [] = refl
insert_newest-age r (x ∷ rows) = ground (arith, insert_newest-age r rows)

newest_first-age : (rows : List Row) → newest_first Column.created_at rows ≡ order_by_age rows
unfolding newest_first order_by_age
newest_first-age [] = refl
newest_first-age (r ∷ rows) =
    insert_newest-age r (newest_first Column.created_at rows)
    ∙ ap (insert_by_age r) (newest_first-age rows)

update_last_seen-table :
    (c : Conversions) (addr : String) (t : Table)
    → update_last_seen c table_database addr t ≡ table_queries.update_last_seen addr t
unfolding update_last_seen
update_last_seen-table c addr t =
    rw (update_last_seen-parsed, update_rows-address addr (seen t.now) t.rows) refl

set_trust_status-table :
    (c : Conversions) (addr : String) (trusted : Bool) (t : Table)
    → set_trust_status c table_database trusted addr t
      ≡ table_queries.set_trust_status addr trusted t
unfolding set_trust_status
set_trust_status-table c addr trusted t =
    rw (set_trust_status-parsed, update_rows-address addr (trust t.now trusted) t.rows) refl

module _ (c : Conversions) (x : IsExact c) where
  -- A row comes back from its columns.
  scan-values : (r : Row) → scan c (values_of every_column r) ≡ ok r
  unfolding scan
  scan-values r = simp (
    x.number r.id,
    x.bytes r.public_key,
    x.text r.server_address,
    x.text r.server_name,
    x.text r.owner_name,
    x.text r.capabilities,
    x.time r.created_at,
    x.time r.last_seen,
    x.bool r.is_trusted,
    x.time r.trust_updated_at,
  )

  scan_rows-map : (rows : List Row) → scan_rows c (map (values_of every_column) rows) ≡ ok rows
  unfolding scan_rows
  scan_rows-map [] = refl
  scan_rows-map (r ∷ rows) = ground (arith, scan-values r, scan_rows-map rows)

  insert_identity-table :
      (p : InsertIdentityParams) (t : Table) → insert_identity c table_database p t ≡ insert p t
  unfolding insert_identity insert
  insert_identity-table p t = elim (Bool-cases (refused t.rows p)) [
    | inl q ↦ ground (arith, insert_identity-parsed, q)
    | inr q ↦ ground (arith, insert_identity-parsed, q, scan-values (new_row t p))
  ]

  get_identity_by_address-table :
      (addr : String) (t : Table)
      → get_identity_by_address c table_database addr t
        ≡ table_queries.get_identity_by_address addr t
  unfolding get_identity_by_address
  get_identity_by_address-table addr t =
      let found = first_where-address addr t.rows in
      elim (Option-cases (first_at addr t.rows)) [
        | inl q ↦ ground (arith, get_identity_by_address-parsed, found, q)
        | inr (r, q) ↦ ground (arith, get_identity_by_address-parsed, found, q, scan-values r)
      ]

  list_identities-table :
      (t : Table) → list_identities c table_database t ≡ table_queries.list_identities t
  unfolding list_identities
  list_identities-table t =
      rw (list_identities-parsed, newest_first-age t.rows, scan_rows-map (order_by_age t.rows)) refl

  -- The queries that the build generates, over a database that runs on a table the statements which
  -- their SQL texts make, and with conversions that give back what a column holds, are the queries of
  -- the table.
  pub new_queries-table : new_queries c table_database ≡ table_queries
  unfolding new_queries
  new_queries-table = λ i. record {
    insert_identity = λ p t. insert_identity-table p t i;
    get_identity_by_address = λ addr t. get_identity_by_address-table addr t i;
    update_last_seen = λ addr t. update_last_seen-table c addr t i;
    list_identities = λ t. list_identities-table t i;
    set_trust_status = λ addr trusted t. set_trust_status-table c addr trusted t i;
  }

  first_where-rows_without :
      (d : Column) (v : Value) (rows : List Row) → first_where d v (rows_without d v rows) ≡ none
  unfolding first_where rows_without
  first_where-rows_without d v [] = refl
  first_where-rows_without d v (r ∷ rows) = elim (Bool-cases (equal (value_of d r) v)) [
    | inl q ↦ rw q (first_where-rows_without d v rows)
    | inr q ↦ rw q (rw q (first_where-rows_without d v rows))
  ]

  -- An identity that was deleted by its key is not found by it.
  get_identity_by_key-delete_identity :
      (key : List ℕ) (t : Table)
      → (get_identity_by_key c table_database key (delete_identity c table_database key t).1).0
        ≡ err no_rows
  unfolding get_identity_by_key delete_identity
  get_identity_by_key-delete_identity key t = ground (
    arith,
    delete_identity-parsed,
    get_identity_by_key-parsed,
    first_where-rows_without Column.public_key (bytes_value key) t.rows,
  )
