-- ===== src/Identity/Store/Table/Found.antt =====
-- An identity that was added is found again (identity/store/sqlstore.go).
use ztg.Prelude.{
  ◌≡◌, ◌≢◌, refl, List, [], ◌∷◌, ◌++◌, none, some, String, ok, arith, Bool-cases, inl, inr,
}
use ztg.Server.IdentityCache.{Identity}
use ztg.Identity.Store.{
  Row, Json, insert_params, insert_identity, get_identity_by_address, row_to_identity,
}
use ztg.Identity.Store.Table.{Table, table_queries, insert, first_at, new_row, refused}
use text.Mathlib.Text.{◌==◌ as str_eq}
use text.Mathlib.TextEquality.{eq_iff}

first_at-append :
    (addr : String) (rows : List Row) (row : Row)
    → first_at addr rows ≡ none
    → row.server_address ≡ addr
    → first_at addr (rows ++ row ∷ []) ≡ some row
unfolding first_at
first_at-append addr [] row h e = ground (arith, eq_iff row.server_address addr, e)
first_at-append addr (r ∷ rows) row h e = elim (Bool-cases (str_eq r.server_address addr)) [
  | inl q ↦ absurd (ground (arith, q, h))
  | inr q ↦ rw q (first_at-append addr rows row (rw q at h) e)
]

-- What a row keeps of an identity.
abbrev kept : Table → Identity → Identity
kept t i = record i { created_at = some t.now; trust_updated_at = some t.now }

module _ (json : Json) (i : Identity) (text : String) where
  abbrev row_of : Table → Row
  row_of t = new_row t (insert_params json table_queries i text)

  module _ (encoded : json.marshal i.capabilities ≡ ok text) where
    -- The row that an insertion without an error adds.
    pub insert_identity-adds :
        (t : Table)
        → (insert_identity json table_queries i t).0 ≡ ok tt
        → (insert_identity json table_queries i t).1.rows ≡ t.rows ++ row_of t ∷ []
    unfolding insert_identity insert
    insert_identity-adds t h =
        elim (Bool-cases (refused t.rows (insert_params json table_queries i text))) [
          | inl q ↦ absurd (ground (arith, encoded, q, h))
          | inr q ↦ ground (arith, encoded, q)
        ]

    module _ (decoded : json.unmarshal text ≡ ok i.capabilities) where
      row_to_identity-new_row :
          (t : Table) → text ≢ "" → row_to_identity json (row_of t) ≡ ok (kept t i)
      unfolding row_to_identity
      row_to_identity-new_row t filled = ground (arith, decoded, eq_iff text "", filled)

      -- An identity that is added without an error to a table with no row of its address is found by its
      -- address, with the present time as the times of its creation and its trust, if the text of its
      -- capabilities is not empty and is decoded to them.
      get_identity_by_address-insert_identity :
          (t : Table)
          → text ≢ ""
          → first_at i.server_address t.rows ≡ none
          → (insert_identity json table_queries i t).0 ≡ ok tt
          → (get_identity_by_address json table_queries i.server_address
              (insert_identity json table_queries i t).1).0
            ≡ ok (kept t i)
      unfolding get_identity_by_address
      get_identity_by_address-insert_identity t filled new h =
          let found : first_at i.server_address (insert_identity json table_queries i t).1.rows
              ≡ some (row_of t) =
            rw (insert_identity-adds t h)
              (first_at-append i.server_address t.rows (row_of t) new refl) in
          ground (arith, found, row_to_identity-new_row t filled)
