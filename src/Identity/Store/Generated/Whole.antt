-- ===== src/Identity/Store/Generated/Whole.antt =====
-- The list of identities over any database (gen/go/sqlc/query.sql.go).
use ztg.Prelude.{
  ◌≡◌, ◌↔◌, refl, List, [], ◌∷◌, none, ok, map, arith, Result-cases, succeeded, failed, panicked,
  Option-cases, inl, inr,
}
use ztg.Identity.Store.{Row}
use ztg.Identity.Store.Generated.{
  Value, Rows, Database, Conversions, scan, scan_rows, scan_all, list_identities,
  list_identities_text,
}

module _ (c : Conversions) where
  -- The loop scans every row, in order.
  scan_rows-eq-ok :
      (vs : List (List Value)) (items : List Row)
      → scan_rows c vs ≡ ok items
      → map (scan c) vs ≡ map ok items
  unfolding scan_rows
  scan_rows-eq-ok [] items h = ground (arith, h)
  scan_rows-eq-ok (v ∷ vs) items h = elim (Result-cases (scan c v)) [
    | failed e q ↦ absurd (ground (arith, q, h))
    | panicked q ↦ absurd (ground (arith, q, h))
    | succeeded i q ↦ elim (Result-cases (scan_rows c vs)) [
      | failed e u ↦ absurd (ground (arith, q, u, h))
      | panicked u ↦ absurd (ground (arith, q, u, h))
      | succeeded is u ↦ let rest = scan_rows-eq-ok vs is u in ground (arith, q, u, h, rest)
    ]
  ]

  -- What a list of rows is, if it is reported.
  pub record IsWhole (rows : Rows) (items : List Row) : Type 0 where
    pub scanned : map (scan c) rows.values ≡ map ok items
    pub closed : rows.close_error ≡ none
    pub finished : rows.iteration_error ≡ none

  scan_rows-of :
      (vs : List (List Value)) (items : List Row)
      → map (scan c) vs ≡ map ok items
      → scan_rows c vs ≡ ok items
  unfolding scan_rows
  scan_rows-of [] [] h = refl
  scan_rows-of [] (i ∷ items) h = absurd (cc)
  scan_rows-of (v ∷ vs) [] h = absurd (cc)
  scan_rows-of (v ∷ vs) (i ∷ items) h =
      let first : scan c v ≡ ok i = cc in
      let rest : map (scan c) vs ≡ map ok items = cc in
      ground (arith, first, scan_rows-of vs items rest)

  scan_all-IsWhole :
      (rows : Rows) (items : List Row) → scan_all c rows ≡ ok items → IsWhole rows items
  scan_all-IsWhole rows items h = elim (Result-cases (scan_rows c rows.values)) [
    | failed e q ↦ absurd (ground (arith, q, h))
    | panicked q ↦ absurd (ground (arith, q, h))
    | succeeded is q ↦ elim (Option-cases rows.close_error) [
      | inr (e, u) ↦ absurd (ground (arith, q, u, h))
      | inl u ↦ elim (Option-cases rows.iteration_error) [
        | inr (e, v) ↦ absurd (ground (arith, q, u, v, h))
        | inl v ↦ record {
          scanned = scan_rows-eq-ok rows.values items (ground (arith, q, u, v, h));
          closed = u;
          finished = v;
        }
      ]
    ]
  ]

  scan_all-eq-ok :
      (rows : Rows) (items : List Row) → IsWhole rows items → scan_all c rows ≡ ok items
  scan_all-eq-ok rows items h =
      ground (arith, scan_rows-of rows.values items h.scanned, h.closed, h.finished)

  -- The list query succeeds, over any database, exactly if the database answers it with rows that can
  -- each be scanned, with no error at the end of the rows and none as they are closed; what it gives
  -- then is every row, in order, and never the part that came before an error.
  pub list_identities-IsWhole :
      {W : Type 0} (db : Database W) (w : W) (items : List Row)
      → ((list_identities c db w).0 ≡ ok items)
        ↔ ((rows : Rows) × ((db.query list_identities_text [] w).0 ≡ ok rows) × IsWhole rows items)
  unfolding list_identities
  list_identities-IsWhole db w items = (
    λ h. elim (Result-cases (db.query list_identities_text [] w).0) [
      | failed e q ↦ absurd (ground (arith, q, h))
      | panicked q ↦ absurd (ground (arith, q, h))
      | succeeded rows q ↦ (rows, q, scan_all-IsWhole rows items (ground (arith, q, h)))
    ],
    λ (rows, q, whole). ground (arith, q, scan_all-eq-ok rows items whole),
  )
