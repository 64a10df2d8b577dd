-- ===== src/Identity/Store/Table/History.antt =====
-- What the calls of the store make of its table (identity/store/sqlstore.go).
use ztg.Identity.Store.Table.{
  first_at, Table, table_queries, insert, conflicts, refused, new_row, update_at, seen, trust,
}
use ztg.Prelude.{
  Option-cases, sym, ◌∙◌, ap, ◌≡◌, ◌⊎◌, inl, inr, refl, List, [], ◌∷◌, ◌++◌, String, Bool, false,
  arith, any, All, All-append, In, In-append_left, if◌then◌else◌, Bool-cases, Result-cases,
  succeeded, failed, panicked,
}
use ztg.Prelude.Bytes.{bytes_eq}
use ztg.Server.IdentityCache.{Identity}
use ztg.Identity.Store.{
  Row, InsertIdentityParams, Json, insert_identity, get_identity_by_address, update_last_seen,
  list_identities, set_trust_status, insert_params,
}
use text.Mathlib.Text.{◌==◌ as str_eq}

-- A call of the store.
pub data Call : Type 0 where
  inserted : Identity → Call
  got seen_at : String → Call
  listed : Call
  trusted_at : String → Bool → Call

module _ (json : Json) where
  abbrev pub run_call : Call → Table → Table
  run_call (inserted i) t = (insert_identity json table_queries i t).1
  run_call (got addr) t = (get_identity_by_address json table_queries addr t).1
  run_call (seen_at addr) t = (update_last_seen json table_queries addr t).1
  run_call listed t = (list_identities json table_queries t).1
  run_call (trusted_at addr trusted) t = (set_trust_status json table_queries addr trusted t).1

  pub run_calls : List Call → Table → Table
  run_calls [] t = t
  run_calls (c ∷ cs) t = run_calls cs (run_call c t)

-- The two rows differ in key and in name.
abbrev pub Differs : Row → Row → Type 0
Differs r x =
    (bytes_eq r.public_key x.public_key ≡ false) × (str_eq r.server_name x.server_name ≡ false)

abbrev pub IsUnique : List Row → Type 0
IsUnique [] = Unit
IsUnique (r ∷ rs) = All (Differs r) rs × IsUnique rs

-- What a call says of the trust of a row.
abbrev pub trust_after : Call → Row → Bool
trust_after (trusted_at addr trusted) r =
    if str_eq r.server_address addr then trusted else r.is_trusted
trust_after _ r = r.is_trusted

-- The row of the same identity after a call.
pub record Follows (c : Call) (r x : Row) : Type 0 where
  pub same_id : x.id ≡ r.id
  pub same_key : x.public_key ≡ r.public_key
  pub same_address : x.server_address ≡ r.server_address
  pub trusted : x.is_trusted ≡ trust_after c r

IsUnique-append :
    (rs : List Row) (t : Table) (p : InsertIdentityParams)
    → IsUnique rs
    → any rs (conflicts p) ≡ false
    → IsUnique (rs ++ new_row t p ∷ [])
IsUnique-append [] t p u h = (tt, tt)
IsUnique-append (r ∷ rs) t p u h = (
  All-append (Differs r) rs (new_row t p ∷ []) u.0 (ground (arith, h)),
  IsUnique-append rs t p u.1 (ground (arith, h)),
)

insert_identity-cases :
    (json : Json) (i : Identity) (t : Table)
    → let after = (insert_identity json table_queries i t).1.rows in
      (after ≡ t.rows)
      ⊎ ((p : InsertIdentityParams) × (refused t.rows p ≡ false)
          × (after ≡ t.rows ++ new_row t p ∷ []))
unfolding insert_identity insert
insert_identity-cases json i t = elim (Result-cases (json.marshal i.capabilities)) [
  | failed e q ↦ inl (ground (arith, q))
  | panicked q ↦ inl (ground (arith, q))
  | succeeded text q ↦
      let p = insert_params json table_queries i text in
      elim (Bool-cases (refused t.rows p)) [
        | inl h ↦ inl (ground (arith, q, h))
        | inr h ↦ inr (p, h, ground (arith, q, h))
      ]
]

abbrev SameNames : Row → Row → Type 0
SameNames a r = (a.public_key ≡ r.public_key) × (a.server_name ≡ r.server_name)

Differs-SameNames : (a r b x : Row) → SameNames a r → SameNames b x → Differs r x → Differs a b
Differs-SameNames a r b x k l d = (rw (k.0, l.0) d.0, rw (k.1, l.1) d.1)

-- An update that keeps keys and names.
module _ (addr : String) (f : Row → Row) (keeps : (r : Row) → SameNames (f r) r) where
  abbrev changed : Row → Row
  changed r = if str_eq r.server_address addr then f r else r

  changed-SameNames : (r : Row) → SameNames (changed r) r
  changed-SameNames r = elim (Bool-cases (str_eq r.server_address addr)) [
    | inl e ↦ rw e (keeps r)
    | inr e ↦ rw e (refl, refl)
  ]

  update_at-Differs :
      (a r : Row) (rs : List Row)
      → SameNames a r
      → All (Differs r) rs
      → All (Differs a) (update_at addr f rs)
  unfolding update_at
  update_at-Differs a r [] k h = tt
  update_at-Differs a r (x ∷ rs) k h = (
    Differs-SameNames a r (changed x) x k (changed-SameNames x) h.0,
    update_at-Differs a r rs k h.1,
  )

  update_at-IsUnique : (rs : List Row) → IsUnique rs → IsUnique (update_at addr f rs)
  unfolding update_at
  update_at-IsUnique [] u = tt
  update_at-IsUnique (r ∷ rs) u =
      (update_at-Differs (changed r) r rs (changed-SameNames r) u.0, update_at-IsUnique rs u.1)

  update_at-In : (r : Row) (rs : List Row) → In r rs → In (changed r) (update_at addr f rs)
  unfolding update_at
  update_at-In r [] i = absurd i
  update_at-In r (x ∷ rs) (inl e) = inl (ap changed e)
  update_at-In r (x ∷ rs) (inr i) = inr (update_at-In r rs i)

module _ (json : Json) where
  get_identity_by_address-keeps :
      (addr : String) (t : Table) → (get_identity_by_address json table_queries addr t).1 ≡ t
  unfolding get_identity_by_address
  get_identity_by_address-keeps addr t = elim (Option-cases (first_at addr t.rows)) [
    | inl e ↦ ground (arith, e)
    | inr (r, e) ↦ ground (arith, e)
  ]

  run_call-IsUnique : (c : Call) (t : Table) → IsUnique t.rows → IsUnique (run_call json c t).rows
  unfolding update_last_seen list_identities set_trust_status
  run_call-IsUnique (inserted i) t u = elim (insert_identity-cases json i t) [
    | inl e ↦ rw e u
    | inr (p, new, e) ↦ rw e (IsUnique-append t.rows t p u (ground (arith, new)))
  ]
  run_call-IsUnique (got addr) t u = rw (get_identity_by_address-keeps addr t) u
  run_call-IsUnique (seen_at addr) t u =
      update_at-IsUnique addr (seen t.now) (λ r. (refl, refl)) t.rows u
  run_call-IsUnique listed t u = u
  run_call-IsUnique (trusted_at addr trusted) t u =
      update_at-IsUnique addr (trust t.now trusted) (λ r. (refl, refl)) t.rows u

  run_call-Follows :
      (c : Call) (t : Table) (r : Row)
      → In r t.rows
      → (x : Row) × In x (run_call json c t).rows × Follows c r x
  unfolding update_last_seen list_identities set_trust_status
  run_call-Follows (inserted i) t r m = elim (insert_identity-cases json i t) [
    | inl e ↦ (r, rw e m, ground arith)
    | inr (p, new, e) ↦ (r, rw e (In-append_left r t.rows (new_row t p ∷ []) m), ground arith)
  ]
  run_call-Follows (got addr) t r m = (r, rw (get_identity_by_address-keeps addr t) m, ground arith)
  run_call-Follows (seen_at addr) t r m =
      (_, update_at-In addr (seen t.now) (λ r. (refl, refl)) r t.rows m, ground arith)
  run_call-Follows listed t r m = (r, m, ground arith)
  run_call-Follows (trusted_at addr trusted) t r m =
      (_, update_at-In addr (trust t.now trusted) (λ r. (refl, refl)) r t.rows m, ground arith)

-- What the calls say of the trust of an address, the last call that names it.
pub last_trust : String → Bool → List Call → Bool
last_trust addr b [] = b
last_trust addr b (trusted_at a trusted ∷ cs) =
    last_trust addr (if str_eq addr a then trusted else b) cs
last_trust addr b (_ ∷ cs) = last_trust addr b cs

-- The row of the same identity after some calls.
pub record Survives (cs : List Call) (r x : Row) : Type 0 where
  pub same_id : x.id ≡ r.id
  pub same_key : x.public_key ≡ r.public_key
  pub same_address : x.server_address ≡ r.server_address
  pub trusted : x.is_trusted ≡ last_trust r.server_address r.is_trusted cs

last_trust-step :
    (c : Call) (cs : List Call) (r : Row)
    → last_trust r.server_address r.is_trusted (c ∷ cs)
      ≡ last_trust r.server_address (trust_after c r) cs
unfolding last_trust
last_trust-step (trusted_at a trusted) cs r = refl
last_trust-step _ cs r = refl

Survives-Follows :
    (c : Call) (cs : List Call) (r x y : Row)
    → Follows c r x
    → Survives cs x y
    → Survives (c ∷ cs) r y
Survives-Follows c cs r x y f s = record {
  same_id = s.same_id ∙ f.same_id;
  same_key = s.same_key ∙ f.same_key;
  same_address = s.same_address ∙ f.same_address;
  trusted = s.trusted ∙ (rw (f.same_address, f.trusted) (sym (last_trust-step c cs r)));
}

-- A table whose rows differ in key and in name keeps this through any calls of the store. Each of its
-- rows is still there then, with its key and its address, and is trusted exactly if the last call that
-- set the trust of its address said so, or if it was before where none did.
pub run_calls-IsFaithful :
    (json : Json) (cs : List Call) (t : Table)
    → IsUnique t.rows
    → IsUnique (run_calls json cs t).rows
      × ((r : Row) → In r t.rows → (x : Row) × In x (run_calls json cs t).rows × Survives cs r x)
unfolding run_calls
run_calls-IsFaithful json [] t u = (u, λ r m. (r, m, survives r))
  where
    survives : (r : Row) → Survives [] r r
    survives r =
        unfold last_trust in
        record { same_id = refl; same_key = refl; same_address = refl; trusted = refl }
run_calls-IsFaithful json (c ∷ cs) t u =
    let later = run_calls-IsFaithful json cs (run_call json c t) (run_call-IsUnique json c t u) in
    (
      later.0,
      λ r m.
          (let (x, i, f) = run_call-Follows json c t r m in
            let (y, j, s) = later.1 x i in (y, j, Survives-Follows c cs r x y f s)),
    )
