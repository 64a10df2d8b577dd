-- ===== src/Identity/Store/Table/Claims.antt =====
-- What the verification of a message writes to the store (server/verifier.go,
-- identity/store/sqlstore.go).
use ztg.Prelude.{
  ℕ, ◌≡◌, ◌≢◌, refl, List, [], ◌∷◌, ◌++◌, none, some, String, Result, ok, arith, ap, ◌∙◌,
}
use ztg.Prelude.Exec.{Exec}
use ztg.Server.IdentityCache.{Identity, get_with_address_check}
use ztg.Server.IdentityService.Owner.{nonzero}
use ztg.Server.Verifier.{
  Signature, Crypto, Outside, Verifier, Clock, get_peer_identity_from_store_or_remote,
  verify_message_signature, authenticate,
}
use ztg.Identity.Store.{Row, Json, StoreError, insert_identity, get_identity_by_address, sql_store}
use ztg.Identity.Store.Table.{Table, table_queries, first_at}
use ztg.Identity.Store.Table.Found.{insert_identity-adds}
use text.Mathlib.TextEquality.{eq_iff}

module _ (json : Json) (text : StoreError → String)
    (ask : String → Exec Table String Identity) where
  -- The store over the table, and the servers that answer for themselves.
  abbrev pub outside_with_table : Outside Table
  outside_with_table = record {
    store = some (sql_store json table_queries text).for_verifier;
    get_peer_identity = ask;
  }

  fetched :
      (addr : String) (t : Table) (i : Identity)
      → first_at addr t.rows ≡ none
      → ask addr t ≡ (ok i, t)
      → (insert_identity json table_queries i t).0 ≡ ok tt
      → get_peer_identity_from_store_or_remote outside_with_table addr t
        ≡ (ok i, (insert_identity json table_queries i t).1)
  unfolding get_peer_identity_from_store_or_remote get_identity_by_address
  fetched addr t i new asked added = ground (arith, new, asked, added)

  module _ (c : Crypto) (clock : Clock) (message : List ℕ) where
    -- A verification changes the world by the fetching alone, whatever comes of it.
    verify_message_signature-world :
        (s : Signature) (v : Verifier) (t : Table)
        → s.signature ≢ []
        → s.signer_address ≢ ""
        → (get_with_address_check clock.at_lookup s.signer_address v.identity_cache).0 ≡ none
        → (verify_message_signature outside_with_table c clock message (some s) (v, t)).1.1
          ≡ (get_peer_identity_from_store_or_remote outside_with_table s.signer_address t).1
    unfolding verify_message_signature authenticate
    verify_message_signature-world s v t nonempty named unknown =
        ground (arith, nonzero s.signature, nonempty, eq_iff s.signer_address "", named, unknown)

    -- A message with a signature and a name that neither the cache nor the store knows adds to the
    -- table, as its one new row, the address, the key and the trust that the server of this name
    -- reports, if the server answers and the row is added without an error: whatever the signature is,
    -- and also where the reported address is not the name.
    pub verify_message_signature-stores_claim :
        (s : Signature) (v : Verifier) (t : Table) (i : Identity) (capabilities : String)
        → json.marshal i.capabilities ≡ ok capabilities
        → s.signature ≢ []
        → s.signer_address ≢ ""
        → (get_with_address_check clock.at_lookup s.signer_address v.identity_cache).0 ≡ none
        → first_at s.signer_address t.rows ≡ none
        → ask s.signer_address t ≡ (ok i, t)
        → (insert_identity json table_queries i t).0 ≡ ok tt
        → (row : Row) × ((verify_message_signature outside_with_table c clock message
              (some s)
              (v, t)).1.1.rows
            ≡ t.rows ++ row ∷ [])
          × (row.server_address ≡ i.server_address)
          × (row.public_key ≡ i.public_key)
          × (row.is_trusted ≡ i.is_trusted)
    verify_message_signature-stores_claim s v t i capabilities encoded nonempty named unknown new
          asked added =
        let written = insert_identity-adds json i capabilities encoded t added in
        let world = verify_message_signature-world s v t nonempty named unknown in
        (
          _,
          ap (λ (x : Table). x.rows)
                (world
                  ∙ ap (λ (x : Result String Identity × Table). x.1)
                      (fetched s.signer_address t i new asked added))
              ∙ written,
          refl,
          refl,
          refl,
        )
