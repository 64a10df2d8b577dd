-- ===== src/Identity/Store/Table/Tests.antt =====
-- The store at concrete inputs: a table with one identity, an encoding of capabilities for the empty
-- list, and a stranger that calls itself trusted.
use ztg.Prelude.{◌≡◌, ◌≢◌, refl, List, [], ◌∷◌, ◌++◌, String, true, false, none, some, ok, In}
use ztg.Prelude.Dict.{lookup}
use ztg.Prelude.Exec.{Exec}
use ztg.Server.IdentityCache.{Identity, get, get_with_address_check, new_identity_cache_manager}
use ztg.Server.Verifier.{Signature, Crypto, Clock, new_verifier, verify_message_signature}
use ztg.Identity.Store.{Row, Json, insert_identity}
use ztg.Identity.Store.Table.{Table, table_queries, insert, first_at}
use ztg.Identity.Store.Table.Claims.{outside_with_table, verify_message_signature-stores_claim}
use ztg.Identity.Store.Table.History.{
  Call, inserted, trusted_at, run_calls, IsUnique, Survives, run_calls-IsFaithful,
}

abbrev a_json : Json
a_json = record { marshal = λ _. ok "[]"; unmarshal = λ _. ok [] }

abbrev a_row : Row
a_row = record {
  id = 1;
  public_key = 7 ∷ [];
  server_address = "friend";
  server_name = "a friend";
  owner_name = "somebody";
  capabilities = "[]";
  created_at = 3;
  last_seen = 5;
  is_trusted = false;
  trust_updated_at = 3;
}

abbrev a_table : Table
a_table = record { rows = a_row ∷ []; next_id = 2; now = 10 }

abbrev stranger : Identity
stranger = record {
  public_key = 9 ∷ [];
  server_address = "stranger";
  server_name = "a stranger";
  owner_name = "nobody";
  capabilities = [];
  created_at = none;
  is_trusted = true;
  trust_updated_at = none;
}

abbrev json_text : String
json_text = "[]"

not_there : first_at "stranger" a_table.rows ≡ none
unfolding first_at
not_there = refl

added : (insert_identity a_json table_queries stranger a_table).0 ≡ ok tt
unfolding insert_identity insert
added = refl

abbrev asked : String → Exec Table String Identity
asked _ t = (ok stranger, t)

-- Every signature is wrong.
abbrev a_crypto : Crypto
a_crypto = record { sha256 = λ bs. 3 ∷ bs; ed25519_verify = λ _ _ _. some false }

abbrev a_clock : Clock
a_clock = record { at_lookup = 10; at_set = 11; at_chain = 12; at_add = 13 }

abbrev a_signature : Signature
a_signature = record { signature = 5 ∷ []; signer_address = "stranger" }

unknown : (get_with_address_check 10 "stranger" (new_verifier 0).identity_cache).0 ≡ none
unfolding new_verifier new_identity_cache_manager get_with_address_check get lookup
unknown = refl

nonempty : a_signature.signature ≢ []
nonempty = λ e. cc

named : a_signature.signer_address ≢ ""
named = λ e. cc

verify_message_signature-stores_claim_example :
    (row : Row) × ((verify_message_signature
        (outside_with_table a_json (λ _. "error") asked)
        a_crypto
        a_clock
        (1 ∷ [])
        (some a_signature)
        (new_verifier 0, a_table)).1.1.rows
      ≡ a_table.rows ++ row ∷ [])
    × (row.server_address ≡ "stranger")
    × (row.public_key ≡ 9 ∷ [])
    × (row.is_trusted ≡ true)
verify_message_signature-stores_claim_example =
    verify_message_signature-stores_claim a_json (λ _. "error") asked a_crypto a_clock (1 ∷ [])
      a_signature (new_verifier 0) a_table stranger json_text refl nonempty named unknown not_there
      refl added

abbrev some_calls : List Call
some_calls = trusted_at "friend" true ∷ inserted stranger ∷ trusted_at "stranger" false ∷ []

run_calls-IsFaithful_example :
    IsUnique (run_calls a_json some_calls a_table).rows
    × ((r : Row)
        → In r a_table.rows
        → (x : Row) × In x (run_calls a_json some_calls a_table).rows × Survives some_calls r x)
run_calls-IsFaithful_example = run_calls-IsFaithful a_json some_calls a_table (tt, tt)
