-- ===== src/Server/HashChain.antt =====
-- The manager of the peers' hash chains (server/verifier.go). A time and a duration are numbers of
-- nanoseconds; the two readings of the clock in one call are two arguments.
pub mod Accepts
use ztg.Prelude.{
  ℕ, ◌+◌, ◌%◌, ◌^◌, Bool, not, List, [], ◌∷◌, Option, none, some, String, Result, ok, err,
  if◌then◌else◌, ◌==◌, ltb, length,
}
use ztg.Prelude.Bytes.{bytes_eq}
use ztg.Prelude.Dict.{Dict, lookup, insert, delete, retain}

pub record HashChainEntry : Type 0 where
  pub hash : List ℕ
  pub sequence : ℕ
  pub expires_at : ℕ

pub record HashChainManager : Type 0 where
  pub chains : Dict HashChainEntry
  pub ttl : ℕ

pub data ChainError : Type 0 where
  previous_hash_not_empty no_previous_entry previous_entry_expired : ChainError
  previous_hash_mismatch sequence_mismatch : ChainError

unfoldable pub new_hash_chain_manager : ℕ → HashChainManager
new_hash_chain_manager ttl = record { chains = []; ttl = ttl }

-- `now.After(e.ExpiresAt)`
abbrev pub is_expired : ℕ → HashChainEntry → Bool
is_expired now e = ltb e.expires_at now

-- A `uint64` counter.
abbrev pub next_sequence : ℕ → ℕ
next_sequence n = (n + 1) % 2 ^ 64

abbrev pub add_entry : ℕ → String → List ℕ → ℕ → HashChainManager → HashChainManager
add_entry now addr hash sequence hm = record hm {
  chains =
      insert addr (record { hash = hash; sequence = sequence; expires_at = now + hm.ttl })
        hm.chains;
}

-- The tests on the entry that is stored for the peer.
abbrev pub continue_chain :
    ℕ
    → ℕ
    → String
    → List ℕ
    → List ℕ
    → ℕ
    → HashChainManager
    → Option HashChainEntry
    → Result ChainError (Unit {0}) × HashChainManager
continue_chain now later addr previous current sequence hm none = (err no_previous_entry, hm)
continue_chain now later addr previous current sequence hm (some last) =
    if is_expired now last
    then (err previous_entry_expired, record hm { chains = delete addr hm.chains })
    else if not (bytes_eq last.hash previous)
    then (err previous_hash_mismatch, hm)
    else if not (sequence == next_sequence last.sequence)
    then (err sequence_mismatch, hm)
    else (ok tt, add_entry later addr current sequence hm)

-- The clock reads `now` for the expiry test and `later` for the new entry.
unfoldable pub verify_and_add :
    ℕ
    → ℕ
    → String
    → List ℕ
    → List ℕ
    → ℕ
    → HashChainManager
    → Result ChainError (Unit {0}) × HashChainManager
verify_and_add now later addr previous current sequence hm =
    if sequence == 1
    then (if length previous == 0
        then (ok tt, add_entry later addr current sequence hm)
        else (err previous_hash_not_empty, hm))
    else continue_chain now later addr previous current sequence hm (lookup addr hm.chains)

unfoldable pub clear : HashChainManager → HashChainManager
clear hm = record hm { chains = [] }

unfoldable pub cleanup : ℕ → HashChainManager → HashChainManager
cleanup now hm = record hm { chains = retain (λ e. not (is_expired now e)) hm.chains }
