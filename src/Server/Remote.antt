-- ===== src/Server/Remote.antt =====
-- The identity service of a peer, asked over a connection (the end of server/verifier.go).
-- `new_client` is grpcutil.NewClient.
pub mod Honest
mod Tests
use ztg.Prelude.{Option, String, Result, wrap_err}
use ztg.Prelude.Exec.{Exec, ◌>>=◌, wrapping}
use ztg.Server.IdentityCache.{Identity}
use ztg.Server.Verifier.{Store, Outside}

pub record Remote (C W : Type 0) : Type 0 where
  pub new_client : String → Exec W String C
  pub close : C → W → W
  pub get_identity : C → Exec W String Identity

pub data RemoteError : Type 0 where
  connect_failed get_failed : String → RemoteError

module _ {C W : Type 0} (r : Remote C W) where
  unfoldable pub get_peer_identity : String → Exec W RemoteError Identity
  get_peer_identity addr = do
    conn ← wrapping connect_failed (r.new_client addr)
    λ w. (let (x, w') = r.get_identity conn w in (wrap_err get_failed x, r.close conn w'))

  -- What a verifier asks, with this and the store that it may have.
  abbrev pub outside_over : (RemoteError → String) → Option (Store W) → Outside W
  outside_over text store = record {
    store = store;
    get_peer_identity = λ addr. wrapping text (get_peer_identity addr);
  }
