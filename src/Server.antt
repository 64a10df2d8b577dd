-- ===== src/Server.antt =====
-- The server (server/): the verification of signed messages, with the hash chains of the peers and the
-- cache of their identities, the checks of the owner's signature, and the services of the games.
pub mod HashChain
pub mod IdentityCache
pub mod Verifier
pub mod Signer
pub mod Stream
pub mod IdentityService
pub mod GameService
pub mod Pair
pub mod Highroll
pub mod Remote
mod Tests
