-- ===== src/Identity.antt =====
-- What a server knows of itself and of others (identity/): the chain of its hashes, its keys and the
-- store of identities.
pub mod Announced
pub mod Chain
pub mod Keys
pub mod Store
