-- ===== src/Dice.antt =====
-- Rolling dice with a peer (dice/): the roller, its messages, the commit and reveal protocol, and two
-- peers over channels.
pub mod Message
pub mod Roller
pub mod Protocol
pub mod Process
pub mod Handover
pub mod Channels
pub mod Pipes
pub mod Exchange
mod Tests
