-- ===== src/Factorfight.antt =====
-- The game Factor Fight (factorfight/): expressions, moves, the board and the turns of a session.
pub mod Expr
pub mod Pawn
pub mod Moves
pub mod Board
pub mod Legal
pub mod Spread
pub mod Mirror
pub mod Strategy
pub mod Duel
pub mod Session
pub mod Print
pub mod ChannelPeer
pub mod Progress
mod Tests
