-- ===== src/Factorfight/ChannelPeer.antt =====
-- Peers that exchange moves over channels with one place (factorfight/channel_peer.go). `none` is a call
-- that waits, whatever its context. `D` is the type of a peer of the dice.
pub mod InOrder
use ztg.Prelude.{Option, none, some}
use ztg.Factorfight.Moves.{Move}

-- The two channels that a pair of peers shares, and what is in them.
pub data Channel : Type 0 where
  channel1 channel2 : Channel

pub record Store : Type 0 where
  pub in1 : Option Move
  pub in2 : Option Move

abbrev pub content : Channel → Store → Option Move
content channel1 s = s.in1
content channel2 s = s.in2

abbrev pub set_content : Channel → Option Move → Store → Store
set_content channel1 o s = record s { in1 = o }
set_content channel2 o s = record s { in2 = o }

pub record ChannelPeer (D : Type 0) : Type 0 where
  pub incoming : Channel
  pub outgoing : Channel
  pub dice_peer : D

-- Each has the peer of the dice that the other brings.
unfoldable pub new_channel_peers : {D : Type 0} → D → D → ChannelPeer D × ChannelPeer D
new_channel_peers dice_peer1 dice_peer2 = (
  record { incoming = channel1; outgoing = channel2; dice_peer = dice_peer2 },
  record { incoming = channel2; outgoing = channel1; dice_peer = dice_peer1 },
)

abbrev pub empty_store : Store
empty_store = record { in1 = none; in2 = none }

module _ {D : Type 0} (c : ChannelPeer D) where
  unfoldable pub send_move : Move → Store → Option Store
  send_move move s = elim (content c.outgoing s) [
    | none ↦ some (set_content c.outgoing (some move) s)
    | some _ ↦ none
  ]

  unfoldable pub recv_move : Store → Option (Move × Store)
  recv_move s = elim (content c.incoming s) [
    | none ↦ none
    | some move ↦ some (move, set_content c.incoming none s)
  ]

  abbrev pub dice : D
  dice = c.dice_peer
