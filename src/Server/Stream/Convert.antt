-- ===== src/Server/Stream/Convert.antt =====
-- The conversions to and from the messages of the protocol (server/factorfight/convert.go). A field
-- that holds a message may be absent, and its getters then give zeros.
use ztg.Prelude.{
  ℕ, ◌+◌, ◌-◌, ◌%◌, List, ◌++◌, Option, none, some, String, take, replicate, if◌then◌else◌,
}
use ztg.Prelude.Int.{ℤ, pos, pos_part, neg_part, ◌==ℤ◌}
use ztg.Prelude.Int64.{wrap32}
use ztg.Factorfight.Pawn.{
  BumpStatus, no_bump, bumped_peer1, bumped_peer2, bumped_self, unknown, PawnMove,
}
use ztg.Factorfight.Moves.{Move}
use ztg.Factorfight.Print.{optional_string}
use ztg.Dice.Message.{Message}

pub record ProtoPawnMove : Type 0 where
  pub result : ℤ
  pub bump : ℤ
  pub expr : String

pub record ProtoMove : Type 0 where
  pub pawn1 : Option ProtoPawnMove
  pub pawn2 : Option ProtoPawnMove

pub record ProtoDice : Type 0 where
  pub msg_type : ℤ
  pub data' : List ℕ

-- The value of a status: `iota` counts the constants from zero.
abbrev pub bump_code : BumpStatus → ℤ
bump_code no_bump = pos 0
bump_code bumped_peer1 = pos 1
bump_code bumped_peer2 = pos 2
bump_code bumped_self = pos 3
bump_code (unknown n) = n

abbrev pub bump_status : ℤ → BumpStatus
bump_status n =
    if n ==ℤ pos 0
    then no_bump
    else if n ==ℤ pos 1
    then bumped_peer1
    else if n ==ℤ pos 2
    then bumped_peer2
    else if n ==ℤ pos 3
    then bumped_self
    else unknown n

abbrev pub get_result : Option ProtoPawnMove → ℤ
get_result none = pos 0
get_result (some p) = p.result

abbrev pub get_bump : Option ProtoPawnMove → ℤ
get_bump none = pos 0
get_bump (some p) = p.bump

abbrev pub from_proto_pawn : Option ProtoPawnMove → PawnMove
from_proto_pawn p = record { expr = none; result = get_result p; bump = bump_status (get_bump p) }

-- The expression is not read back. An absent move has no pawns.
unfoldable pub from_proto_move : Option ProtoMove → Move
from_proto_move none = record { pawn1 = from_proto_pawn none; pawn2 = from_proto_pawn none }
from_proto_move (some m) = record {
  pawn1 = from_proto_pawn m.pawn1;
  pawn2 = from_proto_pawn m.pawn2;
}

-- `strconv.Itoa` is a parameter.
module _ (itoa : ℤ → String) where
  abbrev pub to_proto_pawn : PawnMove → ProtoPawnMove
  to_proto_pawn p = record {
    result = wrap32 p.result;
    bump = wrap32 (bump_code p.bump);
    expr = optional_string itoa p.expr;
  }

  unfoldable pub to_proto_move : Move → ProtoMove
  to_proto_move m = record {
    pawn1 = some (to_proto_pawn m.pawn1);
    pawn2 = some (to_proto_pawn m.pawn2);
  }

-- `copy` into an array of 32 bytes cuts off what is too long and leaves zeros where it is short.
abbrev pub fixed : List ℕ → List ℕ
fixed data' = take 32 (data' ++ replicate 32 0)

-- The conversion of an `int32` to a `uint8`.
abbrev pub wrap8 : ℤ → ℕ
wrap8 z = (pos_part z + (256 - neg_part z % 256)) % 256

unfoldable pub from_proto_dice : ProtoDice → Message
from_proto_dice m = record { type = wrap8 m.msg_type; data' = fixed m.data' }

unfoldable pub to_proto_dice : Message → ProtoDice
to_proto_dice m = record { msg_type = pos m.type; data' = m.data' }
