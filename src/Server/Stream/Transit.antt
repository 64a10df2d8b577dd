-- ===== src/Server/Stream/Transit.antt =====
-- What of a move and of a message of the dice protocol survives the way to the other player.
use ztg.Prelude.{
  ℕ, zero, suc, ◌<◌, ◌≡◌, refl, ◌↔◌, List, [], ◌∷◌, ◌++◌, some, String, arith, take, replicate,
  length, true,
}
use ztg.Prelude.Int.{ℤ, pos, ==ℤ_iff, ◌==ℤ◌}
use ztg.Prelude.Int64.{wrap32, Fits32, wrap32_fits, wrap32-Fits32}
use ztg.Factorfight.Pawn.{BumpStatus, no_bump, bumped_peer1, bumped_peer2, bumped_self, unknown}
use ztg.Factorfight.Moves.{Move}
use ztg.Factorfight.Session.{same_move, bump_eq}
use ztg.Dice.Message.{Message}
use ztg.Server.Stream.Convert.{
  wrap8, from_proto_move, to_proto_move, bump_code, bump_status, fixed, from_proto_dice,
  to_proto_dice,
}

-- One of the four statuses of the program.
abbrev pub IsKnown : BumpStatus → Type 0
IsKnown (unknown _) = ⊥
IsKnown _ = Unit {0}

known_bump : (b : BumpStatus) → IsKnown b → bump_eq b (bump_status (wrap32 (bump_code b))) ≡ true
unfolding wrap32
known_bump no_bump k = refl
known_bump bumped_peer1 k = refl
known_bump bumped_peer2 k = refl
known_bump bumped_self k = refl
known_bump (unknown n) k = absurd k

same_result : (z : ℤ) → ((z ==ℤ wrap32 z) ≡ true) ↔ Fits32 z
same_result z = (there, back)
  where
    there : (z ==ℤ wrap32 z) ≡ true → Fits32 z
    there h = let e : z ≡ wrap32 z = (==ℤ_iff z (wrap32 z)).0 h in rw e (wrap32-Fits32 z)

    back : Fits32 z → (z ==ℤ wrap32 z) ≡ true
    back f = rw (wrap32_fits z f) ((==ℤ_iff z z).1 refl)

-- A move that is sent arrives as one that passes for it exactly if both positions fit an `int32`.
pub from_proto_move-to_proto_move :
    (itoa : ℤ → String) (m : Move)
    → IsKnown m.pawn1.bump
    → IsKnown m.pawn2.bump
    → (same_move (from_proto_move (some (to_proto_move itoa m))) m ≡ true)
      ↔ (Fits32 m.pawn1.result × Fits32 m.pawn2.result)
unfolding same_move from_proto_move to_proto_move
from_proto_move-to_proto_move itoa m k1 k2 = ground (
  arith,
  same_result m.pawn1.result,
  same_result m.pawn2.result,
  known_bump m.pawn1.bump k1,
  known_bump m.pawn2.bump k2,
)

take-all : (xs ys : List ℕ) (n : ℕ) → length xs ≡ n → take n (xs ++ ys) ≡ xs
take-all [] [] zero h = refl
take-all [] (_ ∷ _) zero h = refl
take-all (x ∷ xs) ys zero h = absurd (omega arith)
take-all [] ys (suc n) h = absurd (omega arith)
take-all (x ∷ xs) ys (suc n) h = rw (take-all xs ys n (omega arith))

-- A message of the dice protocol with a type of one byte and 32 bytes of data arrives as it is sent.
from_proto_dice-to_proto_dice :
    (m : Message) → m.type < 256 → length m.data' ≡ 32 → from_proto_dice (to_proto_dice m) ≡ m
unfolding from_proto_dice to_proto_dice
from_proto_dice-to_proto_dice m h k =
    let t : wrap8 (pos m.type) ≡ m.type = omega arith in
    let d : fixed m.data' ≡ m.data' = take-all m.data' (replicate 32 0) 32 k in rw (t, d)
