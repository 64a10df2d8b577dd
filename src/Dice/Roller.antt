-- ===== src/Dice/Roller.antt =====
-- The die itself (dice/roller.go): limits, and the rolls that a hash stands for.
pub mod Faces
pub mod Uniform
use ztg.Prelude.{
  ℕ, zero, suc, ◌+◌, ◌-◌, ◌*◌, ◌/◌, ◌%◌, ◌≤◌, ◌<◌, ◌≡◌, refl, Bool, true, false, ◌&&◌, List, [],
  ◌∷◌, ◌++◌, map, arith, Result, ok, err, panic, if◌then◌else◌, ◌==◌, ltb, leb, length, All, take,
  ==_iff, Bool-cases, inl, inr,
}

-- `^uint16(0)`, which is 2^16 - 1.
abbrev pub max : ℕ
max = 65535

pub record Roller : Type 0 where
  pub sides : ℕ
  pub roll_value_limit : ℕ

pub data RollerError : Type 0 where
  too_many_sides : RollerError

-- With no sides the remainder is a division by zero.
unfoldable pub new_roller : ℕ → Result RollerError Roller
new_roller sides =
    if ltb 20 sides
    then err too_many_sides
    else if sides == 0
    then panic
    else ok (record { sides = sides; roll_value_limit = max - max % sides })

-- The loop over pairs of bytes, with the number of rolls that are still to be written.
unfoldable pub roll_loop : Roller → ℕ → List ℕ → List ℕ
roll_loop r zero sum = []
roll_loop r (suc n) (a ∷ b ∷ sum) =
    let v = a * 256 + b in
    elim (ltb v r.roll_value_limit) [
      | true ↦ (v % r.sides + 1) ∷ roll_loop r n sum
      | false ↦ roll_loop r (suc n) sum
    ]
roll_loop r (suc n) (a ∷ []) = []
roll_loop r (suc n) [] = []

-- Too few values below the limit are a panic: not enough entropy.
unfoldable pub roll {ℓ} : {E : Type ℓ} → Roller → List ℕ → Result E (List ℕ)
roll r sum = let result = roll_loop r 8 sum in if length result == 8 then ok result else panic
