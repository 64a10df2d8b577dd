-- ===== src/Prelude/Int64.antt =====
-- Go's `int` (64 bits) and `int32`: two's complement with wrap-around.
use Prim.Native.Nat.{ℕ, ◌+◌, ◌-◌, ◌%◌, ◌^◌, ◌≤◌, ◌<◌}
use mathlib.Core.Path.{◌≡◌}
use native.Mathlib.Omega.{arith}
use ztg.Prelude.Tests.{ltb, if◌then◌else◌}
use ztg.Prelude.Int.{ℤ, pos, negsuc, pos_part, neg_part}

-- The residue of an integer modulo 2 ^ 64, and the signed number that such a pattern stands for.
abbrev pub residue64 : ℤ → ℕ
residue64 z = (pos_part z + (2 ^ 64 - neg_part z % 2 ^ 64)) % 2 ^ 64

abbrev pub signed64 : ℕ → ℤ
signed64 w = if ltb w (2 ^ 63) then pos w else negsuc (2 ^ 64 - w - 1)

unfoldable pub wrap64 : ℤ → ℤ
wrap64 z = signed64 (residue64 z)

-- The conversion `int32(x)`.
abbrev pub residue32 : ℤ → ℕ
residue32 z = (pos_part z + (2 ^ 32 - neg_part z % 2 ^ 32)) % 2 ^ 32

abbrev pub signed32 : ℕ → ℤ
signed32 w = if ltb w (2 ^ 31) then pos w else negsuc (2 ^ 32 - w - 1)

unfoldable pub wrap32 : ℤ → ℤ
wrap32 z = signed32 (residue32 z)

abbrev pub Fits64 : ℤ → Type 0
Fits64 z = (pos_part z < 2 ^ 63) × (neg_part z ≤ 2 ^ 63)

abbrev pub Fits32 : ℤ → Type 0
Fits32 z = (pos_part z < 2 ^ 31) × (neg_part z ≤ 2 ^ 31)

pub wrap64_fits : (z : ℤ) → Fits64 z → wrap64 z ≡ z
unfolding wrap64
wrap64_fits (pos n) h = ground arith
wrap64_fits (negsuc n) h = ground arith

pub wrap32_fits : (z : ℤ) → Fits32 z → wrap32 z ≡ z
unfolding wrap32
wrap32_fits (pos n) h = ground arith
wrap32_fits (negsuc n) h = ground arith

pub wrap64-Fits64 : (z : ℤ) → Fits64 (wrap64 z)
unfolding wrap64
wrap64-Fits64 z = ground arith

pub wrap32-Fits32 : (z : ℤ) → Fits32 (wrap32 z)
unfolding wrap32
wrap32-Fits32 z = ground arith
