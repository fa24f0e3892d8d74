-- ===== src/Base/Word.antt =====
-- Unsigned 32-bit words with their wrap-around, and the minimum and maximum of common/math_helper.h.
-- An `int` behind an `atomic_t` is kept as the bit pattern of its two's complement.
use Prim.Native.Nat.{ℕ, ◌+◌, ◌-◌, ◌*◌, ◌%◌, min}
use mathlib.Core.Path.{◌≡◌}
use native.Mathlib.Omega.{arith}
use esdm.Base.Tests.{ltb, if◌then◌else◌}

abbrev pub u32_mod : ℕ
u32_mod = 4294967296

abbrev pub uint32_max : ℕ
uint32_max = 4294967295

abbrev pub add_u32 : ℕ → ℕ → ℕ
add_u32 a b = (a + b) % 4294967296

abbrev pub sub_u32 : ℕ → ℕ → ℕ
sub_u32 a b = (a + 4294967296 - b) % 4294967296

abbrev pub mul_u32 : ℕ → ℕ → ℕ
mul_u32 a b = a * b % 4294967296

abbrev pub min_uint32 : ℕ → ℕ → ℕ
min_uint32 a b = if ltb a b then a else b

abbrev pub max_uint32 : ℕ → ℕ → ℕ
max_uint32 a b = if ltb b a then a else b

-- `min_uint32`, `min_uint64` and `min_size` compute the minimum.
pub min_uint32-min : (a b : ℕ) → min_uint32 a b ≡ min a b
min_uint32-min a b = ground arith
