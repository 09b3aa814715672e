-- ===== src/Word.antt =====
-- Machine integers: a uint32_t or uint64_t is a number below 2 ^ 32 or 2 ^ 64, and a signed one is
-- its two's-complement pattern (README: "The environment uses two's-complement representations").
pub mod Bits
pub mod Endian
pub mod Laws
pub mod Masks
pub mod Clz
pub mod Bswap
use libbinrec.Common.{
  ℕ, suc, ◌+◌, ◌-◌, ◌*◌, ◌/◌, ◌%◌, ◌^◌, ltb, if◌then◌else◌, ℤ, pos, negsuc, Option, some, none,
}

abbrev pub u32_mod : ℕ
u32_mod = 2 ^ 32

abbrev pub u64_mod : ℕ
u64_mod = 2 ^ 64

-- (uint32_t)x and (uint64_t)x
abbrev pub u32 : ℕ → ℕ
u32 x = x % u32_mod

abbrev pub u64 : ℕ → ℕ
u64 x = x % u64_mod

-- -x
abbrev pub neg64 : ℕ → ℕ
neg64 x = (u64_mod - x) % u64_mod

abbrev pub neg32 : ℕ → ℕ
neg32 x = (u32_mod - x) % u32_mod

-- The integer that the low w bits of x stand for: (int8_t)x, (int16_t)x, (int32_t)x, (int64_t)x.
abbrev pub signed : ℕ → ℕ → ℤ
signed w x = if ltb (x % 2 ^ w) (2 ^ w / 2) then pos (x % 2 ^ w) else negsuc (2 ^ w - 1 - x % 2 ^ w)

-- The conversion of a signed value to uint64_t.
abbrev pub u64_of : ℤ → ℕ
u64_of (pos n) = n % u64_mod
u64_of (negsuc n) = u64_mod - 1 - n % u64_mod

-- `x << n` and `x >> n` for a w-bit unsigned x: undefined in C unless n < w.
abbrev pub shl : ℕ → ℕ → ℕ → Option ℕ
shl w x n = if ltb n w then some (x * 2 ^ n % 2 ^ w) else none

abbrev pub shr : ℕ → ℕ → ℕ → Option ℕ
shr w x n = if ltb n w then some (x / 2 ^ n) else none
