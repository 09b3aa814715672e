-- ===== src/Word/Bits.antt =====
-- src/bitutils.h, by the portable code that the compiler's intrinsics stand for.
use libbinrec.Common.{ℕ, ◌+◌, ◌-◌, ◌*◌, ◌/◌, ◌%◌, ◌^◌, bit_and, bit_or, if◌then◌else◌, ◌==◌}
use libbinrec.Word.{u32, u64, u32_mod}
use libbinrec.Word.Endian.{bswap32}

-- (x & hi) >> k | (x & lo) << k
abbrev swap_bits : ℕ → ℕ → ℕ → ℕ → ℕ
swap_bits hi lo k x = bit_or (bit_and x hi / 2 ^ k) (u32 (bit_and x lo * 2 ^ k))

unfoldable pub bitrev32 : ℕ → ℕ
bitrev32 x =
    swap_bits 0xAAAAAAAA 0x55555555 1
      (swap_bits 0xCCCCCCCC 0x33333333 2 (swap_bits 0xF0F0F0F0 0x0F0F0F0F 4 (bswap32 x)))

-- The last test, whose bit is counted without a shift.
unfoldable pub clz32_last : ℕ → ℕ → ℕ
clz32_last count x = if bit_and x 0x80000000 == 0 then count + 1 else count

-- `if (!(x & mask)) { count += k; x <<= k; }`, then the rest of the routine.
unfoldable pub clz32_step : ℕ → ℕ → (ℕ → ℕ → ℕ) → ℕ → ℕ → ℕ
clz32_step mask k rest count x =
    if bit_and x mask == 0 then rest (count + k) (u32 (x * 2 ^ k)) else rest count x

unfoldable pub clz32 : ℕ → ℕ
unfolding clz32_step clz32_last
clz32 x =
    clz32_step 0xFFFF0000 16
      (clz32_step 0xFF000000 8
        (clz32_step 0xF0000000 4 (clz32_step 0xC0000000 2 (clz32_step 0x80000000 1 clz32_last))))
      0 x

unfoldable pub clz64 : ℕ → ℕ
clz64 x = if x / 2 ^ 32 == 0 then 32 + clz32 (u32 x) else clz32 (x / 2 ^ 32)

unfoldable pub ctz32_last : ℕ → ℕ → ℕ
ctz32_last count x = if bit_and x 1 == 0 then count + 1 else count

-- `if (!(x & mask)) { count += k; x >>= k; }`
unfoldable pub ctz32_step : ℕ → ℕ → (ℕ → ℕ → ℕ) → ℕ → ℕ → ℕ
ctz32_step mask k rest count x =
    if bit_and x mask == 0 then rest (count + k) (x / 2 ^ k) else rest count x

unfoldable pub ctz32 : ℕ → ℕ
unfolding ctz32_step ctz32_last
ctz32 x =
    ctz32_step 0xFFFF 16
      (ctz32_step 0xFF 8 (ctz32_step 0xF 4 (ctz32_step 3 2 (ctz32_step 1 1 ctz32_last)))) 0 x

unfoldable pub ctz64 : ℕ → ℕ
ctz64 x = if u32 x == 0 then 32 + ctz32 (u32 (x / 2 ^ 32)) else ctz32 (u32 x)

-- (x & lo) + ((x & hi) >> k)
abbrev fold_counts : ℕ → ℕ → ℕ → ℕ → ℕ
fold_counts lo hi k x = bit_and x lo + bit_and x hi / 2 ^ k

unfoldable pub popcnt32 : ℕ → ℕ
popcnt32 x = fold_counts 0x0000FFFF 0xFFFF0000 16 (
    fold_counts 0x00FF00FF 0xFF00FF00 8 (
      fold_counts 0x0F0F0F0F 0xF0F0F0F0 4
        (fold_counts 0x33333333 0xCCCCCCCC 2 (fold_counts 0x55555555 0xAAAAAAAA 1 x))))

-- `count` is the bit pattern of an int.
unfoldable pub ror32 : ℕ → ℕ → ℕ
ror32 x count = bit_or (x / 2 ^ (count % 32)) (u32 (x * 2 ^ ((u32_mod - u32 count) % 32)))

unfoldable pub ror64 : ℕ → ℕ → ℕ
ror64 x count = bit_or (x / 2 ^ (count % 64)) (u64 (x * 2 ^ ((u32_mod - u32 count) % 64)))
