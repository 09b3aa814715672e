-- ===== src/Tests/Words.antt =====
-- Runs of the word operations and of mulh64().
use libbinrec.Common.{ℕ, ◌*◌, ◌/◌, ◌%◌, ◌+◌, ◌-◌, ◌^◌, ◌<◌, ◌≡◌, refl, arith, true, false, ◌↔◌}
use libbinrec.Word.{u64_mod}
use libbinrec.Word.Bits.{clz32, clz32_step, clz32_last}
use libbinrec.Word.Endian.{bswap32}
use libbinrec.Word.Clz.{LeadingZeros, clz32-LeadingZeros}
use libbinrec.Word.Bswap.{bswap32-bswap32}
use libbinrec.Rtl.Mulh.{middle, mulh64_abs, sext128, mulh64, mulh64_unsigned_iff, mulh64_signed}

abbrev sample : ℕ
sample = 0x12345678

clz32_run : clz32 0x00012345 ≡ 15
unfolding clz32 clz32_step clz32_last
clz32_run = refl

bswap32_run : bswap32 sample ≡ 0x78563412
unfolding bswap32
bswap32_run = refl

clz32-LeadingZeros_example : LeadingZeros sample (clz32 sample)
clz32-LeadingZeros_example = clz32-LeadingZeros sample (omega arith) (omega arith)

bswap32-bswap32_example : bswap32 (bswap32 sample) ≡ sample
bswap32-bswap32_example = bswap32-bswap32 sample (omega arith)

mulh64_unsigned_iff_example :
    (mulh64 (2 ^ 33) (2 ^ 40) false ≡ 2 ^ 33 * 2 ^ 40 / 2 ^ 64)
    ↔ (middle (2 ^ 33) (2 ^ 40) < 2 ^ 64)
mulh64_unsigned_iff_example = mulh64_unsigned_iff (2 ^ 33) (2 ^ 40) (omega arith) (omega arith)

-- (2^64 - 1)^2 / 2^64 is 2^64 - 2, and the code gives 2^32 less.
mulh64_short : mulh64 (u64_mod - 1) (u64_mod - 1) false ≡ u64_mod - 2 - 2 ^ 32
unfolding mulh64 mulh64_abs
mulh64_short = refl

mulh64_signed_example :
    2 ^ 64 * mulh64 (u64_mod - 3) 5 true + (u64_mod - 3) * 5 % 2 ^ 64
    ≡ sext128 (u64_mod - 3) * sext128 5 % 2 ^ 128
mulh64_signed_example = mulh64_signed (u64_mod - 3) 5 (omega arith) (omega arith) (ground arith)
