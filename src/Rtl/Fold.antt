-- ===== src/Rtl/Fold.antt =====
-- fold_constant() of src/rtl-opt.c: the value of an operation on constants, one function for each
-- case of its switch. `is32` is the test `src1->type == RTLTYPE_INT32`, `a` and `b` are the values
-- of src1 and src2, and `imm` is the bit pattern of the int32_t immediate. The result is the uint64_t
-- that the function returns, and `none` where C leaves the shift undefined.
pub mod Float
pub mod Constant
pub mod Immediate
use libbinrec.Common.{
  ℕ, ◌+◌, ◌-◌, ◌*◌, ◌/◌, ◌%◌, ◌^◌, bit_and, bit_or, bit_xor, Bool, true, false, if◌then◌else◌, ltb,
  ◌==◌, ◌&&◌, bool_to_ℕ, Option, some, none, ◌>>=◌, ℤ, ltb_ℤ, shr_ℤ, quot_ℤ, rem_ℤ, ◌*ℤ◌,
}
use libbinrec.Word.{u32, u64, u32_mod, u64_mod, neg32, neg64, signed, u64_of, shl, shr}
use libbinrec.Word.Bits.{clz32, clz64, ror32, ror64}
use libbinrec.Word.Endian.{bswap32, bswap64}
use libbinrec.Rtl.Mulh.{mulh64}

unfoldable pub fold_scast : Bool → ℕ → ℕ
fold_scast is32 a = if is32 then u64_of (signed 32 a) else a

unfoldable pub fold_zcast : Bool → ℕ → ℕ
fold_zcast is32 a = if is32 then u32 a else a

unfoldable pub fold_sext8 : ℕ → ℕ
fold_sext8 a = u64_of (signed 8 a)

unfoldable pub fold_sext16 : ℕ → ℕ
fold_sext16 a = u64_of (signed 16 a)

unfoldable pub fold_add : Bool → ℕ → ℕ → ℕ
fold_add is32 a b = if is32 then u32 (u32 a + u32 b) else u64 (a + b)

unfoldable pub fold_sub : Bool → ℕ → ℕ → ℕ
fold_sub is32 a b = if is32 then u32 (u32 a + neg32 (u32 b)) else u64 (a + neg64 b)

unfoldable pub fold_neg : Bool → ℕ → ℕ
fold_neg is32 a = if is32 then neg32 (u32 a) else neg64 a

unfoldable pub fold_mul : Bool → ℕ → ℕ → ℕ
fold_mul is32 a b = if is32 then u32 (u32 a * u32 b) else u64 (a * b)

unfoldable pub fold_mulhu : Bool → ℕ → ℕ → ℕ
fold_mulhu is32 a b = if is32 then u32 a * u32 b / 2 ^ 32 else mulh64 a b false

unfoldable pub fold_mulhs : Bool → ℕ → ℕ → ℕ
fold_mulhs is32 a b =
    if is32 then u64_of (shr_ℤ (signed 32 a *ℤ signed 32 b) 32) else mulh64 a b true

unfoldable pub fold_divu : Bool → ℕ → ℕ → ℕ
fold_divu is32 a b =
    if is32 then (if u32 b == 0 then 0 else u32 a / u32 b) else if b == 0 then 0 else a / b

unfoldable pub fold_divs : Bool → ℕ → ℕ → ℕ
fold_divs is32 a b =
    if is32
    then (if u32 b == 0
        then 0
        else if u32 a == 0x80000000 && u32 b == 0xFFFFFFFF
        then 0x80000000
        else u64_of (quot_ℤ (signed 32 a) (signed 32 b)))
    else if b == 0
    then 0
    else if a == 2 ^ 63 && b == u64_mod - 1
    then 2 ^ 63
    else u64_of (quot_ℤ (signed 64 a) (signed 64 b))

unfoldable pub fold_modu : Bool → ℕ → ℕ → ℕ
fold_modu is32 a b =
    if is32 then (if u32 b == 0 then 0 else u32 a % u32 b) else if b == 0 then 0 else a % b

unfoldable pub fold_mods : Bool → ℕ → ℕ → ℕ
fold_mods is32 a b =
    if is32
    then (if u32 b == 0
        then 0
        else if u32 a == 0x80000000 && u32 b == 0xFFFFFFFF
        then 0
        else u64_of (rem_ℤ (signed 32 a) (signed 32 b)))
    else if b == 0
    then 0
    else if a == 2 ^ 63 && b == u64_mod - 1
    then 0
    else u64_of (rem_ℤ (signed 64 a) (signed 64 b))

unfoldable pub fold_and : ℕ → ℕ → ℕ
fold_and a b = bit_and a b

unfoldable pub fold_or : ℕ → ℕ → ℕ
fold_or a b = bit_or a b

unfoldable pub fold_xor : ℕ → ℕ → ℕ
fold_xor a b = bit_xor a b

unfoldable pub fold_not : Bool → ℕ → ℕ
fold_not is32 a = if is32 then u32_mod - 1 - u32 a else u64_mod - 1 - a

unfoldable pub fold_sll : Bool → ℕ → ℕ → Option ℕ
fold_sll is32 a b = if is32 then shl 32 (u32 a) b else shl 64 a b

unfoldable pub fold_srl : Bool → ℕ → ℕ → Option ℕ
fold_srl is32 a b = if is32 then shr 32 (u32 a) b else shr 64 a b

-- `x >> n` for a signed w-bit x.
abbrev sar : ℕ → ℤ → ℕ → Option ℕ
sar w x n = if ltb n w then some (u64_of (shr_ℤ x n)) else none

unfoldable pub fold_sra : Bool → ℕ → ℕ → Option ℕ
fold_sra is32 a b = if is32 then sar 32 (signed 32 a) b else sar 64 (signed 64 a) b

unfoldable pub fold_rol : Bool → ℕ → ℕ → ℕ
fold_rol is32 a b = if is32 then ror32 (u32 a) (neg32 (u32 b)) else ror64 a (neg32 (u32 b))

unfoldable pub fold_ror : Bool → ℕ → ℕ → ℕ
fold_ror is32 a b = if is32 then ror32 (u32 a) (u32 b) else ror64 a (u32 b)

unfoldable pub fold_clz : Bool → ℕ → ℕ
fold_clz is32 a = if is32 then clz32 (u32 a) else clz64 a

unfoldable pub fold_bswap : Bool → ℕ → ℕ
fold_bswap is32 a = if is32 then bswap32 (u32 a) else bswap64 a

unfoldable pub fold_seq : Bool → ℕ → ℕ → ℕ
fold_seq is32 a b = if is32 then bool_to_ℕ (u32 a == u32 b) else bool_to_ℕ (a == b)

unfoldable pub fold_sltu : Bool → ℕ → ℕ → ℕ
fold_sltu is32 a b = if is32 then bool_to_ℕ (ltb (u32 a) (u32 b)) else bool_to_ℕ (ltb a b)

unfoldable pub fold_slts : Bool → ℕ → ℕ → ℕ
fold_slts is32 a b =
    if is32
    then bool_to_ℕ (ltb_ℤ (signed 32 a) (signed 32 b))
    else bool_to_ℕ (ltb_ℤ (signed 64 a) (signed 64 b))

unfoldable pub fold_sgtu : Bool → ℕ → ℕ → ℕ
fold_sgtu is32 a b = if is32 then bool_to_ℕ (ltb (u32 b) (u32 a)) else bool_to_ℕ (ltb b a)

unfoldable pub fold_sgts : Bool → ℕ → ℕ → ℕ
fold_sgts is32 a b =
    if is32
    then bool_to_ℕ (ltb_ℤ (signed 32 b) (signed 32 a))
    else bool_to_ℕ (ltb_ℤ (signed 64 b) (signed 64 a))

-- `((1 << count) - 1)`, for a w-bit 1.
abbrev low_mask : ℕ → ℕ → Option ℕ
low_mask w count = do ones ← shl w 1 count; some ((ones + 2 ^ w - 1) % 2 ^ w)

unfoldable pub fold_bfext : Bool → ℕ → ℕ → ℕ → Option ℕ
fold_bfext is32 a start count =
    if is32
    then (do shifted ← shr 32 (u32 a) start; mask ← low_mask 32 count; some (bit_and shifted mask))
    else (do shifted ← shr 64 a start; mask ← low_mask 64 count; some (bit_and shifted mask))

unfoldable pub fold_bfins : Bool → ℕ → ℕ → ℕ → ℕ → Option ℕ
fold_bfins is32 a b start count =
    if is32
    then (do
      low ← low_mask 32 count
      mask ← shl 32 low start
      inserted ← shl 64 b start
      some (bit_or (bit_and a (u32_mod - 1 - mask)) (bit_and inserted mask)))
    else (do
      low ← low_mask 64 count
      mask ← shl 64 low start
      inserted ← shl 64 b start
      some (bit_or (bit_and a (u64_mod - 1 - mask)) (bit_and inserted mask)))

unfoldable pub fold_addi : Bool → ℕ → ℕ → ℕ
fold_addi is32 a imm = if is32 then u32 (u32 a + imm) else u64 (a + u64_of (signed 32 imm))

unfoldable pub fold_muli : Bool → ℕ → ℕ → ℕ
fold_muli is32 a imm = if is32 then u32 (u32 a * imm) else u64 (a * u64_of (signed 32 imm))

unfoldable pub fold_andi : Bool → ℕ → ℕ → ℕ
fold_andi is32 a imm = if is32 then bit_and (u32 a) imm else bit_and a (u64_of (signed 32 imm))

unfoldable pub fold_ori : Bool → ℕ → ℕ → ℕ
fold_ori is32 a imm = if is32 then bit_or (u32 a) imm else bit_or a (u64_of (signed 32 imm))

unfoldable pub fold_xori : Bool → ℕ → ℕ → ℕ
fold_xori is32 a imm = if is32 then bit_xor (u32 a) imm else bit_xor a (u64_of (signed 32 imm))

unfoldable pub fold_slli : Bool → ℕ → ℕ → Option ℕ
fold_slli is32 a imm = if is32 then shl 32 (u32 a) imm else shl 64 a imm

unfoldable pub fold_srli : Bool → ℕ → ℕ → Option ℕ
fold_srli is32 a imm = if is32 then shr 32 (u32 a) imm else shr 64 a imm

unfoldable pub fold_srai : Bool → ℕ → ℕ → Option ℕ
fold_srai is32 a imm = if is32 then sar 32 (signed 32 a) imm else sar 64 (signed 64 a) imm

unfoldable pub fold_rori : Bool → ℕ → ℕ → ℕ
fold_rori is32 a imm = if is32 then ror32 (u32 a) imm else ror64 a imm

unfoldable pub fold_seqi : Bool → ℕ → ℕ → ℕ
fold_seqi is32 a imm =
    if is32 then bool_to_ℕ (u32 a == imm) else bool_to_ℕ (a == u64_of (signed 32 imm))

unfoldable pub fold_sltui : Bool → ℕ → ℕ → ℕ
fold_sltui is32 a imm =
    if is32 then bool_to_ℕ (ltb (u32 a) imm) else bool_to_ℕ (ltb a (u64_of (signed 32 imm)))

unfoldable pub fold_sltsi : Bool → ℕ → ℕ → ℕ
fold_sltsi is32 a imm =
    if is32
    then bool_to_ℕ (ltb_ℤ (signed 32 a) (signed 32 imm))
    else bool_to_ℕ (ltb_ℤ (signed 64 a) (signed 32 imm))

unfoldable pub fold_sgtui : Bool → ℕ → ℕ → ℕ
fold_sgtui is32 a imm =
    if is32 then bool_to_ℕ (ltb imm (u32 a)) else bool_to_ℕ (ltb (u64_of (signed 32 imm)) a)

unfoldable pub fold_sgtsi : Bool → ℕ → ℕ → ℕ
fold_sgtsi is32 a imm =
    if is32
    then bool_to_ℕ (ltb_ℤ (signed 32 imm) (signed 32 a))
    else bool_to_ℕ (ltb_ℤ (signed 32 imm) (signed 64 a))
