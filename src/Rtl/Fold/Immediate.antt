-- ===== src/Rtl/Fold/Immediate.antt =====
-- convert_to_regimm() of src/rtl-opt.c: a register-register operation on one constant becomes the
-- register-immediate operation.
pub mod Agree
pub mod Sound
use libbinrec.Common.{
  ℕ, ◌+◌, ◌-◌, ◌^◌, ◌==◌, leb, not, ◌&&◌, Bool, true, false, if◌then◌else◌, List, Option, some,
  none, get_elem?, ◌>>=◌,
}
use libbinrec.Word.{u32, u64, u64_mod, neg32}
use libbinrec.Rtl.Opcode.{Opcode, DataType, is_int32, is_constant}
use libbinrec.Rtl.Unit.{Register, Result}
use libbinrec.Rtl.Fold.Constant.{reg_value_i64}

-- The switch: the new opcode and immediate. `const2` is constant_is_src2, `imm` the bit pattern of
-- the immediate, and `too_low` the test on SUB's immediate.
unfoldable pub regimm_op : Opcode → Bool → Bool → ℕ → Option (Opcode × ℕ)
regimm_op Opcode.add const2 too_low imm = some (Opcode.addi, imm)
regimm_op Opcode.sub const2 too_low imm =
    if not const2 then none else if too_low then none else some (Opcode.addi, neg32 imm)
regimm_op Opcode.mul const2 too_low imm = some (Opcode.muli, imm)
regimm_op Opcode.and const2 too_low imm = some (Opcode.andi, imm)
regimm_op Opcode.or const2 too_low imm = some (Opcode.ori, imm)
regimm_op Opcode.xor const2 too_low imm = some (Opcode.xori, imm)
regimm_op Opcode.sll const2 too_low imm = if not const2 then none else some (Opcode.slli, imm)
regimm_op Opcode.srl const2 too_low imm = if not const2 then none else some (Opcode.srli, imm)
regimm_op Opcode.sra const2 too_low imm = if not const2 then none else some (Opcode.srai, imm)
regimm_op Opcode.rol const2 too_low imm = if not const2 then none else some (Opcode.rori, neg32 imm)
regimm_op Opcode.ror const2 too_low imm = if not const2 then none else some (Opcode.rori, imm)
regimm_op Opcode.seq const2 too_low imm = some (Opcode.seqi, imm)
regimm_op Opcode.sltu const2 too_low imm = some (if const2 then Opcode.sltui else Opcode.sgtui, imm)
regimm_op Opcode.slts const2 too_low imm = some (if const2 then Opcode.sltsi else Opcode.sgtsi, imm)
regimm_op Opcode.sgtu const2 too_low imm = some (if const2 then Opcode.sgtui else Opcode.sltui, imm)
regimm_op Opcode.sgts const2 too_low imm = some (if const2 then Opcode.sgtsi else Opcode.sltsi, imm)
regimm_op _ const2 too_low imm = none

-- What is done with the constant operand, of type `imm_type`: `imm64` is its value.
unfoldable pub convert_constant : Register → Bool → DataType → ℕ → Option Result
convert_constant reg const2 imm_type imm64 =
    if not (is_int32 imm_type) && leb (2 ^ 32) (u64 (imm64 + 0x80000000)) then none else (do
      (opcode, imm) ←
          regimm_op reg.result.opcode const2
            (not (is_int32 reg.type) && imm64 == u64_mod - 0x80000000) (u32 imm64)
      some (record (reg.result) {
        opcode = opcode;
        is_imm = true;
        src1 = if const2 then reg.result.src1 else reg.result.src2;
        src_imm = imm;
      }))

-- The register's new `result`, or `none` where the function returns false and changes nothing.
unfoldable pub convert_to_regimm : List Register → Register → Option Result
convert_to_regimm regs reg = do
  src1_reg ← get_elem? regs reg.result.src1
  src2_reg ← get_elem? regs reg.result.src2
  if is_constant src1_reg.source
      then convert_constant reg false src1_reg.type (reg_value_i64 src1_reg.type src1_reg.value)
      else convert_constant reg true src2_reg.type (reg_value_i64 src2_reg.type src2_reg.value)
