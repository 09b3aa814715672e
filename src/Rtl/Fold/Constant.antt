-- ===== src/Rtl/Fold/Constant.antt =====
-- fold_constant() of src/rtl-opt.c: its switch, which calls the operations of `Fold` and `Float`.
use libbinrec.Common.{ℕ, List, Option, some, none, get_elem?, ◌>>=◌, ◌%◌, ◌^◌}
use libbinrec.Rtl.Opcode.{Opcode, DataType, is_int32, is_float32}
use libbinrec.Rtl.Unit.{Register, Result}
use libbinrec.Rtl.Fold
use libbinrec.Rtl.Fold.Float
use libbinrec.Rtl.Fold.Float.{Fp}

-- reg_value_i64()
unfoldable pub reg_value_i64 : DataType → ℕ → ℕ
reg_value_i64 DataType.float32 value = value % 2 ^ 32
reg_value_i64 _ value = value

-- The value of an operand. An operation without a second or third operand has no register there, and
-- its case does not read what stands for it.
abbrev value_at : List Register → ℕ → ℕ
value_at regs i = elim (get_elem? regs i) [ some operand ↦ operand.value | none ↦ 0 ]

module _ (fp : Fp) where
  -- `type` is the result's type, `src_type` is src1's; a, b and c are the values of the operands.
  -- The opcodes that "never appear here" log an error and give 0.
  unfoldable pub fold_op : Opcode → Result → DataType → DataType → ℕ → ℕ → ℕ → Option ℕ
  fold_op Opcode.move r type src_type a b c = some (reg_value_i64 src_type a)
  fold_op Opcode.scast r type src_type a b c = some (Fold.fold_scast (is_int32 src_type) a)
  fold_op Opcode.zcast r type src_type a b c = some (Fold.fold_zcast (is_int32 src_type) a)
  fold_op Opcode.neg r type src_type a b c = some (Fold.fold_neg (is_int32 src_type) a)
  fold_op Opcode.not r type src_type a b c = some (Fold.fold_not (is_int32 src_type) a)
  fold_op Opcode.clz r type src_type a b c = some (Fold.fold_clz (is_int32 src_type) a)
  fold_op Opcode.bswap r type src_type a b c = some (Fold.fold_bswap (is_int32 src_type) a)
  fold_op Opcode.sext8 r type src_type a b c = some (Fold.fold_sext8 a)
  fold_op Opcode.sext16 r type src_type a b c = some (Fold.fold_sext16 a)
  fold_op Opcode.add r type src_type a b c = some (Fold.fold_add (is_int32 src_type) a b)
  fold_op Opcode.sub r type src_type a b c = some (Fold.fold_sub (is_int32 src_type) a b)
  fold_op Opcode.mul r type src_type a b c = some (Fold.fold_mul (is_int32 src_type) a b)
  fold_op Opcode.mulhu r type src_type a b c = some (Fold.fold_mulhu (is_int32 src_type) a b)
  fold_op Opcode.mulhs r type src_type a b c = some (Fold.fold_mulhs (is_int32 src_type) a b)
  fold_op Opcode.divu r type src_type a b c = some (Fold.fold_divu (is_int32 src_type) a b)
  fold_op Opcode.divs r type src_type a b c = some (Fold.fold_divs (is_int32 src_type) a b)
  fold_op Opcode.modu r type src_type a b c = some (Fold.fold_modu (is_int32 src_type) a b)
  fold_op Opcode.mods r type src_type a b c = some (Fold.fold_mods (is_int32 src_type) a b)
  fold_op Opcode.rol r type src_type a b c = some (Fold.fold_rol (is_int32 src_type) a b)
  fold_op Opcode.ror r type src_type a b c = some (Fold.fold_ror (is_int32 src_type) a b)
  fold_op Opcode.seq r type src_type a b c = some (Fold.fold_seq (is_int32 src_type) a b)
  fold_op Opcode.sltu r type src_type a b c = some (Fold.fold_sltu (is_int32 src_type) a b)
  fold_op Opcode.slts r type src_type a b c = some (Fold.fold_slts (is_int32 src_type) a b)
  fold_op Opcode.sgtu r type src_type a b c = some (Fold.fold_sgtu (is_int32 src_type) a b)
  fold_op Opcode.sgts r type src_type a b c = some (Fold.fold_sgts (is_int32 src_type) a b)
  fold_op Opcode.and r type src_type a b c = some (Fold.fold_and a b)
  fold_op Opcode.or r type src_type a b c = some (Fold.fold_or a b)
  fold_op Opcode.xor r type src_type a b c = some (Fold.fold_xor a b)
  fold_op Opcode.sll r type src_type a b c = Fold.fold_sll (is_int32 src_type) a b
  fold_op Opcode.srl r type src_type a b c = Fold.fold_srl (is_int32 src_type) a b
  fold_op Opcode.sra r type src_type a b c = Fold.fold_sra (is_int32 src_type) a b
  fold_op Opcode.bfext r type src_type a b c = Fold.fold_bfext (is_int32 src_type) a r.start r.count
  fold_op Opcode.bfins r type src_type a b c =
      Fold.fold_bfins (is_int32 src_type) a b r.start r.count
  fold_op Opcode.addi r type src_type a b c = some (Fold.fold_addi (is_int32 src_type) a r.src_imm)
  fold_op Opcode.muli r type src_type a b c = some (Fold.fold_muli (is_int32 src_type) a r.src_imm)
  fold_op Opcode.andi r type src_type a b c = some (Fold.fold_andi (is_int32 src_type) a r.src_imm)
  fold_op Opcode.ori r type src_type a b c = some (Fold.fold_ori (is_int32 src_type) a r.src_imm)
  fold_op Opcode.xori r type src_type a b c = some (Fold.fold_xori (is_int32 src_type) a r.src_imm)
  fold_op Opcode.rori r type src_type a b c = some (Fold.fold_rori (is_int32 src_type) a r.src_imm)
  fold_op Opcode.seqi r type src_type a b c = some (Fold.fold_seqi (is_int32 src_type) a r.src_imm)
  fold_op Opcode.sltui r type src_type a b c =
      some (Fold.fold_sltui (is_int32 src_type) a r.src_imm)
  fold_op Opcode.sltsi r type src_type a b c =
      some (Fold.fold_sltsi (is_int32 src_type) a r.src_imm)
  fold_op Opcode.sgtui r type src_type a b c =
      some (Fold.fold_sgtui (is_int32 src_type) a r.src_imm)
  fold_op Opcode.sgtsi r type src_type a b c =
      some (Fold.fold_sgtsi (is_int32 src_type) a r.src_imm)
  fold_op Opcode.slli r type src_type a b c = Fold.fold_slli (is_int32 src_type) a r.src_imm
  fold_op Opcode.srli r type src_type a b c = Fold.fold_srli (is_int32 src_type) a r.src_imm
  fold_op Opcode.srai r type src_type a b c = Fold.fold_srai (is_int32 src_type) a r.src_imm
  fold_op Opcode.bitcast r type src_type a b c = some (Float.fold_bitcast (is_float32 src_type) a)
  fold_op Opcode.fneg r type src_type a b c = some (Float.fold_fneg (is_float32 src_type) a)
  fold_op Opcode.fabs r type src_type a b c = some (Float.fold_fabs (is_float32 src_type) a)
  fold_op Opcode.fnabs r type src_type a b c = some (Float.fold_fnabs (is_float32 src_type) a)
  fold_op Opcode.fcvt r type src_type a b c = some (Float.fold_fcvt fp (is_float32 src_type) a)
  fold_op Opcode.fsqrt r type src_type a b c = some (Float.fold_fsqrt fp (is_float32 src_type) a)
  fold_op Opcode.fscast r type src_type a b c =
      some (Float.fold_fscast fp (is_int32 src_type) (is_float32 type) a)
  fold_op Opcode.fzcast r type src_type a b c =
      some (Float.fold_fzcast fp (is_int32 src_type) (is_float32 type) a)
  fold_op Opcode.froundi r type src_type a b c =
      some (Float.fold_froundi fp (is_float32 src_type) (is_int32 type) a)
  fold_op Opcode.ftrunci r type src_type a b c =
      some (Float.fold_ftrunci fp (is_float32 src_type) (is_int32 type) a)
  fold_op Opcode.fadd r type src_type a b c = some (Float.fold_fadd fp (is_float32 src_type) a b)
  fold_op Opcode.fsub r type src_type a b c = some (Float.fold_fsub fp (is_float32 src_type) a b)
  fold_op Opcode.fmul r type src_type a b c = some (Float.fold_fmul fp (is_float32 src_type) a b)
  fold_op Opcode.fdiv r type src_type a b c = some (Float.fold_fdiv fp (is_float32 src_type) a b)
  fold_op Opcode.fcmp r type src_type a b c =
      some (Float.fold_fcmp fp (is_float32 src_type) r.fcmp a b)
  fold_op Opcode.fmadd r type src_type a b c =
      some (Float.fold_fmadd fp (is_float32 src_type) a b c)
  fold_op Opcode.fmsub r type src_type a b c =
      some (Float.fold_fmsub fp (is_float32 src_type) a b c)
  fold_op Opcode.fnmadd r type src_type a b c =
      some (Float.fold_fnmadd fp (is_float32 src_type) a b c)
  fold_op Opcode.fnmsub r type src_type a b c =
      some (Float.fold_fnmsub fp (is_float32 src_type) a b c)
  fold_op _ r type src_type a b c = some 0

  -- The result of the operation that sets a register, from the registers that hold its operands.
  unfoldable pub fold_constant : List Register → Register → Option ℕ
  fold_constant regs reg = do
    src1 ← get_elem? regs reg.result.src1
    fold_op reg.result.opcode reg.result reg.type src1.type src1.value
        (value_at regs reg.result.src2) (value_at regs reg.result.src3)
