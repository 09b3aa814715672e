-- ===== src/Rtl/Builder/Encoders/Alu.antt =====
-- The integer encoders.
use libbinrec.Common.{ℕ, Bool, refl, arith}
use libbinrec.Rtl.Opcode.{Opcode, RegType}
use libbinrec.Rtl.Unit.{Insn, RtlUnit}
use libbinrec.Rtl.Unit.Access.{blank_insn, set_src_imm}
use libbinrec.Rtl.Insn.{result_1, result_2, result_imm}
use libbinrec.Rtl.Insn.Flow.{from_option}
use libbinrec.Rtl.Insn.Alu.{
  make_intcast, make_alu_1op, make_alu_2op, make_shift, make_alu_imm, make_clz, make_cmp,
  make_cmp_imm, make_bitcast,
}
use libbinrec.Rtl.Builder.Effect.{Effect, Plain, InUnit}
use libbinrec.Rtl.Builder.Encoders.{unary, binary, nth, source-Setting}

module _ (checks : Bool) (u : RtlUnit) (op : Opcode) (plain : Plain op) (dest src1 src2 other : ℕ)
    (lt : InUnit u dest src1 src2) where
  abbrev slot : Insn
  slot = record blank_insn { opcode = op }

  pub make_intcast-Effect :
      Effect checks u (from_option (make_intcast checks u slot dest src1 src2 other))
  unfolding make_intcast
  make_intcast-Effect =
      unary checks u _ _ _ plain (lt.0, lt.1, omega (arith, lt))
        (source-Setting u dest RegType.result (result_1 slot src1) refl) refl (nth _ 2) (nth _ 3)

  pub make_alu_1op-Effect :
      Effect checks u (from_option (make_alu_1op checks u slot dest src1 src2 other))
  unfolding make_alu_1op
  make_alu_1op-Effect =
      unary checks u _ _ _ plain (lt.0, lt.1, omega (arith, lt))
        (source-Setting u dest RegType.result (result_1 slot src1) refl) refl (nth _ 2) (nth _ 3)

  pub make_alu_2op-Effect :
      Effect checks u (from_option (make_alu_2op checks u slot dest src1 src2 other))
  unfolding make_alu_2op
  make_alu_2op-Effect =
      binary checks u _ _ _ plain lt
        (source-Setting u dest RegType.result (result_2 slot src1 src2) refl) (nth _ 3) (nth _ 4)
        (nth _ 5)

  pub make_shift-Effect :
      Effect checks u (from_option (make_shift checks u slot dest src1 src2 other))
  unfolding make_shift
  make_shift-Effect =
      binary checks u _ _ _ plain lt
        (source-Setting u dest RegType.result (result_2 slot src1 src2) refl) (nth _ 3) (nth _ 4)
        (nth _ 5)

  pub make_alu_imm-Effect :
      Effect checks u (from_option (make_alu_imm checks u slot dest src1 src2 other))
  unfolding make_alu_imm set_src_imm
  make_alu_imm-Effect =
      unary checks u _ _ _ plain (lt.0, lt.1, omega (arith, lt))
        (source-Setting u dest RegType.result (result_imm slot src1 other) refl) refl (nth _ 3)
        (nth _ 4)

  pub make_clz-Effect : Effect checks u (from_option (make_clz checks u slot dest src1 src2 other))
  unfolding make_clz
  make_clz-Effect =
      unary checks u _ _ _ plain (lt.0, lt.1, omega (arith, lt))
        (source-Setting u dest RegType.result (result_1 slot src1) refl) refl (nth _ 2) (nth _ 3)

  pub make_cmp-Effect : Effect checks u (from_option (make_cmp checks u slot dest src1 src2 other))
  unfolding make_cmp
  make_cmp-Effect =
      binary checks u _ _ _ plain lt
        (source-Setting u dest RegType.result (result_2 slot src1 src2) refl) (nth _ 3) (nth _ 4)
        (nth _ 5)

  pub make_cmp_imm-Effect :
      Effect checks u (from_option (make_cmp_imm checks u slot dest src1 src2 other))
  unfolding make_cmp_imm set_src_imm
  make_cmp_imm-Effect =
      unary checks u _ _ _ plain (lt.0, lt.1, omega (arith, lt))
        (source-Setting u dest RegType.result (result_imm slot src1 other) refl) refl (nth _ 3)
        (nth _ 4)

  pub make_bitcast-Effect :
      Effect checks u (from_option (make_bitcast checks u slot dest src1 src2 other))
  unfolding make_bitcast
  make_bitcast-Effect =
      unary checks u _ _ _ plain (lt.0, lt.1, omega (arith, lt))
        (source-Setting u dest RegType.result (result_1 slot src1) refl) refl (nth _ 2) (nth _ 3)
