-- ===== src/Rtl/Builder/Encoders/Fpu.antt =====
-- The floating-point encoders.
use libbinrec.Common.{ℕ, Bool, false, refl, ◌%◌, ◌^◌, arith}
use libbinrec.Rtl.Opcode.{Opcode, RegType}
use libbinrec.Rtl.Unit.{Insn, RtlUnit}
use libbinrec.Rtl.Unit.Access.{blank_insn, set_src_imm}
use libbinrec.Rtl.Insn.{result_1, result_2, result_imm}
use libbinrec.Rtl.Insn.Effect.{Setting}
use libbinrec.Rtl.Insn.Flow.{from_option}
use libbinrec.Rtl.Insn.Fpu.{
  make_fcvt, make_ficast, make_froundi, make_fpu_1op, make_fpu_2op, make_fcmp, make_fgetstate,
  make_fsetstate, make_ftestexc, make_fclearexc, make_fsetround, make_fcopyround,
}
use libbinrec.Rtl.Builder.Effect.{Effect, Plain, InUnit}
use libbinrec.Rtl.Builder.Encoders.{unary, binary, nullary, reader, nth, source-Setting}

module _ (checks : Bool) (u : RtlUnit) (op : Opcode) (plain : Plain op) (dest src1 src2 other : ℕ)
    (lt : InUnit u dest src1 src2) where
  abbrev slot : Insn
  slot = record blank_insn { opcode = op }

  pub make_fcvt-Effect :
      Effect checks u (from_option (make_fcvt checks u slot dest src1 src2 other))
  unfolding make_fcvt
  make_fcvt-Effect =
      unary checks u _ _ _ plain (lt.0, lt.1, omega (arith, lt))
        (source-Setting u dest RegType.result (result_1 slot src1) refl) refl (nth _ 2) (nth _ 3)

  pub make_ficast-Effect :
      Effect checks u (from_option (make_ficast checks u slot dest src1 src2 other))
  unfolding make_ficast
  make_ficast-Effect =
      unary checks u _ _ _ plain (lt.0, lt.1, omega (arith, lt))
        (source-Setting u dest RegType.result (result_1 slot src1) refl) refl (nth _ 2) (nth _ 3)

  pub make_froundi-Effect :
      Effect checks u (from_option (make_froundi checks u slot dest src1 src2 other))
  unfolding make_froundi
  make_froundi-Effect =
      unary checks u _ _ _ plain (lt.0, lt.1, omega (arith, lt))
        (source-Setting u dest RegType.result (result_1 slot src1) refl) refl (nth _ 2) (nth _ 3)

  pub make_fpu_1op-Effect :
      Effect checks u (from_option (make_fpu_1op checks u slot dest src1 src2 other))
  unfolding make_fpu_1op
  make_fpu_1op-Effect =
      unary checks u _ _ _ plain (lt.0, lt.1, omega (arith, lt))
        (source-Setting u dest RegType.result (result_1 slot src1) refl) refl (nth _ 2) (nth _ 3)

  pub make_fpu_2op-Effect :
      Effect checks u (from_option (make_fpu_2op checks u slot dest src1 src2 other))
  unfolding make_fpu_2op
  make_fpu_2op-Effect =
      binary checks u _ _ _ plain lt
        (source-Setting u dest RegType.result (result_2 slot src1 src2) refl) (nth _ 3) (nth _ 4)
        (nth _ 5)

  pub make_fcmp-Effect :
      Effect checks u (from_option (make_fcmp checks u slot dest src1 src2 other))
  unfolding make_fcmp
  make_fcmp-Effect =
      binary checks u _ _ _ plain lt
        (source-Setting u dest RegType.result
          (λ r. record (result_2 slot src1 src2 r) { fcmp = other % 2 ^ 8 }) refl)
        (nth _ 3) (nth _ 4) (nth _ 5)

  pub make_fgetstate-Effect :
      Effect checks u (from_option (make_fgetstate checks u slot dest src1 src2 other))
  unfolding make_fgetstate
  make_fgetstate-Effect =
      nullary checks u _ _ _ plain (lt.0, omega (arith, lt), omega (arith, lt))
        (source-Setting u dest RegType.result_nofold (λ r. record r { opcode = op; is_imm = false })
          refl)
        refl refl (nth _ 1)

  pub make_fsetstate-Effect :
      Effect checks u (from_option (make_fsetstate checks u slot dest src1 src2 other))
  unfolding make_fsetstate
  make_fsetstate-Effect =
      reader checks u _ _ _ plain (omega (arith, lt), lt.1, omega (arith, lt)) Setting.nothing refl
        refl (λ h p. nth _ 1 h)

  pub make_ftestexc-Effect :
      Effect checks u (from_option (make_ftestexc checks u slot dest src1 src2 other))
  unfolding make_ftestexc set_src_imm
  make_ftestexc-Effect =
      unary checks u _ _ _ plain (lt.0, lt.1, omega (arith, lt))
        (source-Setting u dest RegType.result_nofold (result_imm slot src1 other) refl) refl
        (nth _ 2) (nth _ 3)

  pub make_fclearexc-Effect :
      Effect checks u (from_option (make_fclearexc checks u slot dest src1 src2 other))
  unfolding make_fclearexc
  make_fclearexc-Effect =
      unary checks u _ _ _ plain (lt.0, lt.1, omega (arith, lt))
        (source-Setting u dest RegType.result_nofold (result_1 slot src1) refl) refl (nth _ 2)
        (nth _ 3)

  pub make_fsetround-Effect :
      Effect checks u (from_option (make_fsetround checks u slot dest src1 src2 other))
  unfolding make_fsetround set_src_imm
  make_fsetround-Effect =
      unary checks u _ _ _ plain (lt.0, lt.1, omega (arith, lt))
        (source-Setting u dest RegType.result_nofold (result_imm slot src1 other) refl) refl
        (nth _ 2) (nth _ 3)

  pub make_fcopyround-Effect :
      Effect checks u (from_option (make_fcopyround checks u slot dest src1 src2 other))
  unfolding make_fcopyround
  make_fcopyround-Effect =
      binary checks u _ _ _ plain lt
        (source-Setting u dest RegType.result_nofold (result_2 slot src1 src2) refl) (nth _ 3)
        (nth _ 4) (nth _ 5)
