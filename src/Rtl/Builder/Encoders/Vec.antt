-- ===== src/Rtl/Builder/Encoders/Vec.antt =====
-- The vector encoders.
use libbinrec.Common.{ℕ, Bool, refl, ◌%◌, ◌^◌, arith}
use libbinrec.Rtl.Opcode.{Opcode, RegType}
use libbinrec.Rtl.Unit.{Insn, RtlUnit}
use libbinrec.Rtl.Unit.Access.{blank_insn}
use libbinrec.Rtl.Insn.{result_1, result_2}
use libbinrec.Rtl.Insn.Flow.{from_option}
use libbinrec.Rtl.Insn.Vec.{
  make_vbuild2, make_vbroadcast, make_vextract, make_vinsert, make_vfcvt, make_vfcmp,
}
use libbinrec.Rtl.Builder.Effect.{Effect, Plain, InUnit}
use libbinrec.Rtl.Builder.Encoders.{unary, binary, nth, source-Setting}

module _ (checks : Bool) (u : RtlUnit) (op : Opcode) (plain : Plain op) (dest src1 src2 other : ℕ)
    (lt : InUnit u dest src1 src2) where
  abbrev slot : Insn
  slot = record blank_insn { opcode = op }

  pub make_vbuild2-Effect :
      Effect checks u (from_option (make_vbuild2 checks u slot dest src1 src2 other))
  unfolding make_vbuild2
  make_vbuild2-Effect =
      binary checks u _ _ _ plain lt
        (source-Setting u dest RegType.result (result_2 slot src1 src2) refl) (nth _ 3) (nth _ 4)
        (nth _ 5)

  pub make_vbroadcast-Effect :
      Effect checks u (from_option (make_vbroadcast checks u slot dest src1 src2 other))
  unfolding make_vbroadcast
  make_vbroadcast-Effect =
      unary checks u _ _ _ plain (lt.0, lt.1, omega (arith, lt))
        (source-Setting u dest RegType.result (result_1 slot src1) refl) refl (nth _ 2) (nth _ 3)

  pub make_vextract-Effect :
      Effect checks u (from_option (make_vextract checks u slot dest src1 src2 other))
  unfolding make_vextract
  make_vextract-Effect =
      unary checks u _ _ _ plain (lt.0, lt.1, omega (arith, lt))
        (source-Setting u dest RegType.result
          (λ r. record (result_1 slot src1 r) { elem = other % 2 ^ 8 }) refl)
        refl (nth _ 2) (nth _ 3)

  pub make_vinsert-Effect :
      Effect checks u (from_option (make_vinsert checks u slot dest src1 src2 other))
  unfolding make_vinsert
  make_vinsert-Effect =
      binary checks u _ _ _ plain lt
        (source-Setting u dest RegType.result
          (λ r. record (result_2 slot src1 src2 r) { elem = other % 2 ^ 8 }) refl)
        (nth _ 3) (nth _ 4) (nth _ 5)

  pub make_vfcvt-Effect :
      Effect checks u (from_option (make_vfcvt checks u slot dest src1 src2 other))
  unfolding make_vfcvt
  make_vfcvt-Effect =
      unary checks u _ _ _ plain (lt.0, lt.1, omega (arith, lt))
        (source-Setting u dest RegType.result (result_1 slot src1) refl) refl (nth _ 2) (nth _ 3)

  pub make_vfcmp-Effect :
      Effect checks u (from_option (make_vfcmp checks u slot dest src1 src2 other))
  unfolding make_vfcmp
  make_vfcmp-Effect =
      binary checks u _ _ _ plain lt
        (source-Setting u dest RegType.result
          (λ r. record (result_2 slot src1 src2 r) { fcmp = other % 2 ^ 8 }) refl)
        (nth _ 3) (nth _ 4) (nth _ 5)
