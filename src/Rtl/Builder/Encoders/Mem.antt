-- ===== src/Rtl/Builder/Encoders/Mem.antt =====
-- The constant, argument and memory encoders.
use libbinrec.Common.{ℕ, Bool, refl, arith}
use libbinrec.Rtl.Opcode.{Opcode, RegType}
use libbinrec.Rtl.Unit.{Insn, RtlUnit}
use libbinrec.Rtl.Unit.Access.{blank_insn, set_src_imm}
use libbinrec.Rtl.Insn.{result_1}
use libbinrec.Rtl.Insn.Effect.{Setting}
use libbinrec.Rtl.Insn.Flow.{from_option}
use libbinrec.Rtl.Insn.Mem.{
  make_load_imm, make_load_arg, make_load, make_load_narrow, make_store, make_store_narrow,
  make_atomic_inc,
}
use libbinrec.Rtl.Builder.Effect.{Effect, Plain, InUnit}
use libbinrec.Rtl.Builder.Encoders.{unary, nullary, readers, nth, source-Setting}

module _ (checks : Bool) (u : RtlUnit) (op : Opcode) (plain : Plain op) (dest src1 src2 other : ℕ)
    (lt : InUnit u dest src1 src2) where
  abbrev slot : Insn
  slot = record blank_insn { opcode = op }

  pub make_load_imm-Effect :
      Effect checks u (from_option (make_load_imm checks u slot dest src1 src2 other))
  unfolding make_load_imm set_src_imm
  make_load_imm-Effect =
      nullary checks u _ _ _ plain (lt.0, omega (arith, lt), omega (arith, lt))
        (Setting.result dest _ (λ r. refl) (λ r. refl) (λ r. refl) (λ r. refl)) refl refl (nth _ 1)

  pub make_load_arg-Effect :
      Effect checks u (from_option (make_load_arg checks u slot dest src1 src2 other))
  unfolding make_load_arg
  make_load_arg-Effect =
      nullary checks u _ _ _ plain (lt.0, omega (arith, lt), omega (arith, lt))
        (Setting.result dest _ (λ r. refl) (λ r. refl) (λ r. refl) (λ r. refl)) refl refl (nth _ 1)

  pub make_load-Effect :
      Effect checks u (from_option (make_load checks u slot dest src1 src2 other))
  unfolding make_load
  make_load-Effect =
      unary checks u _ _ _ plain (lt.0, lt.1, omega (arith, lt))
        (Setting.result dest _ (λ r. refl) (λ r. refl) (λ r. refl) (λ r. refl)) refl (nth _ 2)
        (nth _ 3)

  pub make_load_narrow-Effect :
      Effect checks u (from_option (make_load_narrow checks u slot dest src1 src2 other))
  unfolding make_load_narrow
  make_load_narrow-Effect =
      unary checks u _ _ _ plain (lt.0, lt.1, omega (arith, lt))
        (Setting.result dest _ (λ r. refl) (λ r. refl) (λ r. refl) (λ r. refl)) refl (nth _ 2)
        (nth _ 4)

  pub make_store-Effect :
      Effect checks u (from_option (make_store checks u slot dest src1 src2 other))
  unfolding make_store
  make_store-Effect =
      readers checks u _ _ _ plain (omega (arith, lt), lt.1, lt.2) Setting.nothing refl
        (λ h p. nth _ 2 h) (λ h p. nth _ 4 h)

  pub make_store_narrow-Effect :
      Effect checks u (from_option (make_store_narrow checks u slot dest src1 src2 other))
  unfolding make_store_narrow
  make_store_narrow-Effect =
      readers checks u _ _ _ plain (omega (arith, lt), lt.1, lt.2) Setting.nothing refl
        (λ h p. nth _ 2 h) (λ h p. nth _ 4 h)

  pub make_atomic_inc-Effect :
      Effect checks u (from_option (make_atomic_inc checks u slot dest src1 src2 other))
  unfolding make_atomic_inc
  make_atomic_inc-Effect =
      unary checks u _ _ _ plain (lt.0, lt.1, omega (arith, lt))
        (source-Setting u dest RegType.result_nofold (result_1 slot src1) refl) refl (nth _ 2)
        (nth _ 4)
