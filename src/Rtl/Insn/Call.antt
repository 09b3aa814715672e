-- ===== src/Rtl/Insn/Call.antt =====
-- Encoders of src/rtl-insn.c with optional operands: make_nop(), make_call(), make_chain() and
-- make_chain_resolve().
use libbinrec.Common.{
  ℕ, ◌%◌, ◌^◌, ◌==◌, not, ◌&&◌, ◌||◌, Bool, true, false, if◌then◌else◌, [], ◌∷◌, ◌++◌, length,
  Option,
}
use libbinrec.Rtl.Opcode.{DataType, Opcode, RegType, type_is_int}
use libbinrec.Rtl.Unit.{Insn, Register, RtlUnit}
use libbinrec.Rtl.Unit.Access.{insn_at, reg_at, update_reg, set_src_imm}
use libbinrec.Rtl.Insn.Flow.{Made, from_option, assert_below}
use libbinrec.Rtl.Insn.{is_defined, is_type, set_source, result_3, encode, operand}

-- The result register, if there is one.
abbrev pub set_optional : RtlUnit → ℕ → (Register → Register) → RtlUnit
set_optional u dest f = if dest == 0 then u else update_reg u dest f

unfoldable pub make_nop : Bool → RtlUnit → Insn → ℕ → ℕ → ℕ → ℕ → Option (RtlUnit × Insn)
make_nop checks u insn dest src1 src2 other =
    encode checks
      ((dest == 0 || not (is_defined u dest))
        ∷ (src1 == 0 || is_defined u src1)
        ∷ (src2 == 0 || is_defined u src2)
        ∷ not (src1 == 0 && not (src2 == 0))
        ∷ [])
      (set_optional u dest
        (set_source RegType.result_nofold (λ r. record r { opcode = Opcode.nop })))
      (operand dest ++ (operand src1 ++ operand src2))
      (set_src_imm other (record insn { dest = dest; src1 = src1; src2 = src2 }))

unfoldable pub make_call : Bool → RtlUnit → Insn → ℕ → ℕ → ℕ → ℕ → Option (RtlUnit × Insn)
make_call checks u insn dest src1 src2 other =
    encode checks
      ((dest == 0 || not (is_defined u dest) && type_is_int (reg_at u dest).type)
        ∷ not (src1 == 0)
        ∷ is_defined u src1
        ∷ is_type DataType.address u src1
        ∷ not (src2 == 0 && not (other == 0))
        ∷ (src2 == 0
            || is_defined u src2
              && type_is_int (reg_at u src2).type
              && (other == 0 || is_defined u other && type_is_int (reg_at u other).type))
        ∷ [])
      (set_optional u dest (set_source RegType.result_nofold (result_3 insn src1 src2 other)))
      (operand dest ++ src1 ∷ (if src2 == 0 then [] else src2 ∷ operand other))
      (record insn { dest = dest; src1 = src1; src2 = src2; src3 = other % 2 ^ 16 })

unfoldable pub make_chain : Bool → RtlUnit → Insn → ℕ → ℕ → ℕ → ℕ → Option (RtlUnit × Insn)
make_chain checks u insn _ src1 src2 _ =
    encode checks
      (not (src1 == 0 && not (src2 == 0))
        ∷ (src1 == 0
            || is_defined u src1
              && type_is_int (reg_at u src1).type
              && (src2 == 0 || is_defined u src2 && type_is_int (reg_at u src2).type))
        ∷ [])
      u (src1 ∷ src2 ∷ []) (record insn { src1 = src1; src2 = src2 })

abbrev is_chain : Opcode → Bool
is_chain Opcode.chain = true
is_chain _ = false

unfoldable pub make_chain_resolve : Bool → RtlUnit → Insn → ℕ → ℕ → ℕ → ℕ → Made
make_chain_resolve checks u insn _ src1 _ other = assert_below other (length u.insns) (
    from_option (
      encode checks
        (not (src1 == 0)
          ∷ is_defined u src1
          ∷ is_type DataType.address u src1
          ∷ is_chain (insn_at u other).opcode
          ∷ [])
        u (src1 ∷ []) (set_src_imm other (record insn { src1 = src1 }))))
