-- ===== src/Rtl/Insn/Alu.antt =====
-- Integer encoders of src/rtl-insn.c: make_intcast() to make_bitcast(). Of the number `other`, a
-- uint64_t, an immediate operand keeps 32 bits.
use libbinrec.Common.{
  ℕ, ◌+◌, ◌/◌, ◌%◌, ◌^◌, ◌==◌, ltb, not, ◌&&◌, ◌||◌, Bool, true, false, [], ◌∷◌, Option,
}
use libbinrec.Word.{u64, signed, u64_of}
use libbinrec.Rtl.Opcode.{DataType, Opcode, RegType, type_is_int}
use libbinrec.Rtl.Unit.{Insn, RtlUnit}
use libbinrec.Rtl.Unit.Access.{reg_at, update_reg, set_src_imm}
use libbinrec.Rtl.Insn.{
  is_defined, same_type, is_type, set_source, result_1, result_2, result_imm, encode, operand,
}

unfoldable pub make_intcast : Bool → RtlUnit → Insn → ℕ → ℕ → ℕ → ℕ → Option (RtlUnit × Insn)
make_intcast checks u insn dest src1 _ _ =
    encode checks
      (not (dest == 0)
        ∷ not (src1 == 0)
        ∷ not (is_defined u dest)
        ∷ is_defined u src1
        ∷ type_is_int (reg_at u dest).type
        ∷ type_is_int (reg_at u src1).type
        ∷ [])
      (update_reg u dest (set_source RegType.result (result_1 insn src1))) (dest ∷ src1 ∷ [])
      (record insn { dest = dest; src1 = src1 })

unfoldable pub make_alu_1op : Bool → RtlUnit → Insn → ℕ → ℕ → ℕ → ℕ → Option (RtlUnit × Insn)
make_alu_1op checks u insn dest src1 _ _ =
    encode checks
      (not (dest == 0)
        ∷ not (src1 == 0)
        ∷ not (is_defined u dest)
        ∷ is_defined u src1
        ∷ type_is_int (reg_at u dest).type
        ∷ same_type u src1 dest
        ∷ [])
      (update_reg u dest (set_source RegType.result (result_1 insn src1))) (dest ∷ src1 ∷ [])
      (record insn { dest = dest; src1 = src1 })

unfoldable pub make_alu_2op : Bool → RtlUnit → Insn → ℕ → ℕ → ℕ → ℕ → Option (RtlUnit × Insn)
make_alu_2op checks u insn dest src1 src2 _ =
    encode checks
      (not (dest == 0)
        ∷ not (src1 == 0)
        ∷ not (src2 == 0)
        ∷ not (is_defined u dest)
        ∷ is_defined u src1
        ∷ is_defined u src2
        ∷ type_is_int (reg_at u dest).type
        ∷ same_type u src1 dest
        ∷ same_type u src2 dest
        ∷ [])
      (update_reg u dest (set_source RegType.result (result_2 insn src1 src2)))
      (dest ∷ src1 ∷ src2 ∷ []) (record insn { dest = dest; src1 = src1; src2 = src2 })

unfoldable pub make_shift : Bool → RtlUnit → Insn → ℕ → ℕ → ℕ → ℕ → Option (RtlUnit × Insn)
make_shift checks u insn dest src1 src2 _ =
    encode checks
      (not (dest == 0)
        ∷ not (src1 == 0)
        ∷ not (src2 == 0)
        ∷ not (is_defined u dest)
        ∷ is_defined u src1
        ∷ is_defined u src2
        ∷ type_is_int (reg_at u dest).type
        ∷ same_type u src1 dest
        ∷ type_is_int (reg_at u src2).type
        ∷ [])
      (update_reg u dest (set_source RegType.result (result_2 insn src1 src2)))
      (dest ∷ src1 ∷ src2 ∷ []) (record insn { dest = dest; src1 = src1; src2 = src2 })

unfoldable pub make_alu_imm : Bool → RtlUnit → Insn → ℕ → ℕ → ℕ → ℕ → Option (RtlUnit × Insn)
make_alu_imm checks u insn dest src1 _ other =
    encode checks
      (not (dest == 0)
        ∷ not (src1 == 0)
        ∷ (is_type DataType.int32 u dest || ltb (u64 (other + 2147483648)) (2 ^ 32))
        ∷ not (is_defined u dest)
        ∷ is_defined u src1
        ∷ type_is_int (reg_at u dest).type
        ∷ same_type u src1 dest
        ∷ [])
      (update_reg u dest (set_source RegType.result (result_imm insn src1 other)))
      (dest ∷ src1 ∷ [])
      (set_src_imm (u64_of (signed 32 other)) (record insn { dest = dest; src1 = src1 }))

unfoldable pub make_clz : Bool → RtlUnit → Insn → ℕ → ℕ → ℕ → ℕ → Option (RtlUnit × Insn)
make_clz checks u insn dest src1 _ _ =
    encode checks
      (not (dest == 0)
        ∷ not (src1 == 0)
        ∷ not (is_defined u dest)
        ∷ is_defined u src1
        ∷ type_is_int (reg_at u dest).type
        ∷ type_is_int (reg_at u src1).type
        ∷ [])
      (update_reg u dest (set_source RegType.result (result_1 insn src1))) (dest ∷ src1 ∷ [])
      (record insn { dest = dest; src1 = src1 })

unfoldable pub make_cmp : Bool → RtlUnit → Insn → ℕ → ℕ → ℕ → ℕ → Option (RtlUnit × Insn)
make_cmp checks u insn dest src1 src2 _ =
    encode checks
      (not (dest == 0)
        ∷ not (src1 == 0)
        ∷ not (src2 == 0)
        ∷ not (is_defined u dest)
        ∷ is_defined u src1
        ∷ is_defined u src2
        ∷ type_is_int (reg_at u dest).type
        ∷ same_type u src2 src1
        ∷ [])
      (update_reg u dest (set_source RegType.result (result_2 insn src1 src2)))
      (dest ∷ src1 ∷ src2 ∷ []) (record insn { dest = dest; src1 = src1; src2 = src2 })

unfoldable pub make_cmp_imm : Bool → RtlUnit → Insn → ℕ → ℕ → ℕ → ℕ → Option (RtlUnit × Insn)
make_cmp_imm checks u insn dest src1 _ other =
    encode checks
      (not (dest == 0)
        ∷ not (src1 == 0)
        ∷ (is_type DataType.int32 u dest || ltb (u64 (other + 2147483648)) (2 ^ 32))
        ∷ not (is_defined u dest)
        ∷ is_defined u src1
        ∷ type_is_int (reg_at u dest).type
        ∷ type_is_int (reg_at u src1).type
        ∷ [])
      (update_reg u dest (set_source RegType.result (result_imm insn src1 other)))
      (dest ∷ src1 ∷ [])
      (set_src_imm (u64_of (signed 32 other)) (record insn { dest = dest; src1 = src1 }))

abbrev pub is_bfins : Opcode → Bool
is_bfins Opcode.bfins = true
is_bfins _ = false

unfoldable pub make_bitfield : Bool → RtlUnit → Insn → ℕ → ℕ → ℕ → ℕ → Option (RtlUnit × Insn)
make_bitfield checks u insn dest src1 src2 other =
    encode checks
      (not (dest == 0)
        ∷ not (src1 == 0)
        ∷ not (is_defined u dest)
        ∷ is_defined u src1
        ∷ type_is_int (reg_at u dest).type
        ∷ same_type u src1 dest
        ∷ (not (is_bfins insn.opcode)
            || not (src2 == 0) && is_defined u src2 && same_type u src2 dest)
        ∷ [])
      (update_reg u dest (
        set_source RegType.result (λ r. record (result_2 insn src1 src2 r) {
          start = other % 2 ^ 8;
          count = other / 2 ^ 8 % 2 ^ 8;
        })))
      (dest ∷ src1 ∷ operand src2)
      (record insn {
        dest = dest;
        src1 = src1;
        src2 = src2;
        start = other % 2 ^ 8;
        count = other / 2 ^ 8 % 2 ^ 8;
      })

unfoldable pub make_bitcast : Bool → RtlUnit → Insn → ℕ → ℕ → ℕ → ℕ → Option (RtlUnit × Insn)
make_bitcast checks u insn dest src1 _ _ =
    encode checks
      (not (dest == 0)
        ∷ not (src1 == 0)
        ∷ not (is_defined u dest)
        ∷ is_defined u src1
        ∷ ((is_type DataType.int32 u dest && is_type DataType.float32 u src1)
            || (is_type DataType.int64 u dest && is_type DataType.float64 u src1)
            || (is_type DataType.float32 u dest && is_type DataType.int32 u src1)
            || (is_type DataType.float64 u dest && is_type DataType.int64 u src1))
        ∷ [])
      (update_reg u dest (set_source RegType.result (result_1 insn src1))) (dest ∷ src1 ∷ [])
      (record insn { dest = dest; src1 = src1 })
