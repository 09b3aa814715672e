-- ===== src/Rtl/Insn/Vec.antt =====
-- Vector encoders of src/rtl-insn.c: make_vbuild2() to make_vfcmp().
use libbinrec.Common.{ℕ, ◌%◌, ◌^◌, ◌==◌, ltb, leb, not, Bool, [], ◌∷◌, Option}
use libbinrec.Rtl.Opcode.{
  DataType, RegType, type_is_vector, vector_length, vector_element_type, type_num,
}
use libbinrec.Rtl.Unit.{Insn, RtlUnit}
use libbinrec.Rtl.Unit.Access.{reg_at, update_reg}
use libbinrec.Rtl.Insn.{is_defined, same_type, is_type, set_source, result_1, result_2, encode}

abbrev rtlfcmp_un : ℕ
rtlfcmp_un = 5

unfoldable pub make_vbuild2 : Bool → RtlUnit → Insn → ℕ → ℕ → ℕ → ℕ → Option (RtlUnit × Insn)
make_vbuild2 checks u insn dest src1 src2 _ =
    encode checks
      (not (dest == 0)
        ∷ not (src1 == 0)
        ∷ not (src2 == 0)
        ∷ not (is_defined u dest)
        ∷ is_defined u src1
        ∷ is_defined u src2
        ∷ type_is_vector (reg_at u dest).type
        ∷ (type_num (reg_at u src1).type == type_num (vector_element_type (reg_at u dest).type))
        ∷ same_type u src2 src1
        ∷ [])
      (update_reg u dest (set_source RegType.result (result_2 insn src1 src2)))
      (dest ∷ src1 ∷ src2 ∷ []) (record insn { dest = dest; src1 = src1; src2 = src2 })

unfoldable pub make_vbroadcast : Bool → RtlUnit → Insn → ℕ → ℕ → ℕ → ℕ → Option (RtlUnit × Insn)
make_vbroadcast checks u insn dest src1 _ _ =
    encode checks
      (not (dest == 0)
        ∷ not (src1 == 0)
        ∷ not (is_defined u dest)
        ∷ is_defined u src1
        ∷ type_is_vector (reg_at u dest).type
        ∷ (type_num (reg_at u src1).type == type_num (vector_element_type (reg_at u dest).type))
        ∷ [])
      (update_reg u dest (set_source RegType.result (result_1 insn src1))) (dest ∷ src1 ∷ [])
      (record insn { dest = dest; src1 = src1 })

unfoldable pub make_vextract : Bool → RtlUnit → Insn → ℕ → ℕ → ℕ → ℕ → Option (RtlUnit × Insn)
make_vextract checks u insn dest src1 _ other =
    encode checks
      (not (dest == 0)
        ∷ not (src1 == 0)
        ∷ not (is_defined u dest)
        ∷ is_defined u src1
        ∷ type_is_vector (reg_at u src1).type
        ∷ (type_num (reg_at u dest).type == type_num (vector_element_type (reg_at u src1).type))
        ∷ ltb other (vector_length (reg_at u src1).type)
        ∷ [])
      (update_reg u dest
        (set_source RegType.result (λ r. record (result_1 insn src1 r) { elem = other % 2 ^ 8 })))
      (dest ∷ src1 ∷ []) (record insn { dest = dest; src1 = src1; elem = other % 2 ^ 8 })

unfoldable pub make_vinsert : Bool → RtlUnit → Insn → ℕ → ℕ → ℕ → ℕ → Option (RtlUnit × Insn)
make_vinsert checks u insn dest src1 src2 other =
    encode checks
      (not (dest == 0)
        ∷ not (src1 == 0)
        ∷ not (src2 == 0)
        ∷ not (is_defined u dest)
        ∷ is_defined u src1
        ∷ is_defined u src2
        ∷ type_is_vector (reg_at u dest).type
        ∷ same_type u src1 dest
        ∷ (type_num (reg_at u src2).type == type_num (vector_element_type (reg_at u dest).type))
        ∷ ltb other (vector_length (reg_at u dest).type)
        ∷ [])
      (update_reg u dest (
        set_source RegType.result
          (λ r. record (result_2 insn src1 src2 r) { elem = other % 2 ^ 8 })))
      (dest ∷ src1 ∷ src2 ∷ [])
      (record insn { dest = dest; src1 = src1; src2 = src2; elem = other % 2 ^ 8 })

unfoldable pub make_vfcvt : Bool → RtlUnit → Insn → ℕ → ℕ → ℕ → ℕ → Option (RtlUnit × Insn)
make_vfcvt checks u insn dest src1 _ _ =
    encode checks
      (not (dest == 0)
        ∷ not (src1 == 0)
        ∷ not (is_defined u dest)
        ∷ is_defined u src1
        ∷ type_is_vector (reg_at u dest).type
        ∷ type_is_vector (reg_at u src1).type
        ∷ not (same_type u src1 dest)
        ∷ [])
      (update_reg u dest (set_source RegType.result (result_1 insn src1))) (dest ∷ src1 ∷ [])
      (record insn { dest = dest; src1 = src1 })

unfoldable pub make_vfcmp : Bool → RtlUnit → Insn → ℕ → ℕ → ℕ → ℕ → Option (RtlUnit × Insn)
make_vfcmp checks u insn dest src1 src2 other =
    encode checks
      (not (dest == 0)
        ∷ not (src1 == 0)
        ∷ not (src2 == 0)
        ∷ not (is_defined u dest)
        ∷ is_defined u src1
        ∷ is_defined u src2
        ∷ is_type DataType.int64 u dest
        ∷ type_is_vector (reg_at u src1).type
        ∷ same_type u src2 src1
        ∷ leb other 31
        ∷ leb (other % 8) rtlfcmp_un
        ∷ [])
      (update_reg u dest (
        set_source RegType.result
          (λ r. record (result_2 insn src1 src2 r) { fcmp = other % 2 ^ 8 })))
      (dest ∷ src1 ∷ src2 ∷ [])
      (record insn { dest = dest; src1 = src1; src2 = src2; fcmp = other % 2 ^ 8 })
