-- ===== src/Rtl/Insn/Fpu.antt =====
-- Floating-point encoders of src/rtl-insn.c: make_fcvt() to make_fcopyround().
use libbinrec.Common.{ℕ, ◌%◌, ◌^◌, ◌==◌, leb, not, ◌||◌, Bool, false, [], ◌∷◌, Option}
use libbinrec.Rtl.Opcode.{DataType, RegType, type_is_int, type_is_float, type_is_vector}
use libbinrec.Rtl.Unit.{Insn, RtlUnit}
use libbinrec.Rtl.Unit.Access.{reg_at, update_reg, set_src_imm}
use libbinrec.Rtl.Insn.{
  is_defined, same_type, is_type, set_source, result_1, result_2, result_3, result_imm, encode,
}

abbrev rtlfcmp_un : ℕ
rtlfcmp_un = 5

abbrev rtlfexc_zero_divide : ℕ
rtlfexc_zero_divide = 5

abbrev rtlfround_ceil : ℕ
rtlfround_ceil = 3

unfoldable pub make_fcvt : Bool → RtlUnit → Insn → ℕ → ℕ → ℕ → ℕ → Option (RtlUnit × Insn)
make_fcvt checks u insn dest src1 _ _ =
    encode checks
      (not (dest == 0)
        ∷ not (src1 == 0)
        ∷ not (is_defined u dest)
        ∷ is_defined u src1
        ∷ type_is_float (reg_at u dest).type
        ∷ type_is_float (reg_at u src1).type
        ∷ not (same_type u src1 dest)
        ∷ [])
      (update_reg u dest (set_source RegType.result (result_1 insn src1))) (dest ∷ src1 ∷ [])
      (record insn { dest = dest; src1 = src1 })

unfoldable pub make_ficast : Bool → RtlUnit → Insn → ℕ → ℕ → ℕ → ℕ → Option (RtlUnit × Insn)
make_ficast checks u insn dest src1 _ _ =
    encode checks
      (not (dest == 0)
        ∷ not (src1 == 0)
        ∷ not (is_defined u dest)
        ∷ is_defined u src1
        ∷ type_is_float (reg_at u dest).type
        ∷ type_is_int (reg_at u src1).type
        ∷ [])
      (update_reg u dest (set_source RegType.result (result_1 insn src1))) (dest ∷ src1 ∷ [])
      (record insn { dest = dest; src1 = src1 })

unfoldable pub make_froundi : Bool → RtlUnit → Insn → ℕ → ℕ → ℕ → ℕ → Option (RtlUnit × Insn)
make_froundi checks u insn dest src1 _ _ =
    encode checks
      (not (dest == 0)
        ∷ not (src1 == 0)
        ∷ not (is_defined u dest)
        ∷ is_defined u src1
        ∷ type_is_int (reg_at u dest).type
        ∷ type_is_float (reg_at u src1).type
        ∷ [])
      (update_reg u dest (set_source RegType.result (result_1 insn src1))) (dest ∷ src1 ∷ [])
      (record insn { dest = dest; src1 = src1 })

unfoldable pub make_fpu_1op : Bool → RtlUnit → Insn → ℕ → ℕ → ℕ → ℕ → Option (RtlUnit × Insn)
make_fpu_1op checks u insn dest src1 _ _ =
    encode checks
      (not (dest == 0)
        ∷ not (src1 == 0)
        ∷ not (is_defined u dest)
        ∷ is_defined u src1
        ∷ (type_is_float (reg_at u dest).type || type_is_vector (reg_at u dest).type)
        ∷ same_type u src1 dest
        ∷ [])
      (update_reg u dest (set_source RegType.result (result_1 insn src1))) (dest ∷ src1 ∷ [])
      (record insn { dest = dest; src1 = src1 })

unfoldable pub make_fpu_2op : Bool → RtlUnit → Insn → ℕ → ℕ → ℕ → ℕ → Option (RtlUnit × Insn)
make_fpu_2op checks u insn dest src1 src2 _ =
    encode checks
      (not (dest == 0)
        ∷ not (src1 == 0)
        ∷ not (src2 == 0)
        ∷ not (is_defined u dest)
        ∷ is_defined u src1
        ∷ is_defined u src2
        ∷ (type_is_float (reg_at u dest).type || type_is_vector (reg_at u dest).type)
        ∷ same_type u src1 dest
        ∷ same_type u src2 dest
        ∷ [])
      (update_reg u dest (set_source RegType.result (result_2 insn src1 src2)))
      (dest ∷ src1 ∷ src2 ∷ []) (record insn { dest = dest; src1 = src1; src2 = src2 })

unfoldable pub make_fpu_3op : Bool → RtlUnit → Insn → ℕ → ℕ → ℕ → ℕ → Option (RtlUnit × Insn)
make_fpu_3op checks u insn dest src1 src2 other =
    encode checks
      (not (dest == 0)
        ∷ not (src1 == 0)
        ∷ not (src2 == 0)
        ∷ not (other == 0)
        ∷ not (is_defined u dest)
        ∷ is_defined u src1
        ∷ is_defined u src2
        ∷ is_defined u other
        ∷ (type_is_float (reg_at u dest).type || type_is_vector (reg_at u dest).type)
        ∷ same_type u src1 dest
        ∷ same_type u src2 dest
        ∷ same_type u other dest
        ∷ [])
      (update_reg u dest (set_source RegType.result (result_3 insn src1 src2 other)))
      (dest ∷ src1 ∷ src2 ∷ other ∷ [])
      (record insn { dest = dest; src1 = src1; src2 = src2; src3 = other % 2 ^ 16 })

unfoldable pub make_fcmp : Bool → RtlUnit → Insn → ℕ → ℕ → ℕ → ℕ → Option (RtlUnit × Insn)
make_fcmp checks u insn dest src1 src2 other =
    encode checks
      (not (dest == 0)
        ∷ not (src1 == 0)
        ∷ not (src2 == 0)
        ∷ not (is_defined u dest)
        ∷ is_defined u src1
        ∷ is_defined u src2
        ∷ type_is_int (reg_at u dest).type
        ∷ type_is_float (reg_at u src1).type
        ∷ same_type u src2 src1
        ∷ leb other 31
        ∷ leb (other % 8) rtlfcmp_un
        ∷ [])
      (update_reg u dest (
        set_source RegType.result
          (λ r. record (result_2 insn src1 src2 r) { fcmp = other % 2 ^ 8 })))
      (dest ∷ src1 ∷ src2 ∷ [])
      (record insn { dest = dest; src1 = src1; src2 = src2; fcmp = other % 2 ^ 8 })

unfoldable pub make_fgetstate : Bool → RtlUnit → Insn → ℕ → ℕ → ℕ → ℕ → Option (RtlUnit × Insn)
make_fgetstate checks u insn dest _ _ _ =
    encode checks (not (dest == 0) ∷ not (is_defined u dest) ∷ is_type DataType.fpstate u dest ∷ [])
      (update_reg u dest
        (set_source RegType.result_nofold (λ r. record r { opcode = insn.opcode; is_imm = false })))
      (dest ∷ []) (record insn { dest = dest })

unfoldable pub make_fsetstate : Bool → RtlUnit → Insn → ℕ → ℕ → ℕ → ℕ → Option (RtlUnit × Insn)
make_fsetstate checks u insn _ src1 _ _ =
    encode checks (not (src1 == 0) ∷ is_defined u src1 ∷ is_type DataType.fpstate u src1 ∷ []) u
      (src1 ∷ []) (record insn { src1 = src1 })

unfoldable pub make_ftestexc : Bool → RtlUnit → Insn → ℕ → ℕ → ℕ → ℕ → Option (RtlUnit × Insn)
make_ftestexc checks u insn dest src1 _ other =
    encode checks
      (not (dest == 0)
        ∷ not (src1 == 0)
        ∷ not (is_defined u dest)
        ∷ is_defined u src1
        ∷ type_is_int (reg_at u dest).type
        ∷ is_type DataType.fpstate u src1
        ∷ leb other rtlfexc_zero_divide
        ∷ [])
      (update_reg u dest (set_source RegType.result_nofold (result_imm insn src1 other)))
      (dest ∷ src1 ∷ []) (set_src_imm other (record insn { dest = dest; src1 = src1 }))

unfoldable pub make_fclearexc : Bool → RtlUnit → Insn → ℕ → ℕ → ℕ → ℕ → Option (RtlUnit × Insn)
make_fclearexc checks u insn dest src1 _ _ =
    encode checks
      (not (dest == 0)
        ∷ not (src1 == 0)
        ∷ not (is_defined u dest)
        ∷ is_defined u src1
        ∷ is_type DataType.fpstate u dest
        ∷ is_type DataType.fpstate u src1
        ∷ [])
      (update_reg u dest (set_source RegType.result_nofold (result_1 insn src1))) (dest ∷ src1 ∷ [])
      (record insn { dest = dest; src1 = src1 })

unfoldable pub make_fsetround : Bool → RtlUnit → Insn → ℕ → ℕ → ℕ → ℕ → Option (RtlUnit × Insn)
make_fsetround checks u insn dest src1 _ other =
    encode checks
      (not (dest == 0)
        ∷ not (src1 == 0)
        ∷ not (is_defined u dest)
        ∷ is_defined u src1
        ∷ is_type DataType.fpstate u dest
        ∷ is_type DataType.fpstate u src1
        ∷ leb other rtlfround_ceil
        ∷ [])
      (update_reg u dest (set_source RegType.result_nofold (result_imm insn src1 other)))
      (dest ∷ src1 ∷ []) (set_src_imm other (record insn { dest = dest; src1 = src1 }))

unfoldable pub make_fcopyround : Bool → RtlUnit → Insn → ℕ → ℕ → ℕ → ℕ → Option (RtlUnit × Insn)
make_fcopyround checks u insn dest src1 src2 _ =
    encode checks
      (not (dest == 0)
        ∷ not (src1 == 0)
        ∷ not (src2 == 0)
        ∷ not (is_defined u dest)
        ∷ is_defined u src1
        ∷ is_defined u src2
        ∷ is_type DataType.fpstate u dest
        ∷ is_type DataType.fpstate u src1
        ∷ is_type DataType.fpstate u src2
        ∷ [])
      (update_reg u dest (set_source RegType.result_nofold (result_2 insn src1 src2)))
      (dest ∷ src1 ∷ src2 ∷ []) (record insn { dest = dest; src1 = src1; src2 = src2 })
