-- ===== src/Rtl/Insn/Mem.antt =====
-- Encoders of src/rtl-insn.c for constants, arguments and memory: make_load_imm() to make_cmpxchg().
use libbinrec.Common.{
  ℕ, ◌-◌, ◌%◌, ◌^◌, ◌==◌, leb, not, ◌&&◌, ◌||◌, Bool, true, false, if◌then◌else◌, [], ◌∷◌, Option,
}
use libbinrec.Word.{u32, signed}
use libbinrec.Rtl.Opcode.{DataType, Opcode, RegType, type_is_int, type_is_scalar, opcode_num}
use libbinrec.Rtl.Unit.{Insn, Register, RtlUnit, Memory}
use libbinrec.Rtl.Unit.Access.{reg_at, update_reg, set_src_imm}
use libbinrec.Rtl.Insn.{is_defined, same_type, is_type, set_source, result_1, result_3, encode}

-- `type == RTLTYPE_INT32 || type == RTLTYPE_FLOAT32`, where a constant has 32 bits.
abbrev is_32bit : RtlUnit → ℕ → Bool
is_32bit u r = is_type DataType.int32 u r || is_type DataType.float32 u r

unfoldable pub make_load_imm : Bool → RtlUnit → Insn → ℕ → ℕ → ℕ → ℕ → Option (RtlUnit × Insn)
make_load_imm checks u insn dest _ _ other =
    let value : ℕ = if is_32bit u dest then u32 other else other in
    encode checks
      (not (dest == 0)
        ∷ not (is_defined u dest)
        ∷ type_is_scalar (reg_at u dest).type
        ∷ (is_type DataType.int64 u dest
            || is_type DataType.address u dest
            || is_type DataType.float64 u dest
            || (is_type DataType.int32 u dest && leb (2 ^ 64 - 2147483648) other)
            || leb other 4294967295)
        ∷ [])
      (update_reg u dest (λ reg. record reg { source = RegType.constant; value = value }))
      (dest ∷ []) (set_src_imm value (record insn { dest = dest }))

unfoldable pub make_load_arg : Bool → RtlUnit → Insn → ℕ → ℕ → ℕ → ℕ → Option (RtlUnit × Insn)
make_load_arg checks u insn dest _ _ other =
    encode checks
      (not (dest == 0) ∷ not (is_defined u dest) ∷ type_is_int (reg_at u dest).type ∷ [])
      (update_reg u dest
        (λ reg. record reg { source = RegType.func_arg; arg_index = other % 2 ^ 8 }))
      (dest ∷ []) (record insn { dest = dest; arg_index = other % 2 ^ 8 })

-- What a load writes to its result register.
abbrev set_memory : (Memory → Memory) → Register → Register
set_memory f reg = record reg { source = RegType.memory; memory = f reg.memory }

abbrev is_load_br : Opcode → Bool
is_load_br Opcode.load_br = true
is_load_br _ = false

unfoldable pub make_load : Bool → RtlUnit → Insn → ℕ → ℕ → ℕ → ℕ → Option (RtlUnit × Insn)
make_load checks u insn dest src1 _ other =
    encode checks
      (not (dest == 0)
        ∷ not (src1 == 0)
        ∷ not (is_defined u dest)
        ∷ is_defined u src1
        ∷ is_type DataType.address u src1
        ∷ (leb other 32767 || leb (2 ^ 64 - 32768) other)
        ∷ [])
      (update_reg u dest (
        set_memory (λ m. record m {
          base = src1;
          offset = signed 16 other;
          byterev = is_load_br insn.opcode;
        })))
      (dest ∷ src1 ∷ []) (record insn { dest = dest; src1 = src1; offset = signed 16 other })

-- `insn_info` of make_load_narrow()
unfoldable pub narrow_size : Opcode → ℕ
narrow_size Opcode.load_u8 = 1
narrow_size Opcode.load_s8 = 1
narrow_size _ = 2

unfoldable pub narrow_is_signed : Opcode → Bool
narrow_is_signed Opcode.load_s8 = true
narrow_is_signed Opcode.load_s16 = true
narrow_is_signed Opcode.load_s16_br = true
narrow_is_signed _ = false

unfoldable pub make_load_narrow : Bool → RtlUnit → Insn → ℕ → ℕ → ℕ → ℕ → Option (RtlUnit × Insn)
make_load_narrow checks u insn dest src1 _ other =
    encode checks
      (not (dest == 0)
        ∷ not (src1 == 0)
        ∷ not (is_defined u dest)
        ∷ is_type DataType.int32 u dest
        ∷ is_defined u src1
        ∷ is_type DataType.address u src1
        ∷ (leb other 32767 || leb (2 ^ 64 - 32768) other)
        ∷ [])
      (update_reg u dest (
        set_memory (λ m. record m {
          base = src1;
          offset = signed 16 other;
          byterev = leb (opcode_num Opcode.load_u16_br) (opcode_num insn.opcode);
          size = narrow_size insn.opcode;
          is_signed = narrow_is_signed insn.opcode;
        })))
      (dest ∷ src1 ∷ []) (record insn { dest = dest; src1 = src1; offset = signed 16 other })

unfoldable pub make_store : Bool → RtlUnit → Insn → ℕ → ℕ → ℕ → ℕ → Option (RtlUnit × Insn)
make_store checks u insn _ src1 src2 other =
    encode checks
      (not (src1 == 0)
        ∷ not (src2 == 0)
        ∷ is_defined u src1
        ∷ is_type DataType.address u src1
        ∷ is_defined u src2
        ∷ (leb other 32767 || leb (2 ^ 64 - 32768) other)
        ∷ [])
      u (src1 ∷ src2 ∷ []) (record insn { src1 = src1; src2 = src2; offset = signed 16 other })

unfoldable pub make_store_narrow : Bool → RtlUnit → Insn → ℕ → ℕ → ℕ → ℕ → Option (RtlUnit × Insn)
make_store_narrow checks u insn _ src1 src2 other =
    encode checks
      (not (src1 == 0)
        ∷ not (src2 == 0)
        ∷ is_defined u src1
        ∷ is_type DataType.address u src1
        ∷ is_defined u src2
        ∷ is_type DataType.int32 u src2
        ∷ (leb other 32767 || leb (2 ^ 64 - 32768) other)
        ∷ [])
      u (src1 ∷ src2 ∷ []) (record insn { src1 = src1; src2 = src2; offset = signed 16 other })

unfoldable pub make_atomic_inc : Bool → RtlUnit → Insn → ℕ → ℕ → ℕ → ℕ → Option (RtlUnit × Insn)
make_atomic_inc checks u insn dest src1 _ other =
    encode checks
      (not (dest == 0)
        ∷ not (src1 == 0)
        ∷ not (is_defined u dest)
        ∷ type_is_int (reg_at u dest).type
        ∷ is_defined u src1
        ∷ is_type DataType.address u src1
        ∷ [])
      (update_reg u dest (set_source RegType.result_nofold (result_1 insn src1))) (dest ∷ src1 ∷ [])
      (record insn { dest = dest; src1 = src1; offset = signed 16 other })

unfoldable pub make_cmpxchg : Bool → RtlUnit → Insn → ℕ → ℕ → ℕ → ℕ → Option (RtlUnit × Insn)
make_cmpxchg checks u insn dest src1 src2 other =
    encode checks
      (not (dest == 0)
        ∷ not (src1 == 0)
        ∷ not (src2 == 0)
        ∷ not (other == 0)
        ∷ not (is_defined u dest)
        ∷ type_is_int (reg_at u dest).type
        ∷ is_defined u src1
        ∷ is_type DataType.address u src1
        ∷ is_defined u src2
        ∷ same_type u src2 dest
        ∷ is_defined u other
        ∷ same_type u other dest
        ∷ [])
      (update_reg u dest (set_source RegType.result_nofold (result_3 insn src1 src2 other)))
      (dest ∷ src1 ∷ src2 ∷ other ∷ [])
      (record insn { dest = dest; src1 = src1; src2 = src2; src3 = other % 2 ^ 16 })
