-- ===== src/Rtl/Insn.antt =====
-- Encoders of src/rtl-insn.c, with rtl_mark_live(). `checks` tells whether the library is compiled with
-- operand checks; `none` is a violated one, which leaves the unit as it was.
pub mod Alu
pub mod Fpu
pub mod Vec
pub mod Mem
pub mod Call
pub mod Flow
pub mod Table
pub mod Effect
pub mod Marked
use libbinrec.Common.{
  ℕ, zero, suc, ◌+◌, ◌%◌, ◌^◌, ◌==◌, ltb, not, ◌&&◌, ◌||◌, Bool, true, false, if◌then◌else◌, List,
  [], ◌∷◌, length, get_or, Option, some, none,
}
use libbinrec.Rtl.Opcode.{DataType, Opcode, RegType, type_is_int, is_undefined, type_num}
use libbinrec.Rtl.Unit.{Result, Insn, Register, Alias, RtlUnit}
use libbinrec.Rtl.Unit.Access.{reg_at, alias_base, blank_alias, update_reg}
use libbinrec.Rtl.Block.{update_block}

abbrev pub max : ℕ → ℕ → ℕ
max a b = if ltb a b then b else a

abbrev pub mark : ℕ → Register → Register
mark insn_index reg = record reg {
  live = true;
  birth = if reg.live then reg.birth else insn_index;
  death = insn_index;
}

unfoldable pub rtl_mark_live : RtlUnit → ℕ → ℕ → RtlUnit
rtl_mark_live u insn_index r =
    let live : Bool = (reg_at u r).live in
    record (update_reg u r (mark insn_index)) {
      first_live_reg = if not live && u.first_live_reg == 0 then r else u.first_live_reg;
      last_live_reg = if live then u.last_live_reg else r;
      blocks =
          update_block u.blocks u.cur_block (λ b. record b { max_live_reg = max b.max_live_reg r });
    }

-- The calls of rtl_mark_live() of an encoder, for the instruction that comes next.
unfoldable pub mark_all : RtlUnit → ℕ → List ℕ → RtlUnit
mark_all u insn_index [] = u
mark_all u insn_index (r ∷ rs) = mark_all (rtl_mark_live u insn_index r) insn_index rs

abbrev pub is_defined : RtlUnit → ℕ → Bool
is_defined u r = not (is_undefined (reg_at u r).source)

abbrev pub same_type : RtlUnit → ℕ → ℕ → Bool
same_type u a b = type_num (reg_at u a).type == type_num (reg_at u b).type

abbrev pub alias_type : RtlUnit → ℕ → DataType
alias_type u a = (get_or u.aliases a blank_alias).type

abbrev pub set_source : RegType → (Result → Result) → Register → Register
set_source source f reg = record reg { source = source; result = f reg.result }

abbrev pub is_type : DataType → RtlUnit → ℕ → Bool
is_type type u r = type_num (reg_at u r).type == type_num type

-- The results that the encoders write: the opcode with one to three register operands, or with an
-- immediate one. `value` is the bit pattern of an int32_t.
abbrev pub result_1 : Insn → ℕ → Result → Result
result_1 insn src1 r = record r { opcode = insn.opcode; is_imm = false; src1 = src1 }

abbrev pub result_2 : Insn → ℕ → ℕ → Result → Result
result_2 insn src1 src2 r = record r {
  opcode = insn.opcode;
  is_imm = false;
  src1 = src1;
  src2 = src2;
}

abbrev pub result_3 : Insn → ℕ → ℕ → ℕ → Result → Result
result_3 insn src1 src2 src3 r = record r {
  opcode = insn.opcode;
  is_imm = false;
  src1 = src1;
  src2 = src2;
  src3 = src3 % 2 ^ 16;
}

abbrev pub result_imm : Insn → ℕ → ℕ → Result → Result
result_imm insn src1 value r = record r {
  opcode = insn.opcode;
  is_imm = true;
  src1 = src1;
  src_imm = value % 2 ^ 32;
}

-- A list of operand constraints, which is checked in turn.
unfoldable pub all_hold : List Bool → Bool
all_hold [] = true
all_hold (b ∷ bs) = b && all_hold bs

-- What every encoder ends with: the operand checks, and the registers that it marks live in the unit
-- in which it has set the result register.
unfoldable pub encode : Bool → List Bool → RtlUnit → List ℕ → Insn → Option (RtlUnit × Insn)
encode checks constraints set marks insn =
    if checks && not (all_hold constraints)
    then none
    else some (mark_all set (length set.insns) marks, insn)

-- A register operand that the encoder leaves out where it is 0.
abbrev pub operand : ℕ → List ℕ
operand r = if r == 0 then [] else r ∷ []

-- An alias's base register, if it has one.
unfoldable pub base_operand : RtlUnit → ℕ → List ℕ
base_operand u alias = if alias_base u alias == 0 then [] else alias_base u alias ∷ []

unfoldable pub make_set_alias : Bool → RtlUnit → Insn → ℕ → ℕ → Option (RtlUnit × Insn)
make_set_alias checks u insn src1 other =
    encode checks
      (not (src1 == 0)
        ∷ not (other == 0)
        ∷ is_defined u src1
        ∷ (type_num (reg_at u src1).type == type_num (alias_type u other))
        ∷ [])
      u (src1 ∷ base_operand u other) (record insn { src1 = src1; alias = other % 2 ^ 16 })

unfoldable pub make_get_alias : Bool → RtlUnit → Insn → ℕ → ℕ → Option (RtlUnit × Insn)
make_get_alias checks u insn dest other =
    encode checks
      (not (dest == 0)
        ∷ not (other == 0)
        ∷ not (is_defined u dest)
        ∷ (type_num (reg_at u dest).type == type_num (alias_type u other))
        ∷ [])
      (update_reg u dest (λ reg. record reg { source = RegType.alias; alias_src = other % 2 ^ 16 }))
      (dest ∷ base_operand u other) (record insn { dest = dest; alias = other % 2 ^ 16 })

unfoldable pub make_move : Bool → RtlUnit → Insn → ℕ → ℕ → Option (RtlUnit × Insn)
make_move checks u insn dest src1 =
    encode checks
      (not (dest == 0)
        ∷ not (src1 == 0)
        ∷ not (is_defined u dest)
        ∷ is_defined u src1
        ∷ same_type u src1 dest
        ∷ [])
      (update_reg u dest (set_source RegType.result (result_1 insn src1))) (dest ∷ src1 ∷ [])
      (record insn { dest = dest; src1 = src1 })

unfoldable pub make_select : Bool → RtlUnit → Insn → ℕ → ℕ → ℕ → ℕ → Option (RtlUnit × Insn)
make_select checks u insn dest src1 src2 other =
    encode checks
      (not (dest == 0)
        ∷ not (src1 == 0)
        ∷ not (src2 == 0)
        ∷ not (other == 0)
        ∷ not (is_defined u dest)
        ∷ is_defined u src1
        ∷ is_defined u src2
        ∷ is_defined u other
        ∷ same_type u src1 dest
        ∷ same_type u src2 dest
        ∷ type_is_int (reg_at u other).type
        ∷ [])
      (update_reg u dest (set_source RegType.result (result_3 insn src1 src2 other)))
      (dest ∷ src1 ∷ src2 ∷ other ∷ [])
      (record insn { dest = dest; src1 = src1; src2 = src2; src3 = other % 2 ^ 16 })
