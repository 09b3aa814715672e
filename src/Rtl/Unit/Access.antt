-- ===== src/Rtl/Unit/Access.antt =====
-- Reads and writes of the arrays of a unit. The passes read at indices that the unit holds, which the
-- encoders and the flow graph see to, so the blank elements are never seen.
use libbinrec.Common.{ℕ, ◌/◌, ◌%◌, ◌^◌, ◌==◌, Bool, false, [], ◌∷◌, get_or, modify, pos, negsuc}
use libbinrec.Word.{signed}
use libbinrec.Rtl.Opcode.{DataType, Opcode, RegType, opcode_num}
use libbinrec.Rtl.Unit.{Result, Memory, Register, Insn, Alias, BasicBlock, RtlUnit}

abbrev pub blank_insn : Insn
blank_insn = record {
  opcode = Opcode.nop;
  dest = 0;
  src1 = 0;
  src2 = 0;
  src3 = 0;
  start = 0;
  count = 0;
  fcmp = 0;
  offset = pos 0;
  alias = 0;
  arg_index = 0;
  elem = 0;
  label = 0;
  src_imm = 0;
}

abbrev pub blank_result : Result
blank_result = record {
  opcode = Opcode.nop;
  is_imm = false;
  src1 = 0;
  src2 = 0;
  src3 = 0;
  start = 0;
  count = 0;
  elem = 0;
  fcmp = 0;
  src_imm = 0;
}

abbrev pub blank_memory : Memory
blank_memory = record { base = 0; offset = pos 0; byterev = false; size = 0; is_signed = false }

abbrev pub blank_register : Register
blank_register = record {
  type = DataType.int32;
  source = RegType.undefined;
  unique_pointer = 0;
  unspillable = false;
  live = false;
  birth = 0;
  death = 0;
  value = 0;
  arg_index = 0;
  memory = blank_memory;
  alias_src = 0;
  result = blank_result;
}

abbrev pub blank_alias : Alias
blank_alias = record { type = DataType.int32; base = 0; offset = pos 0 }

abbrev pub blank_block : BasicBlock
blank_block = record {
  first_insn = pos 0;
  last_insn = negsuc 0;
  min_death = 0;
  max_live_reg = 0;
  next_block = negsuc 0;
  prev_block = negsuc 0;
  entries = [];
  entry_overflow = negsuc 0;
  exits = negsuc 0 ∷ negsuc 0 ∷ [];
}

abbrev pub insn_at : RtlUnit → ℕ → Insn
insn_at u i = get_or u.insns i blank_insn

abbrev pub reg_at : RtlUnit → ℕ → Register
reg_at u r = get_or u.regs r blank_register

abbrev pub alias_base : RtlUnit → ℕ → ℕ
alias_base u a = (get_or u.aliases a blank_alias).base

abbrev pub block_at : RtlUnit → ℕ → BasicBlock
block_at u b = get_or u.blocks b blank_block

abbrev pub update_insn : RtlUnit → ℕ → (Insn → Insn) → RtlUnit
update_insn u i f = record u { insns = modify u.insns i f }

abbrev pub update_reg : RtlUnit → ℕ → (Register → Register) → RtlUnit
update_reg u r f = record u { regs = modify u.regs r f }

-- A write of `src_imm`, which overlaps the fields from `src3` to `label` (on a little-endian machine
-- with its low bits).
unfoldable pub set_src_imm : ℕ → Insn → Insn
set_src_imm v insn = record insn {
  src_imm = v;
  src3 = v % 2 ^ 16;
  start = v % 2 ^ 8;
  count = v / 2 ^ 8 % 2 ^ 8;
  fcmp = v % 2 ^ 8;
  offset = signed 16 v;
  alias = v % 2 ^ 16;
  arg_index = v % 2 ^ 8;
  elem = v % 2 ^ 8;
  label = v % 2 ^ 16;
}

-- `a == b`
abbrev pub same_opcode : Opcode → Opcode → Bool
same_opcode a b = opcode_num a == opcode_num b
