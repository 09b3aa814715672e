-- ===== src/Rtl/Unit.antt =====
-- The state of an RTL unit: RTLInsn, RTLRegister, RTLAlias, RTLBlock and RTLUnit of
-- src/rtl-internal.h. A union is its members side by side: which one is meant is told, as in the
-- code, by the register's source or the instruction's opcode.
pub mod Access
use libbinrec.Common.{ℕ, ℤ, Bool, List}
use libbinrec.Rtl.Opcode.{DataType, Opcode, RegType}

-- `result` of RTLRegister: the operation that computes the register. `src_imm` is the bit pattern of
-- an int32_t.
pub record Result : Type 0 where
  pub opcode : Opcode
  pub is_imm : Bool
  pub src1 : ℕ
  pub src2 : ℕ
  pub src3 : ℕ
  pub start : ℕ
  pub count : ℕ
  pub elem : ℕ
  pub fcmp : ℕ
  pub src_imm : ℕ

-- `memory` of RTLRegister.
pub record Memory : Type 0 where
  pub base : ℕ
  pub offset : ℤ
  pub byterev : Bool
  pub size : ℕ
  pub is_signed : Bool

-- `value` is the bit pattern of the constant's value.
pub record Register : Type 0 where
  pub type : DataType
  pub source : RegType
  pub unique_pointer : ℕ
  pub unspillable : Bool
  pub live : Bool
  pub birth : ℕ
  pub death : ℕ
  pub value : ℕ
  pub arg_index : ℕ
  pub memory : Memory
  pub alias_src : ℕ
  pub result : Result

-- `src3` to `label` share 16 bits in the source, and `src_imm` covers them.
pub record Insn : Type 0 where
  pub opcode : Opcode
  pub dest : ℕ
  pub src1 : ℕ
  pub src2 : ℕ
  pub src3 : ℕ
  pub start : ℕ
  pub count : ℕ
  pub fcmp : ℕ
  pub offset : ℤ
  pub alias : ℕ
  pub arg_index : ℕ
  pub elem : ℕ
  pub label : ℕ
  pub src_imm : ℕ

pub record Alias : Type 0 where
  pub type : DataType
  pub base : ℕ
  pub offset : ℤ

-- `RTLBlock`. A negative number in `entries` (7 slots) or `exits` (2 slots) is an unused slot.
pub record BasicBlock : Type 0 where
  pub first_insn : ℤ
  pub last_insn : ℤ
  pub min_death : ℕ
  pub max_live_reg : ℕ
  pub next_block : ℤ
  pub prev_block : ℤ
  pub entries : List ℤ
  pub entry_overflow : ℤ
  pub exits : List ℤ

-- An array with its count of used elements (`num_blocks`, `next_reg`, ...) is the list of those; the
-- allocated size is a field where the code tests it.
pub record RtlUnit : Type 0 where
  pub insns : List Insn
  pub insns_size : ℕ
  pub blocks : List BasicBlock
  pub blocks_size : ℕ
  pub have_block : Bool
  pub cur_block : ℕ
  pub last_block : ℤ
  pub label_blockmap : List ℤ
  pub labels_size : ℕ
  pub regs : List Register
  pub regs_size : ℕ
  pub first_live_reg : ℕ
  pub last_live_reg : ℕ
  pub membase_reg : ℕ
  pub aliases : List Alias
  pub aliases_size : ℕ
  pub error : Bool
  pub finalized : Bool
  pub block_seen : List Bool
