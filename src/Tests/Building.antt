-- ===== src/Tests/Building.antt =====
-- src/rtl.c on a unit with two registers: a LOAD_IMM sets r1, and a MOVE copies it to r2.
use libbinrec.Common.{
  length, ◌*◌, zero, suc, ◌<◌, ◌≡◌, refl, Bool, true, Option, some, none, pos, negsuc, ℕ, ap, [],
  ◌∷◌, ℤ, arith,
}
use libbinrec.Rtl.Opcode.{
  DataType, Opcode, opcode_has_src3, opcode_has_alias, opcode_num, type_num, type_is_int,
  type_is_float, type_is_scalar,
}
use libbinrec.Rtl.Unit.{RtlUnit}
use libbinrec.Rtl.Unit.Access.{blank_insn, blank_block, blank_register, reg_at, set_src_imm}
use libbinrec.Rtl.Block.{
  get_new_block, block_add, no_entries, no_exits, block_add_edge, add_exit, add_entry, find_exit,
  find_entry,
}
use libbinrec.Rtl.Block.Graph.{next_at, exits_at}
use libbinrec.Rtl.Insn.{rtl_mark_live, mark_all, encode, all_hold, make_move}
use libbinrec.Rtl.Insn.Mem.{make_load_imm}
use libbinrec.Rtl.Insn.Table.{makefunc_table, rtl_insn_make}
use libbinrec.Rtl.Builder.{rtl_create_unit, grown, add_register, rtl_alloc_register, rtl_clear_unit}
use libbinrec.Rtl.Builder.Add.{
  Supply, append_made, fill_in_insn, rtl_add_insn_with_new_block, add_in_block, rtl_add_insn,
}
use libbinrec.Rtl.Builder.Finish.{
  add_goto_edge, add_block_edge, add_block_edges, finalize, rtl_finalize_unit, rtl_verify_unit,
}
use libbinrec.Rtl.Builder.Edges.{SameCode}
use libbinrec.Rtl.Builder.Finalize.{Mapped, rtl_finalize_unit-Returns}
use libbinrec.Rtl.Builder.Insns.{Outcome, rtl_add_insn-Outcome}
use libbinrec.Rtl.Builder.Encoders.All.{Args}
use libbinrec.Rtl.Builder.History.{Building, Building-Ready}
use libbinrec.Rtl.Builder.Verify.{NoNopResult, Building-verified}
use libbinrec.Rtl.Builder.Limit.{Allocated, rtl_alloc_register-Allocated}
use libbinrec.Rtl.Builder.Clear.{block_add-rtl_clear_unit}

abbrev supply : Supply
supply = record {
  grow_insns = true;
  insn = blank_insn;
  grow_blocks = true;
  block = blank_block;
  grow_next = true;
  next = blank_block;
}

abbrev unit_of : Option (Bool × RtlUnit) → RtlUnit
unit_of none = rtl_create_unit
unit_of (some (ok, u)) = u

abbrev allocated : Option (ℕ × RtlUnit) → RtlUnit
allocated none = rtl_create_unit
allocated (some (reg, u)) = u

abbrev one_register : RtlUnit
one_register = allocated (rtl_alloc_register true blank_register rtl_create_unit DataType.int32)

abbrev two_registers : RtlUnit
two_registers = allocated (rtl_alloc_register true blank_register one_register DataType.int32)

first_allocated :
    rtl_alloc_register true blank_register rtl_create_unit DataType.int32 ≡ some (1, one_register)
unfolding rtl_alloc_register add_register grown
first_allocated = refl

second_allocated :
    rtl_alloc_register true blank_register one_register DataType.int32 ≡ some (2, two_registers)
unfolding rtl_alloc_register add_register grown
second_allocated = refl

two_registers_built : Building two_registers
two_registers_built =
    Building.alloc_register true DataType.int32
      (Building.alloc_register true DataType.int32 Building.created first_allocated)
      second_allocated

two_registers_few : length two_registers.blocks < 65534
unfolding rtl_alloc_register add_register grown
two_registers_few = omega arith

load-Args : Args two_registers Opcode.load_imm 1 0 0 7
unfolding rtl_alloc_register add_register grown opcode_has_src3 opcode_has_alias
load-Args = record {
  regs = (omega arith, omega arith, omega arith);
  src3_lt = λ h. cc;
  alias_lt = λ h. cc;
  one_source = λ h. cc;
  label_lt = λ h. cc;
  insn_lt = λ h. cc;
}

rtl_add_insn-Outcome_example :
    Outcome two_registers (rtl_add_insn true supply two_registers Opcode.load_imm 1 0 0 7)
rtl_add_insn-Outcome_example =
    rtl_add_insn-Outcome supply refl Opcode.load_imm 1 0 0 7 two_registers
      (Building-Ready two_registers two_registers_built).sound
      (Building-Ready two_registers two_registers_built).open_block two_registers_few load-Args

abbrev loaded : RtlUnit
loaded = unit_of (rtl_add_insn true supply two_registers Opcode.load_imm 1 0 0 7)

loaded_added : rtl_add_insn true supply two_registers Opcode.load_imm 1 0 0 7 ≡ some (true, loaded)
unfolding rtl_add_insn add_in_block rtl_add_insn_with_new_block fill_in_insn append_made
    rtl_insn_make makefunc_table make_load_imm encode all_hold mark_all rtl_mark_live block_add
    get_new_block set_src_imm rtl_alloc_register add_register grown type_is_scalar type_is_int
    type_is_float type_num
loaded_added = refl

loaded_built : Building loaded
loaded_built =
    Building.add_insn supply Opcode.load_imm 1 0 0 7 refl two_registers_built two_registers_few
      load-Args loaded_added

move-Args : Args loaded Opcode.move 2 1 0 0
unfolding rtl_add_insn add_in_block rtl_add_insn_with_new_block fill_in_insn append_made
    rtl_insn_make makefunc_table make_load_imm encode all_hold mark_all rtl_mark_live block_add
    get_new_block set_src_imm rtl_alloc_register add_register grown type_is_scalar type_is_int
    type_is_float type_num opcode_has_src3 opcode_has_alias
move-Args = record {
  regs = (omega arith, omega arith, omega arith);
  src3_lt = λ h. cc;
  alias_lt = λ h. cc;
  one_source = λ h. cc;
  label_lt = λ h. cc;
  insn_lt = λ h. cc;
}

abbrev moved : RtlUnit
moved = unit_of (rtl_add_insn true supply loaded Opcode.move 2 1 0 0)

moved_added : rtl_add_insn true supply loaded Opcode.move 2 1 0 0 ≡ some (true, moved)
unfolding rtl_add_insn add_in_block rtl_add_insn_with_new_block fill_in_insn append_made
    rtl_insn_make makefunc_table make_load_imm encode all_hold mark_all rtl_mark_live block_add
    get_new_block set_src_imm rtl_alloc_register add_register grown type_is_scalar type_is_int
    type_is_float type_num make_move
moved_added = refl

loaded_few : length loaded.blocks < 65534
unfolding rtl_add_insn add_in_block rtl_add_insn_with_new_block fill_in_insn append_made
    rtl_insn_make makefunc_table make_load_imm encode all_hold mark_all rtl_mark_live block_add
    get_new_block set_src_imm rtl_alloc_register add_register grown type_is_scalar type_is_int
    type_is_float type_num
loaded_few = omega arith

moved_built : Building moved
moved_built =
    Building.add_insn supply Opcode.move 2 1 0 0 refl loaded_built loaded_few move-Args moved_added

-- The range of r1 has become longer.
r1_dies : (reg_at moved 1).death ≡ 1
unfolding rtl_add_insn add_in_block rtl_add_insn_with_new_block fill_in_insn append_made
    rtl_insn_make makefunc_table make_load_imm encode all_hold mark_all rtl_mark_live block_add
    get_new_block set_src_imm rtl_alloc_register add_register grown type_is_scalar type_is_int
    type_is_float type_num make_move
r1_dies = refl

moved_results : NoNopResult moved
unfolding rtl_add_insn add_in_block rtl_add_insn_with_new_block fill_in_insn append_made
    rtl_insn_make makefunc_table make_load_imm encode all_hold mark_all rtl_mark_live block_add
    get_new_block set_src_imm rtl_alloc_register add_register grown type_is_scalar type_is_int
    type_is_float type_num make_move opcode_num
moved_results zero h = cc
moved_results (suc zero) h = cc
moved_results (suc (suc j)) h = refl

rtl_alloc_register-Allocated_example :
    (r : ℕ × RtlUnit) × (rtl_alloc_register true blank_register rtl_create_unit DataType.int32
      ≡ some r)
    × Allocated blank_register rtl_create_unit DataType.int32 r
rtl_alloc_register-Allocated_example =
    rtl_alloc_register-Allocated true blank_register rtl_create_unit DataType.int32 refl
      (omega arith, omega arith)

-- A unit with one block, which is its last.
moved_last : moved.last_block ≡ pos 0
unfolding rtl_add_insn add_in_block rtl_add_insn_with_new_block fill_in_insn append_made
    rtl_insn_make makefunc_table make_load_imm encode all_hold mark_all rtl_mark_live block_add
    get_new_block set_src_imm rtl_alloc_register add_register grown type_is_scalar type_is_int
    type_is_float type_num make_move
moved_last = refl

moved_room : 0 < moved.blocks_size
unfolding rtl_add_insn add_in_block rtl_add_insn_with_new_block fill_in_insn append_made
    rtl_insn_make makefunc_table make_load_imm encode all_hold mark_all rtl_mark_live block_add
    get_new_block set_src_imm rtl_alloc_register add_register grown type_is_scalar type_is_int
    type_is_float type_num make_move
moved_room = omega arith

block_add-rtl_clear_unit_example :
    ((block_add true blank_block (rtl_clear_unit moved)).0 ≡ true)
    × (next_at (block_add true blank_block (rtl_clear_unit moved)).1.blocks 0 ≡ pos 0)
block_add-rtl_clear_unit_example =
    block_add-rtl_clear_unit true blank_block moved moved_last moved_room

-- L1; goto L1
abbrev goto_unit : RtlUnit
goto_unit = record rtl_create_unit {
  insns =
      record blank_insn { opcode = Opcode.label; label = 1 }
      ∷ record blank_insn { opcode = Opcode.goto; label = 1 }
      ∷ [];
  blocks = record blank_block { entries = no_entries; exits = no_exits } ∷ [];
  have_block = true;
  cur_block = 0;
  label_blockmap = negsuc 0 ∷ pos 0 ∷ [];
}

abbrev number : ℤ → ℕ
number (pos n) = n
number (negsuc n) = 0

goto-Mapped : Mapped goto_unit
goto-Mapped zero t e = cc
goto-Mapped (suc zero) t e = omega (arith, ap number e)
goto-Mapped (suc (suc l)) t e = cc

-- The block is its own successor then.
goto_finalized :
    exits_at (unit_of (rtl_finalize_unit (λ i. true) (λ i. blank_block) goto_unit)).blocks 0
    ≡ pos 0 ∷ negsuc 0 ∷ []
unfolding rtl_finalize_unit finalize add_block_edges add_block_edge add_goto_edge block_add_edge
    add_exit add_entry find_exit find_entry
goto_finalized = refl

rtl_finalize_unit-Returns_example :
    (r : Bool × RtlUnit) × (rtl_finalize_unit (λ i. true) (λ i. blank_block) goto_unit ≡ some r)
    × (r.0 ≡ true → r.1.finalized ≡ true)
    × SameCode goto_unit r.1
rtl_finalize_unit-Returns_example =
    rtl_finalize_unit-Returns (λ i. true) (λ i. blank_block) goto_unit refl (omega arith)
      goto-Mapped

abbrev moved_done : RtlUnit
moved_done = unit_of (rtl_finalize_unit (λ i. true) (λ i. blank_block) moved)

moved_finalized : rtl_finalize_unit (λ i. true) (λ i. blank_block) moved ≡ some (true, moved_done)
unfolding rtl_add_insn add_in_block rtl_add_insn_with_new_block fill_in_insn append_made
    rtl_insn_make makefunc_table make_load_imm encode all_hold mark_all rtl_mark_live block_add
    get_new_block set_src_imm rtl_alloc_register add_register grown type_is_scalar type_is_int
    type_is_float type_num make_move rtl_finalize_unit finalize add_block_edges add_block_edge
moved_finalized = refl

moved-Mapped : Mapped moved
unfolding rtl_add_insn add_in_block rtl_add_insn_with_new_block fill_in_insn append_made
    rtl_insn_make makefunc_table make_load_imm encode all_hold mark_all rtl_mark_live block_add
    get_new_block set_src_imm rtl_alloc_register add_register grown type_is_scalar type_is_int
    type_is_float type_num make_move
moved-Mapped zero t e = cc
moved-Mapped (suc l) t e = cc

moved_few : 2 * length moved.blocks < 65535
unfolding rtl_add_insn add_in_block rtl_add_insn_with_new_block fill_in_insn append_made
    rtl_insn_make makefunc_table make_load_imm encode all_hold mark_all rtl_mark_live block_add
    get_new_block set_src_imm rtl_alloc_register add_register grown type_is_scalar type_is_int
    type_is_float type_num make_move
moved_few = omega arith

Building-verified_example : rtl_verify_unit moved_done ≡ some true
Building-verified_example =
    Building-verified (λ i. true) (λ i. blank_block) moved moved_done moved_built moved_results
      moved_few moved-Mapped moved_finalized
