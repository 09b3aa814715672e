-- ===== src/Lib.antt =====
-- libbinrec translates PowerPC code to x86 code through an intermediate language, RTL. A
-- translation unit of RTL is a list of instructions, a table of the virtual registers they set,
-- and a graph of basic blocks. The front end builds the unit, the optimiser (src/rtl-opt.c)
-- rewrites it, and the back end reads it.
--
-- This library models the core of the RTL side: the state of a unit, the calls that build one and
-- the encoder of each instruction, the operations on its flow graph, the passes of the optimiser,
-- and the word operations that these use. It also models the handle through which a program uses
-- the library, with its map of read-only memory, from which the optimiser may load constants, and
-- its buffer for host code.
--
-- - Common and its children: shared names, Boolean tests, lists and integers.
-- - Word: machine words as natural numbers below 2^w. Word.Bits is src/bitutils.h (clz32, ctz32,
--   ror32, ...), in the code that is compiled where no compiler intrinsic is used; Word.Endian is
--   src/endian.h, with the byte order of the host as an argument.
-- - Word.Masks and Word.Laws: what masks and shifts do to the digits of a number. Word.Clz and
--   Word.Bswap: clz32() and bswap32().
-- - Rtl.Opcode and Rtl.Unit: the types of src/rtl.h and src/rtl-internal.h. RTLUnit is the record
--   RtlUnit, RTLRegister is Register, RTLBlock is BasicBlock; an array with a count of used
--   elements is the list of these, and a union is its members side by side.
-- - Rtl.Fold, Rtl.Fold.Float, Rtl.Fold.Constant: fold_constant() of src/rtl-opt.c, one function
--   for each case of its switch. Shifts by the width of the type or more, which C leaves
--   undefined, give none.
-- - Rtl.Fold.Immediate: convert_to_regimm(); its children compare the operations before and after,
--   row by row (Agree) and as a whole (Sound).
-- - Rtl.Mulh: mulh64().
-- - Rtl.Block: src/rtl-block.c. An index that is no block, which the code asserts against, gives
--   none. Graph is the flow graph that the blocks stand for, by counts of edges, and when it is
--   consistent. AddBlock is about rtl_block_add(); AddEdge about rtl_block_add_edge(), with Linked
--   for an edge in a free slot and Overflow for one that needs a dummy block to extend a full
--   entry list; Removed about rtl_block_remove_edge(), with Search for the search of the entry and
--   Dropped for its removal. Built is the sequences of these calls, with fewer than 32768 blocks
--   where a call adds something.
-- - Rtl.Insn: rtl_mark_live() and the encoders of src/rtl-insn.c. One function per encoder: Alu,
--   Fpu, Vec and Mem have those of arithmetic, floating point, vectors and memory, Call those with
--   optional operands, Flow those that change the flow graph (LABEL, GOTO, the conditional
--   branches and RETURN); Table is makefunc_table[] with rtl_insn_make(). Marked is about the live
--   ranges that an encoder keeps and Effect about what it does to the registers. An encoder
--   returns none, or Flow's `refused`, where an operand check is violated; `checks` tells whether
--   the library is compiled with them.
-- - Rtl.Builder: src/rtl.c, the functions that create a unit, clear it, and give out registers,
--   alias registers and labels. Add has rtl_add_insn(), rtl_add_chain_insn() and
--   rtl_add_insn_copy(); Finish the edges of the GOTOs, rtl_finalize_unit() and rtl_verify_unit(),
--   with Edges and Finalize about the first two; Optimize rtl_optimize_unit() with the passes in
--   their order. Append and Split are about the flow graph and the block of a new instruction,
--   Effect, Third, Encoders and Insns about the instructions and registers, Alike, Ready and
--   Allocate about the sizes of the tables and the calls that give something out, Sound the
--   invariant on blocks and instructions. History is the sequences of calls on a new unit, under
--   the conditions that its type Building lists, Verify what rtl_verify_unit() finds after
--   rtl_finalize_unit(), Limit the number of registers, Clear a unit that is used again.
-- - Rtl.Opt: passes of src/rtl-opt.c over a unit. A read of an array past its end gives a blank
--   element, where C would read past the array. Live is rtl_opt_kill_insn() with the ends of
--   register live ranges (prev_reg_use(), rollback_reg_death()); Live.Range says when live ranges
--   are tight, Live.Erase is about the instruction that goes, Kill about the operands it leaves
--   behind, Kill.Enough about the end of the recursion. Visit is visit_block(), Visit.Reach the
--   paths of the flow graph. Branch is rtl_opt_decondition(), rtl_opt_thread_branches() and
--   rtl_opt_drop_dead_branches(); Decondition is about the first of them on one block, and Reduced
--   about what dropping edges keeps of the flow graph. Dead is rtl_opt_drop_dead_stores() and
--   rtl_opt_drop_dead_blocks(); Dead.Stores is about the first, and Dead.Stream, Dead.Exits,
--   Dead.Outcome and Dead.Reachable about the second: the links of the code stream, the edges and
--   instructions of a dead block, one block, all of them. Alias is rtl_opt_alias_data_flow(), with
--   Alias.Visible about is_alias_store_visible() and Alias.Fate about the stores that are killed
--   after the scan. FoldRegisters is rtl_opt_fold_registers() with the loads from read-only
--   memory, Folding fold_one_reg_constant(), Vector fold_one_reg_vector(), with Vector.Same for
--   what the operations on vectors compute.
-- - Api.Handle: binrec_t of src/common.h and the functions of src/api.c that create a handle and
--   set its options.
-- - Api.Readonly: the map of read-only memory, with lookup_partial_readonly_page(),
--   add_partial_readonly_page(), is_address_readonly() and the interface functions on it. The
--   arrays are functions of the index; where C would fail an assertion or read past an array the
--   result is none. Lookup is about the search, Table and Insert about a new entry.
-- - Api.CodeBuffer: src/memory.c and binrec_ensure_code_space() of src/common.h, with Space for
--   when there is room.
-- - Tests: runs at concrete values.
--
-- The assertions of the passes that are about the encoders' work (the operands of an instruction
-- are in order, a killed instruction's result is dead) are not modelled; those on branches, labels
-- and edges make a pass return none. The assertions of src/rtl-insn.c that registers and aliases
-- are of the unit are conditions of the theorems (the record Args), and those on labels and CHAIN
-- instructions give `assert_failed`. That a unit is finalized, or is not, is checked by
-- rtl_finalize_unit(), rtl_verify_unit() and rtl_alloc_register(); the other functions of
-- src/rtl.c assert it too, which is not modelled: they are applied to units that are not
-- finalized, rtl_optimize_unit() to one that is.
--
-- Guest memory, as the host loads from it, is the parameter `load`. C's floating-point arithmetic
-- and <math.h> are the parameter Fp, on bit patterns. What the allocators return for the code
-- buffer is the parameter Allocator. Elsewhere whether an allocation succeeds is the argument
-- `memory`, and what fresh memory holds is `slot`; in Rtl.Builder the record Supply has these for
-- each of the arrays. Block numbers wrap as the 16-bit fields that hold them (last_block,
-- next_block, entries, exits, entry_overflow, label_blockmap), and num_blocks is 0 again at 65536.
-- find_holder runs on fuel, one more than the number of blocks. kill_loop runs on fuel, one more
-- than the index of the instruction, since a register is set before it is used. visit_block runs
-- on fuel, the number of blocks, since each call marks one more; each_block, drop_blocks,
-- scan_blocks and kill_blocks too, since the code stream has each block once.
-- is_alias_store_visible runs on one more, since it marks a block before it goes on there.
-- add_block_edges runs on fuel, twice the number of blocks and one more, since the edge of a block
-- adds one dummy block at most. remove_exits runs on fuel 2, the number of exits of a block.
-- follow runs on fuel, one more than the number of instructions times one more than the number of
-- blocks, since it enters a block once and then goes forward. lookup_loop runs on fuel, the number
-- of entries: each round leaves at most half of what the search still has to look at.
--
-- Not modelled: the front end and the back end, whose meaning rests on processor manuals;
-- rtl_destroy_unit(), which only frees memory; binrec_translate() of src/api.c, which calls these;
-- logging, and rtl_disassemble_unit() with the other text dumps.
pub mod Common
pub mod Word
pub mod Rtl
pub mod Api
mod Tests
