-- ===== src/Rtl/Builder/Finish.antt =====
-- rtl_finalize_unit() and rtl_verify_unit() of src/rtl.c.
use libbinrec.Common.{
  ℕ, zero, suc, ◌+◌, ◌*◌, ◌==◌, ltb, leb, not, ◌&&◌, ◌||◌, Bool, true, false, if◌then◌else◌, length,
  get_or, Option, some, none, ◌>>=◌, ℤ, pos, negsuc, sub_ℕ,
}
use libbinrec.Rtl.Opcode.{Opcode, opcode_has_src3}
use libbinrec.Rtl.Unit.{Insn, BasicBlock, RtlUnit}
use libbinrec.Rtl.Unit.Access.{insn_at, reg_at, block_at, same_opcode}
use libbinrec.Rtl.Block.{block_add_edge}
use libbinrec.Rtl.Insn.Flow.{end_block}
use libbinrec.Rtl.Opt.Branch.{has_insns, index}

abbrev pub is_goto : Opcode → Bool
is_goto Opcode.goto = true
is_goto Opcode.goto_if_z = true
is_goto Opcode.goto_if_nz = true
is_goto _ = false

abbrev pub label_block : RtlUnit → ℕ → ℤ
label_block u label = get_or u.label_blockmap label (negsuc 0)

-- The edge from a block to that of a GOTO's label. `none` is a violated ASSERT().
unfoldable pub add_goto_edge : Bool → BasicBlock → RtlUnit → ℕ → ℤ → Option (Bool × RtlUnit)
add_goto_edge memory slot u block_index (pos target) =
    block_add_edge memory slot u block_index target
add_goto_edge memory slot u block_index (negsuc _) = some (false, u)

-- Of a block, its last instruction is read where the block is not empty.
unfoldable pub add_block_edge : Bool → BasicBlock → RtlUnit → ℕ → Option (Bool × RtlUnit)
add_block_edge memory slot u block_index =
    let block : BasicBlock = block_at u block_index in
    let insn : Insn = insn_at u (index block.last_insn) in
    if has_insns block && is_goto insn.opcode
    then add_goto_edge memory slot u block_index (label_block u insn.label)
    else some (true, u)

-- The loop tests `num_blocks` each time, and an edge may add a dummy block, which is empty: there are at
-- most as many of these as edges. `memory` and `slots` are what the edges get from the allocator.
unfoldable pub add_block_edges :
    ℕ → (ℕ → Bool) → (ℕ → BasicBlock) → RtlUnit → ℕ → Option (Bool × RtlUnit)
add_block_edges zero memory slots u block_index = none
add_block_edges (suc fuel) memory slots u block_index =
    if leb (length u.blocks) block_index
    then some (true, u)
    else elim (add_block_edge (memory block_index) (slots block_index) u block_index) [
      | none ↦ none
      | some (false, u') ↦ some (false, u')
      | some (true, u') ↦ add_block_edges fuel memory slots u' (block_index + 1)
    ]

-- rtl_finalize_unit() after its assertions.
unfoldable pub finalize : (ℕ → Bool) → (ℕ → BasicBlock) → RtlUnit → Option (Bool × RtlUnit)
finalize memory slots u =
    let ended : RtlUnit =
      if u.have_block
      then record (end_block u (sub_ℕ (length u.insns) 1)) { have_block = false }
      else u in
    do
      (ok, u') ← add_block_edges (2 * length u.blocks + 1) memory slots ended 0
      some (ok, if ok then record u' { finalized = true } else u')

-- `none` where ASSERT(!unit->finalized) is violated.
unfoldable pub rtl_finalize_unit : (ℕ → Bool) → (ℕ → BasicBlock) → RtlUnit → Option (Bool × RtlUnit)
rtl_finalize_unit memory slots u = if u.finalized then none else finalize memory slots u

-- A register past `next_reg` is blank, and none past `regs_size` is read.
unfoldable pub verify_reg : RtlUnit → ℕ → Bool
verify_reg u reg_index =
    let birth : ℕ = (reg_at u reg_index).birth in
    let insn : Insn = insn_at u birth in
    not (ltb reg_index 1 || leb u.regs_size reg_index)
    && ltb birth (length u.insns)
    && not (not (insn.dest == reg_index) || same_opcode insn.opcode Opcode.nop)

abbrev pub verify_operand : RtlUnit → ℕ → Bool
verify_operand u src = src == 0 || verify_reg u src

abbrev pub verify_insn : RtlUnit → Insn → Bool
verify_insn u insn =
    verify_operand u insn.src1
    && verify_operand u insn.src2
    && (not (opcode_has_src3 insn.opcode) || verify_operand u insn.src3)

-- The `count` instructions from `i` on.
unfoldable pub verify_insns : ℕ → RtlUnit → ℕ → Bool
verify_insns zero u i = true
verify_insns (suc count) u i = verify_insn u (insn_at u i) && verify_insns count u (i + 1)

-- `none` where ASSERT(unit->finalized) is violated.
unfoldable pub rtl_verify_unit : RtlUnit → Option Bool
rtl_verify_unit u = if u.finalized then some (verify_insns (length u.insns) u 0) else none
