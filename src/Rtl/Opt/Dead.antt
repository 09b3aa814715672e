-- ===== src/Rtl/Opt/Dead.antt =====
-- rtl_opt_drop_dead_stores() and rtl_opt_drop_dead_blocks() of src/rtl-opt.c. The marks of
-- `block_seen` are a list of their own. `none` is where an assertion of the code fails.
pub mod Stores
pub mod Stream
pub mod Exits
pub mod Outcome
pub mod Reachable
use libbinrec.Common.{
  ℕ, zero, suc, ◌+◌, ◌-◌, ◌==◌, ltb, not, ◌&&◌, Bool, true, false, if◌then◌else◌, List, length,
  Option, some, none, ◌>>=◌, ℤ, pos, negsuc, eq_ℤ, is_neg,
}
use libbinrec.Rtl.Opcode.{Opcode}
use libbinrec.Rtl.Unit.{BasicBlock, Insn, Register, RtlUnit}
use libbinrec.Rtl.Unit.Access.{insn_at, reg_at, block_at}
use libbinrec.Rtl.Block.{update_block, block_remove_edge}
use libbinrec.Rtl.Opt.Live.{rtl_opt_kill_insn}
use libbinrec.Rtl.Opt.Visit.{exit_at, is_seen, visit_block, clear_seen}
use libbinrec.Rtl.Opt.Branch.{index, has_insns}

-- The instructions that maybe_kill_store() keeps for their side effects.
unfoldable pub has_side_effects : Opcode → Bool
has_side_effects Opcode.atomic_inc = true
has_side_effects Opcode.cmpxchg = true
has_side_effects Opcode.call = true
has_side_effects Opcode.call_transparent = true
has_side_effects _ = false

unfoldable pub maybe_kill_store : Bool → RtlUnit → ℕ → RtlUnit
maybe_kill_store ignore_fexc u reg =
    let insn_index : ℕ = (reg_at u reg).birth in
    if has_side_effects (insn_at u insn_index).opcode
    then u
    else rtl_opt_kill_insn u insn_index ignore_fexc true

-- The registers from `reg` on.
unfoldable pub drop_stores : ℕ → Bool → RtlUnit → ℕ → RtlUnit
drop_stores zero ignore_fexc u reg = u
drop_stores (suc count) ignore_fexc u reg =
    let r : Register = reg_at u reg in
    drop_stores count ignore_fexc
      (if r.live && r.death == r.birth then maybe_kill_store ignore_fexc u reg else u) (reg + 1)

unfoldable pub rtl_opt_drop_dead_stores : Bool → RtlUnit → RtlUnit
rtl_opt_drop_dead_stores ignore_fexc u = drop_stores (length u.regs - 1) ignore_fexc u 1

abbrev pub set_next : ℤ → BasicBlock → BasicBlock
set_next i b = record b { next_block = i }

abbrev pub set_prev : ℤ → BasicBlock → BasicBlock
set_prev i b = record b { prev_block = i }

-- Block i leaves the code stream, between block p and the block `next`.
unfoldable pub relink : RtlUnit → ℕ → ℕ → ℤ → Option RtlUnit
relink u i p (pos n) = some (record u {
  blocks = update_block (update_block u.blocks p (set_next (pos n))) n (set_prev (pos p));
})
relink u i p (negsuc e) = elim (eq_ℤ u.last_block (pos i)) [
  | true ↦
      some (record u { blocks = update_block u.blocks p (set_next (negsuc e)); last_block = pos p })
  | false ↦ none
]

unfoldable pub unlink_block : RtlUnit → ℕ → Option RtlUnit
unlink_block u i = elim (block_at u i).prev_block [
  | negsuc _ ↦ none
  | pos p ↦ relink u i p (block_at u i).next_block
]

-- A block has two exits, so that two rounds are enough; `none` where they are not.
unfoldable pub remove_exits : ℕ → RtlUnit → ℕ → Option RtlUnit
remove_exits zero u i = if is_neg (exit_at u.blocks i 0) then some u else none
remove_exits (suc fuel) u i = elim (is_neg (exit_at u.blocks i 0)) [
  | true ↦ some u
  | false ↦ (do u' ← block_remove_edge u i 0; remove_exits fuel u' i)
]

-- The `count` instructions from `first` on, the last one first. An instruction whose result is still
-- read stays.
unfoldable pub kill_insns : ℕ → RtlUnit → ℕ → RtlUnit
kill_insns zero u first = u
kill_insns (suc count) u first =
    let j : ℕ = first + count in
    let dest : ℕ = (insn_at u j).dest in
    kill_insns count
      (if not (dest == 0) && ltb j (reg_at u dest).death
        then u
        else rtl_opt_kill_insn u j true false)
      first

unfoldable pub kill_block : RtlUnit → ℕ → RtlUnit
kill_block u i =
    let first : ℕ = index (block_at u i).first_insn in
    if has_insns (block_at u i)
    then kill_insns (index (block_at u i).last_insn + 1 - first) u first
    else u

unfoldable pub drop_block : RtlUnit → ℕ → Option RtlUnit
drop_block u i = do u1 ← unlink_block u i; u2 ← remove_exits 2 u1 i; some (kill_block u2 i)

-- The blocks from `i` back to the start. The fuel is the number of blocks; `none` also where the list
-- of blocks does not end.
unfoldable pub drop_blocks : ℕ → List Bool → RtlUnit → ℤ → Option RtlUnit
drop_blocks fuel seen u (negsuc _) = some u
drop_blocks zero seen u (pos i) = none
drop_blocks (suc fuel) seen u (pos i) = do
  u' ← elim (is_seen seen i) [ true ↦ some u | false ↦ drop_block u i ]
  drop_blocks fuel seen u' (block_at u' i).prev_block

unfoldable pub rtl_opt_drop_dead_blocks : RtlUnit → Option RtlUnit
rtl_opt_drop_dead_blocks u =
    drop_blocks (length u.blocks) (visit_block (length u.blocks) u.blocks (clear_seen u.blocks) 0) u
      u.last_block
