-- ===== src/Tests/Blocks.antt =====
-- The functions of src/rtl-block.c on units of one and two blocks.
use libbinrec.Common.{
  ℕ, inl, some, zero, suc, ◌≡◌, refl, ◌<◌, length, ap, bool_to_ℕ, eq_ℤ, ==_ne, true, false, List,
  [], ◌∷◌, pos, negsuc, arith,
}
use libbinrec.Rtl.Unit.{BasicBlock, RtlUnit}
use libbinrec.Rtl.Block.{
  no_entries, no_exits, block_add, get_new_block, find_exit, add_exit, find_entry, add_entry,
  block_add_edge, block_remove_edge,
}
use libbinrec.Rtl.Block.Graph.{
  Consistent, Chain, overflow_at, entries_at, out_count, in_count, count_slots, tail_count,
}
use libbinrec.Rtl.Block.Removed.{Removed, block_remove_edge-Removed}
use libbinrec.Rtl.Block.AddBlock.{AddOutcome, block_add-AddOutcome}
use libbinrec.Rtl.Block.Built.{empty, add_block, add_edge, Sound, Built-Sound}
use libbinrec.Rtl.Block.AddEdge.{Outcome, block_add_edge-Outcome}

abbrev blank : BasicBlock
blank = record {
  first_insn = pos 0;
  last_insn = negsuc 0;
  min_death = 0;
  max_live_reg = 0;
  next_block = negsuc 0;
  prev_block = negsuc 0;
  entries = no_entries;
  entry_overflow = negsuc 0;
  exits = no_exits;
}

abbrev start_block : BasicBlock
start_block = record blank { exits = pos 1 ∷ negsuc 0 ∷ [] }

abbrev end_block : BasicBlock
end_block = record blank {
  entries = pos 0 ∷ negsuc 0 ∷ negsuc 0 ∷ negsuc 0 ∷ negsuc 0 ∷ negsuc 0 ∷ negsuc 0 ∷ [];
}

-- Block 0 leads to block 1.
abbrev two_blocks : List BasicBlock
two_blocks = start_block ∷ end_block ∷ []

abbrev two_block_unit : RtlUnit
two_block_unit = record {
  insns = [];
  insns_size = 0;
  blocks = two_blocks;
  blocks_size = 2;
  have_block = false;
  cur_block = 0;
  last_block = pos 1;
  label_blockmap = [];
  labels_size = 0;
  regs = [];
  regs_size = 0;
  first_live_reg = 0;
  last_live_reg = 0;
  membase_reg = 0;
  aliases = [];
  aliases_size = 0;
  error = false;
  finalized = false;
  block_seen = [];
}

abbrev Real : ℕ → Type 0
Real n = n ≡ 0

no_chains : (t : ℕ) → Real 0 → Chain (λ k. 0) t 2 two_blocks (overflow_at two_blocks t)
no_chains zero r = tt
no_chains (suc zero) r = tt
no_chains (suc (suc t)) r = tt

far : (y : ℕ) → eq_ℤ (pos 1) (pos (suc (suc y))) ≡ false
far y = ==_ne 1 (suc (suc y)) (λ e. omega (arith, e))

beyond : (k : ℕ) → eq_ℤ (pos 0) (pos (suc (suc k))) ≡ false
beyond k = ==_ne 0 (suc (suc k)) (λ e. omega (arith, e))

one_target : (k y : ℕ) → Real 0 → 0 < out_count two_blocks k y → Real 0 × (y < 2)
unfolding out_count in_count count_slots tail_count
one_target zero zero r h = absurd (omega arith)
one_target zero (suc zero) r h = (refl, omega arith)
one_target zero (suc (suc y)) r h = absurd (omega (arith, ap bool_to_ℕ (far y)))
one_target (suc zero) y r h = absurd (omega arith)
one_target (suc (suc k)) y r h = absurd (omega arith)

both_ways : (k y : ℕ) → Real 0 → Real 0 → out_count two_blocks k y ≡ in_count two_blocks y k
unfolding out_count in_count count_slots tail_count
both_ways zero zero r r' = refl
both_ways zero (suc zero) r r' = refl
both_ways zero (suc (suc y)) r r' = omega (arith, ap bool_to_ℕ (far y))
both_ways (suc zero) zero r r' = refl
both_ways (suc zero) (suc zero) r r' = refl
both_ways (suc zero) (suc (suc y)) r r' = refl
both_ways (suc (suc k)) zero r r' = refl
both_ways (suc (suc k)) (suc zero) r r' = omega (arith, ap bool_to_ℕ (beyond k))
both_ways (suc (suc k)) (suc (suc y)) r r' = refl

seven_slots : (k : ℕ) → Real 0 → k < 2 → length (entries_at two_blocks k) ≡ 7
seven_slots zero r h = refl
seven_slots (suc zero) r h = refl
seven_slots (suc (suc k)) r h = absurd (omega arith)

two_blocks-Consistent : Consistent (λ k. 0) two_blocks
two_blocks-Consistent = record {
  chains = no_chains;
  targets = one_target;
  mirrored = both_ways;
  slots = seven_slots;
  fresh = λ k h. refl;
}

block_add_edge-Outcome_example :
    Outcome (λ k. 0) true two_block_unit 1 0 (block_add_edge true blank two_block_unit 1 0)
block_add_edge-Outcome_example =
    block_add_edge-Outcome (λ k. 0) true blank two_block_unit 1 0 two_blocks-Consistent refl
      (omega arith) (omega arith) (omega arith)

block_remove_edge-Removed_example :
    (u' : RtlUnit) × (block_remove_edge two_block_unit 0 0 ≡ some u')
    × Removed (λ k. 0) two_blocks u'.blocks 0 1 0
block_remove_edge-Removed_example =
    block_remove_edge-Removed (λ k. 0) two_block_unit 0 1 0 two_blocks-Consistent refl (omega arith)
      refl

block_add-AddOutcome_example :
    AddOutcome (λ k. 0) true two_block_unit (block_add true blank two_block_unit)
block_add-AddOutcome_example =
    block_add-AddOutcome (λ k. 0) true blank two_block_unit two_blocks-Consistent (omega arith)

-- A unit of one block that leads to itself, as the functions build it.
abbrev empty_unit : RtlUnit
empty_unit = record two_block_unit { blocks = []; blocks_size = 0; last_block = negsuc 0 }

abbrev one_block : RtlUnit
one_block = (block_add true blank empty_unit).1

abbrev loop_block : RtlUnit
loop_block = record one_block {
  blocks =
      record blank {
        max_live_reg = 0;
        entries = pos 0 ∷ negsuc 0 ∷ negsuc 0 ∷ negsuc 0 ∷ negsuc 0 ∷ negsuc 0 ∷ negsuc 0 ∷ [];
        exits = pos 0 ∷ negsuc 0 ∷ [];
      }
      ∷ [];
}

one_block_added : block_add true blank empty_unit ≡ (true, one_block)
unfolding block_add get_new_block
one_block_added = refl

loop_added : block_add_edge true blank one_block 0 0 ≡ some (true, loop_block)
unfolding block_add get_new_block block_add_edge find_exit add_exit find_entry add_entry
loop_added = refl

Built-Sound_example : (own : ℕ → ℕ) × Sound own loop_block.blocks (0 ∷ [])
unfolding block_add get_new_block
Built-Sound_example = Built-Sound loop_block (0 ∷ []) (
    add_edge true blank 0 0
      (add_block true blank (empty empty_unit refl) (omega arith) one_block_added) (inl refl)
      (inl refl) (omega arith) loop_added)
