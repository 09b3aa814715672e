-- ===== src/Tests/Dead.antt =====
-- rtl_opt_drop_dead_blocks() and is_alias_store_visible() of src/rtl-opt.c on a unit whose second block
-- is not reachable.
use libbinrec.Common.{
  ℕ, zero, suc, ◌≡◌, refl, ◌<◌, length, ap, bool_to_ℕ, eq_ℤ, ==_ne, true, false, List, [], ◌∷◌,
  some, pos, negsuc, arith, ◌↔◌,
}
use libbinrec.Rtl.Unit.{BasicBlock, RtlUnit}
use libbinrec.Rtl.Unit.Access.{blank_insn, blank_register, blank_block}
use libbinrec.Rtl.Block.Graph.{
  Consistent, Chain, overflow_at, entries_at, out_count, in_count, count_slots, tail_count,
}
use libbinrec.Rtl.Opt.Visit.Reach.{Route, Targets}
use libbinrec.Rtl.Opt.Branch.{index}
use libbinrec.Rtl.Opt.Reduced.{TwoExits}
use libbinrec.Rtl.Opt.Dead.{rtl_opt_drop_dead_blocks}
use libbinrec.Rtl.Opt.Visit.{clear_seen}
use libbinrec.Rtl.Opt.Alias.{AliasRef, blank_ref, is_alias_store_visible}
use libbinrec.Rtl.Opt.Alias.Visible.{Visible, is_alias_store_visible-Visible}
use libbinrec.Rtl.Opt.Dead.Outcome.{Smaller, Stream}
use libbinrec.Rtl.Opt.Dead.Reachable.{Has, rtl_opt_drop_dead_blocks-Route}

-- Block 1 leads to block 0, which leads nowhere.
abbrev blocks : List BasicBlock
blocks =
    record blank_block {
      next_block = pos 1;
      entries = pos 1 ∷ negsuc 0 ∷ negsuc 0 ∷ negsuc 0 ∷ negsuc 0 ∷ negsuc 0 ∷ negsuc 0 ∷ [];
    }
    ∷ record blank_block {
      prev_block = pos 0;
      entries = negsuc 0 ∷ negsuc 0 ∷ negsuc 0 ∷ negsuc 0 ∷ negsuc 0 ∷ negsuc 0 ∷ negsuc 0 ∷ [];
      exits = pos 0 ∷ negsuc 0 ∷ [];
    }
    ∷ []

abbrev unit : RtlUnit
unit = record {
  insns = blank_insn ∷ blank_insn ∷ [];
  insns_size = 2;
  blocks = blocks;
  blocks_size = 2;
  have_block = false;
  cur_block = 1;
  last_block = pos 1;
  label_blockmap = negsuc 0 ∷ [];
  labels_size = 1;
  regs = blank_register ∷ [];
  regs_size = 1;
  first_live_reg = 0;
  last_live_reg = 0;
  membase_reg = 0;
  aliases = [];
  aliases_size = 0;
  error = false;
  finalized = true;
  block_seen = [];
}

abbrev Real : ℕ → Type 0
Real n = n ≡ 0

chains : (t : ℕ) → Real 0 → Chain (λ k. 0) t 2 blocks (overflow_at blocks t)
chains zero r = tt
chains (suc zero) r = tt
chains (suc (suc t)) r = tt

far : (n y : ℕ) → n < 1 → eq_ℤ (pos n) (pos (suc y)) ≡ false
far n y l = ==_ne n (suc y) (λ e. omega (arith, e))

beyond : (n y : ℕ) → n < 2 → eq_ℤ (pos n) (pos (suc (suc y))) ≡ false
beyond n y l = ==_ne n (suc (suc y)) (λ e. omega (arith, e))

targets : (k y : ℕ) → Real 0 → 0 < out_count blocks k y → Real 0 × (y < 2)
unfolding out_count count_slots
targets zero y r h = absurd (omega arith)
targets (suc zero) zero r h = (refl, omega arith)
targets (suc zero) (suc y) r h = absurd (omega (arith, ap bool_to_ℕ (far 0 y (omega arith))))
targets (suc (suc k)) y r h = absurd (omega arith)

mirrored : (k y : ℕ) → Real 0 → Real 0 → out_count blocks k y ≡ in_count blocks y k
unfolding out_count in_count count_slots tail_count
mirrored zero zero r r' = refl
mirrored zero (suc zero) r r' = refl
mirrored zero (suc (suc y)) r r' = refl
mirrored (suc zero) zero r r' = refl
mirrored (suc zero) (suc zero) r r' = refl
mirrored (suc zero) (suc (suc y)) r r' = omega (arith, ap bool_to_ℕ (far 0 (suc y) (omega arith)))
mirrored (suc (suc k)) zero r r' = omega (arith, ap bool_to_ℕ (beyond 1 k (omega arith)))
mirrored (suc (suc k)) (suc zero) r r' = refl
mirrored (suc (suc k)) (suc (suc y)) r r' = refl

slots : (k : ℕ) → Real 0 → k < 2 → length (entries_at blocks k) ≡ 7
slots zero r h = refl
slots (suc zero) r h = refl
slots (suc (suc k)) r h = absurd (omega arith)

blocks-Consistent : Consistent (λ k. 0) blocks
blocks-Consistent = record {
  chains = chains;
  targets = targets;
  mirrored = mirrored;
  slots = slots;
  fresh = λ k h. refl;
}

blocks-TwoExits : TwoExits (λ k. 0) blocks
blocks-TwoExits zero r l = (refl, λ t e. cc)
blocks-TwoExits (suc zero) r l = (refl, λ t e. cc)
blocks-TwoExits (suc (suc k)) r l = absurd (omega arith)

blocks-Targets : Targets blocks
blocks-Targets zero j zero e = cc
blocks-Targets zero j (suc zero) e = cc
blocks-Targets zero j (suc (suc k)) e = cc
blocks-Targets (suc zero) j zero e = omega (arith, ap index e)
blocks-Targets (suc zero) j (suc zero) e = cc
blocks-Targets (suc zero) j (suc (suc k)) e = cc
blocks-Targets (suc (suc i)) j zero e = cc
blocks-Targets (suc (suc i)) j (suc zero) e = cc
blocks-Targets (suc (suc i)) j (suc (suc k)) e = cc

unit-Stream : Stream (λ k. 0) unit (1 ∷ 0 ∷ []) []
unit-Stream = record {
  before = (
    omega arith,
    refl,
    omega arith,
    refl,
    refl,
    (omega arith, refl, omega arith, refl, refl, tt),
  );
  after = tt;
  ends = refl;
}

rtl_opt_drop_dead_blocks-Route_example :
    (u' : RtlUnit) × (l : List ℕ) × (rtl_opt_drop_dead_blocks unit ≡ some u')
    × Smaller (λ k. 0) blocks u'.blocks
    × Stream (λ k. 0) u' [] l
    × ((k : ℕ) → Has k l ↔ (Has k (1 ∷ 0 ∷ []) × Route blocks k 0))
rtl_opt_drop_dead_blocks-Route_example =
    rtl_opt_drop_dead_blocks-Route (λ k. 0) unit 1 (0 ∷ []) blocks-Consistent blocks-TwoExits
      blocks-Targets refl unit-Stream

-- The store at the end of block 1 is read in block 0.
abbrev refs : ℕ → AliasRef
refs zero = record blank_ref { has_get = true }
refs (suc k) = record blank_ref { has_set = true; set_insn = 1 }

is_alias_store_visible-Visible_example :
    ((is_alias_store_visible 3 blocks refs false (clear_seen blocks) 1).0 ≡ true)
    ↔ Visible blocks refs false 1
is_alias_store_visible-Visible_example =
    is_alias_store_visible-Visible blocks refs false 1 blocks-Targets (omega arith)
