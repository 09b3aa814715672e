-- ===== src/Tests/Passes.antt =====
-- The passes of src/rtl-opt.c on a unit whose first block is a loop with a constant condition.
use libbinrec.Common.{
  ℕ, zero, suc, ◌≡◌, refl, ◌<◌, ◌≤◌, length, ap, bool_to_ℕ, eq_ℤ, ==_ne, true, false, List, [], ◌∷◌,
  some, pos, negsuc, arith, true_and_false, ◌⊎◌, inl, ◌↔◌,
}
use libbinrec.Rtl.Opcode.{Opcode, opcode_num, RegType, opcode_has_src3, opcode_has_alias}
use libbinrec.Rtl.Unit.{BasicBlock, RtlUnit}
use libbinrec.Rtl.Unit.Access.{
  blank_alias, set_src_imm, blank_insn, blank_register, blank_block, insn_at,
}
use libbinrec.Rtl.Block.Graph.{
  Consistent, Chain, overflow_at, entries_at, out_count, in_count, count_slots, tail_count,
}
use libbinrec.Rtl.Opt.Live.{
  may_raise, release, erase_insn, rollback_reg_death, prev_use_loop, kill_loop, uses_reg,
  killed_src1, killed_src2, killed_src3, prev_reg_use, rtl_opt_kill_insn,
}
use libbinrec.Rtl.Opt.Live.Range.{
  birth, death, uses, Latest, OperandsOk, Ranges, Shrinks, prev_reg_use-Latest,
}
use libbinrec.Rtl.Opt.Kill.{rtl_opt_kill_insn-Ranges}
use libbinrec.Rtl.Opt.Kill.Enough.{Early, rtl_opt_kill_insn_enough}
use libbinrec.Rtl.Opt.Visit.{is_seen, visit_block, clear_seen}
use libbinrec.Rtl.Opt.Visit.Reach.{Route, Targets, visit_block-Route}
use libbinrec.Rtl.Opt.Dead.{
  rtl_opt_drop_dead_stores, drop_stores, maybe_kill_store, has_side_effects,
}
use libbinrec.Rtl.Opt.Alias.{AliasRef, blank_ref, kill_blocks}
use libbinrec.Rtl.Opt.Alias.Fate.{Traced, kill_blocks-Traced}
use libbinrec.Rtl.Opt.Branch.{index, never_goto, decondition_block}
use libbinrec.Rtl.Opt.Decondition.{Conditional, decondition_block-Removed}
use libbinrec.Rtl.Block.Removed.{Removed}

-- Block 0 leads to itself and to block 1.
abbrev loop_blocks : List BasicBlock
loop_blocks =
    record blank_block {
      last_insn = pos 2;
      next_block = pos 1;
      entries = pos 0 ∷ negsuc 0 ∷ negsuc 0 ∷ negsuc 0 ∷ negsuc 0 ∷ negsuc 0 ∷ negsuc 0 ∷ [];
      exits = pos 1 ∷ pos 0 ∷ [];
    }
    ∷ record blank_block {
      first_insn = pos 3;
      last_insn = pos 3;
      prev_block = pos 0;
      entries = pos 0 ∷ negsuc 0 ∷ negsuc 0 ∷ negsuc 0 ∷ negsuc 0 ∷ negsuc 0 ∷ negsuc 0 ∷ [];
    }
    ∷ []

-- L1; r1 = 0; if (r1 != 0) goto L1; r2 = r1
abbrev loop_unit : RtlUnit
loop_unit = record {
  insns =
      record blank_insn { opcode = Opcode.label; label = 1 }
      ∷ record blank_insn { opcode = Opcode.load_imm; dest = 1 }
      ∷ record blank_insn { opcode = Opcode.goto_if_nz; src1 = 1; label = 1 }
      ∷ record blank_insn { opcode = Opcode.move; dest = 2; src1 = 1 }
      ∷ [];
  insns_size = 4;
  blocks = loop_blocks;
  blocks_size = 2;
  have_block = false;
  cur_block = 1;
  last_block = pos 1;
  label_blockmap = negsuc 0 ∷ pos 0 ∷ [];
  labels_size = 2;
  regs =
      blank_register
      ∷ record blank_register { source = RegType.constant; live = true; birth = 1; death = 3 }
      ∷ record blank_register { source = RegType.result; live = true; birth = 3; death = 3 }
      ∷ [];
  regs_size = 3;
  first_live_reg = 1;
  last_live_reg = 2;
  membase_reg = 0;
  aliases = [];
  aliases_size = 0;
  error = false;
  finalized = false;
  block_seen = [];
}

operands_ok : (j : ℕ) → OperandsOk loop_unit (insn_at loop_unit j)
unfolding killed_src1 killed_src2 killed_src3 opcode_has_src3
operands_ok zero = record {
  src1_lt = omega arith;
  src2_lt = omega arith;
  src3_lt = omega arith;
  get_src1 = λ e. cc;
  set_src2 = λ e. cc;
}
operands_ok (suc zero) = record {
  src1_lt = omega arith;
  src2_lt = omega arith;
  src3_lt = omega arith;
  get_src1 = λ e. cc;
  set_src2 = λ e. cc;
}
operands_ok (suc (suc zero)) = record {
  src1_lt = omega arith;
  src2_lt = omega arith;
  src3_lt = omega arith;
  get_src1 = λ e. cc;
  set_src2 = λ e. cc;
}
operands_ok (suc (suc (suc zero))) = record {
  src1_lt = omega arith;
  src2_lt = omega arith;
  src3_lt = omega arith;
  get_src1 = λ e. cc;
  set_src2 = λ e. cc;
}
operands_ok (suc (suc (suc (suc j)))) = record {
  src1_lt = omega arith;
  src2_lt = omega arith;
  src3_lt = omega arith;
  get_src1 = λ e. cc;
  set_src2 = λ e. cc;
}

ordered : (r : ℕ) → 0 < r → r < 3 → birth loop_unit r ≤ death loop_unit r
ordered zero p l = absurd (omega arith)
ordered (suc zero) p l = omega arith
ordered (suc (suc zero)) p l = omega arith
ordered (suc (suc (suc r))) p l = absurd (omega arith)

used_by_three : (r j : ℕ) → 0 < r → r < 3 → uses loop_unit j r ≡ true → j ≤ 3
unfolding uses_reg opcode_has_src3 opcode_has_alias
used_by_three zero j p l e = absurd (omega arith)
used_by_three (suc zero) (suc (suc (suc (suc j)))) p l e = absurd (true_and_false e refl)
used_by_three (suc (suc zero)) (suc (suc (suc (suc j)))) p l e = absurd (true_and_false e refl)
used_by_three (suc (suc (suc r))) j p l e = absurd (omega arith)
used_by_three r zero p l e = omega arith
used_by_three r (suc zero) p l e = omega arith
used_by_three r (suc (suc zero)) p l e = omega arith
used_by_three r (suc (suc (suc zero))) p l e = omega arith

death_three : (r : ℕ) → 0 < r → r < 3 → death loop_unit r ≡ 3
death_three zero p l = absurd (omega arith)
death_three (suc zero) p l = refl
death_three (suc (suc zero)) p l = refl
death_three (suc (suc (suc r))) p l = absurd (omega arith)

last_used :
    (r : ℕ)
    → 0 < r
    → r < 3
    → birth loop_unit r < death loop_unit r
    → (uses loop_unit (death loop_unit r) r ≡ true) ⊎ ⊥
unfolding uses_reg opcode_has_src3 opcode_has_alias
last_used zero p l b = absurd (omega arith)
last_used (suc zero) p l b = inl refl
last_used (suc (suc zero)) p l b = absurd (omega arith)
last_used (suc (suc (suc r))) p l b = absurd (omega arith)

loop_unit-Ranges : Ranges (λ j. ⊥) loop_unit
loop_unit-Ranges = record {
  operands = operands_ok;
  order = ordered;
  bounded = λ r j p l b e. omega (arith, death_three r p l, used_by_three r j p l e);
  ends = last_used;
  dead = λ j r g p. absurd g;
}

prev_reg_use-Latest_example : Latest loop_unit 1 1 3 (prev_reg_use loop_unit 1 3)
prev_reg_use-Latest_example = prev_reg_use-Latest loop_unit 1 3

rtl_opt_kill_insn-Ranges_example :
    Ranges (λ j. ⊥) (rtl_opt_kill_insn loop_unit 3 false true)
    × Shrinks 3 loop_unit (rtl_opt_kill_insn loop_unit 3 false true)
rtl_opt_kill_insn-Ranges_example = rtl_opt_kill_insn-Ranges loop_unit 3 false true loop_unit-Ranges

abbrev Real : ℕ → Type 0
Real n = n ≡ 0

leads_on : Targets loop_blocks
leads_on zero j zero e = omega (arith, ap index e)
leads_on zero j (suc zero) e = omega (arith, ap index e)
leads_on zero j (suc (suc k)) e = cc
leads_on (suc zero) j zero e = cc
leads_on (suc zero) j (suc zero) e = cc
leads_on (suc zero) j (suc (suc k)) e = cc
leads_on (suc (suc i)) j zero e = cc
leads_on (suc (suc i)) j (suc zero) e = cc
leads_on (suc (suc i)) j (suc (suc k)) e = cc

visit_block-Route_example :
    (is_seen (visit_block 2 loop_blocks (clear_seen loop_blocks) 0) 1 ≡ true)
    ↔ Route loop_blocks 1 0
visit_block-Route_example = visit_block-Route loop_blocks 0 1 leads_on (omega arith)

loop_chains : (t : ℕ) → Real 0 → Chain (λ k. 0) t 2 loop_blocks (overflow_at loop_blocks t)
loop_chains zero r = tt
loop_chains (suc zero) r = tt
loop_chains (suc (suc t)) r = tt

far : (n y : ℕ) → n < 2 → eq_ℤ (pos n) (pos (suc (suc y))) ≡ false
far n y l = ==_ne n (suc (suc y)) (λ e. omega (arith, e))

loop_targets : (k y : ℕ) → Real 0 → 0 < out_count loop_blocks k y → Real 0 × (y < 2)
unfolding out_count in_count count_slots tail_count
loop_targets zero zero r h = (refl, omega arith)
loop_targets zero (suc zero) r h = (refl, omega arith)
loop_targets zero (suc (suc y)) r h =
    absurd
      (omega (arith, ap bool_to_ℕ (far 1 y (omega arith)), ap bool_to_ℕ (far 0 y (omega arith))))
loop_targets (suc zero) y r h = absurd (omega arith)
loop_targets (suc (suc k)) y r h = absurd (omega arith)

loop_mirrored : (k y : ℕ) → Real 0 → Real 0 → out_count loop_blocks k y ≡ in_count loop_blocks y k
unfolding out_count in_count count_slots tail_count
loop_mirrored zero zero r r' = refl
loop_mirrored zero (suc zero) r r' = refl
loop_mirrored zero (suc (suc y)) r r' =
    omega (arith, ap bool_to_ℕ (far 1 y (omega arith)), ap bool_to_ℕ (far 0 y (omega arith)))
loop_mirrored (suc zero) zero r r' = refl
loop_mirrored (suc zero) (suc zero) r r' = refl
loop_mirrored (suc zero) (suc (suc y)) r r' = refl
loop_mirrored (suc (suc k)) zero r r' = omega (arith, ap bool_to_ℕ (far 0 k (omega arith)))
loop_mirrored (suc (suc k)) (suc zero) r r' = omega (arith, ap bool_to_ℕ (far 0 k (omega arith)))
loop_mirrored (suc (suc k)) (suc (suc y)) r r' = refl

loop_slots : (k : ℕ) → Real 0 → k < 2 → length (entries_at loop_blocks k) ≡ 7
loop_slots zero r h = refl
loop_slots (suc zero) r h = refl
loop_slots (suc (suc k)) r h = absurd (omega arith)

loop_blocks-Consistent : Consistent (λ k. 0) loop_blocks
loop_blocks-Consistent = record {
  chains = loop_chains;
  targets = loop_targets;
  mirrored = loop_mirrored;
  slots = loop_slots;
  fresh = λ k h. refl;
}

decondition_block-Removed_example :
    (u' : RtlUnit) × (m : ℕ) × (decondition_block loop_unit 0 ≡ some u')
    × Removed (λ k. 0) loop_blocks u'.blocks 0 0 m
    × (insn_at u' 2 ≡ never_goto (insn_at loop_unit 2))
decondition_block-Removed_example =
    decondition_block-Removed (λ k. 0) loop_unit 0 0 loop_blocks-Consistent refl (omega arith)
      (λ e. absurd (omega (arith, e))) (inl (refl, refl)) refl (omega arith) Conditional.if_nz refl

loop_unit-Early : Early loop_unit
unfolding uses_reg opcode_has_src3 opcode_has_alias
loop_unit-Early j zero p e = absurd (omega arith)
loop_unit-Early zero (suc r) p e = absurd (ground (arith, e))
loop_unit-Early (suc zero) (suc r) p e = absurd (ground (arith, e))
loop_unit-Early (suc (suc j)) (suc zero) p e = omega arith
loop_unit-Early (suc (suc zero)) (suc (suc r)) p e = absurd (ground (arith, e))
loop_unit-Early (suc (suc (suc zero))) (suc (suc r)) p e = absurd (ground (arith, e))
loop_unit-Early (suc (suc (suc (suc j)))) (suc (suc r)) p e = absurd (ground (arith, e))

rtl_opt_kill_insn_enough_example :
    kill_loop 9 false true loop_unit 3 ≡ rtl_opt_kill_insn loop_unit 3 false true
rtl_opt_kill_insn_enough_example =
    rtl_opt_kill_insn_enough 9 loop_unit 3 false true loop_unit-Early (omega arith)

-- r2 = CMPXCHG(r1, ...); r3 = r2, which nothing reads: both instructions go.
abbrev exchange_unit : RtlUnit
exchange_unit = record loop_unit {
  insns =
      record blank_insn { opcode = Opcode.load_imm; dest = 1 }
      ∷ record blank_insn { opcode = Opcode.cmpxchg; dest = 2; src1 = 1; src2 = 1; src3 = 1 }
      ∷ record blank_insn { opcode = Opcode.move; dest = 3; src1 = 2 }
      ∷ [];
  regs =
      blank_register
      ∷ record blank_register { source = RegType.constant; live = true; death = 1 }
      ∷ record blank_register { source = RegType.result; live = true; birth = 1; death = 2 }
      ∷ record blank_register { source = RegType.result; live = true; birth = 2; death = 2 }
      ∷ [];
}

exchange_dropped : (insn_at (rtl_opt_drop_dead_stores false exchange_unit) 1).opcode ≡ Opcode.nop
unfolding rtl_opt_drop_dead_stores drop_stores maybe_kill_store has_side_effects rtl_opt_kill_insn
    kill_loop may_raise opcode_num release killed_src1 killed_src2 killed_src3 opcode_has_src3
    erase_insn rollback_reg_death prev_reg_use prev_use_loop opcode_has_alias uses_reg set_src_imm
exchange_dropped = refl

-- Block 0 sets an alias at instruction 1, and nothing reads it.
abbrev alias_unit : RtlUnit
alias_unit = record loop_unit { aliases = blank_alias ∷ blank_alias ∷ [] }

abbrev alias_info : ℕ → List AliasRef
alias_info zero = blank_ref ∷ record blank_ref { has_set = true; set_insn = 1 } ∷ []
alias_info (suc b) = blank_ref ∷ blank_ref ∷ []

kill_blocks-Traced_example :
    (u' : RtlUnit) × (kill_blocks 2 alias_info alias_unit (pos 0) ≡ some u')
    × Traced alias_info alias_unit (pos 0) u'
kill_blocks-Traced_example =
    kill_blocks-Traced (λ k. 0) 2 alias_info alias_unit (pos 0) leads_on
      (refl, omega arith, (refl, omega arith, tt))
