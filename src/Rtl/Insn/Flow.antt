-- ===== src/Rtl/Insn/Flow.antt =====
-- Encoders of src/rtl-insn.c that end basic blocks: make_label(), make_goto(), make_goto_cond() and
-- make_return(). `memory` and `slot` are what rtl_block_add() gets from the allocator.
use libbinrec.Common.{
  ℕ, ◌+◌, ◌-◌, ◌%◌, ◌^◌, ◌==◌, leb, not, ◌&&◌, ◌||◌, Bool, true, false, if◌then◌else◌, [], ◌∷◌,
  length, get_or, modify, Option, some, none, ℤ, pos, negsuc, is_neg, eq_ℤ, sub_ℕ,
}
use libbinrec.Word.{signed}
use libbinrec.Rtl.Opcode.{type_is_int}
use libbinrec.Rtl.Unit.{Insn, RtlUnit, BasicBlock}
use libbinrec.Rtl.Unit.Access.{reg_at, block_at}
use libbinrec.Rtl.Block.{update_block, block_add, block_add_edge}
use libbinrec.Rtl.Insn.{is_defined, operand, mark_all, all_hold}

-- What an encoder gives. Refused operands leave the unit as it was; a failed allocation leaves the
-- current block ended; `assert_failed` is a violated ASSERT().
pub data Made : Type 0 where
  refused : Made
  failed : RtlUnit → Made
  assert_failed : Made
  made : RtlUnit → Insn → Made

-- Where an encoder adds no block, no result is a refusal.
abbrev pub from_option : Option (RtlUnit × Insn) → Made
from_option none = Made.refused
from_option (some (u, insn)) = Made.made u insn

-- ASSERT(other < count)
abbrev pub assert_below : ℕ → ℕ → Made → Made
assert_below other count m = if leb count other then assert_failed else m

abbrev pub end_block : RtlUnit → ℤ → RtlUnit
end_block u last = record u {
  blocks = update_block u.blocks u.cur_block (λ b. record b { last_insn = last });
}

-- rtl_block_add_edge() from the current block to the new one, which becomes the current block.
unfoldable pub enter_block : RtlUnit → ℕ → ℕ → Option (Bool × RtlUnit) → Option RtlUnit
enter_block u new_block first (some (true, u')) = some (record u' {
  cur_block = new_block;
  blocks = update_block u'.blocks new_block (λ b. record b { first_insn = pos first });
})
enter_block u new_block first _ = none

-- The current block ends at instruction `last`, and a new one starts at `first`.
unfoldable pub split_block : Bool → BasicBlock → RtlUnit → ℤ → ℕ → (RtlUnit → Made) → Made
split_block memory slot u last first k =
    let added : Bool × RtlUnit = block_add memory slot (end_block u last) in
    let new_block : ℕ = length added.1.blocks - 1 in
    if added.0
    then elim (enter_block added.1 new_block first
        (block_add_edge memory slot added.1 added.1.cur_block new_block)) [
          | none ↦ assert_failed
          | some u' ↦ k u'
        ]
    else failed added.1

abbrev pub set_label : ℕ → RtlUnit → RtlUnit
set_label label u = record u {
  label_blockmap = modify u.label_blockmap label (λ b. signed 16 u.cur_block);
}

unfoldable pub make_label : Bool → Bool → BasicBlock → RtlUnit → Insn → ℕ → Made
make_label checks memory slot u insn other =
    let insn' : Insn = record insn { label = other % 2 ^ 16 } in
    let finish : RtlUnit → Made = λ u'. made (set_label insn'.label u') insn' in
    let n : ℕ = length u.insns in
    assert_below other (length u.label_blockmap) (
      if checks
        && not
            (all_hold (not (other == 0) ∷ is_neg (get_or u.label_blockmap other (negsuc 0)) ∷ []))
      then refused
      else if eq_ℤ (block_at u u.cur_block).first_insn (pos n)
      then finish u
      else split_block memory slot u (sub_ℕ n 1) n finish)

unfoldable pub make_goto : Bool → RtlUnit → Insn → ℕ → Made
make_goto checks u insn other = assert_below other (length u.label_blockmap) (
    if checks && not (all_hold (not (other == 0) ∷ []))
    then refused
    else made (record (end_block u (pos (length u.insns))) { have_block = false })
        (record insn { label = other % 2 ^ 16 }))

unfoldable pub make_goto_cond : Bool → Bool → BasicBlock → RtlUnit → Insn → ℕ → ℕ → Made
make_goto_cond checks memory slot u insn src1 other =
    let n : ℕ = length u.insns in
    assert_below other (length u.label_blockmap) (
      if checks
        && not (
            all_hold (
              not (src1 == 0)
              ∷ not (other == 0)
              ∷ is_defined u src1
              ∷ type_is_int (reg_at u src1).type
              ∷ []))
      then refused
      else split_block memory slot (mark_all u n (src1 ∷ [])) (pos n) (n + 1)
          (λ u'. made u' (record insn { src1 = src1; label = other % 2 ^ 16 })))

unfoldable pub make_return : Bool → RtlUnit → Insn → ℕ → Made
make_return checks u insn src1 =
    let n : ℕ = length u.insns in
    if checks
      && not (all_hold ((src1 == 0 || is_defined u src1 && type_is_int (reg_at u src1).type) ∷ []))
    then refused
    else made (record (end_block (mark_all u n (operand src1)) (pos n)) { have_block = false })
        (record insn { src1 = src1 })
