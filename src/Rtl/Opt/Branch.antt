-- ===== src/Rtl/Opt/Branch.antt =====
-- The passes of src/rtl-opt.c on branches: rtl_opt_decondition(), rtl_opt_thread_branches() and
-- rtl_opt_drop_dead_branches(). `none` is where an assertion of the code fails.
use libbinrec.Common.{
  ℕ, zero, suc, ◌+◌, ◌-◌, ◌*◌, ◌==◌, leb, not, ◌&&◌, ◌||◌, Bool, true, false, if◌then◌else◌, List,
  length, get_or, modify, Option, some, none, ◌>>=◌, ℤ, pos, negsuc, eq_ℤ, is_neg,
}
use libbinrec.Rtl.Opcode.{Opcode, is_constant}
use libbinrec.Rtl.Unit.{Insn, BasicBlock, RtlUnit}
use libbinrec.Rtl.Unit.Access.{insn_at, reg_at, block_at, update_insn, set_src_imm, same_opcode}
use libbinrec.Rtl.Block.{block_add_edge, block_remove_edge}
use libbinrec.Rtl.Opt.Live.{rollback_reg_death, rtl_opt_kill_insn}
use libbinrec.Rtl.Opt.Visit.{exit_at, is_seen, mark_seen, clear_seen}

-- An index that is known not to be negative.
abbrev pub index : ℤ → ℕ
index (pos i) = i
index (negsuc _) = 0

-- Whether a block has instructions: last_insn >= first_insn.
abbrev pub has_insns : BasicBlock → Bool
has_insns block =
    not (is_neg block.last_insn) && leb (index block.first_insn) (index block.last_insn)

abbrev pub is_goto_if_z : Opcode → Bool
is_goto_if_z Opcode.goto_if_z = true
is_goto_if_z _ = false

abbrev pub is_goto_if_nz : Opcode → Bool
is_goto_if_nz Opcode.goto_if_nz = true
is_goto_if_nz _ = false

abbrev pub is_goto : Opcode → Bool
is_goto Opcode.goto = true
is_goto _ = false

-- GOTO or a conditional branch.
abbrev pub is_branch : Opcode → Bool
is_branch op = is_goto op || is_goto_if_z op || is_goto_if_nz op

-- Whether a conditional branch on the given value is always taken.
unfoldable pub branch_taken : Opcode → ℕ → Bool
branch_taken op condition =
    (is_goto_if_z op && condition == 0) || (is_goto_if_nz op && not (condition == 0))

abbrev pub always_goto : Insn → Insn
always_goto insn = record insn { opcode = Opcode.goto; src1 = 0 }

abbrev pub never_goto : Insn → Insn
never_goto insn = set_src_imm 0 (record insn { opcode = Opcode.nop; src1 = 0 })

-- The slot of the edge that goes away; `^ 1` takes the other of the two.
unfoldable pub dropped_exit : RtlUnit → ℕ → Bool → ℕ
dropped_exit u b taken =
    let fallthrough : ℕ = if eq_ℤ (exit_at u.blocks b 0) (pos (b + 1)) then 0 else 1 in
    if taken then fallthrough else 1 - fallthrough

-- A block whose branch depends on a constant.
unfoldable pub drop_condition : RtlUnit → ℕ → Option RtlUnit
drop_condition u b = do
  let last : ℕ = index (block_at u b).last_insn
  let branch : Insn = insn_at u last
  let taken : Bool = branch_taken branch.opcode (reg_at u branch.src1).value
  u' ←
      block_remove_edge (update_insn u last (λ i. if taken then always_goto i else never_goto i)) b
        (dropped_exit u b taken)
  some (if (reg_at u branch.src1).death == last then (rollback_reg_death u' branch.src1).1 else u')

unfoldable pub decondition_block : RtlUnit → ℕ → Option RtlUnit
decondition_block u b =
    let branch : Insn = insn_at u (index (block_at u b).last_insn) in
    if is_neg (exit_at u.blocks b 1)
    then some u
    else if not
        (has_insns (block_at u b) && (is_goto_if_z branch.opcode || is_goto_if_nz branch.opcode))
    then none
    else if not (is_constant (reg_at u branch.src1).source)
    then some u
    else drop_condition u b

-- A pass over the blocks in the order of the code stream: the fuel is the number of blocks, and `none`
-- also where the list of blocks does not end.
unfoldable pub each_block : ℕ → (RtlUnit → ℕ → Option RtlUnit) → RtlUnit → ℤ → Option RtlUnit
each_block fuel pass u (negsuc _) = some u
each_block zero pass u (pos b) = none
each_block (suc fuel) pass u (pos b) = do
  u' ← pass u b
  each_block fuel pass u' (block_at u' b).next_block

unfoldable pub rtl_opt_decondition : RtlUnit → Option RtlUnit
rtl_opt_decondition u = each_block (length u.blocks) decondition_block u (pos 0)

-- The search of thread_branch() from instruction i on: the label and the block to go to, if the branch
-- can go elsewhere. `fuel` bounds the instructions that are looked at: each block is entered once.
unfoldable pub follow :
    ℕ → RtlUnit → Insn → List Bool → ℕ → Option (ℕ × ℕ) → Option (Option (ℕ × ℕ))
follow zero u branch seen i found = none
follow (suc fuel) u branch seen i found =
    let insn : Insn = insn_at u i in
    let target : ℤ = get_or u.label_blockmap insn.label (negsuc 0) in
    if leb (length u.insns) i
    then some found
    else elim (is_goto insn.opcode
        || (same_opcode insn.opcode branch.opcode && insn.src1 == branch.src1)) [
          | true ↦ elim target [
            | negsuc _ ↦ none
            | pos t ↦ elim (is_seen seen t) [
              | true ↦ some none
              | false ↦
                  follow fuel u branch (mark_seen seen t) (index (block_at u t).first_insn)
                    (some (insn.label, t))
            ]
          ]
          | false ↦
              elim (same_opcode insn.opcode Opcode.nop || same_opcode insn.opcode Opcode.label) [
                | true ↦ follow fuel u branch seen (i + 1) found
                | false ↦ some found
              ]
        ]

-- The branch of block b, from block `target` to `new_target` by `label`. `memory` and `slot` are those
-- of the two calls of rtl_block_add_edge(); the second one has to succeed.
unfoldable pub redirect : Bool → BasicBlock → RtlUnit → ℕ → ℕ → ℕ → ℕ → Option RtlUnit
redirect memory slot u b target label new_target = do
  u1 ← block_remove_edge u b (if eq_ℤ (exit_at u.blocks b 1) (pos target) then 1 else 0)
  (added, u2) ← block_add_edge memory slot u1 b new_target
  if added
      then some (update_insn u2 (index (block_at u b).last_insn) (λ i. record i { label = label }))
      else (do
        (restored, u3) ← block_add_edge memory slot u2 b target
        if restored then some u3 else none)

unfoldable pub thread_branch : Bool → BasicBlock → RtlUnit → ℕ → Option RtlUnit
thread_branch memory slot u b =
    let branch : Insn = insn_at u (index (block_at u b).last_insn) in
    elim (get_or u.label_blockmap branch.label (negsuc 0)) [
      | negsuc _ ↦ none
      | pos target ↦ (do
        found ←
            follow ((length u.insns + 1) * (length u.blocks + 1)) u branch
              (mark_seen (clear_seen u.blocks) b) (index (block_at u target).first_insn) none
        elim found [
          | none ↦ some u
          | some (label, new_target) ↦
              if label == 0 then some u else redirect memory slot u b target label new_target
        ])
    ]

unfoldable pub thread_block : Bool → BasicBlock → RtlUnit → ℕ → Option RtlUnit
thread_block memory slot u b =
    let block : BasicBlock = block_at u b in
    if has_insns block && is_branch (insn_at u (index block.last_insn)).opcode
    then thread_branch memory slot u b
    else some u

unfoldable pub rtl_opt_thread_branches : Bool → BasicBlock → RtlUnit → Option RtlUnit
rtl_opt_thread_branches memory slot u =
    each_block (length u.blocks) (thread_block memory slot) u (pos 0)

-- A branch to the next block goes; the label of any other is marked in the `src1` field of its LABEL.
unfoldable pub drop_branch : Bool → Bool → RtlUnit → ℕ → Option RtlUnit
drop_branch ignore_fexc dse u b =
    let block : BasicBlock = block_at u b in
    let last : ℕ = index block.last_insn in
    let target : ℤ = get_or u.label_blockmap (insn_at u last).label (negsuc 0) in
    if not (has_insns block && is_branch (insn_at u last).opcode)
    then some u
    else if eq_ℤ target block.next_block
    then some (rtl_opt_kill_insn u last ignore_fexc dse)
    else if is_neg target
    then none
    else some
        (update_insn u (index (block_at u (index target)).first_insn) (λ i. record i { src1 = 1 }))

-- A label without a mark goes. `none` is a violated ASSERT().
unfoldable pub drop_label : RtlUnit → ℕ → Option RtlUnit
drop_label u label =
    let target : ℤ = get_or u.label_blockmap label (negsuc 0) in
    let at : ℕ = index (block_at u (index target)).first_insn in
    let kept : RtlUnit = update_insn u at (λ i. record i { src1 = 0 }) in
    let dropped : RtlUnit =
      record (update_insn u at (λ i. set_src_imm 0 (record i { opcode = Opcode.nop }))) {
        label_blockmap = modify u.label_blockmap label (λ b. negsuc 0);
      } in
    if is_neg target
    then some u
    else if not (same_opcode (insn_at u at).opcode Opcode.label && (insn_at u at).label == label)
    then none
    else some (if not ((insn_at u at).src1 == 0) then kept else dropped)

-- The labels from `label` on.
unfoldable pub drop_labels : ℕ → RtlUnit → ℕ → Option RtlUnit
drop_labels zero u label = some u
drop_labels (suc count) u label = do u' ← drop_label u label; drop_labels count u' (label + 1)

unfoldable pub rtl_opt_drop_dead_branches : Bool → Bool → RtlUnit → Option RtlUnit
rtl_opt_drop_dead_branches ignore_fexc dse u = do
  u' ← each_block (length u.blocks) (drop_branch ignore_fexc dse) u (pos 0)
  drop_labels (length u'.label_blockmap - 1) u' 1
