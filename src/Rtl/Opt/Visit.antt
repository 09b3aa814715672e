-- ===== src/Rtl/Opt/Visit.antt =====
-- visit_block() of src/rtl-opt.c: the blocks that control flow can reach.
pub mod Reach
use libbinrec.Common.{
  ℕ, zero, suc, ◌+◌, Bool, true, false, List, [], ◌∷◌, get_or, modify, length, ℤ, pos, negsuc,
}
use libbinrec.Rtl.Unit.{BasicBlock}
use libbinrec.Rtl.Unit.Access.{blank_block}

-- Exit slot e of a block.
abbrev pub exit_at : List BasicBlock → ℕ → ℕ → ℤ
exit_at bs i e = get_or (get_or bs i blank_block).exits e (negsuc 0)

abbrev pub is_seen : List Bool → ℕ → Bool
is_seen seen i = get_or seen i false

abbrev pub mark_seen : List Bool → ℕ → List Bool
mark_seen seen i = modify seen i (λ b. true)

-- One exit of the block; `visit` is the recursive call.
unfoldable pub visit_exit : (List Bool → ℕ → List Bool) → List Bool → ℤ → List Bool
visit_exit visit seen (negsuc _) = seen
visit_exit visit seen (pos j) = elim (is_seen seen j) [ true ↦ seen | false ↦ visit seen j ]

-- A call marks one block more: the fuel is the number of blocks that are not seen.
unfoldable pub visit_block : ℕ → List BasicBlock → List Bool → ℕ → List Bool
visit_block zero bs seen i = seen
visit_block (suc fuel) bs seen i =
    let visit : List Bool → ℕ → List Bool = visit_block fuel bs in
    visit_exit visit (visit_exit visit (mark_seen seen i) (exit_at bs i 1)) (exit_at bs i 0)

-- A cleared `block_seen` array.
unfoldable pub clear_seen : List BasicBlock → List Bool
clear_seen [] = []
clear_seen (b ∷ bs) = false ∷ clear_seen bs
