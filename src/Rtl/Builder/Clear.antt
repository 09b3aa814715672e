-- ===== src/Rtl/Builder/Clear.antt =====
-- rtl_clear_unit() of src/rtl.c, and the first block that a cleared unit gets.
use libbinrec.Common.{ℕ, ◌<◌, ◌≡◌, refl, leb, Bool, true, false, some, [], ◌∷◌, pos, arith}
use libbinrec.Rtl.Unit.{BasicBlock, RtlUnit}
use libbinrec.Rtl.Block.{get_new_block, block_add}
use libbinrec.Rtl.Block.Graph.{next_at}
use libbinrec.Rtl.Builder.{rtl_clear_unit}

found :
    (memory : Bool) (slot : BasicBlock) (u : RtlUnit)
    → 0 < u.blocks_size
    → get_new_block memory slot (rtl_clear_unit u)
      ≡ some (0, record (rtl_clear_unit u) { blocks = slot ∷ [] })
unfolding get_new_block rtl_clear_unit
found memory slot u room = rw (above u.blocks_size room) refl
  where
    above : (n : ℕ) → 0 < n → leb n 0 ≡ false
    above n l = ground arith

kept_last : (u : RtlUnit) → u.last_block ≡ pos 0 → (rtl_clear_unit u).last_block ≡ pos 0
unfolding rtl_clear_unit
kept_last u last = last

-- The last block of the unit stays as it was in rtl_clear_unit(): where that was block 0, and there is
-- room for a block, the first block that rtl_block_add() gives to the cleared unit is block 0, which
-- comes next after itself in the code stream.
pub block_add-rtl_clear_unit :
    (memory : Bool) (slot : BasicBlock) (u : RtlUnit)
    → u.last_block ≡ pos 0
    → 0 < u.blocks_size
    → ((block_add memory slot (rtl_clear_unit u)).0 ≡ true)
      × (next_at (block_add memory slot (rtl_clear_unit u)).1.blocks 0 ≡ pos 0)
unfolding block_add
block_add-rtl_clear_unit memory slot u last room =
    rw (found memory slot u room, block_add) (rw (kept_last u last) (refl, refl))
