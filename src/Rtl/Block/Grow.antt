-- ===== src/Rtl/Block/Grow.antt =====
-- get_new_block() of src/rtl-block.c: the ways a call can end, and block numbers that int16_t holds.
use libbinrec.Common.{
  leb, ◌≡◌, ◌<◌, refl, Bool, false, Bool-cases, inl, inr, ◌⊎◌, [], ◌∷◌, ◌++◌, length, some, none, ℕ,
  ◌+◌, ◌%◌, ◌^◌, pos, arith,
}
use libbinrec.Word.{signed}
use libbinrec.Rtl.Unit.{BasicBlock, RtlUnit}
use libbinrec.Rtl.Block.{get_new_block}

pub signed_small : (n : ℕ) → n < 32768 → signed 16 n ≡ pos n
signed_small n l = ground (arith, l)

pub get_new_block-cases :
    (memory : Bool) (slot : BasicBlock) (u : RtlUnit)
    → length u.blocks < 65535
    → ((get_new_block memory slot u ≡ none) × (memory ≡ false))
      ⊎ ((size : ℕ) × (get_new_block memory slot u
            ≡ some
                (length u.blocks, record u { blocks = u.blocks ++ slot ∷ []; blocks_size = size })))
unfolding get_new_block
get_new_block-cases memory slot u few = elim (Bool-cases (leb u.blocks_size (length u.blocks))) [
  | inl grow ↦ elim (Bool-cases memory) [
    | inl enough ↦ inr ((length u.blocks + 100) % 2 ^ 16, rw (grow, enough, room) refl)
    | inr short ↦ inl (rw (grow, short) refl, short)
  ]
  | inr fits ↦ inr (u.blocks_size, rw (fits, room) refl)
]
  where
    room : leb 65535 (length u.blocks) ≡ false
    room = ground (arith, few)
