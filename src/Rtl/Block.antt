-- ===== src/Rtl/Block.antt =====
-- src/rtl-block.c: the basic blocks of a unit and the edges between them.
pub mod Graph
pub mod Slots
pub mod Grow
pub mod Added
pub mod AddBlock
pub mod Linked
pub mod Overflow
pub mod AddEdge
pub mod Search
pub mod Dropped
pub mod Removed
pub mod Built
use libbinrec.Common.{
  ℕ, zero, suc, ◌+◌, ◌-◌, ◌%◌, ◌^◌, leb, Bool, true, false, if◌then◌else◌, List, [], ◌∷◌, ◌++◌,
  length, get_elem?, set, Option, some, none, ◌>>=◌, ℤ, pos, negsuc, is_neg, eq_ℤ,
}
use libbinrec.Word.{signed}
use libbinrec.Rtl.Unit.{BasicBlock, RtlUnit}

abbrev blocks_expand_size : ℕ
blocks_expand_size = 100

-- Block number `i` with its contents changed; a number that no block has changes nothing.
abbrev pub update_block : List BasicBlock → ℕ → (BasicBlock → BasicBlock) → List BasicBlock
update_block [] i f = []
update_block (b ∷ bs) zero f = f b ∷ bs
update_block (b ∷ bs) (suc i) f = b ∷ update_block bs i f

-- The same at an index that may be -1.
abbrev pub update_at : List BasicBlock → ℤ → (BasicBlock → BasicBlock) → List BasicBlock
update_at bs (pos i) f = update_block bs i f
update_at bs (negsuc _) f = bs

-- `memory` tells whether an allocation succeeds, and `slot` is what the new array element holds before
-- it is set. `num_blocks` is a uint16_t: with 65536 blocks it is 0, and no element is in use.
unfoldable pub get_new_block : Bool → BasicBlock → RtlUnit → Option (ℕ × RtlUnit)
get_new_block memory slot u =
    let index = length u.blocks in
    let more = if leb 65535 index then [] else u.blocks ++ slot ∷ [] in
    if leb u.blocks_size index
    then (if memory
        then some
            (index, record u { blocks = more; blocks_size = (index + blocks_expand_size) % 2 ^ 16 })
        else none)
    else some (index, record u { blocks = more })

abbrev pub no_entries : List ℤ
no_entries = negsuc 0 ∷ negsuc 0 ∷ negsuc 0 ∷ negsuc 0 ∷ negsuc 0 ∷ negsuc 0 ∷ negsuc 0 ∷ []

abbrev pub no_exits : List ℤ
no_exits = negsuc 0 ∷ negsuc 0 ∷ []

-- `next_reg - 1`, in a uint16_t.
unfoldable pub block_add : Bool → BasicBlock → RtlUnit → Bool × RtlUnit
block_add memory slot u = elim (get_new_block memory slot u) [
  | none ↦ (false, u)
  | some (index, u') ↦
      let added =
        update_block u'.blocks index
          (λ b. record b { next_block = negsuc 0; prev_block = u'.last_block }) in
      let linked = update_at added u'.last_block (λ b. record b { next_block = signed 16 index }) in
      (
        true,
        record u' {
          blocks = update_block linked index (λ b. record b {
            first_insn = pos 0;
            last_insn = negsuc 0;
            min_death = 0;
            max_live_reg = length u'.regs - 1;
            entries = no_entries;
            entry_overflow = negsuc 0;
            exits = no_exits;
          });
          last_block = signed 16 index;
        },
      )
]

-- What the search of the exit slots finds.
pub data ExitSlot : Type 0 where
  present : ExitSlot
  free_slot : ℕ → ExitSlot
  too_many : ExitSlot

unfoldable pub find_exit : ℕ → List ℤ → ℕ → ExitSlot
find_exit to [] i = too_many
find_exit to (e ∷ es) i =
    let rest = find_exit to es (i + 1) in
    if is_neg e then free_slot i else if eq_ℤ e (pos to) then present else rest

-- The index of the first unused entry slot.
unfoldable pub find_entry : List ℤ → ℕ → Option ℕ
find_entry [] i = none
find_entry (e ∷ es) i = let rest = find_entry es (i + 1) in if is_neg e then some i else rest

-- The entries that move to the dummy block: that of the new edge and all but the first.
abbrev pub moved_entries : ℤ → List ℤ → List ℤ
moved_entries from [] = []
moved_entries from (e ∷ es) = from ∷ es

-- What stays: the first entry, and unused slots.
abbrev pub unused : List ℤ → List ℤ
unused [] = []
unused (e ∷ es) = negsuc 0 ∷ unused es

abbrev pub kept_entries : List ℤ → List ℤ
kept_entries [] = []
kept_entries (e ∷ es) = e ∷ unused es

-- The dummy block that takes the entries of block `target`.
abbrev pub fill_dummy : ℤ → BasicBlock → BasicBlock → BasicBlock
fill_dummy from target b = record b {
  first_insn = pos 0;
  last_insn = negsuc 0;
  entry_overflow = target.entry_overflow;
  next_block = negsuc 1;
  prev_block = negsuc 2;
  exits = negsuc 3 ∷ negsuc 4 ∷ [];
  entries = moved_entries from target.entries;
}

abbrev pub link_dummy : ℤ → BasicBlock → BasicBlock
link_dummy dummy b = record b { entry_overflow = dummy; entries = kept_entries b.entries }

-- The full entry list of block `to`, whose contents are `target`, is split with a dummy block. On
-- failure the exit slot of block `from` is cleared again. `entry` is `from` as an int16_t.
unfoldable pub overflow_entries :
    Bool → BasicBlock → RtlUnit → ℕ → ℤ → ℕ → ℕ → BasicBlock → Bool × RtlUnit
overflow_entries memory slot u from entry exit_index to target =
    elim (get_new_block memory slot u) [
      | none ↦ (
        false,
        record u {
          blocks =
              update_block u.blocks from
                (λ b. record b { exits = set b.exits exit_index (negsuc 0) });
        },
      )
      | some (dummy, u') ↦ (
        true,
        record u' {
          blocks =
              update_block (update_block u'.blocks dummy (fill_dummy entry target)) to
                (link_dummy (signed 16 dummy));
        },
      )
    ]

-- The entry half of rtl_block_add_edge(), once the search for an unused entry slot is over.
unfoldable pub add_entry :
    Bool → BasicBlock → RtlUnit → ℕ → ℤ → ℕ → ℕ → BasicBlock → Option ℕ → Bool × RtlUnit
add_entry memory slot u from entry exit_index to target (some i) = (
  true,
  record u {
    blocks = update_block u.blocks to (λ b. record b { entries = set b.entries i entry });
  },
)
add_entry memory slot u from entry exit_index to target none =
    overflow_entries memory slot u from entry exit_index to target

-- The rest of rtl_block_add_edge() after the search of the exit slots: `entry` and `exit` are `from` and
-- `to` as int16_t.
unfoldable pub add_exit :
    Bool → BasicBlock → RtlUnit → ℕ → ℕ → ℤ → ℤ → ExitSlot → Option (Bool × RtlUnit)
add_exit memory slot u from to entry exit present = some (true, u)
add_exit memory slot u from to entry exit too_many = some (false, u)
add_exit memory slot u from to entry exit (free_slot exit_index) = do
  let u' : RtlUnit = record u {
    blocks = update_block u.blocks from (λ b. record b { exits = set b.exits exit_index exit });
  }
  target ← get_elem? u'.blocks to
  some (add_entry memory slot u' from entry exit_index to target (find_entry target.entries 0))

-- `none` where an index is no block, which the code asserts.
unfoldable pub block_add_edge : Bool → BasicBlock → RtlUnit → ℕ → ℕ → Option (Bool × RtlUnit)
block_add_edge memory slot u from to = do
  source ← get_elem? u.blocks from
  add_exit memory slot u from to (signed 16 from) (signed 16 to) (find_exit to source.exits 0)

-- The slots after `i` move down by one, and the last becomes unused.
unfoldable pub shift_out : List ℤ → ℕ → List ℤ
shift_out [] i = []
shift_out (e ∷ es) zero = es ++ negsuc 0 ∷ []
shift_out (e ∷ es) (suc i) = e ∷ shift_out es i

unfoldable pub index_of : ℕ → List ℤ → ℕ → Option ℕ
index_of from [] i = none
index_of from (e ∷ es) i =
    let rest = index_of from es (i + 1) in if eq_ℤ e (pos from) then some i else rest

-- The search along a block's entry list and its extensions for an entry from block `from`, on fuel:
-- the block that holds it and the slot. `none` where the code would run off the end of the chain.
unfoldable pub find_holder : ℕ → List BasicBlock → ℕ → ℤ → Option (ℕ × ℕ)
find_holder zero bs from i = none
find_holder (suc fuel) bs from (negsuc _) = none
find_holder (suc fuel) bs from (pos k) = elim (get_elem? bs k) [
  | none ↦ none
  | some b ↦ elim (index_of from b.entries 0) [
    | some slot ↦ some (k, slot)
    | none ↦ find_holder fuel bs from b.entry_overflow
  ]
]

-- A block and its extensions are no more than the blocks of the unit, and one more step of fuel ends
-- the search.
unfoldable pub block_remove_edge : RtlUnit → ℕ → ℕ → Option RtlUnit
block_remove_edge u from exit_index = do
  source ← get_elem? u.blocks from
  to ← get_elem? source.exits exit_index
  let bs = update_block u.blocks from (λ b. record b { exits = shift_out b.exits exit_index })
  (holder, slot) ← find_holder (suc (length bs)) bs from to
  some (record u {
    blocks = update_block bs holder (λ b. record b { entries = shift_out b.entries slot });
  })
