-- ===== src/Rtl/Builder.antt =====
-- src/rtl.c: rtl_create_unit(), rtl_clear_unit() and the allocation and attributes of registers, alias
-- registers and labels. `memory` tells whether an allocation succeeds, and `slot` is what the array
-- holds at the new element: zero, or -1 for a label, unless rtl_clear_unit() left something there.
pub mod Add
pub mod Finish
pub mod Edges
pub mod Finalize
pub mod Optimize
pub mod Sound
pub mod Append
pub mod Effect
pub mod Third
pub mod Split
pub mod Encoders
pub mod Insns
pub mod Alike
pub mod Ready
pub mod Allocate
pub mod History
pub mod Verify
pub mod Limit
pub mod Clear
use libbinrec.Common.{
  ℕ, ◌+◌, ◌-◌, ◌==◌, ltb, leb, not, ◌&&◌, ◌||◌, Bool, true, false, if◌then◌else◌, List, [], ◌∷◌,
  ◌++◌, length, modify, Option, some, none, ℤ, pos, negsuc,
}
use libbinrec.Word.{signed}
use libbinrec.Rtl.Opcode.{DataType, RegType, type_num, is_undefined}
use libbinrec.Rtl.Unit.{Register, Alias, RtlUnit}
use libbinrec.Rtl.Unit.Access.{blank_register, blank_alias, reg_at, update_reg}

abbrev pub insns_expand_size : ℕ
insns_expand_size = 1000

abbrev pub regs_expand_size : ℕ
regs_expand_size = 1000

abbrev pub aliases_expand_size : ℕ
aliases_expand_size = 100

abbrev pub labels_expand_size : ℕ
labels_expand_size = 100

-- REGS_LIMIT, ALIASES_LIMIT and LABELS_LIMIT
abbrev pub limit : ℕ
limit = 65535

-- Register 0, alias 0 and label 0 are never handed out. The allocations succeed.
abbrev pub rtl_create_unit : RtlUnit
rtl_create_unit = record {
  insns = [];
  insns_size = insns_expand_size;
  blocks = [];
  blocks_size = 100;
  have_block = false;
  cur_block = 0;
  last_block = negsuc 0;
  label_blockmap = negsuc 0 ∷ [];
  labels_size = labels_expand_size;
  regs = blank_register ∷ [];
  regs_size = regs_expand_size;
  first_live_reg = 0;
  last_live_reg = 0;
  membase_reg = 0;
  aliases = blank_alias ∷ [];
  aliases_size = regs_expand_size;
  error = false;
  finalized = false;
  block_seen = [];
}

-- The first element of an array, which is all that stays in use.
abbrev pub first {ℓ} : {A : Type ℓ} → List A → List A
first [] = []
first (x ∷ xs) = x ∷ []

unfoldable pub rtl_clear_unit : RtlUnit → RtlUnit
rtl_clear_unit u = record u {
  insns = [];
  blocks = [];
  have_block = false;
  cur_block = 0;
  regs = first u.regs;
  first_live_reg = 0;
  last_live_reg = 0;
  aliases = first u.aliases;
  label_blockmap = first u.label_blockmap;
  error = false;
  finalized = false;
}

-- The array size with which element number `used` can be added, if there may be one.
unfoldable pub grown : Bool → ℕ → ℕ → ℕ → Option ℕ
grown memory expand used size =
    let new_size : ℕ = if ltb (limit - expand) size then limit else used + expand in
    if leb size used
    then (if leb limit size then none else if memory then some new_size else none)
    else some size

-- rtl_alloc_register() after its assertions.
unfoldable pub add_register : Bool → Register → RtlUnit → DataType → ℕ × RtlUnit
add_register memory slot u type = elim (grown memory regs_expand_size (length u.regs) u.regs_size) [
  | none ↦ (0, record u { error = true })
  | some size ↦ (
    length u.regs,
    record u { regs = u.regs ++ record slot { type = type } ∷ []; regs_size = size },
  )
]

-- `none` where ASSERT(!unit->finalized) is violated.
unfoldable pub rtl_alloc_register : Bool → Register → RtlUnit → DataType → Option (ℕ × RtlUnit)
rtl_alloc_register memory slot u type =
    if u.finalized then none else some (add_register memory slot u type)

unfoldable pub rtl_alloc_alias_register : Bool → Alias → RtlUnit → DataType → ℕ × RtlUnit
rtl_alloc_alias_register memory slot u type =
    elim (grown memory aliases_expand_size (length u.aliases) u.aliases_size) [
      | none ↦ (0, record u { error = true })
      | some size ↦ (
        length u.aliases,
        record u { aliases = u.aliases ++ record slot { type = type } ∷ []; aliases_size = size },
      )
    ]

unfoldable pub rtl_alloc_label : Bool → ℤ → RtlUnit → ℕ × RtlUnit
rtl_alloc_label memory slot u =
    elim (grown memory labels_expand_size (length u.label_blockmap) u.labels_size) [
      | none ↦ (0, record u { error = true })
      | some size ↦ (
        length u.label_blockmap,
        record u { label_blockmap = u.label_blockmap ++ slot ∷ []; labels_size = size },
      )
    ]

-- A register that the unit does not have.
abbrev pub is_invalid : RtlUnit → ℕ → Bool
is_invalid u reg = reg == 0 || leb (length u.regs) reg

abbrev pub nofold : RegType → RegType
nofold RegType.constant = RegType.constant_nofold
nofold RegType.result = RegType.result_nofold
nofold source = source

abbrev pub set_nofold : Register → Register
set_nofold reg = record reg { source = nofold reg.source }

unfoldable pub rtl_make_unfoldable : RtlUnit → ℕ → RtlUnit
rtl_make_unfoldable u reg = if is_invalid u reg then u else update_reg u reg set_nofold

abbrev pub set_unspillable : Register → Register
set_unspillable reg = record reg { unspillable = true }

unfoldable pub rtl_make_unspillable : RtlUnit → ℕ → RtlUnit
rtl_make_unspillable u reg = if is_invalid u reg then u else update_reg u reg set_unspillable

abbrev pub is_address : RtlUnit → ℕ → Bool
is_address u reg = type_num (reg_at u reg).type == type_num DataType.address

unfoldable pub rtl_make_unique_pointer : RtlUnit → ℕ → RtlUnit
rtl_make_unique_pointer u reg =
    if is_invalid u reg || not (is_address u reg)
    then u
    else update_reg u reg (λ r. record r { unique_pointer = reg })

-- `offset` is an int16_t.
unfoldable pub rtl_set_alias_storage : RtlUnit → ℕ → ℕ → ℤ → RtlUnit
rtl_set_alias_storage u alias base offset =
    if alias == 0 || leb (length u.aliases) alias || is_invalid u base || not (is_address u base)
    then u
    else record (update_reg u base set_unspillable) {
      aliases = modify u.aliases alias (λ a. record a { base = base; offset = offset });
    }

unfoldable pub rtl_set_membase_pointer : RtlUnit → ℕ → RtlUnit
rtl_set_membase_pointer u reg =
    if is_invalid u reg || not (is_address u reg) || is_undefined (reg_at u reg).source
    then u
    else record (update_reg u reg set_nofold) { membase_reg = reg }
