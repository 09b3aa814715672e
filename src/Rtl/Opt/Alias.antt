-- ===== src/Rtl/Opt/Alias.antt =====
-- rtl_opt_alias_data_flow() of src/rtl-opt.c. The marks of `block_seen` are a list of their own.
pub mod Visible
pub mod Fate
use libbinrec.Common.{
  ℕ, zero, suc, ◌+◌, ◌-◌, ◌==◌, not, ◌&&◌, Bool, true, false, if◌then◌else◌, List, [], ◌∷◌, length,
  get_or, modify, Option, some, none, ◌>>=◌, ℤ, pos, negsuc,
}
use libbinrec.Rtl.Opcode.{Opcode}
use libbinrec.Rtl.Unit.{BasicBlock, Insn, RtlUnit}
use libbinrec.Rtl.Unit.Access.{insn_at, block_at, alias_base}
use libbinrec.Rtl.Opt.Live.{rtl_opt_kill_insn}
use libbinrec.Rtl.Opt.Visit.{exit_at, is_seen, mark_seen, clear_seen}
use libbinrec.Rtl.Opt.Branch.{index, has_insns}

pub record AliasRef : Type 0 where
  pub has_set : Bool
  pub has_get : Bool
  pub set_used : Bool
  pub set_insn : ℕ

abbrev pub blank_ref : AliasRef
blank_ref = record { has_set = false; has_get = false; set_used = false; set_insn = 0 }

-- One exit of a block; `visit` is the recursive call, and `refs` the alias's record in each block.
unfoldable pub visible_exit :
    (List Bool → ℕ → Bool × List Bool) → (ℕ → AliasRef) → List Bool → ℤ → Bool × List Bool
visible_exit visit refs seen (negsuc _) = (false, seen)
visible_exit visit refs seen (pos exit) = elim (is_seen seen exit) [
  | true ↦ (false, seen)
  | false ↦ elim (refs exit).has_get [
    | true ↦ (true, mark_seen seen exit)
    | false ↦ elim (refs exit).has_set [
      | true ↦ (false, mark_seen seen exit)
      | false ↦ visit (mark_seen seen exit) exit
    ]
  ]
]

-- Whether a store is visible after block i, and the marks. `bound` tells whether the alias has storage.
-- A call marks a block before it goes on there: the fuel is one more than the blocks without a mark.
unfoldable pub is_alias_store_visible :
    ℕ → List BasicBlock → (ℕ → AliasRef) → Bool → List Bool → ℕ → Bool × List Bool
is_alias_store_visible zero bs refs bound seen i = (false, seen)
is_alias_store_visible (suc fuel) bs refs bound seen i =
    let visit : List Bool → ℕ → Bool × List Bool = is_alias_store_visible fuel bs refs bound in
    let second : Bool × List Bool = visible_exit visit refs seen (exit_at bs i 1) in
    elim (exit_at bs i 0) [
      | negsuc _ ↦ (bound, seen)
      | pos exit ↦ elim second.0 [
        | true ↦ second
        | false ↦ visible_exit visit refs second.1 (pos exit)
      ]
    ]

-- The aliases from `alias` on that have storage are read by a call.
unfoldable pub use_bound : ℕ → RtlUnit → ℕ → List AliasRef → List AliasRef
use_bound zero u alias refs = refs
use_bound (suc count) u alias refs = use_bound count u (alias + 1) (
    if alias_base u alias == 0 then refs else modify refs alias (λ r. record r { set_used = true }))

abbrev pub store_at : ℕ → AliasRef → AliasRef
store_at insn_index r = record r { has_set = true; set_used = false; set_insn = insn_index }

abbrev pub read : AliasRef → AliasRef
read r = if r.has_set then record r { set_used = true } else record r { has_get = true }

-- One instruction of a block, with its opcode and alias and the records of the block.
unfoldable pub scan_op : Opcode → RtlUnit → List AliasRef → ℕ → ℕ → RtlUnit × List AliasRef
scan_op Opcode.set_alias u refs alias insn_index =
    let ref : AliasRef = get_or refs alias blank_ref in
    (
      if ref.has_set && not ref.set_used then rtl_opt_kill_insn u ref.set_insn false false else u,
      modify refs alias (store_at insn_index),
    )
scan_op Opcode.get_alias u refs alias insn_index = (u, modify refs alias read)
scan_op Opcode.call u refs alias insn_index = (u, use_bound (length u.aliases - 1) u 1 refs)
scan_op Opcode.call_transparent u refs alias insn_index =
    (u, use_bound (length u.aliases - 1) u 1 refs)
scan_op _ u refs alias insn_index = (u, refs)

unfoldable pub scan_insn : RtlUnit → List AliasRef → ℕ → RtlUnit × List AliasRef
scan_insn u refs insn_index =
    scan_op (insn_at u insn_index).opcode u refs (insn_at u insn_index).alias insn_index

unfoldable pub scan_insns : ℕ → RtlUnit → List AliasRef → ℕ → RtlUnit × List AliasRef
scan_insns zero u refs insn_index = (u, refs)
scan_insns (suc count) u refs insn_index =
    let done : RtlUnit × List AliasRef = scan_insn u refs insn_index in
    scan_insns count done.0 done.1 (insn_index + 1)

unfoldable pub no_refs : {A : Type 0} → List A → List AliasRef
no_refs [] = []
no_refs (x ∷ xs) = blank_ref ∷ no_refs xs

-- The records of a block, whose row of the array is still clear.
unfoldable pub scan_block : RtlUnit → ℕ → RtlUnit × List AliasRef
scan_block u b =
    let start : ℕ = index (block_at u b).first_insn in
    let count : ℕ =
      if has_insns (block_at u b) then index (block_at u b).last_insn + 1 - start else 0 in
    scan_insns count u (no_refs u.aliases) start

-- The blocks from `b` on in the code stream, with the array of records. The fuel is the number of
-- blocks; `none` where the list of blocks does not end.
unfoldable pub scan_blocks :
    ℕ → RtlUnit → (ℕ → List AliasRef) → ℤ → Option (RtlUnit × (ℕ → List AliasRef))
scan_blocks fuel u info (negsuc _) = some (u, info)
scan_blocks zero u info (pos b) = none
scan_blocks (suc fuel) u info (pos b) =
    let done : RtlUnit × List AliasRef = scan_block u b in
    scan_blocks fuel done.0 (λ k. if k == b then done.1 else info k) (block_at done.0 b).next_block

-- The aliases from `alias` on, in block b.
unfoldable pub kill_hidden : ℕ → (ℕ → List AliasRef) → ℕ → RtlUnit → ℕ → RtlUnit
kill_hidden zero info b u alias = u
kill_hidden (suc count) info b u alias =
    let ref : AliasRef = get_or (info b) alias blank_ref in
    let refs : ℕ → AliasRef = λ k. get_or (info k) alias blank_ref in
    let visible : Bool =
      (is_alias_store_visible (length u.blocks + 1) u.blocks refs (not (alias_base u alias == 0))
        (clear_seen u.blocks) b).0 in
    kill_hidden count info b
      (if ref.has_set && not ref.set_used && not visible
        then rtl_opt_kill_insn u ref.set_insn false false
        else u)
      (alias + 1)

unfoldable pub kill_blocks : ℕ → (ℕ → List AliasRef) → RtlUnit → ℤ → Option RtlUnit
kill_blocks fuel info u (negsuc _) = some u
kill_blocks zero info u (pos b) = none
kill_blocks (suc fuel) info u (pos b) =
    let u' : RtlUnit = kill_hidden (length u.aliases - 1) info b u 1 in
    kill_blocks fuel info u' (block_at u' b).next_block

-- `memory` tells whether the array of records can be had.
unfoldable pub rtl_opt_alias_data_flow : Bool → RtlUnit → Option RtlUnit
rtl_opt_alias_data_flow false u = some u
rtl_opt_alias_data_flow true u = do
  (u', info) ← scan_blocks (length u.blocks) u (λ b. no_refs u.aliases) (pos 0)
  kill_blocks (length u'.blocks) info u' (pos 0)
