-- ===== src/Rtl/Builder/Add.antt =====
-- rtl_add_insn(), rtl_add_chain_insn() of src/rtl.c and rtl_add_insn_copy() of src/rtl-insn.c.
use libbinrec.Common.{
  ℕ, ◌+◌, ◌-◌, leb, Bool, true, false, if◌then◌else◌, List, [], ◌∷◌, ◌++◌, length, ℤ, pos, negsuc,
  Option, some, none, ◌>>=◌,
}
use libbinrec.Rtl.Opcode.{Opcode, opcode_has_src3}
use libbinrec.Rtl.Unit.{Insn, BasicBlock, RtlUnit}
use libbinrec.Rtl.Unit.Access.{update_insn}
use libbinrec.Rtl.Block.{update_block, block_add}
use libbinrec.Rtl.Insn.{mark_all, operand}
use libbinrec.Rtl.Insn.Flow.{Made}
use libbinrec.Rtl.Insn.Table.{rtl_insn_make}
use libbinrec.Rtl.Builder.{insns_expand_size}

-- What one call gets from the allocator, and what the array elements that it takes hold before: for
-- the instruction array, for a block that the call starts with, and for one that the encoder adds.
pub record Supply : Type 0 where
  pub grow_insns : Bool
  pub insn : Insn
  pub grow_blocks : Bool
  pub block : BasicBlock
  pub grow_next : Bool
  pub next : BasicBlock

abbrev pub set_error : RtlUnit → RtlUnit
set_error u = record u { error = true }

-- The end of rtl_add_insn(), with the encoder's result. `none` is a violated ASSERT().
unfoldable pub append_made : RtlUnit → Made → Option (Bool × RtlUnit)
append_made u Made.refused = some (false, set_error u)
append_made u (Made.failed u') = some (false, set_error u')
append_made u Made.assert_failed = none
append_made u (Made.made u' insn) = some (true, record u' { insns = u'.insns ++ insn ∷ [] })

module _ (checks : Bool) (supply : Supply) where
  unfoldable pub fill_in_insn : RtlUnit → Opcode → ℕ → ℕ → ℕ → ℕ → Option (Bool × RtlUnit)
  fill_in_insn u opcode dest src1 src2 other = append_made u (
      rtl_insn_make checks supply.grow_next supply.next u (record (supply.insn) { opcode = opcode })
        dest src1 src2 other)

  unfoldable pub rtl_add_insn_with_new_block :
      RtlUnit → Opcode → ℕ → ℕ → ℕ → ℕ → Option (Bool × RtlUnit)
  rtl_add_insn_with_new_block u opcode dest src1 src2 other =
      let added : Bool × RtlUnit = block_add supply.grow_blocks supply.block u in
      let new_block : ℕ = length added.1.blocks - 1 in
      if added.0
      then fill_in_insn
          (record added.1 {
            have_block = true;
            cur_block = new_block;
            blocks =
                update_block added.1.blocks new_block
                  (λ b. record b { first_insn = pos (length added.1.insns) });
          })
          opcode dest src1 src2 other
      else some (false, set_error added.1)

  -- rtl_add_insn() where the instruction array has room.
  unfoldable pub add_in_block : RtlUnit → Opcode → ℕ → ℕ → ℕ → ℕ → Option (Bool × RtlUnit)
  add_in_block u opcode dest src1 src2 other =
      if u.have_block
      then fill_in_insn u opcode dest src1 src2 other
      else rtl_add_insn_with_new_block u opcode dest src1 src2 other

  unfoldable pub rtl_add_insn_with_extend :
      RtlUnit → Opcode → ℕ → ℕ → ℕ → ℕ → Option (Bool × RtlUnit)
  rtl_add_insn_with_extend u opcode dest src1 src2 other =
      if supply.grow_insns
      then add_in_block (record u { insns_size = length u.insns + insns_expand_size }) opcode dest
          src1 src2 other
      else some (false, set_error u)

  unfoldable pub rtl_add_insn : RtlUnit → Opcode → ℕ → ℕ → ℕ → ℕ → Option (Bool × RtlUnit)
  rtl_add_insn u opcode dest src1 src2 other =
      if leb u.insns_size (length u.insns)
      then rtl_add_insn_with_extend u opcode dest src1 src2 other
      else add_in_block u opcode dest src1 src2 other

  -- The index of the instruction, or -1.
  unfoldable pub rtl_add_chain_insn : RtlUnit → ℕ → ℕ → Option (ℤ × RtlUnit)
  rtl_add_chain_insn u src1 src2 = do
    added ← rtl_add_insn u Opcode.chain 0 src1 src2 0
    some (if added.0 then pos (length u.insns) else negsuc 0, added.1)

  unfoldable pub rtl_add_insn_copy : RtlUnit → Insn → Option (Bool × RtlUnit)
  rtl_add_insn_copy u insn = do
    added ← rtl_add_insn u Opcode.nop 0 0 0 0
    let src3 : List ℕ = if opcode_has_src3 insn.opcode then operand insn.src3 else []
    let marks : List ℕ = operand insn.dest ++ (operand insn.src1 ++ (operand insn.src2 ++ src3))
    some (
        if added.0
        then (
          true,
          mark_all (update_insn added.1 (length u.insns) (λ i. insn)) (length u.insns) marks,
        )
        else (false, added.1))
