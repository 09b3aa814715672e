-- ===== src/Rtl/Opt/Vector.antt =====
-- fold_one_reg_vector() of src/rtl-opt.c. A register is meant by its index.
pub mod Same
use libbinrec.Common.{
  ℕ, ◌==◌, ltb, not, ◌&&◌, ◌||◌, Bool, true, false, if◌then◌else◌, Option, some, none,
}
use libbinrec.Rtl.Opcode.{DataType, Opcode, RegType, type_is_vector}
use libbinrec.Rtl.Unit.{Result, Insn, Register, RtlUnit}
use libbinrec.Rtl.Unit.Access.{reg_at, update_insn, update_reg, same_opcode}
use libbinrec.Rtl.Opt.Live.{prev_reg_use, rollback_reg_death, set_death}

abbrev pub is_nofold : RegType → Bool
is_nofold RegType.result_nofold = true
is_nofold _ = false

abbrev pub move_from : ℕ → Result → Result
move_from src result = record result { opcode = Opcode.move; src1 = src; elem = 0 }

-- A VEXTRACT from a vector that `source` computes with the opcode: the operation that it becomes, and
-- the register that it reads now.
unfoldable pub forward_extract : Opcode → Result → Result → Option (Result × ℕ)
forward_extract Opcode.vbuild2 result source =
    let src : ℕ = if result.elem == 0 then source.src1 else source.src2 in
    some (move_from src result, src)
forward_extract Opcode.vbroadcast result source = some (move_from source.src1 result, source.src1)
forward_extract Opcode.vinsert result source =
    if source.elem == result.elem then some (move_from source.src2 result, source.src2) else none
forward_extract _ result source = none

-- A VBUILD2 of the scalar that a VINSERT inserts and another one.
unfoldable pub build_from : ℕ → Result → Result
build_from other result = record result {
  opcode = Opcode.vbuild2;
  src1 = if result.elem == 0 then result.src2 else other;
  src2 = if result.elem == 0 then other else result.src2;
  elem = 0;
}

-- A VINSERT into a vector that `source` computes with the opcode.
unfoldable pub forward_insert : Opcode → Result → Result → Option (Result × ℕ)
forward_insert Opcode.vbuild2 result source =
    let src : ℕ = if result.elem == 0 then source.src2 else source.src1 in
    some (build_from src result, src)
forward_insert Opcode.vbroadcast result source = some (build_from source.src1 result, source.src1)
forward_insert Opcode.vinsert result source =
    if source.elem == result.elem
    then some (record result { src1 = source.src1 }, source.src1)
    else some (build_from source.src2 result, source.src2)
forward_insert _ result source = none

-- The operation at r and the instruction there change, and the live ranges with them.
unfoldable pub forward : RtlUnit → ℕ → ℕ → Result × ℕ → RtlUnit
forward u r src1 changed =
    let birth : ℕ = (reg_at u r).birth in
    let result : Result = changed.0 in
    let u1 : RtlUnit =
      update_insn (update_reg u r (λ reg. record reg { result = result })) birth (λ insn.
        record insn {
          opcode = result.opcode;
          src1 = result.src1;
          src2 = result.src2;
          elem = result.elem;
        }) in
    let u2 : RtlUnit =
      if ltb (reg_at u1 changed.1).death birth
      then update_reg u1 changed.1 (set_death birth)
      else u1 in
    if (reg_at u2 src1).death == birth then (rollback_reg_death u2 src1).1 else u2

unfoldable pub fold_one_reg_vector : RtlUnit → ℕ → RtlUnit
fold_one_reg_vector u r =
    let reg : Register = reg_at u r in
    let src1 : ℕ = reg.result.src1 in
    let src1_reg : Register = reg_at u src1 in
    let done : Option (Result × ℕ) → RtlUnit =
      λ o. elim o [ none ↦ u | some changed ↦ forward u r src1 changed ] in
    if not (type_is_vector src1_reg.type) || not (is_nofold src1_reg.source)
    then u
    else if same_opcode reg.result.opcode Opcode.vextract
    then done (forward_extract src1_reg.result.opcode reg.result src1_reg.result)
    else if not (same_opcode reg.result.opcode Opcode.vinsert)
    then u
    else if not (src1_reg.death == reg.birth)
        || not (prev_reg_use u src1 reg.birth == src1_reg.birth)
    then u
    else done (forward_insert src1_reg.result.opcode reg.result src1_reg.result)
