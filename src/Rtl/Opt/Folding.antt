-- ===== src/Rtl/Opt/Folding.antt =====
-- rtl_opt_fold_registers() of src/rtl-opt.c. A register is meant by its index. `none` is where C leaves
-- a folded operation undefined, or an assertion fails.
use libbinrec.Common.{
  ℕ, ◌==◌, ltb, leb, not, ◌&&◌, ◌||◌, Bool, false, if◌then◌else◌, Option, some, none, ◌>>=◌,
}
use libbinrec.Word.{signed, u32, u64_of}
use libbinrec.Rtl.Opcode.{Opcode, RegType, opcode_num, opcode_has_src3, is_constant, is_int32}
use libbinrec.Rtl.Unit.{Result, Insn, Register, RtlUnit}
use libbinrec.Rtl.Unit.Access.{reg_at, update_insn, update_reg, set_src_imm, same_opcode}
use libbinrec.Rtl.Fold.Float.{Fp}
use libbinrec.Rtl.Fold.Constant.{fold_constant}
use libbinrec.Rtl.Fold.Immediate.{convert_to_regimm}
use libbinrec.Rtl.Opt.Live.{rollback_reg_death}

unfoldable pub should_fold_constant : RtlUnit → ℕ → Bool → Bool
should_fold_constant u r fold_fp =
    let reg : Register = reg_at u r in
    let n : ℕ = opcode_num reg.result.opcode in
    if same_opcode reg.result.opcode Opcode.move
    then (reg_at u reg.result.src1).death == reg.birth
    else if fold_fp
    then ltb n (opcode_num Opcode.vbuild2)
    else ltb n (opcode_num Opcode.fcvt)
      || (leb (opcode_num Opcode.fneg) n && leb n (opcode_num Opcode.fnabs))

-- The death of operand `src` of the instruction at `birth` goes back, if it is there.
unfoldable pub roll_back : Bool → ℕ → RtlUnit → ℕ → RtlUnit
roll_back test birth u src =
    if test && (reg_at u src).death == birth then (rollback_reg_death u src).1 else u

abbrev pub move_result : ℕ → Result → Result
move_result src1 result = record result { opcode = Opcode.move; src1 = src1; src2 = 0; src3 = 0 }

-- `changed` tells whether the MOVE is from another register than the first operand.
abbrev pub move_insn : Bool → ℕ → Insn → Insn
move_insn changed src1 insn = record insn {
  opcode = Opcode.move;
  src1 = if changed then src1 else insn.src1;
  src2 = 0;
  src3 = 0;
}

abbrev pub set_result : Result → Register → Register
set_result result reg = record reg { result = result }

-- A SELECT becomes a MOVE.
unfoldable pub make_move : RtlUnit → ℕ → Bool → ℕ → RtlUnit
make_move u r changed src1 =
    update_insn
      (update_reg u r (λ reg.
        set_result (move_result (if changed then src1 else reg.result.src1) reg.result) reg))
      (reg_at u r).birth (move_insn changed src1)

-- A SELECT with identical operands or a constant condition; `none` where it is neither.
unfoldable pub reduce_select : RtlUnit → ℕ → Option RtlUnit
reduce_select u r =
    let reg : Register = reg_at u r in
    let src1 : ℕ = reg.result.src1 in
    let src2 : ℕ = reg.result.src2 in
    let src3 : ℕ = reg.result.src3 in
    let condition : Bool = not ((reg_at u src3).value == 0) in
    let back : Bool → RtlUnit → ℕ → RtlUnit = λ test. roll_back test reg.birth in
    if src1 == src2
    then some (back (not (src3 == src1)) (make_move u r false src1) src3)
    else if is_constant (reg_at u src3).source
    then some (
        back (not (src3 == src1) && not (src3 == src2))
          (back condition (back (not condition) (make_move u r (not condition) src2) src1) src2)
          src3)
    else none

abbrev pub set_constant : ℕ → Register → Register
set_constant value reg = record reg { source = RegType.constant; value = value }

abbrev pub load_imm : ℕ → Insn → Insn
load_imm value insn =
    set_src_imm value (record insn { opcode = Opcode.load_imm; src1 = 0; src2 = 0 })

abbrev pub regimm_insn : Result → Insn → Insn
regimm_insn result insn =
    set_src_imm (u64_of (signed 32 result.src_imm))
      (record insn { opcode = result.opcode; src1 = result.src1; src2 = 0 })

-- What follows in fold_one_reg_constant(), where the operation is no SELECT any more.
unfoldable pub fold_operands : Fp → Bool → RtlUnit → ℕ → Option RtlUnit
fold_operands fp fold_fp u r =
    let reg : Register = reg_at u r in
    let src1 : ℕ = reg.result.src1 in
    let src2 : ℕ = if reg.result.is_imm then 0 else reg.result.src2 in
    let src3 : ℕ = if opcode_has_src3 reg.result.opcode then reg.result.src3 else 0 in
    let const1 : Bool = is_constant (reg_at u src1).source in
    let const2 : Bool = is_constant (reg_at u src2).source in
    let const3 : Bool = is_constant (reg_at u src3).source in
    let folded : RtlUnit → RtlUnit = λ v.
      roll_back (not (src3 == 0)) reg.birth
        (roll_back (not (src2 == 0) && const2) reg.birth (roll_back const1 reg.birth v src1) src2)
        src3 in
    if const1 && (src2 == 0 || const2) && (src3 == 0 || const3)
    then (if should_fold_constant u r fold_fp
        then (do
          v ← fold_constant fp u.regs reg
          let value : ℕ = if is_int32 reg.type then u32 v else v
          some (
              folded
                (update_insn (update_reg u r (set_constant value)) reg.birth (load_imm value))))
        else some u)
    else if src3 == 0 && (const1 || (not (src2 == 0) && const2))
    then elim (convert_to_regimm u.regs reg) [
      | none ↦ some u
      | some result ↦
          some (
            folded
              (update_insn (update_reg u r (set_result result)) reg.birth (regimm_insn result)))
    ]
    else some u

unfoldable pub fold_one_reg_constant : Fp → Bool → RtlUnit → ℕ → Option RtlUnit
fold_one_reg_constant fp fold_fp u r =
    if same_opcode (reg_at u r).result.opcode Opcode.select
    then elim (reduce_select u r) [ none ↦ some u | some v ↦ fold_operands fp fold_fp v r ]
    else fold_operands fp fold_fp u r
