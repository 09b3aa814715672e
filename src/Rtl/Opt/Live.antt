-- ===== src/Rtl/Opt/Live.antt =====
-- The ends of register live ranges: prev_reg_use(), rollback_reg_death() and rtl_opt_kill_insn() of
-- src/rtl-opt.c.
pub mod Range
pub mod Erase
use libbinrec.Common.{
  ℕ, zero, suc, ◌+◌, ◌==◌, ltb, leb, not, ◌&&◌, ◌||◌, Bool, true, false, if◌then◌else◌, modify,
  negsuc,
}
use libbinrec.Rtl.Opcode.{Opcode, opcode_num, opcode_has_src3, opcode_has_alias}
use libbinrec.Rtl.Unit.{Insn, Register, RtlUnit}
use libbinrec.Rtl.Unit.Access.{
  insn_at, reg_at, alias_base, update_insn, update_reg, set_src_imm, same_opcode,
}

-- Whether an instruction refers to a register's value.
unfoldable pub uses_reg : RtlUnit → Insn → ℕ → Bool
uses_reg u insn reg =
    insn.src1 == reg
    || insn.src2 == reg
    || (opcode_has_src3 insn.opcode && insn.src3 == reg)
    || (opcode_has_alias insn.opcode && alias_base u insn.alias == reg)

-- The loop of prev_reg_use(), from the instruction before the given one down.
unfoldable pub prev_use_loop : RtlUnit → ℕ → ℕ → ℕ → ℕ
prev_use_loop u reg birth zero = birth
prev_use_loop u reg birth (suc prev_use) = elim (ltb birth prev_use) [
  | false ↦ birth
  | true ↦ elim (uses_reg u (insn_at u prev_use) reg) [
    | true ↦ prev_use
    | false ↦ prev_use_loop u reg birth prev_use
  ]
]

unfoldable pub prev_reg_use : RtlUnit → ℕ → ℕ → ℕ
prev_reg_use u reg insn_index = prev_use_loop u reg (reg_at u reg).birth insn_index

abbrev pub set_death : ℕ → Register → Register
set_death death r = record r { death = death }

unfoldable pub rollback_reg_death : RtlUnit → ℕ → Bool × RtlUnit
rollback_reg_death u reg =
    let death : ℕ = prev_reg_use u reg (reg_at u reg).death in
    (leb death (reg_at u reg).birth, update_reg u reg (set_death death))

-- The floating-point instructions that may raise exceptions.
unfoldable pub may_raise : Opcode → Bool
may_raise op =
    let n : ℕ = opcode_num op in
    (leb (opcode_num Opcode.fcvt) n && leb n (opcode_num Opcode.ftrunci))
    || (leb (opcode_num Opcode.fadd) n && leb n (opcode_num Opcode.fnmsub))
    || (leb (opcode_num Opcode.vfcvt) n && leb n (opcode_num Opcode.vfcmp))

abbrev pub is_label : Opcode → Bool
is_label Opcode.label = true
is_label _ = false

abbrev pub is_get_alias : Opcode → Bool
is_get_alias Opcode.get_alias = true
is_get_alias _ = false

abbrev pub is_set_alias : Opcode → Bool
is_set_alias Opcode.set_alias = true
is_set_alias _ = false

-- The registers that the killed instruction referred to.
unfoldable pub killed_src1 : RtlUnit → Insn → ℕ
killed_src1 u insn = if is_get_alias insn.opcode then alias_base u insn.alias else insn.src1

unfoldable pub killed_src2 : RtlUnit → Insn → ℕ
killed_src2 u insn = if is_set_alias insn.opcode then alias_base u insn.alias else insn.src2

unfoldable pub killed_src3 : Insn → ℕ
killed_src3 insn = if opcode_has_src3 insn.opcode then insn.src3 else 0

abbrev pub to_nop : Insn → Insn
to_nop insn = set_src_imm 0 (record insn { opcode = Opcode.nop; dest = 0; src1 = 0; src2 = 0 })

-- What becomes of the instruction itself, its destination and its label.
unfoldable pub erase_insn : RtlUnit → ℕ → RtlUnit
erase_insn u insn_index =
    let insn : Insn = insn_at u insn_index in
    record (update_insn u insn_index to_nop) {
      regs =
          if insn.dest == 0
          then u.regs
          else modify u.regs insn.dest (λ r. record r { live = false });
      label_blockmap =
          if is_label insn.opcode
          then modify u.label_blockmap insn.label (λ b. negsuc 0)
          else u.label_blockmap;
    }

-- One input operand of the killed instruction; `kill` is the call on the instruction that sets it.
unfoldable pub release : (RtlUnit → ℕ → RtlUnit) → Bool → ℕ → RtlUnit → ℕ → RtlUnit
release kill dse insn_index u src =
    if src == 0 || not ((reg_at u src).death == insn_index)
    then u
    else let rolled : Bool × RtlUnit = rollback_reg_death u src in
      elim (rolled.0 && dse) [ true ↦ kill rolled.1 (reg_at rolled.1 src).birth | false ↦ rolled.1 ]

-- The instruction that sets a register stands before those that use it: the fuel is the number of the
-- instructions up to the first one to kill.
unfoldable pub kill_loop : ℕ → Bool → Bool → RtlUnit → ℕ → RtlUnit
kill_loop zero ignore_fexc dse u insn_index = u
kill_loop (suc fuel) ignore_fexc dse u insn_index =
    let insn : Insn = insn_at u insn_index in
    let release_src : RtlUnit → ℕ → RtlUnit =
      release (kill_loop fuel ignore_fexc dse) dse insn_index in
    if not ignore_fexc && may_raise insn.opcode
    then u
    else release_src
        (release_src (release_src (erase_insn u insn_index) (killed_src3 insn))
          (killed_src2 u insn))
        (killed_src1 u insn)

unfoldable pub rtl_opt_kill_insn : RtlUnit → ℕ → Bool → Bool → RtlUnit
rtl_opt_kill_insn u insn_index ignore_fexc dse =
    kill_loop (insn_index + 1) ignore_fexc dse u insn_index
