-- ===== src/Rtl/Builder/Encoders/All.antt =====
-- Every encoder of makefunc_table of src/rtl-insn.c.
use libbinrec.Common.{ℕ, ◌<◌, ◌≡◌, refl, Bool, true, false, [], length, arith}
use libbinrec.Rtl.Opcode.{Opcode, opcode_has_src3, opcode_has_alias}
use libbinrec.Rtl.Unit.{BasicBlock, RtlUnit}
use libbinrec.Rtl.Unit.Access.{blank_insn}
use libbinrec.Rtl.Insn.{mark_all}
use libbinrec.Rtl.Insn.Effect.{Setting}
use libbinrec.Rtl.Insn.Table.{makefunc_table}
use libbinrec.Rtl.Builder.Sound.{Sound}
use libbinrec.Rtl.Builder.Split.{Current}
use libbinrec.Rtl.Builder.Effect.{Effect, InUnit}
use libbinrec.Rtl.Builder.Encoders.Alu.{
  make_intcast-Effect, make_alu_1op-Effect, make_alu_2op-Effect, make_shift-Effect,
  make_alu_imm-Effect, make_clz-Effect, make_cmp-Effect, make_cmp_imm-Effect, make_bitcast-Effect,
}
use libbinrec.Rtl.Builder.Encoders.Fpu.{
  make_fcvt-Effect, make_ficast-Effect, make_froundi-Effect, make_fpu_1op-Effect,
  make_fpu_2op-Effect, make_fcmp-Effect, make_fgetstate-Effect, make_fsetstate-Effect,
  make_ftestexc-Effect, make_fclearexc-Effect, make_fsetround-Effect, make_fcopyround-Effect,
}
use libbinrec.Rtl.Builder.Encoders.Vec.{
  make_vbuild2-Effect, make_vbroadcast-Effect, make_vextract-Effect, make_vinsert-Effect,
  make_vfcvt-Effect, make_vfcmp-Effect,
}
use libbinrec.Rtl.Builder.Encoders.Mem.{
  make_load_imm-Effect, make_load_arg-Effect, make_load-Effect, make_load_narrow-Effect,
  make_store-Effect, make_store_narrow-Effect, make_atomic_inc-Effect,
}
use libbinrec.Rtl.Builder.Encoders.Three.{
  make_move-Effect, make_select-Effect, make_fpu_3op-Effect, make_cmpxchg-Effect,
  make_get_alias-Effect, make_set_alias-Effect,
}
use libbinrec.Rtl.Builder.Encoders.Optional.{
  make_nop-Effect, make_bitfield-Effect, make_call-Effect, make_chain-Effect,
  make_chain_resolve-Effect,
}
use libbinrec.Rtl.Builder.Encoders.Flow.{
  make_label-Effect, make_goto-Effect, make_goto_cond-Effect, make_return-Effect, no_operands,
}

abbrev pub is_chain_resolve : Opcode → Bool
is_chain_resolve Opcode.chain_resolve = true
is_chain_resolve _ = false

abbrev pub opcode_has_label : Opcode → Bool
opcode_has_label Opcode.label = true
opcode_has_label Opcode.goto = true
opcode_has_label Opcode.goto_if_z = true
opcode_has_label Opcode.goto_if_nz = true
opcode_has_label _ = false

abbrev pub is_bfext : Opcode → Bool
is_bfext Opcode.bfext = true
is_bfext _ = false

-- What the code asserts of the arguments of an encoder: they are registers and, for an alias
-- instruction, an alias of the unit, a label where there is one, and the CHAIN instruction that a
-- CHAIN_RESOLVE is about. A BFEXT has one source, as src/rtl.h says.
pub record Args (u : RtlUnit) (op : Opcode) (dest src1 src2 other : ℕ) : Type 0 where
  pub regs : InUnit u dest src1 src2
  pub src3_lt : opcode_has_src3 op ≡ true → other < length u.regs
  pub alias_lt : opcode_has_alias op ≡ true → other < length u.aliases
  pub one_source : is_bfext op ≡ true → src2 ≡ 0
  pub label_lt : opcode_has_label op ≡ true → other < length u.label_blockmap
  pub insn_lt : is_chain_resolve op ≡ true → other < length u.insns

module _ (checks memory : Bool) (next : BasicBlock) (u : RtlUnit) (s : Sound u) (c : Current u)
    (few : length u.blocks < 65535) (d s1 s2 o : ℕ) where
  pub makefunc_table-Effect :
      (op : Opcode)
      → Args u op d s1 s2 o
      → Effect checks u
          (makefunc_table op checks memory next u (record blank_insn { opcode = op }) d s1 s2 o)
  unfolding makefunc_table opcode_has_src3 opcode_has_alias mark_all
  makefunc_table-Effect Opcode.nop a =
      make_nop-Effect checks u Opcode.nop (refl, refl) d s1 s2 o a.regs
  makefunc_table-Effect Opcode.set_alias a =
      make_set_alias-Effect checks u s d s1 s2 o a.regs (a.alias_lt refl)
  makefunc_table-Effect Opcode.get_alias a =
      make_get_alias-Effect checks u s d s1 s2 o a.regs (a.alias_lt refl)
  makefunc_table-Effect Opcode.move a =
      make_move-Effect checks u s Opcode.move d s1 s2 o a.regs (refl, refl)
  makefunc_table-Effect Opcode.select a =
      make_select-Effect checks u s Opcode.select d s1 s2 o a.regs refl refl (a.src3_lt refl)
  makefunc_table-Effect Opcode.scast a =
      make_intcast-Effect checks u Opcode.scast (refl, refl) d s1 s2 o a.regs
  makefunc_table-Effect Opcode.zcast a =
      make_intcast-Effect checks u Opcode.zcast (refl, refl) d s1 s2 o a.regs
  makefunc_table-Effect Opcode.sext8 a =
      make_intcast-Effect checks u Opcode.sext8 (refl, refl) d s1 s2 o a.regs
  makefunc_table-Effect Opcode.sext16 a =
      make_intcast-Effect checks u Opcode.sext16 (refl, refl) d s1 s2 o a.regs
  makefunc_table-Effect Opcode.add a =
      make_alu_2op-Effect checks u Opcode.add (refl, refl) d s1 s2 o a.regs
  makefunc_table-Effect Opcode.sub a =
      make_alu_2op-Effect checks u Opcode.sub (refl, refl) d s1 s2 o a.regs
  makefunc_table-Effect Opcode.neg a =
      make_alu_1op-Effect checks u Opcode.neg (refl, refl) d s1 s2 o a.regs
  makefunc_table-Effect Opcode.mul a =
      make_alu_2op-Effect checks u Opcode.mul (refl, refl) d s1 s2 o a.regs
  makefunc_table-Effect Opcode.mulhu a =
      make_alu_2op-Effect checks u Opcode.mulhu (refl, refl) d s1 s2 o a.regs
  makefunc_table-Effect Opcode.mulhs a =
      make_alu_2op-Effect checks u Opcode.mulhs (refl, refl) d s1 s2 o a.regs
  makefunc_table-Effect Opcode.divu a =
      make_alu_2op-Effect checks u Opcode.divu (refl, refl) d s1 s2 o a.regs
  makefunc_table-Effect Opcode.divs a =
      make_alu_2op-Effect checks u Opcode.divs (refl, refl) d s1 s2 o a.regs
  makefunc_table-Effect Opcode.modu a =
      make_alu_2op-Effect checks u Opcode.modu (refl, refl) d s1 s2 o a.regs
  makefunc_table-Effect Opcode.mods a =
      make_alu_2op-Effect checks u Opcode.mods (refl, refl) d s1 s2 o a.regs
  makefunc_table-Effect Opcode.and a =
      make_alu_2op-Effect checks u Opcode.and (refl, refl) d s1 s2 o a.regs
  makefunc_table-Effect Opcode.or a =
      make_alu_2op-Effect checks u Opcode.or (refl, refl) d s1 s2 o a.regs
  makefunc_table-Effect Opcode.xor a =
      make_alu_2op-Effect checks u Opcode.xor (refl, refl) d s1 s2 o a.regs
  makefunc_table-Effect Opcode.not a =
      make_alu_1op-Effect checks u Opcode.not (refl, refl) d s1 s2 o a.regs
  makefunc_table-Effect Opcode.sll a =
      make_shift-Effect checks u Opcode.sll (refl, refl) d s1 s2 o a.regs
  makefunc_table-Effect Opcode.srl a =
      make_shift-Effect checks u Opcode.srl (refl, refl) d s1 s2 o a.regs
  makefunc_table-Effect Opcode.sra a =
      make_shift-Effect checks u Opcode.sra (refl, refl) d s1 s2 o a.regs
  makefunc_table-Effect Opcode.rol a =
      make_shift-Effect checks u Opcode.rol (refl, refl) d s1 s2 o a.regs
  makefunc_table-Effect Opcode.ror a =
      make_shift-Effect checks u Opcode.ror (refl, refl) d s1 s2 o a.regs
  makefunc_table-Effect Opcode.clz a =
      make_clz-Effect checks u Opcode.clz (refl, refl) d s1 s2 o a.regs
  makefunc_table-Effect Opcode.bswap a =
      make_alu_1op-Effect checks u Opcode.bswap (refl, refl) d s1 s2 o a.regs
  makefunc_table-Effect Opcode.seq a =
      make_cmp-Effect checks u Opcode.seq (refl, refl) d s1 s2 o a.regs
  makefunc_table-Effect Opcode.sltu a =
      make_cmp-Effect checks u Opcode.sltu (refl, refl) d s1 s2 o a.regs
  makefunc_table-Effect Opcode.slts a =
      make_cmp-Effect checks u Opcode.slts (refl, refl) d s1 s2 o a.regs
  makefunc_table-Effect Opcode.sgtu a =
      make_cmp-Effect checks u Opcode.sgtu (refl, refl) d s1 s2 o a.regs
  makefunc_table-Effect Opcode.sgts a =
      make_cmp-Effect checks u Opcode.sgts (refl, refl) d s1 s2 o a.regs
  makefunc_table-Effect Opcode.bfext a =
      make_bitfield-Effect checks u Opcode.bfext (refl, refl) d s1 s2 o a.regs
        (λ p. absurd (omega (arith, p, a.one_source refl)))
  makefunc_table-Effect Opcode.bfins a =
      make_bitfield-Effect checks u Opcode.bfins (refl, refl) d s1 s2 o a.regs (λ p. refl)
  makefunc_table-Effect Opcode.addi a =
      make_alu_imm-Effect checks u Opcode.addi (refl, refl) d s1 s2 o a.regs
  makefunc_table-Effect Opcode.muli a =
      make_alu_imm-Effect checks u Opcode.muli (refl, refl) d s1 s2 o a.regs
  makefunc_table-Effect Opcode.andi a =
      make_alu_imm-Effect checks u Opcode.andi (refl, refl) d s1 s2 o a.regs
  makefunc_table-Effect Opcode.ori a =
      make_alu_imm-Effect checks u Opcode.ori (refl, refl) d s1 s2 o a.regs
  makefunc_table-Effect Opcode.xori a =
      make_alu_imm-Effect checks u Opcode.xori (refl, refl) d s1 s2 o a.regs
  makefunc_table-Effect Opcode.slli a =
      make_alu_imm-Effect checks u Opcode.slli (refl, refl) d s1 s2 o a.regs
  makefunc_table-Effect Opcode.srli a =
      make_alu_imm-Effect checks u Opcode.srli (refl, refl) d s1 s2 o a.regs
  makefunc_table-Effect Opcode.srai a =
      make_alu_imm-Effect checks u Opcode.srai (refl, refl) d s1 s2 o a.regs
  makefunc_table-Effect Opcode.rori a =
      make_alu_imm-Effect checks u Opcode.rori (refl, refl) d s1 s2 o a.regs
  makefunc_table-Effect Opcode.seqi a =
      make_cmp_imm-Effect checks u Opcode.seqi (refl, refl) d s1 s2 o a.regs
  makefunc_table-Effect Opcode.sltui a =
      make_cmp_imm-Effect checks u Opcode.sltui (refl, refl) d s1 s2 o a.regs
  makefunc_table-Effect Opcode.sltsi a =
      make_cmp_imm-Effect checks u Opcode.sltsi (refl, refl) d s1 s2 o a.regs
  makefunc_table-Effect Opcode.sgtui a =
      make_cmp_imm-Effect checks u Opcode.sgtui (refl, refl) d s1 s2 o a.regs
  makefunc_table-Effect Opcode.sgtsi a =
      make_cmp_imm-Effect checks u Opcode.sgtsi (refl, refl) d s1 s2 o a.regs
  makefunc_table-Effect Opcode.bitcast a =
      make_bitcast-Effect checks u Opcode.bitcast (refl, refl) d s1 s2 o a.regs
  makefunc_table-Effect Opcode.fcvt a =
      make_fcvt-Effect checks u Opcode.fcvt (refl, refl) d s1 s2 o a.regs
  makefunc_table-Effect Opcode.fzcast a =
      make_ficast-Effect checks u Opcode.fzcast (refl, refl) d s1 s2 o a.regs
  makefunc_table-Effect Opcode.fscast a =
      make_ficast-Effect checks u Opcode.fscast (refl, refl) d s1 s2 o a.regs
  makefunc_table-Effect Opcode.froundi a =
      make_froundi-Effect checks u Opcode.froundi (refl, refl) d s1 s2 o a.regs
  makefunc_table-Effect Opcode.ftrunci a =
      make_froundi-Effect checks u Opcode.ftrunci (refl, refl) d s1 s2 o a.regs
  makefunc_table-Effect Opcode.fneg a =
      make_fpu_1op-Effect checks u Opcode.fneg (refl, refl) d s1 s2 o a.regs
  makefunc_table-Effect Opcode.fabs a =
      make_fpu_1op-Effect checks u Opcode.fabs (refl, refl) d s1 s2 o a.regs
  makefunc_table-Effect Opcode.fnabs a =
      make_fpu_1op-Effect checks u Opcode.fnabs (refl, refl) d s1 s2 o a.regs
  makefunc_table-Effect Opcode.fadd a =
      make_fpu_2op-Effect checks u Opcode.fadd (refl, refl) d s1 s2 o a.regs
  makefunc_table-Effect Opcode.fsub a =
      make_fpu_2op-Effect checks u Opcode.fsub (refl, refl) d s1 s2 o a.regs
  makefunc_table-Effect Opcode.fmul a =
      make_fpu_2op-Effect checks u Opcode.fmul (refl, refl) d s1 s2 o a.regs
  makefunc_table-Effect Opcode.fdiv a =
      make_fpu_2op-Effect checks u Opcode.fdiv (refl, refl) d s1 s2 o a.regs
  makefunc_table-Effect Opcode.fsqrt a =
      make_fpu_1op-Effect checks u Opcode.fsqrt (refl, refl) d s1 s2 o a.regs
  makefunc_table-Effect Opcode.fcmp a =
      make_fcmp-Effect checks u Opcode.fcmp (refl, refl) d s1 s2 o a.regs
  makefunc_table-Effect Opcode.fmadd a =
      make_fpu_3op-Effect checks u s Opcode.fmadd d s1 s2 o a.regs refl refl (a.src3_lt refl)
  makefunc_table-Effect Opcode.fmsub a =
      make_fpu_3op-Effect checks u s Opcode.fmsub d s1 s2 o a.regs refl refl (a.src3_lt refl)
  makefunc_table-Effect Opcode.fnmadd a =
      make_fpu_3op-Effect checks u s Opcode.fnmadd d s1 s2 o a.regs refl refl (a.src3_lt refl)
  makefunc_table-Effect Opcode.fnmsub a =
      make_fpu_3op-Effect checks u s Opcode.fnmsub d s1 s2 o a.regs refl refl (a.src3_lt refl)
  makefunc_table-Effect Opcode.fgetstate a =
      make_fgetstate-Effect checks u Opcode.fgetstate (refl, refl) d s1 s2 o a.regs
  makefunc_table-Effect Opcode.fsetstate a =
      make_fsetstate-Effect checks u Opcode.fsetstate (refl, refl) d s1 s2 o a.regs
  makefunc_table-Effect Opcode.ftestexc a =
      make_ftestexc-Effect checks u Opcode.ftestexc (refl, refl) d s1 s2 o a.regs
  makefunc_table-Effect Opcode.fclearexc a =
      make_fclearexc-Effect checks u Opcode.fclearexc (refl, refl) d s1 s2 o a.regs
  makefunc_table-Effect Opcode.fsetround a =
      make_fsetround-Effect checks u Opcode.fsetround (refl, refl) d s1 s2 o a.regs
  makefunc_table-Effect Opcode.fcopyround a =
      make_fcopyround-Effect checks u Opcode.fcopyround (refl, refl) d s1 s2 o a.regs
  makefunc_table-Effect Opcode.vbuild2 a =
      make_vbuild2-Effect checks u Opcode.vbuild2 (refl, refl) d s1 s2 o a.regs
  makefunc_table-Effect Opcode.vbroadcast a =
      make_vbroadcast-Effect checks u Opcode.vbroadcast (refl, refl) d s1 s2 o a.regs
  makefunc_table-Effect Opcode.vextract a =
      make_vextract-Effect checks u Opcode.vextract (refl, refl) d s1 s2 o a.regs
  makefunc_table-Effect Opcode.vinsert a =
      make_vinsert-Effect checks u Opcode.vinsert (refl, refl) d s1 s2 o a.regs
  makefunc_table-Effect Opcode.vfcvt a =
      make_vfcvt-Effect checks u Opcode.vfcvt (refl, refl) d s1 s2 o a.regs
  makefunc_table-Effect Opcode.vfcmp a =
      make_vfcmp-Effect checks u Opcode.vfcmp (refl, refl) d s1 s2 o a.regs
  makefunc_table-Effect Opcode.load_imm a =
      make_load_imm-Effect checks u Opcode.load_imm (refl, refl) d s1 s2 o a.regs
  makefunc_table-Effect Opcode.load_arg a =
      make_load_arg-Effect checks u Opcode.load_arg (refl, refl) d s1 s2 o a.regs
  makefunc_table-Effect Opcode.load a =
      make_load-Effect checks u Opcode.load (refl, refl) d s1 s2 o a.regs
  makefunc_table-Effect Opcode.load_u8 a =
      make_load_narrow-Effect checks u Opcode.load_u8 (refl, refl) d s1 s2 o a.regs
  makefunc_table-Effect Opcode.load_s8 a =
      make_load_narrow-Effect checks u Opcode.load_s8 (refl, refl) d s1 s2 o a.regs
  makefunc_table-Effect Opcode.load_u16 a =
      make_load_narrow-Effect checks u Opcode.load_u16 (refl, refl) d s1 s2 o a.regs
  makefunc_table-Effect Opcode.load_s16 a =
      make_load_narrow-Effect checks u Opcode.load_s16 (refl, refl) d s1 s2 o a.regs
  makefunc_table-Effect Opcode.store a =
      make_store-Effect checks u Opcode.store (refl, refl) d s1 s2 o a.regs
  makefunc_table-Effect Opcode.store_i8 a =
      make_store_narrow-Effect checks u Opcode.store_i8 (refl, refl) d s1 s2 o a.regs
  makefunc_table-Effect Opcode.store_i16 a =
      make_store_narrow-Effect checks u Opcode.store_i16 (refl, refl) d s1 s2 o a.regs
  makefunc_table-Effect Opcode.load_br a =
      make_load-Effect checks u Opcode.load_br (refl, refl) d s1 s2 o a.regs
  makefunc_table-Effect Opcode.load_u16_br a =
      make_load_narrow-Effect checks u Opcode.load_u16_br (refl, refl) d s1 s2 o a.regs
  makefunc_table-Effect Opcode.load_s16_br a =
      make_load_narrow-Effect checks u Opcode.load_s16_br (refl, refl) d s1 s2 o a.regs
  makefunc_table-Effect Opcode.store_br a =
      make_store-Effect checks u Opcode.store_br (refl, refl) d s1 s2 o a.regs
  makefunc_table-Effect Opcode.store_i16_br a =
      make_store_narrow-Effect checks u Opcode.store_i16_br (refl, refl) d s1 s2 o a.regs
  makefunc_table-Effect Opcode.atomic_inc a =
      make_atomic_inc-Effect checks u Opcode.atomic_inc (refl, refl) d s1 s2 o a.regs
  makefunc_table-Effect Opcode.cmpxchg a =
      make_cmpxchg-Effect checks u s Opcode.cmpxchg d s1 s2 o a.regs refl refl (a.src3_lt refl)
  makefunc_table-Effect Opcode.label a =
      make_label-Effect checks memory next u Opcode.label (refl, refl) d s1 s2 o a.regs c few
        (a.label_lt refl)
  makefunc_table-Effect Opcode.goto a =
      make_goto-Effect checks memory next u Opcode.goto (refl, refl) d s1 s2 o a.regs
        (a.label_lt refl)
  makefunc_table-Effect Opcode.goto_if_z a =
      make_goto_cond-Effect checks memory next u Opcode.goto_if_z (refl, refl) d s1 s2 o a.regs c
        few (a.label_lt refl)
  makefunc_table-Effect Opcode.goto_if_nz a =
      make_goto_cond-Effect checks memory next u Opcode.goto_if_nz (refl, refl) d s1 s2 o a.regs c
        few (a.label_lt refl)
  makefunc_table-Effect Opcode.call a =
      make_call-Effect checks u s Opcode.call refl refl d s1 s2 o a.regs (a.src3_lt refl)
  makefunc_table-Effect Opcode.call_transparent a =
      make_call-Effect checks u s Opcode.call_transparent refl refl d s1 s2 o a.regs
        (a.src3_lt refl)
  makefunc_table-Effect Opcode.return a =
      make_return-Effect checks memory next u Opcode.return (refl, refl) d s1 s2 o a.regs
  makefunc_table-Effect Opcode.chain a =
      make_chain-Effect checks u Opcode.chain (refl, refl) d s1 s2 o a.regs
  makefunc_table-Effect Opcode.chain_resolve a =
      make_chain_resolve-Effect checks u Opcode.chain_resolve (refl, refl) d s1 s2 o a.regs
        (a.insn_lt refl)
  makefunc_table-Effect Opcode.illegal a =
      Effect.made u u 0 [] (record blank_insn { opcode = Opcode.illegal }) refl refl refl
        (refl, refl) Setting.nothing
        (λ e. no_operands checks memory next u Opcode.illegal (refl, refl) d s1 s2 0 a.regs)
        (λ c' h. c')
