-- ===== src/Rtl/Insn/Table.antt =====
-- makefunc_table of src/rtl-insn.c and rtl_insn_make() of src/rtl-internal.h.
use libbinrec.Common.{ℕ, Bool, Option}
use libbinrec.Rtl.Opcode.{Opcode}
use libbinrec.Rtl.Unit.{Insn, RtlUnit, BasicBlock}
use libbinrec.Rtl.Insn.{make_set_alias, make_get_alias, make_move, make_select}
use libbinrec.Rtl.Insn.Alu.{
  make_intcast, make_alu_1op, make_alu_2op, make_shift, make_alu_imm, make_clz, make_cmp,
  make_cmp_imm, make_bitfield, make_bitcast,
}
use libbinrec.Rtl.Insn.Fpu.{
  make_fcvt, make_ficast, make_froundi, make_fpu_1op, make_fpu_2op, make_fpu_3op, make_fcmp,
  make_fgetstate, make_fsetstate, make_ftestexc, make_fclearexc, make_fsetround, make_fcopyround,
}
use libbinrec.Rtl.Insn.Vec.{
  make_vbuild2, make_vbroadcast, make_vextract, make_vinsert, make_vfcvt, make_vfcmp,
}
use libbinrec.Rtl.Insn.Mem.{
  make_load_imm, make_load_arg, make_load, make_load_narrow, make_store, make_store_narrow,
  make_atomic_inc, make_cmpxchg,
}
use libbinrec.Rtl.Insn.Call.{make_nop, make_call, make_chain, make_chain_resolve}
use libbinrec.Rtl.Insn.Flow.{Made, from_option, make_label, make_goto, make_goto_cond, make_return}

-- Operand checks, the allocator and what it gives for a new block, then the arguments in C's order.
abbrev pub MakeFunc : Type 0
MakeFunc = Bool → Bool → BasicBlock → RtlUnit → Insn → ℕ → ℕ → ℕ → ℕ → Made

-- An encoder that adds no block.
abbrev pub plain : (Bool → RtlUnit → Insn → ℕ → ℕ → ℕ → ℕ → Option (RtlUnit × Insn)) → MakeFunc
plain f checks _ _ u insn dest src1 src2 other = from_option (f checks u insn dest src1 src2 other)

abbrev pub make_0op : MakeFunc
make_0op _ _ _ u insn _ _ _ _ = Made.made u insn

unfoldable pub makefunc_table : Opcode → MakeFunc
makefunc_table Opcode.nop = plain make_nop
makefunc_table Opcode.set_alias =
    plain (λ checks u insn _ src1 _ other. make_set_alias checks u insn src1 other)
makefunc_table Opcode.get_alias =
    plain (λ checks u insn dest _ _ other. make_get_alias checks u insn dest other)
makefunc_table Opcode.move =
    plain (λ checks u insn dest src1 _ _. make_move checks u insn dest src1)
makefunc_table Opcode.select = plain make_select
makefunc_table Opcode.scast = plain make_intcast
makefunc_table Opcode.zcast = plain make_intcast
makefunc_table Opcode.sext8 = plain make_intcast
makefunc_table Opcode.sext16 = plain make_intcast
makefunc_table Opcode.add = plain make_alu_2op
makefunc_table Opcode.sub = plain make_alu_2op
makefunc_table Opcode.neg = plain make_alu_1op
makefunc_table Opcode.mul = plain make_alu_2op
makefunc_table Opcode.mulhu = plain make_alu_2op
makefunc_table Opcode.mulhs = plain make_alu_2op
makefunc_table Opcode.divu = plain make_alu_2op
makefunc_table Opcode.divs = plain make_alu_2op
makefunc_table Opcode.modu = plain make_alu_2op
makefunc_table Opcode.mods = plain make_alu_2op
makefunc_table Opcode.and = plain make_alu_2op
makefunc_table Opcode.or = plain make_alu_2op
makefunc_table Opcode.xor = plain make_alu_2op
makefunc_table Opcode.not = plain make_alu_1op
makefunc_table Opcode.sll = plain make_shift
makefunc_table Opcode.srl = plain make_shift
makefunc_table Opcode.sra = plain make_shift
makefunc_table Opcode.rol = plain make_shift
makefunc_table Opcode.ror = plain make_shift
makefunc_table Opcode.clz = plain make_clz
makefunc_table Opcode.bswap = plain make_alu_1op
makefunc_table Opcode.seq = plain make_cmp
makefunc_table Opcode.sltu = plain make_cmp
makefunc_table Opcode.slts = plain make_cmp
makefunc_table Opcode.sgtu = plain make_cmp
makefunc_table Opcode.sgts = plain make_cmp
makefunc_table Opcode.bfext = plain make_bitfield
makefunc_table Opcode.bfins = plain make_bitfield
makefunc_table Opcode.addi = plain make_alu_imm
makefunc_table Opcode.muli = plain make_alu_imm
makefunc_table Opcode.andi = plain make_alu_imm
makefunc_table Opcode.ori = plain make_alu_imm
makefunc_table Opcode.xori = plain make_alu_imm
makefunc_table Opcode.slli = plain make_alu_imm
makefunc_table Opcode.srli = plain make_alu_imm
makefunc_table Opcode.srai = plain make_alu_imm
makefunc_table Opcode.rori = plain make_alu_imm
makefunc_table Opcode.seqi = plain make_cmp_imm
makefunc_table Opcode.sltui = plain make_cmp_imm
makefunc_table Opcode.sltsi = plain make_cmp_imm
makefunc_table Opcode.sgtui = plain make_cmp_imm
makefunc_table Opcode.sgtsi = plain make_cmp_imm
makefunc_table Opcode.bitcast = plain make_bitcast
makefunc_table Opcode.fcvt = plain make_fcvt
makefunc_table Opcode.fzcast = plain make_ficast
makefunc_table Opcode.fscast = plain make_ficast
makefunc_table Opcode.froundi = plain make_froundi
makefunc_table Opcode.ftrunci = plain make_froundi
makefunc_table Opcode.fneg = plain make_fpu_1op
makefunc_table Opcode.fabs = plain make_fpu_1op
makefunc_table Opcode.fnabs = plain make_fpu_1op
makefunc_table Opcode.fadd = plain make_fpu_2op
makefunc_table Opcode.fsub = plain make_fpu_2op
makefunc_table Opcode.fmul = plain make_fpu_2op
makefunc_table Opcode.fdiv = plain make_fpu_2op
makefunc_table Opcode.fsqrt = plain make_fpu_1op
makefunc_table Opcode.fcmp = plain make_fcmp
makefunc_table Opcode.fmadd = plain make_fpu_3op
makefunc_table Opcode.fmsub = plain make_fpu_3op
makefunc_table Opcode.fnmadd = plain make_fpu_3op
makefunc_table Opcode.fnmsub = plain make_fpu_3op
makefunc_table Opcode.fgetstate = plain make_fgetstate
makefunc_table Opcode.fsetstate = plain make_fsetstate
makefunc_table Opcode.ftestexc = plain make_ftestexc
makefunc_table Opcode.fclearexc = plain make_fclearexc
makefunc_table Opcode.fsetround = plain make_fsetround
makefunc_table Opcode.fcopyround = plain make_fcopyround
makefunc_table Opcode.vbuild2 = plain make_vbuild2
makefunc_table Opcode.vbroadcast = plain make_vbroadcast
makefunc_table Opcode.vextract = plain make_vextract
makefunc_table Opcode.vinsert = plain make_vinsert
makefunc_table Opcode.vfcvt = plain make_vfcvt
makefunc_table Opcode.vfcmp = plain make_vfcmp
makefunc_table Opcode.load_imm = plain make_load_imm
makefunc_table Opcode.load_arg = plain make_load_arg
makefunc_table Opcode.load = plain make_load
makefunc_table Opcode.load_u8 = plain make_load_narrow
makefunc_table Opcode.load_s8 = plain make_load_narrow
makefunc_table Opcode.load_u16 = plain make_load_narrow
makefunc_table Opcode.load_s16 = plain make_load_narrow
makefunc_table Opcode.store = plain make_store
makefunc_table Opcode.store_i8 = plain make_store_narrow
makefunc_table Opcode.store_i16 = plain make_store_narrow
makefunc_table Opcode.load_br = plain make_load
makefunc_table Opcode.load_u16_br = plain make_load_narrow
makefunc_table Opcode.load_s16_br = plain make_load_narrow
makefunc_table Opcode.store_br = plain make_store
makefunc_table Opcode.store_i16_br = plain make_store_narrow
makefunc_table Opcode.atomic_inc = plain make_atomic_inc
makefunc_table Opcode.cmpxchg = plain make_cmpxchg
makefunc_table Opcode.label =
    λ checks memory slot u insn _ _ _ other. make_label checks memory slot u insn other
makefunc_table Opcode.goto = λ checks _ _ u insn _ _ _ other. make_goto checks u insn other
makefunc_table Opcode.goto_if_z =
    λ checks memory slot u insn _ src1 _ other. make_goto_cond checks memory slot u insn src1 other
makefunc_table Opcode.goto_if_nz =
    λ checks memory slot u insn _ src1 _ other. make_goto_cond checks memory slot u insn src1 other
makefunc_table Opcode.call = plain make_call
makefunc_table Opcode.call_transparent = plain make_call
makefunc_table Opcode.return = λ checks _ _ u insn _ src1 _ _. make_return checks u insn src1
makefunc_table Opcode.chain = plain make_chain
makefunc_table Opcode.chain_resolve = λ checks _ _. make_chain_resolve checks
makefunc_table Opcode.illegal = make_0op

unfoldable pub rtl_insn_make : MakeFunc
rtl_insn_make checks memory slot u insn = makefunc_table insn.opcode checks memory slot u insn
