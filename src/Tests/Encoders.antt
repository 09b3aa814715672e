-- ===== src/Tests/Encoders.antt =====
-- Encoders of src/rtl-insn.c on a unit of one instruction, which sets r1.
use libbinrec.Common.{zero, suc, true, false, [], ◌∷◌, pos, negsuc, arith}
use libbinrec.Rtl.Opcode.{Opcode, RegType}
use libbinrec.Rtl.Unit.{Insn, RtlUnit}
use libbinrec.Rtl.Unit.Access.{blank_insn, blank_register, blank_alias, blank_block}
use libbinrec.Rtl.Insn.{base_operand, make_select, make_set_alias}
use libbinrec.Rtl.Insn.Marked.{Timed, Encoded, make_select-Encoded, make_set_alias-Encoded}

abbrev unit : RtlUnit
unit = record {
  insns = record blank_insn { opcode = Opcode.load_imm; dest = 1 } ∷ [];
  insns_size = 8;
  blocks = blank_block ∷ [];
  blocks_size = 1;
  have_block = true;
  cur_block = 0;
  last_block = pos 0;
  label_blockmap = negsuc 0 ∷ [];
  labels_size = 1;
  regs =
      blank_register
      ∷ record blank_register { source = RegType.constant; live = true }
      ∷ blank_register
      ∷ [];
  regs_size = 3;
  first_live_reg = 1;
  last_live_reg = 1;
  membase_reg = 0;
  aliases = blank_alias ∷ blank_alias ∷ [];
  aliases_size = 2;
  error = false;
  finalized = false;
  block_seen = [];
}

unit-Timed : Timed 1 unit
unit-Timed zero l h = cc
unit-Timed (suc zero) l h = (omega arith, omega arith)
unit-Timed (suc (suc zero)) l h = cc
unit-Timed (suc (suc (suc r))) l h = absurd (omega arith)

abbrev select_insn : Insn
select_insn = record blank_insn { opcode = Opcode.select }

make_select-Encoded_example :
    Encoded true 1 (2 ∷ 1 ∷ 1 ∷ 1 ∷ []) (make_select true unit select_insn 2 1 1 1)
make_select-Encoded_example =
    make_select-Encoded true unit select_insn 2 1 1 1
      (omega arith, (omega arith, (omega arith, (omega arith, tt)))) unit-Timed

abbrev set_alias_insn : Insn
set_alias_insn = record blank_insn { opcode = Opcode.set_alias }

make_set_alias-Encoded_example :
    Encoded true 1 (1 ∷ base_operand unit 1) (make_set_alias true unit set_alias_insn 1 1)
unfolding base_operand
make_set_alias-Encoded_example =
    make_set_alias-Encoded true unit set_alias_insn 1 1 (omega arith, tt) unit-Timed
