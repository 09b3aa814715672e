-- ===== src/Tests/Folding.antt =====
-- convert_to_regimm() on one operation.
use libbinrec.Common.{ℕ, ◌-◌, ◌≡◌, refl, true, false, List, [], ◌∷◌, some, pos, arith}
use libbinrec.Word.{u64_mod}
use libbinrec.Rtl.Opcode.{Opcode, DataType, RegType, type_is_int}
use libbinrec.Rtl.Unit.{Register, Result, Memory}
use libbinrec.Rtl.Fold.Float.{Fp}
use libbinrec.Rtl.Fold.{fold_sub}
use libbinrec.Rtl.Fold.Constant.{fold_op, reg_value_i64}
use libbinrec.Rtl.Fold.Immediate.{regimm_op, convert_constant, convert_to_regimm}
use libbinrec.Rtl.Fold.Immediate.Sound.{WellTyped, convert_to_regimm_sound}

-- A floating-point unit that none of these runs uses.
abbrev pub no_fp : Fp
no_fp = record {
  f64_of_f32 = λ x. x;
  f32_of_f64 = λ x. x;
  f32_of_int = λ z. 0;
  f64_of_int = λ z. 0;
  int_of_f32 = λ w x. pos x;
  int_of_f64 = λ w x. pos x;
  nearbyintf = λ x. x;
  nearbyint = λ x. x;
  f32_add = λ x y. x;
  f32_sub = λ x y. x;
  f32_mul = λ x y. x;
  f32_div = λ x y. x;
  f32_neg = λ x. x;
  f64_add = λ x y. x;
  f64_sub = λ x y. x;
  f64_mul = λ x y. x;
  f64_div = λ x y. x;
  f64_neg = λ x. x;
  sqrtf = λ x. x;
  sqrt = λ x. x;
  fmaf = λ x y z. x;
  fma = λ x y z. x;
  f64_lt = λ x y. false;
  f64_le = λ x y. false;
  f64_gt = λ x y. false;
  f64_ge = λ x y. false;
  f64_eq = λ x y. false;
  f64_isnan = λ x. false;
}

abbrev no_memory_operand : Memory
no_memory_operand = record {
  base = 0;
  offset = pos 0;
  byterev = false;
  size = 0;
  is_signed = false;
}

-- src1 - src2, of registers 1 and 2.
abbrev difference : Result
difference = record {
  opcode = Opcode.sub;
  is_imm = false;
  src1 = 1;
  src2 = 2;
  src3 = 0;
  start = 0;
  count = 0;
  elem = 0;
  fcmp = 0;
  src_imm = 0;
}

abbrev int64_reg : RegType → ℕ → Register
int64_reg source value = record {
  type = DataType.int64;
  source = source;
  unique_pointer = 0;
  unspillable = false;
  live = true;
  birth = 0;
  death = 3;
  value = value;
  arg_index = 0;
  memory = no_memory_operand;
  alias_src = 0;
  result = difference;
}

abbrev minus_five : ℕ
minus_five = u64_mod - 5

abbrev argument : Register
argument = int64_reg RegType.func_arg 0

abbrev constant : Register
constant = int64_reg RegType.constant minus_five

abbrev computed : Register
computed = int64_reg RegType.result 0

abbrev three_regs : List Register
three_regs = computed ∷ argument ∷ constant ∷ []

-- What the conversion leaves: src1 + 5.
abbrev sum : Result
sum = record difference { opcode = Opcode.addi; is_imm = true; src_imm = 5 }

conversion : convert_to_regimm three_regs computed ≡ some sum
unfolding convert_to_regimm convert_constant regimm_op reg_value_i64
conversion = refl

difference_run :
    fold_op no_fp Opcode.sub difference DataType.int64 DataType.int64 7 minus_five 0 ≡ some 12
unfolding fold_op fold_sub
difference_run = refl

well_typed : WellTyped computed argument constant
unfolding type_is_int
well_typed = record {
  int1 = refl;
  int2 = refl;
  value1 = omega arith;
  value2 = omega arith;
  same = λ e. refl;
  result = λ e. refl;
}

convert_to_regimm_sound_example :
    fold_op no_fp Opcode.addi sum DataType.int64 DataType.int64 7 0 0
    ≡ fold_op no_fp Opcode.sub difference DataType.int64 DataType.int64 7 minus_five 0
convert_to_regimm_sound_example =
    convert_to_regimm_sound no_fp three_regs computed argument constant {r' = sum} 7 0 0 refl refl
      well_typed conversion (omega arith)
