-- ===== src/Rtl/Fold/Float.antt =====
-- The floating-point cases of fold_constant() (src/rtl-opt.c). C's float and double arithmetic and the
-- functions of <math.h> are the parameter `Fp`, on bit patterns. `is_f32` is the test
-- `src1->type == RTLTYPE_FLOAT32`; a, b and c are the values of src1, src2 and src3.
use libbinrec.Common.{
  ℕ, ◌-◌, ◌%◌, ◌^◌, ◌==◌, bit_and, bit_or, bit_xor, Bool, false, not, ◌||◌, if◌then◌else◌,
  bool_to_ℕ, ℤ, pos,
}
use libbinrec.Word.{u32, signed, u64_of}

-- `int_of_f32 w x` is the conversion of x to a signed w-bit integer.
pub record Fp : Type 0 where
  pub f64_of_f32 : ℕ → ℕ
  pub f32_of_f64 : ℕ → ℕ
  pub f32_of_int : ℤ → ℕ
  pub f64_of_int : ℤ → ℕ
  pub int_of_f32 : ℕ → ℕ → ℤ
  pub int_of_f64 : ℕ → ℕ → ℤ
  pub nearbyintf : ℕ → ℕ
  pub nearbyint : ℕ → ℕ
  pub f32_add : ℕ → ℕ → ℕ
  pub f32_sub : ℕ → ℕ → ℕ
  pub f32_mul : ℕ → ℕ → ℕ
  pub f32_div : ℕ → ℕ → ℕ
  pub f32_neg : ℕ → ℕ
  pub f64_add : ℕ → ℕ → ℕ
  pub f64_sub : ℕ → ℕ → ℕ
  pub f64_mul : ℕ → ℕ → ℕ
  pub f64_div : ℕ → ℕ → ℕ
  pub f64_neg : ℕ → ℕ
  pub sqrtf : ℕ → ℕ
  pub sqrt : ℕ → ℕ
  pub fmaf : ℕ → ℕ → ℕ → ℕ
  pub fma : ℕ → ℕ → ℕ → ℕ
  pub f64_lt : ℕ → ℕ → Bool
  pub f64_le : ℕ → ℕ → Bool
  pub f64_gt : ℕ → ℕ → Bool
  pub f64_ge : ℕ → ℕ → Bool
  pub f64_eq : ℕ → ℕ → Bool
  pub f64_isnan : ℕ → Bool

unfoldable pub fold_bitcast : Bool → ℕ → ℕ
fold_bitcast is_f32 a = if is_f32 then u32 a else a

unfoldable pub fold_fneg : Bool → ℕ → ℕ
fold_fneg is_f32 a = if is_f32 then bit_xor (u32 a) (2 ^ 31) else bit_xor a (2 ^ 63)

unfoldable pub fold_fabs : Bool → ℕ → ℕ
fold_fabs is_f32 a = if is_f32 then bit_and (u32 a) (2 ^ 31 - 1) else bit_and a (2 ^ 63 - 1)

unfoldable pub fold_fnabs : Bool → ℕ → ℕ
fold_fnabs is_f32 a = if is_f32 then bit_or (u32 a) (2 ^ 31) else bit_or a (2 ^ 63)

module _ (fp : Fp) where
  unfoldable pub fold_fcvt : Bool → ℕ → ℕ
  fold_fcvt is_f32 a = if is_f32 then fp.f64_of_f32 (u32 a) else fp.f32_of_f64 a

  -- `is32` is the test on src1's type, `to_f32` the one on the result's.
  unfoldable pub fold_fscast : Bool → Bool → ℕ → ℕ
  fold_fscast is32 to_f32 a =
      let value : ℤ = if is32 then signed 32 a else signed 64 a in
      if to_f32 then fp.f32_of_int value else fp.f64_of_int value

  unfoldable pub fold_fzcast : Bool → Bool → ℕ → ℕ
  fold_fzcast is32 to_f32 a =
      let value : ℤ = if is32 then pos (u32 a) else pos a in
      if to_f32 then fp.f32_of_int value else fp.f64_of_int value

  -- `to32` is the test that the result is an INT32.
  unfoldable pub fold_froundi : Bool → Bool → ℕ → ℕ
  fold_froundi is_f32 to32 a =
      if is_f32
      then u64_of (fp.int_of_f32 (if to32 then 32 else 64) (fp.nearbyintf (u32 a)))
      else u64_of (fp.int_of_f64 (if to32 then 32 else 64) (fp.nearbyint a))

  unfoldable pub fold_ftrunci : Bool → Bool → ℕ → ℕ
  fold_ftrunci is_f32 to32 a =
      if is_f32
      then u64_of (fp.int_of_f32 (if to32 then 32 else 64) (u32 a))
      else u64_of (fp.int_of_f64 (if to32 then 32 else 64) a)

  unfoldable pub fold_fadd : Bool → ℕ → ℕ → ℕ
  fold_fadd is_f32 a b = if is_f32 then fp.f32_add (u32 a) (u32 b) else fp.f64_add a b

  unfoldable pub fold_fsub : Bool → ℕ → ℕ → ℕ
  fold_fsub is_f32 a b = if is_f32 then fp.f32_sub (u32 a) (u32 b) else fp.f64_sub a b

  unfoldable pub fold_fmul : Bool → ℕ → ℕ → ℕ
  fold_fmul is_f32 a b = if is_f32 then fp.f32_mul (u32 a) (u32 b) else fp.f64_mul a b

  unfoldable pub fold_fdiv : Bool → ℕ → ℕ → ℕ
  fold_fdiv is_f32 a b = if is_f32 then fp.f32_div (u32 a) (u32 b) else fp.f64_div a b

  unfoldable pub fold_fsqrt : Bool → ℕ → ℕ
  fold_fsqrt is_f32 a = if is_f32 then fp.sqrtf (u32 a) else fp.sqrt a

  -- The comparison that the low three bits of `fcmp` name; 6 and 7 name none.
  unfoldable pub compare_floats : ℕ → ℕ → ℕ → Bool
  compare_floats kind x y =
      if kind == 0
      then fp.f64_lt x y
      else if kind == 1
      then fp.f64_le x y
      else if kind == 2
      then fp.f64_gt x y
      else if kind == 3
      then fp.f64_ge x y
      else if kind == 4
      then fp.f64_eq x y
      else if kind == 5
      then fp.f64_isnan x || fp.f64_isnan y
      else false

  unfoldable pub fold_fcmp : Bool → ℕ → ℕ → ℕ → ℕ
  unfolding compare_floats
  fold_fcmp is_f32 fcmp a b =
      let val1 : ℕ = if is_f32 then fp.f64_of_f32 (u32 a) else a in
      let val2 : ℕ = if is_f32 then fp.f64_of_f32 (u32 b) else b in
      let result : Bool = compare_floats (fcmp % 8) val1 val2 in
      bool_to_ℕ (if bit_and fcmp 8 == 0 then result else not result)

  unfoldable pub fold_fmadd : Bool → ℕ → ℕ → ℕ → ℕ
  fold_fmadd is_f32 a b c = if is_f32 then fp.fmaf (u32 a) (u32 b) (u32 c) else fp.fma a b c

  unfoldable pub fold_fmsub : Bool → ℕ → ℕ → ℕ → ℕ
  fold_fmsub is_f32 a b c =
      if is_f32 then fp.fmaf (u32 a) (u32 b) (fp.f32_neg (u32 c)) else fp.fma a b (fp.f64_neg c)

  unfoldable pub fold_fnmadd : Bool → ℕ → ℕ → ℕ → ℕ
  fold_fnmadd is_f32 a b c =
      if is_f32 then fp.f32_neg (fp.fmaf (u32 a) (u32 b) (u32 c)) else fp.f64_neg (fp.fma a b c)

  unfoldable pub fold_fnmsub : Bool → ℕ → ℕ → ℕ → ℕ
  fold_fnmsub is_f32 a b c =
      if is_f32
      then fp.f32_neg (fp.fmaf (u32 a) (u32 b) (fp.f32_neg (u32 c)))
      else fp.f64_neg (fp.fma a b (fp.f64_neg c))
