-- ===== src/Rtl/Fold/Immediate/Agree.antt =====
-- The rows of convert_to_regimm()'s switch: each immediate operation and the register-register one.
use libbinrec.Common.{
  ℕ, ◌+◌, ◌-◌, ◌*◌, ◌^◌, ◌<◌, ◌≡◌, ◌≢◌, refl, ap, ap₂, ◌∙◌, bit_and, bit_or, bit_xor, Bool, true,
  false, ℤ, ltb, ltb_ℤ, ltb→lt, ltb→le, le→ltb, ◌⊎◌, inl, inr, Bool-cases, bool_to_ℕ, ◌==◌, sym,
  ◌≤◌, arith,
}
use native.Mathlib.Nat.{mul_comm}
use libbinrec.Word.{u32, u64, neg32, signed, u64_of}
use libbinrec.Word.Laws.{bit_and_comm, bit_or_comm, bit_xor_comm}
use libbinrec.Rtl.Fold.{
  fold_add, fold_addi, fold_sub, fold_mul, fold_muli, fold_and, fold_andi, fold_or, fold_ori,
  fold_xor, fold_xori, fold_sll, fold_slli, fold_srl, fold_srli, fold_sra, fold_srai, fold_rol,
  fold_ror, fold_rori, fold_seq, fold_seqi, fold_sltu, fold_sltui, fold_slts, fold_sltsi, fold_sgtu,
  fold_sgtui, fold_sgts, fold_sgtsi,
}

-- What the guard leaves of a constant: any 32-bit value, or a 64-bit one that is the sign extension
-- of its low half.
abbrev pub Immediate : Bool → ℕ → Type 0
Immediate true k = k < 2 ^ 32
Immediate false k = (k < 2 ^ 64) × (u64 (k + 0x80000000) < 2 ^ 32)

-- A value of a register of the type.
abbrev pub Value : Bool → ℕ → Type 0
Value true v = v < 2 ^ 32
Value false v = v < 2 ^ 64

sext : (k : ℕ) → Immediate false k → u64_of (signed 32 (u32 k)) ≡ k
sext k h = ground arith

signed_sext : (k : ℕ) → Immediate false k → signed 64 k ≡ signed 32 (u32 k)
signed_sext k h = ground arith

signed-u32 : (k : ℕ) → signed 32 k ≡ signed 32 (u32 k)
signed-u32 k = ground arith

pub add_agrees :
    (is32 : Bool) (v k : ℕ) → Immediate is32 k → fold_addi is32 v (u32 k) ≡ fold_add is32 v k
unfolding fold_add fold_addi
add_agrees true v k h = omega arith
add_agrees false v k h = ap (λ (x : ℕ). u64 (v + x)) (sext k h)

pub add_agrees_left :
    (is32 : Bool) (v k : ℕ) → Immediate is32 k → fold_addi is32 v (u32 k) ≡ fold_add is32 k v
unfolding fold_add fold_addi
add_agrees_left true v k h = omega arith
add_agrees_left false v k h = ap (λ (x : ℕ). u64 (v + x)) (sext k h) ∙ omega arith

pub sub_agrees :
    (is32 : Bool) (v k : ℕ)
    → Immediate is32 k
    → Value is32 v
    → (is32 ≡ false → k ≢ 2 ^ 64 - 2 ^ 31)
    → fold_addi is32 v (neg32 (u32 k)) ≡ fold_sub is32 v k
unfolding fold_sub fold_addi
sub_agrees true v k h hv ne = omega arith
sub_agrees false v k h hv ne = ground (arith, ne refl)

pub and_agrees :
    (is32 : Bool) (v k : ℕ)
    → Immediate is32 k
    → Value is32 v
    → fold_andi is32 v (u32 k) ≡ fold_and v k
unfolding fold_and fold_andi
and_agrees true v k h hv = ap₂ bit_and (omega arith) (omega arith)
and_agrees false v k h hv = ap (bit_and v) (sext k h)

pub and_agrees_left :
    (is32 : Bool) (v k : ℕ)
    → Immediate is32 k
    → Value is32 v
    → fold_andi is32 v (u32 k) ≡ fold_and k v
unfolding fold_and
and_agrees_left is32 v k h hv = and_agrees is32 v k h hv ∙ bit_and_comm v k

pub or_agrees :
    (is32 : Bool) (v k : ℕ)
    → Immediate is32 k
    → Value is32 v
    → fold_ori is32 v (u32 k) ≡ fold_or v k
unfolding fold_or fold_ori
or_agrees true v k h hv = ap₂ bit_or (omega arith) (omega arith)
or_agrees false v k h hv = ap (bit_or v) (sext k h)

pub or_agrees_left :
    (is32 : Bool) (v k : ℕ)
    → Immediate is32 k
    → Value is32 v
    → fold_ori is32 v (u32 k) ≡ fold_or k v
unfolding fold_or
or_agrees_left is32 v k h hv = or_agrees is32 v k h hv ∙ bit_or_comm v k

pub xor_agrees :
    (is32 : Bool) (v k : ℕ)
    → Immediate is32 k
    → Value is32 v
    → fold_xori is32 v (u32 k) ≡ fold_xor v k
unfolding fold_xor fold_xori
xor_agrees true v k h hv = ap₂ bit_xor (omega arith) (omega arith)
xor_agrees false v k h hv = ap (bit_xor v) (sext k h)

pub xor_agrees_left :
    (is32 : Bool) (v k : ℕ)
    → Immediate is32 k
    → Value is32 v
    → fold_xori is32 v (u32 k) ≡ fold_xor k v
unfolding fold_xor
xor_agrees_left is32 v k h hv = xor_agrees is32 v k h hv ∙ bit_xor_comm v k

pub mul_agrees :
    (is32 : Bool) (v k : ℕ) → Immediate is32 k → fold_muli is32 v (u32 k) ≡ fold_mul is32 v k
unfolding fold_mul fold_muli
mul_agrees true v k h = refl
mul_agrees false v k h = ap (λ (x : ℕ). u64 (v * x)) (sext k h)

pub mul_agrees_left :
    (is32 : Bool) (v k : ℕ) → Immediate is32 k → fold_muli is32 v (u32 k) ≡ fold_mul is32 k v
unfolding fold_mul fold_muli
mul_agrees_left true v k h = ap u32 (mul_comm (u32 v) (u32 k))
mul_agrees_left false v k h = ap (λ (x : ℕ). u64 (v * x)) (sext k h) ∙ ap u64 (mul_comm v k)

-- A count below the width is its own immediate; any other is out of range in both forms.
count-cases :
    (count32 : Bool) (k : ℕ)
    → Immediate count32 k
    → (u32 k ≡ k)
      ⊎ ((ltb k 64 ≡ false)
          × (ltb (u32 k) 64 ≡ false)
          × (ltb k 32 ≡ false)
          × (ltb (u32 k) 32 ≡ false))
count-cases true k h = inl (omega arith)
count-cases false k h = elim (Bool-cases (ltb k (2 ^ 31))) [
  | inl low ↦ inl (omega (arith, ltb→lt k (2 ^ 31) low))
  | inr high ↦ inr (out (omega (arith, ltb→le k (2 ^ 31) high)))
]
  where
    out :
        2 ^ 31 ≤ k
        → (ltb k 64 ≡ false)
          × (ltb (u32 k) 64 ≡ false)
          × (ltb k 32 ≡ false)
          × (ltb (u32 k) 32 ≡ false)
    out le = (
      le→ltb k 64 (omega arith),
      le→ltb (u32 k) 64 (omega arith),
      le→ltb k 32 (omega arith),
      le→ltb (u32 k) 32 (omega arith),
    )

pub sll_agrees :
    (is32 count32 : Bool) (v k : ℕ)
    → Immediate count32 k
    → fold_slli is32 v (u32 k) ≡ fold_sll is32 v k
unfolding fold_sll fold_slli
sll_agrees is32 count32 v k h = elim (count-cases count32 k h) [
  | inl e ↦ rw e
  | inr out ↦ ground arith
]

pub srl_agrees :
    (is32 count32 : Bool) (v k : ℕ)
    → Immediate count32 k
    → fold_srli is32 v (u32 k) ≡ fold_srl is32 v k
unfolding fold_srl fold_srli
srl_agrees is32 count32 v k h = elim (count-cases count32 k h) [
  | inl e ↦ rw e
  | inr out ↦ ground arith
]

pub sra_agrees :
    (is32 count32 : Bool) (v k : ℕ)
    → Immediate count32 k
    → fold_srai is32 v (u32 k) ≡ fold_sra is32 v k
unfolding fold_sra fold_srai
sra_agrees is32 count32 v k h = elim (count-cases count32 k h) [
  | inl e ↦ rw e
  | inr out ↦ ground arith
]

pub rol_agrees : (is32 : Bool) (v k : ℕ) → fold_rori is32 v (neg32 (u32 k)) ≡ fold_rol is32 v k
unfolding fold_rol fold_rori
rol_agrees true v k = refl
rol_agrees false v k = refl

pub ror_agrees : (is32 : Bool) (v k : ℕ) → fold_rori is32 v (u32 k) ≡ fold_ror is32 v k
unfolding fold_ror fold_rori
ror_agrees true v k = refl
ror_agrees false v k = refl

pub seq_agrees :
    (is32 : Bool) (v k : ℕ) → Immediate is32 k → fold_seqi is32 v (u32 k) ≡ fold_seq is32 v k
unfolding fold_seq fold_seqi
seq_agrees true v k h = refl
seq_agrees false v k h = ap (λ (x : ℕ). bool_to_ℕ (v == x)) (sext k h)

pub seq_agrees_left :
    (is32 : Bool) (v k : ℕ) → Immediate is32 k → fold_seqi is32 v (u32 k) ≡ fold_seq is32 k v
unfolding fold_seq
seq_agrees_left is32 v k h = seq_agrees is32 v k h ∙ ground arith

pub sltu_agrees :
    (is32 : Bool) (v k : ℕ) → Immediate is32 k → fold_sltui is32 v (u32 k) ≡ fold_sltu is32 v k
unfolding fold_sltu fold_sltui
sltu_agrees true v k h = refl
sltu_agrees false v k h = ap (λ (x : ℕ). bool_to_ℕ (ltb v x)) (sext k h)

-- With the constant on the left the comparison is turned round.
pub sltu_agrees_left :
    (is32 : Bool) (v k : ℕ) → Immediate is32 k → fold_sgtui is32 v (u32 k) ≡ fold_sltu is32 k v
unfolding fold_sltu fold_sgtui
sltu_agrees_left true v k h = refl
sltu_agrees_left false v k h = ap (λ (x : ℕ). bool_to_ℕ (ltb x v)) (sext k h)

pub sgtu_agrees :
    (is32 : Bool) (v k : ℕ) → Immediate is32 k → fold_sgtui is32 v (u32 k) ≡ fold_sgtu is32 v k
unfolding fold_sgtu fold_sgtui
sgtu_agrees true v k h = refl
sgtu_agrees false v k h = ap (λ (x : ℕ). bool_to_ℕ (ltb x v)) (sext k h)

-- With the constant on the left the comparison is turned round.
pub sgtu_agrees_left :
    (is32 : Bool) (v k : ℕ) → Immediate is32 k → fold_sltui is32 v (u32 k) ≡ fold_sgtu is32 k v
unfolding fold_sgtu fold_sltui
sgtu_agrees_left true v k h = refl
sgtu_agrees_left false v k h = ap (λ (x : ℕ). bool_to_ℕ (ltb v x)) (sext k h)

pub slts_agrees :
    (is32 : Bool) (v k : ℕ) → Immediate is32 k → fold_sltsi is32 v (u32 k) ≡ fold_slts is32 v k
unfolding fold_slts fold_sltsi
slts_agrees true v k h = ap (λ (x : ℤ). bool_to_ℕ (ltb_ℤ (signed 32 v) x)) (sym (signed-u32 k))
slts_agrees false v k h = ap (λ (x : ℤ). bool_to_ℕ (ltb_ℤ (signed 64 v) x)) (sym (signed_sext k h))

pub slts_agrees_left :
    (is32 : Bool) (v k : ℕ) → Immediate is32 k → fold_sgtsi is32 v (u32 k) ≡ fold_slts is32 k v
unfolding fold_slts fold_sgtsi
slts_agrees_left true v k h = ap (λ (x : ℤ). bool_to_ℕ (ltb_ℤ x (signed 32 v))) (sym (signed-u32 k))
slts_agrees_left false v k h =
    ap (λ (x : ℤ). bool_to_ℕ (ltb_ℤ x (signed 64 v))) (sym (signed_sext k h))

pub sgts_agrees :
    (is32 : Bool) (v k : ℕ) → Immediate is32 k → fold_sgtsi is32 v (u32 k) ≡ fold_sgts is32 v k
unfolding fold_sgts fold_sgtsi
sgts_agrees true v k h = ap (λ (x : ℤ). bool_to_ℕ (ltb_ℤ x (signed 32 v))) (sym (signed-u32 k))
sgts_agrees false v k h = ap (λ (x : ℤ). bool_to_ℕ (ltb_ℤ x (signed 64 v))) (sym (signed_sext k h))

pub sgts_agrees_left :
    (is32 : Bool) (v k : ℕ) → Immediate is32 k → fold_sltsi is32 v (u32 k) ≡ fold_sgts is32 k v
unfolding fold_sgts fold_sltsi
sgts_agrees_left true v k h = ap (λ (x : ℤ). bool_to_ℕ (ltb_ℤ (signed 32 v) x)) (sym (signed-u32 k))
sgts_agrees_left false v k h =
    ap (λ (x : ℤ). bool_to_ℕ (ltb_ℤ (signed 64 v) x)) (sym (signed_sext k h))
