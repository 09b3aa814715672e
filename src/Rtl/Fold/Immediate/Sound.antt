-- ===== src/Rtl/Fold/Immediate/Sound.antt =====
-- convert_to_regimm() of src/rtl-opt.c: what the operation before and after it computes.
use libbinrec.Common.{
  ℕ, ◌-◌, ◌+◌, ◌^◌, ◌≡◌, ◌≢◌, refl, sym, ap, subst, ◌∙◌, ◌==◌, leb, not, ◌&&◌, Bool, true, false,
  Bool-cases, if◌then◌else◌, List, Option, some, none, get_elem?, arith, inl, inr, ◌>>=◌,
}
use libbinrec.Word.{u32, u64, u64_mod}
use libbinrec.Rtl.Opcode.{Opcode, DataType, is_int32, is_constant, type_is_int}
use libbinrec.Rtl.Unit.{Register, Result}
use libbinrec.Rtl.Fold.Float.{Fp}
use libbinrec.Rtl.Fold.Constant.{fold_op, reg_value_i64}
use libbinrec.Rtl.Fold.Immediate.{regimm_op, convert_constant, convert_to_regimm}
use libbinrec.Rtl.Fold.Immediate.Agree.{
  Immediate, Value, add_agrees, add_agrees_left, sub_agrees, and_agrees, and_agrees_left, or_agrees,
  or_agrees_left, xor_agrees, xor_agrees_left, mul_agrees, mul_agrees_left, sll_agrees, srl_agrees,
  sra_agrees, rol_agrees, ror_agrees, seq_agrees, seq_agrees_left, sltu_agrees, sltu_agrees_left,
  slts_agrees, slts_agrees_left, sgtu_agrees, sgtu_agrees_left, sgts_agrees, sgts_agrees_left,
}

-- The operations whose second operand has a type of its own.
unfoldable pub is_shift : Opcode → Bool
is_shift Opcode.sll = true
is_shift Opcode.srl = true
is_shift Opcode.sra = true
is_shift Opcode.rol = true
is_shift Opcode.ror = true
is_shift _ = false

abbrev too_low : DataType → ℕ → Bool
too_low type k = not (is_int32 type) && k == u64_mod - 0x80000000

module _ (fp : Fp) (type t : DataType) (v b c : ℕ) where
  -- The row of the switch, if there is one, computes `value`.
  abbrev Agrees : Option (Opcode × ℕ) → Option ℕ → Type 0
  Agrees none value = Unit
  Agrees (some (opcode, imm)) value =
      (r : Result) → r.src_imm ≡ imm → fold_op fp opcode r type t v b c ≡ value

  module _ (k : ℕ) (r : Result) (c' : ℕ) (hv : Value (is_int32 t) v) where
    -- The constant is src2.
    right :
        (op : Opcode) (kt : DataType)
        → Immediate (is_int32 kt) k
        → (is_shift op ≡ false → is_int32 kt ≡ is_int32 t)
        → (op ≡ Opcode.sub → is_int32 type ≡ is_int32 t)
        → Agrees (regimm_op op true (too_low type k) (u32 k)) (fold_op fp op r type t v k c')
    unfolding regimm_op fold_op is_shift
    right Opcode.add kt h same ht = λ s e.
        rw e (ap some (add_agrees (is_int32 t) v k (subst (λ x. Immediate x k) (same refl) h)))
    right Opcode.and kt h same ht = λ s e.
        rw e (ap some (and_agrees (is_int32 t) v k (subst (λ x. Immediate x k) (same refl) h) hv))
    right Opcode.or kt h same ht = λ s e.
        rw e (ap some (or_agrees (is_int32 t) v k (subst (λ x. Immediate x k) (same refl) h) hv))
    right Opcode.xor kt h same ht = λ s e.
        rw e (ap some (xor_agrees (is_int32 t) v k (subst (λ x. Immediate x k) (same refl) h) hv))
    right Opcode.mul kt h same ht = λ s e.
        rw e (ap some (mul_agrees (is_int32 t) v k (subst (λ x. Immediate x k) (same refl) h)))
    right Opcode.seq kt h same ht = λ s e.
        rw e (ap some (seq_agrees (is_int32 t) v k (subst (λ x. Immediate x k) (same refl) h)))
    right Opcode.sltu kt h same ht = λ s e.
        rw e (ap some (sltu_agrees (is_int32 t) v k (subst (λ x. Immediate x k) (same refl) h)))
    right Opcode.slts kt h same ht = λ s e.
        rw e (ap some (slts_agrees (is_int32 t) v k (subst (λ x. Immediate x k) (same refl) h)))
    right Opcode.sgtu kt h same ht = λ s e.
        rw e (ap some (sgtu_agrees (is_int32 t) v k (subst (λ x. Immediate x k) (same refl) h)))
    right Opcode.sgts kt h same ht = λ s e.
        rw e (ap some (sgts_agrees (is_int32 t) v k (subst (λ x. Immediate x k) (same refl) h)))
    right Opcode.rol kt h same ht = λ s e. rw e (ap some (rol_agrees (is_int32 t) v k))
    right Opcode.ror kt h same ht = λ s e. rw e (ap some (ror_agrees (is_int32 t) v k))
    right Opcode.sll kt h same ht = λ s e. rw e (sll_agrees (is_int32 t) (is_int32 kt) v k h)
    right Opcode.srl kt h same ht = λ s e. rw e (srl_agrees (is_int32 t) (is_int32 kt) v k h)
    right Opcode.sra kt h same ht = λ s e. rw e (sra_agrees (is_int32 t) (is_int32 kt) v k h)
    right Opcode.sub kt h same ht = elim (Bool-cases (too_low type k)) [
      | inl low ↦ rw low tt
      | inr fits ↦ rw fits (λ s e. rw e (
          ap some (
            sub_agrees (is_int32 t) v k (subst (λ x. Immediate x k) (same refl) h) hv
              (not_low fits))))
    ]
      where
        not_low : too_low type k ≡ false → is_int32 t ≡ false → k ≢ 2 ^ 64 - 2 ^ 31
        not_low fits wide e = ground (arith, ht refl)
    right _ kt h same ht = tt

    -- The constant is src1.
    left :
        (op : Opcode)
        → Immediate (is_int32 t) k
        → Agrees (regimm_op op false (too_low type k) (u32 k)) (fold_op fp op r type t k v c')
    unfolding regimm_op fold_op
    left Opcode.add h = λ s e. rw e (ap some (add_agrees_left (is_int32 t) v k h))
    left Opcode.mul h = λ s e. rw e (ap some (mul_agrees_left (is_int32 t) v k h))
    left Opcode.seq h = λ s e. rw e (ap some (seq_agrees_left (is_int32 t) v k h))
    left Opcode.sltu h = λ s e. rw e (ap some (sltu_agrees_left (is_int32 t) v k h))
    left Opcode.slts h = λ s e. rw e (ap some (slts_agrees_left (is_int32 t) v k h))
    left Opcode.sgtu h = λ s e. rw e (ap some (sgtu_agrees_left (is_int32 t) v k h))
    left Opcode.sgts h = λ s e. rw e (ap some (sgts_agrees_left (is_int32 t) v k h))
    left Opcode.and h = λ s e. rw e (ap some (and_agrees_left (is_int32 t) v k h hv))
    left Opcode.or h = λ s e. rw e (ap some (or_agrees_left (is_int32 t) v k h hv))
    left Opcode.xor h = λ s e. rw e (ap some (xor_agrees_left (is_int32 t) v k h hv))
    left _ h = tt

  -- The converted operation computes `value`.
  abbrev Computes : Option ℕ → Option Result → Type 0
  Computes value none = Unit
  Computes value (some r') = fold_op fp r'.opcode r' type t v b c ≡ value

  Computes-update :
      (value : Option ℕ) (o : Option (Opcode × ℕ)) (update : Opcode → ℕ → Result)
      → ((op : Opcode) (imm : ℕ) → (update op imm).opcode ≡ op)
      → ((op : Opcode) (imm : ℕ) → (update op imm).src_imm ≡ imm)
      → Agrees o value
      → Computes value (o >>= λ (op, imm). some (update op imm))
  Computes-update value none update ho hi a = tt
  Computes-update value (some (op, imm)) update ho hi a =
      subst (λ x. fold_op fp x (update op imm) type t v b c ≡ value) (sym (ho op imm))
        (a (update op imm) (hi op imm))

left_shift :
    (op : Opcode) (low : Bool) (imm : ℕ) → is_shift op ≡ true → regimm_op op false low imm ≡ none
unfolding is_shift regimm_op
left_shift Opcode.sll low imm h = refl
left_shift Opcode.srl low imm h = refl
left_shift Opcode.sra low imm h = refl
left_shift Opcode.rol low imm h = refl
left_shift Opcode.ror low imm h = refl
left_shift _ low imm h = cc

-- What rtl-insn.c requires of the operands of these operations: integers in the range of their type,
-- of one type unless the second one counts a shift, and for SUB of the result's type.
pub record WellTyped (reg s1 s2 : Register) : Type 0 where
  pub int1 : type_is_int s1.type ≡ true
  pub int2 : type_is_int s2.type ≡ true
  pub value1 : Value (is_int32 s1.type) s1.value
  pub value2 : Value (is_int32 s2.type) s2.value
  pub same : is_shift reg.result.opcode ≡ false → s2.type ≡ s1.type
  pub result : reg.result.opcode ≡ Opcode.sub → reg.type ≡ s1.type

reg_value-int : (type : DataType) (k : ℕ) → type_is_int type ≡ true → reg_value_i64 type k ≡ k
unfolding type_is_int reg_value_i64
reg_value-int DataType.float32 k h = cc
reg_value-int _ k h = refl

-- What the guard on the constant lets through.
guard-Immediate :
    (type : DataType) (k : ℕ)
    → Value (is_int32 type) k
    → (not (is_int32 type) && leb (2 ^ 32) (u64 (k + 0x80000000))) ≡ false
    → Immediate (is_int32 type) k
guard-Immediate DataType.int32 k h g = h
guard-Immediate _ k h g = ground arith

module _ (fp : Fp) (reg s1 s2 : Register) (typed : WellTyped reg s1 s2) (v b c : ℕ) where
  right-Computes :
      Value (is_int32 s1.type) v
      → Computes fp reg.type s1.type v b c
          (fold_op fp reg.result.opcode reg.result reg.type s1.type v s2.value c)
          (convert_constant reg true s2.type s2.value)
  unfolding convert_constant
  right-Computes hv =
      elim (Bool-cases (not (is_int32 s2.type) && leb (2 ^ 32) (u64 (s2.value + 0x80000000)))) [
        | inl wide ↦ rw wide tt
        | inr fits ↦ rw fits (
            Computes-update fp reg.type s1.type v b c _
              (regimm_op reg.result.opcode true (too_low reg.type s2.value) (u32 s2.value)) _
              (λ op imm. refl) (λ op imm. refl)
              (right fp reg.type s1.type v b c s2.value reg.result c hv reg.result.opcode s2.type
                (guard-Immediate s2.type s2.value typed.value2 fits)
                (λ n. ap is_int32 (typed.same n)) (λ n. ap is_int32 (typed.result n))))
      ]

  left-Computes :
      Value (is_int32 s2.type) v
      → Computes fp reg.type s2.type v b c
          (fold_op fp reg.result.opcode reg.result reg.type s1.type s1.value v c)
          (convert_constant reg false s1.type s1.value)
  unfolding convert_constant
  left-Computes hv =
      elim (Bool-cases (not (is_int32 s1.type) && leb (2 ^ 32) (u64 (s1.value + 0x80000000)))) [
        | inl wide ↦ rw wide tt
        | inr fits ↦ elim (Bool-cases (is_shift reg.result.opcode)) [
          | inl shift ↦
              rw
                (
                  fits,
                  left_shift reg.result.opcode (too_low reg.type s1.value) (u32 s1.value) shift,
                )
                tt
          | inr other ↦
              rw (fits, ← typed.same other)
                (Computes-update fp reg.type s2.type v b c _
                  (regimm_op reg.result.opcode false (too_low reg.type s1.value) (u32 s1.value)) _
                  (λ op imm. refl) (λ op imm. refl)
                  (left fp reg.type s2.type v b c s1.value reg.result c hv reg.result.opcode (
                    subst (λ x. Immediate (is_int32 x) s1.value) (sym (typed.same other))
                      (guard-Immediate s1.type s1.value typed.value1 fits))))
        ]
      ]

-- The operand that is not replaced, of value v at run time: its type, and the operation's operands.
abbrev pub other_type : Register → Register → DataType
other_type s1 s2 = if is_constant s1.source then s2.type else s1.type

abbrev pub operand1 : Register → ℕ → ℕ
operand1 s1 v = if is_constant s1.source then s1.value else v

abbrev pub operand2 : Register → Register → ℕ → ℕ
operand2 s1 s2 v = if is_constant s1.source then v else s2.value

-- Where convert_to_regimm() succeeds on an operation whose operands are well typed, one of them a
-- constant, the operation it leaves computes from the other operand, whatever value of its type that
-- has, what the original computes from both.
pub convert_to_regimm_sound :
    (fp : Fp) (regs : List Register) (reg s1 s2 : Register) {r' : Result} (v b c : ℕ)
    → get_elem? regs reg.result.src1 ≡ some s1
    → get_elem? regs reg.result.src2 ≡ some s2
    → WellTyped reg s1 s2
    → convert_to_regimm regs reg ≡ some r'
    → Value (is_int32 (other_type s1 s2)) v
    → fold_op fp r'.opcode r' reg.type (other_type s1 s2) v b c
      ≡ fold_op fp reg.result.opcode reg.result reg.type s1.type
          (operand1 s1 v)
          (operand2 s1 s2 v)
          c
unfolding convert_to_regimm
convert_to_regimm_sound fp regs reg s1 s2 {r'} v b c e1 e2 typed e hv =
    elim (Bool-cases (is_constant s1.source)) [
      | inl const1 ↦ rw const1 (
          subst (Computes fp reg.type s2.type v b c _) (at_const1 const1)
            (left-Computes fp reg s1 s2 typed v b c (rw const1 at hv)))
      | inr const2 ↦ rw const2 (
          subst (Computes fp reg.type s1.type v b c _) (at_const2 const2)
            (right-Computes fp reg s1 s2 typed v b c (rw const2 at hv)))
    ]
  where
    choose : Bool → Option Result
    choose const1 =
        if const1
        then convert_constant reg false s1.type (reg_value_i64 s1.type s1.value)
        else convert_constant reg true s2.type (reg_value_i64 s2.type s2.value)

    chosen : choose (is_constant s1.source) ≡ some r'
    chosen = sym (rw (e1, e2)) ∙ e

    at_const1 : is_constant s1.source ≡ true → convert_constant reg false s1.type s1.value ≡ some r'
    at_const1 const1 =
        ap (convert_constant reg false s1.type) (sym (reg_value-int s1.type s1.value typed.int1))
        ∙ ap choose (sym const1)
        ∙ chosen

    at_const2 : is_constant s1.source ≡ false → convert_constant reg true s2.type s2.value ≡ some r'
    at_const2 const2 =
        ap (convert_constant reg true s2.type) (sym (reg_value-int s2.type s2.value typed.int2))
        ∙ ap choose (sym const2)
        ∙ chosen
