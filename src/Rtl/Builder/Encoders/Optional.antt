-- ===== src/Rtl/Builder/Encoders/Optional.antt =====
-- The encoders with operands that may be left out.
use libbinrec.Common.{
  ℕ, ◌<◌, ◌≡◌, refl, sym, subst, ◌==◌, ==_iff, not, ◌&&◌, ◌||◌, Bool, true, false, Bool-cases, ◌%◌,
  ◌^◌, ◌/◌, ◌⊎◌, inl, inr, List, [], ◌∷◌, ◌++◌, length, if◌then◌else◌, arith,
}
use libbinrec.Rtl.Opcode.{Opcode, RegType, type_is_int, opcode_has_src3, opcode_has_alias}
use libbinrec.Rtl.Unit.{Insn, Register, RtlUnit}
use libbinrec.Rtl.Unit.Access.{blank_insn, set_src_imm, reg_at, update_reg}
use libbinrec.Rtl.Insn.{is_defined, operand, result_2, result_3}
use libbinrec.Rtl.Insn.Alu.{make_bitfield, is_bfins}
use libbinrec.Rtl.Insn.Call.{make_nop, make_call, make_chain, make_chain_resolve, set_optional}
use libbinrec.Rtl.Insn.Effect.{Among, Setting}
use libbinrec.Rtl.Insn.Flow.{from_option}
use libbinrec.Rtl.Builder.Sound.{Sound}
use libbinrec.Rtl.Builder.Effect.{
  Effect, encodes, InUnit, Plain, Covers, Plain-Good, asserted-Effect,
}
use libbinrec.Rtl.Builder.Third.{Covers3, register-Good}
use libbinrec.Rtl.Builder.Encoders.{reader, readers, nth, not_true, source-Setting}
use libbinrec.Rtl.Builder.Encoders.Three.{low_16}

pub operand_from : (r x : ℕ) → Among r (operand x) → r ≡ x
operand_from r x a = elim (Bool-cases (x == 0)) [
  | inl e ↦ absurd (subst (λ b. Among r (if b then [] else x ∷ [])) e a)
  | inr e ↦ elim (subst (λ b. Among r (if b then [] else x ∷ [])) e a) [
    | inl same ↦ same
    | inr b ↦ absurd b
  ]
]

pub operand_has : (x : ℕ) → 0 < x → Among x (operand x)
operand_has x p = elim (Bool-cases (x == 0)) [
  | inl e ↦ absurd (omega (arith, p, (==_iff x 0).0 e))
  | inr e ↦ subst (λ b. Among x (if b then [] else x ∷ [])) (sym e) (inl refl)
]

append_from : (r : ℕ) (xs ys : List ℕ) → Among r (xs ++ ys) → Among r xs ⊎ Among r ys
append_from r [] ys a = inr a
append_from r (x ∷ xs) ys (inl e) = inl (inl e)
append_from r (x ∷ xs) ys (inr a) = elim (append_from r xs ys a) [
  | inl b ↦ inl (inr b)
  | inr b ↦ inr b
]

append_left : (r : ℕ) (xs ys : List ℕ) → Among r xs → Among r (xs ++ ys)
append_left r (x ∷ xs) ys (inl e) = inl e
append_left r (x ∷ xs) ys (inr a) = inr (append_left r xs ys a)
append_left r [] ys a = absurd a

append_right : (r : ℕ) (xs ys : List ℕ) → Among r ys → Among r (xs ++ ys)
append_right r [] ys a = a
append_right r (x ∷ xs) ys a = inr (append_right r xs ys a)

Covers-bitfield : (dest src1 src2 : ℕ) → Covers dest src1 src2 (dest ∷ src1 ∷ operand src2)
Covers-bitfield dest src1 src2 = record {
  from = λ r a p. elim a [
    | inl e ↦ inl e
    | inr (inl e) ↦ inr (inl e)
    | inr (inr b) ↦ inr (inr (operand_from r src2 b))
  ];
  has_dest = λ p. inl refl;
  has_src1 = λ p. inr (inl refl);
  has_src2 = λ p. inr (inr (operand_has src2 p));
}

Covers-nop :
    (dest src1 src2 : ℕ) → Covers dest src1 src2 (operand dest ++ (operand src1 ++ operand src2))
Covers-nop dest src1 src2 = record {
  from = λ r a p. elim (append_from r (operand dest) _ a) [
    | inl b ↦ inl (operand_from r dest b)
    | inr b ↦ elim (append_from r (operand src1) _ b) [
      | inl c ↦ inr (inl (operand_from r src1 c))
      | inr c ↦ inr (inr (operand_from r src2 c))
    ]
  ];
  has_dest = λ p. append_left dest (operand dest) _ (operand_has dest p);
  has_src1 = λ p.
      append_right src1 (operand dest) _ (append_left src1 (operand src1) _ (operand_has src1 p));
  has_src2 = λ p.
      append_right src2 (operand dest) _ (append_right src2 (operand src1) _ (operand_has src2 p));
}

optional-Setting :
    (u : RtlUnit) (dest : ℕ) (f : Register → Register)
    → Setting u (update_reg u dest f) dest
    → Setting u (set_optional u dest f) dest
optional-Setting u dest f setting = elim (Bool-cases (dest == 0)) [
  | inl e ↦
      let z : dest ≡ 0 = (==_iff dest 0).0 e in
      rw e (subst (λ d. Setting u u d) (sym z) Setting.nothing)
  | inr e ↦ rw e setting
]

inserted : (a b c d : Bool) → a ≡ true → (not a || b && c && d) ≡ true → c ≡ true
inserted a b c d e h = ground arith

-- A constraint that is only put on an operand that is there.
pub given : (x : ℕ) (b : Bool) → 0 < x → (x == 0 || b) ≡ true → b ≡ true
given x b p h = ground arith

pub and_left : (a b : Bool) → a && b ≡ true → a ≡ true
and_left a b h = ground arith

both_1 : (a b c : Bool) → a && b && c ≡ true → a ≡ true
both_1 a b c h = ground arith

both_2 : (a b c : Bool) → a && b && c ≡ true → c ≡ true
both_2 a b c h = ground arith

-- An operand that is there comes after another.
earlier : (x y : ℕ) → 0 < y → not (x == 0 && not (y == 0)) ≡ true → 0 < x
earlier x y p h = ground arith

module _ (checks : Bool) (u : RtlUnit) (op : Opcode) (plain : Plain op) (dest src1 src2 other : ℕ)
    (lt : InUnit u dest src1 src2) where
  abbrev slot : Insn
  slot = record blank_insn { opcode = op }

  pub make_bitfield-Effect :
      (0 < src2 → is_bfins op ≡ true)
      → Effect checks u (from_option (make_bitfield checks u slot dest src1 src2 other))
  unfolding make_bitfield
  make_bitfield-Effect inserts =
      encodes checks u _ dest _ _ _
        (source-Setting u dest RegType.result
          (λ r. record (result_2 slot src1 src2 r) {
            start = other % 2 ^ 8;
            count = other / 2 ^ 8 % 2 ^ 8;
          })
          refl)
        (λ h. Plain-Good u _ _ plain lt (Covers-bitfield dest src1 src2) (
          λ p. not_true _ (nth _ 2 h),
          λ p. nth _ 3 h,
          λ p.
              inserted (is_bfins op) (not (src2 == 0)) (is_defined u src2) _ (inserts p)
                (nth _ 6 h),
        ))

  pub make_nop-Effect : Effect checks u (from_option (make_nop checks u slot dest src1 src2 other))
  unfolding make_nop set_src_imm
  make_nop-Effect =
      encodes checks u _ dest _ _ _
        (optional-Setting u dest _ (
          source-Setting u dest RegType.result_nofold (λ r. record r { opcode = Opcode.nop }) refl))
        (λ h. Plain-Good u _ _ plain lt (Covers-nop dest src1 src2) (
          λ p. not_true _ (given dest _ p (nth _ 0 h)),
          λ p. given src1 _ p (nth _ 1 h),
          λ p. given src2 _ p (nth _ 2 h),
        ))

  pub make_chain-Effect :
      Effect checks u (from_option (make_chain checks u slot dest src1 src2 other))
  unfolding make_chain
  make_chain-Effect =
      readers checks u _ _ _ plain (omega (arith, lt), lt.1, lt.2) Setting.nothing refl
        (λ h p.
          both_1 (is_defined u src1) (type_is_int (reg_at u src1).type) _
            (given src1 _ p (nth _ 1 h)))
        (λ h p.
          let p1 : 0 < src1 = earlier src1 src2 p (nth _ 0 h) in
          and_left _ _ (
            given src2 _ p (
              both_2 (is_defined u src1) (type_is_int (reg_at u src1).type) _
                (given src1 _ p1 (nth _ 1 h)))))

  pub make_chain_resolve-Effect :
      other < length u.insns
      → Effect checks u (make_chain_resolve checks u slot dest src1 src2 other)
  unfolding make_chain_resolve set_src_imm
  make_chain_resolve-Effect insn_lt = asserted-Effect checks u other _ _ insn_lt (
      reader checks u _ _ _ plain (omega (arith, lt), lt.1, omega (arith, lt)) Setting.nothing refl
        refl (λ h p. nth _ 1 h))

-- The arguments of a call.
args_from : (r x y : ℕ) → Among r (if x == 0 then [] else x ∷ operand y) → (r ≡ x) ⊎ (r ≡ y)
args_from r x y a = elim (Bool-cases (x == 0)) [
  | inl e ↦ absurd (subst (λ b. Among r (if b then [] else x ∷ operand y)) e a)
  | inr e ↦ elim (subst (λ b. Among r (if b then [] else x ∷ operand y)) e a) [
    | inl same ↦ inl same
    | inr b ↦ inr (operand_from r y b)
  ]
]

args_has :
    (r x y : ℕ) → 0 < x → Among r (x ∷ operand y) → Among r (if x == 0 then [] else x ∷ operand y)
args_has r x y p a = elim (Bool-cases (x == 0)) [
  | inl e ↦ absurd (omega (arith, p, (==_iff x 0).0 e))
  | inr e ↦ subst (λ b. Among r (if b then [] else x ∷ operand y)) (sym e) a
]

covers_call :
    (dest src1 src2 src3 : ℕ)
    → (0 < src3 → 0 < src2)
    → Covers3 dest src1 src2 src3
        (operand dest ++ src1 ∷ (if src2 == 0 then [] else src2 ∷ operand src3))
covers_call dest src1 src2 src3 after = record {
  from = λ r a p. elim (append_from r (operand dest) _ a) [
    | inl b ↦ inl (operand_from r dest b)
    | inr (inl e) ↦ inr (inl e)
    | inr (inr b) ↦ inr (inr (args_from r src2 src3 b))
  ];
  has_dest = λ p. append_left dest (operand dest) _ (operand_has dest p);
  has_src1 = λ p. append_right src1 (operand dest) _ (inl refl);
  has_src2 = λ p. append_right src2 (operand dest) _ (inr (args_has src2 src2 src3 p (inl refl)));
  has_src3 = λ p.
      append_right src3 (operand dest) _
        (inr (args_has src3 src2 src3 (after p) (inr (operand_has src3 p))));
}

module _ (checks : Bool) (u : RtlUnit) (s : Sound u) (op : Opcode)
    (has3 : opcode_has_src3 op ≡ true) (no_base : opcode_has_alias op ≡ false)
    (dest src1 src2 other : ℕ) (lt : InUnit u dest src1 src2) (lt3 : other < length u.regs) where
  abbrev call_slot : Insn
  call_slot = record blank_insn { opcode = op }

  pub make_call-Effect :
      Effect checks u (from_option (make_call checks u call_slot dest src1 src2 other))
  unfolding make_call
  make_call-Effect =
      encodes checks u _ dest _ _ _
        (optional-Setting u dest _
          (source-Setting u dest RegType.result_nofold (result_3 call_slot src1 src2 other) refl))
        (λ h.
          let src2_there : 0 < other → 0 < src2 = λ p. earlier src2 other p (nth _ 4 h) in
          let args : 0 < src2
              → is_defined u src2
                  && type_is_int (reg_at u src2).type
                  && (other == 0 || is_defined u other && type_is_int (reg_at u other).type)
                ≡ true =
            λ p. given src2 _ p (nth _ 5 h) in
          register-Good u _ _ other lt lt3 (covers_call dest src1 src2 other src2_there)
            (
              λ p. not_true _ (and_left _ _ (given dest _ p (nth _ 0 h))),
              λ p. nth _ 2 h,
              λ p. both_1 _ _ _ (args p),
            )
            (λ p. and_left (is_defined u other) (type_is_int (reg_at u other).type) (
              given other _ p (
                both_2 (is_defined u src2) (type_is_int (reg_at u src2).type) _
                  (args (src2_there p)))))
            has3 no_base (low_16 (length u.regs) other s.regs_lt lt3))
