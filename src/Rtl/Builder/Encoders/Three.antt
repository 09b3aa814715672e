-- ===== src/Rtl/Builder/Encoders/Three.antt =====
-- The encoders with three registers as operands, those of aliases, and make_move().
use libbinrec.Common.{
  ℕ, ◌<◌, ◌≤◌, ◌≡◌, refl, sym, ap, subst, ◌==◌, ==_iff, not, Bool, true, false, Bool-cases, ◌%◌,
  ◌^◌, inl, inr, List, [], ◌∷◌, length, if◌then◌else◌, arith,
}
use libbinrec.Rtl.Opcode.{Opcode, RegType, opcode_has_src3, opcode_has_alias}
use libbinrec.Rtl.Unit.{Insn, RtlUnit}
use libbinrec.Rtl.Unit.Access.{blank_insn, alias_base}
use libbinrec.Rtl.Insn.{
  encode, all_hold, is_defined, result_1, result_3, base_operand, make_select, make_move,
  make_set_alias, make_get_alias,
}
use libbinrec.Rtl.Insn.Fpu.{make_fpu_3op}
use libbinrec.Rtl.Insn.Mem.{make_cmpxchg}
use libbinrec.Rtl.Insn.Effect.{Among, Setting}
use libbinrec.Rtl.Insn.Flow.{from_option}
use libbinrec.Rtl.Builder.Sound.{Sound}
use libbinrec.Rtl.Builder.Effect.{Effect, encodes, InUnit, Plain}
use libbinrec.Rtl.Builder.Third.{Covers3, register-Good, base-Good}
use libbinrec.Rtl.Builder.Encoders.{unary, nth, not_true, source-Setting}

covers_ternary :
    (dest src1 src2 src3 : ℕ) → Covers3 dest src1 src2 src3 (dest ∷ src1 ∷ src2 ∷ src3 ∷ [])
covers_ternary dest src1 src2 src3 = record {
  from = λ r a p. elim a [
    | inl e ↦ inl e
    | inr (inl e) ↦ inr (inl e)
    | inr (inr (inl e)) ↦ inr (inr (inl e))
    | inr (inr (inr (inl e))) ↦ inr (inr (inr e))
    | inr (inr (inr (inr b))) ↦ absurd b
  ];
  has_dest = λ p. inl refl;
  has_src1 = λ p. inr (inl refl);
  has_src2 = λ p. inr (inr (inl refl));
  has_src3 = λ p. inr (inr (inr (inl refl)));
}

pub low_16 : (limit x : ℕ) → limit ≤ 65535 → x < limit → x % 2 ^ 16 ≡ x
low_16 limit x le l = omega arith

module _ (checks : Bool) (u : RtlUnit) (s : Sound u) (op : Opcode) (dest src1 src2 other : ℕ)
    (lt : InUnit u dest src1 src2) where
  abbrev slot : Insn
  slot = record blank_insn { opcode = op }

  module _ (has3 : opcode_has_src3 op ≡ true) (no_base : opcode_has_alias op ≡ false)
      (lt3 : other < length u.regs) where
    ternary :
        (set : RtlUnit) (bs : List Bool)
        → Setting u set dest
        → (all_hold bs ≡ true → not (is_defined u dest) ≡ true)
        → (all_hold bs ≡ true → is_defined u src1 ≡ true)
        → (all_hold bs ≡ true → is_defined u src2 ≡ true)
        → (all_hold bs ≡ true → is_defined u other ≡ true)
        → Effect checks u (
            from_option (
              encode checks bs set
                (dest ∷ src1 ∷ src2 ∷ other ∷ [])
                (record slot { dest = dest; src1 = src1; src2 = src2; src3 = other % 2 ^ 16 })))
    ternary set bs setting fresh def1 def2 def3 = encodes checks u set dest _ _ bs setting (λ h.
        register-Good u _ _ other lt lt3 (covers_ternary dest src1 src2 other)
          (λ p. not_true _ (fresh h), λ p. def1 h, λ p. def2 h) (λ p. def3 h) has3 no_base
          (low_16 (length u.regs) other s.regs_lt lt3))

    pub make_select-Effect :
        Effect checks u (from_option (make_select checks u slot dest src1 src2 other))
    unfolding make_select
    make_select-Effect =
        ternary _ _ (source-Setting u dest RegType.result (result_3 slot src1 src2 other) refl)
          (nth _ 4) (nth _ 5) (nth _ 6) (nth _ 7)

    pub make_fpu_3op-Effect :
        Effect checks u (from_option (make_fpu_3op checks u slot dest src1 src2 other))
    unfolding make_fpu_3op
    make_fpu_3op-Effect =
        ternary _ _ (source-Setting u dest RegType.result (result_3 slot src1 src2 other) refl)
          (nth _ 4) (nth _ 5) (nth _ 6) (nth _ 7)

    pub make_cmpxchg-Effect :
        Effect checks u (from_option (make_cmpxchg checks u slot dest src1 src2 other))
    unfolding make_cmpxchg
    make_cmpxchg-Effect =
        ternary _ _
          (source-Setting u dest RegType.result_nofold (result_3 slot src1 src2 other) refl)
          (nth _ 4) (nth _ 6) (nth _ 8) (nth _ 10)

  pub make_move-Effect :
      Plain op → Effect checks u (from_option (make_move checks u slot dest src1))
  unfolding make_move
  make_move-Effect plain =
      unary checks u _ _ _ plain (lt.0, lt.1, omega (arith, lt))
        (source-Setting u dest RegType.result (result_1 slot src1) refl) refl (nth _ 2) (nth _ 3)

  base_from : (r : ℕ) → Among r (base_operand u other) → r ≡ alias_base u other
  unfolding base_operand
  base_from r a = elim (Bool-cases (alias_base u other == 0)) [
    | inl e ↦ absurd (subst (λ b. Among r (if b then [] else alias_base u other ∷ [])) e a)
    | inr e ↦ elim (subst (λ b. Among r (if b then [] else alias_base u other ∷ [])) e a) [
      | inl same ↦ same
      | inr b ↦ absurd b
    ]
  ]

  base_has : 0 < alias_base u other → Among (alias_base u other) (base_operand u other)
  unfolding base_operand
  base_has p = elim (Bool-cases (alias_base u other == 0)) [
    | inl e ↦ absurd (omega (arith, p, (==_iff (alias_base u other) 0).0 e))
    | inr e ↦
        subst (λ b. Among (alias_base u other) (if b then [] else alias_base u other ∷ [])) (sym e)
          (inl refl)
  ]

  base_same : other < length u.aliases → alias_base u (other % 2 ^ 16) ≡ alias_base u other
  base_same l = ap (alias_base u) (low_16 (length u.aliases) other s.aliases_lt l)

  covers_get : Covers3 dest 0 0 (alias_base u other) (dest ∷ base_operand u other)
  covers_get = record {
    from = λ r a p. elim a [ inl e ↦ inl e | inr b ↦ inr (inr (inr (base_from r b))) ];
    has_dest = λ p. inl refl;
    has_src1 = λ p. absurd (omega arith);
    has_src2 = λ p. absurd (omega arith);
    has_src3 = λ p. inr (base_has p);
  }

  covers_set : Covers3 0 src1 0 (alias_base u other) (src1 ∷ base_operand u other)
  covers_set = record {
    from = λ r a p. elim a [ inl e ↦ inr (inl e) | inr b ↦ inr (inr (inr (base_from r b))) ];
    has_dest = λ p. absurd (omega arith);
    has_src1 = λ p. inl refl;
    has_src2 = λ p. absurd (omega arith);
    has_src3 = λ p. inr (base_has p);
  }

module _ (checks : Bool) (u : RtlUnit) (s : Sound u) (dest src1 src2 other : ℕ)
    (lt : InUnit u dest src1 src2) (alias_lt : other < length u.aliases) where
  pub make_get_alias-Effect : Effect checks u (
      from_option
        (make_get_alias checks u (record blank_insn { opcode = Opcode.get_alias }) dest other))
  unfolding make_get_alias opcode_has_src3 opcode_has_alias
  make_get_alias-Effect =
      encodes checks u _ dest _ _ _
        (Setting.result dest _ (λ r. refl) (λ r. refl) (λ r. refl) (λ r. refl))
        (λ h.
          base-Good u _ _ (alias_base u other) (lt.0, omega (arith, lt), omega (arith, lt))
            (s.base_lt other) (covers_get checks u s Opcode.get_alias dest src1 src2 other lt)
            (λ p. not_true _ (nth _ 2 h), λ p. absurd (omega arith), λ p. absurd (omega arith))
            (s.bases other) refl refl
            (base_same checks u s Opcode.get_alias dest src1 src2 other lt alias_lt) (λ e. refl)
            (λ e. refl))

  pub make_set_alias-Effect : Effect checks u (
      from_option
        (make_set_alias checks u (record blank_insn { opcode = Opcode.set_alias }) src1 other))
  unfolding make_set_alias opcode_has_src3 opcode_has_alias
  make_set_alias-Effect = encodes checks u _ 0 _ _ _ Setting.nothing (λ h.
      base-Good u _ _ (alias_base u other) (omega (arith, lt), lt.1, omega (arith, lt))
        (s.base_lt other) (covers_set checks u s Opcode.set_alias dest src1 src2 other lt)
        (λ p. absurd (omega arith), λ p. nth _ 2 h, λ p. absurd (omega arith)) (s.bases other) refl
        refl (base_same checks u s Opcode.set_alias dest src1 src2 other lt alias_lt) (λ e. cc)
        (λ e. refl))
