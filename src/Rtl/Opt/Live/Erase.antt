-- ===== src/Rtl/Opt/Live/Erase.antt =====
-- The instruction that rtl_opt_kill_insn() of src/rtl-opt.c erases, before it looks at the operands.
use native.Mathlib.Decide.{ℕ_discrete}
use libbinrec.Common.{
  ℕ, ◌<◌, ◌≡◌, ◌≢◌, refl, sym, ◌∙◌, ap, subst, ◌==◌, ltb, ltb→lt, ltb→le, ◌&&◌, ◌||◌, if◌then◌else◌,
  Bool, true, false, Bool-cases, true_and_false, ◌⊎◌, inl, inr, length, length-modify,
  get_or-modify_self, get_or-modify_ne, get_or-modify_keep, get_or-past, modify, arith,
}
use libbinrec.Rtl.Opcode.{Opcode, opcode_has_src3, opcode_has_alias}
use libbinrec.Rtl.Unit.{Insn, Register, RtlUnit}
use libbinrec.Rtl.Unit.Access.{insn_at, reg_at, alias_base, blank_register, blank_insn, set_src_imm}
use libbinrec.Rtl.Opt.Live.{
  uses_reg, is_get_alias, is_set_alias, killed_src1, killed_src2, killed_src3, to_nop, erase_insn,
}
use libbinrec.Rtl.Opt.Live.Range.{birth, death, uses, OperandsOk, Ranges, Shrinks}

covers_bool :
    (s1 s2 s3 base r : ℕ) (h3 g s : Bool)
    → (s1 == r || s2 == r || (h3 && s3 == r) || ((g || s) && base == r)) ≡ true
    → 0 < r
    → (g ≡ true → s1 ≡ 0)
    → (s ≡ true → s2 ≡ 0)
    → (r ≡ (if g then base else s1)) ⊎ (r ≡ (if s then base else s2)) ⊎ (r ≡ (if h3 then s3 else 0))
covers_bool s1 s2 s3 base r h3 g s e p hg hs = ground arith

pub has_alias-eq : (op : Opcode) → opcode_has_alias op ≡ (is_get_alias op || is_set_alias op)
unfolding opcode_has_alias
has_alias-eq Opcode.get_alias = refl
has_alias-eq Opcode.set_alias = refl
has_alias-eq _ = refl

-- An instruction refers to no registers but those that killing it looks at.
pub covers :
    (u : RtlUnit) (insn : Insn) (r : ℕ)
    → OperandsOk u insn
    → 0 < r
    → uses_reg u insn r ≡ true
    → (r ≡ killed_src1 u insn) ⊎ (r ≡ killed_src2 u insn) ⊎ (r ≡ killed_src3 insn)
unfolding uses_reg killed_src1 killed_src2 killed_src3
covers u insn r o p e =
    covers_bool insn.src1 insn.src2 insn.src3 (alias_base u insn.alias) r
      (opcode_has_src3 insn.opcode) (is_get_alias insn.opcode) (is_set_alias insn.opcode)
      (subst
        (λ b.
          (insn.src1 == r
            || insn.src2 == r
            || (opcode_has_src3 insn.opcode && insn.src3 == r)
            || (b && alias_base u insn.alias == r))
          ≡ true)
        (has_alias-eq insn.opcode) e)
      p o.get_src1 o.set_src2

-- The killed instruction refers to nothing.
abbrev pub Empty : Insn → Type 0
Empty insn = (insn.opcode ≡ Opcode.nop) × (insn.src1 ≡ 0) × (insn.src2 ≡ 0)

pub Empty-uses :
    (u : RtlUnit) (insn : Insn) (r : ℕ) → Empty insn → 0 < r → uses_reg u insn r ≡ false
unfolding uses_reg opcode_has_src3 opcode_has_alias
Empty-uses u insn r e p = rw (e.0, e.1, e.2) (ground arith)

Empty-OperandsOk : (u : RtlUnit) (insn : Insn) → Empty insn → 0 < length u.regs → OperandsOk u insn
unfolding killed_src1 killed_src2 killed_src3 opcode_has_src3
Empty-OperandsOk u insn e p = record {
  src1_lt = rw (e.0, e.1) p;
  src2_lt = rw (e.0, e.2) p;
  src3_lt = rw (e.0) p;
  get_src1 = λ g. e.1;
  set_src2 = λ s. e.2;
}

module _ (u : RtlUnit) (i : ℕ) where
  abbrev pub erased : RtlUnit
  erased = erase_insn u i

  pub erased_insn : Empty (insn_at erased i)
  unfolding erase_insn set_src_imm
  erased_insn = elim (Bool-cases (ltb i (length u.insns))) [
    | inl l ↦
        subst Empty
          (sym (get_or-modify_self u.insns i to_nop blank_insn (ltb→lt i (length u.insns) l)))
          (refl, refl, refl)
    | inr n ↦
        subst Empty
          (sym (
            get_or-past (modify u.insns i to_nop) i blank_insn
              (omega (arith, length-modify u.insns i to_nop, ltb→le i (length u.insns) n))))
          (refl, refl, refl)
  ]

  erased_other : (j : ℕ) → i ≢ j → insn_at erased j ≡ insn_at u j
  unfolding erase_insn
  erased_other j ne = get_or-modify_ne u.insns i j to_nop blank_insn ne

  pub length-erased : length erased.regs ≡ length u.regs
  unfolding erase_insn
  length-erased = elim (Bool-cases ((insn_at u i).dest == 0)) [
    | inl none_set ↦ rw none_set refl
    | inr some_set ↦
        rw some_set (length-modify u.regs (insn_at u i).dest (λ r. record r { live = false }))
  ]

  erased_field :
      (p : Register → ℕ)
      → ((r : Register) → p (record r { live = false }) ≡ p r)
      → (r : ℕ) → p (reg_at erased r) ≡ p (reg_at u r)
  unfolding erase_insn
  erased_field p keep r = elim (Bool-cases ((insn_at u i).dest == 0)) [
    | inl none_set ↦ rw none_set refl
    | inr some_set ↦ rw some_set (
        get_or-modify_keep p u.regs (insn_at u i).dest r (λ r. record r { live = false })
          blank_register keep)
  ]

  pub erased_birth : (r : ℕ) → birth erased r ≡ birth u r
  erased_birth = erased_field (λ r. r.birth) (λ r. refl)

  erased_death : (r : ℕ) → death erased r ≡ death u r
  erased_death = erased_field (λ r. r.death) (λ r. refl)

  pub erased-Shrinks : Shrinks i u erased
  erased-Shrinks = record {
    size = length-erased;
    births = erased_birth;
    deaths = λ r. inl (erased_death r);
  }

  abbrev pub WithI : (ℕ → Type 0) → ℕ → Type 0
  WithI gone j = gone j ⊎ (j ≡ i)

  pub uses_other : (j r : ℕ) → i ≢ j → uses erased j r ≡ uses u j r
  unfolding uses_reg erase_insn
  uses_other j r ne = ap (λ insn. uses_reg u insn r) (erased_other j ne)

  operands_erased : (insn : Insn) → OperandsOk u insn → OperandsOk erased insn
  unfolding killed_src1 killed_src2 killed_src3 erase_insn
  operands_erased insn o = record {
    src1_lt = omega (arith, o.src1_lt, length-erased);
    src2_lt = omega (arith, o.src2_lt, length-erased);
    src3_lt = omega (arith, o.src3_lt, length-erased);
    get_src1 = o.get_src1;
    set_src2 = o.set_src2;
  }

  pub erased-Ranges : (gone : ℕ → Type 0) → Ranges gone u → Ranges (WithI gone) erased
  erased-Ranges gone ranges = record {
    operands = λ j. elim (ℕ_discrete i j) [
      | yes e ↦
          subst (λ x. OperandsOk erased (insn_at erased x)) e
            (Empty-OperandsOk erased (insn_at erased i) erased_insn
              (omega (arith, length-erased, (ranges.operands 0).src1_lt)))
      | no ne ↦
          subst (OperandsOk erased) (sym (erased_other j ne))
            (operands_erased (insn_at u j) (ranges.operands j))
    ];
    order = λ r p l.
        omega
          (arith, erased_birth r, erased_death r, ranges.order r p (omega (arith, length-erased)));
    bounded = λ r j p l b e. elim (ℕ_discrete i j) [
      | yes s ↦ absurd (
          true_and_false (subst (λ x. uses erased x r ≡ true) (sym s) e)
            (Empty-uses erased (insn_at erased i) r erased_insn p))
      | no ne ↦ omega (
        arith,
        erased_death r,
        ranges.bounded r j p (omega (arith, length-erased)) (omega (arith, b, erased_birth r))
            (sym (uses_other j r ne) ∙ e),
      )
    ];
    ends = λ r p l b. elim (ℕ_discrete i (death erased r)) [
      | yes s ↦ inr (inr (sym s))
      | no ne ↦
          elim (ranges.ends r p (omega (arith, length-erased))
            (omega (arith, b, erased_birth r, erased_death r))) [
              | inl used ↦ inl (
                  uses_other (death erased r) r ne
                  ∙ subst (λ x. uses u x r ≡ true) (sym (erased_death r)) used)
              | inr g ↦ inr (inl (subst gone (sym (erased_death r)) g))
            ]
    ];
    dead = λ j r g p. elim (ℕ_discrete i j) [
      | yes s ↦
          subst (λ x. uses erased x r ≡ false) s
            (Empty-uses erased (insn_at erased i) r erased_insn p)
      | no ne ↦ uses_other j r ne ∙ ranges.dead j r (still g ne) p
    ];
  }
    where
      still : {j : ℕ} → WithI gone j → i ≢ j → gone j
      still (inl g) ne = g
      still (inr e) ne = absurd (ne (sym e))
