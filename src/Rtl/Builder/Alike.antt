-- ===== src/Rtl/Builder/Alike.antt =====
-- The calls of src/rtl.c that set attributes: they keep the invariant of the instructions and registers.
use libbinrec.Common.{
  ℕ, ◌<◌, ◌≤◌, ◌≡◌, refl, sym, ◌∙◌, ap, subst, ◌||◌, Bool, true, false, Bool-cases, if◌then◌else◌,
  inl, inr, length, get_or, arith,
}
use libbinrec.Rtl.Opcode.{Opcode, opcode_has_alias}
use libbinrec.Rtl.Unit.{Insn, RtlUnit}
use libbinrec.Rtl.Unit.Access.{insn_at, alias_base, blank_insn}
use libbinrec.Rtl.Insn.{is_defined}
use libbinrec.Rtl.Opt.Live.{uses_reg, killed_src1, killed_src2, is_get_alias, is_set_alias}
use libbinrec.Rtl.Opt.Live.Range.{birth, death, uses, OperandsOk}
use libbinrec.Rtl.Builder.Sound.{live, Sound}

-- Two units with the same instructions, in which registers are defined and live alike, and in which
-- the aliases that instructions name have the same bases.
pub record Alike (u u' : RtlUnit) : Type 0 where
  pub insns : u'.insns ≡ u.insns
  pub live_eq : (r : ℕ) → live u' r ≡ live u r
  pub births : (r : ℕ) → birth u' r ≡ birth u r
  pub deaths : (r : ℕ) → death u' r ≡ death u r
  pub defined : (r : ℕ) → is_defined u' r ≡ is_defined u r
  pub regs_le : length u.regs ≤ length u'.regs
  pub regs_lt : length u'.regs ≤ 65535
  pub aliases_lt : length u'.aliases ≤ 65535
  pub named :
      (j : ℕ)
      → j < length u.insns
      → opcode_has_alias (insn_at u j).opcode ≡ true
      → alias_base u' (insn_at u j).alias ≡ alias_base u (insn_at u j).alias
  pub bases : (a : ℕ) → 0 < alias_base u' a → is_defined u (alias_base u' a) ≡ true
  pub base_lt : (a : ℕ) → alias_base u' a < length u.regs

has_alias : (op : Opcode) → is_get_alias op || is_set_alias op ≡ true → opcode_has_alias op ≡ true
unfolding opcode_has_alias
has_alias Opcode.get_alias h = refl
has_alias Opcode.set_alias h = refl
has_alias _ h = cc

module _ (u u' : RtlUnit) (k : Alike u u') (s : Sound u) where
  same_insn : (j : ℕ) → insn_at u' j ≡ insn_at u j
  same_insn j = ap (λ xs. get_or xs j blank_insn) k.insns

  same_uses : (j r : ℕ) → j < length u.insns → uses u' j r ≡ uses u j r
  unfolding uses_reg
  same_uses j r l =
      ap (λ i. uses_reg u' i r) (same_insn j)
      ∙ elim (Bool-cases (opcode_has_alias (insn_at u j).opcode)) [
        | inl named ↦ rw (named, k.named j l named) refl
        | inr none_named ↦ rw none_named refl
      ]

  killed_lt :
      (b : Bool) (base base' src : ℕ)
      → (if b then base else src) < length u.regs
      → (b ≡ true → base' ≡ base)
      → (if b then base' else src) < length u'.regs
  killed_lt true base base' src l e = omega (arith, l, e refl, k.regs_le)
  killed_lt false base base' src l e = omega (arith, l, k.regs_le)

  same_operands : (j : ℕ) → j < length u.insns → OperandsOk u' (insn_at u j)
  unfolding killed_src1 killed_src2
  same_operands j l =
      let i : Insn = insn_at u j in
      let ok = s.operands j l in
      record {
        src1_lt =
            killed_lt (is_get_alias i.opcode) (alias_base u i.alias) (alias_base u' i.alias) i.src1
              ok.src1_lt (λ h. k.named j l (has_alias i.opcode (rw h refl)));
        src2_lt =
            killed_lt (is_set_alias i.opcode) (alias_base u i.alias) (alias_base u' i.alias) i.src2
              ok.src2_lt (λ h. k.named j l (has_alias i.opcode (ground (arith, h))));
        src3_lt = omega (arith, ok.src3_lt, k.regs_le);
        get_src1 = ok.get_src1;
        set_src2 = ok.set_src2;
      }

  pub Alike-Sound : Sound u'
  Alike-Sound =
      let n_eq = ap length k.insns in
      record {
        timed = λ r p l.
            let t = s.timed r p (sym (k.live_eq r) ∙ l) in
            (omega (arith, t, k.births r, k.deaths r), omega (arith, t, k.deaths r, n_eq));
        idle = λ r p l. k.births r ∙ s.idle r p (sym (k.live_eq r) ∙ l) ∙ sym (k.deaths r);
        defined_live = λ r p d. k.live_eq r ∙ s.defined_live r p (sym (k.defined r) ∙ d);
        live_defined = λ r p l. k.defined r ∙ s.live_defined r p (sym (k.live_eq r) ∙ l);
        setter = λ r p l.
            ap (λ b. (insn_at u' b).dest) (k.births r)
            ∙ ap (λ i. i.dest) (same_insn (birth u r))
            ∙ s.setter r p (sym (k.live_eq r) ∙ l);
        used = λ j r lj p e.
            let l : j < length u.insns = omega (arith, lj, n_eq) in
            let (lv, b, d) = s.used j r l p (sym (same_uses j r l) ∙ e) in
            (k.live_eq r ∙ lv, omega (arith, b, k.births r), omega (arith, d, k.deaths r));
        ends = λ r p l lt.
            let lu = sym (k.live_eq r) ∙ l in
            let t = s.timed r p lu in
            ap (λ j. uses u' j r) (k.deaths r)
            ∙ same_uses (death u r) r t.1
            ∙ s.ends r p lu (omega (arith, lt, k.births r, k.deaths r));
        operands = λ j l.
            subst (OperandsOk u') (sym (same_insn j)) (same_operands j (omega (arith, l, n_eq)));
        bases = λ a p. k.defined (alias_base u' a) ∙ k.bases a p;
        base_lt = λ a. omega (arith, k.base_lt a, k.regs_le);
        some_reg = omega (arith, s.some_reg, k.regs_le);
        regs_lt = k.regs_lt;
        aliases_lt = k.aliases_lt;
      }
