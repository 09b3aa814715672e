-- ===== src/Rtl/Builder/Third.antt =====
-- Instructions with a third operand: a register, or the base of an alias.
use libbinrec.Common.{
  ℕ, ◌<◌, ◌≡◌, refl, sym, ◌∙◌, subst, ◌||◌, ◌==◌, ==_iff, Bool, true, false, Bool-cases,
  true_and_false, if◌then◌else◌, ◌⊎◌, inl, inr, List, length, arith,
}
use libbinrec.Rtl.Opcode.{opcode_has_src3, opcode_has_alias}
use libbinrec.Rtl.Unit.{Insn, RtlUnit}
use libbinrec.Rtl.Unit.Access.{alias_base}
use libbinrec.Rtl.Insn.{is_defined}
use libbinrec.Rtl.Insn.Effect.{Among}
use libbinrec.Rtl.Opt.Live.{
  uses_reg, is_get_alias, is_set_alias, killed_src1, killed_src2, killed_src3,
}
use libbinrec.Rtl.Opt.Live.Range.{OperandsOk}
use libbinrec.Rtl.Builder.Sound.{Good}
use libbinrec.Rtl.Builder.Effect.{Checked, InUnit, no_alias}

-- The registers that an encoder marks, with a third operand.
pub record Covers3 (dest src1 src2 src3 : ℕ) (rs : List ℕ) : Type 0 where
  pub from : (r : ℕ) → Among r rs → 0 < r → (r ≡ dest) ⊎ ((r ≡ src1) ⊎ ((r ≡ src2) ⊎ (r ≡ src3)))
  pub has_dest : 0 < dest → Among dest rs
  pub has_src1 : 0 < src1 → Among src1 rs
  pub has_src2 : 0 < src2 → Among src2 rs
  pub has_src3 : 0 < src3 → Among src3 rs

or_false3 : (a b c : Bool) → (a || b || c || false) ≡ (a || (b || c))
or_false3 a b c = ground arith

or_false : (a b c : Bool) → (a || b || false || c) ≡ (a || (b || c))
or_false a b c = ground arith

either : {x y n : ℕ} (b : Bool) → x < n → y < n → (if b then x else y) < n
either b l m = ground arith

module _ (u : RtlUnit) (rs : List ℕ) (insn : Insn) (src3 : ℕ)
    (lt : InUnit u insn.dest insn.src1 insn.src2) (lt3 : src3 < length u.regs)
    (cover : Covers3 insn.dest insn.src1 insn.src2 src3 rs)
    (checked : Checked u insn.dest insn.src1 insn.src2)
    (defined3 : 0 < src3 → is_defined u src3 ≡ true) where
  -- The operands are those that the instruction refers to.
  abbrev Reads : Type 0
  Reads = (r : ℕ) → 0 < r → uses_reg u insn r ≡ (insn.src1 == r || (insn.src2 == r || src3 == r))

  with_third : Reads → OperandsOk u insn → Good u insn.dest rs insn
  with_third reads ok = record {
    fresh = checked.0;
    dest_eq = refl;
    written = cover.has_dest;
    marked = λ r a p. elim (cover.from r a p) [
      | inl e ↦ (omega (arith, e, lt.0), inl e)
      | inr (inl e) ↦ (omega (arith, e, lt.1), inr (rw (reads r p, sym e) (ground arith)))
      | inr (inr (inl e)) ↦ (omega (arith, e, lt.2), inr (rw (reads r p, sym e) (ground arith)))
      | inr (inr (inr e)) ↦ (omega (arith, e, lt3), inr (rw (reads r p, sym e) (ground arith)))
    ];
    used = λ r p uses. elim (cases r (sym (reads r p) ∙ uses)) [
      | inl e ↦ (
        subst (λ x. Among x rs) e (cover.has_src1 (omega (arith, e, p))),
        subst (λ x. is_defined u x ≡ true) e (checked.1 (omega (arith, e, p))),
      )
      | inr (inl e) ↦ (
        subst (λ x. Among x rs) e (cover.has_src2 (omega (arith, e, p))),
        subst (λ x. is_defined u x ≡ true) e (checked.2 (omega (arith, e, p))),
      )
      | inr (inr e) ↦ (
        subst (λ x. Among x rs) e (cover.has_src3 (omega (arith, e, p))),
        subst (λ x. is_defined u x ≡ true) e (defined3 (omega (arith, e, p))),
      )
    ];
    ok = ok;
  }
    where
      cases :
          (r : ℕ)
          → (insn.src1 == r || (insn.src2 == r || src3 == r)) ≡ true
          → (insn.src1 ≡ r) ⊎ ((insn.src2 ≡ r) ⊎ (src3 ≡ r))
      cases r h = elim (Bool-cases (insn.src1 == r)) [
        | inl e ↦ inl ((==_iff insn.src1 r).0 e)
        | inr ne ↦ elim (Bool-cases (insn.src2 == r)) [
          | inl e ↦ inr (inl ((==_iff insn.src2 r).0 e))
          | inr ne2 ↦ elim (Bool-cases (src3 == r)) [
            | inl e ↦ inr (inr ((==_iff src3 r).0 e))
            | inr ne3 ↦ absurd (true_and_false h (rw (ne, ne2, ne3) refl))
          ]
        ]
      ]

  -- The third operand is a register.
  pub register-Good :
      opcode_has_src3 insn.opcode ≡ true
      → opcode_has_alias insn.opcode ≡ false
      → insn.src3 ≡ src3
      → Good u insn.dest rs insn
  unfolding uses_reg killed_src1 killed_src2 killed_src3
  register-Good has3 no_base same =
      let (no_get, no_set) = no_alias insn.opcode no_base in
      with_third
        (λ r p. rw (has3, no_base, same) (or_false3 (insn.src1 == r) (insn.src2 == r) (src3 == r)))
        (record {
          src1_lt = rw no_get lt.1;
          src2_lt = rw no_set lt.2;
          src3_lt = rw has3 (omega (arith, lt3, same));
          get_src1 = λ e. absurd (true_and_false e no_get);
          set_src2 = λ e. absurd (true_and_false e no_set);
        })

  -- The third operand is the base of the instruction's alias.
  pub base-Good :
      opcode_has_src3 insn.opcode ≡ false
      → opcode_has_alias insn.opcode ≡ true
      → alias_base u insn.alias ≡ src3
      → (is_get_alias insn.opcode ≡ true → insn.src1 ≡ 0)
      → (is_set_alias insn.opcode ≡ true → insn.src2 ≡ 0)
      → Good u insn.dest rs insn
  unfolding uses_reg killed_src1 killed_src2 killed_src3
  base-Good no3 has_base same get_src1 set_src2 =
      with_third
        (λ r p. rw (no3, has_base, same) (or_false (insn.src1 == r) (insn.src2 == r) (src3 == r)))
        (record {
          src1_lt = either (is_get_alias insn.opcode) (omega (arith, lt3, same)) lt.1;
          src2_lt = either (is_set_alias insn.opcode) (omega (arith, lt3, same)) lt.2;
          src3_lt = rw no3 (omega (arith, lt3));
          get_src1 = get_src1;
          set_src2 = set_src2;
        })
