-- ===== src/Rtl/Builder/Encoders.antt =====
-- The encoders of src/rtl-insn.c by their operands: those that set a register from none, one or two
-- others, and those that only read registers.
pub mod Alu
pub mod Fpu
pub mod Vec
pub mod Mem
pub mod Three
pub mod Optional
pub mod Flow
pub mod All
use libbinrec.Common.{
  ℕ, ◌<◌, ◌≡◌, refl, not, ◌&&◌, Bool, true, false, if◌then◌else◌, inl, inr, List, [], ◌∷◌, length,
  none, some, zero, suc, get_or, subst, sym, arith,
}
use libbinrec.Rtl.Opcode.{Opcode, RegType, is_undefined}
use libbinrec.Rtl.Unit.{Insn, Result, Register, RtlUnit}
use libbinrec.Rtl.Unit.Access.{blank_insn, update_reg}
use libbinrec.Rtl.Insn.{encode, all_hold, is_defined, set_source}
use libbinrec.Rtl.Insn.Flow.{from_option}
use libbinrec.Rtl.Insn.Effect.{Setting}
use libbinrec.Rtl.Builder.Sound.{Sound}
use libbinrec.Rtl.Builder.Effect.{Effect, encodes, Plain, Covers, Checked, InUnit, Plain-Good}

Covers-result : (dest : ℕ) → Covers dest 0 0 (dest ∷ [])
Covers-result dest = record {
  from = λ r a p. elim a [ inl e ↦ inl e | inr b ↦ absurd b ];
  has_dest = λ p. inl refl;
  has_src1 = λ p. absurd (omega arith);
  has_src2 = λ p. absurd (omega arith);
}

Covers-unary : (dest src1 : ℕ) → Covers dest src1 0 (dest ∷ src1 ∷ [])
Covers-unary dest src1 = record {
  from = λ r a p. elim a [ inl e ↦ inl e | inr (inl e) ↦ inr (inl e) | inr (inr b) ↦ absurd b ];
  has_dest = λ p. inl refl;
  has_src1 = λ p. inr (inl refl);
  has_src2 = λ p. absurd (omega arith);
}

Covers-binary : (dest src1 src2 : ℕ) → Covers dest src1 src2 (dest ∷ src1 ∷ src2 ∷ [])
Covers-binary dest src1 src2 = record {
  from = λ r a p. elim a [
    | inl e ↦ inl e
    | inr (inl e) ↦ inr (inl e)
    | inr (inr (inl e)) ↦ inr (inr e)
    | inr (inr (inr b)) ↦ absurd b
  ];
  has_dest = λ p. inl refl;
  has_src1 = λ p. inr (inl refl);
  has_src2 = λ p. inr (inr (inl refl));
}

pub Covers-read : (src1 : ℕ) → Covers 0 src1 0 (src1 ∷ [])
Covers-read src1 = record {
  from = λ r a p. elim a [ inl e ↦ inr (inl e) | inr b ↦ absurd b ];
  has_dest = λ p. absurd (omega arith);
  has_src1 = λ p. inl refl;
  has_src2 = λ p. absurd (omega arith);
}

Covers-reads : (src1 src2 : ℕ) → Covers 0 src1 src2 (src1 ∷ src2 ∷ [])
Covers-reads src1 src2 = record {
  from =
      λ r a p. elim a [ inl e ↦ inr (inl e) | inr (inl e) ↦ inr (inr e) | inr (inr b) ↦ absurd b ];
  has_dest = λ p. absurd (omega arith);
  has_src1 = λ p. inl refl;
  has_src2 = λ p. inr (inl refl);
}

pub not_true : (b : Bool) → not b ≡ true → b ≡ false
not_true true h = cc
not_true false h = refl

-- One of the constraints of a list that holds.
pub nth : (bs : List Bool) (i : ℕ) → all_hold bs ≡ true → get_or bs i true ≡ true
unfolding all_hold
nth [] i h = refl
nth (true ∷ bs) zero h = refl
nth (true ∷ bs) (suc i) h = nth bs i h
nth (false ∷ bs) i h = cc

pub source-Setting :
    (u : RtlUnit) (dest : ℕ) (source : RegType) (f : Result → Result)
    → is_undefined source ≡ false
    → Setting u (update_reg u dest (set_source source f)) dest
source-Setting u dest source f defined =
    Setting.result dest (set_source source f) (λ r. refl) (λ r. refl) (λ r. refl) (λ r. defined)

-- An encoder with the constraints `bs`, whose operands are the unit's registers. Constraint number i of
-- those in `at` is that on an operand.
module _ (checks : Bool) (u set : RtlUnit) (insn : Insn) (bs : List Bool)
    (plain : Plain insn.opcode) (lt : InUnit u insn.dest insn.src1 insn.src2) where
  abbrev Encodes : List ℕ → Type 0
  Encodes rs = Effect checks u (from_option (encode checks bs set rs insn))

  covered :
      (rs : List ℕ)
      → Setting u set insn.dest
      → Covers insn.dest insn.src1 insn.src2 rs
      → (all_hold bs ≡ true → Checked u insn.dest insn.src1 insn.src2)
      → Encodes rs
  covered rs setting cover checked =
      encodes checks u set insn.dest rs insn bs setting
        (λ h. Plain-Good u rs insn plain lt cover (checked h))

  pub unary :
      Setting u set insn.dest
      → insn.src2 ≡ 0
      → (all_hold bs ≡ true → not (is_defined u insn.dest) ≡ true)
      → (all_hold bs ≡ true → is_defined u insn.src1 ≡ true)
      → Encodes (insn.dest ∷ insn.src1 ∷ [])
  unary setting no_src2 fresh src1 =
      covered (insn.dest ∷ insn.src1 ∷ []) setting
        (subst (λ k. Covers insn.dest insn.src1 k (insn.dest ∷ insn.src1 ∷ [])) (sym no_src2)
          (Covers-unary insn.dest insn.src1))
        (λ h. (λ p. not_true _ (fresh h), λ p. src1 h, λ p. absurd (omega (arith, no_src2, p))))

  pub binary :
      Setting u set insn.dest
      → (all_hold bs ≡ true → not (is_defined u insn.dest) ≡ true)
      → (all_hold bs ≡ true → is_defined u insn.src1 ≡ true)
      → (all_hold bs ≡ true → is_defined u insn.src2 ≡ true)
      → Encodes (insn.dest ∷ insn.src1 ∷ insn.src2 ∷ [])
  binary setting fresh src1 src2 =
      covered (insn.dest ∷ insn.src1 ∷ insn.src2 ∷ []) setting
        (Covers-binary insn.dest insn.src1 insn.src2)
        (λ h. (λ p. not_true _ (fresh h), λ p. src1 h, λ p. src2 h))

  pub nullary :
      Setting u set insn.dest
      → insn.src1 ≡ 0
      → insn.src2 ≡ 0
      → (all_hold bs ≡ true → not (is_defined u insn.dest) ≡ true)
      → Encodes (insn.dest ∷ [])
  nullary setting no_src1 no_src2 fresh =
      covered (insn.dest ∷ []) setting
        (subst (λ k. Covers insn.dest insn.src1 k (insn.dest ∷ [])) (sym no_src2)
          (subst (λ k. Covers insn.dest k 0 (insn.dest ∷ [])) (sym no_src1)
            (Covers-result insn.dest)))
        (λ h. (
          λ p. not_true _ (fresh h),
          λ p. absurd (omega (arith, no_src1, p)),
          λ p. absurd (omega (arith, no_src2, p)),
        ))

  pub reader :
      Setting u set insn.dest
      → insn.dest ≡ 0
      → insn.src2 ≡ 0
      → (all_hold bs ≡ true → 0 < insn.src1 → is_defined u insn.src1 ≡ true)
      → Encodes (insn.src1 ∷ [])
  reader setting no_dest no_src2 src1 =
      covered (insn.src1 ∷ []) setting
        (subst (λ k. Covers k insn.src1 insn.src2 (insn.src1 ∷ [])) (sym no_dest)
          (subst (λ k. Covers 0 insn.src1 k (insn.src1 ∷ [])) (sym no_src2)
            (Covers-read insn.src1)))
        (λ h. (
          λ p. absurd (omega (arith, no_dest, p)),
          src1 h,
          λ p. absurd (omega (arith, no_src2, p)),
        ))

  pub readers :
      Setting u set insn.dest
      → insn.dest ≡ 0
      → (all_hold bs ≡ true → 0 < insn.src1 → is_defined u insn.src1 ≡ true)
      → (all_hold bs ≡ true → 0 < insn.src2 → is_defined u insn.src2 ≡ true)
      → Encodes (insn.src1 ∷ insn.src2 ∷ [])
  readers setting no_dest src1 src2 =
      covered (insn.src1 ∷ insn.src2 ∷ []) setting
        (subst (λ k. Covers k insn.src1 insn.src2 (insn.src1 ∷ insn.src2 ∷ [])) (sym no_dest)
          (Covers-reads insn.src1 insn.src2))
        (λ h. (λ p. absurd (omega (arith, no_dest, p)), src1 h, src2 h))
