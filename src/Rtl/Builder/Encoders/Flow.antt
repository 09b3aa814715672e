-- ===== src/Rtl/Builder/Encoders/Flow.antt =====
-- The encoders that end basic blocks.
use libbinrec.Common.{
  subst, ℕ, ◌+◌, ◌<◌, ◌≡◌, refl, ◌∙◌, ◌%◌, ◌^◌, not, ◌&&◌, Bool, true, Bool-cases, true_and_false,
  if◌then◌else◌, inl, inr, [], ◌∷◌, length, pos, eq_ℤ, sub_ℕ, arith,
}
use libbinrec.Rtl.Opcode.{Opcode}
use libbinrec.Rtl.Unit.{Insn, BasicBlock, RtlUnit}
use libbinrec.Rtl.Unit.Access.{blank_insn, block_at}
use libbinrec.Rtl.Insn.{mark_all, operand}
use libbinrec.Rtl.Insn.Flow.{Made, set_label, make_label, make_goto, make_goto_cond, make_return}
use libbinrec.Rtl.Insn.Effect.{insns-mark_all, aliases-mark_all, blocks-mark_all, Setting}
use libbinrec.Rtl.Builder.Sound.{Good}
use libbinrec.Rtl.Builder.Split.{Current, split_block-cases}
use libbinrec.Rtl.Builder.Effect.{
  Effect, Plain, InUnit, Covers, Plain-Good, asserted-Effect, mark_all-Current, mark_all-SameSizes,
}
use libbinrec.Rtl.Builder.Encoders.{nth, Covers-read}
use libbinrec.Rtl.Builder.Encoders.Optional.{given, and_left, operand_from, operand_has}

-- Operand checks before the rest of an encoder.
guarded :
    (checks ok : Bool) (u : RtlUnit) (m : Made)
    → ((checks ≡ true → ok ≡ true) → Effect checks u m)
    → Effect checks u (if checks && not ok then Made.refused else m)
guarded checks ok u m effect = elim (Bool-cases checks) [
  | inl on ↦ elim (Bool-cases ok) [
    | inl holds ↦ rw (on, holds) (subst (λ c. Effect c u m) on (effect (λ c. holds)))
    | inr broken ↦ rw (on, broken) (Effect.refused refl)
  ]
  | inr off ↦ rw off (subst (λ c. Effect c u m) off (effect (λ c. absurd (true_and_false c off))))
]

Covers-none : Covers 0 0 0 []
Covers-none = record {
  from = λ r a p. absurd a;
  has_dest = λ p. absurd (omega arith);
  has_src1 = λ p. absurd (omega arith);
  has_src2 = λ p. absurd (omega arith);
}

Covers-operand : (src1 : ℕ) → Covers 0 src1 0 (operand src1)
Covers-operand src1 = record {
  from = λ r a p. inr (inl (operand_from r src1 a));
  has_dest = λ p. absurd (omega arith);
  has_src1 = λ p. operand_has src1 p;
  has_src2 = λ p. absurd (omega arith);
}

module _ (checks memory : Bool) (next : BasicBlock) (u : RtlUnit) (op : Opcode) (plain : Plain op)
    (dest src1 src2 other : ℕ) (lt : InUnit u dest src1 src2) where
  abbrev slot : Insn
  slot = record blank_insn { opcode = op }

  abbrev labelled : Insn
  labelled = record slot { label = other % 2 ^ 16 }

  pub no_operands : Good u 0 [] labelled
  no_operands =
      Plain-Good u [] labelled plain (omega (arith, lt), omega (arith, lt), omega (arith, lt))
        Covers-none
        (λ p. absurd (omega arith), λ p. absurd (omega arith), λ p. absurd (omega arith))

  module _ (c : Current u) (few : length u.blocks < 65535)
      (label_lt : other < length u.label_blockmap) where
    pub make_label-Effect : Effect checks u (make_label checks memory next u slot other)
    unfolding make_label mark_all
    make_label-Effect = asserted-Effect checks u other _ _ label_lt (
        guarded checks _ u _ (λ h.
          let n : ℕ = length u.insns in
          elim (Bool-cases (eq_ℤ (block_at u u.cur_block).first_insn (pos n))) [
            | inl first ↦ rw first (
                Effect.made (set_label labelled.label u) u 0 [] labelled refl refl refl (refl, refl)
                  Setting.nothing (λ e. no_operands)
                  (λ c' h'. record { cur_lt = c'.cur_lt; no_exit = c'.no_exit }))
            | inr later ↦
                rw later
                  (elim (split_block-cases memory next u (sub_ℕ n 1) n
                    (λ u'. Made.made (set_label labelled.label u') labelled) c few) [
                      | inl (u', e) ↦ rw e (Effect.failed u')
                      | inr (u', e, entered) ↦ rw e (
                          Effect.made (set_label labelled.label u') u 0 [] labelled
                            entered.same.insns entered.same.regs entered.same.aliases
                            (entered.same.regs_size, entered.same.aliases_size) Setting.nothing
                            (λ e'. no_operands)
                            (λ c' h'. record {
                              cur_lt = entered.current.cur_lt;
                              no_exit = entered.current.no_exit;
                            }))
                    ])
          ]))

    pub make_goto_cond-Effect :
        Effect checks u (make_goto_cond checks memory next u slot src1 other)
    unfolding make_goto_cond
    make_goto_cond-Effect = asserted-Effect checks u other _ _ label_lt (
        guarded checks _ u _ (λ h.
          let n : ℕ = length u.insns in
          let insn : Insn = record slot { src1 = src1; label = other % 2 ^ 16 } in
          let good : checks ≡ true → Good u 0 (src1 ∷ []) insn = λ on.
            Plain-Good u (src1 ∷ []) insn plain (omega (arith, lt), lt.1, omega (arith, lt))
              (Covers-read src1)
              (λ p. absurd (omega arith), λ p. nth _ 2 (h on), λ p. absurd (omega arith)) in
          elim (split_block-cases memory next (mark_all u n (src1 ∷ [])) (pos n) (n + 1)
            (λ u'. Made.made u' insn) (mark_all-Current u n (src1 ∷ []) c)
            (omega (arith, few, blocks-mark_all n u (src1 ∷ [])))) [
              | inl (u', e) ↦ rw e (Effect.failed u')
              | inr (u', e, entered) ↦ rw e (
                  Effect.made u' u 0 (src1 ∷ []) insn
                    (entered.same.insns ∙ insns-mark_all n u (src1 ∷ [])) entered.same.regs
                    (entered.same.aliases ∙ aliases-mark_all n u (src1 ∷ []))
                    (let z = mark_all-SameSizes u n (src1 ∷ []) in
                      (entered.same.regs_size ∙ z.0, entered.same.aliases_size ∙ z.1))
                    Setting.nothing good (λ c' h'. entered.current))
            ]))

  pub make_goto-Effect :
      other < length u.label_blockmap → Effect checks u (make_goto checks u slot other)
  unfolding make_goto mark_all
  make_goto-Effect label_lt = asserted-Effect checks u other _ _ label_lt (
      guarded checks _ u _ (λ h.
        Effect.made _ u 0 [] labelled refl refl refl (refl, refl) Setting.nothing (λ e. no_operands)
          (λ c' h'. cc)))

  pub make_return-Effect : Effect checks u (make_return checks u slot src1)
  unfolding make_return
  make_return-Effect = guarded checks _ u _ (λ h.
      let n : ℕ = length u.insns in
      let insn : Insn = record slot { src1 = src1 } in
      Effect.made _ u 0 (operand src1) insn (insns-mark_all n u (operand src1)) refl
        (aliases-mark_all n u (operand src1)) (mark_all-SameSizes u n (operand src1))
        Setting.nothing
        (λ on.
          Plain-Good u (operand src1) insn plain (omega (arith, lt), lt.1, omega (arith, lt))
            (Covers-operand src1)
            (
              λ p. absurd (omega arith),
              λ p. and_left _ _ (given src1 _ p (nth _ 0 (h on))),
              λ p. absurd (omega arith),
            ))
        (λ c' h'. cc))
