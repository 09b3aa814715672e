-- ===== src/Rtl/Opt/Kill.antt =====
-- rtl_opt_kill_insn() of src/rtl-opt.c and the live ranges of the registers.
pub mod Enough
use libbinrec.Common.{
  ℕ, zero, suc, ◌+◌, ◌<◌, ◌≤◌, ◌≡◌, ◌≢◌, refl, sym, ◌∙◌, subst, ◌==◌, leb, not, ◌&&◌, ◌||◌, Bool,
  true, false, Bool-cases, true_and_false, ◌⊎◌, inl, inr, length, arith,
}
use libbinrec.Rtl.Unit.{RtlUnit}
use libbinrec.Rtl.Unit.Access.{insn_at}
use libbinrec.Rtl.Opt.Live.{
  rollback_reg_death, killed_src1, killed_src2, killed_src3, erase_insn, release, kill_loop,
  may_raise, rtl_opt_kill_insn, prev_reg_use,
}
use libbinrec.Rtl.Opt.Live.Range.{
  birth, death, uses, Ranges, Shrinks, Shrinks-refl, Shrinks-trans, rolled, rolled_birth, latest,
  rolled-Shrinks, rolled-Ranges,
}
use libbinrec.Rtl.Opt.Live.Erase.{covers, length-erased, erased-Shrinks, erased-Ranges, WithI}

-- What a routine that kills an instruction keeps.
abbrev Kills : (RtlUnit → ℕ → RtlUnit) → Type 1
Kills kill =
    (gone : ℕ → Type 0) (u : RtlUnit) (i : ℕ)
    → Ranges gone u
    → Ranges gone (kill u i) × Shrinks i u (kill u i)

-- The range of a register does not end at instruction i.
abbrev Ended : ℕ → RtlUnit → ℕ → Type 0
Ended i u r = birth u r < death u r → death u r ≢ i

Ended-Shrinks : (i : ℕ) (u u' : RtlUnit) (r : ℕ) → Shrinks i u u' → Ended i u r → Ended i u' r
Ended-Shrinks i u u' r s ended b e = elim (s.deaths r) [
  | inl same ↦ ended (omega (arith, same, b, s.births r)) (sym same ∙ e)
  | inr less ↦ omega (arith, less, e)
]

module _ (kill : RtlUnit → ℕ → RtlUnit) (kills : Kills kill) (dse : Bool) (gone : ℕ → Type 0)
    (u : RtlUnit) (i src : ℕ) (ranges : Ranges gone u) (here : gone i)
    (lt : src < length u.regs) where
  abbrev Released : RtlUnit → Type 0
  Released u' = Ranges gone u' × Shrinks i u u' × (0 < src → Ended i u' src)

  after_rollback : 0 < src → death u src ≡ i → Released (rolled u src lt)
  after_rollback p e = (
    rolled-Ranges u src lt gone ranges p
        (subst (λ x. uses u x src ≡ false) (sym e) (ranges.dead i src here p)),
    subst (λ x. Shrinks x u (rolled u src lt)) e (rolled-Shrinks u src lt gone ranges p),
    λ p'. later,
  )
    where
      later :
          birth (rolled u src lt) src < death (rolled u src lt) src
          → death (rolled u src lt) src ≡ i
          → ⊥
      later b at =
          true_and_false (last b)
            (subst (λ x. uses u x src ≡ false) (sym at) (ranges.dead i src here p))
        where
          last :
              birth (rolled u src lt) src < death (rolled u src lt) src
              → uses u (death (rolled u src lt) src) src ≡ true
          last b = (latest u src lt).1 (omega (arith, b, rolled_birth u src lt src))

  after_kill :
      0 < src → death u src ≡ i → Released (kill (rolled u src lt) (birth (rolled u src lt) src))
  after_kill p e =
      let (rolled_ranges, rolled_shrinks, ended) = after_rollback p e in
      let (killed_ranges, killed_shrinks) =
        kills gone (rolled u src lt) (birth (rolled u src lt) src) rolled_ranges in
      let before : birth (rolled u src lt) src ≤ i =
        omega (arith, rolled_birth u src lt src, ranges.order src p lt, e) in
      (
        killed_ranges,
        Shrinks-trans before rolled_shrinks killed_shrinks,
        λ p'.
            Ended-Shrinks i (rolled u src lt) (kill (rolled u src lt) (birth (rolled u src lt) src))
              src (widen before killed_shrinks) (ended p'),
      )
    where
      widen : {v w : RtlUnit} {j : ℕ} → j ≤ i → Shrinks j v w → Shrinks i v w
      widen {v} {w} le s = Shrinks-trans le (Shrinks-refl i v) s

  release-Released : Released (release kill dse i u src)
  unfolding release rollback_reg_death
  release-Released = elim (Bool-cases (src == 0 || not (death u src == i))) [
    | inl skip ↦ rw (skip, release) (ranges, Shrinks-refl i u, λ p b at. ground (arith, skip))
    | inr take ↦ elim (Bool-cases (leb (prev_reg_use u src (death u src)) (birth u src) && dse)) [
      | inl more ↦ rw (take, more, release) (after_kill (ground arith) (ground arith))
      | inr stop ↦ rw (take, stop, release) (after_rollback (ground arith) (ground arith))
    ]
  ]

-- Three releases of the operands of an erased instruction leave no range that ends there.
module _ (kill : RtlUnit → ℕ → RtlUnit) (kills : Kills kill) (dse : Bool) (gone : ℕ → Type 0)
    (u : RtlUnit) (i : ℕ) (ranges : Ranges gone u) where
  abbrev operand1 : ℕ
  operand1 = killed_src1 u (insn_at u i)

  abbrev operand2 : ℕ
  operand2 = killed_src2 u (insn_at u i)

  abbrev operand3 : ℕ
  operand3 = killed_src3 (insn_at u i)

  abbrev stage3 : RtlUnit
  stage3 = release kill dse i (erase_insn u i) operand3

  abbrev stage2 : RtlUnit
  stage2 = release kill dse i stage3 operand2

  abbrev stage1 : RtlUnit
  stage1 = release kill dse i stage2 operand1

  abbrev Around : ℕ → Type 0
  Around = WithI u i gone

  released3 :
      Ranges Around stage3
      × Shrinks i (erase_insn u i) stage3
      × (0 < operand3 → Ended i stage3 operand3)
  released3 =
      release-Released kill kills dse Around (erase_insn u i) i operand3
        (erased-Ranges u i gone ranges) (inr refl)
        (omega (arith, (ranges.operands i).src3_lt, length-erased u i))

  released2 :
      Ranges Around stage2 × Shrinks i stage3 stage2 × (0 < operand2 → Ended i stage2 operand2)
  released2 =
      release-Released kill kills dse Around stage3 i operand2 released3.0 (inr refl)
        (omega (arith, (ranges.operands i).src2_lt, length-erased u i, released3.1.size))

  released1 :
      Ranges Around stage1 × Shrinks i stage2 stage1 × (0 < operand1 → Ended i stage1 operand1)
  released1 = release-Released kill kills dse Around stage2 i operand1 released2.0 (inr refl) (
      omega
        (arith, (ranges.operands i).src1_lt, length-erased u i, released3.1.size, released2.1.size))

  all-Shrinks : Shrinks i u stage1
  all-Shrinks =
      Shrinks-trans (omega arith)
        (Shrinks-trans (omega arith) (Shrinks-trans (omega arith) (erased-Shrinks u i) released3.1)
          released2.1)
        released1.1

  -- A range that still ends at i ended there before, and i referred to the register no more then.
  operand-Ended :
      (r : ℕ) → 0 < r → (r ≡ operand1) ⊎ (r ≡ operand2) ⊎ (r ≡ operand3) → Ended i stage1 r
  operand-Ended r p (inl e) = subst (Ended i stage1) (sym e) (released1.2 (subst (λ x. 0 < x) e p))
  operand-Ended r p (inr (inl e)) =
      subst (Ended i stage1) (sym e)
        (Ended-Shrinks i stage2 stage1 operand2 released1.1 (released2.2 (subst (λ x. 0 < x) e p)))
  operand-Ended r p (inr (inr e)) = subst (Ended i stage1) (sym e) (
      Ended-Shrinks i stage2 stage1 operand3 released1.1
        (Ended-Shrinks i stage3 stage2 operand3 released2.1 (released3.2 (subst (λ x. 0 < x) e p))))

  at_i :
      (r : ℕ)
      → 0 < r
      → r < length u.regs
      → birth stage1 r < death stage1 r
      → death stage1 r ≡ i
      → gone i
  at_i r p l b e = elim (Bool-cases (uses u i r)) [
    | inl used ↦
        absurd (operand-Ended r p (covers u (insn_at u i) r (ranges.operands i) p used) b e)
    | inr unused ↦ elim (all-Shrinks.deaths r) [
      | inr less ↦ absurd (omega (arith, less, e))
      | inl same ↦ elim (ranges.ends r p l (omega (arith, same, b, all-Shrinks.births r))) [
        | inl used ↦
            absurd (true_and_false (subst (λ x. uses u x r ≡ true) (sym same ∙ e) used) unused)
        | inr g ↦ subst gone (sym same ∙ e) g
      ]
    ]
  ]

  all-Ranges : Ranges gone stage1
  all-Ranges = record {
    operands = released1.0.operands;
    order = released1.0.order;
    bounded = released1.0.bounded;
    ends = λ r p l b. elim (released1.0.ends r p l b) [
      | inl used ↦ inl used
      | inr (inl g) ↦ inr g
      | inr (inr e) ↦ inr (subst gone (sym e) (at_i r p (omega (arith, all-Shrinks.size)) b e))
    ];
    dead = λ j r g p. released1.0.dead j r (inl g) p;
  }

kill_loop-Kills : (fuel : ℕ) (ignore_fexc dse : Bool) → Kills (kill_loop fuel ignore_fexc dse)
unfolding kill_loop
kill_loop-Kills zero ignore_fexc dse gone u i ranges = (ranges, Shrinks-refl i u)
kill_loop-Kills (suc fuel) ignore_fexc dse gone u i ranges =
    elim (Bool-cases (not ignore_fexc && may_raise (insn_at u i).opcode)) [
      | inl keep ↦ rw (keep, kill_loop) (ranges, Shrinks-refl i u)
      | inr killed ↦
          rw (killed, kill_loop)
            (
              all-Ranges (kill_loop fuel ignore_fexc dse) (kill_loop-Kills fuel ignore_fexc dse) dse
                  gone u i ranges,
              all-Shrinks (kill_loop fuel ignore_fexc dse) (kill_loop-Kills fuel ignore_fexc dse)
                  dse gone u i ranges,
            )
    ]

-- Where every live range runs from its register's birth to the last use, it does so after
-- rtl_opt_kill_insn() too, whether or not that goes on to kill the instructions that set the operands;
-- and no range has become longer.
pub rtl_opt_kill_insn-Ranges :
    (u : RtlUnit) (i : ℕ) (ignore_fexc dse : Bool)
    → Ranges (λ j. ⊥) u
    → Ranges (λ j. ⊥) (rtl_opt_kill_insn u i ignore_fexc dse)
      × Shrinks i u (rtl_opt_kill_insn u i ignore_fexc dse)
unfolding rtl_opt_kill_insn
rtl_opt_kill_insn-Ranges u i ignore_fexc dse ranges =
    kill_loop-Kills (i + 1) ignore_fexc dse (λ j. ⊥) u i ranges
