-- ===== src/Rtl/Opt/Kill/Enough.antt =====
-- The recursion of rtl_opt_kill_insn() of src/rtl-opt.c ends.
use native.Mathlib.Decide.{ℕ_discrete}
use libbinrec.Common.{
  ℕ, zero, suc, ◌+◌, ◌<◌, ◌≡◌, refl, sym, ◌∙◌, ap, subst, ◌==◌, not, ◌&&◌, ◌||◌, Bool, true,
  Bool-cases, true_and_false, inl, inr, get_or-modify_keep, arith,
}
use libbinrec.Rtl.Unit.{Insn, RtlUnit}
use libbinrec.Rtl.Unit.Access.{insn_at, blank_register}
use libbinrec.Rtl.Opt.Live.{
  uses_reg, set_death, rollback_reg_death, prev_reg_use, killed_src1, killed_src2, killed_src3,
  erase_insn, release, kill_loop, may_raise, rtl_opt_kill_insn,
}
use libbinrec.Rtl.Opt.Live.Range.{birth, death, uses}
use libbinrec.Rtl.Opt.Live.Erase.{has_alias-eq, Empty-uses, erased_insn, erased_birth, uses_other}

-- The instruction that sets a register stands before those that refer to it.
abbrev pub Early : RtlUnit → Type 0
Early u = (j r : ℕ) → 0 < r → uses u j r ≡ true → birth u r < j

-- The registers are born where they were, and no instruction refers to one that it did not.
record Fewer (u u' : RtlUnit) : Type 0 where
  births : (r : ℕ) → birth u' r ≡ birth u r
  fewer : (j r : ℕ) → 0 < r → uses u' j r ≡ true → uses u j r ≡ true

Fewer-refl : (u : RtlUnit) → Fewer u u
Fewer-refl u = record { births = λ r. refl; fewer = λ j r p e. e }

Fewer-trans : {u v w : RtlUnit} → Fewer u v → Fewer v w → Fewer u w
Fewer-trans s t = record {
  births = λ r. t.births r ∙ s.births r;
  fewer = λ j r p e. s.fewer j r p (t.fewer j r p e);
}

Fewer-Early : (u v : RtlUnit) → Fewer u v → Early u → Early v
Fewer-Early u v f early j r p e = omega (arith, f.births r, early j r p (f.fewer j r p e))

erased-Fewer : (u : RtlUnit) (i : ℕ) → Fewer u (erase_insn u i)
erased-Fewer u i = record {
  births = erased_birth u i;
  fewer = λ j r p e. elim (ℕ_discrete i j) [
    | yes s ↦ absurd (
        true_and_false (subst (λ x. uses (erase_insn u i) x r ≡ true) (sym s) e)
          (Empty-uses (erase_insn u i) (insn_at (erase_insn u i) i) r (erased_insn u i) p))
    | no ne ↦ sym (uses_other u i j r ne) ∙ e
  ];
}

rolled-Fewer : (u : RtlUnit) (src : ℕ) → Fewer u (rollback_reg_death u src).1
unfolding rollback_reg_death uses_reg
rolled-Fewer u src = record {
  births = λ r.
      get_or-modify_keep (λ x. x.birth) u.regs src r (set_death (prev_reg_use u src (death u src)))
        blank_register (λ x. refl);
  fewer = λ j r p e. e;
}

module _ (kill : RtlUnit → ℕ → RtlUnit) (fewer : (u : RtlUnit) (i : ℕ) → Fewer u (kill u i))
    (dse : Bool) (i : ℕ) where
  release-Fewer : (u : RtlUnit) (src : ℕ) → Fewer u (release kill dse i u src)
  unfolding release
  release-Fewer u src = elim (Bool-cases (src == 0 || not (death u src == i))) [
    | inl skip ↦ rw (skip, release) (Fewer-refl u)
    | inr take ↦ elim (Bool-cases ((rollback_reg_death u src).0 && dse)) [
      | inl more ↦
          rw (take, more, release)
            (Fewer-trans (rolled-Fewer u src)
              (fewer (rollback_reg_death u src).1 (birth (rollback_reg_death u src).1 src)))
      | inr stop ↦ rw (take, stop, release) (rolled-Fewer u src)
    ]
  ]

kill_loop-Fewer :
    (fuel : ℕ) (ignore_fexc dse : Bool) (u : RtlUnit) (i : ℕ)
    → Fewer u (kill_loop fuel ignore_fexc dse u i)
unfolding kill_loop
kill_loop-Fewer zero ignore_fexc dse u i = Fewer-refl u
kill_loop-Fewer (suc fuel) ignore_fexc dse u i =
    let step : (v : RtlUnit) (src : ℕ)
        → Fewer v (release (kill_loop fuel ignore_fexc dse) dse i v src) =
      release-Fewer (kill_loop fuel ignore_fexc dse) (kill_loop-Fewer fuel ignore_fexc dse) dse i in
    elim (Bool-cases (not ignore_fexc && may_raise (insn_at u i).opcode)) [
      | inl keep ↦ rw (keep, kill_loop) (Fewer-refl u)
      | inr killed ↦
          rw (killed, kill_loop)
            (Fewer-trans
              (Fewer-trans
                (Fewer-trans (erased-Fewer u i) (step (erase_insn u i) (killed_src3 (insn_at u i))))
                (step _ (killed_src2 u (insn_at u i))))
              (step _ (killed_src1 u (insn_at u i))))
    ]

-- Killing looks at registers that the instruction refers to.
module _ (u : RtlUnit) (insn : Insn) where
  src1_used : uses_reg u insn (killed_src1 u insn) ≡ true
  unfolding uses_reg killed_src1
  src1_used = rw (has_alias-eq insn.opcode) (ground arith)

  src2_used : uses_reg u insn (killed_src2 u insn) ≡ true
  unfolding uses_reg killed_src2
  src2_used = rw (has_alias-eq insn.opcode) (ground arith)

  src3_used : 0 < killed_src3 insn → uses_reg u insn (killed_src3 insn) ≡ true
  unfolding uses_reg killed_src3
  src3_used p = ground arith

module _ (kill kill' : RtlUnit → ℕ → RtlUnit) (i : ℕ)
    (same : (u : RtlUnit) (k : ℕ) → Early u → k < i → kill u k ≡ kill' u k) (dse : Bool) where
  release-same :
      (u : RtlUnit) (src : ℕ)
      → Early u
      → (0 < src → birth u src < i)
      → release kill dse i u src ≡ release kill' dse i u src
  unfolding release
  release-same u src early born = elim (Bool-cases (src == 0 || not (death u src == i))) [
    | inl skip ↦ rw skip refl
    | inr take ↦ elim (Bool-cases ((rollback_reg_death u src).0 && dse)) [
      | inl more ↦
          rw (take, more)
            (same (rollback_reg_death u src).1 (birth (rollback_reg_death u src).1 src)
              (Fewer-Early u (rollback_reg_death u src).1 (rolled-Fewer u src) early)
              (omega (arith, (rolled-Fewer u src).births src, born (ground arith))))
      | inr stop ↦ rw (take, stop) refl
    ]
  ]

  module _ (fewer : (u : RtlUnit) (k : ℕ) → Fewer u (kill' u k)) where
    -- Three operands in a row.
    releases-same :
        (u : RtlUnit) (s1 s2 s3 : ℕ)
        → Early u
        → (0 < s1 → birth u s1 < i)
        → (0 < s2 → birth u s2 < i)
        → (0 < s3 → birth u s3 < i)
        → release kill dse i (release kill dse i (release kill dse i u s3) s2) s1
          ≡ release kill' dse i (release kill' dse i (release kill' dse i u s3) s2) s1
    releases-same u s1 s2 s3 early b1 b2 b3 =
        let v : RtlUnit = release kill' dse i u s3 in
        let w : RtlUnit = release kill' dse i v s2 in
        let uv : Fewer u v = release-Fewer kill' fewer dse i u s3 in
        let vw : Fewer v w = release-Fewer kill' fewer dse i v s2 in
        ap (λ x. release kill dse i (release kill dse i x s2) s1) (release-same u s3 early b3)
        ∙ ap (λ x. release kill dse i x s1)
            (release-same v s2 (Fewer-Early u v uv early) (λ p. omega (arith, uv.births s2, b2 p)))
        ∙ release-same w s1 (Fewer-Early v w vw (Fewer-Early u v uv early))
            (λ p. omega (arith, uv.births s1, vw.births s1, b1 p))

kill_loop-same :
    (f g : ℕ) (ignore_fexc dse : Bool) (u : RtlUnit) (i : ℕ)
    → Early u
    → i < f
    → i < g
    → kill_loop f ignore_fexc dse u i ≡ kill_loop g ignore_fexc dse u i
unfolding kill_loop
kill_loop-same zero g ignore_fexc dse u i early lf lg = absurd (omega arith)
kill_loop-same (suc f) zero ignore_fexc dse u i early lf lg = absurd (omega arith)
kill_loop-same (suc f) (suc g) ignore_fexc dse u i early lf lg =
    elim (Bool-cases (not ignore_fexc && may_raise (insn_at u i).opcode)) [
      | inl keep ↦ rw keep refl
      | inr killed ↦ rw killed (
          releases-same (kill_loop f ignore_fexc dse) (kill_loop g ignore_fexc dse) i
            (λ v k e l. kill_loop-same f g ignore_fexc dse v k e (omega arith) (omega arith)) dse
            (kill_loop-Fewer g ignore_fexc dse) (erase_insn u i) (killed_src1 u (insn_at u i))
            (killed_src2 u (insn_at u i)) (killed_src3 (insn_at u i))
            (Fewer-Early u (erase_insn u i) (erased-Fewer u i) early)
            (λ p. born (killed_src1 u (insn_at u i)) p (src1_used u (insn_at u i)))
            (λ p. born (killed_src2 u (insn_at u i)) p (src2_used u (insn_at u i)))
            (λ p. born (killed_src3 (insn_at u i)) p (src3_used u (insn_at u i) p)))
    ]
  where
    born : (r : ℕ) → 0 < r → uses u i r ≡ true → birth (erase_insn u i) r < i
    born r p e = omega (arith, erased_birth u i r, early i r p e)

-- Where every register is set before the instructions that refer to it, the recursion of
-- rtl_opt_kill_insn() ends: any fuel above the instruction's index gives the same unit.
pub rtl_opt_kill_insn_enough :
    (fuel : ℕ) (u : RtlUnit) (i : ℕ) (ignore_fexc dse : Bool)
    → Early u
    → i < fuel
    → kill_loop fuel ignore_fexc dse u i ≡ rtl_opt_kill_insn u i ignore_fexc dse
unfolding rtl_opt_kill_insn
rtl_opt_kill_insn_enough fuel u i ignore_fexc dse early l =
    kill_loop-same fuel (i + 1) ignore_fexc dse u i early l (omega arith)
