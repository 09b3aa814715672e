-- ===== src/Rtl/Builder/Append.antt =====
-- One more instruction keeps the invariant of the unit.
use native.Mathlib.Decide.{ℕ_discrete}
use libbinrec.Common.{
  ap, not, if◌then◌else◌, ℕ, suc, ◌<◌, ◌≤◌, ◌≡◌, sym, ◌∙◌, ap, subst, true, false, Bool-cases,
  true_and_false, ◌⊎◌, inl, inr, List, [], ◌∷◌, ◌++◌, length, length-append, arith,
}
use libbinrec.Rtl.Opcode.{is_undefined}
use libbinrec.Rtl.Unit.{Insn, RtlUnit}
use libbinrec.Rtl.Unit.Access.{insn_at, reg_at, alias_base, blank_insn}
use libbinrec.Rtl.Insn.{mark_all, is_defined}
use libbinrec.Rtl.Insn.Effect.{
  Among, Among-cases, length-mark_all, mark_all_miss, mark_all_hit, Kept,
}
use libbinrec.Rtl.Opt.Live.{uses_reg, killed_src1, killed_src2}
use libbinrec.Rtl.Opt.Live.Range.{birth, death, uses, OperandsOk}
use libbinrec.Rtl.Builder.Sound.{live, UsedAt, Sound, Good, get_or-append_old, get_or-append_new}

module _ (u set : RtlUnit) (dest : ℕ) (rs : List ℕ) (insn : Insn) (kept : Kept u set dest)
    (s : Sound u) (g : Good u dest rs insn) where
  abbrev n : ℕ
  n = length u.insns

  abbrev after : RtlUnit
  after = record (mark_all set n rs) { insns = u.insns ++ insn ∷ []; aliases = u.aliases }

  -- A register that the instruction marks.
  abbrev Hit : ℕ → Type 0
  Hit r =
      (live after r ≡ true)
      × (death after r ≡ n)
      × (birth after r ≡ (if live u r then birth u r else n))

  abbrev Miss : ℕ → Type 0
  Miss r = (live after r ≡ live u r) × (death after r ≡ death u r) × (birth after r ≡ birth u r)

  hit : (r : ℕ) → 0 < r → Among r rs → Hit r
  hit r p a =
      let e = mark_all_hit n set r rs (omega (arith, (g.marked r a p).0, kept.size)) a in
      (
        ap (λ x. x.live) e,
        ap (λ x. x.death) e,
        ap (λ x. x.birth) e
            ∙ ap (λ b. if b then (reg_at set r).birth else n) (kept.live r)
            ∙ ap (λ b. if live u r then b else n) (kept.births r),
      )

  miss : (r : ℕ) → ¬ Among r rs → Miss r
  miss r out =
      let e = mark_all_miss n set r rs out in
      (
        ap (λ x. x.live) e ∙ kept.live r,
        ap (λ x. x.death) e ∙ kept.deaths r,
        ap (λ x. x.birth) e ∙ kept.births r,
      )

  length-after : length after.insns ≡ suc n
  length-after = omega (arith, length-append u.insns (insn ∷ []))

  old_insn : (j : ℕ) → j < n → insn_at after j ≡ insn_at u j
  old_insn j l = get_or-append_old u.insns (insn ∷ []) j blank_insn l

  new_insn : insn_at after n ≡ insn
  new_insn = get_or-append_new u.insns insn blank_insn

  size : length after.regs ≡ length u.regs
  size = length-mark_all n set rs ∙ kept.size

  defined_after : (r : ℕ) → 0 < r → is_defined after r ≡ is_defined set r
  defined_after r p = elim (Among-cases r rs) [
    | inl a ↦
        ap (λ x. not (is_undefined x.source))
          (mark_all_hit n set r rs (omega (arith, (g.marked r a p).0, kept.size)) a)
    | inr out ↦ ap (λ x. not (is_undefined x.source)) (mark_all_miss n set r rs out)
  ]

  -- What was defined stays so, and the result register now is.
  still_defined : (r : ℕ) → 0 < r → is_defined u r ≡ true → is_defined after r ≡ true
  still_defined r p d = elim (ℕ_discrete dest r) [
    | yes e ↦
        absurd
          (true_and_false d (subst (λ x. is_defined u x ≡ false) e (g.fresh (omega (arith, e, p)))))
    | no ne ↦ defined_after r p ∙ kept.other r ne ∙ d
  ]

  dest_defined : 0 < dest → is_defined after dest ≡ true
  dest_defined p = defined_after dest p ∙ kept.defined p (g.marked dest (g.written p) p).0

  not_live : 0 < dest → live u dest ≡ false
  not_live p = elim (Bool-cases (live u dest)) [
    | inl l ↦ absurd (true_and_false (s.live_defined dest p l) (g.fresh p))
    | inr l ↦ l
  ]

  -- A register that the instruction marks was live, or is its result.
  hit_cases :
      (r : ℕ)
      → 0 < r
      → Among r rs
      → ((live u r ≡ true) × (uses_reg u insn r ≡ true) × (birth after r ≡ birth u r))
        ⊎ ((r ≡ dest) × (birth after r ≡ n))
  hit_cases r p a =
      let h = hit r p a in
      elim (g.marked r a p).1 [
        | inl e ↦
            let l : live u r ≡ false =
              subst (λ x. live u x ≡ false) (sym e) (not_live (omega (arith, e, p))) in
            inr (e, h.2 ∙ ap (λ b. if b then birth u r else n) l)
        | inr uses ↦
            let l : live u r ≡ true = s.defined_live r p (g.used r p uses).1 in
            inl (l, uses, h.2 ∙ ap (λ b. if b then birth u r else n) l)
      ]

  after-timed :
      (r : ℕ)
      → 0 < r
      → live after r ≡ true
      → (birth after r ≤ death after r) × (death after r < length after.insns)
  after-timed r p l = elim (Among-cases r rs) [
    | inl a ↦
        let h = hit r p a in
        elim (hit_cases r p a) [
          | inl (lu, _, e) ↦
              let t = s.timed r p lu in (omega (arith, h.1, e, t), omega (arith, h.1, length-after))
          | inr (_, e) ↦ (omega (arith, h.1, e), omega (arith, h.1, length-after))
        ]
    | inr out ↦
        let m = miss r out in
        let t = s.timed r p (sym m.0 ∙ l) in
        (omega (arith, m.1, m.2, t), omega (arith, m.1, t, length-after))
  ]

  after-setter : (r : ℕ) → 0 < r → live after r ≡ true → (insn_at after (birth after r)).dest ≡ r
  after-setter r p l =
      let old : live u r ≡ true
          → birth after r ≡ birth u r
          → (insn_at after (birth after r)).dest ≡ r =
        λ lu e.
          let t = s.timed r p lu in
          ap (λ j. (insn_at after j).dest) e
          ∙ ap (λ i. i.dest) (old_insn (birth u r) (omega (arith, t)))
          ∙ s.setter r p lu in
      elim (Among-cases r rs) [
        | inl a ↦ elim (hit_cases r p a) [
          | inl (lu, _, e) ↦ old lu e
          | inr (e, b) ↦
              ap (λ j. (insn_at after j).dest) b ∙ ap (λ i. i.dest) new_insn ∙ g.dest_eq ∙ sym e
        ]
        | inr out ↦ let m = miss r out in old (sym m.0 ∙ l) m.2
      ]

  after-ends :
      (r : ℕ)
      → 0 < r
      → live after r ≡ true
      → birth after r < death after r
      → uses after (death after r) r ≡ true
  unfolding uses_reg
  after-ends r p l lt = elim (Among-cases r rs) [
    | inl a ↦
        let h = hit r p a in
        elim (hit_cases r p a) [
          | inl (_, uses, _) ↦
              ap (λ j. uses_reg u (insn_at after j) r) h.1
              ∙ ap (λ i. uses_reg u i r) new_insn
              ∙ uses
          | inr (_, e) ↦ absurd (omega (arith, lt, h.1, e))
        ]
    | inr out ↦
        let m = miss r out in
        let lu : live u r ≡ true = sym m.0 ∙ l in
        let t = s.timed r p lu in
        ap (λ j. uses_reg u (insn_at after j) r) m.1
        ∙ ap (λ i. uses_reg u i r) (old_insn (death u r) t.1)
        ∙ s.ends r p lu (omega (arith, lt, m.1, m.2))
  ]

  after-used : (j r : ℕ) → j < length after.insns → 0 < r → uses after j r ≡ true → UsedAt after j r
  unfolding uses_reg
  after-used j r l p e = elim (ℕ_discrete j n) [
    | yes here ↦
        let eu : uses_reg u insn r ≡ true =
          sym (ap (λ k. uses_reg u (insn_at after k) r) here ∙ ap (λ i. uses_reg u i r) new_insn)
          ∙ e in
        let (a, d) = g.used r p eu in
        let lu : live u r ≡ true = s.defined_live r p d in
        let h = hit r p a in
        let t = s.timed r p lu in
        let b = h.2 ∙ ap (λ b. if b then birth u r else n) lu in
        (h.0, omega (arith, b, t, here), omega (arith, h.1, here))
    | no past ↦
        let lj : j < n = omega (arith, l, past, length-after) in
        let (lu, be, de) = s.used j r lj p (sym (ap (λ i. uses_reg u i r) (old_insn j lj)) ∙ e) in
        elim (Among-cases r rs) [
          | inl a ↦
              let h = hit r p a in
              let b = h.2 ∙ ap (λ b. if b then birth u r else n) lu in
              (h.0, omega (arith, b, be), omega (arith, h.1, lj))
          | inr out ↦
              let m = miss r out in (m.0 ∙ lu, omega (arith, m.2, be), omega (arith, m.1, de))
        ]
  ]

  carry : (i : Insn) → OperandsOk u i → OperandsOk after i
  unfolding killed_src1 killed_src2
  carry i ok = record {
    src1_lt = omega (arith, ok.src1_lt, size);
    src2_lt = omega (arith, ok.src2_lt, size);
    src3_lt = omega (arith, ok.src3_lt, size);
    get_src1 = ok.get_src1;
    set_src2 = ok.set_src2;
  }

  after-operands : (j : ℕ) → j < length after.insns → OperandsOk after (insn_at after j)
  after-operands j l = elim (ℕ_discrete j n) [
    | yes e ↦
        subst (λ i. OperandsOk after i) (sym (ap (λ k. insn_at after k) e ∙ new_insn))
          (carry insn g.ok)
    | no ne ↦
        let lj : j < n = omega (arith, l, ne, length-after) in
        subst (λ i. OperandsOk after i) (sym (old_insn j lj))
          (carry (insn_at u j) (s.operands j lj))
  ]

  after-live_defined : (r : ℕ) → 0 < r → live after r ≡ true → is_defined after r ≡ true
  after-live_defined r p l = elim (Among-cases r rs) [
    | inl a ↦ elim (hit_cases r p a) [
      | inl (lu, _, _) ↦ still_defined r p (s.live_defined r p lu)
      | inr (e, _) ↦
          subst (λ x. is_defined after x ≡ true) (sym e) (dest_defined (omega (arith, e, p)))
    ]
    | inr out ↦ still_defined r p (s.live_defined r p (sym (miss r out).0 ∙ l))
  ]

  after-defined_live : (r : ℕ) → 0 < r → is_defined after r ≡ true → live after r ≡ true
  after-defined_live r p d = elim (Among-cases r rs) [
    | inl a ↦ (hit r p a).0
    | inr out ↦ elim (ℕ_discrete dest r) [
      | yes e ↦ absurd (out (subst (λ x. Among x rs) e (g.written (omega (arith, e, p)))))
      | no ne ↦ (miss r out).0 ∙ s.defined_live r p (sym (defined_after r p ∙ kept.other r ne) ∙ d)
    ]
  ]

  after-idle : (r : ℕ) → 0 < r → live after r ≡ false → birth after r ≡ death after r
  after-idle r p l = elim (Among-cases r rs) [
    | inl a ↦ absurd (true_and_false (hit r p a).0 l)
    | inr out ↦ let m = miss r out in m.2 ∙ s.idle r p (sym m.0 ∙ l) ∙ sym m.1
  ]

  pub append-Sound : Sound after
  append-Sound = record {
    timed = after-timed;
    idle = after-idle;
    defined_live = after-defined_live;
    live_defined = after-live_defined;
    setter = after-setter;
    used = after-used;
    ends = after-ends;
    operands = after-operands;
    bases = λ a p. still_defined (alias_base u a) p (s.bases a p);
    base_lt = λ a. omega (arith, s.base_lt a, size);
    some_reg = omega (arith, s.some_reg, size);
    regs_lt = omega (arith, s.regs_lt, size);
    aliases_lt = s.aliases_lt;
  }
