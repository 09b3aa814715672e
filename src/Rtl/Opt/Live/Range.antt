-- ===== src/Rtl/Opt/Live/Range.antt =====
-- Live ranges: where a register's range ends, and rollback_reg_death() of src/rtl-opt.c.
use native.Mathlib.Decide.{ℕ_discrete}
use libbinrec.Common.{
  ℕ, zero, suc, ◌<◌, ◌≤◌, ◌≡◌, ◌≢◌, refl, sym, ◌∙◌, ap, subst, ltb, ltb→lt, ltb→le, Bool, true,
  false, Bool-cases, true_and_false, ◌⊎◌, inl, inr, length, length-modify, get_or-modify_self,
  get_or-modify_ne, arith,
}
use libbinrec.Rtl.Unit.{RtlUnit}
use libbinrec.Rtl.Unit.Access.{insn_at, reg_at, blank_register, update_reg}
use libbinrec.Rtl.Unit.{Insn}
use libbinrec.Rtl.Opt.Live.{
  uses_reg, prev_use_loop, prev_reg_use, set_death, is_get_alias, is_set_alias, killed_src1,
  killed_src2, killed_src3,
}

abbrev pub birth : RtlUnit → ℕ → ℕ
birth u r = (reg_at u r).birth

abbrev pub death : RtlUnit → ℕ → ℕ
death u r = (reg_at u r).death

-- Instruction j refers to register r.
abbrev pub uses : RtlUnit → ℕ → ℕ → Bool
uses u j r = uses_reg u (insn_at u j) r

-- Instruction r is the last one before `n` that refers to the register, or its birth.
abbrev pub Latest : RtlUnit → ℕ → ℕ → ℕ → ℕ → Type 0
Latest u reg start n r =
    (start ≤ r)
    × (start < r → uses u r reg ≡ true)
    × ((r ≡ start) ⊎ (r < n))
    × ((j : ℕ) → start < j → j < n → uses u j reg ≡ true → j ≤ r)

prev_use_loop-Latest :
    (u : RtlUnit) (reg start n : ℕ) → Latest u reg start n (prev_use_loop u reg start n)
unfolding prev_use_loop
prev_use_loop-Latest u reg start zero =
    (omega arith, λ l. absurd (omega arith), inl refl, λ j l m e. absurd (omega arith))
prev_use_loop-Latest u reg start (suc n) = elim (Bool-cases (ltb start n)) [
  | inr early ↦
      rw (early, prev_use_loop)
        (
          omega arith,
          λ l. absurd (omega arith),
          inl refl,
          λ j l m e. omega (arith, ltb→le start n early),
        )
  | inl late ↦
      rw (late, prev_use_loop)
        (elim (Bool-cases (uses u n reg)) [
          | inl used ↦ rw used (
            omega (arith, ltb→lt start n late),
            λ l. used,
            inr (omega arith),
            λ j l m e. omega arith,
          )
          | inr unused ↦ rw unused (next unused (prev_use_loop-Latest u reg start n))
        ])
]
  where
    next :
        uses u n reg ≡ false
        → Latest u reg start n (prev_use_loop u reg start n)
        → Latest u reg start (suc n) (prev_use_loop u reg start n)
    next unused l = (
      l.0,
      l.1,
      elim l.2 [ inl e ↦ inl e | inr m ↦ inr (omega (arith, m)) ],
      λ j a b e. elim (ℕ_discrete j n) [
        | yes same ↦ absurd (true_and_false (subst (λ x. uses u x reg ≡ true) same e) unused)
        | no other ↦ l.3 j a (omega (arith, other)) e
      ],
    )

-- prev_reg_use() gives the last use of a register before an instruction, or its birth where there is
-- none: no instruction between the two refers to the register.
pub prev_reg_use-Latest :
    (u : RtlUnit) (reg n : ℕ) → Latest u reg (birth u reg) n (prev_reg_use u reg n)
unfolding prev_reg_use
prev_reg_use-Latest u reg n = prev_use_loop-Latest u reg (birth u reg) n

-- What the encoders see to: the operands are registers, and an alias instruction keeps its alias's base
-- in no operand.
pub record OperandsOk (u : RtlUnit) (insn : Insn) : Type 0 where
  pub src1_lt : killed_src1 u insn < length u.regs
  pub src2_lt : killed_src2 u insn < length u.regs
  pub src3_lt : killed_src3 insn < length u.regs
  pub get_src1 : is_get_alias insn.opcode ≡ true → insn.src1 ≡ 0
  pub set_src2 : is_set_alias insn.opcode ≡ true → insn.src2 ≡ 0

-- The live ranges are tight, but for those that end at one of the instructions `gone`, which refer to
-- no register: a range runs from a register's birth to its last use.
pub record Ranges (gone : ℕ → Type 0) (u : RtlUnit) : Type 0 where
  pub operands : (j : ℕ) → OperandsOk u (insn_at u j)
  pub order : (r : ℕ) → 0 < r → r < length u.regs → birth u r ≤ death u r
  pub bounded :
      (r j : ℕ) → 0 < r → r < length u.regs → birth u r < j → uses u j r ≡ true → j ≤ death u r
  pub ends :
      (r : ℕ)
      → 0 < r
      → r < length u.regs
      → birth u r < death u r
      → (uses u (death u r) r ≡ true) ⊎ gone (death u r)
  pub dead : (j r : ℕ) → gone j → 0 < r → uses u j r ≡ false

-- Ranges only get shorter, and only those that ended at instruction i or before it.
pub record Shrinks (i : ℕ) (u u' : RtlUnit) : Type 0 where
  pub size : length u'.regs ≡ length u.regs
  pub births : (r : ℕ) → birth u' r ≡ birth u r
  pub deaths : (r : ℕ) → (death u' r ≡ death u r) ⊎ ((death u' r < death u r) × (death u r ≤ i))

pub Shrinks-refl : (i : ℕ) (u : RtlUnit) → Shrinks i u u
Shrinks-refl i u = record { size = refl; births = λ r. refl; deaths = λ r. inl refl }

pub Shrinks-trans :
    {i j : ℕ} {u v w : RtlUnit} → j ≤ i → Shrinks i u v → Shrinks j v w → Shrinks i u w
Shrinks-trans le s t = record {
  size = t.size ∙ s.size;
  births = λ r. t.births r ∙ s.births r;
  deaths = λ r. elim (s.deaths r) [
    | inl e ↦ elim (t.deaths r) [
      | inl e' ↦ inl (e' ∙ e)
      | inr l ↦ inr (omega (arith, l, e), omega (arith, l, e))
    ]
    | inr l ↦ elim (t.deaths r) [
      | inl e' ↦ inr (omega (arith, l, e'), l.1)
      | inr l' ↦ inr (omega (arith, l, l'), l.1)
    ]
  ];
}

module _ (u : RtlUnit) (src : ℕ) (lt : src < length u.regs) where
  abbrev pub rolled : RtlUnit
  rolled = update_reg u src (set_death (prev_reg_use u src (death u src)))

  rolled_self : death rolled src ≡ prev_reg_use u src (death u src)
  rolled_self =
      ap (λ r. r.death)
        (get_or-modify_self u.regs src (set_death (prev_reg_use u src (death u src))) blank_register
          lt)

  rolled_other : (r : ℕ) → src ≢ r → reg_at rolled r ≡ reg_at u r
  rolled_other r ne =
      get_or-modify_ne u.regs src r (set_death (prev_reg_use u src (death u src))) blank_register ne

  pub rolled_birth : (r : ℕ) → birth rolled r ≡ birth u r
  rolled_birth r = elim (ℕ_discrete src r) [
    | yes e ↦
        subst (λ x. birth rolled x ≡ birth u x) e
          (ap (λ r. r.birth)
            (get_or-modify_self u.regs src (set_death (prev_reg_use u src (death u src)))
              blank_register lt))
    | no ne ↦ ap (λ r. r.birth) (rolled_other r ne)
  ]

  length-rolled : length rolled.regs ≡ length u.regs
  length-rolled = length-modify u.regs src (set_death (prev_reg_use u src (death u src)))

  pub latest : Latest u src (birth u src) (death u src) (death rolled src)
  latest =
      subst (Latest u src (birth u src) (death u src)) (sym rolled_self)
        (prev_reg_use-Latest u src (death u src))

  module _ (gone : ℕ → Type 0) (ranges : Ranges gone u) (pos_src : 0 < src) where
    pub rolled-Shrinks : Shrinks (death u src) u rolled
    rolled-Shrinks = record {
      size = length-rolled;
      births = rolled_birth;
      deaths = λ r. elim (ℕ_discrete src r) [
        | no ne ↦ inl (ap (λ r. r.death) (rolled_other r ne))
        | yes e ↦
            subst
              (λ x.
                (death rolled x ≡ death u x)
                ⊎ ((death rolled x < death u x) × (death u x ≤ death u src)))
              e (shorter latest.2)
      ];
    }
      where
        shorter :
            ((death rolled src ≡ birth u src) ⊎ (death rolled src < death u src))
            → (death rolled src ≡ death u src)
              ⊎ ((death rolled src < death u src) × (death u src ≤ death u src))
        shorter (inr l) = inr (l, omega arith)
        shorter (inl e) = elim (Bool-cases (ltb (death rolled src) (death u src))) [
          | inl l ↦ inr (ltb→lt (death rolled src) (death u src) l, omega arith)
          | inr n ↦ inl (
              omega
                (arith, e, ltb→le (death rolled src) (death u src) n, ranges.order src pos_src lt))
        ]

    -- The range that ended at an instruction that refers to the register no more is tight again.
    pub rolled-Ranges : uses u (death u src) src ≡ false → Ranges gone rolled
    unfolding killed_src1 killed_src2 uses_reg
    rolled-Ranges unused = record {
      operands = λ j.
          let o = ranges.operands j in
          record {
            src1_lt = subst (λ n. killed_src1 u (insn_at u j) < n) (sym length-rolled) o.src1_lt;
            src2_lt = subst (λ n. killed_src2 u (insn_at u j) < n) (sym length-rolled) o.src2_lt;
            src3_lt = subst (λ n. killed_src3 (insn_at u j) < n) (sym length-rolled) o.src3_lt;
            get_src1 = o.get_src1;
            set_src2 = o.set_src2;
          };
      order = λ r p l. elim (ℕ_discrete src r) [
        | yes e ↦
            subst (λ x. birth rolled x ≤ death rolled x) e
              (omega (arith, rolled_birth src, latest.0))
        | no ne ↦
            subst (λ x. x.birth ≤ x.death) (sym (rolled_other r ne))
              (ranges.order r p (omega (arith, length-rolled)))
      ];
      bounded = λ r j p l b e. elim (ℕ_discrete src r) [
        | yes s ↦
            subst (λ x. j ≤ death rolled x) s
              (at_src j (omega (arith, b, rolled_birth r, rolled_birth src, ap (birth u) s))
                (subst (λ x. uses u j x ≡ true) (sym s) e))
        | no ne ↦ omega (
          arith,
          ap (λ r. r.death) (rolled_other r ne),
          ranges.bounded r j p (omega (arith, length-rolled)) (omega (arith, b, rolled_birth r)) e,
        )
      ];
      ends = λ r p l b. elim (ℕ_discrete src r) [
        | yes s ↦ inl (
            subst (λ x. uses u (death rolled x) x ≡ true) s
              (latest.1 (omega (arith, b, rolled_birth r, ap (birth u) s, ap (death rolled) s))))
        | no ne ↦
            subst (λ x. (uses u x r ≡ true) ⊎ gone x) (sym (ap (λ r. r.death) (rolled_other r ne)))
              (ranges.ends r p (omega (arith, length-rolled))
                (omega (arith, b, rolled_birth r, ap (λ r. r.death) (rolled_other r ne))))
      ];
      dead = ranges.dead;
    }
      where
        at_src : (j : ℕ) → birth u src < j → uses u j src ≡ true → j ≤ death rolled src
        at_src j b e = elim (ℕ_discrete j (death u src)) [
          | yes s ↦ absurd (true_and_false (subst (λ x. uses u x src ≡ true) s e) unused)
          | no ne ↦ latest.3 j b (omega (arith, ne, ranges.bounded src j pos_src lt b e)) e
        ]
