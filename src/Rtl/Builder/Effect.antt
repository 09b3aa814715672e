-- ===== src/Rtl/Builder/Effect.antt =====
-- What a call of an encoder of src/rtl-insn.c comes to, for an invariant of the unit.
use libbinrec.Common.{
  leb, ℕ, ◌<◌, ◌≡◌, refl, sym, ◌∙◌, ap, subst, not, ◌&&◌, ◌==◌, ==_iff, Bool, true, false,
  Bool-cases, true_and_false, if◌then◌else◌, ◌⊎◌, inl, inr, List, [], ◌∷◌, length, some, none,
  arith,
}
use libbinrec.Rtl.Opcode.{Opcode, opcode_has_src3, opcode_has_alias}
use libbinrec.Rtl.Block.Slots.{length-update, field_at-update_keep}
use libbinrec.Rtl.Builder.Split.{Current}
use libbinrec.Rtl.Unit.{BasicBlock, Insn, RtlUnit}
use libbinrec.Rtl.Unit.Access.{update_reg}
use libbinrec.Rtl.Insn.{max, rtl_mark_live, encode, all_hold, mark_all, is_defined}
use libbinrec.Rtl.Insn.Flow.{Made}
use libbinrec.Rtl.Insn.Flow.{from_option, assert_below}
use libbinrec.Rtl.Insn.Effect.{Among, insns-mark_all, aliases-mark_all, Setting, Setting-Kept, Kept}
use libbinrec.Rtl.Opt.Live.{
  uses_reg, is_get_alias, is_set_alias, killed_src1, killed_src2, killed_src3,
}
use libbinrec.Rtl.Builder.Sound.{Good}

abbrev pub SameSizes : RtlUnit → RtlUnit → Type 0
SameSizes u u' = (u'.regs_size ≡ u.regs_size) × (u'.aliases_size ≡ u.aliases_size)

-- Operands are refused only where they are checked, no assertion fails, and an instruction that is
-- made sets a result register and marks registers, as its operands say.
pub data Effect (checks : Bool) (u : RtlUnit) : Made → Type 0 where
  refused : checks ≡ true → Effect checks u Made.refused
  failed : (u' : RtlUnit) → Effect checks u (Made.failed u')
  made :
      (u' set : RtlUnit) (dest : ℕ) (rs : List ℕ) (insn : Insn)
      → u'.insns ≡ u.insns
      → u'.regs ≡ (mark_all set (length u.insns) rs).regs
      → u'.aliases ≡ u.aliases
      → SameSizes u u'
      → Setting u set dest
      → (checks ≡ true → Good u dest rs insn)
      → (Current u → u'.have_block ≡ true → Current u')
      → Effect checks u (Made.made u' insn)

pub mark_all-SameSizes : (u : RtlUnit) (n : ℕ) (rs : List ℕ) → SameSizes u (mark_all u n rs)
unfolding mark_all rtl_mark_live
mark_all-SameSizes u n [] = (refl, refl)
mark_all-SameSizes u n (r ∷ rs) = mark_all-SameSizes (rtl_mark_live u n r) n rs

Setting-sizes :
    (u set : RtlUnit) (dest : ℕ)
    → Setting u set dest
    → (n : ℕ) (rs : List ℕ) → SameSizes u (mark_all set n rs)
Setting-sizes u _ _ Setting.nothing n rs = mark_all-SameSizes u n rs
Setting-sizes u _ _ (Setting.result dest f _ _ _ _) n rs =
    mark_all-SameSizes (update_reg u dest f) n rs

-- Marking registers leaves the flow graph as it is.
pub mark_all-Current : (u : RtlUnit) (n : ℕ) (rs : List ℕ) → Current u → Current (mark_all u n rs)
unfolding mark_all rtl_mark_live
mark_all-Current u n [] c = c
mark_all-Current u n (r ∷ rs) c =
    let f : BasicBlock → BasicBlock = λ b. record b { max_live_reg = max b.max_live_reg r } in
    mark_all-Current (rtl_mark_live u n r) n rs (record {
      cur_lt = omega (arith, c.cur_lt, length-update u.blocks u.cur_block f);
      no_exit =
          field_at-update_keep (λ b. b.exits) [] u.blocks u.cur_block u.cur_block f (λ b. refl)
          ∙ c.no_exit;
    })

Setting-Current : (u set : RtlUnit) (dest : ℕ) → Setting u set dest → Current u → Current set
Setting-Current u _ _ Setting.nothing c = c
Setting-Current u _ _ (Setting.result dest f _ _ _ _) c = record {
  cur_lt = c.cur_lt;
  no_exit = c.no_exit;
}

pub encode-Effect :
    (checks ok : Bool) (u set : RtlUnit) (dest : ℕ) (rs : List ℕ) (insn : Insn)
    → Setting u set dest
    → (ok ≡ true → Good u dest rs insn)
    → Effect checks u (
        from_option
          (if checks && not ok then none else some (mark_all set (length set.insns) rs, insn)))
encode-Effect checks ok u set dest rs insn setting good = elim (Bool-cases checks) [
  | inl on ↦ elim (Bool-cases ok) [
    | inl holds ↦ rw (on, holds) (encoded (λ c. good holds))
    | inr broken ↦ rw (on, broken) (Effect.refused refl)
  ]
  | inr off ↦ rw off (encoded (λ c. absurd (true_and_false c refl)))
]
  where
    encoded :
        {c : Bool}
        → (c ≡ true → Good u dest rs insn)
        → Effect c u (Made.made (mark_all set (length set.insns) rs) insn)
    encoded g =
        let kept : Kept u set dest = Setting-Kept u set dest setting in
        Effect.made (mark_all set (length set.insns) rs) set dest rs insn
          (insns-mark_all (length set.insns) set rs ∙ kept.insns)
          (ap (λ xs. (mark_all set (length xs) rs).regs) kept.insns)
          (aliases-mark_all (length set.insns) set rs ∙ kept.aliases)
          (Setting-sizes u set dest setting (length set.insns) rs) setting g
          (λ c h. mark_all-Current set (length set.insns) rs (Setting-Current u set dest setting c))

-- An instruction without a third register and an alias.
abbrev pub Plain : Opcode → Type 0
Plain op = (opcode_has_src3 op ≡ false) × (opcode_has_alias op ≡ false)

pub no_alias :
    (op : Opcode)
    → opcode_has_alias op ≡ false
    → (is_get_alias op ≡ false) × (is_set_alias op ≡ false)
unfolding opcode_has_alias
no_alias Opcode.get_alias h = cc
no_alias Opcode.set_alias h = cc
no_alias _ h = (refl, refl)

-- The registers that an encoder marks are its result and operands, but for register 0.
pub record Covers (dest src1 src2 : ℕ) (rs : List ℕ) : Type 0 where
  pub from : (r : ℕ) → Among r rs → 0 < r → (r ≡ dest) ⊎ ((r ≡ src1) ⊎ (r ≡ src2))
  pub has_dest : 0 < dest → Among dest rs
  pub has_src1 : 0 < src1 → Among src1 rs
  pub has_src2 : 0 < src2 → Among src2 rs

-- What the operand checks say of the registers.
abbrev pub Checked : RtlUnit → ℕ → ℕ → ℕ → Type 0
Checked u dest src1 src2 =
    (0 < dest → is_defined u dest ≡ false)
    × (0 < src1 → is_defined u src1 ≡ true)
    × (0 < src2 → is_defined u src2 ≡ true)

-- The registers are the unit's, which the code asserts.
abbrev pub InUnit : RtlUnit → ℕ → ℕ → ℕ → Type 0
InUnit u dest src1 src2 = (dest < length u.regs) × (src1 < length u.regs) × (src2 < length u.regs)

pub Plain-Good :
    (u : RtlUnit) (rs : List ℕ) (insn : Insn)
    → Plain insn.opcode
    → InUnit u insn.dest insn.src1 insn.src2
    → Covers insn.dest insn.src1 insn.src2 rs
    → Checked u insn.dest insn.src1 insn.src2
    → Good u insn.dest rs insn
unfolding uses_reg killed_src1 killed_src2 killed_src3
Plain-Good u rs insn plain lt cover checked =
    let (no_get, no_set) = no_alias insn.opcode plain.1 in
    record {
      fresh = checked.0;
      dest_eq = refl;
      written = cover.has_dest;
      marked = λ r a p. elim (cover.from r a p) [
        | inl e ↦ (omega (arith, e, lt.0), inl e)
        | inr (inl e) ↦ (omega (arith, e, lt.1), inr (rw (plain.0, plain.1, sym e) (ground arith)))
        | inr (inr e) ↦ (omega (arith, e, lt.2), inr (rw (plain.0, plain.1, sym e) (ground arith)))
      ];
      used = λ r p uses. elim (used_cases r uses) [
        | inl e ↦ (
          subst (λ x. Among x rs) e (cover.has_src1 (omega (arith, e, p))),
          subst (λ x. is_defined u x ≡ true) e (checked.1 (omega (arith, e, p))),
        )
        | inr e ↦ (
          subst (λ x. Among x rs) e (cover.has_src2 (omega (arith, e, p))),
          subst (λ x. is_defined u x ≡ true) e (checked.2 (omega (arith, e, p))),
        )
      ];
      ok = record {
        src1_lt = rw no_get lt.1;
        src2_lt = rw no_set lt.2;
        src3_lt = rw plain.0 (omega (arith, lt.0));
        get_src1 = λ e. absurd (true_and_false e no_get);
        set_src2 = λ e. absurd (true_and_false e no_set);
      };
    }
  where
    used_cases : (r : ℕ) → uses_reg u insn r ≡ true → (insn.src1 ≡ r) ⊎ (insn.src2 ≡ r)
    used_cases r uses = elim (Bool-cases (insn.src1 == r)) [
      | inl e ↦ inl ((==_iff insn.src1 r).0 e)
      | inr ne ↦ elim (Bool-cases (insn.src2 == r)) [
        | inl e ↦ inr ((==_iff insn.src2 r).0 e)
        | inr ne2 ↦ absurd (true_and_false uses (rw (plain.0, plain.1, ne, ne2) refl))
      ]
    ]

-- An encoder whose operand checks make its instruction good.
pub encodes :
    (checks : Bool) (u set : RtlUnit) (dest : ℕ) (rs : List ℕ) (insn : Insn) (bs : List Bool)
    → Setting u set dest
    → (all_hold bs ≡ true → Good u dest rs insn)
    → Effect checks u (from_option (encode checks bs set rs insn))
unfolding encode
encodes checks u set dest rs insn bs = encode-Effect checks (all_hold bs) u set dest rs insn

-- An assertion that holds.
pub asserted-Effect :
    (checks : Bool) (u : RtlUnit) (other count : ℕ) (m : Made)
    → other < count
    → Effect checks u m
    → Effect checks u (assert_below other count m)
asserted-Effect checks u other count m lt e =
    let below : leb count other ≡ false = ground (arith, lt) in rw below e
