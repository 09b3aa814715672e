-- ===== src/Rtl/Builder/Verify.antt =====
-- rtl_verify_unit() of src/rtl.c on the units that are built.
use native.Mathlib.Decide.{dec_lt}
use libbinrec.Common.{
  get_or-past, get_or, ◌*◌, sym, ◌∙◌, subst, some, none, if◌then◌else◌, ℕ, zero, suc, ◌+◌, ◌<◌, ◌≤◌,
  ◌≡◌, refl, ap, not, ◌&&◌, ◌||◌, ◌==◌, ltb, leb, Bool, true, false, Bool-cases, true_and_false,
  inl, inr, length, arith,
}
use libbinrec.Rtl.Opcode.{Opcode, opcode_has_src3}
use libbinrec.Rtl.Unit.{Insn, BasicBlock, RtlUnit}
use libbinrec.Rtl.Unit.Access.{insn_at, reg_at, blank_insn, blank_register, same_opcode}
use libbinrec.Rtl.Opt.Live.{uses_reg}
use libbinrec.Rtl.Opt.Live.Range.{birth, uses}
use libbinrec.Rtl.Builder.Finish.{
  verify_reg, verify_insn, verify_operand, verify_insns, rtl_verify_unit, finalize,
  rtl_finalize_unit,
}
use libbinrec.Rtl.Builder.Sound.{Sound}
use libbinrec.Rtl.Builder.Ready.{Ready}
use libbinrec.Rtl.Builder.Insns.{same-Sound}
use libbinrec.Rtl.Builder.Edges.{SameCode}
use libbinrec.Rtl.Builder.Finalize.{Mapped, rtl_finalize_unit-Returns}
use libbinrec.Rtl.Builder.History.{Building, Building-Ready}

-- A NOP may name a result register, for which rtl_verify_unit() does not take it as set.
abbrev pub NoNopResult : RtlUnit → Type 0
NoNopResult u =
    (j : ℕ) → same_opcode (insn_at u j).opcode Opcode.nop ≡ true → (insn_at u j).dest ≡ 0

verified :
    (r size b n dest : ℕ) (nop : Bool)
    → 0 < r
    → r < size
    → b < n
    → dest ≡ r
    → nop ≡ false
    → (not (ltb r 1 || leb size r) && ltb b n && not (not (dest == r) || nop)) ≡ true
verified r size b n dest nop p l lb e other = ground arith

module _ (u : RtlUnit) (s : Sound u) (room : length u.regs ≤ u.regs_size)
    (results : NoNopResult u) where
  live_lt : (r : ℕ) → (reg_at u r).live ≡ true → r < length u.regs
  live_lt r e = elim (dec_lt r (length u.regs)) [
    | yes l ↦ l
    | no ge ↦ absurd (
        true_and_false e
          (ap (λ x. x.live) (get_or-past u.regs r blank_register (omega (arith, ge)))))
  ]

  used_verified : (j r : ℕ) → j < length u.insns → 0 < r → uses u j r ≡ true → verify_reg u r ≡ true
  unfolding verify_reg
  used_verified j r l p e =
      let (live, b, d) = s.used j r l p e in
      let set = s.setter r p live in
      verified r u.regs_size (birth u r) (length u.insns) (insn_at u (birth u r)).dest _ p
        (omega (arith, live_lt r live, room)) (omega (arith, b, l)) set
        (elim (Bool-cases (same_opcode (insn_at u (birth u r)).opcode Opcode.nop)) [
          | inl nop ↦ absurd (omega (arith, p, set, results (birth u r) nop))
          | inr other ↦ other
        ])

  operand_verified : (j r : ℕ) → j < length u.insns → uses u j r ≡ true → verify_operand u r ≡ true
  operand_verified j r l e = elim (Bool-cases (r == 0)) [
    | inl zero_reg ↦ rw zero_reg refl
    | inr there ↦ rw there (used_verified j r l (nonzero r there) e)
  ]
    where
      nonzero : (r : ℕ) → r == 0 ≡ false → 0 < r
      nonzero r h = ground arith

  insn_verified : (j : ℕ) → j < length u.insns → verify_insn u (insn_at u j) ≡ true
  unfolding uses_reg
  insn_verified j l =
      let i : Insn = insn_at u j in
      let third : (opcode_has_src3 i.opcode ≡ true) → verify_operand u i.src3 ≡ true =
        λ h. operand_verified j i.src3 l (rw h (ground arith)) in
      all_verified (verify_operand u i.src1) (verify_operand u i.src2) (opcode_has_src3 i.opcode)
        (verify_operand u i.src3) (operand_verified j i.src1 l (ground arith))
        (operand_verified j i.src2 l (ground arith)) third
    where
      all_verified :
          (a b t c : Bool)
          → a ≡ true
          → b ≡ true
          → (t ≡ true → c ≡ true)
          → (a && b && (not t || c)) ≡ true
      all_verified a b true c ea eb ec = rw (ea, eb, ec refl) refl
      all_verified a b false c ea eb ec = rw (ea, eb) refl

  insns_verified : (count i : ℕ) → i + count ≤ length u.insns → verify_insns count u i ≡ true
  unfolding verify_insns
  insns_verified zero i l = refl
  insns_verified (suc count) i l =
      both (insn_verified i (omega arith)) (insns_verified count (i + 1) (omega arith))
    where
      both : {a b : Bool} → a ≡ true → b ≡ true → (a && b) ≡ true
      both e f = rw (e, f) refl

  pub code_verified : verify_insns (length u.insns) u 0 ≡ true
  code_verified = insns_verified (length u.insns) 0 (omega arith)

-- A unit that rtl_finalize_unit() returns for was not finalized.
finalize-unfinished :
    (memory : ℕ → Bool) (slots : ℕ → BasicBlock) (u : RtlUnit) (r : Bool × RtlUnit)
    → rtl_finalize_unit memory slots u ≡ some r
    → u.finalized ≡ false
unfolding rtl_finalize_unit
finalize-unfinished memory slots u r e = elim (Bool-cases u.finalized) [
  | inr no_flag ↦ no_flag
  | inl flag ↦
      absurd
        (no_result (sym (ap (λ (b : Bool). if b then none else finalize memory slots u) flag) ∙ e))
]
  where
    no_result : none ≡ some r → ⊥
    no_result h = cc

-- Once a unit that is built as `Building` says, with at most 32767 blocks, no NOP with a result register
-- and no label whose block is not one of the unit's, is finalized, rtl_verify_unit() returns true: every
-- register that an instruction reads is one of the unit's, and the instruction at its birth sets it.
pub Building-verified :
    (memory : ℕ → Bool) (slots : ℕ → BasicBlock) (u u' : RtlUnit)
    → Building u
    → NoNopResult u
    → 2 * length u.blocks < 65535
    → Mapped u
    → rtl_finalize_unit memory slots u ≡ some (true, u')
    → rtl_verify_unit u' ≡ some true
unfolding rtl_verify_unit
Building-verified memory slots u u' b results small mapped e =
    let y : Ready u = Building-Ready u b in
    let (r, e', f, c) =
      rtl_finalize_unit-Returns memory slots u (finalize-unfinished memory slots u (true, u') e)
        small mapped in
    let same : r ≡ (true, u') = ap (λ o. elim o [ some p ↦ p | none ↦ r ]) (sym e' ∙ e) in
    let c' : SameCode u u' = subst (λ p. SameCode u p.1) same c in
    let done : u'.finalized ≡ true = subst (λ p. p.0 ≡ true → p.1.finalized ≡ true) same f refl in
    let checked =
      code_verified u' (same-Sound u u' c'.insns c'.regs c'.aliases y.sound)
        (omega (arith, y.regs_room.0, ap length c'.regs, c'.regs_size))
        (subst
          (λ is.
            (j : ℕ)
            → same_opcode (get_or is j blank_insn).opcode Opcode.nop ≡ true
            → (get_or is j blank_insn).dest ≡ 0)
          (sym c'.insns) results) in
    ap (λ (b : Bool). if b then some (verify_insns (length u'.insns) u' 0) else none) done
    ∙ ap some checked
