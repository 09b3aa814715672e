-- ===== src/Rtl/Insn/Marked.antt =====
-- The live ranges that the encoders of src/rtl-insn.c keep.
use native.Mathlib.Decide.{ℕ_discrete}
use libbinrec.Common.{
  ℕ, suc, ◌<◌, ◌≤◌, ◌≡◌, ◌≢◌, refl, sym, ◌∙◌, subst, not, ◌&&◌, Bool, true, false, Bool-cases,
  if◌then◌else◌, inl, inr, List, [], ◌∷◌, length, length-modify, get_or-modify_self,
  get_or-modify_ne, get_or-modify_keep, Option, some, none, arith,
}
use libbinrec.Rtl.Opcode.{RegType}
use libbinrec.Rtl.Unit.{Insn, Register, RtlUnit}
use libbinrec.Rtl.Unit.Access.{reg_at, blank_register, update_reg}
use libbinrec.Rtl.Insn.{
  encode, mark, rtl_mark_live, mark_all, base_operand, set_source, result_3, make_select,
  make_set_alias,
}

-- Live ranges lie before instruction n and do not end before they start.
abbrev pub Timed : ℕ → RtlUnit → Type 0
Timed n u =
    (r : ℕ)
    → r < length u.regs
    → (reg_at u r).live ≡ true
    → ((reg_at u r).birth ≤ (reg_at u r).death) × ((reg_at u r).death < n)

-- The registers are live, and their ranges end at instruction n.
abbrev pub Dying : ℕ → RtlUnit → List ℕ → Type 0
Dying n u [] = Unit
Dying n u (r ∷ rs) = ((reg_at u r).live ≡ true) × ((reg_at u r).death ≡ n) × Dying n u rs

-- Registers of the unit.
abbrev pub Within : RtlUnit → List ℕ → Type 0
Within u [] = Unit
Within u (r ∷ rs) = (r < length u.regs) × Within u rs

module _ (u : RtlUnit) (n r : ℕ) where
  abbrev marked : RtlUnit
  marked = rtl_mark_live u n r

  length-marked : length marked.regs ≡ length u.regs
  unfolding rtl_mark_live
  length-marked = length-modify u.regs r (mark n)

  marked_self : r < length u.regs → reg_at marked r ≡ mark n (reg_at u r)
  unfolding rtl_mark_live
  marked_self l = get_or-modify_self u.regs r (mark n) blank_register l

  marked_other : (k : ℕ) → r ≢ k → reg_at marked k ≡ reg_at u k
  unfolding rtl_mark_live
  marked_other k ne = get_or-modify_ne u.regs r k (mark n) blank_register ne

  abbrev TimedAt : ℕ → Register → Type 0
  TimedAt m reg = reg.live ≡ true → (reg.birth ≤ reg.death) × (reg.death < m)

  mark-TimedAt : (reg : Register) → TimedAt (suc n) reg → TimedAt (suc n) (mark n reg)
  mark-TimedAt reg t h = elim (Bool-cases reg.live) [
    | inl old ↦ let b = t old in rw old (omega (arith, b), omega arith)
    | inr new ↦ rw new (omega arith, omega arith)
  ]

  marked-Timed : Timed (suc n) u → Timed (suc n) marked
  marked-Timed t k l = elim (ℕ_discrete r k) [
    | yes e ↦
        let lt : r < length u.regs = omega (arith, l, length-marked, e) in
        subst (λ x. TimedAt (suc n) (reg_at marked x)) e
          (subst (TimedAt (suc n)) (sym (marked_self lt)) (mark-TimedAt (reg_at u r) (t r lt)))
    | no ne ↦
        subst (TimedAt (suc n)) (sym (marked_other k ne)) (t k (omega (arith, l, length-marked)))
  ]

  abbrev DyingAt : Register → Type 0
  DyingAt reg = (reg.live ≡ true) × (reg.death ≡ n)

  marked-DyingAt : r < length u.regs → (k : ℕ) → DyingAt (reg_at u k) → DyingAt (reg_at marked k)
  marked-DyingAt l k d = elim (ℕ_discrete r k) [
    | yes e ↦
        subst (λ x. DyingAt (reg_at marked x)) e (subst DyingAt (sym (marked_self l)) (refl, refl))
    | no ne ↦ subst DyingAt (sym (marked_other k ne)) d
  ]

  marked-Dying : r < length u.regs → (rs : List ℕ) → Dying n u rs → Dying n marked rs
  marked-Dying l [] d = tt
  marked-Dying l (k ∷ rs) d =
      let (a, b) = marked-DyingAt l k (d.0, d.1) in (a, b, marked-Dying l rs d.2)

  marked-Within : (rs : List ℕ) → Within u rs → Within marked rs
  marked-Within [] w = tt
  marked-Within (k ∷ rs) w = (omega (arith, w.0, length-marked), marked-Within rs w.1)

mark_all-Dying :
    (n : ℕ) (rs before : List ℕ) (u : RtlUnit)
    → Within u rs
    → Timed (suc n) u
    → Dying n u before
    → Timed (suc n) (mark_all u n rs)
      × Dying n (mark_all u n rs) before
      × Dying n (mark_all u n rs) rs
unfolding mark_all
mark_all-Dying n [] before u w t d = (t, d, tt)
mark_all-Dying n (r ∷ rs) before u w t d =
    let (live, ends) = subst (DyingAt u n r) (sym (marked_self u n r w.0)) (refl, refl) in
    let (t', d', rest) =
      mark_all-Dying n rs (r ∷ before) (rtl_mark_live u n r) (marked-Within u n r rs w.1)
        (marked-Timed u n r t) (live, ends, marked-Dying u n r w.0 before d) in
    (t', d'.2, (d'.0, d'.1, rest))

-- What an encoder for the instruction n with the registers `rs` gives: it refuses operands, which it does
-- only with checks, or all these registers die at the instruction and live ranges lie up to it.
pub data Encoded (checks : Bool) (n : ℕ) (rs : List ℕ) : Option (RtlUnit × Insn) → Type 0 where
  refused : checks ≡ true → Encoded checks n rs none
  encoded :
      (u' : RtlUnit) (insn : Insn)
      → Timed (suc n) u'
      → Dying n u' rs
      → Encoded checks n rs (some (u', insn))

-- The result register gets its source, which is no matter of live ranges.
set-Timed :
    (u : RtlUnit) (n dest : ℕ) (f : Register → Register)
    → ((reg : Register) → (f reg).live ≡ reg.live)
    → ((reg : Register) → (f reg).birth ≡ reg.birth)
    → ((reg : Register) → (f reg).death ≡ reg.death)
    → Timed n u
    → Timed (suc n) (update_reg u dest f)
set-Timed u n dest f live birth death t k l h =
    let old =
      t k (omega (arith, l, length-modify u.regs dest f))
        (sym (get_or-modify_keep (λ r. r.live) u.regs dest k f blank_register live) ∙ h) in
    (
      omega (
        arith,
        old,
        get_or-modify_keep (λ r. r.birth) u.regs dest k f blank_register birth,
        get_or-modify_keep (λ r. r.death) u.regs dest k f blank_register death,
      ),
      omega (arith, old, get_or-modify_keep (λ r. r.death) u.regs dest k f blank_register death),
    )

length-Within :
    (u u' : RtlUnit) (rs : List ℕ) → length u'.regs ≡ length u.regs → Within u rs → Within u' rs
length-Within u u' [] same w = tt
length-Within u u' (r ∷ rs) same w = (omega (arith, w.0, same), length-Within u u' rs same w.1)

finish :
    (checks ok : Bool) (set : RtlUnit) (n : ℕ) (rs : List ℕ) (insn : Insn)
    → Within set rs
    → Timed (suc n) set
    → Encoded checks n rs (if checks && not ok then none else some (mark_all set n rs, insn))
finish false ok set n rs insn w t =
    let (t', _, d) = mark_all-Dying n rs [] set w t tt in
    Encoded.encoded (mark_all set n rs) insn t' d
finish true false set n rs insn w t = Encoded.refused refl
finish true true set n rs insn w t =
    let (t', _, d) = mark_all-Dying n rs [] set w t tt in
    Encoded.encoded (mark_all set n rs) insn t' d

-- make_select() refuses operands only where the library checks them. Otherwise its four registers are
-- live up to the new instruction, and every live range still starts before it ends and lies within the
-- instructions.
pub make_select-Encoded :
    (checks : Bool) (u : RtlUnit) (insn : Insn) (dest src1 src2 other : ℕ)
    → Within u (dest ∷ src1 ∷ src2 ∷ other ∷ [])
    → Timed (length u.insns) u
    → Encoded checks
        (length u.insns)
        (dest ∷ src1 ∷ src2 ∷ other ∷ [])
        (make_select checks u insn dest src1 src2 other)
unfolding make_select encode
make_select-Encoded checks u insn dest src1 src2 other w t =
    let set : RtlUnit =
      update_reg u dest (set_source RegType.result (result_3 insn src1 src2 other)) in
    finish checks _ set (length u.insns) (dest ∷ src1 ∷ src2 ∷ other ∷ []) _
      (length-Within u set (dest ∷ src1 ∷ src2 ∷ other ∷ [])
        (length-modify u.regs dest (set_source RegType.result (result_3 insn src1 src2 other))) w)
      (set-Timed u (length u.insns) dest (set_source RegType.result (result_3 insn src1 src2 other))
        (λ reg. refl) (λ reg. refl) (λ reg. refl) t)

-- make_set_alias() refuses operands only where the library checks them. Otherwise its register and the
-- base of the alias, if it has one, are live up to the new instruction, and every live range still
-- starts before it ends and lies within the instructions.
pub make_set_alias-Encoded :
    (checks : Bool) (u : RtlUnit) (insn : Insn) (src1 other : ℕ)
    → Within u (src1 ∷ base_operand u other)
    → Timed (length u.insns) u
    → Encoded checks
        (length u.insns)
        (src1 ∷ base_operand u other)
        (make_set_alias checks u insn src1 other)
unfolding make_set_alias encode
make_set_alias-Encoded checks u insn src1 other w t =
    finish checks _ u (length u.insns) (src1 ∷ base_operand u other) _ w
      (λ r l h. let old = t r l h in (old.0, omega (arith, old)))
