-- ===== src/Rtl/Builder/Sound.antt =====
-- The invariant of a unit's instructions and registers while src/rtl.c builds it, and one more
-- instruction.
use libbinrec.Common.{
  ℕ, zero, suc, ◌<◌, ◌≤◌, ◌≡◌, refl, Bool, true, false, ◌⊎◌, List, [], ◌∷◌, ◌++◌, length, get_or,
  arith,
}
use libbinrec.Rtl.Unit.{Insn, RtlUnit}
use libbinrec.Rtl.Unit.Access.{insn_at, reg_at, alias_base}
use libbinrec.Rtl.Insn.{is_defined}
use libbinrec.Rtl.Insn.Effect.{Among}
use libbinrec.Rtl.Opt.Live.{uses_reg}
use libbinrec.Rtl.Opt.Live.Range.{birth, death, uses, OperandsOk}

abbrev pub live : RtlUnit → ℕ → Bool
live u r = (reg_at u r).live

-- A register that an instruction refers to: it is live, from before the instruction to the instruction
-- or after it.
abbrev pub UsedAt : RtlUnit → ℕ → ℕ → Type 0
UsedAt u j r = (live u r ≡ true) × (birth u r < j) × (j ≤ death u r)

-- The registers that are live are those that have been set, each by the instruction of its birth, and
-- a live range runs from there to the last instruction that refers to the register.
pub record Sound (u : RtlUnit) : Type 0 where
  pub timed :
      (r : ℕ) → 0 < r → live u r ≡ true → (birth u r ≤ death u r) × (death u r < length u.insns)
  pub idle : (r : ℕ) → 0 < r → live u r ≡ false → birth u r ≡ death u r
  pub defined_live : (r : ℕ) → 0 < r → is_defined u r ≡ true → live u r ≡ true
  pub live_defined : (r : ℕ) → 0 < r → live u r ≡ true → is_defined u r ≡ true
  pub setter : (r : ℕ) → 0 < r → live u r ≡ true → (insn_at u (birth u r)).dest ≡ r
  pub used : (j r : ℕ) → j < length u.insns → 0 < r → uses u j r ≡ true → UsedAt u j r
  pub ends : (r : ℕ) → 0 < r → live u r ≡ true → birth u r < death u r → uses u (death u r) r ≡ true
  pub operands : (j : ℕ) → j < length u.insns → OperandsOk u (insn_at u j)
  pub bases : (a : ℕ) → 0 < alias_base u a → is_defined u (alias_base u a) ≡ true
  pub base_lt : (a : ℕ) → alias_base u a < length u.regs
  pub some_reg : 0 < length u.regs
  pub regs_lt : length u.regs ≤ 65535
  pub aliases_lt : length u.aliases ≤ 65535

-- What the operand checks give for an instruction that sets `dest` and marks the registers `rs`.
pub record Good (u : RtlUnit) (dest : ℕ) (rs : List ℕ) (insn : Insn) : Type 0 where
  pub fresh : 0 < dest → is_defined u dest ≡ false
  pub dest_eq : insn.dest ≡ dest
  pub written : 0 < dest → Among dest rs
  pub marked :
      (r : ℕ) → Among r rs → 0 < r → (r < length u.regs) × ((r ≡ dest) ⊎ (uses_reg u insn r ≡ true))
  pub used : (r : ℕ) → 0 < r → uses_reg u insn r ≡ true → Among r rs × (is_defined u r ≡ true)
  pub ok : OperandsOk u insn

pub get_or-append_old {ℓ} :
    {A : Type ℓ} (xs ys : List A) (i : ℕ) (d : A)
    → i < length xs
    → get_or (xs ++ ys) i d ≡ get_or xs i d
get_or-append_old [] ys i d l = absurd (omega arith)
get_or-append_old (x ∷ xs) ys zero d l = refl
get_or-append_old (x ∷ xs) ys (suc i) d l = get_or-append_old xs ys i d (omega arith)

pub get_or-append_new {ℓ} :
    {A : Type ℓ} (xs : List A) (y d : A) → get_or (xs ++ y ∷ []) (length xs) d ≡ y
get_or-append_new [] y d = refl
get_or-append_new (x ∷ xs) y d = get_or-append_new xs y d
