-- ===== src/Rtl/Opt/Dead/Stores.antt =====
-- rtl_opt_drop_dead_stores() of src/rtl-opt.c and the live ranges of the registers.
use libbinrec.Common.{
  ◌<◌, false, ℕ, zero, suc, ◌+◌, ◌≤◌, ◌≡◌, refl, ◌∙◌, Bool, true, inl, inr, length, arith,
}
use libbinrec.Rtl.Opcode.{Opcode}
use libbinrec.Rtl.Unit.{RtlUnit}
use libbinrec.Rtl.Unit.Access.{insn_at, reg_at}
use libbinrec.Rtl.Opt.Live.{rtl_opt_kill_insn}
use libbinrec.Rtl.Opt.Live.Range.{uses, birth, death, Ranges}
use libbinrec.Rtl.Opt.Kill.{rtl_opt_kill_insn-Ranges}

-- Tight live ranges, none of them longer than in `u`.
pub record Tighter (u u' : RtlUnit) : Type 0 where
  pub ranges : Ranges (λ j. ⊥) u'
  pub size : length u'.regs ≡ length u.regs
  pub births : (r : ℕ) → birth u' r ≡ birth u r
  pub deaths : (r : ℕ) → death u' r ≤ death u r

pub Tighter-refl : (u : RtlUnit) → Ranges (λ j. ⊥) u → Tighter u u
Tighter-refl u ranges = record {
  ranges = ranges;
  size = refl;
  births = λ r. refl;
  deaths = λ r. omega arith;
}

pub Tighter-trans : {u v w : RtlUnit} → Tighter u v → Tighter v w → Tighter u w
Tighter-trans s t = record {
  ranges = t.ranges;
  size = t.size ∙ s.size;
  births = λ r. t.births r ∙ s.births r;
  deaths = λ r. omega (arith, s.deaths r, t.deaths r);
}

pub rtl_opt_kill_insn-Tighter :
    (u : RtlUnit) (i : ℕ) (ignore_fexc dse : Bool)
    → Ranges (λ j. ⊥) u
    → Tighter u (rtl_opt_kill_insn u i ignore_fexc dse)
rtl_opt_kill_insn-Tighter u i ignore_fexc dse ranges =
    let (tight, less) = rtl_opt_kill_insn-Ranges u i ignore_fexc dse ranges in
    record {
      ranges = tight;
      size = less.size;
      births = less.births;
      deaths = λ r. elim (less.deaths r) [ inl e ↦ omega (arith, e) | inr l ↦ omega (arith, l) ];
    }

-- What an instruction does besides setting its result: the operations on guest memory and the calls.
pub data Effectful : Opcode → Type 0 where
  atomic_inc : Effectful Opcode.atomic_inc
  cmpxchg : Effectful Opcode.cmpxchg
  call : Effectful Opcode.call
  call_transparent : Effectful Opcode.call_transparent

-- What becomes of the instruction that sets a register: it stays for a reason, or it is killed and no
-- instruction after it refers to the register.
pub data Store (ignore_fexc : Bool) (u : RtlUnit) (reg : ℕ) : RtlUnit → Type 0 where
  not_live : (reg_at u reg).live ≡ false → Store ignore_fexc u reg u
  read : (j : ℕ) → birth u reg < j → uses u j reg ≡ true → Store ignore_fexc u reg u
  effect : Effectful (insn_at u (birth u reg)).opcode → Store ignore_fexc u reg u
  killed :
      (reg_at u reg).live ≡ true
      → ((j : ℕ) → birth u reg < j → uses u j reg ≡ false)
      → ¬ Effectful (insn_at u (birth u reg)).opcode
      → Store ignore_fexc u reg (rtl_opt_kill_insn u (birth u reg) ignore_fexc true)

-- The `count` registers from `reg` on, one after the other.
pub data Sweep (ignore_fexc : Bool) : ℕ → RtlUnit → ℕ → RtlUnit → Type 0 where
  done : (u : RtlUnit) (reg : ℕ) → Sweep ignore_fexc zero u reg u
  step :
      (count : ℕ) (u v w : RtlUnit) (reg : ℕ)
      → Store ignore_fexc u reg v
      → Tighter u v
      → Sweep ignore_fexc count v (reg + 1) w
      → Sweep ignore_fexc (suc count) u reg w
