-- ===== src/Rtl/Opt/Dead/Exits.antt =====
-- The edges and the instructions of a dead block, in rtl_opt_drop_dead_blocks() of src/rtl-opt.c.
use libbinrec.Common.{
  ℕ, zero, suc, ◌+◌, ◌-◌, ◌<◌, ◌≡◌, refl, sym, ◌∙◌, ap, subst, ◌==◌, ltb, not, ◌&&◌, ◌||◌, Bool,
  true, false, Bool-cases, inl, inr, List, [], ◌∷◌, ◌++◌, length, get_or, Option, some, none, ◌>>=◌,
  bind-some, ℤ, negsuc, is_neg, arith, get_elem?,
}
use libbinrec.Rtl.Unit.{RtlUnit}
use libbinrec.Rtl.Unit.Access.{insn_at, reg_at, block_at}
use libbinrec.Rtl.Block.{update_block, shift_out, find_holder, block_remove_edge}
use libbinrec.Rtl.Block.Graph.{exits_at, Consistent}
use libbinrec.Rtl.Block.Removed.{block_remove_edge-Removed}
use libbinrec.Rtl.Opt.Live.{
  rollback_reg_death, erase_insn, release, kill_loop, may_raise, killed_src1, killed_src2,
  killed_src3, rtl_opt_kill_insn,
}
use libbinrec.Rtl.Opt.Visit.{exit_at}
use libbinrec.Rtl.Opt.Branch.{index, has_insns}
use libbinrec.Rtl.Opt.Reduced.{
  exit_at-exit, get_elem?_of_get_or, TwoExits, Reduced, Reduced-refl, Reduced-trans,
  Removed-Reduced, used_exit,
}
use libbinrec.Rtl.Opt.Dead.{remove_exits, kill_insns, kill_block}

-- The flow graph and the code stream are left alone.
abbrev pub Keeps : RtlUnit → RtlUnit → Type 0
Keeps u u' = (u'.blocks ≡ u.blocks) × (u'.last_block ≡ u.last_block)

Keeps-trans : (u v w : RtlUnit) → Keeps u v → Keeps v w → Keeps u w
Keeps-trans u v w s t = (t.0 ∙ s.0, t.1 ∙ s.1)

release-Keeps :
    (kill : RtlUnit → ℕ → RtlUnit) (dse : Bool) (i : ℕ)
    → ((u : RtlUnit) (k : ℕ) → Keeps u (kill u k))
    → (u : RtlUnit) (src : ℕ) → Keeps u (release kill dse i u src)
unfolding release rollback_reg_death
release-Keeps kill dse i keeps u src =
    elim (Bool-cases (src == 0 || not ((reg_at u src).death == i))) [
      | inl skip ↦ rw (skip, release) (refl, refl)
      | inr take ↦ elim (Bool-cases ((rollback_reg_death u src).0 && dse)) [
        | inl more ↦
            rw (take, more, release)
              (keeps (rollback_reg_death u src).1 (reg_at (rollback_reg_death u src).1 src).birth)
        | inr stop ↦ rw (take, stop, release) (refl, refl)
      ]
    ]

kill_loop-Keeps :
    (fuel : ℕ) (ignore_fexc dse : Bool) (u : RtlUnit) (i : ℕ)
    → Keeps u (kill_loop fuel ignore_fexc dse u i)
unfolding kill_loop erase_insn
kill_loop-Keeps zero ignore_fexc dse u i = (refl, refl)
kill_loop-Keeps (suc fuel) ignore_fexc dse u i =
    elim (Bool-cases (not ignore_fexc && may_raise (insn_at u i).opcode)) [
      | inl keep ↦ rw (keep, kill_loop) (refl, refl)
      | inr killed ↦
          let keeps : (v : RtlUnit) (src : ℕ)
              → Keeps v (release (kill_loop fuel ignore_fexc dse) dse i v src) =
            release-Keeps (kill_loop fuel ignore_fexc dse) dse i
              (kill_loop-Keeps fuel ignore_fexc dse) in
          let stage3 : RtlUnit =
            release (kill_loop fuel ignore_fexc dse) dse i (erase_insn u i)
              (killed_src3 (insn_at u i)) in
          let stage2 : RtlUnit =
            release (kill_loop fuel ignore_fexc dse) dse i stage3 (killed_src2 u (insn_at u i)) in
          let stage1 : RtlUnit =
            release (kill_loop fuel ignore_fexc dse) dse i stage2 (killed_src1 u (insn_at u i)) in
          rw (killed, kill_loop)
            (Keeps-trans u stage2 stage1
              (Keeps-trans u stage3 stage2 (keeps (erase_insn u i) (killed_src3 (insn_at u i)))
                (keeps stage3 (killed_src2 u (insn_at u i))))
              (keeps stage2 (killed_src1 u (insn_at u i))))
    ]

pub rtl_opt_kill_insn-Keeps :
    (u : RtlUnit) (i : ℕ) (ignore_fexc dse : Bool) → Keeps u (rtl_opt_kill_insn u i ignore_fexc dse)
unfolding rtl_opt_kill_insn
rtl_opt_kill_insn-Keeps u i ignore_fexc dse = kill_loop-Keeps (i + 1) ignore_fexc dse u i

kill_insns-Keeps : (count : ℕ) (u : RtlUnit) (start : ℕ) → Keeps u (kill_insns count u start)
unfolding kill_insns rtl_opt_kill_insn
kill_insns-Keeps zero u start = (refl, refl)
kill_insns-Keeps (suc count) u start =
    elim (Bool-cases (
      not ((insn_at u (start + count)).dest == 0)
      && ltb (start + count) (reg_at u (insn_at u (start + count)).dest).death)) [
        | inl stays ↦ rw (stays, kill_insns) (kill_insns-Keeps count u start)
        | inr goes ↦
            rw (goes, kill_insns)
              (Keeps-trans u (rtl_opt_kill_insn u (start + count) true false)
                (kill_insns count (rtl_opt_kill_insn u (start + count) true false) start)
                (kill_loop-Keeps (start + count + 1) true false u (start + count))
                (kill_insns-Keeps count (rtl_opt_kill_insn u (start + count) true false) start))
      ]

pub kill_block-Keeps : (u : RtlUnit) (i : ℕ) → Keeps u (kill_block u i)
unfolding kill_block
kill_block-Keeps u i = elim (Bool-cases (has_insns (block_at u i))) [
  | inl some_insns ↦
      rw (some_insns, kill_block)
        (kill_insns-Keeps (index (block_at u i).last_insn + 1 - index (block_at u i).first_insn) u
          (index (block_at u i).first_insn))
  | inr no_insns ↦ rw (no_insns, kill_block) (refl, refl)
]

abbrev last_of : Option RtlUnit → ℤ
last_of none = negsuc 0
last_of (some u) = u.last_block

removed_last :
    (u u' : RtlUnit) (from m : ℕ)
    → block_remove_edge u from m ≡ some u'
    → u'.last_block ≡ u.last_block
unfolding block_remove_edge
removed_last u u' from m e =
    let (source, _, e1) = bind-some (get_elem? u.blocks from) _ u' e in
    let (to, _, e2) = bind-some (get_elem? source.exits m) _ u' e1 in
    let (found, _, e3) =
      bind-some
        (find_holder
          (suc
            (length (update_block u.blocks from (λ b. record b { exits = shift_out b.exits m }))))
          (update_block u.blocks from (λ b. record b { exits = shift_out b.exits m })) from to)
        _ u' e2 in
    sym (ap last_of e3)

-- Slot n and those after it are not used.
abbrev Short : ℕ → List ℤ → Type 0
Short n es = is_neg (get_or es n (negsuc 0)) ≡ true

get_or-blank :
    (es : List ℤ) (n : ℕ) → get_or (es ++ negsuc 0 ∷ []) n (negsuc 0) ≡ get_or es n (negsuc 0)
get_or-blank [] zero = refl
get_or-blank [] (suc n) = refl
get_or-blank (e ∷ es) zero = refl
get_or-blank (e ∷ es) (suc n) = get_or-blank es n

shift_out-Short : (es : List ℤ) (n : ℕ) → Short (suc n) es → Short n (shift_out es 0)
unfolding shift_out
shift_out-Short [] n s = refl
shift_out-Short (e ∷ es) n s = subst (λ x. is_neg x ≡ true) (sym (get_or-blank es n)) s

-- The block has no exits, and nothing but edges is gone.
pub record Cleared (own : ℕ → ℕ) (u u' : RtlUnit) (i : ℕ) : Type 0 where
  pub reduced : Reduced own u.blocks u'.blocks
  pub last : u'.last_block ≡ u.last_block
  pub empty : is_neg (exit_at u'.blocks i 0) ≡ true

pub remove_exits-Cleared :
    (own : ℕ → ℕ) (fuel : ℕ) (u : RtlUnit) (i : ℕ)
    → Consistent own u.blocks
    → TwoExits own u.blocks
    → own i ≡ 0
    → i < length u.blocks
    → Short fuel (exits_at u.blocks i)
    → (u' : RtlUnit) × (remove_exits fuel u i ≡ some u') × Cleared own u u' i
unfolding remove_exits
remove_exits-Cleared own zero u i c two r l short =
    let no_exit : is_neg (exit_at u.blocks i 0) ≡ true =
      subst (λ x. is_neg x ≡ true) (sym (exit_at-exit u.blocks i 0 l)) short in
    (
      u,
      rw (no_exit, remove_exits) refl,
      record { reduced = Reduced-refl own u.blocks c two; last = refl; empty = no_exit },
    )
remove_exits-Cleared own (suc fuel) u i c two r l short =
    elim (Bool-cases (is_neg (exit_at u.blocks i 0))) [
      | inl no_exit ↦ (
        u,
        rw (no_exit, remove_exits) refl,
        record { reduced = Reduced-refl own u.blocks c two; last = refl; empty = no_exit },
      )
      | inr an_exit ↦
          let (t, used) = used_exit (exit_at u.blocks i 0) an_exit in
          let (v, e, removed) = block_remove_edge-Removed own u i t 0 c r l (
            get_elem?_of_get_or (exits_at u.blocks i) 0 t
              (sym (exit_at-exit u.blocks i 0 l) ∙ used)) in
          let reduced : Reduced own u.blocks v.blocks =
            Removed-Reduced own u.blocks v.blocks i t 0 r l (omega arith) two removed in
          let (w, e', cleared) =
            remove_exits-Cleared own fuel v i reduced.consistent reduced.exits r
              (omega (arith, l, reduced.size))
              (subst (Short fuel) (sym removed.exits_self)
                (shift_out-Short (exits_at u.blocks i) fuel short)) in
          (
            w,
            rw (an_exit, remove_exits) (ap (λ o. o >>= (λ x. remove_exits fuel x i)) e ∙ e'),
            record {
              reduced = Reduced-trans reduced cleared.reduced;
              last = cleared.last ∙ removed_last u v i 0 e;
              empty = cleared.empty;
            },
          )
    ]

pub two-Short : (es : List ℤ) → length es ≡ 2 → Short 2 es
two-Short [] l = refl
two-Short (a ∷ []) l = refl
two-Short (a ∷ b ∷ []) l = refl
two-Short (a ∷ b ∷ c ∷ es) l = absurd (omega (arith, l))
