-- ===== src/Rtl/Builder/Optimize.antt =====
-- rtl_optimize_unit() of src/rtl.c, with the flags of include/binrec.h that it reads.
use libbinrec.Common.{
  ℕ, ◌^◌, ◌==◌, not, ◌||◌, Bool, true, false, if◌then◌else◌, Option, some, ◌>>=◌, bit_and,
}
use libbinrec.Api.Handle.{Handle}
use libbinrec.Rtl.Fold.Float.{Fp}
use libbinrec.Rtl.Unit.{BasicBlock, RtlUnit}
use libbinrec.Rtl.Opt.FoldRegisters.{rtl_opt_fold_registers}
use libbinrec.Rtl.Opt.Branch.{
  rtl_opt_decondition, rtl_opt_thread_branches, rtl_opt_drop_dead_branches,
}
use libbinrec.Rtl.Opt.Alias.{rtl_opt_alias_data_flow}
use libbinrec.Rtl.Opt.Dead.{rtl_opt_drop_dead_stores, rtl_opt_drop_dead_blocks}

-- `flags & (1 << bit)`
abbrev pub has_flag : ℕ → ℕ → Bool
has_flag flags bit = not (bit_and flags (2 ^ bit) == 0)

abbrev pub opt_basic : ℕ
opt_basic = 0

abbrev pub opt_decondition : ℕ
opt_decondition = 1

abbrev pub opt_deep_data_flow : ℕ
opt_deep_data_flow = 2

abbrev pub opt_dse : ℕ
opt_dse = 3

abbrev pub opt_dse_fp : ℕ
opt_dse_fp = 4

abbrev pub opt_fold_constants : ℕ
opt_fold_constants = 5

abbrev opt_fold_fp_constants : ℕ
opt_fold_fp_constants = 6

abbrev pub opt_fold_vectors : ℕ
opt_fold_vectors = 7

-- What the passes get from the allocator: the marks of the blocks, the records of the alias pass, and
-- the dummy blocks of branch threading with their contents.
pub record Scratch : Type 0 where
  pub seen : Bool
  pub alias_info : Bool
  pub dummy : Bool
  pub slot : BasicBlock

abbrev when : Bool → (RtlUnit → Option RtlUnit) → RtlUnit → Option RtlUnit
when test pass u = if test then pass u else some u

module _ (fp : Fp) (little : Bool) (load : ℕ → ℕ → ℕ) (h : Handle) (s : Scratch) (flags : ℕ) where
  -- The passes in their order. `none` is a violated ASSERT() of one.
  unfoldable pub optimize_passes : RtlUnit → Option RtlUnit
  optimize_passes u = do
    let on : ℕ → Bool = has_flag flags
    u1 ←
        when (on opt_fold_constants || on opt_fold_vectors)
          (rtl_opt_fold_registers fp little load h (on opt_fold_constants)
            (on opt_fold_fp_constants) (on opt_fold_vectors))
          u
    u2 ← when (on opt_decondition) rtl_opt_decondition u1
    u3 ← when (on opt_deep_data_flow) (rtl_opt_alias_data_flow s.alias_info) u2
    u4 ← when (on opt_dse) (λ v. some (rtl_opt_drop_dead_stores (on opt_dse_fp) v)) u3
    u5 ← when (on opt_basic) (rtl_opt_thread_branches s.dummy s.slot) u4
    u6 ← when (on opt_basic) rtl_opt_drop_dead_blocks u5
    when (on opt_basic) (rtl_opt_drop_dead_branches (on opt_dse_fp) (on opt_dse)) u6

  unfoldable pub rtl_optimize_unit : RtlUnit → Option (Bool × RtlUnit)
  rtl_optimize_unit u =
      if s.seen then optimize_passes u >>= (λ u'. some (true, u')) else some (false, u)
