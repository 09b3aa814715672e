-- ===== src/Rtl/Builder/Limit.antt =====
-- rtl_alloc_register() and rtl_clear_unit() of src/rtl.c: what comes out of a call.
use libbinrec.Common.{
  ℕ, ◌+◌, ◌<◌, ◌≡◌, ap, if◌then◌else◌, some, none, Bool, true, false, [], ◌∷◌, ◌++◌, length,
  length-append, arith,
}
use libbinrec.Rtl.Opcode.{DataType}
use libbinrec.Rtl.Unit.{Register, RtlUnit}
use libbinrec.Rtl.Unit.Access.{reg_at, blank_register}
use libbinrec.Rtl.Builder.{grown, regs_expand_size, add_register, rtl_alloc_register}
use libbinrec.Rtl.Builder.Sound.{get_or-append_new, get_or-append_old}
use libbinrec.Rtl.Builder.Ready.{Room, grown-Room}
use libbinrec.Rtl.Builder.Allocate.{growth_cases}

-- The ways rtl_alloc_register() can end: 0 and the error flag, or a register of the type asked for that
-- the unit did not have; the others stay.
pub data Allocated (slot : Register) (u : RtlUnit) (type : DataType) : ℕ × RtlUnit → Type 0 where
  exhausted : Allocated slot u type (0, record u { error = true })
  fresh :
      (u' : RtlUnit)
      → length u.regs < 65535
      → length u'.regs ≡ length u.regs + 1
      → Room (length u'.regs) u'.regs_size
      → reg_at u' (length u.regs) ≡ record slot { type = type }
      → ((r : ℕ) → r < length u.regs → reg_at u' r ≡ reg_at u r)
      → Allocated slot u type (length u.regs, u')

add_register-Allocated :
    (memory : Bool) (slot : Register) (u : RtlUnit) (type : DataType)
    → Room (length u.regs) u.regs_size
    → Allocated slot u type (add_register memory slot u type)
unfolding add_register
add_register-Allocated memory slot u type room =
    growth_cases (Allocated slot u type) (grown memory regs_expand_size (length u.regs) u.regs_size)
      (λ e. Allocated.exhausted)
      (λ size e.
        let reg : Register = record slot { type = type } in
        let len : length (u.regs ++ reg ∷ []) ≡ length u.regs + 1 =
          length-append u.regs (reg ∷ []) in
        let after =
          grown-Room memory regs_expand_size (length u.regs) u.regs_size size (omega arith)
            (omega arith) room e in
        let here = get_or-append_new u.regs reg blank_register in
        Allocated.fresh _ (omega (arith, after)) len
          (omega (arith, len, after), omega (arith, after)) here
          (λ r l. get_or-append_old u.regs (reg ∷ []) r blank_register l))

-- rtl_alloc_register() in a unit that is not finalized and whose array has room for its registers always
-- returns: 0, with the error flag as the only change, or the index of a new register, below 65535. That
-- has the type asked for and else what its slot of the array held; the other registers stay, and the
-- array still has room.
pub rtl_alloc_register-Allocated :
    (memory : Bool) (slot : Register) (u : RtlUnit) (type : DataType)
    → u.finalized ≡ false
    → Room (length u.regs) u.regs_size
    → (r : ℕ × RtlUnit) × (rtl_alloc_register memory slot u type ≡ some r) × Allocated slot u type r
unfolding rtl_alloc_register
rtl_alloc_register-Allocated memory slot u type unfinished room = (
  add_register memory slot u type,
  ap (λ (b : Bool). if b then none else some (add_register memory slot u type)) unfinished,
  add_register-Allocated memory slot u type room,
)
