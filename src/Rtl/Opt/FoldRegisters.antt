-- ===== src/Rtl/Opt/FoldRegisters.antt =====
-- get_readonly_ptr(), fold_readonly_load() and rtl_opt_fold_registers() of src/rtl-opt.c. `load n a` is
-- what the host's load of n bytes at guest address a gives; `little` is the host's byte order. `none` is
-- where C leaves a folded operation undefined, or an assertion fails.
use libbinrec.Common.{
  ℕ, zero, suc, ◌+◌, ◌==◌, not, ◌&&◌, Bool, true, false, if◌then◌else◌, length, Option, some, none,
  ◌>>=◌,
}
use libbinrec.Word.{signed, u32, u64_of}
use libbinrec.Word.Endian.{bswap_be16, bswap_be32, bswap_be64, bswap_le16, bswap_le32, bswap_le64}
use libbinrec.Api.Handle.{Handle}
use libbinrec.Api.Readonly.{is_address_readonly}
use libbinrec.Rtl.Opcode.{DataType, Opcode, RegType, is_constant}
use libbinrec.Rtl.Unit.{Register, RtlUnit}
use libbinrec.Rtl.Unit.Access.{insn_at, reg_at, update_insn, update_reg, set_src_imm}
use libbinrec.Rtl.Fold.Float.{Fp}
use libbinrec.Rtl.Opt.Folding.{roll_back, set_constant, fold_one_reg_constant}
use libbinrec.Rtl.Opt.Vector.{is_nofold, fold_one_reg_vector}

-- The guest address that a register holds the host address of, where it is known.
unfoldable pub guest_base : RtlUnit → ℕ → Option ℕ
guest_base u base =
    let reg : Register = reg_at u base in
    let src1 : ℕ = reg.result.src1 in
    let src2 : ℕ = reg.result.src2 in
    if base == u.membase_reg
    then some 0
    else if not (is_nofold reg.source)
    then none
    else elim reg.result.opcode [
      | Opcode.addi ↦ if src1 == u.membase_reg then some (u32 reg.result.src_imm) else none
      | Opcode.add ↦
          if src1 == u.membase_reg && is_constant (reg_at u src2).source
          then some (u32 (reg_at u src2).value)
          else if src2 == u.membase_reg && is_constant (reg_at u src1).source
          then some (u32 (reg_at u src1).value)
          else none
      | _ ↦ none
    ]

-- The guest address behind the pointer, where it is not null.
unfoldable pub get_readonly_ptr : Handle → RtlUnit → ℕ → Option (Option ℕ)
get_readonly_ptr h u r = elim (guest_base u (reg_at u r).memory.base) [
  | none ↦ some none
  | some base ↦
      let addr : ℕ = u32 (base + u64_of (reg_at u r).memory.offset) in
      is_address_readonly h addr >>= (λ readonly. some (if readonly then some addr else none))
]

abbrev pub xor : Bool → Bool → Bool
xor true b = not b
xor false b = b

-- The value that a load gives, or `none` for a vector.
unfoldable pub load_value : Bool → Bool → (ℕ → ℕ) → Register → Option ℕ
load_value little host_little load reg =
    let swapped : Bool = xor reg.memory.byterev host_little in
    let half : ℕ = if swapped then bswap_le16 little (load 2) else bswap_be16 little (load 2) in
    let word : ℕ = if swapped then bswap_le32 little (load 4) else bswap_be32 little (load 4) in
    let double : ℕ = if swapped then bswap_le64 little (load 8) else bswap_be64 little (load 8) in
    if reg.memory.size == 1
    then some (if reg.memory.is_signed then u32 (u64_of (signed 8 (load 1))) else load 1)
    else if reg.memory.size == 2
    then some (if reg.memory.is_signed then u32 (u64_of (signed 16 half)) else half)
    else elim reg.type [
      | DataType.int32 ↦ some word
      | DataType.float32 ↦ some word
      | DataType.int64 ↦ some double
      | DataType.address ↦ some double
      | DataType.float64 ↦ some double
      | _ ↦ none
    ]

unfoldable pub fold_readonly_load : Bool → Bool → (ℕ → ℕ) → RtlUnit → ℕ → RtlUnit
fold_readonly_load little host_little load u r =
    let reg : Register = reg_at u r in
    elim (load_value little host_little load reg) [
      | none ↦ u
      | some value ↦
          roll_back true reg.birth
            (update_insn (update_reg u r (set_constant value)) reg.birth
              (λ insn. set_src_imm value (record insn { opcode = Opcode.load_imm; src1 = 0 })))
            reg.memory.base
    ]

abbrev pub set_nofold : Register → Register
set_nofold reg = record reg { source = RegType.result_nofold }

module _ (fp : Fp) (little : Bool) (load : ℕ → ℕ → ℕ) (h : Handle)
    (fold_constants fold_fp_constants fold_vectors : Bool) where
  -- Register r, which an instruction sets.
  unfoldable pub fold_register : RtlUnit → ℕ → Option RtlUnit
  fold_register u r = elim (reg_at u r).source [
    | RegType.result ↦
        let marked : RtlUnit = update_reg u r set_nofold in
        let vectors : RtlUnit = if fold_vectors then fold_one_reg_vector marked r else marked in
        if fold_constants
        then fold_one_reg_constant fp fold_fp_constants vectors r
        else some vectors
    | RegType.memory ↦
        if not fold_constants
        then some u
        else get_readonly_ptr h u r >>= (λ ptr. elim ptr [
          | none ↦ some u
          | some addr ↦ some (fold_readonly_load little h.host_little_endian (λ n. load n addr) u r)
        ])
    | _ ↦ some u
  ]

  -- The `count` instructions from `insn_index` on.
  unfoldable pub fold_insns : ℕ → RtlUnit → ℕ → Option RtlUnit
  fold_insns zero u insn_index = some u
  fold_insns (suc count) u insn_index =
      let dest : ℕ = (insn_at u insn_index).dest in
      (if dest == 0 then some u else fold_register u dest)
      >>= (λ u'. fold_insns count u' (insn_index + 1))

  unfoldable pub rtl_opt_fold_registers : RtlUnit → Option RtlUnit
  rtl_opt_fold_registers u = fold_insns (length u.insns) u 0
