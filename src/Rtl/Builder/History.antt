-- ===== src/Rtl/Builder/History.antt =====
-- The units that calls of src/rtl.c build, in any order, and what the passes of src/rtl-opt.c find there.
use native.Mathlib.Decide.{dec_lt}
use libbinrec.Common.{
  sym, ◌∙◌, if◌then◌else◌, ℕ, zero, suc, ◌<◌, ◌≤◌, ◌≡◌, refl, ap, subst, Bool, true, false,
  Bool-cases, true_and_false, inl, inr, length, get_or-past, Option, some, none, ℤ, arith,
}
use libbinrec.Rtl.Opcode.{DataType, Opcode, opcode_has_src3, opcode_has_alias}
use libbinrec.Rtl.Unit.{RtlUnit}
use libbinrec.Rtl.Unit.Access.{insn_at, alias_base, blank_insn, blank_register, blank_alias}
use libbinrec.Rtl.Insn.{is_defined}
use libbinrec.Rtl.Opt.Live.{uses_reg, killed_src1, killed_src2, killed_src3}
use libbinrec.Rtl.Opt.Live.Range.{birth, death, uses, Ranges, OperandsOk}
use libbinrec.Rtl.Opt.Kill.Enough.{Early}
use libbinrec.Rtl.Builder.{
  rtl_create_unit, add_register, rtl_alloc_register, rtl_alloc_alias_register, rtl_alloc_label,
  rtl_make_unfoldable, rtl_make_unspillable, rtl_make_unique_pointer, rtl_set_alias_storage,
  rtl_set_membase_pointer,
}
use libbinrec.Rtl.Builder.Add.{Supply, rtl_add_insn}
use libbinrec.Rtl.Builder.Sound.{live, Sound}
use libbinrec.Rtl.Builder.Encoders.All.{Args}
use libbinrec.Rtl.Builder.Insns.{Outcome, rtl_add_insn-Outcome}
use libbinrec.Rtl.Builder.Ready.{Ready}
use libbinrec.Rtl.Builder.Allocate.{
  Unnamed, add_register-Ready, rtl_alloc_alias_register-Ready, rtl_alloc_label-Ready,
  rtl_make_unfoldable-Ready, rtl_make_unspillable-Ready, rtl_make_unique_pointer-Ready,
  rtl_set_alias_storage-Ready, rtl_set_membase_pointer-Ready,
}

-- A unit on its way: created, and then changed by calls, in a library with operand checks, until one
-- of rtl_add_insn() returns false. The new instruction, register and alias slots are zero, a BFEXT has no
-- second source, and the base that an alias is given is a register that is set already, before the first
-- instruction that names the alias.
pub data Building : RtlUnit → Type 0 where
  created : Building rtl_create_unit
  add_insn :
      (supply : Supply) (op : Opcode) (dest src1 src2 other : ℕ) {u u' : RtlUnit}
      → supply.insn ≡ blank_insn
      → Building u
      → length u.blocks < 65534
      → Args u op dest src1 src2 other
      → rtl_add_insn true supply u op dest src1 src2 other ≡ some (true, u')
      → Building u'
  alloc_register :
      (memory : Bool) (type : DataType) {u u' : RtlUnit} {reg : ℕ}
      → Building u
      → rtl_alloc_register memory blank_register u type ≡ some (reg, u')
      → Building u'
  alloc_alias_register :
      (memory : Bool) (type : DataType) {u : RtlUnit}
      → Building u
      → Building (rtl_alloc_alias_register memory blank_alias u type).1
  alloc_label :
      (memory : Bool) (slot : ℤ) {u : RtlUnit}
      → Building u
      → Building (rtl_alloc_label memory slot u).1
  make_unfoldable : (reg : ℕ) {u : RtlUnit} → Building u → Building (rtl_make_unfoldable u reg)
  make_unspillable : (reg : ℕ) {u : RtlUnit} → Building u → Building (rtl_make_unspillable u reg)
  make_unique_pointer :
      (reg : ℕ) {u : RtlUnit} → Building u → Building (rtl_make_unique_pointer u reg)
  set_alias_storage :
      (alias base : ℕ) (offset : ℤ) {u : RtlUnit}
      → Building u
      → Unnamed u alias
      → is_defined u base ≡ true
      → Building (rtl_set_alias_storage u alias base offset)
  set_membase_pointer :
      (reg : ℕ) {u : RtlUnit} → Building u → Building (rtl_set_membase_pointer u reg)

added_Ready :
    (u u' : RtlUnit) {o : Option (Bool × RtlUnit)}
    → Ready u
    → Outcome u o
    → o ≡ some (true, u')
    → Ready u'
added_Ready u u' y (Outcome.erroneous v h) e = cc
added_Ready u u' y (Outcome.appended v n regs aliases sizes s o) e =
    subst Ready (ap (λ x. elim x [ some p ↦ p.1 | none ↦ v ]) e) (record {
      sound = s;
      open_block = o;
      regs_room = (omega (arith, y.regs_room, regs, sizes), omega (arith, y.regs_room, sizes));
      aliases_room =
          (omega (arith, y.aliases_room, aliases, sizes), omega (arith, y.aliases_room, sizes));
    })

created_Ready : Ready rtl_create_unit
created_Ready = record {
  sound = record {
    timed = λ r p l. absurd (dead r l);
    idle = λ r p l. still r;
    defined_live = λ r p d. absurd (undefined r d);
    live_defined = λ r p l. absurd (dead r l);
    setter = λ r p l. absurd (dead r l);
    used = λ j r l p e. absurd (omega (arith, l));
    ends = λ r p l lt. absurd (dead r l);
    operands = λ j l. absurd (omega (arith, l));
    bases = λ a p. absurd (omega (arith, no_base a, p));
    base_lt = λ a. omega (arith, no_base a);
    some_reg = omega arith;
    regs_lt = omega arith;
    aliases_lt = omega arith;
  };
  open_block = λ h. cc;
  regs_room = (omega arith, omega arith);
  aliases_room = (omega arith, omega arith);
}
  where
    dead : (r : ℕ) → live rtl_create_unit r ≡ true → ⊥
    dead zero h = cc
    dead (suc r) h = cc

    still : (r : ℕ) → birth rtl_create_unit r ≡ death rtl_create_unit r
    still zero = refl
    still (suc r) = refl

    undefined : (r : ℕ) → is_defined rtl_create_unit r ≡ true → ⊥
    undefined zero h = cc
    undefined (suc r) h = cc

    no_base : (a : ℕ) → alias_base rtl_create_unit a ≡ 0
    no_base zero = refl
    no_base (suc a) = refl

allocated_Ready :
    (memory : Bool) (type : DataType) (u u' : RtlUnit) (reg : ℕ)
    → Ready u
    → rtl_alloc_register memory blank_register u type ≡ some (reg, u')
    → Ready u'
unfolding rtl_alloc_register
allocated_Ready memory type u u' reg y e = elim (Bool-cases u.finalized) [
  | inl f ↦ absurd (no_result (sym (ap (λ (b : Bool). if b then none else some result) f) ∙ e))
  | inr f ↦
      subst Ready
        (ap (λ o. elim o [ some p ↦ p.1 | none ↦ u ])
          (sym (ap (λ (b : Bool). if b then none else some result) f) ∙ e))
        (add_register-Ready u y memory type)
]
  where
    result : ℕ × RtlUnit
    result = add_register memory blank_register u type

    no_result : ◌≡◌ {A = Option (ℕ × RtlUnit)} none (some (reg, u')) → ⊥
    no_result h = cc

pub Building-Ready : (u : RtlUnit) → Building u → Ready u
Building-Ready _ created = created_Ready
Building-Ready _ (add_insn supply op dest src1 src2 other {u} {u'} blank b few args e) =
    let y = Building-Ready u b in
    added_Ready u u' y
      (rtl_add_insn-Outcome supply blank op dest src1 src2 other u y.sound y.open_block few args) e
Building-Ready u' (alloc_register memory type {u} {reg = reg} b e) =
    allocated_Ready memory type u u' reg (Building-Ready u b) e
Building-Ready _ (alloc_alias_register memory type {u} b) =
    rtl_alloc_alias_register-Ready u (Building-Ready u b) memory type
Building-Ready _ (alloc_label memory slot {u} b) =
    rtl_alloc_label-Ready u (Building-Ready u b) memory slot
Building-Ready _ (make_unfoldable reg {u} b) = rtl_make_unfoldable-Ready u (Building-Ready u b) reg
Building-Ready _ (make_unspillable reg {u} b) =
    rtl_make_unspillable-Ready u (Building-Ready u b) reg
Building-Ready _ (make_unique_pointer reg {u} b) =
    rtl_make_unique_pointer-Ready u (Building-Ready u b) reg
Building-Ready _ (set_alias_storage alias base offset {u} b unnamed defined) =
    rtl_set_alias_storage-Ready u alias base offset (Building-Ready u b) unnamed defined
Building-Ready _ (set_membase_pointer reg {u} b) =
    rtl_set_membase_pointer-Ready u (Building-Ready u b) reg

module _ (u : RtlUnit) (s : Sound u) where
  past_uses : (j r : ℕ) → length u.insns ≤ j → 0 < r → uses u j r ≡ false
  unfolding uses_reg opcode_has_src3 opcode_has_alias
  past_uses j r l p = rw (get_or-past u.insns j blank_insn l) (ground (arith, p))

  pub Sound-Early : Early u
  Sound-Early j r p e = elim (dec_lt j (length u.insns)) [
    | yes l ↦ (s.used j r l p e).1
    | no ge ↦ absurd (true_and_false e (past_uses j r (omega (arith, ge)) p))
  ]

  past_operands : (j : ℕ) → length u.insns ≤ j → OperandsOk u (insn_at u j)
  unfolding killed_src1 killed_src2 killed_src3 opcode_has_src3
  past_operands j l = rw (get_or-past u.insns j blank_insn l) (record {
    src1_lt = s.some_reg;
    src2_lt = s.some_reg;
    src3_lt = s.some_reg;
    get_src1 = λ e. refl;
    set_src2 = λ e. refl;
  })

  -- The live ranges that the passes find.
  pub Sound-Ranges : Ranges (λ j. ⊥) u
  Sound-Ranges = record {
    operands = λ j. elim (dec_lt j (length u.insns)) [
      | yes l ↦ s.operands j l
      | no ge ↦ past_operands j (omega (arith, ge))
    ];
    order = λ r p l. elim (Bool-cases (live u r)) [
      | inl a ↦ (s.timed r p a).0
      | inr d ↦ omega (arith, s.idle r p d)
    ];
    bounded = λ r j p l lt e. elim (dec_lt j (length u.insns)) [
      | yes lj ↦ (s.used j r lj p e).2
      | no ge ↦ absurd (true_and_false e (past_uses j r (omega (arith, ge)) p))
    ];
    ends = λ r p l lt. elim (Bool-cases (live u r)) [
      | inl a ↦ inl (s.ends r p a lt)
      | inr d ↦ absurd (omega (arith, s.idle r p d, lt))
    ];
    dead = λ j r g p. absurd g;
  }
