-- ===== src/Rtl/Builder/Insns.antt =====
-- rtl_add_insn() of src/rtl.c on a unit whose invariant holds.
use libbinrec.Common.{
  ℕ, suc, ◌+◌, ◌-◌, ◌<◌, ◌≡◌, refl, sym, ◌∙◌, ap, subst, Bool, true, false, if◌then◌else◌, inl, inr,
  List, [], ◌∷◌, ◌++◌, length, length-append, leb, Option, some, pos, arith,
}
use libbinrec.Rtl.Opcode.{Opcode}
use libbinrec.Rtl.Unit.{Insn, Register, Alias, BasicBlock, RtlUnit}
use libbinrec.Rtl.Unit.Access.{blank_insn}
use libbinrec.Rtl.Block.{update_block, block_add}
use libbinrec.Rtl.Block.Graph.{exits_at}
use libbinrec.Rtl.Block.Slots.{length-update, field_at-update_keep}
use libbinrec.Rtl.Insn.Effect.{Setting-Kept, length-mark_all}
use libbinrec.Rtl.Insn.Flow.{Made}
use libbinrec.Rtl.Insn.Table.{makefunc_table, rtl_insn_make}
use libbinrec.Rtl.Opt.Live.{uses_reg, killed_src1, killed_src2}
use libbinrec.Rtl.Builder.{insns_expand_size}
use libbinrec.Rtl.Builder.Add.{
  Supply, append_made, fill_in_insn, rtl_add_insn_with_new_block, add_in_block,
  rtl_add_insn_with_extend, rtl_add_insn,
}
use libbinrec.Rtl.Builder.Sound.{Sound}
use libbinrec.Rtl.Builder.Append.{append-Sound}
use libbinrec.Rtl.Builder.Split.{Current, block_add-Begun}
use libbinrec.Rtl.Builder.Effect.{Effect, SameSizes}
use libbinrec.Rtl.Builder.Encoders.All.{Args, makefunc_table-Effect}

-- The invariant is one of the instructions, registers and aliases.
abbrev with_code : RtlUnit → List Insn → List Register → List Alias → RtlUnit
with_code u insns regs aliases = record u { insns = insns; regs = regs; aliases = aliases }

with_code-Sound : (u w : RtlUnit) → Sound u → Sound (with_code w u.insns u.regs u.aliases)
unfolding uses_reg killed_src1 killed_src2
with_code-Sound u w s = record {
  timed = s.timed;
  idle = s.idle;
  defined_live = s.defined_live;
  live_defined = s.live_defined;
  setter = s.setter;
  used = s.used;
  ends = s.ends;
  operands = λ j l.
      let ok = s.operands j l in
      record {
        src1_lt = ok.src1_lt;
        src2_lt = ok.src2_lt;
        src3_lt = ok.src3_lt;
        get_src1 = ok.get_src1;
        set_src2 = ok.set_src2;
      };
  bases = s.bases;
  base_lt = s.base_lt;
  some_reg = s.some_reg;
  regs_lt = s.regs_lt;
  aliases_lt = s.aliases_lt;
}

pub same-Sound :
    (u u' : RtlUnit)
    → u'.insns ≡ u.insns
    → u'.regs ≡ u.regs
    → u'.aliases ≡ u.aliases
    → Sound u
    → Sound u'
same-Sound u u' ei er ea s =
    subst (λ a. Sound (with_code u' u'.insns u'.regs a)) (sym ea)
      (subst (λ r. Sound (with_code u' u'.insns r u.aliases)) (sym er)
        (subst (λ i. Sound (with_code u' i u.regs u.aliases)) (sym ei) (with_code-Sound u u' s)))

-- The current block, where there is one, is fit to be continued.
abbrev pub Open : RtlUnit → Type 0
Open u = u.have_block ≡ true → Current u

-- What rtl_add_insn() comes to: an error, or one more instruction.
pub data Outcome (u : RtlUnit) : Option (Bool × RtlUnit) → Type 0 where
  erroneous : (u' : RtlUnit) → u'.error ≡ true → Outcome u (some (false, u'))
  appended :
      (u' : RtlUnit)
      → length u'.insns ≡ suc (length u.insns)
      → length u'.regs ≡ length u.regs
      → length u'.aliases ≡ length u.aliases
      → SameSizes u u'
      → Sound u'
      → Open u'
      → Outcome u (some (true, u'))

pub either {ℓ κ} :
    {A : Type ℓ} (P : A → Type κ) (b : Bool) {x y : A}
    → (b ≡ true → P x)
    → (b ≡ false → P y)
    → P (if b then x else y)
either P true l r = l refl
either P false l r = r refl

-- What the outcome is told by.
record SameArrays (u w : RtlUnit) : Type 0 where
  pub insns : w.insns ≡ u.insns
  pub regs : w.regs ≡ u.regs
  pub aliases : w.aliases ≡ u.aliases
  pub regs_size : w.regs_size ≡ u.regs_size
  pub aliases_size : w.aliases_size ≡ u.aliases_size

Outcome-same :
    (u w : RtlUnit) (o : Option (Bool × RtlUnit)) → SameArrays u w → Outcome w o → Outcome u o
Outcome-same u w _ same (Outcome.erroneous u' h) = Outcome.erroneous u' h
Outcome-same u w _ same (Outcome.appended u' l lr la z s o) =
    Outcome.appended u' (l ∙ ap suc (ap length same.insns)) (lr ∙ ap length same.regs)
      (la ∙ ap length same.aliases) (z.0 ∙ same.regs_size, z.1 ∙ same.aliases_size) s o

Args-same :
    {op : Opcode} {dest src1 src2 other : ℕ} (u w : RtlUnit)
    → w.regs ≡ u.regs
    → w.aliases ≡ u.aliases
    → w.label_blockmap ≡ u.label_blockmap
    → w.insns ≡ u.insns
    → Args u op dest src1 src2 other
    → Args w op dest src1 src2 other
Args-same u w er ea el ei a = record {
  regs =
      let l = ap length er in
      (omega (arith, l, a.regs), omega (arith, l, a.regs), omega (arith, l, a.regs));
  src3_lt = λ h. omega (arith, ap length er, a.src3_lt h);
  alias_lt = λ h. omega (arith, ap length ea, a.alias_lt h);
  one_source = a.one_source;
  label_lt = λ h. omega (arith, ap length el, a.label_lt h);
  insn_lt = λ h. omega (arith, ap length ei, a.insn_lt h);
}

append-Outcome :
    (u : RtlUnit) (m : Made)
    → u.have_block ≡ true
    → Sound u
    → Current u
    → Effect true u m
    → Outcome u (append_made u m)
unfolding append_made
append-Outcome u _ h s c (Effect.refused _) = Outcome.erroneous _ refl
append-Outcome u _ h s c (Effect.failed u') = Outcome.erroneous _ refl
append-Outcome u _ h s c (Effect.made u' set dest rs insn ei er ea sizes setting good cur) =
    Outcome.appended (record u' { insns = u'.insns ++ insn ∷ [] })
      (omega (arith, length-append u'.insns (insn ∷ []), ap length ei))
      (ap length er
        ∙ length-mark_all (length u.insns) set rs
        ∙ (Setting-Kept u set dest setting).size)
      (ap length ea) sizes
      (same-Sound _ _ (ap (λ xs. xs ++ insn ∷ []) ei) er ea
        (append-Sound u set dest rs insn (Setting-Kept u set dest setting) s (good refl)))
      (λ h'. let c' = cur c h' in record { cur_lt = c'.cur_lt; no_exit = c'.no_exit })

module _ (supply : Supply) (blank : supply.insn ≡ blank_insn) (op : Opcode)
    (dest src1 src2 other : ℕ) where
  fill_in-Outcome :
      (u : RtlUnit)
      → u.have_block ≡ true
      → Sound u
      → Current u
      → length u.blocks < 65535
      → Args u op dest src1 src2 other
      → Outcome u (fill_in_insn true supply u op dest src1 src2 other)
  unfolding fill_in_insn rtl_insn_make
  fill_in-Outcome u h s c few a = append-Outcome u _ h s c (
      subst
        (λ slot. Effect true u (
          makefunc_table op true supply.grow_next supply.next u (record slot { opcode = op }) dest
            src1 src2 other))
        (sym blank)
        (makefunc_table-Effect true supply.grow_next supply.next u s c few dest src1 src2 other op
          a))

  new_block-Outcome :
      (u : RtlUnit)
      → Sound u
      → length u.blocks < 65534
      → Args u op dest src1 src2 other
      → Outcome u (rtl_add_insn_with_new_block true supply u op dest src1 src2 other)
  unfolding rtl_add_insn_with_new_block
  new_block-Outcome u s few a =
      elim (block_add-Begun supply.grow_blocks supply.block u (omega (arith, few))) [
        | inl short ↦ rw short (Outcome.erroneous _ refl)
        | inr (ok, b) ↦
            let v : RtlUnit = (block_add supply.grow_blocks supply.block u).1 in
            let f : BasicBlock → BasicBlock = λ x. record x { first_insn = pos (length v.insns) } in
            let new : ℕ = length v.blocks - 1 in
            let w : RtlUnit = record v {
              have_block = true;
              cur_block = new;
              blocks = update_block v.blocks new f;
            } in
            rw ok (
              Outcome-same u w _
                (record {
                  insns = b.same.insns;
                  regs = b.same.regs;
                  aliases = b.same.aliases;
                  regs_size = b.same.regs_size;
                  aliases_size = b.same.aliases_size;
                })
                (fill_in-Outcome w refl (same-Sound u w b.same.insns b.same.regs b.same.aliases s)
                  (record {
                    cur_lt = omega (arith, b.size, length-update v.blocks new f);
                    no_exit =
                        field_at-update_keep (λ x. x.exits) [] v.blocks new new f (λ x. refl)
                        ∙ ap (λ k. exits_at v.blocks k) (omega (arith, b.size))
                        ∙ b.new_exits;
                  })
                  (omega (arith, b.size, length-update v.blocks new f, few))
                  (Args-same u w b.same.regs b.same.aliases b.same.labels b.same.insns a)))
      ]

  in_block-Outcome :
      (u : RtlUnit)
      → Sound u
      → Open u
      → length u.blocks < 65534
      → Args u op dest src1 src2 other
      → Outcome u (add_in_block true supply u op dest src1 src2 other)
  unfolding add_in_block
  in_block-Outcome u s o few a =
      either (Outcome u) u.have_block (λ h. fill_in-Outcome u h s (o h) (omega (arith, few)) a)
        (λ h. new_block-Outcome u s few a)

  -- With operand checks, a zero slot for the instruction and fewer than 65534 blocks, rtl_add_insn() on
  -- registers, aliases, labels and CHAIN instructions of the unit, and no second source for a BFEXT,
  -- always returns: false with the error flag set, or true with one more instruction in a unit whose
  -- invariant still holds.
  pub rtl_add_insn-Outcome :
      (u : RtlUnit)
      → Sound u
      → Open u
      → length u.blocks < 65534
      → Args u op dest src1 src2 other
      → Outcome u (rtl_add_insn true supply u op dest src1 src2 other)
  unfolding rtl_add_insn rtl_add_insn_with_extend
  rtl_add_insn-Outcome u s o few a =
      either (Outcome u) (leb u.insns_size (length u.insns))
        (λ full.
          either (Outcome u) supply.grow_insns
            (λ enough.
              let w : RtlUnit = record u { insns_size = length u.insns + insns_expand_size } in
              Outcome-same u w _
                (record {
                  insns = refl;
                  regs = refl;
                  aliases = refl;
                  regs_size = refl;
                  aliases_size = refl;
                })
                (in_block-Outcome w (same-Sound u w refl refl refl s)
                  (λ h. let c = o h in record { cur_lt = c.cur_lt; no_exit = c.no_exit }) few
                  (Args-same u w refl refl refl refl a)))
            (λ short. Outcome.erroneous _ refl))
        (λ room. in_block-Outcome u s o few a)
