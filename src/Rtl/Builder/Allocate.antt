-- ===== src/Rtl/Builder/Allocate.antt =====
-- The calls of src/rtl.c that allocate registers, aliases and labels and set attributes.
use native.Mathlib.Decide.{ℕ_discrete}
use libbinrec.Common.{
  ℕ, ◌<◌, ◌≡◌, ◌≢◌, refl, sym, ◌∙◌, ap, not, ◌||◌, ◌==◌, leb, Bool, true, false, length,
  length-modify, get_or-modify_keep, get_or-modify_self, get_or-modify_ne, modify, Option, some,
  none, ℤ, arith,
}
use libbinrec.Rtl.Opcode.{DataType, is_undefined, opcode_has_alias}
use libbinrec.Rtl.Unit.{Alias, RtlUnit}
use libbinrec.Rtl.Unit.Access.{insn_at, reg_at, alias_base, blank_register, blank_alias, update_reg}
use libbinrec.Rtl.Insn.{is_defined}
use libbinrec.Rtl.Builder.{
  grown, regs_expand_size, aliases_expand_size, labels_expand_size, is_invalid, is_address,
  set_nofold, set_unspillable, add_register, rtl_alloc_alias_register, rtl_alloc_label,
  rtl_make_unfoldable, rtl_make_unspillable, rtl_make_unique_pointer, rtl_set_alias_storage,
  rtl_set_membase_pointer,
}
use libbinrec.Rtl.Builder.Sound.{Sound}
use libbinrec.Rtl.Builder.Insns.{same-Sound, either}
use libbinrec.Rtl.Builder.Alike.{Alike-Sound}
use libbinrec.Rtl.Builder.Ready.{
  Ready, grown-Room, reopen, new_register, new_alias, new_attributes, error-Ready, nofold_defined,
}

-- No instruction names the alias yet.
abbrev pub Unnamed : RtlUnit → ℕ → Type 0
Unnamed u alias =
    (j : ℕ)
    → j < length u.insns
    → opcode_has_alias (insn_at u j).opcode ≡ true
    → (insn_at u j).alias ≢ alias

-- An allocation fails, or gives a new element.
pub growth_cases {κ} :
    (P : ℕ × RtlUnit → Type κ) (o : Option ℕ) {x : ℕ × RtlUnit} {f : ℕ → ℕ × RtlUnit}
    → (o ≡ none → P x)
    → ((size : ℕ) → o ≡ some size → P (f size))
    → P (elim o [ none ↦ x | some size ↦ f size ])
growth_cases P none l r = l refl
growth_cases P (some size) l r = r size refl

module _ (u : RtlUnit) (y : Ready u) where
  abbrev s : Sound u
  s = y.sound

  pub add_register-Ready :
      (memory : Bool) (type : DataType) → Ready (add_register memory blank_register u type).1
  unfolding add_register
  add_register-Ready memory type =
      growth_cases (λ r. Ready r.1) (grown memory regs_expand_size (length u.regs) u.regs_size)
        (λ e. error-Ready u y)
        (λ size e. new_register u y size type (
          grown-Room memory regs_expand_size (length u.regs) u.regs_size size (omega arith)
            (omega arith) y.regs_room e))

  pub rtl_alloc_alias_register-Ready :
      (memory : Bool) (type : DataType)
      → Ready (rtl_alloc_alias_register memory blank_alias u type).1
  unfolding rtl_alloc_alias_register
  rtl_alloc_alias_register-Ready memory type =
      growth_cases (λ r. Ready r.1)
        (grown memory aliases_expand_size (length u.aliases) u.aliases_size) (λ e. error-Ready u y)
        (λ size e. new_alias u y size type (
          grown-Room memory aliases_expand_size (length u.aliases) u.aliases_size size (omega arith)
            (omega arith) y.aliases_room e))

  pub rtl_alloc_label-Ready : (memory : Bool) (slot : ℤ) → Ready (rtl_alloc_label memory slot u).1
  unfolding rtl_alloc_label
  rtl_alloc_label-Ready memory slot =
      growth_cases (λ r. Ready r.1)
        (grown memory labels_expand_size (length u.label_blockmap) u.labels_size)
        (λ e. error-Ready u y)
        (λ size e. record {
          sound = same-Sound u _ refl refl refl s;
          open_block = reopen u _ refl refl refl y.open_block;
          regs_room = y.regs_room;
          aliases_room = y.aliases_room;
        })

  set_nofold-Ready : (r : ℕ) → Ready (update_reg u r set_nofold)
  set_nofold-Ready r =
      new_attributes u y r set_nofold (λ x. refl) (λ x. refl) (λ x. refl)
        (λ x. nofold_defined x.source)

  pub rtl_make_unfoldable-Ready : (r : ℕ) → Ready (rtl_make_unfoldable u r)
  unfolding rtl_make_unfoldable
  rtl_make_unfoldable-Ready r = either Ready (is_invalid u r) (λ e. y) (λ e. set_nofold-Ready r)

  pub rtl_make_unspillable-Ready : (r : ℕ) → Ready (rtl_make_unspillable u r)
  unfolding rtl_make_unspillable
  rtl_make_unspillable-Ready r =
      either Ready (is_invalid u r) (λ e. y)
        (λ e. new_attributes u y r set_unspillable (λ x. refl) (λ x. refl) (λ x. refl) (λ x. refl))

  pub rtl_make_unique_pointer-Ready : (r : ℕ) → Ready (rtl_make_unique_pointer u r)
  unfolding rtl_make_unique_pointer
  rtl_make_unique_pointer-Ready r =
      either Ready (is_invalid u r || not (is_address u r)) (λ e. y)
        (λ e.
          new_attributes u y r (λ x. record x { unique_pointer = r }) (λ x. refl) (λ x. refl)
            (λ x. refl) (λ x. refl))

  pub rtl_set_membase_pointer-Ready : (r : ℕ) → Ready (rtl_set_membase_pointer u r)
  unfolding rtl_set_membase_pointer
  rtl_set_membase_pointer-Ready r =
      either Ready (is_invalid u r || not (is_address u r) || is_undefined (reg_at u r).source)
        (λ e. y)
        (λ e.
          let z = set_nofold-Ready r in
          record {
            sound = same-Sound (update_reg u r set_nofold) _ refl refl refl z.sound;
            open_block = reopen (update_reg u r set_nofold) _ refl refl refl z.open_block;
            regs_room = z.regs_room;
            aliases_room = z.aliases_room;
          })

  module _ (alias base : ℕ) (offset : ℤ) (unnamed : Unnamed u alias)
      (defined : is_defined u base ≡ true) where
    abbrev store_at : Alias → Alias
    store_at a = record a { base = base; offset = offset }

    abbrev stored : RtlUnit
    stored = record u { aliases = modify u.aliases alias store_at }

    other_base : (a : ℕ) → alias ≢ a → alias_base stored a ≡ alias_base u a
    other_base a ne = ap (λ x. x.base) (get_or-modify_ne u.aliases alias a store_at blank_alias ne)

    new_base : alias < length u.aliases → alias_base stored alias ≡ base
    new_base l = ap (λ x. x.base) (get_or-modify_self u.aliases alias store_at blank_alias l)

    stored-Ready : alias < length u.aliases → base < length u.regs → Ready stored
    stored-Ready la lb =
        let len = length-modify u.aliases alias store_at in
        record {
          sound =
              Alike-Sound u stored
                (record {
                  insns = refl;
                  live_eq = λ r. refl;
                  births = λ r. refl;
                  deaths = λ r. refl;
                  defined = λ r. refl;
                  regs_le = omega arith;
                  regs_lt = s.regs_lt;
                  aliases_lt = omega (arith, len, s.aliases_lt);
                  named = λ j l e. other_base (insn_at u j).alias (λ q. unnamed j l e (sym q));
                  bases = λ a p. elim (ℕ_discrete alias a) [
                    | yes e ↦
                        ap (λ k. is_defined u (alias_base stored k)) (sym e)
                        ∙ ap (λ b. is_defined u b) (new_base la)
                        ∙ defined
                    | no ne ↦
                        ap (λ b. is_defined u b) (other_base a ne)
                        ∙ s.bases a (omega (arith, other_base a ne, p))
                  ];
                  base_lt = λ a. elim (ℕ_discrete alias a) [
                    | yes e ↦ omega (arith, lb, ap (λ k. alias_base stored k) (sym e) ∙ new_base la)
                    | no ne ↦ omega (arith, other_base a ne, s.base_lt a)
                  ];
                })
                s;
          open_block = reopen u _ refl refl refl y.open_block;
          regs_room = y.regs_room;
          aliases_room = (omega (arith, len, y.aliases_room), omega (arith, y.aliases_room));
        }

-- Storage is bound to an alias before instructions name it, and its base has been set.
pub rtl_set_alias_storage-Ready :
    (u : RtlUnit) (alias base : ℕ) (offset : ℤ)
    → Ready u
    → Unnamed u alias
    → is_defined u base ≡ true
    → Ready (rtl_set_alias_storage u alias base offset)
unfolding rtl_set_alias_storage
rtl_set_alias_storage-Ready u alias base offset y unnamed defined =
    let w : RtlUnit = update_reg u base set_unspillable in
    either Ready
      (alias == 0 || leb (length u.aliases) alias || is_invalid u base || not (is_address u base))
      (λ e. y)
      (λ e.
        let (la, lb) =
          in_range alias (length u.aliases) base (length u.regs) (is_address u base) e in
        stored-Ready w
          (new_attributes u y base set_unspillable (λ x. refl) (λ x. refl) (λ x. refl) (λ x. refl))
          alias base offset unnamed
          (get_or-modify_keep (λ x. not (is_undefined x.source)) u.regs base base set_unspillable
              blank_register (λ x. refl)
            ∙ defined)
          la (omega (arith, lb, length-modify u.regs base set_unspillable)))
  where
    in_range :
        (a n r m : ℕ) (t : Bool)
        → (a == 0 || leb n a || (r == 0 || leb m r) || not t) ≡ false
        → (a < n) × (r < m)
    in_range a n r m t e = ground arith
