-- ===== src/Rtl/Builder/Ready.antt =====
-- The invariant of a unit between two calls of src/rtl.c, and the calls that allocate and set attributes.
use libbinrec.Common.{
  ℕ, zero, suc, ◌+◌, ◌<◌, ◌≤◌, ◌≡◌, refl, sym, ◌∙◌, ap, not, Bool, true, List, [], ◌∷◌, ◌++◌,
  length, length-append, length-modify, get_or, get_or-modify_keep, some, arith,
}
use libbinrec.Rtl.Opcode.{DataType, RegType, is_undefined}
use libbinrec.Rtl.Unit.{Alias, Register, RtlUnit}
use libbinrec.Rtl.Block.Graph.{exits_at}
use libbinrec.Rtl.Unit.Access.{insn_at, alias_base, blank_register, blank_alias, update_reg}
use libbinrec.Rtl.Insn.{is_defined}
use libbinrec.Rtl.Builder.{grown, nofold}
use libbinrec.Rtl.Builder.Sound.{Sound}
use libbinrec.Rtl.Builder.Insns.{Open, same-Sound}
use libbinrec.Rtl.Builder.Alike.{Alike-Sound}

-- An array has room for the elements in use, and does not pass the limit.
abbrev pub Room : ℕ → ℕ → Type 0
Room used size = (used ≤ size) × (size ≤ 65535)

pub record Ready (u : RtlUnit) : Type 0 where
  pub sound : Sound u
  pub open_block : Open u
  pub regs_room : Room (length u.regs) u.regs_size
  pub aliases_room : Room (length u.aliases) u.aliases_size

pub grown-Room :
    (memory : Bool) (expand used size new_size : ℕ)
    → 0 < expand
    → expand < 65535
    → Room used size
    → grown memory expand used size ≡ some new_size
    → Room (used + 1) new_size
unfolding grown
grown-Room memory expand used size new_size p l room e = ground arith

-- A new element that is like what lies past the end of an array.
append_blank {ℓ κ} :
    {A : Type ℓ} {B : Type κ} (p : A → B) (xs : List A) (y d : A) (i : ℕ)
    → p y ≡ p d
    → p (get_or (xs ++ y ∷ []) i d) ≡ p (get_or xs i d)
append_blank p [] y d zero e = e
append_blank p [] y d (suc i) e = refl
append_blank p (x ∷ xs) y d zero e = refl
append_blank p (x ∷ xs) y d (suc i) e = append_blank p xs y d i e

pub reopen :
    (u u' : RtlUnit)
    → u'.have_block ≡ u.have_block
    → u'.cur_block ≡ u.cur_block
    → u'.blocks ≡ u.blocks
    → Open u
    → Open u'
reopen u u' eh ec eb o h =
    let c = o (sym eh ∙ h) in
    record {
      cur_lt = omega (arith, c.cur_lt, ec, ap length eb);
      no_exit =
          ap (λ k. exits_at u'.blocks k) ec ∙ ap (λ bs. exits_at bs u.cur_block) eb ∙ c.no_exit;
    }

pub nofold_defined : (source : RegType) → is_undefined (nofold source) ≡ is_undefined source
nofold_defined RegType.constant = refl
nofold_defined RegType.result = refl
nofold_defined _ = refl

module _ (u : RtlUnit) (y : Ready u) where
  abbrev s : Sound u
  s = y.sound

  -- With another element at the end of the register array.
  pub new_register :
      (size : ℕ) (type : DataType)
      → Room (length u.regs + 1) size
      → Ready (record u {
        regs = u.regs ++ record blank_register { type = type } ∷ [];
        regs_size = size;
      })
  new_register size type room =
      let reg : Register = record blank_register { type = type } in
      let n : ℕ = length u.regs in
      let len : length (u.regs ++ reg ∷ []) ≡ n + 1 = length-append u.regs (reg ∷ []) in
      record {
        sound =
            Alike-Sound u (record u { regs = u.regs ++ reg ∷ []; regs_size = size })
              (record {
                insns = refl;
                live_eq = λ r. append_blank (λ x. x.live) u.regs reg blank_register r refl;
                births = λ r. append_blank (λ x. x.birth) u.regs reg blank_register r refl;
                deaths = λ r. append_blank (λ x. x.death) u.regs reg blank_register r refl;
                defined = λ r.
                    append_blank (λ x. not (is_undefined x.source)) u.regs reg blank_register r
                      refl;
                regs_le = omega (arith, len);
                regs_lt = omega (arith, len, room);
                aliases_lt = s.aliases_lt;
                named = λ j l e. refl;
                bases = s.bases;
                base_lt = s.base_lt;
              })
              s;
        open_block = reopen u _ refl refl refl y.open_block;
        regs_room = (omega (arith, len, room), omega (arith, room));
        aliases_room = y.aliases_room;
      }

  pub new_alias :
      (size : ℕ) (type : DataType)
      → Room (length u.aliases + 1) size
      → Ready (record u {
        aliases = u.aliases ++ record blank_alias { type = type } ∷ [];
        aliases_size = size;
      })
  new_alias size type room =
      let alias : Alias = record blank_alias { type = type } in
      let len : length (u.aliases ++ alias ∷ []) ≡ length u.aliases + 1 =
        length-append u.aliases (alias ∷ []) in
      let w : RtlUnit = record u { aliases = u.aliases ++ alias ∷ []; aliases_size = size } in
      let base : (a : ℕ) → alias_base w a ≡ alias_base u a =
        λ a. append_blank (λ x. x.base) u.aliases alias blank_alias a refl in
      record {
        sound =
            Alike-Sound u w
              (record {
                insns = refl;
                live_eq = λ r. refl;
                births = λ r. refl;
                deaths = λ r. refl;
                defined = λ r. refl;
                regs_le = omega arith;
                regs_lt = s.regs_lt;
                aliases_lt = omega (arith, len, room);
                named = λ j l e. base (insn_at u j).alias;
                bases =
                    λ a p. ap (λ b. is_defined u b) (base a) ∙ s.bases a (omega (arith, base a, p));
                base_lt = λ a. omega (arith, base a, s.base_lt a);
              })
              s;
        open_block = reopen u _ refl refl refl y.open_block;
        regs_room = y.regs_room;
        aliases_room = (omega (arith, len, room), omega (arith, room));
      }

  -- With attributes of a register changed.
  pub new_attributes :
      (r : ℕ) (f : Register → Register)
      → ((x : Register) → (f x).live ≡ x.live)
      → ((x : Register) → (f x).birth ≡ x.birth)
      → ((x : Register) → (f x).death ≡ x.death)
      → ((x : Register) → is_undefined (f x).source ≡ is_undefined x.source)
      → Ready (update_reg u r f)
  new_attributes r f live births deaths defined =
      let len = length-modify u.regs r f in
      record {
        sound =
            Alike-Sound u (update_reg u r f)
              (record {
                insns = refl;
                live_eq = λ k. get_or-modify_keep (λ x. x.live) u.regs r k f blank_register live;
                births = λ k. get_or-modify_keep (λ x. x.birth) u.regs r k f blank_register births;
                deaths = λ k. get_or-modify_keep (λ x. x.death) u.regs r k f blank_register deaths;
                defined = λ k.
                    get_or-modify_keep (λ x. not (is_undefined x.source)) u.regs r k f
                      blank_register (λ x. ap not (defined x));
                regs_le = omega (arith, len);
                regs_lt = omega (arith, len, s.regs_lt);
                aliases_lt = s.aliases_lt;
                named = λ j l e. refl;
                bases = s.bases;
                base_lt = s.base_lt;
              })
              s;
        open_block = reopen u _ refl refl refl y.open_block;
        regs_room = (omega (arith, len, y.regs_room), omega (arith, y.regs_room));
        aliases_room = y.aliases_room;
      }

  -- With other fields changed that the invariant does not read.
  pub error-Ready : Ready (record u { error = true })
  error-Ready = record {
    sound = same-Sound u _ refl refl refl s;
    open_block = reopen u _ refl refl refl y.open_block;
    regs_room = y.regs_room;
    aliases_room = y.aliases_room;
  }
