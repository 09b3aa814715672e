-- ===== src/Rtl/Opt/Alias/Fate.antt =====
-- The second half of rtl_opt_alias_data_flow() of src/rtl-opt.c: which SET_ALIAS instructions it kills.
use libbinrec.Common.{
  ℕ, zero, suc, ◌+◌, ◌-◌, ◌<◌, ◌≡◌, refl, sym, ◌∙◌, ap, subst, ◌==◌, not, ◌&&◌, Bool, true, false,
  Bool-cases, true_and_false, inl, inr, if◌then◌else◌, List, length, get_or, some, ℤ, pos, negsuc,
  arith,
}
use libbinrec.Rtl.Unit.{RtlUnit}
use libbinrec.Rtl.Unit.Access.{block_at, alias_base}
use libbinrec.Rtl.Block.Graph.{next_at}
use libbinrec.Rtl.Opt.Live.{rtl_opt_kill_insn}
use libbinrec.Rtl.Opt.Visit.{clear_seen}
use libbinrec.Rtl.Opt.Visit.Reach.{Targets}
use libbinrec.Rtl.Opt.Reduced.{Listed, field_at-block}
use libbinrec.Rtl.Opt.Dead.Exits.{rtl_opt_kill_insn-Keeps}
use libbinrec.Rtl.Opt.Alias.{AliasRef, blank_ref, is_alias_store_visible, kill_hidden, kill_blocks}
use libbinrec.Rtl.Opt.Alias.Visible.{Visible, is_alias_store_visible-Visible}

-- What the first half found about an alias in each block.
abbrev pub refs_of : (ℕ → List AliasRef) → ℕ → ℕ → AliasRef
refs_of info alias k = get_or (info k) alias blank_ref

-- The value that the alias has at the end of a block is read on some path.
abbrev pub ReadLater : (ℕ → List AliasRef) → RtlUnit → ℕ → ℕ → Type 0
ReadLater info u alias b = Visible u.blocks (refs_of info alias) (not (alias_base u alias == 0)) b

-- What becomes of the last SET_ALIAS of a block: it stays for a reason, or it is killed.
pub data Fate (info : ℕ → List AliasRef) (b : ℕ) (u : RtlUnit) (alias : ℕ) : RtlUnit → Type 0 where
  unset : (refs_of info alias b).has_set ≡ false → Fate info b u alias u
  read_here : (refs_of info alias b).set_used ≡ true → Fate info b u alias u
  read_later : ReadLater info u alias b → Fate info b u alias u
  killed :
      (refs_of info alias b).has_set ≡ true
      → (refs_of info alias b).set_used ≡ false
      → ¬ ReadLater info u alias b
      → Fate info b u alias (rtl_opt_kill_insn u (refs_of info alias b).set_insn false false)

-- The `count` aliases from `alias` on, in one block.
pub data Fates (info : ℕ → List AliasRef) (b : ℕ) : ℕ → RtlUnit → ℕ → RtlUnit → Type 0 where
  done : (u : RtlUnit) (alias : ℕ) → Fates info b zero u alias u
  step :
      (count : ℕ) (u v w : RtlUnit) (alias : ℕ)
      → Fate info b u alias v
      → Fates info b count v (alias + 1) w
      → Fates info b (suc count) u alias w

-- The blocks of the code stream from a block on, with all aliases of each.
pub data Traced (info : ℕ → List AliasRef) : RtlUnit → ℤ → RtlUnit → Type 0 where
  ended : (u : RtlUnit) (n : ℕ) → Traced info u (negsuc n) u
  block :
      (u v w : RtlUnit) (b : ℕ)
      → Fates info b (length u.aliases - 1) u 1 v
      → Traced info v (next_at u.blocks b) w
      → Traced info u (pos b) w

module _ (info : ℕ → List AliasRef) (b : ℕ) where
  abbrev shown : RtlUnit → ℕ → Bool
  shown u alias =
      (is_alias_store_visible (length u.blocks + 1) u.blocks (refs_of info alias)
        (not (alias_base u alias == 0)) (clear_seen u.blocks) b).0

  abbrev after : RtlUnit → ℕ → RtlUnit
  after u alias =
      if (refs_of info alias b).has_set
        && not (refs_of info alias b).set_used
        && not (shown u alias)
      then rtl_opt_kill_insn u (refs_of info alias b).set_insn false false
      else u

  one-Fate :
      (u : RtlUnit) (alias : ℕ)
      → Targets u.blocks
      → b < length u.blocks
      → Fate info b u alias (after u alias)
  one-Fate u alias targets lt =
      let iff =
        is_alias_store_visible-Visible u.blocks (refs_of info alias) (not (alias_base u alias == 0))
          b targets lt in
      elim (Bool-cases (refs_of info alias b).has_set) [
        | inr no_set ↦ rw no_set (Fate.unset no_set)
        | inl set ↦ elim (Bool-cases (refs_of info alias b).set_used) [
          | inl here ↦ rw (set, here) (Fate.read_here here)
          | inr unread ↦ elim (Bool-cases (shown u alias)) [
            | inl seen ↦ rw (set, unread, seen) (Fate.read_later (iff.0 seen))
            | inr hidden ↦
                rw (set, unread, hidden)
                  (Fate.killed set unread (λ v. true_and_false (iff.1 v) hidden))
          ]
        ]
      ]

  after-blocks : (u : RtlUnit) (alias : ℕ) → (after u alias).blocks ≡ u.blocks
  after-blocks u alias =
      elim (Bool-cases (
        (refs_of info alias b).has_set
        && not (refs_of info alias b).set_used
        && not (shown u alias))) [
          | inl kill ↦
              rw kill (rtl_opt_kill_insn-Keeps u (refs_of info alias b).set_insn false false).0
          | inr stay ↦ rw stay refl
        ]

  kill_hidden-Fates :
      (count : ℕ) (u : RtlUnit) (alias : ℕ)
      → Targets u.blocks
      → b < length u.blocks
      → Fates info b count u alias (kill_hidden count info b u alias)
        × ((kill_hidden count info b u alias).blocks ≡ u.blocks)
  unfolding kill_hidden
  kill_hidden-Fates zero u alias targets lt = (Fates.done u alias, refl)
  kill_hidden-Fates (suc count) u alias targets lt =
      let same = after-blocks u alias in
      let (rest, e) =
        kill_hidden-Fates count (after u alias) (alias + 1) (subst Targets (sym same) targets)
          (omega (arith, lt, ap length same)) in
      (Fates.step count u (after u alias) _ alias (one-Fate u alias targets lt) rest, e ∙ same)

-- Where the code stream from block i on runs through real blocks of the unit and ends, and the exits are
-- blocks of the unit, the loop of rtl_opt_alias_data_flow() that follows the scan always returns. It goes
-- through the blocks of the stream and the aliases in order. Each time the SET_ALIAS that the scan left
-- for the alias and the block stays, because there is none, the block itself reads it, or some path of
-- the flow graph from the block's end reads the value; or it is killed, where none of the three holds.
pub kill_blocks-Traced :
    (own : ℕ → ℕ) (fuel : ℕ) (info : ℕ → List AliasRef) (u : RtlUnit) (i : ℤ)
    → Targets u.blocks
    → Listed own u.blocks fuel i
    → (u' : RtlUnit) × (kill_blocks fuel info u i ≡ some u') × Traced info u i u'
unfolding kill_blocks
kill_blocks-Traced own zero info u (negsuc n) targets l = (u, refl, Traced.ended u n)
kill_blocks-Traced own (suc fuel) info u (negsuc n) targets l = (u, refl, Traced.ended u n)
kill_blocks-Traced own zero info u (pos b) targets l = absurd l
kill_blocks-Traced own (suc fuel) info u (pos b) targets l =
    let v : RtlUnit = kill_hidden (length u.aliases - 1) info b u 1 in
    let (fates, same) = kill_hidden-Fates info b (length u.aliases - 1) u 1 targets l.1 in
    let next : (block_at v b).next_block ≡ next_at u.blocks b =
      field_at-block (λ x. x.next_block) (negsuc 0) v.blocks b (omega (arith, l.1, ap length same))
      ∙ ap (λ bs. next_at bs b) same in
    let (w, e, rest) =
      kill_blocks-Traced own fuel info v (next_at u.blocks b) (subst Targets (sym same) targets)
        (subst (λ bs. Listed own bs fuel (next_at u.blocks b)) (sym same) l.2) in
    (w, ap (kill_blocks fuel info v) next ∙ e, Traced.block u v w b fates rest)
