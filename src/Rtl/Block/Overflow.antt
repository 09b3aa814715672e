-- ===== src/Rtl/Block/Overflow.antt =====
-- rtl_block_add_edge() where the entry list is full and a dummy block takes its entries.
use native.Mathlib.Decide.{ℕ_discrete}
use libbinrec.Common.{
  ℕ, suc, ◌+◌, ◌<◌, ◌≡◌, ◌≢◌, refl, sym, subst, ◌∙◌, ap, ◌==◌, ==_refl, ==_ne, if◌then◌else◌,
  bool_to_ℕ, List, [], ◌∷◌, ◌++◌, length, length-append, pos, negsuc, arith,
}
use libbinrec.Rtl.Unit.{BasicBlock}
use libbinrec.Rtl.Block.{update_block, fill_dummy, link_dummy, moved_entries, kept_entries}
use libbinrec.Rtl.Block.Graph.{
  field_at, entries_at, overflow_at, exits_at, count_slots, tail_count, in_count, out_count, Chain,
  SameTail, Consistent, Chain-same, tail_count-same, Consistent-transfer,
}
use libbinrec.Rtl.Block.Added.{
  edge, set_exit, Added, edge_to_ne, edge_to_self, edge-real, out_count-set_exit, in_count-same,
  Chain-keep, not_ext,
}
use libbinrec.Rtl.Block.Slots.{
  length-update, field_at-update_ne, field_at-update_keep, field_at-update_self, field_at-append_ne,
  FreeAt, count-split, length-kept,
}

module _ (own : ℕ → ℕ) (bs : List BasicBlock) (slot target : BasicBlock) (from to m : ℕ)
    (c : Consistent own bs) (lt : from < length bs) (lt' : to < length bs) (real : own to ≡ 0)
    (free : FreeAt (exits_at bs from) m) (entries : target.entries ≡ entries_at bs to)
    (overflow : target.entry_overflow ≡ overflow_at bs to) where
  abbrev dummy : ℕ
  dummy = length bs

  abbrev half : List BasicBlock
  half = update_block bs from (set_exit m (pos to))

  abbrev grown : List BasicBlock
  grown = half ++ slot ∷ []

  abbrev filled : List BasicBlock
  filled = update_block grown dummy (fill_dummy (pos from) target)

  abbrev split : List BasicBlock
  split = update_block filled to (link_dummy (pos dummy))

  -- The new block is an extension of block `to`.
  abbrev owner : ℕ → ℕ
  owner k = if k == dummy then suc to else own k

  half_len : length half ≡ length bs
  half_len = length-update bs from (set_exit m (pos to))

  grown_len : length grown ≡ suc (length bs)
  grown_len = omega (arith, length-append {0} half (slot ∷ []), half_len)

  filled_len : length filled ≡ suc (length bs)
  filled_len = length-update grown dummy (fill_dummy (pos from) target) ∙ grown_len

  split_len : length split ≡ suc (length bs)
  split_len = length-update filled to (link_dummy (pos dummy)) ∙ filled_len

  to_ne : to ≢ dummy
  to_ne e = absurd (omega arith)

  owner_ne : (k : ℕ) → dummy ≢ k → owner k ≡ own k
  owner_ne k ne = rw (==_ne k dummy (λ e. ne (sym e)))

  owner_self : owner dummy ≡ suc to
  owner_self = rw (==_refl dummy)

  owner_real : (k : ℕ) → owner k ≡ 0 → dummy ≢ k
  owner_real k r e = absurd (omega (arith, ap owner e, owner_self))

  module _ {A : Type 0} (p : BasicBlock → A) (d : A)
      (keep : (b : BasicBlock) → p (set_exit m (pos to) b) ≡ p b) where
    -- Away from the two blocks nothing changes.
    split_other : (k : ℕ) → to ≢ k → dummy ≢ k → field_at p d split k ≡ field_at p d bs k
    split_other k ne ne' =
        field_at-update_ne p d filled to k (link_dummy (pos dummy)) ne
        ∙ field_at-update_ne p d grown dummy k (fill_dummy (pos from) target) ne'
        ∙ field_at-append_ne p d half slot k (λ e. ne' (sym half_len ∙ e))
        ∙ field_at-update_keep p d bs from k (set_exit m (pos to)) keep

    split_to :
        (g : A → A)
        → ((b : BasicBlock) → p (link_dummy (pos dummy) b) ≡ g (p b))
        → field_at p d split to ≡ g (field_at p d bs to)
    split_to g fg =
        field_at-update_self p d filled to (link_dummy (pos dummy)) g fg (omega (arith, filled_len))
        ∙ ap g (
            field_at-update_ne p d grown dummy to (fill_dummy (pos from) target)
              (λ e. to_ne (sym e))
            ∙ field_at-append_ne p d half slot to (λ e. to_ne (sym e ∙ half_len))
            ∙ field_at-update_keep p d bs from to (set_exit m (pos to)) keep)

    split-dummy :
        (a : A)
        → ((b : BasicBlock) → p (fill_dummy (pos from) target b) ≡ a)
        → field_at p d split dummy ≡ a
    split-dummy a fa =
        field_at-update_ne p d filled to dummy (link_dummy (pos dummy)) to_ne
        ∙ field_at-update_self p d grown dummy (fill_dummy (pos from) target) (λ _. a) fa
            (omega (arith, grown_len))

  entries_other : (k : ℕ) → to ≢ k → dummy ≢ k → entries_at split k ≡ entries_at bs k
  entries_other = split_other (λ b. b.entries) [] (λ b. refl)

  entries_to : entries_at split to ≡ kept_entries (entries_at bs to)
  entries_to = split_to (λ b. b.entries) [] (λ b. refl) kept_entries (λ b. refl)

  entries_dummy : entries_at split dummy ≡ moved_entries (pos from) (entries_at bs to)
  entries_dummy =
      split-dummy (λ b. b.entries) [] (λ b. refl) (moved_entries (pos from) target.entries)
        (λ b. refl)
      ∙ ap (moved_entries (pos from)) entries

  overflow_other : (k : ℕ) → to ≢ k → dummy ≢ k → overflow_at split k ≡ overflow_at bs k
  overflow_other = split_other (λ b. b.entry_overflow) (negsuc 0) (λ b. refl)

  overflow_to : overflow_at split to ≡ pos dummy
  overflow_to = split_to (λ b. b.entry_overflow) (negsuc 0) (λ b. refl) (λ _. pos dummy) (λ b. refl)

  overflow_dummy : overflow_at split dummy ≡ overflow_at bs to
  overflow_dummy =
      split-dummy (λ b. b.entry_overflow) (negsuc 0) (λ b. refl) target.entry_overflow (λ b. refl)
      ∙ overflow

  split_tail : (t : ℕ) → SameTail own owner t bs split
  split_tail t k o =
      (owner_ne k fresh ∙ o, entries_other k other fresh, overflow_other k other fresh)
    where
      other : to ≢ k
      other = not_ext own to k t real o

      fresh : dummy ≢ k
      fresh = not_ext own dummy k t (c.fresh dummy (omega arith)) o

  split-Chain : (t : ℕ) → owner t ≡ 0 → Chain owner t (length split) split (overflow_at split t)
  split-Chain t r = elim (ℕ_discrete to t) [
    | yes e ↦
        subst (λ t. Chain owner t (length split) split (overflow_at split t)) e
          (rw (overflow_to, split_len)
            (
              owner_self,
              omega (arith, split_len),
              rw overflow_dummy (
                  Chain-same own owner to (length bs) (length bs) bs split (overflow_at bs to)
                    (omega arith) (omega (arith, split_len)) (split_tail to) (c.chains to real)),
            ))
    | no ne ↦
        Chain-keep own owner bs split (omega (arith, split_len)) t (split_tail t)
          (overflow_other t ne (owner_real t r))
          (c.chains t (sym (owner_ne t (owner_real t r)) ∙ r))
  ]

  split_in_to : (x : ℕ) → in_count split to x ≡ in_count bs to x + bool_to_ℕ (from == x)
  unfolding in_count tail_count
  split_in_to x =
      rw (split_len, overflow_to, entries_to, entries_dummy, overflow_dummy)
        (omega (
          arith,
          count-split from (entries_at bs to) x (c.slots to real lt'),
          tail_count-same own owner to (length bs) (length bs) bs split (overflow_at bs to) x
              (omega arith) (split_tail to) (c.chains to real),
        ))

  split_ins : (k y : ℕ) → owner y ≡ 0 → in_count split y k ≡ in_count bs y k + edge from to k y
  split_ins k y r = elim (ℕ_discrete to y) [
    | yes e ↦
        subst (λ y. in_count split y k ≡ in_count bs y k + edge from to k y) e
          (split_in_to k ∙ ap (λ (n : ℕ). in_count bs to k + n) (sym (edge_to_self from to k)))
    | no ne ↦ omega (
      arith,
      in_count-same own owner bs split (omega (arith, split_len)) y (split_tail y)
          (overflow_other y ne (owner_real y r))
          (c.chains y (sym (owner_ne y (owner_real y r)) ∙ r)) k,
      ap (count_slots k) (entries_other y ne (owner_real y r)),
      edge_to_ne from to k y ne,
    )
  ]

  split_outs : (k y : ℕ) → owner k ≡ 0 → out_count split k y ≡ out_count bs k y + edge from to k y
  unfolding out_count
  split_outs k y r =
      ap (count_slots y) (
        field_at-update_keep (λ b. b.exits) [] filled to k (link_dummy (pos dummy)) (λ b. refl)
        ∙ field_at-update_ne (λ b. b.exits) [] grown dummy k (fill_dummy (pos from) target)
            (owner_real k r)
        ∙ field_at-append_ne (λ b. b.exits) [] half slot k (λ e. owner_real k r (sym half_len ∙ e)))
      ∙ out_count-set_exit bs from to lt m k y free

  split_slots : (k : ℕ) → owner k ≡ 0 → k < length split → length (entries_at split k) ≡ 7
  split_slots k r l = elim (ℕ_discrete to k) [
    | yes e ↦
        subst (λ k. length (entries_at split k) ≡ 7) e
          (ap length entries_to ∙ length-kept (entries_at bs to) ∙ c.slots to real lt')
    | no ne ↦
        ap length (entries_other k ne (owner_real k r))
        ∙ c.slots k (sym (owner_ne k (owner_real k r)) ∙ r) (in_range k (owner_real k r) l)
  ]
    where
      in_range : (k : ℕ) → dummy ≢ k → k < length split → k < length bs
      in_range k ne l = omega (arith, split_len)

  kept_real : (y : ℕ) → own y ≡ 0 → y < length bs → (owner y ≡ 0) × (y < length split)
  kept_real y r l = (owner_ne y (λ e. absurd (omega arith)) ∙ r, omega (arith, split_len))

  pub split-Added : Added own bs owner split (edge from to)
  split-Added = record {
    consistent =
        Consistent-transfer own owner bs split (edge from to) (λ k y. 0) c
          (λ k r. sym (owner_ne k (owner_real k r)) ∙ r) kept_real
          (λ k y g.
            subst (λ y. (owner y ≡ 0) × (y < length split)) (edge-real from to k y g)
              (kept_real to real lt'))
          split-Chain split_slots
          (λ k l.
            owner_ne k (λ e. absurd (omega (arith, split_len)))
            ∙ c.fresh k (omega (arith, split_len)))
          (λ k y r. omega (arith, split_outs k y r)) (λ k y rk ry. omega (arith, split_ins k y ry));
    outs = split_outs;
    real = kept_real;
  }
