-- ===== src/Rtl/Block/Dropped.antt =====
-- An entry list of a chain with one entry shifted out, as rtl_block_remove_edge() leaves it.
use libbinrec.Common.{
  ℕ, zero, suc, ◌+◌, ◌<◌, ◌≡◌, ◌≢◌, refl, sym, ◌∙◌, ap, subst, ◌==◌, bool_to_ℕ, List, [], length,
  get_elem?, some, ℤ, pos, negsuc, ◌⊎◌, inl, inr, arith,
}
use libbinrec.Rtl.Unit.{BasicBlock}
use libbinrec.Rtl.Block.{update_block, shift_out}
use libbinrec.Rtl.Block.Graph.{entries_at, overflow_at, count_slots, tail_count, in_count, Chain}
use libbinrec.Rtl.Block.Slots.{
  length-update, field_at-update_ne, field_at-update_keep, field_at-update_self, count-shift_out,
}
use libbinrec.Rtl.Block.Search.{Reaches, here, next, no_return, Reaches-own}

abbrev pub drop_entry : ℕ → BasicBlock → BasicBlock
drop_entry slot b = record b { entries = shift_out b.entries slot }

first_step :
    {bs : List BasicBlock} {k j : ℕ}
    → Reaches bs k (pos j)
    → (k ≡ j) ⊎ Reaches bs k (overflow_at bs j)
first_step here = inl refl
first_step (next r) = inr r

module _ (bs : List BasicBlock) (k slot from : ℕ) (lt : k < length bs)
    (got : get_elem? (entries_at bs k) slot ≡ some (pos from)) where
  abbrev after : List BasicBlock
  after = update_block bs k (drop_entry slot)

  pub after_other : (j : ℕ) → k ≢ j → entries_at after j ≡ entries_at bs j
  after_other j ne = field_at-update_ne (λ b. b.entries) [] bs k j (drop_entry slot) ne

  pub after_self : entries_at after k ≡ shift_out (entries_at bs k) slot
  after_self =
      field_at-update_self (λ b. b.entries) [] bs k (drop_entry slot) (λ es. shift_out es slot)
        (λ b. refl) lt

  pub after_overflow : (j : ℕ) → overflow_at after j ≡ overflow_at bs j
  after_overflow j =
      field_at-update_keep (λ b. b.entry_overflow) (negsuc 0) bs k j (drop_entry slot) (λ b. refl)

  after-length : length after ≡ length bs
  after-length = length-update bs k (drop_entry slot)

  drop_self :
      (x : ℕ)
      → count_slots x (entries_at after k) + bool_to_ℕ (from == x) ≡ count_slots x (entries_at bs k)
  drop_self x =
      omega
        (arith, ap (count_slots x) after_self, count-shift_out (entries_at bs k) slot from x got)

  -- The count along a chain without the block.
  tail_other :
      (f : ℕ) (i : ℤ) (x : ℕ) → (Reaches bs k i → ⊥) → tail_count f after i x ≡ tail_count f bs i x
  unfolding tail_count
  tail_other zero i x no_k = refl
  tail_other (suc f) (negsuc _) x no_k = refl
  tail_other (suc f) (pos j) x no_k = omega (
    arith,
    ap (count_slots x) (after_other j (λ e. no_k (subst (λ n. Reaches bs k (pos n)) e here))),
    ap (λ i. tail_count f after i x) (after_overflow j),
    tail_other f (overflow_at bs j) x (λ r. no_k (next r)),
  )

  -- The count along a chain with it.
  tail_drop :
      (own : ℕ → ℕ) (t f : ℕ) (i : ℤ) (x : ℕ)
      → Chain own t f bs i
      → Reaches bs k i
      → tail_count f after i x + bool_to_ℕ (from == x) ≡ tail_count f bs i x
  unfolding tail_count
  tail_drop own t zero _ x c here = absurd c
  tail_drop own t zero _ x c (next r) = absurd c
  tail_drop own t (suc f) _ x c here = omega (
    arith,
    drop_self x,
    ap (λ i. tail_count f after i x) (after_overflow k),
    tail_other f (overflow_at bs k) x (no_return own t bs k (suc f) c),
  )
  tail_drop own t (suc f) _ x c (next {j} r) = omega (
    arith,
    ap (count_slots x) (
        after_other j (λ e.
          no_return own t bs k (suc f) (subst (λ n. Chain own t (suc f) bs (pos n)) (sym e) c)
            (subst (λ n. Reaches bs k (overflow_at bs n)) (sym e) r))),
    ap (λ i. tail_count f after i x) (after_overflow j),
    tail_drop own t f (overflow_at bs j) x c.2 r,
  )

  Chain-after : (own : ℕ → ℕ) (t f : ℕ) (i : ℤ) → Chain own t f bs i → Chain own t f after i
  Chain-after own t zero (negsuc _) c = tt
  Chain-after own t zero (pos j) c = c
  Chain-after own t (suc f) (negsuc _) c = tt
  Chain-after own t (suc f) (pos j) c = (
    c.0,
    omega (arith, c.1, after-length),
    subst (Chain own t f after) (sym (after_overflow j))
        (Chain-after own t f (overflow_at bs j) c.2),
  )

  pub Chain-dropped :
      (own : ℕ → ℕ) (t : ℕ)
      → Chain own t (length bs) bs (overflow_at bs t)
      → Chain own t (length after) after (overflow_at after t)
  Chain-dropped own t c =
      subst (λ n. Chain own t n after (overflow_at after t)) (sym after-length)
        (subst (Chain own t (length bs) after) (sym (after_overflow t))
          (Chain-after own t (length bs) (overflow_at bs t) c))

  tail_after :
      (t x : ℕ)
      → tail_count (length after) after (overflow_at after t) x
        ≡ tail_count (length bs) after (overflow_at bs t) x
  tail_after t x =
      ap (λ n. tail_count n after (overflow_at after t) x) after-length
      ∙ ap (λ i. tail_count (length bs) after i x) (after_overflow t)

  module _ (own : ℕ → ℕ) (to : ℕ) (real : own to ≡ 0)
      (chain : Chain own to (length bs) bs (overflow_at bs to)) (r : Reaches bs k (pos to)) where
    -- The block is `to` or one of its extensions.
    whose : (k ≡ to) ⊎ ((own k ≡ suc to) × Reaches bs k (overflow_at bs to))
    whose = elim (first_step r) [
      | inl e ↦ inl e
      | inr r' ↦ inr (Reaches-own own to bs k (length bs) (overflow_at bs to) r' chain, r')
    ]

    pub in_count-dropped : (x : ℕ) → in_count after to x + bool_to_ℕ (from == x) ≡ in_count bs to x
    unfolding in_count
    in_count-dropped x = elim whose [
      | inl e ↦ omega (
        arith,
        subst
            (λ n.
              count_slots x (entries_at after n) + bool_to_ℕ (from == x)
              ≡ count_slots x (entries_at bs n))
            e (drop_self x),
        tail_after to x,
        tail_other (length bs) (overflow_at bs to) x (λ r'. omega (
          arith,
          Reaches-own own to bs k (length bs) (overflow_at bs to) r' chain,
          ap own e,
          real,
        )),
      )
      | inr (o, r') ↦ omega (
        arith,
        ap (count_slots x) (after_other to (λ e. omega (arith, o, ap own e, real))),
        tail_after to x,
        tail_drop own to (length bs) (overflow_at bs to) x chain r',
      )
    ]

    pub in_count-kept :
        (y x : ℕ)
        → own y ≡ 0
        → to ≢ y
        → Chain own y (length bs) bs (overflow_at bs y)
        → in_count after y x ≡ in_count bs y x
    unfolding in_count
    in_count-kept y x ry ne c = omega (
      arith,
      ap (count_slots x) (after_other y not_y),
      tail_after y x,
      tail_other (length bs) (overflow_at bs y) x not_below,
    )
      where
        not_y : k ≢ y
        not_y e = elim whose [
          | inl e' ↦ ne (sym e' ∙ e)
          | inr (o, r') ↦ omega (arith, o, ap own e, ry)
        ]

        not_below : Reaches bs k (overflow_at bs y) → ⊥
        not_below r' =
            let o = Reaches-own own y bs k (length bs) (overflow_at bs y) r' c in
            elim whose [
              | inl e' ↦ omega (arith, o, ap own e', real)
              | inr (o', r'') ↦ ne (omega (arith, o, o'))
            ]
