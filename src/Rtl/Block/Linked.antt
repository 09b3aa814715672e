-- ===== src/Rtl/Block/Linked.antt =====
-- rtl_block_add_edge() where the entry list has an unused slot.
use native.Mathlib.Decide.{ℕ_discrete}
use libbinrec.Common.{
  ℕ, ◌+◌, ◌<◌, ◌≡◌, ◌≢◌, refl, sym, subst, ◌∙◌, ap, List, [], length, length-set, set, pos, negsuc,
  arith,
}
use libbinrec.Rtl.Unit.{BasicBlock}
use libbinrec.Rtl.Block.{update_block}
use libbinrec.Rtl.Block.Graph.{
  entries_at, overflow_at, exits_at, count_slots, out_count, SameTail, Consistent,
  Consistent-transfer,
}
use libbinrec.Rtl.Block.Added.{
  edge, set_exit, set_entry, Added, edge_to_ne, edge_to_self, edge-real, out_count-set_exit,
  in_count-same, Chain-keep, set_exit-SameEntries, not_ext,
}
use libbinrec.Rtl.Block.Slots.{
  length-update, field_at-update_ne, field_at-update_keep, field_at-update_self, FreeAt, count-set,
}

-- The exit slot and an unused entry slot are set.
module _ (own : ℕ → ℕ) (bs : List BasicBlock) (from to m i : ℕ) (c : Consistent own bs)
    (lt : from < length bs) (lt' : to < length bs) (real : own to ≡ 0)
    (free : FreeAt (exits_at bs from) m) (free' : FreeAt (entries_at bs to) i) where
  abbrev linked : List BasicBlock
  linked = update_block (update_block bs from (set_exit m (pos to))) to (set_entry i (pos from))

  abbrev half : List BasicBlock
  half = update_block bs from (set_exit m (pos to))

  half_len : length half ≡ length bs
  half_len = length-update bs from (set_exit m (pos to))

  linked_len : length linked ≡ length bs
  linked_len = length-update half to (set_entry i (pos from)) ∙ half_len

  linked_ne : (k : ℕ) → to ≢ k → entries_at linked k ≡ entries_at bs k
  linked_ne k ne =
      field_at-update_ne (λ b. b.entries) [] half to k (set_entry i (pos from)) ne
      ∙ (set_exit-SameEntries bs from m (pos to) k).0

  linked_self : entries_at linked to ≡ set (entries_at bs to) i (pos from)
  linked_self =
      field_at-update_self (λ b. b.entries) [] half to (set_entry i (pos from))
        (λ es. set es i (pos from)) (λ b. refl) (omega (arith, half_len))
      ∙ ap (λ es. set es i (pos from)) (set_exit-SameEntries bs from m (pos to) to).0

  linked_overflow : (k : ℕ) → overflow_at linked k ≡ overflow_at bs k
  linked_overflow k =
      field_at-update_keep (λ b. b.entry_overflow) (negsuc 0) half to k (set_entry i (pos from))
        (λ b. refl)
      ∙ (set_exit-SameEntries bs from m (pos to) k).1

  linked_count :
      (k y : ℕ)
      → count_slots k (entries_at linked y) ≡ count_slots k (entries_at bs y) + edge from to k y
  linked_count k y = elim (ℕ_discrete to y) [
    | yes e ↦
        subst
          (λ y.
            count_slots k (entries_at linked y)
            ≡ count_slots k (entries_at bs y) + edge from to k y)
          e
          (ap (count_slots k) linked_self
            ∙ count-set (entries_at bs to) i from k free'
            ∙ ap (λ (n : ℕ). count_slots k (entries_at bs to) + n) (sym (edge_to_self from to k)))
    | no ne ↦ omega (arith, ap (count_slots k) (linked_ne y ne), edge_to_ne from to k y ne)
  ]

  linked_slots : (k : ℕ) → length (entries_at linked k) ≡ length (entries_at bs k)
  linked_slots k = elim (ℕ_discrete to k) [
    | yes e ↦
        subst (λ k. length (entries_at linked k) ≡ length (entries_at bs k)) e
          (ap length linked_self ∙ length-set (entries_at bs to) i (pos from))
    | no ne ↦ ap length (linked_ne k ne)
  ]

  linked_outs : (k y : ℕ) → out_count linked k y ≡ out_count bs k y + edge from to k y
  unfolding out_count
  linked_outs k y =
      ap (count_slots y)
        (field_at-update_keep (λ b. b.exits) [] half to k (set_entry i (pos from)) (λ b. refl))
      ∙ out_count-set_exit bs from to lt m k y free

  linked_tail : (t : ℕ) → SameTail own own t bs linked
  linked_tail t k o = (o, linked_ne k (not_ext own to k t real o), linked_overflow k)

  pub linked-Added : Added own bs own linked (edge from to)
  linked-Added = record {
    consistent =
        Consistent-transfer own own bs linked (edge from to) (λ k y. 0) c (λ k r. r)
          (λ y r l. (r, omega (arith, linked_len)))
          (λ k y g.
            let e = edge-real from to k y g in
            (subst (λ y. own y ≡ 0) e real, omega (arith, linked_len)))
          (λ t r.
            Chain-keep own own bs linked (omega (arith, linked_len)) t (linked_tail t)
              (linked_overflow t) (c.chains t r))
          (λ k r l. linked_slots k ∙ c.slots k r (omega (arith, linked_len)))
          (λ k l. c.fresh k (omega (arith, linked_len))) (λ k y r. omega (arith, linked_outs k y))
          (λ k y rk ry. omega (
            arith,
            in_count-same own own bs linked (omega (arith, linked_len)) y (linked_tail y)
                (linked_overflow y) (c.chains y ry) k,
            linked_count k y,
          ));
    outs = λ k y r. linked_outs k y;
    real = λ k r l. (r, omega (arith, linked_len));
  }
