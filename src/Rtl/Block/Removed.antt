-- ===== src/Rtl/Block/Removed.antt =====
-- rtl_block_remove_edge() of src/rtl-block.c and the flow graph.
use native.Mathlib.Decide.{ℕ_discrete}
use libbinrec.Common.{
  ℕ, suc, ◌+◌, ◌<◌, ◌≡◌, ◌≢◌, refl, sym, ◌∙◌, ap, subst, ==_refl, bool_to_ℕ, List, [], length,
  get_elem?, get_elem?_total, some, pos, negsuc, arith,
}
use libbinrec.Rtl.Unit.{BasicBlock, RtlUnit}
use libbinrec.Rtl.Block.{update_block, shift_out, find_holder, block_remove_edge}
use libbinrec.Rtl.Block.Graph.{
  entries_at, overflow_at, exits_at, next_at, prev_at, count_slots, in_count, out_count, Chain,
  SameTail, Consistent, Consistent-transfer,
}
use libbinrec.Rtl.Block.Slots.{
  length-update, field_at-update_ne, field_at-update_keep, field_at-update_self, field_at-get,
  count-shift_out, length-shift_out, index_of-get,
}
use libbinrec.Rtl.Block.Added.{
  edge, edge_ne, edge_self, edge_to_ne, edge_to_self, in_count-same, Chain-keep, SameEntries,
}
use libbinrec.Rtl.Block.Search.{Reaches, Found, find_holder-in_count}
use libbinrec.Rtl.Block.Dropped.{
  drop_entry, after_other, after_self, Chain-dropped, in_count-dropped, in_count-kept,
}

abbrev pub drop_exit : ℕ → BasicBlock → BasicBlock
drop_exit m b = record b { exits = shift_out b.exits m }

module _ (own : ℕ → ℕ) (bs : List BasicBlock) (from to m : ℕ) (c : Consistent own bs)
    (rf : own from ≡ 0) (lt : from < length bs)
    (exit : get_elem? (exits_at bs from) m ≡ some (pos to)) where
  -- With the exit gone.
  abbrev cut : List BasicBlock
  cut = update_block bs from (drop_exit m)

  cut-length : length cut ≡ length bs
  cut-length = length-update bs from (drop_exit m)

  cut_same : SameEntries bs cut
  cut_same k = (
    field_at-update_keep (λ b. b.entries) [] bs from k (drop_exit m) (λ b. refl),
    field_at-update_keep (λ b. b.entry_overflow) (negsuc 0) bs from k (drop_exit m) (λ b. refl),
  )

  cut_exits : (k y : ℕ) → out_count cut k y + edge from to k y ≡ out_count bs k y
  unfolding out_count
  cut_exits k y = elim (ℕ_discrete from k) [
    | yes e ↦
        subst (λ n. out_count cut n y + edge from to n y ≡ out_count bs n y) e
          (omega (
            arith,
            ap (count_slots y) (
                field_at-update_self (λ b. b.exits) [] bs from (drop_exit m) (λ es. shift_out es m)
                  (λ b. refl) lt),
            count-shift_out (exits_at bs from) m to y exit,
            edge_self from to y,
          ))
    | no ne ↦ omega (
      arith,
      ap (count_slots y) (field_at-update_ne (λ b. b.exits) [] bs from k (drop_exit m) ne),
      edge_ne from to k y ne,
    )
  ]

  cut_tail : (t : ℕ) → SameTail own own t bs cut
  cut_tail t k o = (o, (cut_same k).0, (cut_same k).1)

  cut_entries : (y x : ℕ) → own y ≡ 0 → in_count cut y x ≡ in_count bs y x
  cut_entries y x ry = omega (
    arith,
    in_count-same own own bs cut (omega (arith, cut-length)) y (cut_tail y) (cut_same y).1
        (c.chains y ry) x,
    ap (count_slots x) (cut_same y).0,
  )

  cut-Chain : (t : ℕ) → own t ≡ 0 → Chain own t (length cut) cut (overflow_at cut t)
  cut-Chain t r =
      Chain-keep own own bs cut (omega (arith, cut-length)) t (cut_tail t) (cut_same t).1
        (c.chains t r)

  edge_there : 0 < out_count bs from to
  edge_there = omega (arith, cut_exits from to, edge_self from to to, ap bool_to_ℕ (==_refl to))

  target : (own to ≡ 0) × (to < length bs)
  target = c.targets from to rf edge_there

  entry-Found : Found cut from (pos to) (find_holder (suc (length cut)) cut from (pos to))
  entry-Found =
      find_holder-in_count cut from own to (omega (arith, cut-length, target.1))
        (cut-Chain to target.0)
        (omega (arith, cut_entries to from target.0, c.mirrored from to rf target.0, edge_there))

  module _ (k slot : ℕ) (r : Reaches cut k (pos to)) (lk : k < length cut)
      (got : get_elem? (entries_at cut k) slot ≡ some (pos from)) where
    abbrev done : List BasicBlock
    done = update_block cut k (drop_entry slot)

    done-length : length done ≡ length bs
    done-length = length-update cut k (drop_entry slot) ∙ cut-length

    done_exits : (j y : ℕ) → out_count done j y ≡ out_count cut j y
    unfolding out_count
    done_exits j y =
        ap (count_slots y)
          (field_at-update_keep (λ b. b.exits) [] cut k j (drop_entry slot) (λ b. refl))

    done_entries : (x y : ℕ) → own y ≡ 0 → in_count done y x + edge from to x y ≡ in_count bs y x
    done_entries x y ry = elim (ℕ_discrete to y) [
      | yes e ↦
          subst (λ n. in_count done n x + edge from to x n ≡ in_count bs n x) e
            (omega (
              arith,
              in_count-dropped cut k slot from lk got own to target.0 (cut-Chain to target.0) r x,
              edge_to_self from to x,
              cut_entries to x target.0,
            ))
      | no ne ↦ omega (
        arith,
        in_count-kept cut k slot from lk got own to target.0 (cut-Chain to target.0) r y x ry ne
            (cut-Chain y ry),
        edge_to_ne from to x y ne,
        cut_entries y x ry,
      )
    ]

    done_slots : (j : ℕ) → own j ≡ 0 → j < length done → length (entries_at done j) ≡ 7
    done_slots j rj l = elim (ℕ_discrete k j) [
      | yes e ↦
          ap length (ap (entries_at done) (sym e) ∙ after_self cut k slot from lk got)
          ∙ length-shift_out (entries_at cut k) slot
          ∙ ap length (ap (entries_at cut) e ∙ (cut_same j).0)
          ∙ c.slots j rj (omega (arith, done-length))
      | no ne ↦
          ap length (after_other cut k slot from lk got j ne ∙ (cut_same j).0)
          ∙ c.slots j rj (omega (arith, done-length))
    ]

    done_self : exits_at done from ≡ shift_out (exits_at bs from) m
    done_self =
        field_at-update_keep (λ b. b.exits) [] cut k from (drop_entry slot) (λ b. refl)
        ∙ field_at-update_self (λ b. b.exits) [] bs from (drop_exit m) (λ es. shift_out es m)
            (λ b. refl) lt

    done_other : (j : ℕ) → from ≢ j → exits_at done j ≡ exits_at bs j
    done_other j ne =
        field_at-update_keep (λ b. b.exits) [] cut k j (drop_entry slot) (λ b. refl)
        ∙ field_at-update_ne (λ b. b.exits) [] bs from j (drop_exit m) ne

    done_next : (j : ℕ) → next_at done j ≡ next_at bs j
    done_next j =
        field_at-update_keep (λ b. b.next_block) (negsuc 0) cut k j (drop_entry slot) (λ b. refl)
        ∙ field_at-update_keep (λ b. b.next_block) (negsuc 0) bs from j (drop_exit m) (λ b. refl)

    done_prev : (j : ℕ) → prev_at done j ≡ prev_at bs j
    done_prev j =
        field_at-update_keep (λ b. b.prev_block) (negsuc 0) cut k j (drop_entry slot) (λ b. refl)
        ∙ field_at-update_keep (λ b. b.prev_block) (negsuc 0) bs from j (drop_exit m) (λ b. refl)

    done-Consistent : Consistent own done
    done-Consistent =
        Consistent-transfer own own bs done (λ j y. 0) (edge from to) c (λ j rj. rj)
          (λ y ry l. (ry, omega (arith, done-length))) (λ j y g. absurd (omega arith))
          (λ t rt. Chain-dropped cut k slot from lk got own t (cut-Chain t rt)) done_slots
          (λ j l. c.fresh j (omega (arith, done-length)))
          (λ j y rj. omega (arith, done_exits j y, cut_exits j y))
          (λ j y rj ry. omega (arith, done_entries j y ry))

-- A graph with the edges of `bs` but one from `from` to `to`, whose exit slot is closed up.
pub record Removed (own : ℕ → ℕ) (bs bs' : List BasicBlock) (from to m : ℕ) : Type 0 where
  pub consistent : Consistent own bs'
  pub outs : (k y : ℕ) → out_count bs' k y + edge from to k y ≡ out_count bs k y
  pub size : length bs' ≡ length bs
  pub exits_self : exits_at bs' from ≡ shift_out (exits_at bs from) m
  pub exits_other : (k : ℕ) → from ≢ k → exits_at bs' k ≡ exits_at bs k
  pub next : (k : ℕ) → next_at bs' k ≡ next_at bs k
  pub prev : (k : ℕ) → prev_at bs' k ≡ prev_at bs k

-- rtl_block_remove_edge() on a used exit slot of a real block of a consistent graph always finds the
-- entry that belongs to it, and leaves a consistent graph with that edge, and no other, gone.
pub block_remove_edge-Removed :
    (own : ℕ → ℕ) (u : RtlUnit) (from to m : ℕ)
    → Consistent own u.blocks
    → own from ≡ 0
    → from < length u.blocks
    → get_elem? (exits_at u.blocks from) m ≡ some (pos to)
    → (u' : RtlUnit) × (block_remove_edge u from m ≡ some u')
      × Removed own u.blocks u'.blocks from to m
unfolding block_remove_edge
block_remove_edge-Removed own u from to m c rf lt exit =
    let (source, got) = get_elem?_total u.blocks from lt in
    let (k, slot, found, r, lk, indexed) = entry-Found own u.blocks from to m c rf lt exit in
    let (m', q, entry) =
      index_of-get from (entries_at (cut own u.blocks from to m c rf lt exit) k) 0 slot indexed in
    let exit' : get_elem? source.exits m ≡ some (pos to) =
      subst (λ es. get_elem? es m ≡ some (pos to))
        (field_at-get (λ b. b.exits) [] u.blocks from got) exit in
    let at_slot =
      subst
        (λ n.
          get_elem? (entries_at (cut own u.blocks from to m c rf lt exit) k) n ≡ some (pos from))
        (omega (arith, q)) entry in
    (
      record u { blocks = done own u.blocks from to m c rf lt exit k slot r lk at_slot },
      rw (got, exit', found) refl,
      record {
        consistent = done-Consistent own u.blocks from to m c rf lt exit k slot r lk at_slot;
        outs = λ j y. omega (
          arith,
          done_exits own u.blocks from to m c rf lt exit k slot r lk at_slot j y,
          cut_exits own u.blocks from to m c rf lt exit j y,
        );
        size = done-length own u.blocks from to m c rf lt exit k slot r lk at_slot;
        exits_self = done_self own u.blocks from to m c rf lt exit k slot r lk at_slot;
        exits_other = done_other own u.blocks from to m c rf lt exit k slot r lk at_slot;
        next = done_next own u.blocks from to m c rf lt exit k slot r lk at_slot;
        prev = done_prev own u.blocks from to m c rf lt exit k slot r lk at_slot;
      },
    )
