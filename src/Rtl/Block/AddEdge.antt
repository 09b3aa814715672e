-- ===== src/Rtl/Block/AddEdge.antt =====
-- rtl_block_add_edge() of src/rtl-block.c: the ways a call can end.
use libbinrec.Common.{
  ℕ, suc, ◌<◌, ◌≡◌, refl, sym, ◌∙◌, ap, subst, ◌==◌, if◌then◌else◌, Bool, true, false, inl, inr, [],
  ◌∷◌, ◌++◌, length, get_elem?, get_elem?_total, Option, some, none, pos, negsuc, arith,
}
use libbinrec.Rtl.Unit.{BasicBlock, RtlUnit}
use libbinrec.Rtl.Block.{
  update_block, overflow_entries, add_entry, add_exit, block_add_edge, ExitSlot, present, free_slot,
  too_many, find_exit, find_entry, fill_dummy, link_dummy,
}
use libbinrec.Rtl.Block.Graph.{entries_at, overflow_at, exits_at, out_count, Consistent}
use libbinrec.Rtl.Block.Slots.{
  length-update, field_at-get, FreeAt, AllUsed, find_exit_free, find_exit_present,
  find_exit_too_many, find_entry_free,
}
use libbinrec.Rtl.Block.Added.{edge, set_exit, Added, clear-Added, set_exit-SameEntries}
use libbinrec.Word.{signed}
use libbinrec.Rtl.Block.Grow.{signed_small, get_new_block-cases}
use libbinrec.Rtl.Block.Linked.{linked-Added}
use libbinrec.Rtl.Block.Overflow.{split-Added}

-- The ways the call can end. `own` tells extension blocks from real ones.
pub data Outcome (own : ℕ → ℕ) (memory : Bool) (u : RtlUnit) (from to : ℕ)
    : Option (Bool × RtlUnit) → Type 0 where
  -- The edge is there already.
  there : 0 < out_count u.blocks from to → Outcome own memory u from to (some (true, u))
  -- The edge, and no other, is added.
  added :
      (own' : ℕ → ℕ) (u' : RtlUnit)
      → Added own u.blocks own' u'.blocks (edge from to)
      → Outcome own memory u from to (some (true, u'))
  -- All exit slots lead elsewhere.
  full :
      AllUsed (exits_at u.blocks from)
      → out_count u.blocks from to ≡ 0
      → Outcome own memory u from to (some (false, u))
  -- There is no memory for a dummy block, and no edge is left behind.
  no_memory :
      (u' : RtlUnit)
      → memory ≡ false
      → Added own u.blocks own u'.blocks (λ k y. 0)
      → Outcome own memory u from to (some (false, u'))

module _ (own : ℕ → ℕ) (memory : Bool) (slot : BasicBlock) (u : RtlUnit) (from to : ℕ)
    (c : Consistent own u.blocks) (few : length u.blocks < 32768) (real : own to ≡ 0)
    (lt : from < length u.blocks) (lt' : to < length u.blocks) where
  module _ (m : ℕ) (free : FreeAt (exits_at u.blocks from) m) (target : BasicBlock)
      (got : get_elem? (update_block u.blocks from (set_exit m (pos to))) to ≡ some target) where
    abbrev half : RtlUnit
    half = record u { blocks = update_block u.blocks from (set_exit m (pos to)) }

    target_entries : target.entries ≡ entries_at u.blocks to
    target_entries =
        sym (field_at-get (λ b. b.entries) [] half.blocks to got)
        ∙ (set_exit-SameEntries u.blocks from m (pos to) to).0

    target_overflow : target.entry_overflow ≡ overflow_at u.blocks to
    target_overflow =
        sym (field_at-get (λ b. b.entry_overflow) (negsuc 0) half.blocks to got)
        ∙ (set_exit-SameEntries u.blocks from m (pos to) to).1

    half_len : length half.blocks ≡ length u.blocks
    half_len = length-update u.blocks from (set_exit m (pos to))

    owner : ℕ → ℕ
    owner k = if k == length u.blocks then suc to else own k

    split_graph :
        Added own u.blocks owner
          (update_block
            (update_block
              (half.blocks ++ slot ∷ [])
              (length half.blocks)
              (fill_dummy (pos from) target))
            to
            (link_dummy (signed 16 (length half.blocks))))
          (edge from to)
    unfolding owner
    split_graph =
        subst
          (λ n.
            Added own u.blocks (λ k. if k == length u.blocks then suc to else own k)
              (update_block
                (update_block (half.blocks ++ slot ∷ []) n (fill_dummy (pos from) target)) to
                (link_dummy (signed 16 n)))
              (edge from to))
          (sym half_len)
          (subst
            (λ i.
              Added own u.blocks (λ k. if k == length u.blocks then suc to else own k)
                (update_block
                  (update_block (half.blocks ++ slot ∷ []) (length u.blocks)
                    (fill_dummy (pos from) target))
                  to (link_dummy i))
                (edge from to))
            (sym (signed_small (length u.blocks) few))
            (split-Added own u.blocks slot target from to m c lt lt' real free target_entries
              target_overflow))

    split-Outcome :
        Outcome own memory u from to
          (some (overflow_entries memory slot half from (pos from) m to target))
    unfolding overflow_entries
    split-Outcome = elim (get_new_block-cases memory slot half (omega (arith, few, half_len))) [
      | inl short ↦
          rw (short.0, overflow_entries)
            (no_memory _ short.1 (clear-Added own u.blocks from to m c lt free))
      | inr grown ↦ rw (grown.1, overflow_entries) (added owner _ split_graph)
    ]

    entry-Outcome :
        (o : Option ℕ)
        → find_entry target.entries 0 ≡ o
        → Outcome own memory u from to
            (some (add_entry memory slot half from (pos from) m to target o))
    unfolding add_entry
    entry-Outcome none e = split-Outcome
    entry-Outcome (some i) e =
        let (m', q, free') = find_entry_free target.entries 0 i e in
        added own _ (
          linked-Added own u.blocks from to m i c lt lt' real free (
            subst (λ es. FreeAt es i) target_entries
              (subst (FreeAt target.entries) (omega arith) free')))

  exit-Outcome :
      (s : ExitSlot)
      → find_exit to (exits_at u.blocks from) 0 ≡ s
      → Outcome own memory u from to (add_exit memory slot u from to (pos from) (pos to) s)
  unfolding add_exit out_count
  exit-Outcome present e = there (find_exit_present to (exits_at u.blocks from) 0 e)
  exit-Outcome too_many e =
      let (used, none_there) = find_exit_too_many to (exits_at u.blocks from) 0 e in
      full used none_there
  exit-Outcome (free_slot j) e =
      let (m, q, free) = find_exit_free to (exits_at u.blocks from) 0 j e in
      let (target, got) =
        get_elem?_total (update_block u.blocks from (set_exit j (pos to))) to
          (omega (arith, length-update u.blocks from (set_exit j (pos to)))) in
      rw got (
        entry-Outcome j (subst (FreeAt (exits_at u.blocks from)) (omega arith) free) target got
          (find_entry target.entries 0) refl)

-- rtl_block_add_edge() on two real blocks of a consistent graph of fewer than 32768 blocks always returns, in one of the ways of
-- `Outcome`: the edge is there already, or is the one edge added to exits and entries alike, or the
-- exits are full, or memory is short; the last two return false and change no edge.
pub block_add_edge-Outcome :
    (own : ℕ → ℕ) (memory : Bool) (slot : BasicBlock) (u : RtlUnit) (from to : ℕ)
    → Consistent own u.blocks
    → own to ≡ 0
    → from < length u.blocks
    → to < length u.blocks
    → length u.blocks < 32768
    → Outcome own memory u from to (block_add_edge memory slot u from to)
unfolding block_add_edge
block_add_edge-Outcome own memory slot u from to c real lt lt' few =
    let (source, got) = get_elem?_total u.blocks from lt in
    let found : ExitSlot = find_exit to source.exits 0 in
    let o : Outcome own memory u from to
        (add_exit memory slot u from to (pos from) (pos to) found) =
      exit-Outcome own memory slot u from to c few real lt lt' found
        (ap (λ es. find_exit to es 0) (field_at-get (λ b. b.exits) [] u.blocks from got)) in
    rw got (
      subst
        (λ i. Outcome own memory u from to (add_exit memory slot u from to i (signed 16 to) found))
        (sym (signed_small from (omega (arith, lt, few))))
        (subst
          (λ i. Outcome own memory u from to (add_exit memory slot u from to (pos from) i found))
          (sym (signed_small to (omega (arith, lt', few)))) o))
