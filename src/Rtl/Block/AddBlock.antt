-- ===== src/Rtl/Block/AddBlock.antt =====
-- rtl_block_add() of src/rtl-block.c: the ways a call can end.
use native.Mathlib.Decide.{ℕ_discrete}
use libbinrec.Common.{
  ℕ, ◌+◌, ◌-◌, ◌<◌, ◌≡◌, ◌≢◌, refl, sym, ◌∙◌, ap, subst, Bool, true, false, List, [], ◌∷◌, ◌++◌,
  length, length-append, ℤ, pos, negsuc, inl, inr, arith,
}
use libbinrec.Rtl.Unit.{BasicBlock, RtlUnit}
use libbinrec.Rtl.Block.{update_block, update_at, block_add, no_entries, no_exits}
use libbinrec.Rtl.Block.Graph.{
  field_at, entries_at, overflow_at, exits_at, count_slots, out_count, SameTail, Consistent,
  Consistent-transfer,
}
use libbinrec.Rtl.Block.Slots.{
  length-update, field_at-update_ne, field_at-update_keep, field_at-update_self, field_at-append_ne,
}
use libbinrec.Rtl.Block.Added.{Added, in_count-same, Chain-keep}
use libbinrec.Word.{signed}
use libbinrec.Rtl.Block.Grow.{signed_small, get_new_block-cases}

module _ {ℓ} {A : Type ℓ} (p : BasicBlock → A) (d : A) where
  update_at_keep :
      (bs : List BasicBlock) (i : ℤ) (k : ℕ) (f : BasicBlock → BasicBlock)
      → ((b : BasicBlock) → p (f b) ≡ p b)
      → field_at p d (update_at bs i f) k ≡ field_at p d bs k
  update_at_keep bs (pos i) k f keep = field_at-update_keep p d bs i k f keep
  update_at_keep bs (negsuc i) k f keep = refl

  past_last : (bs : List BasicBlock) → field_at p d bs (length bs) ≡ d
  past_last [] = refl
  past_last (b ∷ bs) = past_last bs

length-update_at :
    (bs : List BasicBlock) (i : ℤ) (f : BasicBlock → BasicBlock)
    → length (update_at bs i f) ≡ length bs
length-update_at bs (pos i) f = length-update bs i f
length-update_at bs (negsuc i) f = refl

module _ (bs : List BasicBlock) (slot : BasicBlock) (last next : ℤ) (max_live : ℕ) where
  abbrev start_block : BasicBlock → BasicBlock
  start_block b = record b { next_block = negsuc 0; prev_block = last }

  abbrev link_block : BasicBlock → BasicBlock
  link_block b = record b { next_block = next }

  abbrev clear_block : BasicBlock → BasicBlock
  clear_block b = record b {
    first_insn = pos 0;
    last_insn = negsuc 0;
    min_death = 0;
    max_live_reg = max_live;
    entries = no_entries;
    entry_overflow = negsuc 0;
    exits = no_exits;
  }

  abbrev joined : List BasicBlock
  joined = update_at (update_block (bs ++ slot ∷ []) (length bs) start_block) last link_block

  abbrev grown : List BasicBlock
  grown = update_block joined (length bs) clear_block

  length-joined : length joined ≡ length bs + 1
  length-joined =
      length-update_at (update_block (bs ++ slot ∷ []) (length bs) start_block) last link_block
      ∙ length-update (bs ++ slot ∷ []) (length bs) start_block
      ∙ length-append {0} bs (slot ∷ [])

  pub length-grown : length grown ≡ length bs + 1
  length-grown = length-update joined (length bs) clear_block ∙ length-joined

  module _ {A : Type 0} (p : BasicBlock → A) (d : A) where
    -- The blocks that were there keep the field.
    pub old_field :
        (k : ℕ)
        → length bs ≢ k
        → ((b : BasicBlock) → p (start_block b) ≡ p b)
        → ((b : BasicBlock) → p (link_block b) ≡ p b)
        → field_at p d grown k ≡ field_at p d bs k
    old_field k ne at_start at_link =
        field_at-update_ne p d joined (length bs) k clear_block ne
        ∙ update_at_keep p d (update_block (bs ++ slot ∷ []) (length bs) start_block) last k
            link_block at_link
        ∙ field_at-update_keep p d (bs ++ slot ∷ []) (length bs) k start_block at_start
        ∙ field_at-append_ne p d bs slot k ne

    pub new_field :
        (v : A) → ((b : BasicBlock) → p (clear_block b) ≡ v) → field_at p d grown (length bs) ≡ v
    new_field v cleared =
        field_at-update_self p d joined (length bs) clear_block (λ x. v) cleared
          (omega (arith, length-joined))

  grown_entries : (k : ℕ) → length bs ≢ k → entries_at grown k ≡ entries_at bs k
  grown_entries k ne = old_field (λ b. b.entries) [] k ne (λ b. refl) (λ b. refl)

  grown_overflow : (k : ℕ) → overflow_at grown k ≡ overflow_at bs k
  grown_overflow k = elim (ℕ_discrete (length bs) k) [
    | no ne ↦ old_field (λ b. b.entry_overflow) (negsuc 0) k ne (λ b. refl) (λ b. refl)
    | yes e ↦
        subst (λ n. overflow_at grown n ≡ overflow_at bs n) e
          (new_field (λ b. b.entry_overflow) (negsuc 0) (negsuc 0) (λ b. refl)
            ∙ sym (past_last (λ b. b.entry_overflow) (negsuc 0) bs))
  ]

  entry_counts : (k x : ℕ) → count_slots x (entries_at grown k) ≡ count_slots x (entries_at bs k)
  unfolding count_slots
  entry_counts k x = elim (ℕ_discrete (length bs) k) [
    | no ne ↦ ap (count_slots x) (grown_entries k ne)
    | yes e ↦
        subst (λ n. count_slots x (entries_at grown n) ≡ count_slots x (entries_at bs n)) e
          (ap (count_slots x) (new_field (λ b. b.entries) [] no_entries (λ b. refl))
            ∙ sym (ap (count_slots x) (past_last (λ b. b.entries) [] bs)))
  ]

  exit_counts : (k y : ℕ) → out_count grown k y ≡ out_count bs k y
  unfolding out_count count_slots
  exit_counts k y = elim (ℕ_discrete (length bs) k) [
    | no ne ↦ ap (count_slots y) (old_field (λ b. b.exits) [] k ne (λ b. refl) (λ b. refl))
    | yes e ↦
        subst (λ n. count_slots y (exits_at grown n) ≡ count_slots y (exits_at bs n)) e
          (ap (count_slots y) (new_field (λ b. b.exits) [] no_exits (λ b. refl))
            ∙ sym (ap (count_slots y) (past_last (λ b. b.exits) [] bs)))
  ]

  module _ (own : ℕ → ℕ) (c : Consistent own bs) where
    grown_tail : (t : ℕ) → SameTail own own t bs grown
    grown_tail t k o =
        (o, grown_entries k (λ e. omega (arith, o, c.fresh k (omega (arith, e)))), grown_overflow k)

    seven : (k : ℕ) → own k ≡ 0 → k < length grown → length (entries_at grown k) ≡ 7
    seven k rk l = elim (ℕ_discrete (length bs) k) [
      | no ne ↦ ap length (grown_entries k ne) ∙ c.slots k rk (omega (arith, length-grown))
      | yes e ↦
          subst (λ n. length (entries_at grown n) ≡ 7) e
            (ap length (new_field (λ b. b.entries) [] no_entries (λ b. refl)))
    ]

    grown-Added : Added own bs own grown (λ k y. 0)
    grown-Added = record {
      consistent =
          Consistent-transfer own own bs grown (λ k y. 0) (λ k y. 0) c (λ k r. r)
            (λ y r l. (r, omega (arith, length-grown))) (λ k y g. absurd (omega arith))
            (λ t r.
              Chain-keep own own bs grown (omega (arith, length-grown)) t (grown_tail t)
                (grown_overflow t) (c.chains t r))
            seven (λ k l. c.fresh k (omega (arith, length-grown)))
            (λ k y r. omega (arith, exit_counts k y))
            (λ k y rk ry. omega (
              arith,
              in_count-same own own bs grown (omega (arith, length-grown)) y (grown_tail y)
                  (grown_overflow y) (c.chains y ry) k,
              entry_counts y k,
            ));
      outs = λ k y r. omega (arith, exit_counts k y);
      real = λ k r l. (r, omega (arith, length-grown));
    }

-- The ways a call can end.
pub data AddOutcome (own : ℕ → ℕ) (memory : Bool) (u : RtlUnit) : Bool × RtlUnit → Type 0 where
  -- There is no memory.
  no_block : memory ≡ false → AddOutcome own memory u (false, u)
  -- The last block of the unit is new, and no edge is.
  new_block :
      (u' : RtlUnit)
      → length u'.blocks ≡ length u.blocks + 1
      → u'.last_block ≡ pos (length u.blocks)
      → Added own u.blocks own u'.blocks (λ k y. 0)
      → AddOutcome own memory u (true, u')

-- rtl_block_add() on a consistent graph of fewer than 32768 blocks either fails for want of memory and changes nothing, or
-- appends a block that has no edges and is the unit's last, and the graph stays consistent.
pub block_add-AddOutcome :
    (own : ℕ → ℕ) (memory : Bool) (slot : BasicBlock) (u : RtlUnit)
    → Consistent own u.blocks
    → length u.blocks < 32768
    → AddOutcome own memory u (block_add memory slot u)
unfolding block_add
block_add-AddOutcome own memory slot u c few =
    let next : ℤ = signed 16 (length u.blocks) in
    elim (get_new_block-cases memory slot u (omega (arith, few))) [
      | inl short ↦ rw (short.0, block_add) (no_block short.1)
      | inr found ↦
          rw (found.1, block_add)
            (new_block _ (length-grown u.blocks slot u.last_block next (length u.regs - 1))
              (signed_small (length u.blocks) few)
              (grown-Added u.blocks slot u.last_block next (length u.regs - 1) own c))
    ]
