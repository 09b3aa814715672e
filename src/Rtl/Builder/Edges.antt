-- ===== src/Rtl/Builder/Edges.antt =====
-- What the edge of a GOTO, which rtl_finalize_unit() of src/rtl.c adds, does to the blocks.
use native.Mathlib.Decide.{ℕ_discrete}
use libbinrec.Common.{
  ℕ, zero, suc, ◌<◌, ◌≤◌, ◌≡◌, refl, sym, ◌∙◌, subst, Bool, true, false, Bool-cases, List, [], ◌∷◌,
  ◌++◌, length, length-append, get_elem?_total, get_or, Option, some, none, ℤ, pos, negsuc, set,
  inl, inr, ◌&&◌, arith,
}
use libbinrec.Word.{signed}
use libbinrec.Rtl.Unit.{BasicBlock, RtlUnit}
use libbinrec.Rtl.Unit.Access.{insn_at, block_at, blank_block}
use libbinrec.Rtl.Block.{
  update_block, block_add_edge, ExitSlot, find_exit, find_entry, add_exit, add_entry,
  overflow_entries, fill_dummy, link_dummy,
}
use libbinrec.Rtl.Block.Graph.{field_at}
use libbinrec.Rtl.Block.Grow.{get_new_block-cases}
use libbinrec.Rtl.Block.Slots.{
  length-update, field_at-update_keep, field_at-update_ne, field_at-update_self, field_at-append_ne,
}
use libbinrec.Rtl.Opt.Branch.{has_insns, index}
use libbinrec.Rtl.Builder.Finish.{is_goto, label_block, add_goto_edge, add_block_edge}

abbrev pub busy : List BasicBlock → ℕ → Bool
busy bs k = field_at has_insns false bs k

busy-get_or : (bs : List BasicBlock) (k : ℕ) → has_insns (get_or bs k blank_block) ≡ busy bs k
busy-get_or [] k = refl
busy-get_or (b ∷ bs) zero = refl
busy-get_or (b ∷ bs) (suc k) = busy-get_or bs k

pub busy_past : (bs : List BasicBlock) (k : ℕ) → length bs ≤ k → busy bs k ≡ false
busy_past [] k l = refl
busy_past (b ∷ bs) zero l = absurd (omega arith)
busy_past (b ∷ bs) (suc k) l = busy_past bs k (omega arith)

-- The same instructions, registers and aliases.
pub record SameCode (u u' : RtlUnit) : Type 0 where
  pub insns : u'.insns ≡ u.insns
  pub regs : u'.regs ≡ u.regs
  pub aliases : u'.aliases ≡ u.aliases
  pub regs_size : u'.regs_size ≡ u.regs_size

pub SameCode-refl : (u : RtlUnit) → SameCode u u
SameCode-refl u = record { insns = refl; regs = refl; aliases = refl; regs_size = refl }

pub SameCode-trans : {u v w : RtlUnit} → SameCode u v → SameCode v w → SameCode u w
SameCode-trans a b = record {
  insns = b.insns ∙ a.insns;
  regs = b.regs ∙ a.regs;
  aliases = b.aliases ∙ a.aliases;
  regs_size = b.regs_size ∙ a.regs_size;
}

-- What an edge does to the blocks: at most one more, which is empty.
pub record Step (u u' : RtlUnit) : Type 0 where
  pub least : length u.blocks ≤ length u'.blocks
  pub most : length u'.blocks ≤ suc (length u.blocks)
  pub labels : u'.label_blockmap ≡ u.label_blockmap
  pub code : SameCode u u'
  pub same : (k : ℕ) → busy u'.blocks k ≡ busy u.blocks k

Step-refl : (u : RtlUnit) → Step u u
Step-refl u = record {
  least = omega arith;
  most = omega arith;
  labels = refl;
  code = SameCode-refl u;
  same = λ k. refl;
}

-- A change of a block that leaves its instructions alone.
Step-update :
    (u v : RtlUnit) (i : ℕ) (f : BasicBlock → BasicBlock)
    → ((b : BasicBlock) → has_insns (f b) ≡ has_insns b)
    → Step u v
    → Step u (record v { blocks = update_block v.blocks i f })
Step-update u v i f keep s = record {
  least = omega (arith, length-update v.blocks i f, s.least);
  most = omega (arith, length-update v.blocks i f, s.most);
  labels = s.labels;
  code = record {
    insns = s.code.insns;
    regs = s.code.regs;
    aliases = s.code.aliases;
    regs_size = s.code.regs_size;
  };
  same = λ k. field_at-update_keep has_insns false v.blocks i k f keep ∙ s.same k;
}

dummy_Step :
    (slot : BasicBlock) (u : RtlUnit) (size : ℕ) (from : ℤ) (target : BasicBlock)
    → Step u (record u {
      blocks = update_block (u.blocks ++ slot ∷ []) (length u.blocks) (fill_dummy from target);
      blocks_size = size;
    })
dummy_Step slot u size from target = record {
  least = omega (arith, length-update more n fill, length-append u.blocks (slot ∷ []));
  most = omega (arith, length-update more n fill, length-append u.blocks (slot ∷ []));
  labels = refl;
  code = record { insns = refl; regs = refl; aliases = refl; regs_size = refl };
  same = λ k. elim (ℕ_discrete n k) [
    | yes e ↦
        subst (λ k. busy (update_block more n fill) k ≡ busy u.blocks k) e
          (field_at-update_self has_insns false more n fill (λ x. false) (λ b. refl)
              (omega (arith, length-append u.blocks (slot ∷ [])))
            ∙ sym (busy_past u.blocks n (omega arith)))
    | no ne ↦
        field_at-update_ne has_insns false more n k fill ne
        ∙ field_at-append_ne has_insns false u.blocks slot k ne
  ];
}
  where
    n : ℕ
    n = length u.blocks

    more : List BasicBlock
    more = u.blocks ++ slot ∷ []

    fill : BasicBlock → BasicBlock
    fill = fill_dummy from target

overflow_entries-Step :
    (memory : Bool) (slot : BasicBlock) (w u : RtlUnit) (from m to : ℕ) (i : ℤ)
    (target : BasicBlock)
    → length u.blocks < 65535
    → Step w u
    → length u.blocks ≡ length w.blocks
    → Step w (overflow_entries memory slot u from i m to target).1
unfolding overflow_entries
overflow_entries-Step memory slot w u from m to i target few s len =
    elim (get_new_block-cases memory slot u few) [
      | inl short ↦ rw (short.0, overflow_entries) (Step-update w u from _ (λ b. refl) s)
      | inr (size, e) ↦
          rw (e, overflow_entries)
            (Step-update w _ to (link_dummy (signed 16 (length u.blocks))) (λ b. refl)
              (dummy_after (dummy_Step slot u size i target)))
    ]
  where
    dummy_after : {v : RtlUnit} → Step u v → Step w v
    dummy_after d = record {
      least = omega (arith, d.least, len);
      most = omega (arith, d.most, len);
      labels = d.labels ∙ s.labels;
      code = SameCode-trans s.code d.code;
      same = λ k. d.same k ∙ s.same k;
    }

add_entry-Step :
    (memory : Bool) (slot : BasicBlock) (w u : RtlUnit) (from m to : ℕ) (i : ℤ)
    (target : BasicBlock) (o : Option ℕ)
    → length u.blocks < 65535
    → Step w u
    → length u.blocks ≡ length w.blocks
    → Step w (add_entry memory slot u from i m to target o).1
unfolding add_entry
add_entry-Step memory slot w u from m to i target none few s len =
    overflow_entries-Step memory slot w u from m to i target few s len
add_entry-Step memory slot w u from m to i target (some j) few s len =
    Step-update w u to _ (λ b. refl) s

-- A call that returns, after a step.
abbrev pub Returns : RtlUnit → Option (Bool × RtlUnit) → Type 0
Returns u o = (r : Bool × RtlUnit) × (o ≡ some r) × Step u r.1

module _ (memory : Bool) (slot : BasicBlock) (u : RtlUnit) (few : length u.blocks < 65535) where
  add_exit-Returns :
      (from to : ℕ) (i j : ℤ) (s : ExitSlot)
      → to < length u.blocks
      → Returns u (add_exit memory slot u from to i j s)
  unfolding add_exit
  add_exit-Returns from to i j ExitSlot.present lt = ((true, u), refl, Step-refl u)
  add_exit-Returns from to i j ExitSlot.too_many lt = ((false, u), refl, Step-refl u)
  add_exit-Returns from to i j (ExitSlot.free_slot m) lt =
      let f : BasicBlock → BasicBlock = λ b. record b { exits = set b.exits m j } in
      let half : RtlUnit = record u { blocks = update_block u.blocks from f } in
      let (target, got) =
        get_elem?_total half.blocks to (omega (arith, length-update u.blocks from f, lt)) in
      (
        add_entry memory slot half from i m to target (find_entry target.entries 0),
        rw got refl,
        add_entry-Step memory slot u half from m to i target (find_entry target.entries 0)
            (omega (arith, few, length-update u.blocks from f))
            (Step-update u u from f (λ b. refl) (Step-refl u)) (length-update u.blocks from f),
      )

  block_add_edge-Returns :
      (from to : ℕ)
      → from < length u.blocks
      → to < length u.blocks
      → Returns u (block_add_edge memory slot u from to)
  unfolding block_add_edge
  block_add_edge-Returns from to lt lt' =
      let (source, got) = get_elem?_total u.blocks from lt in
      rw got
        (add_exit-Returns from to (signed 16 from) (signed 16 to) (find_exit to source.exits 0) lt')

  add_goto_edge-Returns :
      (from : ℕ) (target : ℤ)
      → from < length u.blocks
      → ((t : ℕ) → target ≡ pos t → t < length u.blocks)
      → Returns u (add_goto_edge memory slot u from target)
  unfolding add_goto_edge
  add_goto_edge-Returns from (negsuc _) lt mapped = ((false, u), refl, Step-refl u)
  add_goto_edge-Returns from (pos t) lt mapped = block_add_edge-Returns from t lt (mapped t refl)

  -- An empty block gets no edge.
  pub add_block_edge_empty :
      (i : ℕ) → busy u.blocks i ≡ false → add_block_edge memory slot u i ≡ some (true, u)
  unfolding add_block_edge
  add_block_edge_empty i e = rw (busy-get_or u.blocks i ∙ e) refl

  pub add_block_edge-Returns :
      (i : ℕ)
      → i < length u.blocks
      → ((l t : ℕ) → label_block u l ≡ pos t → t < length u.blocks)
      → Returns u (add_block_edge memory slot u i)
  unfolding add_block_edge
  add_block_edge-Returns i lt mapped =
      let last : ℕ = index (block_at u i).last_insn in
      elim (Bool-cases (has_insns (block_at u i) && is_goto (insn_at u last).opcode)) [
        | inl e ↦ rw e (
            add_goto_edge-Returns i (label_block u (insn_at u last).label) lt
              (mapped (insn_at u last).label))
        | inr e ↦ rw e ((true, u), refl, Step-refl u)
      ]
