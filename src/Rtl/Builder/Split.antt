-- ===== src/Rtl/Builder/Split.antt =====
-- The end of a basic block and the start of the next one, which the first falls through to: the edge
-- between the two that the encoders assert is always added.
use libbinrec.Common.{
  ℕ, ◌+◌, ◌-◌, ◌<◌, ◌≡◌, ◌≢◌, refl, sym, ◌∙◌, ap, Bool, true, false, inl, inr, ◌⊎◌, List, [],
  length, get_elem?_total, some, ℤ, pos, arith,
}
use libbinrec.Word.{signed}
use libbinrec.Rtl.Unit.{BasicBlock, RtlUnit}
use libbinrec.Rtl.Block.{
  update_block, block_add, block_add_edge, add_exit, add_entry, find_exit, find_entry, no_entries,
  no_exits,
}
use libbinrec.Rtl.Block.Graph.{exits_at, entries_at}
use libbinrec.Rtl.Block.Slots.{
  length-update, field_at-update_ne, field_at-update_keep, field_at-get,
}
use libbinrec.Rtl.Block.Added.{set_exit, set_entry}
use libbinrec.Rtl.Block.AddBlock.{length-grown, old_field, new_field}
use libbinrec.Rtl.Block.Grow.{get_new_block-cases}
use libbinrec.Rtl.Insn.Flow.{Made, end_block, enter_block, split_block}

-- Nothing that the instructions and registers are made of has changed.
pub record SameCode (u u' : RtlUnit) : Type 0 where
  pub insns : u'.insns ≡ u.insns
  pub regs : u'.regs ≡ u.regs
  pub aliases : u'.aliases ≡ u.aliases
  pub have_block : u'.have_block ≡ u.have_block
  pub regs_size : u'.regs_size ≡ u.regs_size
  pub aliases_size : u'.aliases_size ≡ u.aliases_size
  pub labels : u'.label_blockmap ≡ u.label_blockmap

-- The current block is a block of the unit, and leads nowhere yet.
pub record Current (u : RtlUnit) : Type 0 where
  pub cur_lt : u.cur_block < length u.blocks
  pub no_exit : exits_at u.blocks u.cur_block ≡ no_exits

-- A new block: it has no edges, and is not the current block yet.
pub record Begun (u u' : RtlUnit) : Type 0 where
  pub same : SameCode u u'
  pub cur : u'.cur_block ≡ u.cur_block
  pub size : length u'.blocks ≡ length u.blocks + 1
  pub old_exits : (k : ℕ) → k < length u.blocks → exits_at u'.blocks k ≡ exits_at u.blocks k
  pub new_exits : exits_at u'.blocks (length u.blocks) ≡ no_exits
  pub new_entries : entries_at u'.blocks (length u.blocks) ≡ no_entries

pub block_add-Begun :
    (memory : Bool) (slot : BasicBlock) (u : RtlUnit)
    → length u.blocks < 65535
    → ((block_add memory slot u).0 ≡ false)
      ⊎ (((block_add memory slot u).0 ≡ true) × Begun u (block_add memory slot u).1)
unfolding block_add
block_add-Begun memory slot u few = elim (get_new_block-cases memory slot u few) [
  | inl short ↦ inl (rw (short.0, block_add) refl)
  | inr found ↦
      let bs : List BasicBlock = u.blocks in
      let live : ℕ = length u.regs - 1 in
      let next : ℤ = signed 16 (length bs) in
      inr (
        rw (found.1, block_add)
          (
            refl,
            record {
              same = record {
                insns = refl;
                regs = refl;
                aliases = refl;
                have_block = refl;
                regs_size = refl;
                aliases_size = refl;
                labels = refl;
              };
              cur = refl;
              size = length-grown bs slot u.last_block next live;
              old_exits = λ k l.
                  old_field bs slot u.last_block next live (λ b. b.exits) [] k
                    (λ e. omega (arith, e, l)) (λ b. refl) (λ b. refl);
              new_exits =
                  new_field bs slot u.last_block next live (λ b. b.exits) [] no_exits (λ b. refl);
              new_entries =
                  new_field bs slot u.last_block next live (λ b. b.entries) [] no_entries
                    (λ b. refl);
            },
          ))
]

-- An edge between a block without exits and one without entries takes the first slot of both.
fall_through :
    (memory : Bool) (slot : BasicBlock) (u : RtlUnit) (from to : ℕ)
    → from < length u.blocks
    → to < length u.blocks
    → exits_at u.blocks from ≡ no_exits
    → entries_at u.blocks to ≡ no_entries
    → block_add_edge memory slot u from to
      ≡ some (
        true,
        record u {
          blocks =
              update_block
                (update_block u.blocks from (set_exit 0 (signed 16 to)))
                to
                (set_entry 0 (signed 16 from));
        },
      )
unfolding block_add_edge add_exit add_entry find_exit find_entry
fall_through memory slot u from to lf lt no_exit no_entry =
    let half : List BasicBlock = update_block u.blocks from (set_exit 0 (signed 16 to)) in
    let (source, got) = get_elem?_total u.blocks from lf in
    let exits = sym (field_at-get (λ b. b.exits) [] u.blocks from got) ∙ no_exit in
    let (target, got2) =
      get_elem?_total half to
        (omega (arith, lt, length-update u.blocks from (set_exit 0 (signed 16 to)))) in
    let entries : target.entries ≡ no_entries =
      sym (field_at-get (λ b. b.entries) [] half to got2)
      ∙ field_at-update_keep (λ b. b.entries) [] u.blocks from to (set_exit 0 (signed 16 to))
          (λ b. refl)
      ∙ no_entry in
    rw got (rw exits (rw got2 (rw entries refl)))

-- What the unit is like in its new block.
pub record Entered (u u' : RtlUnit) : Type 0 where
  pub same : SameCode u u'
  pub current : Current u'

module _ (memory : Bool) (slot : BasicBlock) (u v : RtlUnit) (first : ℕ) (c : Current u)
    (b : Begun u v) where
  abbrev new_block : ℕ
  new_block = length v.blocks - 1

  new_block-eq : length u.blocks ≡ new_block
  new_block-eq = omega (arith, b.size)

  cur_ne : v.cur_block ≢ new_block
  cur_ne e = omega (arith, e, b.cur, c.cur_lt, new_block-eq)

  abbrev linked : List BasicBlock
  linked =
      update_block (update_block v.blocks v.cur_block (set_exit 0 (signed 16 new_block))) new_block
        (set_entry 0 (signed 16 v.cur_block))

  abbrev entered : RtlUnit
  entered = record v {
    cur_block = new_block;
    blocks = update_block linked new_block (λ x. record x { first_insn = pos first });
  }

  enters :
      enter_block v new_block first (block_add_edge memory slot v v.cur_block new_block)
      ≡ some entered
  unfolding enter_block
  enters =
      rw
        (fall_through memory slot v v.cur_block new_block (omega (arith, b.cur, b.size, c.cur_lt))
          (omega (arith, b.size))
          (ap (λ k. exits_at v.blocks k) b.cur ∙ b.old_exits u.cur_block c.cur_lt ∙ c.no_exit)
          (ap (λ k. entries_at v.blocks k) (sym new_block-eq) ∙ b.new_entries))
        refl

  entered-Entered : Entered u entered
  entered-Entered = record {
    same = record {
      insns = b.same.insns;
      regs = b.same.regs;
      aliases = b.same.aliases;
      have_block = b.same.have_block;
      regs_size = b.same.regs_size;
      aliases_size = b.same.aliases_size;
      labels = b.same.labels;
    };
    current = record {
      cur_lt = omega (
        arith,
        b.size,
        length-update linked new_block (λ x. record x { first_insn = pos first }),
        length-update (update_block v.blocks v.cur_block (set_exit 0 (signed 16 new_block)))
            new_block (set_entry 0 (signed 16 v.cur_block)),
        length-update v.blocks v.cur_block (set_exit 0 (signed 16 new_block)),
      );
      no_exit =
          field_at-update_keep (λ x. x.exits) [] linked new_block new_block
            (λ x. record x { first_insn = pos first }) (λ x. refl)
          ∙ field_at-update_keep (λ x. x.exits) []
              (update_block v.blocks v.cur_block (set_exit 0 (signed 16 new_block))) new_block
              new_block (set_entry 0 (signed 16 v.cur_block)) (λ x. refl)
          ∙ field_at-update_ne (λ x. x.exits) [] v.blocks v.cur_block new_block
              (set_exit 0 (signed 16 new_block)) cur_ne
          ∙ ap (λ k. exits_at v.blocks k) (sym new_block-eq)
          ∙ b.new_exits;
    };
  }

pub end_block-Current : (u : RtlUnit) (last : ℤ) → Current u → Current (end_block u last)
end_block-Current u last c = record {
  cur_lt =
      omega
        (arith, c.cur_lt, length-update u.blocks u.cur_block (λ b. record b { last_insn = last }));
  no_exit =
      field_at-update_keep (λ b. b.exits) [] u.blocks u.cur_block u.cur_block
        (λ b. record b { last_insn = last }) (λ b. refl)
      ∙ c.no_exit;
}

pub split_block-cases :
    (memory : Bool) (slot : BasicBlock) (u : RtlUnit) (last : ℤ) (first : ℕ) (k : RtlUnit → Made)
    → Current u
    → length u.blocks < 65535
    → ((u' : RtlUnit) × (split_block memory slot u last first k ≡ Made.failed u'))
      ⊎ ((u' : RtlUnit) × (split_block memory slot u last first k ≡ k u') × Entered u u')
unfolding split_block
split_block-cases memory slot u last first k c few =
    let ended : RtlUnit = end_block u last in
    elim (block_add-Begun memory slot ended (
      omega
        (arith, few, length-update u.blocks u.cur_block (λ b. record b { last_insn = last })))) [
          | inl short ↦ inl ((block_add memory slot ended).1, rw short refl)
          | inr (ok, b) ↦
              let v : RtlUnit = (block_add memory slot ended).1 in
              let c' : Current ended = end_block-Current u last c in
              let e = entered-Entered memory slot ended v first c' b in
              inr (
                entered memory slot ended v first c' b,
                rw ok (rw (enters memory slot ended v first c' b) refl),
                record {
                  same = record {
                    insns = e.same.insns;
                    regs = e.same.regs;
                    aliases = e.same.aliases;
                    have_block = e.same.have_block;
                    regs_size = e.same.regs_size;
                    aliases_size = e.same.aliases_size;
                    labels = e.same.labels;
                  };
                  current = e.current;
                },
              )
        ]
