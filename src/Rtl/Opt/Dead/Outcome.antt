-- ===== src/Rtl/Opt/Dead/Outcome.antt =====
-- rtl_opt_drop_dead_blocks() of src/rtl-opt.c and the code stream.
use libbinrec.Common.{
  ℕ, ◌<◌, ◌≤◌, ◌≡◌, refl, sym, ◌∙◌, ap, subst, List, [], ◌∷◌, get_or, length, some, ◌>>=◌, ℤ, pos,
  negsuc, ==_refl, arith,
}
use libbinrec.Rtl.Unit.{BasicBlock, RtlUnit}
use libbinrec.Rtl.Unit.Access.{block_at, blank_block}
use libbinrec.Rtl.Block.{update_block}
use libbinrec.Rtl.Block.Graph.{
  exits_at, prev_at, out_count, count_slots, Consistent, Consistent-transfer,
}
use libbinrec.Rtl.Block.Slots.{length-update, field_at-update_keep}
use libbinrec.Rtl.Block.Added.{SameEntries, in_count-same, Chain-keep}
use libbinrec.Rtl.Opt.Reduced.{field_at-block, TwoSlots, TwoExits, Reduced}
use libbinrec.Rtl.Opt.Dead.{
  set_next, set_prev, relink, unlink_block, remove_exits, kill_block, drop_block,
}
use libbinrec.Rtl.Opt.Dead.Stream.{
  first, final, above, Before, After, SameLinks, Before-same, After-same, Before-higher,
  unlinked_last, relinked, length-relinked, relinked_ne, relinked-Before, relinked-After,
}
use libbinrec.Rtl.Opt.Dead.Exits.{Keeps, kill_block-Keeps, remove_exits-Cleared, two-Short}

-- A state of the blocks that differs from a consistent one in nothing but the links of the stream.
record Relinked (bs bs' : List BasicBlock) : Type 0 where
  entries : SameEntries bs bs'
  exits : (k : ℕ) → exits_at bs' k ≡ exits_at bs k
  size : length bs' ≡ length bs

set_next-Relinked :
    (bs : List BasicBlock) (y : ℕ) (h : ℤ) → Relinked bs (update_block bs y (set_next h))
set_next-Relinked bs y h = record {
  entries = λ k. (
    field_at-update_keep (λ b. b.entries) [] bs y k (set_next h) (λ b. refl),
    field_at-update_keep (λ b. b.entry_overflow) (negsuc 0) bs y k (set_next h) (λ b. refl),
  );
  exits = λ k. field_at-update_keep (λ b. b.exits) [] bs y k (set_next h) (λ b. refl);
  size = length-update bs y (set_next h);
}

set_prev-Relinked :
    (bs : List BasicBlock) (y : ℕ) (h : ℤ) → Relinked bs (update_block bs y (set_prev h))
set_prev-Relinked bs y h = record {
  entries = λ k. (
    field_at-update_keep (λ b. b.entries) [] bs y k (set_prev h) (λ b. refl),
    field_at-update_keep (λ b. b.entry_overflow) (negsuc 0) bs y k (set_prev h) (λ b. refl),
  );
  exits = λ k. field_at-update_keep (λ b. b.exits) [] bs y k (set_prev h) (λ b. refl);
  size = length-update bs y (set_prev h);
}

-- A graph that is as good as `bs`, with no other edges than `bs` has.
pub record Smaller (own : ℕ → ℕ) (bs bs' : List BasicBlock) : Type 0 where
  pub consistent : Consistent own bs'
  pub exits : TwoExits own bs'
  pub size : length bs' ≡ length bs
  pub outs : (k y : ℕ) → out_count bs' k y ≤ out_count bs k y

pub Smaller-trans :
    {own : ℕ → ℕ} {a b c : List BasicBlock} → Smaller own a b → Smaller own b c → Smaller own a c
Smaller-trans s t = record {
  consistent = t.consistent;
  exits = t.exits;
  size = t.size ∙ s.size;
  outs = λ k y. omega (arith, s.outs k y, t.outs k y);
}

pub Smaller-refl :
    (own : ℕ → ℕ) (bs : List BasicBlock) → Consistent own bs → TwoExits own bs → Smaller own bs bs
Smaller-refl own bs c two = record {
  consistent = c;
  exits = two;
  size = refl;
  outs = λ k y. omega arith;
}

Relinked-Smaller :
    (own : ℕ → ℕ) (bs bs' : List BasicBlock)
    → Consistent own bs
    → TwoExits own bs
    → Relinked bs bs'
    → Smaller own bs bs'
unfolding out_count
Relinked-Smaller own bs bs' c two r = record {
  consistent =
      Consistent-transfer own own bs bs' (λ k y. 0) (λ k y. 0) c (λ k rk. rk)
        (λ y ry l. (ry, omega (arith, l, r.size))) (λ k y g. absurd (omega arith))
        (λ t rt.
          Chain-keep own own bs bs' (omega (arith, r.size)) t
            (λ k o. (o, (r.entries k).0, (r.entries k).1)) (r.entries t).1 (c.chains t rt))
        (λ k rk l. ap length (r.entries k).0 ∙ c.slots k rk (omega (arith, l, r.size)))
        (λ k l. c.fresh k (omega (arith, l, r.size)))
        (λ k y rk. omega (arith, ap (count_slots y) (r.exits k)))
        (λ k y rk ry. omega (
          arith,
          in_count-same own own bs bs' (omega (arith, r.size)) y
              (λ j o. (o, (r.entries j).0, (r.entries j).1)) (r.entries y).1 (c.chains y ry) k,
          ap (count_slots k) (r.entries y).0,
        ));
  exits = λ b rb l. subst TwoSlots (sym (r.exits b)) (two b rb (omega (arith, l, r.size)));
  size = r.size;
  outs = λ k y. omega (arith, ap (count_slots y) (r.exits k));
}

-- The stream with the blocks `r` (the last one first) up to the current one and the blocks `s` after it.
pub record Stream (own : ℕ → ℕ) (u : RtlUnit) (r s : List ℕ) : Type 0 where
  pub before : Before own u.blocks (length u.blocks) (first s) r
  pub after : After own u.blocks (above r) (first r) s
  pub ends : u.last_block ≡ final (first r) s

-- The links alone decide.
Stream-same :
    (own : ℕ → ℕ) (u u' : RtlUnit) (r s : List ℕ)
    → length u'.blocks ≡ length u.blocks
    → ((k : ℕ) → SameLinks u.blocks u'.blocks k)
    → u'.last_block ≡ u.last_block
    → Stream own u r s
    → Stream own u' r s
Stream-same own u u' r s size same last l = record {
  before =
      Before-higher own u'.blocks (length u.blocks) (length u'.blocks) (first s) r
        (omega (arith, size))
        (Before-same own u.blocks u'.blocks size (length u.blocks) (first s) r (λ k lt. same k)
          l.before);
  after = After-same own u.blocks u'.blocks size (above r) (first r) s (λ k le. same k) l.after;
  ends = last ∙ l.ends;
}

-- What a part of the pass leaves.
pub record Left (own : ℕ → ℕ) (u u' : RtlUnit) (r s : List ℕ) : Type 0 where
  pub graph : Smaller own u.blocks u'.blocks
  pub stream : Stream own u' r s

module _ (own : ℕ → ℕ) (u : RtlUnit) (x y : ℕ) (r : List ℕ) (c : Consistent own u.blocks)
    (two : TwoExits own u.blocks) where
  relink-Left :
      (s : List ℕ)
      → Stream own u (x ∷ y ∷ r) s
      → (u' : RtlUnit) × (relink u x y (first s) ≡ some u')
        × Left own u u' (y ∷ r) s
        × (prev_at u'.blocks x ≡ pos y)
  unfolding relink
  relink-Left [] l = (
    record u { blocks = update_block u.blocks y (set_next (negsuc 0)); last_block = pos y },
    rw (l.ends, relink, ==_refl x) refl,
    record {
      graph =
          Relinked-Smaller own u.blocks (update_block u.blocks y (set_next (negsuc 0))) c two
            (set_next-Relinked u.blocks y (negsuc 0));
      stream = record {
        before =
            Before-higher own (update_block u.blocks y (set_next (negsuc 0))) x
              (length (update_block u.blocks y (set_next (negsuc 0)))) (negsuc 0) (y ∷ r)
              (omega (arith, l.before.2, length-update u.blocks y (set_next (negsuc 0))))
              (unlinked_last own u.blocks x y r l.before.5);
        after = tt;
        ends = refl;
      };
    },
    field_at-update_keep (λ b. b.prev_block) (negsuc 0) u.blocks y x (set_next (negsuc 0))
          (λ b. refl)
        ∙ l.before.4,
  )
  relink-Left (n ∷ s) l =
      let bs : List BasicBlock = relinked own u.blocks x y r n s l.before.5 l.after in
      let size : length bs ≡ length u.blocks =
        length-relinked own u.blocks x y r n s l.before.5 l.after in
      let half : Smaller own u.blocks (update_block u.blocks y (set_next (pos n))) =
        Relinked-Smaller own u.blocks (update_block u.blocks y (set_next (pos n))) c two
          (set_next-Relinked u.blocks y (pos n)) in
      (
        record u { blocks = bs },
        refl,
        record {
          graph = Smaller-trans half (
              Relinked-Smaller own (update_block u.blocks y (set_next (pos n))) bs half.consistent
                half.exits
                (set_prev-Relinked (update_block u.blocks y (set_next (pos n))) n (pos y)));
          stream = record {
            before =
                Before-higher own bs x (length bs) (pos n) (y ∷ r) (omega (arith, l.before.2, size))
                  (relinked-Before own u.blocks x y r n s l.before.5 l.after);
            after = relinked-After own u.blocks x y r n s l.before.5 l.after;
            ends = l.ends;
          };
        },
        (relinked_ne own u.blocks x y r n s l.before.5 l.after x (λ e. omega (arith, e, l.before.5))
              (λ e. omega (arith, e, l.after))).1
            ∙ l.before.4,
      )

  unlink_block-Left :
      (s : List ℕ)
      → Stream own u (x ∷ y ∷ r) s
      → (u' : RtlUnit) × (unlink_block u x ≡ some u')
        × Left own u u' (y ∷ r) s
        × (prev_at u'.blocks x ≡ pos y)
  unfolding unlink_block
  unlink_block-Left s l =
      let (u', e, left, back) = relink-Left s l in
      (
        u',
        rw
            (
              field_at-block (λ b. b.prev_block) (negsuc 0) u.blocks x l.before.2 ∙ l.before.4,
              unlink_block,
            )
            (ap (relink u x y)
                (field_at-block (λ b. b.next_block) (negsuc 0) u.blocks x l.before.2 ∙ l.before.3)
              ∙ e),
        left,
        back,
      )

  pub drop_block-Left :
      (s : List ℕ)
      → Stream own u (x ∷ y ∷ r) s
      → (u' : RtlUnit) × (drop_block u x ≡ some u')
        × Left own u u' (y ∷ r) s
        × ((block_at u' x).prev_block ≡ pos y)
  unfolding drop_block
  drop_block-Left s l =
      let (v, e, left, back) = unlink_block-Left s l in
      let lt : x < length v.blocks = omega (arith, l.before.2, left.graph.size) in
      let (w, e', cleared) =
        remove_exits-Cleared own 2 v x left.graph.consistent left.graph.exits l.before.1 lt
          (two-Short (exits_at v.blocks x) (left.graph.exits x l.before.1 lt).0) in
      let kept : Keeps w (kill_block w x) = kill_block-Keeps w x in
      let red : Reduced own v.blocks w.blocks = cleared.reduced in
      let graph : Smaller own u.blocks w.blocks = Smaller-trans left.graph (record {
        consistent = red.consistent;
        exits = red.exits;
        size = red.size;
        outs = red.outs;
      }) in
      (
        kill_block w x,
        ap (λ o. o >>= (λ u1. remove_exits 2 u1 x >>= (λ u2. some (kill_block u2 x)))) e
            ∙ ap (λ o. o >>= (λ u2. some (kill_block u2 x))) e',
        record {
          graph = subst (Smaller own u.blocks) (sym kept.0) graph;
          stream =
              Stream-same own v (kill_block w x) (y ∷ r) s (ap length kept.0 ∙ red.size)
                (λ k. subst (λ bs. SameLinks v.blocks bs k) (sym kept.0) (red.next k, red.prev k))
                (kept.1 ∙ cleared.last) left.stream;
        },
        ap (λ bs. (get_or bs x blank_block).prev_block) kept.0
            ∙ field_at-block (λ b. b.prev_block) (negsuc 0) w.blocks x (omega (arith, lt, red.size))
            ∙ red.prev x
            ∙ back,
      )
