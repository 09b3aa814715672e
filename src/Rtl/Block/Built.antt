-- ===== src/Rtl/Block/Built.antt =====
-- The flow graphs that calls of the functions of src/rtl-block.c can build, in any order, from a unit
-- without blocks.
use libbinrec.Common.{
  ℕ, ◌<◌, ◌≡◌, refl, sym, ◌∙◌, ap, subst, Bool, true, List, [], ◌∷◌, length, get_elem?, Option,
  some, none, pos, ◌⊎◌, inl, inr, arith,
}
use libbinrec.Rtl.Unit.{BasicBlock, RtlUnit}
use libbinrec.Rtl.Block.{block_add, block_add_edge, block_remove_edge}
use libbinrec.Rtl.Block.Graph.{exits_at, out_count, tail_count, in_count, count_slots, Consistent}
use libbinrec.Rtl.Block.Added.{Added}
use libbinrec.Rtl.Block.AddBlock.{AddOutcome, no_block, new_block, block_add-AddOutcome}
use libbinrec.Rtl.Block.AddEdge.{Outcome, there, added, full, no_memory, block_add_edge-Outcome}
use libbinrec.Rtl.Block.Removed.{block_remove_edge-Removed}

-- Block k is among those given out.
abbrev pub Given : ℕ → List ℕ → Type 0
Given k [] = ⊥
Given k (b ∷ blocks) = (k ≡ b) ⊎ Given k blocks

-- The unit, and the numbers of the blocks that rtl_block_add() has given out. A call on other blocks,
-- or on an unused exit slot, is against the assertions. What a call returns is what the next one finds.
pub data Built : RtlUnit → List ℕ → Type 0 where
  empty : (u : RtlUnit) → u.blocks ≡ [] → Built u []
  add_block :
      (memory : Bool) (slot : BasicBlock) {u u' : RtlUnit} {blocks : List ℕ}
      → Built u blocks
      → length u.blocks < 32768
      → block_add memory slot u ≡ (true, u')
      → Built u' (length u.blocks ∷ blocks)
  add_edge :
      (memory : Bool) (slot : BasicBlock) {u u' : RtlUnit} {blocks : List ℕ} (from to : ℕ)
      {ok : Bool}
      → Built u blocks
      → Given from blocks
      → Given to blocks
      → length u.blocks < 32768
      → block_add_edge memory slot u from to ≡ some (ok, u')
      → Built u' blocks
  remove_edge :
      {u u' : RtlUnit} {blocks : List ℕ} (from to m : ℕ)
      → Built u blocks
      → Given from blocks
      → get_elem? (exits_at u.blocks from) m ≡ some (pos to)
      → block_remove_edge u from m ≡ some u'
      → Built u' blocks

-- The graph is consistent, and the blocks given out are real.
pub record Sound (own : ℕ → ℕ) (bs : List BasicBlock) (blocks : List ℕ) : Type 0 where
  pub consistent : Consistent own bs
  pub real : (k : ℕ) → Given k blocks → (own k ≡ 0) × (k < length bs)

empty-Sound : Sound (λ k. 0) [] []
unfolding out_count in_count count_slots tail_count
empty-Sound = record {
  consistent = record {
    chains = λ t r. tt;
    targets = λ k y r some_edge. absurd (omega arith);
    mirrored = λ k y rk ry. refl;
    slots = λ k r l. absurd (omega arith);
    fresh = λ k l. refl;
  };
  real = λ k m. absurd m;
}

module _ {own own' : ℕ → ℕ} {bs bs' : List BasicBlock} {blocks : List ℕ} {gain : ℕ → ℕ → ℕ}
    (s : Sound own bs blocks) where
  Added-Sound : Added own bs own' bs' gain → Sound own' bs' blocks
  Added-Sound a = record {
    consistent = a.consistent;
    real = λ k m. let (r, l) = s.real k m in a.real k r l;
  }

-- After a call the graph is sound again, for some choice of the extension blocks.
abbrev Kept : List ℕ → Bool × RtlUnit → Type 0
Kept blocks (ok, u') = (own' : ℕ → ℕ) × Sound own' u'.blocks blocks

module _ {ok ok' : Bool} {u u' : RtlUnit} where
  -- What a call returned, by its equation.
  returned_unit : ◌≡◌ {A = Option (Bool × RtlUnit)} (some (ok, u)) (some (ok', u')) → u ≡ u'
  returned_unit e = ap (λ o. elim o [ some p ↦ p.1 | none ↦ u ]) e

edge-Kept :
    (own : ℕ → ℕ) (memory : Bool) (u : RtlUnit) (from to : ℕ) (blocks : List ℕ)
    → Sound own u.blocks blocks
    → (ok : Bool) (u' : RtlUnit) (o : Option (Bool × RtlUnit)) → Outcome own memory u from to o
    → o ≡ some (ok, u')
    → Kept blocks (ok, u')
edge-Kept own memory u from to blocks s ok u' _ (there _) e =
    (own, subst (λ x. Sound own x.blocks blocks) (returned_unit e) s)
edge-Kept own memory u from to blocks s ok u' _ (added own' v a) e =
    (own', subst (λ x. Sound own' x.blocks blocks) (returned_unit e) (Added-Sound s a))
edge-Kept own memory u from to blocks s ok u' _ (full _ _) e =
    (own, subst (λ x. Sound own x.blocks blocks) (returned_unit e) s)
edge-Kept own memory u from to blocks s ok u' _ (no_memory v _ a) e =
    (own, subst (λ x. Sound own x.blocks blocks) (returned_unit e) (Added-Sound s a))

block-Kept :
    (own : ℕ → ℕ) (memory : Bool) (u u' : RtlUnit) (blocks : List ℕ)
    → Sound own u.blocks blocks
    → (o : Bool × RtlUnit) → AddOutcome own memory u o
    → o ≡ (true, u')
    → Sound own u'.blocks (length u.blocks ∷ blocks)
block-Kept own memory u u' blocks s _ (no_block _) e = cc
block-Kept own memory u u' blocks s _ (new_block v len _ a) e =
    subst (λ x. Sound own x.blocks (length u.blocks ∷ blocks)) (ap (λ o. o.1) e)
      (record {
        consistent = a.consistent;
        real = λ k given. elim given [
          | inl new ↦ (s.consistent.fresh k (omega (arith, new)), omega (arith, new, len))
          | inr old ↦ let (r, l) = s.real k old in a.real k r l
        ];
      })

remove-Kept :
    (own : ℕ → ℕ) (u u' : RtlUnit) (from to m : ℕ) (blocks : List ℕ)
    → Sound own u.blocks blocks
    → Given from blocks
    → get_elem? (exits_at u.blocks from) m ≡ some (pos to)
    → block_remove_edge u from m ≡ some u'
    → Sound own u'.blocks blocks
remove-Kept own u u' from to m blocks s given exit e =
    let (r, l) = s.real from given in
    let (v, returned, gone) = block_remove_edge-Removed own u from to m s.consistent r l exit in
    subst (λ x. Sound own x.blocks blocks) (some_unit (sym returned ∙ e))
      (record {
        consistent = gone.consistent;
        real = λ k g. let (rk, lk) = s.real k g in (rk, omega (arith, lk, gone.size));
      })
  where
    some_unit : {v w : RtlUnit} → some v ≡ some w → v ≡ w
    some_unit e = cc

-- However the functions of src/rtl-block.c are called from an empty unit on, on blocks they have given
-- out and used exit slots, with fewer than 32768 blocks where a block or an edge is added: there is a choice of extension blocks for which the flow graph is consistent
-- and all blocks given out are real ones of it.
pub Built-Sound :
    (u : RtlUnit) (blocks : List ℕ) → Built u blocks → (own : ℕ → ℕ) × Sound own u.blocks blocks
Built-Sound u _ (empty _ e) = (λ k. 0, subst (λ bs. Sound (λ k. 0) bs []) (sym e) empty-Sound)
Built-Sound u' _ (add_block memory slot {u = u} {blocks = blocks} b few e) =
    let (own, s) = Built-Sound u blocks b in
    (
      own,
      block-Kept own memory u u' blocks s (block_add memory slot u)
          (block_add-AddOutcome own memory slot u s.consistent few) e,
    )
Built-Sound u' blocks (add_edge memory slot {u} from to {ok} b gf gt few e) =
    let (own, s) = Built-Sound u blocks b in
    let (rf, lf) = s.real from gf in
    let (rt, lt) = s.real to gt in
    edge-Kept own memory u from to blocks s ok u' (block_add_edge memory slot u from to)
      (block_add_edge-Outcome own memory slot u from to s.consistent rt lf lt few) e
Built-Sound u' blocks (remove_edge {u} from to m b given exit e) =
    let (own, s) = Built-Sound u blocks b in
    (own, remove-Kept own u u' from to m blocks s given exit e)
