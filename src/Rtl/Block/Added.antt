-- ===== src/Rtl/Block/Added.antt =====
-- What it means that rtl_block_add_edge() adds an edge, and the writes to the exit list.
use native.Mathlib.Decide.{ℕ_discrete}
use libbinrec.Common.{
  ℕ, suc, ◌+◌, ◌<◌, ◌≤◌, ◌≡◌, ◌≢◌, refl, sym, subst, ◌∙◌, ap, ◌==◌, ==_refl, ==_ne, ◌&&◌, bool_to_ℕ,
  List, [], length, set, ℤ, pos, negsuc, arith,
}
use libbinrec.Rtl.Unit.{BasicBlock}
use libbinrec.Rtl.Block.{update_block}
use libbinrec.Rtl.Block.Graph.{
  entries_at, overflow_at, exits_at, count_slots, tail_count, in_count, out_count, Chain, SameTail,
  Consistent, Chain-same, tail_count-same, Consistent-transfer,
}
use libbinrec.Rtl.Block.Slots.{
  length-update, field_at-update_ne, field_at-update_keep, field_at-update_self, FreeAt, count-set,
  count-clear,
}

-- One edge, from block `from` to block `to`.
abbrev pub edge : ℕ → ℕ → ℕ → ℕ → ℕ
edge from to k y = bool_to_ℕ (from == k && to == y)

abbrev pub set_exit : ℕ → ℤ → BasicBlock → BasicBlock
set_exit m v b = record b { exits = set b.exits m v }

abbrev pub set_entry : ℕ → ℤ → BasicBlock → BasicBlock
set_entry m v b = record b { entries = set b.entries m v }

-- `bs'` is a consistent graph with the edges of `bs` and `gain`.
pub record Added (own : ℕ → ℕ) (bs : List BasicBlock) (own' : ℕ → ℕ) (bs' : List BasicBlock)
    (gain : ℕ → ℕ → ℕ) : Type 0 where
  pub consistent : Consistent own' bs'
  pub outs : (k y : ℕ) → own' k ≡ 0 → out_count bs' k y ≡ out_count bs k y + gain k y
  pub real : (k : ℕ) → own k ≡ 0 → k < length bs → (own' k ≡ 0) × (k < length bs')

pub edge_ne : (from to k y : ℕ) → from ≢ k → edge from to k y ≡ 0
edge_ne from to k y ne = rw (==_ne from k ne)

pub edge_self : (from to y : ℕ) → edge from to from y ≡ bool_to_ℕ (to == y)
edge_self from to y = rw (==_refl from)

pub edge_to_ne : (from to k y : ℕ) → to ≢ y → edge from to k y ≡ 0
edge_to_ne from to k y ne = ground (arith, ==_ne to y ne)

pub edge_to_self : (from to k : ℕ) → edge from to k to ≡ bool_to_ℕ (from == k)
edge_to_self from to k = ground (arith, ==_refl to)

pub edge-real : (from to k y : ℕ) → 0 < edge from to k y → to ≡ y
edge-real from to k y h = ground arith

module _ (bs : List BasicBlock) (from to : ℕ) (lt : from < length bs) where
  -- Writing an unused exit slot.
  pub out_count-set_exit :
      (m k y : ℕ)
      → FreeAt (exits_at bs from) m
      → out_count (update_block bs from (set_exit m (pos to))) k y
        ≡ out_count bs k y + edge from to k y
  unfolding out_count
  out_count-set_exit m k y free = elim (ℕ_discrete from k) [
    | yes e ↦
        subst
          (λ k.
            count_slots y (exits_at (update_block bs from (set_exit m (pos to))) k)
            ≡ count_slots y (exits_at bs k) + edge from to k y)
          e
          (ap (count_slots y) (
              field_at-update_self (λ b. b.exits) [] bs from (set_exit m (pos to))
                (λ es. set es m (pos to)) (λ b. refl) lt)
            ∙ count-set (exits_at bs from) m to y free
            ∙ ap (λ (n : ℕ). count_slots y (exits_at bs from) + n) (sym (edge_self from to y)))
    | no ne ↦
        ap (count_slots y) (field_at-update_ne (λ b. b.exits) [] bs from k (set_exit m (pos to)) ne)
        ∙ omega (arith, edge_ne from to k y ne)
  ]

  -- Writing it and clearing it again.
  out_count-clear :
      (m k y : ℕ)
      → FreeAt (exits_at bs from) m
      → out_count
          (update_block (update_block bs from (set_exit m (pos to))) from (set_exit m (negsuc 0)))
          k
          y
        ≡ out_count bs k y
  unfolding out_count
  out_count-clear m k y free = elim (ℕ_discrete from k) [
    | yes e ↦
        subst
          (λ k.
            count_slots y (
              exits_at
                (update_block (update_block bs from (set_exit m (pos to))) from
                  (set_exit m (negsuc 0)))
                k)
            ≡ count_slots y (exits_at bs k))
          e
          (ap (count_slots y) (
              field_at-update_self (λ b. b.exits) [] (update_block bs from (set_exit m (pos to)))
                from (set_exit m (negsuc 0)) (λ es. set es m (negsuc 0)) (λ b. refl)
                (omega (arith, length-update bs from (set_exit m (pos to))))
              ∙ ap (λ es. set es m (negsuc 0))
                  (field_at-update_self (λ b. b.exits) [] bs from (set_exit m (pos to))
                    (λ es. set es m (pos to)) (λ b. refl) lt))
            ∙ count-clear (exits_at bs from) m to y free)
    | no ne ↦ ap (count_slots y) (
        field_at-update_ne (λ b. b.exits) [] (update_block bs from (set_exit m (pos to))) from k
          (set_exit m (negsuc 0)) ne
        ∙ field_at-update_ne (λ b. b.exits) [] bs from k (set_exit m (pos to)) ne)
  ]

module _ (own own' : ℕ → ℕ) (bs bs' : List BasicBlock) (le : length bs ≤ length bs') (y : ℕ)
    (same : SameTail own own' y bs bs') (overflow : overflow_at bs' y ≡ overflow_at bs y)
    (chain : Chain own y (length bs) bs (overflow_at bs y)) where
  -- A block whose extensions are untouched has the entries of its own list changed, and no others.
  pub in_count-same :
      (x : ℕ)
      → in_count bs' y x + count_slots x (entries_at bs y)
        ≡ in_count bs y x + count_slots x (entries_at bs' y)
  unfolding in_count
  in_count-same x =
      let tails =
        tail_count-same own own' y (length bs) (length bs') bs bs' (overflow_at bs y) x le same
          chain in
      omega (arith, ap (λ i. tail_count (length bs') bs' i x) overflow ∙ tails)

  pub Chain-keep : Chain own' y (length bs') bs' (overflow_at bs' y)
  Chain-keep =
      rw overflow
        (Chain-same own own' y (length bs) (length bs') bs bs' (overflow_at bs y) le le same chain)

-- A list of blocks whose entry lists and chains are those of another.
abbrev pub SameEntries : List BasicBlock → List BasicBlock → Type 0
SameEntries bs bs' =
    (k : ℕ) → (entries_at bs' k ≡ entries_at bs k) × (overflow_at bs' k ≡ overflow_at bs k)

pub set_exit-SameEntries :
    (bs : List BasicBlock) (from m : ℕ) (v : ℤ)
    → SameEntries bs (update_block bs from (set_exit m v))
set_exit-SameEntries bs from m v k = (
  field_at-update_keep (λ b. b.entries) [] bs from k (set_exit m v) (λ b. refl),
  field_at-update_keep (λ b. b.entry_overflow) (negsuc 0) bs from k (set_exit m v) (λ b. refl),
)

-- With the exit slot set and cleared again nothing has changed.
pub clear-Added :
    (own : ℕ → ℕ) (bs : List BasicBlock) (from to m : ℕ)
    → Consistent own bs
    → from < length bs
    → FreeAt (exits_at bs from) m
    → Added own bs own
        (update_block (update_block bs from (set_exit m (pos to))) from (set_exit m (negsuc 0)))
        (λ k y. 0)
clear-Added own bs from to m c lt free = record {
  consistent =
      Consistent-transfer own own bs bs' (λ k y. 0) (λ k y. 0) c (λ k r. r)
        (λ y r l. (r, omega (arith, len))) (λ k y g. absurd (omega arith))
        (λ t r. Chain-keep own own bs bs' (omega (arith, len)) t (tail t) (same t).1 (c.chains t r))
        (λ k r l. ap length (same k).0 ∙ c.slots k r (omega (arith, len)))
        (λ k l. c.fresh k (omega (arith, len)))
        (λ k y r. omega (arith, out_count-clear bs from to lt m k y free))
        (λ k y rk ry. omega (
          arith,
          in_count-same own own bs bs' (omega (arith, len)) y (tail y) (same y).1 (c.chains y ry) k,
          ap (count_slots k) (same y).0,
        ));
  outs = λ k y r. omega (arith, out_count-clear bs from to lt m k y free);
  real = λ k r l. (r, omega (arith, len));
}
  where
    bs1 : List BasicBlock
    bs1 = update_block bs from (set_exit m (pos to))

    bs' : List BasicBlock
    bs' = update_block bs1 from (set_exit m (negsuc 0))

    len : length bs' ≡ length bs
    len =
        length-update bs1 from (set_exit m (negsuc 0)) ∙ length-update bs from (set_exit m (pos to))

    same : SameEntries bs bs'
    same k = (
      (set_exit-SameEntries bs1 from m (negsuc 0) k).0
          ∙ (set_exit-SameEntries bs from m (pos to) k).0,
      (set_exit-SameEntries bs1 from m (negsuc 0) k).1
          ∙ (set_exit-SameEntries bs from m (pos to) k).1,
    )

    tail : (t : ℕ) → SameTail own own t bs bs'
    tail t k o = (o, (same k).0, (same k).1)

pub not_ext : (own : ℕ → ℕ) (to k t : ℕ) → own to ≡ 0 → own k ≡ suc t → to ≢ k
not_ext own to k t r o e = absurd (omega (arith, ap own e))
