-- ===== src/Rtl/Builder/Finalize.antt =====
-- rtl_finalize_unit() of src/rtl.c: its loop ends although the edges that it adds may add blocks.
use native.Mathlib.Decide.{dec_lt}
use libbinrec.Common.{
  none, ℕ, zero, suc, ◌+◌, ◌-◌, ◌*◌, ◌<◌, ◌≤◌, ◌≡◌, refl, ◌∙◌, ap, subst, Bool, true, false,
  Bool-cases, length, get_or, leb, some, ◌>>=◌, pos, negsuc, sub_ℕ, inl, inr, true_and_false,
  if◌then◌else◌, arith,
}
use libbinrec.Rtl.Unit.{BasicBlock, RtlUnit}
use libbinrec.Rtl.Block.Slots.{length-update}
use libbinrec.Rtl.Insn.Flow.{end_block}
use libbinrec.Rtl.Builder.Finish.{
  label_block, add_block_edge, add_block_edges, finalize, rtl_finalize_unit,
}
use libbinrec.Rtl.Builder.Edges.{
  SameCode, SameCode-refl, SameCode-trans, busy, busy_past, Step, add_block_edge_empty,
  add_block_edge-Returns,
}

-- Each label that has a block has one that exists.
abbrev pub Mapped : RtlUnit → Type 0
Mapped u = (l t : ℕ) → label_block u l ≡ pos t → t < length u.blocks

Step-Mapped : {u u' : RtlUnit} → Step u u' → Mapped u → Mapped u'
Step-Mapped {u} {u'} s mapped l t e =
    let old : t < length u.blocks =
      mapped l t (subst (λ ls. get_or ls l (negsuc 0) ≡ pos t) s.labels e) in
    omega (arith, old, s.least)

-- What the loop comes to: `n` blocks were there before it.
module _ (memory : ℕ → Bool) (slots : ℕ → BasicBlock) (n : ℕ) (small : 2 * n < 65535) where
  abbrev Ends : ℕ → RtlUnit → ℕ → Type 0
  Ends fuel u i =
      (r : Bool × RtlUnit) × (add_block_edges fuel memory slots u i ≡ some r) × SameCode u r.1

  abbrev Ahead : RtlUnit → ℕ → Type 0
  Ahead u i =
      (length u.blocks + (n - i) ≤ 2 * n) × ((k : ℕ) → n ≤ k → busy u.blocks k ≡ false) × Mapped u

  Ahead-Step : {u u' : RtlUnit} {i : ℕ} → i < n → Ahead u i → Step u u' → Ahead u' (i + 1)
  Ahead-Step lt a s = (omega (arith, a.0, lt, s.most), λ k l. s.same k ∙ a.1 k l, Step-Mapped s a.2)

  old-Ahead : (u : RtlUnit) (i : ℕ) → Ahead u i → busy u.blocks i ≡ true → i < n
  old-Ahead u i a full = elim (dec_lt i n) [
    | yes l ↦ l
    | no ge ↦ absurd (true_and_false full (a.1 i (omega (arith, ge))))
  ]

  -- The loop goes on after the edge of a block.
  go_on-Ends :
      (fuel : ℕ) (u : RtlUnit) (i : ℕ) (r : Bool × RtlUnit)
      → leb (length u.blocks) i ≡ false
      → add_block_edge (memory i) (slots i) u i ≡ some r
      → ((u' : RtlUnit) → Step u u' → Ends fuel u' (i + 1))
      → Step u r.1
      → Ends (suc fuel) u i
  unfolding add_block_edges
  go_on-Ends fuel u i (false, u') more e rest s = ((false, u'), rw (more, e) refl, s.code)
  go_on-Ends fuel u i (true, u') more e rest s =
      let (q, h, c) = rest u' s in (q, rw (more, e) h, SameCode-trans s.code c)

  few : (u : RtlUnit) (i : ℕ) → Ahead u i → length u.blocks < 65535
  few u i a = omega (arith, a.0, small)

  add_block_edges-Ends :
      (fuel : ℕ) (u : RtlUnit) (i : ℕ)
      → i ≤ length u.blocks
      → Ahead u i
      → 2 * n + 1 ≤ fuel + i
      → Ends fuel u i
  unfolding add_block_edges
  add_block_edges-Ends zero u i le a enough = absurd (omega (arith, le, a.0, enough))
  add_block_edges-Ends (suc fuel) u i le a enough = elim (Bool-cases (leb (length u.blocks) i)) [
    | inl done ↦ ((true, u), rw done refl, SameCode-refl u)
    | inr more ↦
        let lt : i < length u.blocks = ground (arith, more) in
        elim (Bool-cases (busy u.blocks i)) [
          | inr empty ↦
              rw (more, add_block_edge_empty (memory i) (slots i) u (few u i a) i empty)
                (add_block_edges-Ends fuel u (i + 1) (omega (arith, lt))
                  (omega (arith, a.0), a.1, a.2) (omega (arith, enough)))
          | inl full ↦
              let (r, e, s) = add_block_edge-Returns (memory i) (slots i) u (few u i a) i lt a.2 in
              go_on-Ends fuel u i r more e
                (λ u' t.
                  add_block_edges-Ends fuel u' (i + 1) (omega (arith, lt, t.least))
                    (Ahead-Step (old-Ahead u i a full) a t) (omega (arith, enough)))
                s
        ]
  ]

module _ (memory : ℕ → Bool) (slots : ℕ → BasicBlock) (u : RtlUnit) where
  edges-Ends :
      (n : ℕ)
      → length u.blocks ≡ n
      → 2 * n < 65535
      → Mapped u
      → (r : Bool × RtlUnit) × (add_block_edges (2 * n + 1) memory slots u 0 ≡ some r)
        × SameCode u r.1
  edges-Ends n e small mapped =
      add_block_edges-Ends memory slots n small (2 * n + 1) u 0 (omega arith)
        (omega (arith, e), λ k l. busy_past u.blocks k (omega (arith, e, l)), mapped) (omega arith)

abbrev ended : RtlUnit → RtlUnit
ended u =
    if u.have_block
    then record (end_block u (sub_ℕ (length u.insns) 1)) { have_block = false }
    else u

ended_blocks : (u : RtlUnit) → length (ended u).blocks ≡ length u.blocks
ended_blocks u = elim (Bool-cases u.have_block) [
  | inl h ↦ rw h (length-update u.blocks u.cur_block _)
  | inr h ↦ rw h refl
]

ended_labels : (u : RtlUnit) → (ended u).label_blockmap ≡ u.label_blockmap
ended_labels u = elim (Bool-cases u.have_block) [ inl h ↦ rw h refl | inr h ↦ rw h refl ]

ended-Mapped : (u : RtlUnit) → Mapped u → Mapped (ended u)
ended-Mapped u mapped l t e =
    let old : t < length u.blocks =
      mapped l t (subst (λ ls. get_or ls l (negsuc 0) ≡ pos t) (ended_labels u) e) in
    omega (arith, old, ended_blocks u)

ended-SameCode : (u : RtlUnit) → SameCode u (ended u)
ended-SameCode u = elim (Bool-cases u.have_block) [
  | inl h ↦ rw h (record { insns = refl; regs = refl; aliases = refl; regs_size = refl })
  | inr h ↦ rw h (record { insns = refl; regs = refl; aliases = refl; regs_size = refl })
]

-- What the end of the function makes of the loop's result.
abbrev finalized_by : Bool × RtlUnit → Bool × RtlUnit
finalized_by r = (r.0, if r.0 then record r.1 { finalized = true } else r.1)

finalized_by-SameCode :
    {u : RtlUnit} (r : Bool × RtlUnit) → SameCode u r.1 → SameCode u (finalized_by r).1
finalized_by-SameCode (true, u') c = record {
  insns = c.insns;
  regs = c.regs;
  aliases = c.aliases;
  regs_size = c.regs_size;
}
finalized_by-SameCode (false, u') c = c

finalize-by :
    (memory : ℕ → Bool) (slots : ℕ → BasicBlock) (u : RtlUnit) (r : Bool × RtlUnit)
    → add_block_edges (2 * length u.blocks + 1) memory slots (ended u) 0 ≡ some r
    → finalize memory slots u ≡ some (finalized_by r)
unfolding finalize
finalize-by memory slots u r e = ap (λ o. o >>= (λ p. some (finalized_by p))) e

-- In a unit that is not finalized, with at most 32767 blocks, and where each label that has a block has
-- one of the unit's, rtl_finalize_unit() always returns, though its loop runs over the dummy blocks too
-- that the edges add meanwhile. The unit is finalized where it returns true, and its instructions,
-- registers and aliases stay as they are.
pub rtl_finalize_unit-Returns :
    (memory : ℕ → Bool) (slots : ℕ → BasicBlock) (u : RtlUnit)
    → u.finalized ≡ false
    → 2 * length u.blocks < 65535
    → Mapped u
    → (r : Bool × RtlUnit) × (rtl_finalize_unit memory slots u ≡ some r)
      × (r.0 ≡ true → r.1.finalized ≡ true)
      × SameCode u r.1
unfolding rtl_finalize_unit
rtl_finalize_unit-Returns memory slots u unfinished small mapped =
    let (r, e, c) =
      edges-Ends memory slots (ended u) (length u.blocks) (ended_blocks u) small
        (ended-Mapped u mapped) in
    (
      finalized_by r,
      ap (λ (b : Bool). if b then none else finalize memory slots u) unfinished
          ∙ finalize-by memory slots u r e,
      λ h. rw h refl,
      finalized_by-SameCode r (SameCode-trans (ended-SameCode u) c),
    )
