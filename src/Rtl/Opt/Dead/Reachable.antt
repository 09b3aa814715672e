-- ===== src/Rtl/Opt/Dead/Reachable.antt =====
-- rtl_opt_drop_dead_blocks() of src/rtl-opt.c as a whole: which blocks stay in the code stream.
use libbinrec.Common.{
  ℕ, zero, suc, ◌<◌, ◌≤◌, ◌≡◌, refl, sym, ◌∙◌, ap, subst, Bool, true, Bool-cases, true_and_false,
  ◌⊎◌, inl, inr, List, [], ◌∷◌, length, some, ◌>>=◌, ℤ, pos, negsuc, if◌then◌else◌, arith, ◌↔◌,
}
use libbinrec.Rtl.Unit.{BasicBlock, RtlUnit}
use libbinrec.Rtl.Unit.Access.{block_at}
use libbinrec.Rtl.Block.Graph.{Consistent}
use libbinrec.Rtl.Opt.Visit.{is_seen, visit_block, clear_seen}
use libbinrec.Rtl.Opt.Visit.Reach.{Route, Targets, visit_block-Route}
use libbinrec.Rtl.Opt.Reduced.{field_at-block, TwoExits}
use libbinrec.Rtl.Opt.Dead.{drop_blocks, rtl_opt_drop_dead_blocks}
use libbinrec.Rtl.Opt.Dead.Stream.{first, Before}
use libbinrec.Rtl.Opt.Dead.Outcome.{
  Smaller, Smaller-trans, Smaller-refl, Stream, Left, drop_block-Left,
}

-- A list of blocks, the last one first, begins with block 0.
abbrev pub Start : List ℕ → Type 0
Start [] = Unit
Start (x ∷ []) = x ≡ 0
Start (x ∷ y ∷ r) = Start (y ∷ r)

Start-tail : (x : ℕ) (r : List ℕ) → Start (x ∷ r) → Start r
Start-tail x [] h = tt
Start-tail x (y ∷ r) h = h

abbrev pub Has : ℕ → List ℕ → Type 0
Has k [] = ⊥
Has k (x ∷ l) = (k ≡ x) ⊎ Has k l

-- The marked blocks among `r`, the last one first, and then those of `s`.
unfoldable kept : List Bool → List ℕ → List ℕ → List ℕ
kept seen [] s = s
kept seen (x ∷ r) s = kept seen r (if is_seen seen x then x ∷ s else s)

kept-Has :
    (seen : List Bool) (r s : List ℕ) (k : ℕ)
    → Has k (kept seen r s) ↔ ((Has k r × (is_seen seen k ≡ true)) ⊎ Has k s)
unfolding kept
kept-Has seen [] s k = (λ h. inr h, λ h. elim h [ inl a ↦ absurd a.0 | inr b ↦ b ])
kept-Has seen (x ∷ r) s k = elim (Bool-cases (is_seen seen x)) [
  | inl on ↦
      rw (on, kept)
        (let ih : Has k (kept seen r (x ∷ s))
              ↔ ((Has k r × (is_seen seen k ≡ true)) ⊎ Has k (x ∷ s)) =
            kept-Has seen r (x ∷ s) k in
          (
            λ h. elim (ih.0 h) [
              | inl a ↦ inl (inr a.0, a.1)
              | inr (inl e) ↦ inl (inl e, subst (λ n. is_seen seen n ≡ true) (sym e) on)
              | inr (inr b) ↦ inr b
            ],
            λ h. ih.1 (elim h [
              | inl (inl e, m) ↦ inr (inl e)
              | inl (inr a, m) ↦ inl (a, m)
              | inr b ↦ inr (inr b)
            ]),
          ))
  | inr off ↦
      rw (off, kept)
        (let ih : Has k (kept seen r s) ↔ ((Has k r × (is_seen seen k ≡ true)) ⊎ Has k s) =
            kept-Has seen r s k in
          (
            λ h. elim (ih.0 h) [ inl a ↦ inl (inr a.0, a.1) | inr b ↦ inr b ],
            λ h. ih.1 (elim h [
              | inl (inl e, m) ↦
                  absurd (true_and_false (subst (λ n. is_seen seen n ≡ true) e m) off)
              | inl (inr a, m) ↦ inl (a, m)
              | inr b ↦ inr b
            ]),
          ))
]

length-Before :
    (own : ℕ → ℕ) (bs : List BasicBlock) (b : ℕ) (h : ℤ) (r : List ℕ)
    → Before own bs b h r
    → length r ≤ b
length-Before own bs b h [] l = omega arith
length-Before own bs b h (y ∷ r) l = omega (arith, l.0, length-Before own bs y (pos y) r l.5)

-- The current block stays.
stay :
    (own : ℕ → ℕ) (u : RtlUnit) (x : ℕ) (r s : List ℕ)
    → Stream own u (x ∷ r) s
    → Stream own u r (x ∷ s)
stay own u x [] s l = record {
  before = tt;
  after = (omega arith, l.before.1, l.before.2, l.before.3, l.before.4, l.after);
  ends = l.ends;
}
stay own u x (y ∷ r) s l = record {
  before = (l.before.5.2, l.before.5.1, l.before.5.2, l.before.5.3, l.before.5.4, l.before.5.5);
  after = (omega (arith, l.before.5.0), l.before.1, l.before.2, l.before.3, l.before.4, l.after);
  ends = l.ends;
}

prev_block :
    (own : ℕ → ℕ) (u : RtlUnit) (x : ℕ) (r s : List ℕ)
    → Stream own u (x ∷ r) s
    → (block_at u x).prev_block ≡ first r
prev_block own u x r s l =
    field_at-block (λ b. b.prev_block) (negsuc 0) u.blocks x l.before.2 ∙ l.before.4

drop_blocks-Left :
    (own : ℕ → ℕ) (seen : List Bool)
    → is_seen seen 0 ≡ true
    → (fuel : ℕ) (r s : List ℕ) (u : RtlUnit) → length r ≤ fuel
    → Consistent own u.blocks
    → TwoExits own u.blocks
    → Start r
    → Stream own u r s
    → (u' : RtlUnit) × (drop_blocks fuel seen u (first r) ≡ some u')
      × Left own u u' [] (kept seen r s)
unfolding drop_blocks kept
drop_blocks-Left own seen on zero [] s u le c two start l =
    (u, refl, record { graph = Smaller-refl own u.blocks c two; stream = l })
drop_blocks-Left own seen on (suc fuel) [] s u le c two start l =
    (u, refl, record { graph = Smaller-refl own u.blocks c two; stream = l })
drop_blocks-Left own seen on zero (x ∷ r) s u le c two start l = absurd (omega (arith, le))
drop_blocks-Left own seen on (suc fuel) (x ∷ []) s u le c two start l =
    let marked : is_seen seen x ≡ true = subst (λ n. is_seen seen n ≡ true) (sym start) on in
    let (w, e, left) =
      drop_blocks-Left own seen on fuel [] (x ∷ s) u (omega arith) c two tt (stay own u x [] s l) in
    (w, rw marked (ap (drop_blocks fuel seen u) (prev_block own u x [] s l) ∙ e), rw marked left)
drop_blocks-Left own seen on (suc fuel) (x ∷ y ∷ r) s u le c two start l =
    elim (Bool-cases (is_seen seen x)) [
      | inl marked ↦
          let (w, e, left) =
            drop_blocks-Left own seen on fuel (y ∷ r) (x ∷ s) u (omega (arith, le)) c two start
              (stay own u x (y ∷ r) s l) in
          (
            w,
            rw marked (ap (drop_blocks fuel seen u) (prev_block own u x (y ∷ r) s l) ∙ e),
            rw marked left,
          )
      | inr dead ↦
          let (v, e, half, back) = drop_block-Left own u x y r c two s l in
          let (w, e', left) =
            drop_blocks-Left own seen on fuel (y ∷ r) s v (omega (arith, le)) half.graph.consistent
              half.graph.exits start half.stream in
          (
            w,
            rw dead (
                ap (λ o. o >>= (λ u'. drop_blocks fuel seen u' (block_at u' x).prev_block)) e
                ∙ ap (drop_blocks fuel seen v) back
                ∙ e'),
            rw dead (record { graph = Smaller-trans half.graph left.graph; stream = left.stream }),
          )
    ]

-- Where the code stream of a consistent graph holds the blocks `r` (the last one first) with rising
-- indices from block 0 on, rtl_opt_drop_dead_blocks() always returns. What stays in the stream, still
-- doubly linked and in the same order, are exactly the blocks that a path of the flow graph leads to
-- from block 0; the graph stays consistent and has no edge that was not there.
pub rtl_opt_drop_dead_blocks-Route :
    (own : ℕ → ℕ) (u : RtlUnit) (x : ℕ) (r : List ℕ)
    → Consistent own u.blocks
    → TwoExits own u.blocks
    → Targets u.blocks
    → Start (x ∷ r)
    → Stream own u (x ∷ r) []
    → (u' : RtlUnit) × (l : List ℕ) × (rtl_opt_drop_dead_blocks u ≡ some u')
      × Smaller own u.blocks u'.blocks
      × Stream own u' [] l
      × ((k : ℕ) → Has k l ↔ (Has k (x ∷ r) × Route u.blocks k 0))
unfolding rtl_opt_drop_dead_blocks
rtl_opt_drop_dead_blocks-Route own u x r c two targets start l =
    let seen : List Bool = visit_block (length u.blocks) u.blocks (clear_seen u.blocks) 0 in
    let lt : 0 < length u.blocks = omega (arith, l.before.0) in
    let (u', e, left) =
      drop_blocks-Left own seen ((visit_block-Route u.blocks 0 0 targets lt).1 Route.here)
        (length u.blocks) (x ∷ r) [] u
        (length-Before own u.blocks (length u.blocks) (negsuc 0) (x ∷ r) l.before) c two start l in
    (
      u',
      kept seen (x ∷ r) [],
      ap (drop_blocks (length u.blocks) seen u) l.ends ∙ e,
      left.graph,
      left.stream,
      λ k.
          let marked = visit_block-Route u.blocks 0 k targets lt in
          let has = kept-Has seen (x ∷ r) [] k in
          (
            λ h. elim (has.0 h) [ inl a ↦ (a.0, marked.0 a.1) | inr b ↦ absurd b ],
            λ h. has.1 (inl (h.0, marked.1 h.1)),
          ),
    )
