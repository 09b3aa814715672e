-- ===== src/Rtl/Opt/Visit/Reach.antt =====
-- visit_block() and the paths of the flow graph.
use native.Mathlib.Decide.{ℕ_discrete}
use libbinrec.Common.{
  ℕ, zero, suc, ◌+◌, ◌<◌, ◌≤◌, ◌≡◌, ◌↔◌, refl, sym, ◌∙◌, ap, subst, Bool, true, false, Bool-cases,
  true_and_false, ◌⊎◌, inl, inr, List, [], ◌∷◌, length, length-modify, get_or-modify_self,
  get_or-modify_ne, ℤ, pos, negsuc, arith,
}
use libbinrec.Rtl.Unit.{BasicBlock}
use libbinrec.Rtl.Opt.Visit.{exit_at, is_seen, mark_seen, visit_exit, visit_block, clear_seen}

-- Control flow can go from block i to block k.
pub data Route (bs : List BasicBlock) (k : ℕ) : ℕ → Type 0 where
  here : Route bs k k
  step : {i j : ℕ} (e : ℕ) → e < 2 → exit_at bs i e ≡ pos j → Route bs k j → Route bs k i

-- Exits lead to blocks of the unit.
abbrev pub Targets : List BasicBlock → Type 0
Targets bs = (i j e : ℕ) → exit_at bs i e ≡ pos j → j < length bs

unfoldable pub unseen : List Bool → ℕ
unseen [] = 0
unseen (true ∷ seen) = unseen seen
unseen (false ∷ seen) = suc (unseen seen)

pub unseen-mark :
    (seen : List Bool) (i : ℕ)
    → i < length seen
    → is_seen seen i ≡ false
    → unseen (mark_seen seen i) + 1 ≡ unseen seen
unfolding unseen
unseen-mark [] i l e = absurd (omega arith)
unseen-mark (true ∷ seen) zero l e = absurd (true_and_false refl e)
unseen-mark (false ∷ seen) zero l e = omega arith
unseen-mark (true ∷ seen) (suc i) l e = unseen-mark seen i (omega arith) e
unseen-mark (false ∷ seen) (suc i) l e = omega (arith, unseen-mark seen i (omega arith) e)

module _ (bs : List BasicBlock) where
  -- All exits of block k are seen.
  abbrev Done : List Bool → ℕ → Type 0
  Done seen k = (j e : ℕ) → e < 2 → exit_at bs k e ≡ pos j → is_seen seen j ≡ true

  -- What a part of the search from the blocks `from` does.
  record Search (from : ℕ → Type 0) (seen seen' : List Bool) : Type 0 where
    size : length seen' ≡ length seen
    grows : (k : ℕ) → is_seen seen k ≡ true → is_seen seen' k ≡ true
    fewer : unseen seen' ≤ unseen seen
    sound :
        (k : ℕ)
        → is_seen seen' k ≡ true
        → (is_seen seen k ≡ true) ⊎ ((i : ℕ) × from i × Route bs k i)
    closed : (k : ℕ) → is_seen seen' k ≡ true → (is_seen seen k ≡ true) ⊎ Done seen' k

  Search-refl : (from : ℕ → Type 0) (seen : List Bool) → Search from seen seen
  Search-refl from seen = record {
    size = refl;
    grows = λ k m. m;
    fewer = omega arith;
    sound = λ k m. inl m;
    closed = λ k m. inl m;
  }

  Search-trans :
      {from : ℕ → Type 0} {a b c : List Bool} → Search from a b → Search from b c → Search from a c
  Search-trans s t = record {
    size = t.size ∙ s.size;
    grows = λ k m. t.grows k (s.grows k m);
    fewer = omega (arith, s.fewer, t.fewer);
    sound = λ k m. elim (t.sound k m) [ inl m' ↦ s.sound k m' | inr p ↦ inr p ];
    closed = λ k m. elim (t.closed k m) [
      | inr d ↦ inr d
      | inl m' ↦ elim (s.closed k m') [
        | inl m'' ↦ inl m''
        | inr d ↦ inr (λ j e l x. t.grows j (d j e l x))
      ]
    ];
  }

  Search-widen :
      {from from' : ℕ → Type 0} {a b : List Bool}
      → ((i k : ℕ) → from i → Route bs k i → (i' : ℕ) × from' i' × Route bs k i')
      → Search from a b
      → Search from' a b
  Search-widen w s = record {
    size = s.size;
    grows = s.grows;
    fewer = s.fewer;
    sound = λ k m. elim (s.sound k m) [ inl m' ↦ inl m' | inr (i, f, p) ↦ inr (w i k f p) ];
    closed = s.closed;
  }

  -- A call on a block that is not seen sees it, and searches from it.
  abbrev Visits : ℕ → (List Bool → ℕ → List Bool) → Type 0
  Visits fuel visit =
      (seen : List Bool) (i : ℕ)
      → length seen ≡ length bs
      → i < length bs
      → is_seen seen i ≡ false
      → unseen seen ≤ fuel
      → Search (λ x. x ≡ i) seen (visit seen i) × (is_seen (visit seen i) i ≡ true)

  module _ (targets : Targets bs) where
    module _ (fuel : ℕ) (visit : List Bool → ℕ → List Bool) (visits : Visits fuel visit) (i e : ℕ)
        (le : e < 2) where
      exit-Search :
          (seen : List Bool) (x : ℤ)
          → exit_at bs i e ≡ x
          → length seen ≡ length bs
          → unseen seen ≤ fuel
          → Search (λ n. n ≡ i) seen (visit_exit visit seen x)
            × ((j : ℕ) → x ≡ pos j → is_seen (visit_exit visit seen x) j ≡ true)
      unfolding visit_exit
      exit-Search seen (negsuc n) at size enough = (Search-refl (λ n. n ≡ i) seen, λ j x. cc)
      exit-Search seen (pos j) at size enough = elim (Bool-cases (is_seen seen j)) [
        | inl old ↦
            rw (old, visit_exit)
              (
                Search-refl (λ n. n ≡ i) seen,
                λ k same. subst (λ n. is_seen seen n ≡ true) (pos_inj same) old,
              )
        | inr new ↦
            let (search, seen_j) = visits seen j size (targets i j e at) new enough in
            rw (new, visit_exit)
              (
                Search-widen (λ n k f p. (i, refl, step e le at (subst (Route bs k) f p))) search,
                λ k same. subst (λ n. is_seen (visit seen j) n ≡ true) (pos_inj same) seen_j,
              )
      ]
        where
          pos_inj : {a b : ℕ} → pos a ≡ pos b → a ≡ b
          pos_inj same = cc

    visit_block-Visits : (fuel : ℕ) → Visits fuel (visit_block fuel bs)
    unfolding visit_block unseen
    visit_block-Visits zero seen i size lt new enough =
        absurd (omega (arith, unseen-mark seen i (omega (arith, size)) new))
    visit_block-Visits (suc fuel) seen i size lt new enough =
        let (s1, e1) =
          exit-Search fuel (visit_block fuel bs) (visit_block-Visits fuel) i 1 (omega arith)
            (mark_seen seen i) (exit_at bs i 1) refl marked_size (omega (arith, marked_fewer)) in
        let (s0, e0) =
          exit-Search fuel (visit_block fuel bs) (visit_block-Visits fuel) i 0 (omega arith) after1
            (exit_at bs i 0) refl (s1.size ∙ marked_size) (omega (arith, s1.fewer, marked_fewer)) in
        let both : Search (λ x. x ≡ i) (mark_seen seen i)
            (visit_exit (visit_block fuel bs) after1 (exit_at bs i 0)) =
          Search-trans s1 s0 in
        (
          record {
            size = both.size ∙ length-modify seen i (λ b. true);
            grows = λ k m. both.grows k (old_seen k m);
            fewer = omega (arith, both.fewer, marked_fewer);
            sound = λ k m. elim (both.sound k m) [
              | inr p ↦ inr p
              | inl m' ↦ elim (marked k m') [
                | inl m'' ↦ inl m''
                | inr e ↦ inr (i, refl, subst (λ x. Route bs x i) (sym e) here)
              ]
            ];
            closed = λ k m. elim (both.closed k m) [
              | inr d ↦ inr d
              | inl m' ↦ elim (marked k m') [
                | inl m'' ↦ inl m''
                | inr e ↦ inr (
                    subst (Done (visit_exit (visit_block fuel bs) after1 (exit_at bs i 0))) (sym e)
                      (exits_done s0 e1 e0))
              ]
            ];
          },
          both.grows i (get_or-modify_self seen i (λ b. true) false (omega (arith, size))),
        )
      where
        after1 : List Bool
        after1 = visit_exit (visit_block fuel bs) (mark_seen seen i) (exit_at bs i 1)

        marked_size : length (mark_seen seen i) ≡ length bs
        marked_size = length-modify seen i (λ b. true) ∙ size

        marked_fewer : unseen (mark_seen seen i) + 1 ≡ unseen seen
        marked_fewer = unseen-mark seen i (omega (arith, size)) new

        old_seen : (k : ℕ) → is_seen seen k ≡ true → is_seen (mark_seen seen i) k ≡ true
        old_seen k m = elim (ℕ_discrete i k) [
          | yes e ↦ absurd (true_and_false (subst (λ x. is_seen seen x ≡ true) (sym e) m) new)
          | no ne ↦ get_or-modify_ne seen i k (λ b. true) false ne ∙ m
        ]

        marked : (k : ℕ) → is_seen (mark_seen seen i) k ≡ true → (is_seen seen k ≡ true) ⊎ (k ≡ i)
        marked k m = elim (ℕ_discrete i k) [
          | yes e ↦ inr (sym e)
          | no ne ↦ inl (sym (get_or-modify_ne seen i k (λ b. true) false ne) ∙ m)
        ]

        exits_done :
            Search (λ x. x ≡ i) after1 (visit_exit (visit_block fuel bs) after1 (exit_at bs i 0))
            → ((j : ℕ) → exit_at bs i 1 ≡ pos j → is_seen after1 j ≡ true)
            → ((j : ℕ)
                → exit_at bs i 0 ≡ pos j
                → is_seen (visit_exit (visit_block fuel bs) after1 (exit_at bs i 0)) j ≡ true)
            → Done (visit_exit (visit_block fuel bs) after1 (exit_at bs i 0)) i
        exits_done s0 e1 e0 j zero l x = e0 j x
        exits_done s0 e1 e0 j (suc zero) l x = s0.grows j (e1 j x)
        exits_done s0 e1 e0 j (suc (suc e)) l x = absurd (omega arith)

    complete :
        (seen : List Bool)
        → ((k : ℕ) → is_seen seen k ≡ true → Done seen k)
        → (k i : ℕ) → is_seen seen i ≡ true
        → Route bs k i
        → is_seen seen k ≡ true
    complete seen closed k i m here = m
    complete seen closed k i m (step {j = j} e l x p) =
        complete seen closed k j (closed i m j e l x) p

pub clear-unseen : (bs : List BasicBlock) (k : ℕ) → is_seen (clear_seen bs) k ≡ false
unfolding clear_seen
clear-unseen [] k = refl
clear-unseen (b ∷ bs) zero = refl
clear-unseen (b ∷ bs) (suc k) = clear-unseen bs k

pub length-clear : (bs : List BasicBlock) → length (clear_seen bs) ≡ length bs
unfolding clear_seen
length-clear [] = refl
length-clear (b ∷ bs) = ap suc (length-clear bs)

pub unseen-clear : (bs : List BasicBlock) → unseen (clear_seen bs) ≡ length bs
unfolding clear_seen unseen
unseen-clear [] = refl
unseen-clear (b ∷ bs) = ap suc (unseen-clear bs)

-- Where exits lead to blocks of the unit, a search of visit_block() with as much fuel as there are
-- blocks marks exactly the blocks that a path from the start block leads to.
pub visit_block-Route :
    (bs : List BasicBlock) (i k : ℕ)
    → Targets bs
    → i < length bs
    → (is_seen (visit_block (length bs) bs (clear_seen bs) i) k ≡ true) ↔ Route bs k i
visit_block-Route bs i k targets lt =
    let (search, seen_i) =
      visit_block-Visits bs targets (length bs) (clear_seen bs) i (length-clear bs) lt
        (clear-unseen bs i) (omega (arith, unseen-clear bs)) in
    (
      λ m. elim (search.sound k m) [
        | inl old ↦ absurd (true_and_false old (clear-unseen bs k))
        | inr (x, e, p) ↦ subst (Route bs k) e p
      ],
      λ p.
          complete bs targets (visit_block (length bs) bs (clear_seen bs) i)
            (λ x m. elim (search.closed x m) [
              | inl old ↦ absurd (true_and_false old (clear-unseen bs x))
              | inr d ↦ d
            ])
            k i seen_i p,
    )
