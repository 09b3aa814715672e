-- ===== src/Rtl/Opt/Alias/Visible.antt =====
-- is_alias_store_visible() of src/rtl-opt.c and the paths of the flow graph.
use native.Mathlib.Decide.{ℕ_discrete}
use libbinrec.Common.{
  ℕ, zero, suc, ◌+◌, ◌<◌, ◌≤◌, ◌≡◌, ◌↔◌, refl, sym, ◌∙◌, ap, subst, Bool, true, false, Bool-cases,
  true_and_false, ◌⊎◌, inl, inr, List, length, length-modify, get_or-modify_self, get_or-modify_ne,
  ℤ, pos, negsuc, arith,
}
use libbinrec.Rtl.Unit.{BasicBlock}
use libbinrec.Rtl.Opt.Visit.{exit_at, is_seen, mark_seen, clear_seen}
use libbinrec.Rtl.Opt.Visit.Reach.{
  Targets, unseen, unseen-mark, unseen-clear, clear-unseen, length-clear,
}
use libbinrec.Rtl.Opt.Branch.{index}
use libbinrec.Rtl.Opt.Alias.{AliasRef, visible_exit, is_alias_store_visible}

sign : (x : ℤ) → ((n : ℕ) × (x ≡ negsuc n)) ⊎ ((n : ℕ) × (x ≡ pos n))
sign (pos n) = inr (n, refl)
sign (negsuc n) = inl (n, refl)

two_signs : {m n : ℕ} → negsuc m ≡ pos n → ⊥
two_signs e = cc

module _ (bs : List BasicBlock) (refs : ℕ → AliasRef) (bound : Bool) where
  -- The value that the alias has at the end of block i is read on some path: it is at the end of the
  -- unit where the alias has storage, in a block that gets the alias first, or after one that does not
  -- refer to it.
  pub data Visible : ℕ → Type 0 where
    leaves : {i n : ℕ} → exit_at bs i 0 ≡ negsuc n → bound ≡ true → Visible i
    gets :
        {i x j : ℕ} (e : ℕ)
        → e < 2
        → exit_at bs i 0 ≡ pos x
        → exit_at bs i e ≡ pos j
        → (refs j).has_get ≡ true
        → Visible i
    passes :
        {i x j : ℕ} (e : ℕ)
        → e < 2
        → exit_at bs i 0 ≡ pos x
        → exit_at bs i e ≡ pos j
        → (refs j).has_set ≡ false
        → Visible j
        → Visible i

  -- All exits of block i are seen, and the value is lost where it has none.
  record Passed (seen : List Bool) (i : ℕ) : Type 0 where
    lost : (n : ℕ) → exit_at bs i 0 ≡ negsuc n → bound ≡ false
    exits :
        (x j e : ℕ)
        → e < 2
        → exit_at bs i 0 ≡ pos x
        → exit_at bs i e ≡ pos j
        → is_seen seen j ≡ true

  -- Block k does not get the value, nor do those after it.
  abbrev Quiet : List Bool → ℕ → Type 0
  Quiet seen k = ((refs k).has_get ≡ false) × (((refs k).has_set ≡ true) ⊎ Passed seen k)

  -- What a search that finds nothing does to the marks.
  record Silent (seen seen' : List Bool) : Type 0 where
    size : length seen' ≡ length seen
    grows : (k : ℕ) → is_seen seen k ≡ true → is_seen seen' k ≡ true
    fewer : unseen seen' ≤ unseen seen
    quiet : (k : ℕ) → is_seen seen' k ≡ true → (is_seen seen k ≡ true) ⊎ Quiet seen' k

  Passed-grows :
      {a b : List Bool} {i : ℕ}
      → ((k : ℕ) → is_seen a k ≡ true → is_seen b k ≡ true)
      → Passed a i
      → Passed b i
  Passed-grows g p = record { lost = p.lost; exits = λ x j e l o q. g j (p.exits x j e l o q) }

  Quiet-grows :
      {a b : List Bool} {k : ℕ}
      → ((k : ℕ) → is_seen a k ≡ true → is_seen b k ≡ true)
      → Quiet a k
      → Quiet b k
  Quiet-grows g (no_get, inl set) = (no_get, inl set)
  Quiet-grows g (no_get, inr p) = (no_get, inr (Passed-grows g p))

  Silent-refl : (seen : List Bool) → Silent seen seen
  Silent-refl seen = record {
    size = refl;
    grows = λ k m. m;
    fewer = omega arith;
    quiet = λ k m. inl m;
  }

  Silent-trans : {a b c : List Bool} → Silent a b → Silent b c → Silent a c
  Silent-trans s t = record {
    size = t.size ∙ s.size;
    grows = λ k m. t.grows k (s.grows k m);
    fewer = omega (arith, s.fewer, t.fewer);
    quiet = λ k m. elim (t.quiet k m) [
      | inr q ↦ inr q
      | inl m' ↦ elim (s.quiet k m') [ inl m'' ↦ inl m'' | inr q ↦ inr (Quiet-grows t.grows q) ]
    ];
  }

  -- A mark on block j, which is quiet once more is seen.
  module _ (seen : List Bool) (j : ℕ) (lt : j < length seen) (new : is_seen seen j ≡ false) where
    marked_self : is_seen (mark_seen seen j) j ≡ true
    marked_self = get_or-modify_self seen j (λ b. true) false lt

    marked_other : (k : ℕ) → is_seen seen k ≡ true → is_seen (mark_seen seen j) k ≡ true
    marked_other k m = elim (ℕ_discrete j k) [
      | yes e ↦ absurd (true_and_false (subst (λ x. is_seen seen x ≡ true) (sym e) m) new)
      | no ne ↦ get_or-modify_ne seen j k (λ b. true) false ne ∙ m
    ]

    marked-Silent :
        (seen' : List Bool) → Silent (mark_seen seen j) seen' → Quiet seen' j → Silent seen seen'
    marked-Silent seen' s q = record {
      size = s.size ∙ length-modify seen j (λ b. true);
      grows = λ k m. s.grows k (marked_other k m);
      fewer = omega (arith, s.fewer, unseen-mark seen j lt new);
      quiet = λ k m. elim (s.quiet k m) [
        | inr r ↦ inr r
        | inl m' ↦ elim (ℕ_discrete j k) [
          | yes e ↦ inr (subst (Quiet seen') e q)
          | no ne ↦ inl (sym (get_or-modify_ne seen j k (λ b. true) false ne) ∙ m')
        ]
      ];
    }

  -- What a call on a block says with enough fuel.
  abbrev Decides : ℕ → (List Bool → ℕ → Bool × List Bool) → Type 0
  Decides fuel visit =
      (seen : List Bool) (i : ℕ)
      → length seen ≡ length bs
      → i < length bs
      → unseen seen < fuel
      → ((visit seen i).0 ≡ true → Visible i)
        × ((visit seen i).0 ≡ false → Silent seen (visit seen i).1 × Passed (visit seen i).1 i)

  module _ (targets : Targets bs) (fuel : ℕ) (visit : List Bool → ℕ → Bool × List Bool)
      (decides : Decides fuel visit) (i x e : ℕ) (le : e < 2) (used : exit_at bs i 0 ≡ pos x) where
    visible_exit-Decides :
        (seen : List Bool) (y : ℤ)
        → exit_at bs i e ≡ y
        → length seen ≡ length bs
        → unseen seen ≤ fuel
        → ((visible_exit visit refs seen y).0 ≡ true → Visible i)
          × ((visible_exit visit refs seen y).0 ≡ false
              → Silent seen (visible_exit visit refs seen y).1
                × ((j : ℕ) → y ≡ pos j → is_seen (visible_exit visit refs seen y).1 j ≡ true))
    unfolding visible_exit
    visible_exit-Decides seen (negsuc n) at size enough =
        (λ t. cc, λ f. (Silent-refl seen, λ j q. cc))
    visible_exit-Decides seen (pos j) at size enough = elim (Bool-cases (is_seen seen j)) [
      | inl old ↦
          rw (old, visible_exit)
            (
              λ t. cc,
              λ f. (Silent-refl seen, λ k q. subst (λ n. is_seen seen n ≡ true) (ap index q) old),
            )
      | inr new ↦
          let lt : j < length seen = omega (arith, size, targets i j e at) in
          let fresh : is_seen (mark_seen seen j) j ≡ true = marked_self seen j lt new in
          elim (Bool-cases (refs j).has_get) [
            | inl got ↦ rw (new, got, visible_exit) (λ t. gets e le used at got, λ f. cc)
            | inr no_get ↦ elim (Bool-cases (refs j).has_set) [
              | inl set ↦
                  rw (new, no_get, set, visible_exit)
                    (
                      λ t. cc,
                      λ f. (
                        marked-Silent seen j lt new (mark_seen seen j)
                            (Silent-refl (mark_seen seen j)) (no_get, inl set),
                        λ k q. subst (λ n. is_seen (mark_seen seen j) n ≡ true) (ap index q) fresh,
                      ),
                    )
              | inr no_set ↦
                  rw (new, no_get, no_set, visible_exit)
                    (let d =
                        decides (mark_seen seen j) j (length-modify seen j (λ b. true) ∙ size)
                          (omega (arith, lt, size))
                          (omega (arith, enough, unseen-mark seen j lt new)) in
                      (
                        λ t. passes e le used at no_set (d.0 t),
                        λ f.
                            let (s, p) = d.1 f in
                            (
                              marked-Silent seen j lt new (visit (mark_seen seen j) j).1 s
                                  (no_get, inr p),
                              λ k q.
                                  subst (λ n. is_seen (visit (mark_seen seen j) j).1 n ≡ true)
                                    (ap index q) (s.grows j fresh),
                            ),
                      ))
            ]
          ]
    ]

  module _ (targets : Targets bs) where
    both_seen :
        (i x : ℕ) (seen1 seen0 : List Bool)
        → exit_at bs i 0 ≡ pos x
        → ((j : ℕ) → exit_at bs i 1 ≡ pos j → is_seen seen1 j ≡ true)
        → ((k : ℕ) → is_seen seen1 k ≡ true → is_seen seen0 k ≡ true)
        → ((j : ℕ) → pos x ≡ pos j → is_seen seen0 j ≡ true)
        → (x' j e : ℕ) → e < 2
        → exit_at bs i 0 ≡ pos x'
        → exit_at bs i e ≡ pos j
        → is_seen seen0 j ≡ true
    both_seen i x seen1 seen0 used s1 g s0 x' j zero l o q = s0 j (sym used ∙ q)
    both_seen i x seen1 seen0 used s1 g s0 x' j (suc zero) l o q = g j (s1 j q)
    both_seen i x seen1 seen0 used s1 g s0 x' j (suc (suc e)) l o q = absurd (omega arith)

    visible-Decides : (fuel : ℕ) → Decides fuel (is_alias_store_visible fuel bs refs bound)
    unfolding is_alias_store_visible
    visible-Decides zero seen i size lt enough = absurd (omega arith)
    visible-Decides (suc fuel) seen i size lt enough = elim (sign (exit_at bs i 0)) [
      | inl (n, none_used) ↦
          rw (none_used, is_alias_store_visible)
            (
              λ t. leaves none_used t,
              λ f. (
                Silent-refl seen,
                record {
                  lost = λ m q. f;
                  exits = λ x j e l o q. absurd (two_signs (sym none_used ∙ o));
                },
              ),
            )
      | inr (x, used) ↦
          let visit : List Bool → ℕ → Bool × List Bool =
            is_alias_store_visible fuel bs refs bound in
          let second : Bool × List Bool = visible_exit visit refs seen (exit_at bs i 1) in
          let d1 =
            visible_exit-Decides targets fuel visit (visible-Decides fuel) i x 1 (omega arith) used
              seen (exit_at bs i 1) refl size (omega (arith, enough)) in
          elim (Bool-cases second.0) [
            | inl hit ↦
                rw (used, hit, is_alias_store_visible)
                  (λ t. d1.0 hit, λ f. absurd (true_and_false hit f))
            | inr miss ↦
                let (s1, seen1) = d1.1 miss in
                let d0 =
                  visible_exit-Decides targets fuel visit (visible-Decides fuel) i x 0 (omega arith)
                    used second.1 (pos x) used (s1.size ∙ size) (omega (arith, enough, s1.fewer)) in
                rw (used, miss, is_alias_store_visible)
                  (
                    d0.0,
                    λ f.
                        let (s0, seen0) = d0.1 f in
                        (
                          Silent-trans s1 s0,
                          record {
                            lost = λ n q. absurd (two_signs (sym q ∙ used));
                            exits =
                                both_seen i x second.1 (visible_exit visit refs second.1 (pos x)).1
                                  used seen1 s0.grows seen0;
                          },
                        ),
                  )
          ]
    ]

  hidden :
      (seen : List Bool)
      → ((k : ℕ) → is_seen seen k ≡ true → Quiet seen k)
      → {i : ℕ} → Visible i
      → Passed seen i
      → ⊥
  hidden seen quiet (leaves none_used b) p = true_and_false b (p.lost _ none_used)
  hidden seen quiet (gets e l o q got) p = true_and_false got (quiet _ (p.exits _ _ e l o q)).0
  hidden seen quiet (passes e l o q no_set v) p = elim (quiet _ (p.exits _ _ e l o q)).1 [
    | inl set ↦ true_and_false set no_set
    | inr p' ↦ hidden seen quiet v p'
  ]

-- Where exits lead to blocks of the unit, is_alias_store_visible() with one more fuel than there are
-- blocks says exactly whether the value that an alias has at the end of a block is read on some path
-- from there: by a block that gets the alias before it sets it, or, where the alias has storage, at an
-- end of the unit.
pub is_alias_store_visible-Visible :
    (bs : List BasicBlock) (refs : ℕ → AliasRef) (bound : Bool) (i : ℕ)
    → Targets bs
    → i < length bs
    → ((is_alias_store_visible (length bs + 1) bs refs bound (clear_seen bs) i).0 ≡ true)
      ↔ Visible bs refs bound i
is_alias_store_visible-Visible bs refs bound i targets lt =
    let d =
      visible-Decides bs refs bound targets (length bs + 1) (clear_seen bs) i (length-clear bs) lt
        (omega (arith, unseen-clear bs)) in
    (
      d.0,
      λ v.
          elim (Bool-cases
            (is_alias_store_visible (length bs + 1) bs refs bound (clear_seen bs) i).0) [
              | inl yes_visible ↦ yes_visible
              | inr no_visible ↦
                  let (s, p) = d.1 no_visible in
                  absurd (
                    hidden bs refs bound
                      (is_alias_store_visible (length bs + 1) bs refs bound (clear_seen bs) i).1
                      (λ k m. elim (s.quiet k m) [
                        | inl old ↦ absurd (true_and_false old (clear-unseen bs k))
                        | inr q ↦ q
                      ])
                      v p)
            ],
    )
