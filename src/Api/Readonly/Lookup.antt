-- ===== src/Api/Readonly/Lookup.antt =====
-- lookup_partial_readonly_page() of src/api.c: its binary search on a table in order.
use libbinrec.Common.{
  ℕ, zero, suc, ◌+◌, ◌-◌, ◌/◌, ◌<◌, ◌≤◌, ◌≡◌, ◌≢◌, subst, ◌==◌, ==_iff, ltb, ltb→lt, ltb→le, true,
  false, Bool-cases, inl, inr, arith,
}
use libbinrec.Api.Handle.{Handle}
use libbinrec.Api.Readonly.{lookup_loop, lookup_partial_readonly_page}

-- The first n pages are in order.
abbrev pub Sorted : ℕ → (ℕ → ℕ) → Type 0
Sorted n pages = (i j : ℕ) → i < j → j < n → pages i < pages j

-- The place of `page` in the order: all entries before it are less, all from it on are not.
abbrev pub LowerBound : ℕ → (ℕ → ℕ) → ℕ → ℕ → Type 0
LowerBound n pages page index =
    (index ≤ n)
    × ((i : ℕ) → i < index → pages i < page)
    × ((i : ℕ) → index ≤ i → i < n → page ≤ pages i)

module _ (n : ℕ) (pages : ℕ → ℕ) (page : ℕ) (sorted : Sorted n pages) where
  mono : (i j : ℕ) → i ≤ j → j < n → pages i ≤ pages j
  mono i j h l = elim (Bool-cases (ltb i j)) [
    | inl lt ↦ omega (arith, sorted i j (ltb→lt i j lt) l)
    | inr ge ↦ subst (λ k. pages i ≤ pages k) (same ge) (omega arith)
  ]
    where
      same : ltb i j ≡ false → i ≡ j
      same ge = omega (arith, ltb→le i j ge)

  lookup_loop-LowerBound :
      (fuel low high : ℕ)
      → low ≤ high
      → high ≤ n
      → high ≤ low + fuel
      → ((i : ℕ) → i < low → pages i < page)
      → ((i : ℕ) → high ≤ i → i < n → page ≤ pages i)
      → LowerBound n pages page (lookup_loop fuel pages page low high)
  unfolding lookup_loop
  lookup_loop-LowerBound zero low high lh hn enough below above =
      (omega arith, below, λ i l. above i (omega arith))
  lookup_loop-LowerBound (suc fuel) low high lh hn enough below above =
      elim (Bool-cases (ltb low high)) [
        | inr done ↦
            rw (done, lookup_loop)
              (omega arith, below, λ i l. above i (omega (arith, ltb→le low high done)))
        | inl more ↦
            rw (more, lookup_loop)
              (elim (Bool-cases (page == pages mid)) [
                | inl found ↦ rw found (
                  omega (arith, inside more),
                  λ i l. lower i l more ((==_iff page (pages mid)).0 found),
                  λ i l m. omega (arith, mono mid i l m, (==_iff page (pages mid)).0 found),
                )
                | inr other ↦ rw other (elim (Bool-cases (ltb page (pages mid))) [
                  | inl less ↦ rw less (
                      lookup_loop-LowerBound fuel low mid (omega (arith, inside more))
                        (omega (arith, inside more)) (omega (arith, inside more)) below
                        (λ i l m. omega (arith, mono mid i l m, ltb→lt page (pages mid) less)))
                  | inr greater ↦ rw greater (
                      lookup_loop-LowerBound fuel (mid + 1) high (omega (arith, inside more)) hn
                        (omega (arith, inside more))
                        (λ i l. omega (
                          arith,
                          mono i mid (omega arith) (omega (arith, inside more)),
                          apart other,
                          ltb→le page (pages mid) greater,
                        ))
                        above)
                ])
              ])
      ]
    where
      mid : ℕ
      mid = (low + high - 1) / 2

      inside : ltb low high ≡ true → (low ≤ mid) × (mid < high)
      inside more = omega (arith, ltb→lt low high more)

      lower : (i : ℕ) → i < mid → ltb low high ≡ true → page ≡ pages mid → pages i < page
      lower i l more e = omega (arith, sorted i mid l (omega (arith, inside more)), e)

      apart : (page == pages mid) ≡ false → page ≢ pages mid
      apart other e = ground arith

-- On a table whose pages are in order the search of lookup_partial_readonly_page() ends at the index
-- where the page is or is to be inserted: all entries before it are lower, none from it on is.
pub lookup_partial_readonly_page-LowerBound :
    (h : Handle) (page : ℕ)
    → Sorted h.num_partial_readonly h.partial_readonly_pages
    → LowerBound h.num_partial_readonly h.partial_readonly_pages page
        (lookup_partial_readonly_page h page)
unfolding lookup_partial_readonly_page
lookup_partial_readonly_page-LowerBound h page sorted =
    lookup_loop-LowerBound h.num_partial_readonly h.partial_readonly_pages page sorted
      h.num_partial_readonly 0 h.num_partial_readonly (omega arith) (omega arith) (omega arith)
      (λ i l. absurd (omega arith)) (λ i l m. absurd (omega arith))
