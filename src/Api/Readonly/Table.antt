-- ===== src/Api/Readonly/Table.antt =====
-- The table of partial pages: when it is well formed, and what the shift of its entries does.
use libbinrec.Common.{
  ℕ, ◌+◌, ◌-◌, ◌*◌, ◌/◌, ◌<◌, ◌≤◌, ◌≡◌, ◌≢◌, refl, ◌∙◌, ap, ◌==◌, ==_iff, ==_refl, ltb, ltb→lt,
  ltb→le, false, Bool-cases, inl, inr, arith,
}
use libbinrec.Api.Handle.{Handle}
use libbinrec.Api.Readonly.{page_size, max_partial, no_page, update, memmove, insert_page}
use libbinrec.Api.Readonly.Lookup.{Sorted, LowerBound}

-- The table's used entries are in order and at most 64; all entries after them are unused.
pub record TableOk (h : Handle) : Type 0 where
  pub sorted : Sorted h.num_partial_readonly h.partial_readonly_pages
  pub in_use : (i : ℕ) → i < h.num_partial_readonly → h.partial_readonly_pages i < no_page
  pub unused : (i : ℕ) → h.num_partial_readonly ≤ i → h.partial_readonly_pages i ≡ no_page
  pub room : h.num_partial_readonly ≤ max_partial

abbrev pub page_of : ℕ → ℕ
page_of start = start / page_size

-- The bytes from start to end lie in one page.
abbrev pub OnePage : ℕ → ℕ → Type 0
OnePage start end = (start ≤ end) × (end ≤ page_of start * page_size + page_size)

-- The entries after a shift down by one that writes `v` at `index`.
module _ (f : ℕ → ℕ) (index n v : ℕ) where
  abbrev shifted : ℕ → ℕ
  shifted = update (memmove f index (index + 1) (n - index)) index v

  pub at_index : shifted index ≡ v
  at_index = rw (==_refl index) refl

  pub before_index : (j : ℕ) → j < index → shifted j ≡ f j
  before_index j l = ground arith

  after_index : (j : ℕ) → index < j → j < n → shifted j ≡ f (j + 1)
  after_index j l m = moved ∙ ap f next
    where
      moved : shifted j ≡ f (index + 1 + (j - index))
      moved = ground arith

      next : index + 1 + (j - index) ≡ j + 1
      next = omega arith

  past_end : (j : ℕ) → index ≤ n → n ≤ j → j ≢ index → shifted j ≡ f j
  past_end j h l ne = ground arith

module _ (h : Handle) (ok : TableOk h) (page : ℕ) (valid : page < no_page) (index : ℕ)
    (bound : LowerBound h.num_partial_readonly h.partial_readonly_pages page index)
    (absent : page ≢ h.partial_readonly_pages index)
    (small : h.num_partial_readonly < max_partial) where
  abbrev pages : ℕ → ℕ
  pages = h.partial_readonly_pages

  abbrev n : ℕ
  n = h.num_partial_readonly

  pub appended-TableOk : index ≡ n → TableOk (insert_page h page index)
  unfolding insert_page
  appended-TableOk e = record {
    sorted = λ i j l m. elim (Bool-cases (j == index)) [
      | inl last ↦ omega (
        arith,
        at_last j ((==_iff j index).0 last),
        before_index pages index n page i (omega (arith, (==_iff j index).0 last)),
        bound.1 i (omega (arith, (==_iff j index).0 last)),
      )
      | inr old ↦ omega (
        arith,
        before_index pages index n page i (omega (arith, e)),
        before_index pages index n page j (below j m old),
        ok.sorted i j l (omega (arith, e, below j m old)),
      )
    ];
    in_use = λ i l. elim (Bool-cases (i == index)) [
      | inl last ↦ omega (arith, at_last i ((==_iff i index).0 last))
      | inr old ↦ omega (
        arith,
        before_index pages index n page i (below i l old),
        ok.in_use i (omega (arith, e, below i l old)),
      )
    ];
    unused = λ i l.
        past_end pages index n page i (omega (arith, e)) (omega arith) (λ x. omega (arith, x, e))
        ∙ ok.unused i (omega arith);
    room = omega arith;
  }
    where
      at_last : (j : ℕ) → j ≡ index → shifted pages index n page j ≡ page
      at_last j x = ap (shifted pages index n page) x ∙ at_index pages index n page

      below : (j : ℕ) → j < n + 1 → (j == index) ≡ false → j < index
      below j m old = ground arith

  pub displaced_page : index < n → (j : ℕ) → shifted pages index n page j ≢ pages index
  displaced_page l j same = elim (Bool-cases (ltb j index)) [
    | inl before ↦ omega (
      arith,
      same,
      before_index pages index n page j (ltb→lt j index before),
      bound.1 j (ltb→lt j index before),
      lower,
    )
    | inr from ↦ elim (Bool-cases (j == index)) [
      | inl at ↦ omega (
        arith,
        same,
        ap (shifted pages index n page) ((==_iff j index).0 at),
        at_index pages index n page,
        lower,
      )
      | inr other ↦ elim (Bool-cases (ltb j n)) [
        | inr past ↦ omega (
          arith,
          same,
          past_end pages index n page j (omega arith) (ltb→le j n past)
              (λ x. omega (arith, x, ltb→le j n past)),
          ok.unused j (ltb→le j n past),
          ok.in_use index l,
        )
        | inl between ↦ omega (
          arith,
          same,
          after_index pages index n page j (beyond from other) (ltb→lt j n between),
          later (j + 1) (omega (arith, beyond from other)),
        )
      ]
    ]
  ]
    where
      lower : page < pages index
      lower = omega (arith, bound.2 index (omega arith) l)

      beyond : ltb j index ≡ false → (j == index) ≡ false → index < j
      beyond from other = ground arith

      later : (k : ℕ) → index < k → pages index < pages k
      later k m = elim (Bool-cases (ltb k n)) [
        | inl used ↦ ok.sorted index k m (ltb→lt k n used)
        | inr free ↦ omega (arith, ok.unused k (ltb→le k n free), ok.in_use index l)
      ]
