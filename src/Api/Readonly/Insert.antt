-- ===== src/Api/Readonly/Insert.antt =====
-- add_partial_readonly_page() of src/api.c: the ways a call can end.
use libbinrec.Common.{
  ℕ, ◌+◌, ◌-◌, ◌*◌, ◌^◌, ◌<◌, ◌≡◌, ◌≢◌, refl, sym, subst, ◌&&◌, ◌==◌, ==_iff, ltb, leb, ltb→lt,
  ltb→le, le→ltb, Bool, true, false, Bool-cases, inl, inr, Option, some, arith,
}
use libbinrec.Api.Handle.{Handle}
use libbinrec.Api.Readonly.{
  page_size, max_partial, no_page, update, lookup_partial_readonly_page, insert_page, mark_entry,
  mark_bytes, add_partial_readonly_page,
}
use libbinrec.Api.Readonly.Table.{
  TableOk, page_of, OnePage, at_index, before_index, appended-TableOk, displaced_page,
}
use libbinrec.Api.Readonly.Lookup.{LowerBound, lookup_partial_readonly_page-LowerBound}

-- The ways a call for a page that the table `h` has at `index` or wants there can end.
pub data Outcome (h : Handle) (page index : ℕ) : Option (Bool × Handle) → Type 0 where
  -- The page has an entry: no entry comes or goes.
  present :
      (h' : Handle)
      → h.partial_readonly_pages index ≡ page
      → h'.partial_readonly_pages ≡ h.partial_readonly_pages
      → h'.num_partial_readonly ≡ h.num_partial_readonly
      → Outcome h page index (some (true, h'))
  -- All 64 entries are in use.
  full : h.num_partial_readonly ≡ max_partial → Outcome h page index (some (false, h))
  -- The page is above all others: it is the new last entry.
  appended :
      (h' : Handle)
      → index ≡ h.num_partial_readonly
      → TableOk h'
      → h'.num_partial_readonly ≡ h.num_partial_readonly + 1
      → h'.partial_readonly_pages index ≡ page
      → ((i : ℕ) → i < index → h'.partial_readonly_pages i ≡ h.partial_readonly_pages i)
      → Outcome h page index (some (true, h'))
  -- The page is below the one at its place, which is in the table no more.
  displaced :
      (h' : Handle)
      → index < h.num_partial_readonly
      → h'.partial_readonly_pages index ≡ page
      → ((j : ℕ) → h'.partial_readonly_pages j ≢ h.partial_readonly_pages index)
      → Outcome h page index (some (true, h'))

module _ (h : Handle) (start end : ℕ) (ok : TableOk h) (valid : start < 2 ^ 32)
    (one : OnePage start end) (index : ℕ)
    (bound : LowerBound h.num_partial_readonly h.partial_readonly_pages (page_of start) index) where
  abbrev page : ℕ
  page = page_of start

  abbrev marked : Handle → Handle
  marked h' = record h' {
    partial_readonly_map = update h'.partial_readonly_map index (
        mark_bytes (end - page * page_size - (start - page * page_size)) (start - page * page_size)
          (h'.partial_readonly_map index));
  }

  mark_entry-some :
      (h' : Handle)
      → mark_entry h' index (start - page * page_size) (end - page * page_size)
        ≡ some (true, marked h')
  unfolding mark_entry
  mark_entry-some h' =
      rw (le→ltb page_size (end - page * page_size) (omega (arith, one.1)), mark_entry) refl

  marked-TableOk : (h' : Handle) → TableOk h' → TableOk (marked h')
  marked-TableOk h' t = record {
    sorted = t.sorted;
    in_use = t.in_use;
    unused = t.unused;
    room = t.room;
  }

  inserted-Outcome :
      page ≢ h.partial_readonly_pages index
      → h.num_partial_readonly < max_partial
      → Outcome h page index (some (true, marked (insert_page h page index)))
  unfolding insert_page
  inserted-Outcome absent small = elim (Bool-cases (ltb index h.num_partial_readonly)) [
    | inl inside ↦
        displaced _ (ltb→lt index h.num_partial_readonly inside)
          (at_index h.partial_readonly_pages index h.num_partial_readonly page)
          (displaced_page h ok page (omega arith) index bound absent small
            (ltb→lt index h.num_partial_readonly inside))
    | inr outside ↦
        appended _ (omega (arith, ltb→le index h.num_partial_readonly outside))
          (marked-TableOk _ (
            appended-TableOk h ok page (omega arith) index bound absent small
              (omega (arith, ltb→le index h.num_partial_readonly outside))))
          refl (at_index h.partial_readonly_pages index h.num_partial_readonly page)
          (before_index h.partial_readonly_pages index h.num_partial_readonly page)
  ]

  absent_page :
      (page == h.partial_readonly_pages index) ≡ false → page ≢ h.partial_readonly_pages index
  absent_page other e = ground arith

  full_table :
      (h.partial_readonly_pages (max_partial - 1) == no_page) ≡ false
      → h.num_partial_readonly ≡ max_partial
  full_table used = elim (Bool-cases (ltb 63 h.num_partial_readonly)) [
    | inl all ↦ omega (arith, ltb→lt 63 h.num_partial_readonly all, ok.room)
    | inr some_left ↦
        absurd (ground (arith, ok.unused 63 (ltb→le 63 h.num_partial_readonly some_left)))
  ]

  room_left :
      (h.partial_readonly_pages (max_partial - 1) == no_page) ≡ true
      → h.num_partial_readonly < max_partial
  room_left last = elim (Bool-cases (ltb h.num_partial_readonly max_partial)) [
    | inl less ↦ ltb→lt h.num_partial_readonly max_partial less
    | inr all ↦ absurd (
        omega (
          arith,
          (==_iff (h.partial_readonly_pages 63) no_page).0 last,
          ok.in_use 63 (omega (arith, ltb→le h.num_partial_readonly max_partial all)),
        ))
  ]

  at_place :
      lookup_partial_readonly_page h page ≡ index
      → (o : Option (Bool × Handle)) × (add_partial_readonly_page h start end ≡ o)
        × Outcome h page index o
  unfolding add_partial_readonly_page
  at_place e = elim (Bool-cases (index == max_partial)) [
    | inl top ↦ (
      _,
      rw (e, start_ok, top) refl,
      full (omega (arith, (==_iff index max_partial).0 top, bound.0, ok.room)),
    )
    | inr low ↦ elim (Bool-cases (page == h.partial_readonly_pages index)) [
      | inl here ↦ (
        _,
        rw (e, start_ok, low, here) (mark_entry-some h),
        present (marked h) (sym ((==_iff page (h.partial_readonly_pages index)).0 here)) refl refl,
      )
      | inr other ↦ elim (Bool-cases (h.partial_readonly_pages (max_partial - 1) == no_page)) [
        | inr used ↦ (_, rw (e, start_ok, low, other, used) refl, full (full_table used))
        | inl last ↦ (
          _,
          rw (e, start_ok, low, other, last, le_room last)
              (mark_entry-some (insert_page h page index)),
          inserted-Outcome (absent_page other) (room_left last),
        )
      ]
    ]
  ]
    where
      start_ok : ltb end start ≡ false
      start_ok = le→ltb end start one.0

      le_room :
          (h.partial_readonly_pages (max_partial - 1) == no_page) ≡ true
          → (ltb index h.num_partial_readonly && leb max_partial h.num_partial_readonly) ≡ false
      le_room last = ground (arith, room_left last)

-- On a well-formed table add_partial_readonly_page() always returns, for any range within one page,
-- in one of the ways of `Outcome`: the page has an entry already, or all entries are in use and it
-- returns false, or the page is above all others and is appended to a table that stays well formed,
-- or another page is above it and the first such one is lost.
pub add_partial_readonly_page-Outcome :
    (h : Handle) (start end : ℕ)
    → TableOk h
    → start < 2 ^ 32
    → OnePage start end
    → Outcome h
        (page_of start)
        (lookup_partial_readonly_page h (page_of start))
        (add_partial_readonly_page h start end)
add_partial_readonly_page-Outcome h start end ok valid one =
    let (o, e, outcome) =
      at_place h start end ok valid one _
        (lookup_partial_readonly_page-LowerBound h (page_of start) ok.sorted) refl in
    subst (Outcome h (page_of start) (lookup_partial_readonly_page h (page_of start))) (sym e)
      outcome
