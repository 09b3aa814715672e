-- ===== src/Api/Readonly.antt =====
-- The map of read-only memory in the handle, and the functions of src/api.c on it. Page size and table
-- size are the defaults of src/common.h.
pub mod Lookup
pub mod Table
pub mod Insert
use libbinrec.Common.{
  ℕ, zero, suc, ◌+◌, ◌-◌, ◌*◌, ◌/◌, ◌%◌, ◌^◌, min, bit_and, bit_or, ◌==◌, ltb, leb, not, ◌&&◌, Bool,
  true, false, if◌then◌else◌, Option, some, none, ◌>>=◌,
}
use libbinrec.Word.{u32}
use libbinrec.Api.Handle.{Handle}

abbrev pub page_size : ℕ
page_size = 2 ^ 12

abbrev pub max_partial : ℕ
max_partial = 64

-- The page number of an unused entry, ~0.
abbrev pub no_page : ℕ
no_page = 2 ^ 32 - 1

abbrev pub update {ℓ} : {A : Type ℓ} → (ℕ → A) → ℕ → A → ℕ → A
update f i v = λ j. if j == i then v else f j

-- memmove() of n elements within one array.
abbrev pub memmove {ℓ} : {A : Type ℓ} → (ℕ → A) → ℕ → ℕ → ℕ → ℕ → A
memmove f dst src n = λ i. if leb dst i && ltb i (dst + n) then f (src + (i - dst)) else f i

-- The search loop: `high` is one more than the source's, which starts at -1 for an empty table. The
-- fuel is the number of entries.
unfoldable pub lookup_loop : ℕ → (ℕ → ℕ) → ℕ → ℕ → ℕ → ℕ
lookup_loop zero pages page low high = low
lookup_loop (suc fuel) pages page low high = elim (ltb low high) [
  | false ↦ low
  | true ↦
      let mid : ℕ = (low + high - 1) / 2 in
      elim (page == pages mid) [
        | true ↦ mid
        | false ↦ elim (ltb page (pages mid)) [
          | true ↦ lookup_loop fuel pages page low mid
          | false ↦ lookup_loop fuel pages page (mid + 1) high
        ]
      ]
]

unfoldable pub lookup_partial_readonly_page : Handle → ℕ → ℕ
lookup_partial_readonly_page h page =
    lookup_loop h.num_partial_readonly h.partial_readonly_pages page 0 h.num_partial_readonly

-- Sets one bit for each of `count` bytes from `address` on.
unfoldable pub mark_bytes : ℕ → ℕ → (ℕ → ℕ) → ℕ → ℕ
mark_bytes zero address map = map
mark_bytes (suc count) address map =
    mark_bytes count (address + 1)
      (update map (address / 8) (bit_or (map (address / 8)) (2 ^ (address % 8))))

-- A new entry for `page` at `index`.
unfoldable pub insert_page : Handle → ℕ → ℕ → Handle
insert_page h page index =
    let count : ℕ = h.num_partial_readonly - index in
    record h {
      partial_readonly_pages =
          update (memmove h.partial_readonly_pages index (index + 1) count) index page;
      partial_readonly_map =
          update (memmove h.partial_readonly_map index (index + 1) count) index (λ j. 0);
      num_partial_readonly = h.num_partial_readonly + 1;
      readonly_map =
          update h.readonly_map (page / 4)
            (bit_or (h.readonly_map (page / 4)) (2 ^ (page % 4 * 2)));
    }

-- The bytes from start to end of the page of an entry become read-only.
unfoldable pub mark_entry : Handle → ℕ → ℕ → ℕ → Option (Bool × Handle)
mark_entry h index start end =
    if ltb page_size end
    then none
    else some (
      true,
      record h {
        partial_readonly_map =
            update h.partial_readonly_map index
              (mark_bytes (end - start) start (h.partial_readonly_map index));
      },
    )

-- `none` where an assertion fails or memmove() would read past the end of the table.
unfoldable pub add_partial_readonly_page : Handle → ℕ → ℕ → Option (Bool × Handle)
add_partial_readonly_page h start end =
    let page : ℕ = start / page_size in
    let index : ℕ = lookup_partial_readonly_page h page in
    let offset : ℕ = page * page_size in
    if ltb end start
    then none
    else if index == max_partial
    then some (false, h)
    else if page == h.partial_readonly_pages index
    then mark_entry h index (start - offset) (end - offset)
    else if not (h.partial_readonly_pages (max_partial - 1) == no_page)
    then some (false, h)
    else if ltb index h.num_partial_readonly && leb max_partial h.num_partial_readonly
    then none
    else mark_entry (insert_page h page index) index (start - offset) (end - offset)

-- `none` where an assertion fails.
unfoldable pub is_address_readonly : Handle → ℕ → Option Bool
is_address_readonly h address =
    let page : ℕ = address / page_size in
    let index : ℕ = lookup_partial_readonly_page h page in
    let page_offset : ℕ = address % page_size in
    if not (bit_and (h.readonly_map (page / 4)) (2 * 2 ^ (page % 4 * 2)) == 0)
    then some true
    else if bit_and (h.readonly_map (page / 4)) (2 ^ (page % 4 * 2)) == 0
    then some false
    else if leb max_partial index
    then none
    else if not (h.partial_readonly_pages index == page)
    then none
    else some (
        not (bit_and (h.partial_readonly_map index (page_offset / 8)) (2 ^ (page_offset % 8)) == 0))

-- Marks `count` whole pages from `page` on.
unfoldable pub mark_pages : ℕ → ℕ → (ℕ → ℕ) → ℕ → ℕ
mark_pages zero page map = map
mark_pages (suc count) page map = mark_pages count (page + 1) (
    update map (page / 4)
      (bit_or (bit_and (map (page / 4)) (255 - 2 ^ (page % 4 * 2))) (2 * 2 ^ (page % 4 * 2))))

-- The end of the function: the partial page at the top, if there is one, and the whole pages.
unfoldable pub add_upper_pages : Handle → ℕ → ℕ → Option (Bool × Handle)
add_upper_pages h base top = do
  (added, h') ←
      if top % page_size == 0
      then some (true, h)
      else add_partial_readonly_page h (top - top % page_size) top
  some (
      if not added then (false, h') else (
        true,
        record h' {
          readonly_map =
              mark_pages (top / page_size - base / page_size) (base / page_size) h'.readonly_map;
        },
      ))

unfoldable pub binrec_add_readonly_region : Handle → ℕ → ℕ → Option (Bool × Handle)
binrec_add_readonly_region h base size =
    let top : ℕ = u32 (base + size) in
    let page_top : ℕ = min (u32 (base - base % page_size + page_size)) top in
    if base % page_size == 0 then add_upper_pages h base top else (do
      (added, h') ← add_partial_readonly_page h base page_top
      (if not added
          then some (false, h')
          else (if page_top == top then some (true, h') else add_upper_pages h' page_top top)))

unfoldable pub binrec_clear_readonly_regions : Handle → Handle
binrec_clear_readonly_regions h = record h {
  readonly_map = λ i. 0;
  partial_readonly_pages = λ i. no_page;
  num_partial_readonly = 0;
}
