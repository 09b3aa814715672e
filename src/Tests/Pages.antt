-- ===== src/Tests/Pages.antt =====
-- The table of partial read-only pages.
use libbinrec.Common.{ℕ, ◌≡◌, refl, Bool, true, false, Option, some, none, arith}
use libbinrec.Api.Handle.{Arch, Setup, Handle}
use libbinrec.Api.Readonly.{
  no_page, update, lookup_loop, lookup_partial_readonly_page, insert_page, mark_entry,
  add_partial_readonly_page, is_address_readonly,
}
use libbinrec.Api.Readonly.Lookup.{LowerBound, lookup_partial_readonly_page-LowerBound}
use libbinrec.Api.Readonly.Table.{TableOk, page_of}
use libbinrec.Api.Readonly.Insert.{Outcome, add_partial_readonly_page-Outcome}

abbrev setup : Setup
setup = record {
  guest = Arch.ppc_7xx;
  host = Arch.x86_64_sysv;
  malloc = none;
  realloc = none;
  free = none;
  code_malloc = none;
  code_realloc = none;
  code_free = none;
}

-- A handle whose table has the one page 10, with bytes 0 to 7 read-only.
abbrev one_page : Handle
one_page = record {
  setup = setup;
  host_little_endian = true;
  code_buffer = none;
  code_buffer_size = 0;
  code_len = 0;
  code_alignment = 0;
  code_range_start = 0;
  code_range_end = no_page;
  common_opt = 0;
  guest_opt = 0;
  host_opt = 0;
  opt_state = none;
  max_inline_length = 0;
  max_inline_depth = 1;
  use_chaining = false;
  use_branch_exit_test = false;
  do_verify = false;
  pre_insn_callback = none;
  post_insn_callback = none;
  readonly_map = update (λ i. 0) 2 16;
  partial_readonly_pages = update (λ i. no_page) 0 10;
  partial_readonly_map = update (λ i j. 0) 0 (update (λ j. 0) 0 255);
  num_partial_readonly = 1;
}

one_page-TableOk : TableOk one_page
one_page-TableOk = record {
  sorted = λ i j l m. absurd (omega arith);
  in_use = λ i l. ground arith;
  unused = λ i l. ground arith;
  room = omega arith;
}

byte_is_readonly : is_address_readonly one_page 0xA003 ≡ some true
unfolding is_address_readonly lookup_partial_readonly_page lookup_loop
byte_is_readonly = refl

lookup_partial_readonly_page-LowerBound_example :
    LowerBound 1 one_page.partial_readonly_pages 9 (lookup_partial_readonly_page one_page 9)
lookup_partial_readonly_page-LowerBound_example =
    lookup_partial_readonly_page-LowerBound one_page 9 one_page-TableOk.sorted

add_partial_readonly_page-Outcome_example :
    Outcome one_page
      (page_of 0x9010)
      (lookup_partial_readonly_page one_page (page_of 0x9010))
      (add_partial_readonly_page one_page 0x9010 0x9020)
add_partial_readonly_page-Outcome_example =
    add_partial_readonly_page-Outcome one_page 0x9010 0x9020 one_page-TableOk (omega arith)
      (omega arith, omega arith)

-- The first entry after page 9 is added, and whether there is another.
page_table : Handle → ℕ × ℕ
page_table h = (h.partial_readonly_pages 0, h.partial_readonly_pages 1)

first_pages : Option (Bool × Handle) → Option (ℕ × ℕ)
first_pages none = none
first_pages (some (_, h)) = some (page_table h)

page_ten_is_lost :
    first_pages (add_partial_readonly_page one_page 0x9010 0x9020) ≡ some (9, no_page)
unfolding add_partial_readonly_page lookup_partial_readonly_page lookup_loop insert_page mark_entry
    first_pages page_table
page_ten_is_lost = refl
