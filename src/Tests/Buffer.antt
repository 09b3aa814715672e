-- ===== src/Tests/Buffer.antt =====
-- The buffer for host code, of one expansion, that is nearly full.
use libbinrec.Common.{◌≡◌, refl, true, false, some, none, arith}
use libbinrec.Api.Handle.{Arch, Handle}
use libbinrec.Api.CodeBuffer.{
  Allocator, set_buffer, realloc_asserts, binrec_code_realloc, expanded_size, expand_from,
  binrec_expand_code_buffer, binrec_ensure_code_space,
}
use libbinrec.Api.CodeBuffer.Space.{Space, binrec_ensure_code_space-Space}

-- Blocks stay where they are.
abbrev in_place : Allocator
in_place = record {
  code_realloc = λ ptr old_size new_size alignment. some ptr;
  realloc = λ ptr size. some ptr;
}

abbrev pub nearly_full : Handle
nearly_full = record {
  setup = record {
    guest = Arch.ppc_7xx;
    host = Arch.x86_64_sysv;
    malloc = none;
    realloc = none;
    free = none;
    code_malloc = none;
    code_realloc = none;
    code_free = none;
  };
  host_little_endian = true;
  code_buffer = some 65536;
  code_buffer_size = 4096;
  code_len = 4090;
  code_alignment = 16;
  code_range_start = 0;
  code_range_end = 0xFFFFFFFF;
  common_opt = 0;
  guest_opt = 0;
  host_opt = 0;
  opt_state = none;
  max_inline_length = 0;
  max_inline_depth = 1;
  use_chaining = false;
  use_branch_exit_test = false;
  do_verify = false;
  pre_insn_callback = none;
  post_insn_callback = none;
  readonly_map = λ i. 0;
  partial_readonly_pages = λ i. 0xFFFFFFFF;
  partial_readonly_map = λ i j. 0;
  num_partial_readonly = 0;
}

buffer_grows :
    binrec_ensure_code_space in_place nearly_full 16
    ≡ some (true, set_buffer 65536 8192 nearly_full)
unfolding binrec_ensure_code_space binrec_expand_code_buffer expand_from binrec_code_realloc
    realloc_asserts expanded_size
buffer_grows = refl

binrec_ensure_code_space-Space_example :
    Space nearly_full 16 (binrec_ensure_code_space in_place nearly_full 16)
binrec_ensure_code_space-Space_example =
    binrec_ensure_code_space-Space in_place nearly_full 16 65536
      (record {
        buffer = refl;
        ptr_set = omega arith;
        size_set = omega arith;
        alignment_set = omega arith;
        power_of_two = refl;
      })
      (omega arith)
