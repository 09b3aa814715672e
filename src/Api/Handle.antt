-- ===== src/Api/Handle.antt =====
-- The handle, binrec_t of src/common.h, and the functions of src/api.c that create it and set its
-- options. A pointer is an optional address.
use libbinrec.Common.{
  ℕ, ◌+◌, ◌-◌, ◌^◌, ◌==◌, ltb, not, ◌&&◌, Bool, true, false, if◌then◌else◌, bool_to_ℕ, Option, some,
  none, ℤ, pos, negsuc,
}

pub data Arch : Type 0 where
  invalid ppc_7xx x86_64_sysv x86_64_windows x86_64_windows_seh : Arch

pub data GuestTranslate : Type 0 where
  guest_ppc_translate : GuestTranslate

pub data HostTranslate : Type 0 where
  host_x86_translate : HostTranslate

-- The fields of binrec_setup_t that src/api.c reads; the others are only passed on.
pub record Setup : Type 0 where
  pub guest : Arch
  pub host : Arch
  pub malloc : Option ℕ
  pub realloc : Option ℕ
  pub free : Option ℕ
  pub code_malloc : Option ℕ
  pub code_realloc : Option ℕ
  pub code_free : Option ℕ

-- The arrays are functions of the index.
pub record Handle : Type 0 where
  pub setup : Setup
  pub host_little_endian : Bool
  pub code_buffer : Option ℕ
  pub code_buffer_size : ℕ
  pub code_len : ℕ
  pub code_alignment : ℕ
  pub code_range_start : ℕ
  pub code_range_end : ℕ
  pub common_opt : ℕ
  pub guest_opt : ℕ
  pub host_opt : ℕ
  pub opt_state : Option ℕ
  pub max_inline_length : ℕ
  pub max_inline_depth : ℕ
  pub use_chaining : Bool
  pub use_branch_exit_test : Bool
  pub do_verify : Bool
  pub pre_insn_callback : Option ℕ
  pub post_insn_callback : Option ℕ
  pub readonly_map : ℕ → ℕ
  pub partial_readonly_pages : ℕ → ℕ
  pub partial_readonly_map : ℕ → ℕ → ℕ
  pub num_partial_readonly : ℕ

unfoldable pub arch_is_little_endian : Arch → Bool
arch_is_little_endian Arch.invalid = false
arch_is_little_endian Arch.ppc_7xx = false
arch_is_little_endian Arch.x86_64_sysv = true
arch_is_little_endian Arch.x86_64_windows = true
arch_is_little_endian Arch.x86_64_windows_seh = true

unfoldable pub arch_guest_translate_func : Arch → Option GuestTranslate
arch_guest_translate_func Arch.ppc_7xx = some guest_ppc_translate
arch_guest_translate_func _ = none

unfoldable pub arch_host_translate_func : Arch → Option HostTranslate
arch_host_translate_func Arch.x86_64_sysv = some host_x86_translate
arch_host_translate_func Arch.x86_64_windows = some host_x86_translate
arch_host_translate_func Arch.x86_64_windows_seh = some host_x86_translate
arch_host_translate_func _ = none

unfoldable pub arch_host_code_alignment : Arch → ℕ
arch_host_code_alignment Arch.x86_64_sysv = 16
arch_host_code_alignment Arch.x86_64_windows = 16
arch_host_code_alignment Arch.x86_64_windows_seh = 16
arch_host_code_alignment _ = 0

abbrev pub is_set : Option ℕ → Bool
is_set none = false
is_set (some _) = true

unfoldable pub binrec_guest_supported : Arch → Bool
binrec_guest_supported arch = elim (arch_guest_translate_func arch) [ some _ ↦ true | none ↦ false ]

unfoldable pub binrec_host_supported : Arch → Bool
binrec_host_supported arch = elim (arch_host_translate_func arch) [ some _ ↦ true | none ↦ false ]

-- Whether some but not all of three allocation functions are given.
abbrev pub incomplete : Option ℕ → Option ℕ → Option ℕ → Bool
incomplete m r f =
    let have = bool_to_ℕ (is_set m) + bool_to_ℕ (is_set r) + bool_to_ℕ (is_set f) in
    not (have == 3) && ltb 0 have

abbrev clear_allocator : Setup → Setup
clear_allocator s =
    if incomplete s.malloc s.realloc s.free
    then record s { malloc = none; realloc = none; free = none }
    else s

abbrev clear_code_allocator : Setup → Setup
clear_code_allocator s =
    if incomplete s.code_malloc s.code_realloc s.code_free
    then record s { code_malloc = none; code_realloc = none; code_free = none }
    else s

-- `memory` tells whether the handle can be allocated.
unfoldable pub binrec_create_handle : Bool → Setup → Option Handle
binrec_create_handle memory setup =
    if not memory
    then none
    else some (record {
      setup = clear_code_allocator (clear_allocator setup);
      host_little_endian = arch_is_little_endian setup.host;
      code_buffer = none;
      code_buffer_size = 0;
      code_len = 0;
      code_alignment = 0;
      code_range_start = 0;
      code_range_end = 2 ^ 32 - 1;
      common_opt = 0;
      guest_opt = 0;
      host_opt = 0;
      opt_state = none;
      max_inline_length = 0;
      max_inline_depth = 1;
      use_chaining = false;
      use_branch_exit_test = false;
      do_verify = false;
      pre_insn_callback = none;
      post_insn_callback = none;
      readonly_map = λ i. 0;
      partial_readonly_pages = λ i. 2 ^ 32 - 1;
      partial_readonly_map = λ i j. 0;
      num_partial_readonly = 0;
    })

unfoldable pub binrec_set_code_range : Handle → ℕ → ℕ → Handle
binrec_set_code_range h start end =
    if ltb end start
    then record h { code_range_start = 1; code_range_end = 0 }
    else record h { code_range_start = start; code_range_end = end }

unfoldable pub binrec_set_optimization_flags : Handle → ℕ → ℕ → ℕ → Handle
binrec_set_optimization_flags h common_opt guest_opt host_opt = record h {
  common_opt = common_opt;
  guest_opt = guest_opt;
  host_opt = host_opt;
}

unfoldable pub binrec_set_max_inline_length : Handle → ℤ → Handle
binrec_set_max_inline_length h (pos length) = record h { max_inline_length = length }
binrec_set_max_inline_length h (negsuc _) = h

unfoldable pub binrec_set_max_inline_depth : Handle → ℤ → Handle
binrec_set_max_inline_depth h (pos depth) = record h { max_inline_depth = depth }
binrec_set_max_inline_depth h (negsuc _) = h

abbrev is_windows_seh : Arch → Bool
is_windows_seh Arch.x86_64_windows_seh = true
is_windows_seh _ = false

unfoldable pub binrec_enable_chaining : Handle → Bool → Handle
binrec_enable_chaining h enable =
    if enable && is_windows_seh h.setup.host then h else record h { use_chaining = enable }

unfoldable pub binrec_enable_branch_exit_test : Handle → Bool → Handle
binrec_enable_branch_exit_test h enable = record h { use_branch_exit_test = enable }

unfoldable pub binrec_set_pre_insn_callback : Handle → Option ℕ → Handle
binrec_set_pre_insn_callback h callback = record h { pre_insn_callback = callback }

unfoldable pub binrec_set_post_insn_callback : Handle → Option ℕ → Handle
binrec_set_post_insn_callback h callback = record h { post_insn_callback = callback }

unfoldable pub binrec_enable_verify : Handle → Bool → Handle
binrec_enable_verify h enable = record h { do_verify = enable }
