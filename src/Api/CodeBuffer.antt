-- ===== src/Api/CodeBuffer.antt =====
-- src/memory.c and the routines of src/common.h on the buffer for host code. Sizes have the type long, of
-- 64 bits.
pub mod Space
use libbinrec.Common.{
  ◌==◌, ◌&&◌, not, bit_and, ℕ, ◌+◌, ◌-◌, ◌*◌, ◌/◌, ◌^◌, leb, Bool, true, false, if◌then◌else◌,
  Option, some, none, ◌>>=◌,
}
use libbinrec.Api.Handle.{Handle}

abbrev pub code_expand_size : ℕ
code_expand_size = 4096

abbrev pub long_limit : ℕ
long_limit = 2 ^ 63

-- What the allocators return, realloc() and the function that the caller may set: the new block, if
-- there is one.
pub record Allocator : Type 0 where
  pub code_realloc : (ptr old_size new_size alignment : ℕ) → Option ℕ
  pub realloc : (ptr size : ℕ) → Option ℕ

-- The assertions on the arguments of binrec_code_realloc().
unfoldable pub realloc_asserts : ℕ → ℕ → ℕ → ℕ → Bool
realloc_asserts ptr old_size new_size alignment =
    not (ptr == 0)
    && not (old_size == 0)
    && not (new_size == 0)
    && not (alignment == 0)
    && bit_and alignment (alignment - 1) == 0

-- What the allocator returns; the outer `none` is a violated ASSERT().
unfoldable pub binrec_code_realloc : Allocator → Handle → ℕ → ℕ → ℕ → ℕ → Option (Option ℕ)
binrec_code_realloc alloc h ptr old_size new_size alignment =
    let block : Option ℕ = elim h.setup.code_realloc [
      | some callback ↦ alloc.code_realloc ptr old_size new_size alignment
      | none ↦ alloc.realloc ptr new_size
    ] in
    if realloc_asserts ptr old_size new_size alignment then some block else none

-- The size that the buffer is to have.
unfoldable pub expanded_size : ℕ → ℕ
expanded_size new_size = (new_size + code_expand_size - 1) / code_expand_size * code_expand_size

abbrev pub set_buffer : ℕ → ℕ → Handle → Handle
set_buffer buffer size h = record h { code_buffer = some buffer; code_buffer_size = size }

-- The buffer at `ptr`. `none` is where the size does not grow, the sum overflows, or
-- binrec_code_realloc() fails an assertion.
unfoldable pub expand_from : Allocator → Handle → ℕ → ℕ → Option (Bool × Handle)
expand_from alloc h new_size ptr =
    if leb new_size h.code_buffer_size
    then none
    else if leb long_limit (new_size + code_expand_size - 1)
    then none
    else elim (binrec_code_realloc alloc h ptr h.code_buffer_size (expanded_size new_size)
        h.code_alignment) [
          | none ↦ none
          | some none ↦ some (false, h)
          | some (some new_buffer) ↦ some (true, set_buffer new_buffer (expanded_size new_size) h)
        ]

-- `none` is also where there is no buffer.
unfoldable pub binrec_expand_code_buffer : Allocator → Handle → ℕ → Option (Bool × Handle)
binrec_expand_code_buffer alloc h new_size = h.code_buffer >>= expand_from alloc h new_size

unfoldable pub binrec_ensure_code_space : Allocator → Handle → ℕ → Option (Bool × Handle)
binrec_ensure_code_space alloc h bytes =
    if leb long_limit (h.code_len + bytes)
    then none
    else if leb (h.code_len + bytes) h.code_buffer_size
    then some (true, h)
    else binrec_expand_code_buffer alloc h (h.code_len + bytes)
