-- ===== src/Api/CodeBuffer/Space.antt =====
-- binrec_ensure_code_space() of src/common.h: when there is room for more code.
use libbinrec.Common.{
  bit_and, ℕ, ◌+◌, ◌-◌, ◌%◌, ◌^◌, ◌<◌, ◌≤◌, ◌≡◌, refl, sym, ap, subst, ◌>>=◌, leb, Bool, true,
  false, Bool-cases, ◌⊎◌, inl, inr, Option, some, none, arith,
}
use libbinrec.Api.Handle.{Handle}
use libbinrec.Api.CodeBuffer.{
  code_expand_size, long_limit, Allocator, realloc_asserts, binrec_code_realloc, expanded_size,
  set_buffer, expand_from, binrec_expand_code_buffer, binrec_ensure_code_space,
}

-- The ways in which a request for `bytes` more bytes ends: there is room; the buffer grows, to the next
-- multiple of the expansion size; or there is no memory and nothing changes.
pub data Space (h : Handle) (bytes : ℕ) : Option (Bool × Handle) → Type 0 where
  room : h.code_len + bytes ≤ h.code_buffer_size → Space h bytes (some (true, h))
  grown :
      (buffer size : ℕ)
      → h.code_buffer_size < size
      → h.code_len + bytes ≤ size
      → size < h.code_len + bytes + 4096
      → size % 4096 ≡ 0
      → Space h bytes (some (true, set_buffer buffer size h))
  short : h.code_buffer_size < h.code_len + bytes → Space h bytes (some (false, h))

expanded_bounds :
    (n : ℕ)
    → 0 < n
    → (n ≤ expanded_size n) × (expanded_size n < n + 4096) × (expanded_size n % 4096 ≡ 0)
unfolding expanded_size
expanded_bounds n p = (omega arith, omega arith, omega arith)

-- The buffer is there, is not empty, and is aligned to a power of two.
pub record Aligned (h : Handle) (ptr : ℕ) : Type 0 where
  pub buffer : h.code_buffer ≡ some ptr
  pub ptr_set : 0 < ptr
  pub size_set : 0 < h.code_buffer_size
  pub alignment_set : 0 < h.code_alignment
  pub power_of_two : bit_and h.code_alignment (h.code_alignment - 1) ≡ 0

asserts_hold :
    (h : Handle) (ptr new_size : ℕ)
    → Aligned h ptr
    → 0 < new_size
    → realloc_asserts ptr h.code_buffer_size new_size h.code_alignment ≡ true
unfolding realloc_asserts
asserts_hold h ptr new_size a p =
    rw a.power_of_two (ground (arith, a.ptr_set, a.size_set, a.alignment_set, p))

realloc-cases :
    (alloc : Allocator) (h : Handle) (ptr new_size : ℕ)
    → Aligned h ptr
    → 0 < new_size
    → (binrec_code_realloc alloc h ptr h.code_buffer_size new_size h.code_alignment ≡ some none)
      ⊎ ((buffer : ℕ) × (binrec_code_realloc alloc h ptr h.code_buffer_size new_size
              h.code_alignment
            ≡ some (some buffer)))
unfolding binrec_code_realloc
realloc-cases alloc h ptr new_size a p = rw (asserts_hold h ptr new_size a p) (option_cases _)
  where
    option_cases :
        (o : Option ℕ)
        → (◌≡◌ {A = Option (Option ℕ)} (some o) (some none))
          ⊎ ((b : ℕ) × (◌≡◌ {A = Option (Option ℕ)} (some o) (some (some b))))
    option_cases none = inl refl
    option_cases (some b) = inr (b, refl)

expand_from-Space :
    (alloc : Allocator) (h : Handle) (bytes ptr : ℕ)
    → Aligned h ptr
    → h.code_len + bytes + 4096 ≤ 2 ^ 63
    → h.code_buffer_size < h.code_len + bytes
    → Space h bytes (expand_from alloc h (h.code_len + bytes) ptr)
unfolding expand_from
expand_from-Space alloc h bytes ptr a small less =
    let n : ℕ = h.code_len + bytes in
    let more : leb n h.code_buffer_size ≡ false = ground arith in
    let safe : leb long_limit (n + code_expand_size - 1) ≡ false = ground arith in
    let (lower, upper, whole) = expanded_bounds n (omega (arith, less)) in
    elim (realloc-cases alloc h ptr (expanded_size n) a (omega (arith, lower, less))) [
      | inl none_left ↦ rw (more, safe, none_left, expand_from) (Space.short less)
      | inr (buffer, given) ↦
          rw (more, safe, given, expand_from)
            (Space.grown buffer (expanded_size n) (omega (arith, less, lower)) lower upper whole)
    ]

-- With a buffer there that is not empty and is aligned to a power of two, and a length that is not within 4096 bytes of the largest long,
-- binrec_ensure_code_space() always returns: with room for the bytes in the old buffer or in one that
-- has grown by less than one expansion more than is needed, or with false and the handle as it was.
pub binrec_ensure_code_space-Space :
    (alloc : Allocator) (h : Handle) (bytes ptr : ℕ)
    → Aligned h ptr
    → h.code_len + bytes + 4096 ≤ 2 ^ 63
    → Space h bytes (binrec_ensure_code_space alloc h bytes)
unfolding binrec_ensure_code_space binrec_expand_code_buffer
binrec_ensure_code_space-Space alloc h bytes ptr a small =
    let n : ℕ = h.code_len + bytes in
    let fits : leb long_limit n ≡ false = ground arith in
    elim (Bool-cases (leb n h.code_buffer_size)) [
      | inl enough ↦
          rw (fits, enough, binrec_ensure_code_space) (Space.room (ground (arith, enough)))
      | inr more ↦
          rw (fits, more, binrec_ensure_code_space)
            (subst (Space h bytes) (ap (λ o. o >>= expand_from alloc h n) (sym a.buffer))
              (expand_from-Space alloc h bytes ptr a small (ground (arith, more))))
    ]
