-- ===== src/Word/Bswap.antt =====
-- The byte swaps of src/endian.h, byte by byte.
use libbinrec.Common.{ℕ, ◌+◌, ◌*◌, ◌/◌, ◌%◌, ◌^◌, ◌<◌, ◌≡◌, ◌∙◌, ap, ap₂, bit_and, bit_or, arith}
use libbinrec.Word.{u32}
use libbinrec.Word.Endian.{bswap32}
use libbinrec.Word.Laws.{bit_or_comm}
use libbinrec.Word.Masks.{bit_and-mask, bit_or-up, up, half_times}

-- `|` of a low part and a part k places up.
or_add : (k a b : ℕ) → half_times k a ≡ 0 → bit_or a (up k b) ≡ a + up k b
or_add k a b h = bit_or_comm a (up k b) ∙ bit_or-up k b a h ∙ omega arith

abbrev pub bytes32 : ℕ → ℕ → ℕ → ℕ → ℕ
bytes32 b0 b1 b2 b3 = b0 + 2 ^ 8 * b1 + 2 ^ 16 * b2 + 2 ^ 24 * b3

-- The bytes of a 32-bit value, in the other order.
pub bswap32_bytes :
    (x : ℕ)
    → x < 2 ^ 32
    → bswap32 x ≡ bytes32 (x / 2 ^ 24) (x / 2 ^ 16 % 2 ^ 8) (x / 2 ^ 8 % 2 ^ 8) (x % 2 ^ 8)
unfolding bswap32
bswap32_bytes x h =
    ap₂ bit_or (ap₂ bit_or (ap (bit_or (x / 2 ^ 24)) p1) p2) p3
    ∙ ap (λ (n : ℕ). bit_or (bit_or n (up 16 b1)) (up 24 b0)) (or_add 8 b3 b2 (omega arith))
    ∙ ap (λ (n : ℕ). bit_or n (up 24 b0)) (or_add 16 (b3 + up 8 b2) b1 (omega arith))
    ∙ or_add 24 (b3 + up 8 b2 + up 16 b1) b0 (omega arith)
    ∙ omega arith
  where
    b0 : ℕ
    b0 = x % 2 ^ 8

    b1 : ℕ
    b1 = x / 2 ^ 8 % 2 ^ 8

    b2 : ℕ
    b2 = x / 2 ^ 16 % 2 ^ 8

    b3 : ℕ
    b3 = x / 2 ^ 24

    p1 : bit_and (x / 2 ^ 8) 0xFF00 ≡ up 8 b2
    p1 = bit_and-mask 8 8 (x / 2 ^ 8) ∙ omega arith

    p2 : u32 (bit_and x 0xFF00 * 2 ^ 8) ≡ up 16 b1
    p2 = ap (λ (n : ℕ). u32 (n * 2 ^ 8)) (bit_and-mask 8 8 x) ∙ omega arith

    p3 : u32 (x * 2 ^ 24) ≡ up 24 b0
    p3 = omega arith

-- Swapping the bytes of a 32-bit value twice gives it back.
pub bswap32-bswap32 : (x : ℕ) → x < 2 ^ 32 → bswap32 (bswap32 x) ≡ x
bswap32-bswap32 x h =
    bswap32_bytes (bswap32 x) (omega (arith, bswap32_bytes x h)) ∙ omega (arith, bswap32_bytes x h)
