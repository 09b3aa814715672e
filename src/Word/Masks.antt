-- ===== src/Word/Masks.antt =====
-- `&` with a mask of consecutive ones is a quotient and a remainder, and `|` of numbers with no common
-- digit is their sum.
use libbinrec.Common.{ℕ, zero, suc, ◌+◌, ◌*◌, ◌/◌, ◌%◌, ◌≡◌, refl, ◌∙◌, ap, bit_and, bit_or, arith}
use libbinrec.Word.Laws.{
  zero-bit_and, zero-bit_or, bit_and_digit, bit_or_digit, bit_or_comm, bit_and_comm,
}

pub bit_and-zero : (a : ℕ) → bit_and a 0 ≡ 0
bit_and-zero a = bit_and_comm a 0 ∙ zero-bit_and a

pub bit_or-zero : (a : ℕ) → bit_or a 0 ≡ a
bit_or-zero a = bit_or_comm a 0 ∙ zero-bit_or a

-- One more digit at the low end.
pub bit_and_double : (a m : ℕ) → bit_and a (2 * m) ≡ 2 * bit_and (a / 2) m
bit_and_double a m = omega (arith, bit_and_digit a (2 * m), ap (bit_and (a / 2)) halved)
  where
    halved : 2 * m / 2 ≡ m
    halved = omega arith

pub bit_and_double_one : (a m : ℕ) → bit_and a (2 * m + 1) ≡ 2 * bit_and (a / 2) m + a % 2
bit_and_double_one a m = omega (arith, bit_and_digit a (2 * m + 1), ap (bit_and (a / 2)) halved)
  where
    halved : (2 * m + 1) / 2 ≡ m
    halved = omega arith

-- A mask of k ones k' places up.
abbrev pub ones : ℕ → ℕ
ones zero = 0
ones (suc k) = 2 * ones k + 1

abbrev pub up : ℕ → ℕ → ℕ
up zero m = m
up (suc k) m = 2 * up k m

abbrev pub half_times : ℕ → ℕ → ℕ
half_times zero a = a
half_times (suc k) a = half_times k (a / 2)

abbrev pub low_part : ℕ → ℕ → ℕ
low_part zero a = 0
low_part (suc k) a = 2 * low_part k (a / 2) + a % 2

pub bit_and-ones : (k a : ℕ) → bit_and a (ones k) ≡ low_part k a
bit_and-ones zero a = bit_and-zero a
bit_and-ones (suc k) a =
    bit_and_double_one a (ones k) ∙ ap (λ (n : ℕ). 2 * n + a % 2) (bit_and-ones k (a / 2))

pub bit_and-up : (k a m : ℕ) → bit_and a (up k m) ≡ up k (bit_and (half_times k a) m)
bit_and-up zero a m = refl
bit_and-up (suc k) a m = bit_and_double a (up k m) ∙ ap (λ (n : ℕ). 2 * n) (bit_and-up k (a / 2) m)

-- `bit_or` of a multiple of 2 ^ k and a number below it.
pub bit_or-up : (k a b : ℕ) → half_times k b ≡ 0 → bit_or (up k a) b ≡ up k a + b
bit_or-up zero a b h = rw h (bit_or-zero a ∙ omega arith)
bit_or-up (suc k) a b h = omega (
  arith,
  bit_or_digit (2 * up k a) b,
  bit_or-up k a (b / 2) h,
  ap (λ (x : ℕ). bit_or x (b / 2)) halved,
)
  where
    halved : 2 * up k a / 2 ≡ up k a
    halved = omega arith

-- A mask of n ones, k places up.
pub bit_and-mask : (n k x : ℕ) → bit_and x (up k (ones n)) ≡ up k (low_part n (half_times k x))
bit_and-mask n k x = bit_and-up k x (ones n) ∙ ap (up k) (bit_and-ones n (half_times k x))
