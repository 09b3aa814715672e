-- ===== src/Rtl/Mulh.antt =====
-- mulh64() of src/rtl-opt.c.
use libbinrec.Common.{
  ℕ, ◌+◌, ◌-◌, ◌*◌, ◌/◌, ◌%◌, ◌^◌, ◌<◌, ◌≤◌, ◌≡◌, ◌==◌, if◌then◌else◌, Bool, true, false, not, ◌&&◌,
  ◌↔◌, arith, leb, ◌∙◌, ap₂, Bool-cases, inl, inr, ◌||◌, ap,
}
use native.Mathlib.Nat.{mul_comm}
use libbinrec.Word.{u64, u64_mod, neg64}

-- `mid1 + mid2 + (low>>32)`, before the code's sum wraps to 64 bits.
abbrev pub middle : ℕ → ℕ → ℕ
middle a b =
    a / 2 ^ 32 * (b % 2 ^ 32) + a % 2 ^ 32 * (b / 2 ^ 32) + a % 2 ^ 32 * (b % 2 ^ 32) / 2 ^ 32

-- The high half of the product of two magnitudes, as the code sums it.
unfoldable pub mulh64_abs : ℕ → ℕ → ℕ
mulh64_abs a b = u64 (a / 2 ^ 32 * (b / 2 ^ 32) + u64 (middle a b) / 2 ^ 32)

unfoldable pub mulh64 : ℕ → ℕ → Bool → ℕ
mulh64 a b is_signed =
    let a_sign : Bool = is_signed && leb (2 ^ 63) a in
    let b_sign : Bool = is_signed && leb (2 ^ 63) b in
    let a_abs : ℕ = if a_sign then neg64 a else a in
    let b_abs : ℕ = if b_sign then neg64 b else b in
    let result_high : ℕ = mulh64_abs a_abs b_abs in
    if (a_sign && not b_sign) || (not a_sign && b_sign)
    then (if u64 (a * b) == 0 then neg64 result_high else u64 (neg64 result_high + u64_mod - 1))
    else result_high

mul-le : {p q : ℕ} → p < 2 ^ 32 → q < 2 ^ 32 → p * q ≤ (2 ^ 32 - 1) * (2 ^ 32 - 1)
mul-le hp hq = grind arith

parts-eq :
    (a b : ℕ)
    → a * b
      ≡ 2 ^ 64 * (a / 2 ^ 32 * (b / 2 ^ 32))
        + 2 ^ 32 * (a / 2 ^ 32 * (b % 2 ^ 32) + a % 2 ^ 32 * (b / 2 ^ 32))
        + a % 2 ^ 32 * (b % 2 ^ 32)
parts-eq a b =
    product (a / 2 ^ 32) (a % 2 ^ 32) (b / 2 ^ 32) (b % 2 ^ 32) (omega arith) (omega arith)
  where
    product :
        (p q r s : ℕ)
        → a ≡ 2 ^ 32 * p + q
        → b ≡ 2 ^ 32 * r + s
        → a * b ≡ 2 ^ 64 * (p * r) + 2 ^ 32 * (p * s + q * r) + q * s
    product p q r s ha hb = ap₂ ◌*◌ ha hb ∙ omega arith

-- For all 64-bit inputs the sum of partial products falls short of the high half of the product by
-- 2^32 for each carry out of the 64-bit middle sum, and by nothing else.
pub mulh64_abs-carry :
    (a b : ℕ)
    → a < 2 ^ 64
    → b < 2 ^ 64
    → mulh64_abs a b + 2 ^ 32 * (middle a b / 2 ^ 64) ≡ a * b / 2 ^ 64
unfolding mulh64_abs
mulh64_abs-carry a b ha hb = omega (
  arith,
  parts-eq a b,
  mul-le {p = a / 2 ^ 32} {q = b / 2 ^ 32} (omega arith) (omega arith),
  mul-le {p = a / 2 ^ 32} {q = b % 2 ^ 32} (omega arith) (omega arith),
  mul-le {p = a % 2 ^ 32} {q = b / 2 ^ 32} (omega arith) (omega arith),
  mul-le {p = a % 2 ^ 32} {q = b % 2 ^ 32} (omega arith) (omega arith),
)

-- For 64-bit operands the unsigned multiply-high is the high half of the product exactly when the
-- 64-bit sum of the two middle partial products and the carry from the low one does not wrap.
pub mulh64_unsigned_iff :
    (a b : ℕ)
    → a < 2 ^ 64
    → b < 2 ^ 64
    → (mulh64 a b false ≡ a * b / 2 ^ 64) ↔ (middle a b < 2 ^ 64)
unfolding mulh64
mulh64_unsigned_iff a b ha hb =
    (λ h. omega (arith, mulh64_abs-carry a b ha hb), λ h. omega (arith, mulh64_abs-carry a b ha hb))

-- |x|, as the code takes it for a signed operand.
abbrev pub magnitude : ℕ → ℕ
magnitude x = if leb (2 ^ 63) x then neg64 x else x

-- A 64-bit pattern sign-extended to 128 bits.
abbrev pub sext128 : ℕ → ℕ
sext128 x = if leb (2 ^ 63) x then x + (2 ^ 128 - 2 ^ 64) else x

neg_mul : (k m n : ℕ) → m ≤ k → (k - m) * n + m * n ≡ k * n
neg_mul k m n h = grind arith

neg_neg_mul : (k m n : ℕ) → m ≤ k → n ≤ k → (k - m) * (k - n) + k * m + k * n ≡ k * k + m * n
neg_neg_mul k m n hm hn = difference (k - m) (k - n) (omega arith) (omega arith)
  where
    difference : (p q : ℕ) → k ≡ m + p → k ≡ n + q → p * q + k * m + k * n ≡ k * k + m * n
    difference p q hp hq =
        omega (arith, ap₂ ◌*◌ hp hq, ap (λ (x : ℕ). x * n) hp, ap (λ (x : ℕ). x * m) hq)

mulh64_abs-exact :
    (m n : ℕ) → m < 2 ^ 64 → n < 2 ^ 64 → middle m n < 2 ^ 64 → mulh64_abs m n ≡ m * n / 2 ^ 64
mulh64_abs-exact m n hm hn h = omega (arith, mulh64_abs-carry m n hm hn)

mul-lt : (m n : ℕ) → m ≤ 2 ^ 63 → n ≤ 2 ^ 63 → m * n ≤ 2 ^ 126
mul-lt m n hm hn = grind arith

-- The four sign cases, with `h` the high half of the product of the magnitudes.
both_neg :
    (a b h : ℕ)
    → 2 ^ 63 ≤ a
    → a < 2 ^ 64
    → 2 ^ 63 ≤ b
    → b < 2 ^ 64
    → h ≡ neg64 a * neg64 b / 2 ^ 64
    → 2 ^ 64 * h + a * b % 2 ^ 64 ≡ (a + (2 ^ 128 - 2 ^ 64)) * (b + (2 ^ 128 - 2 ^ 64)) % 2 ^ 128
both_neg a b h la ha lb hb e = omega (
  arith,
  e ∙ ap (λ (x : ℕ). x / 2 ^ 64) (ap₂ ◌*◌ na nb),
  neg_neg_mul (2 ^ 64) a b (omega arith) (omega arith),
  mul-lt (2 ^ 64 - a) (2 ^ 64 - b) (omega arith) (omega arith),
)
  where
    na : neg64 a ≡ 2 ^ 64 - a
    na = omega arith

    nb : neg64 b ≡ 2 ^ 64 - b
    nb = omega arith

none_neg :
    (a b h : ℕ)
    → a < 2 ^ 63
    → b < 2 ^ 63
    → h ≡ a * b / 2 ^ 64
    → 2 ^ 64 * h + a * b % 2 ^ 64 ≡ a * b % 2 ^ 128
none_neg a b h la lb e = omega (arith, mul-lt a b (omega arith) (omega arith))

-- The code's high half for operands of different signs.
abbrev negated_high : ℕ → ℕ → ℕ
negated_high low h = if low == 0 then neg64 h else u64 (neg64 h + u64_mod - 1)

one_neg_core :
    (a b h m : ℕ)
    → m + a * b ≡ 2 ^ 64 * b
    → m ≤ 2 ^ 126
    → b < 2 ^ 63
    → h ≡ m / 2 ^ 64
    → 2 ^ 64 * negated_high (u64 (a * b)) h + a * b % 2 ^ 64
      ≡ (a + (2 ^ 128 - 2 ^ 64)) * b % 2 ^ 128
one_neg_core a b h m em hm hb e = ground arith

one_neg :
    (a b h : ℕ)
    → 2 ^ 63 ≤ a
    → a < 2 ^ 64
    → b < 2 ^ 63
    → h ≡ neg64 a * b / 2 ^ 64
    → 2 ^ 64 * negated_high (u64 (a * b)) h + a * b % 2 ^ 64
      ≡ (a + (2 ^ 128 - 2 ^ 64)) * b % 2 ^ 128
one_neg a b h la ha hb e =
    one_neg_core a b h (neg64 a * b)
      (ap (λ (x : ℕ). x * b + a * b) na ∙ neg_mul (2 ^ 64) a b (omega arith))
      (mul-lt (neg64 a) b (omega arith) (omega arith)) hb e
  where
    na : neg64 a ≡ 2 ^ 64 - a
    na = omega arith

neg_one :
    (a b h : ℕ)
    → a < 2 ^ 63
    → 2 ^ 63 ≤ b
    → b < 2 ^ 64
    → h ≡ a * neg64 b / 2 ^ 64
    → 2 ^ 64 * negated_high (u64 (a * b)) h + a * b % 2 ^ 64
      ≡ a * (b + (2 ^ 128 - 2 ^ 64)) % 2 ^ 128
neg_one a b h ha lb hb e =
    rw (mul_comm a b, mul_comm a (b + (2 ^ 128 - 2 ^ 64)))
      (one_neg b a h lb hb ha (e ∙ ap (λ (x : ℕ). x / 2 ^ 64) (mul_comm a (neg64 b))))

-- For 64-bit operands whose magnitudes do not make the middle sum wrap, the signed multiply-high and
-- the low product are together the 128-bit product of the sign-extended operands.
pub mulh64_signed :
    (a b : ℕ)
    → a < 2 ^ 64
    → b < 2 ^ 64
    → middle (magnitude a) (magnitude b) < 2 ^ 64
    → 2 ^ 64 * mulh64 a b true + a * b % 2 ^ 64 ≡ sext128 a * sext128 b % 2 ^ 128
unfolding mulh64
mulh64_signed a b ha hb h = elim (Bool-cases (leb (2 ^ 63) a)) [
  | inl pa ↦ elim (Bool-cases (leb (2 ^ 63) b)) [
    | inl pb ↦
        rw (pa, pb)
          (both_neg a b _ (ground arith) ha (ground arith) hb
            (mulh64_abs-exact (neg64 a) (neg64 b) (omega arith) (omega arith) (rw (pa, pb) at h)))
    | inr nb ↦
        rw (pa, nb)
          (one_neg a b _ (ground arith) ha (ground arith)
            (mulh64_abs-exact (neg64 a) b (omega arith) hb (rw (pa, nb) at h)))
  ]
  | inr na ↦ elim (Bool-cases (leb (2 ^ 63) b)) [
    | inl pb ↦
        rw (na, pb)
          (neg_one a b _ (ground arith) (ground arith) hb
            (mulh64_abs-exact a (neg64 b) ha (omega arith) (rw (na, pb) at h)))
    | inr nb ↦
        rw (na, nb)
          (none_neg a b _ (ground arith) (ground arith)
            (mulh64_abs-exact a b ha hb (rw (na, nb) at h)))
  ]
]
