-- ===== src/Word/Clz.antt =====
-- clz32() of src/bitutils.h and the leading zeros.
use native.Mathlib.Nat.{pow-suc, add-zero, mul_assoc}
use libbinrec.Common.{
  ℕ, zero, suc, ◌+◌, ◌*◌, ◌^◌, ◌<◌, ◌≤◌, ◌≡◌, ◌≢◌, ◌∙◌, sym, ap, ◌==◌, ==_iff, false, Bool-cases,
  inl, inr, bit_and, arith,
}
use libbinrec.Word.{u32}
use libbinrec.Word.Bits.{clz32, clz32_step, clz32_last}
use libbinrec.Word.Masks.{bit_and-mask}

pow-add : (c k : ℕ) → 2 ^ (c + k) ≡ 2 ^ c * 2 ^ k
pow-add c zero = rw (add-zero c) (omega arith)
pow-add c (suc k) = omega (
  arith,
  ap (λ (n : ℕ). 2 ^ n) next,
  pow-suc 2 (c + k),
  ap (λ (n : ℕ). 2 ^ c * n) (pow-suc 2 k),
  pow-add c k,
)
  where
    next : c + suc k ≡ suc (c + k)
    next = omega arith

-- The count is the one that brings the highest set bit to the top.
abbrev pub LeadingZeros : ℕ → ℕ → Type 0
LeadingZeros x count = (2 ^ 31 ≤ x * 2 ^ count) × (x * 2 ^ count < 2 ^ 32)

-- What a step hands on: the shifted value, whose top n bits are not all zero.
abbrev Shifted : ℕ → ℕ → ℕ → ℕ → Type 0
Shifted low start count x = (x ≡ start * 2 ^ count) × (low ≤ x) × (x < 2 ^ 32)

clz32_last_lem :
    (start count x : ℕ) → Shifted (2 ^ 31) start count x → LeadingZeros start (clz32_last count x)
unfolding clz32_last
clz32_last_lem start count x s = elim (Bool-cases (bit_and x 0x80000000 == 0)) [
  | inl clear ↦
      absurd (omega (arith, (==_iff (bit_and x 0x80000000) 0).0 clear, bit_and-mask 1 31 x))
  | inr top ↦ rw top (omega arith)
]

-- The test with `mask` tells whether the value can go up by k.
abbrev Tells : ℕ → ℕ → ℕ → Type 0
Tells mask k low =
    (x : ℕ)
    → x < 2 ^ 32
    → (bit_and x mask ≡ 0 → x * 2 ^ k < 2 ^ 32) × (bit_and x mask ≢ 0 → low * 2 ^ k ≤ x)

mul_mono : (a b c : ℕ) → a ≤ b → a * c ≤ b * c
mul_mono a b c h = grind arith

module _ (mask k low : ℕ) (rest : ℕ → ℕ → ℕ) where
  clz32_step_lem :
      (start count x : ℕ)
      → 0 < low
      → Tells mask k low
      → ((count x : ℕ) → Shifted (low * 2 ^ k) start count x → LeadingZeros start (rest count x))
      → Shifted low start count x
      → LeadingZeros start (clz32_step mask k rest count x)
  unfolding clz32_step
  clz32_step_lem start count x pl tells next s = elim (Bool-cases (bit_and x mask == 0)) [
    | inl clear ↦ rw clear (
        next (count + k) (u32 (x * 2 ^ k))
          (shifted ((tells x s.2).0 ((==_iff (bit_and x mask) 0).0 clear))))
    | inr some_bit ↦
        rw some_bit (next count x (s.0, (tells x s.2).1 (λ e. absurd_bit e some_bit), s.2))
  ]
    where
      fits : x * 2 ^ k < 2 ^ 32 → u32 (x * 2 ^ k) ≡ x * 2 ^ k
      fits h = omega arith

      at_start : x * 2 ^ k ≡ start * 2 ^ (count + k)
      at_start =
          ap (λ (y : ℕ). y * 2 ^ k) s.0
          ∙ mul_assoc start (2 ^ count) (2 ^ k)
          ∙ ap (λ (y : ℕ). start * y) (sym (pow-add count k))

      raised : low * 2 ^ k ≤ x * 2 ^ k
      raised = mul_mono low x (2 ^ k) s.1

      shifted : x * 2 ^ k < 2 ^ 32 → Shifted (low * 2 ^ k) start (count + k) (u32 (x * 2 ^ k))
      shifted h = (fits h ∙ at_start, omega (arith, raised, fits h), omega (arith, fits h))

      absurd_bit : bit_and x mask ≡ 0 → (bit_and x mask == 0) ≡ false → ⊥
      absurd_bit e f = cc (sym ((==_iff (bit_and x mask) 0).1 e) ∙ f)

tells16 : Tells 0xffff0000 16 (2 ^ 0)
tells16 x h = (λ e. omega (arith, bit_and-mask 16 16 x), λ n. omega (arith, bit_and-mask 16 16 x))

tells8 : Tells 0xff000000 8 (2 ^ 16)
tells8 x h = (λ e. omega (arith, bit_and-mask 8 24 x), λ n. omega (arith, bit_and-mask 8 24 x))

tells4 : Tells 0xf0000000 4 (2 ^ 24)
tells4 x h = (λ e. omega (arith, bit_and-mask 4 28 x), λ n. omega (arith, bit_and-mask 4 28 x))

tells2 : Tells 0xc0000000 2 (2 ^ 28)
tells2 x h = (λ e. omega (arith, bit_and-mask 2 30 x), λ n. omega (arith, bit_and-mask 2 30 x))

tells1 : Tells 0x80000000 1 (2 ^ 30)
tells1 x h = (λ e. omega (arith, bit_and-mask 1 31 x), λ n. omega (arith, bit_and-mask 1 31 x))

-- For a nonzero 32-bit value clz32() is its number of leading zeros.
pub clz32-LeadingZeros : (x : ℕ) → 0 < x → x < 2 ^ 32 → LeadingZeros x (clz32 x)
unfolding clz32
clz32-LeadingZeros x px hx =
    clz32_step_lem 0xFFFF0000 16 1 _ x 0 x (omega arith) tells16
      (λ c1 x1. clz32_step_lem 0xFF000000 8 (2 ^ 16) _ x c1 x1 (omega arith) tells8 (λ c2 x2.
        clz32_step_lem 0xF0000000 4 (2 ^ 24) _ x c2 x2 (omega arith) tells4 (λ c3 x3.
          clz32_step_lem 0xC0000000 2 (2 ^ 28) _ x c3 x3 (omega arith) tells2 (λ c4 x4.
            clz32_step_lem 0x80000000 1 (2 ^ 30) _ x c4 x4 (omega arith) tells1
              (λ c5 x5. clz32_last_lem x c5 x5)))))
      (omega arith, omega arith, hx)
