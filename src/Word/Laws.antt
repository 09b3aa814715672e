-- ===== src/Word/Laws.antt =====
-- Laws of the bit operations at variables.
use Prim.Native.Nat.{digits, differ, bit_and-bitwise, bit_or-bitwise, bit_xor-bitwise}
use libbinrec.Common.{
  ℕ, zero, suc, ◌+◌, ◌*◌, ◌/◌, ◌%◌, ◌≤◌, ◌≡◌, refl, sym, ◌∙◌, ap, min, max, bit_and, bit_or,
  bit_xor, arith,
}

-- An operation `call` that combines its operands digit by digit with `op`; when the first operand has
-- no digits left, `keep` is what becomes of the second.
module _ (keep : ℕ → ℕ) (op : ℕ → ℕ → ℕ) (call : ℕ → ℕ → ℕ)
    (means : (a b : ℕ) → call a b ≡ digits keep op a a b) where
  -- Any number of rounds from the first operand on gives the same.
  settled : (bound rounds a b : ℕ) → a ≤ bound → a ≤ rounds → digits keep op rounds a b ≡ call a b
  settled bound zero zero b l h = sym (means 0 b)
  settled bound zero (suc a) b l h = absurd (omega arith)
  settled bound (suc rounds) zero b l h = sym (means 0 b)
  settled zero (suc rounds) (suc a) b l h = absurd (omega arith)
  settled (suc bound) (suc rounds) (suc a) b l h = omega (
    arith,
    means (suc a) b,
    settled bound rounds (suc a / 2) (b / 2) (omega arith) (omega arith),
    settled bound a (suc a / 2) (b / 2) (omega arith) (omega arith),
  )

  lowest_digit :
      ((b : ℕ) → keep b ≡ 2 * keep (b / 2) + op 0 (b % 2))
      → (a b : ℕ) → call a b ≡ 2 * call (a / 2) (b / 2) + op (a % 2) (b % 2)
  lowest_digit kept zero b = omega (arith, means 0 b, means 0 (b / 2), kept b)
  lowest_digit kept (suc a) b =
      omega (arith, means (suc a) b, settled a a (suc a / 2) (b / 2) (omega arith) (omega arith))

  swapped :
      ((a b : ℕ) → call a b ≡ 2 * call (a / 2) (b / 2) + op (a % 2) (b % 2))
      → ((a b : ℕ) → op a b ≡ op b a)
      → (bound a b : ℕ) → a + b ≤ bound
      → call a b ≡ call b a
  swapped digit flip zero a b h =
      ap (λ (x : ℕ). call x b) none_a
      ∙ ap (call 0) none_b
      ∙ sym (ap (λ (x : ℕ). call x a) none_b ∙ ap (call 0) none_a)
    where
      none_a : a ≡ 0
      none_a = omega arith

      none_b : b ≡ 0
      none_b = omega arith
  swapped digit flip (suc bound) zero zero h = refl
  swapped digit flip (suc bound) zero (suc b) h = omega (
    arith,
    digit 0 (suc b),
    digit (suc b) 0,
    flip 0 (suc b % 2),
    swapped digit flip bound 0 (suc b / 2) (omega arith),
  )
  swapped digit flip (suc bound) (suc a) b h = omega (
    arith,
    digit (suc a) b,
    digit b (suc a),
    flip (suc a % 2) (b % 2),
    swapped digit flip bound (suc a / 2) (b / 2) (omega arith),
  )

pub zero-bit_and : (b : ℕ) → bit_and 0 b ≡ 0
zero-bit_and b = bit_and-bitwise 0 b

pub zero-bit_or : (b : ℕ) → bit_or 0 b ≡ b
zero-bit_or b = bit_or-bitwise 0 b

pub bit_and_digit : (a b : ℕ) → bit_and a b ≡ 2 * bit_and (a / 2) (b / 2) + min (a % 2) (b % 2)
bit_and_digit = lowest_digit (λ b. 0) min bit_and bit_and-bitwise (λ b. omega arith)

pub bit_or_digit : (a b : ℕ) → bit_or a b ≡ 2 * bit_or (a / 2) (b / 2) + max (a % 2) (b % 2)
bit_or_digit = lowest_digit (λ b. b) max bit_or bit_or-bitwise (λ b. omega arith)

bit_xor_digit : (a b : ℕ) → bit_xor a b ≡ 2 * bit_xor (a / 2) (b / 2) + differ (a % 2) (b % 2)
bit_xor_digit = lowest_digit (λ b. b) differ bit_xor bit_xor-bitwise (λ b. omega arith)

differ_comm : (a b : ℕ) → differ a b ≡ differ b a
differ_comm zero zero = refl
differ_comm zero (suc b) = refl
differ_comm (suc a) zero = refl
differ_comm (suc a) (suc b) = differ_comm a b

pub bit_and_comm : (a b : ℕ) → bit_and a b ≡ bit_and b a
bit_and_comm a b =
    swapped (λ b. 0) min bit_and bit_and-bitwise bit_and_digit (λ a b. omega arith) (a + b) a b
      (omega arith)

pub bit_or_comm : (a b : ℕ) → bit_or a b ≡ bit_or b a
bit_or_comm a b =
    swapped (λ b. b) max bit_or bit_or-bitwise bit_or_digit (λ a b. omega arith) (a + b) a b
      (omega arith)

pub bit_xor_comm : (a b : ℕ) → bit_xor a b ≡ bit_xor b a
bit_xor_comm a b =
    swapped (λ b. b) differ bit_xor bit_xor-bitwise bit_xor_digit differ_comm (a + b) a b
      (omega arith)
