-- ===== src/Bits/Mask.antt =====
-- Masks: distribution and regrouping, low masks as remainders, masks that stand higher up.
use native.Mathlib.Nat.{pow-suc, one-le-pow, div-div-eq-div-mul}
use page_table_multiarch.Common.{
  ℕ, zero, suc, ◌+◌, ◌-◌, ◌*◌, ◌/◌, ◌%◌, ◌^◌, ◌≤◌, ◌<◌, bit_and, bit_or, ◌≡◌, arith,
}
use Prim.Native.Nat.{min, max, bit_and-bitwise, bit_or-bitwise}
use page_table_multiarch.Bits.Digit.{bit_and_digit, bit_or_digit}

-- Induction on the binary digits of a number.
halving_below :
    (P : ℕ → Type 0) → P 0 → ((a : ℕ) → P (suc a / 2) → P (suc a)) → (n a : ℕ) → a ≤ n → P a
halving_below P base step n zero h = base
halving_below P base step zero (suc a) h = absurd (omega arith)
halving_below P base step (suc n) (suc a) h =
    step a (halving_below P base step n (suc a / 2) (omega arith))

halving : (P : ℕ → Type 0) → P 0 → ((a : ℕ) → P (suc a / 2) → P (suc a)) → (a : ℕ) → P a
halving P base step a = halving_below P base step a a (omega arith)

pub zero-bit_and : (b : ℕ) → bit_and 0 b ≡ 0
zero-bit_and b = bit_and-bitwise 0 b

pub zero-bit_or : (b : ℕ) → bit_or 0 b ≡ b
zero-bit_or b = bit_or-bitwise 0 b

pub bit_and-zero : (a : ℕ) → bit_and a 0 ≡ 0
bit_and-zero =
    halving (λ a. bit_and a 0 ≡ 0) (zero-bit_and 0) λ a ih. omega (arith, bit_and_digit (suc a) 0)

pub bit_or-zero : (a : ℕ) → bit_or a 0 ≡ a
bit_or-zero =
    halving (λ a. bit_or a 0 ≡ a) (zero-bit_or 0) λ a ih. omega (arith, bit_or_digit (suc a) 0)

bit_and_half : (a b : ℕ) → bit_and a b / 2 ≡ bit_and (a / 2) (b / 2)
bit_and_half a b = omega (arith, bit_and_digit a b)

bit_and_parity : (a b : ℕ) → bit_and a b % 2 ≡ min (a % 2) (b % 2)
bit_and_parity a b = omega (arith, bit_and_digit a b)

bit_or_half : (a b : ℕ) → bit_or a b / 2 ≡ bit_or (a / 2) (b / 2)
bit_or_half a b = omega (arith, bit_or_digit a b)

bit_or_parity : (a b : ℕ) → bit_or a b % 2 ≡ max (a % 2) (b % 2)
bit_or_parity a b = omega (arith, bit_or_digit a b)

-- Equal halves and equal last digits make equal numbers.
eq_of_halves : (a b : ℕ) → a / 2 ≡ b / 2 → a % 2 ≡ b % 2 → a ≡ b
eq_of_halves a b h p = omega arith

pub bit_and_assoc : (a b c : ℕ) → bit_and (bit_and a b) c ≡ bit_and a (bit_and b c)
bit_and_assoc =
    halving (λ a. (b c : ℕ) → bit_and (bit_and a b) c ≡ bit_and a (bit_and b c))
      (λ b c. simp zero-bit_and)
      (λ a ih b c.
        eq_of_halves _ _ (simp bit_and_half (ih (b / 2) (c / 2)))
          (simp bit_and_parity (omega arith)))

pub bit_and_comm : (a b : ℕ) → bit_and a b ≡ bit_and b a
bit_and_comm =
    halving (λ a. (b : ℕ) → bit_and a b ≡ bit_and b a) (λ b. simp (zero-bit_and, bit_and-zero))
      (λ a ih b.
        eq_of_halves _ _ (simp bit_and_half (ih (b / 2))) (simp bit_and_parity (omega arith)))

pub bit_and-bit_or : (a b c : ℕ) → bit_and (bit_or a b) c ≡ bit_or (bit_and a c) (bit_and b c)
bit_and-bit_or =
    halving (λ a. (b c : ℕ) → bit_and (bit_or a b) c ≡ bit_or (bit_and a c) (bit_and b c))
      (λ b c. simp (zero-bit_and, zero-bit_or))
      (λ a ih b c.
        eq_of_halves _ _ (simp (bit_and_half, bit_or_half) (ih (b / 2) (c / 2)))
          (simp (bit_and_parity, bit_or_parity) (omega arith)))

-- Where no digit is in both, the union is the sum.
pub bit_or_add : (a b : ℕ) → bit_and a b ≡ 0 → bit_or a b ≡ a + b
bit_or_add =
    halving (λ a. (b : ℕ) → bit_and a b ≡ 0 → bit_or a b ≡ a + b)
      (λ b apart. omega (arith, zero-bit_or b))
      λ a ih b apart.
        let halves = bit_and_half (suc a) b in
        let ends = bit_and_parity (suc a) b in
        let sum = ih (b / 2) (omega (arith, halves, apart)) in
        let digit = bit_or_digit (suc a) b in omega (arith, ends, apart, sum, digit)

mod_double : (a m : ℕ) → 0 < m → a / 2 % m * 2 + a % 2 ≡ a % (m * 2)
mod_double a m h = grind arith

-- A mask of the lowest `k` digits is the remainder by `2 ^ k`.
pub bit_and_low : (k a : ℕ) → bit_and a (2 ^ k - 1) ≡ a % 2 ^ k
bit_and_low zero a = rw bit_and-zero (omega arith)
bit_and_low (suc k) a = rw (pow-suc 2 k) (
    ground (
      arith,
      one-le-pow k 2,
      bit_and_digit a (2 ^ k * 2 - 1),
      bit_and_low k (a / 2),
      mod_double a (2 ^ k) (one-le-pow k 2 (omega arith)),
    ))

bit_and_double : (a m : ℕ) → bit_and a (m * 2) ≡ bit_and (a / 2) m * 2
bit_and_double a m = ground (arith, bit_and_digit a (m * 2))

-- A mask shifted up by `k` digits.
pub bit_and_shifted : (k a m : ℕ) → bit_and a (m * 2 ^ k) ≡ bit_and (a / 2 ^ k) m * 2 ^ k
bit_and_shifted zero a m = ground arith
bit_and_shifted (suc k) a m =
    rw (pow-suc 2 k, regroup, bit_and_shifted k a (m * 2), bit_and_double, div-div-eq-div-mul)
      (omega arith)
  where
    regroup : m * (2 ^ k * 2) ≡ m * 2 * 2 ^ k
    regroup = omega arith

-- The form in which the address mask of an entry is read: `len` digits from digit `low` up.
pub bit_and_field :
    (low len a : ℕ) → bit_and a ((2 ^ len - 1) * 2 ^ low) ≡ a / 2 ^ low % 2 ^ len * 2 ^ low
bit_and_field low len a = rw (bit_and_shifted, bit_and_low)
