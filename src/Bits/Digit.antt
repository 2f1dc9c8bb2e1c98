-- ===== src/Bits/Digit.antt =====
-- One binary digit of `&` and `|`, and the laws that follow by halving both numbers.
use Prim.Native.Nat.{min, max, digits, bit_and-bitwise, bit_or-bitwise}
use page_table_multiarch.Common.{
  ℕ, zero, suc, ◌+◌, ◌*◌, ◌/◌, ◌%◌, ◌≤◌, bit_and, bit_or, ◌≡◌, refl, arith,
}

-- Any two amounts of fuel that cover the first number give one result.
digits-irrelevant :
    (z : ℕ → ℕ) (f : ℕ → ℕ → ℕ) (a b k l : ℕ) → a ≤ k → a ≤ l → digits z f k a b ≡ digits z f l a b
digits-irrelevant z f zero b zero zero p q = refl
digits-irrelevant z f zero b zero (suc l) p q = refl
digits-irrelevant z f zero b (suc k) zero p q = refl
digits-irrelevant z f zero b (suc k) (suc l) p q = refl
digits-irrelevant z f (suc a) b zero l p q = absurd (omega arith)
digits-irrelevant z f (suc a) b (suc k) zero p q = absurd (omega arith)
digits-irrelevant z f (suc a) b (suc k) (suc l) p q =
    rw (digits-irrelevant z f (suc a / 2) (b / 2) k l (omega arith) (omega arith))

pub bit_and_digit : (a b : ℕ) → bit_and a b ≡ bit_and (a / 2) (b / 2) * 2 + min (a % 2) (b % 2)
bit_and_digit zero b = rw (bit_and-bitwise, bit_and-bitwise) (omega arith)
bit_and_digit (suc a) b = omega (
  arith,
  bit_and-bitwise (suc a) b,
  bit_and-bitwise (suc a / 2) (b / 2),
  digits-irrelevant (λ _. 0) min (suc a / 2) (b / 2) a (suc a / 2) (omega arith) (omega arith),
)

pub bit_or_digit : (a b : ℕ) → bit_or a b ≡ bit_or (a / 2) (b / 2) * 2 + max (a % 2) (b % 2)
bit_or_digit zero b = rw (bit_or-bitwise, bit_or-bitwise) (omega arith)
bit_or_digit (suc a) b = omega (
  arith,
  bit_or-bitwise (suc a) b,
  bit_or-bitwise (suc a / 2) (b / 2),
  digits-irrelevant (λ c. c) max (suc a / 2) (b / 2) a (suc a / 2) (omega arith) (omega arith),
)
