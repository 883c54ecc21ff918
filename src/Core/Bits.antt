-- ===== src/Core/Bits.antt =====
-- The laws of `&`, `|` and `^` of C on numbers.
use Prim.Native.Nat.{ℕ, zero, suc, ◌+◌, ◌*◌, ◌/◌, ◌%◌, ◌^◌, ◌≤◌, ◌<◌, min, max}
use Prim.Native.Nat.{digits, bitwise, differ, bit_and, bit_or, bit_xor}
use Prim.Native.Nat.{bit_and-bitwise, bit_or-bitwise, bit_xor-bitwise}
use mathlib.Core.Path.{◌≡◌, refl, ap, sym, ◌∙◌}
use native.Mathlib.Nat.{le_refl, pow-suc}
use native.Mathlib.Omega.{arith}

-- `digits` gives the same for any two amounts of fuel that cover the number.
enough_digits :
    (z : ℕ → ℕ) (f : ℕ → ℕ → ℕ) (a b k l : ℕ) → a ≤ k → a ≤ l → digits z f k a b ≡ digits z f l a b
enough_digits z f zero b zero zero h i = refl
enough_digits z f zero b zero (suc l) h i = refl
enough_digits z f zero b (suc k) zero h i = refl
enough_digits z f zero b (suc k) (suc l) h i = refl
enough_digits z f (suc a) b zero l h i = absurd (omega arith)
enough_digits z f (suc a) b (suc k) zero h i = absurd (omega arith)
enough_digits z f (suc a) b (suc k) (suc l) h i =
    ap (λ (d : ℕ). d * 2 + f (suc a % 2) (b % 2))
      (enough_digits z f (suc a / 2) (b / 2) k l (omega arith) (omega arith))

bitwise_step :
    (z : ℕ → ℕ) (op : ℕ → ℕ → ℕ) (m n : ℕ)
    → bitwise z op (suc m) n ≡ bitwise z op (suc m / 2) (n / 2) * 2 + op (suc m % 2) (n % 2)
bitwise_step z op m n =
    ap (λ (d : ℕ). d * 2 + op (suc m % 2) (n % 2))
      (enough_digits z op (suc m / 2) (n / 2) m (suc m / 2) (omega arith) (le_refl _))

-- The last digit of each operation, and the rest.
pub bit_and_step : (m n : ℕ) → bit_and m n ≡ 2 * bit_and (m / 2) (n / 2) + min (m % 2) (n % 2)
bit_and_step zero n = simp bit_and-bitwise (omega arith)
bit_and_step (suc m) n = omega (arith, digit)
  where
    digit : bit_and (suc m) n ≡ bit_and (suc m / 2) (n / 2) * 2 + min (suc m % 2) (n % 2)
    digit = simp bit_and-bitwise (bitwise_step (λ y. 0) min m n)

pub bit_or_step : (m n : ℕ) → bit_or m n ≡ 2 * bit_or (m / 2) (n / 2) + max (m % 2) (n % 2)
bit_or_step zero n = simp bit_or-bitwise (omega arith)
bit_or_step (suc m) n = omega (arith, digit)
  where
    digit : bit_or (suc m) n ≡ bit_or (suc m / 2) (n / 2) * 2 + max (suc m % 2) (n % 2)
    digit = simp bit_or-bitwise (bitwise_step (λ y. y) max m n)

-- The lowest digits differ exactly when their sum is odd.
differ_digits : (x y : ℕ) → x < 2 → y < 2 → differ x y ≡ (x + y) % 2
differ_digits zero y hx hy = omega arith
differ_digits (suc zero) zero hx hy = refl
differ_digits (suc zero) (suc zero) hx hy = refl
differ_digits (suc zero) (suc (suc y)) hx hy = absurd (omega arith)
differ_digits (suc (suc x)) y hx hy = absurd (omega arith)

pub bit_xor_step : (a b : ℕ) → bit_xor a b ≡ bit_xor (a / 2) (b / 2) * 2 + (a + b) % 2
bit_xor_step zero b = simp bit_xor-bitwise (omega arith)
bit_xor_step (suc a) b =
    omega (arith, simp_step, differ_digits (suc a % 2) (b % 2) (omega arith) (omega arith))
  where
    simp_step : bit_xor (suc a) b ≡ bit_xor (suc a / 2) (b / 2) * 2 + differ (suc a % 2) (b % 2)
    simp_step = simp bit_xor-bitwise (bitwise_step (λ y. y) differ a b)

-- The same by one digit: the rest and the lowest.
pub half-bit_xor : (a b : ℕ) → bit_xor a b / 2 ≡ bit_xor (a / 2) (b / 2)
half-bit_xor a b = omega (arith, bit_xor_step a b)

pub odd-bit_xor : (a b : ℕ) → bit_xor a b % 2 ≡ (a + b) % 2
odd-bit_xor a b = omega (arith, bit_xor_step a b)

-- Numbers with the same lowest digit and the same rest are equal.
eq_of_half : (a b : ℕ) → a / 2 ≡ b / 2 → a % 2 ≡ b % 2 → a ≡ b
eq_of_half a b p q = omega arith

zero-bit_xor : (b : ℕ) → bit_xor 0 b ≡ b
zero-bit_xor b = bit_xor-bitwise 0 b

bit_xor-comm_fuel : (n a b : ℕ) → a ≤ n → b ≤ n → bit_xor a b ≡ bit_xor b a
bit_xor-comm_fuel zero zero zero p q = refl
bit_xor-comm_fuel zero zero (suc b) p q = absurd (omega arith)
bit_xor-comm_fuel zero (suc a) b p q = absurd (omega arith)
bit_xor-comm_fuel (suc n) a b p q = omega (
  arith,
  bit_xor_step a b,
  bit_xor_step b a,
  bit_xor-comm_fuel n (a / 2) (b / 2) (omega arith) (omega arith),
)

pub bit_xor_comm : (a b : ℕ) → bit_xor a b ≡ bit_xor b a
bit_xor_comm a b = bit_xor-comm_fuel (a + b) a b (omega arith) (omega arith)

pub bit_xor-zero : (a : ℕ) → bit_xor a 0 ≡ a
bit_xor-zero a = bit_xor_comm a 0 ∙ zero-bit_xor a

bit_xor-assoc_fuel :
    (n a b c : ℕ) → a ≤ n → b ≤ n → c ≤ n → bit_xor (bit_xor a b) c ≡ bit_xor a (bit_xor b c)
bit_xor-assoc_fuel zero zero zero zero p q r = refl
bit_xor-assoc_fuel zero zero zero (suc c) p q r = absurd (omega arith)
bit_xor-assoc_fuel zero zero (suc b) c p q r = absurd (omega arith)
bit_xor-assoc_fuel zero (suc a) b c p q r = absurd (omega arith)
bit_xor-assoc_fuel (suc n) a b c p q r =
    eq_of_half _ _
      (rw
        (
          half-bit_xor (bit_xor a b) c,
          half-bit_xor a b,
          half-bit_xor a (bit_xor b c),
          half-bit_xor b c,
        )
        (bit_xor-assoc_fuel n (a / 2) (b / 2) (c / 2) (omega arith) (omega arith) (omega arith)))
      (omega (
        arith,
        odd-bit_xor (bit_xor a b) c,
        odd-bit_xor a b,
        odd-bit_xor a (bit_xor b c),
        odd-bit_xor b c,
      ))

pub bit_xor_assoc : (a b c : ℕ) → bit_xor (bit_xor a b) c ≡ bit_xor a (bit_xor b c)
bit_xor_assoc a b c = bit_xor-assoc_fuel (a + b + c) a b c (omega arith) (omega arith) (omega arith)

bit_xor-self_fuel : (n a : ℕ) → a ≤ n → bit_xor a a ≡ 0
bit_xor-self_fuel zero zero p = refl
bit_xor-self_fuel zero (suc a) p = absurd (omega arith)
bit_xor-self_fuel (suc n) a p =
    omega (arith, bit_xor_step a a, bit_xor-self_fuel n (a / 2) (omega arith))

pub bit_xor_self : (a : ℕ) → bit_xor a a ≡ 0
bit_xor_self a = bit_xor-self_fuel a a (omega arith)

-- The bits of the result stay within the width.
pub bit_xor-lt : (k a b : ℕ) → a < 2 ^ k → b < 2 ^ k → bit_xor a b < 2 ^ k
bit_xor-lt zero a b p q = ground (arith, bit_xor_self 0)
bit_xor-lt (suc k) a b p q = omega (
  arith,
  pow-suc 2 k,
  bit_xor_step a b,
  bit_xor-lt k (a / 2) (b / 2) (omega (arith, pow-suc 2 k)) (omega (arith, pow-suc 2 k)),
)

bit_or-comm_fuel : (n a b : ℕ) → a ≤ n → b ≤ n → bit_or a b ≡ bit_or b a
bit_or-comm_fuel zero zero zero p q = refl
bit_or-comm_fuel zero zero (suc b) p q = absurd (omega arith)
bit_or-comm_fuel zero (suc a) b p q = absurd (omega arith)
bit_or-comm_fuel (suc n) a b p q = omega (
  arith,
  bit_or_step a b,
  bit_or_step b a,
  bit_or-comm_fuel n (a / 2) (b / 2) (omega arith) (omega arith),
)

pub bit_or_comm : (a b : ℕ) → bit_or a b ≡ bit_or b a
bit_or_comm a b = bit_or-comm_fuel (a + b) a b (omega arith) (omega arith)

half-bit_or : (a b : ℕ) → bit_or a b / 2 ≡ bit_or (a / 2) (b / 2)
half-bit_or a b = omega (arith, bit_or_step a b)

odd-bit_or : (a b : ℕ) → bit_or a b % 2 ≡ max (a % 2) (b % 2)
odd-bit_or a b = omega (arith, bit_or_step a b)

bit_or-assoc_fuel :
    (n a b c : ℕ) → a ≤ n → b ≤ n → c ≤ n → bit_or (bit_or a b) c ≡ bit_or a (bit_or b c)
bit_or-assoc_fuel zero zero zero zero p q r = refl
bit_or-assoc_fuel zero zero zero (suc c) p q r = absurd (omega arith)
bit_or-assoc_fuel zero zero (suc b) c p q r = absurd (omega arith)
bit_or-assoc_fuel zero (suc a) b c p q r = absurd (omega arith)
bit_or-assoc_fuel (suc n) a b c p q r =
    eq_of_half _ _
      (rw (half-bit_or (bit_or a b) c, half-bit_or a b, half-bit_or a (bit_or b c), half-bit_or b c)
        (bit_or-assoc_fuel n (a / 2) (b / 2) (c / 2) (omega arith) (omega arith) (omega arith)))
      (omega (
        arith,
        odd-bit_or (bit_or a b) c,
        odd-bit_or a b,
        odd-bit_or a (bit_or b c),
        odd-bit_or b c,
      ))

pub bit_or_assoc : (a b c : ℕ) → bit_or (bit_or a b) c ≡ bit_or a (bit_or b c)
bit_or_assoc a b c = bit_or-assoc_fuel (a + b + c) a b c (omega arith) (omega arith) (omega arith)

pub bit_or_right_comm : (a b c : ℕ) → bit_or (bit_or a b) c ≡ bit_or (bit_or a c) b
bit_or_right_comm a b c =
    bit_or_assoc a b c ∙ ap (λ (t : ℕ). bit_or a t) (bit_or_comm b c) ∙ sym (bit_or_assoc a c b)

bit_and-bit_or_fuel : (n a b : ℕ) → a ≤ n → b ≤ n → bit_and (bit_or a b) b ≡ b
bit_and-bit_or_fuel zero zero zero p q = refl
bit_and-bit_or_fuel zero zero (suc b) p q = absurd (omega arith)
bit_and-bit_or_fuel zero (suc a) b p q = absurd (omega arith)
bit_and-bit_or_fuel (suc n) a b p q =
    let rest : bit_and (bit_or a b / 2) (b / 2) ≡ b / 2 =
      ap (λ (m : ℕ). bit_and m (b / 2)) (half-bit_or a b)
      ∙ bit_and-bit_or_fuel n (a / 2) (b / 2) (omega arith) (omega arith) in
    omega (arith, bit_and_step (bit_or a b) b, rest, odd-bit_or a b)

-- Bits that were set are there.
pub bit_and-bit_or : (a b : ℕ) → bit_and (bit_or a b) b ≡ b
bit_and-bit_or a b = bit_and-bit_or_fuel (a + b) a b (omega arith) (omega arith)
