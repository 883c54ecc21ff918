-- ===== src/Core/Masks.antt =====
-- Masks and disjoint fields of a word as arithmetic.
use libcsp.Core.Bits.{bit_or_step, bit_and_step, bit_xor_step, bit_xor-zero, half-bit_xor}
use Prim.Native.Nat.{ℕ, zero, suc, ◌+◌, ◌-◌, ◌*◌, ◌/◌, ◌%◌, ◌^◌, ◌≤◌, ◌<◌, bit_and, bit_or, bit_xor}
use mathlib.Core.Path.{◌≡◌, refl, sym, ap, ap₂, ◌∙◌}
use mathlib.Core.Logic.{◌↔◌}
use native.Mathlib.Nat.{suc-mul, pow-suc, one-le-pow, div-div-eq-div-mul, eq_of_mul-eq-mul_right}
use native.Mathlib.Omega.{arith}

bit_or-zero_fuel : (n a : ℕ) → a ≤ n → bit_or a 0 ≡ a
bit_or-zero_fuel zero zero p = refl
bit_or-zero_fuel zero (suc a) p = absurd (omega arith)
bit_or-zero_fuel (suc n) a p =
    omega (arith, bit_or_step a 0, bit_or-zero_fuel n (a / 2) (omega arith))

bit_and-zero_fuel : (n a : ℕ) → a ≤ n → bit_and a 0 ≡ 0
bit_and-zero_fuel zero zero p = refl
bit_and-zero_fuel zero (suc a) p = absurd (omega arith)
bit_and-zero_fuel (suc n) a p =
    omega (arith, bit_and_step a 0, bit_and-zero_fuel n (a / 2) (omega arith))

double-pow : (q k : ℕ) → q * 2 ^ suc k ≡ 2 * (q * 2 ^ k)
double-pow q k = omega (arith, ap (λ (t : ℕ). q * t) (pow-suc 2 k))

-- `(q << k) | r` is a sum where `r` has at most `k` bits.
pub bit_or-fields : (k q r : ℕ) → r < 2 ^ k → bit_or (q * 2 ^ k) r ≡ q * 2 ^ k + r
bit_or-fields zero q r h = ground (arith, bit_or-zero_fuel q q (omega arith))
bit_or-fields (suc k) q r h = omega (
  arith,
  bit_or_step (q * 2 ^ suc k) r,
  double-pow q k,
  ap (λ (t : ℕ). bit_or t (r / 2)) (half_of_double (q * 2 ^ suc k) (q * 2 ^ k) (double-pow q k)),
  bit_or-fields k q (r / 2) (omega (arith, pow-suc 2 k)),
)
  where
    half_of_double : (a b : ℕ) → a ≡ 2 * b → a / 2 ≡ b
    half_of_double a b e = omega arith

-- So is `(q << k) ^ r`.
pub bit_xor-fields : (k q r : ℕ) → r < 2 ^ k → bit_xor (q * 2 ^ k) r ≡ q * 2 ^ k + r
bit_xor-fields zero q r h = ground (arith, bit_xor-zero (q * 1))
bit_xor-fields (suc k) q r h = omega (
  arith,
  bit_xor_step (q * 2 ^ suc k) r,
  double-pow q k,
  ap (λ (t : ℕ). bit_xor t (r / 2)) (half_of_double (q * 2 ^ suc k) (q * 2 ^ k) (double-pow q k)),
  bit_xor-fields k q (r / 2) (omega (arith, pow-suc 2 k)),
)
  where
    half_of_double : (a b : ℕ) → a ≡ 2 * b → a / 2 ≡ b
    half_of_double a b e = omega arith

bit_and-fields : (k q r : ℕ) → r < 2 ^ k → bit_and (q * 2 ^ k + r) (2 ^ k - 1) ≡ r
bit_and-fields zero q r h = ground (arith, bit_and-zero_fuel (q * 1 + r) (q * 1 + r) (omega arith))
bit_and-fields (suc k) q r h = ground (
  arith,
  bit_and_step (q * 2 ^ suc k + r) (2 ^ suc k - 1),
  double-pow q k,
  pow-suc 2 k,
  one-le-pow k 2,
  bit_and-fields k q (r / 2) (omega (arith, pow-suc 2 k)),
)

-- A mask of `k` ones takes the remainder by `2 ^ k`.
pub bit_and-mask : (k a : ℕ) → bit_and a (2 ^ k - 1) ≡ a % 2 ^ k
bit_and-mask k a = ground (arith, one-le-pow k 2, bit_and-fields k (a / 2 ^ k) (a % 2 ^ k))

div-div : (a k : ℕ) → a / 2 / 2 ^ k ≡ a / 2 ^ suc k
div-div a k = div-div-eq-div-mul a 2 (2 ^ k) ∙ ap (λ (t : ℕ). a / t) (omega (arith, pow-suc 2 k))

-- A shift to the right moves the digits of both numbers.
pub div-bit_xor : (k a b : ℕ) → bit_xor a b / 2 ^ k ≡ bit_xor (a / 2 ^ k) (b / 2 ^ k)
div-bit_xor zero a b = omega arith ∙ ap₂ (λ (s t : ℕ). bit_xor s t) (one_divides a) (one_divides b)
  where
    one_divides : (x : ℕ) → x ≡ x / 1
    one_divides x = omega arith
div-bit_xor (suc k) a b =
    sym (div-div (bit_xor a b) k)
    ∙ ap (λ (t : ℕ). t / 2 ^ k) (half-bit_xor a b)
    ∙ div-bit_xor k (a / 2) (b / 2)
    ∙ ap₂ (λ (s t : ℕ). bit_xor s t) (div-div a k) (div-div b k)

-- A mask of `n` ones above `k` zeros keeps the digits that it covers.
pub bit_and-high_mask : (k n a : ℕ) → bit_and a ((2 ^ n - 1) * 2 ^ k) ≡ a / 2 ^ k % 2 ^ n * 2 ^ k
bit_and-high_mask zero n a =
    mask_one (2 ^ n - 1) ∙ bit_and-mask n a ∙ times_one (a / 1) (a) (2 ^ n) (omega arith)
  where
    mask_one : (m : ℕ) → bit_and a (m * 1) ≡ bit_and a m
    mask_one m = ap (λ (t : ℕ). bit_and a t) (omega arith)

    times_one : (x y m : ℕ) → x ≡ y → y % m ≡ x % m * 1
    times_one x y m e = rw e (omega arith)
bit_and-high_mask (suc k) n a = omega (
  arith,
  pow-suc 2 k,
  double-pow (2 ^ n - 1) k,
  double-pow (a / 2 ^ suc k % 2 ^ n) k,
  bit_and_step a ((2 ^ n - 1) * 2 ^ suc k),
  halves ((2 ^ n - 1) * 2 ^ suc k) ((2 ^ n - 1) * 2 ^ k) (double-pow (2 ^ n - 1) k),
  bit_and-high_mask k n (a / 2),
  ap (λ (t : ℕ). t % 2 ^ n * 2 ^ k) (div-div a k),
)
  where
    halves : (x y : ℕ) → x ≡ 2 * y → bit_and (a / 2) (x / 2) ≡ bit_and (a / 2) y
    halves x y e = ap (λ (t : ℕ). bit_and (a / 2) t) (omega arith)

pub pow-add : (a b : ℕ) → 2 ^ (a + b) ≡ 2 ^ a * 2 ^ b
pow-add zero b = shift (0 + b) (omega arith)
  where
    shift : (k : ℕ) → k ≡ b → 2 ^ k ≡ 1 * 2 ^ b
    shift k e = omega (arith, ap (λ (t : ℕ). 2 ^ t) e)
pow-add (suc a) b =
    shift (suc a + b) (omega arith)
    ∙ omega (
      arith,
      pow-suc 2 (a + b),
      pow-add a b,
      pow-suc 2 a,
      ap (λ (t : ℕ). t * 2 ^ b) (pow-suc 2 a),
    )
  where
    shift : (k : ℕ) → k ≡ suc (a + b) → 2 ^ k ≡ 2 ^ suc (a + b)
    shift k e = ap (λ (t : ℕ). 2 ^ t) e

-- The mask `2 ^ (n + k) - 2 ^ k` in the form that the laws read.
pub high_mask-eq : (n k : ℕ) → 2 ^ (n + k) - 1 - (2 ^ k - 1) ≡ (2 ^ n - 1) * 2 ^ k
high_mask-eq n k =
    lower (2 ^ n) (2 ^ k) _ (one-le-pow n 2 (omega arith)) (one-le-pow k 2 (omega arith))
      (pow-add n k)
  where
    lower : (a b c : ℕ) → 1 ≤ a → 1 ≤ b → c ≡ a * b → c - 1 - (b - 1) ≡ (a - 1) * b
    lower zero b c p q e = absurd (omega arith)
    lower (suc a) b c p q e = less ∙ ap (λ (t : ℕ). t * b) less_one
      where
        less : c - 1 - (b - 1) ≡ a * b
        less = omega (arith, suc-mul a b)

        less_one : a ≡ suc a - 1
        less_one = omega arith

-- Two numbers agree under such a mask exactly when the digits that it covers agree.
pub high_mask_iff :
    (k n a b : ℕ)
    → (bit_and a ((2 ^ n - 1) * 2 ^ k) ≡ bit_and b ((2 ^ n - 1) * 2 ^ k))
      ↔ (a / 2 ^ k % 2 ^ n ≡ b / 2 ^ k % 2 ^ n)
high_mask_iff k n a b =
    rw (bit_and-high_mask k n a, bit_and-high_mask k n b)
      (
        eq_of_mul-eq-mul_right (2 ^ k) (one-le-pow k 2 (omega arith)) _ _,
        λ e. ap (λ (t : ℕ). t * 2 ^ k) e,
      )
