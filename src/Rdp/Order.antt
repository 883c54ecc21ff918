-- ===== src/Rdp/Order.antt =====
-- Comparisons of src/csp_rdp.c between numbers that are some steps apart.
use libcsp.Core.{ℕ, ◌+◌, ◌%◌, ◌^◌, ◌≤◌, ◌<◌, ◌≡◌, ◌↔◌, arith, leb, true}
use libcsp.Rdp.{sub16, sub32, seq_between, seq_before, seq_after, time_before, time_after}

leb_iff : (a b : ℕ) → (leb a b ≡ true) ↔ (a ≤ b)
leb_iff a b = ground arith

-- The numbers reached in `k` steps from a number.
abbrev pub step16 : ℕ → ℕ → ℕ
step16 n k = (n + k) % 2 ^ 16

abbrev pub step32 : ℕ → ℕ → ℕ
step32 n k = (n + k) % 2 ^ 32

module _ (n k : ℕ) (hn : n < 2 ^ 16) (hk : k < 2 ^ 16) where
  sub16-step16 : sub16 (step16 n k) n ≡ k
  sub16-step16 = omega arith

  sub16-back : (2 ^ 15 ≤ sub16 n (step16 n k)) ↔ ((0 < k) × (k ≤ 2 ^ 15))
  sub16-back = (λ h. (omega arith, omega arith), λ h. omega arith)

-- A number `k` steps from the start of a window is in the window exactly if the end is at least as
-- many steps away, wherever the numbers wrap around.
pub seq_between_iff :
    (start k n : ℕ)
    → start < 2 ^ 16
    → k < 2 ^ 16
    → n < 2 ^ 16
    → (seq_between (step16 start k) start (step16 start n) ≡ true) ↔ (k ≤ n)
unfolding seq_between
seq_between_iff start k n hs hk hn =
    rw (sub16-step16 start k hs hk, sub16-step16 start n hs hn) (leb_iff k n)

-- A number is before the one `k` steps on, and that one after it, exactly if `k` is positive and at
-- most half of all numbers.
pub seq_before_iff :
    (n k : ℕ)
    → n < 2 ^ 16
    → k < 2 ^ 16
    → ((seq_before n (step16 n k) ≡ true) ↔ ((0 < k) × (k ≤ 2 ^ 15)))
      × ((seq_after (step16 n k) n ≡ true) ↔ ((0 < k) × (k ≤ 2 ^ 15)))
unfolding seq_before seq_after
seq_before_iff n k hn hk = (both, both)
  where
    both : (leb (2 ^ 15) (sub16 n (step16 n k)) ≡ true) ↔ ((0 < k) × (k ≤ 2 ^ 15))
    both = (
      λ e. (sub16-back n k hn hk).0 ((leb_iff _ _).0 e),
      λ h. (leb_iff _ _).1 ((sub16-back n k hn hk).1 h),
    )

-- A time is before the one `k` steps on, and that one after it, exactly if `k` is positive and at
-- most half of all times.
pub time_before_iff :
    (n k : ℕ)
    → n < 2 ^ 32
    → k < 2 ^ 32
    → ((time_before n (step32 n k) ≡ true) ↔ ((0 < k) × (k ≤ 2 ^ 31)))
      × ((time_after (step32 n k) n ≡ true) ↔ ((0 < k) × (k ≤ 2 ^ 31)))
unfolding time_before time_after
time_before_iff n k hn hk = (both, both)
  where
    back : (2 ^ 31 ≤ sub32 n (step32 n k)) ↔ ((0 < k) × (k ≤ 2 ^ 31))
    back = (λ h. (omega arith, omega arith), λ h. omega arith)

    both : (leb (2 ^ 31) (sub32 n (step32 n k)) ≡ true) ↔ ((0 < k) × (k ≤ 2 ^ 31))
    both = (λ e. back.0 ((leb_iff _ _).0 e), λ h. (leb_iff _ _).1 (back.1 h))
