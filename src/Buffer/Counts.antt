-- ===== src/Buffer/Counts.antt =====
-- Counting the entries of the free queue and the buffers in use of src/csp_buffer.c.
use libcsp.Core.{ℕ, zero, suc, ◌+◌, ◌≤◌, ◌<◌, ◌≡◌, ◌≢◌, refl, ap, subst, arith}
use libcsp.Core.{false, ◌==◌, ==_self, ==_ne, ==_iff, if◌then◌else◌, Bool-cases, inl, inr}
use libcsp.Core.{List, [], ◌∷◌, ◌++◌, All}

-- How often a number is in a list.
unfoldable pub times : ℕ → List ℕ → ℕ
times i [] = 0
times i (x ∷ xs) = if x == i then suc (times i xs) else times i xs

pub times-snoc_self : (i : ℕ) (xs : List ℕ) → times i (xs ++ (i ∷ [])) ≡ times i xs + 1
unfolding times
times-snoc_self i [] = ground arith
times-snoc_self i (x ∷ xs) = ground (arith, times-snoc_self i xs)

pub times-snoc_ne : (i j : ℕ) (xs : List ℕ) → j ≢ i → times i (xs ++ (j ∷ [])) ≡ times i xs
unfolding times
times-snoc_ne i j [] ne = ground arith
times-snoc_ne i j (x ∷ xs) ne = ground (arith, times-snoc_ne i j xs ne)

-- A number of references for each buffer, and one of them changed.
abbrev pub update : (ℕ → ℕ) → ℕ → ℕ → ℕ → ℕ
update refs i v j = if i == j then v else refs j

abbrev pub one_if : ℕ → ℕ
one_if zero = 0
one_if (suc n) = 1

-- The buffers below `n` that have a reference.
unfoldable pub in_use : (ℕ → ℕ) → ℕ → ℕ
in_use refs zero = 0
in_use refs (suc n) = one_if (refs n) + in_use refs n

in_use-update_above :
    (refs : ℕ → ℕ) (i v n : ℕ) → n ≤ i → in_use (update refs i v) n ≡ in_use refs n
unfolding in_use
in_use-update_above refs i v zero h = refl
in_use-update_above refs i v (suc n) h =
    rw (==_ne i n (omega arith))
      (ap (λ (k : ℕ). one_if (refs n) + k) (in_use-update_above refs i v n (omega arith)))

in_use-update_at :
    (refs : ℕ → ℕ) (n v : ℕ)
    → in_use (update refs n v) (suc n) + one_if (refs n) ≡ in_use refs (suc n) + one_if v
unfolding in_use
in_use-update_at refs n v =
    rw (==_self n) (omega (arith, in_use-update_above refs n v n (omega arith)))

pub in_use-update :
    (refs : ℕ → ℕ) (i v n : ℕ)
    → i < n
    → in_use (update refs i v) n + one_if (refs i) ≡ in_use refs n + one_if v
unfolding in_use
in_use-update refs i v zero h = absurd (omega arith)
in_use-update refs i v (suc n) h = elim (Bool-cases (i == n)) [
  | inl e ↦
      subst
        (λ (k : ℕ).
          in_use (update refs i v) (suc k) + one_if (refs i) ≡ in_use refs (suc k) + one_if v)
        ((==_iff i n).0 e) (in_use-update_at refs i v)
  | inr e ↦ rw e (omega (arith, in_use-update refs i v n (below e)))
]
  where
    below : (i == n) ≡ false → i < n
    below e = ground arith

pub in_use-pos : (refs : ℕ → ℕ) (i n : ℕ) → i < n → 0 < refs i → 0 < in_use refs n
in_use-pos refs i n h p = omega (arith, in_use-update refs i 0 n h, one (refs i) p)
  where
    one : (k : ℕ) → 0 < k → one_if k ≡ 1
    one zero q = absurd (omega arith)
    one (suc k) q = refl

pub times-above : (i n : ℕ) (xs : List ℕ) → All (λ x. x < n) xs → n ≤ i → times i xs ≡ 0
unfolding times
times-above i n [] a h = refl
times-above i n (x ∷ xs) a h = rw (==_ne x i (differ a.0)) (times-above i n xs a.1 h)
  where
    differ : x < n → x ≢ i
    differ lt = λ e. omega arith
