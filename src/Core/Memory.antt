-- ===== src/Core/Memory.antt =====
-- Byte ranges of a C array: `memcpy` into it, and the bytes from an offset on.
use libcsp.Core.Lists.{length, take, drop}
use Prim.Native.Nat.{ℕ, zero, suc, ◌+◌, ◌≤◌}
use mathlib.Core.Path.{◌≡◌, refl, ap, sym, ◌∙◌}
use mathlib.Core.List.{List, [], ◌∷◌, ◌++◌}
use native.Mathlib.Omega.{arith}

-- `bs` over the first bytes of the array; what does not fit is dropped.
abbrev pub overwrite : List ℕ → List ℕ → List ℕ
overwrite [] bs = []
overwrite (m ∷ ms) [] = m ∷ ms
overwrite (m ∷ ms) (b ∷ bs) = b ∷ overwrite ms bs

-- `memcpy(&m[i], bs, sizeof bs)`
abbrev pub write_at : List ℕ → ℕ → List ℕ → List ℕ
write_at m zero bs = overwrite m bs
write_at [] (suc i) bs = []
write_at (x ∷ m) (suc i) bs = x ∷ write_at m i bs

-- the `n` bytes at `&m[i]`
abbrev pub slice : List ℕ → ℕ → ℕ → List ℕ
slice m i n = take n (drop i m)

length-overwrite : (m bs : List ℕ) → length (overwrite m bs) ≡ length m
length-overwrite [] bs = refl
length-overwrite (m ∷ ms) [] = refl
length-overwrite (m ∷ ms) (b ∷ bs) = ap suc (length-overwrite ms bs)

pub length-write_at : (m : List ℕ) (i : ℕ) (bs : List ℕ) → length (write_at m i bs) ≡ length m
length-write_at m zero bs = length-overwrite m bs
length-write_at [] (suc i) bs = refl
length-write_at (x ∷ m) (suc i) bs = ap suc (length-write_at m i bs)

take-overwrite : (m bs : List ℕ) → length bs ≤ length m → take (length bs) (overwrite m bs) ≡ bs
take-overwrite m [] h = refl
take-overwrite [] (b ∷ bs) h = absurd (omega arith)
take-overwrite (m ∷ ms) (b ∷ bs) h = ap (λ t. b ∷ t) (take-overwrite ms bs (omega arith))

drop-overwrite : (m bs : List ℕ) (j : ℕ) → length bs ≤ j → drop j (overwrite m bs) ≡ drop j m
drop-overwrite [] bs j h = refl
drop-overwrite (m ∷ ms) [] j h = refl
drop-overwrite (m ∷ ms) (b ∷ bs) zero h = absurd (omega arith)
drop-overwrite (m ∷ ms) (b ∷ bs) (suc j) h = drop-overwrite ms bs j (omega arith)

-- What was written is read back.
pub slice-write_at_self :
    (m : List ℕ) (i : ℕ) (bs : List ℕ)
    → i + length bs ≤ length m
    → slice (write_at m i bs) i (length bs) ≡ bs
slice-write_at_self m zero bs h = take-overwrite m bs (omega arith)
slice-write_at_self [] (suc i) [] h = refl
slice-write_at_self [] (suc i) (b ∷ bs) h = absurd (omega arith)
slice-write_at_self (x ∷ m) (suc i) bs h = slice-write_at_self m i bs (omega arith)

-- The bytes behind the range stay.
pub drop-write_at :
    (m : List ℕ) (i : ℕ) (bs : List ℕ) (j : ℕ)
    → i + length bs ≤ j
    → drop j (write_at m i bs) ≡ drop j m
drop-write_at m zero bs j h = drop-overwrite m bs j (omega arith)
drop-write_at [] (suc i) bs j h = refl
drop-write_at (x ∷ m) (suc i) bs zero h = absurd (omega arith)
drop-write_at (x ∷ m) (suc i) bs (suc j) h = drop-write_at m i bs j (omega arith)

-- The bytes before it stay.
pub slice-write_at_before :
    (m : List ℕ) (i : ℕ) (bs : List ℕ) (j n : ℕ)
    → j + n ≤ i
    → slice (write_at m i bs) j n ≡ slice m j n
slice-write_at_before m i bs j zero h = refl
slice-write_at_before m zero bs j (suc n) h = absurd (omega arith)
slice-write_at_before [] (suc i) bs j (suc n) h = refl
slice-write_at_before (x ∷ m) (suc i) bs zero (suc n) h =
    ap (λ t. x ∷ t) (slice-write_at_before m i bs zero n (omega arith))
slice-write_at_before (x ∷ m) (suc i) bs (suc j) (suc n) h =
    slice-write_at_before m i bs j (suc n) (omega arith)

overwrite-append :
    (m xs ys : List ℕ) → overwrite m (xs ++ ys) ≡ write_at (overwrite m xs) (length xs) ys
overwrite-append [] [] ys = refl
overwrite-append [] (x ∷ xs) ys = refl
overwrite-append (m ∷ ms) [] ys = refl
overwrite-append (m ∷ ms) (x ∷ xs) ys = ap (λ t. x ∷ t) (overwrite-append ms xs ys)

write_at-nil : (k : ℕ) (ys : List ℕ) → write_at [] k ys ≡ []
write_at-nil zero ys = refl
write_at-nil (suc k) ys = refl

-- One `memcpy` of two ranges is two in a row.
pub write_at-append :
    (m : List ℕ) (i : ℕ) (xs ys : List ℕ)
    → write_at m i (xs ++ ys) ≡ write_at (write_at m i xs) (i + length xs) ys
write_at-append m zero xs ys = overwrite-append m xs ys ∙ shift (zero + length xs) (omega arith)
  where
    shift :
        (k : ℕ)
        → length xs ≡ k
        → write_at (overwrite m xs) (length xs) ys ≡ write_at (overwrite m xs) k ys
    shift k e = ap (λ t. write_at (overwrite m xs) t ys) e
write_at-append [] (suc i) xs ys = sym (write_at-nil (suc i + length xs) ys)
write_at-append (x ∷ m) (suc i) xs ys =
    ap (λ t. x ∷ t) (write_at-append m i xs ys) ∙ shift (suc i + length xs) (omega arith)
  where
    shift :
        (k : ℕ)
        → suc (i + length xs) ≡ k
        → x ∷ write_at (write_at m i xs) (i + length xs) ys ≡ write_at (x ∷ write_at m i xs) k ys
    shift k e = ap (λ t. write_at (x ∷ write_at m i xs) t ys) e

take-nil : (n : ℕ) → take {A = ℕ} n [] ≡ []
take-nil zero = refl
take-nil (suc n) = refl

drop-nil : (n : ℕ) → drop {A = ℕ} n [] ≡ []
drop-nil zero = refl
drop-nil (suc n) = refl

take-add : (a b : ℕ) (xs : List ℕ) → take (a + b) xs ≡ take a xs ++ take b (drop a xs)
take-add zero b xs = ap (λ k. take k xs) (omega arith)
take-add (suc a) b [] = rw (take-nil (suc a + b), take-nil b)
take-add (suc a) b (x ∷ xs) = shift (suc a + b) (omega arith) ∙ ap (λ t. x ∷ t) (take-add a b xs)
  where
    shift : (k : ℕ) → k ≡ suc (a + b) → take k (x ∷ xs) ≡ x ∷ take (a + b) xs
    shift k e = ap (λ t. take t (x ∷ xs)) e

drop-drop : (i a : ℕ) (xs : List ℕ) → drop a (drop i xs) ≡ drop (i + a) xs
drop-drop zero a xs = ap (λ k. drop k xs) (omega arith)
drop-drop (suc i) a [] = rw (drop-nil a, drop-nil (suc i + a))
drop-drop (suc i) a (x ∷ xs) = drop-drop i a xs ∙ shift (suc i + a) (omega arith)
  where
    shift : (k : ℕ) → suc (i + a) ≡ k → drop (i + a) xs ≡ drop k (x ∷ xs)
    shift k e = ap (λ t. drop t (x ∷ xs)) e

-- A range is its front followed by the rest.
pub slice-add : (m : List ℕ) (i a b : ℕ) → slice m i (a + b) ≡ slice m i a ++ slice m (i + a) b
slice-add m i a b = take-add a b (drop i m) ∙ ap (λ t. slice m i a ++ take b t) (drop-drop i a m)

overwrite-none : (m : List ℕ) → overwrite m [] ≡ m
overwrite-none [] = refl
overwrite-none (x ∷ m) = refl

-- Writing no bytes.
pub write_at-none : (m : List ℕ) (i : ℕ) → write_at m i [] ≡ m
write_at-none m zero = overwrite-none m
write_at-none [] (suc i) = refl
write_at-none (x ∷ m) (suc i) = ap (λ t. x ∷ t) (write_at-none m i)

take-take : (a b : ℕ) (xs : List ℕ) → take a (take (a + b) xs) ≡ take a xs
take-take zero b xs = refl
take-take (suc a) b [] = rw (take-nil (suc a + b))
take-take (suc a) b (x ∷ xs) = shift (suc a + b) (omega arith) ∙ ap (λ t. x ∷ t) (take-take a b xs)
  where
    shift :
        (k : ℕ) → k ≡ suc (a + b) → take (suc a) (take k (x ∷ xs)) ≡ x ∷ take a (take (a + b) xs)
    shift k e = ap (λ t. take (suc a) (take t (x ∷ xs))) e

drop-take : (a b : ℕ) (xs : List ℕ) → drop a (take (a + b) xs) ≡ take b (drop a xs)
drop-take zero b xs = shift (zero + b) (omega arith)
  where
    shift : (k : ℕ) → k ≡ b → take k xs ≡ take b xs
    shift k e = ap (λ t. take t xs) e
drop-take (suc a) b [] = rw (take-nil (suc a + b), take-nil b)
drop-take (suc a) b (x ∷ xs) = shift (suc a + b) (omega arith) ∙ drop-take a b xs
  where
    shift : (k : ℕ) → k ≡ suc (a + b) → drop (suc a) (take k (x ∷ xs)) ≡ drop a (take (a + b) xs)
    shift k e = ap (λ t. drop (suc a) (take t (x ∷ xs))) e

-- Equal ranges have equal fronts and equal ends.
module _ (m m' : List ℕ) (i j a b : ℕ) (e : slice m i (a + b) ≡ slice m' j (a + b)) where
  pub slice-front : slice m i a ≡ slice m' j a
  slice-front = sym (take-take a b (drop i m)) ∙ ap (λ t. take a t) e ∙ take-take a b (drop j m')

  pub slice-end : slice m (i + a) b ≡ slice m' (j + a) b
  slice-end =
      ap (λ t. take b t) (sym (drop-drop i a m))
      ∙ sym (drop-take a b (drop i m))
      ∙ ap (λ t. drop a t) e
      ∙ drop-take a b (drop j m')
      ∙ ap (λ t. take b t) (drop-drop j a m')
