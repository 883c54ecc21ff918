-- ===== src/Sha1/Stream.antt =====
-- `csp_sha1_process` of src/crypto/csp_sha1.c beside a description that takes one byte at a time.
use libcsp.Core.{ℕ, zero, suc, ◌+◌, ◌<◌, ◌≤◌, ◌==◌, ◌&&◌, not, ltb, ◌≡◌, refl, sym, ap, ap₂}
use libcsp.Core.{
  ◌∙◌, arith, length-take, length-drop, length-append, take-length, ==_ne, ==_iff, subst,
}
use libcsp.Core.{List, [], ◌∷◌, ◌++◌, length, take, drop, if◌then◌else◌}
use native.Mathlib.Nat.{zero-add}
use libcsp.Core.Memory.{
  write_at, slice, slice-add, slice-write_at_before, slice-write_at_self, length-write_at,
}
use libcsp.Rdp.States.{if-both}
use libcsp.Sha1.{
  Sha1, Words5, compress, count_block, flush_full, take_some, take_block, how_many, process_round,
  process_loop, sha1_process,
}

-- What a state stands for: the bits of the blocks so far, the words, and the bytes that wait.
abbrev pub View : Type 0
View = ℕ × Words5 × List ℕ

abbrev pub view : Sha1 → View
view s = (s.length, s.state, take s.curlen s.buf)

abbrev pub absorb : View → ℕ → View
absorb (total, state, pending) byte =
    if length pending + 1 == 64
    then (count_block total, compress state (pending ++ (byte ∷ [])), [])
    else (total, state, pending ++ (byte ∷ []))

unfoldable pub absorb_all : View → List ℕ → View
absorb_all v [] = v
absorb_all v (b ∷ bs) = absorb_all (absorb v b) bs

-- The buffer has its size, and is not full.
abbrev pub IsPartial : Sha1 → Type 0
IsPartial s = (s.curlen < 64) × (length s.buf ≡ 64)

pub absorb_all-append :
    (v : View) (xs ys : List ℕ) → absorb_all v (xs ++ ys) ≡ absorb_all (absorb_all v xs) ys
unfolding absorb_all
absorb_all-append v [] ys = refl
absorb_all-append v (x ∷ xs) ys = absorb_all-append (absorb v x) xs ys

append_snoc : (p : List ℕ) (b : ℕ) (bs : List ℕ) → (p ++ (b ∷ [])) ++ bs ≡ p ++ (b ∷ bs)
append_snoc [] b bs = refl
append_snoc (x ∷ p) b bs = ap (λ t. x ∷ t) (append_snoc p b bs)

append_nil : (p : List ℕ) → p ++ [] ≡ p
append_nil [] = refl
append_nil (x ∷ p) = ap (λ t. x ∷ t) (append_nil p)

pub take-append-drop : (n : ℕ) (xs : List ℕ) → take n xs ++ drop n xs ≡ xs
take-append-drop zero xs = refl
take-append-drop (suc n) [] = refl
take-append-drop (suc n) (x ∷ xs) = ap (λ t. x ∷ t) (take-append-drop n xs)

length-snoc : (p : List ℕ) (b : ℕ) → length (p ++ (b ∷ [])) ≡ length p + 1
length-snoc p b = length-append p (b ∷ [])

module _ (total : ℕ) (state : Words5) where
  absorb-short :
      (p : List ℕ) (b : ℕ)
      → length p + 1 < 64
      → absorb (total, state, p) b ≡ (total, state, p ++ (b ∷ []))
  absorb-short p b h = rw (==_ne (length p + 1) 64 (λ e. absurd (omega arith))) refl

  absorb_all-short :
      (p bs : List ℕ)
      → length p + length bs < 64
      → absorb_all (total, state, p) bs ≡ (total, state, p ++ bs)
  unfolding absorb_all
  absorb_all-short p [] h = ap (λ t. (total, state, t)) (sym (append_nil p))
  absorb_all-short p (b ∷ bs) h =
      ap (λ v. absorb_all v bs) (absorb-short p b (omega arith))
      ∙ absorb_all-short (p ++ (b ∷ [])) bs (rw (length-snoc p b) (omega arith))
      ∙ ap (λ t. (total, state, t)) (append_snoc p b bs)

  absorb_all-full :
      (p : List ℕ) (b : ℕ) (bs : List ℕ)
      → length p + length (b ∷ bs) ≡ 64
      → absorb_all (total, state, p) (b ∷ bs)
        ≡ (count_block total, compress state (p ++ (b ∷ bs)), [])
  unfolding absorb_all
  absorb_all-full p b [] h = rw h refl
  absorb_all-full p b (b' ∷ bs) h =
      ap (λ v. absorb_all v (b' ∷ bs)) (absorb-short p b (omega arith))
      ∙ absorb_all-full (p ++ (b ∷ [])) b' bs (rw (length-snoc p b) (omega arith))
      ∙ ap (λ t. (count_block total, compress state t, [])) (append_snoc p b (b' ∷ bs))

-- What was written is behind what was there.
pub take-write_at :
    (m : List ℕ) (i : ℕ) (bs : List ℕ)
    → i + length bs ≤ length m
    → take (i + length bs) (write_at m i bs) ≡ take i m ++ bs
take-write_at m i bs h =
    slice-add (write_at m i bs) 0 i (length bs)
    ∙ ap₂ (λ (s t : List ℕ). s ++ t) (slice-write_at_before m i bs 0 i (omega arith))
        (ap (λ k. slice (write_at m i bs) k (length bs)) (zero-add i)
          ∙ slice-write_at_self m i bs h)

-- A round takes at least one byte, and stands for taking those bytes one at a time.
abbrev pub Takes : Sha1 → List ℕ → Sha1 × List ℕ → Type 0
Takes s input (s', rest) =
    (k : ℕ) × (0 < k)
    × (rest ≡ drop k input)
    × (view s' ≡ absorb_all (view s) (take k input))
    × IsPartial s'

pub length-pending : (s : Sha1) → IsPartial s → length (take s.curlen s.buf) ≡ s.curlen
length-pending s (h, z) = length-take s.curlen s.buf ∙ omega arith

-- `n` bytes that the buffer has room for.
module _ (s : Sha1) (part : IsPartial s) (x : ℕ) (xs : List ℕ)
    (room : s.curlen + length (x ∷ xs) ≤ 64) where
  filled : Sha1
  filled = record s { buf = write_at s.buf s.curlen (x ∷ xs); curlen = s.curlen + length (x ∷ xs) }

  content : take filled.curlen filled.buf ≡ take s.curlen s.buf ++ (x ∷ xs)
  unfolding filled
  content = take-write_at s.buf s.curlen (x ∷ xs) (omega (arith, part.1))

  flush-view : view (flush_full filled) ≡ absorb_all (view s) (x ∷ xs)
  unfolding filled
  flush-view =
      if-both (λ t. view t ≡ absorb_all (view s) (x ∷ xs)) (s.curlen + length (x ∷ xs) == 64) _ _
        (λ c.
          ap (λ m. (count_block s.length, compress s.state m, [])) (whole ((==_iff _ _).0 c))
          ∙ sym (
              absorb_all-full s.length s.state (take s.curlen s.buf) x xs
                (ap (λ k. k + length (x ∷ xs)) (length-pending s part) ∙ (==_iff _ _).0 c)))
        (λ c.
          ap (λ m. (s.length, s.state, m)) content
          ∙ sym (
              absorb_all-short s.length s.state (take s.curlen s.buf) (x ∷ xs)
                (rw (length-pending s part) (ground (arith, room, c)))))
    where
      whole :
          s.curlen + length (x ∷ xs) ≡ 64
          → write_at s.buf s.curlen (x ∷ xs) ≡ take s.curlen s.buf ++ (x ∷ xs)
      whole e =
          sym (take-length (write_at s.buf s.curlen (x ∷ xs)))
          ∙ ap (λ k. take k (write_at s.buf s.curlen (x ∷ xs)))
              (length-write_at s.buf s.curlen (x ∷ xs) ∙ part.1 ∙ sym e)
          ∙ content

  flush-IsPartial : IsPartial (flush_full filled)
  unfolding filled
  flush-IsPartial =
      if-both IsPartial (s.curlen + length (x ∷ xs) == 64) _ _
        (λ c. (omega arith, length-write_at s.buf s.curlen (x ∷ xs) ∙ part.1))
        (λ c. (ground (arith, room, c), length-write_at s.buf s.curlen (x ∷ xs) ∙ part.1))

take_some-Takes :
    (s : Sha1) (n : ℕ) (x : ℕ) (xs : List ℕ)
    → IsPartial s
    → 0 < n
    → s.curlen + n ≤ 64
    → n ≤ length (x ∷ xs)
    → Takes s (x ∷ xs) (take_some s n (x ∷ xs), drop n (x ∷ xs))
unfolding filled
take_some-Takes s zero x xs part pos room h = absurd (omega arith)
take_some-Takes s (suc m) x xs part pos room h = (
  suc m,
  pos,
  refl,
  subst (λ k. view (flush_full (wrote k)) ≡ absorb_all (view s) (x ∷ take m xs)) size
      (flush-view s part x (take m xs) fits),
  subst (λ k. IsPartial (flush_full (wrote k))) size (flush-IsPartial s part x (take m xs) fits),
)
  where
    wrote : ℕ → Sha1
    wrote k = record s { buf = write_at s.buf s.curlen (x ∷ take m xs); curlen = s.curlen + k }

    size : length (x ∷ take m xs) ≡ suc m
    size = ap suc (length-take m xs ∙ omega (arith, h))

    fits : s.curlen + length (x ∷ take m xs) ≤ 64
    fits = rw size room

take_block-Takes :
    (s : Sha1) (x : ℕ) (xs : List ℕ)
    → IsPartial s
    → s.curlen ≡ 0
    → 64 ≤ length (x ∷ xs)
    → Takes s (x ∷ xs) (take_block s (x ∷ xs), drop 64 (x ∷ xs))
take_block-Takes s x xs part e h = (
  64,
  omega arith,
  refl,
  rw (ap (λ k. take k s.buf) e) (sym (absorb_all-full s.length s.state [] x (take 63 xs) size)),
  part,
)
  where
    size : 0 + length (x ∷ take 63 xs) ≡ 64
    size = omega (arith, length-take 63 xs, h)

process_round-Takes :
    (s : Sha1) (x : ℕ) (xs : List ℕ) → IsPartial s → Takes s (x ∷ xs) (process_round s (x ∷ xs))
unfolding process_round
process_round-Takes s x xs part =
    if-both (Takes s (x ∷ xs)) ((s.curlen == 0) && not (ltb (length (x ∷ xs)) 64)) _ _
      (λ c. take_block-Takes s x xs part (ground (arith, c)) (ground (arith, c)))
      (λ c.
        take_some-Takes s (how_many s (x ∷ xs)) x xs part (ground (arith, part.0))
          (ground (arith, part.0)) (ground arith))

-- With the rounds that `fuel` allows, the loop stands for taking the bytes one at a time.
Absorbs : ℕ → Sha1 → List ℕ → Type 0
Absorbs fuel s input =
    (view (process_loop fuel s input) ≡ absorb_all (view s) input)
    × IsPartial (process_loop fuel s input)

after_round :
    (fuel : ℕ) (s : Sha1) (input : List ℕ) (r : Sha1 × List ℕ)
    → length input ≤ suc fuel
    → Takes s input r
    → ((s' : Sha1) (rest : List ℕ) → IsPartial s' → length rest ≤ fuel → Absorbs fuel s' rest)
    → (view (process_loop fuel r.0 r.1) ≡ absorb_all (view s) input)
      × IsPartial (process_loop fuel r.0 r.1)
unfolding Absorbs
after_round fuel s input (s', rest) h (k, pos, e, v, part) loop =
    let (w, last) = loop s' rest part shorter in
    (
      w
          ∙ ap₂ (λ t ys. absorb_all t ys) v e
          ∙ sym (absorb_all-append (view s) (take k input) (drop k input))
          ∙ ap (absorb_all (view s)) (take-append-drop k input),
      last,
    )
  where
    shorter : length rest ≤ fuel
    shorter = rw e (omega (arith, length-drop k input, pos, h))

process_loop-Absorbs :
    (fuel : ℕ) (s : Sha1) (input : List ℕ)
    → IsPartial s
    → length input ≤ fuel
    → Absorbs fuel s input
unfolding process_loop absorb_all Absorbs
process_loop-Absorbs fuel s [] part h = (refl, part)
process_loop-Absorbs zero s (x ∷ xs) part h = absurd (omega arith)
process_loop-Absorbs (suc fuel) s (x ∷ xs) part h =
    after_round fuel s (x ∷ xs) (process_round s (x ∷ xs)) h (process_round-Takes s x xs part)
      (process_loop-Absorbs fuel)

pub sha1_process-absorb_all :
    (s : Sha1) (input : List ℕ)
    → IsPartial s
    → (view (sha1_process s input) ≡ absorb_all (view s) input) × IsPartial (sha1_process s input)
unfolding Absorbs
sha1_process-absorb_all s input part =
    process_loop-Absorbs (length input) s input part (omega arith)
