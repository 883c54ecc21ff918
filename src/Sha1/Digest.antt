-- ===== src/Sha1/Digest.antt =====
-- The digest of src/crypto/csp_sha1.c beside the padding that the standard describes.
use libcsp.Core.{ℕ, ◌+◌, ◌-◌, ◌≤◌, ◌%◌, ◌^◌, ◌*◌, ltb, ◌≡◌, refl, sym, ap, ap₂, ◌∙◌, arith}
use libcsp.Core.{length-append, take-length, length-replicate, replicate, Bool-cases, inl, inr}
use libcsp.Core.{List, [], ◌∷◌, ◌++◌, length, take, if◌then◌else◌}
use libcsp.Core.Memory.{write_at, length-write_at}
use libcsp.Sha1.{Sha1, compress, store64, store_state, sha1_done, sha1_process}
use libcsp.Sha1.Stream.{
  View, view, absorb_all, absorb_all-append, IsPartial, take-write_at, length-pending,
  sha1_process-absorb_all,
}

-- The bytes that wait are followed by a bit 1, by zeros, and by the number of bits in the last eight
-- bytes of a block.
unfoldable pub finish : View → List ℕ
finish (total, state, pending) =
    let bits = (total + length pending * 8) % 2 ^ 64 in
    let marked = pending ++ (0x80 ∷ []) in
    if ltb 56 (length marked)
    then store_state (
        compress (compress state (marked ++ replicate (64 - length marked) 0))
          (replicate 56 0 ++ store64 bits))
    else store_state (compress state ((marked ++ replicate (56 - length marked) 0) ++ store64 bits))

fill-write_at :
    (m : List ℕ) (i : ℕ) (bs : List ℕ) → i + length bs ≡ length m → write_at m i bs ≡ take i m ++ bs
fill-write_at m i bs h =
    sym (take-length (write_at m i bs))
    ∙ ap (λ k. take k (write_at m i bs)) (length-write_at m i bs ∙ sym h)
    ∙ take-write_at m i bs (omega (arith, h))

take-zeros :
    (m : List ℕ) (i n end : ℕ)
    → i + n ≡ end
    → end ≤ length m
    → take end (write_at m i (replicate n 0)) ≡ take i m ++ replicate n 0
take-zeros m i n end e h =
    ap (λ k. take k (write_at m i (replicate n 0)))
      (sym e ∙ ap (λ k. i + k) (sym (length-replicate {A = ℕ} n 0)))
    ∙ take-write_at m i (replicate n 0) (rw (length-replicate {A = ℕ} n 0) (omega arith))

module _ (s : Sha1) (part : IsPartial s) where
  mark : List ℕ
  mark = write_at s.buf s.curlen (0x80 ∷ [])

  length-mark : length mark ≡ 64
  unfolding mark
  length-mark = length-write_at s.buf s.curlen (0x80 ∷ []) ∙ part.1

  marked : List ℕ
  marked = take s.curlen s.buf ++ (0x80 ∷ [])

  take-mark : take (s.curlen + 1) mark ≡ marked
  unfolding mark marked
  take-mark = take-write_at s.buf s.curlen (0x80 ∷ []) (omega (arith, part.0, part.1))

  length-marked : length marked ≡ s.curlen + 1
  unfolding marked
  length-marked =
      length-append (take s.curlen s.buf) (0x80 ∷ []) ∙ ap (λ k. k + 1) (length-pending s part)

  zeros64 : List ℕ
  zeros64 = write_at mark (s.curlen + 1) (replicate (64 - (s.curlen + 1)) 0)

  zeros64-eq : zeros64 ≡ marked ++ replicate (64 - (s.curlen + 1)) 0
  unfolding zeros64
  zeros64-eq =
      fill-write_at mark (s.curlen + 1) (replicate (64 - (s.curlen + 1)) 0)
        (rw (length-replicate {A = ℕ} (64 - (s.curlen + 1)) 0) (omega (arith, length-mark, part.0)))
      ∙ ap (λ m. m ++ replicate (64 - (s.curlen + 1)) 0) take-mark

  -- The last block when the mark leaves room for the length, and when it does not.
  last-long :
      (bits : ℕ)
      → write_at (write_at zeros64 0 (replicate 56 0)) 56 (store64 bits)
        ≡ replicate 56 0 ++ store64 bits
  unfolding zeros64
  last-long bits =
      fill-write_at (write_at zeros64 0 (replicate 56 0)) 56 (store64 bits)
        (sym (length-write_at zeros64 0 (replicate 56 0) ∙ size))
      ∙ ap (λ m. m ++ store64 bits) (take-zeros zeros64 0 56 56 refl (rw size (omega arith)))
    where
      size : length zeros64 ≡ 64
      size = length-write_at mark (s.curlen + 1) (replicate (64 - (s.curlen + 1)) 0) ∙ length-mark

  last-short :
      (bits : ℕ)
      → s.curlen + 1 ≤ 56
      → write_at
          (write_at mark (s.curlen + 1) (replicate (56 - (s.curlen + 1)) 0))
          56
          (store64 bits)
        ≡ (marked ++ replicate (56 - (s.curlen + 1)) 0) ++ store64 bits
  last-short bits h =
      fill-write_at (write_at mark (s.curlen + 1) (replicate (56 - (s.curlen + 1)) 0)) 56
        (store64 bits)
        (sym
          (length-write_at mark (s.curlen + 1) (replicate (56 - (s.curlen + 1)) 0) ∙ length-mark))
      ∙ ap (λ m. m ++ store64 bits)
          (take-zeros mark (s.curlen + 1) (56 - (s.curlen + 1)) 56 (omega arith)
              (rw length-mark (omega arith))
            ∙ ap (λ m. m ++ replicate (56 - (s.curlen + 1)) 0) take-mark)

  sha1_done-finish : sha1_done s ≡ finish (view s)
  unfolding sha1_done finish zeros64 marked mark
  sha1_done-finish =
      rw (length-marked, length-pending s part)
        (elim (Bool-cases (ltb 56 (s.curlen + 1))) [
          | inl c ↦ rw c (
              ap₂ (λ m n. store_state (compress (compress s.state m) n)) zeros64-eq
                (last-long ((s.length + s.curlen * 8) % 2 ^ 64)))
          | inr c ↦ rw c (
              ap (λ n. store_state (compress s.state n))
                (last-short ((s.length + s.curlen * 8) % 2 ^ 64) (ground (arith, c))))
        ])

unfoldable pub process_pieces : Sha1 → List (List ℕ) → Sha1
process_pieces s [] = s
process_pieces s (piece ∷ pieces) = process_pieces (sha1_process s piece) pieces

unfoldable pub concat : List (List ℕ) → List ℕ
concat [] = []
concat (piece ∷ pieces) = piece ++ concat pieces

process_pieces-absorb_all :
    (pieces : List (List ℕ)) (s : Sha1)
    → IsPartial s
    → (view (process_pieces s pieces) ≡ absorb_all (view s) (concat pieces))
      × IsPartial (process_pieces s pieces)
unfolding process_pieces concat absorb_all
process_pieces-absorb_all [] s part = (refl, part)
process_pieces-absorb_all (piece ∷ pieces) s part =
    let (v, part') = sha1_process-absorb_all s piece part in
    let (w, last) = process_pieces-absorb_all pieces (sha1_process s piece) part' in
    (
      w
          ∙ ap (λ t. absorb_all t (concat pieces)) v
          ∙ sym (absorb_all-append (view s) piece (concat pieces)),
      last,
    )

-- The digest of a message that is processed in pieces of any sizes, from any state whose buffer has 64
-- bytes and is not full, is that of all the bytes taken one at a time, a block compressed whenever
-- 64 wait, with the padding of the standard behind them. What else the buffer held, and where the
-- pieces begin, make no difference.
pub sha1_done-process_pieces :
    (s : Sha1) (pieces : List (List ℕ))
    → IsPartial s
    → sha1_done (process_pieces s pieces) ≡ finish (absorb_all (view s) (concat pieces))
sha1_done-process_pieces s pieces part =
    let (v, last) = process_pieces-absorb_all pieces s part in
    sha1_done-finish (process_pieces s pieces) last ∙ ap finish v
