-- ===== src/Hmac/Check.antt =====
-- `csp_hmac_append` and `csp_hmac_verify` of src/crypto/csp_hmac.c, one after the other, and
-- `csp_hmac_memory` beside the standard.
use libcsp.Core.{ℕ, ◌+◌, ◌-◌, ◌<◌, ◌≤◌, ◌≡◌, ◌∙◌, refl, sym, ap, arith, bit_xor, map}
use libcsp.Core.{false, List, [], ◌∷◌, ◌++◌, length, replicate}
use libcsp.Core.{Option, none, some}
use libcsp.Core.Memory.{write_at, slice, slice-write_at_self, slice-write_at_before}
use libcsp.Packet.{Packet, Err, IsSized, data_begin}
use libcsp.Crc.Check.{bytes_eq_self}
use libcsp.Sha1.{sha1_init, sha1_process, sha1_done, sha1_memory}
use libcsp.Sha1.Stream.{IsPartial, view, absorb_all, sha1_process-absorb_all}
use libcsp.Sha1.Digest.{finish, process_pieces, concat, sha1_done-process_pieces}
use libcsp.Hmac.{
  HmacState, unset, block_key, hmac_init, hmac_done, hmac_rest, code_of, hmac_memory, code,
  hmac_append, hmac_verify, hmac_length,
}

append_nil : (xs : List ℕ) → xs ++ [] ≡ xs
append_nil [] = refl
append_nil (x ∷ xs) = ap (λ t. x ∷ t) (append_nil xs)

-- Two pieces in a row, from a new state, have the digest of both together.
two_pieces :
    (buf buf' xs ys : List ℕ)
    → length buf ≡ 64
    → length buf' ≡ 64
    → sha1_done (sha1_process (sha1_process (sha1_init buf) xs) ys) ≡ sha1_memory buf' (xs ++ ys)
unfolding sha1_memory process_pieces concat
two_pieces buf buf' xs ys h h' =
    sha1_done-process_pieces (sha1_init buf) (xs ∷ ys ∷ []) (omega arith, h)
    ∙ ap (λ m. finish (absorb_all (view (sha1_init buf)) (xs ++ m))) (append_nil ys)
    ∙ ap (λ m. finish (absorb_all (view (sha1_init buf)) m)) (sym (append_nil (xs ++ ys)))
    ∙ sym (sha1_done-process_pieces (sha1_init buf') ((xs ++ ys) ∷ []) (omega arith, h'))

abbrev pub inner_pad : List ℕ → List ℕ
inner_pad key = map (λ b. bit_xor b 0x36) (block_key key)

abbrev pub outer_pad : List ℕ → List ℕ
outer_pad key = map (λ b. bit_xor b 0x5c) (block_key key)

-- With a key that is not empty, the code of a message is the digest of the outer pad and the digest
-- of the inner pad and the message, each hashed as one.
pub hmac_memory-nested :
    (key input : List ℕ)
    → 0 < length key
    → hmac_memory key input
      ≡ some (sha1_memory unset (outer_pad key ++ sha1_memory unset (inner_pad key ++ input)))
unfolding hmac_memory hmac_init hmac_done unset
hmac_memory-nested key input h =
    ap (hmac_rest input) starts
    ∙ ap some (
        two_pieces _ (replicate 64 0) (outer_pad key) _
          (sha1_process-absorb_all _ input first.1).1.1 refl
        ∙ ap (λ d. sha1_memory (replicate 64 0) (outer_pad key ++ d))
            (two_pieces (replicate 64 0) (replicate 64 0) (inner_pad key) input refl refl))
  where
    starts :
        hmac_init key
        ≡ some (record {
          md = sha1_process (sha1_init (replicate 64 0)) (inner_pad key);
          key = block_key key;
        })
    starts = ground arith

    first :
        (view (sha1_process (sha1_init (replicate 64 0)) (inner_pad key))
          ≡ absorb_all (view (sha1_init (replicate 64 0))) (inner_pad key))
        × IsPartial (sha1_process (sha1_init (replicate 64 0)) (inner_pad key))
    first = sha1_process-absorb_all (sha1_init (replicate 64 0)) (inner_pad key) (omega arith, refl)

length-code_of : (input : List ℕ) (o : Option HmacState) → length (code_of (hmac_rest input o)) ≡ 4
unfolding hmac_done sha1_done
length-code_of input none = refl
length-code_of input (some hmac) = refl

length-code : (key input : List ℕ) → length (code key input) ≡ 4
unfolding code hmac_memory
length-code key input = length-code_of input (hmac_init key)

module _ (key : List ℕ) (p : Packet) where
  -- The packet with its code behind the data.
  abbrev pub with_code : Packet
  with_code = record p {
    mem = write_at p.mem (data_begin + p.length) (code key (slice p.mem data_begin p.length));
    length = p.length + 4;
  }

  pub append-data : p.length ≤ 252 → hmac_append key false p ≡ (Err.none, with_code)
  unfolding hmac_append
  append-data h = ground arith

  pub with_code-data : slice with_code.mem data_begin p.length ≡ slice p.mem data_begin p.length
  with_code-data =
      slice-write_at_before p.mem (data_begin + p.length)
        (code key (slice p.mem data_begin p.length)) data_begin p.length (omega arith)

  -- The code is read back, and what it is computed from has stayed.
  pub with_code-code :
      IsSized p
      → p.length ≤ 252
      → slice with_code.mem (data_begin + p.length) 4
        ≡ code key (slice with_code.mem data_begin p.length)
  with_code-code z h =
      ap (λ k. slice with_code.mem (data_begin + p.length) k) (sym size)
      ∙ slice-write_at_self p.mem (data_begin + p.length)
          (code key (slice p.mem data_begin p.length)) (rw size (omega arith))
      ∙ ap (code key) (sym with_code-data)
    where
      size : length (code key (slice p.mem data_begin p.length)) ≡ 4
      size = length-code key (slice p.mem data_begin p.length)

-- A packet whose last four bytes are the code of the data before them is accepted, and loses those
-- bytes.
pub hmac_verify-code :
    (key : List ℕ) (q : Packet) (n : ℕ)
    → q.length ≡ n + 4
    → slice q.mem (data_begin + n) 4 ≡ code key (slice q.mem data_begin n)
    → hmac_verify key false q ≡ (Err.none, record q { length = n })
unfolding hmac_verify
hmac_verify-code key q n e h = rw (e, at_code, before_code, h, bytes_eq_self _) (ground arith)
  where
    at_code : data_begin + (n + 4) - hmac_length ≡ data_begin + n
    at_code = omega arith

    before_code : n + 4 - hmac_length ≡ n
    before_code = omega arith
