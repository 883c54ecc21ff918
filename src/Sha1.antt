-- ===== src/Sha1.antt =====
-- src/crypto/csp_sha1.c: SHA-1 of bytes that come in pieces.
pub mod Stream
pub mod Digest
mod Tests
use libcsp.Core.{
  ℕ, zero, suc, ◌+◌, ◌-◌, ◌%◌, ◌/◌, ◌^◌, ◌*◌, ltb, ◌==◌, ◌&&◌, not, bit_and, bit_or, bit_xor,
}
use libcsp.Core.{Bool, List, [], ◌∷◌, ◌++◌, length, get_or, take, drop, replicate, if◌then◌else◌}
use libcsp.Core.Memory.{write_at}
use libcsp.Core.Words.{shl32, shr, be32, of_be}

-- CSP_SHA1_BLOCKSIZE
abbrev pub sha1_blocksize : ℕ
sha1_blocksize = 64

-- The five words of the state, `a` to `e` in `csp_sha1_compress`.
pub record Words5 : Type 0 where
  pub a : ℕ
  pub b : ℕ
  pub c : ℕ
  pub d : ℕ
  pub e : ℕ

-- `csp_sha1_state_t`
pub record Sha1 : Type 0 where
  pub length : ℕ
  pub state : Words5
  pub curlen : ℕ
  pub buf : List ℕ

abbrev rol : ℕ → ℕ → ℕ
rol x y = bit_or (shl32 x y) (shr x (32 - y))

abbrev f0 : ℕ → ℕ → ℕ → ℕ
f0 x y z = bit_xor z (bit_and x (bit_xor y z))

abbrev f1 : ℕ → ℕ → ℕ → ℕ
f1 x y z = bit_xor (bit_xor x y) z

abbrev f2 : ℕ → ℕ → ℕ → ℕ
f2 x y z = bit_or (bit_and x y) (bit_and z (bit_or x y))

-- LOAD32H of `count` words from `buf` on.
load_words : ℕ → List ℕ → List ℕ
load_words zero buf = []
load_words (suc count) buf = of_be 0 (take 4 buf) ∷ load_words count (drop 4 buf)

-- `count` more words of W, which has those up to `i`.
unfoldable expand : ℕ → ℕ → List ℕ → List ℕ
expand zero i w = w
expand (suc count) i w =
    let x =
      bit_xor (bit_xor (bit_xor (get_or w (i - 3) 0) (get_or w (i - 8) 0)) (get_or w (i - 14) 0))
        (get_or w (i - 16) 0) in
    expand count (suc i) (w ++ (rol x 1 ∷ []))

-- FF_0 to FF_3 with their function and constant. The result has the words by the names that the
-- next macro of the loop gives them: `e`, which is written, is its `a`, and so on.
abbrev round : (ℕ → ℕ → ℕ → ℕ) → ℕ → ℕ → Words5 → Words5
round f k w s = record {
  a = (rol s.a 5 + f s.b s.c s.d + s.e + w + k) % 2 ^ 32;
  b = s.a;
  c = rol s.b 30;
  d = s.c;
  e = s.d;
}

-- The words of one of the four loops; after five rounds the names are the first again.
unfoldable rounds : (ℕ → ℕ → ℕ → ℕ) → ℕ → List ℕ → Words5 → Words5
rounds f k [] s = s
rounds f k (w ∷ ws) s = rounds f k ws (round f k w s)

abbrev add_words : Words5 → Words5 → Words5
add_words s t = record {
  a = (s.a + t.a) % 2 ^ 32;
  b = (s.b + t.b) % 2 ^ 32;
  c = (s.c + t.c) % 2 ^ 32;
  d = (s.d + t.d) % 2 ^ 32;
  e = (s.e + t.e) % 2 ^ 32;
}

-- `csp_sha1_compress`
unfoldable pub compress : Words5 → List ℕ → Words5
unfolding load_words expand rounds
compress state buf =
    let w = expand 64 16 (load_words 16 buf) in
    let one = rounds f0 0x5a82_7999 (take 20 w) state in
    let two = rounds f1 0x6ed9_eba1 (take 20 (drop 20 w)) one in
    let three = rounds f2 0x8f1b_bcdc (take 20 (drop 40 w)) two in
    let four = rounds f1 0xca62_c1d6 (drop 60 w) three in add_words state four

-- The buffer holds anything before.
abbrev pub sha1_init : List ℕ → Sha1
sha1_init buf = record {
  length = 0;
  state = record {
    a = 0x6745_2301;
    b = 0xefcd_ab89;
    c = 0x98ba_dcfe;
    d = 0x1032_5476;
    e = 0xc3d2_e1f0;
  };
  curlen = 0;
  buf = buf;
}

abbrev pub count_block : ℕ → ℕ
count_block length = (length + sha1_blocksize * 8) % 2 ^ 64

-- A whole block is compressed where it is.
abbrev pub take_block : Sha1 → List ℕ → Sha1
take_block s input = record s {
  state = compress s.state (take sha1_blocksize input);
  length = count_block s.length;
}

-- `n` bytes are copied into the buffer, which is compressed if it is full.
abbrev pub flush_full : Sha1 → Sha1
flush_full s =
    if s.curlen == sha1_blocksize
    then record s { state = compress s.state s.buf; length = count_block s.length; curlen = 0 }
    else s

abbrev pub take_some : Sha1 → ℕ → List ℕ → Sha1
take_some s n input =
    flush_full (record s { buf = write_at s.buf s.curlen (take n input); curlen = s.curlen + n })

-- One round of the loop of `csp_sha1_process`, with the bytes that are left.
abbrev pub how_many : Sha1 → List ℕ → ℕ
how_many s input =
    if ltb (length input) (sha1_blocksize - s.curlen)
    then length input
    else sha1_blocksize - s.curlen

unfoldable pub process_round : Sha1 → List ℕ → Sha1 × List ℕ
process_round s input =
    if (s.curlen == 0) && not (ltb (length input) sha1_blocksize)
    then (take_block s input, drop sha1_blocksize input)
    else (take_some s (how_many s input) input, drop (how_many s input) input)

unfoldable pub process_loop : ℕ → Sha1 → List ℕ → Sha1
process_loop fuel s [] = s
process_loop zero s (x ∷ input) = s
process_loop (suc fuel) s (x ∷ input) =
    let (s', input') = process_round s (x ∷ input) in process_loop fuel s' input'

-- `csp_sha1_process`: every round takes at least one byte.
abbrev pub sha1_process : Sha1 → List ℕ → Sha1
sha1_process s input = process_loop (length input) s input

-- Zeros up to `end`.
abbrev pub pad_to : ℕ → Sha1 → Sha1
pad_to end s = record s {
  buf = write_at s.buf s.curlen (replicate (end - s.curlen) 0);
  curlen = if ltb s.curlen end then end else s.curlen;
}

abbrev pub pad_block : Sha1 → Sha1
pad_block s =
    let full = pad_to 64 s in
    if ltb 56 s.curlen then record full { state = compress full.state full.buf; curlen = 0 } else s

-- STORE64H and STORE32H of all words.
abbrev pub store64 : ℕ → List ℕ
store64 x = be32 (x / 2 ^ 32) ++ be32 x

abbrev pub store_state : Words5 → List ℕ
store_state s = be32 s.a ++ be32 s.b ++ be32 s.c ++ be32 s.d ++ be32 s.e

unfoldable pub sha1_done : Sha1 → List ℕ
sha1_done s =
    let total = (s.length + s.curlen * 8) % 2 ^ 64 in
    let marked = record s {
      length = total;
      buf = write_at s.buf s.curlen (0x80 ∷ []);
      curlen = s.curlen + 1;
    } in
    let padded = pad_to 56 (pad_block marked) in
    store_state (compress padded.state (write_at padded.buf 56 (store64 total)))

unfoldable pub sha1_memory : List ℕ → List ℕ → List ℕ
sha1_memory buf msg = sha1_done (sha1_process (sha1_init buf) msg)
