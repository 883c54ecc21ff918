-- ===== src/Hmac.antt =====
-- src/crypto/csp_hmac.c: the code that authenticates a packet.
pub mod Check
mod Tests
use libcsp.Core.{ℕ, ◌+◌, ◌-◌, ◌%◌, ◌^◌, ltb, bit_xor, map, Bool, List, [], ◌++◌, length, take}
use libcsp.Core.{drop, replicate, Option, none, some, if◌then◌else◌}
use libcsp.Core.Memory.{write_at, slice}
use libcsp.Packet.{Packet, Err, data_begin, buffer_size}
use libcsp.Crc.{bytes_eq}
use libcsp.Sha1.{Sha1, sha1_init, sha1_process, sha1_done, sha1_memory, sha1_blocksize}

-- HMAC_KEY_LENGTH, CSP_HMAC_LENGTH and CSP_SHA1_DIGESTSIZE
abbrev pub hmac_key_length : ℕ
hmac_key_length = 16

abbrev pub hmac_length : ℕ
hmac_length = 4

abbrev pub sha1_digestsize : ℕ
sha1_digestsize = 20

-- `hmac_state`
pub record HmacState : Type 0 where
  pub md : Sha1
  pub key : List ℕ

-- What the buffer of a new state holds is zeros here.
unfoldable pub unset : List ℕ
unset = replicate sha1_blocksize 0

-- The key with zeros up to the size of a block; a longer one is replaced by its digest.
unfoldable pub block_key : List ℕ → List ℕ
unfolding unset
block_key key =
    let digest = sha1_memory unset key in
    if ltb sha1_blocksize (length key)
    then digest ++ replicate (sha1_blocksize - sha1_digestsize) 0
    else key ++ replicate (sha1_blocksize - length key) 0

-- `csp_hmac_init`, `none` for CSP_ERR_INVAL
unfoldable pub hmac_init : List ℕ → Option HmacState
unfolding unset
hmac_init key =
    let vector = map (λ b. bit_xor b 0x36) (block_key key) in
    if ltb (length key) 1
    then none
    else some (record { md = sha1_process (sha1_init unset) vector; key = block_key key })

-- `csp_hmac_process`
abbrev pub hmac_process : HmacState → List ℕ → HmacState
hmac_process hmac input = record hmac { md = sha1_process hmac.md input }

-- `csp_hmac_done`. The second hash begins with the buffer that the first has left, which it
-- overwrites before it reads it; it is the one from before the padding here.
unfoldable pub hmac_done : HmacState → List ℕ
hmac_done hmac =
    let isha = sha1_done hmac.md in
    let vector = map (λ b. bit_xor b 0x5c) hmac.key in
    sha1_done (sha1_process (sha1_process (sha1_init hmac.md.buf) vector) isha)

-- `csp_hmac_memory`, from where the state is set up.
abbrev pub hmac_rest : List ℕ → Option HmacState → Option (List ℕ)
hmac_rest input none = none
hmac_rest input (some hmac) = some (hmac_done (hmac_process hmac input))

unfoldable pub hmac_memory : List ℕ → List ℕ → Option (List ℕ)
hmac_memory key input = hmac_rest input (hmac_init key)

-- `csp_hmac_set_key`
unfoldable pub hmac_set_key : List ℕ → List ℕ
unfolding unset
hmac_set_key key = take hmac_key_length (sha1_memory unset key)

-- The code for a packet: the result of `csp_hmac_memory` is not looked at, since `csp_hmac_key` is
-- not empty; with an empty key the local array would keep what it held.
abbrev pub code_of : Option (List ℕ) → List ℕ
code_of none = replicate hmac_length 0
code_of (some hmac) = take hmac_length hmac

unfoldable pub code : List ℕ → List ℕ → List ℕ
code key input = code_of (hmac_memory key input)

-- `csp_hmac_append` with the key that is set.
unfoldable pub hmac_append : List ℕ → Bool → Packet → Err × Packet
hmac_append key include_header p =
    let longer = (p.length + hmac_length) % 2 ^ 16 in
    let framed = record p {
      mem =
          write_at p.mem (p.frame_begin + p.frame_length)
            (code key (slice p.mem p.frame_begin p.frame_length));
      frame_length = (p.frame_length + hmac_length) % 2 ^ 16;
      length = longer;
    } in
    let plain = record p {
      mem = write_at p.mem (data_begin + p.length) (code key (slice p.mem data_begin p.length));
      length = longer;
    } in
    if ltb buffer_size (p.length + hmac_length)
    then (Err.nomem, p)
    else if include_header
    then (Err.none, framed)
    else (Err.none, plain)

-- `csp_hmac_verify`, the length of a frame being at least that of the code.
unfoldable pub hmac_verify : List ℕ → Bool → Packet → Err × Packet
hmac_verify key include_header p =
    let frame_end = p.frame_begin + p.frame_length in
    let of_frame = code key (slice p.mem p.frame_begin (p.frame_length - hmac_length)) in
    let of_data = code key (slice p.mem data_begin (p.length - hmac_length)) in
    if ltb p.length hmac_length
    then (Err.hmac, p)
    else if include_header
    then if bytes_eq (slice p.mem (frame_end - hmac_length) hmac_length) of_frame
      then (Err.none, record p { frame_length = p.frame_length - hmac_length })
      else (Err.hmac, p)
    else if bytes_eq (slice p.mem (data_begin + p.length - hmac_length) hmac_length) of_data
    then (Err.none, record p { length = p.length - hmac_length })
    else (Err.hmac, p)
