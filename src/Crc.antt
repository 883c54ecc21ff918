-- ===== src/Crc.antt =====
-- src/csp_crc32.c: the checksum, and how it is appended to a packet and verified.
mod Table
pub mod Bitwise
pub mod Check
mod Tests
use Table.{crc_tab}
use mathlib.Core.Option
use libcsp.Core.{ℕ, ◌+◌, ◌-◌, ◌/◌, ◌%◌, ◌^◌, bit_and, bit_xor, get_or, ltb, ◌==◌, ◌&&◌}
use libcsp.Core.{Bool, true, false, List, [], ◌∷◌, Option, none, some, if◌then◌else◌}
use libcsp.Core.Memory.{write_at, slice}
use libcsp.Core.Words.{be32}
use libcsp.Packet.{Packet, Err, data_begin, buffer_size}
use libcsp.Id.{prepend}

-- A `csp_crc32_t *` is `none` where it is NULL, and otherwise the value that it points to.
pub crc32_init : Option ℕ → Option ℕ
crc32_init crc = Option.map (λ _. 0xffff_ffff) crc

-- One round of the loop of `csp_crc32_update`.
abbrev pub crc32_byte : ℕ → ℕ → ℕ
crc32_byte crc byte = bit_xor (get_or crc_tab (bit_and (bit_xor crc byte) 0xff) 0) (crc / 2 ^ 8)

pub update_loop : ℕ → List ℕ → ℕ
update_loop crc [] = crc
update_loop crc (b ∷ data8) = update_loop (crc32_byte crc b) data8

pub crc32_update : Option ℕ → List ℕ → Option ℕ
unfolding update_loop
crc32_update crc data8 = Option.map (λ c. update_loop c data8) crc

pub crc32_final : Option ℕ → ℕ
crc32_final none = 0
crc32_final (some crc) = bit_xor crc 0xffff_ffff

-- The local `crc` holds anything before `csp_crc32_init`.
unfoldable pub crc32_memory : List ℕ → ℕ
unfolding crc32_init crc32_update crc32_final
crc32_memory data8 = crc32_final (crc32_update (crc32_init (some 0)) data8)

-- `sizeof(crc)`
abbrev pub crc_size : ℕ
crc_size = 4

-- CSP_21 is defined nowhere in the repository, so the checksum is that of the data alone.
pub crc32_append : Packet → Err × Packet
crc32_append p =
    let crc = be32 (crc32_memory (slice p.mem data_begin p.length)) in
    if ltb buffer_size (p.length + crc_size) then (Err.nomem, p) else (
      Err.none,
      record p {
        mem = write_at p.mem (data_begin + p.length) crc;
        length = (p.length + crc_size) % 2 ^ 16;
      },
    )

-- `memcmp(a, b, n) == 0`
abbrev pub bytes_eq : List ℕ → List ℕ → Bool
bytes_eq [] [] = true
bytes_eq [] (b ∷ bs) = false
bytes_eq (a ∷ as') [] = false
bytes_eq (a ∷ as') (b ∷ bs) = (a == b) && bytes_eq as' bs

-- The checksum over header and data is tried first, then the one over the data.
pub crc32_verify : ℕ → Packet → Err × Packet
crc32_verify version p =
    let q = prepend version p in
    let stored = slice q.mem (data_begin + q.length - crc_size) crc_size in
    let with_header = be32 (crc32_memory (slice q.mem q.frame_begin (q.frame_length - crc_size))) in
    let without_header = be32 (crc32_memory (slice q.mem data_begin (q.length - crc_size))) in
    let accepted : Err × Packet = (Err.none, record q { length = q.length - crc_size }) in
    if ltb p.length crc_size
    then (Err.crc32, p)
    else if bytes_eq stored with_header
    then accepted
    else if bytes_eq stored without_header
    then accepted
    else (Err.crc32, q)
