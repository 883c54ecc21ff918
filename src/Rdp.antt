-- ===== src/Rdp.antt =====
-- src/csp_rdp.c: the comparison of sequence numbers and of times that wrap around, and the header.
pub mod Order
pub mod World
pub mod RoundTrip
pub mod Control
pub mod Close
pub mod Receive
pub mod Machine
pub mod Link
pub mod Frame
pub mod Closing
pub mod States
pub mod Moves
pub mod InOrder
pub mod Early
pub mod Catch
pub mod Data
pub mod Rounds
pub mod Window
mod Tests
pub mod Sample
mod Runs
use libcsp.Core.{ℕ, suc, ◌+◌, ◌-◌, ◌/◌, ◌%◌, ◌^◌, ◌==◌, ltb, leb, Bool, not, if◌then◌else◌, bit_and}
use libcsp.Core.{List, [], ◌∷◌, ◌++◌, Option, none, some, get_or}
use libcsp.Core.Memory.{slice, write_at}
use libcsp.Core.Words.{of_be, of_le}
use libcsp.Packet.{Packet, data_begin, buffer_size}

-- `(uint16_t)(a - b)` and `(uint32_t)(a - b)`
abbrev pub sub16 : ℕ → ℕ → ℕ
sub16 a b = (a + 2 ^ 16 - b) % 2 ^ 16

abbrev pub sub32 : ℕ → ℕ → ℕ
sub32 a b = (a + 2 ^ 32 - b) % 2 ^ 32

unfoldable pub seq_between : ℕ → ℕ → ℕ → Bool
seq_between seq start end_seq = leb (sub16 seq start) (sub16 end_seq start)

-- A difference that is negative as an `int16_t` has its highest bit set; so with `int32_t`.
unfoldable pub seq_before : ℕ → ℕ → Bool
seq_before seq cmp = leb (2 ^ 15) (sub16 seq cmp)

unfoldable pub seq_after : ℕ → ℕ → Bool
unfolding seq_before
seq_after seq cmp = seq_before cmp seq

unfoldable pub time_before : ℕ → ℕ → Bool
time_before time cmp = leb (2 ^ 31) (sub32 time cmp)

unfoldable pub time_after : ℕ → ℕ → Bool
unfolding time_before
time_after time cmp = time_before cmp time

-- RDP_SYN, RDP_ACK, RDP_EAK and RDP_RST
abbrev pub syn : ℕ
syn = 8

abbrev pub ack : ℕ
ack = 4

abbrev pub eak : ℕ
eak = 2

abbrev pub rst : ℕ
rst = 1

-- `flags & flag`, as a condition
abbrev pub has : ℕ → ℕ → Bool
has flags flag = not (bit_and flags flag == 0)

-- `rdp_header_t` with its numbers in the order of the host.
pub record Header : Type 0 where
  pub flags : ℕ
  pub seq_nr : ℕ
  pub ack_nr : ℕ

-- sizeof(rdp_header_t), which is packed
abbrev pub header_length : ℕ
header_length = 5

-- The index in `mem` of the header behind the data, which `csp_rdp_header_ref` points at.
abbrev pub header_begin : Packet → ℕ
header_begin p = data_begin + p.length - header_length

-- The 16 bits in memory after `htobe16`, and on a host that is little-endian.
abbrev pub be16 : ℕ → List ℕ
be16 n = (n / 256 % 256) ∷ (n % 256) ∷ []

abbrev pub le16 : ℕ → List ℕ
le16 n = (n % 256) ∷ (n / 256 % 256) ∷ []

-- The header as a packet from the network has it, and as `csp_rdp_new_packet` leaves it.
abbrev pub wire_header : Packet → Header
wire_header p = record {
  flags = get_or p.mem (header_begin p) 0;
  seq_nr = of_be 0 (slice p.mem (header_begin p + 1) 2);
  ack_nr = of_be 0 (slice p.mem (header_begin p + 3) 2);
}

abbrev pub host_seq_nr : Packet → ℕ
host_seq_nr p = of_le (slice p.mem (header_begin p + 1) 2)

-- The conversion of both numbers in place.
unfoldable pub to_host : Packet → Packet
to_host p = record p {
  mem =
      write_at p.mem (header_begin p + 1)
        (le16 (wire_header p).seq_nr ++ le16 (wire_header p).ack_nr);
}

-- `csp_rdp_header_add`, with what its callers write into the header; NULL is `none`.
unfoldable pub header_add : Packet → Header → Option Packet
header_add p h =
    if ltb buffer_size (p.length + header_length)
    then none
    else some (record p {
      length = p.length + header_length;
      mem = write_at p.mem (data_begin + p.length) (h.flags ∷ be16 h.seq_nr ++ be16 h.ack_nr);
    })

-- `csp_rdp_header_remove`
abbrev pub header_remove : Packet → Packet
header_remove p = record p { length = (p.length + 2 ^ 16 - header_length) % 2 ^ 16 }
