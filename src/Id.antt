-- ===== src/Id.antt =====
-- src/csp_id.c: the CSP 1.x and 2.x headers in front of a packet, and address classes.
-- `csp_conf.version` is the argument `version`.
mod Pack
pub mod RoundTrip
pub mod Broadcast
pub mod Wire
mod Tests
use libcsp.Core.{ℕ, ◌+◌, ◌-◌, ◌*◌, ◌/◌, ◌%◌, ◌^◌, bit_and, bit_or}
use libcsp.Core.{List, [], ◌∷◌, Option, none, some, Bool, true, false, ◌&&◌, ltb, ◌==◌}
use libcsp.Core.{if◌then◌else◌}
use libcsp.Core.Memory.{write_at, slice}
use libcsp.Core.Words.{shl32, shl64, shr, be32, le32, be64_six, of_be, of_le}
use libcsp.Packet.{CspId, Packet, Iface, data_begin}

abbrev id1_header_size : ℕ
id1_header_size = 4

abbrev id2_header_size : ℕ
id2_header_size = 6

-- `id1_raw` of `csp_id1_prepend`
pub id1_pack : CspId → ℕ
id1_pack id =
    bit_or
      (bit_or
        (bit_or (bit_or (bit_or (shl32 id.pri 30) (shl32 id.dst 20)) (shl32 id.src 25))
          (shl32 id.dport 14))
        (shl32 id.sport 8))
      (shl32 id.flags 0)

pub id1_parse : ℕ → CspId
id1_parse id1 = record {
  pri = bit_and (shr id1 30) 0x3;
  flags = bit_and (shr id1 0) 0xff;
  src = bit_and (shr id1 25) 0x1f;
  dst = bit_and (shr id1 20) 0x1f;
  dport = bit_and (shr id1 14) 0x3f;
  sport = bit_and (shr id1 8) 0x3f;
}

pub id1_prepend : Packet → Bool → Packet
id1_prepend p cspv1_fixup =
    let id1_raw = id1_pack p.id in
    let id1 = if cspv1_fixup then le32 id1_raw else be32 id1_raw in
    record p {
      frame_begin = data_begin - id1_header_size;
      frame_length = (p.length + id1_header_size) % 2 ^ 16;
      mem = write_at p.mem (data_begin - id1_header_size) id1;
    }

-- `none` is the return of -1, which leaves the packet alone.
pub id1_strip : Packet → Bool → Option Packet
id1_strip p cspv1_fixup =
    let raw = slice p.mem p.frame_begin id1_header_size in
    let id1 = if cspv1_fixup then of_le raw else of_be 0 raw in
    if ltb p.frame_length id1_header_size
    then none
    else some (record p { length = p.frame_length - id1_header_size; id = id1_parse id1 })

-- `id2` of `csp_id2_prepend`; the ports and flags are shifted as `int`, which they fit.
pub id2_pack : CspId → ℕ
id2_pack id =
    bit_or
      (bit_or
        (bit_or (bit_or (bit_or (shl64 id.pri 46) (shl64 id.dst 32)) (shl64 id.src 18))
          (id.dport * 2 ^ 12))
        (id.sport * 2 ^ 6))
      (id.flags * 2 ^ 0)

pub id2_parse : ℕ → CspId
id2_parse id2 = record {
  pri = bit_and (shr id2 46) 0x3;
  flags = bit_and (shr id2 0) 0x3f;
  src = bit_and (shr id2 18) 0x3fff;
  dst = bit_and (shr id2 32) 0x3fff;
  dport = bit_and (shr id2 12) 0x3f;
  sport = bit_and (shr id2 6) 0x3f;
}

pub id2_prepend : Packet → Packet
id2_prepend p =
    let id2 = be64_six (shl64 (id2_pack p.id) 16) in
    record p {
      frame_begin = data_begin - id2_header_size;
      frame_length = (p.length + id2_header_size) % 2 ^ 16;
      mem = write_at p.mem (data_begin - id2_header_size) id2;
    }

-- The two bytes of `id2` that `memcpy` leaves are 0, so `be64toh(id2) >> 16` is the word of the
-- six bytes read.
pub id2_strip : Packet → Option Packet
id2_strip p =
    let raw = slice p.mem p.frame_begin id2_header_size in
    let id2 = shr (of_be 0 raw * 2 ^ 16) 16 in
    if ltb p.frame_length id2_header_size
    then none
    else some (record p { length = p.frame_length - id2_header_size; id = id2_parse id2 })

pub prepend : ℕ → Packet → Packet
unfolding id1_prepend id2_prepend
prepend version p = if version == 2 then id2_prepend p else id1_prepend p false

pub strip : ℕ → Packet → Option Packet
unfolding id1_strip id2_strip
strip version p = if version == 2 then id2_strip p else id1_strip p false

pub prepend_fixup_cspv1 : ℕ → Packet → Packet
unfolding id1_prepend id2_prepend
prepend_fixup_cspv1 version p = if version == 2 then id2_prepend p else id1_prepend p true

pub strip_fixup_cspv1 : ℕ → Packet → Option Packet
unfolding id1_strip id2_strip
strip_fixup_cspv1 version p = if version == 2 then id2_strip p else id1_strip p true

pub id1_setup_rx : Packet → Packet
id1_setup_rx p = record p { frame_begin = data_begin - id1_header_size; frame_length = 0 }

pub id2_setup_rx : Packet → Packet
id2_setup_rx p = record p { frame_begin = data_begin - id2_header_size; frame_length = 0 }

-- The size of the header is returned.
pub setup_rx : ℕ → Packet → ℕ × Packet
unfolding id1_setup_rx id2_setup_rx
setup_rx version p =
    if version == 2 then (id2_header_size, id2_setup_rx p) else (id1_header_size, id1_setup_rx p)

abbrev pub get_host_bits : ℕ → ℕ
get_host_bits version = if version == 2 then 14 else 5

abbrev pub get_max_nodeid : ℕ → ℕ
get_max_nodeid version = if version == 2 then 2 ^ 14 - 1 else 2 ^ 5 - 1

abbrev pub get_max_port : ℕ → ℕ
get_max_port version = if version == 2 then 2 ^ 6 - 1 else 2 ^ 6 - 1

-- `hostmask` of an interface; a shift by a negative count, which C leaves undefined, is one by 0.
abbrev hostmask : ℕ → ℕ → ℕ
hostmask version netmask = (2 ^ (get_host_bits version - netmask) - 1) % 2 ^ 16

unfoldable pub is_broadcast : ℕ → ℕ → Iface → Bool
is_broadcast version addr iface =
    let hmask = hostmask version iface.netmask in
    let nmask = (2 ^ get_host_bits version - 1 - hmask) % 2 ^ 16 in
    if (bit_and addr hmask == hmask) && (bit_and addr nmask == bit_and iface.addr nmask)
    then true
    else addr == get_max_nodeid version
