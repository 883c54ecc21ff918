-- ===== src/Sfp.antt =====
-- src/csp_sfp.c: the simple fragmentation protocol.
pub mod Fragment
pub mod Transfer
pub mod RoundTrip
mod Tests
use libcsp.Core.{ℕ, zero, suc, ◌+◌, ◌-◌, ◌%◌, ◌^◌, min, bit_and, bit_or, ltb, leb, ◌==◌, ◌&&◌}
use libcsp.Core.{Bool, true, false, if◌then◌else◌, List, [], ◌∷◌, ◌++◌, Option, none, some}
use libcsp.Core.Int.{ℤ, pos, int_of}
use libcsp.Core.Memory.{write_at, slice}
use libcsp.Core.Words.{be32, of_be}
use libcsp.Packet.{Packet, CspId, Err, data_begin, buffer_size, ffrag}

-- `sizeof(sfp_header_t)`
abbrev pub header_size : ℕ
header_size = 8

-- `csp_sfp_header_add`, with what the caller then stores in the header.
abbrev pub header_add : ℕ → ℕ → Packet → Packet
header_add offset totalsize p = record p {
  mem = write_at p.mem (data_begin + p.length) (be32 offset ++ be32 totalsize);
  length = (p.length + header_size) % 2 ^ 16;
}

-- `csp_sfp_header_remove`: the offset, the total size and the packet without its header.
pub header_remove : Packet → Option (ℕ × ℕ × Packet)
header_remove p =
    let begin = data_begin + (p.length - header_size) in
    let offset = of_be 0 (slice p.mem begin 4) in
    let totalsize = of_be 0 (slice p.mem (begin + 4) 4) in
    if bit_and p.id.flags ffrag == 0
    then none
    else if ltb p.length header_size
    then none
    else if ltb totalsize offset
    then none
    else some (offset, totalsize, record p { length = p.length - header_size })

-- What one round of the sending loop meets: whether `csp_conn_is_active`, and what
-- `csp_buffer_get` returns.
pub record Round : Type 0 where
  pub active : Bool
  pub buffer : Option Packet

-- The packet of one round as `csp_send` sends it, with the identifier of the connection.
pub fragment : CspId → List ℕ → ℕ → ℕ → ℕ → Packet → Packet
fragment idout bytes totalsize count size buffer = header_add count totalsize (record buffer {
  id = idout;
  mem = write_at buffer.mem data_begin (slice bytes count size);
  length = size % 2 ^ 16;
})

-- The loop of `csp_sfp_send_own_memcpy`, at most `fuel` rounds from round `r` on. It gives the
-- error code, the identifier that the connection ends up with, and the packets sent, in order.
pub send_loop : ℕ → (ℕ → Round) → ℕ → CspId → List ℕ → ℕ → ℕ → ℕ → Err × CspId × List Packet
unfolding fragment
send_loop zero env r idout bytes totalsize mtu count = (Err.none, idout, [])
send_loop (suc fuel) env r idout bytes totalsize mtu count =
    let size = min (totalsize - count) mtu in
    let idout' = record idout { flags = bit_or idout.flags ffrag } in
    let (e, idout'', packets) =
      send_loop fuel env (suc r) idout' bytes totalsize mtu (count + size) in
    if ltb count totalsize && (env r).active
    then elim (env r).buffer [
      | none ↦ (Err.nomem, idout, [])
      | some b ↦ (e, idout'', fragment idout' bytes totalsize count size b ∷ packets)
    ]
    else (Err.none, idout, [])

pub send_own_memcpy : (ℕ → Round) → CspId → List ℕ → ℕ → ℕ → Err × CspId × List Packet
unfolding send_loop
send_own_memcpy env idout bytes totalsize mtu =
    if mtu == 0
    then (Err.inval, idout, [])
    else if ltb buffer_size (mtu + header_size)
    then (Err.inval, idout, [])
    else send_loop totalsize env 0 idout bytes totalsize mtu 0

-- The variables of the receiving loop: `out` is `data`, none for NULL, with `datasize` and `data_offset`.
pub record Receiving : Type 0 where
  pub out : Option (List ℕ)
  pub datasize : ℕ
  pub data_offset : ℕ

-- What `csp_sfp_recv_fp` returns: the error code, `*return_data` and `*return_datasize`, an `int`.
abbrev pub Received : Type 0
Received = Err × Option (List ℕ) × ℤ

-- The loop goes on, or the function returns. On `goto error` the data is freed.
pub data Step : Type 0 where
  more : Receiving → Step
  done : Received → Step

abbrev pub fail : Err → Step
fail e = done (e, none, pos 0)

-- The packet is copied to the data if it fits.
pub copy_in : ℕ → Packet → List ℕ → ℕ → ℕ → Step
copy_in totalsize p m datasize data_offset =
    let m' = write_at m data_offset (slice p.mem data_begin p.length) in
    let offset' = (data_offset + p.length) % 2 ^ 32 in
    if ltb datasize ((data_offset + p.length) % 2 ^ 32)
    then fail Err.sfp
    else if datasize == totalsize
    then if leb datasize offset'
      then done (Err.none, some m', int_of datasize)
      else if p.length == 0
      then fail Err.sfp
      else more (record { out = some m'; datasize = datasize; data_offset = offset' })
    else fail Err.sfp

-- The first packet says how much memory there will be; `malloc` is the C library's.
pub take_in : (ℕ → Option (List ℕ)) → Receiving → Option (ℕ × ℕ × Packet) → Step
unfolding copy_in
take_in malloc s none = fail Err.sfp
take_in malloc s (some (offset, totalsize, p)) =
    if offset == s.data_offset
    then elim (s.out) [
      | none ↦ elim (malloc totalsize) [
        | none ↦ fail Err.nomem
        | some m ↦ copy_in totalsize p m totalsize s.data_offset
      ]
      | some m ↦ copy_in totalsize p m s.datasize s.data_offset
    ]
    else fail Err.sfp

-- The loop, over the packets that `csp_read` returns before it times out.
pub recv_loop : (ℕ → Option (List ℕ)) → Receiving → List Packet → Received
recv_loop malloc s [] = (Err.timedout, none, pos 0)
recv_loop malloc s (p ∷ packets) = elim (take_in malloc s (header_remove p)) [
  | done r ↦ r
  | more s' ↦ recv_loop malloc s' packets
]

-- `csp_sfp_recv_fp`; NULL for the first packet is `none`.
pub recv_fp : (ℕ → Option (List ℕ)) → Option Packet → List Packet → Received
recv_fp malloc none packets =
    recv_loop malloc (record { out = none; datasize = 0; data_offset = 0 }) packets
recv_fp malloc (some first) packets =
    recv_loop malloc (record { out = none; datasize = 0; data_offset = 0 }) (first ∷ packets)
