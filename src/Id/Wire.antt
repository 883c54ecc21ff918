-- ===== src/Id/Wire.antt =====
-- The way of a frame from one node to another, src/csp_id.c with what a driver does between.
use libcsp.Core.{ℕ, ◌+◌, ◌*◌, ◌%◌, ◌^◌, ◌≤◌, ◌≡◌, ◌∙◌, refl, sym, ap, ap₂, arith, inl, inr}
use libcsp.Core.{true, false, List, ◌++◌, some, length, drop, take, ◌==◌, Bool-cases}
use libcsp.Core.{length-take, length-drop, length-append}
use libcsp.Core.Memory.{
  write_at, slice, slice-write_at_self, drop-write_at, slice-write_at_before, write_at-append,
  slice-add, length-write_at,
}
use native.Mathlib.Nat.{add_comm}
use libcsp.Core.Words.{be32, be64_six}
use libcsp.Packet.{Packet, IsSized, data_begin, buffer_size}
use libcsp.Id.{id1_prepend, id2_prepend, id1_strip, id2_strip, id1_pack, id2_pack, prepend, strip}
use libcsp.Id.{setup_rx}
use libcsp.Id.Pack.{IsId1, IsId2}
use libcsp.Id.RoundTrip.{IsId, id1_bytes, id2_bytes, id1_strip-bytes, id2_strip-bytes}
use libcsp.Id.RoundTrip.{IsId-IsId1, IsId-IsId2}

-- The bytes that a driver transmits.
abbrev pub frame_bytes : Packet → List ℕ
frame_bytes p = slice p.mem p.frame_begin p.frame_length

-- A driver that receives a frame into the packet `rx`: it calls `csp_id_setup_rx`, copies the
-- bytes to `frame_begin` and stores their number.
unfoldable pub receive_frame : ℕ → Packet → List ℕ → Packet
receive_frame version rx wire =
    let (n, r) = setup_rx version rx in
    record r { frame_length = length wire; mem = write_at r.mem r.frame_begin wire }

frame_size : (n k : ℕ) → n ≤ 256 → k ≤ 6 → (n + k) % 2 ^ 16 ≡ n + k
frame_size n k h hk = omega arith

-- What the receiver finds at the offset `i` of a header `hdr` that ends where `data` begins, when
-- it copies there what the sender put in front of `n` bytes of data.
module _ (i n : ℕ) (m r hdr : List ℕ) (at_data : i + length hdr ≡ 8) (fits : n ≤ 256)
    (hm : length m ≡ 264) (hr : length r ≡ 264) where
  sent : List ℕ
  sent = write_at m i hdr

  payload : List ℕ
  payload = slice m 8 n

  length-payload : length payload ≡ n
  unfolding payload
  length-payload = omega (arith, length-take n (drop 8 m), length-drop 8 m)

  sent-data : slice sent (i + length hdr) n ≡ payload
  unfolding sent payload
  sent-data =
      ap (λ t. take n t) (drop-write_at m i hdr (i + length hdr) (omega arith))
      ∙ ap (λ k. slice m k n) at_data

  wire-eq : slice sent i (n + length hdr) ≡ hdr ++ payload
  unfolding sent
  wire-eq =
      ap (λ k. slice sent i k) (add_comm n (length hdr))
      ∙ slice-add sent i (length hdr) n
      ∙ ap₂ (λ s t. s ++ t) (slice-write_at_self m i hdr (omega arith)) sent-data

  received : List ℕ
  received = write_at r i (hdr ++ payload)

  received-header : slice received i (length hdr) ≡ hdr
  unfolding received
  received-header = rw (write_at-append r i hdr payload) (
      slice-write_at_before (write_at r i hdr) (i + length hdr) payload i (length hdr) (omega arith)
      ∙ slice-write_at_self r i hdr (omega arith))

  received-data : slice received 8 n ≡ payload
  unfolding received
  received-data =
      rw (← at_data, write_at-append r i hdr payload)
        (ap (λ k. slice (write_at (write_at r i hdr) (i + length hdr) payload) (i + length hdr) k)
            (sym length-payload)
          ∙ slice-write_at_self (write_at r i hdr) (i + length hdr) payload
              (omega (arith, length-payload, length-write_at r i hdr)))

  length-wire : length (slice sent i (n + length hdr)) ≡ n + length hdr
  length-wire = rw wire-eq (omega (arith, length-append hdr payload, length-payload))

  -- The same for bytes that are those sent.
  from_wire :
      (wire : List ℕ)
      → wire ≡ slice (write_at m i hdr) i (n + length hdr)
      → (length wire ≡ n + length hdr)
        × (slice (write_at r i wire) i (length hdr) ≡ hdr)
        × (slice (write_at r i wire) 8 n ≡ slice m 8 n)
  unfolding sent received payload
  from_wire wire e =
      let fill : write_at r i wire ≡ received = ap (λ w. write_at r i w) (e ∙ wire-eq) in
      (
        ap length e ∙ length-wire,
        ap (λ t. slice t i (length hdr)) fill ∙ received-header,
        ap (λ t. slice t 8 n) fill ∙ received-data,
      )

id1_receive :
    (p rx : Packet)
    → IsSized p
    → IsSized rx
    → IsId1 p.id
    → p.length ≤ buffer_size
    → let wire = frame_bytes (id1_prepend p false) in
      let q = record rx {
        frame_begin = 4;
        frame_length = length wire;
        mem = write_at rx.mem 4 wire;
      } in
      (id1_strip q false ≡ some (record q { length = p.length; id = p.id }))
      × (slice q.mem data_begin p.length ≡ slice p.mem data_begin p.length)
unfolding id1_prepend id1_bytes
id1_receive p rx z zr v h =
    let hdr = be32 (id1_pack p.id) in
    let wire = frame_bytes (id1_prepend p false) in
    let (size, header, content) =
      from_wire 4 p.length p.mem rx.mem hdr refl h z zr wire
        (ap (λ k. slice (write_at p.mem 4 hdr) 4 k) (frame_size p.length 4 h (omega arith))) in
    (id1_strip-bytes _ p.id p.length false v size header, content)

id2_receive :
    (p rx : Packet)
    → IsSized p
    → IsSized rx
    → IsId2 p.id
    → p.length ≤ buffer_size
    → let wire = frame_bytes (id2_prepend p) in
      let q = record rx {
        frame_begin = 2;
        frame_length = length wire;
        mem = write_at rx.mem 2 wire;
      } in
      (id2_strip q ≡ some (record q { length = p.length; id = p.id }))
      × (slice q.mem data_begin p.length ≡ slice p.mem data_begin p.length)
unfolding id2_prepend id2_bytes
id2_receive p rx z zr v h =
    let hdr = be64_six (id2_pack p.id * 2 ^ 16 % 2 ^ 64) in
    let wire = frame_bytes (id2_prepend p) in
    let (size, header, content) =
      from_wire 2 p.length p.mem rx.mem hdr refl h z zr wire
        (ap (λ k. slice (write_at p.mem 2 hdr) 2 k) (frame_size p.length 6 h (omega arith))) in
    (id2_strip-bytes _ p.id p.length v size header, content)

-- The dispatch on the version.
module _ (version : ℕ) (e : (version == 2) ≡ true) where
  prepend-id2 : (p : Packet) → prepend version p ≡ id2_prepend p
  unfolding prepend
  prepend-id2 p = rw e

  strip-id2 : (p : Packet) → strip version p ≡ id2_strip p
  unfolding strip
  strip-id2 p = rw e

  receive_frame-id2 :
      (rx : Packet) (wire : List ℕ)
      → receive_frame version rx wire
        ≡ record rx { frame_begin = 2; frame_length = length wire; mem = write_at rx.mem 2 wire }
  unfolding receive_frame setup_rx
  receive_frame-id2 rx wire = ground (arith, e)

module _ (version : ℕ) (e : (version == 2) ≡ false) where
  prepend-id1 : (p : Packet) → prepend version p ≡ id1_prepend p false
  unfolding prepend
  prepend-id1 p = rw e

  strip-id1 : (p : Packet) → strip version p ≡ id1_strip p false
  unfolding strip
  strip-id1 p = rw e

  receive_frame-id1 :
      (rx : Packet) (wire : List ℕ)
      → receive_frame version rx wire
        ≡ record rx { frame_begin = 4; frame_length = length wire; mem = write_at rx.mem 4 wire }
  unfolding receive_frame setup_rx
  receive_frame-id1 rx wire = ground (arith, e)

-- In either version: when the bytes that one node transmits for a packet arrive in the buffer of
-- another, which need not have held anything in particular, the second node reads the identifier
-- and the length of that packet, and finds its data bytes at `data`.
pub strip-receive_frame :
    (version : ℕ) (p rx : Packet)
    → IsSized p
    → IsSized rx
    → IsId version p.id
    → p.length ≤ buffer_size
    → let q = receive_frame version rx (frame_bytes (prepend version p)) in
      (strip version q ≡ some (record q { length = p.length; id = p.id }))
      × (slice q.mem data_begin p.length ≡ slice p.mem data_begin p.length)
strip-receive_frame version p rx z zr v h = elim (Bool-cases (version == 2)) [
  | inl e ↦
      rw
        (
          prepend-id2 version e p,
          receive_frame-id2 version e rx (frame_bytes (id2_prepend p)),
          strip-id2 version e,
        )
        (id2_receive p rx z zr (IsId-IsId2 e v) h)
  | inr e ↦
      rw
        (
          prepend-id1 version e p,
          receive_frame-id1 version e rx (frame_bytes (id1_prepend p false)),
          strip-id1 version e,
        )
        (id1_receive p rx z zr (IsId-IsId1 e v) h)
]

-- The frame of a packet fills what `csp_id_setup_rx` leaves free in front of `data`, and then as
-- many bytes of `data` as the packet has.
pub frame_end :
    (version : ℕ) (p rx : Packet)
    → IsSized p
    → p.length ≤ buffer_size
    → (setup_rx version rx).1.frame_begin + length (frame_bytes (prepend version p))
      ≡ data_begin + p.length
unfolding prepend setup_rx
frame_end version p rx z h = elim (Bool-cases (version == 2)) [
  | inl e ↦ rw e (
      omega (
        arith,
        length-take ((p.length + 6) % 2 ^ 16) (drop 2 (id2_prepend p).mem),
        length-drop 2 (id2_prepend p).mem,
        length-write_at p.mem 2 (be64_six (id2_pack p.id * 2 ^ 16 % 2 ^ 64)),
      ))
  | inr e ↦ rw e (
      omega (
        arith,
        length-take ((p.length + 4) % 2 ^ 16) (drop 4 (id1_prepend p false).mem),
        length-drop 4 (id1_prepend p false).mem,
        length-write_at p.mem 4 (be32 (id1_pack p.id)),
      ))
]

pub setup_rx-frame_begin : (version : ℕ) (rx : Packet) → (setup_rx version rx).1.frame_begin ≤ 4
unfolding setup_rx
setup_rx-frame_begin version rx = ground arith
