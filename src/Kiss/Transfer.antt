-- ===== src/Kiss/Transfer.antt =====
-- A packet on its way from one node to another over src/interfaces/csp_if_kiss.c.
use libcsp.Core.{ℕ, ◌+◌, ◌%◌, ◌^◌, ◌<◌, ◌≤◌, ◌≡◌, ◌∙◌, refl, sym, ap, ap₂, arith}
use libcsp.Core.{true, false, List, [], ◌∷◌, ◌++◌, none, some, length, take}
use libcsp.Core.Memory.{slice, write_at, slice-front, slice-end, length-write_at}
use libcsp.Core.Words.{be32}
use libcsp.Packet.{Packet, Err, IsSized, data_begin}
use libcsp.Id.{prepend, strip, setup_rx}
use libcsp.Id.RoundTrip.{IsId, drop-prepend, id-prepend}
use libcsp.Id.Wire.{
  frame_bytes, receive_frame, strip-receive_frame, frame_end, setup_rx-frame_begin,
}
use libcsp.Crc.{crc32_verify, crc32_memory}
use libcsp.Crc.Check.{
  appended, crc32_append-eq-appended, appended-data, appended-checksum, verify_of_checksum,
}
use libcsp.Kiss.{Kiss, not_started, started, fend, tnc_data, escape_all}
use libcsp.Kiss.{kiss_tx, kiss_rx, rx_byte, finish_frame, finish_stripped}
use libcsp.Kiss.Unescape.{in_frame, filled, kiss_rx-escape_all}

-- A receiver between two frames with no packet at hand.
pub record IsIdle (s : Kiss) : Type 0 where
  pub mode : s.rx_mode ≡ not_started
  pub no_packet : s.rx_packet ≡ none

-- The packet that a frame begins in.
abbrev pub private_packet : ℕ → Packet → Packet
private_packet version rx = (setup_rx version rx).1

module _ (version : ℕ) (rx : Packet) (s : Kiss) where
  -- The opening FEND takes a packet, and the byte behind it is skipped.
  pub rx_byte-fend :
      IsIdle s
      → rx_byte version (some rx) s fend ≡ record s {
        rx_mode = started;
        rx_length = 0;
        rx_first = true;
        rx_packet = some (private_packet version rx);
      }
  unfolding rx_byte
  rx_byte-fend i = ground arith

  pub rx_byte-tnc_data :
      rx_byte version
        (some rx)
        (record s {
          rx_mode = started;
          rx_length = 0;
          rx_first = true;
          rx_packet = some (private_packet version rx);
        })
        tnc_data
      ≡ in_frame s (private_packet version rx) 0
  unfolding rx_byte
  rx_byte-tnc_data = ground (arith, setup_rx-frame_begin version rx)

  -- The closing FEND of a frame that leaves the last byte of the buffer free.
  rx_byte-end :
      (q : Packet) (n : ℕ)
      → 0 < n
      → q.frame_begin + n < 264
      → rx_byte version (some rx) (in_frame s q n) fend ≡ finish_frame version (in_frame s q n) q
  unfolding rx_byte
  rx_byte-end q n pos room = ground arith

-- The packet that the sender frames: the checksum is behind the data.
abbrev pub wire_of : ℕ → Packet → List ℕ
wire_of version p = frame_bytes (prepend version (appended p))

module _ (version : ℕ) (p rx : Packet) (z : IsSized p) (zr : IsSized rx) (v : IsId version p.id)
    (h : p.length ≤ 252) where
  appended-IsSized : IsSized (appended p)
  appended-IsSized =
      length-write_at p.mem (data_begin + p.length)
        (be32 (crc32_memory (slice p.mem data_begin p.length)))
      ∙ z

  framed : Packet
  framed = receive_frame version rx (wire_of version p)

  stripped : Packet
  stripped = record framed { length = p.length + 4; id = p.id }

  strip-framed : strip version framed ≡ some stripped
  unfolding framed stripped
  strip-framed = (strip-receive_frame version (appended p) rx appended-IsSized zr v (omega arith)).0

  framed-data : slice framed.mem data_begin p.length ≡ slice p.mem data_begin p.length
  unfolding framed
  framed-data =
      slice-front framed.mem (appended p).mem data_begin data_begin p.length 4
        (strip-receive_frame version (appended p) rx appended-IsSized zr v (omega arith)).1
      ∙ appended-data p

  framed-checksum :
      slice framed.mem (data_begin + p.length) 4
      ≡ be32 (crc32_memory (slice framed.mem data_begin p.length))
  unfolding framed
  framed-checksum =
      slice-end framed.mem (appended p).mem data_begin data_begin p.length 4
        (strip-receive_frame version (appended p) rx appended-IsSized zr v (omega arith)).1
      ∙ appended-checksum p z h
      ∙ ap (λ d. be32 (crc32_memory d)) (sym framed-data)

  -- The packet that is handed on.
  accepted : Packet
  accepted = record (prepend version stripped) { length = p.length }

  verify-stripped : crc32_verify version stripped ≡ (Err.none, accepted)
  unfolding stripped accepted
  verify-stripped = verify_of_checksum version p.length stripped refl framed-checksum

  accepted-IsSame :
      (accepted.id ≡ p.id)
      × (accepted.length ≡ p.length)
      × (slice accepted.mem data_begin p.length ≡ slice p.mem data_begin p.length)
  unfolding accepted stripped
  accepted-IsSame = (
    id-prepend version stripped,
    refl,
    ap (λ m. take p.length m) (drop-prepend version stripped data_begin (omega arith))
        ∙ framed-data,
  )

  -- The closing FEND hands the packet on.
  finish_frame-accepted :
      (s : Kiss) (q : Packet) (n : ℕ)
      → record q { frame_length = n % 2 ^ 16 } ≡ framed
      → finish_frame version (in_frame s q n) q ≡ record s {
        rx_mode = not_started;
        rx_length = n;
        rx_first = false;
        rx_packet = none;
        routed = s.routed ++ (accepted ∷ []);
      }
  unfolding finish_frame
  finish_frame-accepted s q n e =
      rw (e, strip-framed, finish_stripped, verify-stripped) (rw verify-stripped)

  pub kiss_tx-eq :
      kiss_tx version p ≡ fend ∷ tnc_data ∷ (escape_all (wire_of version p) ++ (fend ∷ []))
  unfolding kiss_tx
  kiss_tx-eq = rw (crc32_append-eq-appended p h)

  -- The bytes of the frame and where they end.
  pub wire_end :
      (private_packet version rx).frame_begin + length (wire_of version p) ≡ 12 + p.length
  wire_end = omega (arith, frame_end version (appended p) rx appended-IsSized (omega arith))

  filled-framed :
      let q = filled (private_packet version rx) 0 (wire_of version p) in
      record q { frame_length = length (wire_of version p) % 2 ^ 16 } ≡ framed
  unfolding framed receive_frame
  filled-framed =
      ap₂ (λ (k : ℕ) m. record (private_packet version rx) { frame_length = k; mem = m }) size
        (ap (λ k. write_at (private_packet version rx).mem k (wire_of version p)) at_begin)
    where
      size : length (wire_of version p) % 2 ^ 16 ≡ length (wire_of version p)
      size = omega (arith, wire_end)

      at_begin :
          (private_packet version rx).frame_begin + 0 ≡ (private_packet version rx).frame_begin
      at_begin = omega arith

  -- The receiver's state after all bytes.
  delivered : Kiss → Kiss
  delivered s = record s {
    rx_mode = not_started;
    rx_length = length (wire_of version p);
    rx_first = false;
    rx_packet = none;
    routed = s.routed ++ (accepted ∷ []);
  }

  run :
      (s : Kiss)
      → IsIdle s
      → p.length ≤ 251
      → kiss_rx version (some rx) s (kiss_tx version p) ≡ delivered s
  unfolding kiss_rx delivered
  run s i fits =
      ap (λ bytes. kiss_rx version (some rx) s bytes) kiss_tx-eq
      ∙ ap (λ t. kiss_rx version (some rx) (rx_byte version (some rx) t tnc_data) rest)
          (rx_byte-fend version rx s i)
      ∙ ap (λ t. kiss_rx version (some rx) t rest) (rx_byte-tnc_data version rx s)
      ∙ kiss_rx-escape_all version (some rx) s (private_packet version rx) 0 wire (fend ∷ [])
          (omega (arith, wire_end))
      ∙ ap (λ (k : ℕ). rx_byte version (some rx) (in_frame s q k) fend) no_bytes
      ∙ rx_byte-end version rx s q (length wire)
          (omega (arith, wire_end, setup_rx-frame_begin version rx)) (omega (arith, wire_end))
      ∙ finish_frame-accepted s q (length wire) filled-framed
    where
      wire : List ℕ
      wire = wire_of version p

      rest : List ℕ
      rest = escape_all wire ++ (fend ∷ [])

      q : Packet
      q = filled (private_packet version rx) 0 wire

      no_bytes : 0 + length wire ≡ length wire
      no_bytes = omega arith

-- A packet that KISS frames at one node, with at most 251 bytes of data, is handed on at the
-- other: an idle receiver that reads exactly these bytes routes one packet more, with the same
-- identifier, length and data, is idle again and has counted no error.
pub kiss_rx-kiss_tx :
    (version : ℕ) (p rx : Packet) (s : Kiss)
    → IsSized p
    → IsSized rx
    → IsId version p.id
    → p.length ≤ 251
    → IsIdle s
    → (q : Packet) × (kiss_rx version (some rx) s (kiss_tx version p)).routed ≡ s.routed ++ (q ∷ [])
      × (q.id ≡ p.id)
      × (q.length ≡ p.length)
      × (slice q.mem data_begin p.length ≡ slice p.mem data_begin p.length)
      × IsIdle (kiss_rx version (some rx) s (kiss_tx version p))
      × ((kiss_rx version (some rx) s (kiss_tx version p)).iface ≡ s.iface)
unfolding delivered
kiss_rx-kiss_tx version p rx s z zr v h i = rw (run version p rx z zr v l s i h) (
  accepted version p rx z zr v l,
  refl,
  same.0,
  same.1,
  same.2,
  record { mode = refl; no_packet = refl },
  refl,
)
  where
    l : p.length ≤ 252
    l = omega arith

    same :
        ((accepted version p rx z zr v l).id ≡ p.id)
        × ((accepted version p rx z zr v l).length ≡ p.length)
        × (slice (accepted version p rx z zr v l).mem data_begin p.length
            ≡ slice p.mem data_begin p.length)
    same = accepted-IsSame version p rx z zr v l
