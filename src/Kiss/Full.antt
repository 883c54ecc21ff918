-- ===== src/Kiss/Full.antt =====
-- A packet that fills its buffer, on its way through src/interfaces/csp_if_kiss.c.
use libcsp.Core.{ℕ, ◌+◌, ◌%◌, ◌^◌, ◌≤◌, ◌≡◌, ◌∙◌, ap, arith}
use libcsp.Core.{true, List, [], ◌∷◌, ◌++◌, Option, some, length}
use libcsp.Packet.{Packet, IsSized}
use libcsp.Id.{setup_rx}
use libcsp.Id.RoundTrip.{IsId}
use libcsp.Kiss.{Kiss, started, fend, tnc_data, escape_all, kiss_tx, kiss_rx, rx_byte}
use libcsp.Kiss.Unescape.{in_frame, filled, kiss_rx-escape_all}
use libcsp.Kiss.Transfer.{IsIdle, private_packet, wire_of, rx_byte-fend, rx_byte-tnc_data}
use libcsp.Kiss.Transfer.{kiss_tx-eq, wire_end}

-- The closing FEND finds the buffer full and opens a frame instead.
rx_byte-full :
    (version : ℕ) (alloc : Option Packet) (s : Kiss) (q : Packet) (n : ℕ)
    → 264 ≤ q.frame_begin + n
    → rx_byte version alloc (in_frame s q n) fend ≡ record s {
      iface = record (s.iface) { rx_error = (s.iface.rx_error + 1) % 2 ^ 32 };
      rx_mode = started;
      rx_length = 0;
      rx_first = true;
      rx_packet = some ((setup_rx version q).1);
    }
unfolding rx_byte
rx_byte-full version alloc s q n full = ground arith

-- A packet with 252 bytes of data, for which the checksum still has room in the buffer, is sent by
-- KISS but never handed on: an idle receiver routes nothing and counts a receive error.
pub kiss_rx-kiss_tx_full :
    (version : ℕ) (p rx : Packet) (s : Kiss)
    → IsSized p
    → IsSized rx
    → IsId version p.id
    → p.length ≡ 252
    → IsIdle s
    → ((kiss_rx version (some rx) s (kiss_tx version p)).routed ≡ s.routed)
      × ((kiss_rx version (some rx) s (kiss_tx version p)).iface
          ≡ record (s.iface) { rx_error = (s.iface.rx_error + 1) % 2 ^ 32 })
unfolding kiss_rx
kiss_rx-kiss_tx_full version p rx s z zr v h i = (ap (λ t. t.routed) run, ap (λ t. t.iface) run)
  where
    wire : List ℕ
    wire = wire_of version p

    rest : List ℕ
    rest = escape_all wire ++ (fend ∷ [])

    q : Packet
    q = filled (private_packet version rx) 0 wire

    l : p.length ≤ 252
    l = omega arith

    ends : (private_packet version rx).frame_begin + length wire ≡ 12 + p.length
    ends = wire_end version p rx z zr v l

    run : kiss_rx version (some rx) s (kiss_tx version p) ≡ record s {
      iface = record (s.iface) { rx_error = (s.iface.rx_error + 1) % 2 ^ 32 };
      rx_mode = started;
      rx_length = 0;
      rx_first = true;
      rx_packet = some ((setup_rx version q).1);
    }
    run =
        ap (λ bytes. kiss_rx version (some rx) s bytes) (kiss_tx-eq version p rx z zr v l)
        ∙ ap (λ t. kiss_rx version (some rx) (rx_byte version (some rx) t tnc_data) rest)
            (rx_byte-fend version rx s i)
        ∙ ap (λ t. kiss_rx version (some rx) t rest) (rx_byte-tnc_data version rx s)
        ∙ kiss_rx-escape_all version (some rx) s (private_packet version rx) 0 wire (fend ∷ [])
            (omega (arith, ends))
        ∙ rx_byte-full version (some rx) s q (0 + length wire) (omega (arith, ends))
