-- ===== src/Kiss/Tests.antt =====
-- A serial line on which the theorems about src/interfaces/csp_if_kiss.c are run.
use libcsp.Core.{◌≡◌, refl, arith, [], ◌∷◌, some, none, false}
use libcsp.Core.Memory.{slice}
use libcsp.Packet.{Packet, data_begin}
use libcsp.Samples.{blank, ping, ping_id, can0}
use libcsp.Kiss.{Kiss, not_started, kiss_tx, kiss_rx, escape_all}
use libcsp.Kiss.Transfer.{IsIdle, kiss_rx-kiss_tx}
use libcsp.Kiss.Full.{kiss_rx-kiss_tx_full}

abbrev line : Kiss
line = record {
  iface = can0;
  rx_mode = not_started;
  rx_length = 0;
  rx_first = false;
  rx_packet = none;
  routed = [];
}

escape_run : escape_all (1 ∷ 0xc0 ∷ 0xdb ∷ []) ≡ 1 ∷ 0xdb ∷ 0xdc ∷ 0xdb ∷ 0xdd ∷ []
unfolding escape_all
escape_run = refl

line-IsIdle : IsIdle line
line-IsIdle = record { mode = refl; no_packet = refl }

kiss_rx-kiss_tx_example :
    (q : Packet) × (kiss_rx 2 (some blank) line (kiss_tx 2 ping)).routed ≡ q ∷ []
    × (q.id ≡ ping_id)
    × (q.length ≡ 3)
    × (slice q.mem data_begin 3 ≡ 10 ∷ 20 ∷ 30 ∷ [])
    × IsIdle (kiss_rx 2 (some blank) line (kiss_tx 2 ping))
    × ((kiss_rx 2 (some blank) line (kiss_tx 2 ping)).iface ≡ can0)
kiss_rx-kiss_tx_example =
    kiss_rx-kiss_tx 2 ping blank line refl refl (omega arith) (omega arith) line-IsIdle

abbrev full_ping : Packet
full_ping = record ping { length = 252 }

kiss_rx-kiss_tx_full_example :
    ((kiss_rx 2 (some blank) line (kiss_tx 2 full_ping)).routed ≡ [])
    × ((kiss_rx 2 (some blank) line (kiss_tx 2 full_ping)).iface ≡ record can0 { rx_error = 1 })
kiss_rx-kiss_tx_full_example =
    kiss_rx-kiss_tx_full 2 full_ping blank line refl refl (omega arith) refl line-IsIdle
