-- ===== src/Rdp/Control.antt =====
-- src/csp_rdp.c: messages without data, and the closing of a connection.
use libcsp.Core.{ℕ, ◌+◌, ◌*◌, ◌%◌, ◌^◌, ltb, bit_or}
use libcsp.Core.{◌++◌, Option, none, some, if◌then◌else◌}
use libcsp.Core.Memory.{write_at}
use libcsp.Core.Words.{be32}
use libcsp.Packet.{Packet, CspId, Err, data_begin}
use libcsp.Buffer.{buffer_get, buffer_clone}
use libcsp.Rdp.{syn, ack, has, header_add}
use libcsp.Rdp.World.{
  World, with_rdp, with_buffers, free_packet, queue_tx, packet_at, change_packet, send_direct,
}

-- CSP_PRIO_HIGH
abbrev high : ℕ
high = 1

abbrev control_id : CspId → CspId
control_id id = record id { pri = if ltb id.pri high then id.pri else high }

-- `csp_rdp_send_cmp` from where its header is in the packet. A SYN is kept in the queue for
-- packets to be sent again; without a buffer for the copy the call ends there.
unfoldable pub send_copied : World → ℕ → Option ℕ → Err × World
send_copied w packet none = (Err.nomem, w)
send_copied w packet (some copy) =
    let stamped = change_packet w copy (λ p. record p { timestamp_tx = w.now }) in
    (Err.none, send_direct (queue_tx stamped copy) (control_id w.conn.idout) packet)

unfoldable pub send_headed : World → ℕ → ℕ → Err × World
send_headed w packet flags =
    let (copy, buffers') = buffer_clone w.buffers packet in
    if has flags syn
    then send_copied (with_buffers w buffers') packet copy
    else (Err.none, send_direct w (control_id w.conn.idout) packet)

-- What it does with the header, for the packet with the header if there is room for it.
unfoldable pub send_control : World → ℕ → ℕ → Option Packet → Err × World
send_control w packet flags none = (Err.nomem, free_packet w (some packet))
send_control w packet flags (some p) =
    send_headed (record (change_packet w packet (λ q. p)) { incr = (w.incr + 1) % 2 ^ 8 }) packet
      flags

abbrev control_flags : World → ℕ → ℕ
control_flags w flags = bit_or (w.incr * 2 ^ 4) flags % 2 ^ 8

-- `csp_rdp_send_cmp` on a packet; without one it gets an empty packet.
unfoldable pub send_packet : World → Option ℕ → ℕ → ℕ → ℕ → Err × World
send_packet w none flags seq_nr ack_nr = (Err.nomem, w)
send_packet w (some packet) flags seq_nr ack_nr =
    let rdp =
      if has flags ack then record (w.conn.rdp) { rcv_lsa = ack_nr % 2 ^ 16 } else w.conn.rdp in
    let w' = with_rdp w (record rdp { ack_timestamp = w.now }) in
    send_control w' packet flags (
      header_add (packet_at w' packet) (record {
        flags = control_flags w' flags;
        seq_nr = seq_nr % 2 ^ 16;
        ack_nr = ack_nr % 2 ^ 16;
      }))

abbrev empty_packet : Option ℕ → World → World
empty_packet none w = w
empty_packet (some i) w = change_packet w i (λ p. record p { length = 0 })

unfoldable pub send_cmp : World → Option ℕ → ℕ → ℕ → ℕ → Err × World
send_cmp w none flags seq_nr ack_nr =
    let (o, buffers') = buffer_get w.buffers in
    send_packet (empty_packet o (with_buffers w buffers')) o flags seq_nr ack_nr
send_cmp w (some packet) flags seq_nr ack_nr = send_packet w (some packet) flags seq_nr ack_nr

-- The settings for new connections.
pub record Settings : Type 0 where
  pub window_size : ℕ
  pub conn_timeout : ℕ
  pub packet_timeout : ℕ
  pub delayed_acks : ℕ
  pub ack_timeout : ℕ
  pub ack_delay_count : ℕ

abbrev pub dfl_settings : Settings
dfl_settings = record {
  window_size = 4;
  conn_timeout = 10000;
  packet_timeout = 1000;
  delayed_acks = 1;
  ack_timeout = 250;
  ack_delay_count = 2;
}

-- `csp_rdp_set_opt` and `csp_rdp_get_opt`
abbrev pub set_opt : ℕ → ℕ → ℕ → ℕ → ℕ → ℕ → Settings
set_opt window_size conn_timeout packet_timeout delayed_acks ack_timeout ack_delay_count = record {
  window_size = window_size;
  conn_timeout = conn_timeout;
  packet_timeout = packet_timeout;
  delayed_acks = delayed_acks;
  ack_timeout = ack_timeout;
  ack_delay_count = ack_delay_count;
}

abbrev syn_packet : Settings → Packet → Packet
syn_packet s p = record p {
  mem = write_at p.mem data_begin (
      be32 s.window_size
      ++ be32 s.conn_timeout
      ++ be32 s.packet_timeout
      ++ be32 s.delayed_acks
      ++ be32 s.ack_timeout
      ++ be32 s.ack_delay_count);
  length = 24;
}

unfoldable pub send_syn_in : World → Settings → Option ℕ → Err × World
send_syn_in w s none = (Err.nomem, w)
send_syn_in w s (some packet) =
    send_cmp (change_packet w packet (syn_packet s)) (some packet) syn w.conn.rdp.snd_iss 0

-- `csp_rdp_send_syn`
unfoldable pub send_syn : World → Settings → Err × World
send_syn w s = let (o, buffers') = buffer_get w.buffers in send_syn_in (with_buffers w buffers') s o
