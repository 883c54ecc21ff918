-- ===== src/Rdp/Receive.antt =====
-- src/csp_rdp.c: the delivery of data in order, and the acknowledgments for it.
use libcsp.Core.{
  ℕ, zero, suc, ◌+◌, ◌-◌, ◌*◌, ◌%◌, ◌^◌, ◌==◌, ltb, leb, Bool, true, false, ◌||◌, ◌&&◌, not,
}
use libcsp.Core.{List, Option, none, some, length, if◌then◌else◌}
use libcsp.Packet.{Err, is_ok}
use libcsp.Conn.{rxqueue_len}
use libcsp.RdpQueue.{rx_size}
use libcsp.Queue.Fifo.{ok, push}
use libcsp.Rdp.{ack, host_seq_nr, header_remove, seq_after, time_after}
use libcsp.Rdp.World.{
  World, with_rdp, free_packet, queue_rx, dequeue_rx, packet_at, change_packet, count_ovf,
}
use libcsp.Rdp.Control.{send_cmp}

abbrev with_rx_queue : World → List (Option ℕ) → World
with_rx_queue w queue = record w { conn = record (w.conn) { rx_queue = queue } }

-- `csp_conn_enqueue_packet`, on the connection of the world.
unfoldable pub enqueue : World → Option ℕ → Err × World
enqueue w packet =
    let (e, queue') = push rxqueue_len w.conn.rx_queue packet in
    elim e [ ok ↦ (Err.none, with_rx_queue w queue') | _ ↦ (Err.nomem, count_ovf w) ]

-- `csp_rdp_receive_data`
unfoldable pub receive_data : World → ℕ → Err × World
receive_data w packet =
    let (e, w') = enqueue (change_packet w packet header_remove) (some packet) in
    if is_ok e then (Err.none, w') else (Err.nobufs, count_ovf w')

-- The number after the last one received in order.
abbrev pub next_nr : World → ℕ
next_nr w = (w.conn.rdp.rcv_cur + 1) % 2 ^ 16

abbrev pub advance : World → World
advance w = with_rdp w (record (w.conn.rdp) { rcv_cur = next_nr w })

unfoldable pub deliver : World → ℕ → World
deliver w packet =
    let (e, w') = receive_data w packet in
    advance (if is_ok e then w' else free_packet w' (some packet))

-- A round of the loop of `csp_rdp_rx_queue_flush`, for the packet that comes out of the queue: true
-- is the jump back to the front.
unfoldable pub flush_packet : World → ℕ → Bool × World
flush_packet w packet =
    if host_seq_nr (packet_at w packet) == next_nr w
    then (true, deliver w packet)
    else (false, queue_rx w packet)

abbrev pub has_room : World → Bool
has_room w = not (leb (rxqueue_len - length w.conn.rx_queue) 2)

-- The loop over `count` packets. The rest of the loop is an argument of a round.
unfoldable pub scan_packet : (World → Bool × World) → World → Option ℕ × World → Bool × World
scan_packet again w (none, w') = if has_room w then (false, w') else (false, w)
scan_packet again w (some packet, w') =
    let (delivered, next) = flush_packet w' packet in
    let rest = again next in
    if has_room w then (if delivered then (true, next) else rest) else (false, w)

unfoldable pub flush_scan : ℕ → World → Bool × World
flush_scan zero w = (false, w)
flush_scan (suc count) w = scan_packet (flush_scan count) w (dequeue_rx w)

-- The jumps to the front, on fuel.
unfoldable pub flush_fronts : ℕ → World → World
flush_fronts zero w = w
flush_fronts (suc fuel) w =
    let (delivered, w') = flush_scan (rx_size w.queues) w in
    let rest = flush_fronts fuel w' in if delivered then rest else w'

-- `csp_rdp_rx_queue_flush`; every jump to the front has taken a packet out of the queue.
unfoldable pub rx_queue_flush : World → World
rx_queue_flush w = flush_fronts (suc (rx_size w.queues)) w

-- The loop of `csp_rdp_seq_in_rx_queue`.
unfoldable pub seq_in_loop : ℕ → World → ℕ → Bool × World
seq_in_loop zero w seq_nr = (false, w)
seq_in_loop (suc count) w seq_nr =
    let (o, w') = dequeue_rx w in
    elim o [
      | none ↦ (false, w')
      | some packet ↦
          let next = queue_rx w' packet in
          let rest = seq_in_loop count next seq_nr in
          if host_seq_nr (packet_at next packet) == seq_nr then (true, next) else rest
    ]

-- `csp_rdp_rx_queue_add`
unfoldable pub rx_queue_add : World → ℕ → ℕ → Err × World
rx_queue_add w packet seq_nr =
    let (found, w') = seq_in_loop (rx_size w.queues) w seq_nr in
    if found then (Err.used, w') else (Err.none, queue_rx w' packet)

unfoldable pub should_ack : World → Bool
should_ack w =
    w.conn.rdp.delayed_acks == 0
    || (time_after w.now ((w.conn.rdp.ack_timestamp + w.conn.rdp.ack_timeout) % 2 ^ 32)
        || seq_after w.conn.rdp.rcv_cur
            ((w.conn.rdp.rcv_lsa + w.conn.rdp.ack_delay_count) % 2 ^ 16))

-- `CSP_CONN_RXQUEUE_LEN - size <= 2 * (int32_t)window_size`: a window of 2^31 or more is negative
-- there. The product is taken as exact where the source's overflows.
abbrev no_spare : World → Bool
no_spare w =
    ltb w.conn.rdp.window_size (2 ^ 31)
    && leb (rxqueue_len - length w.conn.rx_queue) (2 * w.conn.rdp.window_size)

-- `csp_rdp_check_ack`
unfoldable pub check_ack : World → World
check_ack w =
    if no_spare w
    then w
    else if should_ack w
    then (send_cmp w none ack w.conn.rdp.snd_nxt w.conn.rdp.rcv_cur).1
    else w
