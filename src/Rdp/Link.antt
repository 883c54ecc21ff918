-- ===== src/Rdp/Link.antt =====
-- src/csp_rdp.c: what user space calls, and the work at regular intervals.
use libcsp.Core.{ℕ, zero, suc, ◌+◌, ◌-◌, ◌%◌, ◌^◌, ◌==◌, Bool, true, false, ◌||◌, ◌&&◌, not}
use libcsp.Core.{List, [], ◌∷◌, Option, none, some, if◌then◌else◌, bit_or}
use libcsp.Core.Memory.{write_at}
use libcsp.Packet.{Packet, Err, frdp}
use libcsp.Buffer.{buffer_get, buffer_clone, buffer_copy}
use libcsp.Conn.{
  Conn, RdpConn, RdpState, rdp_closed, syn_sent, rdp_open, close_wait, by_protocol, by_timeout,
  by_all,
}
use libcsp.RdpQueue.{queue_flush, tx_size}
use libcsp.Rdp.{ack, has, header_add, header_begin, wire_header, be16, seq_before, seq_after}
use libcsp.Rdp.{time_after}
use libcsp.Rdp.World.{
  World, with_rdp, with_buffers, free_packet, queue_tx, dequeue_tx, settle, packet_at,
  change_packet, send_direct, wake_tx,
}
use libcsp.Rdp.Control.{Settings, send_syn}
use libcsp.Rdp.Close.{close_internal, conn_close}
use libcsp.Rdp.Receive.{check_ack, rx_queue_flush}

-- `csp_rdp_is_conn_ready_for_tx`. The window is below 2^32, and the sum wraps around there and at
-- 2^16.
unfoldable pub is_ready : World → Bool
is_ready w = not (
    seq_after w.conn.rdp.snd_nxt
      ((w.conn.rdp.snd_una + w.conn.rdp.window_size + 2 ^ 32 - 1) % 2 ^ 16))

-- `csp_rdp_send` with the packet and its header: a copy stays in the queue.
unfoldable pub send_copy : World → Option ℕ → Err × World
send_copy w none = (Err.nomem, w)
send_copy w (some copy) =
    let w' = queue_tx (change_packet w copy (λ p. record p { timestamp_tx = w.now })) copy in
    (
      Err.none,
      with_rdp w' (record (w'.conn.rdp) {
        snd_nxt = (w'.conn.rdp.snd_nxt + 1) % 2 ^ 16;
        ack_timestamp = w'.now;
      }),
    )

unfoldable pub send_numbered : World → ℕ → Option Packet → Err × World
send_numbered w packet none = (Err.nomem, w)
send_numbered w packet (some p) =
    let w' = change_packet w packet (λ q. p) in
    let (copy, buffers') = buffer_clone w'.buffers packet in
    send_copy (with_buffers w' buffers') copy

unfoldable pub send_ready : World → ℕ → Err × World
send_ready w packet = send_numbered w packet (
    header_add (packet_at w packet)
      (record { flags = ack; seq_nr = w.conn.rdp.snd_nxt; ack_nr = w.conn.rdp.rcv_cur }))

abbrev pub is_closing : RdpState → Bool
is_closing s = elim s [ close_wait ↦ true | rdp_closed ↦ true | _ ↦ false ]

-- The wait for the window. The list holds the worlds that the rounds of the loop find, after the
-- other tasks have run; `none` is a wait that has not ended.
unfoldable pub send_waiting : List World → ℕ → Option (Err × World)
send_waiting [] packet = none
send_waiting (w ∷ later) packet =
    let rest = send_waiting later packet in
    if is_closing w.conn.rdp.state
    then some (Err.reset, w)
    else if is_ready w
    then some (send_ready w packet)
    else rest

abbrev pub is_rdp_open : RdpState → Bool
is_rdp_open s = elim s [ rdp_open ↦ true | _ ↦ false ]

-- `csp_rdp_send`
unfoldable pub rdp_send : World → List World → ℕ → Option (Err × World)
rdp_send w later packet =
    if is_rdp_open w.conn.rdp.state then send_waiting (w ∷ later) packet else some (Err.reset, w)

abbrev pub apply_settings : RdpConn → Settings → ℕ → RdpConn
apply_settings rdp s now = record rdp {
  window_size = s.window_size;
  conn_timeout = s.conn_timeout;
  packet_timeout = s.packet_timeout;
  delayed_acks = s.delayed_acks;
  ack_timeout = s.ack_timeout;
  ack_delay_count = s.ack_delay_count;
  ack_timestamp = now;
}

abbrev pub fail_connect : World → Err × World
fail_connect w = (Err.timedout, (close_internal w by_protocol false).1)

abbrev pub start_connect : World → ℕ → World
start_connect w iss = with_rdp w (record (w.conn.rdp) {
  snd_iss = iss;
  snd_nxt = (iss + 1) % 2 ^ 16;
  snd_una = iss;
  tx_wait = false;
  state = syn_sent;
})

abbrev pub flush_queues : World → World
flush_queues w = settle w (queue_flush w.queues (some w.handle))

-- What follows a wait; the last argument is what trying again gives.
unfoldable pub after_wait : ℕ → Bool × World → Err × World → Err × World
after_wait retry (false, w) again = fail_connect w
after_wait retry (true, w) again = elim (w.conn.rdp.state) [
  | rdp_open ↦ (Err.none, w)
  | syn_sent ↦ elim retry [ zero ↦ fail_connect w | suc n ↦ again ]
  | _ ↦ fail_connect w
]

unfoldable pub after_syn :
    (World → Bool × World) → ℕ → Err × World → (World → Err × World) → Err × World
after_syn wait retry (Err.none, w) again =
    after_wait retry (wait w) (again (flush_queues (wait w).1))
after_syn wait retry (e, w) again = fail_connect w

-- The rest of `csp_rdp_connect` from the label `retry`, with `retry` as fuel. The function `wait`
-- gives, for each wait, whether the semaphore was released and the world then.
unfoldable pub connect_try : (ℕ → ℕ) → Settings → (World → Bool × World) → ℕ → World → Err × World
connect_try rand_r s wait zero w = elim (w.conn.rdp.state) [
  | rdp_open ↦ (Err.already, w)
  | _ ↦ after_syn wait 0 (send_syn (start_connect w (rand_r w.now % 2 ^ 16)) s) fail_connect
]
connect_try rand_r s wait (suc retry) w = elim (w.conn.rdp.state) [
  | rdp_open ↦ (Err.already, w)
  | _ ↦
      after_syn wait (suc retry) (send_syn (start_connect w (rand_r w.now % 2 ^ 16)) s)
        (connect_try rand_r s wait retry)
]

-- `csp_rdp_connect`
unfoldable pub rdp_connect : (ℕ → ℕ) → Settings → (World → Bool × World) → World → Err × World
rdp_connect rand_r s wait w =
    connect_try rand_r s wait 1 (with_rdp w (apply_settings w.conn.rdp s w.now))

-- `csp_rdp_conn_is_active`, and `csp_conn_is_active`
unfoldable pub rdp_is_active : Conn → ℕ → Bool
rdp_is_active c now =
    not (time_after now ((c.timestamp + c.rdp.conn_timeout) % 2 ^ 32) || is_closing c.rdp.state)

abbrev pub conn_is_active : Conn → ℕ → Bool
conn_is_active c now =
    if has c.idin.flags frdp || has c.idout.flags frdp then rdp_is_active c now else true

-- A packet in the queue of those sent that is sent again, if there is a buffer for it.
abbrev renew_ack : World → Packet → Packet
renew_ack w p = record p {
  timestamp_tx = w.now;
  mem = write_at p.mem (header_begin p + 3) (be16 w.conn.rdp.rcv_cur);
}

unfoldable pub resend : World → ℕ → World
resend w packet =
    let (o, buffers') = buffer_get w.buffers in
    let got = with_buffers w buffers' in
    elim o [
      | none ↦ got
      | some new ↦
          let timed = with_rdp got (record (got.conn.rdp) { ack_timestamp = w.now }) in
          let renewed = change_packet timed packet (renew_ack timed) in
          send_direct (with_buffers renewed (buffer_copy renewed.buffers packet (some new)))
            w.conn.idout new
    ]

-- A round of the loop over the packets sent.
unfoldable pub check_sent : World → ℕ → World
check_sent w packet =
    if seq_before (wire_header (packet_at w packet)).seq_nr w.conn.rdp.snd_una
    then free_packet w (some packet)
    else if time_after w.now
        (((packet_at w packet).timestamp_tx + w.conn.rdp.packet_timeout) % 2 ^ 32)
    then queue_tx (resend w packet) packet
    else queue_tx w packet

unfoldable pub check_sent_all : ℕ → World → World
check_sent_all zero w = w
check_sent_all (suc count) w =
    let (o, w') = dequeue_tx w in
    elim o [ none ↦ w' | some packet ↦ check_sent_all count (check_sent w' packet) ]

unfoldable pub check_open : World → World
check_open w =
    let acked = if w.conn.rdp.delayed_acks == 0 then w else check_ack w in
    let woken = if is_ready acked then wake_tx acked else acked in
    if is_rdp_open w.conn.rdp.state then woken else w

abbrev pub timed_out : World → Bool
timed_out w = time_after w.now ((w.conn.timestamp + w.conn.rdp.conn_timeout) % 2 ^ 32)

abbrev pub is_close_wait : RdpState → Bool
is_close_wait s = elim s [ close_wait ↦ true | _ ↦ false ]

abbrev pub has_socket : Conn → Bool
has_socket c = elim (c.dest_socket) [ none ↦ false | some socket ↦ true ]

-- `csp_rdp_check_timeouts`
unfoldable pub check_timeouts : World → World
check_timeouts w =
    if has_socket w.conn && timed_out w
    then conn_close w by_all
    else if is_close_wait w.conn.rdp.state && timed_out w
    then conn_close w (bit_or by_protocol by_timeout)
    else rx_queue_flush (check_open (check_sent_all (tx_size w.queues) w))
