-- ===== src/Rdp/Machine.antt =====
-- src/csp_rdp.c: `csp_rdp_new_packet`, the state machine that every packet of a connection goes
-- through.
use libcsp.Core.{ℕ, ◌+◌, ◌-◌, ◌*◌, ◌%◌, ◌^◌, ◌==◌, leb, Bool, true, false, ◌||◌, ◌&&◌, not}
use libcsp.Core.{Option, none, some, bit_and, bit_or, if◌then◌else◌}
use libcsp.Core.Memory.{slice}
use libcsp.Core.Words.{of_be}
use libcsp.Packet.{Packet, is_ok, data_begin}
use libcsp.Conn.{
  RdpConn, RdpState, rdp_closed, syn_sent, syn_rcvd, rdp_open, close_wait, by_userspace,
  by_protocol, by_timeout, rxqueue_len,
}
use libcsp.Queue.Fifo.{ok, push}
use libcsp.Rdp.{Header, syn, ack, eak, rst, has, wire_header, to_host, header_length, seq_between}
use libcsp.Rdp.World.{World, with_rdp, free_packet, packet_at, change_packet, wake_tx}
use libcsp.Rdp.Control.{send_cmp}
use libcsp.Rdp.Close.{conn_close}
use libcsp.Rdp.Receive.{enqueue, receive_data, rx_queue_add, rx_queue_flush, check_ack, next_nr}

-- Where a branch of the function goes in the end: the labels `discard_close`, with `closed_by`;
-- `discard_open`, with `close_connection`; and `accepted_open`.
pub data Exit : Type 0 where
  discard_close : ℕ → Exit
  discard_open : Bool → Exit
  accepted_open : Exit

abbrev pub Handled : Type 0
Handled = Exit × World

abbrev pub is_set {ℓ} : {A : Type ℓ} → Option A → Bool
is_set none = false
is_set (some a) = true

-- A message without data, with `flags`.
abbrev pub tell : World → ℕ → World
tell w flags = (send_cmp w none flags w.conn.rdp.snd_nxt w.conn.rdp.rcv_cur).1

abbrev pub tell_syn_ack : World → World
tell_syn_ack w = (send_cmp w none (bit_or ack syn) w.conn.rdp.snd_iss w.conn.rdp.rcv_irs).1

abbrev pub store_ack : World → Header → World
store_ack w h = with_rdp w (record (w.conn.rdp) { snd_una = (h.ack_nr + 1) % 2 ^ 16 })

abbrev pub stamp : World → World
stamp w = record w { conn = record (w.conn) { timestamp = w.now } }

-- A reset was received; CSP_USE_RDP_FAST_CLOSE is 1.
unfoldable pub on_reset_in_sequence : World → Header → Handled
on_reset_in_sequence w h =
    if h.seq_nr == next_nr w
    then (
      discard_close (bit_or by_protocol by_timeout),
      tell (stamp (with_rdp w (record (w.conn.rdp) { state = close_wait }))) (bit_or ack rst),
    )
    else (discard_open false, w)

-- In a state; the acknowledgment of the reset is stored already.
unfoldable pub on_reset_in : RdpState → World → Header → Handled
on_reset_in rdp_closed w h = (discard_open (is_set w.conn.dest_socket), w)
on_reset_in close_wait w h =
    (discard_close (if has h.flags ack then bit_or by_protocol by_timeout else by_protocol), w)
on_reset_in syn_sent w h = on_reset_in_sequence w h
on_reset_in syn_rcvd w h = on_reset_in_sequence w h
on_reset_in rdp_open w h = on_reset_in_sequence w h

unfoldable pub on_reset : World → Header → Handled
on_reset w h = on_reset_in w.conn.rdp.state (if has h.flags ack then store_ack w h else w) h

-- `be32toh(packet->data32[i])`
abbrev pub data32 : Packet → ℕ → ℕ
data32 p i = of_be 0 (slice p.mem (data_begin + 4 * i) 4)

-- The connection after a SYN, with the number `iss` that was drawn for it.
abbrev pub accept_syn : RdpConn → Header → Packet → ℕ → RdpConn
accept_syn rdp h p iss = record rdp {
  state = syn_rcvd;
  snd_iss = iss;
  snd_nxt = (iss + 1) % 2 ^ 16;
  snd_una = iss;
  rcv_cur = h.seq_nr;
  rcv_irs = h.seq_nr;
  rcv_lsa = h.seq_nr;
  window_size = data32 p 0;
  conn_timeout = data32 p 1;
  packet_timeout = data32 p 2;
  delayed_acks = data32 p 3;
  ack_timeout = data32 p 4;
  ack_delay_count = data32 p 5;
}

unfoldable pub on_closed : (ℕ → ℕ) → World → ℕ → Header → Handled
on_closed rand_r w packet h =
    if bit_and h.flags 0x0f == syn
    then (
      discard_open false,
      tell_syn_ack
          (with_rdp w (accept_syn w.conn.rdp h (packet_at w packet) (rand_r w.now % 2 ^ 16))),
    )
    else (discard_close by_protocol, tell w rst)

abbrev pub accept_syn_ack : RdpConn → Header → ℕ → RdpConn
accept_syn_ack rdp h now = record rdp {
  state = rdp_open;
  rcv_cur = h.seq_nr;
  rcv_irs = h.seq_nr;
  rcv_lsa = (h.seq_nr + 2 ^ 16 - 1) % 2 ^ 16;
  snd_una = (h.ack_nr + 1) % 2 ^ 16;
  ack_timestamp = now;
}

unfoldable pub on_syn_sent : World → Header → Handled
on_syn_sent w h =
    if has h.flags syn && has h.flags ack
    then (discard_open false, wake_tx (tell (with_rdp w (accept_syn_ack w.conn.rdp h w.now)) ack))
    else if has h.flags ack
    then (discard_open false, wake_tx (tell w rst))
    else (discard_close by_protocol, w)

-- The windows of numbers that are taken. A window is below 2^32, and the sums wrap around there and
-- at 2^16.
abbrev pub seq_ok : World → Header → Bool
seq_ok w h =
    seq_between h.seq_nr (next_nr w) ((w.conn.rdp.rcv_cur + w.conn.rdp.window_size * 2) % 2 ^ 16)

abbrev pub ack_ok : World → Header → Bool
ack_ok w h =
    seq_between h.ack_nr ((w.conn.rdp.snd_una + 2 ^ 34 - 1 - w.conn.rdp.window_size * 2) % 2 ^ 16)
      ((w.conn.rdp.snd_nxt + 2 ^ 16 - 1) % 2 ^ 16)

-- Data of an open connection, whose header has been taken note of.
abbrev pub after_data : World → Header → World
after_data w h =
    rx_queue_flush (check_ack (with_rdp w (record (w.conn.rdp) { rcv_cur = h.seq_nr })))

unfoldable pub take_data : World → ℕ → Header → Handled
take_data w packet h =
    let (e, w') = receive_data w packet in
    if is_ok e then (accepted_open, after_data w' h) else (discard_open false, w')

unfoldable pub keep_data : World → ℕ → Header → Handled
keep_data w packet h =
    let (e, w') = rx_queue_add w packet h.seq_nr in
    if is_ok e then (accepted_open, w') else (discard_open false, check_ack w')

unfoldable pub on_data : World → ℕ → Header → Handled
on_data w packet h =
    if has h.flags eak || leb (packet_at w packet).length header_length
    then (discard_open false, w)
    else if h.seq_nr == next_nr w
    then take_data w packet h
    else keep_data w packet h

-- The rest of the case, once the connection is known to be open.
unfoldable pub on_valid : World → ℕ → Header → Handled
on_valid w packet h =
    on_data (store_ack (if is_set w.conn.dest_socket then w else stamp w) h) packet h

-- The first acknowledgment opens a connection and puts it into the queue of its socket, if it has
-- one; true if there is room for it. The queue is a `csp_listen` queue.
unfoldable pub give_to_socket : World → Bool × World
give_to_socket w =
    let opened = with_rdp w (record (w.conn.rdp) { state = rdp_open }) in
    let (e, queue) = push rxqueue_len w.accepted w.handle in
    let given = record opened {
      conn = record (opened.conn) { dest_socket = none };
      accepted = queue;
    } in
    elim (w.conn.dest_socket) [
      | none ↦ (true, opened)
      | some socket ↦ elim e [ ok ↦ (true, given) | _ ↦ (false, opened) ]
    ]

unfoldable pub on_first_ack : World → ℕ → Header → Handled
on_first_ack w packet h =
    let (given, w') = give_to_socket w in
    if h.ack_nr == w.conn.rdp.snd_iss
    then if given then on_valid w' packet h else (discard_close by_protocol, w')
    else (discard_close by_protocol, w)

abbrev pub is_syn_rcvd : RdpState → Bool
is_syn_rcvd s = elim s [ syn_rcvd ↦ true | _ ↦ false ]

-- The case for SYN_RCVD and OPEN.
unfoldable pub on_open : World → ℕ → Header → Handled
on_open w packet h =
    if has h.flags syn || not (has h.flags ack)
    then if h.seq_nr == w.conn.rdp.rcv_irs
      then (discard_open false, w)
      else (discard_close by_protocol, w)
    else if not (seq_ok w h)
    then (discard_open false, if is_syn_rcvd w.conn.rdp.state then tell_syn_ack w else w)
    else if not (ack_ok w h)
    then (discard_open false, w)
    else if is_syn_rcvd w.conn.rdp.state
    then on_first_ack w packet h
    else on_valid w packet h

unfoldable pub on_close_wait : World → Header → Handled
on_close_wait w h =
    if has h.flags syn || not (has h.flags ack)
    then (discard_open false, w)
    else if not (ack_ok w h)
    then (discard_open false, w)
    else (discard_open false, tell (store_ack w h) (bit_or ack rst))

-- The switch.
unfoldable pub dispatch_in : RdpState → (ℕ → ℕ) → World → ℕ → Header → Handled
dispatch_in rdp_closed rand_r w packet h = on_closed rand_r w packet h
dispatch_in syn_sent rand_r w packet h = on_syn_sent w h
dispatch_in syn_rcvd rand_r w packet h = on_open w packet h
dispatch_in rdp_open rand_r w packet h = on_open w packet h
dispatch_in close_wait rand_r w packet h = on_close_wait w h

unfoldable pub dispatch : (ℕ → ℕ) → World → ℕ → Header → Handled
dispatch rand_r w packet h =
    if has h.flags rst then on_reset w h else dispatch_in w.conn.rdp.state rand_r w packet h

-- A connection that user space has is woken by a NULL packet; any other is closed for it.
unfoldable pub close_for : Option ℕ → World → ℕ → World
close_for none w closed_by = (enqueue (conn_close w closed_by) none).1
close_for (some socket) w closed_by = conn_close w (bit_or closed_by by_userspace)

unfoldable pub close_after : World → ℕ → World
close_after w closed_by = close_for w.conn.dest_socket w closed_by

-- The labels.
unfoldable pub leave : ℕ → Handled → Bool × World
leave packet (discard_close closed_by, w) =
    (false, free_packet (close_after w closed_by) (some packet))
leave packet (discard_open close_connection, w) = (close_connection, free_packet w (some packet))
leave packet (accepted_open, w) = (false, w)

unfoldable pub new_packet : (ℕ → ℕ) → World → ℕ → Bool × World
new_packet rand_r w packet =
    leave packet
      (dispatch rand_r (change_packet w packet to_host) packet (wire_header (packet_at w packet)))
