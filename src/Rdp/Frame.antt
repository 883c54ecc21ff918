-- ===== src/Rdp/Frame.antt =====
-- What the helpers of src/csp_rdp.c leave alone in a connection.
use libcsp.Core.{ℕ, zero, suc, ◌≡◌, refl, ap, arith, Bool, Bool-cases, List}
use libcsp.Core.{inl, inr, Option, none, some, Option-cases}
use libcsp.Packet.{Packet, CspId}
use libcsp.Buffer.{buffer_get, buffer_clone}
use libcsp.Conn.{RdpState, ConnState}
use libcsp.Rdp.{syn, ack, has}
use libcsp.Rdp.World.{World, with_buffers, dequeue_rx}
use libcsp.Rdp.Control.{send_copied, send_headed, send_control, send_packet, send_cmp}
use libcsp.Rdp.Receive.{
  check_ack, enqueue, receive_data, deliver, flush_packet, scan_packet, flush_scan, flush_fronts,
  rx_queue_flush, seq_in_loop, rx_queue_add,
}

-- The parts of a world that only the state machine itself changes.
pub record Standing : Type 0 where
  pub state : RdpState
  pub closed_by : ℕ
  pub conn_state : ConnState
  pub dest_socket : Option ℕ
  pub numbers : ℕ × ℕ × ℕ
  pub irs : ℕ
  pub ids : CspId × CspId

abbrev pub status : World → Standing
status w = record {
  state = w.conn.rdp.state;
  closed_by = w.conn.rdp.closed_by;
  conn_state = w.conn.state;
  dest_socket = w.conn.dest_socket;
  numbers = (w.conn.rdp.snd_nxt, w.conn.rdp.snd_una, w.conn.rdp.snd_iss);
  irs = w.conn.rdp.rcv_irs;
  ids = (w.conn.idin, w.conn.idout);
}

-- And what has been received: the queue for user space, and the last number.
abbrev pub kept : World → Standing × (List (Option ℕ) × ℕ)
kept w = (status w, (w.conn.rx_queue, w.conn.rdp.rcv_cur))

send_copied-kept : (w : World) (i : ℕ) (o : Option ℕ) → kept (send_copied w i o).1 ≡ kept w
unfolding send_copied
send_copied-kept w i none = refl
send_copied-kept w i (some c) = refl

send_headed-kept : (w : World) (i f : ℕ) → kept (send_headed w i f).1 ≡ kept w
unfolding send_headed
send_headed-kept w i f = elim (Bool-cases (has f syn)) [
  | inl e ↦ rw e (
      send_copied-kept (with_buffers w (buffer_clone w.buffers i).1) i (buffer_clone w.buffers i).0)
  | inr e ↦ rw e refl
]

send_control-kept :
    (w : World) (i f : ℕ) (o : Option Packet) → kept (send_control w i f o).1 ≡ kept w
unfolding send_control
send_control-kept w i f none = refl
send_control-kept w i f (some p) = send_headed-kept _ i f

send_packet-kept : (w : World) (o : Option ℕ) (f s a : ℕ) → kept (send_packet w o f s a).1 ≡ kept w
unfolding send_packet
send_packet-kept w none f s a = refl
send_packet-kept w (some i) f s a = elim (Bool-cases (has f ack)) [
  | inl e ↦ rw e (send_control-kept _ i f _)
  | inr e ↦ rw e (send_control-kept _ i f _)
]

pub send_cmp-kept : (w : World) (o : Option ℕ) (f s a : ℕ) → kept (send_cmp w o f s a).1 ≡ kept w
unfolding send_cmp
send_cmp-kept w none f s a = elim (Option-cases (buffer_get w.buffers).0) [
  | inl e ↦ rw e (send_packet-kept _ none f s a)
  | inr (i, e) ↦ rw e (send_packet-kept _ (some i) f s a)
]
send_cmp-kept w (some i) f s a = send_packet-kept w (some i) f s a

pub check_ack-kept : (w : World) → kept (check_ack w) ≡ kept w
unfolding check_ack
check_ack-kept w = grind (arith, send_cmp-kept)

pub send_cmp-status :
    (w : World) (o : Option ℕ) (f s a : ℕ) → status (send_cmp w o f s a).1 ≡ status w
send_cmp-status w o f s a = ap (λ t. t.0) (send_cmp-kept w o f s a)

pub check_ack-status : (w : World) → status (check_ack w) ≡ status w
check_ack-status w = ap (λ t. t.0) (check_ack-kept w)

pub enqueue-status : (w : World) (o : Option ℕ) → status (enqueue w o).1 ≡ status w
unfolding enqueue
enqueue-status w o = ground arith

pub receive_data-status : (w : World) (i : ℕ) → status (receive_data w i).1 ≡ status w
unfolding receive_data
receive_data-status w i = grind (arith, enqueue-status)

pub deliver-status : (w : World) (i : ℕ) → status (deliver w i) ≡ status w
unfolding deliver
deliver-status w i = grind (arith, receive_data-status)

flush_packet-status : (w : World) (i : ℕ) → status (flush_packet w i).1 ≡ status w
unfolding flush_packet
flush_packet-status w i = grind (arith, deliver-status)

scan_packet-status :
    (again : World → Bool × World) (w : World) (p : Option ℕ × World)
    → ((v : World) → status (again v).1 ≡ status v)
    → status p.1 ≡ status w
    → status (scan_packet again w p).1 ≡ status w
unfolding scan_packet
scan_packet-status again w (none, w') h e = grind (arith, e)
scan_packet-status again w (some i, w') h e = grind (arith, e, h, flush_packet-status)

flush_scan-status : (n : ℕ) (w : World) → status (flush_scan n w).1 ≡ status w
unfolding flush_scan
flush_scan-status zero w = refl
flush_scan-status (suc n) w =
    scan_packet-status (flush_scan n) w (dequeue_rx w) (flush_scan-status n) refl

flush_fronts-status : (n : ℕ) (w : World) → status (flush_fronts n w) ≡ status w
unfolding flush_fronts
flush_fronts-status zero w = refl
flush_fronts-status (suc n) w = grind (arith, flush_scan-status, flush_fronts-status n)

pub rx_queue_flush-status : (w : World) → status (rx_queue_flush w) ≡ status w
unfolding rx_queue_flush
rx_queue_flush-status w = flush_fronts-status _ w

seq_in_loop-kept : (n : ℕ) (w : World) (s : ℕ) → kept (seq_in_loop n w s).1 ≡ kept w
unfolding seq_in_loop
seq_in_loop-kept zero w s = refl
seq_in_loop-kept (suc n) w s = elim (Option-cases (dequeue_rx w).0) [
  | inl e ↦ grind (arith, e)
  | inr (i, e) ↦ grind (arith, e, seq_in_loop-kept n)
]

pub rx_queue_add-kept : (w : World) (i s : ℕ) → kept (rx_queue_add w i s).1 ≡ kept w
unfolding rx_queue_add
rx_queue_add-kept w i s = grind (arith, seq_in_loop-kept)
