-- ===== src/Rdp/Early.antt =====
-- What the helpers of src/csp_rdp.c leave alone in the queue of packets that came early.
use libcsp.Core.{ℕ, ◌≡◌, refl, arith}
use libcsp.Core.{Bool-cases, inl, inr}
use libcsp.Core.{List}
use libcsp.Core.{Option, Option-cases, none, some}
use libcsp.Packet.{Packet}
use libcsp.Buffer.{buffer_get, buffer_clone}
use libcsp.RdpQueue.{Queued, tx_add}
use libcsp.Rdp.{syn, ack, has}
use libcsp.Rdp.World.{World, with_buffers}
use libcsp.Rdp.Control.{send_copied, send_headed, send_control, send_packet, send_cmp}
use libcsp.Rdp.Receive.{enqueue, receive_data, deliver, check_ack}

-- The packets that came early, and the connection.
abbrev pub early : World → List Queued × ℕ
early w = (w.queues.rx.queue, w.handle)

pub receive_data-early : (w : World) (i : ℕ) → early (receive_data w i).1 ≡ early w
unfolding receive_data enqueue
receive_data-early w i = ground arith

pub deliver-early : (w : World) (i : ℕ) → early (deliver w i) ≡ early w
unfolding deliver
deliver-early w i = grind (arith, receive_data-early)

send_copied-early : (w : World) (i : ℕ) (o : Option ℕ) → early (send_copied w i o).1 ≡ early w
unfolding send_copied tx_add
send_copied-early w i none = refl
send_copied-early w i (some c) = refl

send_headed-early : (w : World) (i f : ℕ) → early (send_headed w i f).1 ≡ early w
unfolding send_headed
send_headed-early w i f = elim (Bool-cases (has f syn)) [
  | inl e ↦ rw e (
      send_copied-early (with_buffers w (buffer_clone w.buffers i).1) i
        (buffer_clone w.buffers i).0)
  | inr e ↦ rw e refl
]

send_control-early :
    (w : World) (i f : ℕ) (o : Option Packet) → early (send_control w i f o).1 ≡ early w
unfolding send_control
send_control-early w i f none = refl
send_control-early w i f (some p) = send_headed-early _ i f

send_packet-early :
    (w : World) (o : Option ℕ) (f s a : ℕ) → early (send_packet w o f s a).1 ≡ early w
unfolding send_packet
send_packet-early w none f s a = refl
send_packet-early w (some i) f s a = elim (Bool-cases (has f ack)) [
  | inl e ↦ rw e (send_control-early _ i f _)
  | inr e ↦ rw e (send_control-early _ i f _)
]

send_cmp-early : (w : World) (o : Option ℕ) (f s a : ℕ) → early (send_cmp w o f s a).1 ≡ early w
unfolding send_cmp
send_cmp-early w none f s a = elim (Option-cases (buffer_get w.buffers).0) [
  | inl e ↦ rw e (send_packet-early _ none f s a)
  | inr (i, e) ↦ rw e (send_packet-early _ (some i) f s a)
]
send_cmp-early w (some i) f s a = send_packet-early w (some i) f s a

pub check_ack-early : (w : World) → early (check_ack w) ≡ early w
unfolding check_ack
check_ack-early w = grind (arith, send_cmp-early)
