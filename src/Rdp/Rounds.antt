-- ===== src/Rdp/Rounds.antt =====
-- The number of rounds of `csp_rdp_rx_queue_flush` of src/csp_rdp.c.
use libcsp.Core.{ℕ, zero, suc, ◌≤◌, ◌<◌, ◌==◌, ◌≡◌, refl, ap, arith, Bool, true, false}
use libcsp.Core.{if◌then◌else◌, length, Option, none, some}
use libcsp.RdpQueue.{Queued, Shared, rx_size, rx_get, queue_get}
use libcsp.RdpQueue.Size.{Shrinks, queue_get-Shrinks, rx_size-rx_add}
use libcsp.Rdp.{host_seq_nr}
use libcsp.Rdp.World.{World, packet_at, dequeue_rx, queue_rx, number_of, settle}
use libcsp.Rdp.States.{if-both}
use libcsp.Rdp.Receive.{
  enqueue, receive_data, deliver, has_room, flush_packet, scan_packet, flush_scan, flush_fronts,
  rx_queue_flush, next_nr,
}

abbrev size : World → ℕ
size w = rx_size w.queues

receive_data-queues : (w : World) (i : ℕ) → (receive_data w i).1.queues ≡ w.queues
unfolding receive_data enqueue
receive_data-queues w i = ground arith

deliver-queues : (w : World) (i : ℕ) → (deliver w i).queues ≡ w.queues
unfolding deliver
deliver-queues w i = grind (arith, receive_data-queues)

-- A packet that comes out of the queue leaves one less.
abbrev Taken : ℕ → Option ℕ × World → Type 0
Taken n (none, w) = size w ≤ n
Taken n (some i, w) = suc (size w) ≤ n

dequeue_rx-Taken : (w : World) → Taken (size w) (dequeue_rx w)
unfolding rx_size rx_get
dequeue_rx-Taken w =
    by_result (queue_get w.queues.rx w.handle) (queue_get-Shrinks w.queues.rx w.handle)
  where
    by_result :
        (out : Option Queued × Shared)
        → Shrinks (length w.queues.rx.queue) out
        → Taken
            (length w.queues.rx.queue)
            (number_of out.0, settle w (record (w.queues) { rx = out.1 }))
    by_result (none, s) h = h
    by_result (some q, s) h = h

size-queue_rx : (w : World) (i : ℕ) → size (queue_rx w i) ≤ suc (size w)
unfolding rx_size
size-queue_rx w i = rx_size-rx_add w.queues w.handle (record { buffer = i; conn = w.handle })

-- A scan that has delivered a packet leaves one less, any other no more than there were.
abbrev pub Scans : ℕ → Bool × World → Type 0
Scans n (b, w) = if b then suc (size w) ≤ n else size w ≤ n

more-Scans : (m n : ℕ) (out : Bool × World) → m ≤ n → Scans m out → Scans n out
more-Scans m n (true, w) h s = omega arith
more-Scans m n (false, w) h s = omega arith

flush_packet-number :
    (w : World) (i : ℕ)
    → if (flush_packet w i).0
      then size (flush_packet w i).1 ≤ size w
      else size (flush_packet w i).1 ≤ suc (size w)
unfolding flush_packet
flush_packet-number w i =
    if-both
      (λ (out : Bool × World). if out.0 then size out.1 ≤ size w else size out.1 ≤ suc (size w))
      (host_seq_nr (packet_at w i) == next_nr w) _ _
      (λ c. omega (arith, ap (λ q. rx_size q) (deliver-queues w i))) (λ c. size-queue_rx w i)

scan_packet-Scans :
    (again : World → Bool × World) (w : World) (p : Option ℕ × World)
    → ((v : World) → Scans (size v) (again v))
    → Taken (size w) p
    → Scans (size w) (scan_packet again w p)
unfolding scan_packet
scan_packet-Scans again w (none, w') h t =
    if-both (Scans (size w)) (has_room w) _ _ (λ c. t) (λ c. omega arith)
scan_packet-Scans again w (some i, w') h t =
    if-both (Scans (size w)) (has_room w) _ _
      (λ room. by_number (flush_packet w' i) (flush_packet-number w' i)) (λ c. omega arith)
  where
    by_number :
        (out : Bool × World)
        → (if out.0 then size out.1 ≤ size w' else size out.1 ≤ suc (size w'))
        → Scans (size w) (if out.0 then (true, out.1) else again out.1)
    by_number (true, v) l = omega arith
    by_number (false, v) l = more-Scans (size v) (size w) (again v) (omega arith) (h v)

pub flush_scan-Scans : (n : ℕ) (w : World) → Scans (size w) (flush_scan n w)
unfolding flush_scan
flush_scan-Scans zero w = omega arith
flush_scan-Scans (suc n) w =
    scan_packet-Scans (flush_scan n) w (dequeue_rx w) (flush_scan-Scans n) (dequeue_rx-Taken w)

-- More fuel than packets: the result does not depend on it.
flush_fronts-enough :
    (n m : ℕ) (w : World) → size w < n → size w < m → flush_fronts n w ≡ flush_fronts m w
unfolding flush_fronts
flush_fronts-enough zero m w h h' = absurd (omega arith)
flush_fronts-enough (suc n) zero w h h' = absurd (omega arith)
flush_fronts-enough (suc n) (suc m) w h h' =
    by_scan (flush_scan (size w) w) (flush_scan-Scans _ w)
      (λ l. flush_fronts-enough n m _ (omega arith) (omega arith))
  where
    by_scan :
        (out : Bool × World)
        → Scans (size w) out
        → (suc (size out.1) ≤ size w → flush_fronts n out.1 ≡ flush_fronts m out.1)
        → (if out.0 then flush_fronts n out.1 else out.1)
          ≡ (if out.0 then flush_fronts m out.1 else out.1)
    by_scan (true, v) s again = again s
    by_scan (false, v) s again = refl

-- The flush of the queue comes to an end: each jump to the front has taken a packet out of the queue
-- of packets that came early, so with one more round than the queue has packets, or any number above
-- that, the result is the same.
pub rx_queue_flush-enough :
    (w : World) (n : ℕ) → rx_size w.queues < n → flush_fronts n w ≡ rx_queue_flush w
unfolding rx_queue_flush
rx_queue_flush-enough w n h = flush_fronts-enough n (suc (size w)) w h (omega arith)
