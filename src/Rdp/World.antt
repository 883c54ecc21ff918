-- ===== src/Rdp/World.antt =====
-- src/csp_rdp.c: what its functions read and write for one connection.
use libcsp.Core.{ℕ, ◌+◌, ◌%◌, ◌^◌, true, List, [], ◌∷◌, ◌++◌, Option, none, some}
use libcsp.Packet.{Packet, CspId}
use libcsp.Buffer.{Buffers, buffer_free, packet_of, store_packet, free_all}
use libcsp.Conn.{Conn, RdpConn}
use libcsp.RdpQueue.{RdpQueues, Queued, rx_get, rx_add, tx_get, tx_add}

-- The connection with its index, `handle`; the queues of all connections; the pool of buffers; the
-- packets given to `csp_send_direct` with the identifier, in order; the connections in the queue of
-- the socket; `csp_rdp_incr`, `csp_dbg_conn_ovf`; and the time, which `csp_get_ms` gives all
-- through one call.
pub record World : Type 0 where
  pub handle : ℕ
  pub conn : Conn
  pub queues : RdpQueues
  pub buffers : Buffers
  pub sent : List (CspId × Packet)
  pub accepted : List ℕ
  pub incr : ℕ
  pub conn_ovf : ℕ
  pub now : ℕ

abbrev pub with_rdp : World → RdpConn → World
with_rdp w rdp = record w { conn = record (w.conn) { rdp = rdp } }

abbrev pub with_buffers : World → Buffers → World
with_buffers w buffers = record w { buffers = buffers }

abbrev pub free_packet : World → Option ℕ → World
free_packet w packet = with_buffers w (buffer_free w.buffers packet)

-- The functions of the shared queues, on a packet by the number of its buffer. The buffers that a
-- queue frees go back to the pool at once.
abbrev without_freed : RdpQueues → RdpQueues
without_freed qs = record { tx = record (qs.tx) { freed = [] }; rx = record (qs.rx) { freed = [] } }

abbrev pub settle : World → RdpQueues → World
settle w qs = record w {
  queues = without_freed qs;
  buffers = free_all w.buffers (qs.tx.freed ++ qs.rx.freed);
}

abbrev pub queue_rx : World → ℕ → World
queue_rx w packet =
    settle w (rx_add w.queues w.handle (record { buffer = packet; conn = w.handle }))

abbrev pub queue_tx : World → ℕ → World
queue_tx w packet =
    settle w (tx_add w.queues w.handle (record { buffer = packet; conn = w.handle }))

abbrev pub number_of : Option Queued → Option ℕ
number_of none = none
number_of (some q) = some q.buffer

abbrev pub dequeue_rx : World → Option ℕ × World
dequeue_rx w = let (o, qs) = rx_get w.queues w.handle in (number_of o, settle w qs)

abbrev pub dequeue_tx : World → Option ℕ × World
dequeue_tx w = let (o, qs) = tx_get w.queues w.handle in (number_of o, settle w qs)

abbrev pub packet_at : World → ℕ → Packet
packet_at w i = packet_of w.buffers i

abbrev pub change_packet : World → ℕ → (Packet → Packet) → World
change_packet w i f = with_buffers w (store_packet w.buffers i (f (packet_of w.buffers i)))

-- `csp_send_direct`, which the packet is handed over to.
abbrev pub send_direct : World → CspId → ℕ → World
send_direct w idout packet = record w { sent = w.sent ++ ((idout, packet_at w packet) ∷ []) }

abbrev pub count_ovf : World → World
count_ovf w = record w { conn_ovf = (w.conn_ovf + 1) % 2 ^ 8 }

-- `csp_bin_sem_post`
abbrev pub wake_tx : World → World
wake_tx w = with_rdp w (record (w.conn.rdp) { tx_wait = true })
