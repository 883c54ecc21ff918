-- ===== src/RdpQueue.antt =====
-- src/csp_rdp_queue.c: the queues that all RDP connections share.
pub mod Flush
pub mod Search
pub mod Size
mod Tests
use libcsp.Core.{
  Bool, true, false, ℕ, zero, suc, ◌==◌, if◌then◌else◌, List, [], ◌∷◌, ◌++◌, Option, none, some,
  length,
}
use libcsp.Queue.Fifo.{Status, ok, full, empty, push, pop}

-- A packet in a queue: the number of its buffer, and the connection in its field `conn`.
pub record Queued : Type 0 where
  pub buffer : ℕ
  pub conn : ℕ

-- 2 * CSP_RDP_MAX_WINDOW
abbrev pub queue_length : ℕ
queue_length = 10

-- A queue of packets, oldest first, and the buffers that were freed, in order.
pub record Shared : Type 0 where
  pub queue : List Queued
  pub freed : List ℕ

abbrev free_buffer : Shared → Queued → Shared
free_buffer s packet = record s { freed = s.freed ++ (packet.buffer ∷ []) }

-- `csp_queue_enqueue`, by the queue's contract.
unfoldable pub enqueue_shared : Shared → Queued → Status × Shared
enqueue_shared s packet =
    let (e, queue') = push queue_length s.queue packet in (e, record s { queue = queue' })

-- `csp_rdp_queue_add`
unfoldable pub queue_add : Shared → ℕ → Queued → Shared
queue_add s conn packet =
    let owned = record packet { conn = conn } in
    let (e, s') = enqueue_shared s owned in elim e [ ok ↦ s' | _ ↦ free_buffer s owned ]

-- One packet, taken out of the queue, is freed or put back; false is the `break`.
pub flush_round : Shared → Queued → ℕ → Bool × Shared
flush_round popped packet conn =
    let (e, back) = enqueue_shared popped packet in
    if conn == packet.conn
    then (true, free_buffer popped packet)
    else elim e [ ok ↦ (true, back) | _ ↦ (false, popped) ]

-- The loop of `__csp_rdp_queue_flush`, `size` rounds.
pub flush_loop : ℕ → Shared → ℕ → Shared
flush_loop zero s conn = s
flush_loop (suc size) s conn = elim (s.queue) [
  | [] ↦ s
  | packet ∷ queue' ↦
      let (go, next) = flush_round (record s { queue = queue' }) packet conn in
      let rest = flush_loop size next conn in if go then rest else next
]

pub flush_one : Shared → ℕ → Shared
unfolding flush_loop
flush_one s conn = flush_loop (length s.queue) s conn

-- The loop of `csp_rdp_queue_get`, `size` rounds.
unfoldable pub get_loop : ℕ → Shared → ℕ → Option Queued × Shared
get_loop zero s conn = (none, s)
get_loop (suc size) s conn = elim (s.queue) [
  | [] ↦ (none, s)
  | packet ∷ queue' ↦
      let popped = record s { queue = queue' } in
      let rest = get_loop size (queue_add popped conn packet) conn in
      if packet.conn == conn then (some packet, popped) else rest
]

unfoldable pub queue_get : Shared → ℕ → Option Queued × Shared
unfolding get_loop
queue_get s conn = get_loop (length s.queue) s conn

-- The two queues, `tx_queue` and `rx_queue`.
pub record RdpQueues : Type 0 where
  pub tx : Shared
  pub rx : Shared

-- `csp_queue_empty` drops the packets without freeing them.
abbrev pub drop_all : Shared → Shared
drop_all s = record s { queue = [] }

-- `csp_rdp_queue_flush`; no connection is `none`.
unfoldable pub queue_flush : RdpQueues → Option ℕ → RdpQueues
unfolding flush_one
queue_flush qs none = record { tx = drop_all qs.tx; rx = drop_all qs.rx }
queue_flush qs (some conn) = record { tx = flush_one qs.tx conn; rx = flush_one qs.rx conn }

unfoldable pub tx_size : RdpQueues → ℕ
tx_size qs = length qs.tx.queue

unfoldable pub rx_size : RdpQueues → ℕ
rx_size qs = length qs.rx.queue

unfoldable pub tx_add : RdpQueues → ℕ → Queued → RdpQueues
unfolding queue_add
tx_add qs conn packet = record qs { tx = queue_add qs.tx conn packet }

unfoldable pub rx_add : RdpQueues → ℕ → Queued → RdpQueues
unfolding queue_add
rx_add qs conn packet = record qs { rx = queue_add qs.rx conn packet }

unfoldable pub tx_get : RdpQueues → ℕ → Option Queued × RdpQueues
unfolding queue_get
tx_get qs conn = let (out, s) = queue_get qs.tx conn in (out, record qs { tx = s })

unfoldable pub rx_get : RdpQueues → ℕ → Option Queued × RdpQueues
unfolding queue_get
rx_get qs conn = let (out, s) = queue_get qs.rx conn in (out, record qs { rx = s })

-- `csp_rdp_queue_init`
abbrev pub queue_init : RdpQueues
queue_init = record {
  tx = record { queue = []; freed = [] };
  rx = record { queue = []; freed = [] };
}
