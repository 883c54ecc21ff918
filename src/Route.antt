-- ===== src/Route.antt =====
-- src/csp_route.c and src/csp_qfifo.c: the router, which takes packets from one queue.
pub mod Security
pub mod Work
pub mod Receiver
pub mod Fate
pub mod Protected
pub mod Bridge
mod Tests
use libcsp.Core.{
  ℕ, suc, ◌+◌, ◌%◌, ◌^◌, ◌==◌, Bool, true, false, List, [], ◌∷◌, ◌++◌, Option, none, some,
}
use libcsp.Core.{if◌then◌else◌, set}
use libcsp.Packet.{Packet, CspId, Err, is_ok, DbgErr, Iface}
use libcsp.Buffer.{buffer_free}
use libcsp.Conn.{Conn, Pool}
use libcsp.Dedup.{Dedup}
use libcsp.Io.{Node, release_packet, count_handle}
use libcsp.Port.{Ports}
use libcsp.Queue.Fifo.{Status, ok, push, pop}
use libcsp.RdpQueue.{RdpQueues}
use libcsp.Rdp.World.{World}

-- CSP_QFIFO_LEN
abbrev pub qfifo_len : ℕ
qfifo_len = 15

-- `csp_qfifo_t`, with `none` for NULL.
pub record Input : Type 0 where
  pub iface : Option ℕ
  pub packet : Option ℕ

-- `csp_conf.dedup`
pub data DedupMode : Type 0 where
  dedup_off dedup_fwd dedup_incoming dedup_all : DedupMode

-- What the router reads and writes: the node's interfaces and buffers; the connections, ports and
-- the queues of RDP; the options and the queue of each socket, by its number; `called`, the callbacks
-- run, with their packets; and the packets that RDP gave to `csp_send_direct`, which are not followed
-- from there.
pub record Router : Type 0 where
  pub node : Node
  pub qfifo : List Input
  pub pool : Pool
  pub ports : Ports
  pub queues : RdpQueues
  pub socket_opts : ℕ → ℕ
  pub socket_queue : ℕ → List ℕ
  pub dedup : Dedup
  pub dedup_mode : DedupMode
  pub called : List (ℕ × ℕ)
  pub sent : List (CspId × Packet)
  pub incr : ℕ
  pub now : ℕ
  pub errno : Option DbgErr

abbrev pub with_node : Router → Node → Router
with_node r node = record r { node = node }

abbrev pub drop_packet : Router → ℕ → Router
drop_packet r packet = with_node r (release_packet r.node packet)

abbrev pub count_ovf : Router → Router
count_ovf r = with_node r (record (r.node) { conn_ovf = (r.node.conn_ovf + 1) % 2 ^ 8 })

-- `csp_qfifo_read`
abbrev pub qfifo_read : Router → Option Input × Router
qfifo_read r = let (e, o, queue) = pop r.qfifo in (o, record r { qfifo = queue })

-- `csp_qfifo_write`
unfoldable pub qfifo_write : Router → Option ℕ → Option ℕ → Router
qfifo_write r none iface = record r { errno = some DbgErr.invalid_pointer }
qfifo_write r (some packet) none =
    drop_packet (record r { errno = some DbgErr.invalid_pointer }) packet
qfifo_write r (some packet) (some iface) =
    let (e, queue) = push qfifo_len r.qfifo (record { iface = some iface; packet = some packet }) in
    let full =
      drop_packet
        (with_node (count_ovf r) (
          count_handle (count_ovf r).node iface
            (λ i. record i { tx_error = (i.tx_error + 1) % 2 ^ 32 })))
        packet in
    elim e [ ok ↦ record r { qfifo = queue } | _ ↦ full ]

-- `csp_qfifo_wake_up`
abbrev pub qfifo_wake_up : Router → Router
qfifo_wake_up r =
    let (e, queue) = push qfifo_len r.qfifo (record { iface = none; packet = none }) in
    record r { qfifo = queue }

-- The queue of a socket with another item.
abbrev pub set_queue : (ℕ → List ℕ) → ℕ → List ℕ → ℕ → List ℕ
set_queue queues s queue k = if k == s then queue else queues k

-- A connection of RDP with what it shares, and the router after a function of RDP.
abbrev accepted_of : Router → Option ℕ → List ℕ
accepted_of r none = []
accepted_of r (some s) = r.socket_queue s

abbrev pub enter : Router → ℕ → Conn → World
enter r i c = record {
  handle = i;
  conn = c;
  queues = r.queues;
  buffers = r.node.buffers;
  sent = [];
  accepted = accepted_of r c.dest_socket;
  incr = r.incr;
  conn_ovf = r.node.conn_ovf;
  now = r.now;
}

abbrev return_queue : Router → Option ℕ → List ℕ → ℕ → List ℕ
return_queue r none queue = r.socket_queue
return_queue r (some s) queue = set_queue r.socket_queue s queue

-- `socket` is the one that the connection had before.
abbrev pub exit_to : Router → Option ℕ → World → Router
exit_to r socket w = record r {
  node = record (r.node) { buffers = w.buffers; conn_ovf = w.conn_ovf };
  pool = record (r.pool) { conns = set r.pool.conns w.handle w.conn };
  queues = w.queues;
  socket_queue = return_queue r socket w.accepted;
  sent = r.sent ++ w.sent;
  incr = w.incr;
}
