-- ===== src/Io/Calls.antt =====
-- src/csp_io.c: the calls that applications make.
use libcsp.Core.{ℕ, ◌==◌, Bool, not, bit_or, ◌&&◌, List, [], ◌∷◌, Option, none, some}
use libcsp.Core.{if◌then◌else◌}
use libcsp.Packet.{
  Packet, CspId, Err, is_ok, DbgErr, Iface, fhmac, fcrc32, frdp, so_hmacreq, so_crc32req, so_rdpreq,
  so_conn_less,
}
use libcsp.Buffer.{packet_of, store_packet}
use libcsp.Conn.{option_set, is_open}
use libcsp.Id.{get_max_nodeid}
use libcsp.Port.{Socket}
use libcsp.Io.{Node, release_packet, set_buffers}
use libcsp.Io.Direct.{send_direct}
use libcsp.Rdp.{has}
use libcsp.Rdp.World.{World, free_packet, send_direct as hand_over}
use libcsp.Rdp.Receive.{check_ack}
use libcsp.Rdp.Link.{rdp_send}

-- `csp_accept` without waiting; NULL is `none`.
abbrev accept : Option Socket → Option ℕ × Option Socket
accept none = (none, none)
accept (some sock) = elim (sock.rx_queue) [
  | none ↦ (none, some sock)
  | some [] ↦ (none, some sock)
  | some (conn ∷ queue) ↦ (some conn, some (record sock { rx_queue = some queue }))
]

-- `csp_read` without waiting. A NULL in the queue is given out like an empty queue is.
abbrev after_read : World → World
after_read w =
    if has w.conn.idin.flags frdp && not (w.conn.rdp.delayed_acks == 0) then check_ack w else w

unfoldable pub csp_read : World → Option ℕ × World
csp_read w = if not (is_open w.conn) then (none, w) else elim (w.conn.rx_queue) [
  | [] ↦ (none, w)
  | packet ∷ queue ↦ (packet, after_read (record w { conn = record (w.conn) { rx_queue = queue } }))
]

-- `csp_send` on a connection; the result of waiting for the window is `none` while it goes on.
abbrev after_rdp : ℕ → Err × World → World
after_rdp packet (e, w) =
    if is_ok e then hand_over w w.conn.idout packet else free_packet w (some packet)

unfoldable pub csp_send : World → List World → ℕ → Option World
csp_send w later packet =
    if not (is_open w.conn)
    then some (free_packet w (some packet))
    else if has w.conn.idout.flags frdp
    then elim (rdp_send w later packet) [ none ↦ none | some out ↦ some (after_rdp packet out) ]
    else some (hand_over w w.conn.idout packet)

abbrev csp_send_prio : ℕ → World → List World → ℕ → Option World
csp_send_prio prio w later packet =
    csp_send (record w { conn = record (w.conn) { idout = record (w.conn.idout) { pri = prio } } })
      later packet

-- CSP_SO_SAME
abbrev so_same : ℕ
so_same = 0x8000

-- The identifier that `csp_sendto` gives to a packet.
abbrev sendto_flags : ℕ → ℕ → ℕ
sendto_flags opts flags =
    let kept = if option_set opts so_same then flags else 0 in
    let authentic = if option_set opts so_hmacreq then bit_or kept fhmac else kept in
    if option_set opts so_crc32req then bit_or authentic fcrc32 else authentic

abbrev sendto_id : ℕ → ℕ → ℕ → ℕ → ℕ → CspId → CspId
sendto_id prio dest dport src_port opts id = record {
  pri = prio;
  flags = sendto_flags opts id.flags;
  src = id.src;
  dst = dest;
  dport = dport;
  sport = src_port;
}

-- `csp_recvfrom` without waiting, for a socket with these options.
abbrev recvfrom : Option Socket → ℕ → Option ℕ × Option Socket
recvfrom none opts = (none, none)
recvfrom (some sock) opts =
    if option_set opts so_conn_less then accept (some sock) else (none, some sock)

abbrev set_packet : Node → ℕ → Packet → Node
set_packet n i p = set_buffers n (store_packet n.buffers i p)

abbrev unsupported : Node → Node
unsupported n = set_buffers n (record (n.buffers) { errno = some DbgErr.unsupported })

module _ (hmac_append : Packet → Err × Packet) (nexthop : Iface → ℕ → Packet → Bool → Err) where
  -- `csp_sendto`: the identifier is the packet's own, which RDP can not do without a connection.
  unfoldable pub sendto : Node → ℕ → ℕ → ℕ → ℕ → ℕ → ℕ → Node
  sendto n prio dest dport src_port opts packet =
      let p = packet_of n.buffers packet in
      let id = sendto_id prio dest dport src_port opts p.id in
      if option_set opts so_rdpreq
      then release_packet (unsupported n) packet
      else (send_direct hmac_append nexthop (set_packet n packet (record p { id = id })) id packet
          none).0

  -- `csp_sendto_reply` to a packet; a request to all nodes is answered from the outgoing interface.
  unfoldable pub sendto_reply : Node → ℕ → ℕ → ℕ → Node
  sendto_reply n request reply opts =
      let q = (packet_of n.buffers request).id in
      let p = packet_of n.buffers reply in
      let flags = if option_set opts so_same then q.flags else p.id.flags in
      let src = if q.dst == get_max_nodeid n.version then 0 else q.dst in
      let answer = record p { id = record (p.id) { flags = flags; src = src } } in
      sendto (set_packet n reply answer) q.pri q.src q.sport q.dport opts reply
