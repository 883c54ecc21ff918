-- ===== src/Route/Work.antt =====
-- src/csp_route.c: `csp_route_work`, and `csp_conn_check_timeouts` of src/csp_conn.c.
use libcsp.Core.{
  ℕ, zero, suc, ◌+◌, ◌%◌, ◌^◌, Bool, true, false, not, ◌||◌, ◌&&◌, List, [], ◌∷◌, ◌++◌,
}
use libcsp.Core.{Option, none, some, if◌then◌else◌, set, get_elem?, length}
use libcsp.Packet.{Packet, CspId, Err, is_ok, Iface, frdp, so_crc32req, so_conn_less}
use libcsp.Buffer.{packet_of, store_packet, free_all}
use libcsp.Conn.{Conn, server, is_open, find_existing, conn_new, count_out, option_set, rxqueue_len}
use libcsp.Dedup.{is_duplicate}
use libcsp.Id.{is_broadcast}
use libcsp.Iflist.{get_by_addr}
use libcsp.Io.{promisc_add, count_handle, set_buffers}
use libcsp.Io.Direct.{find_iface, send_direct, csp_if_lo}
use libcsp.Port.{get_callback, get_socket}
use libcsp.Queue.Fifo.{ok, push}
use libcsp.Rdp.{has}
use libcsp.Rdp.World.{World}
use libcsp.Rdp.Link.{check_timeouts}
use libcsp.Rdp.Machine.{new_packet}
use libcsp.Rdp.Receive.{enqueue}
use libcsp.Rdp.Close.{csp_close}
use libcsp.Route.{
  Router, Input, DedupMode, dedup_off, dedup_fwd, dedup_incoming, dedup_all, with_node, drop_packet,
  count_ovf, qfifo_read, enter, exit_to, set_queue,
}
use libcsp.Route.Security.{security_check}

-- A function of RDP on connection `i`.
abbrev on_conn : Router → ℕ → Conn → (World → World) → Router
on_conn r i c f = exit_to r c.dest_socket (f (enter r i c))

-- The loop of `csp_conn_check_timeouts` over `count` connections from `i` on.
unfoldable pub check_conn : Router → ℕ → Option Conn → Router
check_conn r i none = r
check_conn r i (some c) =
    if is_open c && has c.idin.flags frdp then on_conn r i c check_timeouts else r

unfoldable pub check_conns : ℕ → ℕ → Router → Router
check_conns zero i r = r
check_conns (suc count) i r = check_conns count (suc i) (check_conn r i (get_elem? r.pool.conns i))

abbrev pub packet_in : Router → ℕ → Packet
packet_in r packet = packet_of r.node.buffers packet

abbrev pub store_in : Router → ℕ → Packet → Router
store_in r packet p = with_node r (set_buffers r.node (store_packet r.node.buffers packet p))

abbrev pub iface_of : Router → ℕ → Iface
iface_of r h = elim (find_iface r.node.interfaces h) [ none ↦ csp_if_lo | some i ↦ i ]

abbrev is_found {ℓ} : {A : Type ℓ} → Option A → Bool
is_found none = false
is_found (some a) = true

abbrev pub is_to_me : Router → Packet → Iface → Bool
is_to_me r p i =
    is_found (get_by_addr r.node.interfaces p.id.dst) || is_broadcast r.node.version p.id.dst i

abbrev dedup_applies : DedupMode → Bool → Bool
dedup_applies dedup_all to_me = true
dedup_applies dedup_incoming to_me = to_me
dedup_applies dedup_fwd to_me = not to_me
dedup_applies dedup_off to_me = false

unfoldable pub set_conn : List Conn → ℕ → (Conn → Conn) → List Conn
set_conn [] k f = []
set_conn (c ∷ cs) zero f = f c ∷ cs
set_conn (c ∷ cs) (suc k) f = c ∷ set_conn cs k f

-- The identifier of answers on a connection that a packet opens.
abbrev pub answer_id : CspId → CspId
answer_id id = record {
  pri = id.pri;
  flags = id.flags;
  src = id.dst;
  dst = id.src;
  dport = id.sport;
  sport = id.dport;
}

-- The parts that are not modelled here: authentication, the transmit functions of the interfaces and
-- `rand_r`.
module _ (hmac_append hmac_verify : Packet → Err × Packet)
    (nexthop : Iface → ℕ → Packet → Bool → Err) (rand_r : ℕ → ℕ) where
  -- `csp_route_security_check` on the packet in its buffer, counting at its interface.
  unfoldable pub check_in : Router → ℕ → ℕ → Iface → Bool × Router
  check_in r opts packet i =
      let (e, i', p) = security_check hmac_verify r.node.version opts i (packet_in r packet) in
      let counted = with_node (store_in r packet p) (
        count_handle (store_in r packet p).node i.handle
          (λ j. record j { rx_error = i'.rx_error; autherr = i'.autherr })) in
      (is_ok e, counted)

  -- A callback is called with the packet.
  unfoldable pub to_callback : Router → ℕ → Iface → ℕ → Router
  to_callback r packet i callback =
      let (passes, r') = check_in r so_crc32req packet i in
      if passes
      then record r' { called = r'.called ++ ((callback, packet) ∷ []) }
      else drop_packet r' packet

  unfoldable pub to_socket : Router → ℕ → Iface → ℕ → Router
  to_socket r packet i socket =
      let (passes, r') = check_in r (r.socket_opts socket) packet i in
      let (e, queue) = push rxqueue_len (r'.socket_queue socket) packet in
      if passes
      then elim e [
        | ok ↦ record r' { socket_queue = set_queue r'.socket_queue socket queue }
        | _ ↦ drop_packet (count_ovf r') packet
      ]
      else drop_packet r' packet

  -- RDP takes the packet, and the connection is closed if it says so.
  abbrev rdp_packet : ℕ → World → World
  rdp_packet packet w =
      let (close_connection, w') = new_packet rand_r w packet in
      if close_connection then csp_close w' else w'

  -- The connection is put into the queue of its socket, once; if there is no room it is closed.
  unfoldable pub offer : Router → ℕ → Conn → Option ℕ → Router
  offer r k c none = r
  offer r k c (some socket) =
      let (e, queue) = push rxqueue_len (r.socket_queue socket) k in
      let given = record r {
        pool = record (r.pool) { conns = set r.pool.conns k (record c { dest_socket = none }) };
        socket_queue = set_queue r.socket_queue socket queue;
      } in
      elim e [ ok ↦ given | _ ↦ on_conn (count_ovf r) k c csp_close ]

  unfoldable pub to_queue : Router → ℕ → ℕ → Conn → Router
  to_queue r packet k c =
      let (e, w) = enqueue (enter r k c) (some packet) in
      let r' = exit_to r c.dest_socket w in
      if is_ok e then offer r' k w.conn w.conn.dest_socket else drop_packet (count_ovf r') packet

  unfoldable pub to_conn : Router → ℕ → ℕ → Option Conn → Router
  to_conn r packet k none = r
  to_conn r packet k (some c) =
      if has (packet_in r packet).id.flags frdp
      then on_conn r k c (rdp_packet packet)
      else to_queue r packet k c

  -- From what `csp_conn_new` gives; with none, `csp_dbg_conn_out` is counted a second time.
  unfoldable pub to_opened : Router → ℕ → ℕ → Option ℕ → Router
  to_opened r packet socket none = drop_packet (record r { pool = count_out r.pool }) packet
  to_opened r packet socket (some k) =
      let conns' =
        set_conn r.pool.conns k
          (λ c. record c { dest_socket = some socket; opts = r.socket_opts socket }) in
      to_conn (record r { pool = record (r.pool) { conns = conns' } }) packet k (get_elem? conns' k)

  -- A new connection for the packet; the packets of the connection that it was are freed.
  unfoldable pub open_conn : Router → ℕ → ℕ → Router
  open_conn r packet socket =
      let id = (packet_in r packet).id in
      let (o, pool', freed) = conn_new r.pool r.now id (answer_id id) server in
      let r' =
        with_node (record r { pool = pool' })
          (set_buffers r.node (free_all r.node.buffers freed)) in
      to_opened r' packet socket o

  unfoldable pub to_new : Router → ℕ → Iface → Option ℕ → Router
  to_new r packet i none = drop_packet r packet
  to_new r packet i (some socket) =
      let (passes, r') = check_in r (r.socket_opts socket) packet i in
      if passes then open_conn r' packet socket else drop_packet r' packet

  -- `csp_conn_find_existing` has given the index of a connection of the pool.
  unfoldable pub to_existing : Router → ℕ → Iface → ℕ → Option Conn → Router
  to_existing r packet i k none = r
  to_existing r packet i k (some c) =
      let (passes, r') = check_in r c.opts packet i in
      if passes then to_conn r' packet k (some c) else drop_packet r' packet

  unfoldable pub to_connection : Router → ℕ → Iface → Option ℕ → Option ℕ → Router
  to_connection r packet i socket none = to_new r packet i socket
  to_connection r packet i socket (some k) = to_existing r packet i k (get_elem? r.pool.conns k)

  unfoldable pub to_listener : Router → ℕ → Iface → Option ℕ → Router
  to_listener r packet i none =
      to_connection r packet i none (find_existing r.pool.conns (packet_in r packet).id)
  to_listener r packet i (some socket) =
      if option_set (r.socket_opts socket) so_conn_less
      then to_socket r packet i socket
      else to_connection r packet i (some socket)
          (find_existing r.pool.conns (packet_in r packet).id)

  -- A packet for this node, given the callback of its port.
  unfoldable pub for_me : Router → ℕ → Iface → Option ℕ → Router
  for_me r packet i (some callback) = to_callback r packet i callback
  for_me r packet i none = to_listener r packet i (get_socket r.ports (packet_in r packet).id.dport)

  -- A packet that is no duplicate.
  unfoldable pub route_on : Router → ℕ → Iface → Bool → Router
  route_on r packet i to_me =
      let seen = with_node r (promisc_add r.node packet) in
      if to_me
      then for_me seen packet i (get_callback r.ports (packet_in seen packet).id.dport)
      else with_node seen
          (send_direct hmac_append nexthop seen.node (packet_in seen packet).id packet (some i)).0

  abbrev count_drop : Router → Iface → Router
  count_drop r i =
      with_node r (count_handle r.node i.handle (λ j. record j { drop = (j.drop + 1) % 2 ^ 32 }))

  unfoldable pub route_deduped : Router → ℕ → Iface → Bool → Router
  route_deduped r packet i to_me =
      let (found, p, dedup') = is_duplicate r.node.version r.dedup r.now (packet_in r packet) in
      let known = record (store_in r packet p) { dedup = dedup' } in
      if dedup_applies r.dedup_mode to_me
      then if found then drop_packet (count_drop known i) packet else route_on known packet i to_me
      else route_on r packet i to_me

  -- `csp_route_work` for a packet from the queue.
  unfoldable pub route_packet : Router → ℕ → Iface → Router
  route_packet r packet i =
      let bytes = (packet_in r packet).length in
      let counted = with_node r (
        count_handle r.node i.handle
          (λ j. record j { rx = (j.rx + 1) % 2 ^ 32; rxbytes = (j.rxbytes + bytes) % 2 ^ 32 })) in
      route_deduped counted packet i (is_to_me r (packet_in r packet) i)

  -- `csp_qfifo_write` has put no packet into the queue without an interface.
  unfoldable pub route_input : Router → Option Input → Err × Router
  route_input r none = (Err.timedout, r)
  route_input r (some input) = elim (input.packet) [
    | none ↦ (Err.timedout, r)
    | some packet ↦ elim (input.iface) [
      | none ↦ (Err.none, r)
      | some h ↦ (Err.none, route_packet r packet (iface_of r h))
    ]
  ]

  unfoldable pub route_work : Router → Err × Router
  route_work r =
      let (input, r') = qfifo_read (check_conns (length r.pool.conns) 0 r) in route_input r' input
