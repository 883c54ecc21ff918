-- ===== src/Rdp/Close.antt =====
-- src/csp_rdp.c and src/csp_conn.c: the closing of a connection.
use libcsp.Core.{ℕ, ◌==◌, ◌||◌, Bool, true, bit_or, none, some, if◌then◌else◌, not}
use libcsp.Core.{[]}
use libcsp.Packet.{Err, DbgErr, frdp}
use libcsp.Buffer.{free_all}
use libcsp.Conn.{Conn, closed, is_open, rdp_closed, close_wait, by_userspace, by_all, packets_in}
use libcsp.RdpQueue.{queue_flush}
use libcsp.Rdp.{ack, rst, has}
use libcsp.Rdp.World.{World, with_rdp, with_buffers, settle, wake_tx}
use libcsp.Rdp.Control.{send_cmp}

-- Where the connection was not in CLOSE_WAIT, it is put there, the peer is told and the sender woken.
unfoldable pub start_close : World → Bool → World
start_close w send_rst =
    let w1 = with_rdp w (record (w.conn.rdp) { state = close_wait }) in
    let w2 = record w1 { conn = record (w1.conn) { timestamp = w.now } } in
    let told = (send_cmp w2 none (bit_or ack rst) w2.conn.rdp.snd_nxt w2.conn.rdp.rcv_cur).1 in
    wake_tx (if send_rst then told else w2)

-- The end, which waits for all of user space, protocol and timeout.
unfoldable pub finish_close : World → Err × World
finish_close w =
    if w.conn.rdp.closed_by == by_all
    then (Err.none, with_rdp w (record (w.conn.rdp) { state = rdp_closed; closed_by = 0 }))
    else (Err.again, w)

abbrev pub note_closed_by : World → ℕ → World
note_closed_by w closed_by =
    with_rdp w (record (w.conn.rdp) { closed_by = bit_or w.conn.rdp.closed_by closed_by })

-- `csp_rdp_close_internal`; `csp_rdp_close` sends a reset.
unfoldable pub close_internal : World → ℕ → Bool → Err × World
close_internal w closed_by send_rst = elim (w.conn.rdp.state) [
  | rdp_closed ↦ (Err.none, w)
  | close_wait ↦ finish_close (note_closed_by w closed_by)
  | _ ↦ finish_close (start_close (note_closed_by w closed_by) send_rst)
]

abbrev pub rdp_close : World → ℕ → Err × World
rdp_close w closed_by = close_internal w closed_by true

-- `csp_conn_close` once RDP has let go of the connection.
unfoldable pub release_conn : World → World
release_conn w =
    let freed = with_buffers w (free_all w.buffers (packets_in w.conn.rx_queue)) in
    let emptied = record freed { conn = record (freed.conn) { rx_queue = [] } } in
    let flushed =
      if has emptied.conn.idin.flags frdp
      then settle emptied (queue_flush emptied.queues (some emptied.handle))
      else emptied in
    record flushed { conn = record (flushed.conn) { state = closed } }

abbrev pub uses_rdp : Conn → Bool
uses_rdp c = has c.idin.flags frdp || has c.idout.flags frdp

abbrev pub unless_again : Err × World → World
unless_again (Err.again, w) = w
unless_again (e, w) = release_conn w

-- `csp_conn_close`, which has only CSP_ERR_NONE to return; `csp_close` is it for user space.
unfoldable pub conn_close : World → ℕ → World
conn_close w closed_by =
    if not (is_open w.conn)
    then with_buffers w (record (w.buffers) { errno = some DbgErr.already_closed })
    else if uses_rdp w.conn
    then unless_again (rdp_close w closed_by)
    else release_conn w

abbrev pub csp_close : World → World
csp_close w = conn_close w by_userspace
