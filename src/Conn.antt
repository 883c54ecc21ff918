-- ===== src/Conn.antt =====
-- src/csp_conn.c and src/csp_conn.h: the pool of connections.
pub mod Allocate
pub mod Find
mod Types
pub use Types.*
mod Tests
use libcsp.Core.{ℕ, zero, suc, ◌+◌, ◌-◌, ◌%◌, ◌^◌, ◌==◌, ◌&&◌, bit_and, bit_or, Bool, true, false}
use libcsp.Core.{if◌then◌else◌, List, [], ◌∷◌, ◌++◌, Option, none, some, set, get_elem?, length}
use libcsp.Packet.{Err, CspId, frdp, fhmac, fcrc32, so_rdpreq, so_hmacreq, so_crc32req}
use libcsp.Packet.{so_crc32prohib}
use libcsp.Port.{port_max_bind}
use libcsp.Queue.Fifo.{Status, ok, push}

-- CSP_CONN_MAX and CSP_CONN_RXQUEUE_LEN
abbrev pub conn_max : ℕ
conn_max = 8

abbrev pub rxqueue_len : ℕ
rxqueue_len = 16

abbrev pub is_open : Conn → Bool
is_open c = elim (c.state) [ opened ↦ true | closed ↦ false ]

abbrev pub is_client : Conn → Bool
is_client c = elim (c.type) [ client ↦ true | server ↦ false ]

-- The connection, and whether `csp_dbg_conn_ovf` counts an overflow.
unfoldable pub enqueue_packet : Option Conn → Option ℕ → Err × Option Conn × Bool
enqueue_packet none packet = (Err.inval, none, false)
enqueue_packet (some conn) packet =
    let (e, queue') = push rxqueue_len conn.rx_queue packet in
    elim e [
      | ok ↦ (Err.none, some (record conn { rx_queue = queue' }), false)
      | _ ↦ (Err.nomem, some conn, true)
    ]

-- `csp_rdp_init`, with the settings for new connections that it copies.
abbrev pub rdp_init : RdpConn → ℕ → ℕ → RdpConn
rdp_init rdp conn_timeout packet_timeout = record rdp {
  state = rdp_closed;
  closed_by = 0;
  conn_timeout = conn_timeout;
  packet_timeout = packet_timeout;
  tx_wait = true;
}

-- `csp_rdp_conn_timeout` and `csp_rdp_packet_timeout` at the start
abbrev pub dfl_conn_timeout : ℕ
dfl_conn_timeout = 10000

abbrev pub dfl_packet_timeout : ℕ
dfl_packet_timeout = 1000

-- `csp_conn_init` on the pool from connection `i` on, whatever its memory held.
pub init_from : ℕ → List Conn → List Conn
init_from i [] = []
init_from i (c ∷ pool) =
    record c {
      sport_outgoing = (port_max_bind + 1 + i) % 2 ^ 8;
      state = closed;
      idin = record (c.idin) { flags = 0 };
      rx_queue = [];
      rdp = rdp_init c.rdp dfl_conn_timeout dfl_packet_timeout;
    }
    ∷ init_from (suc i) pool

unfoldable pub conn_init : List Conn → List Conn
unfolding init_from
conn_init pool = init_from 0 pool

-- The index of the first connection that passes a test.
pub first_index : (Conn → Bool) → List Conn → Option ℕ
first_index test [] = none
first_index test (c ∷ pool) =
    if test c then some 0 else elim (first_index test pool) [ none ↦ none | some i ↦ some (suc i) ]

unfoldable pub find_dport : List Conn → ℕ → Option ℕ
unfolding first_index
find_dport pool dport = first_index (λ c. c.idin.dport == dport && (is_open c && is_client c)) pool

-- The conditions that `csp_conn_find_existing` checks one by one.
abbrev pub belongs : CspId → Conn → Bool
belongs id c =
    is_open c
    && (if is_client c
        then c.idin.dport == id.dport
        else c.idin.dport == id.dport && (c.idin.sport == id.sport && c.idin.src == id.src))

unfoldable pub find_existing : List Conn → CspId → Option ℕ
unfolding first_index
find_existing pool id = first_index (belongs id) pool

-- The packets of a queue, without the NULL pointers.
abbrev pub packets_in : List (Option ℕ) → List ℕ
packets_in [] = []
packets_in (none ∷ queue) = packets_in queue
packets_in (some packet ∷ queue) = packet ∷ packets_in queue

-- The connection, and the packets that are freed, in order.
abbrev pub flush_rx_queue : Conn → Conn × List ℕ
flush_rx_queue c = (record c { rx_queue = [] }, packets_in c.rx_queue)

-- The pool with `csp_conn_last_given`; `conn_out` is `csp_dbg_conn_out`.
pub record Pool : Type 0 where
  pub conns : List Conn
  pub last_given : ℕ
  pub conn_out : ℕ

abbrev pub claim : ConnType → Conn → Conn
claim type c = record c {
  state = opened;
  timestamp = 0;
  type = type;
  idin = record (c.idin) { flags = 0 };
  idout = record (c.idout) { flags = 0 };
}

-- The loop of `csp_conn_allocate`, which has got to connection `i`, with `n` rounds left. The
-- compare-and-exchange takes a connection that is closed.
pub allocate_loop : ℕ → Pool → ConnType → ℕ → Option ℕ × Pool
allocate_loop zero p type i = (none, p)
allocate_loop (suc n) p type i =
    let i' = (i + 1) % conn_max in
    let rest = allocate_loop n p type i' in
    elim (get_elem? p.conns i') [
      | none ↦ rest
      | some c ↦ elim (c.state) [
        | closed ↦ (some i', record p { conns = set p.conns i' (claim type c); last_given = i' })
        | opened ↦ rest
      ]
    ]

abbrev pub count_out : Pool → Pool
count_out p = record p { conn_out = (p.conn_out + 1) % 2 ^ 8 }

abbrev pub note_out : Option ℕ × Pool → Option ℕ × Pool
note_out (none, p) = (none, count_out p)
note_out (some i, p) = (some i, p)

-- `csp_conn_allocate`
unfoldable pub allocate : Pool → ConnType → Option ℕ × Pool
unfolding allocate_loop
allocate p type = note_out (allocate_loop conn_max p type p.last_given)

-- `csp_conn_new` at the time `now`; the packets that are freed come last.
unfoldable pub conn_new : Pool → ℕ → CspId → CspId → ConnType → Option ℕ × Pool × List ℕ
unfolding allocate
conn_new p now idin idout type =
    let (o, p') = allocate p type in
    elim o [
      | none ↦ (none, p', [])
      | some i ↦ elim (get_elem? p'.conns i) [
        | none ↦ (none, p', [])
        | some c ↦
            let with_ids = record c { idin = idin; idout = idout; timestamp = now } in
            let (flushed, freed) = flush_rx_queue with_ids in
            (some i, record p' { conns = set p'.conns i flushed }, freed)
      ]
    ]

abbrev pub option_set : ℕ → ℕ → Bool
option_set opts bit = if bit_and opts bit == 0 then false else true

-- `opts &= ~CSP_O_CRC32`
abbrev pub effective_opts : ℕ → ℕ
effective_opts opts =
    if option_set opts so_crc32prohib then opts - bit_and opts so_crc32req else opts

-- The flags that `csp_connect` gives to both identifiers.
abbrev pub flags_of : ℕ → ℕ
flags_of opts =
    let rdp = if option_set opts so_rdpreq then bit_or 0 frdp else 0 in
    let hmac = if option_set opts so_hmacreq then bit_or rdp fhmac else rdp in
    if option_set opts so_crc32req then bit_or hmac fcrc32 else hmac

-- `csp_connect` up to the connection of the transport layer, which only RDP has. The fields of the
-- identifiers that it leaves alone hold anything: `dport` of the one in, `sport` of the one out.
unfoldable pub connect_pool : Pool → ℕ → ℕ → ℕ → ℕ → ℕ → ℕ → ℕ × ℕ → Option ℕ × Pool × List ℕ
unfolding conn_new
connect_pool p now prio dest dport dfl_so opts (junk_dport, junk_sport) =
    let opts' = effective_opts (bit_or opts dfl_so) in
    let idin : CspId = record {
      pri = prio;
      flags = flags_of opts';
      src = dest;
      dst = 0;
      dport = junk_dport;
      sport = dport;
    } in
    let idout : CspId = record {
      pri = prio;
      flags = flags_of opts';
      src = 0;
      dst = dest;
      dport = dport;
      sport = junk_sport;
    } in
    let (o, p', freed) = conn_new p now idin idout client in
    elim o [
      | none ↦ (none, p', freed)
      | some i ↦ elim (get_elem? p'.conns i) [
        | none ↦ (none, p', freed)
        | some c ↦ (
          some i,
          record p' {
            conns = set p'.conns i (record c {
              idin = record (c.idin) { dport = c.sport_outgoing };
              idout = record (c.idout) { sport = c.sport_outgoing };
              dest_socket = none;
              opts = opts';
            });
          },
          freed,
        )
      ]
    ]
