-- ===== src/Route/Receiver.antt =====
-- Who gets a packet that `csp_route_work` of src/csp_route.c has taken in.
use libcsp.Core.{ℕ, ◌≡◌, ◌≢◌, ◌⊎◌, true, false, none, some}
use libcsp.Core.{List, [], ◌∷◌, ◌++◌, ◌==◌, length, if◌then◌else◌, get_elem?}
use libcsp.Packet.{Packet, Err, is_ok, Iface, so_crc32req, so_conn_less}
use libcsp.Conn.{Conn, option_set, find_existing, rxqueue_len}
use libcsp.Port.{get_callback, get_socket}
use libcsp.Io.{promisc_add}
use libcsp.Route.{Router, with_node}
use libcsp.Route.Security.{security_check}
use libcsp.Route.Work.{packet_in}

-- No application has got anything: no callback was run, and the queues of the sockets and the
-- connections are as they were.
abbrev pub Untouched : Router → Router → Type 0
Untouched r r' = (r'.called ≡ r.called) × (r'.socket_queue ≡ r.socket_queue) × (r'.pool ≡ r.pool)

-- Who may get a packet: a callback or a socket, by its number, or some connection.
pub data Receiver : Type 0 where
  callback socket : ℕ → Receiver
  connection : Receiver

-- The socket of the packet's port, if there is one, wants connections.
abbrev pub WantsConns : Router → Packet → Type 0
WantsConns r p =
    (s : ℕ)
    → get_socket r.ports p.id.dport ≡ some s
    → option_set (r.socket_opts s) so_conn_less ≡ false

-- The receiver of a packet, and the options that it asks for: a callback a checksum, a socket those
-- it was given, also for a new connection, and a connection its own. A callback comes before a
-- socket without connections, that before a connection, and that before a new one.
pub data Asks (r : Router) (p : Packet) : Receiver → ℕ → Type 0 where
  by_callback :
      {c : ℕ} → get_callback r.ports p.id.dport ≡ some c → Asks r p (callback c) so_crc32req
  by_conn_less :
      {s : ℕ}
      → get_callback r.ports p.id.dport ≡ none
      → get_socket r.ports p.id.dport ≡ some s
      → option_set (r.socket_opts s) so_conn_less ≡ true
      → Asks r p (socket s) (r.socket_opts s)
  by_conn :
      {k : ℕ} {c : Conn}
      → get_callback r.ports p.id.dport ≡ none
      → WantsConns r p
      → find_existing r.pool.conns p.id ≡ some k
      → get_elem? r.pool.conns k ≡ some c
      → Asks r p connection c.opts
  by_socket :
      {s : ℕ}
      → get_callback r.ports p.id.dport ≡ none
      → get_socket r.ports p.id.dport ≡ some s
      → option_set (r.socket_opts s) so_conn_less ≡ false
      → find_existing r.pool.conns p.id ≡ none
      → Asks r p connection (r.socket_opts s)

-- The packet comes at the end of the queue, or that is full and stays as it is.
abbrev pub Queues : ℕ → List ℕ → List ℕ → Type 0
Queues packet queue queue' =
    ((length queue ≡ rxqueue_len) × (queue' ≡ queue))
    ⊎ ((length queue ≢ rxqueue_len) × (queue' ≡ queue ++ (packet ∷ [])))

-- What changes when a receiver gets the packet in a buffer: a callback is run with it once, and that
-- is all; of the queues of sockets one, and no connection; or no callback is run.
abbrev pub Only : ℕ → Receiver → Router → Router → Type 0
Only packet (callback c) r r' =
    (r'.called ≡ r.called ++ ((c, packet) ∷ []))
    × (r'.socket_queue ≡ r.socket_queue)
    × (r'.pool ≡ r.pool)
Only packet (socket s) r r' =
    (r'.called ≡ r.called)
    × (r'.pool ≡ r.pool)
    × Queues packet (r.socket_queue s) (r'.socket_queue s)
    × ((k : ℕ) → (k == s) ≡ false → r'.socket_queue k ≡ r.socket_queue k)
Only packet connection r r' = r'.called ≡ r.called

abbrev pub Unasked : Router → Packet → Type 0
Unasked r p = (receiver : Receiver) (opts : ℕ) → Asks r p receiver opts → ⊥

-- No one asks for the packet in the buffer, and nothing gets through; or it has a receiver: with a
-- failed check nothing gets through, and with one that is passed that receiver alone gets it.
abbrev pub Guarded : (Packet → Err × Packet) → Router → ℕ → Iface → Router → Type 0
Guarded hmac_verify r packet i r' =
    (Unasked r (packet_in r packet) × Untouched r r')
    ⊎ ((receiver : Receiver) × (opts : ℕ) × Asks r (packet_in r packet) receiver opts
        × (if is_ok (security_check hmac_verify r.node.version opts i (packet_in r packet)).0
            then Only packet receiver r r'
            else Untouched r r'))

abbrev pub seen_by_promisc : Router → ℕ → Router
seen_by_promisc r packet = with_node r (promisc_add r.node packet)

-- No one asks for a packet without callback, socket and connection.
pub without_socket :
    (r : Router) (p : Packet)
    → get_callback r.ports p.id.dport ≡ none
    → get_socket r.ports p.id.dport ≡ none
    → find_existing r.pool.conns p.id ≡ none
    → Unasked r p
without_socket r p c s f (callback x) opts (by_callback e) = cc (c, e)
without_socket r p c s f (socket x) opts (by_conn_less e e' h) = cc (s, e')
without_socket r p c s f connection opts (by_conn e w e' h) = cc (f, e')
without_socket r p c s f connection opts (by_socket e e' h g) = cc (s, e')

-- Nor for one of which the connection is not in the pool.
pub without_conn :
    (r : Router) (p : Packet) (k : ℕ)
    → get_callback r.ports p.id.dport ≡ none
    → WantsConns r p
    → find_existing r.pool.conns p.id ≡ some k
    → get_elem? r.pool.conns k ≡ none
    → Unasked r p
without_conn r p k c w f g (callback x) opts (by_callback e) = cc (c, e)
without_conn r p k c w f g (socket x) opts (by_conn_less e e' h) = cc (w x e', h)
without_conn r p k c w f g connection opts (by_conn {k = j} e w' e' h) = cc (f, e', g, h)
without_conn r p k c w f g connection opts (by_socket e e' h n) = cc (f, n)
