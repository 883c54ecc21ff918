-- ===== src/Port.antt =====
-- src/csp_port.c: the table of bound ports.
pub mod Listen
pub mod Close
mod Tests
use libcsp.Core.{ℕ, suc, ◌+◌, ◌==◌, ltb, Bool, if◌then◌else◌}
use libcsp.Core.{List, [], ◌∷◌, Option, none, some, get_or, set}
use libcsp.Packet.{Err, DbgErr}

-- CSP_PORT_MAX_BIND and CSP_ANY
abbrev pub port_max_bind : ℕ
port_max_bind = 16

abbrev pub any : ℕ
any = 255

-- `csp_port_t`: the state, with the member of the union that it goes with. Sockets and callbacks
-- are numbers that stand for their addresses.
pub data Port : Type 0 where
  closed : Port
  open_socket : ℕ → Port
  open_callback : ℕ → Port

-- The array of `CSP_PORT_MAX_BIND + 2` ports; the last one takes what no other port does.
abbrev pub Ports : Type 0
Ports = List Port

abbrev pub port_at : Ports → ℕ → Port
port_at ports i = get_or ports i closed

abbrev last_port : ℕ
last_port = port_max_bind + 1

pub get_callback : Ports → ℕ → Option ℕ
get_callback ports port = if ltb port_max_bind port then none else elim (port_at ports port) [
  | open_callback callback ↦ some callback
  | open_socket socket ↦ none
  | closed ↦ elim (port_at ports last_port) [ open_callback callback ↦ some callback | _ ↦ none ]
]

pub get_socket : Ports → ℕ → Option ℕ
get_socket ports port = if ltb port_max_bind port then none else elim (port_at ports port) [
  | open_socket socket ↦ some socket
  | open_callback callback ↦ none
  | closed ↦ elim (port_at ports last_port) [ open_socket socket ↦ some socket | _ ↦ none ]
]

-- What `csp_dbg_errno` is set to comes last.
abbrev pub Bound : Type 0
Bound = Err × Ports × Option DbgErr

-- Both calls store into the slot if it is closed; they differ in the error they return if not.
pub save_listener : Ports → ℕ → Port → Err → Bound
save_listener ports port listener in_use = elim (port_at ports port) [
  | closed ↦ (Err.none, set ports port listener, none)
  | _ ↦ (in_use, ports, some DbgErr.port_already_in_use)
]

pub bind_checked : Ports → ℕ → Port → Err → Bound
unfolding save_listener
bind_checked ports port listener in_use =
    if port == any
    then save_listener ports last_port listener in_use
    else if ltb port_max_bind port
    then (Err.inval, ports, some DbgErr.invalid_bind_port)
    else save_listener ports port listener in_use

-- A NULL socket is `none`.
pub bind : Ports → Option ℕ → ℕ → Bound
unfolding bind_checked
bind ports none port = (Err.inval, ports, none)
bind ports (some socket) port = bind_checked ports port (open_socket socket) Err.used

pub bind_callback : Ports → Option ℕ → ℕ → Bound
unfolding bind_checked
bind_callback ports none port = (Err.inval, ports, some DbgErr.invalid_pointer)
bind_callback ports (some callback) port =
    bind_checked ports port (open_callback callback) Err.already

-- `port->state == PORT_OPEN && port->socket == sock`
abbrev pub holds_socket : ℕ → Port → Bool
holds_socket sock closed = libcsp.Core.false
holds_socket sock (open_socket s) = s == sock
holds_socket sock (open_callback c) = libcsp.Core.false

-- The loop of `csp_socket_close`, which ends at the first port of the socket.
pub close_first : ℕ → Ports → Ports
close_first sock [] = []
close_first sock (p ∷ ports) =
    let rest = close_first sock ports in if holds_socket sock p then closed ∷ ports else p ∷ rest

-- `csp_socket_t`: its address and its queue of packets, `none` for NULL. A packet is the number of
-- its buffer.
pub record Socket : Type 0 where
  pub handle : ℕ
  pub rx_queue : Option (List ℕ)

-- `csp_listen` gives the socket an empty queue.
pub listen : Socket → Err × Socket
listen socket = (Err.none, record socket { rx_queue = some [] })

-- The ports, the socket and the packets that are freed, in order. `csp_queue_free` only counts the
-- free places of the queue, which stays with the socket.
pub socket_close : Ports → Option Socket → Err × Ports × Option Socket × List ℕ
unfolding close_first
socket_close ports none = (Err.none, ports, none, [])
socket_close ports (some sock) =
    let ports' = close_first sock.handle ports in
    elim (sock.rx_queue) [
      | none ↦ (Err.none, ports', some sock, [])
      | some packets ↦ (Err.none, ports', some (record sock { rx_queue = some [] }), packets)
    ]
