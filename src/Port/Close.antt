-- ===== src/Port/Close.antt =====
-- `csp_socket_close` of src/csp_port.c after a binding.
use libcsp.Core.{ℕ, zero, suc, ◌≡◌, ◌∙◌, refl, ap, arith, false, ◌==◌, ==_self}
use libcsp.Core.{[], ◌∷◌, some, All, set, Bool-cases, inl, inr, ltb}
use libcsp.Packet.{Err}
use libcsp.Port.{closed, open_socket, Ports, port_at, holds_socket, Socket}
use libcsp.Port.Listen.{closed-cases, save-closed, save-taken}
use libcsp.Port.{any, port_max_bind, save_listener, bind_checked, bind, close_first, socket_close}

-- No port of the table is bound to the socket.
abbrev pub IsUnbound : ℕ → Ports → Type 0
IsUnbound sock ports = All (λ p. holds_socket sock p ≡ false) ports

close_first-IsUnbound :
    (sock : ℕ) (ports : Ports) → IsUnbound sock ports → close_first sock ports ≡ ports
unfolding close_first
close_first-IsUnbound sock [] u = refl
close_first-IsUnbound sock (p ∷ ports) u =
    rw (u.0) (ap (λ t. p ∷ t) (close_first-IsUnbound sock ports u.1))

close_first-set :
    (sock : ℕ) (ports : Ports) (i : ℕ)
    → IsUnbound sock ports
    → port_at ports i ≡ closed
    → close_first sock (set ports i (open_socket sock)) ≡ ports
unfolding close_first
close_first-set sock [] i u e = refl
close_first-set sock (p ∷ ports) zero u e = rw (==_self sock, e) refl
close_first-set sock (p ∷ ports) (suc i) u e =
    rw (u.0) (ap (λ t. p ∷ t) (close_first-set sock ports i u.1 e))

module _ (sock : ℕ) (ports : Ports) (u : IsUnbound sock ports) where
  close-save :
      (i : ℕ) (in_use : Err)
      → close_first sock (save_listener ports i (open_socket sock) in_use).1 ≡ ports
  close-save i in_use = elim (closed-cases (port_at ports i)) [
    | inl e ↦
        rw (save-closed ports i (open_socket sock) in_use e) (close_first-set sock ports i u e)
    | inr ne ↦
        rw (save-taken ports i (open_socket sock) in_use ne) (close_first-IsUnbound sock ports u)
  ]

  close-bind_checked :
      (port : ℕ) (in_use : Err)
      → close_first sock (bind_checked ports port (open_socket sock) in_use).1 ≡ ports
  unfolding bind_checked
  close-bind_checked port in_use = elim (Bool-cases (port == any)) [
    | inl e ↦ rw e (close-save 17 in_use)
    | inr e ↦ elim (Bool-cases (ltb port_max_bind port)) [
      | inl big ↦ rw (e, big) (close_first-IsUnbound sock ports u)
      | inr small ↦ rw (e, small) (close-save port in_use)
    ]
  ]

closed_ports :
    (ports : Ports) (sock : Socket)
    → (socket_close ports (some sock)).1 ≡ close_first sock.handle ports
unfolding socket_close
closed_ports ports sock = ground arith

-- Closing a socket that was bound to a port, or could not be bound, leaves the table as it was
-- before, if the socket was not bound to another port then.
pub socket_close-bind :
    (ports : Ports) (sock : Socket) (port : ℕ)
    → IsUnbound sock.handle ports
    → (socket_close (bind ports (some sock.handle) port).1 (some sock)).1 ≡ ports
unfolding bind
socket_close-bind ports sock port u =
    closed_ports (bind ports (some sock.handle) port).1 sock
    ∙ close-bind_checked sock.handle ports u port Err.used
