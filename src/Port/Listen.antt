-- ===== src/Port/Listen.antt =====
-- Binding and look-up of src/csp_port.c as a map from ports to listeners.
use libcsp.Core.{ℕ, ◌<◌, ◌≡◌, ◌≢◌, ◌⊎◌, ◌∙◌, refl, ap, arith, inl, inr}
use libcsp.Core.{true, false, ◌==◌, ltb, if◌then◌else◌, Bool-cases}
use libcsp.Core.{Option, none, some, length, set, get_or-set_self, get_or-set_ne}
use libcsp.Packet.{Err, DbgErr}
use libcsp.Port.{Port, closed, open_socket, open_callback, Ports, port_at, port_max_bind, any}
use libcsp.Port.{Bound, get_callback, get_socket, save_listener, bind_checked, bind, bind_callback}

-- Who gets a packet for a port: the listener of that port, or of the last slot if it has none;
-- nobody above CSP_PORT_MAX_BIND.
abbrev pub listener : Ports → ℕ → Port
listener ports port =
    if ltb port_max_bind port
    then closed
    else elim (port_at ports port) [ closed ↦ port_at ports 17 | p ↦ p ]

abbrev pub socket_of : Port → Option ℕ
socket_of closed = none
socket_of (open_socket s) = some s
socket_of (open_callback c) = none

abbrev pub callback_of : Port → Option ℕ
callback_of closed = none
callback_of (open_socket s) = none
callback_of (open_callback c) = some c

-- The socket and the callback that a port gives are those of one listener: the port's own, or the
-- one bound to any port if it has none; nobody listens above CSP_PORT_MAX_BIND.
pub get-listener :
    (ports : Ports) (port : ℕ)
    → (get_socket ports port ≡ socket_of (listener ports port))
      × (get_callback ports port ≡ callback_of (listener ports port))
unfolding get_socket get_callback
get-listener ports port = ground arith

-- The slot that a port number names; CSP_ANY names the last.
unfoldable pub slot_of : ℕ → Option ℕ
slot_of port = if port == any then some 17 else if ltb port_max_bind port then none else some port

-- What saving a listener in a slot may do: a slot that is taken is refused with the table as it
-- was; a closed slot gets the listener, and no other slot changes.
abbrev pub Saves : Ports → ℕ → Port → Err → Bound → Type 0
Saves ports i new in_use (e, ports', errno) =
    ((port_at ports i ≢ closed) × (e ≡ in_use) × (ports' ≡ ports))
    ⊎ ((port_at ports i ≡ closed)
        × (e ≡ Err.none)
        × ((j : ℕ) → port_at ports' j ≡ (if j == i then new else port_at ports j)))

-- The same for the slot that a port names; without one the port is invalid and refused.
abbrev pub SavesIn : Option ℕ → Ports → Port → Err → Bound → Type 0
SavesIn none ports new in_use (e, ports', errno) = (e ≡ Err.inval) × (ports' ≡ ports)
SavesIn (some i) ports new in_use bound = Saves ports i new in_use bound

abbrev pub Binds : Ports → ℕ → Port → Err → Bound → Type 0
Binds ports port new in_use bound = SavesIn (slot_of port) ports new in_use bound

set-slot :
    (ports : Ports) (i : ℕ) (new : Port) (j : ℕ)
    → i < length ports
    → port_at (set ports i new) j ≡ (if j == i then new else port_at ports j)
set-slot ports i new j h = elim (Bool-cases (j == i)) [
  | inl e ↦
      rw e (
        ap (λ (k : ℕ). port_at (set ports i new) k) (same e) ∙ get_or-set_self ports i new closed h)
  | inr e ↦ rw e (get_or-set_ne ports new closed (differ e))
]
  where
    same : (j == i) ≡ true → j ≡ i
    same e = ground arith

    differ : (j == i) ≡ false → i ≢ j
    differ e = ground arith

pub closed-cases : (p : Port) → (p ≡ closed) ⊎ (p ≢ closed)
closed-cases closed = inl refl
closed-cases (open_socket s) = inr (λ e. cc)
closed-cases (open_callback c) = inr (λ e. cc)

module _ (ports : Ports) (i : ℕ) (new : Port) (in_use : Err) where
  pub save-closed :
      port_at ports i ≡ closed
      → save_listener ports i new in_use ≡ (Err.none, set ports i new, none)
  unfolding save_listener
  save-closed e = ground (arith, e)

  pub save-taken :
      port_at ports i ≢ closed
      → save_listener ports i new in_use ≡ (in_use, ports, some DbgErr.port_already_in_use)
  unfolding save_listener
  save-taken e = ground (arith, e)

  save_listener-Saves :
      i < length ports → Saves ports i new in_use (save_listener ports i new in_use)
  save_listener-Saves h = elim (closed-cases (port_at ports i)) [
    | inl e ↦ rw (save-closed e) (inr (e, refl, λ j. set-slot ports i new j h))
    | inr ne ↦ rw (save-taken ne) (inl (ne, refl, refl))
  ]

module _ (port : ℕ) where
  slot_any : (port == any) ≡ true → slot_of port ≡ some 17
  unfolding slot_of
  slot_any e = ground (arith, e)

  slot_big : (port == any) ≡ false → ltb port_max_bind port ≡ true → slot_of port ≡ none
  unfolding slot_of
  slot_big e big = ground (arith, e, big)

  slot_small : (port == any) ≡ false → ltb port_max_bind port ≡ false → slot_of port ≡ some port
  unfolding slot_of
  slot_small e small = ground (arith, e, small)

  short : ltb port_max_bind port ≡ false → port < 18
  short small = ground arith

module _ (ports : Ports) (port : ℕ) (new : Port) (in_use : Err) (h : length ports ≡ 18) where
  bind_checked-Binds : Binds ports port new in_use (bind_checked ports port new in_use)
  unfolding bind_checked
  bind_checked-Binds = elim (Bool-cases (port == any)) [
    | inl e ↦ rw (slot_any port e, e) (save_listener-Saves ports 17 new in_use (omega arith))
    | inr e ↦ elim (Bool-cases (ltb port_max_bind port)) [
      | inl big ↦ rw (slot_big port e big, e, big) (refl, refl)
      | inr small ↦
          rw (slot_small port e small, e, small)
            (save_listener-Saves ports port new in_use (omega (arith, short port small)))
    ]
  ]

-- Binding a socket, or a callback, to a port of the table of 18 slots does what `Binds` says; a
-- port that is taken is CSP_ERR_USED to the one call and CSP_ERR_ALREADY to the other.
pub bind-Binds :
    (ports : Ports) (listener port : ℕ)
    → length ports ≡ 18
    → Binds ports port (open_socket listener) Err.used (bind ports (some listener) port)
      × Binds ports port
          (open_callback listener)
          Err.already
          (bind_callback ports (some listener) port)
unfolding bind bind_callback
bind-Binds ports listener port h = (
  bind_checked-Binds ports port (open_socket listener) Err.used h,
  bind_checked-Binds ports port (open_callback listener) Err.already h,
)
