-- ===== src/Port/Tests.antt =====
-- A table with two listeners on which the theorems about src/csp_port.c are run.
use libcsp.Core.{◌≡◌, refl, arith, [], ◌∷◌, replicate, set, some, none}
use libcsp.Packet.{Err, DbgErr}
use libcsp.Port.{closed, open_socket, open_callback, Ports, Socket, get_socket, get_callback}
use libcsp.Port.{bind, bind_callback, bind_checked, save_listener, socket_close}
use libcsp.Port.Listen.{Binds, get-listener, bind-Binds}
use libcsp.Port.Close.{IsUnbound, socket_close-bind}

-- A socket on port 10 and a callback on every port that has no listener.
abbrev table : Ports
table = set (set (replicate 18 closed) 10 (open_socket 5)) 17 (open_callback 9)

abbrev server : Socket
server = record { handle = 7; rx_queue = some (1 ∷ 2 ∷ []) }

get_run :
    (get_socket table 10 ≡ some 5)
    × (get_callback table 10 ≡ none)
    × (get_socket table 3 ≡ none)
    × (get_callback table 3 ≡ some 9)
    × (get_callback table 17 ≡ none)
unfolding get_socket get_callback
get_run = (refl, refl, refl, refl, refl)

bind_run :
    (bind table (some 7) 10 ≡ (Err.used, table, some DbgErr.port_already_in_use))
    × (bind_callback table (some 7) 255 ≡ (Err.already, table, some DbgErr.port_already_in_use))
    × (bind table (some 7) 17 ≡ (Err.inval, table, some DbgErr.invalid_bind_port))
    × (bind table (some 7) 3 ≡ (Err.none, set table 3 (open_socket 7), none))
unfolding bind bind_callback bind_checked save_listener
bind_run = (refl, refl, refl, refl)

get-listener_example : (get_socket table 3 ≡ none) × (get_callback table 3 ≡ some 9)
get-listener_example = get-listener table 3

bind-Binds_example :
    Binds table 3 (open_socket 7) Err.used (bind table (some 7) 3)
    × Binds table 3 (open_callback 7) Err.already (bind_callback table (some 7) 3)
bind-Binds_example = bind-Binds table 7 3 refl

socket_close_run : (socket_close (set table 3 (open_socket 7)) (some server)).3 ≡ 1 ∷ 2 ∷ []
unfolding socket_close
socket_close_run = refl

table-IsUnbound : IsUnbound 7 table
table-IsUnbound = ground arith

socket_close-bind_example : (socket_close (bind table (some 7) 3).1 (some server)).1 ≡ table
socket_close-bind_example = socket_close-bind table server 3 table-IsUnbound
