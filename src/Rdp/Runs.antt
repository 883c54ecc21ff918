-- ===== src/Rdp/Runs.antt =====
-- src/csp_rdp.c, run on a connection.
use libcsp.Core.{ℕ, ◌+◌, ◌*◌, ◌≡◌, ◌≤◌, ◌<◌, ◌↔◌, refl, arith, [], ◌∷◌, some, true, false, length}
use libcsp.Samples.{ping}
use libcsp.Packet.{Packet}
use libcsp.Conn.{rdp_open}
use libcsp.Rdp.{
  Header, wire_header, seq_between, seq_before, seq_after, time_after, time_before, to_host,
}
use libcsp.Rdp.World.{World, packet_at}
use libcsp.Rdp.Control.{send_cmp, send_packet, send_control, send_headed}
use libcsp.Rdp.Receive.{
  enqueue, receive_data, deliver, flush_packet, scan_packet, flush_scan, flush_fronts,
  rx_queue_flush, seq_in_loop, rx_queue_add, should_ack, check_ack,
}
use libcsp.Rdp.Machine.{
  new_packet, on_data, dispatch, dispatch_in, on_open, on_valid, take_data, keep_data, leave,
  ack_ok, store_ack,
}
use libcsp.Buffer.{buffer_free, buffer_get, release}
use libcsp.Rdp.{to_host, header_add}
use libcsp.Rdp.Link.{send_waiting}
use libcsp.Rdp.Closing.{
  Parties, ClosesWhenAll, WaitsFor, close_run, union_all, close_run-ClosesWhenAll,
}
use libcsp.Rdp.Moves.{new_packet-Moves}
use libcsp.Rdp.States.{Moves}
use libcsp.Rdp.Data.{Takes, on_data-Takes}
use libcsp.Rdp.Rounds.{rx_queue_flush-enough}
use libcsp.Rdp.Window.{IsSender, Waited, in_flight, send_waiting-Waited, ack_ok_iff}
use libcsp.Rdp.RoundTrip.{Travels, header_add-Travels}
use libcsp.Rdp.Sample.{world}
use libcsp.RdpQueue.{rx_size, rx_get, rx_add, enqueue_shared}

abbrev rand_zero : ℕ → ℕ
rand_zero seed = 0

new_packet-Moves_example :
    Moves world
      (wire_header (packet_at world 2))
      rdp_open
      (new_packet rand_zero world 2).1.conn.rdp.state
new_packet-Moves_example = new_packet-Moves rand_zero world 2

-- The second packet comes first, and waits for the first; user space gets both in order.
after_both : World
after_both = (new_packet rand_zero (new_packet rand_zero world 1).1 0).1

new_packet_run :
    (after_both.conn.rx_queue ≡ some 0 ∷ some 1 ∷ [])
    × (after_both.conn.rdp.rcv_cur ≡ 1)
    × (after_both.conn.rdp.snd_una ≡ 101)
    × (length after_both.sent ≡ 0)
unfolding after_both new_packet to_host dispatch dispatch_in on_open on_valid on_data take_data
    keep_data leave receive_data enqueue rx_queue_add seq_in_loop check_ack rx_queue_flush
    flush_fronts flush_scan scan_packet flush_packet deliver rx_size rx_get rx_add enqueue_shared
    seq_between should_ack seq_after seq_before time_after time_before buffer_free release send_cmp
    send_packet send_control send_headed header_add buffer_get
new_packet_run = (refl, refl, refl, refl)

abbrev nobody : Parties
nobody = record { userspace = false; protocol = false; timeout = false }

abbrev by_user : Parties
by_user = record nobody { userspace = true }

abbrev by_network : Parties
by_network = record { userspace = false; protocol = true; timeout = true }

world-WaitsFor : WaitsFor world nobody
world-WaitsFor = record { open_state = refl; is_rdp = refl; not_yet = λ e. cc e; by = refl }

close_run-ClosesWhenAll_example :
    ClosesWhenAll
      (close_run world (by_user ∷ by_user ∷ by_network ∷ []))
      (union_all nobody (by_user ∷ by_user ∷ by_network ∷ []))
close_run-ClosesWhenAll_example =
    close_run-ClosesWhenAll world nobody (by_user ∷ by_user ∷ by_network ∷ []) world-WaitsFor refl

abbrev header_0 : Header
header_0 = record { flags = 4; seq_nr = 0; ack_nr = 100 }

on_data-Takes_example : Takes world 0 header_0 (on_data world 0 header_0)
on_data-Takes_example = on_data-Takes world 0 header_0

world-empty : rx_size world.queues < 3
unfolding rx_size
world-empty = omega arith

rx_queue_flush-enough_example : flush_fronts 3 world ≡ rx_queue_flush world
rx_queue_flush-enough_example = rx_queue_flush-enough world 3 world-empty

world-IsSender : IsSender world
world-IsSender = (omega arith, omega arith, omega arith, omega arith, omega arith)

send_waiting-Waited_example : Waited (world ∷ []) (send_waiting (world ∷ []) 1)
send_waiting-Waited_example = send_waiting-Waited (world ∷ []) 1 (world-IsSender, tt)

ack_ok_example :
    (ack_ok world header_0 ≡ true)
    ↔ (in_flight (store_ack world header_0) ≤ in_flight world + 2 * world.conn.rdp.window_size)
ack_ok_example =
    ack_ok_iff world header_0 (omega arith) (omega arith) (omega arith) (omega arith) (omega arith)

header_add-Travels_example : (q : Packet) × Travels ping header_0 q
header_add-Travels_example =
    header_add-Travels ping header_0 refl (omega arith) (omega arith, omega arith, omega arith)
