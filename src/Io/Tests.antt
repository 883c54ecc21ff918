-- ===== src/Io/Tests.antt =====
-- src/csp_io.c, run on a node with two interfaces.
use libcsp.Core.{ℕ, ◌≡◌, refl, Bool, [], ◌∷◌, none, some}
use libcsp.Packet.{Packet, CspId, Err, Iface}
use libcsp.Samples.{can0}
use libcsp.Iflist.Walk.{AreDistinct, walk}
use libcsp.Io.Sample.{node}
use libcsp.Core.{map}
use libcsp.Io.{
  Node, send_copy_to, send_clone, send_direct_iface, protect, append_crc, observe, transmit,
  promisc_add, change_iface,
}
use libcsp.Buffer.{buffer_clone, get_actual, hand_out, buffer_free, release, buffer_copy}
use libcsp.Iflist.{get_by_subnet, is_within_subnet}
use libcsp.Id.{is_broadcast}
use libcsp.Io.Direct.{send_direct, send_met, local_loop, local_round, find_iface}
use libcsp.Io.Horizon.{Chosen, send_direct-Chosen}
use libcsp.Io.Sent.{Sent}

abbrev no_hmac : Packet → Err × Packet
no_hmac p = (Err.none, p)

abbrev takes_all : Iface → ℕ → Packet → Bool → Err
takes_all i via p from_me = Err.none

abbrev to_can1 : CspId
to_can1 = record { pri = 2; flags = 0; src = 0; dst = 0x206; dport = 1; sport = 33 }

node-AreDistinct : AreDistinct node.interfaces
unfolding AreDistinct
node-AreDistinct = ((refl, tt), (tt, tt))

send_direct-Chosen_example :
    Sent
      (Chosen node to_can1.dst (some can0))
      (send_direct no_hmac takes_all node to_can1 0 (some can0)).0
send_direct-Chosen_example =
    send_direct-Chosen no_hmac takes_all node to_can1 0 (some can0) node-AreDistinct refl refl

-- A packet of this node goes to the one interface in the network of its destination, with the
-- address of that.
sent_to_can1 : Node
sent_to_can1 = (send_direct no_hmac takes_all node to_can1 0 none).0

send_direct_run :
    (map (λ t. t.iface.handle) sent_to_can1.transmitted ≡ 2 ∷ [])
    × (map (λ t. t.packet.id.src) sent_to_can1.transmitted ≡ 0x205 ∷ [])
unfolding sent_to_can1 send_direct send_met local_loop local_round send_copy_to send_clone
    send_direct_iface protect append_crc observe transmit walk get_by_subnet is_within_subnet
    find_iface buffer_clone get_actual hand_out buffer_free release buffer_copy promisc_add
    is_broadcast change_iface
send_direct_run = (refl, refl)
