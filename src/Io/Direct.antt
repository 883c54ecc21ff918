-- ===== src/Io/Direct.antt =====
-- src/csp_io.c: `csp_send_direct`, the choice of interfaces for a packet.
use libcsp.Core.{ℕ, suc, ◌==◌, Bool, true, false, List, [], ◌∷◌, Option, none, some}
use libcsp.Core.{if◌then◌else◌, length}
use libcsp.Packet.{Packet, CspId, Err, Iface}
use libcsp.Iflist.{Interfaces, get_by_subnet, get_by_isdfl}
use libcsp.Iflist.Walk.{walk}
use libcsp.Io.{
  Node, release_packet, send_direct_iface, goes_back, send_copy_to, local_id, with_source, lo_addr,
  lo_handle, no_via,
}

-- `csp_if_lo`; the counters are those at the start.
abbrev pub csp_if_lo : Iface
csp_if_lo = record {
  handle = lo_handle;
  addr = lo_addr;
  netmask = 0;
  name = 76 ∷ 79 ∷ 79 ∷ 80 ∷ [];
  is_default = 0;
  tx = 0;
  rx = 0;
  tx_error = 0;
  rx_error = 0;
  drop = 0;
  autherr = 0;
  frame = 0;
  txbytes = 0;
  rxbytes = 0;
}

-- The interface that a pointer of a look-up points at.
unfoldable pub find_iface : Interfaces → ℕ → Option Iface
find_iface [] h = none
find_iface (i ∷ is) h = let rest = find_iface is h in if i.handle == h then some i else rest

-- The interfaces that the two loops meet; their settings do not change on the way.
abbrev pub local_walk : Node → ℕ → List ℕ
local_walk n dst = walk (suc (length n.interfaces)) (get_by_subnet n.interfaces n.version dst) none

abbrev pub default_walk : Node → List ℕ
default_walk n = walk (suc (length n.interfaces)) (get_by_isdfl n.interfaces) none

abbrev pub is_from_me : Option Iface → Bool
is_from_me none = true
is_from_me (some r) = false

module _ (hmac_append : Packet → Err × Packet) (nexthop : Iface → ℕ → Packet → Bool → Err) where
  -- `from` is the interface that a packet is routed from, `none` for one of this node.
  unfoldable pub local_round :
      ℕ → Node → CspId → CspId → ℕ → Option Iface → Option Iface → Node × CspId
  local_round version n idout _idout packet from none = (n, _idout)
  local_round version n idout _idout packet from (some i) =
      let id' = local_id version (is_from_me from) idout i _idout in
      if goes_back version from i
      then (n, _idout)
      else (send_copy_to hmac_append nexthop n id' packet i (is_from_me from), id')

  unfoldable pub local_loop :
      ℕ → List ℕ → Interfaces → Node → CspId → CspId → ℕ → Option Iface → Node
  local_loop version [] ifs n idout _idout packet from = n
  local_loop version (h ∷ hs) ifs n idout _idout packet from =
      let (n', id') = local_round version n idout _idout packet from (find_iface ifs h) in
      local_loop version hs ifs n' idout id' packet from

  -- The loop over the default interfaces writes the address into the caller's identifier.
  unfoldable pub default_round : ℕ → Node → CspId → ℕ → Option Iface → Option Iface → Node × CspId
  default_round version n idout packet from none = (n, idout)
  default_round version n idout packet from (some i) =
      let id' = with_source (is_from_me from) idout i idout in
      if goes_back version from i
      then (n, idout)
      else (send_copy_to hmac_append nexthop n id' packet i (is_from_me from), id')

  unfoldable pub default_loop :
      ℕ → List ℕ → Interfaces → Node → CspId → ℕ → Option Iface → Node × CspId
  default_loop version [] ifs n idout packet from = (n, idout)
  default_loop version (h ∷ hs) ifs n idout packet from =
      let (n', id') = default_round version n idout packet from (find_iface ifs h) in
      default_loop version hs ifs n' id' packet from

  -- With the interfaces of local subnets that were met.
  unfoldable pub send_met : List ℕ → Node → CspId → ℕ → Option Iface → Node × CspId
  send_met [] n idout packet from =
      let (n', id') = default_loop n.version (default_walk n) n.interfaces n idout packet from in
      (release_packet n' packet, id')
  send_met (h ∷ hs) n idout packet from = (
    release_packet (local_loop n.version (h ∷ hs) n.interfaces n idout idout packet from) packet,
    idout,
  )

  -- `csp_send_direct`, with the caller's identifier afterwards.
  unfoldable pub send_direct : Node → CspId → ℕ → Option Iface → Node × CspId
  send_direct n idout packet from =
      if idout.dst == lo_addr
      then (
        send_direct_iface hmac_append nexthop n idout packet csp_if_lo no_via (is_from_me from),
        idout,
      )
      else send_met (local_walk n idout.dst) n idout packet from
