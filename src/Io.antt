-- ===== src/Io.antt =====
-- src/csp_io.c and src/csp_promisc.c: sending a packet by way of the interfaces. The routing table
-- (CSP_USE_RTABLE) is off, as in the default build.
pub mod Direct
pub mod Calls
pub mod Sent
pub mod Horizon
pub mod Sample
mod Tests
use libcsp.Core.{
  ℕ, suc, ◌+◌, ◌%◌, ◌^◌, ◌==◌, ◌&&◌, ◌||◌, ltb, Bool, true, false, not, bit_and, bit_or,
}
use libcsp.Core.{if◌then◌else◌, List, [], ◌∷◌, ◌++◌, Option, none, some, length}
use libcsp.Packet.{
  Packet, CspId, Err, is_ok, DbgErr, Iface, fhmac, fcrc32, so_hmacreq, so_crc32req, so_rdpreq,
  so_conn_less,
}
use libcsp.Buffer.{Buffers, buffer_free, buffer_clone, packet_of, store_packet}
use libcsp.Conn.{option_set, rxqueue_len}
use libcsp.Crc.{crc32_append}
use libcsp.Id.{is_broadcast, get_max_nodeid}
use libcsp.Iflist.{Interfaces, is_within_subnet, get_by_subnet, get_by_isdfl}
use libcsp.Iflist.Walk.{walk}
use libcsp.Queue.Fifo.{Status, ok, push, pop}

-- A packet that an interface has taken.
pub record Transmission : Type 0 where
  pub iface : Iface
  pub via : ℕ
  pub packet : Packet

-- What sending reads and writes. `promisc` is the queue of the promiscuous task, `none` before it is
-- created; `transmitted` the packets given to interfaces, in order; `conn_ovf` `csp_dbg_conn_ovf`.
pub record Node : Type 0 where
  pub version : ℕ
  pub interfaces : Interfaces
  pub buffers : Buffers
  pub promisc : Option (List ℕ)
  pub promisc_enabled : Bool
  pub conn_ovf : ℕ
  pub transmitted : List Transmission

abbrev pub set_buffers : Node → Buffers → Node
set_buffers n buffers = record n { buffers = buffers }

abbrev pub release_packet : Node → ℕ → Node
release_packet n packet = set_buffers n (buffer_free n.buffers (some packet))

-- `csp_promisc_enable`, `csp_promisc_disable` and `csp_promisc_read`
pub promisc_enable : Node → Err × Node
promisc_enable n = elim (n.promisc) [
  | some queue ↦ (Err.used, record n { promisc_enabled = true })
  | none ↦ (Err.none, record n { promisc = some []; promisc_enabled = true })
]

abbrev pub promisc_disable : Node → Node
promisc_disable n = record n { promisc_enabled = false }

pub promisc_read : Node → Option ℕ × Node
promisc_read n = elim (n.promisc) [
  | none ↦ (none, n)
  | some [] ↦ (none, n)
  | some (packet ∷ queue) ↦ (some packet, record n { promisc = some queue })
]

-- `csp_promisc_add`, from where there is a copy.
unfoldable pub promisc_copy : Node → List ℕ → Option ℕ → Node
promisc_copy n queue none = n
promisc_copy n queue (some copy) =
    let (e, queue') = push rxqueue_len queue copy in
    elim e [
      | ok ↦ record n { promisc = some queue' }
      | _ ↦ release_packet (record n { conn_ovf = (n.conn_ovf + 1) % 2 ^ 8 }) copy
    ]

unfoldable pub promisc_add : Node → ℕ → Node
promisc_add n packet =
    let (copy, buffers') = buffer_clone n.buffers packet in
    if n.promisc_enabled
    then elim (n.promisc) [
      | none ↦ n
      | some queue ↦ promisc_copy (set_buffers n buffers') queue copy
    ]
    else n

-- Loopback traffic is added by the router.
unfoldable pub observe : Bool → Node → ℕ → Node
observe outgoing n packet = if outgoing then promisc_add n packet else n

-- A change to an interface of the list.
unfoldable pub change_iface : Interfaces → ℕ → (Iface → Iface) → Interfaces
change_iface [] h f = []
change_iface (i ∷ is) h f =
    let rest = change_iface is h f in if i.handle == h then f i ∷ is else i ∷ rest

abbrev pub count_handle : Node → ℕ → (Iface → Iface) → Node
count_handle n h f = record n { interfaces = change_iface n.interfaces h f }

abbrev pub count_iface : Node → Iface → (Iface → Iface) → Node
count_iface n i f = record n { interfaces = change_iface n.interfaces i.handle f }

abbrev count_tx : ℕ → Iface → Iface
count_tx bytes i = record i { tx = (i.tx + 1) % 2 ^ 32; txbytes = (i.txbytes + bytes) % 2 ^ 32 }

abbrev tx_err : Node → ℕ → Iface → Node
tx_err n packet i =
    count_iface (release_packet n packet) i (λ j. record j { tx_error = (j.tx_error + 1) % 2 ^ 32 })

-- The number of `csp_if_lo`, and its address. CSP_NO_VIA_ADDRESS.
abbrev pub lo_handle : ℕ
lo_handle = 0

abbrev pub lo_addr : ℕ
lo_addr = 0

abbrev pub no_via : ℕ
no_via = 0xFFFF

-- A round of one of the loops of `csp_send_direct`, for an interface that a look-up gave: the
-- packet does not go back to where it came from, or into a subnet of that interface. `sender` is
-- the identifier with the address of the interface, if there was none, and is not used otherwise.
abbrev pub goes_back : ℕ → Option Iface → Iface → Bool
goes_back version none i = false
goes_back version (some r) i = i.handle == r.handle || is_within_subnet version i.addr (some r)

abbrev pub with_source : Bool → CspId → Iface → CspId → CspId
with_source from_me idout i target =
    if from_me && idout.src == 0 then record target { src = i.addr } else target

-- The identifier `_idout` that the loop over the local subnets goes on with.
abbrev pub local_id : ℕ → Bool → CspId → Iface → CspId → CspId
local_id version from_me idout i _idout =
    let sourced = with_source from_me idout i _idout in
    if is_broadcast version idout.dst i
    then record sourced { dst = get_max_nodeid version }
    else sourced

-- Authentication and the transmit functions of the interfaces are other parts: `csp_hmac_append`
-- gives an error or the packet with its code, `nexthop` whether the interface takes the packet.
module _ (hmac_append : Packet → Err × Packet) (nexthop : Iface → ℕ → Packet → Bool → Err) where
  unfoldable pub append_crc : ℕ → Packet → Bool × Packet
  append_crc flags p =
      let (e, p') = crc32_append p in if option_set flags fcrc32 then (is_ok e, p') else (true, p)

  -- Only packets from this node are protected; false is the jump to `tx_err`.
  unfoldable pub protect : Bool → ℕ → Packet → Bool × Packet
  protect from_me flags p =
      let (e, p') = hmac_append p in
      if not from_me
      then (true, p)
      else if not (option_set flags fhmac)
      then append_crc flags p
      else if is_ok e
      then append_crc flags p'
      else (false, p')

  unfoldable pub transmit : Node → ℕ → Iface → ℕ → Bool → Node
  transmit n packet i via from_me =
      let p = packet_of n.buffers packet in
      let taken = record n {
        transmitted = n.transmitted ++ (record { iface = i; via = via; packet = p } ∷ []);
      } in
      if is_ok (nexthop i via p from_me)
      then count_iface taken i (count_tx p.length)
      else tx_err n packet i

  -- `csp_send_direct_iface`
  unfoldable pub send_direct_iface : Node → CspId → ℕ → Iface → ℕ → Bool → Node
  send_direct_iface n idout packet i via from_me =
      let (done, p) =
        protect from_me idout.flags (record (packet_of n.buffers packet) { id = idout }) in
      let n' = set_buffers n (store_packet n.buffers packet p) in
      let seen = observe (from_me && not (i.handle == lo_handle)) n' packet in
      if done then transmit seen packet i via from_me else tx_err n' packet i

  unfoldable pub send_clone : Node → CspId → Option ℕ → Iface → Bool → Node
  send_clone n idout none i from_me = n
  send_clone n idout (some copy) i from_me = send_direct_iface n idout copy i no_via from_me

  unfoldable pub send_copy_to : Node → CspId → ℕ → Iface → Bool → Node
  send_copy_to n idout packet i from_me =
      let (copy, buffers') = buffer_clone n.buffers packet in
      send_clone (set_buffers n buffers') idout copy i from_me
