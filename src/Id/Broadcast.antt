-- ===== src/Id/Broadcast.antt =====
-- `csp_id_is_broadcast` of src/csp_id.c against the reading of an address as network and host.
use libcsp.Core.{ℕ, ◌+◌, ◌-◌, ◌*◌, ◌/◌, ◌%◌, ◌^◌, ◌≤◌, ◌≡◌, ◌↔◌, ◌⊎◌, ap, arith}
use libcsp.Core.{true, ◌&&◌, ◌==◌, bit_and, if◌then◌else◌}
use libcsp.Core.Masks.{bit_and-mask, high_mask-eq, high_mask_iff}
use native.Mathlib.Nat.{pow-le-pow_right}
use libcsp.Packet.{Iface}
use libcsp.Id.{is_broadcast, get_host_bits, get_max_nodeid}

-- `addr` is the last address of the subnet with `netmask` bits of network that `net` belongs to.
abbrev pub IsSubnetBroadcast : ℕ → ℕ → ℕ → ℕ → Type 0
IsSubnetBroadcast host_bits netmask net addr =
    (addr % 2 ^ (host_bits - netmask) ≡ 2 ^ (host_bits - netmask) - 1)
    × (addr / 2 ^ (host_bits - netmask) % 2 ^ netmask
        ≡ net / 2 ^ (host_bits - netmask) % 2 ^ netmask)

host_bits-le : (version : ℕ) → get_host_bits version ≤ 14
host_bits-le version = ground arith

-- The test of the code with its masks written out.
module _ (k n addr net last : ℕ) where
  masks_iff :
      (h m : ℕ)
      → h ≡ 2 ^ k - 1
      → m ≡ (2 ^ n - 1) * 2 ^ k
      → ((if (bit_and addr h == h) && (bit_and addr m == bit_and net m) then true else addr == last)
          ≡ true)
        ↔ (((addr % 2 ^ k ≡ 2 ^ k - 1) × (addr / 2 ^ k % 2 ^ n ≡ net / 2 ^ k % 2 ^ n))
            ⊎ (addr ≡ last))
  masks_iff h m eh em =
      rw (eh, em, bit_and-mask k addr) (ground (arith, high_mask_iff k n addr net))

-- An address is a broadcast address for an interface exactly when it has all host bits set and the
-- interface's network, or is the last of all addresses, if the netmask is at most the address
-- size.
pub is_broadcast_iff :
    (version addr : ℕ) (iface : Iface)
    → iface.netmask ≤ get_host_bits version
    → (is_broadcast version addr iface ≡ true) ↔ (
        IsSubnetBroadcast (get_host_bits version) iface.netmask iface.addr addr
        ⊎ (addr ≡ get_max_nodeid version))
unfolding is_broadcast
is_broadcast_iff version addr iface h =
    let n = iface.netmask in
    let k = get_host_bits version - n in
    let small : 2 ^ k ≤ 2 ^ 14 =
      pow-le-pow_right (omega arith) {j = 14} (omega (arith, host_bits-le version)) in
    let whole : 2 ^ get_host_bits version ≡ 2 ^ (n + k) = ap (λ (t : ℕ). 2 ^ t) (omega arith) in
    let wide : 2 ^ get_host_bits version ≤ 2 ^ 14 =
      pow-le-pow_right (omega arith) {j = 14} (host_bits-le version) in
    masks_iff k n addr iface.addr (get_max_nodeid version) _ _ (omega (arith, small))
      (omega (arith, small, whole, wide, high_mask-eq n k))
