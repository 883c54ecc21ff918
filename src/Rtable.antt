-- ===== src/Rtable.antt =====
-- src/csp_rtable_cidr.c: the routing table.
pub mod Find
pub mod Set
pub mod Backward
mod Tests
use libcsp.Core.{ℕ, zero, suc, ◌+◌, ◌-◌, ◌%◌, ◌^◌, bit_and, ltb, leb, ◌==◌, ◌&&◌, Bool, true, false}
use libcsp.Core.{List, [], ◌∷◌, ◌++◌, Option, none, some, if◌then◌else◌, length, set, get_elem?}
use libcsp.Core.Int.{ℤ, pos, negsuc}
use libcsp.Packet.{Err, DbgErr}
use libcsp.Id.{get_host_bits}

-- `csp_route_t`; `iface` is the number of an interface.
pub record Route : Type 0 where
  pub address : ℕ
  pub netmask : ℕ
  pub via : ℕ
  pub iface : ℕ

abbrev pub rtable_size : ℕ
rtable_size = 10

-- The table is `rtable[0 .. rtable_inptr)`; nothing reads the elements behind.
abbrev pub Rtable : Type 0
Rtable = List Route

abbrev pub matches_exact : Route → ℕ → ℕ → ℕ → Bool
matches_exact r addr netmask ifc = r.address == addr && (r.netmask == netmask && r.iface == ifc)

-- The index of the entry.
pub find_exact : Rtable → ℕ → ℕ → ℕ → Option ℕ
find_exact [] addr netmask ifc = none
find_exact (r ∷ rs) addr netmask ifc =
    if matches_exact r addr netmask ifc
    then some 0
    else elim (find_exact rs addr netmask ifc) [ none ↦ none | some i ↦ some (suc i) ]

-- The loop of `csp_rtable_search_backward` from the route before index `i` down.
pub search_down : Rtable → Route → ℕ → Option ℕ
search_down rs start zero = none
search_down rs start (suc i) =
    let rest = search_down rs start i in
    elim (get_elem? rs i) [
      | none ↦ rest
      | some r ↦ if r.netmask == start.netmask && r.address == start.address then some i else rest
    ]

-- A pointer into the table is an index, and NULL is `none`.
pub search_backward : Rtable → Option ℕ → Option ℕ
search_backward rs none = none
search_backward rs (some i) = elim (get_elem? rs i) [
  | none ↦ none
  | some start ↦ search_down rs start i
]

-- `rtable[i].address & netbits == addr & netbits`; a shift by a negative count, which C leaves
-- undefined and `csp_rtable_set` rules out, is one by 0.
pub net_matches : ℕ → Route → ℕ → Bool
net_matches host_bits r addr =
    let hostbits = (2 ^ (host_bits - r.netmask) - 1) % 2 ^ 16 in
    let netbits = 2 ^ 16 - 1 - hostbits in bit_and r.address netbits == bit_and addr netbits

-- The loop of `csp_rtable_find_route`; -1 for `best_result` is `none`.
pub find_loop : ℕ → ℕ → Rtable → ℕ → Option ℕ → ℕ → Option ℕ
find_loop host_bits addr [] i best best_mask = best
find_loop host_bits addr (r ∷ rs) i best best_mask =
    let better = net_matches host_bits r addr && leb best_mask r.netmask in
    find_loop host_bits addr rs (i + 1) (if better then some i else best)
      (if better then r.netmask else best_mask)

pub find_route : ℕ → Rtable → ℕ → Option ℕ
find_route version rs addr = find_loop (get_host_bits version) addr rs 0 none 0

pub set_internal : Rtable → ℕ → ℕ → ℕ → ℕ → Err × Rtable
set_internal rs address netmask ifc via =
    let entry : Route = record { address = address; netmask = netmask; via = via; iface = ifc } in
    elim (find_exact rs address netmask ifc) [
      | some i ↦ (Err.none, set rs i entry)
      | none ↦
          if leb rtable_size (length rs) then (Err.nomem, rs) else (Err.none, rs ++ (entry ∷ []))
    ]

unfoldable pub rtable_free : Rtable → Rtable
rtable_free rs = []

unfoldable pub rtable_clear : Rtable → Rtable
unfolding rtable_free
rtable_clear rs = rtable_free rs

-- A netmask that is negative or longer than an address stands for the whole address.
abbrev pub effective_netmask : ℕ → ℤ → ℕ
effective_netmask version (pos n) =
    if ltb (get_host_bits version) n then get_host_bits version else n
effective_netmask version (negsuc n) = get_host_bits version

-- What `csp_dbg_errno` is set to comes last. `ifc` is `none` for NULL.
pub rtable_set : ℕ → Rtable → ℕ → ℤ → Option ℕ → ℕ → Err × Rtable × Option DbgErr
rtable_set version rs address netmask none via = (Err.inval, rs, some DbgErr.invalid_rtable_entry)
rtable_set version rs address netmask (some ifc) via =
    let (e, rs') = set_internal rs address (effective_netmask version netmask) ifc via in
    (e, rs', none)

-- `csp_rtable_iterate` calls `iter` on every entry, whatever it returns; `S` is what `iter` reaches
-- through `ctx`.
unfoldable pub rtable_iterate : {S : Type 0} → (S → Route → S × Bool) → S → Rtable → S
rtable_iterate iter ctx [] = ctx
rtable_iterate iter ctx (r ∷ rs) = let (ctx', more) = iter ctx r in rtable_iterate iter ctx' rs
