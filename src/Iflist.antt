-- ===== src/Iflist.antt =====
-- src/csp_iflist.c: the list of interfaces.
pub mod Walk
pub mod Network
pub mod Insert
mod Tests
use libcsp.Core.{
  ℕ, zero, suc, ◌+◌, ◌-◌, ◌*◌, ◌%◌, ◌^◌, ◌==◌, ◌&&◌, ◌||◌, bit_and, Bool, true, false,
}
use libcsp.Core.{if◌then◌else◌, List, [], ◌∷◌, ◌++◌, Option, none, some, get_elem?, take}
use libcsp.Packet.{Iface}
use libcsp.Id.{get_host_bits}

-- The linked list `interfaces`, in order; an interface is known by its number.
abbrev pub Interfaces : Type 0
Interfaces = List Iface

-- `netmask` of the interface; a shift by a negative count, which C leaves undefined, is one by 0.
abbrev pub net_of : ℕ → ℕ → ℕ → ℕ
net_of version netmask addr =
    bit_and addr ((2 ^ netmask - 1) * 2 ^ (get_host_bits version - netmask) % 2 ^ 16)

-- NULL is `none`.
unfoldable pub is_within_subnet : ℕ → ℕ → Option Iface → Bool
is_within_subnet version addr none = false
is_within_subnet version addr (some ifc) =
    net_of version ifc.netmask ifc.addr == net_of version ifc.netmask addr

-- The interfaces behind the one given, or all.
pub behind : ℕ → Interfaces → Interfaces
behind h [] = []
behind h (i ∷ is) = let rest = behind h is in if i.handle == h then is else rest

abbrev pub rest_of : Interfaces → Option ℕ → Interfaces
rest_of ifs none = ifs
rest_of ifs (some h) = behind h ifs

-- The loops of the look-ups: the first interface that passes a test.
pub first_such : (Iface → Bool) → Interfaces → Option ℕ
first_such test [] = none
first_such test (i ∷ is) = let rest = first_such test is in if test i then some i.handle else rest

abbrev pub serves : ℕ → ℕ → Iface → Bool
serves version addr i = if i.netmask == 0 then false else is_within_subnet version addr (some i)

unfoldable pub get_by_subnet : Interfaces → ℕ → ℕ → Option ℕ → Option ℕ
unfolding first_such behind
get_by_subnet ifs version addr ifc = first_such (serves version addr) (rest_of ifs ifc)

unfoldable pub get_by_isdfl : Interfaces → Option ℕ → Option ℕ
unfolding first_such behind
get_by_isdfl ifs ifc = first_such (λ i. i.is_default == 1) (rest_of ifs ifc)

unfoldable pub iterate : Interfaces → Option ℕ → Option ℕ
unfolding first_such behind
iterate ifs ifc = first_such (λ i. true) (rest_of ifs ifc)

unfoldable pub get_by_addr : Interfaces → ℕ → Option ℕ
unfolding first_such
get_by_addr ifs addr = first_such (λ i. i.addr == addr) ifs

-- CSP_IFLIST_NAME_MAX
abbrev pub name_max : ℕ
name_max = 10

-- `strncmp(a, b, n) == 0` for names without their end.
pub same_name : ℕ → List ℕ → List ℕ → Bool
same_name zero as' bs = true
same_name (suc n) [] [] = true
same_name (suc n) [] (b ∷ bs) = false
same_name (suc n) (a ∷ as') [] = false
same_name (suc n) (a ∷ as') (b ∷ bs) = (a == b) && same_name n as' bs

unfoldable pub get_by_name : Interfaces → List ℕ → Option ℕ
unfolding first_such same_name
get_by_name ifs name = first_such (λ i. same_name name_max i.name name) ifs

-- All interfaces but the loopback become defaults, if none is one.
pub make_default : ℕ → Interfaces → Interfaces
make_default lo [] = []
make_default lo (i ∷ is) =
    (if i.handle == lo then i else record i { is_default = 1 }) ∷ make_default lo is

unfoldable pub check_dfl : ℕ → Interfaces → Interfaces
unfolding get_by_isdfl make_default
check_dfl lo ifs = elim (get_by_isdfl ifs none) [ some h ↦ ifs | none ↦ make_default lo ifs ]

-- `(i == ifc) || (strncmp(ifc->name, i->name, CSP_IFLIST_NAME_MAX) == 0)`
abbrev pub clashes : Iface → Iface → Bool
clashes ifc i = (i.handle == ifc.handle) || same_name name_max ifc.name i.name

-- `ifc->next = NULL`: what stood behind the interface, if it is in the list, is cut off.
pub cut_behind : Interfaces → ℕ → Interfaces
cut_behind [] h = []
cut_behind (i ∷ is) h = let rest = cut_behind is h in if i.handle == h then i ∷ [] else i ∷ rest

-- The loop to the last interface.
pub insert_last : Interfaces → Iface → Interfaces
insert_last [] ifc = ifc ∷ []
insert_last (i ∷ is) ifc =
    let rest = insert_last is ifc in if clashes ifc i then i ∷ is else i ∷ rest

-- `csp_iflist_add` for an interface that has a name.
pub iflist_add : Interfaces → Iface → Interfaces
unfolding cut_behind insert_last
iflist_add ifs ifc = insert_last (cut_behind ifs ifc.handle) ifc

pub iflist_remove : Interfaces → ℕ → Interfaces
iflist_remove [] h = []
iflist_remove (i ∷ is) h = let rest = iflist_remove is h in if i.handle == h then is else i ∷ rest
