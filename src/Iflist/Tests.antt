-- ===== src/Iflist/Tests.antt =====
-- Interfaces on which the theorems about src/csp_iflist.c are run.
use libcsp.Core.{suc, ◌≡◌, refl, [], ◌∷◌, some, none, length}
use libcsp.Packet.{Iface}
use libcsp.Samples.{can0}
use libcsp.Iflist.{Interfaces, get_by_subnet, get_by_isdfl, get_by_addr, get_by_name, check_dfl}
use libcsp.Iflist.{iflist_add, iflist_remove, same_name, first_such}
use libcsp.Iflist.{is_within_subnet, behind, iterate, make_default}
use libcsp.Iflist.Walk.{AreDistinct, walk}
use libcsp.Iflist.Network.{Selects, IsInNetwork, walk-Selects}
use libcsp.Core.{arith}
use libcsp.Iflist.Insert.{IsNew, iflist_remove-iflist_add, iflist_add-again}

abbrev can : Iface
can = record can0 { name = 67 ∷ [] }

abbrev kiss : Iface
kiss = record can0 { handle = 2; addr = 0x105; netmask = 10; name = 75 ∷ []; is_default = 1 }

abbrev lo : Iface
lo = record can0 { handle = 3; addr = 0; netmask = 0; name = 76 ∷ [] }

abbrev ifs : Interfaces
ifs = can ∷ kiss ∷ lo ∷ []

look_up_run :
    (get_by_subnet ifs 2 0x106 none ≡ some 1)
    × (get_by_subnet ifs 2 0x106 (some 1) ≡ some 2)
    × (get_by_subnet ifs 2 0x106 (some 2) ≡ none)
    × (get_by_isdfl ifs none ≡ some 2)
    × (get_by_addr ifs 0 ≡ some 3)
    × (get_by_name ifs (75 ∷ []) ≡ some 2)
    × (iterate ifs (some 2) ≡ some 3)
unfolding get_by_subnet get_by_isdfl get_by_addr get_by_name iterate first_such behind
    is_within_subnet same_name
look_up_run = (refl, refl, refl, refl, refl, refl, refl)

check_dfl_run : check_dfl 3 (can ∷ lo ∷ []) ≡ record can { is_default = 1 } ∷ lo ∷ []
unfolding check_dfl get_by_isdfl first_such make_default
check_dfl_run = refl

ifs-AreDistinct : AreDistinct ifs
unfolding AreDistinct
ifs-AreDistinct = ((refl, (refl, tt)), ((refl, tt), (tt, tt)))

walk-Selects_example :
    Selects (IsInNetwork 2 0x106) ifs (walk (suc (length ifs)) (get_by_subnet ifs 2 0x106) none)
walk-Selects_example =
    walk-Selects ifs 2 0x106 ifs-AreDistinct (omega arith, (omega arith, (omega arith, tt)))

lo-IsNew : IsNew lo (can ∷ kiss ∷ [])
unfolding same_name
lo-IsNew = ((refl, refl), ((refl, refl), tt))

iflist_add_example :
    (iflist_add (can ∷ kiss ∷ []) lo ≡ can ∷ kiss ∷ lo ∷ [])
    × (iflist_remove (iflist_add (can ∷ kiss ∷ []) lo) 3 ≡ can ∷ kiss ∷ [])
iflist_add_example = iflist_remove-iflist_add (can ∷ kiss ∷ []) lo lo-IsNew

kiss-IsNew : IsNew kiss (can ∷ [])
unfolding same_name
kiss-IsNew = ((refl, refl), tt)

iflist_add-again_example : iflist_add ifs kiss ≡ can ∷ kiss ∷ []
iflist_add-again_example = iflist_add-again (can ∷ []) (lo ∷ []) kiss kiss-IsNew
