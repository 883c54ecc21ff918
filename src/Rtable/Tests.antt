-- ===== src/Rtable/Tests.antt =====
-- A table on which the theorems about src/csp_rtable_cidr.c are run.
use libcsp.Core.{ℕ, ◌≡◌, refl, arith, [], ◌∷◌, some, none}
use libcsp.Core.Int.{pos}
use libcsp.Rtable.{Route, Rtable, find_route, search_backward, rtable_set}
use libcsp.Rtable.{net_matches, find_loop, search_down}
use libcsp.Rtable.Find.{IsLongestPrefix, find_route-IsLongestPrefix}
use libcsp.Rtable.Set.{StandsFor, Enters, rtable_set-Enters}
use libcsp.Rtable.Backward.{IsNearestTwin, search_backward-IsNearestTwin}

abbrev local_net : Route
local_net = record { address = 0x100; netmask = 6; via = 0xffff; iface = 1 }

abbrev everything : Route
everything = record { address = 0; netmask = 0; via = 7; iface = 2 }

abbrev backup : Route
backup = record { address = 0x100; netmask = 6; via = 9; iface = 3 }

abbrev table : Rtable
table = local_net ∷ everything ∷ backup ∷ []

find_route_run : (find_route 2 table 0x1ff ≡ some 2) × (find_route 2 table 0x200 ≡ some 1)
unfolding find_route find_loop net_matches
find_route_run = (refl, refl)

find_route_example : IsLongestPrefix 14 table 0x1ff (find_route 2 table 0x1ff)
find_route_example = find_route-IsLongestPrefix 2 table 0x1ff (omega arith) (omega arith)

search_backward_run : search_backward table (some 2) ≡ some 0
unfolding search_backward search_down
search_backward_run = refl

search_backward_example : IsNearestTwin table backup 2 (search_backward table (some 2))
search_backward_example = search_backward-IsNearestTwin table 2 backup refl

rtable_set_example :
    let (e, rs', errno) = rtable_set 2 table 0x100 (pos 20) (some 1) 5 in
    (m : ℕ) × StandsFor 2 m (pos 20) × Enters 0x100 m 1 5 table (e, rs') × (errno ≡ none)
rtable_set_example = rtable_set-Enters 2 table 0x100 (pos 20) 1 5
