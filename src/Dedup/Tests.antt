-- ===== src/Dedup/Tests.antt =====
-- Arrivals on which the theorem about src/csp_dedup.c is run.
use libcsp.Core.{◌≡◌, refl, List, [], ◌∷◌, true, false}
use libcsp.Dedup.{initial, search_ring, check_crc}
use libcsp.Dedup.History.{Seen, ring_run}

abbrev arrivals : List Seen
arrivals =
    record { crc = 5; time = 10 }
    ∷ record { crc = 6; time = 20 }
    ∷ record { crc = 5; time = 100 }
    ∷ record { crc = 5; time = 111 }
    ∷ record { crc = 6; time = 130 }
    ∷ []

ring_run_run : ring_run initial arrivals ≡ false ∷ false ∷ true ∷ false ∷ false ∷ []
unfolding ring_run check_crc search_ring
ring_run_run = refl

-- Near the end of the clock: a checksum counts as a duplicate 250 ms later, after the wrap, and another is
-- missed after 5 ms.
ring_run_wrap :
    (ring_run initial (record { crc = 5; time = 0xffff_ff38 } ∷ record { crc = 5; time = 50 } ∷ [])
      ≡ false ∷ true ∷ [])
    × (ring_run initial
          (record { crc = 5; time = 0xffff_fff0 } ∷ record { crc = 5; time = 0xffff_fff5 } ∷ [])
        ≡ false ∷ false ∷ [])
unfolding ring_run check_crc search_ring
ring_run_wrap = (refl, refl)
