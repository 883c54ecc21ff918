-- ===== src/Sfp/Tests.antt =====
-- Seven bytes in fragments of three, on which the theorem about src/csp_sfp.c is run.
use libcsp.Core.{ℕ, ◌≡◌, refl, arith, true, List, [], ◌∷◌, Option, none, some, replicate}
use libcsp.Packet.{Packet, Err}
use libcsp.Samples.{blank, ping_id}
use libcsp.Core.Int.{pos}
use libcsp.Sfp.{Round, send_own_memcpy, send_loop, fragment, recv_fp, recv_loop, take_in, copy_in}
use libcsp.Sfp.{header_remove}
use libcsp.Sfp.Transfer.{IsReady}
use libcsp.Sfp.RoundTrip.{recv_fp-send_own_memcpy}

abbrev bytes : List ℕ
bytes = 1 ∷ 2 ∷ 3 ∷ 4 ∷ 5 ∷ 6 ∷ 7 ∷ []

abbrev good_rounds : ℕ → Round
good_rounds r = record { active = true; buffer = some blank }

abbrev malloc : ℕ → Option (List ℕ)
malloc n = some (replicate n 0)

good_rounds-IsReady : IsReady good_rounds
good_rounds-IsReady r = (refl, blank, refl, refl)

abbrev lengths : List Packet → List ℕ
lengths [] = []
lengths (p ∷ ps) = p.length ∷ lengths ps

sent_run : lengths (send_own_memcpy good_rounds ping_id bytes 7 3).2 ≡ 11 ∷ 11 ∷ 9 ∷ []
unfolding send_own_memcpy send_loop fragment
sent_run = refl

received_run :
    recv_fp malloc none (send_own_memcpy good_rounds ping_id bytes 7 3).2
    ≡ (Err.none, some bytes, pos 7)
unfolding send_own_memcpy send_loop fragment recv_fp recv_loop take_in copy_in header_remove
received_run = refl

recv_fp_example :
    let (e, id', packets) = send_own_memcpy good_rounds ping_id bytes 7 3 in
    (e ≡ Err.none) × (recv_fp malloc none packets ≡ (Err.none, some bytes, pos 7))
recv_fp_example =
    recv_fp-send_own_memcpy good_rounds ping_id bytes (replicate 7 0) 3 malloc good_rounds-IsReady
      (omega arith) (omega arith) (omega arith) (omega arith) refl refl
