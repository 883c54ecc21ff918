-- ===== src/RdpQueue/Tests.antt =====
-- A queue with packets of three connections on which the theorems about src/csp_rdp_queue.c are
-- run.
use libcsp.Core.{◌≡◌, refl, arith, List, [], ◌∷◌, ◌++◌, some, none}
use libcsp.RdpQueue.{Queued, queue_get, get_loop, queue_add, enqueue_shared, flush_one}
use libcsp.RdpQueue.{flush_loop, flush_round}
use libcsp.RdpQueue.Flush.{others, buffers_of, shared, flush_one-others}
use libcsp.RdpQueue.Search.{relabelled, queue_get-none, queue_get-first}

abbrev packets : List Queued
packets =
    record { buffer = 11; conn = 1 }
    ∷ record { buffer = 12; conn = 2 }
    ∷ record { buffer = 13; conn = 1 }
    ∷ record { buffer = 14; conn = 3 }
    ∷ []

flush_run :
    flush_one (shared packets []) 1
    ≡ shared
        (record { buffer = 12; conn = 2 } ∷ record { buffer = 14; conn = 3 } ∷ [])
        (11 ∷ 13 ∷ [])
unfolding flush_one flush_loop flush_round enqueue_shared
flush_run = refl

flush_one-others_example :
    flush_one (shared packets []) 1 ≡ shared (others 1 packets) ([] ++ buffers_of 1 packets)
flush_one-others_example = flush_one-others (shared packets []) 1 (omega arith)

-- A search for connection 2 gives it the first packet of connection 1 as well.
queue_get_run : queue_get (shared packets []) 2 ≡ (
  some (record { buffer = 12; conn = 2 }),
  shared
      (record { buffer = 13; conn = 1 }
        ∷ record { buffer = 14; conn = 3 }
        ∷ record { buffer = 11; conn = 2 }
        ∷ [])
      [],
)
unfolding queue_get get_loop queue_add enqueue_shared
queue_get_run = refl

queue_get-first_example : queue_get (shared packets []) 2 ≡ (
  some (record { buffer = 12; conn = 2 }),
  shared
      (record { buffer = 13; conn = 1 }
        ∷ record { buffer = 14; conn = 3 }
        ∷ relabelled 2 (record { buffer = 11; conn = 1 } ∷ []))
      [],
)
queue_get-first_example =
    queue_get-first (record { buffer = 11; conn = 1 } ∷ [])
      (record { buffer = 13; conn = 1 } ∷ record { buffer = 14; conn = 3 } ∷ [])
      (record { buffer = 12; conn = 2 }) 2 [] (refl, tt) refl (omega arith)

queue_get-none_example : queue_get (shared packets []) 5 ≡ (none, shared (relabelled 5 packets) [])
queue_get-none_example =
    queue_get-none (shared packets []) 5 (refl, (refl, (refl, (refl, tt)))) (omega arith)
