-- ===== src/Queue/Tests.antt =====
-- A queue of three numbers on which the theorem about src/arch/posix/pthread_queue.c is run.
use libcsp.Core.{ℕ, ◌≡◌, refl, arith, List, [], ◌∷◌, none, some}
use libcsp.Queue.{create, enqueue, dequeue, queue_items, queue_free, queue_empty}
use libcsp.Queue.Fifo.{ok, full, empty}
use libcsp.Queue.Run.{Call, put, get, size_call, free_call, clear, queue_run, fifo_run}
use libcsp.Queue.Run.{queue_run-create}

abbrev script : List (Call ℕ)
script =
    put 1
    ∷ put 2
    ∷ put 3
    ∷ put 4
    ∷ get
    ∷ put 5
    ∷ size_call
    ∷ get
    ∷ free_call
    ∷ get
    ∷ get
    ∷ get
    ∷ put 6
    ∷ clear
    ∷ get
    ∷ []

queue_run_run :
    queue_run (create 3 0) script
    ≡ (ok, none, 0)
      ∷ (ok, none, 0)
      ∷ (ok, none, 0)
      ∷ (full, none, 0)
      ∷ (ok, some 1, 0)
      ∷ (ok, none, 0)
      ∷ (ok, none, 3)
      ∷ (ok, some 2, 0)
      ∷ (ok, none, 1)
      ∷ (ok, some 3, 0)
      ∷ (ok, some 5, 0)
      ∷ (empty, none, 0)
      ∷ (ok, none, 0)
      ∷ (ok, none, 0)
      ∷ (empty, none, 0)
      ∷ []
unfolding queue_run create enqueue dequeue queue_items queue_free queue_empty
queue_run_run = refl

queue_run-create_example : queue_run (create 3 0) script ≡ fifo_run 3 [] script
queue_run-create_example = queue_run-create 3 0 script (omega arith)
