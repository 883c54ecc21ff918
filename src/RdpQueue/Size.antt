-- ===== src/RdpQueue/Size.antt =====
-- How the queues of src/csp_rdp_queue.c grow and shrink.
use libcsp.Core.{ℕ, zero, suc, ◌≤◌, ◌==◌, arith, Bool-cases, inl, inr}
use libcsp.Core.{List, [], ◌∷◌, length, length-append, Option, none, some}
use libcsp.RdpQueue.{
  Queued, Shared, RdpQueues, enqueue_shared, queue_add, get_loop, queue_get, rx_size, rx_add,
}

length-queue_add :
    (s : Shared) (c : ℕ) (p : Queued) → length (queue_add s c p).queue ≤ suc (length s.queue)
unfolding queue_add enqueue_shared
length-queue_add s c p = grind (arith, length-append)

-- A search that finds a packet leaves one less in the queue, any other no more than there were.
abbrev pub Shrinks : ℕ → Option Queued × Shared → Type 0
Shrinks n (none, s) = length s.queue ≤ n
Shrinks n (some p, s) = suc (length s.queue) ≤ n

weaken : (m n : ℕ) (out : Option Queued × Shared) → m ≤ n → Shrinks m out → Shrinks n out
weaken m n (none, s) h l = omega arith
weaken m n (some p, s) h l = omega arith

get_loop-Shrinks :
    (n : ℕ) (queue : List Queued) (freed : List ℕ) (c : ℕ)
    → Shrinks (length queue) (get_loop n (record { queue = queue; freed = freed }) c)
unfolding get_loop
get_loop-Shrinks zero queue freed c = omega arith
get_loop-Shrinks (suc n) [] freed c = omega arith
get_loop-Shrinks (suc n) (p ∷ queue) freed c = elim (Bool-cases (p.conn == c)) [
  | inl e ↦ rw e (omega arith)
  | inr e ↦ rw e (
      weaken _ _ _ (length-queue_add (record { queue = queue; freed = freed }) c p)
        (get_loop-Shrinks n _ _ c))
]

pub queue_get-Shrinks : (s : Shared) (c : ℕ) → Shrinks (length s.queue) (queue_get s c)
unfolding queue_get
queue_get-Shrinks s c = get_loop-Shrinks (length s.queue) s.queue s.freed c

pub rx_size-rx_add :
    (qs : RdpQueues) (c : ℕ) (p : Queued) → rx_size (rx_add qs c p) ≤ suc (rx_size qs)
unfolding rx_size rx_add
rx_size-rx_add qs c p = length-queue_add qs.rx c p
