-- ===== src/Queue/Run.antt =====
-- Sequences of calls of src/arch/posix/pthread_queue.c.
use libcsp.Core.{ℕ, suc, ◌+◌, ◌-◌, ◌%◌, ◌<◌, ◌≡◌, ◌≢◌, refl, ap, ap₂, arith}
use libcsp.Core.{inl, inr, Bool-cases, true, false, ◌==◌}
use libcsp.Core.{List, [], ◌∷◌, ◌++◌, Option, none, some, length, get_elem?, set}
use libcsp.Queue.Fifo.{Status, ok, full, empty, push, pop}
use libcsp.Queue.{Queue, create, enqueue, dequeue, queue_items, queue_free, queue_empty}
use libcsp.Queue.Refine.{Holds, Holds-put, Holds-take, Holds-create, Holds-empty}

-- A call, and what the caller sees of it.
pub data Call (A : Type 0) : Type 0 where
  put : A → Call A
  get : Call A
  size_call : Call A
  free_call : Call A
  clear : Call A

abbrev pub Reply : Type 0 → Type 0
Reply A = Status × Option A × ℕ

nonzero : {n k : ℕ} → n ≡ suc k → n ≢ 0
nonzero e = omega arith

module _ {A : Type 0} where
  unfoldable pub queue_run : Queue A → List (Call A) → List (Reply A)
  queue_run q [] = []
  queue_run q (put v ∷ cs) = let (s, q') = enqueue q v in (s, none, 0) ∷ queue_run q' cs
  queue_run q (get ∷ cs) = let (s, out, q') = dequeue q in (s, out, 0) ∷ queue_run q' cs
  queue_run q (size_call ∷ cs) = (ok, none, queue_items q) ∷ queue_run q cs
  queue_run q (free_call ∷ cs) = (ok, none, queue_free q) ∷ queue_run q cs
  queue_run q (clear ∷ cs) = (ok, none, 0) ∷ queue_run (queue_empty q) cs

  unfoldable pub fifo_run : ℕ → List A → List (Call A) → List (Reply A)
  fifo_run size xs [] = []
  fifo_run size xs (put v ∷ cs) =
      let (s, xs') = push size xs v in (s, none, 0) ∷ fifo_run size xs' cs
  fifo_run size xs (get ∷ cs) = let (s, out, xs') = pop xs in (s, out, 0) ∷ fifo_run size xs' cs
  fifo_run size xs (size_call ∷ cs) = (ok, none, length xs) ∷ fifo_run size xs cs
  fifo_run size xs (free_call ∷ cs) = (ok, none, size - length xs) ∷ fifo_run size xs cs
  fifo_run size xs (clear ∷ cs) = (ok, none, 0) ∷ fifo_run size [] cs

  put_full : (q : Queue A) (v : A) → (q.items == q.size) ≡ true → enqueue q v ≡ (full, q)
  unfolding enqueue
  put_full q v e = ground (arith, e)

  put_room :
      (q : Queue A) (v : A)
      → (q.items == q.size) ≡ false
      → enqueue q v ≡ (
        ok,
        record q {
          buffer = set q.buffer q.in_index v;
          items = q.items + 1;
          in_index = (q.in_index + 1) % q.size;
        },
      )
  unfolding enqueue
  put_room q v e = ground (arith, e)

  get_none : (q : Queue A) → q.items ≡ 0 → dequeue q ≡ (empty, none, q)
  unfolding dequeue
  get_none q e = ground (arith, e)

  get_some :
      (q : Queue A)
      → q.items ≢ 0
      → dequeue q ≡ (
        ok,
        get_elem? q.buffer q.out_index,
        record q { items = q.items - 1; out_index = (q.out_index + 1) % q.size },
      )
  unfolding dequeue
  get_some q e = ground (arith, e)

  run_refines :
      (q : Queue A) (xs : List A) (cs : List (Call A))
      → Holds q xs
      → queue_run q cs ≡ fifo_run q.size xs cs
  unfolding queue_run fifo_run queue_items queue_free queue_empty
  run_refines q xs [] h = refl
  run_refines q xs (put v ∷ cs) h = elim (Bool-cases (q.items == q.size)) [
    | inl e ↦
        rw (put_full q v e, ← h.count, e) (ap (λ rs. (full, none, 0) ∷ rs) (run_refines q xs cs h))
    | inr e ↦
        rw (put_room q v e, ← h.count, e)
          (ap (λ rs. (ok, none, 0) ∷ rs)
            (run_refines _ (xs ++ (v ∷ [])) cs (Holds-put v h (ground (arith, e, h.fits)))))
  ]
  run_refines q [] (get ∷ cs) h =
      rw (get_none q h.count) (ap (λ rs. (empty, none, 0) ∷ rs) (run_refines q [] cs h))
  run_refines q (x ∷ xs) (get ∷ cs) h =
      rw (get_some q (nonzero h.count), (Holds-take h).1)
        (ap (λ rs. (ok, some x, 0) ∷ rs) (run_refines _ xs cs (Holds-take h).0))
  run_refines q xs (size_call ∷ cs) h =
      ap₂ (λ (k : ℕ) rs. (ok, none, k) ∷ rs) h.count (run_refines q xs cs h)
  run_refines q xs (free_call ∷ cs) h =
      ap₂ (λ (k : ℕ) rs. (ok, none, q.size - k) ∷ rs) h.count (run_refines q xs cs h)
  run_refines q xs (clear ∷ cs) h =
      ap (λ rs. (ok, none, 0) ∷ rs) (run_refines (queue_empty q) [] cs (Holds-empty h))

-- A queue that was created for a positive number of items answers every sequence of calls
-- (enqueue, dequeue, size, free space, empty) as the bounded FIFO of that size does.
pub queue_run-create :
    {A : Type 0} (size : ℕ) (junk : A) (cs : List (Call A))
    → 0 < size
    → queue_run (create size junk) cs ≡ fifo_run size [] cs
unfolding create
queue_run-create size junk cs pos =
    run_refines (create size junk) [] cs (Holds-create size junk pos)
