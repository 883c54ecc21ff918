-- ===== src/Queue/Fifo.antt =====
-- What the components rely on: a bounded queue of items, oldest first.
use libcsp.Core.{ℕ, ◌==◌, if◌then◌else◌, List, [], ◌∷◌, ◌++◌, Option, none, some, length}

-- PTHREAD_QUEUE_OK, PTHREAD_QUEUE_FULL and PTHREAD_QUEUE_EMPTY
pub data Status : Type 0 where
  ok full empty : Status

module _ {A : Type 0} where
  abbrev pub push : ℕ → List A → A → Status × List A
  push size xs value = if length xs == size then (full, xs) else (ok, xs ++ (value ∷ []))

  abbrev pub pop : List A → Status × Option A × List A
  pop [] = (empty, none, [])
  pop (x ∷ xs) = (ok, some x, xs)
