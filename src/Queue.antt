-- ===== src/Queue.antt =====
-- src/arch/posix/pthread_queue.c, on which src/arch/posix/csp_queue.c builds `csp_queue_*`: the
-- ring buffer behind every queue of packets, connections and buffers. A call is modelled at the
-- moment when it holds the mutex and its wait is over: a wait that ends with the queue still full,
-- or still empty, has timed out.
pub mod Fifo
pub mod Refine
pub mod Run
mod Tests
use libcsp.Core.{ℕ, ◌+◌, ◌-◌, ◌%◌, ◌==◌, if◌then◌else◌, List, [], Option, none, some}
use libcsp.Core.{get_elem?, set, replicate}
use Fifo.{Status, ok, full, empty}

-- `pthread_queue_t`; an item is a cell of `buffer`, so `item_size` is not needed.
pub record Queue (A : Type 0) : Type 0 where
  pub buffer : List A
  pub size : ℕ
  pub items : ℕ
  pub in_index : ℕ
  pub out_index : ℕ

module _ {A : Type 0} where
  -- `junk` is what `malloc` leaves in a cell; both allocations succeed.
  pub create : ℕ → A → Queue A
  create length junk = record {
    buffer = replicate length junk;
    size = length;
    items = 0;
    in_index = 0;
    out_index = 0;
  }

  pub wait_slot_available : Queue A → Status
  wait_slot_available q = if q.items == q.size then full else ok

  pub enqueue : Queue A → A → Status × Queue A
  unfolding wait_slot_available
  enqueue q value = elim (wait_slot_available q) [
    | ok ↦ (
      ok,
      record q {
        buffer = set q.buffer q.in_index value;
        items = q.items + 1;
        in_index = (q.in_index + 1) % q.size;
      },
    )
    | s ↦ (s, q)
  ]

  pub wait_item_available : Queue A → Status
  wait_item_available q = if q.items == 0 then empty else ok

  -- What is copied to `buf` comes second.
  pub dequeue : Queue A → Status × Option A × Queue A
  unfolding wait_item_available
  dequeue q = elim (wait_item_available q) [
    | ok ↦ (
      ok,
      get_elem? q.buffer q.out_index,
      record q { items = q.items - 1; out_index = (q.out_index + 1) % q.size },
    )
    | s ↦ (s, none, q)
  ]

  pub queue_items : Queue A → ℕ
  queue_items q = q.items

  pub queue_free : Queue A → ℕ
  queue_free q = q.size - q.items

  pub queue_empty : Queue A → Queue A
  queue_empty q = record q { items = 0; in_index = 0; out_index = 0 }
