-- ===== src/Buffer.antt =====
-- src/csp_buffer.c: the pool of packet buffers.
pub mod Counts
pub mod References
pub mod Release
pub mod Start
pub mod Stored
mod Tests
use libcsp.Core.{ℕ, zero, suc, ◌+◌, ◌-◌, ◌%◌, ◌^◌, ◌==◌, ltb, Bool, if◌then◌else◌}
use libcsp.Core.{List, [], ◌∷◌, Option, none, some, length, get_elem?, get_or, set, replicate}
use libcsp.Packet.{Packet, DbgErr, data_begin}
use libcsp.Queue.Fifo.{Status, ok, push, pop}

-- CSP_BUFFER_COUNT
abbrev pub buffer_count : ℕ
buffer_count = 15

-- `csp_skbf_t`; an address is the index of a buffer in the pool.
pub record Skbf : Type 0 where
  pub refcount : ℕ
  pub skbf_addr : ℕ
  pub skbf_data : Packet

-- `csp_buffer_pool`, the queue `csp_buffers`, and what the functions leave in `csp_dbg_buffer_out`
-- and `csp_dbg_errno`.
pub record Buffers : Type 0 where
  pub pool : List Skbf
  pub free : List ℕ
  pub buffer_out : ℕ
  pub errno : Option DbgErr

-- The loop of `csp_buffer_init` from buffer `i` on.
pub init_pool : ℕ → List Skbf → List Skbf
init_pool i [] = []
init_pool i (b ∷ pool) = record b { skbf_addr = i } ∷ init_pool (suc i) pool

pub init_free : ℕ → List Skbf → List ℕ
init_free i [] = []
init_free i (b ∷ pool) = i ∷ init_free (suc i) pool

-- `csp_buffer_init`, whatever the memory of the pool held; the queue has room for the whole pool.
pub buffer_init : List Skbf → Buffers
unfolding init_pool init_free
buffer_init junk = record {
  pool = init_pool 0 junk;
  free = init_free 0 junk;
  buffer_out = 0;
  errno = none;
}

-- `csp_packet_init` with CSP_BUFFER_ZERO_CLEAR, for a packet with its memory.
abbrev pub packet_init : Packet
packet_init = record {
  timestamp_tx = 0;
  conn = 0;
  frame_begin = data_begin;
  frame_length = 0;
  length = 0;
  id = record { pri = 0; flags = 0; src = 0; dst = 0; dport = 0; sport = 0 };
  mem = replicate 264 0;
}

abbrev complain : Buffers → DbgErr → Buffers
complain s e = record s { errno = some e }

-- A buffer that has come out of the queue.
unfoldable pub hand_out : Buffers → ℕ → Option Skbf → Option ℕ × Buffers
hand_out s i none = (none, s)
hand_out s i (some b) =
    if i == b.skbf_addr
    then (
      some i,
      record s { pool = set s.pool i (record b { refcount = 1; skbf_data = packet_init }) },
    )
    else (none, complain s DbgErr.corrupt_buffer)

unfoldable pub get_actual : ℕ → Buffers → Option ℕ × Buffers
unfolding hand_out
get_actual reserve s = if ltb (length s.free) reserve then (none, s) else elim (s.free) [
  | [] ↦ (none, record s { buffer_out = (s.buffer_out + 1) % 2 ^ 8 })
  | i ∷ free' ↦ hand_out (record s { free = free' }) i (get_elem? s.pool i)
]

-- `csp_buffer_get`, and `csp_buffer_get_always`, which panics where this gives none.
unfoldable pub buffer_get : Buffers → Option ℕ × Buffers
unfolding get_actual
buffer_get s = get_actual 2 s

unfoldable pub buffer_get_always : Buffers → Option ℕ × Buffers
unfolding get_actual
buffer_get_always s = get_actual 0 s

-- The last reference is given back to the queue.
unfoldable pub release : Buffers → ℕ → Skbf → Buffers
release s i b =
    let last = record s { pool = set s.pool i (record b { refcount = b.refcount - 1 }) } in
    let (e, free') = push buffer_count s.free i in
    if ltb 0 (b.refcount - 1) then complain last DbgErr.refcount else record last { free = free' }

-- The checks that `csp_buffer_free` and `csp_buffer_refc_inc` share.
abbrev checked : Buffers → ℕ → (Skbf → Buffers) → Option Skbf → Buffers
checked s i f none = s
checked s i f (some b) = if b.skbf_addr == i then f b else complain s DbgErr.corrupt_buffer

-- `csp_buffer_free`; NULL is `none`.
unfoldable pub buffer_free : Buffers → Option ℕ → Buffers
unfolding release
buffer_free s none = s
buffer_free s (some i) =
    checked s i (λ b. if b.refcount == 0 then complain s DbgErr.already_free else release s i b)
      (get_elem? s.pool i)

pub refc_inc : Buffers → Option ℕ → Buffers
refc_inc s none = complain s DbgErr.invalid_pointer
refc_inc s (some i) =
    checked s i
      (λ b. record s { pool = set s.pool i (record b { refcount = (b.refcount + 1) % 2 ^ 32 }) })
      (get_elem? s.pool i)

unfoldable pub buffer_remaining : Buffers → ℕ
buffer_remaining s = length s.free

-- The packet in a buffer of the pool, and what is written into one.
abbrev pub packet_of : Buffers → ℕ → Packet
packet_of s i =
    (get_or s.pool i (record { refcount = 0; skbf_addr = 0; skbf_data = packet_init })).skbf_data

abbrev pub store_packet : Buffers → ℕ → Packet → Buffers
store_packet s i p = elim (get_elem? s.pool i) [
  | none ↦ s
  | some b ↦ record s { pool = set s.pool i (record b { skbf_data = p }) }
]

-- `csp_buffer_copy` of a packet that is there. The pointer `frame_begin` of the copy is kept as an
-- index, though it points into the buffer that was copied.
unfoldable pub buffer_copy : Buffers → ℕ → Option ℕ → Buffers
buffer_copy s src none = s
buffer_copy s src (some dst) = store_packet s dst (packet_of s src)

unfoldable pub buffer_clone : Buffers → ℕ → Option ℕ × Buffers
unfolding buffer_get buffer_copy
buffer_clone s packet = let (clone, s') = buffer_get s in (clone, buffer_copy s' packet clone)

abbrev pub free_all : Buffers → List ℕ → Buffers
free_all s [] = s
free_all s (i ∷ rest) = free_all (buffer_free s (some i)) rest
