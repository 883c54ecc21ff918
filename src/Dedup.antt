-- ===== src/Dedup.antt =====
-- src/csp_dedup.c: the ring of the checksums that were seen last.
pub mod History
mod Tests
use libcsp.Core.{
  ℕ, zero, suc, ◌+◌, ◌-◌, ◌%◌, ◌^◌, bit_and, ltb, ◌==◌, Bool, true, false, if◌then◌else◌,
}
use libcsp.Core.{List, get_or, set, replicate}
use libcsp.Core.Memory.{slice}
use libcsp.Packet.{Packet}
use libcsp.Id.{prepend}
use libcsp.Crc.{crc32_memory}

-- CSP_DEDUP_COUNT and CSP_DEDUP_WINDOW_MS
abbrev pub count : ℕ
count = 16

abbrev pub window_ms : ℕ
window_ms = 100

-- `csp_dedup_array`, `csp_dedup_timestamp` and `csp_dedup_in`.
pub record Dedup : Type 0 where
  pub array : List ℕ
  pub timestamp : List ℕ
  pub in_index : ℕ

abbrev pub initial : Dedup
initial = record { array = replicate 16 0; timestamp = replicate 16 0; in_index = 0 }

-- The loop from index `i` down to `csp_dedup_in`; it runs at most `fuel` rounds.
pub search_ring : ℕ → Dedup → ℕ → ℕ → ℕ → Bool
search_ring zero s time crc i = false
search_ring (suc fuel) s time crc i =
    let rest = search_ring fuel s time crc (bit_and ((i + 2 ^ 32 - 1) % 2 ^ 32) (count - 1)) in
    if i == s.in_index
    then false
    else if ltb ((get_or s.timestamp i 0 + window_ms) % 2 ^ 32) time
    then false
    else if crc == get_or s.array i 0
    then true
    else rest

-- "If not, insert packet into duplicate list"
abbrev pub insert_ring : Dedup → ℕ → ℕ → Dedup
insert_ring s time crc = record {
  array = set s.array s.in_index crc;
  timestamp = set s.timestamp s.in_index time;
  in_index = (s.in_index + 1) % count;
}

-- `csp_dedup_is_duplicate` for the checksum and the time that it has got.
pub check_crc : Dedup → ℕ → ℕ → Bool × Dedup
check_crc s time crc =
    let i = ((s.in_index + 2 ^ 32 - 1) % 2 ^ 32) % count in
    let found = search_ring count s time crc i in
    if found then (true, s) else (false, insert_ring s time crc)

-- The packet is prepended on the way; `time` is what `csp_get_ms` returns.
unfoldable pub is_duplicate : ℕ → Dedup → ℕ → Packet → Bool × Packet × Dedup
unfolding check_crc
is_duplicate version s time packet =
    let p = prepend version packet in
    let (found, s') = check_crc s time (crc32_memory (slice p.mem p.frame_begin p.frame_length)) in
    (found, p, s')
