-- ===== src/Dedup/History.antt =====
-- The ring of src/csp_dedup.c as the list of what was seen last, newest first.
use libcsp.Core.{ℕ, suc, ◌+◌, ◌-◌, ◌%◌, ◌^◌, ◌<◌, ◌≡◌}
use libcsp.Core.{Bool, true, false, ◌==◌, ltb, if◌then◌else◌}
use libcsp.Core.{List, [], ◌∷◌, length, get_or, take}
use libcsp.Core.{All}
use libcsp.Dedup.{Dedup, window_ms, check_crc}

-- A checksum and the time it was seen.
pub record Seen : Type 0 where
  pub crc : ℕ
  pub time : ℕ

-- Whether a checksum is among the first of the list, before one that was seen too long ago.
unfoldable pub seen_lately : List Seen → ℕ → ℕ → Bool
seen_lately [] time crc = false
seen_lately (h ∷ hs) time crc =
    let rest = seen_lately hs time crc in
    if ltb window_ms (time - h.time) then false else if crc == h.crc then true else rest

-- The clock is not so near its end that the window reaches over it.
abbrev pub IsBeforeWrap : Seen → Type 0
IsBeforeWrap a = a.time + window_ms < 2 ^ 32

-- A list of the last 15 that is given one more.
abbrev pub remember : List Seen → ℕ → ℕ → List Seen
remember hs time crc = record { crc = crc; time = time } ∷ take 14 hs

-- Both versions, over the checksums and times of packets that arrive one after the other.
unfoldable pub history_run : List Seen → List Seen → List Bool
history_run hs [] = []
history_run hs (a ∷ arrivals) =
    let found = seen_lately hs a.time a.crc in
    found ∷ history_run (if found then hs else remember hs a.time a.crc) arrivals

unfoldable pub ring_run : Dedup → List Seen → List Bool
ring_run s [] = []
ring_run s (a ∷ arrivals) =
    let (found, s') = check_crc s a.time a.crc in found ∷ ring_run s' arrivals

-- Where the ring has what was inserted `k` insertions ago.
abbrev slot : ℕ → ℕ → ℕ
slot in_index k = (in_index + 15 - k) % 16

Mirrors : Dedup → ℕ → List Seen → Type 0
Mirrors s k [] = Unit
Mirrors s k (h ∷ hs) =
    (get_or s.array (slot s.in_index k) 0 ≡ h.crc)
    × (get_or s.timestamp (slot s.in_index k) 0 ≡ h.time)
    × Mirrors s (suc k) hs

-- One round of either search.
abbrev round : ℕ → ℕ → ℕ → ℕ → Bool → Bool
round time crc seen_time seen_crc rest =
    if ltb ((seen_time + window_ms) % 2 ^ 32) time
    then false
    else if crc == seen_crc
    then true
    else rest

record Holds (s : Dedup) (hs : List Seen) : Type 0 where
  inside : s.in_index < 16
  array_size : length s.array ≡ 16
  timestamp_size : length s.timestamp ≡ 16
  depth : length hs ≡ 15
  mirrors : Mirrors s 0 hs
  times : All IsBeforeWrap hs

abbrev answer : Dedup → Dedup → Bool → Bool × Dedup
answer s s' b = if b then (true, s) else (false, s')
