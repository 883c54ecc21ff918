-- ===== src/Crc/Check.antt =====
-- `csp_crc32_append` and `csp_crc32_verify` of src/csp_crc32.c, one after the other.
use libcsp.Core.{ℕ, ◌+◌, ◌-◌, ◌≤◌, ◌≡◌, ◌∙◌, refl, sym, ap, ap₂, arith}
use libcsp.Core.{Bool, true, false, List, [], ◌∷◌, take, drop, ==_self}
use libcsp.Core.{if◌then◌else◌, ltb}
use libcsp.Core.Memory.{write_at, slice, slice-write_at_self, slice-write_at_before}
use libcsp.Core.Words.{be32}
use libcsp.Packet.{Packet, Err, IsSized, data_begin}
use libcsp.Id.{prepend}
use libcsp.Id.RoundTrip.{drop-prepend, length-prepend}
use libcsp.Crc.{crc32_memory, crc32_append, crc32_verify, bytes_eq, crc_size}

pub bytes_eq_self : (bs : List ℕ) → bytes_eq bs bs ≡ true
bytes_eq_self [] = refl
bytes_eq_self (b ∷ bs) = rw (==_self b, bytes_eq_self bs)

-- The packet is accepted whatever the first comparison says, if the second accepts it.
both_accept :
    (q : Packet) (n : ℕ)
    → q.length ≡ n + 4
    → (b : Bool)
    → (if b
        then (let r : Err × Packet = (Err.none, record q { length = q.length - crc_size }) in r)
        else (let r : Err × Packet = (Err.none, record q { length = q.length - crc_size }) in r))
      ≡ (Err.none, record q { length = n })
both_accept q n e true = ground arith
both_accept q n e false = ground arith

-- A packet whose last four bytes are the checksum of the data before them is accepted, and loses
-- those bytes.
pub verify_of_checksum :
    (version n : ℕ) (p : Packet)
    → p.length ≡ n + 4
    → slice p.mem (data_begin + n) 4 ≡ be32 (crc32_memory (slice p.mem data_begin n))
    → crc32_verify version p ≡ (Err.none, record (prepend version p) { length = n })
unfolding crc32_verify
verify_of_checksum version n p size h =
    rw (no_short, matches) (both_accept (prepend version p) n size_q _)
  where
    size_q : (prepend version p).length ≡ n + 4
    size_q = length-prepend version p ∙ size

    no_short : ltb p.length crc_size ≡ false
    no_short = ground arith

    stored :
        slice (prepend version p).mem (data_begin + (prepend version p).length - crc_size) crc_size
        ≡ be32 (crc32_memory (slice p.mem data_begin n))
    stored =
        ap (λ k. take 4 (drop k (prepend version p).mem)) (offset (prepend version p).length size_q)
        ∙ ap (λ m. take 4 m) (drop-prepend version p (data_begin + n) (omega arith))
        ∙ h
      where
        offset : (k : ℕ) → k ≡ n + 4 → data_begin + k - crc_size ≡ data_begin + n
        offset k e = omega arith

    content :
        slice (prepend version p).mem data_begin ((prepend version p).length - crc_size)
        ≡ slice p.mem data_begin n
    content =
        ap₂ (λ k m. take k m) (less (prepend version p).length size_q)
          (drop-prepend version p data_begin (omega arith))
      where
        less : (k : ℕ) → k ≡ n + 4 → k - crc_size ≡ n
        less k e = omega arith

    matches :
        bytes_eq
          (slice
            (prepend version p).mem
            (data_begin + (prepend version p).length - crc_size)
            crc_size)
          (be32 (
            crc32_memory
              (slice (prepend version p).mem data_begin ((prepend version p).length - crc_size))))
        ≡ true
    matches =
        ap₂ (λ a d. bytes_eq a (be32 (crc32_memory d))) stored content
        ∙ bytes_eq_self (be32 (crc32_memory (slice p.mem data_begin n)))

-- The packet after `csp_crc32_append`.
abbrev pub appended : Packet → Packet
appended p = record p {
  mem =
      write_at p.mem (data_begin + p.length)
        (be32 (crc32_memory (slice p.mem data_begin p.length)));
  length = p.length + 4;
}

pub crc32_append-eq-appended :
    (p : Packet) → p.length ≤ 252 → crc32_append p ≡ (Err.none, appended p)
unfolding crc32_append
crc32_append-eq-appended p h = ground arith

pub appended-data :
    (p : Packet) → slice (appended p).mem data_begin p.length ≡ slice p.mem data_begin p.length
appended-data p =
    slice-write_at_before p.mem (data_begin + p.length)
      (be32 (crc32_memory (slice p.mem data_begin p.length))) data_begin p.length (omega arith)

pub appended-checksum :
    (p : Packet)
    → IsSized p
    → p.length ≤ 252
    → slice (appended p).mem (data_begin + p.length) 4
      ≡ be32 (crc32_memory (slice p.mem data_begin p.length))
appended-checksum p z h =
    slice-write_at_self p.mem (data_begin + p.length)
      (be32 (crc32_memory (slice p.mem data_begin p.length))) (omega arith)

pub verify-appended :
    (version : ℕ) (p : Packet)
    → IsSized p
    → p.length ≤ 252
    → crc32_verify version (appended p)
      ≡ (Err.none, record (prepend version (appended p)) { length = p.length })
verify-appended version p z h =
    verify_of_checksum version p.length (appended p) refl
      (appended-checksum p z h ∙ sym (ap (λ d. be32 (crc32_memory d)) (appended-data p)))

-- The checksum that is appended to the data of a packet is accepted, with any header version, and
-- verifying takes it off again: length and data are what they were.
pub crc32_verify-crc32_append :
    (version : ℕ) (p : Packet)
    → IsSized p
    → p.length ≤ 252
    → let (e, sent) = crc32_append p in
      let (e', got) = crc32_verify version sent in
      (e ≡ Err.none)
      × (e' ≡ Err.none)
      × (got.length ≡ p.length)
      × (slice got.mem data_begin p.length ≡ slice p.mem data_begin p.length)
crc32_verify-crc32_append version p z h =
    rw (crc32_append-eq-appended p h, verify-appended version p z h)
      (
        refl,
        refl,
        refl,
        ap (λ m. take p.length m) (drop-prepend version (appended p) data_begin (omega arith))
            ∙ appended-data p,
      )
