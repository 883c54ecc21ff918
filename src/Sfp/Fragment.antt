-- ===== src/Sfp/Fragment.antt =====
-- The header that src/csp_sfp.c adds to a fragment and removes.
use libcsp.Core.{ℕ, ◌+◌, ◌-◌, ◌%◌, ◌^◌, ◌≤◌, ◌<◌, ◌≡◌, ◌∙◌, refl, ap, ap₂, arith}
use libcsp.Core.{bit_and, bit_or, ltb, false}
use libcsp.Core.{List, ◌++◌, some, length}
use libcsp.Core.Bits.{bit_and-bit_or}
use libcsp.Core.Memory.{
  write_at, slice, length-write_at, slice-write_at_self, slice-write_at_before,
}
use libcsp.Core.Memory.{slice-front, slice-end}
use libcsp.Core.Words.{be32, of_be}
use libcsp.Packet.{Packet, CspId, IsSized, data_begin, ffrag}
use libcsp.Sfp.{header_size, header_remove, fragment}

of_be-be32 : (n : ℕ) → n < 2 ^ 32 → of_be 0 (be32 n) ≡ n
of_be-be32 n h = omega arith

-- The memory of a fragment: its bytes, and the header behind them.
abbrev pub fragment_mem : List ℕ → List ℕ → ℕ → ℕ → List ℕ
fragment_mem mem chunk count totalsize =
    write_at (write_at mem data_begin chunk) (data_begin + length chunk)
      (be32 count ++ be32 totalsize)

module _ (mem chunk : List ℕ) (count totalsize : ℕ) (z : length mem ≡ 264)
    (h : length chunk ≤ 248) where
  header_bytes :
      slice (fragment_mem mem chunk count totalsize) (data_begin + length chunk) (4 + 4)
      ≡ slice (be32 count ++ be32 totalsize) 0 (4 + 4)
  header_bytes =
      slice-write_at_self (write_at mem data_begin chunk) (data_begin + length chunk)
        (be32 count ++ be32 totalsize) (omega (arith, length-write_at mem data_begin chunk))

  pub offset_bytes :
      slice (fragment_mem mem chunk count totalsize) (data_begin + length chunk) 4 ≡ be32 count
  offset_bytes =
      slice-front (fragment_mem mem chunk count totalsize) (be32 count ++ be32 totalsize)
        (data_begin + length chunk) 0 4 4 header_bytes

  pub totalsize_bytes :
      slice (fragment_mem mem chunk count totalsize) (data_begin + length chunk + 4) 4
      ≡ be32 totalsize
  totalsize_bytes =
      slice-end (fragment_mem mem chunk count totalsize) (be32 count ++ be32 totalsize)
        (data_begin + length chunk) 0 4 4 header_bytes

  pub chunk_bytes : slice (fragment_mem mem chunk count totalsize) data_begin (length chunk) ≡ chunk
  chunk_bytes =
      slice-write_at_before (write_at mem data_begin chunk) (data_begin + length chunk)
        (be32 count ++ be32 totalsize) data_begin (length chunk) (omega arith)
      ∙ slice-write_at_self mem data_begin chunk (omega arith)

abbrev pub flagged : CspId → CspId
flagged id = record id { flags = bit_or id.flags ffrag }

-- The fragment when its header has been removed.
abbrev pub opened : CspId → ℕ → ℕ → ℕ → List ℕ → Packet → Packet
opened id count totalsize size chunk b = record b {
  id = flagged id;
  mem = fragment_mem b.mem chunk count totalsize;
  length = size;
}

pub fragment-opened :
    (id : CspId) (bytes : List ℕ) (totalsize count size : ℕ) (b : Packet)
    → size ≤ 248
    → length (slice bytes count size) ≡ size
    → fragment (flagged id) bytes totalsize count size b
      ≡ opened id count totalsize (size + 8) (slice bytes count size) b
unfolding fragment
fragment-opened id bytes totalsize count size b small e =
    ap₂
      (λ (k l : ℕ). record b {
        id = flagged id;
        mem =
            write_at (write_at b.mem data_begin (slice bytes count size)) (data_begin + k)
              (be32 count ++ be32 totalsize);
        length = l;
      })
      place size_with_header
  where
    place : size % 2 ^ 16 ≡ length (slice bytes count size)
    place = omega arith

    size_with_header : (size % 2 ^ 16 + header_size) % 2 ^ 16 ≡ size + 8
    size_with_header = omega arith

-- A header that can be removed.
header_remove-some :
    (p : Packet) (size offset totalsize : ℕ)
    → bit_and p.id.flags ffrag ≡ ffrag
    → p.length ≡ size + 8
    → of_be 0 (slice p.mem (data_begin + size) 4) ≡ offset
    → of_be 0 (slice p.mem (data_begin + size + 4) 4) ≡ totalsize
    → offset ≤ totalsize
    → header_remove p ≡ some (offset, totalsize, record p { length = size })
unfolding header_remove
header_remove-some p size offset totalsize flag len eo et le =
    rw (header_remove, flag, len, less, eo, et, short, fits) refl
  where
    less : size + 8 - header_size ≡ size
    less = omega arith

    short : ltb (size + 8) header_size ≡ false
    short = ground arith

    fits : ltb totalsize offset ≡ false
    fits = ground arith

pub header_remove-opened :
    (id : CspId) (count totalsize : ℕ) (chunk : List ℕ) (b : Packet)
    → length chunk ≤ 248
    → IsSized b
    → count ≤ totalsize
    → totalsize < 2 ^ 32
    → header_remove (opened id count totalsize (length chunk + 8) chunk b)
      ≡ some (count, totalsize, opened id count totalsize (length chunk) chunk b)
header_remove-opened id count totalsize chunk b small z le lt =
    header_remove-some (opened id count totalsize (length chunk + 8) chunk b) (length chunk) count
      totalsize (bit_and-bit_or id.flags ffrag) refl
      (ap (of_be 0) (offset_bytes b.mem chunk count totalsize z small)
        ∙ of_be-be32 count (omega arith))
      (ap (of_be 0) (totalsize_bytes b.mem chunk count totalsize z small) ∙ of_be-be32 totalsize lt)
      le
