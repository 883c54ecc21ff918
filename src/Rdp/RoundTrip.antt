-- ===== src/Rdp/RoundTrip.antt =====
-- The header that src/csp_rdp.c puts behind the data of a packet.
use libcsp.Core.{ℕ, zero, suc, ◌+◌, ◌^◌, ◌≤◌, ◌<◌, ◌≡◌, refl, ap, ◌∙◌, arith}
use libcsp.Core.{List, [], ◌∷◌, ◌++◌, some, get_or}
use libcsp.Core.Memory.{
  slice, write_at, slice-write_at_self, slice-write_at_before, slice-front, slice-end,
  length-write_at,
}
use libcsp.Core.Words.{of_be, of_le}
use libcsp.Packet.{Packet, IsSized, data_begin, buffer_size}
use libcsp.Rdp.{
  Header, header_add, header_begin, header_remove, header_length, wire_header, host_seq_nr, to_host,
  be16, le16,
}

get_or-slice : (m : List ℕ) (i x : ℕ) → slice m i 1 ≡ x ∷ [] → get_or m i 0 ≡ x
get_or-slice [] zero x e = absurd (cc e)
get_or-slice [] (suc i) x e = absurd (cc e)
get_or-slice (y ∷ m) zero x e = cc e
get_or-slice (y ∷ m) (suc i) x e = get_or-slice m i x e

of_be-be16 : (n : ℕ) → n < 2 ^ 16 → of_be 0 (be16 n) ≡ n
of_be-be16 n h = omega arith

of_le-le16 : (n : ℕ) → n < 2 ^ 16 → of_le (le16 n) ≡ n
of_le-le16 n h = omega arith

-- Numbers that a header has room for.
abbrev pub IsHeader : Header → Type 0
IsHeader h = (h.flags < 256) × (h.seq_nr < 2 ^ 16) × (h.ack_nr < 2 ^ 16)

-- The five bytes, at an index.
module _ (m : List ℕ) (i f a b c d : ℕ) (e : slice m i 5 ≡ f ∷ a ∷ b ∷ c ∷ d ∷ []) where
  abbrev bytes : List ℕ
  bytes = f ∷ a ∷ b ∷ c ∷ d ∷ []

  first_byte : get_or m i 0 ≡ f
  first_byte = get_or-slice m i f (slice-front m bytes i 0 1 4 e)

  behind_first : slice m (i + 1) 4 ≡ slice bytes 1 4
  behind_first = slice-end m bytes i 0 1 4 e

  next_two : slice m (i + 1) 2 ≡ a ∷ b ∷ []
  next_two = slice-front m bytes (i + 1) 1 2 2 behind_first

  last_two : slice m (i + 1 + 2) 2 ≡ c ∷ d ∷ []
  last_two = slice-end m bytes (i + 1) 1 2 2 behind_first

same_header :
    {f s a : ℕ} {h : Header}
    → f ≡ h.flags
    → s ≡ h.seq_nr
    → a ≡ h.ack_nr
    → record { flags = f; seq_nr = s; ack_nr = a } ≡ h
same_header e1 e2 e3 = rw (e1, e2, e3) refl

-- The packet with its header, and what has been found out of it at the receiver.
module _ (p : Packet) (h : Header) (sized : IsSized p)
    (room : p.length + header_length ≤ buffer_size) (valid : IsHeader h) where
  abbrev with_header : Packet
  with_header = record p {
    length = p.length + header_length;
    mem = write_at p.mem (data_begin + p.length) (h.flags ∷ be16 h.seq_nr ++ be16 h.ack_nr);
  }

  added : header_add p h ≡ some with_header
  unfolding header_add
  added = ground arith

  begin : header_begin with_header ≡ data_begin + p.length
  begin = omega arith

  written :
      slice with_header.mem (header_begin with_header) 5 ≡ h.flags ∷ be16 h.seq_nr ++ be16 h.ack_nr
  written = rw begin (slice-write_at_self p.mem (data_begin + p.length) _ (omega arith))

  parsed : wire_header with_header ≡ h
  parsed =
      same_header (first_byte with_header.mem (header_begin with_header) _ _ _ _ _ written)
        (ap (λ t. of_be 0 t) (next_two with_header.mem (header_begin with_header) _ _ _ _ _ written)
          ∙ of_be-be16 h.seq_nr valid.1)
        (ap (λ t. of_be 0 t)
            (shift (header_begin with_header + 3) (omega arith)
              ∙ last_two with_header.mem (header_begin with_header) _ _ _ _ _ written)
          ∙ of_be-be16 h.ack_nr valid.2)
    where
      shift :
          (k : ℕ)
          → k ≡ header_begin with_header + 1 + 2
          → slice with_header.mem k 2 ≡ slice with_header.mem (header_begin with_header + 1 + 2) 2
      shift k e = ap (λ t. slice with_header.mem t 2) e

  converted :
      slice (to_host with_header).mem (header_begin with_header + 1) 4
      ≡ le16 h.seq_nr ++ le16 h.ack_nr
  unfolding to_host
  converted =
      slice-write_at_self with_header.mem (header_begin with_header + 1) _ (
        omega (
          arith,
          length-write_at p.mem (data_begin + p.length) (h.flags ∷ be16 h.seq_nr ++ be16 h.ack_nr),
        ))
      ∙ ap (λ t. le16 t.seq_nr ++ le16 t.ack_nr) parsed

  data_kept : slice (to_host with_header).mem data_begin p.length ≡ slice p.mem data_begin p.length
  unfolding to_host
  data_kept =
      slice-write_at_before with_header.mem (header_begin with_header + 1) _ data_begin p.length
        (omega arith)
      ∙ slice-write_at_before p.mem (data_begin + p.length) _ data_begin p.length (omega arith)

  front_two : slice (to_host with_header).mem (header_begin with_header + 1) 2 ≡ le16 h.seq_nr
  front_two =
      slice-front (to_host with_header).mem (le16 h.seq_nr ++ le16 h.ack_nr)
        (header_begin with_header + 1) 0 2 2 converted

  seq_read : host_seq_nr (to_host with_header) ≡ h.seq_nr
  unfolding to_host
  seq_read = ap (λ t. of_le t) front_two ∙ of_le-le16 h.seq_nr valid.1

  length_restored : (header_remove (to_host with_header)).length ≡ p.length
  unfolding to_host
  length_restored = omega arith

-- The packet that is sent for a packet with a header, if there is room for both: the receiver reads
-- the header, finds the number of the packet also after it has converted the header in place, and,
-- once it has taken the header off, has the data.
abbrev pub Travels : Packet → Header → Packet → Type 0
Travels p h q =
    (header_add p h ≡ some q)
    × (wire_header q ≡ h)
    × (host_seq_nr (to_host q) ≡ h.seq_nr)
    × ((header_remove (to_host q)).length ≡ p.length)
    × (slice (header_remove (to_host q)).mem data_begin p.length ≡ slice p.mem data_begin p.length)

-- A header with numbers of its size fits behind data that leaves five bytes of the buffer, and the
-- receiver reads it again and gets the data without it.
pub header_add-Travels :
    (p : Packet) (h : Header)
    → IsSized p
    → p.length + header_length ≤ buffer_size
    → IsHeader h
    → (q : Packet) × Travels p h q
header_add-Travels p h sized room valid = (
  with_header p h sized room valid,
  (
    added p h sized room valid,
    parsed p h sized room valid,
    seq_read p h sized room valid,
    length_restored p h sized room valid,
    data_kept p h sized room valid,
  ),
)
