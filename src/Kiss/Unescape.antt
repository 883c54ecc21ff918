-- ===== src/Kiss/Unescape.antt =====
-- The receiver of src/interfaces/csp_if_kiss.c inside a frame.
use libcsp.Core.{ℕ, suc, ◌+◌, ◌<◌, ◌≤◌, ◌≡◌, ◌≢◌, ◌∙◌, sym, ap, ap₂, arith, inl, inr}
use libcsp.Core.{false, List, [], ◌∷◌, ◌++◌, Option, some, length}
use libcsp.Core.{◌==◌, Bool-cases, ==_iff, append_assoc}
use libcsp.Core.Memory.{write_at, write_at-append, write_at-none}
use libcsp.Packet.{Packet}
use libcsp.Kiss.{Kiss, started, escaped, fend, fesc, tfend, tfesc}
use libcsp.Kiss.{escape, escape_all, rx_byte, kiss_rx}

-- A receiver that has `n` bytes of a frame in the packet `r`.
abbrev pub in_frame : Kiss → Packet → ℕ → Kiss
in_frame s r n = record s { rx_mode = started; rx_length = n; rx_first = false; rx_packet = some r }

abbrev pub mid_escape : Kiss → Packet → ℕ → Kiss
mid_escape s r n = record s {
  rx_mode = escaped;
  rx_length = n;
  rx_first = false;
  rx_packet = some r;
}

-- The packet `r` with the bytes `bs` behind its first `n`.
abbrev pub filled : Packet → ℕ → List ℕ → Packet
filled r n bs = record r { mem = write_at r.mem (r.frame_begin + n) bs }

module _ (version : ℕ) (alloc : Option Packet) (s : Kiss) (r : Packet) (n : ℕ)
    (room : r.frame_begin + n < 264) where
  rx_byte-plain :
      (b : ℕ)
      → b ≢ fend
      → b ≢ fesc
      → rx_byte version alloc (in_frame s r n) b ≡ in_frame s (filled r n (b ∷ [])) (n + 1)
  unfolding rx_byte
  rx_byte-plain b p q = ground arith

  rx_byte-fesc : rx_byte version alloc (in_frame s r n) fesc ≡ mid_escape s r n
  unfolding rx_byte
  rx_byte-fesc = ground arith

  rx_byte-tfend :
      rx_byte version alloc (mid_escape s r n) tfend ≡ in_frame s (filled r n (fend ∷ [])) (n + 1)
  unfolding rx_byte
  rx_byte-tfend = ground arith

  rx_byte-tfesc :
      rx_byte version alloc (mid_escape s r n) tfesc ≡ in_frame s (filled r n (fesc ∷ [])) (n + 1)
  unfolding rx_byte
  rx_byte-tfesc = ground arith

  -- One byte, escaped where it has to be, arrives as itself.
  kiss_rx-escape :
      (b : ℕ) (rest : List ℕ)
      → kiss_rx version alloc (in_frame s r n) (escape b ++ rest)
        ≡ kiss_rx version alloc (in_frame s (filled r n (b ∷ [])) (n + 1)) rest
  unfolding kiss_rx
  kiss_rx-escape b rest = elim (Bool-cases (b == fend)) [
    | inl e ↦
        rw (e, rx_byte-fesc, rx_byte-tfend)
          (ap (λ (t : ℕ). kiss_rx version alloc (in_frame s (filled r n (t ∷ [])) (n + 1)) rest)
            (sym ((==_iff b fend).0 e)))
    | inr ne ↦ elim (Bool-cases (b == fesc)) [
      | inl e ↦
          rw (ne, e, rx_byte-fesc, rx_byte-tfesc)
            (ap (λ (t : ℕ). kiss_rx version alloc (in_frame s (filled r n (t ∷ [])) (n + 1)) rest)
              (sym ((==_iff b fesc).0 e)))
      | inr ne' ↦ rw (ne, ne', rx_byte-plain b (ground arith) (ground arith))
    ]
  ]

-- All bytes of a frame that fits arrive as themselves.
pub kiss_rx-escape_all :
    (version : ℕ) (alloc : Option Packet) (s : Kiss) (r : Packet) (n : ℕ) (bs rest : List ℕ)
    → r.frame_begin + n + length bs ≤ 264
    → kiss_rx version alloc (in_frame s r n) (escape_all bs ++ rest)
      ≡ kiss_rx version alloc (in_frame s (filled r n bs) (n + length bs)) rest
unfolding escape_all
kiss_rx-escape_all version alloc s r n [] rest h =
    ap (λ m. kiss_rx version alloc (in_frame s (record r { mem = m }) n) rest)
      (sym (write_at-none r.mem (r.frame_begin + n)))
    ∙ ap (λ (k : ℕ). kiss_rx version alloc (in_frame s (filled r n []) k) rest) (omega arith)
kiss_rx-escape_all version alloc s r n (b ∷ bs) rest h =
    ap (λ bytes. kiss_rx version alloc (in_frame s r n) bytes)
      (append_assoc (escape b) (escape_all bs) rest)
    ∙ kiss_rx-escape version alloc s r n (omega arith) b (escape_all bs ++ rest)
    ∙ kiss_rx-escape_all version alloc s (filled r n (b ∷ [])) (n + 1) bs rest (omega arith)
    ∙ ap₂ (λ m (k : ℕ). kiss_rx version alloc (in_frame s (record r { mem = m }) k) rest) joined
        count
  where
    count : n + 1 + length bs ≡ n + suc (length bs)
    count = omega arith

    joined :
        write_at (write_at r.mem (r.frame_begin + n) (b ∷ [])) (r.frame_begin + (n + 1)) bs
        ≡ write_at r.mem (r.frame_begin + n) (b ∷ bs)
    joined =
        shift (r.frame_begin + (n + 1)) (omega arith)
        ∙ sym (write_at-append r.mem (r.frame_begin + n) (b ∷ []) bs)
      where
        shift :
            (k : ℕ)
            → k ≡ r.frame_begin + n + 1
            → write_at (write_at r.mem (r.frame_begin + n) (b ∷ [])) k bs
              ≡ write_at (write_at r.mem (r.frame_begin + n) (b ∷ [])) (r.frame_begin + n + 1) bs
        shift k e = ap (λ t. write_at (write_at r.mem (r.frame_begin + n) (b ∷ [])) t bs) e
