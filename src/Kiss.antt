-- ===== src/Kiss.antt =====
-- src/interfaces/csp_if_kiss.c: framing of packets for a serial line.
mod Unescape
pub mod Transfer
pub mod Full
mod Tests
use libcsp.Core.{ℕ, ◌+◌, ◌%◌, ◌^◌, ltb, leb, ◌==◌, Bool, true, false, if◌then◌else◌, ◌≡◌}
use libcsp.Core.{List, [], ◌∷◌, ◌++◌, Option, none, some}
use libcsp.Core.Memory.{write_at, slice}
use libcsp.Packet.{Packet, Iface, Err, padding_bytes, buffer_size}
use libcsp.Id.{setup_rx, strip, prepend}
use libcsp.Crc.{crc32_append, crc32_verify}

abbrev pub fend : ℕ
fend = 0xc0

abbrev pub fesc : ℕ
fesc = 0xdb

abbrev pub tfend : ℕ
tfend = 0xdc

abbrev pub tfesc : ℕ
tfesc = 0xdd

abbrev pub tnc_data : ℕ
tnc_data = 0x00

-- What the loop of `csp_kiss_tx` hands to `tx_func` for one byte, and for all bytes of a frame.
abbrev pub escape : ℕ → List ℕ
escape b = if b == fend then fesc ∷ tfend ∷ [] else if b == fesc then fesc ∷ tfesc ∷ [] else b ∷ []

pub escape_all : List ℕ → List ℕ
escape_all [] = []
escape_all (b ∷ bs) = escape b ++ escape_all bs

-- The bytes that `csp_kiss_tx` transmits. It does not look at the result of `csp_crc32_append`.
pub kiss_tx : ℕ → Packet → List ℕ
kiss_tx version packet =
    let (e, with_crc) = crc32_append packet in
    let p = prepend version with_crc in
    fend ∷ tnc_data ∷ (escape_all (slice p.mem p.frame_begin p.frame_length) ++ (fend ∷ []))

-- `csp_kiss_mode_t`
pub data KissMode : Type 0 where
  not_started started escaped skip_frame : KissMode

-- The interface and its `csp_kiss_interface_data_t`. `routed` holds the packets that were handed
-- to `csp_qfifo_write`, in order.
pub record Kiss : Type 0 where
  pub iface : Iface
  pub rx_mode : KissMode
  pub rx_length : ℕ
  pub rx_first : Bool
  pub rx_packet : Option Packet
  pub routed : List Packet

abbrev count_frame : Iface → Iface
count_frame i = record i { frame = (i.frame + 1) % 2 ^ 32 }

-- "If packet was too long, truncate and restart".
pub restart_if_full : Kiss → Option Packet → Kiss
restart_if_full s none = s
restart_if_full s (some p) =
    if leb (padding_bytes + buffer_size) (p.frame_begin + s.rx_length)
    then record s {
      iface = record (s.iface) { rx_error = (s.iface.rx_error + 1) % 2 ^ 32 };
      rx_mode = not_started;
      rx_length = 0;
    }
    else s

-- A frame begins in the packet at hand; without one it is skipped.
start_frame : ℕ → Kiss → Option Packet → Kiss
start_frame version s none = record s {
  iface = record (s.iface) { drop = (s.iface.drop + 1) % 2 ^ 32 };
  rx_mode = skip_frame;
  rx_packet = none;
}
start_frame version s (some p) = record s {
  rx_packet = some ((setup_rx version p).1);
  rx_length = 0;
  rx_mode = started;
  rx_first = true;
}

-- The packet in the buffer, or the one that `csp_buffer_get_always` returns (`alloc`).
abbrev pub or_alloc : Option Packet → Option Packet → Option Packet
or_alloc none alloc = alloc
or_alloc (some p) alloc = some p

-- The byte behind the bytes received.
abbrev store_byte : Kiss → ℕ → Packet → Kiss
store_byte s b p = record s {
  rx_packet = some (record p { mem = write_at p.mem (p.frame_begin + s.rx_length) (b ∷ []) });
  rx_length = s.rx_length + 1;
}

pub with_packet : Kiss → (Packet → Kiss) → Option Packet → Kiss
with_packet s f none = s
with_packet s f (some p) = f p

-- The stripped packet is checked and handed on.
pub finish_stripped : ℕ → Kiss → Packet → Option Packet → Kiss
finish_stripped version s framed none = record s {
  iface = count_frame s.iface;
  rx_mode = not_started;
  rx_packet = some framed;
}
finish_stripped version s framed (some stripped) =
    let (e, checked) = crc32_verify version stripped in
    elim e [
      | Err.none ↦ record s {
        rx_packet = none;
        rx_mode = not_started;
        routed = s.routed ++ (checked ∷ []);
      }
      | _ ↦ record s {
        iface = count_frame s.iface;
        rx_mode = not_started;
        rx_packet = some checked;
      }
    ]

pub finish_frame : ℕ → Kiss → Packet → Kiss
unfolding finish_stripped
finish_frame version s p =
    let framed = record p { frame_length = s.rx_length % 2 ^ 16 } in
    finish_stripped version s framed (strip version framed)

pub on_started : ℕ → Kiss → ℕ → Kiss
unfolding with_packet finish_frame
on_started version s b =
    if b == fesc
    then record s { rx_mode = escaped }
    else if b == fend
    then if ltb 0 s.rx_length then with_packet s (finish_frame version s) s.rx_packet else s
    else if s.rx_first
    then record s { rx_first = false }
    else with_packet s (store_byte s b) s.rx_packet

pub on_escaped : Kiss → ℕ → Kiss
unfolding with_packet
on_escaped s b =
    let s' =
      if b == tfesc
      then with_packet s (store_byte s fesc) s.rx_packet
      else if b == tfend
      then with_packet s (store_byte s fend) s.rx_packet
      else s in
    record s' { rx_mode = started }

pub by_mode : ℕ → Option Packet → Kiss → ℕ → KissMode → Kiss
unfolding start_frame on_started on_escaped
by_mode version alloc s b not_started =
    if b == fend then start_frame version s (or_alloc s.rx_packet alloc) else s
by_mode version alloc s b started = on_started version s b
by_mode version alloc s b escaped = on_escaped s b
by_mode version alloc s b skip_frame = if b == fend then record s { rx_mode = not_started } else s

-- One round of the loop of `csp_kiss_rx`.
pub rx_byte : ℕ → Option Packet → Kiss → ℕ → Kiss
unfolding restart_if_full by_mode
rx_byte version alloc s inputbyte =
    let s' = restart_if_full s s.rx_packet in by_mode version alloc s' inputbyte s'.rx_mode

pub kiss_rx : ℕ → Option Packet → Kiss → List ℕ → Kiss
kiss_rx version alloc s [] = s
kiss_rx version alloc s (b ∷ buf) = kiss_rx version alloc (rx_byte version alloc s b) buf
