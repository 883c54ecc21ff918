-- ===== src/Packet.antt =====
-- include/csp/csp_types.h, csp_interface.h and csp_error.h: what the components pass around.
use libcsp.Core.{ℕ, ◌+◌, Bool, true, false, List, Option, ◌≡◌, length}

-- The CSP_ERR_ codes that the modelled functions return.
pub data Err : Type 0 where
  none nomem inval timedout used notsup already reset nobufs again hmac crc32 sfp : Err

-- `== CSP_ERR_NONE`, and what a caller that looks for that alone does
abbrev pub is_ok : Err → Bool
is_ok e = elim e [ Err.none ↦ true | _ ↦ false ]

-- The CSP_DBG_ERR_ codes that the modelled functions store in `csp_dbg_errno`.
pub data DbgErr : Type 0 where
  corrupt_buffer already_free refcount invalid_rtable_entry unsupported : DbgErr
  invalid_bind_port port_already_in_use already_closed invalid_pointer : DbgErr

-- `csp_id_t`
pub record CspId : Type 0 where
  pub pri : ℕ
  pub flags : ℕ
  pub src : ℕ
  pub dst : ℕ
  pub dport : ℕ
  pub sport : ℕ

-- CSP_PACKET_PADDING_BYTES and CSP_BUFFER_SIZE
abbrev pub padding_bytes : ℕ
padding_bytes = 8

abbrev pub buffer_size : ℕ
buffer_size = 256

-- `csp_packet_t`. `mem` is `header` followed by `data`, which are adjacent in the struct, and
-- `frame_begin` is an index into it; `conn` is the index of a connection in the pool.
pub record Packet : Type 0 where
  pub timestamp_tx : ℕ
  pub conn : ℕ
  pub frame_begin : ℕ
  pub frame_length : ℕ
  pub length : ℕ
  pub id : CspId
  pub mem : List ℕ

-- The index of `data[0]` in `mem`.
abbrev pub data_begin : ℕ
data_begin = padding_bytes

-- The header flags.
abbrev pub ffrag : ℕ
ffrag = 0x10

abbrev pub fhmac : ℕ
fhmac = 0x08

abbrev pub frdp : ℕ
frdp = 0x02

abbrev pub fcrc32 : ℕ
fcrc32 = 0x01

-- The socket options.
abbrev pub so_rdpreq : ℕ
so_rdpreq = 0x0001

abbrev pub so_hmacreq : ℕ
so_hmacreq = 0x0004

abbrev pub so_crc32req : ℕ
so_crc32req = 0x0040

abbrev pub so_crc32prohib : ℕ
so_crc32prohib = 0x0080

abbrev pub so_conn_less : ℕ
so_conn_less = 0x0100

-- The array of a packet has the size that the struct gives it.
abbrev pub IsSized : Packet → Type 0
IsSized p = libcsp.Core.length p.mem ≡ padding_bytes + buffer_size

-- `csp_iface_t`: the settings and the counters that the modelled functions read or write. A
-- pointer to an interface is its number, `handle`.
pub record Iface : Type 0 where
  pub handle : ℕ
  pub addr : ℕ
  pub netmask : ℕ
  pub name : List ℕ
  pub is_default : ℕ
  pub tx : ℕ
  pub rx : ℕ
  pub tx_error : ℕ
  pub rx_error : ℕ
  pub drop : ℕ
  pub autherr : ℕ
  pub frame : ℕ
  pub txbytes : ℕ
  pub rxbytes : ℕ
