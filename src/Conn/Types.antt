-- ===== src/Conn/Types.antt =====
-- src/csp_conn.h: a connection, with the state that RDP keeps in it.
use libcsp.Core.{ℕ, Bool, List, Option}
use libcsp.Packet.{CspId}

pub data ConnState : Type 0 where
  closed opened : ConnState

pub data ConnType : Type 0 where
  client server : ConnType

pub data RdpState : Type 0 where
  rdp_closed syn_sent syn_rcvd rdp_open close_wait : RdpState

-- Who has closed a connection: CSP_RDP_CLOSED_BY_USERSPACE, _PROTOCOL, _TIMEOUT and _ALL.
abbrev pub by_userspace : ℕ
by_userspace = 1

abbrev pub by_protocol : ℕ
by_protocol = 2

abbrev pub by_timeout : ℕ
by_timeout = 4

abbrev pub by_all : ℕ
by_all = 7

-- `csp_rdp_t`; the semaphore `tx_wait` holds 0 or 1, which is a Boolean.
pub record RdpConn : Type 0 where
  pub state : RdpState
  pub closed_by : ℕ
  pub snd_nxt : ℕ
  pub snd_una : ℕ
  pub snd_iss : ℕ
  pub rcv_cur : ℕ
  pub rcv_irs : ℕ
  pub rcv_lsa : ℕ
  pub window_size : ℕ
  pub conn_timeout : ℕ
  pub packet_timeout : ℕ
  pub delayed_acks : ℕ
  pub ack_timeout : ℕ
  pub ack_delay_count : ℕ
  pub ack_timestamp : ℕ
  pub tx_wait : Bool

-- `csp_conn_t`; `rx_queue` holds the numbers of packet buffers, and `none` for NULL.
pub record Conn : Type 0 where
  pub type : ConnType
  pub state : ConnState
  pub idin : CspId
  pub idout : CspId
  pub sport_outgoing : ℕ
  pub rx_queue : List (Option ℕ)
  pub dest_socket : Option ℕ
  pub timestamp : ℕ
  pub opts : ℕ
  pub rdp : RdpConn
