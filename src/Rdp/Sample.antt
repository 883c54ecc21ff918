-- ===== src/Rdp/Sample.antt =====
-- A connection on which the theorems about src/csp_rdp.c are run.
use libcsp.Core.{[], ◌∷◌, ◌++◌, replicate, none, true}
use libcsp.Packet.{CspId, Packet}
use libcsp.Samples.{blank}
use libcsp.Buffer.{Buffers}
use libcsp.Conn.{Conn, RdpConn, opened, server, rdp_open}
use libcsp.RdpQueue.{queue_init}
use libcsp.Rdp.World.{World}

-- The flags of both identifiers ask for RDP.
abbrev node_id : CspId
node_id = record { pri = 2; flags = 2; src = 10; dst = 27; dport = 1; sport = 33 }

abbrev rdp : RdpConn
rdp = record {
  state = rdp_open;
  closed_by = 0;
  snd_nxt = 101;
  snd_una = 100;
  snd_iss = 99;
  rcv_cur = 65535;
  rcv_irs = 65530;
  rcv_lsa = 65534;
  window_size = 4;
  conn_timeout = 10000;
  packet_timeout = 1000;
  delayed_acks = 1;
  ack_timeout = 250;
  ack_delay_count = 2;
  ack_timestamp = 900;
  tx_wait = true;
}

abbrev pub conn : Conn
conn = record {
  type = server;
  state = opened;
  idin = node_id;
  idout = node_id;
  sport_outgoing = 17;
  rx_queue = [];
  dest_socket = none;
  timestamp = 900;
  opts = 1;
  rdp = rdp;
}

-- Packets with a byte of data and an acknowledgment of 100. The number of the first is 0, the one
-- after 65535; that of the second is 1. Both are in the order of the network.
abbrev data_0 : Packet
data_0 = record blank {
  length = 6;
  mem = replicate 8 0 ++ (42 ∷ 4 ∷ 0 ∷ 0 ∷ 0 ∷ 100 ∷ replicate 250 0);
}

abbrev data_1 : Packet
data_1 = record blank {
  length = 6;
  mem = replicate 8 0 ++ (43 ∷ 4 ∷ 0 ∷ 1 ∷ 0 ∷ 100 ∷ replicate 250 0);
}

-- A reset with an acknowledgment, next in order.
abbrev reset_0 : Packet
reset_0 = record blank {
  length = 5;
  mem = replicate 8 0 ++ (5 ∷ 0 ∷ 0 ∷ 0 ∷ 100 ∷ replicate 251 0);
}

abbrev pub buffers : Buffers
buffers = record {
  pool =
      record { refcount = 1; skbf_addr = 0; skbf_data = data_0 }
      ∷ record { refcount = 1; skbf_addr = 1; skbf_data = data_1 }
      ∷ record { refcount = 1; skbf_addr = 2; skbf_data = reset_0 }
      ∷ record { refcount = 0; skbf_addr = 3; skbf_data = blank }
      ∷ record { refcount = 0; skbf_addr = 4; skbf_data = blank }
      ∷ record { refcount = 0; skbf_addr = 5; skbf_data = blank }
      ∷ [];
  free = 3 ∷ 4 ∷ 5 ∷ [];
  buffer_out = 0;
  errno = none;
}

abbrev pub world : World
world = record {
  handle = 2;
  conn = conn;
  queues = queue_init;
  buffers = buffers;
  sent = [];
  accepted = [];
  incr = 0;
  conn_ovf = 0;
  now = 1000;
}
