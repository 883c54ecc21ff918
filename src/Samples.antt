-- ===== src/Samples.antt =====
-- Packets and interfaces on which the theorems are run.
use libcsp.Core.{[], ◌∷◌, ◌++◌, replicate}
use libcsp.Packet.{CspId, Packet, Iface}

abbrev pub ping_id : CspId
ping_id = record { pri = 2; flags = 1; src = 10; dst = 27; dport = 1; sport = 33 }

abbrev pub blank : Packet
blank = record {
  timestamp_tx = 0;
  conn = 0;
  frame_begin = 0;
  frame_length = 0;
  length = 0;
  id = record { pri = 0; flags = 0; src = 0; dst = 0; dport = 0; sport = 0 };
  mem = replicate 264 7;
}

abbrev pub ping : Packet
ping = record blank {
  length = 3;
  id = ping_id;
  mem = replicate 8 0 ++ (10 ∷ 20 ∷ 30 ∷ replicate 253 0);
}

abbrev pub can0 : Iface
can0 = record {
  handle = 1;
  addr = 0x105;
  netmask = 8;
  name = [];
  is_default = 0;
  tx = 0;
  rx = 0;
  tx_error = 0;
  rx_error = 0;
  drop = 0;
  autherr = 0;
  frame = 0;
  txbytes = 0;
  rxbytes = 0;
}
