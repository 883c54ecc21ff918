-- ===== src/Io/Sample.antt =====
-- A node with two interfaces, on which the theorems about src/csp_io.c and src/csp_route.c are run.
use libcsp.Core.{[], ◌∷◌, none, false}
use libcsp.Packet.{Iface}
use libcsp.Samples.{can0}
use libcsp.Rdp.Sample.{buffers}
use libcsp.Io.{Node}

-- The networks of the interfaces are 0x100 with hosts of 6 bits, and 0x200.
abbrev pub can1 : Iface
can1 = record can0 { handle = 2; addr = 0x205; is_default = 1 }

abbrev pub node : Node
node = record {
  version = 2;
  interfaces = can0 ∷ can1 ∷ [];
  buffers = buffers;
  promisc = none;
  promisc_enabled = false;
  conn_ovf = 0;
  transmitted = [];
}
