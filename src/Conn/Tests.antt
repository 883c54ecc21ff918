-- ===== src/Conn/Tests.antt =====
-- A pool on which the theorems about src/csp_conn.c are run.
use libcsp.Core.{ℕ, ◌≡◌, ◌<◌, refl, arith, List, [], ◌∷◌, some, none, false}
use libcsp.Packet.{CspId}
use libcsp.Conn.{Conn, closed, opened, client, server, conn_init, init_from, conn_max}
use libcsp.Conn.{allocate, allocate_loop, find_existing, find_dport, first_index, conn_new}
use libcsp.Conn.{connect_pool, RdpConn, close_wait, rdp_init}
use libcsp.Conn.Allocate.{Allocates, IsTaken, allocate-Allocates}
use libcsp.Conn.Find.{IsFirst, IsFor, find_existing-IsFirst}

abbrev no_id : CspId
no_id = record { pri = 0; flags = 9; src = 0; dst = 0; dport = 0; sport = 0 }

-- Memory that nothing has been written to.
abbrev junk_rdp : RdpConn
junk_rdp = record {
  state = close_wait;
  closed_by = 3;
  snd_nxt = 5;
  snd_una = 5;
  snd_iss = 5;
  rcv_cur = 5;
  rcv_irs = 5;
  rcv_lsa = 5;
  window_size = 5;
  conn_timeout = 5;
  packet_timeout = 5;
  delayed_acks = 5;
  ack_timeout = 5;
  ack_delay_count = 5;
  ack_timestamp = 5;
  tx_wait = false;
}

abbrev junk : Conn
junk = record {
  type = server;
  state = opened;
  idin = no_id;
  idout = no_id;
  sport_outgoing = 99;
  rx_queue = some 1 ∷ none ∷ [];
  dest_socket = none;
  timestamp = 4;
  opts = 0;
  rdp = junk_rdp;
}

abbrev fresh : Conn
fresh = record junk {
  state = closed;
  idin = record no_id { flags = 0 };
  rx_queue = [];
  rdp = rdp_init junk_rdp 10000 1000;
}

abbrev pool : List Conn
pool =
    record fresh { sport_outgoing = 17 }
    ∷ record fresh {
      sport_outgoing = 18;
      state = opened;
      type = client;
      idin = record no_id { dport = 18 };
    }
    ∷ record fresh {
      sport_outgoing = 19;
      state = opened;
      idin = record no_id { dport = 10; sport = 20; src = 5 };
    }
    ∷ []

conn_init_run :
    conn_init (junk ∷ junk ∷ [])
    ≡ record fresh { sport_outgoing = 17 } ∷ record fresh { sport_outgoing = 18 } ∷ []
unfolding conn_init init_from
conn_init_run = refl

find_existing_run :
    (find_existing pool (record no_id { dport = 10; sport = 20; src = 5 }) ≡ some 2)
    × (find_existing pool (record no_id { dport = 10; sport = 21; src = 5 }) ≡ none)
    × (find_existing pool (record no_id { dport = 18; sport = 3; src = 7 }) ≡ some 1)
unfolding find_existing first_index
find_existing_run = (refl, refl, refl)

-- Connecting to port 7 of node 5 with the options for RDP and a checksum.
connect_pool_run :
    let (o, p, freed) =
      connect_pool
        (record { conns = pool; last_given = 1; conn_out = 0 })
        1000
        2
        5
        7
        0
        0x41
        (0, 0) in
    (o ≡ some 0) × (p.last_given ≡ 0) × (find_dport p.conns 17 ≡ some 0) × (freed ≡ [])
unfolding connect_pool conn_new allocate allocate_loop find_dport first_index
connect_pool_run = (refl, refl, refl, refl)

allocate-Allocates_example :
    Allocates conn_max 1
      (record { conns = pool; last_given = 1; conn_out = 0 })
      (record { conns = pool; last_given = 1; conn_out = 1 })
      client
      (allocate (record { conns = pool; last_given = 1; conn_out = 0 }) client)
    × ((allocate (record { conns = pool; last_given = 1; conn_out = 0 }) client).0 ≡ none
        → (k : ℕ) → k < conn_max
        → IsTaken pool k)
allocate-Allocates_example =
    allocate-Allocates (record { conns = pool; last_given = 1; conn_out = 0 }) client (omega arith)

find_existing_example :
    IsFirst
      (IsFor (record no_id { dport = 18 }))
      pool
      (find_existing pool (record no_id { dport = 18 }))
find_existing_example = find_existing-IsFirst pool (record no_id { dport = 18 })
