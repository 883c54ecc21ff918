-- ===== src/Route/Tests.antt =====
-- src/csp_route.c, run on a node with a callback.
use libcsp.Core.{◌≡◌, refl, ℕ, true, Bool, [], ◌∷◌, none, replicate}
use libcsp.Core.{inr, arith, false}
use libcsp.Core.{inl, some}
use libcsp.Io.Direct.{find_iface}
use libcsp.Io.Sample.{can1}
use libcsp.Route.Bridge.{bridge_work, OneMore, bridge_work-OneMore}
use libcsp.Route.Receiver.{Untouched}
use libcsp.Core.Memory.{slice}
use libcsp.Hmac.{hmac_append, hmac_verify}
use libcsp.Io.{protect}
use libcsp.Route.Protected.{security_check-protect}
use libcsp.Packet.{Packet, Err, Iface, data_begin}
use libcsp.Samples.{can0, ping}
use libcsp.Dedup.{initial}
use libcsp.Port.{closed, open_callback}
use libcsp.RdpQueue.{queue_init}
use libcsp.Rdp.Sample.{conn}
use libcsp.Io.Sample.{node}
use libcsp.Route.{Router, dedup_off}
use libcsp.Route.Security.{Says, PassesAll, security_check, security_check-Says}
use libcsp.Route.Work.{route_on}
use libcsp.Route.Receiver.{Guarded, seen_by_promisc}
use libcsp.Route.Fate.{route_on-Guarded}

abbrev router : Router
router = record {
  node = node;
  qfifo = [];
  pool = record { conns = conn ∷ []; last_given = 0; conn_out = 0 };
  ports = open_callback 5 ∷ replicate 17 closed;
  queues = queue_init;
  socket_opts = λ s. 0;
  socket_queue = λ s. [];
  dedup = initial;
  dedup_mode = dedup_off;
  called = [];
  sent = [];
  incr = 0;
  now = 1000;
  errno = none;
}

abbrev no_hmac : Packet → Err × Packet
no_hmac p = (Err.none, p)

abbrev takes_all : Iface → ℕ → Packet → Bool → Err
takes_all i via p from_me = Err.none

abbrev rand_zero : ℕ → ℕ
rand_zero seed = 0

security_check-Says_example :
    Says (PassesAll no_hmac 2 0x41 ping) can0 (security_check no_hmac 2 0x41 can0 ping)
security_check-Says_example = security_check-Says no_hmac 2 0x41 can0 ping

route_on-Guarded_example :
    Guarded no_hmac
      (seen_by_promisc router 0)
      0
      can0
      (route_on no_hmac no_hmac takes_all rand_zero router 0 can0 true)
route_on-Guarded_example = route_on-Guarded no_hmac no_hmac takes_all rand_zero router 0 can0 true

-- A packet with authentication, a checksum and two bytes.
abbrev protected : Packet
protected = record ping { length = 2; id = record (ping.id) { flags = 0x09 } }

security_check-protect_example :
    let (done, sent) =
      protect (hmac_append (replicate 16 1) false) takes_all true protected.id.flags protected in
    let (e, i', got) = security_check (hmac_verify (replicate 16 1) false) 2 0x44 can0 sent in
    (done ≡ true)
    × (e ≡ Err.none)
    × (i' ≡ can0)
    × (got.id ≡ protected.id)
    × (got.length ≡ 2)
    × (slice got.mem data_begin 2 ≡ slice protected.mem data_begin 2)
security_check-protect_example =
    security_check-protect (replicate 16 1) takes_all protected 2 0x44 can0 refl (omega arith) refl
      refl (inr refl)

-- The router with a packet from the first interface in the queue.
abbrev bridging : Router
bridging = record router { qfifo = record { iface = some 1; packet = some 0 } ∷ [] }

found_can1 : find_iface bridging.node.interfaces 2 ≡ some can1
unfolding find_iface
found_can1 = refl

bridge_work-OneMore_example :
    (let r' = bridge_work no_hmac takes_all bridging (some 1) (some 2) in
      OneMore can1 bridging.node r'.node × Untouched bridging r')
bridge_work-OneMore_example =
    bridge_work-OneMore no_hmac takes_all bridging 1 2 1 2 0 can1 [] (λ e. absurd (omega arith))
      (inl (refl, refl)) found_can1 refl
