-- ===== src/Route/Fate.antt =====
-- What `csp_route_work` of src/csp_route.c lets through to applications.
use libcsp.Core.{
  ℕ, ◌≡◌, ==_iff, ==_self, ◌∙◌, inl, inr, refl, Bool, true, false, Option, none, some,
}
use libcsp.Core.{arith, List, [], ◌∷◌, ◌++◌, ◌==◌, sym, Bool-cases, length, if◌then◌else◌}
use libcsp.Packet.{Packet, Err, is_ok, Iface, so_crc32req, so_conn_less, frdp}
use libcsp.Conn.{Conn, option_set, find_existing, rxqueue_len}
use libcsp.Rdp.{has}
use libcsp.Queue.Fifo.{push}
use libcsp.Rdp.Receive.{enqueue}
use libcsp.Port.{get_callback, get_socket}
use libcsp.Rdp.States.{if-both}
use libcsp.Route.{Router, drop_packet, set_queue, enter}
use libcsp.Route.Security.{security_check}
use libcsp.Route.Work.{
  packet_in, offer, to_conn, to_queue, to_opened, open_conn, check_in, to_callback, to_socket,
  to_new, to_existing, to_connection, to_listener, for_me, route_on,
}
use libcsp.Route.Receiver.{
  Untouched, Receiver, Asks, Only, Unasked, Guarded, seen_by_promisc, without_socket, without_conn,
}
use libcsp.Route.Receiver.Receiver.{callback, socket, connection}
use libcsp.Route.Receiver.Asks.{by_callback, by_conn_less, by_conn, by_socket}

module _ (hmac_append hmac_verify : Packet → Err × Packet)
    (nexthop : Iface → ℕ → Packet → Bool → Err) (rand_r : ℕ → ℕ) where
  -- The check itself, and a packet that it stops.
  by_check :
      (r : Router) (packet opts : ℕ) (i : Iface) (receiver : Receiver) (pass : Router)
      → Asks r (packet_in r packet) receiver opts
      → Only packet receiver r pass
      → Guarded hmac_verify r packet i (
          if (check_in hmac_append hmac_verify nexthop rand_r r opts packet i).0
          then pass
          else drop_packet
              (check_in hmac_append hmac_verify nexthop rand_r r opts packet i).1
              packet)
  unfolding check_in
  by_check r packet opts i receiver pass a o = inr (
    receiver,
    opts,
    a,
    by_result (is_ok (security_check hmac_verify r.node.version opts i (packet_in r packet)).0)
        (drop_packet (check_in hmac_append hmac_verify nexthop rand_r r opts packet i).1 packet)
        (refl, refl, refl),
  )
    where
      by_result :
          (passes : Bool) (stop : Router)
          → Untouched r stop
          → if passes
            then Only packet receiver r (if passes then pass else stop)
            else Untouched r (if passes then pass else stop)
      by_result true stop u = o
      by_result false stop u = u

  to_callback-Guarded :
      (r : Router) (packet : ℕ) (i : Iface) (c : ℕ)
      → get_callback r.ports (packet_in r packet).id.dport ≡ some c
      → Guarded hmac_verify r packet i
          (to_callback hmac_append hmac_verify nexthop rand_r r packet i c)
  unfolding to_callback check_in
  to_callback-Guarded r packet i c e =
      by_check r packet so_crc32req i (callback c) _ (by_callback e) (refl, refl, refl)

  set_queue-other :
      (queues : ℕ → List ℕ) (s k : ℕ) (queue : List ℕ)
      → (k == s) ≡ false
      → set_queue queues s queue k ≡ queues k
  set_queue-other queues s k queue e = rw e refl

  set_queue-same :
      (queues : ℕ → List ℕ) (s : ℕ) (queue : List ℕ) → set_queue queues s queue s ≡ queue
  set_queue-same queues s queue = rw (==_self s) refl

  push-open :
      (queue : List ℕ) (packet : ℕ)
      → (length queue == rxqueue_len) ≡ false
      → (push rxqueue_len queue packet).1 ≡ queue ++ (packet ∷ [])
  push-open queue packet c = rw c refl

  to_socket-Guarded :
      (r : Router) (packet : ℕ) (i : Iface) (s : ℕ)
      → Asks r (packet_in r packet) (socket s) (r.socket_opts s)
      → Guarded hmac_verify r packet i
          (to_socket hmac_append hmac_verify nexthop rand_r r packet i s)
  unfolding to_socket check_in
  to_socket-Guarded r packet i s a =
      by_check r packet (r.socket_opts s) i (socket s) _ a
        (elim (Bool-cases (length (r.socket_queue s) == rxqueue_len)) [
          | inl c ↦ rw c (refl, refl, inl ((==_iff _ _).0 c, refl), λ k e. refl)
          | inr c ↦ rw c (
            refl,
            refl,
            inr (
              λ e. cc (c, (==_iff _ _).1 e),
              set_queue-same r.socket_queue s _ ∙ push-open (r.socket_queue s) packet c,
            ),
            λ k e. set_queue-other r.socket_queue s k _ e,
          )
        ])

  offer-called :
      (r : Router) (k : ℕ) (c : Conn) (o : Option ℕ)
      → (offer hmac_append hmac_verify nexthop rand_r r k c o).called ≡ r.called
  unfolding offer
  offer-called r k c none = refl
  offer-called r k c (some s) = ground arith

  to_conn-called :
      (r : Router) (packet k : ℕ) (o : Option Conn)
      → (to_conn hmac_append hmac_verify nexthop rand_r r packet k o).called ≡ r.called
  unfolding to_conn to_queue
  to_conn-called r packet k none = refl
  to_conn-called r packet k (some c) =
      if-both (λ (r' : Router). r'.called ≡ r.called) (has (packet_in r packet).id.flags frdp) _ _
        (λ e. refl)
        (λ e.
          if-both (λ (r' : Router). r'.called ≡ r.called)
            (is_ok (enqueue (enter r k c) (some packet)).0) _ _ (λ d. offer-called _ k _ _)
            (λ d. refl))

  to_opened-called :
      (r : Router) (packet s : ℕ) (o : Option ℕ)
      → (to_opened hmac_append hmac_verify nexthop rand_r r packet s o).called ≡ r.called
  unfolding to_opened
  to_opened-called r packet s none = refl
  to_opened-called r packet s (some k) = to_conn-called _ packet k _

  open_conn-called :
      (r : Router) (packet s : ℕ)
      → (open_conn hmac_append hmac_verify nexthop rand_r r packet s).called ≡ r.called
  unfolding open_conn
  open_conn-called r packet s = to_opened-called _ packet s _

  to_existing-Guarded :
      (r : Router) (packet : ℕ) (i : Iface) (k : ℕ) (o : Option Conn)
      → ((c : Conn) → o ≡ some c → Asks r (packet_in r packet) connection c.opts)
      → (o ≡ none → Unasked r (packet_in r packet))
      → Guarded hmac_verify r packet i
          (to_existing hmac_append hmac_verify nexthop rand_r r packet i k o)
  unfolding to_existing check_in
  to_existing-Guarded r packet i k none a u = inl (u refl, (refl, refl, refl))
  to_existing-Guarded r packet i k (some c) a u =
      by_check r packet c.opts i connection _ (a c refl) (to_conn-called _ packet k (some c))

  to_new-Guarded :
      (r : Router) (packet : ℕ) (i : Iface) (o : Option ℕ)
      → ((s : ℕ) → o ≡ some s → Asks r (packet_in r packet) connection (r.socket_opts s))
      → (o ≡ none → Unasked r (packet_in r packet))
      → Guarded hmac_verify r packet i (to_new hmac_append hmac_verify nexthop rand_r r packet i o)
  unfolding to_new check_in
  to_new-Guarded r packet i none a u = inl (u refl, (refl, refl, refl))
  to_new-Guarded r packet i (some s) a u =
      by_check r packet (r.socket_opts s) i connection _ (a s refl) (open_conn-called _ packet s)

  to_connection-Guarded :
      (r : Router) (packet : ℕ) (i : Iface) (o found : Option ℕ)
      → get_callback r.ports (packet_in r packet).id.dport ≡ none
      → get_socket r.ports (packet_in r packet).id.dport ≡ o
      → ((s : ℕ) → o ≡ some s → option_set (r.socket_opts s) so_conn_less ≡ false)
      → find_existing r.pool.conns (packet_in r packet).id ≡ found
      → Guarded hmac_verify r packet i
          (to_connection hmac_append hmac_verify nexthop rand_r r packet i o found)
  unfolding to_connection
  to_connection-Guarded r packet i o none ec es ew ef =
      to_new-Guarded r packet i o (λ s e. by_socket ec (es ∙ e) (ew s e) ef)
        (λ e. without_socket r (packet_in r packet) ec (es ∙ e) ef)
  to_connection-Guarded r packet i o (some k) ec es ew ef =
      to_existing-Guarded r packet i k _ (λ c e. by_conn ec (λ s e'. ew s (sym es ∙ e')) ef e)
        (λ e. without_conn r (packet_in r packet) k ec (λ s e'. ew s (sym es ∙ e')) ef e)

  to_listener-Guarded :
      (r : Router) (packet : ℕ) (i : Iface) (o : Option ℕ)
      → get_callback r.ports (packet_in r packet).id.dport ≡ none
      → get_socket r.ports (packet_in r packet).id.dport ≡ o
      → Guarded hmac_verify r packet i
          (to_listener hmac_append hmac_verify nexthop rand_r r packet i o)
  unfolding to_listener
  to_listener-Guarded r packet i none ec es =
      to_connection-Guarded r packet i none _ ec es (λ s e. absurd (cc e)) refl
  to_listener-Guarded r packet i (some s) ec es =
      if-both (Guarded hmac_verify r packet i) (option_set (r.socket_opts s) so_conn_less) _ _
        (λ c. to_socket-Guarded r packet i s (by_conn_less ec es c))
        (λ c. to_connection-Guarded r packet i (some s) _ ec es (λ s' e. same s' e c) refl)
    where
      same :
          (s' : ℕ)
          → some s ≡ some s'
          → option_set (r.socket_opts s) so_conn_less ≡ false
          → option_set (r.socket_opts s') so_conn_less ≡ false
      same s' e c = cc (e, c)

  for_me-Guarded :
      (r : Router) (packet : ℕ) (i : Iface) (o : Option ℕ)
      → get_callback r.ports (packet_in r packet).id.dport ≡ o
      → Guarded hmac_verify r packet i (for_me hmac_append hmac_verify nexthop rand_r r packet i o)
  unfolding for_me
  for_me-Guarded r packet i none e = to_listener-Guarded r packet i _ e refl
  for_me-Guarded r packet i (some c) e = to_callback-Guarded r packet i c e

  -- A packet for another node touches no callback, socket or connection. One for this node may have
  -- a receiver: the callback of its port, which asks for a checksum; without that the socket of the
  -- port, if it is without connections; else the connection that the packet is of; and without that
  -- a new one, with the options of the socket. Without a receiver, or if the packet does not pass
  -- the security check with the options of its receiver, no application gets anything. If it
  -- passes, the callback is run with the packet, and nothing else changes for applications; a
  -- socket without connections has it at the end of its queue, unless that is full, and no
  -- callback, connection or other socket gets it; for a connection no callback is run.
  pub route_on-Guarded :
      (r : Router) (packet : ℕ) (i : Iface) (to_me : Bool)
      → if to_me
        then Guarded hmac_verify
            (seen_by_promisc r packet)
            packet
            i
            (route_on hmac_append hmac_verify nexthop rand_r r packet i to_me)
        else Untouched r (route_on hmac_append hmac_verify nexthop rand_r r packet i to_me)
  unfolding route_on
  route_on-Guarded r packet i true = for_me-Guarded (seen_by_promisc r packet) packet i _ refl
  route_on-Guarded r packet i false = (refl, refl, refl)
