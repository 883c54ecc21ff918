-- ===== src/Route/Bridge.antt =====
-- src/csp_bridge.c: packets from one interface go to another, without the router.
use libcsp.Core.{ℕ, ◌==◌, ◌≡◌, ◌≢◌, ◌⊎◌, inl, inr, refl, sym, ap, ◌∙◌, subst, arith, Bool, false}
use libcsp.Core.{List, [], ◌∷◌, ◌++◌, Option, none, some, if◌then◌else◌}
use libcsp.Packet.{Packet, Err, is_ok, Iface}
use libcsp.Buffer.{packet_of}
use libcsp.Dedup.{is_duplicate}
use libcsp.Io.{
  Node, Transmission, promisc_add, send_direct_iface, protect, observe, transmit, no_via,
}
use libcsp.Io.Sent.{promisc_add-transmitted}
use libcsp.Io.Direct.{find_iface}
use libcsp.Rdp.States.{if-both}
use libcsp.Route.{Router, Input, with_node, drop_packet, qfifo_read}
use libcsp.Route.Work.{packet_in, store_in, iface_of}
use libcsp.Route.Receiver.{Untouched}

-- The opposing interface of the two.
abbrev destif : ℕ → ℕ → Option ℕ → ℕ
destif bif_a bif_b none = bif_a
destif bif_a bif_b (some h) = if h == bif_a then bif_b else bif_a

module _ (hmac_append : Packet → Err × Packet) (nexthop : Iface → ℕ → Packet → Bool → Err) where
  -- To interface `i`, given the packet that looking for duplicates leaves.
  unfoldable pub bridge_to : Router → ℕ → Iface → Router
  bridge_to r packet i =
      let (found, p, dedup') = is_duplicate r.node.version r.dedup r.now (packet_in r packet) in
      let known = record (store_in r packet p) { dedup = dedup' } in
      let seen = promisc_add known.node packet in
      if found
      then drop_packet known packet
      else with_node known (send_direct_iface hmac_append nexthop seen p.id packet i no_via false)

  unfoldable pub bridge_input : Router → ℕ → ℕ → Option Input → Router
  bridge_input r bif_a bif_b none = r
  bridge_input r bif_a bif_b (some input) = elim (input.packet) [
    | none ↦ r
    | some packet ↦ bridge_to r packet (iface_of r (destif bif_a bif_b input.iface))
  ]

  -- `csp_bridge_work` with the two interfaces, `none` before they are set.
  unfoldable pub bridge_work : Router → Option ℕ → Option ℕ → Router
  bridge_work r none bif_b = r
  bridge_work r (some bif_a) none = r
  bridge_work r (some bif_a) (some bif_b) =
      let (input, r') = qfifo_read r in bridge_input r' bif_a bif_b input

-- At most one packet more has gone to an interface, and if so, to this one.
abbrev pub OneMore : Iface → Node → Node → Type 0
OneMore i n n' =
    (n'.transmitted ≡ n.transmitted)
    ⊎ ((t : Transmission) × (n'.transmitted ≡ n.transmitted ++ (t ∷ [])) × (t.iface ≡ i))

module _ (hmac_append : Packet → Err × Packet) (nexthop : Iface → ℕ → Packet → Bool → Err) where
  transmit-OneMore :
      (n0 n : Node) (packet : ℕ) (i : Iface) (via : ℕ) (from_me : Bool)
      → n.transmitted ≡ n0.transmitted
      → OneMore i n0 (transmit hmac_append nexthop n packet i via from_me)
  unfolding transmit
  transmit-OneMore n0 n packet i via from_me e =
      if-both (OneMore i n0) (is_ok (nexthop i via _ from_me)) _ _
        (λ c. inr (sending, ap (λ ts. ts ++ (sending ∷ [])) e, refl)) (λ c. inl e)
    where
      sending : Transmission
      sending = record { iface = i; via = via; packet = packet_of n.buffers packet }

  bridge_to-OneMore :
      (r : Router) (packet : ℕ) (i : Iface)
      → OneMore i r.node (bridge_to hmac_append nexthop r packet i).node
        × Untouched r (bridge_to hmac_append nexthop r packet i)
  unfolding bridge_to send_direct_iface protect observe
  bridge_to-OneMore r packet i =
      if-both (λ r'. OneMore i r.node r'.node × Untouched r r')
        (is_duplicate r.node.version r.dedup r.now (packet_in r packet)).0 _ _
        (λ c. (inl refl, (refl, refl, refl)))
        (λ c. (
          transmit-OneMore r.node _ packet i no_via false (promisc_add-transmitted _ packet),
          (refl, refl, refl),
        ))

  bridge_input-OneMore :
      (r : Router) (bif_a bif_b from to packet : ℕ) (i : Iface)
      → bif_a ≢ bif_b
      → ((from ≡ bif_a) × (to ≡ bif_b)) ⊎ ((from ≡ bif_b) × (to ≡ bif_a))
      → find_iface r.node.interfaces to ≡ some i
      → (let input : Input = record { iface = some from; packet = some packet } in
          let r' = bridge_input hmac_append nexthop r bif_a bif_b (some input) in
          OneMore i r.node r'.node × Untouched r r')
  unfolding bridge_input
  bridge_input-OneMore r bif_a bif_b from to packet i ne sides found =
      subst
        (λ j.
          OneMore i r.node (bridge_to hmac_append nexthop r packet j).node
          × Untouched r (bridge_to hmac_append nexthop r packet j))
        (sym (ap (iface_of r) (opposite sides) ∙ at_found found)) (bridge_to-OneMore r packet i)
    where
      opposite :
          ((from ≡ bif_a) × (to ≡ bif_b)) ⊎ ((from ≡ bif_b) × (to ≡ bif_a))
          → destif bif_a bif_b (some from) ≡ to
      opposite (inl (e, e')) = ground (arith, e, e')
      opposite (inr (e, e')) = ground (arith, e, e', ne)

      at_found : find_iface r.node.interfaces to ≡ some i → iface_of r to ≡ i
      at_found e = rw (e, iface_of) refl

  -- With two interfaces that are not the same and a packet from one of them next in the queue, the bridge
  -- gives the packet at most once to an interface, which is the other one; and whatever it does
  -- touches no callback, socket or connection.
  pub bridge_work-OneMore :
      (r : Router) (bif_a bif_b from to packet : ℕ) (i : Iface) (rest : List Input)
      → bif_a ≢ bif_b
      → ((from ≡ bif_a) × (to ≡ bif_b)) ⊎ ((from ≡ bif_b) × (to ≡ bif_a))
      → find_iface r.node.interfaces to ≡ some i
      → r.qfifo ≡ record { iface = some from; packet = some packet } ∷ rest
      → (let r' = bridge_work hmac_append nexthop r (some bif_a) (some bif_b) in
          OneMore i r.node r'.node × Untouched r r')
  unfolding bridge_work
  bridge_work-OneMore r bif_a bif_b from to packet i rest ne sides found next =
      rw next (
        bridge_input-OneMore (record r { qfifo = rest }) bif_a bif_b from to packet i ne sides
          found)
