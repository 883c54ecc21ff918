-- ===== src/Io/Horizon.antt =====
-- The interfaces that `csp_send_direct` of src/csp_io.c gives a packet to.
use libcsp.Core.{ℕ, ◌==◌, ◌||◌, ◌≡◌, ◌⊎◌, inl, inr, refl, sym, subst, ◌∙◌, All}
use libcsp.Core.{Bool, true, false, List, [], ◌∷◌, Option, none, some}
use libcsp.Core.{==_self}
use libcsp.Packet.{Packet, CspId, Err, Iface}
use libcsp.Iflist.{Interfaces, is_within_subnet, serves}
use libcsp.Iflist.Walk.{AreDistinct, all_such, walk-get_by_subnet, walk-get_by_isdfl}
use libcsp.Rdp.States.{if-both}
use libcsp.Io.{Node, goes_back, lo_addr}
use libcsp.Io.Direct.{find_iface, local_walk, default_walk, send_met, send_direct}
use libcsp.Io.Sent.{All-map, All-zip, Sent, local_loop-Sent, default_loop-Sent}

-- What is found by the number of an interface that a look-up has met passes the test.
Passes : (Iface → Bool) → Interfaces → ℕ → Type 0
Passes test ifs h = (i : Iface) → find_iface ifs h ≡ some i → test i ≡ true

all_such-other :
    (test : Iface → Bool) (i : Iface) (ifs : Interfaces)
    → All (λ j. (i.handle == j.handle) ≡ false) ifs
    → All (λ h. (i.handle == h) ≡ false) (all_such test ifs)
unfolding all_such
all_such-other test i [] a = tt
all_such-other test i (j ∷ is) a =
    if-both (λ hs. All (λ h. (i.handle == h) ≡ false) hs) (test j) _ _
      (λ c. (a.0, all_such-other test i is a.1)) (λ c. all_such-other test i is a.1)

find_iface-first : (i : Iface) (ifs : Interfaces) → find_iface (i ∷ ifs) i.handle ≡ some i
unfolding find_iface
find_iface-first i ifs = rw (==_self i.handle) refl

find_iface-other :
    (i : Iface) (ifs : Interfaces) (h : ℕ)
    → (i.handle == h) ≡ false
    → find_iface (i ∷ ifs) h ≡ find_iface ifs h
unfolding find_iface
find_iface-other i ifs h e = rw e refl

first-Passes :
    (test : Iface → Bool) (i : Iface) (ifs : Interfaces)
    → test i ≡ true
    → Passes test (i ∷ ifs) i.handle
unfolding Passes
first-Passes test i ifs c j e = cc (find_iface-first i ifs, e, c)

others-Passes :
    (test : Iface → Bool) (i : Iface) (ifs : Interfaces) (hs : List ℕ)
    → All (λ h. (i.handle == h) ≡ false) hs
    → All (Passes test ifs) hs
    → All (Passes test (i ∷ ifs)) hs
unfolding Passes
others-Passes test i ifs hs a p =
    All-zip hs (λ h ne old j e. old j (sym (find_iface-other i ifs h ne) ∙ e)) a p

all_such-Passes :
    (test : Iface → Bool) (ifs : Interfaces)
    → AreDistinct ifs
    → All (Passes test ifs) (all_such test ifs)
unfolding all_such AreDistinct
all_such-Passes test [] d = tt
all_such-Passes test (i ∷ is) d =
    let others =
      others-Passes test i is (all_such test is) (all_such-other test i is d.0)
        (all_such-Passes test is d.1) in
    if-both (λ hs. All (Passes test (i ∷ is)) hs) (test i) _ _
      (λ c. (first-Passes test i is c, others)) (λ c. others)

-- Not the interface that a packet came from, nor one with an address in the subnet of that.
abbrev pub IsApart : ℕ → Option Iface → Iface → Type 0
IsApart version none i = Unit
IsApart version (some r) i =
    ((i.handle == r.handle) ≡ false) × (is_within_subnet version i.addr (some r) ≡ false)

goes_back-IsApart :
    (version : ℕ) (from : Option Iface) (i : Iface)
    → goes_back version from i ≡ false
    → IsApart version from i
goes_back-IsApart version none i e = tt
goes_back-IsApart version (some r) i e = neither (i.handle == r.handle) _ e
  where
    neither : (a b : Bool) → (a || b) ≡ false → (a ≡ false) × (b ≡ false)
    neither true b c = absurd (cc c)
    neither false b c = (refl, c)

-- An interface that a packet is given to: not the one it came from, nor one in a subnet of that; and
-- one with the network of the destination, or a default if there is none of these.
abbrev pub Chosen : Node → ℕ → Option Iface → Iface → Type 0
Chosen n dst from i =
    IsApart n.version from i
    × ((serves n.version dst i ≡ true)
        ⊎ ((all_such (serves n.version dst) n.interfaces ≡ []) × ((i.is_default == 1) ≡ true)))

module _ (hmac_append : Packet → Err × Packet) (nexthop : Iface → ℕ → Packet → Bool → Err)
    (n : Node) (idout : CspId) (p : ℕ) (from : Option Iface) (d : AreDistinct n.interfaces) where
  by_test :
      (test : Iface → Bool) (hs : List ℕ)
      → hs ≡ all_such test n.interfaces
      → ((i : Iface)
          → goes_back n.version from i ≡ false
          → test i ≡ true
          → Chosen n idout.dst from i)
      → All
          (λ k.
            (i : Iface)
            → find_iface n.interfaces k ≡ some i
            → goes_back n.version from i ≡ false
            → Chosen n idout.dst from i)
          hs
  unfolding Passes
  by_test test hs e f =
      subst
        (λ ks.
          All
            (λ k.
              (i : Iface)
              → find_iface n.interfaces k ≡ some i
              → goes_back n.version from i ≡ false
              → Chosen n idout.dst from i)
            ks)
        (sym e)
        (All-map (all_such test n.interfaces) (λ k old i found c. f i c (old i found))
          (all_such-Passes test n.interfaces d))

  send_met-Chosen :
      (hs : List ℕ)
      → hs ≡ all_such (serves n.version idout.dst) n.interfaces
      → Sent (Chosen n idout.dst from) n
      → Sent (Chosen n idout.dst from) (send_met hmac_append nexthop hs n idout p from).0
  unfolding send_met
  send_met-Chosen [] e h =
      default_loop-Sent hmac_append nexthop (Chosen n idout.dst from) n.version (default_walk n)
        n.interfaces n idout p from
        (by_test (λ i. i.is_default == 1) (default_walk n) (walk-get_by_isdfl n.interfaces d)
          (λ i c t. (goes_back-IsApart n.version from i c, inr (sym e, t))))
        h
  send_met-Chosen (k ∷ hs) e h =
      local_loop-Sent hmac_append nexthop (Chosen n idout.dst from) n.version (k ∷ hs) n.interfaces
        n idout idout p from
        (by_test (serves n.version idout.dst) (k ∷ hs) e
          (λ i c t. (goes_back-IsApart n.version from i c, inl t)))
        h

-- Sending, with the interfaces distinct, a destination other than the loopback's address and no
-- packet given to an interface before, gives the packet to no interface that it came from or that
-- is in the subnet of that; and only to those with the network of the destination, or to defaults
-- if the node has no interface in that network.
pub send_direct-Chosen :
    (hmac_append : Packet → Err × Packet) (nexthop : Iface → ℕ → Packet → Bool → Err) (n : Node)
    (idout : CspId) (p : ℕ) (from : Option Iface)
    → AreDistinct n.interfaces
    → (idout.dst == lo_addr) ≡ false
    → n.transmitted ≡ []
    → Sent (Chosen n idout.dst from) (send_direct hmac_append nexthop n idout p from).0
unfolding send_direct
send_direct-Chosen hmac_append nexthop n idout p from d e h =
    if-both (λ (r : Node × CspId). Sent (Chosen n idout.dst from) r.0) (idout.dst == lo_addr) _ _
      (λ c. absurd (cc (c, e)))
      (λ c.
        send_met-Chosen hmac_append nexthop n idout p from d (local_walk n idout.dst)
          (walk-get_by_subnet n.interfaces n.version idout.dst d) none_before)
  where
    none_before : Sent (Chosen n idout.dst from) n
    none_before = subst (λ ts. All (λ t. Chosen n idout.dst from t.iface) ts) (sym h) tt
