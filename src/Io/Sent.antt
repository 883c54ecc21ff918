-- ===== src/Io/Sent.antt =====
-- `csp_send_direct` of src/csp_io.c gives packets only to interfaces that its loops meet.
use libcsp.Core.{ℕ, ◌≡◌, refl, sym, subst, arith, All}
use libcsp.Core.{Bool, true, false, List, [], ◌∷◌, ◌++◌, Option, none, some}
use libcsp.Packet.{Packet, CspId, Err, Iface, is_ok}
use libcsp.Buffer.{Buffers, buffer_clone}
use libcsp.Iflist.{Interfaces}
use libcsp.Rdp.States.{if-both}
use libcsp.Io.{
  Node, promisc_add, promisc_copy, observe, transmit, protect, send_direct_iface, send_clone,
  send_copy_to, goes_back, set_buffers,
}
use libcsp.Io.Direct.{find_iface, local_round, local_loop, default_round, default_loop}

All-append :
    {A : Type 0} (P : A → Type 0) (xs : List A) (x : A) → All P xs → P x → All P (xs ++ (x ∷ []))
All-append P [] x h p = (p, tt)
All-append P (y ∷ ys) x h p = (h.0, All-append P ys x h.1 p)

pub All-map :
    {A : Type 0} {P R : A → Type 0} (xs : List A) → ((a : A) → P a → R a) → All P xs → All R xs
All-map [] f p = tt
All-map (x ∷ xs) f p = (f x p.0, All-map xs f p.1)

pub All-zip :
    {A : Type 0} {P Q R : A → Type 0} (xs : List A)
    → ((a : A) → P a → Q a → R a)
    → All P xs
    → All Q xs
    → All R xs
All-zip [] f p q = tt
All-zip (x ∷ xs) f p q = (f x p.0 q.0, All-zip xs f p.1 q.1)

promisc_copy-transmitted :
    (n : Node) (q : List ℕ) (o : Option ℕ) → (promisc_copy n q o).transmitted ≡ n.transmitted
unfolding promisc_copy
promisc_copy-transmitted n q none = refl
promisc_copy-transmitted n q (some c) = ground arith

pub promisc_add-transmitted : (n : Node) (i : ℕ) → (promisc_add n i).transmitted ≡ n.transmitted
unfolding promisc_add
promisc_add-transmitted n i = grind (arith, promisc_copy-transmitted)

observe-transmitted : (b : Bool) (n : Node) (i : ℕ) → (observe b n i).transmitted ≡ n.transmitted
unfolding observe
observe-transmitted true n i = promisc_add-transmitted n i
observe-transmitted false n i = refl

-- Whatever holds of an interface holds of all that have taken a packet.
abbrev pub Sent : (Iface → Type 0) → Node → Type 0
Sent Q n = All (λ t. Q t.iface) n.transmitted

module _ (hmac_append : Packet → Err × Packet) (nexthop : Iface → ℕ → Packet → Bool → Err)
    (Q : Iface → Type 0) where
  transmit-Sent :
      (n : Node) (p : ℕ) (i : Iface) (via : ℕ) (b : Bool)
      → Q i
      → Sent Q n
      → Sent Q (transmit hmac_append nexthop n p i via b)
  unfolding transmit
  transmit-Sent n p i via b q h =
      if-both (Sent Q) (is_ok (nexthop i via _ b)) _ _
        (λ c. All-append (λ t. Q t.iface) n.transmitted _ h q) (λ c. h)

  send_direct_iface-Sent :
      (n : Node) (idout : CspId) (p : ℕ) (i : Iface) (via : ℕ) (b : Bool)
      → Q i
      → Sent Q n
      → Sent Q (send_direct_iface hmac_append nexthop n idout p i via b)
  unfolding send_direct_iface
  send_direct_iface-Sent n idout p i via b q h =
      if-both (Sent Q) (protect hmac_append nexthop b idout.flags _).0 _ _
        (λ c. transmit-Sent _ p i via b q (seen _ _)) (λ c. h)
    where
      seen : (o : Bool) (s : Buffers) → Sent Q (observe o (set_buffers n s) p)
      seen o s =
          subst (λ ts. All (λ t. Q t.iface) ts) (sym (observe-transmitted o (set_buffers n s) p)) h

  send_copy_to-Sent :
      (n : Node) (idout : CspId) (p : ℕ) (i : Iface) (b : Bool)
      → Q i
      → Sent Q n
      → Sent Q (send_copy_to hmac_append nexthop n idout p i b)
  unfolding send_copy_to send_clone
  send_copy_to-Sent n idout p i b q h = by_clone (buffer_clone n.buffers p).0
    where
      by_clone :
          (o : Option ℕ)
          → Sent Q (
              send_clone hmac_append nexthop
                (set_buffers n (buffer_clone n.buffers p).1)
                idout
                o
                i
                b)
      by_clone none = h
      by_clone (some c) = send_direct_iface-Sent _ idout c i _ b q h

  -- An interface that a look-up has found is given a packet only if it does not go back.
  abbrev Fits : ℕ → Option Iface → Option Iface → Type 0
  Fits version from o = (i : Iface) → o ≡ some i → goes_back version from i ≡ false → Q i

  local_round-Sent :
      (v : ℕ) (n : Node) (idout id' : CspId) (p : ℕ) (from o : Option Iface)
      → Fits v from o
      → Sent Q n
      → Sent Q (local_round hmac_append nexthop v n idout id' p from o).0
  unfolding local_round
  local_round-Sent v n idout id' p from none f h = h
  local_round-Sent v n idout id' p from (some i) f h =
      if-both (λ (r : Node × CspId). Sent Q r.0) (goes_back v from i) _ _ (λ c. h)
        (λ c. send_copy_to-Sent n _ p i _ (f i refl c) h)

  default_round-Sent :
      (v : ℕ) (n : Node) (idout : CspId) (p : ℕ) (from o : Option Iface)
      → Fits v from o
      → Sent Q n
      → Sent Q (default_round hmac_append nexthop v n idout p from o).0
  unfolding default_round
  default_round-Sent v n idout p from none f h = h
  default_round-Sent v n idout p from (some i) f h =
      if-both (λ (r : Node × CspId). Sent Q r.0) (goes_back v from i) _ _ (λ c. h)
        (λ c. send_copy_to-Sent n _ p i _ (f i refl c) h)

  pub local_loop-Sent :
      (v : ℕ) (hs : List ℕ) (ifs : Interfaces) (n : Node) (idout id' : CspId) (p : ℕ)
      (from : Option Iface)
      → All (λ k. Fits v from (find_iface ifs k)) hs
      → Sent Q n
      → Sent Q (local_loop hmac_append nexthop v hs ifs n idout id' p from)
  unfolding local_loop
  local_loop-Sent v [] ifs n idout id' p from f h = h
  local_loop-Sent v (k ∷ hs) ifs n idout id' p from f h =
      local_loop-Sent v hs ifs _ idout _ p from f.1
        (local_round-Sent v n idout id' p from (find_iface ifs k) f.0 h)

  pub default_loop-Sent :
      (v : ℕ) (hs : List ℕ) (ifs : Interfaces) (n : Node) (idout : CspId) (p : ℕ)
      (from : Option Iface)
      → All (λ k. Fits v from (find_iface ifs k)) hs
      → Sent Q n
      → Sent Q (default_loop hmac_append nexthop v hs ifs n idout p from).0
  unfolding default_loop
  default_loop-Sent v [] ifs n idout p from f h = h
  default_loop-Sent v (k ∷ hs) ifs n idout p from f h =
      default_loop-Sent v hs ifs _ _ p from f.1
        (default_round-Sent v n idout p from (find_iface ifs k) f.0 h)
