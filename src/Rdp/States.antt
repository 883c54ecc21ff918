-- ===== src/Rdp/States.antt =====
-- The states that a packet takes a connection through, in src/csp_rdp.c.
use libcsp.Core.{ℕ, ◌==◌, ◌≡◌, ◌≢◌, refl, sym, ap, subst, ◌∙◌, arith, Bool, true, false, ◌&&◌, ◌||◌}
use libcsp.Core.{◌⊎◌, inl, inr, bit_and, none, if◌then◌else◌, not}
use libcsp.Packet.{is_ok}
use libcsp.Conn.{RdpState, rdp_closed, syn_sent, syn_rcvd, rdp_open, close_wait}
use libcsp.Rdp.{Header, syn, ack, rst, has}
use libcsp.Rdp.World.{World}
use libcsp.Rdp.Frame.{
  send_cmp-status, check_ack-status, receive_data-status, rx_queue_flush-status, rx_queue_add-kept,
}
use libcsp.Rdp.Receive.{receive_data, rx_queue_add, next_nr}
use libcsp.Rdp.Machine.{
  discard_close, discard_open, accepted_open, Handled, is_set, tell, tell_syn_ack, store_ack,
  on_reset_in_sequence, on_reset_in, on_reset, on_closed, on_syn_sent, seq_ok, ack_ok, take_data,
  keep_data, on_data, on_valid, give_to_socket, on_first_ack, is_syn_rcvd, on_open, on_close_wait,
  dispatch_in, dispatch,
}

-- The moves that a packet with a header can make. The first three need the packet of the handshake:
-- a SYN alone, a SYN with an acknowledgment, and an acknowledgment of the number sent, inside both
-- windows and with no SYN.
pub data Moves (w : World) (h : Header) : RdpState → RdpState → Type 0 where
  accepts :
      has h.flags rst ≡ false → (bit_and h.flags 15 == syn) ≡ true → Moves w h rdp_closed syn_rcvd
  connects :
      has h.flags rst ≡ false
      → has h.flags syn ≡ true
      → has h.flags ack ≡ true
      → Moves w h syn_sent rdp_open
  opens :
      has h.flags rst ≡ false
      → has h.flags syn ≡ false
      → has h.flags ack ≡ true
      → seq_ok w h ≡ true
      → ack_ok w h ≡ true
      → (h.ack_nr == w.conn.rdp.snd_iss) ≡ true
      → Moves w h syn_rcvd rdp_open
  stays : {s : RdpState} → Moves w h s s
  closes : {s : RdpState} → s ≢ rdp_closed → Moves w h s close_wait
  ends : {s : RdpState} → s ≢ rdp_closed → Moves w h s rdp_closed

-- To prove something of a conditional, branch by branch.
pub if-both {ℓ κ} :
    {A : Type ℓ} (P : A → Type κ) (b : Bool) (x y : A)
    → (b ≡ true → P x)
    → (b ≡ false → P y)
    → P (if b then x else y)
if-both P true x y f g = f refl
if-both P false x y f g = g refl

-- Where a handler has come from a state: if the connection is to be closed then, it has not left
-- the state CLOSED.
abbrev pub Leads : World → Header → RdpState → Handled → Type 0
Leads w h s (exit, w') =
    Moves w h s w'.conn.rdp.state
    × (elim exit [ discard_close b ↦ (s ≢ rdp_closed) ⊎ (w'.conn.rdp.state ≡ s) | _ ↦ Unit ])

module _ (w : World) (h : Header) where
  pub to-Moves : {s s1 s2 : RdpState} → Moves w h s s1 → s2 ≡ s1 → Moves w h s s2
  to-Moves {s = s} m e = subst (λ t. Moves w h s t) (sym e) m

  same : {s s' : RdpState} → s' ≡ s → Moves w h s s'
  same e = to-Moves stays e

  tell-state : (v : World) (f : ℕ) → (tell v f).conn.rdp.state ≡ v.conn.rdp.state
  tell-state v f = ap (λ t. t.state) (send_cmp-status v none f _ _)

  tell_syn_ack-state : (v : World) → (tell_syn_ack v).conn.rdp.state ≡ v.conn.rdp.state
  tell_syn_ack-state v = ap (λ t. t.state) (send_cmp-status v none _ _ _)

  reset_in_sequence-Leads :
      (v : World) (s : RdpState)
      → v.conn.rdp.state ≡ s
      → s ≢ rdp_closed
      → Leads w h s (on_reset_in_sequence v h)
  unfolding on_reset_in_sequence
  reset_in_sequence-Leads v s e hs =
      if-both (Leads w h s) (h.seq_nr == next_nr v) _ _
        (λ c. (to-Moves (closes hs) (tell-state _ _), inl hs)) (λ c. (same e, tt))

  on_reset_in-Leads :
      (v : World) (s : RdpState) → v.conn.rdp.state ≡ s → Leads w h s (on_reset_in s v h)
  unfolding on_reset_in
  on_reset_in-Leads v rdp_closed e = (same e, tt)
  on_reset_in-Leads v close_wait e = (same e, inr e)
  on_reset_in-Leads v syn_sent e = reset_in_sequence-Leads v syn_sent e (λ c. cc c)
  on_reset_in-Leads v syn_rcvd e = reset_in_sequence-Leads v syn_rcvd e (λ c. cc c)
  on_reset_in-Leads v rdp_open e = reset_in_sequence-Leads v rdp_open e (λ c. cc c)

  on_reset-Leads : Leads w h w.conn.rdp.state (on_reset w h)
  unfolding on_reset
  on_reset-Leads =
      if-both (λ v. Leads w h w.conn.rdp.state (on_reset_in w.conn.rdp.state v h)) (has h.flags ack)
        _ _ (λ c. on_reset_in-Leads (store_ack w h) _ refl) (λ c. on_reset_in-Leads w _ refl)

  module _ (no_reset : has h.flags rst ≡ false) where
    on_closed-Leads :
        (rand_r : ℕ → ℕ) (i : ℕ)
        → w.conn.rdp.state ≡ rdp_closed
        → Leads w h rdp_closed (on_closed rand_r w i h)
    unfolding on_closed
    on_closed-Leads rand_r i e =
        if-both (Leads w h rdp_closed) (bit_and h.flags 15 == syn) _ _
          (λ c. (to-Moves (accepts no_reset c) (tell_syn_ack-state _), tt))
          (λ c. (same (tell-state w rst ∙ e), inr (tell-state w rst ∙ e)))

    on_syn_sent-Leads : w.conn.rdp.state ≡ syn_sent → Leads w h syn_sent (on_syn_sent w h)
    unfolding on_syn_sent
    on_syn_sent-Leads e =
        if-both (Leads w h syn_sent) (has h.flags syn && has h.flags ack) _ _
          (λ c. (to-Moves (connects no_reset (ground arith) (ground arith)) (tell-state _ _), tt))
          (λ c.
            if-both (Leads w h syn_sent) (has h.flags ack) _ _
              (λ c'. (same (tell-state w rst ∙ e), tt)) (λ c'. (same e, inr e)))

    on_close_wait-Leads : w.conn.rdp.state ≡ close_wait → Leads w h close_wait (on_close_wait w h)
    unfolding on_close_wait
    on_close_wait-Leads e =
        if-both (Leads w h close_wait) (has h.flags syn || not (has h.flags ack)) _ _
          (λ c. (same e, tt))
          (λ c.
            if-both (Leads w h close_wait) (not (ack_ok w h)) _ _ (λ c'. (same e, tt))
              (λ c'. (same (tell-state (store_ack w h) _ ∙ e), tt)))

-- Data leaves the state alone.
take_data-state :
    (w : World) (i : ℕ) (h : Header) → (take_data w i h).1.conn.rdp.state ≡ w.conn.rdp.state
unfolding take_data
take_data-state w i h =
    if-both (λ (out : Handled). out.1.conn.rdp.state ≡ w.conn.rdp.state)
      (is_ok (receive_data w i).0) _ _
      (λ c.
        ap (λ t. t.state) (rx_queue_flush-status _)
        ∙ ap (λ t. t.state) (check_ack-status _)
        ∙ ap (λ t. t.state) (receive_data-status w i))
      (λ c. ap (λ t. t.state) (receive_data-status w i))

keep_data-state :
    (w : World) (i : ℕ) (h : Header) → (keep_data w i h).1.conn.rdp.state ≡ w.conn.rdp.state
unfolding keep_data
keep_data-state w i h =
    if-both (λ (out : Handled). out.1.conn.rdp.state ≡ w.conn.rdp.state)
      (is_ok (rx_queue_add w i h.seq_nr).0) _ _
      (λ c. ap (λ k. k.0.state) (rx_queue_add-kept w i h.seq_nr))
      (λ c.
        ap (λ t. t.state) (check_ack-status _)
        ∙ ap (λ k. k.0.state) (rx_queue_add-kept w i h.seq_nr))

on_data-state :
    (w : World) (i : ℕ) (h : Header) → (on_data w i h).1.conn.rdp.state ≡ w.conn.rdp.state
unfolding on_data
on_data-state w i h = grind (arith, take_data-state, keep_data-state)

on_valid-state :
    (w : World) (i : ℕ) (h : Header) → (on_valid w i h).1.conn.rdp.state ≡ w.conn.rdp.state
unfolding on_valid
on_valid-state w i h =
    on_data-state _ i h
    ∙ if-both (λ (v : World). v.conn.rdp.state ≡ w.conn.rdp.state) (is_set w.conn.dest_socket) _ _
        (λ c. refl) (λ c. refl)

give_to_socket-state : (w : World) → (give_to_socket w).1.conn.rdp.state ≡ rdp_open
unfolding give_to_socket
give_to_socket-state w = ground arith

from-Leads :
    (w : World) (h : Header) (s : RdpState) (out : Handled)
    → s ≢ rdp_closed
    → Moves w h s out.1.conn.rdp.state
    → Leads w h s out
from-Leads w h s (discard_close b, w') hs m = (m, inl hs)
from-Leads w h s (discard_open b, w') hs m = (m, tt)
from-Leads w h s (accepted_open, w') hs m = (m, tt)

abbrev IsAck : World → Header → Type 0
IsAck w h =
    (has h.flags rst ≡ false)
    × (has h.flags syn ≡ false)
    × (has h.flags ack ≡ true)
    × (seq_ok w h ≡ true)
    × (ack_ok w h ≡ true)

on_first_ack-Moves :
    (w : World) (i : ℕ) (h : Header)
    → w.conn.rdp.state ≡ syn_rcvd
    → IsAck w h
    → Moves w h syn_rcvd (on_first_ack w i h).1.conn.rdp.state
unfolding on_first_ack
on_first_ack-Moves w i h e (a1, a2, a3, a4, a5) =
    if-both (λ (out : Handled). Moves w h syn_rcvd out.1.conn.rdp.state)
      (h.ack_nr == w.conn.rdp.snd_iss) _ _
      (λ c. to-Moves w h (opens a1 a2 a3 a4 a5 c) (
        if-both (λ (out : Handled). out.1.conn.rdp.state ≡ rdp_open) (give_to_socket w).0 _ _
          (λ c'. on_valid-state _ i h ∙ give_to_socket-state w) (λ c'. give_to_socket-state w)))
      (λ c. same w h e)

abbrev Comes : World → Header → RdpState → Handled → Type 0
Comes w h s (exit, w') = Moves w h s w'.conn.rdp.state

is_syn_rcvd-eq : (s : RdpState) → is_syn_rcvd s ≡ true → s ≡ syn_rcvd
is_syn_rcvd-eq s h = ground arith

on_open-Moves :
    (w : World) (i : ℕ) (h : Header) (s : RdpState)
    → has h.flags rst ≡ false
    → w.conn.rdp.state ≡ s
    → Moves w h s (on_open w i h).1.conn.rdp.state
unfolding on_open
on_open-Moves w i h s no_reset e =
    if-both (Comes w h s) (has h.flags syn || not (has h.flags ack)) _ _
      (λ c.
        if-both (Comes w h s) (h.seq_nr == w.conn.rdp.rcv_irs) _ _ (λ c'. same w h e)
          (λ c'. same w h e))
      (λ c.
        if-both (Comes w h s) (not (seq_ok w h)) _ _
          (λ c'. same w h (
            if-both (λ (v : World). v.conn.rdp.state ≡ s) (is_syn_rcvd w.conn.rdp.state) _ _
              (λ c''. tell_syn_ack-state w h w ∙ e) (λ c''. e)))
          (λ c'.
            if-both (Comes w h s) (not (ack_ok w h)) _ _ (λ d. same w h e)
              (λ d.
                if-both (Comes w h s) (is_syn_rcvd w.conn.rdp.state) _ _
                  (λ d'.
                    first_ack (is_syn_rcvd-eq _ d')
                      (no_reset, ground arith, ground arith, ground arith, ground arith))
                  (λ d'. same w h (on_valid-state w i h ∙ e)))))
  where
    first_ack :
        w.conn.rdp.state ≡ syn_rcvd → IsAck w h → Moves w h s (on_first_ack w i h).1.conn.rdp.state
    first_ack e' a =
        subst (λ t. Moves w h t (on_first_ack w i h).1.conn.rdp.state) (sym e' ∙ e)
          (on_first_ack-Moves w i h e' a)

dispatch_in-Leads :
    (rand_r : ℕ → ℕ) (w : World) (i : ℕ) (h : Header) (s : RdpState)
    → has h.flags rst ≡ false
    → w.conn.rdp.state ≡ s
    → Leads w h s (dispatch_in s rand_r w i h)
unfolding dispatch_in
dispatch_in-Leads rand_r w i h rdp_closed no_reset e = on_closed-Leads w h no_reset rand_r i e
dispatch_in-Leads rand_r w i h syn_sent no_reset e = on_syn_sent-Leads w h no_reset e
dispatch_in-Leads rand_r w i h syn_rcvd no_reset e =
    from-Leads w h syn_rcvd (on_open w i h) (λ c. cc c) (on_open-Moves w i h syn_rcvd no_reset e)
dispatch_in-Leads rand_r w i h rdp_open no_reset e =
    from-Leads w h rdp_open (on_open w i h) (λ c. cc c) (on_open-Moves w i h rdp_open no_reset e)
dispatch_in-Leads rand_r w i h close_wait no_reset e = on_close_wait-Leads w h no_reset e

pub dispatch-Leads :
    (rand_r : ℕ → ℕ) (w : World) (i : ℕ) (h : Header)
    → Leads w h w.conn.rdp.state (dispatch rand_r w i h)
unfolding dispatch
dispatch-Leads rand_r w i h =
    if-both (Leads w h w.conn.rdp.state) (has h.flags rst) _ _ (λ c. on_reset-Leads w h)
      (λ c. dispatch_in-Leads rand_r w i h _ c refl)
