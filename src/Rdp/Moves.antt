-- ===== src/Rdp/Moves.antt =====
-- The move that `csp_rdp_new_packet` of src/csp_rdp.c makes, closing included.
use libcsp.Core.{ℕ, ◌≡◌, ◌≢◌, refl, sym, ap, subst, ◌∙◌, arith, Bool, true, ◌⊎◌, inl, inr}
use libcsp.Core.{Option, none, some, not}
use libcsp.Packet.{Err}
use libcsp.Conn.{is_open, RdpState, rdp_closed, close_wait}
use libcsp.Rdp.{Header, wire_header, to_host}
use libcsp.Rdp.World.{World, packet_at, change_packet}
use libcsp.Rdp.Frame.{enqueue-status}
use libcsp.Rdp.Close.{
  conn_close, close_internal, finish_close, start_close, note_closed_by, release_conn, unless_again,
  uses_rdp,
}
use libcsp.Rdp.Closing.{close_internal-cases, start_close-status}
use libcsp.Rdp.Machine.{
  discard_close, discard_open, accepted_open, Handled, close_for, close_after, leave, new_packet,
}
use libcsp.Rdp.States.{
  Moves, accepts, connects, opens, stays, closes, ends, to-Moves, if-both, Leads, dispatch-Leads,
}

-- What closing does to a state.
abbrev Closes : RdpState → RdpState → Type 0
Closes s s' = (s' ≡ s) ⊎ ((s ≢ rdp_closed) × ((s' ≡ close_wait) ⊎ (s' ≡ rdp_closed)))

release_conn-state : (w : World) → (release_conn w).conn.rdp.state ≡ w.conn.rdp.state
unfolding release_conn
release_conn-state w = ground arith

unless_again-state : (out : Err × World) → (unless_again out).conn.rdp.state ≡ out.1.conn.rdp.state
unless_again-state (e, w) =
    elim e as (λ k. (unless_again (k, w)).conn.rdp.state ≡ w.conn.rdp.state) [
      | Err.again ↦ refl
      | _ ↦ release_conn-state w
    ]

finish_close-state :
    (w : World)
    → w.conn.rdp.state ≡ close_wait
    → ((finish_close w).1.conn.rdp.state ≡ close_wait)
      ⊎ ((finish_close w).1.conn.rdp.state ≡ rdp_closed)
unfolding finish_close
finish_close-state w e = ground arith

start_close-state : (w : World) (b : Bool) → (start_close w b).conn.rdp.state ≡ close_wait
start_close-state w b = ap (λ t. t.state) (start_close-status w b)

close_internal-Closes :
    (w : World) (n : ℕ) (b : Bool) → Closes w.conn.rdp.state (close_internal w n b).1.conn.rdp.state
close_internal-Closes w n b = elim (close_internal-cases w n b) [
  | inl (e, eq) ↦ rw eq (inl refl)
  | inr (inl (e, eq)) ↦ rw eq (inr (λ c. cc (e, c), finish_close-state (note_closed_by w n) e))
  | inr (inr (ne, eq)) ↦
      rw eq (inr (ne, finish_close-state _ (start_close-state (note_closed_by w n) b)))
]

conn_close-Closes : (w : World) (n : ℕ) → Closes w.conn.rdp.state (conn_close w n).conn.rdp.state
unfolding conn_close
conn_close-Closes w n =
    if-both P (not (is_open w.conn)) _ _ (λ c. inl refl)
      (λ c.
        if-both P (uses_rdp w.conn) _ _
          (λ c'.
            subst (Closes w.conn.rdp.state) (sym (unless_again-state (close_internal w n true)))
              (close_internal-Closes w n true))
          (λ c'. inl (release_conn-state w)))
  where
    P : World → Type 0
    P v = Closes w.conn.rdp.state v.conn.rdp.state

close_for-Closes :
    (o : Option ℕ) (w : World) (n : ℕ) → Closes w.conn.rdp.state (close_for o w n).conn.rdp.state
unfolding close_for
close_for-Closes none w n =
    subst (Closes w.conn.rdp.state) (sym (ap (λ t. t.state) (enqueue-status (conn_close w n) none)))
      (conn_close-Closes w n)
close_for-Closes (some s) w n = conn_close-Closes w _

close_after-Closes : (w : World) (n : ℕ) → Closes w.conn.rdp.state (close_after w n).conn.rdp.state
unfolding close_after
close_after-Closes w n = close_for-Closes w.conn.dest_socket w n

-- Closing after a move that has not left CLOSED.
then-Closes :
    (w : World) (h : Header) (s s1 s2 : RdpState)
    → Moves w h s s1
    → (s ≢ rdp_closed) ⊎ (s1 ≡ s)
    → Closes s1 s2
    → Moves w h s s2
then-Closes w h s s1 s2 m c (inl e) = to-Moves w h m e
then-Closes w h s s1 s2 m (inl ne) (inr (ne1, inl e)) = to-Moves w h (closes ne) e
then-Closes w h s s1 s2 m (inl ne) (inr (ne1, inr e)) = to-Moves w h (ends ne) e
then-Closes w h s s1 s2 m (inr e1) (inr (ne1, inl e)) = to-Moves w h (closes (λ c. ne1 (e1 ∙ c))) e
then-Closes w h s s1 s2 m (inr e1) (inr (ne1, inr e)) = to-Moves w h (ends (λ c. ne1 (e1 ∙ c))) e

leave-Moves :
    (w : World) (h : Header) (s : RdpState) (i : ℕ) (out : Handled)
    → Leads w h s out
    → Moves w h s (leave i out).1.conn.rdp.state
unfolding leave
leave-Moves w h s i (discard_close n, w') (m, c) =
    then-Closes w h s _ _ m c (close_after-Closes w' n)
leave-Moves w h s i (discard_open b, w') (m, u) = m
leave-Moves w h s i (accepted_open, w') (m, u) = m

same_conn :
    (w : World) (i : ℕ) (h : Header) (s s' : RdpState)
    → Moves (change_packet w i to_host) h s s'
    → Moves w h s s'
same_conn w i h s s' (accepts a b) = accepts a b
same_conn w i h s s' (connects a b c) = connects a b c
same_conn w i h s s' (opens a b c d e f) = opens a b c d e f
same_conn w i h s s' stays = stays
same_conn w i h s s' (closes a) = closes a
same_conn w i h s s' (ends a) = ends a

-- Whatever packet a connection gets, in whatever state: it stays in its state; or it is closed, at
-- once or by way of CLOSE_WAIT, if it was not CLOSED; or the packet has no RST and is the one that
-- the handshake waits for, and the connection goes from CLOSED to SYN_RCVD for a SYN alone, from
-- SYN_SENT to OPEN for a SYN with an acknowledgment, or from SYN_RCVD to OPEN for an acknowledgment
-- without SYN that is in both windows and has the number that was sent.
pub new_packet-Moves :
    (rand_r : ℕ → ℕ) (w : World) (i : ℕ)
    → Moves w
        (wire_header (packet_at w i))
        w.conn.rdp.state
        (new_packet rand_r w i).1.conn.rdp.state
unfolding new_packet
new_packet-Moves rand_r w i = same_conn w i _ _ _ (
    leave-Moves (change_packet w i to_host) _ _ i _
      (dispatch-Leads rand_r (change_packet w i to_host) i (wire_header (packet_at w i))))
