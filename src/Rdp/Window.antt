-- ===== src/Rdp/Window.antt =====
-- The window of packets that src/csp_rdp.c sends ahead of their acknowledgment.
use libcsp.Core.{
  ℕ, ◌+◌, ◌-◌, ◌%◌, ◌^◌, ◌≤◌, ◌<◌, leb, ◌≡◌, refl, ap, sym, subst, arith, true, false, All,
}
use libcsp.Core.{List, [], ◌∷◌, Option, none, some, ◌*◌, ◌↔◌, leb→le}
use libcsp.Rdp.{seq_between}
use libcsp.Rdp.Machine.{ack_ok, store_ack}
use libcsp.Packet.{Packet, Err}
use libcsp.Rdp.{Header, sub16, seq_after, seq_before}
use libcsp.Rdp.World.{World}
use libcsp.Rdp.States.{if-both}
use libcsp.Rdp.Link.{is_ready, send_copy, send_numbered, send_ready, send_waiting, is_closing}

-- The number of packets that are sent and not acknowledged.
abbrev pub in_flight : World → ℕ
in_flight w = sub16 w.conn.rdp.snd_nxt w.conn.rdp.snd_una

-- Numbers of 16 bits, at most half of them in flight, and a window of at most half of them.
abbrev pub IsSender : World → Type 0
IsSender w =
    (w.conn.rdp.snd_nxt < 2 ^ 16)
    × (w.conn.rdp.snd_una < 2 ^ 16)
    × (0 < w.conn.rdp.window_size)
    × (w.conn.rdp.window_size ≤ 2 ^ 15)
    × (in_flight w < 2 ^ 15)

-- The conditions in arithmetic.
window_room :
    (nxt una size : ℕ)
    → nxt < 2 ^ 16
    → una < 2 ^ 16
    → 0 < size
    → size ≤ 2 ^ 15
    → sub16 nxt una < 2 ^ 15
    → sub16 ((una + size + 2 ^ 32 - 1) % 2 ^ 16) nxt < 2 ^ 15
    → sub16 ((nxt + 1) % 2 ^ 16) una ≤ size
window_room nxt una size h1 h2 h3 h4 h5 h6 = omega arith

is_ready-lt :
    (w : World)
    → is_ready w ≡ true
    → sub16 ((w.conn.rdp.snd_una + w.conn.rdp.window_size + 2 ^ 32 - 1) % 2 ^ 16) w.conn.rdp.snd_nxt
      < 2 ^ 15
unfolding is_ready seq_after seq_before
is_ready-lt w h = ground arith

-- A packet that is sent takes the next number, and the window holds it; one that is not leaves the
-- numbers alone.
pub data Sends (w : World) : Err × World → Type 0 where
  sent :
      {w' : World}
      → w'.conn.rdp.snd_nxt ≡ (w.conn.rdp.snd_nxt + 1) % 2 ^ 16
      → w'.conn.rdp.snd_una ≡ w.conn.rdp.snd_una
      → in_flight w' ≤ w.conn.rdp.window_size
      → Sends w (Err.none, w')
  no_memory : {w' : World} → w'.conn ≡ w.conn → Sends w (Err.nomem, w')

module _ (w : World) (ready : is_ready w ≡ true) (h : IsSender w) where
  send_copy-Sends : (v : World) (o : Option ℕ) → v.conn ≡ w.conn → Sends w (send_copy v o)
  unfolding send_copy
  send_copy-Sends v none e = no_memory e
  send_copy-Sends v (some copy) e =
      sent (ap (λ c. (c.rdp.snd_nxt + 1) % 2 ^ 16) e) (ap (λ c. c.rdp.snd_una) e) (
        subst (λ c. sub16 ((c.rdp.snd_nxt + 1) % 2 ^ 16) c.rdp.snd_una ≤ w.conn.rdp.window_size)
          (sym e)
          (window_room w.conn.rdp.snd_nxt w.conn.rdp.snd_una w.conn.rdp.window_size h.0 h.1 h.2 h.3
            h.4 (is_ready-lt w ready)))

  send_numbered-Sends : (i : ℕ) (o : Option Packet) → Sends w (send_numbered w i o)
  unfolding send_numbered
  send_numbered-Sends i none = no_memory refl
  send_numbered-Sends i (some p) = send_copy-Sends _ _ refl

  send_ready-Sends : (i : ℕ) → Sends w (send_ready w i)
  unfolding send_ready
  send_ready-Sends i = send_numbered-Sends i _

-- What comes of waiting: nothing yet; the wait goes on after a world in which the connection is
-- neither closing nor ready; it ends where the connection is closing; or the packet is sent.
pub data Waited : List World → Option (Err × World) → Type 0 where
  waiting : Waited [] none
  goes_on :
      {w : World} {ws : List World} {out : Option (Err × World)}
      → is_closing w.conn.rdp.state ≡ false
      → is_ready w ≡ false
      → Waited ws out
      → Waited (w ∷ ws) out
  refused :
      {w : World} {ws : List World}
      → is_closing w.conn.rdp.state ≡ true
      → Waited (w ∷ ws) (some (Err.reset, w))
  accepted :
      {w : World} {ws : List World} {out : Err × World}
      → is_closing w.conn.rdp.state ≡ false
      → is_ready w ≡ true
      → Sends w out
      → Waited (w ∷ ws) (some out)

-- Sending waits through the worlds that it finds until the connection is closing, which it refuses,
-- or the window has room. Then the packet gets the next number, and no more packets are without an
-- acknowledgment than the window holds; or there is no memory, and the numbers stay. The numbers are
-- of 16 bits, with a window of at most half of them and fewer than half in flight.
pub send_waiting-Waited :
    (ws : List World) (i : ℕ) → All IsSender ws → Waited ws (send_waiting ws i)
unfolding send_waiting
send_waiting-Waited [] i h = waiting
send_waiting-Waited (w ∷ ws) i (hw, hs) =
    if-both (Waited (w ∷ ws)) (is_closing w.conn.rdp.state) _ _ refused (λ c.
      if-both (Waited (w ∷ ws)) (is_ready w) _ _ (λ d. accepted c d (send_ready-Sends w d hw i))
        (λ d. goes_on c d (send_waiting-Waited ws i hs)))

le→leb : (a b : ℕ) → a ≤ b → leb a b ≡ true
le→leb a b h = ground arith

back_room :
    (nxt una size n : ℕ)
    → nxt < 2 ^ 16
    → una < 2 ^ 16
    → n < 2 ^ 16
    → size ≤ 2 ^ 14
    → sub16 nxt una + 2 * size < 2 ^ 16
    → (sub16 n ((una + 2 ^ 34 - 1 - size * 2) % 2 ^ 16)
        ≤ sub16 ((nxt + 2 ^ 16 - 1) % 2 ^ 16) ((una + 2 ^ 34 - 1 - size * 2) % 2 ^ 16))
      ↔ (sub16 nxt ((n + 1) % 2 ^ 16) ≤ sub16 nxt una + 2 * size)
back_room nxt una size n h1 h2 h3 h4 h5 = (λ h. omega arith, λ h. omega arith)

-- An acknowledgment is taken exactly if, with the first number that it leaves open as the oldest
-- without acknowledgment, at most two windows more are in flight than before: it may be up to two
-- windows older than those before, and then takes the oldest number back. The numbers are of 16
-- bits, and those in flight and two windows together are fewer.
pub ack_ok_iff :
    (w : World) (h : Header)
    → w.conn.rdp.snd_nxt < 2 ^ 16
    → w.conn.rdp.snd_una < 2 ^ 16
    → h.ack_nr < 2 ^ 16
    → w.conn.rdp.window_size ≤ 2 ^ 14
    → in_flight w + 2 * w.conn.rdp.window_size < 2 ^ 16
    → (ack_ok w h ≡ true) ↔ (in_flight (store_ack w h) ≤ in_flight w + 2 * w.conn.rdp.window_size)
unfolding seq_between
ack_ok_iff w h h1 h2 h3 h4 h5 = (
  λ e. (back_room _ _ _ _ h1 h2 h3 h4 h5).0 (leb→le _ _ e),
  λ l. le→leb _ _ ((back_room _ _ _ _ h1 h2 h3 h4 h5).1 l),
)
