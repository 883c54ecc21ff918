-- ===== src/Rdp/Data.antt =====
-- What src/csp_rdp.c does with the data of an open connection.
use libcsp.Core.{ℕ, ◌==◌, ◌<◌, leb, ◌≡◌, ◌≢◌, refl, ap, ◌∙◌, arith}
use libcsp.Core.{inl, inr, ◌⊎◌, subst, append_assoc}
use libcsp.Core.{true, false, ◌||◌, Bool-cases, ==_iff}
use libcsp.Core.{List, [], ◌∷◌, ◌++◌, length, some}
use libcsp.Packet.{is_ok}
use libcsp.Conn.{rxqueue_len}
use libcsp.Rdp.{Header, eak, has, header_length}
use libcsp.Rdp.World.{World, with_rdp, packet_at}
use libcsp.Rdp.Receive.{enqueue, receive_data, rx_queue_add, check_ack, next_nr}
use libcsp.Rdp.Frame.{kept, check_ack-kept, rx_queue_add-kept}
use libcsp.Rdp.InOrder.{InOrder, some_of, last_nr, rx_queue_flush-Hands}
use libcsp.Rdp.Early.{receive_data-early, check_ack-early}
use libcsp.Rdp.Catch.{Empties, rx_queue_flush-Empties}
use libcsp.Buffer.Stored.{stored}
use libcsp.Rdp.States.{if-both}
use libcsp.Rdp.Machine.{
  discard_open, accepted_open, Handled, take_data, keep_data, on_data, after_data,
}

abbrev pub record_nr : World → Header → World
record_nr w h = with_rdp w (record (w.conn.rdp) { rcv_cur = h.seq_nr })

abbrev pub received : World → ℕ → Header → World
received w i h = record_nr (receive_data w i).1 h

-- After the packet has been handed over, its number recorded, and an acknowledgment perhaps sent.
abbrev pub acked : World → ℕ → Header → World
acked w i h = check_ack (received w i h)

module _ (w : World) (i : ℕ) where
  receive_data-room :
      length w.conn.rx_queue ≢ rxqueue_len
      → (is_ok (receive_data w i).0 ≡ true)
        × ((receive_data w i).1.conn.rx_queue ≡ w.conn.rx_queue ++ (some i ∷ []))
  unfolding receive_data enqueue
  receive_data-room h = ground arith

  receive_data-full :
      length w.conn.rx_queue ≡ rxqueue_len
      → (is_ok (receive_data w i).0 ≡ false)
        × ((receive_data w i).1.conn.rx_queue ≡ w.conn.rx_queue)
        × ((receive_data w i).1.conn.rdp.rcv_cur ≡ w.conn.rdp.rcv_cur)
  unfolding receive_data enqueue
  receive_data-full h = ground arith

module _ (w : World) (i : ℕ) (h : Header) where
  take_data-ok :
      is_ok (receive_data w i).0 ≡ true
      → take_data w i h ≡ (accepted_open, after_data (receive_data w i).1 h)
  unfolding take_data
  take_data-ok e = rw (take_data, e) refl

  take_data-full :
      is_ok (receive_data w i).0 ≡ false
      → take_data w i h ≡ (discard_open false, (receive_data w i).1)
  unfolding take_data
  take_data-full e = rw (take_data, e) refl

keep_data-kept : (w : World) (i : ℕ) (h : Header) → kept (keep_data w i h).1 ≡ kept w
unfolding keep_data
keep_data-kept w i h =
    if-both (λ (out : Handled). kept out.1 ≡ kept w) (is_ok (rx_queue_add w i h.seq_nr).0) _ _
      (λ c. rx_queue_add-kept w i h.seq_nr) (λ c. check_ack-kept _ ∙ rx_queue_add-kept w i h.seq_nr)

-- There is data, it is the next, and user space has room for it.
abbrev pub CanTake : World → ℕ → Header → Type 0
CanTake w i h =
    (has h.flags eak ≡ false)
    × (header_length < (packet_at w i).length)
    × (h.seq_nr ≡ next_nr w)
    × (length w.conn.rx_queue ≢ rxqueue_len)

-- The packet is handed to user space, and behind it some that came early, with the numbers that
-- follow its own, as long as there are any. They are read when the packet has been acknowledged,
-- which may take a buffer.
abbrev pub HandsFrom : World → ℕ → Header → World → Type 0
HandsFrom w i h w' =
    (js : List ℕ) × InOrder (stored (acked w i h).buffers) h.seq_nr js
    × (w'.conn.rx_queue ≡ w.conn.rx_queue ++ (some i ∷ some_of js))
    × (w'.conn.rdp.rcv_cur ≡ last_nr h.seq_nr js)
    × Empties w w'

-- The packet can not be taken, and user space gets nothing; or it can, and then it is.
abbrev pub Takes : World → ℕ → Header → Handled → Type 0
Takes w i h (exit, w') =
    ((CanTake w i h → ⊥)
      × (w'.conn.rx_queue ≡ w.conn.rx_queue)
      × (w'.conn.rdp.rcv_cur ≡ w.conn.rdp.rcv_cur))
    ⊎ (CanTake w i h × (exit ≡ accepted_open) × HandsFrom w i h w')

nothing-Takes :
    (w : World) (i : ℕ) (h : Header) (out : Handled)
    → kept out.1 ≡ kept w
    → (CanTake w i h → ⊥)
    → Takes w i h out
nothing-Takes w i h (exit, w') e never = inl (never, ap (λ k. k.1.0) e, ap (λ k. k.1.1) e)

module _ (w : World) (i : ℕ) (h : Header) where
  after_data-HandsFrom :
      length w.conn.rx_queue ≢ rxqueue_len → HandsFrom w i h (after_data (receive_data w i).1 h)
  after_data-HandsFrom room =
      let (js, (o, q, n, p)) = rx_queue_flush-Hands (acked w i h) in
      (
        js,
        subst (λ m. InOrder (stored (acked w i h).buffers) m js) number o,
        q
            ∙ ap (λ t. t ++ some_of js)
                (ap (λ k. k.1.0) (check_ack-kept (received w i h)) ∙ (receive_data-room w i room).1)
            ∙ append_assoc w.conn.rx_queue (some i ∷ []) (some_of js),
        n ∙ ap (λ m. last_nr m js) number,
        rx_queue_flush-Empties w (acked w i h)
            (check_ack-early (received w i h) ∙ receive_data-early w i),
      )
    where
      number : (acked w i h).conn.rdp.rcv_cur ≡ h.seq_nr
      number = ap (λ k. k.1.1) (check_ack-kept (received w i h))

  take_data-Takes :
      has h.flags eak ≡ false
      → header_length < (packet_at w i).length
      → h.seq_nr ≡ next_nr w
      → Takes w i h (take_data w i h)
  take_data-Takes a l s = elim (Bool-cases (length w.conn.rx_queue == rxqueue_len)) [
    | inl c ↦
        let full = receive_data-full w i ((==_iff _ _).0 c) in
        rw (take_data-full w i h full.0)
          (inl (λ can. absurd (can.3 ((==_iff _ _).0 c)), full.1, full.2))
    | inr c ↦
        let room : length w.conn.rx_queue ≢ rxqueue_len = λ e. cc (c, (==_iff _ _).1 e) in
        rw (take_data-ok w i h (receive_data-room w i room).0)
          (inr ((a, l, s, room), refl, after_data-HandsFrom room))
  ]

  -- Data for an open connection: if the packet has data, is the next in order, and user space has
  -- room for it, then it is handed to user space, and behind it come packets that came early, in
  -- the order of the numbers that they have, from the one after its own on, with none left out or
  -- twice; the last of these is the last number received, and none that would be next stays in the
  -- queue of packets that came early, unless user space has room for no more than two, or that
  -- queue held packets of other connections or more than its length. Else user space gets nothing,
  -- and that number stays.
  pub on_data-Takes : Takes w i h (on_data w i h)
  unfolding on_data
  on_data-Takes =
      if-both (Takes w i h) (has h.flags eak || leb (packet_at w i).length header_length) _ _
        (λ c. nothing-Takes w i h (discard_open false, w) refl (λ can. not_data c can.0 can.1))
        (λ c.
          if-both (Takes w i h) (h.seq_nr == next_nr w) _ _
            (λ d. take_data-Takes (is_data c).0 (is_data c).1 ((==_iff _ _).0 d))
            (λ d.
              nothing-Takes w i h (keep_data w i h) (keep_data-kept w i h)
                (λ can. cc (d, (==_iff _ _).1 can.2))))
    where
      not_data :
          (has h.flags eak || leb (packet_at w i).length header_length) ≡ true
          → has h.flags eak ≡ false
          → header_length < (packet_at w i).length
          → ⊥
      not_data c a b = ground arith

      is_data :
          (has h.flags eak || leb (packet_at w i).length header_length) ≡ false
          → (has h.flags eak ≡ false) × (header_length < (packet_at w i).length)
      is_data c = ground (arith, c)
