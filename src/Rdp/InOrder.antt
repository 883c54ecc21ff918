-- ===== src/Rdp/InOrder.antt =====
-- The order in which src/csp_rdp.c hands packets to user space.
use libcsp.Core.{ℕ, zero, suc, ◌+◌, ◌-◌, ◌%◌, ◌^◌, ◌==◌, leb, ◌≡◌, refl, sym, ap, ◌∙◌, arith}
use libcsp.Core.{inl, inr, Bool, true, false, Bool-cases, not, ==_iff, get_or, set}
use libcsp.Core.{List, [], ◌∷◌, ◌++◌, append_assoc, append-nil, length, Option, none, some, subst}
use libcsp.Packet.{Packet}
use libcsp.Buffer.{packet_init, packet_of, store_packet}
use libcsp.Buffer.Stored.{stored, packet_of-stored, stored-store_packet, free_all-stored}
use libcsp.Conn.{rxqueue_len}
use libcsp.RdpQueue.{RdpQueues, rx_size, rx_add, rx_get}
use libcsp.Rdp.{host_seq_nr, header_remove}
use libcsp.Rdp.World.{World, packet_at, dequeue_rx, queue_rx, settle}
use libcsp.Rdp.Receive.{
  enqueue, receive_data, deliver, has_room, flush_packet, scan_packet, flush_scan, flush_fronts,
  rx_queue_flush, next_nr,
}
use libcsp.Rdp.States.{if-both}

-- What is in the buffers once the packet in one has lost its header.
abbrev pub unheaded : List Packet → ℕ → List Packet
unheaded ps i = set ps i (header_remove (get_or ps i packet_init))

abbrev pub follows : ℕ → ℕ
follows n = (n + 1) % 2 ^ 16

-- The packets in some buffers have the numbers after `n`, one after the other, with none left out
-- or twice. A packet is read while it has its header, and is without it from then on.
abbrev pub InOrder : List Packet → ℕ → List ℕ → Type 0
InOrder ps n [] = Unit
InOrder ps n (i ∷ is) =
    (host_seq_nr (get_or ps i packet_init) ≡ follows n) × InOrder (unheaded ps i) (follows n) is

abbrev pub all_unheaded : List Packet → List ℕ → List Packet
all_unheaded ps [] = ps
all_unheaded ps (i ∷ is) = all_unheaded (unheaded ps i) is

-- The last of as many numbers after `n`.
abbrev pub last_nr : ℕ → List ℕ → ℕ
last_nr n [] = n
last_nr n (i ∷ is) = last_nr (follows n) is

abbrev pub some_of : List ℕ → List (Option ℕ)
some_of [] = []
some_of (i ∷ is) = some i ∷ some_of is

some_of-append : (is js : List ℕ) → some_of (is ++ js) ≡ some_of is ++ some_of js
some_of-append [] js = refl
some_of-append (i ∷ is) js = ap (λ t. some i ∷ t) (some_of-append is js)

-- User space gets these packets: in order, behind those that it has not read yet, and the last
-- number received is that of the last of them.
abbrev pub Hands : World → List ℕ → World → Type 0
Hands w is w' =
    InOrder (stored w.buffers) w.conn.rdp.rcv_cur is
    × (w'.conn.rx_queue ≡ w.conn.rx_queue ++ some_of is)
    × (w'.conn.rdp.rcv_cur ≡ last_nr w.conn.rdp.rcv_cur is)
    × (stored w'.buffers ≡ all_unheaded (stored w.buffers) is)

InOrder-append :
    (ps : List Packet) (n : ℕ) (is js : List ℕ)
    → InOrder ps n is
    → InOrder (all_unheaded ps is) (last_nr n is) js
    → InOrder ps n (is ++ js)
InOrder-append ps n [] js o o' = o'
InOrder-append ps n (i ∷ is) js o o' =
    (o.0, InOrder-append (unheaded ps i) (follows n) is js o.1 o')

all_unheaded-append :
    (ps : List Packet) (is js : List ℕ)
    → all_unheaded (all_unheaded ps is) js ≡ all_unheaded ps (is ++ js)
all_unheaded-append ps [] js = refl
all_unheaded-append ps (i ∷ is) js = all_unheaded-append (unheaded ps i) is js

last_nr-append : (n : ℕ) (is js : List ℕ) → last_nr (last_nr n is) js ≡ last_nr n (is ++ js)
last_nr-append n [] js = refl
last_nr-append n (i ∷ is) js = last_nr-append (follows n) is js

Hands-append :
    (w w' w'' : World) (is js : List ℕ) → Hands w is w' → Hands w' js w'' → Hands w (is ++ js) w''
Hands-append w w' w'' is js (o, q, n, p) (o', q', n', p') = (
  InOrder-append (stored w.buffers) w.conn.rdp.rcv_cur is js o (
      subst (λ m. InOrder (all_unheaded (stored w.buffers) is) m js) n
        (subst (λ ps. InOrder ps w'.conn.rdp.rcv_cur js) p o')),
  q'
      ∙ ap (λ t. t ++ some_of js) q
      ∙ append_assoc w.conn.rx_queue (some_of is) (some_of js)
      ∙ ap (λ t. w.conn.rx_queue ++ t) (sym (some_of-append is js)),
  n' ∙ ap (λ m. last_nr m js) n ∙ last_nr-append w.conn.rdp.rcv_cur is js,
  p' ∙ ap (λ ps. all_unheaded ps js) p ∙ all_unheaded-append (stored w.buffers) is js,
)

-- What delivering depends on: the queue for user space, the last number, and the buffers.
abbrev pub seen : World → List (Option ℕ) × ℕ × List Packet
seen w = (w.conn.rx_queue, w.conn.rdp.rcv_cur, stored w.buffers)

Hands-none : (w w' : World) → seen w' ≡ seen w → Hands w [] w'
Hands-none w w' e = (
  tt,
  ap (λ (k : List (Option ℕ) × ℕ × List Packet). k.0) e ∙ sym (append-nil w.conn.rx_queue),
  ap (λ (k : List (Option ℕ) × ℕ × List Packet). k.1) e,
  ap (λ (k : List (Option ℕ) × ℕ × List Packet). k.2) e,
)

pub settle-seen : (w : World) (qs : RdpQueues) → seen (settle w qs) ≡ seen w
settle-seen w qs =
    ap (λ ps. (w.conn.rx_queue, w.conn.rdp.rcv_cur, ps))
      (free_all-stored (qs.tx.freed ++ qs.rx.freed) w.buffers)

receive_data-buffers :
    (w : World) (i : ℕ)
    → (receive_data w i).1.buffers
      ≡ store_packet w.buffers i (header_remove (packet_of w.buffers i))
unfolding receive_data enqueue
receive_data-buffers w i = elim (Bool-cases (length w.conn.rx_queue == rxqueue_len)) [
  | inl c ↦ rw (receive_data, enqueue, c) refl
  | inr c ↦ rw (receive_data, enqueue, c) refl
]

pub receive_data-stored :
    (w : World) (i : ℕ) → stored (receive_data w i).1.buffers ≡ unheaded (stored w.buffers) i
receive_data-stored w i =
    ap stored (receive_data-buffers w i)
    ∙ stored-store_packet w.buffers i (header_remove (packet_of w.buffers i))
    ∙ ap (λ p. set (stored w.buffers) i (header_remove p)) (packet_of-stored w.buffers i)

deliver-next :
    (w : World) (i : ℕ)
    → has_room w ≡ true
    → ((deliver w i).conn.rx_queue ≡ w.conn.rx_queue ++ (some i ∷ []))
      × ((deliver w i).conn.rdp.rcv_cur ≡ next_nr w)
      × ((deliver w i).buffers ≡ (receive_data w i).1.buffers)
unfolding deliver receive_data enqueue
deliver-next w i h = ground arith

deliver-Hands :
    (w : World) (i : ℕ)
    → has_room w ≡ true
    → host_seq_nr (packet_at w i) ≡ next_nr w
    → Hands w (i ∷ []) (deliver w i)
deliver-Hands w i h e =
    let (q, n, b) = deliver-next w i h in
    (
      (sym (ap host_seq_nr (packet_of-stored w.buffers i)) ∙ e, tt),
      q,
      n,
      ap stored b ∙ receive_data-stored w i,
    )

-- The packets that a scan hands over: one, if it has found it.
abbrev Scanned : World → Bool × World → Type 0
Scanned w (b, w') = (is : List ℕ) × Hands w is w'

quiet_scan : (w w' : World) (b : Bool) → seen w' ≡ seen w → Scanned w (b, w')
quiet_scan w w' b e = ([], Hands-none w w' e)

pub flush_packet-true :
    (w : World) (i : ℕ)
    → host_seq_nr (packet_at w i) ≡ next_nr w
    → flush_packet w i ≡ (true, deliver w i)
unfolding flush_packet
flush_packet-true w i e = rw (flush_packet, (==_iff _ _).1 e) refl

pub flush_packet-false :
    (w : World) (i : ℕ)
    → (host_seq_nr (packet_at w i) == next_nr w) ≡ false
    → flush_packet w i ≡ (false, queue_rx w i)
unfolding flush_packet
flush_packet-false w i e = rw (flush_packet, e) refl

after_quiet :
    (w w' : World) (out : Bool × World) → seen w' ≡ seen w → Scanned w' out → Scanned w out
after_quiet w w' (b, v) e (is, o) = (is, Hands-append w w' v [] is (Hands-none w w' e) o)

pub same_room : (w w' : World) → seen w' ≡ seen w → has_room w' ≡ has_room w
same_room w w' e =
    ap (λ (k : List (Option ℕ) × ℕ × List Packet). not (leb (rxqueue_len - length k.0) 2)) e

scan_packet-Scanned :
    (again : World → Bool × World) (w : World) (p : Option ℕ × World)
    → ((v : World) → Scanned v (again v))
    → seen p.1 ≡ seen w
    → Scanned w (scan_packet again w p)
unfolding scan_packet
scan_packet-Scanned again w (none, w') h e =
    if-both (Scanned w) (has_room w) _ _ (λ c. quiet_scan w w' false e)
      (λ c. quiet_scan w w false refl)
scan_packet-Scanned again w (some i, w') h e =
    if-both (Scanned w) (has_room w) _ _
      (λ room. elim (Bool-cases (host_seq_nr (packet_at w' i) == next_nr w')) [
        | inl c ↦ rw (flush_packet-true w' i ((==_iff _ _).0 c)) (
            after_quiet w w' (true, deliver w' i) e
              (i ∷ [], deliver-Hands w' i (same_room w w' e ∙ room) ((==_iff _ _).0 c)))
        | inr c ↦ rw (flush_packet-false w' i c) (
            after_quiet w (queue_rx w' i) (again (queue_rx w' i))
              (settle-seen w' (rx_add w'.queues w'.handle (record { buffer = i; conn = w'.handle }))
                ∙ e)
              (h (queue_rx w' i)))
      ])
      (λ c. quiet_scan w w false refl)

flush_scan-Scanned : (n : ℕ) (w : World) → Scanned w (flush_scan n w)
unfolding flush_scan
flush_scan-Scanned zero w = quiet_scan w w false refl
flush_scan-Scanned (suc n) w =
    scan_packet-Scanned (flush_scan n) w (dequeue_rx w) (flush_scan-Scanned n)
      (settle-seen w (rx_get w.queues w.handle).1)

flush_fronts-Hands : (n : ℕ) (w : World) → (is : List ℕ) × Hands w is (flush_fronts n w)
unfolding flush_fronts
flush_fronts-Hands zero w = ([], Hands-none w w refl)
flush_fronts-Hands (suc n) w =
    if-both (λ v. (is : List ℕ) × Hands w is v) (flush_scan (rx_size w.queues) w).0 _ _
      (λ c.
        let (is, o) = flush_scan-Scanned (rx_size w.queues) w in
        let (js, o') = flush_fronts-Hands n (flush_scan (rx_size w.queues) w).1 in
        (
          is ++ js,
          Hands-append w (flush_scan (rx_size w.queues) w).1
              (flush_fronts n (flush_scan (rx_size w.queues) w).1) is js o o',
        ))
      (λ c. flush_scan-Scanned (rx_size w.queues) w)

-- What the queue of packets that came early yields.
pub rx_queue_flush-Hands : (w : World) → (is : List ℕ) × Hands w is (rx_queue_flush w)
unfolding rx_queue_flush
rx_queue_flush-Hands w = flush_fronts-Hands (suc (rx_size w.queues)) w
