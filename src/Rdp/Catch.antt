-- ===== src/Rdp/Catch.antt =====
-- What the loop of `csp_rdp_rx_queue_flush` of src/csp_rdp.c leaves in the queue.
use libcsp.Core.{ℕ, zero, suc, ◌≤◌, ◌<◌, ◌==◌, ltb, ◌≡◌, refl, sym, ap, ◌∙◌, arith, subst}
use libcsp.Core.{Bool, true, false, Bool-cases, ◌&&◌, if◌then◌else◌, inl, inr, ◌⊎◌, ==_iff, get_or}
use libcsp.Core.{List, [], ◌∷◌, ◌++◌, append_assoc, append-nil, length, length-append, All}
use libcsp.Core.{Option, none, some}
use libcsp.Packet.{Packet}
use libcsp.Buffer.{packet_init}
use libcsp.Buffer.Stored.{stored, packet_of-stored}
use libcsp.RdpQueue.{Queued, Shared, queue_length, rx_size, rx_add, rx_get, queue_add, queue_get}
use libcsp.RdpQueue.Flush.{enqueue-room, shared}
use libcsp.RdpQueue.Search.{queue_get-first, relabelled}
use libcsp.Rdp.{host_seq_nr}
use libcsp.Rdp.World.{World, packet_at, dequeue_rx, queue_rx, number_of}
use libcsp.Rdp.Receive.{
  deliver, has_room, scan_packet, flush_scan, flush_fronts, rx_queue_flush, next_nr,
}
use libcsp.Rdp.States.{if-both}
use libcsp.Rdp.Early.{early, deliver-early}
use libcsp.Rdp.InOrder.{seen, settle-seen, flush_packet-true, flush_packet-false, follows}
use libcsp.Rdp.Rounds.{Scans, flush_scan-Scans}

-- All packets are of the connection.
abbrev pub own_all : ℕ → List Queued → Bool
own_all conn [] = true
own_all conn (q ∷ qs) = (q.conn == conn) && own_all conn qs

own_all-append :
    (conn : ℕ) (xs ys : List Queued)
    → own_all conn xs ≡ true
    → own_all conn ys ≡ true
    → own_all conn (xs ++ ys) ≡ true
own_all-append conn [] ys h h' = h'
own_all-append conn (q ∷ xs) ys h h' =
    let (a, b) = both (q.conn == conn) (own_all conn xs) h in
    rw (a, own_all-append conn xs ys b h') refl
  where
    both : (a b : Bool) → (a && b) ≡ true → (a ≡ true) × (b ≡ true)
    both a b e = ground (arith, e)

own-head : (a b : Bool) → (a && b) ≡ true → a ≡ true
own-head a b e = ground (arith, e)

-- The packet is not the next in order, for the buffers and the last number given.
abbrev IsNotNext : List Packet → ℕ → Queued → Type 0
IsNotNext ps n q = (host_seq_nr (get_or ps q.buffer packet_init) == follows n) ≡ false

abbrev pub Spent : World → Type 0
Spent w =
    (has_room w ≡ false) ⊎ All (IsNotNext (stored w.buffers) w.conn.rdp.rcv_cur) w.queues.rx.queue

-- The packets of the queue are of the connection, and no more than it holds.
abbrev IsOwn : World → Type 0
IsOwn w = (own_all w.handle w.queues.rx.queue ≡ true) × (length w.queues.rx.queue ≤ queue_length)

dequeue_rx-first :
    (w : World) (q : Queued) (qs : List Queued)
    → w.queues.rx.queue ≡ q ∷ qs
    → (q.conn == w.handle) ≡ true
    → length (q ∷ qs) ≤ queue_length
    → ((dequeue_rx w).0 ≡ some q.buffer) × (early (dequeue_rx w).1 ≡ (qs, w.handle))
unfolding rx_get relabelled
dequeue_rx-first w q qs e o l =
    let out =
      ap (λ t. queue_get (shared t w.queues.rx.freed) w.handle) e
      ∙ queue_get-first [] qs q w.handle w.queues.rx.freed tt o l in
    (
      ap (λ (t : Option Queued × Shared). number_of t.0) out,
      ap (λ (t : Option Queued × Shared). (t.1.queue, w.handle)) out
          ∙ ap (λ t. (t, w.handle)) (append-nil qs),
    )

queue_rx-room :
    (w : World) (i : ℕ)
    → length w.queues.rx.queue < queue_length
    → early (queue_rx w i)
      ≡ (w.queues.rx.queue ++ (record { buffer = i; conn = w.handle } ∷ []), w.handle)
unfolding rx_add queue_add
queue_rx-room w i h =
    let e = enqueue-room w.queues.rx (record { buffer = i; conn = w.handle }) h in
    rw (rx_add, queue_add, e, e) refl

-- A scan that has handed a packet over leaves packets of the connection; any other leaves none that
-- is the next in order, unless user space has no room.
abbrev Leaves : Bool × World → Type 0
Leaves (b, w) = if b then IsOwn w else Spent w

IsOwn-early :
    (w : World) (qs : List Queued) (conn : ℕ)
    → early w ≡ (qs, conn)
    → own_all conn qs ≡ true
    → length qs ≤ queue_length
    → IsOwn w
IsOwn-early w qs conn e o l = (
  ap (λ (k : List Queued × ℕ). own_all k.1 k.0) e ∙ o,
  omega (arith, ap (λ (k : List Queued × ℕ). length k.0) e),
)

-- `us` are the packets that the scan has put back.
abbrev Scanned : World → List Queued → List Queued → Type 0
Scanned w ps us =
    (w.queues.rx.queue ≡ ps ++ us)
    × IsOwn w
    × All (IsNotNext (stored w.buffers) w.conn.rdp.rcv_cur) us

all-seen :
    (w w' : World) (us : List Queued)
    → seen w' ≡ seen w
    → All (IsNotNext (stored w.buffers) w.conn.rdp.rcv_cur) us
    → All (IsNotNext (stored w'.buffers) w'.conn.rdp.rcv_cur) us
all-seen w w' us e h =
    subst (λ (k : List (Option ℕ) × ℕ × List Packet). All (IsNotNext k.2 k.1) us) (sym e) h

all-append :
    (ps : List Packet) (n : ℕ) (us : List Queued) (q : Queued)
    → All (IsNotNext ps n) us
    → IsNotNext ps n q
    → All (IsNotNext ps n) (us ++ (q ∷ []))
all-append ps n [] q h e = (e, tt)
all-append ps n (u ∷ us) q h e = (h.0, all-append ps n us q h.1 e)

-- What `w` is with its first packet taken out, `w'`, and what it is with that put back.
module _ (w w' : World) (q : Queued) (ps us : List Queued) (sc : Scanned w (q ∷ ps) us)
    (out : early w' ≡ (ps ++ us, w.handle)) (same : seen w' ≡ seen w) where
  rest-own : (own_all w.handle (ps ++ us) ≡ true) × (length (ps ++ us) < queue_length)
  rest-own = (
    own-tail (q.conn == w.handle) (own_all w.handle (ps ++ us))
        (ap (λ t. own_all w.handle t) (sym sc.0) ∙ sc.1.0),
    omega (arith, ap (λ t. length t) sc.0, sc.1.1),
  )
    where
      own-tail : (a b : Bool) → (a && b) ≡ true → b ≡ true
      own-tail a b e = ground (arith, e)

  delivered-IsOwn : IsOwn (deliver w' q.buffer)
  delivered-IsOwn =
      IsOwn-early (deliver w' q.buffer) (ps ++ us) w.handle (deliver-early w' q.buffer ∙ out)
        rest-own.0 (omega (arith, rest-own.1))

  -- The packet as it is put back.
  abbrev back : Queued
  back = record { buffer = q.buffer; conn = w'.handle }

  back-early : early (queue_rx w' q.buffer) ≡ ((ps ++ us) ++ (back ∷ []), w'.handle)
  back-early =
      queue_rx-room w' q.buffer
        (omega (arith, ap (λ (k : List Queued × ℕ). length k.0) out, rest-own.1))
      ∙ ap (λ (k : List Queued × ℕ). (k.0 ++ (back ∷ []), w'.handle)) out

  back-IsOwn : IsOwn (queue_rx w' q.buffer)
  back-IsOwn =
      IsOwn-early (queue_rx w' q.buffer) ((ps ++ us) ++ (back ∷ [])) w'.handle back-early
        (own_all-append w'.handle (ps ++ us) (back ∷ [])
          (ap (λ (k : List Queued × ℕ). own_all k.1 (ps ++ us)) out ∙ rest-own.0)
          (rw ((==_iff w'.handle w'.handle).1 refl) refl))
        (omega (arith, length-append (ps ++ us) (back ∷ []), rest-own.1))

  back-Scanned :
      (host_seq_nr (packet_at w' q.buffer) == next_nr w') ≡ false
      → Scanned (queue_rx w' q.buffer) ps (us ++ (back ∷ []))
  back-Scanned e = (
    ap (λ (k : List Queued × ℕ). k.0) back-early ∙ append_assoc ps us (back ∷ []),
    back-IsOwn,
    all-append (stored (queue_rx w' q.buffer).buffers) (queue_rx w' q.buffer).conn.rdp.rcv_cur us
        back (all-seen w (queue_rx w' q.buffer) us (kept_seen ∙ same) sc.2)
        (all-seen w' (queue_rx w' q.buffer) (back ∷ []) kept_seen (
          ap (λ p. host_seq_nr p == next_nr w') (sym (packet_of-stored w'.buffers q.buffer)) ∙ e,
          tt,
        )).0,
  )
    where
      kept_seen : seen (queue_rx w' q.buffer) ≡ seen w'
      kept_seen =
          settle-seen w'
            (rx_add w'.queues w'.handle (record { buffer = q.buffer; conn = w'.handle }))

scan_packet-Leaves :
    (again : World → Bool × World) (w : World) (q : Queued) (ps us : List Queued)
    (p : Option ℕ × World)
    → ((v : World) (vs : List Queued) → Scanned v ps vs → Leaves (again v))
    → Scanned w (q ∷ ps) us
    → p.0 ≡ some q.buffer
    → early p.1 ≡ (ps ++ us, w.handle)
    → seen p.1 ≡ seen w
    → Leaves (scan_packet again w p)
unfolding scan_packet
scan_packet-Leaves again w q ps us (none, w') ih sc e out same = absurd (cc e)
scan_packet-Leaves again w q ps us (some i, w') ih sc e out same =
    if-both Leaves (has_room w) _ _
      (λ room. elim (Bool-cases (host_seq_nr (packet_at w' q.buffer) == next_nr w')) [
        | inl c ↦
            rw (buffer, flush_packet-true w' q.buffer ((==_iff _ _).0 c))
              (delivered-IsOwn w w' q ps us sc out same)
        | inr c ↦
            rw (buffer, flush_packet-false w' q.buffer c)
              (ih (queue_rx w' q.buffer) (us ++ (back w w' q ps us sc out same ∷ []))
                (back-Scanned w w' q ps us sc out same c))
      ])
      (λ c. inl c)
  where
    buffer : i ≡ q.buffer
    buffer = cc e

flush_scan-Leaves :
    (ps us : List Queued) (w : World) → Scanned w ps us → Leaves (flush_scan (length ps) w)
unfolding flush_scan
flush_scan-Leaves [] us w sc =
    inr (subst (λ t. All (IsNotNext (stored w.buffers) w.conn.rdp.rcv_cur) t) (sym sc.0) sc.2)
flush_scan-Leaves (q ∷ ps) us w sc =
    let (o, out) =
      dequeue_rx-first w q (ps ++ us) sc.0 (first sc.1.0)
        (omega (arith, ap (λ t. length t) sc.0, sc.1.1)) in
    scan_packet-Leaves (flush_scan (length ps)) w q ps us (dequeue_rx w)
      (λ v vs. flush_scan-Leaves ps vs v) sc o out (settle-seen w (rx_get w.queues w.handle).1)
  where
    first : own_all w.handle w.queues.rx.queue ≡ true → (q.conn == w.handle) ≡ true
    first e =
        own-head (q.conn == w.handle) (own_all w.handle (ps ++ us))
          (ap (λ t. own_all w.handle t) (sym sc.0) ∙ e)

flush_fronts-Spent : (n : ℕ) (w : World) → rx_size w.queues < n → IsOwn w → Spent (flush_fronts n w)
unfolding flush_fronts rx_size
flush_fronts-Spent zero w h o = absurd (omega arith)
flush_fronts-Spent (suc n) w h o =
    by_scan (flush_scan (length w.queues.rx.queue) w) (flush_scan-Scans _ w)
      (flush_scan-Leaves w.queues.rx.queue [] w (sym (append-nil w.queues.rx.queue), o, tt))
      (λ v. flush_fronts-Spent n v)
  where
    by_scan :
        (out : Bool × World)
        → Scans (length w.queues.rx.queue) out
        → Leaves out
        → ((v : World) → rx_size v.queues < n → IsOwn v → Spent (flush_fronts n v))
        → Spent (if out.0 then flush_fronts n out.1 else out.1)
    by_scan (true, v) s l again = again v (omega arith) l
    by_scan (false, v) s l again = l

-- The flush goes on until no packet of the queue is the next, or there is no room.
rx_queue_flush-Spent : (w : World) → IsOwn w → Spent (rx_queue_flush w)
unfolding rx_queue_flush
rx_queue_flush-Spent w o = flush_fronts-Spent (suc (rx_size w.queues)) w (omega arith) o

-- The queue holds packets of other connections, or more than its length; or else the connection is
-- left without a packet in the queue that is the next, or without room.
abbrev pub Empties : World → World → Type 0
Empties w w' =
    (own_all w.handle w.queues.rx.queue ≡ false)
    ⊎ (queue_length < length w.queues.rx.queue)
    ⊎ Spent w'

pub rx_queue_flush-Empties : (w v : World) → early v ≡ early w → Empties w (rx_queue_flush v)
rx_queue_flush-Empties w v e = elim (Bool-cases (own_all w.handle w.queues.rx.queue)) [
  | inr c ↦ inl c
  | inl c ↦ elim (Bool-cases (ltb queue_length (length w.queues.rx.queue))) [
    | inl d ↦ inr (inl (ground (arith, d)))
    | inr d ↦ inr (
        inr (
          rx_queue_flush-Spent v
            (IsOwn-early v w.queues.rx.queue w.handle e c (ground (arith, d)))))
  ]
]
