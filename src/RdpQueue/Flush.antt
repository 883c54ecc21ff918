-- ===== src/RdpQueue/Flush.antt =====
-- `csp_rdp_queue_flush` of src/csp_rdp_queue.c.
use libcsp.Core.{ℕ, suc, ◌+◌, ◌≤◌, ◌<◌, ◌≡◌, ◌∙◌, refl, sym, ap, ap₂, arith}
use libcsp.Core.{true, false, ◌==◌, ==_ne, if◌then◌else◌, Bool-cases, inl, inr}
use libcsp.Core.{List, [], ◌∷◌, ◌++◌, length, length-append, append_assoc, append-nil}
use libcsp.Queue.Fifo.{ok, push}
use libcsp.RdpQueue.{
  Queued, Shared, queue_length, enqueue_shared, flush_round, flush_loop, flush_one,
}

-- The packets of other connections, in order.
unfoldable pub others : ℕ → List Queued → List Queued
others conn [] = []
others conn (p ∷ ps) = if conn == p.conn then others conn ps else p ∷ others conn ps

-- The buffers of the connection's packets, in order.
unfoldable pub buffers_of : ℕ → List Queued → List ℕ
buffers_of conn [] = []
buffers_of conn (p ∷ ps) =
    if conn == p.conn then p.buffer ∷ buffers_of conn ps else buffers_of conn ps

pub push-room :
    (queue : List Queued) (p : Queued)
    → length queue < queue_length
    → push queue_length queue p ≡ (ok, queue ++ (p ∷ []))
push-room queue p h = rw (==_ne (length queue) queue_length (omega arith)) refl

pub enqueue-room :
    (s : Shared) (p : Queued)
    → length s.queue < queue_length
    → enqueue_shared s p ≡ (ok, record s { queue = s.queue ++ (p ∷ []) })
unfolding enqueue_shared
enqueue-room s p h = rw (push-room s.queue p h) refl

abbrev pub shared : List Queued → List ℕ → Shared
shared q f = record { queue = q; freed = f }

module _ (conn : ℕ) where
  round-mine :
      (p : Queued) (s : Shared)
      → (conn == p.conn) ≡ true
      → flush_round s p conn ≡ (true, record s { freed = s.freed ++ (p.buffer ∷ []) })
  unfolding flush_round
  round-mine p s e = rw e refl

  round-other :
      (p : Queued) (s : Shared)
      → (conn == p.conn) ≡ false
      → length s.queue < queue_length
      → flush_round s p conn ≡ (true, record s { queue = s.queue ++ (p ∷ []) })
  unfolding flush_round
  round-other p s e h = rw (e, enqueue-room s p h, enqueue-room s p h) refl

  flush-step :
      (n : ℕ) (p : Queued) (queue : List Queued) (freed : List ℕ) {next : Shared}
      → flush_round (record { queue = queue; freed = freed }) p conn ≡ (true, next)
      → flush_loop (suc n) (record { queue = p ∷ queue; freed = freed }) conn
        ≡ flush_loop n next conn
  unfolding flush_loop
  flush-step n p queue freed e = rw e refl

  flush_loop-others :
      (xs ys : List Queued) (freed : List ℕ)
      → length xs + length ys ≤ queue_length
      → flush_loop (length xs) (record { queue = xs ++ ys; freed = freed }) conn
        ≡ shared (ys ++ others conn xs) (freed ++ buffers_of conn xs)
  unfolding others buffers_of flush_loop
  flush_loop-others [] ys freed h =
      ap₂ (λ q f. shared q f) (sym (append-nil ys)) (sym (append-nil freed))
  flush_loop-others (p ∷ xs) ys freed h = elim (Bool-cases (conn == p.conn)) [
    | inl e ↦
        flush-step (length xs) p (xs ++ ys) freed (round-mine p _ e)
        ∙ flush_loop-others xs ys (freed ++ (p.buffer ∷ [])) (omega arith)
        ∙ mine e (others conn xs) (buffers_of conn xs)
    | inr e ↦
        flush-step (length xs) p (xs ++ ys) freed
          (round-other p _ e (omega (arith, length-append xs ys)))
        ∙ ap
            (λ (t : List Queued). flush_loop (length xs) (record { queue = t; freed = freed }) conn)
            (append_assoc xs ys (p ∷ []))
        ∙ flush_loop-others xs (ys ++ (p ∷ [])) freed (omega (arith, length-append ys (p ∷ [])))
        ∙ other e (others conn xs) (buffers_of conn xs)
  ]
    where
      mine :
          (conn == p.conn) ≡ true
          → (q : List Queued) (f : List ℕ)
          → shared (ys ++ q) ((freed ++ (p.buffer ∷ [])) ++ f)
            ≡ shared
                (ys ++ (if conn == p.conn then q else p ∷ q))
                (freed ++ (if conn == p.conn then p.buffer ∷ f else f))
      mine e q f = rw e (ap (λ t. shared (ys ++ q) t) (append_assoc freed (p.buffer ∷ []) f))

      other :
          (conn == p.conn) ≡ false
          → (q : List Queued) (f : List ℕ)
          → shared ((ys ++ (p ∷ [])) ++ q) (freed ++ f)
            ≡ shared
                (ys ++ (if conn == p.conn then q else p ∷ q))
                (freed ++ (if conn == p.conn then p.buffer ∷ f else f))
      other e q f = rw e (ap (λ t. shared t (freed ++ f)) (append_assoc ys (p ∷ []) q))

-- Flushing takes the packets of the connection out of the queue and frees their buffers, each once
-- and in order; the packets of other connections stay, in order.
pub flush_one-others :
    (s : Shared) (conn : ℕ)
    → length s.queue ≤ queue_length
    → flush_one s conn ≡ shared (others conn s.queue) (s.freed ++ buffers_of conn s.queue)
unfolding flush_one
flush_one-others s conn h =
    ap (λ t. flush_loop (length s.queue) (shared t s.freed) conn) (sym (append-nil s.queue))
    ∙ flush_loop-others conn s.queue [] s.freed (omega arith)
