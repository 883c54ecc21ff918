-- ===== src/RdpQueue/Search.antt =====
-- What `csp_rdp_queue_get` of src/csp_rdp_queue.c finds, and what it leaves behind.
use libcsp.Core.{ℕ, suc, ◌+◌, ◌≤◌, ◌<◌, ◌≡◌, ◌∙◌, refl, sym, ap, ap₂, arith}
use libcsp.Core.{true, false, ◌==◌}
use libcsp.Core.{List, [], ◌∷◌, ◌++◌, none, some, All, length, length-append, append_assoc}
use libcsp.Core.{append-nil}
use native.Mathlib.Nat.{zero-add, add-zero}
use libcsp.RdpQueue.{Queued, Shared, queue_length, queue_add, get_loop, queue_get}
use libcsp.RdpQueue.Flush.{enqueue-room, shared}

-- No packet of the list belongs to the connection.
abbrev pub IsForeign : ℕ → List Queued → Type 0
IsForeign conn ps = All (λ p. (p.conn == conn) ≡ false) ps

-- The packets with the connection written over the one they had.
unfoldable pub relabelled : ℕ → List Queued → List Queued
relabelled conn [] = []
relabelled conn (p ∷ ps) = record p { conn = conn } ∷ relabelled conn ps

module _ (conn : ℕ) (freed : List ℕ) where
  add-room :
      (queue : List Queued) (p : Queued)
      → length queue < queue_length
      → queue_add (shared queue freed) conn p
        ≡ shared (queue ++ (record p { conn = conn } ∷ [])) freed
  unfolding queue_add
  add-room queue p h =
      let e = enqueue-room (shared queue freed) (record p { conn = conn }) h in
      rw (queue_add, e, e) refl

  get-foreign :
      (n : ℕ) (p : Queued) (queue : List Queued)
      → (p.conn == conn) ≡ false
      → length queue < queue_length
      → get_loop (suc n) (shared (p ∷ queue) freed) conn
        ≡ get_loop n (shared (queue ++ (record p { conn = conn } ∷ [])) freed) conn
  unfolding get_loop
  get-foreign n p queue e h = rw (e, add-room queue p h) refl

  get_loop-foreign :
      (n : ℕ) (xs ys : List Queued)
      → IsForeign conn xs
      → length xs + length ys ≤ queue_length
      → get_loop (length xs + n) (shared (xs ++ ys) freed) conn
        ≡ get_loop n (shared (ys ++ relabelled conn xs) freed) conn
  unfolding relabelled
  get_loop-foreign n [] ys f h =
      fuel n ∙ ap (λ t. get_loop n (shared t freed) conn) (sym (append-nil ys))
    where
      fuel : (k : ℕ) → get_loop (0 + k) (shared ys freed) conn ≡ get_loop k (shared ys freed) conn
      fuel k = ap (λ (j : ℕ). get_loop j (shared ys freed) conn) (zero-add k)
  get_loop-foreign n (p ∷ xs) ys f h =
      ap (λ (j : ℕ). get_loop j (shared (p ∷ (xs ++ ys)) freed) conn) (shift n)
      ∙ get-foreign (length xs + n) p (xs ++ ys) f.0 (omega (arith, length-append xs ys))
      ∙ ap (λ t. get_loop (length xs + n) (shared t freed) conn) (append_assoc xs ys _)
      ∙ get_loop-foreign n xs (ys ++ (record p { conn = conn } ∷ [])) f.1
          (omega (arith, length-append ys (record p { conn = conn } ∷ [])))
      ∙ ap (λ t. get_loop n (shared t freed) conn) (append_assoc ys _ _)
    where
      shift : (k : ℕ) → suc (length xs) + k ≡ suc (length xs + k)
      shift k = omega arith

found :
    (conn : ℕ) (freed : List ℕ) (p : Queued)
    → (p.conn == conn) ≡ true
    → (n : ℕ) (queue : List Queued)
    → get_loop (suc n) (shared (p ∷ queue) freed) conn ≡ (some p, shared queue freed)
unfolding get_loop
found conn freed p e n queue = rw e refl

-- A search for a connection that has no packet in the queue finds nothing, and writes the
-- connection into every packet: all packets of other connections become its own.
pub queue_get-none :
    (s : Shared) (conn : ℕ)
    → IsForeign conn s.queue
    → length s.queue ≤ queue_length
    → queue_get s conn ≡ (none, shared (relabelled conn s.queue) s.freed)
unfolding queue_get get_loop
queue_get-none s conn f h =
    start (length s.queue) ∙ get_loop-foreign conn s.freed 0 s.queue [] f (omega arith)
  where
    start : (n : ℕ) → get_loop n s conn ≡ get_loop (n + 0) (shared (s.queue ++ []) s.freed) conn
    start n =
        ap₂ (λ (j : ℕ) t. get_loop j (shared t s.freed) conn) (sym (add-zero n))
          (sym (append-nil s.queue))

-- A search finds the first packet of the connection; the packets before it, all of other
-- connections, go to the end of the queue with the connection written into them.
pub queue_get-first :
    (xs ys : List Queued) (p : Queued) (conn : ℕ) (freed : List ℕ)
    → IsForeign conn xs
    → (p.conn == conn) ≡ true
    → length (xs ++ (p ∷ ys)) ≤ queue_length
    → queue_get (shared (xs ++ (p ∷ ys)) freed) conn
      ≡ (some p, shared (ys ++ relabelled conn xs) freed)
unfolding queue_get
queue_get-first xs ys p conn freed f e h =
    ap (λ (j : ℕ). get_loop j (shared (xs ++ (p ∷ ys)) freed) conn) (length-append xs (p ∷ ys))
    ∙ get_loop-foreign conn freed (suc (length ys)) xs (p ∷ ys) f
        (omega (arith, length-append xs (p ∷ ys)))
    ∙ found conn freed p e (length ys) (ys ++ relabelled conn xs)
