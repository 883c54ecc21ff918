-- ===== src/Buffer/References.antt =====
-- The references to buffers of src/csp_buffer.c, and the requests for a buffer.
use libcsp.Core.{
  ℕ, zero, suc, ◌+◌, ◌^◌, ◌%◌, ◌≤◌, ◌<◌, ◌≡◌, ◌≢◌, ◌∙◌, ◌⊎◌, refl, sym, ap, subst, arith,
}
use libcsp.Core.{true, false, ◌==◌, ==_self, ==_ne, ==_iff, ltb, Bool-cases, inl, inr}
use libcsp.Core.{List, [], ◌∷◌, Option, none, some, length, set, get_elem?}
use libcsp.Core.{length-set, get_elem?-set_self, get_elem?-set_ne}
use libcsp.Buffer.{Skbf, Buffers, buffer_count, packet_init, hand_out, get_actual}
use libcsp.Buffer.Counts.{times, update, one_if, in_use}
use libcsp.Buffer.Counts.{in_use-update}

-- How a buffer agrees with the number of references to it: without one it waits in the queue, once;
-- with some it does not, and counts them.
abbrev pub Agrees : ℕ → ℕ → Option Skbf → ℕ → Type 0
Agrees i waiting none refs = (waiting ≡ 0) × (refs ≡ 0)
Agrees i waiting (some b) refs =
    (b.skbf_addr ≡ i)
    × (((refs ≡ 0) × (waiting ≡ 1)) ⊎ ((0 < refs) × (waiting ≡ 0) × (b.refcount ≡ refs)))

-- The pool when `refs` references to each buffer are held.
pub record Counts (s : Buffers) (refs : ℕ → ℕ) : Type 0 where
  pub pool_size : length s.pool ≡ buffer_count
  pub balance : length s.free + in_use refs buffer_count ≡ buffer_count
  pub agrees : (i : ℕ) → Agrees i (times i s.free) (get_elem? s.pool i) (refs i)

pub get_elem?-some-lt :
    {A : Type 0} (xs : List A) (i : ℕ) (a : A) → get_elem? xs i ≡ some a → i < length xs
get_elem?-some-lt [] i a e = cc
get_elem?-some-lt (x ∷ xs) zero a e = omega arith
get_elem?-some-lt (x ∷ xs) (suc i) a e = omega (arith, get_elem?-some-lt xs i a e)

times-head_self : (i : ℕ) (rest : List ℕ) → times i (i ∷ rest) ≡ suc (times i rest)
unfolding times
times-head_self i rest = rw (==_self i) refl

times-head_ne : (i j : ℕ) (rest : List ℕ) → i ≢ j → times j rest ≡ times j (i ∷ rest)
unfolding times
times-head_ne i j rest ne = rw (==_ne i j ne) refl

-- The buffer at the head of the queue exists, has no reference and is nowhere else in the queue.
head-unused :
    (i : ℕ) (rest : List ℕ) (o : Option Skbf) (r : ℕ)
    → Agrees i (times i (i ∷ rest)) o r
    → (b : Skbf) × (o ≡ some b) × (b.skbf_addr ≡ i) × (r ≡ 0) × (times i rest ≡ 0)
head-unused i rest none r (w, z) = absurd (omega (arith, w, times-head_self i rest))
head-unused i rest (some b) r (addr, inl (z, w)) =
    (b, refl, addr, z, omega (arith, w, times-head_self i rest))
head-unused i rest (some b) r (addr, inr (p, w, c)) =
    absurd (omega (arith, w, times-head_self i rest))

-- One buffer changes, and the others keep their places in the queue.
pub Agrees-change :
    (pool : List Skbf) (free free' : List ℕ) (refs : ℕ → ℕ) (i v : ℕ) (b : Skbf)
    → i < length pool
    → ((j : ℕ) → Agrees j (times j free) (get_elem? pool j) (refs j))
    → ((j : ℕ) → i ≢ j → times j free' ≡ times j free)
    → Agrees i (times i free') (some b) v
    → (j : ℕ) → Agrees j (times j free') (get_elem? (set pool i b) j) (update refs i v j)
Agrees-change pool free free' refs i v b h old same new j = elim (Bool-cases (i == j)) [
  | inl e ↦
      subst (λ (k : ℕ). Agrees k (times k free') (get_elem? (set pool i b) k) (update refs i v k))
        ((==_iff i j).0 e) at_i
  | inr e ↦ rw (e, same j (differ e), get_elem?-set_ne pool i j b (differ e)) (old j)
]
  where
    differ : (i == j) ≡ false → i ≢ j
    differ e = ground arith

    at_i : Agrees i (times i free') (get_elem? (set pool i b) i) (update refs i v i)
    at_i = rw (get_elem?-set_self pool i b h, ==_self i) new

-- What a request for a buffer may give: nothing, when too few wait in the queue; or one that nobody
-- has a reference to, with the first reference.
abbrev pub Gets : ℕ → Buffers → (ℕ → ℕ) → Option ℕ × Buffers → Type 0
Gets reserve s refs (o, s') =
    ((o ≡ none) × ((length s.free < reserve) ⊎ (length s.free ≡ 0)) × Counts s' refs)
    ⊎ ((i : ℕ) × (o ≡ some i)
        × (reserve ≤ length s.free)
        × (refs i ≡ 0)
        × Counts s' (update refs i 1))

list-cases : {A : Type 0} (xs : List A) → (xs ≡ []) ⊎ ((x : A) × (rest : List A) × (xs ≡ x ∷ rest))
list-cases [] = inl refl
list-cases (x ∷ xs) = inr (x, xs, refl)

module _ (reserve : ℕ) (s : Buffers) where
  get-short : ltb (length s.free) reserve ≡ true → get_actual reserve s ≡ (none, s)
  unfolding get_actual
  get-short e = rw e refl

  get-none :
      ltb (length s.free) reserve ≡ false
      → s.free ≡ []
      → get_actual reserve s ≡ (none, record s { buffer_out = (s.buffer_out + 1) % 2 ^ 8 })
  unfolding get_actual
  get-none e f =
      rw (get_actual, e, f)
        (ap (λ (t : List ℕ). (none, record s { free = t; buffer_out = (s.buffer_out + 1) % 2 ^ 8 }))
          f)

  get-some :
      (i : ℕ) (rest : List ℕ) (b : Skbf)
      → ltb (length s.free) reserve ≡ false
      → s.free ≡ i ∷ rest
      → get_elem? s.pool i ≡ some b
      → b.skbf_addr ≡ i
      → get_actual reserve s ≡ (
        some i,
        record s {
          free = rest;
          pool = set s.pool i (record b { refcount = 1; skbf_data = packet_init });
        },
      )
  unfolding get_actual hand_out
  get-some i rest b e f at addr = rw (get_actual, e, f, at, addr, ==_self i) refl

zero_one : (k : ℕ) → k ≡ 0 → one_if k ≡ 0
zero_one k e = ap one_if e

-- The head of the queue is taken.
Counts-take :
    (s : Buffers) (refs : ℕ → ℕ) (i : ℕ) (rest : List ℕ) (b b' : Skbf)
    → Counts s refs
    → s.free ≡ i ∷ rest
    → get_elem? s.pool i ≡ some b
    → b'.skbf_addr ≡ i
    → b'.refcount ≡ 1
    → refs i ≡ 0
    → times i rest ≡ 0
    → Counts (record s { free = rest; pool = set s.pool i b' }) (update refs i 1)
Counts-take s refs i rest b b' h f at addr one z w = record {
  pool_size = length-set s.pool i b' ∙ h.pool_size;
  balance = omega (
    arith,
    in_use-update refs i 1 buffer_count (omega (arith, inside, h.pool_size)),
    zero_one (refs i) z,
    h.balance,
    ap length f,
  );
  agrees =
      Agrees-change s.pool s.free rest refs i 1 b' inside h.agrees
        (λ j ne. times-head_ne i j rest ne ∙ ap (times j) (sym f))
        (addr, inr (omega arith, w, one));
}
  where
    inside : i < length s.pool
    inside = get_elem?-some-lt s.pool i b at

get_head :
    (reserve : ℕ) (s : Buffers) (refs : ℕ → ℕ) (i : ℕ) (rest : List ℕ)
    → Counts s refs
    → ltb (length s.free) reserve ≡ false
    → s.free ≡ i ∷ rest
    → Gets reserve s refs (get_actual reserve s)
get_head reserve s refs i rest h e f =
    let (b, at, addr, z, w) =
      head-unused i rest (get_elem? s.pool i) (refs i) (
        subst (λ (t : List ℕ). Agrees i (times i t) (get_elem? s.pool i) (refs i)) f
          (h.agrees i)) in
    rw (get-some reserve s i rest b e f at addr)
      (inr (i, refl, room, z, Counts-take s refs i rest b _ h f at addr refl z w))
  where
    room : reserve ≤ length s.free
    room = ground (arith, e)

-- On a pool that counts the references held: a request that finds fewer buffers in the queue than
-- its reserve, or none, gets none; any other gets a buffer to which no reference is held, and holds
-- the first. Either way the pool goes on counting the references.
pub get_actual-Gets :
    (reserve : ℕ) (s : Buffers) (refs : ℕ → ℕ)
    → Counts s refs
    → Gets reserve s refs (get_actual reserve s)
get_actual-Gets reserve s refs h = elim (Bool-cases (ltb (length s.free) reserve)) [
  | inl e ↦ rw (get-short reserve s e) (inl (refl, inl (few e), h))
  | inr e ↦ elim (list-cases s.free) [
    | inl f ↦ rw (get-none reserve s e f) (
        inl (
          refl,
          inr (ap length f),
          record { pool_size = h.pool_size; balance = h.balance; agrees = h.agrees },
        ))
    | inr (i, rest, f) ↦ get_head reserve s refs i rest h e f
  ]
]
  where
    few : ltb (length s.free) reserve ≡ true → length s.free < reserve
    few e = ground arith
