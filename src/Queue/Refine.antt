-- ===== src/Queue/Refine.antt =====
-- The ring buffer of src/arch/posix/pthread_queue.c as a bounded queue: the relation.
use libcsp.Core.{ℕ, suc, ◌+◌, ◌-◌, ◌%◌, ◌≤◌, ◌<◌, ◌≡◌, ◌≢◌, ◌∙◌, refl, sym, ap, arith}
use libcsp.Core.{List, [], ◌∷◌, ◌++◌, some, length, get_elem?, set}
use libcsp.Core.{length-set, length-append, length-replicate}
use libcsp.Core.{
  get_elem?-set_self, get_elem?-set_ne, get_elem?-append_front, get_elem?-append_last,
}
use native.Mathlib.Nat.{mod-add-mod, mod-eq_of_lt, mod-eq-sub-mod, mod-lt}
use native.Mathlib.Decide.{dec_lt, ℕ_discrete}
use libcsp.Queue.{Queue, create, queue_empty}

module _ {A : Type 0} where
  -- The queue holds the items `xs`, oldest first.
  pub record Holds (q : Queue A) (xs : List A) : Type 0 where
    pub count : q.items ≡ length xs
    pub fits : q.items ≤ q.size
    pub storage : length q.buffer ≡ q.size
    pub out_in : q.out_index < q.size
    pub in_at : q.in_index ≡ (q.out_index + q.items) % q.size
    pub cells :
        (k : ℕ) → k < length xs → get_elem? q.buffer ((q.out_index + k) % q.size) ≡ get_elem? xs k

-- Two positions less than a round apart are different cells.
cells_differ :
    (size out k n : ℕ) → out < size → k < n → n < size → (out + n) % size ≢ (out + k) % size
cells_differ size out k n ho hk hn = elim (dec_lt (out + n) size) [
  | yes p ↦ rw (mod-eq_of_lt p, mod-eq_of_lt {n = out + k} {m = size} (omega arith)) (omega arith)
  | no p ↦ elim (dec_lt (out + k) size) [
    | yes p' ↦
        rw
          (
            mod-eq-sub-mod {n = out + n} {m = size} (omega arith),
            mod-eq_of_lt {n = out + n - size} {m = size} (omega arith),
            mod-eq_of_lt p',
          )
          (omega arith)
    | no p' ↦
        rw
          (
            mod-eq-sub-mod {n = out + n} {m = size} (omega arith),
            mod-eq_of_lt {n = out + n - size} {m = size} (omega arith),
            mod-eq-sub-mod {n = out + k} {m = size} (omega arith),
            mod-eq_of_lt {n = out + k - size} {m = size} (omega arith),
          )
          (omega arith)
  ]
]

module _ {A : Type 0} where
  Holds-nonempty : {q : Queue A} {xs : List A} → Holds q xs → 0 < q.size
  Holds-nonempty h = omega arith

  -- Room is left: the new item is behind the others.
  pub Holds-put :
      {q : Queue A} {xs : List A} (v : A)
      → Holds q xs
      → q.items < q.size
      → Holds
          (record q {
            buffer = set q.buffer q.in_index v;
            items = q.items + 1;
            in_index = (q.in_index + 1) % q.size;
          })
          (xs ++ (v ∷ []))
  Holds-put {q} {xs} v h room = record {
    count = omega (arith, h.count, length-append xs (v ∷ []));
    fits = omega arith;
    storage = length-set q.buffer q.in_index v ∙ h.storage;
    out_in = h.out_in;
    in_at = next;
    cells = cell;
  }
    where
      shift : q.out_index + q.items + 1 ≡ q.out_index + (q.items + 1)
      shift = omega arith

      next : (q.in_index + 1) % q.size ≡ (q.out_index + (q.items + 1)) % q.size
      next =
          ap (λ (t : ℕ). (t + 1) % q.size) h.in_at
          ∙ mod-add-mod (q.out_index + q.items) q.size 1
          ∙ ap (λ (t : ℕ). t % q.size) shift

      cell_in : ℕ
      cell_in = (q.out_index + q.items) % q.size

      before : (k : ℕ) → k ≢ length xs → k < length (xs ++ (v ∷ [])) → k < q.items
      before k p lt = omega (arith, h.count, length-append xs (v ∷ []))

      written :
          (k : ℕ)
          → k < length (xs ++ (v ∷ []))
          → get_elem?
              (set q.buffer ((q.out_index + q.items) % q.size) v)
              ((q.out_index + k) % q.size)
            ≡ get_elem? (xs ++ (v ∷ [])) k
      written k lt = elim (ℕ_discrete k (length xs)) [
        | yes p ↦
            (ap (λ (t : ℕ). get_elem? (set q.buffer cell_in v) ((q.out_index + t) % q.size))
                (p ∙ sym h.count)
              ∙ get_elem?-set_self q.buffer cell_in v
                  (omega (arith, h.storage, mod-lt (q.out_index + q.items) (Holds-nonempty h)))
              ∙ sym (get_elem?-append_last xs v)
              ∙ ap (λ (t : ℕ). get_elem? (xs ++ (v ∷ [])) t) (sym p))
        | no p ↦
            get_elem?-set_ne q.buffer cell_in ((q.out_index + k) % q.size) v
              (cells_differ q.size q.out_index k q.items h.out_in (before k p lt) room)
            ∙ h.cells k (omega (arith, before k p lt, h.count))
            ∙ sym (get_elem?-append_front xs (v ∷ []) k (omega (arith, before k p lt, h.count)))
      ]

      cell :
          (k : ℕ)
          → k < length (xs ++ (v ∷ []))
          → get_elem? (set q.buffer q.in_index v) ((q.out_index + k) % q.size)
            ≡ get_elem? (xs ++ (v ∷ [])) k
      cell k lt =
          ap (λ (t : ℕ). get_elem? (set q.buffer t v) ((q.out_index + k) % q.size)) h.in_at
          ∙ written k lt

  -- The oldest item is taken: the others move up.
  pub Holds-take :
      {q : Queue A} {x : A} {xs : List A}
      → Holds q (x ∷ xs)
      → Holds (record q { items = q.items - 1; out_index = (q.out_index + 1) % q.size }) xs
        × (get_elem? q.buffer q.out_index ≡ some x)
  Holds-take {q} {x} {xs} h = (
    record {
      count = omega (arith, h.count);
      fits = omega arith;
      storage = h.storage;
      out_in = mod-lt (q.out_index + 1) (Holds-nonempty h);
      in_at = h.in_at ∙ moved (q.items - 1) q.items (omega (arith, h.count));
      cells = λ k lt.
          ap (λ (t : ℕ). get_elem? q.buffer t) (sym (moved k (suc k) refl))
          ∙ h.cells (suc k) (omega arith);
    },
    ap (λ (t : ℕ). get_elem? q.buffer t) here ∙ h.cells 0 (omega arith),
  )
    where
      no_step : q.out_index + 0 ≡ q.out_index
      no_step = omega arith

      sum : (k n : ℕ) → suc k ≡ n → q.out_index + 1 + k ≡ q.out_index + n
      sum k n e = omega arith

      here : q.out_index ≡ (q.out_index + 0) % q.size
      here = sym (ap (λ (t : ℕ). t % q.size) no_step ∙ mod-eq_of_lt h.out_in)

      moved :
          (k n : ℕ)
          → suc k ≡ n
          → (q.out_index + n) % q.size ≡ ((q.out_index + 1) % q.size + k) % q.size
      moved k n e =
          sym (mod-add-mod (q.out_index + 1) q.size k ∙ ap (λ (t : ℕ). t % q.size) (sum k n e))

  -- A new queue and an emptied one hold nothing.
  pub Holds-create : (size : ℕ) (junk : A) → 0 < size → Holds (create size junk) []
  unfolding create
  Holds-create size junk pos = record {
    count = refl;
    fits = omega arith;
    storage = length-replicate size junk;
    out_in = pos;
    in_at = sym (mod-eq_of_lt pos);
    cells = λ k lt. absurd (omega arith);
  }

  pub Holds-empty : {q : Queue A} {xs : List A} → Holds q xs → Holds (queue_empty q) []
  unfolding queue_empty
  Holds-empty {q} {xs} h = record {
    count = refl;
    fits = omega arith;
    storage = h.storage;
    out_in = Holds-nonempty h;
    in_at = sym (mod-eq_of_lt (Holds-nonempty h));
    cells = λ k lt. absurd (omega arith);
  }
