-- ===== src/Conn/Allocate.antt =====
-- The search of `csp_conn_allocate` of src/csp_conn.c.
use libcsp.Core.{ℕ, zero, suc, ◌+◌, ◌-◌, ◌%◌, ◌<◌, ◌≡◌, refl, sym, ap, subst, arith}
use libcsp.Core.{◌⊎◌, inl, inr, Option, none, some, Option-cases, List, set, get_elem?}
use libcsp.Conn.{
  Conn, ConnState, closed, opened, ConnType, Pool, claim, conn_max, count_out, note_out,
}
use libcsp.Conn.{allocate_loop, allocate}

-- There is no closed connection at the index.
abbrev pub IsTaken : List Conn → ℕ → Type 0
IsTaken conns k = (c : Conn) → get_elem? conns k ≡ some c → c.state ≡ opened

-- The new owner's connection: open, of its type, and with no flags left from before.
abbrev pub IsClaimed : ConnType → Conn → Conn → Type 0
IsClaimed type c c' =
    (c'.state ≡ opened)
    × (c'.type ≡ type)
    × (c'.idin.flags ≡ 0)
    × (c'.idout.flags ≡ 0)
    × (c'.sport_outgoing ≡ c.sport_outgoing)

-- What a search through `n` connections after the one at `i` may give: nothing, when none of them
-- is closed, with the pool `lost`; or the first closed one, which is open from then on.
abbrev pub Allocates : ℕ → ℕ → Pool → Pool → ConnType → Option ℕ × Pool → Type 0
Allocates n i p lost type out =
    ((out ≡ (none, lost)) × ((d : ℕ) → d < n → IsTaken p.conns ((i + 1 + d) % conn_max)))
    ⊎ ((d : ℕ) × (c : Conn) × (d < n)
        × (get_elem? p.conns ((i + 1 + d) % conn_max) ≡ some c)
        × (c.state ≡ closed)
        × IsClaimed type c (claim type c)
        × (out ≡ (
          some ((i + 1 + d) % conn_max),
          record p {
            conns = set p.conns ((i + 1 + d) % conn_max) (claim type c);
            last_given = (i + 1 + d) % conn_max;
          },
        ))
        × ((e : ℕ) → e < d → IsTaken p.conns ((i + 1 + e) % conn_max)))

state-cases : (s : ConnState) → (s ≡ closed) ⊎ (s ≡ opened)
state-cases closed = inl refl
state-cases opened = inr refl

module _ (p : Pool) (type : ConnType) (n i : ℕ) where
  loop-empty :
      get_elem? p.conns ((i + 1) % conn_max) ≡ none
      → allocate_loop (suc n) p type i ≡ allocate_loop n p type ((i + 1) % conn_max)
  unfolding allocate_loop
  loop-empty e = rw (allocate_loop, e) refl

  loop-opened :
      (c : Conn)
      → get_elem? p.conns ((i + 1) % conn_max) ≡ some c
      → c.state ≡ opened
      → allocate_loop (suc n) p type i ≡ allocate_loop n p type ((i + 1) % conn_max)
  unfolding allocate_loop
  loop-opened c e o = rw (allocate_loop, e, o) refl

  loop-closed :
      (c : Conn)
      → get_elem? p.conns ((i + 1) % conn_max) ≡ some c
      → c.state ≡ closed
      → allocate_loop (suc n) p type i ≡ (
        some ((i + 1) % conn_max),
        record p {
          conns = set p.conns ((i + 1) % conn_max) (claim type c);
          last_given = (i + 1) % conn_max;
        },
      )
  unfolding allocate_loop
  loop-closed c e o = rw (allocate_loop, e, o) refl

  later : (d : ℕ) → (i + 1 + suc d) % conn_max ≡ ((i + 1) % conn_max + 1 + d) % conn_max
  later d = omega arith

  here : (i + 1 + 0) % conn_max ≡ (i + 1) % conn_max
  here = omega arith

  upto :
      (m : ℕ)
      → IsTaken p.conns ((i + 1) % conn_max)
      → ((d : ℕ) → d < m → IsTaken p.conns (((i + 1) % conn_max + 1 + d) % conn_max))
      → (d : ℕ) → d < suc m
      → IsTaken p.conns ((i + 1 + d) % conn_max)
  upto m taken all zero h = subst (IsTaken p.conns) (sym here) taken
  upto m taken all (suc d) h = subst (IsTaken p.conns) (sym (later d)) (all d (omega arith))

  -- The connection after `i` is not closed, and the search goes on behind it.
  Allocates-next :
      IsTaken p.conns ((i + 1) % conn_max)
      → (out : Option ℕ × Pool) → Allocates n ((i + 1) % conn_max) p p type out
      → Allocates (suc n) i p p type out
  Allocates-next taken out (inl (e, all)) = inl (e, upto n taken all)
  Allocates-next taken out (inr (d, c, h, at, cl, new, e, all)) =
      inr (suc d, c, omega arith, rw (later d) at, cl, new, rw (later d) e, upto d taken all)

  Allocates-here :
      (c : Conn)
      → get_elem? p.conns ((i + 1) % conn_max) ≡ some c
      → c.state ≡ closed
      → Allocates (suc n) i p p type (allocate_loop (suc n) p type i)
  Allocates-here c e cl = inr (
    0,
    c,
    omega arith,
    rw here e,
    cl,
    (refl, refl, refl, refl, refl),
    rw here (loop-closed c e cl),
    λ k h. absurd (omega arith),
  )

allocate_loop-Allocates :
    (p : Pool) (type : ConnType) (n i : ℕ) → Allocates n i p p type (allocate_loop n p type i)
unfolding allocate_loop
allocate_loop-Allocates p type zero i = inl (refl, λ d h. absurd (omega arith))
allocate_loop-Allocates p type (suc n) i =
    next (allocate_loop-Allocates p type n ((i + 1) % conn_max))
  where
    next :
        Allocates n ((i + 1) % conn_max) p p type (allocate_loop n p type ((i + 1) % conn_max))
        → Allocates (suc n) i p p type (allocate_loop (suc n) p type i)
    next rest = elim (Option-cases (get_elem? p.conns ((i + 1) % conn_max))) [
      | inl e ↦
          subst (Allocates (suc n) i p p type) (sym (loop-empty p type n i e))
            (Allocates-next p type n i (λ c e'. cc) _ rest)
      | inr (c, e) ↦ elim (state-cases c.state) [
        | inl cl ↦ Allocates-here p type n i c e cl
        | inr o ↦
            subst (Allocates (suc n) i p p type) (sym (loop-opened p type n i c e o))
              (Allocates-next p type n i (λ c' e'. cc) _ rest)
      ]
    ]

-- The search that gives out nothing has seen every connection of the pool.
all-IsTaken :
    (p lost : Pool) (type : ConnType) (i : ℕ) (out : Option ℕ × Pool)
    → i < conn_max
    → Allocates conn_max i p lost type out
    → out.0 ≡ none
    → (k : ℕ) → k < conn_max
    → IsTaken p.conns k
all-IsTaken p lost type i out h (inl (e, all)) none_given k hk =
    subst (IsTaken p.conns) round (all ((k + 8 - i - 1) % 8) (omega arith))
  where
    round : (i + 1 + (k + 8 - i - 1) % 8) % conn_max ≡ k
    round = omega arith
all-IsTaken p lost type i out h (inr (d, c, lt, at, cl, new, e, all)) none_given k hk =
    absurd (differ (ap (λ (t : Option ℕ × Pool). t.0) e))
  where
    differ : out.0 ≡ some ((i + 1 + d) % conn_max) → ⊥
    differ e' = cc

note_out-Allocates :
    (p : Pool) (type : ConnType) (n i : ℕ) (out : Option ℕ × Pool)
    → Allocates n i p p type out
    → Allocates n i p (count_out p) type (note_out out)
note_out-Allocates p type n i out (inl (e, all)) = inl (ap note_out e, all)
note_out-Allocates p type n i out (inr (d, c, h, at, cl, new, e, all)) =
    inr (d, c, h, at, cl, new, ap note_out e, all)

-- Allocation looks at every connection of the pool once, from the one after the last given on. It
-- gives out the first that is closed and opens it for the caller, with no other changed; only if
-- all are open it gives out none, and counts that.
pub allocate-Allocates :
    (p : Pool) (type : ConnType)
    → p.last_given < conn_max
    → Allocates conn_max p.last_given p (count_out p) type (allocate p type)
      × ((allocate p type).0 ≡ none → (k : ℕ) → k < conn_max → IsTaken p.conns k)
unfolding allocate
allocate-Allocates p type h =
    (noted, all-IsTaken p (count_out p) type p.last_given (allocate p type) h noted)
  where
    noted : Allocates conn_max p.last_given p (count_out p) type (allocate p type)
    noted =
        note_out-Allocates p type conn_max p.last_given _
          (allocate_loop-Allocates p type conn_max p.last_given)
