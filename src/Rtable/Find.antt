-- ===== src/Rtable/Find.antt =====
-- `csp_rtable_find_route` of src/csp_rtable_cidr.c, and prefixes.
use libcsp.Core.{
  ℕ, zero, suc, ◌+◌, ◌-◌, ◌*◌, ◌/◌, ◌%◌, ◌^◌, ◌≤◌, ◌<◌, ◌≡◌, ◌↔◌, ◌∙◌, refl, sym, ap, subst,
}
use libcsp.Core.{arith, bit_and, true, leb, Bool-cases}
use libcsp.Core.{[], ◌∷◌, All, Option, none, some, get_elem?, inl, inr}
use libcsp.Core.Masks.{high_mask-eq, high_mask_iff, pow-add}
use mathlib.Core.Option.{some-injective}
use native.Mathlib.Nat.{pow-le-pow_right, one-le-pow, div-lt_iff_lt-mul, mod-eq_of_lt}
use libcsp.Id.{get_host_bits}
use libcsp.Rtable.{Route, Rtable, net_matches, find_loop, find_route}

-- The route's network, its first `netmask` bits of `host_bits`, is that of the address.
abbrev pub Covers : ℕ → Route → ℕ → Type 0
Covers host_bits r addr =
    r.address / 2 ^ (host_bits - r.netmask) ≡ addr / 2 ^ (host_bits - r.netmask)

-- The mask of the code, for 16-bit addresses.
masked_iff :
    (k a b : ℕ)
    → k ≤ 16
    → a < 2 ^ 16
    → b < 2 ^ 16
    → (bit_and a (2 ^ 16 - 1 - (2 ^ k - 1)) ≡ bit_and b (2 ^ 16 - 1 - (2 ^ k - 1)))
      ↔ (a / 2 ^ k ≡ b / 2 ^ k)
masked_iff k a b h ha hb = rw mask (rw (small a ha, small b hb) at (high_mask_iff k (16 - k) a b))
  where
    bits : 16 - k + k ≡ 16
    bits = omega arith

    whole : 2 ^ (16 - k + k) ≡ 2 ^ 16
    whole = ap (λ (t : ℕ). 2 ^ t) bits

    mask : 2 ^ 16 - 1 - (2 ^ k - 1) ≡ (2 ^ (16 - k) - 1) * 2 ^ k
    mask = omega (arith, whole, high_mask-eq (16 - k) k)

    small : (x : ℕ) → x < 2 ^ 16 → x / 2 ^ k % 2 ^ (16 - k) ≡ x / 2 ^ k
    small x hx = mod-eq_of_lt (
        (div-lt_iff_lt-mul (one-le-pow k 2 (omega arith))).1
          (omega (arith, whole, pow-add (16 - k) k)))

pub net_matches_iff :
    (host_bits : ℕ) (r : Route) (addr : ℕ)
    → host_bits ≤ 14
    → r.address < 2 ^ 16
    → addr < 2 ^ 16
    → (net_matches host_bits r addr ≡ true) ↔ Covers host_bits r addr
unfolding net_matches
net_matches_iff host_bits r addr h ha hb =
    rw narrow
      (ground (arith, masked_iff (host_bits - r.netmask) r.address addr (omega arith) ha hb))
  where
    bound : 2 ^ (host_bits - r.netmask) ≤ 2 ^ 14
    bound = pow-le-pow_right (omega arith) {j = 14} (omega arith)

    narrow : (2 ^ (host_bits - r.netmask) - 1) % 2 ^ 16 ≡ 2 ^ (host_bits - r.netmask) - 1
    narrow = omega (arith, bound)

-- What the loop returns for the routes `rs`, which begin at index `i`, when the best so far is
-- `best` with the netmask `mask`: that one, if no route that covers the address has as long a
-- netmask; or the last of those with the longest.
data Best (host_bits addr : ℕ) (rs : Rtable) (i : ℕ) (best : Option ℕ) (mask : ℕ) (o : Option ℕ)
    : Type 0 where
  keep :
      ((k : ℕ) (r : Route) → get_elem? rs k ≡ some r → Covers host_bits r addr → r.netmask < mask)
      → o ≡ best
      → Best host_bits addr rs i best mask o
  pick :
      (j : ℕ) (r : Route)
      → get_elem? rs j ≡ some r
      → Covers host_bits r addr
      → mask ≤ r.netmask
      → ((k : ℕ) (r' : Route)
          → get_elem? rs k ≡ some r'
          → Covers host_bits r' addr
          → (r'.netmask ≤ r.netmask) × (r'.netmask ≡ r.netmask → k ≤ j))
      → o ≡ some (i + j)
      → Best host_bits addr rs i best mask o

-- Routes hold 16-bit addresses.
abbrev pub IsWide : Rtable → Type 0
IsWide rs = All (λ r. r.address < 2 ^ 16) rs

module _ (host_bits addr : ℕ) where
  -- The first route is taken.
  Best-take :
      (r : Route) (rs : Rtable) (i : ℕ) (best : Option ℕ) (mask : ℕ) (o : Option ℕ)
      → Covers host_bits r addr
      → mask ≤ r.netmask
      → Best host_bits addr rs (i + 1) (some i) r.netmask o
      → Best host_bits addr (r ∷ rs) i best mask o
  Best-take r rs i best mask o c le (keep less e) =
      pick zero r refl c le others (e ∙ ap (λ (t : ℕ). some t) (omega arith))
    where
      others :
          (k : ℕ) (r' : Route)
          → get_elem? (r ∷ rs) k ≡ some r'
          → Covers host_bits r' addr
          → (r'.netmask ≤ r.netmask) × (r'.netmask ≡ r.netmask → k ≤ zero)
      others zero r' h c' = omega (arith, ap (λ (t : Route). t.netmask) (some-injective r r' h))
      others (suc k) r' h c' = omega (arith, less k r' h c')
  Best-take r rs i best mask o c le (pick j r₁ h₁ c₁ le₁ all e) =
      pick (suc j) r₁ h₁ c₁ (omega arith) others (e ∙ ap (λ (t : ℕ). some t) next)
    where
      next : i + 1 + j ≡ i + suc j
      next = omega arith

      others :
          (k : ℕ) (r' : Route)
          → get_elem? (r ∷ rs) k ≡ some r'
          → Covers host_bits r' addr
          → (r'.netmask ≤ r₁.netmask) × (r'.netmask ≡ r₁.netmask → k ≤ suc j)
      others zero r' h c' = omega (arith, ap (λ (t : Route). t.netmask) (some-injective r r' h))
      others (suc k) r' h c' = let a = all k r' h c' in (a.0, λ q. omega (arith, a.1 q))

  -- The first route is passed over.
  Best-skip :
      (r : Route) (rs : Rtable) (i : ℕ) (best : Option ℕ) (mask : ℕ) (o : Option ℕ)
      → (Covers host_bits r addr → r.netmask < mask)
      → Best host_bits addr rs (i + 1) best mask o
      → Best host_bits addr (r ∷ rs) i best mask o
  Best-skip r rs i best mask o short (keep less e) = keep others e
    where
      others :
          (k : ℕ) (r' : Route)
          → get_elem? (r ∷ rs) k ≡ some r'
          → Covers host_bits r' addr
          → r'.netmask < mask
      others zero r' h c' =
          subst (λ (t : Route). t.netmask < mask) (some-injective r r' h)
            (short
              (subst (λ (t : Route). Covers host_bits t addr) (sym (some-injective r r' h)) c'))
      others (suc k) r' h c' = less k r' h c'
  Best-skip r rs i best mask o short (pick j r₁ h₁ c₁ le₁ all e) =
      pick (suc j) r₁ h₁ c₁ le₁ others (e ∙ ap (λ (t : ℕ). some t) next)
    where
      next : i + 1 + j ≡ i + suc j
      next = omega arith

      first : (r' : Route) → r ≡ r' → Covers host_bits r' addr → r'.netmask < mask
      first r' q c' =
          subst (λ (t : Route). t.netmask < mask) q
            (short (subst (λ (t : Route). Covers host_bits t addr) (sym q) c'))

      others :
          (k : ℕ) (r' : Route)
          → get_elem? (r ∷ rs) k ≡ some r'
          → Covers host_bits r' addr
          → (r'.netmask ≤ r₁.netmask) × (r'.netmask ≡ r₁.netmask → k ≤ suc j)
      others zero r' h c' = omega (arith, first r' (some-injective r r' h) c')
      others (suc k) r' h c' = let a = all k r' h c' in (a.0, λ q. omega (arith, a.1 q))

  find_loop-Best :
      host_bits ≤ 14
      → addr < 2 ^ 16
      → (rs : Rtable) (i : ℕ) (best : Option ℕ) (mask : ℕ) → IsWide rs
      → Best host_bits addr rs i best mask (find_loop host_bits addr rs i best mask)
  unfolding find_loop
  find_loop-Best hb ha [] i best mask w = keep (λ k r h c. cc) refl
  find_loop-Best hb ha (r ∷ rs) i best mask w = elim (Bool-cases (net_matches host_bits r addr)) [
    | inl m ↦ elim (Bool-cases (leb mask r.netmask)) [
      | inl l ↦
          rw (m, l)
            (Best-take r rs i best mask _ ((net_matches_iff host_bits r addr hb w.0 ha).0 m)
              (ground arith) (find_loop-Best hb ha rs (i + 1) (some i) r.netmask w.1))
      | inr l ↦
          rw (m, l)
            (Best-skip r rs i best mask _ (λ c. ground arith)
              (find_loop-Best hb ha rs (i + 1) best mask w.1))
    ]
    | inr m ↦ rw m (
        Best-skip r rs i best mask _ (λ c. cc ((net_matches_iff host_bits r addr hb w.0 ha).1 c))
          (find_loop-Best hb ha rs (i + 1) best mask w.1))
  ]

-- What a search of the table may return for an address: nothing, if no route covers it; or the
-- index of a covering route that no covering route beats, where a longer netmask beats, and of
-- equal netmasks the later route.
abbrev pub IsLongestPrefix : ℕ → Rtable → ℕ → Option ℕ → Type 0
IsLongestPrefix host_bits rs addr none =
    (k : ℕ) (r : Route) → get_elem? rs k ≡ some r → ¬ Covers host_bits r addr
IsLongestPrefix host_bits rs addr (some j) =
    (r : Route) × (get_elem? rs j ≡ some r)
    × Covers host_bits r addr
    × ((k : ℕ) (r' : Route)
        → get_elem? rs k ≡ some r'
        → Covers host_bits r' addr
        → (r'.netmask ≤ r.netmask) × (r'.netmask ≡ r.netmask → k ≤ j))

Best-IsLongestPrefix :
    (host_bits addr : ℕ) (rs : Rtable) (o : Option ℕ)
    → Best host_bits addr rs 0 none 0 o
    → IsLongestPrefix host_bits rs addr o
Best-IsLongestPrefix host_bits addr rs none (keep less e) =
    λ k r h c. absurd (omega (arith, less k r h c))
Best-IsLongestPrefix host_bits addr rs (some j) (keep less e) = cc
Best-IsLongestPrefix host_bits addr rs none (pick j r h c le all e) = cc
Best-IsLongestPrefix host_bits addr rs (some j') (pick j r h c le all e) =
    subst (λ (t : ℕ). IsLongestPrefix host_bits rs addr (some t)) same (r, h, c, all)
  where
    same : j ≡ j'
    same = omega (arith, some-injective j' (0 + j) e)

-- In either version, the search of any table with 16-bit addresses finds the last of the routes
-- with the longest prefix that covers the address, and nothing exactly if there is none.
pub find_route-IsLongestPrefix :
    (version : ℕ) (rs : Rtable) (addr : ℕ)
    → IsWide rs
    → addr < 2 ^ 16
    → IsLongestPrefix (get_host_bits version) rs addr (find_route version rs addr)
unfolding find_route
find_route-IsLongestPrefix version rs addr w ha =
    Best-IsLongestPrefix (get_host_bits version) addr rs _
      (find_loop-Best (get_host_bits version) addr (ground arith) ha rs 0 none 0 w)
