-- ===== src/Rtable/Set.antt =====
-- `csp_rtable_set` of src/csp_rtable_cidr.c as a change to the list of routes.
use libcsp.Core.{ℕ, suc, ◌≤◌, ◌<◌, ◌≡◌, ◌⊎◌, refl, arith, inl, inr, All, length}
use libcsp.Core.{true, false, leb, ltb, Bool-cases, Option-cases}
use libcsp.Core.{[], ◌∷◌, ◌++◌, none, some, set}
use libcsp.Core.Int.{ℤ, pos, negsuc}
use libcsp.Packet.{Err}
use libcsp.Id.{get_host_bits}
use libcsp.Rtable.{Route, Rtable, matches_exact, find_exact, set_internal, rtable_set}
use libcsp.Rtable.{effective_netmask, rtable_size}

-- The netmask that is entered for a given one: that itself, if an address has as many bits; a
-- negative one, or a longer one, stands for all bits of an address.
abbrev pub StandsFor : ℕ → ℕ → ℤ → Type 0
StandsFor version m (pos n) =
    ((n ≤ get_host_bits version) × (m ≡ n))
    ⊎ ((get_host_bits version < n) × (m ≡ get_host_bits version))
StandsFor version m (negsuc n) = m ≡ get_host_bits version

effective_netmask-StandsFor :
    (version : ℕ) (netmask : ℤ) → StandsFor version (effective_netmask version netmask) netmask
effective_netmask-StandsFor version (negsuc n) = refl
effective_netmask-StandsFor version (pos n) = elim (Bool-cases (ltb (get_host_bits version) n)) [
  | inl c ↦ rw c (inr (ground (arith, c), refl))
  | inr c ↦ rw c (inl (ground (arith, c), refl))
]

-- A route for this network and interface.
abbrev pub IsFor : ℕ → ℕ → ℕ → Route → Type 0
IsFor a m f r = (r.address ≡ a) × (r.netmask ≡ m) × (r.iface ≡ f)

abbrev pub HasNone : ℕ → ℕ → ℕ → Rtable → Type 0
HasNone a m f rs = All (λ r. IsFor a m f r → ⊥) rs

abbrev pub entry : ℕ → ℕ → ℕ → ℕ → Route
entry a m f v = record { address = a; netmask = m; via = v; iface = f }

-- The first route for the network and interface of another has given its place to that.
pub data Replaces (a m f v : ℕ) : Rtable → Rtable → Type 0 where
  here : {r : Route} {rs : Rtable} → IsFor a m f r → Replaces a m f v (r ∷ rs) (entry a m f v ∷ rs)
  there :
      {r : Route} {rs rs' : Rtable}
      → (IsFor a m f r → ⊥)
      → Replaces a m f v rs rs'
      → Replaces a m f v (r ∷ rs) (r ∷ rs')

-- What entering a route does: it takes the place of the first one for its network and interface, if
-- there is one; else it comes at the end, or there is no room and nothing changes.
pub data Enters (a m f v : ℕ) : Rtable → Err × Rtable → Type 0 where
  replaced : {rs rs' : Rtable} → Replaces a m f v rs rs' → Enters a m f v rs (Err.none, rs')
  added :
      {rs : Rtable}
      → HasNone a m f rs
      → length rs < rtable_size
      → Enters a m f v rs (Err.none, rs ++ (entry a m f v ∷ []))
  refused :
      {rs : Rtable} → HasNone a m f rs → rtable_size ≤ length rs → Enters a m f v rs (Err.nomem, rs)

module _ (a m f v : ℕ) where
  exact : (r : Route) → matches_exact r a m f ≡ true → IsFor a m f r
  exact r e = ground (arith, e)

  other : (r : Route) → matches_exact r a m f ≡ false → IsFor a m f r → ⊥
  other r e (p, q, s) = ground (arith, e, p, q, s)

  -- The first route, and those behind it.
  find-here :
      (r : Route) (rs : Rtable) → matches_exact r a m f ≡ true → find_exact (r ∷ rs) a m f ≡ some 0
  unfolding find_exact
  find-here r rs c = rw (find_exact, c) refl

  find-there :
      (r : Route) (rs : Rtable) (i : ℕ)
      → matches_exact r a m f ≡ false
      → find_exact rs a m f ≡ some i
      → find_exact (r ∷ rs) a m f ≡ some (suc i)
  unfolding find_exact
  find-there r rs i c e = rw (find_exact, c, e) refl

  find-none :
      (r : Route) (rs : Rtable)
      → matches_exact r a m f ≡ false
      → find_exact rs a m f ≡ none
      → find_exact (r ∷ rs) a m f ≡ none
  unfolding find_exact
  find-none r rs c e = rw (find_exact, c, e) refl

  find-empty : find_exact [] a m f ≡ none
  unfolding find_exact
  find-empty = refl

  find_exact-HasNone : (rs : Rtable) → find_exact rs a m f ≡ none → HasNone a m f rs
  find_exact-HasNone [] e = tt
  find_exact-HasNone (r ∷ rs) e = elim (Bool-cases (matches_exact r a m f)) [
    | inl c ↦ absurd (cc (e, find-here r rs c))
    | inr c ↦ elim (Option-cases (find_exact rs a m f)) [
      | inl e' ↦ (other r c, find_exact-HasNone rs e')
      | inr (i, e') ↦ absurd (cc (e, find-there r rs i c e'))
    ]
  ]

  find_exact-Replaces :
      (rs : Rtable) (i : ℕ)
      → find_exact rs a m f ≡ some i
      → Replaces a m f v rs (set rs i (entry a m f v))
  find_exact-Replaces [] i e = absurd (cc (e, find-empty))
  find_exact-Replaces (r ∷ rs) i e = elim (Bool-cases (matches_exact r a m f)) [
    | inl c ↦ at i (cc (e, find-here r rs c)) (exact r c)
    | inr c ↦ elim (Option-cases (find_exact rs a m f)) [
      | inl e' ↦ absurd (cc (e, find-none r rs c e'))
      | inr (k, e') ↦
          behind i k (cc (e, find-there r rs k c e')) (other r c) (find_exact-Replaces rs k e')
    ]
  ]
    where
      at :
          (i : ℕ)
          → i ≡ 0
          → IsFor a m f r
          → Replaces a m f v (r ∷ rs) (set (r ∷ rs) i (entry a m f v))
      at i z is = rw z (here is)

      behind :
          (i k : ℕ)
          → i ≡ suc k
          → (IsFor a m f r → ⊥)
          → Replaces a m f v rs (set rs k (entry a m f v))
          → Replaces a m f v (r ∷ rs) (set (r ∷ rs) i (entry a m f v))
      behind i k z isnt rest = rw z (there isnt rest)

  set_internal-found :
      (rs : Rtable) (i : ℕ)
      → find_exact rs a m f ≡ some i
      → set_internal rs a m f v ≡ (Err.none, set rs i (entry a m f v))
  unfolding set_internal
  set_internal-found rs i e = ground (arith, e)

  set_internal-full :
      (rs : Rtable)
      → find_exact rs a m f ≡ none
      → leb rtable_size (length rs) ≡ true
      → set_internal rs a m f v ≡ (Err.nomem, rs)
  unfolding set_internal
  set_internal-full rs e full = ground (arith, e, full)

  set_internal-new :
      (rs : Rtable)
      → find_exact rs a m f ≡ none
      → leb rtable_size (length rs) ≡ false
      → set_internal rs a m f v ≡ (Err.none, rs ++ (entry a m f v ∷ []))
  unfolding set_internal
  set_internal-new rs e room = ground (arith, e, room)

  set_internal-Enters : (rs : Rtable) → Enters a m f v rs (set_internal rs a m f v)
  set_internal-Enters rs = elim (Option-cases (find_exact rs a m f)) [
    | inr (i, e) ↦ rw (set_internal-found rs i e) (replaced (find_exact-Replaces rs i e))
    | inl e ↦ elim (Bool-cases (leb rtable_size (length rs))) [
      | inl full ↦
          rw (set_internal-full rs e full)
            (refused (find_exact-HasNone rs e) (ground (arith, full)))
      | inr room ↦
          rw (set_internal-new rs e room) (added (find_exact-HasNone rs e) (ground (arith, room)))
    ]
  ]

-- Setting a route to an interface enters it with the given netmask, or for all bits of an address if
-- that is negative or longer than an address. It takes the place of the first route for the same
-- network and interface; if there is none, it comes at the end, behind the others as they were;
-- and if the table has no room then, that is reported and nothing changes. `csp_dbg_errno` is not
-- touched.
pub rtable_set-Enters :
    (version : ℕ) (rs : Rtable) (address : ℕ) (netmask : ℤ) (ifc via : ℕ)
    → let (e, rs', errno) = rtable_set version rs address netmask (some ifc) via in
      (m : ℕ) × StandsFor version m netmask × Enters address m ifc via rs (e, rs') × (errno ≡ none)
unfolding rtable_set
rtable_set-Enters version rs address netmask ifc via = (
  effective_netmask version netmask,
  effective_netmask-StandsFor version netmask,
  set_internal-Enters address (effective_netmask version netmask) ifc via rs,
  refl,
)
