-- ===== src/Rtable/Backward.antt =====
-- `csp_rtable_search_backward` of src/csp_rtable_cidr.c.
use libcsp.Core.{ℕ, zero, suc, ◌<◌, ◌≤◌, ◌≡◌, ◌∙◌, sym, subst, arith, inl, inr}
use libcsp.Core.{false, ◌==◌, ◌&&◌, if◌then◌else◌, Bool-cases, Option-cases}
use libcsp.Core.{Option, none, some, get_elem?}
use native.Mathlib.Decide.{ℕ_discrete}
use mathlib.Core.Option.{some-injective}
use libcsp.Rtable.{Route, Rtable, search_down, search_backward}

-- Two routes to the same network.
abbrev pub SameNet : Route → Route → Type 0
SameNet r s = (r.netmask ≡ s.netmask) × (r.address ≡ s.address)

-- No route in `rs[lo .. hi)` goes to the network of `start`.
abbrev pub NoTwin : Rtable → Route → ℕ → ℕ → Type 0
NoTwin rs start lo hi =
    (k : ℕ) (r : Route) → lo ≤ k → k < hi → get_elem? rs k ≡ some r → ¬ SameNet r start

-- What the search below index `i` may return.
abbrev pub IsNearestTwin : Rtable → Route → ℕ → Option ℕ → Type 0
IsNearestTwin rs start i none = NoTwin rs start 0 i
IsNearestTwin rs start i (some j) =
    (r : Route) × (get_elem? rs j ≡ some r) × SameNet r start × (j < i) × NoTwin rs start (suc j) i

module _ (rs : Rtable) (start : Route) where
  -- The route at index `i` is no twin, and the search goes on.
  further :
      (i : ℕ) (o : Option ℕ)
      → ((r : Route) → get_elem? rs i ≡ some r → ¬ SameNet r start)
      → IsNearestTwin rs start i o
      → IsNearestTwin rs start (suc i) o
  further i o other near = extend o near
    where
      grow : (lo : ℕ) → NoTwin rs start lo i → NoTwin rs start lo (suc i)
      grow lo no_twin k r l h e same = elim (ℕ_discrete k i) [
        | yes p ↦ other r (subst (λ (t : ℕ). get_elem? rs t ≡ some r) p e) same
        | no p ↦ no_twin k r l (omega arith) e same
      ]

      extend : (o : Option ℕ) → IsNearestTwin rs start i o → IsNearestTwin rs start (suc i) o
      extend none near = grow 0 near
      extend (some j) (r, e, same, lt, no_twin) = (r, e, same, omega arith, grow (suc j) no_twin)

  search_down-suc :
      (i : ℕ) (r : Route)
      → get_elem? rs i ≡ some r
      → search_down rs start (suc i) ≡ (
          if r.netmask == start.netmask && r.address == start.address
          then some i
          else search_down rs start i)
  unfolding search_down
  search_down-suc i r e = ground (arith, e)

  search_down-past :
      (i : ℕ) → get_elem? rs i ≡ none → search_down rs start (suc i) ≡ search_down rs start i
  unfolding search_down
  search_down-past i e = ground (arith, e)

  search_down-IsNearestTwin : (i : ℕ) → IsNearestTwin rs start i (search_down rs start i)
  search_down-IsNearestTwin zero = unfold search_down in λ k r l h e same. absurd (omega arith)
  search_down-IsNearestTwin (suc i) = elim (Option-cases (get_elem? rs i)) [
    | inl e ↦ rw (search_down-past i e) (further i _ (λ r h. cc) (search_down-IsNearestTwin i))
    | inr (r, e) ↦
        rw (search_down-suc i r e)
          (elim (Bool-cases (r.netmask == start.netmask && r.address == start.address)) [
            | inl twin ↦
                rw twin (r, e, ground arith, omega arith, λ k r' l h e' same. absurd (omega arith))
            | inr other ↦ rw other (further i _ (no_twin r e other) (search_down-IsNearestTwin i))
          ])
  ]
    where
      no_twin :
          (r : Route)
          → get_elem? rs i ≡ some r
          → (r.netmask == start.netmask && r.address == start.address) ≡ false
          → (r' : Route) → get_elem? rs i ≡ some r'
          → ¬ SameNet r' start
      no_twin r e other r' e' same =
          differs (subst (λ (t : Route). SameNet t start) (some-injective r' r (sym e' ∙ e)) same)
        where
          differs : ¬ SameNet r start
          differs (p, q) = ground arith

-- From a route of the table the search returns the nearest earlier route to the same network, and
-- nothing exactly if no earlier route goes there.
pub search_backward-IsNearestTwin :
    (rs : Rtable) (i : ℕ) (start : Route)
    → get_elem? rs i ≡ some start
    → IsNearestTwin rs start i (search_backward rs (some i))
unfolding search_backward
search_backward-IsNearestTwin rs i start e =
    subst
      (λ (o : Option Route).
        IsNearestTwin rs start i (elim o [ none ↦ none | some s ↦ search_down rs s i ]))
      (sym e) (search_down-IsNearestTwin rs start i)
