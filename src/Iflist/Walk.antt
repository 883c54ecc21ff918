-- ===== src/Iflist/Walk.antt =====
-- Walking the list of src/csp_iflist.c with one of its look-ups.
use libcsp.Core.{ℕ, zero, suc, ◌≤◌, ◌≡◌, ◌∙◌, refl, ap, arith, inl, inr, Bool-cases}
use libcsp.Core.{Bool, false, ◌==◌, ==_self, if◌then◌else◌, List, [], ◌∷◌, Option, none, some}
use libcsp.Core.{All, length}
use libcsp.Packet.{Iface}
use libcsp.Iflist.{Interfaces, behind, rest_of, first_such, serves, get_by_subnet, get_by_isdfl}

-- The interfaces of the list are different ones.
unfoldable pub AreDistinct : Interfaces → Type 0
AreDistinct [] = Unit
AreDistinct (i ∷ is) = All (λ j. (i.handle == j.handle) ≡ false) is × AreDistinct is

-- The numbers of the interfaces that pass a test, in order.
unfoldable pub all_such : (Iface → Bool) → Interfaces → List ℕ
all_such test [] = []
all_such test (i ∷ is) = if test i then i.handle ∷ all_such test is else all_such test is

-- `while ((iface = next(iface)) != NULL)`, at most `fuel` rounds: what it meets.
unfoldable pub walk : ℕ → (Option ℕ → Option ℕ) → Option ℕ → List ℕ
walk zero next iface = []
walk (suc fuel) next iface = elim (next iface) [ none ↦ [] | some h ↦ h ∷ walk fuel next (some h) ]

-- From each interface of `suffix`, the list goes on with what is behind it there.
GoesOn : Interfaces → Interfaces → Type 0
GoesOn ifs [] = Unit
GoesOn ifs (i ∷ is) = (behind i.handle ifs ≡ is) × GoesOn ifs is

GoesOn-cons :
    (x : Iface) (ifs suffix : Interfaces)
    → All (λ j. (x.handle == j.handle) ≡ false) suffix
    → GoesOn ifs suffix
    → GoesOn (x ∷ ifs) suffix
unfolding GoesOn behind
GoesOn-cons x ifs [] a g = tt
GoesOn-cons x ifs (i ∷ is) a g = (rw (a.0) (g.0), GoesOn-cons x ifs is a.1 g.1)

AreDistinct-GoesOn : (ifs : Interfaces) → AreDistinct ifs → GoesOn ifs ifs
unfolding GoesOn behind AreDistinct
AreDistinct-GoesOn [] d = tt
AreDistinct-GoesOn (i ∷ is) d =
    (rw (==_self i.handle) refl, GoesOn-cons i is is d.0 (AreDistinct-GoesOn is d.1))

module _ (test : Iface → Bool) (ifs : Interfaces) where
  abbrev next : Option ℕ → Option ℕ
  next ifc = first_such test (rest_of ifs ifc)

  met : ℕ → Option ℕ → List ℕ
  met fuel o = elim o [ none ↦ [] | some h ↦ h ∷ walk fuel next (some h) ]

  walk-suc : (fuel : ℕ) (ifc : Option ℕ) → walk (suc fuel) next ifc ≡ met fuel (next ifc)
  unfolding walk met
  walk-suc fuel ifc = refl

  met-all_such :
      (suffix : Interfaces) (fuel : ℕ)
      → GoesOn ifs suffix
      → length suffix ≤ fuel
      → met fuel (first_such test suffix) ≡ all_such test suffix
  unfolding met GoesOn all_such first_such
  met-all_such [] fuel g h = refl
  met-all_such (i ∷ is) zero g h = absurd (omega arith)
  met-all_such (i ∷ is) (suc fuel) g h = elim (Bool-cases (test i)) [
    | inr e ↦ rw e (met-all_such is (suc fuel) g.1 (omega arith))
    | inl e ↦ rw e (
        ap (λ t. i.handle ∷ t)
          (walk-suc fuel (some i.handle)
            ∙ ap (λ t. met fuel (first_such test t)) g.0
            ∙ met-all_such is fuel g.1 (omega arith)))
  ]

  walk-all_such : AreDistinct ifs → walk (suc (length ifs)) next none ≡ all_such test ifs
  walk-all_such d =
      walk-suc (length ifs) none
      ∙ met-all_such ifs (length ifs) (AreDistinct-GoesOn ifs d) (omega arith)

-- Asking for the next interface that serves an address, from none on, meets every interface of
-- the list with a netmask and the network of the address, each once and in order; one round more
-- than there are interfaces is enough to come to the end.
pub walk-get_by_subnet :
    (ifs : Interfaces) (version addr : ℕ)
    → AreDistinct ifs
    → walk (suc (length ifs)) (get_by_subnet ifs version addr) none
      ≡ all_such (serves version addr) ifs
unfolding get_by_subnet
walk-get_by_subnet ifs version addr d = walk-all_such (serves version addr) ifs d

-- Asking for the next default interface meets every default of the list, each once and in order.
pub walk-get_by_isdfl :
    (ifs : Interfaces)
    → AreDistinct ifs
    → walk (suc (length ifs)) (get_by_isdfl ifs) none ≡ all_such (λ i. i.is_default == 1) ifs
unfolding get_by_isdfl
walk-get_by_isdfl ifs d = walk-all_such (λ i. i.is_default == 1) ifs d
