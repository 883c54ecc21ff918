-- ===== src/Iflist/Network.antt =====
-- What the look-up by subnet of src/csp_iflist.c meets, beside the networks of the interfaces.
use libcsp.Core.{ℕ, suc, ◌-◌, ◌*◌, ◌/◌, ◌%◌, ◌^◌, ◌≤◌, ◌<◌, ◌==◌, ◌≡◌, ◌≢◌, ◌↔◌, refl, sym, ◌∙◌}
use libcsp.Core.{subst, arith, inl, inr, Bool, true, false, Bool-cases}
use libcsp.Core.{==_iff, ==_ne, List, [], ◌∷◌, none, All, length, ◌+◌}
use libcsp.Core.Masks.{high_mask_iff, high_mask-eq}
use native.Mathlib.Nat.{pow-le-pow_right, mod-eq_of_lt}
use libcsp.Packet.{Iface}
use libcsp.Id.{get_host_bits}
use libcsp.Iflist.{Interfaces, net_of, is_within_subnet, serves, get_by_subnet}
use libcsp.Iflist.Walk.{AreDistinct, all_such, walk, walk-get_by_subnet}

-- The upper `netmask` bits of an address.
abbrev pub prefix : ℕ → ℕ → ℕ → ℕ
prefix version netmask addr = addr / 2 ^ (get_host_bits version - netmask) % 2 ^ netmask

-- The interface has a network, and the address begins as its own does.
abbrev pub IsInNetwork : ℕ → ℕ → Iface → Type 0
IsInNetwork version addr i =
    (0 < i.netmask) × (prefix version i.netmask addr ≡ prefix version i.netmask i.addr)

abbrev pub IsNetmask : ℕ → Iface → Type 0
IsNetmask version i = i.netmask ≤ get_host_bits version

-- The numbers of exactly those interfaces of a list that have a property, in its order.
pub data Selects (P : Iface → Type 0) : Interfaces → List ℕ → Type 0 where
  nothing : Selects P [] []
  taken :
      {i : Iface} {is : Interfaces} {hs : List ℕ}
      → P i
      → Selects P is hs
      → Selects P (i ∷ is) (i.handle ∷ hs)
  skipped :
      {i : Iface} {is : Interfaces} {hs : List ℕ}
      → (P i → ⊥)
      → Selects P is hs
      → Selects P (i ∷ is) hs

all_such-Selects :
    (P : Iface → Type 0) (test : Iface → Bool) (ifs : Interfaces)
    → All (λ i. (test i ≡ true → P i) × (P i → test i ≡ true)) ifs
    → Selects P ifs (all_such test ifs)
unfolding all_such
all_such-Selects P test [] a = nothing
all_such-Selects P test (i ∷ is) a = elim (Bool-cases (test i)) [
  | inl e ↦ rw e (taken (a.0.0 e) (all_such-Selects P test is a.1))
  | inr e ↦ rw e (skipped (λ p. absurd (cc (a.0.1 p, e))) (all_such-Selects P test is a.1))
]

host_bits-le : (version : ℕ) → get_host_bits version ≤ 14
host_bits-le version = ground arith

mask-lt : (n k : ℕ) → n + k ≤ 14 → (2 ^ n - 1) * 2 ^ k < 2 ^ 16
mask-lt n k h = below _ _ _ (high_mask-eq n k) (pow-le-pow_right (omega arith) {j = 14} h)
  where
    below : (x a b : ℕ) → a - 1 - (b - 1) ≡ x → a ≤ 2 ^ 14 → x < 2 ^ 16
    below x a b e le = omega arith

-- The mask of a network, which is no longer than 16 bits.
same_net_iff :
    (version netmask a b : ℕ)
    → netmask ≤ get_host_bits version
    → (net_of version netmask a ≡ net_of version netmask b)
      ↔ (prefix version netmask a ≡ prefix version netmask b)
same_net_iff version netmask a b h =
    rw whole (high_mask_iff (get_host_bits version - netmask) netmask a b)
  where
    whole :
        (2 ^ netmask - 1) * 2 ^ (get_host_bits version - netmask) % 2 ^ 16
        ≡ (2 ^ netmask - 1) * 2 ^ (get_host_bits version - netmask)
    whole =
        mod-eq_of_lt
          (mask-lt netmask (get_host_bits version - netmask) (omega (arith, host_bits-le version)))

serves-same :
    (version addr : ℕ) (i : Iface)
    → i.netmask ≢ 0
    → serves version addr i ≡ (net_of version i.netmask i.addr == net_of version i.netmask addr)
unfolding is_within_subnet
serves-same version addr i ne = rw (==_ne i.netmask 0 ne) refl

serves-none : (version addr : ℕ) (i : Iface) → i.netmask ≡ 0 → serves version addr i ≡ false
serves-none version addr i e = rw e refl

serves_iff :
    (version addr : ℕ) (i : Iface)
    → IsNetmask version i
    → (serves version addr i ≡ true → IsInNetwork version addr i)
      × (IsInNetwork version addr i → serves version addr i ≡ true)
serves_iff version addr i h = elim (Bool-cases (i.netmask == 0)) [
  | inl c ↦ (
    λ e. absurd (cc (e, serves-none version addr i ((==_iff _ _).0 c))),
    λ n. absurd (omega (arith, n.0, (==_iff _ _).0 c)),
  )
  | inr c ↦
      let ne : i.netmask ≢ 0 = λ e. cc (c, (==_iff _ _).1 e) in
      (
        λ e. (
          omega (arith, ne),
          sym (
              (same_net_iff version i.netmask i.addr addr h).0
                ((==_iff _ _).0 (sym (serves-same version addr i ne) ∙ e))),
        ),
        λ n.
            serves-same version addr i ne
            ∙ (==_iff _ _).1 ((same_net_iff version i.netmask i.addr addr h).1 (sym n.1)),
      )
]

serves_all :
    (version addr : ℕ) (ifs : Interfaces)
    → All (IsNetmask version) ifs
    → All
        (λ i.
          (serves version addr i ≡ true → IsInNetwork version addr i)
          × (IsInNetwork version addr i → serves version addr i ≡ true))
        ifs
serves_all version addr [] a = tt
serves_all version addr (i ∷ is) a = (serves_iff version addr i a.0, serves_all version addr is a.1)

-- Asking for the next interface that serves an address, from none on, meets exactly the interfaces
-- of the list that have a netmask and whose address begins with the same bits, as many as the
-- netmask says, each once and in order, if the interfaces are distinct and their netmasks no
-- longer than an address; one round more than there are interfaces is enough to come to the end.
pub walk-Selects :
    (ifs : Interfaces) (version addr : ℕ)
    → AreDistinct ifs
    → All (IsNetmask version) ifs
    → Selects
        (IsInNetwork version addr)
        ifs
        (walk (suc (length ifs)) (get_by_subnet ifs version addr) none)
walk-Selects ifs version addr d a =
    subst (Selects (IsInNetwork version addr) ifs) (sym (walk-get_by_subnet ifs version addr d)) (
      all_such-Selects (IsInNetwork version addr) (serves version addr) ifs
        (serves_all version addr ifs a))
