-- ===== src/Buffer/Stored.antt =====
-- What is in the buffers of src/csp_buffer.c, whoever holds them.
use libcsp.Core.{ℕ, zero, suc, ◌-◌, ◌==◌, ltb, ◌≡◌, refl, ap, ◌∙◌}
use libcsp.Core.{List, [], ◌∷◌, map, get_or, get_elem?, set, none, some}
use libcsp.Core.{Option-cases, inl, inr}
use libcsp.Packet.{Packet}
use libcsp.Buffer.{
  Buffers, Skbf, packet_init, packet_of, store_packet, buffer_free, release, free_all,
}
use libcsp.Rdp.States.{if-both}

abbrev pub packets : List Skbf → List Packet
packets pool = map (λ b. b.skbf_data) pool

abbrev pub stored : Buffers → List Packet
stored s = packets s.pool

packets-set_same :
    (pool : List Skbf) (i : ℕ) (b c : Skbf)
    → get_elem? pool i ≡ some b
    → c.skbf_data ≡ b.skbf_data
    → packets (set pool i c) ≡ packets pool
packets-set_same [] i b c e h = refl
packets-set_same (x ∷ pool) zero b c e h = cc (e, h)
packets-set_same (x ∷ pool) (suc i) b c e h =
    ap (λ t. x.skbf_data ∷ t) (packets-set_same pool i b c e h)

packets-set :
    (pool : List Skbf) (i : ℕ) (b : Skbf)
    → packets (set pool i b) ≡ set (packets pool) i b.skbf_data
packets-set [] i b = refl
packets-set (x ∷ pool) zero b = refl
packets-set (x ∷ pool) (suc i) b = ap (λ t. x.skbf_data ∷ t) (packets-set pool i b)

set-packets_none :
    (pool : List Skbf) (i : ℕ) (p : Packet)
    → get_elem? pool i ≡ none
    → packets pool ≡ set (packets pool) i p
set-packets_none [] i p e = refl
set-packets_none (x ∷ pool) zero p e = absurd (cc e)
set-packets_none (x ∷ pool) (suc i) p e = ap (λ t. x.skbf_data ∷ t) (set-packets_none pool i p e)

get_or-packets :
    (pool : List Skbf) (i : ℕ)
    → (get_or pool i (record { refcount = 0; skbf_addr = 0; skbf_data = packet_init })).skbf_data
      ≡ get_or (packets pool) i packet_init
get_or-packets [] i = refl
get_or-packets (x ∷ pool) zero = refl
get_or-packets (x ∷ pool) (suc i) = get_or-packets pool i

pub packet_of-stored : (s : Buffers) (i : ℕ) → packet_of s i ≡ get_or (stored s) i packet_init
packet_of-stored s i = get_or-packets s.pool i

pub stored-store_packet :
    (s : Buffers) (i : ℕ) (p : Packet) → stored (store_packet s i p) ≡ set (stored s) i p
stored-store_packet s i p = elim (Option-cases (get_elem? s.pool i)) [
  | inl e ↦ rw (store_packet, e) (set-packets_none s.pool i p e)
  | inr (b, e) ↦ rw (store_packet, e) (packets-set s.pool i (record b { skbf_data = p }))
]

release-stored :
    (s : Buffers) (i : ℕ) (b : Skbf)
    → get_elem? s.pool i ≡ some b
    → stored (release s i b) ≡ stored s
unfolding release
release-stored s i b e =
    if-both (λ (t : Buffers). stored t ≡ stored s) (ltb 0 (b.refcount - 1)) _ _
      (λ c. packets-set_same s.pool i b _ e refl) (λ c. packets-set_same s.pool i b _ e refl)

buffer_free-stored : (s : Buffers) (i : ℕ) → stored (buffer_free s (some i)) ≡ stored s
unfolding buffer_free
buffer_free-stored s i = elim (Option-cases (get_elem? s.pool i)) [
  | inl e ↦ rw e refl
  | inr (b, e) ↦ rw e (
      if-both (λ (t : Buffers). stored t ≡ stored s) (b.skbf_addr == i) _ _
        (λ c.
          if-both (λ (t : Buffers). stored t ≡ stored s) (b.refcount == 0) _ _ (λ d. refl)
            (λ d. release-stored s i b e))
        (λ c. refl))
]

-- Giving buffers back leaves what is in them.
pub free_all-stored : (is : List ℕ) (s : Buffers) → stored (free_all s is) ≡ stored s
free_all-stored [] s = refl
free_all-stored (i ∷ is) s = free_all-stored is (buffer_free s (some i)) ∙ buffer_free-stored s i
