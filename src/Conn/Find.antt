-- ===== src/Conn/Find.antt =====
-- The look-ups of src/csp_conn.c.
use libcsp.Core.{ℕ, zero, suc, ◌<◌, ◌≡◌, ◌⊎◌, ◌↔◌, refl, arith, inl, inr, Bool-cases}
use libcsp.Core.{Bool, true, false, ◌==◌, ◌&&◌, Option, none, some}
use libcsp.Core.{List, [], ◌∷◌, get_elem?}
use libcsp.Packet.{CspId}
use libcsp.Conn.{Conn, opened, client, first_index, find_dport, find_existing, belongs}
use libcsp.Conn.{is_open, is_client}

-- The index is that of the first connection with the property, or there is none.
abbrev pub IsFirst : (Conn → Type 0) → List Conn → Option ℕ → Type 0
IsFirst P pool none = (k : ℕ) (c : Conn) → get_elem? pool k ≡ some c → ¬ P c
IsFirst P pool (some i) =
    ((c : Conn) × (get_elem? pool i ≡ some c) × P c)
    × ((k : ℕ) (c : Conn) → k < i → get_elem? pool k ≡ some c → ¬ P c)

module _ (P : Conn → Type 0) (test : Conn → Bool) (sound : (c : Conn) → (test c ≡ true) ↔ P c) where
  refuse : (c c' : Conn) → test c ≡ false → some c ≡ some c' → ¬ P c'
  refuse c c' e same pc = differ ((sound c').1 pc)
    where
      differ : test c' ≡ true → ⊥
      differ t = cc

  skip-none :
      (c : Conn) (pool : List Conn)
      → test c ≡ false
      → IsFirst P pool none
      → (k : ℕ) (c' : Conn) → get_elem? (c ∷ pool) k ≡ some c'
      → ¬ P c'
  skip-none c pool e f zero c' at = refuse c c' e at
  skip-none c pool e f (suc k) c' at = f k c' at

  skip-some :
      (c : Conn) (pool : List Conn) (i : ℕ)
      → test c ≡ false
      → ((k : ℕ) (c' : Conn) → k < i → get_elem? pool k ≡ some c' → ¬ P c')
      → (k : ℕ) (c' : Conn) → k < suc i
      → get_elem? (c ∷ pool) k ≡ some c'
      → ¬ P c'
  skip-some c pool i e f zero c' h at = refuse c c' e at
  skip-some c pool i e f (suc k) c' h at = f k c' (omega arith) at

  IsFirst-skip :
      (c : Conn) (pool : List Conn) (o : Option ℕ)
      → test c ≡ false
      → IsFirst P pool o
      → IsFirst P (c ∷ pool) (elim o [ none ↦ none | some i ↦ some (suc i) ])
  IsFirst-skip c pool none e f = skip-none c pool e f
  IsFirst-skip c pool (some i) e (at, f) = (at, skip-some c pool i e f)

  pub first_index-IsFirst : (pool : List Conn) → IsFirst P pool (first_index test pool)
  unfolding first_index
  first_index-IsFirst [] = λ k c at. cc
  first_index-IsFirst (c ∷ pool) = elim (Bool-cases (test c)) [
    | inl e ↦ rw e ((c, refl, (sound c).0 e), λ k c' h. absurd (omega arith))
    | inr e ↦ rw e (IsFirst-skip c pool (first_index test pool) e (first_index-IsFirst pool))
  ]

-- What a packet with the identifier must meet: an open connection, whose client knows its packets
-- by the port, and whose server by both ports and the other node.
abbrev pub IsFor : CspId → Conn → Type 0
IsFor id c =
    (c.state ≡ opened)
    × (c.idin.dport ≡ id.dport)
    × ((c.type ≡ client) ⊎ ((c.idin.sport ≡ id.sport) × (c.idin.src ≡ id.src)))

belongs_iff : (id : CspId) (c : Conn) → (belongs id c ≡ true) ↔ IsFor id c
belongs_iff id c = ground arith

abbrev pub IsClientOn : ℕ → Conn → Type 0
IsClientOn dport c = (c.idin.dport ≡ dport) × (c.state ≡ opened) × (c.type ≡ client)

client_iff :
    (dport : ℕ) (c : Conn)
    → ((c.idin.dport == dport && (is_open c && is_client c)) ≡ true) ↔ IsClientOn dport c
client_iff dport c = ground arith

-- A packet is for the first open connection whose ports and node fit its identifier, and for none
-- exactly if there is no such connection.
pub find_existing-IsFirst :
    (pool : List Conn) (id : CspId) → IsFirst (IsFor id) pool (find_existing pool id)
unfolding find_existing
find_existing-IsFirst pool id = first_index-IsFirst (IsFor id) (belongs id) (belongs_iff id) pool

-- The connection of an outgoing port is the first open client with that port, if there is one.
pub find_dport-IsFirst :
    (pool : List Conn) (dport : ℕ) → IsFirst (IsClientOn dport) pool (find_dport pool dport)
unfolding find_dport
find_dport-IsFirst pool dport = first_index-IsFirst (IsClientOn dport) _ (client_iff dport) pool
