-- ===== src/Id/RoundTrip.antt =====
-- The header of src/csp_id.c, put in front of a packet and taken off.
use libcsp.Core.{ℕ, ◌+◌, ◌*◌, ◌%◌, ◌^◌, ◌≤◌, ◌<◌, ◌≡◌, refl, arith, inl, inr}
use libcsp.Core.{Bool, true, false, List, some, drop, ◌==◌, Bool-cases}
use libcsp.Core.{if◌then◌else◌}
use libcsp.Core.Memory.{slice, slice-write_at_self, drop-write_at}
use libcsp.Core.Words.{be32, le32, be64_six}
use libcsp.Packet.{CspId, Packet, IsSized, data_begin}
use libcsp.Id.{id1_prepend, id2_prepend, id1_strip, id2_strip}
use libcsp.Id.{id1_pack, id2_pack, prepend, strip}
use libcsp.Id.Pack.{
  IsId1, IsId2, id1_sum, id2_sum, id1_pack-sum, id2_pack-sum, id1_parse-sum, id2_parse-sum,
  id1_sum-lt, id2_sum-lt, of_be-be32, of_le-le32, of_be-be64_six,
}

-- Every field of the identifier fits the header of the version.
pub record IsId (version : ℕ) (id : CspId) : Type 0 where
  pub pri : id.pri < 4
  pub flags : id.flags < (if version == 2 then 64 else 256)
  pub src : id.src < (if version == 2 then 16384 else 32)
  pub dst : id.dst < (if version == 2 then 16384 else 32)
  pub dport : id.dport < 64
  pub sport : id.sport < 64

-- The header bytes in front of the frame.
unfoldable pub id1_bytes : Bool → CspId → List ℕ
id1_bytes fixup id = if fixup then le32 (id1_pack id) else be32 (id1_pack id)

unfoldable pub id2_bytes : CspId → List ℕ
id2_bytes id = be64_six (id2_pack id * 2 ^ 16 % 2 ^ 64)

pub id1_strip-bytes :
    (q : Packet) (id : CspId) (n : ℕ) (fixup : Bool)
    → IsId1 id
    → q.frame_length ≡ n + 4
    → slice q.mem q.frame_begin 4 ≡ id1_bytes fixup id
    → id1_strip q fixup ≡ some (record q { length = n; id = id })
unfolding id1_strip id1_bytes
id1_strip-bytes q id n true v e h =
    rw (h, id1_pack-sum id v, of_le-le32 (id1_sum id) (id1_sum-lt id v), id1_parse-sum id v)
      (ground arith)
id1_strip-bytes q id n false v e h =
    rw (h, id1_pack-sum id v, of_be-be32 (id1_sum id) (id1_sum-lt id v), id1_parse-sum id v)
      (ground arith)

pub id2_strip-bytes :
    (q : Packet) (id : CspId) (n : ℕ)
    → IsId2 id
    → q.frame_length ≡ n + 6
    → slice q.mem q.frame_begin 6 ≡ id2_bytes id
    → id2_strip q ≡ some (record q { length = n; id = id })
unfolding id2_strip id2_bytes
id2_strip-bytes q id n v e h =
    rw (h, id2_pack-sum id v, of_be-be64_six (id2_sum id) (id2_sum-lt id v), id2_parse-sum id v)
      (ground arith)

id1_strip-prepend :
    (p : Packet) (fixup : Bool)
    → IsSized p
    → IsId1 p.id
    → p.length < 65530
    → id1_strip (id1_prepend p fixup) fixup ≡ some (id1_prepend p fixup)
unfolding id1_prepend
id1_strip-prepend p true z v h =
    id1_strip-bytes (id1_prepend p true) p.id p.length true v (omega arith)
      (unfold id1_bytes in slice-write_at_self p.mem 4 (le32 (id1_pack p.id)) (omega arith))
id1_strip-prepend p false z v h =
    id1_strip-bytes (id1_prepend p false) p.id p.length false v (omega arith)
      (unfold id1_bytes in slice-write_at_self p.mem 4 (be32 (id1_pack p.id)) (omega arith))

id2_strip-prepend :
    (p : Packet)
    → IsSized p
    → IsId2 p.id
    → p.length < 65530
    → id2_strip (id2_prepend p) ≡ some (id2_prepend p)
unfolding id2_prepend
id2_strip-prepend p z v h = id2_strip-bytes (id2_prepend p) p.id p.length v (omega arith) (
    unfold id2_bytes in
    slice-write_at_self p.mem 2 (be64_six (id2_pack p.id * 2 ^ 16 % 2 ^ 64)) (omega arith))

pub IsId-IsId2 : {version : ℕ} {id : CspId} → (version == 2) ≡ true → IsId version id → IsId2 id
IsId-IsId2 e v = ground arith

pub IsId-IsId1 : {version : ℕ} {id : CspId} → (version == 2) ≡ false → IsId version id → IsId1 id
IsId-IsId1 e v = ground arith

-- In either version, stripping the header that was put in front of a packet finds the identifier
-- and the length of that packet, if the identifier fits the header and the length leaves room.
pub strip-prepend :
    (version : ℕ) (p : Packet)
    → IsSized p
    → IsId version p.id
    → p.length < 65530
    → strip version (prepend version p) ≡ some (prepend version p)
      × ((prepend version p).id ≡ p.id)
      × ((prepend version p).length ≡ p.length)
      × (drop data_begin (prepend version p).mem ≡ drop data_begin p.mem)
unfolding strip prepend
strip-prepend version p z v h = elim (Bool-cases (version == 2)) [
  | inl e ↦ rw e (
    id2_strip-prepend p z (IsId-IsId2 e v) h,
    refl,
    refl,
    drop-write_at p.mem 2 (be64_six (id2_pack p.id * 2 ^ 16 % 2 ^ 64)) 8 (omega arith),
  )
  | inr e ↦ rw e (
    id1_strip-prepend p false z (IsId-IsId1 e v) h,
    refl,
    refl,
    drop-write_at p.mem 4 (be32 (id1_pack p.id)) 8 (omega arith),
  )
]

-- Without any condition, a header leaves the data alone, also from a later byte on.
pub drop-prepend :
    (version : ℕ) (p : Packet) (j : ℕ)
    → data_begin ≤ j
    → drop j (prepend version p).mem ≡ drop j p.mem
unfolding prepend
drop-prepend version p j h = elim (Bool-cases (version == 2)) [
  | inl e ↦
      rw e (drop-write_at p.mem 2 (be64_six (id2_pack p.id * 2 ^ 16 % 2 ^ 64)) j (omega arith))
  | inr e ↦ rw e (drop-write_at p.mem 4 (be32 (id1_pack p.id)) j (omega arith))
]

pub length-prepend : (version : ℕ) (p : Packet) → (prepend version p).length ≡ p.length
unfolding prepend
length-prepend version p = ground arith

pub id-prepend : (version : ℕ) (p : Packet) → (prepend version p).id ≡ p.id
unfolding prepend
id-prepend version p = ground arith
