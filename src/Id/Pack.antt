-- ===== src/Id/Pack.antt =====
-- The packed header words as sums of disjoint fields, and their bytes.
use libcsp.Core.{ℕ, ◌+◌, ◌-◌, ◌*◌, ◌/◌, ◌%◌, ◌^◌, ◌<◌, ◌≡◌, ◌∙◌, arith, bit_and, bit_or}
use libcsp.Core.Masks.{bit_or-fields, bit_and-mask}
use libcsp.Core.Bits.{bit_or_right_comm}
use libcsp.Core.Words.{be32, le32, be64_six, of_be, of_le}
use libcsp.Packet.{CspId}
use libcsp.Id.{id1_pack, id2_pack, id1_parse, id2_parse}

-- Every field fits the bits that CSP 1.x and 2.x have for it.
pub record IsId1 (id : CspId) : Type 0 where
  pub pri : id.pri < 4
  pub flags : id.flags < 256
  pub src : id.src < 32
  pub dst : id.dst < 32
  pub dport : id.dport < 64
  pub sport : id.sport < 64

pub record IsId2 (id : CspId) : Type 0 where
  pub pri : id.pri < 4
  pub flags : id.flags < 64
  pub src : id.src < 16384
  pub dst : id.dst < 16384
  pub dport : id.dport < 64
  pub sport : id.sport < 64

-- Six adjacent fields, the second and third written in the other order.
or_fields :
    (p d s dp sp fl i j k l m : ℕ)
    → bit_or p s ≡ i
    → bit_or i d ≡ j
    → bit_or j dp ≡ k
    → bit_or k sp ≡ l
    → bit_or l fl ≡ m
    → bit_or (bit_or (bit_or (bit_or (bit_or p d) s) dp) sp) fl ≡ m
or_fields p d s dp sp fl i j k l m hi hj hk hl hm = rw (bit_or_right_comm p d s, hi, hj, hk, hl, hm)

pub id1_sum : CspId → ℕ
id1_sum id =
    id.pri * 2 ^ 30
    + id.src * 2 ^ 25
    + id.dst * 2 ^ 20
    + id.dport * 2 ^ 14
    + id.sport * 2 ^ 8
    + id.flags

-- The first word is given as a multiple of the bound on the second.
field : (k q a r : ℕ) → r < 2 ^ k → a ≡ q * 2 ^ k → bit_or a r ≡ a + r
field k q a r h e = rw e (bit_or-fields k q r h)

pub id1_pack-sum : (id : CspId) → IsId1 id → id1_pack id ≡ id1_sum id
unfolding id1_pack id1_sum
id1_pack-sum id v =
    or_fields p d s dp sp fl _ _ _ _ _ (field 30 id.pri p s (omega arith) (omega arith))
      (field 25 (id.pri * 32 + id.src) (p + s) d (omega arith) (omega arith))
      (field 20 ((id.pri * 32 + id.src) * 32 + id.dst) (p + s + d) dp (omega arith) (omega arith))
      (field 14 (((id.pri * 32 + id.src) * 32 + id.dst) * 64 + id.dport) (p + s + d + dp) sp
        (omega arith) (omega arith))
      (field 8 ((((id.pri * 32 + id.src) * 32 + id.dst) * 64 + id.dport) * 64 + id.sport)
        (p + s + d + dp + sp) fl (omega arith) (omega arith))
    ∙ omega arith
  where
    p : ℕ
    p = id.pri * 2 ^ 30 % 2 ^ 32

    d : ℕ
    d = id.dst * 2 ^ 20 % 2 ^ 32

    s : ℕ
    s = id.src * 2 ^ 25 % 2 ^ 32

    dp : ℕ
    dp = id.dport * 2 ^ 14 % 2 ^ 32

    sp : ℕ
    sp = id.sport * 2 ^ 8 % 2 ^ 32

    fl : ℕ
    fl = id.flags * 2 ^ 0 % 2 ^ 32

pub id2_sum : CspId → ℕ
id2_sum id =
    id.pri * 2 ^ 46
    + id.dst * 2 ^ 32
    + id.src * 2 ^ 18
    + id.dport * 2 ^ 12
    + id.sport * 2 ^ 6
    + id.flags

pub id2_pack-sum : (id : CspId) → IsId2 id → id2_pack id ≡ id2_sum id
unfolding id2_pack id2_sum
id2_pack-sum id v =
    rw
      (
        field 46 id.pri p d (omega arith) (omega arith),
        field 32 (id.pri * 16384 + id.dst) (p + d) s (omega arith) (omega arith),
        field 18 ((id.pri * 16384 + id.dst) * 16384 + id.src) (p + d + s) dp (omega arith)
            (omega arith),
        field 12 (((id.pri * 16384 + id.dst) * 16384 + id.src) * 64 + id.dport) (p + d + s + dp) sp
            (omega arith) (omega arith),
        field 6 ((((id.pri * 16384 + id.dst) * 16384 + id.src) * 64 + id.dport) * 64 + id.sport)
            (p + d + s + dp + sp) fl (omega arith) (omega arith),
      )
      (omega arith)
  where
    p : ℕ
    p = id.pri * 2 ^ 46 % 2 ^ 64

    d : ℕ
    d = id.dst * 2 ^ 32 % 2 ^ 64

    s : ℕ
    s = id.src * 2 ^ 18 % 2 ^ 64

    dp : ℕ
    dp = id.dport * 2 ^ 12

    sp : ℕ
    sp = id.sport * 2 ^ 6

    fl : ℕ
    fl = id.flags * 2 ^ 0

-- The parser reads back the fields of the sum.
pub id1_parse-sum : (id : CspId) → IsId1 id → id1_parse (id1_sum id) ≡ id
unfolding id1_parse id1_sum
id1_parse-sum id v =
    let n = id1_sum id in
    rw
      (
        mask 2 (n / 2 ^ 30),
        mask 8 (n / 2 ^ 0),
        mask 5 (n / 2 ^ 25),
        mask 5 (n / 2 ^ 20),
        mask 6 (n / 2 ^ 14),
        mask 6 (n / 2 ^ 8),
      )
      (ground arith)
  where
    mask : (k a : ℕ) → bit_and a (2 ^ k - 1) ≡ a % 2 ^ k
    mask = bit_and-mask

pub id2_parse-sum : (id : CspId) → IsId2 id → id2_parse (id2_sum id) ≡ id
unfolding id2_parse id2_sum
id2_parse-sum id v =
    let n = id2_sum id in
    rw
      (
        bit_and-mask 2 (n / 2 ^ 46),
        bit_and-mask 6 (n / 2 ^ 0),
        bit_and-mask 14 (n / 2 ^ 18),
        bit_and-mask 14 (n / 2 ^ 32),
        bit_and-mask 6 (n / 2 ^ 12),
        bit_and-mask 6 (n / 2 ^ 6),
      )
      (ground arith)

pub id1_sum-lt : (id : CspId) → IsId1 id → id1_sum id < 2 ^ 32
unfolding id1_sum
id1_sum-lt id v = omega arith

pub id2_sum-lt : (id : CspId) → IsId2 id → id2_sum id < 2 ^ 48
unfolding id2_sum
id2_sum-lt id v = omega arith

-- The bytes of a word, read back in their order.
pub of_be-be32 : (n : ℕ) → n < 2 ^ 32 → of_be 0 (be32 n) ≡ n
of_be-be32 n h = omega arith

pub of_le-le32 : (n : ℕ) → n < 2 ^ 32 → of_le (le32 n) ≡ n
of_le-le32 n h = omega arith

pub of_be-be64_six :
    (n : ℕ) → n < 2 ^ 48 → of_be 0 (be64_six (n * 2 ^ 16 % 2 ^ 64)) * 2 ^ 16 / 2 ^ 16 ≡ n
of_be-be64_six n h = omega arith
