-- ===== src/Crc/Bitwise.antt =====
-- The table-driven loop of src/csp_crc32.c beside the register of CRC-32C.
use libcsp.Core.{ℕ, zero, suc, ◌+◌, ◌*◌, ◌/◌, ◌%◌, ◌^◌, ◌<◌, ◌≡◌, ◌∙◌, refl, sym, ap, ap₂, arith}
use libcsp.Core.{
  Bool, true, ◌&&◌, List, [], ◌∷◌, get_or, length, All, bit_and, bit_xor, ◌==◌, ==_iff,
}
use native.Mathlib.Nat.{zero-add}
use libcsp.Core.Bits.{half-bit_xor, odd-bit_xor, bit_xor_assoc, bit_xor_comm, bit_xor-zero}
use libcsp.Core.Masks.{bit_and-mask, bit_xor-fields, div-bit_xor}
use libcsp.Crc.Table.{crc_tab}
use libcsp.Crc.{crc32_byte, update_loop, crc32_memory}

-- One bit through the reflected polynomial 0x1EDC6F41 of CRC-32C.
abbrev poly : ℕ
poly = 0x82f6_3b78

shift_bit : ℕ → ℕ
shift_bit x = bit_xor (x / 2) (x % 2 * poly)

-- Eight bits.
unfoldable pub shift_byte : ℕ → ℕ
unfolding shift_bit
shift_byte x =
    shift_bit (shift_bit (shift_bit (shift_bit (shift_bit (shift_bit (shift_bit (shift_bit x)))))))

-- The words of a table from number `i` on are what `shift_byte` gives.
is_table : ℕ → List ℕ → Bool
is_table i [] = true
is_table i (w ∷ ws) = (w == shift_byte i) && is_table (suc i) ws

get_or-is_table :
    (ws : List ℕ) (i x : ℕ)
    → is_table i ws ≡ true
    → x < length ws
    → get_or ws x 0 ≡ shift_byte (i + x)
unfolding is_table
get_or-is_table [] i x h lt = absurd (omega arith)
get_or-is_table (w ∷ ws) i zero h lt =
    (==_iff _ _).0 (ground (arith, h)) ∙ ap (λ (k : ℕ). shift_byte k) (shift i)
  where
    shift : (i : ℕ) → i ≡ i + 0
    shift i = omega arith
get_or-is_table (w ∷ ws) i (suc x) h lt =
    get_or-is_table ws (suc i) x (ground (arith, h)) (omega arith)
    ∙ ap (λ (k : ℕ). shift_byte k) (shift i x)
  where
    shift : (i x : ℕ) → suc i + x ≡ i + suc x
    shift i x = omega arith

crc_tab-is_table : is_table 0 crc_tab ≡ true
unfolding is_table crc_tab shift_byte
crc_tab-is_table = refl

tab-shift_byte : (x : ℕ) → x < 256 → get_or crc_tab x 0 ≡ shift_byte x
unfolding crc_tab
tab-shift_byte x h =
    get_or-is_table _ 0 x crc_tab-is_table h ∙ ap (λ (k : ℕ). shift_byte k) (zero-add x)

poly_linear : (a b : ℕ) → a < 2 → b < 2 → (a + b) % 2 * poly ≡ bit_xor (a * poly) (b * poly)
poly_linear zero zero ha hb = refl
poly_linear zero (suc zero) ha hb = refl
poly_linear zero (suc (suc b)) ha hb = absurd (omega arith)
poly_linear (suc zero) zero ha hb = refl
poly_linear (suc zero) (suc zero) ha hb = refl
poly_linear (suc zero) (suc (suc b)) ha hb = absurd (omega arith)
poly_linear (suc (suc a)) b ha hb = absurd (omega arith)

xor_exchange :
    (a b c d : ℕ) → bit_xor (bit_xor a b) (bit_xor c d) ≡ bit_xor (bit_xor a c) (bit_xor b d)
xor_exchange a b c d =
    bit_xor_assoc a b (bit_xor c d)
    ∙ ap (λ (t : ℕ). bit_xor a t)
        (sym (bit_xor_assoc b c d)
          ∙ ap (λ (t : ℕ). bit_xor t d) (bit_xor_comm b c)
          ∙ bit_xor_assoc c b d)
    ∙ sym (bit_xor_assoc a c (bit_xor b d))

shift_bit-bit_xor : (a b : ℕ) → shift_bit (bit_xor a b) ≡ bit_xor (shift_bit a) (shift_bit b)
unfolding shift_bit
shift_bit-bit_xor a b =
    ap₂ (λ (s t : ℕ). bit_xor s t) (half-bit_xor a b)
      (ap (λ (t : ℕ). t * poly) (odd-bit_xor a b ∙ omega arith)
        ∙ poly_linear (a % 2) (b % 2) (omega arith) (omega arith))
    ∙ xor_exchange (a / 2) (b / 2) (a % 2 * poly) (b % 2 * poly)

shift_byte-bit_xor : (a b : ℕ) → shift_byte (bit_xor a b) ≡ bit_xor (shift_byte a) (shift_byte b)
unfolding shift_byte
shift_byte-bit_xor a b = simp shift_bit-bit_xor

shift_bit-even : (y : ℕ) → shift_bit (y * 2) ≡ y
unfolding shift_bit
shift_bit-even y = ap₂ (λ (s t : ℕ). bit_xor s (t * poly)) half even ∙ bit_xor-zero y
  where
    half : y * 2 / 2 ≡ y
    half = omega arith

    even : y * 2 % 2 ≡ 0
    even = omega arith

-- The bits above the lowest byte only move down.
shift_byte-high : (y : ℕ) → shift_byte (y * 2 ^ 8) ≡ y
unfolding shift_byte
shift_byte-high y = rw factors (simp shift_bit-even)
  where
    factors : y * 2 ^ 8 ≡ y * 2 * 2 * 2 * 2 * 2 * 2 * 2 * 2
    factors = omega arith

crc32_byte-eq-shift_byte :
    (crc byte : ℕ) → byte < 256 → crc32_byte crc byte ≡ shift_byte (bit_xor crc byte)
crc32_byte-eq-shift_byte crc byte h =
    ap₂ (λ (s t : ℕ). bit_xor s t) low high
    ∙ bit_xor_comm (shift_byte (x % 2 ^ 8)) (x / 2 ^ 8)
    ∙ ap (λ (t : ℕ). bit_xor t (shift_byte (x % 2 ^ 8))) (sym (shift_byte-high (x / 2 ^ 8)))
    ∙ sym (shift_byte-bit_xor (x / 2 ^ 8 * 2 ^ 8) (x % 2 ^ 8))
    ∙ ap shift_byte (bit_xor-fields 8 (x / 2 ^ 8) (x % 2 ^ 8) (omega arith) ∙ whole)
  where
    x : ℕ
    x = bit_xor crc byte

    whole : x / 2 ^ 8 * 2 ^ 8 + x % 2 ^ 8 ≡ x
    whole = omega arith

    low : get_or crc_tab (bit_and x 0xff) 0 ≡ shift_byte (x % 2 ^ 8)
    low =
        ap (λ (t : ℕ). get_or crc_tab t 0) (bit_and-mask 8 x)
        ∙ tab-shift_byte (x % 2 ^ 8) (omega arith)

    no_byte : byte / 2 ^ 8 ≡ 0
    no_byte = omega arith

    high : crc / 2 ^ 8 ≡ x / 2 ^ 8
    high = sym (
        div-bit_xor 8 crc byte
        ∙ ap (λ (t : ℕ). bit_xor (crc / 2 ^ 8) t) no_byte
        ∙ bit_xor-zero (crc / 2 ^ 8))

-- CRC-32C of a sequence of bytes, one bit at a time, with no table.
unfoldable pub update_bits : ℕ → List ℕ → ℕ
update_bits crc [] = crc
update_bits crc (b ∷ data8) = update_bits (shift_byte (bit_xor crc b)) data8

update_loop-eq-update_bits :
    (crc : ℕ) (data8 : List ℕ)
    → All (λ b. b < 256) data8
    → update_loop crc data8 ≡ update_bits crc data8
unfolding update_loop update_bits
update_loop-eq-update_bits crc [] h = refl
update_loop-eq-update_bits crc (b ∷ data8) h =
    ap (λ (c : ℕ). update_loop c data8) (crc32_byte-eq-shift_byte crc b h.0)
    ∙ update_loop-eq-update_bits (shift_byte (bit_xor crc b)) data8 h.1

-- The table-driven checksum of any bytes is the CRC-32C that the bit-serial register of the
-- polynomial computes: all ones to begin with, each byte through eight shifts, all bits flipped.
pub crc32_memory-eq-update_bits :
    (data8 : List ℕ)
    → All (λ b. b < 256) data8
    → crc32_memory data8 ≡ bit_xor (update_bits 0xffff_ffff data8) 0xffff_ffff
unfolding crc32_memory
crc32_memory-eq-update_bits data8 h =
    ap (λ (c : ℕ). bit_xor c 0xffff_ffff) (update_loop-eq-update_bits 0xffff_ffff data8 h)
