-- ===== src/Crc/Tests.antt =====
-- Bytes on which the theorems about src/csp_crc32.c are run.
use libcsp.Core.{ℕ, ◌≡◌, refl, arith, List, [], ◌∷◌, ◌++◌, replicate, bit_xor}
use libcsp.Core.Memory.{slice}
use libcsp.Packet.{Packet, Err, data_begin}
use libcsp.Crc.{crc32_memory, crc32_append, crc32_verify}
use libcsp.Crc.Table.{crc_tab}
use libcsp.Crc.Bitwise.{update_bits, crc32_memory-eq-update_bits}
use libcsp.Crc.Check.{crc32_verify-crc32_append}

abbrev digits_text : List ℕ
digits_text = b'1' ∷ b'2' ∷ b'3' ∷ b'4' ∷ b'5' ∷ b'6' ∷ b'7' ∷ b'8' ∷ b'9' ∷ []

-- The check value of CRC-32C.
crc32_check_value : crc32_memory digits_text ≡ 0xe306_9283
unfolding crc32_memory crc_tab
crc32_check_value = refl

crc32_memory_example :
    crc32_memory digits_text ≡ bit_xor (update_bits 0xffff_ffff digits_text) 0xffff_ffff
crc32_memory_example = crc32_memory-eq-update_bits digits_text (omega arith)

abbrev hello : Packet
hello = record {
  timestamp_tx = 0;
  conn = 0;
  frame_begin = 0;
  frame_length = 0;
  length = 2;
  id = record { pri = 2; flags = 1; src = 10; dst = 27; dport = 1; sport = 33 };
  mem = replicate 8 0 ++ (b'h' ∷ b'i' ∷ replicate 254 0);
}

crc32_verify-crc32_append_example :
    let (e, sent) = crc32_append hello in
    let (e', got) = crc32_verify 2 sent in
    (e ≡ Err.none)
    × (e' ≡ Err.none)
    × (got.length ≡ 2)
    × (slice got.mem data_begin 2 ≡ b'h' ∷ b'i' ∷ [])
crc32_verify-crc32_append_example = crc32_verify-crc32_append 2 hello refl (omega arith)
