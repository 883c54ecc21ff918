-- ===== src/Hmac/Tests.antt =====
-- src/crypto/csp_hmac.c, run on the first test of RFC 2202.
use libcsp.Core.{ℕ, ◌≡◌, refl, arith, List, [], ◌∷◌, ◌++◌, some, replicate}
use libcsp.Sha1.{sha1_memory, sha1_done, process_loop, process_round, compress}
use libcsp.Hmac.{block_key, hmac_init, hmac_done, hmac_memory, unset}
use libcsp.Hmac.Check.{inner_pad, outer_pad, hmac_memory-nested}

abbrev rfc_key : List ℕ
rfc_key = replicate 20 0x0b

abbrev hi_there : List ℕ
hi_there = b'H' ∷ b'i' ∷ b' ' ∷ b'T' ∷ b'h' ∷ b'e' ∷ b'r' ∷ b'e' ∷ []

abbrev rfc_digest : List ℕ
rfc_digest =
    0xb6 ∷ 0x17 ∷ 0x31 ∷ 0x86 ∷ 0x55 ∷ 0x05 ∷ 0x72 ∷ 0x64 ∷ 0xe2 ∷ 0x8b ∷ 0xc0 ∷ 0xb6 ∷ 0xfb ∷ 0x37
    ∷ 0x8c ∷ 0x8e ∷ 0xf1 ∷ 0x46 ∷ 0xbe ∷ 0x00 ∷ []

hmac_hi_there : hmac_memory rfc_key hi_there ≡ some rfc_digest
unfolding hmac_memory hmac_init hmac_done block_key unset sha1_memory sha1_done process_loop
    process_round compress
hmac_hi_there = refl

hmac_memory-nested_example :
    hmac_memory rfc_key hi_there
    ≡ some
        (sha1_memory unset (outer_pad rfc_key ++ sha1_memory unset (inner_pad rfc_key ++ hi_there)))
hmac_memory-nested_example = hmac_memory-nested rfc_key hi_there (omega arith)
