-- ===== src/Sha1/Tests.antt =====
-- src/crypto/csp_sha1.c, run on the text of the standard's first example.
use libcsp.Core.{ℕ, ◌≡◌, refl, arith, List, [], ◌∷◌, replicate}
use libcsp.Sha1.{sha1_init, sha1_memory, sha1_done, process_loop, process_round, compress}
use libcsp.Sha1.Stream.{view, absorb_all}
use libcsp.Sha1.Digest.{finish, process_pieces, concat, sha1_done-process_pieces}

abbrev abc_digest : List ℕ
abc_digest =
    0xa9 ∷ 0x99 ∷ 0x3e ∷ 0x36 ∷ 0x47 ∷ 0x06 ∷ 0x81 ∷ 0x6a ∷ 0xba ∷ 0x3e ∷ 0x25 ∷ 0x71 ∷ 0x78 ∷ 0x50
    ∷ 0xc2 ∷ 0x6c ∷ 0x9c ∷ 0xd0 ∷ 0xd8 ∷ 0x9d ∷ []

sha1_abc : sha1_memory (replicate 64 0) (97 ∷ 98 ∷ 99 ∷ []) ≡ abc_digest
unfolding sha1_memory sha1_done process_loop process_round compress
sha1_abc = refl

abbrev in_pieces : List (List ℕ)
in_pieces = (97 ∷ []) ∷ (98 ∷ 99 ∷ []) ∷ []

sha1_done-process_pieces_example :
    sha1_done (process_pieces (sha1_init (replicate 64 7)) in_pieces)
    ≡ finish (absorb_all (view (sha1_init (replicate 64 7))) (concat in_pieces))
sha1_done-process_pieces_example =
    sha1_done-process_pieces (sha1_init (replicate 64 7)) in_pieces (omega arith, refl)
