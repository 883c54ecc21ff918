-- ===== src/Rdp/Tests.antt =====
-- Numbers near the wrap-around on which the theorems about src/csp_rdp.c are run.
use libcsp.Core.{◌≡◌, ◌≤◌, ◌↔◌, refl, arith, true, false}
use libcsp.Rdp.{seq_between, seq_before}
use libcsp.Rdp.Order.{seq_between_iff}

seq_run :
    (seq_between 2 65530 5 ≡ true)
    × (seq_between 6 65530 5 ≡ false)
    × (seq_before 65530 3 ≡ true)
    × (seq_before 3 65530 ≡ false)
unfolding seq_between seq_before
seq_run = (refl, refl, refl, refl)

seq_between_example : (seq_between 2 65530 5 ≡ true) ↔ (8 ≤ 11)
seq_between_example = seq_between_iff 65530 8 11 (omega arith) (omega arith) (omega arith)
