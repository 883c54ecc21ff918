-- ===== src/Buffer/Start.antt =====
-- `csp_buffer_init` of src/csp_buffer.c.
use libcsp.Core.{ℕ, zero, suc, ◌+◌, ◌<◌, ◌≡◌, ◌≢◌, ◌∙◌, refl, ap, arith, inl}
use libcsp.Core.{==_iff, ==_ne, List, [], ◌∷◌, length, get_elem?}
use libcsp.Buffer.{Skbf, buffer_count, init_pool, init_free, buffer_init}
use libcsp.Buffer.Counts.{times, in_use}
use libcsp.Buffer.References.{Agrees, Counts}

length-init_free : (k : ℕ) (pool : List Skbf) → length (init_free k pool) ≡ length pool
unfolding init_free
length-init_free k [] = refl
length-init_free k (b ∷ pool) = ap suc (length-init_free (suc k) pool)

length-init_pool : (k : ℕ) (pool : List Skbf) → length (init_pool k pool) ≡ length pool
unfolding init_pool
length-init_pool k [] = refl
length-init_pool k (b ∷ pool) = ap suc (length-init_pool (suc k) pool)

times-init_free : (j k : ℕ) (pool : List Skbf) → j < k → times j (init_free k pool) ≡ 0
unfolding times init_free
times-init_free j k [] h = refl
times-init_free j k (b ∷ pool) h =
    rw (==_ne k j (differ k h)) (times-init_free j (suc k) pool (omega arith))
  where
    differ : (k : ℕ) → j < k → k ≢ j
    differ k h = λ e. omega arith

init-Agrees :
    (k : ℕ) (pool : List Skbf) (i j : ℕ)
    → k + i ≡ j
    → Agrees j (times j (init_free k pool)) (get_elem? (init_pool k pool) i) 0
unfolding times init_free init_pool
init-Agrees k [] i j e = (refl, refl)
init-Agrees k (b ∷ pool) zero j e =
    rw ((==_iff k j).1 (omega arith))
      (omega arith, inl (refl, ap suc (times-init_free j (suc k) pool (omega arith))))
init-Agrees k (b ∷ pool) (suc i) j e =
    rw (==_ne k j (λ e'. omega arith)) (init-Agrees (suc k) pool i j (omega arith))

-- The pool that is set up has no buffer in use, whatever its memory held.
pub buffer_init-Counts :
    (junk : List Skbf) → length junk ≡ buffer_count → Counts (buffer_init junk) (λ i. 0)
unfolding buffer_init in_use
buffer_init-Counts junk h = record {
  pool_size = length-init_pool 0 junk ∙ h;
  balance = omega (arith, length-init_free 0 junk);
  agrees = λ i. init-Agrees 0 junk i i (omega arith);
}
