-- ===== src/Buffer/Tests.antt =====
-- A pool on which the theorems about src/csp_buffer.c are run.
use mathlib.Core.Option.{some-injective}
use libcsp.Core.{
  ℕ, ◌≡◌, ◌++◌, ◌∙◌, refl, sym, subst, arith, inl, inr, List, [], ◌∷◌, Option, none, some,
  replicate,
}
use libcsp.Packet.{DbgErr}
use libcsp.Samples.{blank}
use libcsp.Buffer.{Skbf, Buffers, buffer_init, init_pool, init_free, get_actual}
use libcsp.Buffer.{hand_out, buffer_get_always, buffer_remaining}
use libcsp.Buffer.{buffer_free, release}
use libcsp.Buffer.Counts.{update}
use libcsp.Buffer.References.{Counts, Gets, get_actual-Gets}
use libcsp.Buffer.Release.{buffer_free-Counts}
use libcsp.Buffer.Start.{buffer_init-Counts}

abbrev junk : List Skbf
junk = replicate 15 (record { refcount = 77; skbf_addr = 99; skbf_data = blank })

abbrev no_refs : ℕ → ℕ
no_refs i = 0

buffer_init-Counts_example : Counts (buffer_init junk) (λ i. 0)
buffer_init-Counts_example = buffer_init-Counts junk refl

started : Counts (buffer_init junk) no_refs
started = buffer_init-Counts junk refl

get_run :
    let (o, s) = buffer_get_always (buffer_init junk) in (o ≡ some 0) × (buffer_remaining s ≡ 14)
unfolding buffer_get_always get_actual hand_out buffer_init init_pool init_free buffer_remaining
get_run = (refl, refl)

double_free_run :
    let (o, s) = buffer_get_always (buffer_init junk) in
    (buffer_free (buffer_free s o) o).errno ≡ some DbgErr.already_free
unfolding buffer_get_always get_actual hand_out buffer_init init_pool init_free buffer_free release
double_free_run = refl

get_actual-Gets_example : Gets 2 (buffer_init junk) no_refs (get_actual 2 (buffer_init junk))
get_actual-Gets_example = get_actual-Gets 2 (buffer_init junk) no_refs started

-- The pool when buffer 0 has been handed out.
abbrev one_out : Buffers
one_out = (get_actual 0 (buffer_init junk)).1

first_is_0 : (get_actual 0 (buffer_init junk)).0 ≡ some 0
unfolding get_actual hand_out buffer_init init_pool init_free
first_is_0 = refl

one_out-Counts : Counts one_out (update no_refs 0 1)
one_out-Counts = elim (get_actual-Gets 0 (buffer_init junk) no_refs started) [
  | inl (e, few, c) ↦ absurd (differ (sym e ∙ first_is_0))
  | inr (i, e, r, z, c) ↦
      subst (λ (k : ℕ). Counts one_out (update no_refs k 1))
        (some-injective i 0 (sym e ∙ first_is_0)) c
]
  where
    differ : ¬ (◌≡◌ {A = Option ℕ} none (some 0))
    differ e = cc

buffer_free-Counts_example :
    Counts (buffer_free one_out (some 0)) (update (update no_refs 0 1) 0 0)
    × ((update no_refs 0 1 0 ≡ 1) → (buffer_free one_out (some 0)).free ≡ one_out.free ++ (0 ∷ []))
buffer_free-Counts_example =
    buffer_free-Counts one_out (update no_refs 0 1) 0 one_out-Counts (omega arith)
