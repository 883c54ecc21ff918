-- ===== src/Buffer/Release.antt =====
-- Giving back and sharing a reference to a buffer of src/csp_buffer.c.
use libcsp.Core.{ℕ, zero, suc, ◌+◌, ◌-◌, ◌^◌, ◌%◌, ◌<◌, ◌≡◌, ◌∙◌, ◌⊎◌, refl, ap, arith}
use libcsp.Core.{true, ==_self, ==_ne, ltb, inl, inr}
use libcsp.Core.{[], ◌∷◌, ◌++◌, Option, none, some, length, set, get_elem?, length-append}
use libcsp.Core.{length-set}
use libcsp.Packet.{DbgErr}
use libcsp.Buffer.{Skbf, Buffers, buffer_count, release, buffer_free, refc_inc}
use libcsp.Buffer.Counts.{times, times-snoc_self, times-snoc_ne, update, one_if}
use libcsp.Buffer.Counts.{in_use-update, in_use-pos}
use libcsp.Buffer.References.{Agrees, Counts, Agrees-change, get_elem?-some-lt}

-- A buffer with a reference exists, and counts its references outside the queue.
held :
    (i waiting : ℕ) (o : Option Skbf) (r : ℕ)
    → Agrees i waiting o r
    → 0 < r
    → (b : Skbf) × (o ≡ some b) × (b.skbf_addr ≡ i) × (waiting ≡ 0) × (b.refcount ≡ r)
held i waiting none r (w, z) p = absurd (omega arith)
held i waiting (some b) r (addr, inl (z, w)) p = absurd (omega arith)
held i waiting (some b) r (addr, inr (q, w, c)) p = (b, refl, addr, w, c)

module _ (s : Buffers) (i : ℕ) (b : Skbf) (at : get_elem? s.pool i ≡ some b)
    (addr : b.skbf_addr ≡ i) where
  free-more :
      1 < b.refcount
      → buffer_free s (some i) ≡ record s {
        pool = set s.pool i (record b { refcount = b.refcount - 1 });
        errno = some DbgErr.refcount;
      }
  unfolding buffer_free release
  free-more h = rw (buffer_free, at, addr, ==_self i, ==_ne b.refcount 0 (omega arith), left) refl
    where
      left : ltb 0 (b.refcount - 1) ≡ true
      left = ground arith

  free-last :
      b.refcount ≡ 1
      → length s.free < buffer_count
      → buffer_free s (some i)
        ≡ record s { pool = set s.pool i (record b { refcount = 0 }); free = s.free ++ (i ∷ []) }
  unfolding buffer_free release
  free-last h room =
      rw (buffer_free, at, addr, ==_self i, h, ==_ne (length s.free) buffer_count (omega arith))
        refl

  refc_inc-more :
      b.refcount < 2 ^ 32 - 1
      → refc_inc s (some i)
        ≡ record s { pool = set s.pool i (record b { refcount = b.refcount + 1 }) }
  unfolding refc_inc
  refc_inc-more h = rw (refc_inc, at, addr, ==_self i, word) refl
    where
      word : (b.refcount + 1) % 2 ^ 32 ≡ b.refcount + 1
      word = omega arith

positive : (k : ℕ) → 0 < k → one_if k ≡ 1
positive zero h = absurd (omega arith)
positive (suc k) h = refl

-- The queue stays, and the buffer has `v` references from now on.
Counts-kept :
    (s s' : Buffers) (refs : ℕ → ℕ) (i v : ℕ) (b b' : Skbf)
    → Counts s refs
    → get_elem? s.pool i ≡ some b
    → times i s.free ≡ 0
    → 0 < refs i
    → 0 < v
    → b'.skbf_addr ≡ i
    → b'.refcount ≡ v
    → s'.free ≡ s.free
    → s'.pool ≡ set s.pool i b'
    → Counts s' (update refs i v)
Counts-kept s s' refs i v b b' h at w p q addr c ef ep = record {
  pool_size = ap length ep ∙ length-set s.pool i b' ∙ h.pool_size;
  balance = omega (
    arith,
    in_use-update refs i v buffer_count (omega (arith, inside, h.pool_size)),
    positive (refs i) p,
    positive v q,
    h.balance,
    ap length ef,
  );
  agrees = λ j.
      rw (ef, ep)
        (Agrees-change s.pool s.free s.free refs i v b' inside h.agrees (λ k ne. refl)
          (addr, inr (q, w, c)) j);
}
  where
    inside : i < length s.pool
    inside = get_elem?-some-lt s.pool i b at

-- The last reference goes, and the buffer waits at the end of the queue.
Counts-released :
    (s : Buffers) (refs : ℕ → ℕ) (i : ℕ) (b b' : Skbf)
    → Counts s refs
    → get_elem? s.pool i ≡ some b
    → times i s.free ≡ 0
    → 0 < refs i
    → b'.skbf_addr ≡ i
    → Counts (record s { pool = set s.pool i b'; free = s.free ++ (i ∷ []) }) (update refs i 0)
Counts-released s refs i b b' h at w p addr = record {
  pool_size = length-set s.pool i b' ∙ h.pool_size;
  balance = omega (
    arith,
    in_use-update refs i 0 buffer_count (omega (arith, inside, h.pool_size)),
    positive (refs i) p,
    h.balance,
    length-append s.free (i ∷ []),
  );
  agrees =
      Agrees-change s.pool s.free (s.free ++ (i ∷ [])) refs i 0 b' inside h.agrees
        (λ j ne. times-snoc_ne j i s.free ne)
        (addr, inl (refl, omega (arith, times-snoc_self i s.free, w)));
}
  where
    inside : i < length s.pool
    inside = get_elem?-some-lt s.pool i b at

one_cases : (k : ℕ) → 0 < k → (k ≡ 1) ⊎ (1 < k)
one_cases zero h = absurd (omega arith)
one_cases (suc zero) h = inl refl
one_cases (suc (suc k)) h = inr (omega arith)

-- Giving back a reference that is held leaves one less; the last one puts the buffer at the end of
-- the queue, which has room for it.
pub buffer_free-Counts :
    (s : Buffers) (refs : ℕ → ℕ) (i : ℕ)
    → Counts s refs
    → 0 < refs i
    → Counts (buffer_free s (some i)) (update refs i (refs i - 1))
      × ((refs i ≡ 1) → (buffer_free s (some i)).free ≡ s.free ++ (i ∷ []))
buffer_free-Counts s refs i h p =
    let (b, at, addr, w, c) =
      held i (times i s.free) (get_elem? s.pool i) (refs i) (h.agrees i) p in
    elim (one_cases (refs i) p) [
      | inl last ↦
          rw (free-last s i b at addr (c ∙ last) (room b at), last)
            (Counts-released s refs i b _ h at w p addr, λ e. refl)
      | inr several ↦ rw (free-more s i b at addr (omega arith)) (
        Counts-kept s _ refs i (refs i - 1) b _ h at w p (omega arith) addr
            (ap (λ (k : ℕ). k - 1) c) refl refl,
        λ e. absurd (omega arith),
      )
    ]
  where
    room : (b : Skbf) → get_elem? s.pool i ≡ some b → length s.free < buffer_count
    room b at =
        let inside : i < length s.pool = get_elem?-some-lt s.pool i b at in
        omega
          (arith, in_use-pos refs i buffer_count (omega (arith, inside, h.pool_size)) p, h.balance)

-- Sharing a reference that is held adds one, if the counter has room for it.
pub refc_inc-Counts :
    (s : Buffers) (refs : ℕ → ℕ) (i : ℕ)
    → Counts s refs
    → 0 < refs i
    → refs i < 2 ^ 32 - 1
    → Counts (refc_inc s (some i)) (update refs i (refs i + 1))
refc_inc-Counts s refs i h p small =
    let (b, at, addr, w, c) =
      held i (times i s.free) (get_elem? s.pool i) (refs i) (h.agrees i) p in
    rw (refc_inc-more s i b at addr (omega (arith, c))) (
      Counts-kept s _ refs i (refs i + 1) b _ h at w p (omega arith) addr (ap (λ (k : ℕ). k + 1) c)
        refl refl)
