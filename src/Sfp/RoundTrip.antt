-- ===== src/Sfp/RoundTrip.antt =====
-- A whole transfer by `csp_sfp_send_own_memcpy` and `csp_sfp_recv_fp` of src/csp_sfp.c.
use libcsp.Core.{ℕ, zero, suc, ◌+◌, ◌-◌, ◌^◌, ◌≤◌, ◌<◌, ◌≡◌, ◌∙◌, refl, sym, ap, subst, min, arith}
use libcsp.Core.{true, false, ltb, ==_ne, inl, inr, Bool-cases}
use libcsp.Core.{List, [], ◌∷◌, Option, none, some, length}
use libcsp.Core.Int.{pos, int_of, int_of-pos}
use libcsp.Core.Memory.{write_at, slice, length-write_at}
use libcsp.Packet.{Packet, CspId, Err, IsSized, buffer_size}
use libcsp.Sfp.{Round, Receiving, send_loop, send_own_memcpy, fragment, recv_loop, recv_fp}
use libcsp.Sfp.{header_size, header_remove, take_in}
use libcsp.Sfp.Fragment.{flagged}
use libcsp.Sfp.Transfer.{length-slice, slice-grow, receiving, IsReady, recv-done, recv-more}
use libcsp.Sfp.Transfer.{send-end, send-round, chunk_size, whole, header_remove-fragment}

module _ (env : ℕ → Round) (ready : IsReady env) (bytes : List ℕ) (total mtu : ℕ)
    (len : length bytes ≡ total) (lt : total < 2 ^ 32) (positive : 0 < mtu) (small : mtu ≤ 248)
    (malloc : ℕ → Option (List ℕ)) where
  abbrev put_first : Packet → Err × CspId × List Packet → Err × CspId × List Packet
  put_first p (e, id, packets) = (e, id, p ∷ packets)

  -- The sender has met no error, and the receiver ends with the bytes.
  abbrev Delivers : Receiving → Err × CspId × List Packet → Type 0
  Delivers s out =
      (out.0 ≡ Err.none) × (recv_loop malloc s out.2 ≡ (Err.none, some bytes, int_of total))

  module _ (c : ℕ) (m : List ℕ) (size_m : length m ≡ total) (same : slice m 0 c ≡ slice bytes 0 c)
      (before : c < total) where
    abbrev size : ℕ
    size = chunk_size env ready bytes total mtu c

    chunk_len : length (slice bytes c size) ≡ size
    chunk_len = length-slice bytes c size (omega arith)

    abbrev grown : List ℕ
    grown = write_at m c (slice bytes c size)

    grown_same : slice grown 0 (c + size) ≡ slice bytes 0 (c + size)
    grown_same = slice-grow m bytes c size same chunk_len (omega arith)

    grown_len : length grown ≡ total
    grown_len = length-write_at m c (slice bytes c size) ∙ size_m

    size_le : size ≤ 248
    size_le = omega arith

    before_le : c ≤ total
    before_le = omega arith

    abbrev buffer : ℕ → Packet
    buffer r = (ready r).1

    sized : (r : ℕ) → IsSized (buffer r)
    sized r = (ready r).3

    abbrev frame : ℕ → CspId → Packet
    frame r id = fragment (flagged id) bytes total c size (buffer r)

    sent :
        (n r : ℕ) (id : CspId)
        → send_loop (suc n) env r id bytes total mtu c
          ≡ put_first (frame r id) (send_loop n env (suc r) (flagged id) bytes total mtu (c + size))
    sent n r id = send-round env ready bytes total mtu n r id c before

    last_round :
        (n r : ℕ) (id : CspId)
        → c + size ≡ total
        → Delivers (receiving m total c) (send_loop (suc n) env r id bytes total mtu c)
    last_round n r id e =
        subst (Delivers (receiving m total c))
          (sym (sent n r id ∙ ap (put_first (frame r id)) ended))
          (
            refl,
            recv-done id bytes total c size (buffer r) size_le chunk_len (sized r) before_le lt
                  malloc m [] e
                ∙ ap (λ t. (Err.none, some t, int_of total)) complete,
          )
      where
        ended :
            send_loop n env (suc r) (flagged id) bytes total mtu (c + size)
            ≡ (Err.none, flagged id, [])
        ended = send-end env ready bytes total mtu n (suc r) (flagged id) (c + size) (omega arith)

        complete : grown ≡ bytes
        complete =
            whole grown bytes total grown_len len
              (subst (λ (k : ℕ). slice grown 0 k ≡ slice bytes 0 k) e grown_same)

    inner_round :
        (n r : ℕ) (id : CspId)
        → c + size < total
        → Delivers
            (receiving grown total (c + size))
            (send_loop n env (suc r) (flagged id) bytes total mtu (c + size))
        → Delivers (receiving m total c) (send_loop (suc n) env r id bytes total mtu c)
    inner_round n r id e rest = subst (Delivers (receiving m total c)) (sym (sent n r id)) (
      rest.0,
      recv-more id bytes total c size (buffer r) size_le chunk_len (sized r) before_le lt malloc m _
            e (omega arith)
          ∙ rest.1,
    )

  send_loop-Delivers :
      (n r : ℕ) (id : CspId) (c : ℕ) (m : List ℕ)
      → length m ≡ total
      → slice m 0 c ≡ slice bytes 0 c
      → c < total
      → total - c ≤ n
      → Delivers (receiving m total c) (send_loop n env r id bytes total mtu c)
  send_loop-Delivers zero r id c m e same h fuel = absurd (omega arith)
  send_loop-Delivers (suc n) r id c m e same h fuel =
      let size = chunk_size env ready bytes total mtu c in
      elim (Bool-cases (ltb (c + size) total)) [
        | inr last ↦ last_round c m e same h n r id (at_end last)
        | inl inner ↦ inner_round c m e same h n r id (inside inner) (
            send_loop-Delivers n (suc r) (flagged id) (c + size) (write_at m c (slice bytes c size))
              (grown_len c m e same h) (grown_same c m e same h) (inside inner) (omega arith))
      ]
    where
      at_end : ltb (c + min (total - c) mtu) total ≡ false → c + min (total - c) mtu ≡ total
      at_end e = ground arith

      inside : ltb (c + min (total - c) mtu) total ≡ true → c + min (total - c) mtu < total
      inside e = ground arith

-- The first packet gets the memory that `malloc` returns.
recv_loop-first :
    (malloc : ℕ → Option (List ℕ)) (total : ℕ) (m : List ℕ) (p : Packet) (ps : List Packet)
    → malloc total ≡ some m
    → (q : Packet) → header_remove p ≡ some (0, total, q)
    → recv_loop malloc (record { out = none; datasize = 0; data_offset = 0 }) (p ∷ ps)
      ≡ recv_loop malloc (receiving m total 0) (p ∷ ps)
unfolding recv_loop take_in
recv_loop-first malloc total m p ps e q h = rw (recv_loop, h, e) refl

module _ (env : ℕ → Round) (ready : IsReady env) (bytes : List ℕ) (mtu : ℕ)
    (lt : length bytes < 2 ^ 32) (some_bytes : 0 < length bytes) (positive : 0 < mtu)
    (small : mtu ≤ 248) (malloc : ℕ → Option (List ℕ)) (m : List ℕ)
    (e : malloc (length bytes) ≡ some m) where
  abbrev start : Receiving
  start = record { out = none; datasize = 0; data_offset = 0 }

  recv_loop-sent :
      (n : ℕ) (id : CspId)
      → 0 < n
      → recv_loop malloc start (send_loop n env 0 id bytes (length bytes) mtu 0).2
        ≡ recv_loop malloc
            (receiving m (length bytes) 0)
            (send_loop n env 0 id bytes (length bytes) mtu 0).2
  recv_loop-sent zero id h = absurd (omega arith)
  recv_loop-sent (suc n) id h =
      let size = min (length bytes - 0) mtu in
      subst
        (λ (t : Err × CspId × List Packet).
          recv_loop malloc start t.2 ≡ recv_loop malloc (receiving m (length bytes) 0) t.2)
        (sym (send-round env ready bytes (length bytes) mtu n 0 id 0 some_bytes))
        (recv_loop-first malloc (length bytes) m _ _ e _ (
          header_remove-fragment id bytes (length bytes) 0 size (ready 0).1 (omega arith)
            (length-slice bytes 0 size (omega arith)) (ready 0).3 (omega arith) lt))

sent_all :
    (env : ℕ → Round) (id : CspId) (bytes : List ℕ) (mtu : ℕ)
    → 0 < mtu
    → mtu + header_size ≤ buffer_size
    → send_own_memcpy env id bytes (length bytes) mtu
      ≡ send_loop (length bytes) env 0 id bytes (length bytes) mtu 0
unfolding send_own_memcpy
sent_all env id bytes mtu positive room = rw (send_own_memcpy, ==_ne mtu 0 (omega arith), fits) refl
  where
    fits : ltb buffer_size (mtu + header_size) ≡ false
    fits = ground arith

-- Bytes that are sent in fragments arrive, if there are some and fewer than 2^31: with an active
-- connection, a buffer in every round, an MTU that is not 0 and leaves room for the header, and
-- memory of their size at the receiver, sending reports no error, and receiving the packets in
-- order returns exactly these bytes and their number.
pub recv_fp-send_own_memcpy :
    (env : ℕ → Round) (id : CspId) (bytes m : List ℕ) (mtu : ℕ) (malloc : ℕ → Option (List ℕ))
    → IsReady env
    → 0 < length bytes
    → length bytes < 2 ^ 31
    → 0 < mtu
    → mtu + header_size ≤ buffer_size
    → malloc (length bytes) ≡ some m
    → length m ≡ length bytes
    → let (e, id', packets) = send_own_memcpy env id bytes (length bytes) mtu in
      (e ≡ Err.none) × (recv_fp malloc none packets ≡ (Err.none, some bytes, pos (length bytes)))
unfolding recv_fp
recv_fp-send_own_memcpy env id bytes m mtu malloc ready some_bytes lt positive room e size =
    let sent = send_loop (length bytes) env 0 id bytes (length bytes) mtu 0 in
    let delivered =
      send_loop-Delivers env ready bytes (length bytes) mtu refl lt32 positive (omega arith) malloc
        (length bytes) 0 id 0 m size refl some_bytes (omega arith) in
    subst
      (λ (t : Err × CspId × List Packet).
        (t.0 ≡ Err.none) × (recv_fp malloc none t.2 ≡ (Err.none, some bytes, pos (length bytes))))
      (sym (sent_all env id bytes mtu positive room))
      (
        delivered.0,
        recv_loop-sent env ready bytes mtu lt32 some_bytes positive (omega arith) malloc m e
              (length bytes) id some_bytes
            ∙ delivered.1
            ∙ ap (λ k. (Err.none, some bytes, k)) (int_of-pos (length bytes) lt),
      )
  where
    lt32 : length bytes < 2 ^ 32
    lt32 = omega arith
