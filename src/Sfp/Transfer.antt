-- ===== src/Sfp/Transfer.antt =====
-- One fragment of src/csp_sfp.c, sent and received.
use libcsp.Core.{
  ℕ, zero, suc, ◌+◌, ◌-◌, ◌%◌, ◌^◌, ◌≤◌, ◌<◌, ◌≡◌, ◌∙◌, refl, sym, ap, ap₂, min, arith,
}
use libcsp.Core.{true, false, ltb, leb, ==_self, ==_ne}
use libcsp.Core.{List, [], ◌∷◌, ◌++◌, Option, some, length, take, drop, take-length}
use libcsp.Core.{length-take, length-drop}
use libcsp.Core.Int.{int_of}
use libcsp.Core.Memory.{write_at, slice, slice-write_at_self, slice-write_at_before}
use libcsp.Core.Memory.{slice-add}
use libcsp.Packet.{Packet, CspId, Err, IsSized, data_begin}
use libcsp.Sfp.{Round, Receiving, Step, more, done, send_loop, fragment}
use libcsp.Sfp.{Received, header_remove, copy_in, take_in, recv_loop}
use libcsp.Sfp.Fragment.{opened, flagged, fragment-opened, header_remove-opened, chunk_bytes}

pub length-slice : (m : List ℕ) (i n : ℕ) → i + n ≤ length m → length (slice m i n) ≡ n
length-slice m i n h = omega (arith, length-take n (drop i m), length-drop i m)

-- The first bytes stay when the next are written, and are followed by them.
pub slice-grow :
    (m bytes : List ℕ) (c n : ℕ)
    → slice m 0 c ≡ slice bytes 0 c
    → length (slice bytes c n) ≡ n
    → c + n ≤ length m
    → slice (write_at m c (slice bytes c n)) 0 (c + n) ≡ slice bytes 0 (c + n)
slice-grow m bytes c n e len h =
    slice-add (write_at m c (slice bytes c n)) 0 c n
    ∙ ap₂ (λ s t. s ++ t) front back
    ∙ sym (slice-add bytes 0 c n)
  where
    front : slice (write_at m c (slice bytes c n)) 0 c ≡ slice bytes 0 c
    front = slice-write_at_before m c (slice bytes c n) 0 c (omega arith) ∙ e

    start : (k : ℕ) → 0 + k ≡ k
    start k = omega arith

    back : slice (write_at m c (slice bytes c n)) (0 + c) n ≡ slice bytes (0 + c) n
    back =
        ap (λ (k : ℕ). slice (write_at m c (slice bytes c n)) k n) (start c)
        ∙ ap (λ (k : ℕ). slice (write_at m c (slice bytes c n)) c k) (sym len)
        ∙ slice-write_at_self m c (slice bytes c n) (omega arith)
        ∙ ap (λ (k : ℕ). slice bytes k n) (sym (start c))

module _ (total : ℕ) (lt : total < 2 ^ 32) where
  ltb_ge : (k : ℕ) → k ≤ total → ltb total k ≡ false
  ltb_ge k h = ground arith

  leb_le : (k : ℕ) → total ≤ k → leb total k ≡ true
  leb_le k h = ground arith

  leb_gt : (k : ℕ) → k < total → leb total k ≡ false
  leb_gt k h = ground arith

  -- A packet that ends the transfer, and one that does not.
  copy_in-done :
      (p : Packet) (m : List ℕ) (c : ℕ)
      → c + p.length ≡ total
      → copy_in total p m total c
        ≡ done (Err.none, some (write_at m c (slice p.mem data_begin p.length)), int_of total)
  unfolding copy_in
  copy_in-done p m c e =
      rw
        (
          copy_in,
          word,
          ltb_ge (c + p.length) (omega arith),
          ==_self total,
          leb_le (c + p.length) (omega arith),
        )
        refl
    where
      word : (c + p.length) % 2 ^ 32 ≡ c + p.length
      word = omega arith

  copy_in-more :
      (p : Packet) (m : List ℕ) (c : ℕ)
      → c + p.length < total
      → 0 < p.length
      → copy_in total p m total c
        ≡ more (record {
          out = some (write_at m c (slice p.mem data_begin p.length));
          datasize = total;
          data_offset = c + p.length;
        })
  unfolding copy_in
  copy_in-more p m c e pos =
      rw
        (
          copy_in,
          word,
          ltb_ge (c + p.length) (omega arith),
          ==_self total,
          leb_gt (c + p.length) e,
          ==_ne p.length 0 (omega arith),
        )
        refl
    where
      word : (c + p.length) % 2 ^ 32 ≡ c + p.length
      word = omega arith

abbrev pub receiving : List ℕ → ℕ → ℕ → Receiving
receiving m total c = record { out = some m; datasize = total; data_offset = c }

-- Every round finds the connection active and gets a buffer.
abbrev pub IsReady : (ℕ → Round) → Type 0
IsReady env =
    (r : ℕ) → ((env r).active ≡ true) × (b : Packet) × ((env r).buffer ≡ some b) × IsSized b

-- What is returned after a step, with these packets to come.
abbrev pub after : (ℕ → Option (List ℕ)) → List Packet → Step → Received
after malloc packets st = elim st [ done r ↦ r | more s' ↦ recv_loop malloc s' packets ]

pub recv_loop-cons :
    (malloc : ℕ → Option (List ℕ)) (s : Receiving) (p : Packet) (packets : List Packet)
    → recv_loop malloc s (p ∷ packets) ≡ after malloc packets (take_in malloc s (header_remove p))
unfolding recv_loop
recv_loop-cons malloc s p packets = refl

take_in-next :
    (malloc : ℕ → Option (List ℕ)) (m : List ℕ) (total c : ℕ) (p : Packet)
    → take_in malloc (receiving m total c) (some (c, total, p)) ≡ copy_in total p m total c
unfolding take_in
take_in-next malloc m total c p = rw (==_self c) refl

module _ (id : CspId) (bytes : List ℕ) (total c size : ℕ) (b : Packet) (small : size ≤ 248)
    (len : length (slice bytes c size) ≡ size) (z : IsSized b) (le : c ≤ total)
    (lt : total < 2 ^ 32) where
  abbrev pub received : Packet
  received = opened id c total size (slice bytes c size) b

  pub header_remove-fragment :
      header_remove (fragment (flagged id) bytes total c size b) ≡ some (c, total, received)
  header_remove-fragment =
      ap header_remove (fragment-opened id bytes total c size b small len)
      ∙ ap (λ (k : ℕ). header_remove (opened id c total (k + 8) (slice bytes c size) b)) (sym len)
      ∙ header_remove-opened id c total (slice bytes c size) b (omega arith) z le lt
      ∙ ap (λ (k : ℕ). some (c, total, opened id c total k (slice bytes c size) b)) len

  received_bytes : slice received.mem data_begin size ≡ slice bytes c size
  received_bytes =
      ap (λ (k : ℕ). slice received.mem data_begin k) (sym len)
      ∙ chunk_bytes b.mem (slice bytes c size) c total z (omega arith)

  module _ (malloc : ℕ → Option (List ℕ)) (m : List ℕ) (packets : List Packet) where
    recv-frame :
        recv_loop malloc
          (receiving m total c)
          (fragment (flagged id) bytes total c size b ∷ packets)
        ≡ after malloc packets (copy_in total received m total c)
    recv-frame =
        recv_loop-cons malloc (receiving m total c) _ packets
        ∙ ap (λ t. after malloc packets (take_in malloc (receiving m total c) t))
            header_remove-fragment
        ∙ ap (after malloc packets) (take_in-next malloc m total c received)

    pub recv-done :
        c + size ≡ total
        → recv_loop malloc
            (receiving m total c)
            (fragment (flagged id) bytes total c size b ∷ packets)
          ≡ (Err.none, some (write_at m c (slice bytes c size)), int_of total)
    recv-done e =
        recv-frame
        ∙ ap (after malloc packets) (copy_in-done total lt received m c e)
        ∙ ap (λ t. (Err.none, some (write_at m c t), int_of total)) received_bytes

    pub recv-more :
        c + size < total
        → 0 < size
        → recv_loop malloc
            (receiving m total c)
            (fragment (flagged id) bytes total c size b ∷ packets)
          ≡ recv_loop malloc
              (receiving (write_at m c (slice bytes c size)) total (c + size))
              packets
    recv-more e pos =
        recv-frame
        ∙ ap (after malloc packets) (copy_in-more total lt received m c e pos)
        ∙ ap (λ t. recv_loop malloc (receiving (write_at m c t) total (c + size)) packets)
            received_bytes

module _ (env : ℕ → Round) (ready : IsReady env) (bytes : List ℕ) (total mtu : ℕ) where
  abbrev pub chunk_size : ℕ → ℕ
  chunk_size c = min (total - c) mtu

  pub send-end :
      (n r : ℕ) (id : CspId) (c : ℕ)
      → total ≤ c
      → send_loop n env r id bytes total mtu c ≡ (Err.none, id, [])
  unfolding send_loop
  send-end zero r id c h = refl
  send-end (suc n) r id c h = rw (send_loop, stop) refl
    where
      stop : ltb c total ≡ false
      stop = ground arith

  pub send-round :
      (n r : ℕ) (id : CspId) (c : ℕ)
      → c < total
      → send_loop (suc n) env r id bytes total mtu c ≡ (
          let (e, id', packets) =
            send_loop n env (suc r) (flagged id) bytes total mtu (c + chunk_size c) in
          (e, id', fragment (flagged id) bytes total c (chunk_size c) (ready r).1 ∷ packets))
  unfolding send_loop
  send-round n r id c h = rw (send_loop, go, (ready r).0, (ready r).2) refl
    where
      go : ltb c total ≡ true
      go = ground arith

pub whole :
    (m bytes : List ℕ) (total : ℕ)
    → length m ≡ total
    → length bytes ≡ total
    → slice m 0 total ≡ slice bytes 0 total
    → m ≡ bytes
whole m bytes total e e' h = sym (all m e) ∙ h ∙ all bytes e'
  where
    all : (l : List ℕ) → length l ≡ total → slice l 0 total ≡ l
    all l e = ap (λ (k : ℕ). take k l) (sym e) ∙ take-length l
