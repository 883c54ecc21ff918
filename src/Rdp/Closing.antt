-- ===== src/Rdp/Closing.antt =====
-- The closing of an RDP connection, in src/csp_rdp.c and src/csp_conn.c, over any number of calls.
use libcsp.Core.{ℕ, ◌+◌, ◌==◌, ◌≡◌, ◌≢◌, refl, ap, ap₂, ◌∙◌, arith, Bool, true, false, ◌&&◌, ◌||◌}
use libcsp.Core.{◌⊎◌, inl, inr, Bool-cases, bit_or, List, [], ◌∷◌, if◌then◌else◌}
use libcsp.Packet.{Err, frdp}
use libcsp.Rdp.{has}
use libcsp.Conn.{
  closed, opened, RdpState, rdp_closed, syn_sent, syn_rcvd, rdp_open, close_wait, by_all,
}
use libcsp.Rdp.World.{World}
use libcsp.Rdp.Frame.{status, send_cmp-status}
use libcsp.Rdp.Close.{
  start_close, finish_close, close_internal, release_conn, conn_close, uses_rdp, unless_again,
  note_closed_by,
}

-- The parties that a call closes a connection for.
pub record Parties : Type 0 where
  pub userspace : Bool
  pub protocol : Bool
  pub timeout : Bool

abbrev bit : Bool → ℕ → ℕ
bit b n = if b then n else 0

abbrev pub encode : Parties → ℕ
encode p = bit p.userspace 1 + bit p.protocol 2 + bit p.timeout 4

abbrev pub union : Parties → Parties → Parties
union p q = record {
  userspace = p.userspace || q.userspace;
  protocol = p.protocol || q.protocol;
  timeout = p.timeout || q.timeout;
}

abbrev pub everyone : Parties
everyone = record { userspace = true; protocol = true; timeout = true }

bit_or-bits :
    (a b c d e f : Bool)
    → bit_or (bit a 1 + bit b 2 + bit c 4) (bit d 1 + bit e 2 + bit f 4)
      ≡ bit (a || d) 1 + bit (b || e) 2 + bit (c || f) 4
bit_or-bits a b c d e f = ground arith

abbrev pub is_everyone : Parties → Bool
is_everyone p = p.userspace && (p.protocol && p.timeout)

encode_all : (p : Parties) → (encode p == by_all) ≡ is_everyone p
encode_all p = ground arith

-- What a call has done, for a connection that is closed by some and now also by the caller.
abbrev Closed : World → Parties → Err × World → Type 0
Closed w p (e, w') =
    (w'.conn.state ≡ w.conn.state)
    × (w'.conn.idin ≡ w.conn.idin)
    × (w'.conn.idout ≡ w.conn.idout)
    × (if is_everyone p
        then (e ≡ Err.none) × (w'.conn.rdp.state ≡ rdp_closed)
        else (e ≡ Err.again)
          × (w'.conn.rdp.state ≡ close_wait)
          × (w'.conn.rdp.closed_by ≡ encode p))

finish_close-Closed :
    (v w : World) (p : Parties)
    → w.conn.rdp.closed_by ≡ encode p
    → w.conn.rdp.state ≡ close_wait
    → w.conn.state ≡ v.conn.state
    → w.conn.idin ≡ v.conn.idin
    → w.conn.idout ≡ v.conn.idout
    → Closed v p (finish_close w)
unfolding finish_close
finish_close-Closed v w p hc hs h1 h2 h3 = elim (Bool-cases (is_everyone p)) [
  | inl e ↦ rw (finish_close, hc, encode_all p, e) (h1, h2, h3, (refl, refl))
  | inr e ↦ rw (finish_close, hc, encode_all p, e) (h1, h2, h3, (refl, hs, refl))
]

pub start_close-status :
    (w : World) (b : Bool) → (status (start_close w b)) ≡ record (status w) { state = close_wait }
unfolding start_close
start_close-status w b = grind (arith, send_cmp-status)

note_union :
    (w : World) (p q : Parties)
    → w.conn.rdp.closed_by ≡ encode p
    → (note_closed_by w (encode q)).conn.rdp.closed_by ≡ encode (union p q)
note_union w p q hc = ap (λ n. bit_or n (encode q)) hc ∙ bit_or-bits _ _ _ _ _ _

start_close-Closed :
    (w : World) (p q : Parties) (b : Bool)
    → w.conn.rdp.closed_by ≡ encode p
    → Closed w (union p q) (finish_close (start_close (note_closed_by w (encode q)) b))
start_close-Closed w p q b hc =
    finish_close-Closed w (start_close (note_closed_by w (encode q)) b) (union p q)
      (ap (λ s. s.closed_by) same ∙ note_union w p q hc) (ap (λ s. s.state) same)
      (ap (λ s. s.conn_state) same) (ap (λ s. s.ids.0) same) (ap (λ s. s.ids.1) same)
  where
    same :
        status (start_close (note_closed_by w (encode q)) b)
        ≡ record (status (note_closed_by w (encode q))) { state = close_wait }
    same = start_close-status (note_closed_by w (encode q)) b

abbrev pub Internal : World → ℕ → Bool → World → Type 0
Internal w n b w' = close_internal w n b ≡ finish_close w'

pub close_internal-cases :
    (w : World) (n : ℕ) (b : Bool)
    → ((w.conn.rdp.state ≡ rdp_closed) × (close_internal w n b ≡ (Err.none, w)))
      ⊎ ((w.conn.rdp.state ≡ close_wait) × Internal w n b (note_closed_by w n))
      ⊎ ((w.conn.rdp.state ≢ rdp_closed) × Internal w n b (start_close (note_closed_by w n) b))
unfolding close_internal
close_internal-cases w n b = by_state (w.conn.rdp.state) refl
  where
    by_state :
        (s : RdpState)
        → w.conn.rdp.state ≡ s
        → ((w.conn.rdp.state ≡ rdp_closed) × (close_internal w n b ≡ (Err.none, w)))
          ⊎ ((w.conn.rdp.state ≡ close_wait) × Internal w n b (note_closed_by w n))
          ⊎ ((w.conn.rdp.state ≢ rdp_closed) × Internal w n b (start_close (note_closed_by w n) b))
    by_state rdp_closed e = inl (e, rw e refl)
    by_state close_wait e = inr (inl (e, rw e refl))
    by_state syn_sent e = inr (inr (λ c. cc (e, c), rw e refl))
    by_state syn_rcvd e = inr (inr (λ c. cc (e, c), rw e refl))
    by_state rdp_open e = inr (inr (λ c. cc (e, c), rw e refl))

close_internal-Closed :
    (w : World) (p q : Parties) (b : Bool)
    → w.conn.rdp.closed_by ≡ encode p
    → w.conn.rdp.state ≢ rdp_closed
    → Closed w (union p q) (close_internal w (encode q) b)
close_internal-Closed w p q b hc hs = elim (close_internal-cases w (encode q) b) [
  | inl (e, eq) ↦ absurd (hs e)
  | inr (inl (e, eq)) ↦
      rw eq (finish_close-Closed w _ (union p q) (note_union w p q hc) e refl refl refl)
  | inr (inr (ne, eq)) ↦ rw eq (start_close-Closed w p q b hc)
]

-- Once RDP has let go, the connection is closed, with no packets left in its queue.
abbrev pub IsReleased : World → Type 0
IsReleased w = (w.conn.state ≡ closed) × (w.conn.rdp.state ≡ rdp_closed) × (w.conn.rx_queue ≡ [])

release_conn-IsReleased : (w : World) → w.conn.rdp.state ≡ rdp_closed → IsReleased (release_conn w)
unfolding release_conn
release_conn-IsReleased w h = ground arith

-- A connection of RDP that some have closed, and that waits for others.
pub record WaitsFor (w : World) (p : Parties) : Type 0 where
  pub open_state : w.conn.state ≡ opened
  pub is_rdp : uses_rdp w.conn ≡ true
  pub not_yet : w.conn.rdp.state ≢ rdp_closed
  pub by : w.conn.rdp.closed_by ≡ encode p

-- One call: the last one missing releases the connection, any other is noted.
unless_again-Closed :
    (w : World) (p : Parties) (out : Err × World)
    → w.conn.state ≡ opened
    → uses_rdp w.conn ≡ true
    → Closed w p out
    → if is_everyone p then IsReleased (unless_again out) else WaitsFor (unless_again out) p
unless_again-Closed w p (e, w') ho hr (h1, h2, h3, h) = by_all_closed (is_everyone p) h
  where
    still_rdp : uses_rdp w'.conn ≡ true
    still_rdp = ap₂ (λ i o. has i.flags frdp || has o.flags frdp) h2 h3 ∙ hr

    by_all_closed :
        (b : Bool)
        → (if b
            then (e ≡ Err.none) × (w'.conn.rdp.state ≡ rdp_closed)
            else (e ≡ Err.again)
              × (w'.conn.rdp.state ≡ close_wait)
              × (w'.conn.rdp.closed_by ≡ encode p))
        → if b then IsReleased (unless_again (e, w')) else WaitsFor (unless_again (e, w')) p
    by_all_closed true (e0, s0) = rw e0 (release_conn-IsReleased w' s0)
    by_all_closed false (e0, s0, c0) =
        rw e0
          (record { open_state = h1 ∙ ho; is_rdp = still_rdp; not_yet = λ x. cc (s0, x); by = c0 })

pub conn_close-rdp :
    (w : World) (n : ℕ)
    → w.conn.state ≡ opened
    → uses_rdp w.conn ≡ true
    → conn_close w n ≡ unless_again (close_internal w n true)
unfolding conn_close
conn_close-rdp w n ho hr = rw (ho, hr) refl

conn_close-WaitsFor :
    (w : World) (p q : Parties)
    → WaitsFor w p
    → if is_everyone (union p q)
      then IsReleased (conn_close w (encode q))
      else WaitsFor (conn_close w (encode q)) (union p q)
conn_close-WaitsFor w p q h = rw (conn_close-rdp w (encode q) h.open_state h.is_rdp) (
    unless_again-Closed w (union p q) (close_internal w (encode q) true) h.open_state h.is_rdp
      (close_internal-Closed w p q true h.by h.not_yet))

-- Calls one after the other, and who has closed the connection after them.
abbrev pub close_run : World → List Parties → World
close_run w [] = w
close_run w (q ∷ qs) = close_run (conn_close w (encode q)) qs

abbrev pub union_all : Parties → List Parties → Parties
union_all p [] = p
union_all p (q ∷ qs) = union_all (union p q) qs

-- Further calls on a connection that is closed change nothing in it.
conn_close-IsReleased : (w : World) (n : ℕ) → IsReleased w → IsReleased (conn_close w n)
unfolding conn_close
conn_close-IsReleased w n (h1, h2, h3) = rw h1 (refl, h2, h3)

close_run-again : (w : World) (qs : List Parties) → IsReleased w → IsReleased (close_run w qs)
close_run-again w [] h = h
close_run-again w (q ∷ qs) h =
    close_run-again (conn_close w (encode q)) qs (conn_close-IsReleased w (encode q) h)

union_all-everyone :
    (p : Parties) (qs : List Parties) → is_everyone p ≡ true → is_everyone (union_all p qs) ≡ true
union_all-everyone p [] h = h
union_all-everyone p (q ∷ qs) h = union_all-everyone (union p q) qs (ground arith)

-- The connection is closed, its queue empty, if all have closed it; else it waits for the others.
abbrev pub ClosesWhenAll : World → Parties → Type 0
ClosesWhenAll w p = if is_everyone p then IsReleased w else WaitsFor w p

-- A connection of RDP waits until all of user space, the protocol and the timeout have closed it, in
-- any order and any number of calls; as soon as they have, it is closed, its queue empty, and it
-- stays so.
pub close_run-ClosesWhenAll :
    (w : World) (p : Parties) (qs : List Parties)
    → WaitsFor w p
    → is_everyone p ≡ false
    → ClosesWhenAll (close_run w qs) (union_all p qs)
close_run-ClosesWhenAll w p [] h hp = rw hp h
close_run-ClosesWhenAll w p (q ∷ qs) h hp =
    next (is_everyone (union p q)) refl (conn_close-WaitsFor w p q h)
      (λ e r. close_run-ClosesWhenAll (conn_close w (encode q)) (union p q) qs r e)
  where
    next :
        (b : Bool)
        → is_everyone (union p q) ≡ b
        → (if b
            then IsReleased (conn_close w (encode q))
            else WaitsFor (conn_close w (encode q)) (union p q))
        → (is_everyone (union p q) ≡ false
            → WaitsFor (conn_close w (encode q)) (union p q)
            → ClosesWhenAll (close_run (conn_close w (encode q)) qs) (union_all (union p q) qs))
        → ClosesWhenAll (close_run (conn_close w (encode q)) qs) (union_all (union p q) qs)
    next true e r later =
        rw (union_all-everyone (union p q) qs e) (close_run-again (conn_close w (encode q)) qs r)
    next false e r later = later e r
