-- ===== src/Route/Security.antt =====
-- src/csp_route.c: the check of a packet that is for this node.
use libcsp.Core.{ℕ, ◌+◌, ◌%◌, ◌^◌, ◌≡◌, refl, subst, Bool, true, false, inl, inr}
use libcsp.Core.{◌⊎◌, if◌then◌else◌}
use libcsp.Packet.{
  Packet, Err, is_ok, Iface, frdp, fhmac, fcrc32, so_hmacreq, so_crc32req, so_rdpreq,
}
use libcsp.Conn.{option_set}
use libcsp.Crc.{crc32_verify}
use libcsp.Rdp.States.{if-both}

-- The result, the interface with its counters, and the packet without what was verified.
abbrev pub Checked : Type 0
Checked = Err × Iface × Packet

abbrev pub count_rx_error : Iface → Iface
count_rx_error i = record i { rx_error = (i.rx_error + 1) % 2 ^ 32 }

abbrev pub count_autherr : Iface → Iface
count_autherr i = record i { autherr = (i.autherr + 1) % 2 ^ 32 }

-- `csp_hmac_verify` is another part: it gives an error or the packet without its code.
module _ (hmac_verify : Packet → Err × Packet) where
  unfoldable pub check_rdp : ℕ → Iface → Packet → Checked
  check_rdp opts i p =
      if option_set p.id.flags frdp
      then (Err.none, i, p)
      else if option_set opts so_rdpreq
      then (Err.inval, count_rx_error i, p)
      else (Err.none, i, p)

  unfoldable pub check_hmac : ℕ → Iface → Packet → Checked
  check_hmac opts i p =
      let (e, p') = hmac_verify p in
      if option_set p.id.flags fhmac
      then if is_ok e then check_rdp opts i p' else (Err.hmac, count_autherr i, p')
      else if option_set opts so_hmacreq
      then (Err.hmac, count_autherr i, p)
      else check_rdp opts i p

  -- `csp_route_security_check`
  unfoldable pub security_check : ℕ → ℕ → Iface → Packet → Checked
  security_check version opts i p =
      let (e, p') = crc32_verify version p in
      if option_set p.id.flags fcrc32
      then if is_ok e then check_hmac opts i p' else (Err.crc32, count_rx_error i, p')
      else if option_set opts so_crc32req
      then (Err.crc32, count_rx_error i, p)
      else check_hmac opts i p

-- One guard by itself: the packet has the flag and what it stands for is verified, which gives the
-- packet to go on with; or it has no flag, and the options do not require it.
abbrev pub Guard : ℕ → ℕ → ℕ → Packet → Err × Packet → Packet → Type 0
Guard opts flag required p (e, p') q =
    if option_set p.id.flags flag
    then (is_ok e ≡ true) × (q ≡ p')
    else (option_set opts required ≡ false) × (q ≡ p)

if-true : (A B : Type 0) (b : Bool) → b ≡ true → (if b then A else B) → A
if-true A B true e x = x
if-true A B false e x = absurd (cc e)

if-false : (A B : Type 0) (b : Bool) → b ≡ false → (if b then A else B) → B
if-false A B true e x = absurd (cc e)
if-false A B false e x = x

-- What a check says: the packet passes and nothing is counted, or it can not pass, and one error is
-- counted at the interface.
abbrev pub Says : (Packet → Type 0) → Iface → Checked → Type 0
Says Passes i (e, i', r) =
    if is_ok e
    then Passes r × (i' ≡ i)
    else ((q : Packet) → Passes q → ⊥) × ((i' ≡ count_rx_error i) ⊎ (i' ≡ count_autherr i))

-- From one check to the next: a guard in front, which the packet passes as `q`.
abbrev pub Behind : ℕ → ℕ → ℕ → Packet → Err × Packet → (Packet → Packet → Type 0) → Packet → Type 0
Behind opts flag required p out Rest r = (q : Packet) × Guard opts flag required p out q × Rest q r

module _ (opts flag required : ℕ) (p : Packet) (out : Err × Packet) (i : Iface) where
  passed :
      (Rest : Packet → Packet → Type 0) (q : Packet) (c : Checked)
      → Guard opts flag required p out q
      → ((q' : Packet) → Guard opts flag required p out q' → q' ≡ q)
      → Says (Rest q) i c
      → Says (Behind opts flag required p out Rest) i c
  passed Rest q (e, i', r) g only s = by_result (is_ok e) s
    where
      by_result :
          (b : Bool)
          → (if b
              then Rest q r × (i' ≡ i)
              else ((x : Packet) → Rest q x → ⊥)
                × ((i' ≡ count_rx_error i) ⊎ (i' ≡ count_autherr i)))
          → (if b
              then Behind opts flag required p out Rest r × (i' ≡ i)
              else ((x : Packet) → Behind opts flag required p out Rest x → ⊥)
                × ((i' ≡ count_rx_error i) ⊎ (i' ≡ count_autherr i)))
      by_result true (rest, same) = ((q, g, rest), same)
      by_result false (never, counted) =
          (λ x (q', g', rest). never x (subst (λ t. Rest t x) (only q' g') rest), counted)

  -- A packet that no guard lets pass.
  stopped :
      (Rest : Packet → Packet → Type 0) (e : Err) (i' : Iface) (r : Packet)
      → is_ok e ≡ false
      → (i' ≡ count_rx_error i) ⊎ (i' ≡ count_autherr i)
      → ((q : Packet) → Guard opts flag required p out q → ⊥)
      → Says (Behind opts flag required p out Rest) i (e, i', r)
  stopped Rest e i' r h counted never = rw h ((λ x (q, g, rest). never q g), counted)

  with_flag :
      option_set p.id.flags flag ≡ true
      → (q : Packet) → Guard opts flag required p out q
      → (is_ok out.0 ≡ true) × (q ≡ out.1)
  with_flag c q g = if-true _ ((option_set opts required ≡ false) × (q ≡ p)) _ c g

  without_flag :
      option_set p.id.flags flag ≡ false
      → (q : Packet) → Guard opts flag required p out q
      → (option_set opts required ≡ false) × (q ≡ p)
  without_flag c q g = if-false ((is_ok out.0 ≡ true) × (q ≡ out.1)) _ _ c g

  guard-Says :
      (Rest : Packet → Packet → Type 0) (next : Packet → Checked) (e : Err) (i' : Iface)
      → ((q : Packet) → Says (Rest q) i (next q))
      → is_ok e ≡ false
      → (i' ≡ count_rx_error i) ⊎ (i' ≡ count_autherr i)
      → Says (Behind opts flag required p out Rest) i (
          if option_set p.id.flags flag
          then if is_ok out.0 then next out.1 else (e, i', out.1)
          else if option_set opts required
          then (e, i', p)
          else next p)
  guard-Says Rest next e i' h he counted =
      if-both S (option_set p.id.flags flag) _ _
        (λ c.
          if-both S (is_ok out.0) _ _
            (λ d.
              passed Rest out.1 (next out.1) (rw c (d, refl)) (λ q g. (with_flag c q g).1)
                (h out.1))
            (λ d. stopped Rest e i' out.1 he counted (λ q g. cc (d, (with_flag c q g).0))))
        (λ c.
          if-both S (option_set opts required) _ _
            (λ d. stopped Rest e i' p he counted (λ q g. cc (d, (without_flag c q g).0)))
            (λ d. passed Rest p (next p) (rw c (d, refl)) (λ q g. (without_flag c q g).1) (h p)))
    where
      S : Checked → Type 0
      S c = Says (Behind opts flag required p out Rest) i c

-- The packet passes all guards, the checksum first, then the authentication of what is left, then
-- RDP; `r` is what is left then.
abbrev pub PassesRdp : ℕ → Packet → Packet → Type 0
PassesRdp opts s = Behind opts frdp so_rdpreq s (Err.none, s) (λ t r. r ≡ t)

abbrev pub PassesHmac : (Packet → Err × Packet) → ℕ → Packet → Packet → Type 0
PassesHmac hmac_verify opts q = Behind opts fhmac so_hmacreq q (hmac_verify q) (PassesRdp opts)

abbrev pub PassesAll : (Packet → Err × Packet) → ℕ → ℕ → Packet → Packet → Type 0
PassesAll hmac_verify version opts p =
    Behind opts fcrc32 so_crc32req p (crc32_verify version p) (PassesHmac hmac_verify opts)

-- The check reports no error exactly if the packet passes all guards, and then gives the packet
-- that is left, with nothing counted; an error is counted once at the interface.
pub security_check-Says :
    (hmac_verify : Packet → Err × Packet) (version opts : ℕ) (i : Iface) (p : Packet)
    → Says (PassesAll hmac_verify version opts p) i (security_check hmac_verify version opts i p)
unfolding security_check check_hmac check_rdp
security_check-Says hmac_verify version opts i p =
    guard-Says opts fcrc32 so_crc32req p (crc32_verify version p) i (PassesHmac hmac_verify opts)
      (λ q. check_hmac hmac_verify opts i q) Err.crc32 (count_rx_error i)
      (λ q.
        guard-Says opts fhmac so_hmacreq q (hmac_verify q) i (PassesRdp opts)
          (λ s. check_rdp hmac_verify opts i s) Err.hmac (count_autherr i)
          (λ s.
            guard-Says opts frdp so_rdpreq s (Err.none, s) i (λ t r. r ≡ t) (λ t. (Err.none, i, t))
              Err.inval (count_rx_error i) (λ t. (refl, refl)) refl (inl refl))
          refl (inr refl))
      refl (inl refl)
