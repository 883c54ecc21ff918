-- ===== src/Route/Protected.antt =====
-- `csp_send_direct_iface` of src/csp_io.c and `csp_route_security_check` of src/csp_route.c, one
-- after the other.
use libcsp.Core.{ℕ, ◌+◌, ◌≤◌, ◌≡◌, ◌∙◌, ◌⊎◌, inl, inr, refl, sym, ap, arith}
use libcsp.Core.{Bool, true, false, List, take}
use libcsp.Core.Memory.{slice, length-write_at, slice-write_at_before}
use libcsp.Core.Words.{be32}
use libcsp.Packet.{Packet, Err, Iface, IsSized, data_begin, fhmac, fcrc32, frdp, so_rdpreq}
use libcsp.Conn.{option_set}
use libcsp.Crc.{crc32_memory, crc32_verify}
use libcsp.Crc.Check.{appended, crc32_append-eq-appended, verify-appended}
use libcsp.Id.{prepend}
use libcsp.Id.RoundTrip.{drop-prepend, id-prepend}
use libcsp.Hmac.{hmac_append, hmac_verify, code}
use libcsp.Hmac.Check.{with_code, append-data, with_code-data, with_code-code, hmac_verify-code}
use libcsp.Io.{protect, append_crc}
use libcsp.Rdp.States.{if-both}
use libcsp.Route.Security.{security_check, check_hmac, check_rdp}

module _ (key : List ℕ) (p : Packet) (z : IsSized p) (room : p.length ≤ 248) where
  sent : Packet
  sent = appended (with_code key p)

  protect-sent :
      (nexthop : Iface → ℕ → Packet → Bool → Err)
      → option_set p.id.flags fhmac ≡ true
      → option_set p.id.flags fcrc32 ≡ true
      → protect (hmac_append key false) nexthop true p.id.flags p ≡ (true, sent)
  unfolding protect append_crc sent
  protect-sent nexthop eh ec =
      rw
        (
          eh,
          ec,
          append-data key p (omega arith),
          crc32_append-eq-appended (with_code key p) (omega arith),
        )
        refl

  with_code-IsSized : IsSized (with_code key p)
  with_code-IsSized =
      length-write_at p.mem (data_begin + p.length) (code key (slice p.mem data_begin p.length)) ∙ z

  -- What the checksum leaves.
  checked : ℕ → Packet
  checked version = record (prepend version sent) { length = p.length + 4 }

  crc32_verify-sent : (version : ℕ) → crc32_verify version sent ≡ (Err.none, checked version)
  unfolding sent checked
  crc32_verify-sent version =
      verify-appended version (with_code key p) with_code-IsSized (omega arith)

  checked-slice :
      (version j n : ℕ)
      → data_begin ≤ j
      → j + n ≤ data_begin + (p.length + 4)
      → slice (checked version).mem j n ≡ slice (with_code key p).mem j n
  unfolding checked sent
  checked-slice version j n low high =
      ap (take n) (drop-prepend version sent j low)
      ∙ slice-write_at_before (with_code key p).mem (data_begin + (p.length + 4))
          (be32 (crc32_memory (slice (with_code key p).mem data_begin (p.length + 4)))) j n high

  accepted : ℕ → Packet
  accepted version = record (checked version) { length = p.length }

  hmac_verify-checked :
      (version : ℕ) → hmac_verify key false (checked version) ≡ (Err.none, accepted version)
  unfolding accepted checked
  hmac_verify-checked version = hmac_verify-code key (checked version) p.length size (
      checked-slice version (data_begin + p.length) 4 (omega arith) (omega arith)
      ∙ with_code-code key p z (omega arith)
      ∙ ap (code key) (sym (checked-slice version data_begin p.length (omega arith) (omega arith))))
    where
      size : (checked version).length ≡ p.length + 4
      size = refl

  flags-checked : (version : ℕ) → (checked version).id.flags ≡ p.id.flags
  unfolding checked sent
  flags-checked version = ap (λ i. i.flags) (id-prepend version sent)

  check_rdp-accepted :
      (version opts : ℕ) (i : Iface)
      → (option_set p.id.flags frdp ≡ true) ⊎ (option_set opts so_rdpreq ≡ false)
      → check_rdp (hmac_verify key false) opts i (accepted version)
        ≡ (Err.none, i, accepted version)
  unfolding check_rdp accepted
  check_rdp-accepted version opts i (inl e) =
      rw (ap (λ f. option_set f frdp) (flags-checked version) ∙ e) refl
  check_rdp-accepted version opts i (inr e) = rw e (
      if-both (λ r. r ≡ (Err.none, i, accepted version))
        (option_set (accepted version).id.flags frdp) _ _ (λ c. refl) (λ c. refl))

  check_hmac-checked :
      (version opts : ℕ) (i : Iface)
      → option_set p.id.flags fhmac ≡ true
      → (option_set p.id.flags frdp ≡ true) ⊎ (option_set opts so_rdpreq ≡ false)
      → check_hmac (hmac_verify key false) opts i (checked version)
        ≡ (Err.none, i, accepted version)
  unfolding check_hmac
  check_hmac-checked version opts i eh er =
      rw (ap (λ f. option_set f fhmac) (flags-checked version) ∙ eh, hmac_verify-checked version)
        (check_rdp-accepted version opts i er)

  security_check-sent :
      (version opts : ℕ) (i : Iface)
      → option_set p.id.flags fhmac ≡ true
      → option_set p.id.flags fcrc32 ≡ true
      → (option_set p.id.flags frdp ≡ true) ⊎ (option_set opts so_rdpreq ≡ false)
      → security_check (hmac_verify key false) version opts i sent ≡ (Err.none, i, accepted version)
  unfolding security_check sent
  security_check-sent version opts i eh ec er =
      rw (ec, crc32_verify-sent version) (check_hmac-checked version opts i eh er)

  accepted-data :
      (version : ℕ)
      → slice (accepted version).mem data_begin p.length ≡ slice p.mem data_begin p.length
  unfolding accepted
  accepted-data version =
      checked-slice version data_begin p.length (omega arith) (omega arith) ∙ with_code-data key p

  accepted-id : (version : ℕ) → (accepted version).id ≡ p.id
  unfolding accepted checked sent
  accepted-id version = id-prepend version sent

-- A packet of this node that asks for authentication and a checksum, with room for both, is sent with
-- them; and a node with the same key, whatever version of the header it has and whatever its
-- receiver requires, lets it pass, if the packet is of RDP or RDP is not required. The packet that
-- is left has the identifier, the length and the data of the first, and no error is counted.
pub security_check-protect :
    (key : List ℕ) (nexthop : Iface → ℕ → Packet → Bool → Err) (p : Packet) (version opts : ℕ)
    (i : Iface)
    → IsSized p
    → p.length ≤ 248
    → option_set p.id.flags fhmac ≡ true
    → option_set p.id.flags fcrc32 ≡ true
    → (option_set p.id.flags frdp ≡ true) ⊎ (option_set opts so_rdpreq ≡ false)
    → let (done, sent) = protect (hmac_append key false) nexthop true p.id.flags p in
      let (e, i', got) = security_check (hmac_verify key false) version opts i sent in
      (done ≡ true)
      × (e ≡ Err.none)
      × (i' ≡ i)
      × (got.id ≡ p.id)
      × (got.length ≡ p.length)
      × (slice got.mem data_begin p.length ≡ slice p.mem data_begin p.length)
unfolding accepted
security_check-protect key nexthop p version opts i z h eh ec er =
    rw (protect-sent key p z h nexthop eh ec, security_check-sent key p z h version opts i eh ec er)
      (refl, refl, refl, accepted-id key p z h version, refl, accepted-data key p z h version)
