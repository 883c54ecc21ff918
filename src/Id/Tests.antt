-- ===== src/Id/Tests.antt =====
-- Packets on which the theorems about src/csp_id.c are run.
use libcsp.Core.{ℕ, ◌≡◌, ◌↔◌, ◌⊎◌, refl, arith, [], ◌∷◌, some, true, false}
use libcsp.Core.Memory.{slice}
use libcsp.Packet.{data_begin}
use libcsp.Samples.{ping_id, blank, ping, can0}
use libcsp.Id.{prepend, strip, is_broadcast, id1_pack}
use libcsp.Id.Wire.{frame_bytes, receive_frame, strip-receive_frame}
use libcsp.Id.Broadcast.{is_broadcast_iff, IsSubnetBroadcast}

ping_wire : frame_bytes (prepend 1 ping) ≡ 0x95 ∷ 0xb0 ∷ 0x61 ∷ 0x01 ∷ 10 ∷ 20 ∷ 30 ∷ []
unfolding prepend id1_pack
ping_wire = refl

strip-receive_frame_example :
    let q = receive_frame 1 blank (frame_bytes (prepend 1 ping)) in
    (strip 1 q ≡ some (record q { length = 3; id = ping_id }))
    × (slice q.mem data_begin 3 ≡ 10 ∷ 20 ∷ 30 ∷ [])
strip-receive_frame_example = strip-receive_frame 1 ping blank refl refl (omega arith) (omega arith)

-- 14 - 8 bits of host: 0x13f is the last address of the net of 0x105.
is_broadcast_example :
    (is_broadcast 2 0x13f can0 ≡ true)
    ↔ (IsSubnetBroadcast 14 8 0x105 0x13f ⊎ (◌≡◌ {A = ℕ} 0x13f 0x3fff))
is_broadcast_example = is_broadcast_iff 2 0x13f can0 (omega arith)

is_broadcast_run : (is_broadcast 2 0x13f can0 ≡ true) × (is_broadcast 2 0x17f can0 ≡ false)
unfolding is_broadcast
is_broadcast_run = (refl, refl)
