-- ===== src/Framing/Overlong.antt =====
-- Packets that are longer than the receive buffer of Session (GameServer/Session.h).
use mmorpg_simulator.Common.{
  ℕ, suc, ◌≤◌, ◌<◌, ◌≡◌, sym, ap, inr, some, List, [], ◌∷◌, ◌++◌, arith, length, length-append,
}
use mathlib.Core.List.{append_assoc, append-nil}
use mmorpg_simulator.Protocol.{max_recv_buffer_size}
use mmorpg_simulator.Framing.{process_buffer, packet_length}
use mmorpg_simulator.Framing.RoundTrip.{process-partial}
use mmorpg_simulator.Framing.Chunks.{receive, stream}
use mmorpg_simulator.Framing.Delivery.{word-append}

-- A header at the front of the buffer that says more bytes than the buffer can hold stays there:
-- reads that do not overfill the buffer, however many, hand over no packet, and only fill it.
pub overlong_stuck :
    (fuel : ℕ) (cs : List (List ℕ)) (buffer : List ℕ)
    → 4 ≤ length buffer
    → max_recv_buffer_size < packet_length buffer
    → length (buffer ++ stream cs) ≤ max_recv_buffer_size
    → receive (suc fuel) cs buffer ≡ some ([], buffer ++ stream cs)
unfolding receive stream
overlong_stuck fuel [] buffer size long room = ap (λ b. some ([], b)) (sym (append-nil buffer))
overlong_stuck fuel (c ∷ cs) buffer size long room =
    let e : (buffer ++ c) ++ stream cs ≡ buffer ++ (c ++ stream cs) =
      append_assoc buffer c (stream cs) in
    let same : packet_length (buffer ++ c) ≡ packet_length buffer =
      word-append buffer c (omega (arith, size)) in
    let room' : length ((buffer ++ c) ++ stream cs) ≤ max_recv_buffer_size =
      omega (arith, room, ap length e) in
    let stays : process_buffer (suc fuel) (buffer ++ c) ≡ some ([], buffer ++ c) =
      process-partial fuel (buffer ++ c)
        (inr (omega (arith, room', same, long, length-append (buffer ++ c) (stream cs)))) in
    let later : receive (suc fuel) cs (buffer ++ c) ≡ some ([], (buffer ++ c) ++ stream cs) =
      overlong_stuck fuel cs (buffer ++ c) (omega (arith, size, length-append buffer c))
        (omega (arith, same, long)) room' in
    rw (stays, receive, later) (ap (λ b. some ([], b)) e)
