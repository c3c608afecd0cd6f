-- ===== src/Client/Receiving.antt =====
-- RecvLoop and ProcessPackets of GameClient/TcpClient.cpp.
use mmorpg_simulator.Common.{
  ℕ, ◌<◌, ◌≡◌, refl, ap, ◌∙◌, Option, none, some, List, [], ◌∷◌, ◌++◌, All, length,
}
use mmorpg_simulator.Framing.RoundTrip.{IsPartial, frames}
use mmorpg_simulator.Framing.Chunks.{stream}
use mmorpg_simulator.Framing.Loop.{IsWritten, packets_for, act_each}
use mmorpg_simulator.Framing.Reads.{loop_reads, loop_reads-act_each}
use mmorpg_simulator.Protocol.{Packet}
use mmorpg_simulator.Wire.Answers.{answer_packet, read_packet}
use mmorpg_simulator.Wire.Telling.{FitsPacket, read-answer, answer-IsSendable}
use mmorpg_simulator.Client.State.{ClientState}
use mmorpg_simulator.Client.Dispatch.{handle_answer, handle_answers}

-- A type without a handler is passed over.
abbrev pub handle_known : Option Packet → ClientState → ClientState
handle_known none c = c
handle_known (some k) c = handle_answer k c

abbrev pub answer_bytes : ℕ → List ℕ → ClientState → ClientState
answer_bytes code payload c = handle_known (read_packet code payload) c

-- The reads of RecvLoop, each followed by ProcessPackets. `stale`: what lies in memory behind the
-- bytes in use, for each read and each pass of its loop.
unfoldable pub recv_loop :
    (ℕ → ℕ → List ℕ) → ℕ → List (List ℕ) → List ℕ → ClientState → Option (List ℕ × ClientState)
recv_loop stale fuel chunks buffer c = loop_reads stale answer_bytes fuel chunks buffer c

All-IsWritten :
    (ks : List Packet)
    → All FitsPacket ks
    → All (IsWritten answer_bytes answer_packet handle_answer) ks
All-IsWritten [] h = h
All-IsWritten (k ∷ ks) h = (
  record {
    sendable = answer-IsSendable k h.0;
    known = λ more c. ap (λ o. handle_known o c) (read-answer k more h.0);
  },
  All-IsWritten ks h.1,
)

act_each-handle_answers :
    (ks : List Packet) (c : ClientState) → act_each handle_answer ks c ≡ handle_answers ks c
unfolding handle_answers
act_each-handle_answers [] c = refl
act_each-handle_answers (k ∷ ks) c = act_each-handle_answers ks (handle_answer k c)

-- Packets that the server sent one after the other, with values that fit, and with an unfinished one
-- behind them, are handled by the client each once and in their order, however the bytes are cut into
-- reads and whatever lies behind the bytes in use, given more fuel than there are bytes; what is
-- unfinished stays in the buffer.
pub recv_loop-handle_answers :
    (stale : ℕ → ℕ → List ℕ) (fuel : ℕ) (chunks : List (List ℕ)) (buffer : List ℕ)
    (ks : List Packet) (rest : List ℕ) (c : ClientState)
    → All FitsPacket ks
    → IsPartial rest
    → IsPartial buffer
    → buffer ++ stream chunks ≡ frames (packets_for answer_packet ks) ++ rest
    → length (buffer ++ stream chunks) < fuel
    → recv_loop stale fuel chunks buffer c ≡ some (rest, handle_answers ks c)
unfolding recv_loop
recv_loop-handle_answers stale fuel chunks buffer ks rest c h partial part e lt =
    loop_reads-act_each answer_bytes answer_packet handle_answer stale fuel chunks buffer ks rest c
      (All-IsWritten ks h) partial part e lt
    ∙ ap (λ c'. some (rest, c')) (act_each-handle_answers ks c)
