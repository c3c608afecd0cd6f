-- ===== src/Server/Serving.antt =====
-- A client's requests as packets, and what the server does with each.
use mmorpg_simulator.Common.{ℕ, ◌≡◌, refl, ap, List, [], ◌∷◌, All}
use mmorpg_simulator.Framing.{Incoming}
use mmorpg_simulator.Framing.Loop.{IsWritten, packets_for, act_each}
use mmorpg_simulator.World.Data.{World}
use mmorpg_simulator.Server.{handle_packet, step, run, packet, Event}
use mmorpg_simulator.Server.Packets.{Request}
use mmorpg_simulator.Server.Machine.{handle_bytes}
use mmorpg_simulator.Wire.Requests.{request_packet}
use mmorpg_simulator.Wire.Reading.{FitsRequest, read-packet, packet-IsSendable}

abbrev pub asked : List Request → List Incoming
asked rs = packets_for request_packet rs

abbrev pub packets_of : ℕ → List Request → List Event
packets_of s [] = []
packets_of s (r ∷ rs) = packet s r ∷ packets_of s rs

pub All-IsWritten :
    (s : ℕ) (rs : List Request)
    → All FitsRequest rs
    → All (IsWritten (handle_bytes s) request_packet (handle_packet s)) rs
All-IsWritten s [] h = h
All-IsWritten s (r ∷ rs) h = (
  record {
    sendable = packet-IsSendable r h.0;
    known = λ more w. ap (λ q. handle_packet s q w) (read-packet r more h.0);
  },
  All-IsWritten s rs h.1,
)

pub act_each-run :
    (s : ℕ) (rs : List Request) (w : World)
    → act_each (handle_packet s) rs w ≡ run (packets_of s rs) w
unfolding run step
act_each-run s [] w = refl
act_each-run s (r ∷ rs) w = act_each-run s rs (handle_packet s r w)
