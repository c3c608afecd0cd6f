-- ===== src/Tests/Wire.antt =====
-- Packets on the wire.
use mmorpg_simulator.Common.{ℕ, ◌≡◌, refl, ◌⊎◌, inl, none, some, List, [], ◌∷◌, arith}
use mmorpg_simulator.Framing.{Incoming, frame, process_buffer}
use mmorpg_simulator.Framing.Chunks.{receive, stream}
use mmorpg_simulator.Framing.Delivery.{receive-frames}
use mmorpg_simulator.Framing.Endless.{HasZeroLength, zero_length_endless, ends_or_zero_length}

-- A move one field to the right, and a heartbeat.
abbrev move_packet : Incoming
move_packet = record { code = 0x0401; body = 1 ∷ 0 ∷ [] }

abbrev heartbeat_packet : Incoming
heartbeat_packet = record { code = 0xff01; body = [] }

-- The move arrives in two reads.
abbrev cut_early : List (List ℕ)
cut_early = (6 ∷ []) ∷ (0 ∷ 1 ∷ 4 ∷ 1 ∷ 0 ∷ []) ∷ []

receive-frames_example : receive 20 cut_early [] ≡ some (move_packet ∷ [], [])
unfolding frame stream
receive-frames_example =
    receive-frames 20 cut_early (move_packet ∷ []) [] (omega arith) (inl (omega arith)) refl
      (omega arith)

-- A login packet whose header says length 0.
abbrev idle_header : List ℕ
idle_header = 0 ∷ 0 ∷ 1 ∷ 1 ∷ []

zero_length_endless_example : process_buffer 1000 idle_header ≡ none
zero_length_endless_example = zero_length_endless 1000 idle_header (omega arith) refl

-- A heartbeat, and the idle header behind it.
abbrev late_idle : List ℕ
late_idle = 4 ∷ 0 ∷ 1 ∷ 255 ∷ 0 ∷ 0 ∷ 1 ∷ 1 ∷ []

ends_or_zero_length_example :
    ((ks : List Incoming) × (rest : List ℕ) × (process_buffer 9 late_idle ≡ some (ks, rest)))
    ⊎ (HasZeroLength late_idle × ((more : ℕ) → process_buffer more late_idle ≡ none))
ends_or_zero_length_example = ends_or_zero_length 9 late_idle (omega arith)
