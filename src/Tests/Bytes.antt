-- ===== src/Tests/Bytes.antt =====
-- The server on bytes.
use mmorpg_simulator.Common.{
  ℕ, suc, ◌≡◌, refl, ap, inl, some, ◌⊎◌, List, [], ◌∷◌, ◌++◌, arith, length, zero, codes,
}
use mmorpg_simulator.Common.Int.{pos, negsuc}
use mmorpg_simulator.Protocol.Types.{type_code}
use mmorpg_simulator.Framing.{frame}
use mmorpg_simulator.Framing.Chunks.{receive, stream}
use mmorpg_simulator.Framing.Overlong.{overlong_stuck}
use mmorpg_simulator.Server.Packets.{Request, move, chat, heartbeat_check}
use mmorpg_simulator.Server.Machine
use mmorpg_simulator.Server.Machine.{Machine, Arrival}
use mmorpg_simulator.Server.Interleaved.{IsFed, IsServed, bytes_for, serve-IsServed}
use mmorpg_simulator.Server.Refined.{IsRefined, IsCaught, serve-IsRefined}
use mmorpg_simulator.Wire.Requests.{request_packet, read_request}
use mmorpg_simulator.Wire.Reading.{read-packet}
use mmorpg_simulator.Tests.Town.{town}

abbrev whisper : Request
whisper = chat (record { channel = 1; target_name = codes "bob"; message = codes "hi" })

read-packet_example : read_request 0x0601 ((request_packet whisper).body ++ 1 ∷ 2 ∷ []) ≡ whisper
unfolding request_packet type_code
read-packet_example = read-packet whisper (1 ∷ 2 ∷ []) omega arith

abbrev to_left : Request
to_left = move (record { dir_x = negsuc 0; dir_y = pos 0 })

-- Ann's step comes in two pieces, with bob's heartbeat between them.
abbrev pieces : List (ℕ × List ℕ)
pieces = (1, 6 ∷ 0 ∷ 1 ∷ []) ∷ (2, 4 ∷ 0 ∷ 1 ∷ 255 ∷ []) ∷ (1, 4 ∷ 255 ∷ 0 ∷ []) ∷ []

abbrev sent : ℕ → List Request
sent (suc zero) = to_left ∷ []
sent (suc (suc zero)) = heartbeat_check ∷ []
sent _ = []

abbrev idle : Machine
idle = record { world = town; buffers = λ t. [] }

nobody_else : (t : ℕ) → bytes_for (suc (suc (suc t))) pieces ≡ []
nobody_else t = ground arith

pieces-IsFed : (t : ℕ) → IsFed 20 [] (bytes_for t pieces) (sent t) []
unfolding frame request_packet type_code
pieces-IsFed zero = record {
  fits = tt;
  begun = inl (omega arith);
  unfinished = inl (omega arith);
  bytes = refl;
  enough = omega arith;
}
pieces-IsFed (suc zero) = record {
  fits = omega arith;
  begun = inl (omega arith);
  unfinished = inl (omega arith);
  bytes = refl;
  enough = omega arith;
}
pieces-IsFed (suc (suc zero)) = record {
  fits = omega arith;
  begun = inl (omega arith);
  unfinished = inl (omega arith);
  bytes = refl;
  enough = omega arith;
}
pieces-IsFed (suc (suc (suc t))) = record {
  fits = tt;
  begun = inl (omega arith);
  unfinished = inl (omega arith);
  bytes = nobody_else t;
  enough = omega (arith, ap length (nobody_else t));
}

serve-IsServed_example : IsServed (λ read pass. []) 20 pieces idle sent (λ t. [])
serve-IsServed_example = serve-IsServed (λ read pass. []) 20 pieces idle sent (λ t. []) pieces-IsFed

abbrev arrivals : List Arrival
arrivals = Machine.opened ∷ Machine.received 1 (6 ∷ 0 ∷ 1 ∷ 4 ∷ 9 ∷ []) ∷ Machine.read_failed 1 ∷ []

serve-IsRefined_example :
    IsRefined (λ read pass. pass ∷ []) 20 arrivals idle
    ⊎ IsCaught (λ read pass. pass ∷ []) 20 arrivals idle
serve-IsRefined_example =
    serve-IsRefined (λ read pass. pass ∷ []) 20 arrivals idle (λ t. omega arith)

-- A header that says 65535 bytes, and two reads behind it.
abbrev long_header : List ℕ
long_header = 255 ∷ 255 ∷ 1 ∷ 1 ∷ []

overlong_stuck_example :
    receive 5 ((7 ∷ []) ∷ (8 ∷ 9 ∷ []) ∷ []) long_header
    ≡ some ([], 255 ∷ 255 ∷ 1 ∷ 1 ∷ 7 ∷ 8 ∷ 9 ∷ [])
unfolding stream
overlong_stuck_example =
    overlong_stuck 4 ((7 ∷ []) ∷ (8 ∷ 9 ∷ []) ∷ []) long_header (omega arith) (omega arith)
      (omega arith)
