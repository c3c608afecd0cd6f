-- ===== src/Server/Machine.antt =====
-- The server on bytes: each session's receive buffer (GameServer/Session.cpp), from which the loop
-- of ProcessBuffer calls HandlePacket with a pointer to the payload.
use mmorpg_simulator.Common.{ℕ, suc, Option, none, some, List, [], ◌∷◌, ◌++◌, update}
use mmorpg_simulator.Framing.Loop.{loop}
use mmorpg_simulator.World.Data.{World}
use mmorpg_simulator.Server.{handle_packet, on_accept, on_disconnect, cut}
use mmorpg_simulator.Wire.Requests.{read_request}

-- What has come in and has not been handled, by session.
pub record Machine : Type 0 where
  pub world : World
  pub buffers : ℕ → List ℕ

-- A completed accept, a completed read with its bytes, and the failures.
pub data Arrival : Type 0 where
  opened : Arrival
  received : ℕ → List ℕ → Arrival
  read_failed : ℕ → Arrival
  write_failed : ℕ → Arrival

-- HandlePacket on the type of a header and the bytes from the payload on.
abbrev pub handle_bytes : ℕ → ℕ → List ℕ → World → World
handle_bytes s code payload w = handle_packet s (read_request code payload) w

-- `stale`: what lies in the array behind the bytes in use, for each pass of the loop.
module _ (stale : ℕ → List ℕ) where
  -- ProcessBuffer. `none`: the fuel ran out.
  abbrev pub process_packets : ℕ → ℕ → List ℕ → World → Option (List ℕ × World)
  process_packets fuel s buffer w = loop stale (handle_bytes s) fuel buffer w

  abbrev pub keep_rest : ℕ → Machine → Option (List ℕ × World) → Option Machine
  keep_rest s m none = none
  keep_rest s m (some (rest, w)) = some (record { world = w; buffers = update m.buffers s rest })

  unfoldable pub machine_step : ℕ → Arrival → Machine → Option Machine
  machine_step fuel opened m =
      some (record {
        world = on_accept m.world;
        buffers = update m.buffers m.world.next_session_id [];
      })
  machine_step fuel (received s bytes) m =
      keep_rest s m (process_packets fuel s (m.buffers s ++ bytes) m.world)
  machine_step fuel (read_failed s) m = some (record m { world = on_disconnect s (cut s m.world) })
  machine_step fuel (write_failed s) m = some (record m { world = cut s m.world })

-- Arrivals one after the other, with what lies in the arrays for each of them.
unfoldable pub serve : (ℕ → ℕ → List ℕ) → ℕ → List Arrival → Machine → Option Machine
serve stale fuel [] m = some m
serve stale fuel (a ∷ arrivals) m = elim (machine_step (stale 0) fuel a m) [
  | none ↦ none
  | some m' ↦ serve (λ arrival. stale (suc arrival)) fuel arrivals m'
]
