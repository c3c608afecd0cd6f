-- ===== src/Tests/Moving.antt =====
-- Moves.
use mmorpg_simulator.Common.{◌≡◌, arith, if◌then◌else◌, ◌==◌}
use mmorpg_simulator.Common.Int.{pos, negsuc}
use mmorpg_simulator.Protocol.Requests.{Move}
use mmorpg_simulator.World.Sessions.{player}
use mmorpg_simulator.Movement.{on_move}
use mmorpg_simulator.Movement.Bounds.{move-stepped, stepped}
use mmorpg_simulator.Tests.Town.{town, ann}

abbrev west : Move
west = record { dir_x = negsuc 0; dir_y = pos 0 }

move-stepped_example : player (on_move 1 west town) 1 ≡ (if 1 == 1 then stepped ann west else ann)
move-stepped_example = move-stepped 1 west town 1 (omega arith) (omega arith) (omega arith)
