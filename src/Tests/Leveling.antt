-- ===== src/Tests/Leveling.antt =====
-- Levels.
use mmorpg_simulator.Common.{◌≡◌, ◌<◌, ◌+◌, ◌*◌, refl, arith, length}
use mmorpg_simulator.World.Data.{Player, new_player}
use mmorpg_simulator.Level.{leveled, level_rounds}
use mmorpg_simulator.Level.Gains.{After, leveled-After}
use mmorpg_simulator.Level.Termination.{leveled_ends}

abbrev veteran : Player
veteran = record new_player { exp = 350 }

rounds_of_veteran : length (level_rounds veteran) ≡ 2
unfolding level_rounds
rounds_of_veteran = refl

leveled-After_example :
    After veteran (length (level_rounds veteran)) (leveled veteran)
    × ((leveled veteran).exp < (1 + length (level_rounds veteran)) * 100)
leveled-After_example = leveled-After veteran refl (omega (arith, rounds_of_veteran))

leveled_ends_example : (leveled veteran).exp < (leveled veteran).max_exp
leveled_ends_example = leveled_ends veteran (omega arith)
