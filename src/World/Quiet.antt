-- ===== src/World/Quiet.antt =====
-- The part of the state that most handlers leave alone.
use mmorpg_simulator.Common.{◌≡◌}
use mmorpg_simulator.World.Data.{World}

-- The monsters, the parties and their two counters are as they were.
pub record IsQuiet (w w' : World) : Type 0 where
  pub npcs : w'.npcs ≡ w.npcs
  pub next_npc_uid : w'.next_npc_uid ≡ w.next_npc_uid
  pub parties : w'.parties ≡ w.parties
  pub player_party : w'.player_party ≡ w.player_party
  pub next_party_id : w'.next_party_id ≡ w.next_party_id
