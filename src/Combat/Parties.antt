-- ===== src/Combat/Parties.antt =====
-- An attack leaves the parties alone, as long as their maps are linked.
use mmorpg_simulator.Common.{ℕ, ◌≡◌, arith}
use mmorpg_simulator.Protocol.Requests.{Attack}
use mmorpg_simulator.World.Data.{World, Npc}
use mmorpg_simulator.World.Sessions.{broadcast}
use mmorpg_simulator.Quest.{update_quest_progress}
use mmorpg_simulator.Party.Links.{IsLinked}
use mmorpg_simulator.Party.Joining.{looked_up-same}
use mmorpg_simulator.Combat.{on_attack, hit_npc, kill_npc, bury_npc, respawn_first, spawn_npc}
use mmorpg_simulator.Combat.Frame.{opened, share_reward-IsQuiet, drop_item-IsQuiet}

pub record SameParties (w w' : World) : Type 0 where
  pub parties : w'.parties ≡ w.parties
  pub player_party : w'.player_party ≡ w.player_party
  pub next_party_id : w'.next_party_id ≡ w.next_party_id

pub SameParties-IsLinked : (w w' : World) → SameParties w w' → IsLinked w → IsLinked w'
SameParties-IsLinked w w' same h = rw (same.parties, same.player_party, same.next_party_id) h

respawn_first-SameParties : (w : World) → SameParties w (respawn_first w)
unfolding respawn_first spawn_npc
respawn_first-SameParties w = ground arith

bury_npc-SameParties : (s i : ℕ) (n : Npc) (w : World) → SameParties (opened s w) (bury_npc s i n w)
unfolding bury_npc broadcast update_quest_progress
bury_npc-SameParties s i n w = grind (arith, share_reward-IsQuiet, drop_item-IsQuiet)

hit_npc-SameParties : (s i : ℕ) (n : Npc) (w : World) → IsLinked w → SameParties w (hit_npc s i n w)
unfolding hit_npc kill_npc
hit_npc-SameParties s i n w h =
    grind (arith, bury_npc-SameParties, respawn_first-SameParties, looked_up-same s w h)

pub attack-SameParties :
    (s : ℕ) (req : Attack) (w : World) → IsLinked w → SameParties w (on_attack s req w)
unfolding on_attack
attack-SameParties s req w h = grind (arith, hit_npc-SameParties)
