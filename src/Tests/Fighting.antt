-- ===== src/Tests/Fighting.antt =====
-- Fights and drops.
use mmorpg_simulator.Common.{
  ◌≡◌, ◌+◌, ◌/◌, ◌&&◌, refl, none, some, [], ◌∷◌, arith, u64, update, contains, if◌then◌else◌,
}
use mmorpg_simulator.Protocol.Requests.{Attack}
use mmorpg_simulator.World.Data.{World, DropEntry}
use mmorpg_simulator.World.Sessions.{has_session}
use mmorpg_simulator.Item.{pick_drop}
use mmorpg_simulator.Item.Drop.{pick_drop-share}
use mmorpg_simulator.Combat.{share_reward}
use mmorpg_simulator.Combat.Rewards.{gold, party_gold}
use mmorpg_simulator.Tests.Town.{town, drops, goblin}

abbrev strike : Attack
strike = record { target_uid = 1 }

abbrev together : World
together = record town {
  parties = update (λ _. none) 1 (some (record { id = 1; members = 1 ∷ 2 ∷ [] }));
  player_party = update (update (λ _. none) 1 (some 1)) 2 (some 1);
}

party_gold_example :
    gold (share_reward 1 (goblin 1 0) together) 2
    ≡ (if contains (1 ∷ 2 ∷ []) 2 && has_session together 2 then u64 (0 + 10 / 2) else 0)
party_gold_example = party_gold 1 1 (goblin 1 0) together 2 refl (ground arith)

abbrev rare : DropEntry
rare = record { item_id = 3; weight = 20 }

pick_drop-share_example : pick_drop drops 25 0 ≡ 3
pick_drop-share_example =
    pick_drop-share (record { item_id = 1; weight = 20 } ∷ []) rare
      (record { item_id = 5; weight = 40 } ∷ []) 25 0 (omega arith) (omega arith)
