-- ===== src/Tests/Questing.antt =====
-- Quests.
use mmorpg_simulator.Common.{ℕ, ◌≡◌, refl, List, [], ◌∷◌, Text, arith, if◌then◌else◌, ltb}
use mmorpg_simulator.Protocol.{quest_reward}
use mmorpg_simulator.Protocol.Requests.{QuestComplete}
use mmorpg_simulator.World.Data.{World, QuestProgress}
use mmorpg_simulator.World.Sessions.{player, send}
use mmorpg_simulator.Level.{leveled}
use mmorpg_simulator.Movement.{is_near_quest_npc}
use mmorpg_simulator.Quest.{
  on_quest_accept, on_quest_complete, find_quest, find_progress, put_progress, no_reward, set_book,
}
use mmorpg_simulator.Quest.Lifecycle.{
  quest_state, CanComplete, QuestEvent, accepts, kills, quest_events,
}
use mmorpg_simulator.Quest.Reward.{complete_pays, pays_once, rewarded}
use mmorpg_simulator.Quest.Kills.{kill_times, counting, kills_to_target, finished}
use mmorpg_simulator.Tests.Town.{town, ann, goblin_slayer}

abbrev with_quest : ℕ → ℕ → World
with_quest status progress =
    set_book 1 ((1, record { status = status; progress = progress }) ∷ []) town

abbrev won : QuestProgress
won = record { status = 2; progress = 3 }

can_complete : CanComplete 1 1 (with_quest 2 3) goblin_slayer won
unfolding is_near_quest_npc find_quest find_progress
can_complete = record { near = refl; known = refl; started = refl; completable = refl }

abbrev again : QuestComplete
again = record { quest_id = 1 }

complete_pays_example :
    (player (on_quest_complete 1 again (with_quest 2 3)) 1 ≡ leveled (rewarded ann goblin_slayer))
    × ((quest_state 1 1 (on_quest_complete 1 again (with_quest 2 3))).status ≡ 3)
complete_pays_example = complete_pays 1 again (with_quest 2 3) goblin_slayer won can_complete

abbrev afterwards : List QuestEvent
afterwards = kills ∷ accepts (record { quest_id = 1 }) ∷ kills ∷ []

pays_once_example :
    let w' = quest_events 1 afterwards (on_quest_complete 1 again (with_quest 2 3)) in
    (why : Text) × (on_quest_complete 1 again w' ≡ send 1 (quest_reward (no_reward 1 why)) w')
pays_once_example = pays_once 1 again (with_quest 2 3) goblin_slayer won afterwards can_complete

kills_to_target_example :
    quest_state 1 1 (kill_times 1 3 (with_quest 1 0))
    ≡ (if ltb 3 goblin_slayer.target then counting 3 else finished goblin_slayer)
unfolding find_quest find_progress
kills_to_target_example =
    kills_to_target 1 1 (with_quest 1 0) goblin_slayer refl refl (omega arith) 3 (omega arith)
      (omega arith)

accepted : quest_state 1 1 (on_quest_accept 1 (record { quest_id = 1 }) town) ≡ counting 0
unfolding on_quest_accept is_near_quest_npc find_quest find_progress put_progress
accepted = refl
