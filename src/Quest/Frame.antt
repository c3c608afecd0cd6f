-- ===== src/Quest/Frame.antt =====
-- What completing a quest leaves alone.
use mmorpg_simulator.Common.{ℕ, arith, inl, inr}
use mmorpg_simulator.Protocol.Requests.{QuestComplete}
use mmorpg_simulator.World.Data.{World, QuestData, QuestProgress}
use mmorpg_simulator.World.Quiet.{IsQuiet}
use mmorpg_simulator.Item.Frame.{give_item-IsQuiet}
use mmorpg_simulator.Quest.{reward_item, complete_quest, on_quest_complete}
use mmorpg_simulator.Quest.Lifecycle.{complete_cases}

reward_item-IsQuiet : (s tid : ℕ) (w : World) → IsQuiet w (reward_item s tid w)
unfolding reward_item
reward_item-IsQuiet s tid w = ground (arith, give_item-IsQuiet s tid w)

complete_quest-IsQuiet :
    (s : ℕ) (q : QuestData) (v : QuestProgress) (id : ℕ) (w : World)
    → IsQuiet w (complete_quest s q v id w)
unfolding complete_quest
complete_quest-IsQuiet s q v id w = grind (arith, reward_item-IsQuiet)

pub complete-IsQuiet :
    (s : ℕ) (req : QuestComplete) (w : World) → IsQuiet w (on_quest_complete s req w)
complete-IsQuiet s req w = elim (complete_cases s req w) [
  | inl (why, e) ↦ rw e (ground arith)
  | inr (q, v, can, e) ↦ rw e (complete_quest-IsQuiet s q v req.quest_id w)
]
