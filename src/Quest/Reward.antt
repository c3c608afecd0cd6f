-- ===== src/Quest/Reward.antt =====
-- The reward of a quest.
use mmorpg_simulator.Common.{ℕ, ◌+◌, ◌≡◌, ap, ◌∙◌, inl, inr, Text, List, arith, u64}
use mmorpg_simulator.Protocol.{quest_reward}
use mmorpg_simulator.Protocol.Requests.{QuestComplete}
use mmorpg_simulator.World.Data.{World, Player, QuestData, QuestProgress}
use mmorpg_simulator.World.Sessions.{player, send}
use mmorpg_simulator.Item.Frame.{give_item-frame}
use mmorpg_simulator.Level.{leveled}
use mmorpg_simulator.Quest.{on_quest_complete, complete_quest, reward_item, no_reward, or_available}
use mmorpg_simulator.Quest.Book.{progress_of-put_self}
use mmorpg_simulator.Quest.Lifecycle.{
  CanComplete, complete_cases, complete_quest-book, quest_state, QuestEvent, quest_events,
  completed_for_good,
}

reward_item-heap : (s tid : ℕ) (w : World) → (reward_item s tid w).heap ≡ w.heap
unfolding reward_item
reward_item-heap s tid w = ground (arith, ap (λ (v : World). v.heap) (give_item-frame s tid w))

-- The player with the gold and the experience of a quest, before the levels are counted.
abbrev pub rewarded : Player → QuestData → Player
rewarded p q = record p { gold = u64 (p.gold + q.reward_gold); exp = u64 (p.exp + q.reward_exp) }

complete_quest-player :
    (s : ℕ) (q : QuestData) (v : QuestProgress) (id : ℕ) (w : World)
    → player (complete_quest s q v id w) s ≡ leveled (rewarded (player w s) q)
unfolding complete_quest
complete_quest-player s q v id w = rw (reward_item-heap s q.reward_item_id) (ground arith)

complete_now :
    (s : ℕ) (req : QuestComplete) (w : World) (q : QuestData) (v : QuestProgress)
    → CanComplete s req.quest_id w q v
    → on_quest_complete s req w ≡ complete_quest s q v req.quest_id w
unfolding on_quest_complete
complete_now s req w q v can =
    rw (can.near, can.known, can.started, on_quest_complete) (ground (arith, can.completable))

-- Completing a quest that is completable, near the quest giver, pays its gold and its experience,
-- with the levels that follow, and marks it as completed.
pub complete_pays :
    (s : ℕ) (req : QuestComplete) (w : World) (q : QuestData) (v : QuestProgress)
    → CanComplete s req.quest_id w q v
    → (player (on_quest_complete s req w) s ≡ leveled (rewarded (player w s) q))
      × ((quest_state s req.quest_id (on_quest_complete s req w)).status ≡ 3)
complete_pays s req w q v can = rw (complete_now s req w q v can) (
  complete_quest-player s q v req.quest_id w,
  rw (complete_quest-book s q v req.quest_id w) (
      ap (λ (u : QuestProgress). u.status)
        (progress_of-put_self (w.quest_progress s) req.quest_id _)),
)

-- No quest pays twice: once a completable quest is completed, whatever requests for quests and kills
-- of the player lie in between, a further request to complete it changes nothing but for the refusal
-- that is sent.
pub pays_once :
    (s : ℕ) (req : QuestComplete) (w : World) (q : QuestData) (v : QuestProgress)
    (es : List QuestEvent)
    → CanComplete s req.quest_id w q v
    → let w' = quest_events s es (on_quest_complete s req w) in
      (why : Text) × (on_quest_complete s req w'
        ≡ send s (quest_reward (no_reward req.quest_id why)) w')
pays_once s req w q v es can =
    let w1 : World = on_quest_complete s req w in
    let w' : World = quest_events s es w1 in
    let done : (quest_state s req.quest_id w1).status ≡ 3 = (complete_pays s req w q v can).1 in
    let still : (quest_state s req.quest_id w').status ≡ 3 =
      ap (λ (u : QuestProgress). u.status) (completed_for_good s req.quest_id es w1 done) ∙ done in
    elim (complete_cases s req w') [
      | inl refused ↦ refused
      | inr (q', v', can', e) ↦
          let two : (quest_state s req.quest_id w').status ≡ 2 =
            ap (λ o. (or_available o).status) can'.started ∙ can'.completable in
          absurd (omega (arith, still, two))
    ]
