-- ===== src/Quest.antt =====
-- Quests (GameServer/main.cpp: FindQuest, OnQuestList, OnQuestAccept, OnQuestComplete,
-- UpdateQuestProgress). A status is 0 (available), 1 (accepted), 2 (completable) or 3 (completed).
pub mod Book
pub mod Lifecycle
pub mod Reward
pub mod Kills
pub mod Frame
use mmorpg_simulator.Common.{
  ℕ, ◌+◌, Bool, true, false, not, ◌||◌, Option, none, some, List, [], ◌∷◌, ◌==◌, ltb, leb,
  if◌then◌else◌, take, map, Text, codes, u16, u32, u64, update,
}
use mmorpg_simulator.Protocol.{
  Packet, max_quest_list, error, quest_list, quest_accept_result, quest_reward, quest_progress,
  exp_update,
}
use mmorpg_simulator.Protocol.Payloads.{QuestEntry, QuestAcceptResult, QuestReward}
use mmorpg_simulator.Protocol.Requests.{QuestAccept, QuestComplete}
use mmorpg_simulator.World.Data.{World, Session, Player, QuestData, QuestProgress, ProcCall}
use mmorpg_simulator.World.Sessions.{player, set_player, send, post}
use mmorpg_simulator.World.Database.{save_quest_progress}
use mmorpg_simulator.Item.{give_item}
use mmorpg_simulator.Level.{check_level_up}
use mmorpg_simulator.Movement.{is_near_quest_npc}
use mmorpg_simulator.Status.{send_char_info}

unfoldable pub find_quest : List QuestData → ℕ → Option QuestData
find_quest [] id = none
find_quest (q ∷ qs) id = if q.id == id then some q else find_quest qs id

-- A player's std::map from quest ids to progress: its entries in the order of the ids.
abbrev pub QuestBook : Type 0
QuestBook = List (ℕ × QuestProgress)

unfoldable pub find_progress : QuestBook → ℕ → Option QuestProgress
find_progress [] id = none
find_progress ((k, v) ∷ b) id = if k == id then some v else find_progress b id

-- The entry that operator[] makes.
abbrev pub available : QuestProgress
available = record { status = 0; progress = 0 }

abbrev pub or_available : Option QuestProgress → QuestProgress
or_available none = available
or_available (some v) = v

abbrev pub progress_of : QuestBook → ℕ → QuestProgress
progress_of b id = or_available (find_progress b id)

unfoldable pub put_progress : QuestBook → ℕ → QuestProgress → QuestBook
put_progress [] id v = (id, v) ∷ []
put_progress ((k, u) ∷ b) id v =
    if ltb id k
    then (id, v) ∷ (k, u) ∷ b
    else if k == id
    then (k, v) ∷ b
    else (k, u) ∷ put_progress b id v

abbrev pub set_book : ℕ → QuestBook → World → World
set_book s b w = record w { quest_progress = update w.quest_progress s b }

abbrev quest_entry : QuestBook → QuestData → QuestEntry
quest_entry b q = record {
  quest_id = q.id;
  name = take 31 q.name;
  status = (progress_of b q.id).status;
  progress = (progress_of b q.id).progress;
  target = q.target;
}

unfoldable pub on_quest_list : ℕ → World → World
on_quest_list s w =
    if not (is_near_quest_npc (player w s))
    then send s (error (record { error_code = 3; message = codes "Not near Quest NPC" })) w
    else send s (quest_list (map (quest_entry (w.quest_progress s)) (take max_quest_list w.quests)))
        w

abbrev accept_result : ℕ → ℕ → Text → QuestAcceptResult
accept_result success id message = record { success = success; quest_id = id; message = message }

accept_quest : ℕ → ℕ → World → World
accept_quest s id w =
    let accepted : QuestProgress = record { status = 1; progress = 0 } in
    let w1 = set_book s (put_progress (w.quest_progress s) id accepted) w in
    let w2 = save_quest_progress (player w s).char_uid id 1 0 w1 in
    send s (quest_accept_result (accept_result 1 id (codes "Quest accepted!"))) w2

unfoldable pub on_quest_accept : ℕ → QuestAccept → World → World
unfolding accept_quest
on_quest_accept s req w =
    let id = req.quest_id in
    let refuse : Text → World = λ why. send s (quest_accept_result (accept_result 0 id why)) w in
    let status = (progress_of (w.quest_progress s) id).status in
    if not (is_near_quest_npc (player w s))
    then refuse (codes "Not near Quest NPC")
    else elim (find_quest w.quests id) [
      | none ↦ refuse (codes "Quest not found")
      | some q ↦
          if status == 1 || status == 2
          then refuse (codes "Already accepted")
          else if status == 3
          then refuse (codes "Already completed")
          else accept_quest s id w
    ]

abbrev pub no_reward : ℕ → Text → QuestReward
no_reward id why = record {
  success = 0;
  quest_id = id;
  reward_gold = 0;
  reward_exp = 0;
  reward_item_id = 0;
  message = why;
}

-- `if (quest->rewardItemId > 0)`
unfoldable pub reward_item : ℕ → ℕ → World → World
reward_item s tid w = if ltb 0 tid then give_item s tid w else w

unfoldable pub complete_quest : ℕ → QuestData → QuestProgress → ℕ → World → World
unfolding reward_item
complete_quest s q v id w =
    let p = player w s in
    let w1 = set_book s (put_progress (w.quest_progress s) id (record v { status = 3 })) w in
    let w2 = save_quest_progress p.char_uid id 3 v.progress w1 in
    let w3 =
      set_player s
        (record p { gold = u64 (p.gold + q.reward_gold); exp = u64 (p.exp + q.reward_exp) }) w2 in
    let w4 = reward_item s q.reward_item_id w3 in
    let p4 = player w4 s in
    let w5 = send s (exp_update (record { exp = u32 p4.exp; max_exp = p4.max_exp })) w4 in
    let w6 = send_char_info s (check_level_up s w5) in
    send s
      (quest_reward (record {
        success = 1;
        quest_id = id;
        reward_gold = q.reward_gold;
        reward_exp = q.reward_exp;
        reward_item_id = q.reward_item_id;
        message = codes "Quest completed!";
      }))
      w6

unfoldable pub on_quest_complete : ℕ → QuestComplete → World → World
on_quest_complete s req w =
    let id = req.quest_id in
    let refuse : Text → World = λ why. send s (quest_reward (no_reward id why)) w in
    if not (is_near_quest_npc (player w s))
    then refuse (codes "Not near Quest NPC")
    else elim (find_quest w.quests id) [
      | none ↦ refuse (codes "Quest not found")
      | some q ↦ elim (find_progress (w.quest_progress s) id) [
        | none ↦ refuse (codes "Quest not completable")
        | some v ↦
            if v.status == 2
            then complete_quest s q v id w
            else refuse (codes "Quest not completable")
      ]
    ]

-- An entry that UpdateQuestProgress has moved on.
pub record Advance : Type 0 where
  pub quest_id : ℕ
  pub status : ℕ
  pub progress : ℕ
  pub target : ℕ

-- The loop's body for one entry; `none` for an entry that `continue` skips.
unfoldable pub advance : List QuestData → ℕ → QuestProgress → Option Advance
advance qs id v =
    if v.status == 1
    then elim (find_quest qs id) [
      | none ↦ none
      | some q ↦
          let progress = u16 (v.progress + 1) in
          some (record {
            quest_id = id;
            status = if leb q.target progress then 2 else v.status;
            progress = progress;
            target = q.target;
          })
    ]
    else none

abbrev pub kept : QuestProgress → Option Advance → QuestProgress
kept v none = v
kept v (some a) = record { status = a.status; progress = a.progress }

unfoldable pub advance_book : List QuestData → QuestBook → QuestBook
unfolding advance
advance_book qs [] = []
advance_book qs ((id, v) ∷ b) = (id, kept v (advance qs id v)) ∷ advance_book qs b

pub save_each : List QuestData → ℕ → QuestBook → List ProcCall → List ProcCall
unfolding advance
save_each qs uid [] calls = calls
save_each qs uid ((id, v) ∷ b) calls = save_each qs uid b (elim (advance qs id v) [
  | none ↦ calls
  | some a ↦ ProcCall.quest_save uid id a.status a.progress ∷ calls
])

pub note_each :
    List QuestData → (ℕ → Session) → ℕ → QuestBook → List (ℕ × Packet) → List (ℕ × Packet)
unfolding advance
note_each qs heap s [] sent = sent
note_each qs heap s ((id, v) ∷ b) sent = note_each qs heap s b (elim (advance qs id v) [
  | none ↦ sent
  | some a ↦
      post heap s
        (quest_progress (record { quest_id = id; progress = a.progress; target = a.target })) sent
])

unfoldable pub update_quest_progress : ℕ → World → World
unfolding advance_book save_each note_each
update_quest_progress s w =
    let b = w.quest_progress s in
    record (set_book s (advance_book w.quests b) w) {
      calls = save_each w.quests (player w s).char_uid b w.calls;
      sent = note_each w.quests w.heap s b w.sent;
    }
