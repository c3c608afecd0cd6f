-- ===== src/Client/Company.antt =====
-- The handlers of GameClient/main.cpp for quests, parties, chat and errors.
use mmorpg_simulator.Common.{
  ℕ, zero, suc, ◌==◌, ltb, leb, true, if◌then◌else◌, List, [], ◌∷◌, ◌++◌, take, drop, length, map,
  Text, codes,
}
use mmorpg_simulator.Protocol.{max_party}
use mmorpg_simulator.Protocol.Payloads
use mmorpg_simulator.Client.State.{ClientState, max_chat_log}
use mmorpg_simulator.Client.Belongings.{overwrite}
use mmorpg_simulator.Client.Words.{to_string}

abbrev pub cut_quest : Payloads.QuestEntry → Payloads.QuestEntry
cut_quest e = record e { name = take 31 e.name }

unfoldable pub on_quest_list_result : List Payloads.QuestEntry → ClientState → ClientState
on_quest_list_result quests c = record c {
  quest_count = length quests;
  quest_entries = overwrite (map cut_quest quests) c.quest_entries;
  show_quest_list = true;
}

-- The first of the first `n` entries that has this id is changed.
unfoldable pub change_quest :
    ℕ
    → ℕ
    → (Payloads.QuestEntry → Payloads.QuestEntry)
    → List Payloads.QuestEntry
    → List Payloads.QuestEntry
change_quest zero id f qs = qs
change_quest (suc n) id f [] = []
change_quest (suc n) id f (q ∷ qs) =
    if q.quest_id == id then f q ∷ qs else q ∷ change_quest n id f qs

abbrev pub with_quest : ℕ → (Payloads.QuestEntry → Payloads.QuestEntry) → ClientState → ClientState
with_quest id f c = record c { quest_entries = change_quest c.quest_count id f c.quest_entries }

unfoldable pub on_quest_accept_result : Payloads.QuestAcceptResult → ClientState → ClientState
on_quest_accept_result res c =
    let c1 = record c { last_msg = res.message } in
    if res.success == 0
    then c1
    else with_quest res.quest_id (λ q. record q { status = 1; progress = 0 }) c1

unfoldable pub on_quest_progress_update : Payloads.QuestProgressNote → ClientState → ClientState
on_quest_progress_update prog c =
    record (with_quest prog.quest_id
      (λ q. record q {
        progress = prog.progress;
        target = prog.target;
        status = if leb prog.target prog.progress then 2 else q.status;
      })
      c) {
        last_msg =
            codes "[Quest] Progress: "
            ++ to_string prog.progress
            ++ codes "/"
            ++ to_string prog.target;
      }

unfoldable pub on_quest_reward_result : Payloads.QuestReward → ClientState → ClientState
on_quest_reward_result rew c =
    if rew.success == 0
    then record c { last_msg = rew.message }
    else record (with_quest rew.quest_id (λ q. record q { status = 3 }) c) {
      last_msg =
          rew.message
          ++ codes " +"
          ++ to_string rew.reward_gold
          ++ codes "G +"
          ++ to_string rew.reward_exp
          ++ codes "EXP";
    }

unfoldable pub on_party_invite_recv : Text → ClientState → ClientState
on_party_invite_recv name c = record c { pending_invite = true; inviter_name = take 19 name }

abbrev pub cut_member : Payloads.PartyMember → Payloads.PartyMember
cut_member v = record v { name = take 19 v.name }

unfoldable pub on_party_update_recv : Payloads.PartyUpdate → ClientState → ClientState
on_party_update_recv upd c = record c {
  party_count = upd.member_count;
  party_members =
      overwrite (map cut_member (take upd.member_count (take max_party upd.members)))
        c.party_members;
  last_msg = codes "Party updated (" ++ to_string upd.member_count ++ codes " members)";
}

unfoldable pub on_party_leave_recv : ℕ → ClientState → ClientState
on_party_leave_recv char_uid c =
    if char_uid == 0
    then record c { party_count = 0; last_msg = codes "Party disbanded" }
    else record c { last_msg = codes "A member left the party" }

abbrev pub chat_text : Payloads.ChatLine → Text
chat_text chat =
    (if chat.channel == 0
      then codes "[World]"
      else if chat.channel == 2
      then codes "[Party]"
      else codes "[Whisper]")
    ++ codes " "
    ++ chat.sender_name
    ++ codes ": "
    ++ chat.message

unfoldable pub on_chat_msg : Payloads.ChatLine → ClientState → ClientState
on_chat_msg chat c =
    let log = c.chat_log ++ chat_text chat ∷ [] in
    record c { chat_log = if ltb max_chat_log (length log) then drop 1 log else log }

unfoldable pub on_error : Payloads.ErrorMessage → ClientState → ClientState
on_error err c = record c { last_msg = codes "Error: " ++ err.message }
