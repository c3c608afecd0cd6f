-- ===== src/Client/Dispatch.antt =====
-- The handlers that main of GameClient/main.cpp sets, and the loop that calls them.
use mmorpg_simulator.Common.{List, [], ◌∷◌}
use mmorpg_simulator.Protocol.{
  Packet, attack_result, attendance_info, attendance_result, char_create_result, char_info,
  char_leave, char_list, chat, equip_result, error, exp_update, heartbeat, inventory_list,
  inventory_update, item_drop, item_use_result, level_up, login_result, move_result, npc_death,
  npc_spawn, party_invite, party_leave, party_update, quest_accept_result, quest_list,
  quest_progress, quest_reward, shop_list, shop_result,
}
use mmorpg_simulator.Client.State.{ClientState}
use mmorpg_simulator.Client.Field
use mmorpg_simulator.Client.Belongings
use mmorpg_simulator.Client.Company

-- A packet and the handler of its type.
unfoldable pub handle_answer : Packet → ClientState → ClientState
handle_answer (login_result r) c = Field.on_login_result r c
handle_answer (char_list r) c = Field.on_char_list_result r c
handle_answer (char_create_result r) c = Field.on_char_create_result r c
handle_answer (char_info r) c = Field.on_char_info r c
handle_answer (char_leave r) c = Field.on_char_leave r c
handle_answer (attendance_info r) c = Field.on_attendance_info r c
handle_answer (attendance_result r) c = Field.on_attendance_result r c
handle_answer (move_result r) c = Field.on_move_result r c
handle_answer (attack_result r) c = Field.on_attack_result r c
handle_answer (npc_spawn r) c = Field.on_npc_spawn r c
handle_answer (npc_death r) c = Field.on_npc_death r c
handle_answer (exp_update r) c = Field.on_exp_update r c
handle_answer (level_up r) c = Field.on_level_up r c
handle_answer (chat r) c = Company.on_chat_msg r c
handle_answer (item_drop r) c = Belongings.on_item_drop r c
handle_answer (item_use_result r) c = Belongings.on_item_use_result r c
handle_answer (equip_result r) c = Belongings.on_equip_result r c
handle_answer (inventory_update r) c = Belongings.on_inventory_update r c
handle_answer (inventory_list r) c = Belongings.on_inventory_list r c
handle_answer (shop_list r) c = Belongings.on_shop_list r c
handle_answer (shop_result r) c = Belongings.on_shop_result r c
handle_answer (quest_list r) c = Company.on_quest_list_result r c
handle_answer (quest_accept_result r) c = Company.on_quest_accept_result r c
handle_answer (quest_progress r) c = Company.on_quest_progress_update r c
handle_answer (quest_reward r) c = Company.on_quest_reward_result r c
handle_answer (party_invite r) c = Company.on_party_invite_recv r c
handle_answer (party_update r) c = Company.on_party_update_recv r c
handle_answer (party_leave r) c = Company.on_party_leave_recv r c
handle_answer (error r) c = Company.on_error r c
-- OnHeartbeat does nothing.
handle_answer heartbeat c = c

unfoldable pub handle_answers : List Packet → ClientState → ClientState
handle_answers [] c = c
handle_answers (k ∷ ks) c = handle_answers ks (handle_answer k c)
