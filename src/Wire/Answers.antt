-- ===== src/Wire/Answers.antt =====
-- The packets of the server as bytes, and the client's dispatch (GameClient/TcpClient.cpp and the
-- handlers that main of GameClient/main.cpp sets): each handler copies the whole struct from the
-- payload, also from the bytes behind a payload that is shorter.
use mmorpg_simulator.Common.{ℕ, List, [], ◌==◌, if◌then◌else◌, Option, none, some}
use mmorpg_simulator.Protocol.Types.{
  type_code, sc_login_result, sc_char_list, sc_char_create_result, sc_char_info, sc_char_leave,
  sc_attendance_info, sc_attendance_result, sc_move_result, sc_attack_result, sc_npc_spawn,
  sc_npc_death, sc_exp_update, sc_level_up, sc_chat, sc_item_drop, sc_item_use_result,
  sc_equip_result, sc_inventory_update, sc_inventory_list, sc_shop_list, sc_shop_result,
  sc_quest_list, sc_quest_accept_result, sc_quest_progress, sc_quest_reward, sc_party_invite,
  sc_party_update, sc_party_leave, sc_error, sc_heartbeat,
}
use mmorpg_simulator.Protocol.{
  Packet, packet_type, login_result, char_list, char_create_result, char_info, char_leave,
  attendance_info, attendance_result, move_result, attack_result, npc_spawn, npc_death, exp_update,
  level_up, chat, item_drop, item_use_result, equip_result, inventory_update, inventory_list,
  shop_list, shop_result, quest_list, quest_accept_result, quest_progress, quest_reward,
  party_invite, party_update, party_leave, error, heartbeat,
}
use mmorpg_simulator.Framing.{Incoming}
use mmorpg_simulator.Wire.Bodies.{
  attack_result_layout, char_create_result_layout, char_info_layout, char_leave_layout,
  char_list_layout, chat_line_layout, error_message_layout, exp_update_layout, level_up_layout,
  login_result_layout, move_result_layout, npc_death_layout, npc_spawn_layout,
}
use mmorpg_simulator.Wire.Goods.{
  attendance_info_layout, attendance_result_layout, equip_result_layout, inventory_list_layout,
  inventory_update_layout, item_drop_layout, item_use_result_layout, party_invited_layout,
  party_leave_layout, party_update_layout, quest_accept_result_layout, quest_list_layout,
  quest_progress_note_layout, quest_reward_layout, shop_list_layout, shop_result_layout,
}

abbrev pub packet_body : Packet → List ℕ
packet_body (login_result r) = login_result_layout.put r
packet_body (char_list r) = char_list_layout.put r
packet_body (char_create_result r) = char_create_result_layout.put r
packet_body (char_info r) = char_info_layout.put r
packet_body (char_leave r) = char_leave_layout.put r
packet_body (attendance_info r) = attendance_info_layout.put r
packet_body (attendance_result r) = attendance_result_layout.put r
packet_body (move_result r) = move_result_layout.put r
packet_body (attack_result r) = attack_result_layout.put r
packet_body (npc_spawn r) = npc_spawn_layout.put r
packet_body (npc_death r) = npc_death_layout.put r
packet_body (exp_update r) = exp_update_layout.put r
packet_body (level_up r) = level_up_layout.put r
packet_body (chat r) = chat_line_layout.put r
packet_body (item_drop r) = item_drop_layout.put r
packet_body (item_use_result r) = item_use_result_layout.put r
packet_body (equip_result r) = equip_result_layout.put r
packet_body (inventory_update r) = inventory_update_layout.put r
packet_body (inventory_list r) = inventory_list_layout.put r
packet_body (shop_list r) = shop_list_layout.put r
packet_body (shop_result r) = shop_result_layout.put r
packet_body (quest_list r) = quest_list_layout.put r
packet_body (quest_accept_result r) = quest_accept_result_layout.put r
packet_body (quest_progress r) = quest_progress_note_layout.put r
packet_body (quest_reward r) = quest_reward_layout.put r
packet_body (party_invite r) = party_invited_layout.put r
packet_body (party_update r) = party_update_layout.put r
packet_body (party_leave r) = party_leave_layout.put r
packet_body (error r) = error_message_layout.put r
packet_body heartbeat = []

-- What Send gets for a packet: its type, and its struct.
abbrev pub answer_packet : Packet → Incoming
answer_packet k = record { code = type_code (packet_type k); body = packet_body k }

-- The handler that a type finds, with its struct, if there is one.
unfoldable pub read_packet : ℕ → List ℕ → Option Packet
unfolding type_code
read_packet code bs =
    if code == type_code sc_heartbeat
    then some heartbeat
    else if code == type_code sc_login_result
    then some (login_result (login_result_layout.get bs))
    else if code == type_code sc_char_list
    then some (char_list (char_list_layout.get bs))
    else if code == type_code sc_char_create_result
    then some (char_create_result (char_create_result_layout.get bs))
    else if code == type_code sc_char_info
    then some (char_info (char_info_layout.get bs))
    else if code == type_code sc_char_leave
    then some (char_leave (char_leave_layout.get bs))
    else if code == type_code sc_attendance_info
    then some (attendance_info (attendance_info_layout.get bs))
    else if code == type_code sc_attendance_result
    then some (attendance_result (attendance_result_layout.get bs))
    else if code == type_code sc_move_result
    then some (move_result (move_result_layout.get bs))
    else if code == type_code sc_attack_result
    then some (attack_result (attack_result_layout.get bs))
    else if code == type_code sc_npc_spawn
    then some (npc_spawn (npc_spawn_layout.get bs))
    else if code == type_code sc_npc_death
    then some (npc_death (npc_death_layout.get bs))
    else if code == type_code sc_exp_update
    then some (exp_update (exp_update_layout.get bs))
    else if code == type_code sc_level_up
    then some (level_up (level_up_layout.get bs))
    else if code == type_code sc_chat
    then some (chat (chat_line_layout.get bs))
    else if code == type_code sc_item_drop
    then some (item_drop (item_drop_layout.get bs))
    else if code == type_code sc_item_use_result
    then some (item_use_result (item_use_result_layout.get bs))
    else if code == type_code sc_equip_result
    then some (equip_result (equip_result_layout.get bs))
    else if code == type_code sc_inventory_update
    then some (inventory_update (inventory_update_layout.get bs))
    else if code == type_code sc_inventory_list
    then some (inventory_list (inventory_list_layout.get bs))
    else if code == type_code sc_shop_list
    then some (shop_list (shop_list_layout.get bs))
    else if code == type_code sc_shop_result
    then some (shop_result (shop_result_layout.get bs))
    else if code == type_code sc_quest_list
    then some (quest_list (quest_list_layout.get bs))
    else if code == type_code sc_quest_accept_result
    then some (quest_accept_result (quest_accept_result_layout.get bs))
    else if code == type_code sc_quest_progress
    then some (quest_progress (quest_progress_note_layout.get bs))
    else if code == type_code sc_quest_reward
    then some (quest_reward (quest_reward_layout.get bs))
    else if code == type_code sc_party_invite
    then some (party_invite (party_invited_layout.get bs))
    else if code == type_code sc_party_update
    then some (party_update (party_update_layout.get bs))
    else if code == type_code sc_party_leave
    then some (party_leave (party_leave_layout.get bs))
    else if code == type_code sc_error
    then some (error (error_message_layout.get bs))
    else none
