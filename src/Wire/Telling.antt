-- ===== src/Wire/Telling.antt =====
-- What a client reads is what the server sent.
use mmorpg_simulator.Common.{ℕ, ◌<◌, ◌≡◌, refl, ap, List, ◌++◌, arith, length, some}
use mmorpg_simulator.Protocol.Types.{type_code}
use mmorpg_simulator.Protocol.{
  Packet, packet_type, login_result, char_list, char_create_result, char_info, char_leave,
  attendance_info, attendance_result, move_result, attack_result, npc_spawn, npc_death, exp_update,
  level_up, chat, item_drop, item_use_result, equip_result, inventory_update, inventory_list,
  shop_list, shop_result, quest_list, quest_accept_result, quest_progress, quest_reward,
  party_invite, party_update, party_leave, error, heartbeat,
}
use mmorpg_simulator.Framing.RoundTrip.{IsSendable}
use mmorpg_simulator.Wire.Bodies.{
  attack_result_layout, char_create_result_layout, char_info_layout, char_leave_layout,
  char_list_layout, chat_line_layout, error_message_layout, exp_update_layout, level_up_layout,
  login_result_layout, move_result_layout, npc_death_layout, npc_spawn_layout,
}
use mmorpg_simulator.Wire.Goods.{
  attendance_info_layout, attendance_result_layout, equip_result_layout, inventory_list_layout,
  inventory_update_layout, item_drop_layout, item_use_result_layout, party_invited_layout,
  party_leave_layout, party_update_layout, quest_accept_result_layout, quest_list_layout,
  quest_progress_note_layout, quest_reward_layout, shop_list_layout, shop_result_layout,
}
use mmorpg_simulator.Wire.Answers.{packet_body, answer_packet, read_packet}

-- The values fit into the fields of the struct.
abbrev pub FitsPacket : Packet → Type 0
FitsPacket (login_result r) = login_result_layout.fits r
FitsPacket (char_list r) = char_list_layout.fits r
FitsPacket (char_create_result r) = char_create_result_layout.fits r
FitsPacket (char_info r) = char_info_layout.fits r
FitsPacket (char_leave r) = char_leave_layout.fits r
FitsPacket (attendance_info r) = attendance_info_layout.fits r
FitsPacket (attendance_result r) = attendance_result_layout.fits r
FitsPacket (move_result r) = move_result_layout.fits r
FitsPacket (attack_result r) = attack_result_layout.fits r
FitsPacket (npc_spawn r) = npc_spawn_layout.fits r
FitsPacket (npc_death r) = npc_death_layout.fits r
FitsPacket (exp_update r) = exp_update_layout.fits r
FitsPacket (level_up r) = level_up_layout.fits r
FitsPacket (chat r) = chat_line_layout.fits r
FitsPacket (item_drop r) = item_drop_layout.fits r
FitsPacket (item_use_result r) = item_use_result_layout.fits r
FitsPacket (equip_result r) = equip_result_layout.fits r
FitsPacket (inventory_update r) = inventory_update_layout.fits r
FitsPacket (inventory_list r) = inventory_list_layout.fits r
FitsPacket (shop_list r) = shop_list_layout.fits r
FitsPacket (shop_result r) = shop_result_layout.fits r
FitsPacket (quest_list r) = quest_list_layout.fits r
FitsPacket (quest_accept_result r) = quest_accept_result_layout.fits r
FitsPacket (quest_progress r) = quest_progress_note_layout.fits r
FitsPacket (quest_reward r) = quest_reward_layout.fits r
FitsPacket (party_invite r) = party_invited_layout.fits r
FitsPacket (party_update r) = party_update_layout.fits r
FitsPacket (party_leave r) = party_leave_layout.fits r
FitsPacket (error r) = error_message_layout.fits r
FitsPacket heartbeat = Unit

-- A packet whose values fit is read as it was sent, whatever bytes lie behind it.
pub read-answer :
    (k : Packet) (more : List ℕ)
    → FitsPacket k
    → read_packet (answer_packet k).code ((answer_packet k).body ++ more) ≡ some k
unfolding read_packet packet_type type_code
read-answer (login_result r) more h =
    ap (λ v. some (login_result v)) (login_result_layout.get_put r more h)
read-answer (char_list r) more h = ap (λ v. some (char_list v)) (char_list_layout.get_put r more h)
read-answer (char_create_result r) more h =
    ap (λ v. some (char_create_result v)) (char_create_result_layout.get_put r more h)
read-answer (char_info r) more h = ap (λ v. some (char_info v)) (char_info_layout.get_put r more h)
read-answer (char_leave r) more h =
    ap (λ v. some (char_leave v)) (char_leave_layout.get_put r more h)
read-answer (attendance_info r) more h =
    ap (λ v. some (attendance_info v)) (attendance_info_layout.get_put r more h)
read-answer (attendance_result r) more h =
    ap (λ v. some (attendance_result v)) (attendance_result_layout.get_put r more h)
read-answer (move_result r) more h =
    ap (λ v. some (move_result v)) (move_result_layout.get_put r more h)
read-answer (attack_result r) more h =
    ap (λ v. some (attack_result v)) (attack_result_layout.get_put r more h)
read-answer (npc_spawn r) more h = ap (λ v. some (npc_spawn v)) (npc_spawn_layout.get_put r more h)
read-answer (npc_death r) more h = ap (λ v. some (npc_death v)) (npc_death_layout.get_put r more h)
read-answer (exp_update r) more h =
    ap (λ v. some (exp_update v)) (exp_update_layout.get_put r more h)
read-answer (level_up r) more h = ap (λ v. some (level_up v)) (level_up_layout.get_put r more h)
read-answer (chat r) more h = ap (λ v. some (chat v)) (chat_line_layout.get_put r more h)
read-answer (item_drop r) more h = ap (λ v. some (item_drop v)) (item_drop_layout.get_put r more h)
read-answer (item_use_result r) more h =
    ap (λ v. some (item_use_result v)) (item_use_result_layout.get_put r more h)
read-answer (equip_result r) more h =
    ap (λ v. some (equip_result v)) (equip_result_layout.get_put r more h)
read-answer (inventory_update r) more h =
    ap (λ v. some (inventory_update v)) (inventory_update_layout.get_put r more h)
read-answer (inventory_list r) more h =
    ap (λ v. some (inventory_list v)) (inventory_list_layout.get_put r more h)
read-answer (shop_list r) more h = ap (λ v. some (shop_list v)) (shop_list_layout.get_put r more h)
read-answer (shop_result r) more h =
    ap (λ v. some (shop_result v)) (shop_result_layout.get_put r more h)
read-answer (quest_list r) more h =
    ap (λ v. some (quest_list v)) (quest_list_layout.get_put r more h)
read-answer (quest_accept_result r) more h =
    ap (λ v. some (quest_accept_result v)) (quest_accept_result_layout.get_put r more h)
read-answer (quest_progress r) more h =
    ap (λ v. some (quest_progress v)) (quest_progress_note_layout.get_put r more h)
read-answer (quest_reward r) more h =
    ap (λ v. some (quest_reward v)) (quest_reward_layout.get_put r more h)
read-answer (party_invite r) more h =
    ap (λ v. some (party_invite v)) (party_invited_layout.get_put r more h)
read-answer (party_update r) more h =
    ap (λ v. some (party_update v)) (party_update_layout.get_put r more h)
read-answer (party_leave r) more h =
    ap (λ v. some (party_leave v)) (party_leave_layout.get_put r more h)
read-answer (error r) more h = ap (λ v. some (error v)) (error_message_layout.get_put r more h)
read-answer heartbeat more h = refl

short-IsSendable :
    (k : Packet) (n : ℕ)
    → length (packet_body k) ≡ n
    → n < 65532
    → type_code (packet_type k) < 65536
    → IsSendable (answer_packet k)
short-IsSendable k n e lt known = record { fits = omega (arith, e, lt); known = known }

pub answer-IsSendable : (k : Packet) → FitsPacket k → IsSendable (answer_packet k)
unfolding packet_type type_code
answer-IsSendable (login_result r) h =
    short-IsSendable (login_result r) login_result_layout.size (login_result_layout.put_size r h)
      (omega arith) (omega arith)
answer-IsSendable (char_list r) h =
    short-IsSendable (char_list r) char_list_layout.size (char_list_layout.put_size r h)
      (omega arith) (omega arith)
answer-IsSendable (char_create_result r) h =
    short-IsSendable (char_create_result r) char_create_result_layout.size
      (char_create_result_layout.put_size r h) (omega arith) (omega arith)
answer-IsSendable (char_info r) h =
    short-IsSendable (char_info r) char_info_layout.size (char_info_layout.put_size r h)
      (omega arith) (omega arith)
answer-IsSendable (char_leave r) h =
    short-IsSendable (char_leave r) char_leave_layout.size (char_leave_layout.put_size r h)
      (omega arith) (omega arith)
answer-IsSendable (attendance_info r) h =
    short-IsSendable (attendance_info r) attendance_info_layout.size
      (attendance_info_layout.put_size r h) (omega arith) (omega arith)
answer-IsSendable (attendance_result r) h =
    short-IsSendable (attendance_result r) attendance_result_layout.size
      (attendance_result_layout.put_size r h) (omega arith) (omega arith)
answer-IsSendable (move_result r) h =
    short-IsSendable (move_result r) move_result_layout.size (move_result_layout.put_size r h)
      (omega arith) (omega arith)
answer-IsSendable (attack_result r) h =
    short-IsSendable (attack_result r) attack_result_layout.size (attack_result_layout.put_size r h)
      (omega arith) (omega arith)
answer-IsSendable (npc_spawn r) h =
    short-IsSendable (npc_spawn r) npc_spawn_layout.size (npc_spawn_layout.put_size r h)
      (omega arith) (omega arith)
answer-IsSendable (npc_death r) h =
    short-IsSendable (npc_death r) npc_death_layout.size (npc_death_layout.put_size r h)
      (omega arith) (omega arith)
answer-IsSendable (exp_update r) h =
    short-IsSendable (exp_update r) exp_update_layout.size (exp_update_layout.put_size r h)
      (omega arith) (omega arith)
answer-IsSendable (level_up r) h =
    short-IsSendable (level_up r) level_up_layout.size (level_up_layout.put_size r h) (omega arith)
      (omega arith)
answer-IsSendable (chat r) h =
    short-IsSendable (chat r) chat_line_layout.size (chat_line_layout.put_size r h) (omega arith)
      (omega arith)
answer-IsSendable (item_drop r) h =
    short-IsSendable (item_drop r) item_drop_layout.size (item_drop_layout.put_size r h)
      (omega arith) (omega arith)
answer-IsSendable (item_use_result r) h =
    short-IsSendable (item_use_result r) item_use_result_layout.size
      (item_use_result_layout.put_size r h) (omega arith) (omega arith)
answer-IsSendable (equip_result r) h =
    short-IsSendable (equip_result r) equip_result_layout.size (equip_result_layout.put_size r h)
      (omega arith) (omega arith)
answer-IsSendable (inventory_update r) h =
    short-IsSendable (inventory_update r) inventory_update_layout.size
      (inventory_update_layout.put_size r h) (omega arith) (omega arith)
answer-IsSendable (inventory_list r) h =
    short-IsSendable (inventory_list r) inventory_list_layout.size
      (inventory_list_layout.put_size r h) (omega arith) (omega arith)
answer-IsSendable (shop_list r) h =
    short-IsSendable (shop_list r) shop_list_layout.size (shop_list_layout.put_size r h)
      (omega arith) (omega arith)
answer-IsSendable (shop_result r) h =
    short-IsSendable (shop_result r) shop_result_layout.size (shop_result_layout.put_size r h)
      (omega arith) (omega arith)
answer-IsSendable (quest_list r) h =
    short-IsSendable (quest_list r) quest_list_layout.size (quest_list_layout.put_size r h)
      (omega arith) (omega arith)
answer-IsSendable (quest_accept_result r) h =
    short-IsSendable (quest_accept_result r) quest_accept_result_layout.size
      (quest_accept_result_layout.put_size r h) (omega arith) (omega arith)
answer-IsSendable (quest_progress r) h =
    short-IsSendable (quest_progress r) quest_progress_note_layout.size
      (quest_progress_note_layout.put_size r h) (omega arith) (omega arith)
answer-IsSendable (quest_reward r) h =
    short-IsSendable (quest_reward r) quest_reward_layout.size (quest_reward_layout.put_size r h)
      (omega arith) (omega arith)
answer-IsSendable (party_invite r) h =
    short-IsSendable (party_invite r) party_invited_layout.size (party_invited_layout.put_size r h)
      (omega arith) (omega arith)
answer-IsSendable (party_update r) h =
    short-IsSendable (party_update r) party_update_layout.size (party_update_layout.put_size r h)
      (omega arith) (omega arith)
answer-IsSendable (party_leave r) h =
    short-IsSendable (party_leave r) party_leave_layout.size (party_leave_layout.put_size r h)
      (omega arith) (omega arith)
answer-IsSendable (error r) h =
    short-IsSendable (error r) error_message_layout.size (error_message_layout.put_size r h)
      (omega arith) (omega arith)
answer-IsSendable heartbeat h = short-IsSendable heartbeat 0 refl (omega arith) (omega arith)
