-- ===== src/Protocol.antt =====
-- The protocol between client and server (Common/Protocol.h): its limits, the packet types, and
-- the packets that the server sends.
pub mod Types
pub mod Payloads
pub mod Requests
use mmorpg_simulator.Common.{ℕ, Text, List}
use Types.{
  PacketType, sc_attack_result, sc_attendance_info, sc_attendance_result, sc_char_create_result,
  sc_char_info, sc_char_leave, sc_char_list, sc_chat, sc_equip_result, sc_error, sc_exp_update,
  sc_heartbeat, sc_inventory_list, sc_inventory_update, sc_item_drop, sc_item_use_result,
  sc_level_up, sc_login_result, sc_move_result, sc_npc_death, sc_npc_spawn, sc_party_invite,
  sc_party_leave, sc_party_update, sc_quest_accept_result, sc_quest_list, sc_quest_progress,
  sc_quest_reward, sc_shop_list, sc_shop_result,
}
use Payloads

abbrev pub max_recv_buffer_size : ℕ
max_recv_buffer_size = 8192

abbrev pub header_size : ℕ
header_size = 4

abbrev pub max_inventory : ℕ
max_inventory = 20

abbrev pub max_party : ℕ
max_party = 4

abbrev pub max_quest_list : ℕ
max_quest_list = 10

-- A packet to a client: the packet type with its payload.
pub data Packet : Type 0 where
  login_result : Payloads.LoginResult → Packet
  char_list : List Payloads.CharListEntry → Packet
  char_create_result : Payloads.CharCreateResult → Packet
  char_info : Payloads.CharInfo → Packet
  char_leave : Payloads.CharLeave → Packet
  attendance_info : Payloads.AttendanceInfo → Packet
  attendance_result : Payloads.AttendanceResult → Packet
  move_result : Payloads.MoveResult → Packet
  attack_result : Payloads.AttackResult → Packet
  npc_spawn : Payloads.NpcSpawn → Packet
  npc_death : Payloads.NpcDeath → Packet
  exp_update : Payloads.ExpUpdate → Packet
  level_up : Payloads.LevelUp → Packet
  chat : Payloads.ChatLine → Packet
  item_drop : Payloads.ItemDrop → Packet
  item_use_result : Payloads.ItemUseResult → Packet
  equip_result : Payloads.EquipResult → Packet
  inventory_update : Payloads.InventoryUpdate → Packet
  inventory_list : List Payloads.InventoryUpdate → Packet
  shop_list : List Payloads.ShopEntry → Packet
  shop_result : Payloads.ShopResult → Packet
  quest_list : List Payloads.QuestEntry → Packet
  quest_accept_result : Payloads.QuestAcceptResult → Packet
  quest_progress : Payloads.QuestProgressNote → Packet
  quest_reward : Payloads.QuestReward → Packet
  party_invite : Text → Packet
  party_update : Payloads.PartyUpdate → Packet
  party_leave : ℕ → Packet
  error : Payloads.ErrorMessage → Packet
  heartbeat : Packet

unfoldable pub packet_type : Packet → PacketType
packet_type (login_result _) = sc_login_result
packet_type (char_list _) = sc_char_list
packet_type (char_create_result _) = sc_char_create_result
packet_type (char_info _) = sc_char_info
packet_type (char_leave _) = sc_char_leave
packet_type (attendance_info _) = sc_attendance_info
packet_type (attendance_result _) = sc_attendance_result
packet_type (move_result _) = sc_move_result
packet_type (attack_result _) = sc_attack_result
packet_type (npc_spawn _) = sc_npc_spawn
packet_type (npc_death _) = sc_npc_death
packet_type (exp_update _) = sc_exp_update
packet_type (level_up _) = sc_level_up
packet_type (chat _) = sc_chat
packet_type (item_drop _) = sc_item_drop
packet_type (item_use_result _) = sc_item_use_result
packet_type (equip_result _) = sc_equip_result
packet_type (inventory_update _) = sc_inventory_update
packet_type (inventory_list _) = sc_inventory_list
packet_type (shop_list _) = sc_shop_list
packet_type (shop_result _) = sc_shop_result
packet_type (quest_list _) = sc_quest_list
packet_type (quest_accept_result _) = sc_quest_accept_result
packet_type (quest_progress _) = sc_quest_progress
packet_type (quest_reward _) = sc_quest_reward
packet_type (party_invite _) = sc_party_invite
packet_type (party_update _) = sc_party_update
packet_type (party_leave _) = sc_party_leave
packet_type (error _) = sc_error
packet_type heartbeat = sc_heartbeat
