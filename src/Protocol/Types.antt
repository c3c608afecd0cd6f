-- ===== src/Protocol/Types.antt =====
-- The packet types and their codes (enum PacketType of Common/Protocol.h).
use mmorpg_simulator.Common.{ℕ}

pub data PacketType : Type 0 where
  cs_login sc_login_result cs_logout sc_logout_result : PacketType
  cs_char_list sc_char_list cs_char_create sc_char_create_result : PacketType
  cs_char_select sc_char_info sc_char_leave cs_attendance_check : PacketType
  sc_attendance_info sc_attendance_result cs_move sc_move_result : PacketType
  cs_attack sc_attack_result sc_npc_spawn sc_npc_death : PacketType
  sc_exp_update sc_level_up cs_chat sc_chat : PacketType
  sc_item_drop cs_item_use sc_item_use_result cs_item_equip : PacketType
  sc_equip_result sc_inventory_update sc_inventory_list cs_shop_open : PacketType
  sc_shop_list cs_shop_buy sc_shop_result cs_shop_sell : PacketType
  cs_quest_list sc_quest_list cs_quest_accept sc_quest_accept_result : PacketType
  sc_quest_progress cs_quest_complete sc_quest_reward cs_party_invite : PacketType
  sc_party_invite cs_party_accept sc_party_update cs_party_leave : PacketType
  sc_party_leave cs_heartbeat sc_heartbeat sc_error : PacketType

unfoldable pub type_code : PacketType → ℕ
type_code cs_login = 0x0101
type_code sc_login_result = 0x0102
type_code cs_logout = 0x0103
type_code sc_logout_result = 0x0104
type_code cs_char_list = 0x0201
type_code sc_char_list = 0x0202
type_code cs_char_create = 0x0203
type_code sc_char_create_result = 0x0204
type_code cs_char_select = 0x0205
type_code sc_char_info = 0x0206
type_code sc_char_leave = 0x0207
type_code cs_attendance_check = 0x0301
type_code sc_attendance_info = 0x0302
type_code sc_attendance_result = 0x0303
type_code cs_move = 0x0401
type_code sc_move_result = 0x0402
type_code cs_attack = 0x0501
type_code sc_attack_result = 0x0502
type_code sc_npc_spawn = 0x0503
type_code sc_npc_death = 0x0504
type_code sc_exp_update = 0x0505
type_code sc_level_up = 0x0506
type_code cs_chat = 0x0601
type_code sc_chat = 0x0602
type_code sc_item_drop = 0x0701
type_code cs_item_use = 0x0702
type_code sc_item_use_result = 0x0703
type_code cs_item_equip = 0x0704
type_code sc_equip_result = 0x0705
type_code sc_inventory_update = 0x0706
type_code sc_inventory_list = 0x0707
type_code cs_shop_open = 0x0801
type_code sc_shop_list = 0x0802
type_code cs_shop_buy = 0x0803
type_code sc_shop_result = 0x0804
type_code cs_shop_sell = 0x0805
type_code cs_quest_list = 0x0A01
type_code sc_quest_list = 0x0A02
type_code cs_quest_accept = 0x0A03
type_code sc_quest_accept_result = 0x0A04
type_code sc_quest_progress = 0x0A05
type_code cs_quest_complete = 0x0A06
type_code sc_quest_reward = 0x0A07
type_code cs_party_invite = 0x0B01
type_code sc_party_invite = 0x0B02
type_code cs_party_accept = 0x0B03
type_code sc_party_update = 0x0B04
type_code cs_party_leave = 0x0B05
type_code sc_party_leave = 0x0B06
type_code cs_heartbeat = 0xFF01
type_code sc_heartbeat = 0xFF02
type_code sc_error = 0xFF03
