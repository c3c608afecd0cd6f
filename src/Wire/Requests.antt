-- ===== src/Wire/Requests.antt =====
-- The packets of a client as bytes: the structs CS_... of Common/Protocol.h, packed, and the
-- struct that each handler of GameServer/main.cpp copies from its payload. A handler copies the
-- whole struct, also when the payload is shorter, so it may read the bytes behind the packet.
use mmorpg_simulator.Common.{ℕ, refl, List, [], ◌==◌, if◌then◌else◌, replicate}
use mmorpg_simulator.Protocol.Types.{
  type_code, cs_login, cs_char_list, cs_char_create, cs_char_select, cs_attendance_check,
  cs_heartbeat, cs_move, cs_attack, cs_chat, cs_item_use, cs_item_equip, cs_shop_open, cs_shop_buy,
  cs_shop_sell, cs_quest_list, cs_quest_accept, cs_quest_complete, cs_party_invite, cs_party_accept,
  cs_party_leave,
}
use mmorpg_simulator.Protocol.Requests
use mmorpg_simulator.Framing.{Incoming}
use mmorpg_simulator.Server.Packets.{
  Request, login, char_list, char_create, char_select, attendance_check, heartbeat_check, move,
  attack, chat, item_use, item_equip, shop_open, shop_buy, shop_sell, quest_list, quest_accept,
  quest_complete, party_invite, party_accept, party_leave, unknown,
}
use mmorpg_simulator.Wire.Arrays.{chars}
use mmorpg_simulator.Wire.Codec.{Codec, number, int8_t, pair, as_type}

-- The texts of the arrays end in them. Where an array has no zero, strlen, std::atoll and the
-- constructor of std::string in the handlers read on behind it; here the text ends with the array.
abbrev pub login_layout : Codec Requests.Login
login_layout =
    as_type (pair (chars 32) (chars 32)) (λ p. record { account_id = p.0; password = p.1 })
      (λ r. (r.account_id, r.password)) (λ r. refl)

abbrev pub char_create_layout : Codec Requests.CharCreate
char_create_layout =
    as_type (pair (chars 20) (number 1)) (λ p. record { name = p.0; char_type = p.1 })
      (λ r. (r.name, r.char_type)) (λ r. refl)

abbrev pub char_select_layout : Codec Requests.CharSelect
char_select_layout = as_type (number 8) (λ v. record { char_uid = v }) (λ r. r.char_uid) (λ r. refl)

abbrev pub move_layout : Codec Requests.Move
move_layout =
    as_type (pair int8_t int8_t) (λ p. record { dir_x = p.0; dir_y = p.1 })
      (λ r. (r.dir_x, r.dir_y)) (λ r. refl)

abbrev pub attack_layout : Codec Requests.Attack
attack_layout = as_type (number 8) (λ v. record { target_uid = v }) (λ r. r.target_uid) (λ r. refl)

abbrev pub chat_layout : Codec Requests.Chat
chat_layout =
    as_type (pair (number 1) (pair (chars 20) (chars 128)))
      (λ p. record { channel = p.0; target_name = p.1.0; message = p.1.1 })
      (λ r. (r.channel, (r.target_name, r.message))) (λ r. refl)

abbrev pub item_use_layout : Codec Requests.ItemUse
item_use_layout = as_type (number 1) (λ v. record { slot = v }) (λ r. r.slot) (λ r. refl)

abbrev pub item_equip_layout : Codec Requests.ItemEquip
item_equip_layout = as_type (number 1) (λ v. record { slot = v }) (λ r. r.slot) (λ r. refl)

abbrev pub shop_buy_layout : Codec Requests.ShopBuy
shop_buy_layout = as_type (number 2) (λ v. record { item_id = v }) (λ r. r.item_id) (λ r. refl)

abbrev pub shop_sell_layout : Codec Requests.ShopSell
shop_sell_layout = as_type (number 1) (λ v. record { slot = v }) (λ r. r.slot) (λ r. refl)

abbrev pub quest_accept_layout : Codec Requests.QuestAccept
quest_accept_layout =
    as_type (number 2) (λ v. record { quest_id = v }) (λ r. r.quest_id) (λ r. refl)

abbrev pub quest_complete_layout : Codec Requests.QuestComplete
quest_complete_layout =
    as_type (number 2) (λ v. record { quest_id = v }) (λ r. r.quest_id) (λ r. refl)

abbrev pub party_invite_layout : Codec Requests.PartyInvite
party_invite_layout =
    as_type (chars 20) (λ v. record { target_name = v }) (λ r. r.target_name) (λ r. refl)

abbrev pub party_accept_layout : Codec Requests.PartyAccept
party_accept_layout = as_type (number 1) (λ v. record { accept = v }) (λ r. r.accept) (λ r. refl)

-- What a client sends. The quest list names an npc, which the server does not read.
unfoldable pub request_packet : Request → Incoming
unfolding type_code
request_packet (login r) = record { code = type_code cs_login; body = login_layout.put r }
request_packet char_list = record { code = type_code cs_char_list; body = [] }
request_packet (char_create r) = record {
  code = type_code cs_char_create;
  body = char_create_layout.put r;
}
request_packet (char_select r) = record {
  code = type_code cs_char_select;
  body = char_select_layout.put r;
}
request_packet attendance_check = record { code = type_code cs_attendance_check; body = [] }
request_packet heartbeat_check = record { code = type_code cs_heartbeat; body = [] }
request_packet (move r) = record { code = type_code cs_move; body = move_layout.put r }
request_packet (attack r) = record { code = type_code cs_attack; body = attack_layout.put r }
request_packet (chat r) = record { code = type_code cs_chat; body = chat_layout.put r }
request_packet (item_use r) = record { code = type_code cs_item_use; body = item_use_layout.put r }
request_packet (item_equip r) = record {
  code = type_code cs_item_equip;
  body = item_equip_layout.put r;
}
request_packet shop_open = record { code = type_code cs_shop_open; body = [] }
request_packet (shop_buy r) = record { code = type_code cs_shop_buy; body = shop_buy_layout.put r }
request_packet (shop_sell r) = record {
  code = type_code cs_shop_sell;
  body = shop_sell_layout.put r;
}
request_packet quest_list = record { code = type_code cs_quest_list; body = replicate 8 0 }
request_packet (quest_accept r) = record {
  code = type_code cs_quest_accept;
  body = quest_accept_layout.put r;
}
request_packet (quest_complete r) = record {
  code = type_code cs_quest_complete;
  body = quest_complete_layout.put r;
}
request_packet (party_invite r) = record {
  code = type_code cs_party_invite;
  body = party_invite_layout.put r;
}
request_packet (party_accept r) = record {
  code = type_code cs_party_accept;
  body = party_accept_layout.put r;
}
request_packet party_leave = record { code = type_code cs_party_leave; body = [] }
request_packet (unknown code) = record { code = code; body = [] }

-- The handler that a type finds, with the struct that it copies from the bytes at its payload.
unfoldable pub read_request : ℕ → List ℕ → Request
unfolding type_code
read_request code bs =
    if code == type_code cs_login
    then login (login_layout.get bs)
    else if code == type_code cs_char_list
    then char_list
    else if code == type_code cs_char_create
    then char_create (char_create_layout.get bs)
    else if code == type_code cs_char_select
    then char_select (char_select_layout.get bs)
    else if code == type_code cs_attendance_check
    then attendance_check
    else if code == type_code cs_heartbeat
    then heartbeat_check
    else if code == type_code cs_move
    then move (move_layout.get bs)
    else if code == type_code cs_attack
    then attack (attack_layout.get bs)
    else if code == type_code cs_chat
    then chat (chat_layout.get bs)
    else if code == type_code cs_item_use
    then item_use (item_use_layout.get bs)
    else if code == type_code cs_item_equip
    then item_equip (item_equip_layout.get bs)
    else if code == type_code cs_shop_open
    then shop_open
    else if code == type_code cs_shop_buy
    then shop_buy (shop_buy_layout.get bs)
    else if code == type_code cs_shop_sell
    then shop_sell (shop_sell_layout.get bs)
    else if code == type_code cs_quest_list
    then quest_list
    else if code == type_code cs_quest_accept
    then quest_accept (quest_accept_layout.get bs)
    else if code == type_code cs_quest_complete
    then quest_complete (quest_complete_layout.get bs)
    else if code == type_code cs_party_invite
    then party_invite (party_invite_layout.get bs)
    else if code == type_code cs_party_accept
    then party_accept (party_accept_layout.get bs)
    else if code == type_code cs_party_leave
    then party_leave
    else unknown code
