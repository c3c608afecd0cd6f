-- ===== src/Server/Packets.antt =====
-- The packets for which main registers a handler, with the record that the handler reads.
use mmorpg_simulator.Common.{ℕ}
use mmorpg_simulator.Protocol.Requests

pub data Request : Type 0 where
  login : Requests.Login → Request
  char_list : Request
  char_create : Requests.CharCreate → Request
  char_select : Requests.CharSelect → Request
  attendance_check : Request
  heartbeat_check : Request
  move : Requests.Move → Request
  attack : Requests.Attack → Request
  chat : Requests.Chat → Request
  item_use : Requests.ItemUse → Request
  item_equip : Requests.ItemEquip → Request
  shop_open : Request
  shop_buy : Requests.ShopBuy → Request
  shop_sell : Requests.ShopSell → Request
  quest_list : Request
  quest_accept : Requests.QuestAccept → Request
  quest_complete : Requests.QuestComplete → Request
  party_invite : Requests.PartyInvite → Request
  party_accept : Requests.PartyAccept → Request
  party_leave : Request
  -- Any other type.
  unknown : ℕ → Request
