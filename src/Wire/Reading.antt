-- ===== src/Wire/Reading.antt =====
-- What a handler reads is what the client wrote.
use mmorpg_simulator.Common.{ℕ, ◌<◌, ◌≡◌, refl, ap, List, [], ◌∷◌, ◌++◌, arith, length, All}
use mmorpg_simulator.Protocol.Types.{
  PacketType, type_code, cs_login, cs_char_list, cs_char_create, cs_char_select,
  cs_attendance_check, cs_heartbeat, cs_move, cs_attack, cs_chat, cs_item_use, cs_item_equip,
  cs_shop_open, cs_shop_buy, cs_shop_sell, cs_quest_list, cs_quest_accept, cs_quest_complete,
  cs_party_invite, cs_party_accept, cs_party_leave,
}
use mmorpg_simulator.Framing.{Incoming}
use mmorpg_simulator.Framing.RoundTrip.{IsSendable}
use mmorpg_simulator.Server.Packets.{
  Request, login, char_list, char_create, char_select, attendance_check, heartbeat_check, move,
  attack, chat, item_use, item_equip, shop_open, shop_buy, shop_sell, quest_list, quest_accept,
  quest_complete, party_invite, party_accept, party_leave, unknown,
}
use mmorpg_simulator.Wire.Requests.{
  login_layout, char_create_layout, char_select_layout, move_layout, attack_layout, chat_layout,
  item_use_layout, item_equip_layout, shop_buy_layout, shop_sell_layout, quest_accept_layout,
  quest_complete_layout, party_invite_layout, party_accept_layout, request_packet, read_request,
}

abbrev pub served : List PacketType
served =
    cs_login ∷ cs_char_list ∷ cs_char_create ∷ cs_char_select ∷ cs_attendance_check ∷ cs_heartbeat
    ∷ cs_move ∷ cs_attack ∷ cs_chat ∷ cs_item_use ∷ cs_item_equip ∷ cs_shop_open ∷ cs_shop_buy
    ∷ cs_shop_sell ∷ cs_quest_list ∷ cs_quest_accept ∷ cs_quest_complete ∷ cs_party_invite
    ∷ cs_party_accept ∷ cs_party_leave ∷ []

-- The values fit into the fields of the struct; an unknown type is none that has a handler.
abbrev pub FitsRequest : Request → Type 0
FitsRequest (login r) = login_layout.fits r
FitsRequest (char_create r) = char_create_layout.fits r
FitsRequest (char_select r) = char_select_layout.fits r
FitsRequest (move r) = move_layout.fits r
FitsRequest (attack r) = attack_layout.fits r
FitsRequest (chat r) = chat_layout.fits r
FitsRequest (item_use r) = item_use_layout.fits r
FitsRequest (item_equip r) = item_equip_layout.fits r
FitsRequest (shop_buy r) = shop_buy_layout.fits r
FitsRequest (shop_sell r) = shop_sell_layout.fits r
FitsRequest (quest_accept r) = quest_accept_layout.fits r
FitsRequest (quest_complete r) = quest_complete_layout.fits r
FitsRequest (party_invite r) = party_invite_layout.fits r
FitsRequest (party_accept r) = party_accept_layout.fits r
FitsRequest (unknown code) = (code < 65536) × All (λ t. ¬ (code ≡ type_code t)) served
FitsRequest _ = Unit

unknown-read :
    (code : ℕ) (bs : List ℕ)
    → All (λ t. ¬ (code ≡ type_code t)) served
    → read_request code bs ≡ unknown code
unfolding read_request type_code
unknown-read code bs h = ground (arith, h)

-- A request whose values fit is read as it was written, whatever bytes lie behind it.
pub read-packet :
    (r : Request) (more : List ℕ)
    → FitsRequest r
    → read_request (request_packet r).code ((request_packet r).body ++ more) ≡ r
unfolding read_request request_packet type_code
read-packet (login r) more h = ap login (login_layout.get_put r more h)
read-packet char_list more h = refl
read-packet (char_create r) more h = ap char_create (char_create_layout.get_put r more h)
read-packet (char_select r) more h = ap char_select (char_select_layout.get_put r more h)
read-packet attendance_check more h = refl
read-packet heartbeat_check more h = refl
read-packet (move r) more h = ap move (move_layout.get_put r more h)
read-packet (attack r) more h = ap attack (attack_layout.get_put r more h)
read-packet (chat r) more h = ap chat (chat_layout.get_put r more h)
read-packet (item_use r) more h = ap item_use (item_use_layout.get_put r more h)
read-packet (item_equip r) more h = ap item_equip (item_equip_layout.get_put r more h)
read-packet shop_open more h = refl
read-packet (shop_buy r) more h = ap shop_buy (shop_buy_layout.get_put r more h)
read-packet (shop_sell r) more h = ap shop_sell (shop_sell_layout.get_put r more h)
read-packet quest_list more h = refl
read-packet (quest_accept r) more h = ap quest_accept (quest_accept_layout.get_put r more h)
read-packet (quest_complete r) more h = ap quest_complete (quest_complete_layout.get_put r more h)
read-packet (party_invite r) more h = ap party_invite (party_invite_layout.get_put r more h)
read-packet (party_accept r) more h = ap party_accept (party_accept_layout.get_put r more h)
read-packet party_leave more h = refl
read-packet (unknown code) more h = unknown-read code more h.1

-- A packet that is short enough and whose code fits.
short-IsSendable :
    (k : Incoming) (n : ℕ) → length k.body ≡ n → n < 65532 → k.code < 65536 → IsSendable k
short-IsSendable k n e lt known = record { fits = omega (arith, e, lt); known = known }

pub packet-IsSendable : (r : Request) → FitsRequest r → IsSendable (request_packet r)
unfolding request_packet type_code
packet-IsSendable (login r) h =
    short-IsSendable (request_packet (login r)) login_layout.size (login_layout.put_size r h)
      (omega arith) (omega arith)
packet-IsSendable char_list h =
    short-IsSendable (request_packet char_list) 0 refl (omega arith) (omega arith)
packet-IsSendable (char_create r) h =
    short-IsSendable (request_packet (char_create r)) char_create_layout.size
      (char_create_layout.put_size r h) (omega arith) (omega arith)
packet-IsSendable (char_select r) h =
    short-IsSendable (request_packet (char_select r)) char_select_layout.size
      (char_select_layout.put_size r h) (omega arith) (omega arith)
packet-IsSendable attendance_check h =
    short-IsSendable (request_packet attendance_check) 0 refl (omega arith) (omega arith)
packet-IsSendable heartbeat_check h =
    short-IsSendable (request_packet heartbeat_check) 0 refl (omega arith) (omega arith)
packet-IsSendable (move r) h =
    short-IsSendable (request_packet (move r)) move_layout.size (move_layout.put_size r h)
      (omega arith) (omega arith)
packet-IsSendable (attack r) h =
    short-IsSendable (request_packet (attack r)) attack_layout.size (attack_layout.put_size r h)
      (omega arith) (omega arith)
packet-IsSendable (chat r) h =
    short-IsSendable (request_packet (chat r)) chat_layout.size (chat_layout.put_size r h)
      (omega arith) (omega arith)
packet-IsSendable (item_use r) h =
    short-IsSendable (request_packet (item_use r)) item_use_layout.size
      (item_use_layout.put_size r h) (omega arith) (omega arith)
packet-IsSendable (item_equip r) h =
    short-IsSendable (request_packet (item_equip r)) item_equip_layout.size
      (item_equip_layout.put_size r h) (omega arith) (omega arith)
packet-IsSendable shop_open h =
    short-IsSendable (request_packet shop_open) 0 refl (omega arith) (omega arith)
packet-IsSendable (shop_buy r) h =
    short-IsSendable (request_packet (shop_buy r)) shop_buy_layout.size
      (shop_buy_layout.put_size r h) (omega arith) (omega arith)
packet-IsSendable (shop_sell r) h =
    short-IsSendable (request_packet (shop_sell r)) shop_sell_layout.size
      (shop_sell_layout.put_size r h) (omega arith) (omega arith)
packet-IsSendable quest_list h =
    short-IsSendable (request_packet quest_list) 8 refl (omega arith) (omega arith)
packet-IsSendable (quest_accept r) h =
    short-IsSendable (request_packet (quest_accept r)) quest_accept_layout.size
      (quest_accept_layout.put_size r h) (omega arith) (omega arith)
packet-IsSendable (quest_complete r) h =
    short-IsSendable (request_packet (quest_complete r)) quest_complete_layout.size
      (quest_complete_layout.put_size r h) (omega arith) (omega arith)
packet-IsSendable (party_invite r) h =
    short-IsSendable (request_packet (party_invite r)) party_invite_layout.size
      (party_invite_layout.put_size r h) (omega arith) (omega arith)
packet-IsSendable (party_accept r) h =
    short-IsSendable (request_packet (party_accept r)) party_accept_layout.size
      (party_accept_layout.put_size r h) (omega arith) (omega arith)
packet-IsSendable party_leave h =
    short-IsSendable (request_packet party_leave) 0 refl (omega arith) (omega arith)
packet-IsSendable (unknown code) h = record { fits = omega arith; known = h.0 }
