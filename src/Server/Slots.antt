-- ===== src/Server/Slots.antt =====
-- Every inventory keeps its twenty slots through all events.
use mmorpg_simulator.Common.{ℕ, ◌≡◌, ◌∙◌, List, [], ◌∷◌, arith, length-replicate}
use mmorpg_simulator.Protocol.{max_inventory}
use mmorpg_simulator.Protocol.Requests
use mmorpg_simulator.World.Data.{World, no_item}
use mmorpg_simulator.World.Sessions.{broadcast_except, add_session, remove_session}
use mmorpg_simulator.Quest.{on_quest_list, on_quest_accept}
use mmorpg_simulator.Combat.{send_all_npcs}
use mmorpg_simulator.Shop.{on_shop_open}
use mmorpg_simulator.Entry.{
  welcome, load_quest_progress, send_other_players, on_char_select, selected, enter_game,
}
use mmorpg_simulator.Account.{on_login, on_char_list, on_char_create}
use mmorpg_simulator.Movement.{on_move}
use mmorpg_simulator.Chat.{on_chat, whisper, party_chat}
use mmorpg_simulator.Party.{
  on_party_accept, on_party_invite, on_party_leave, remove_from_party, leave_party, disband,
  join_party, with_party, send_party_update,
}
use mmorpg_simulator.Server.{
  Event, accepted, packet, read_failed, write_failed, step, run, handle_packet, on_disconnect,
  on_player_disconnect, on_accept, cut,
}
use mmorpg_simulator.Server.Packets.{
  Request, login, char_list, char_create, char_select, attendance_check, heartbeat_check, move,
  attack, chat, item_use, item_equip, shop_open, shop_buy, shop_sell, quest_list, quest_accept,
  quest_complete, party_invite, party_accept, party_leave, unknown,
}
use mmorpg_simulator.Server.Sizes.{
  size, shop_buy-size, shop_sell-size, item_use-size, item_equip-size, complete-size, attack-size,
  load_inventory-size,
}

welcome-size :
    (s t : ℕ) (w : World) → size w t ≡ max_inventory → size (welcome s w) t ≡ max_inventory
unfolding welcome load_quest_progress send_other_players send_all_npcs
welcome-size s t w h = grind (arith, load_inventory-size)

char_select-size :
    (s t : ℕ) (req : Requests.CharSelect) (w : World)
    → size w t ≡ max_inventory
    → size (on_char_select s req w) t ≡ max_inventory
unfolding on_char_select selected enter_game
char_select-size s t req w h = grind (arith, welcome-size)

remove-size : (s t : ℕ) (w : World) → size (remove_from_party s w) t ≡ size w t
unfolding remove_from_party leave_party disband send_party_update
remove-size s t w = ground arith

handle-size :
    (s t : ℕ) (req : Request) (w : World)
    → size w t ≡ max_inventory
    → size (handle_packet s req w) t ≡ max_inventory
unfolding handle_packet on_login on_char_list on_char_create on_move on_chat whisper party_chat
    on_shop_open on_quest_list on_quest_accept on_party_invite on_party_accept join_party with_party
    send_party_update on_party_leave
handle-size s t (login req) w h = ground arith
handle-size s t char_list w h = h
handle-size s t (char_create req) w h = ground arith
handle-size s t (char_select req) w h = char_select-size s t req w h
handle-size s t attendance_check w h = h
handle-size s t heartbeat_check w h = h
handle-size s t (move req) w h = ground arith
handle-size s t (attack req) w h = attack-size s t req w ∙ h
handle-size s t (chat req) w h = ground arith
handle-size s t (item_use req) w h = item_use-size s t req w ∙ h
handle-size s t (item_equip req) w h = item_equip-size s t req w ∙ h
handle-size s t shop_open w h = ground arith
handle-size s t (shop_buy req) w h = shop_buy-size s t req w ∙ h
handle-size s t (shop_sell req) w h = shop_sell-size s t req w ∙ h
handle-size s t quest_list w h = ground arith
handle-size s t (quest_accept req) w h = ground arith
handle-size s t (quest_complete req) w h = complete-size s t req w ∙ h
handle-size s t (party_invite req) w h = ground arith
handle-size s t (party_accept req) w h = ground arith
handle-size s t party_leave w h = remove-size s t w ∙ h
handle-size s t (unknown code) w h = h

disconnect-size :
    (s t : ℕ) (w : World) → size w t ≡ max_inventory → size (on_disconnect s w) t ≡ max_inventory
unfolding on_disconnect on_player_disconnect remove_session broadcast_except
disconnect-size s t w h = ground (arith, remove-size s t w, length-replicate max_inventory no_item)

step-size :
    (e : Event) (t : ℕ) (w : World) → size w t ≡ max_inventory → size (step e w) t ≡ max_inventory
unfolding step on_accept add_session
step-size accepted t w h = h
step-size (packet s req) t w h = handle-size s t req w h
step-size (read_failed s) t w h = disconnect-size s t (cut s w) h
step-size (write_failed s) t w h = h

-- Whatever happens on the server, an inventory that has its twenty slots keeps them.
pub run-size :
    (es : List Event) (t : ℕ) (w : World)
    → size w t ≡ max_inventory
    → size (run es w) t ≡ max_inventory
unfolding run
run-size [] t w h = h
run-size (e ∷ es) t w h = run-size es t (step e w) (step-size e t w h)
