-- ===== src/Server/Placed.antt =====
-- Every player stays on the map through all events.
use mmorpg_simulator.Common.{ℕ, List, [], ◌∷◌, arith}
use mmorpg_simulator.Protocol.Requests
use mmorpg_simulator.World.Data.{World, ResultSet, Cell}
use mmorpg_simulator.World.Sessions.{broadcast_except, add_session, remove_session}
use mmorpg_simulator.Quest.{on_quest_list, on_quest_accept}
use mmorpg_simulator.Combat.{send_all_npcs}
use mmorpg_simulator.Shop.{on_shop_open}
use mmorpg_simulator.Entry.{
  load_inventory, entered, named, welcome, load_quest_progress, send_other_players, on_char_select,
  selected, enter_game,
}
use mmorpg_simulator.Account.{on_char_list}
use mmorpg_simulator.Chat.{on_chat, whisper, party_chat}
use mmorpg_simulator.Party.{
  on_party_accept, on_party_invite, on_party_leave, remove_from_party, leave_party, disband,
  join_party, with_party, send_party_update,
}
use mmorpg_simulator.Server.{
  Event, accepted, packet, read_failed, write_failed, step, run, handle_packet, on_disconnect,
  on_player_disconnect, on_accept, cut,
}
use mmorpg_simulator.Server.Packets.{
  Request, login, char_list, char_create, char_select, attendance_check, heartbeat_check, move,
  attack, chat, item_use, item_equip, shop_open, shop_buy, shop_sell, quest_list, quest_accept,
  quest_complete, party_invite, party_accept, party_leave, unknown,
}
use mmorpg_simulator.World.Data.{Player}
use mmorpg_simulator.World.Sessions.{player}
use mmorpg_simulator.Movement.Bounds.{IsOnMap, move-IsOnMap}
use mmorpg_simulator.Server.Stays.{
  Stays, Stays-IsOnMap, login-Stays, char_create-Stays, shop_buy-Stays, shop_sell-Stays,
  item_use-Stays, item_equip-Stays, complete-Stays, attack-Stays,
}

load_inventory-Stays : (s t : ℕ) (w : World) → Stays w (load_inventory s w) t
unfolding load_inventory
load_inventory-Stays s t w = ground arith

welcome-Stays : (s t : ℕ) (w : World) → Stays w (welcome s w) t
unfolding welcome load_quest_progress send_other_players send_all_npcs
welcome-Stays s t w = grind (arith, load_inventory-Stays)

-- A character enters between the fields (5, 5) and (14, 14).
entered-IsOnMap : (uid : ℕ) (r : List Cell) (x y : ℕ) (p : Player) → IsOnMap (entered uid r x y p)
unfolding entered
entered-IsOnMap uid r x y p = ground arith

named-IsOnMap : (rs : ResultSet) (p : Player) → IsOnMap p → IsOnMap (named rs p)
named-IsOnMap [] p h = h
named-IsOnMap (r ∷ rs) p h = ground (arith, h.left, h.right, h.top, h.bottom)

enter_game-IsOnMap :
    (s uid t : ℕ) (r : List Cell) (w : World)
    → IsOnMap (player w t)
    → IsOnMap (player (enter_game s uid r w) t)
unfolding enter_game
enter_game-IsOnMap s uid t r w h = grind (arith, welcome-Stays, entered-IsOnMap, named-IsOnMap)

select-IsOnMap :
    (s t : ℕ) (req : Requests.CharSelect) (w : World)
    → IsOnMap (player w t)
    → IsOnMap (player (on_char_select s req w) t)
unfolding on_char_select selected
select-IsOnMap s t req w h = grind (arith, enter_game-IsOnMap)

remove-Stays : (s t : ℕ) (w : World) → Stays w (remove_from_party s w) t
unfolding remove_from_party leave_party disband send_party_update
remove-Stays s t w = ground arith

handle-IsOnMap :
    (s t : ℕ) (req : Request) (w : World)
    → IsOnMap (player w t)
    → IsOnMap (player (handle_packet s req w) t)
unfolding handle_packet on_char_list on_chat whisper party_chat on_shop_open on_quest_list
    on_quest_accept on_party_invite on_party_accept join_party with_party send_party_update
    on_party_leave
handle-IsOnMap s t (login req) w h =
    Stays-IsOnMap w (handle_packet s (login req) w) t h (login-Stays s t req w)
handle-IsOnMap s t char_list w h = h
handle-IsOnMap s t (char_create req) w h =
    Stays-IsOnMap w (handle_packet s (char_create req) w) t h (char_create-Stays s t req w)
handle-IsOnMap s t (char_select req) w h = select-IsOnMap s t req w h
handle-IsOnMap s t attendance_check w h = h
handle-IsOnMap s t heartbeat_check w h = h
handle-IsOnMap s t (move req) w h = move-IsOnMap s req w t h
handle-IsOnMap s t (attack req) w h =
    Stays-IsOnMap w (handle_packet s (attack req) w) t h (attack-Stays s t req w)
handle-IsOnMap s t (chat req) w h =
    Stays-IsOnMap w (handle_packet s (chat req) w) t h (ground arith)
handle-IsOnMap s t (item_use req) w h =
    Stays-IsOnMap w (handle_packet s (item_use req) w) t h (item_use-Stays s t req w)
handle-IsOnMap s t (item_equip req) w h =
    Stays-IsOnMap w (handle_packet s (item_equip req) w) t h (item_equip-Stays s t req w)
handle-IsOnMap s t shop_open w h = Stays-IsOnMap w (handle_packet s shop_open w) t h (ground arith)
handle-IsOnMap s t (shop_buy req) w h =
    Stays-IsOnMap w (handle_packet s (shop_buy req) w) t h (shop_buy-Stays s t req w)
handle-IsOnMap s t (shop_sell req) w h =
    Stays-IsOnMap w (handle_packet s (shop_sell req) w) t h (shop_sell-Stays s t req w)
handle-IsOnMap s t quest_list w h =
    Stays-IsOnMap w (handle_packet s quest_list w) t h (ground arith)
handle-IsOnMap s t (quest_accept req) w h =
    Stays-IsOnMap w (handle_packet s (quest_accept req) w) t h (ground arith)
handle-IsOnMap s t (quest_complete req) w h =
    Stays-IsOnMap w (handle_packet s (quest_complete req) w) t h (complete-Stays s t req w)
handle-IsOnMap s t (party_invite req) w h =
    Stays-IsOnMap w (handle_packet s (party_invite req) w) t h (ground arith)
handle-IsOnMap s t (party_accept req) w h =
    Stays-IsOnMap w (handle_packet s (party_accept req) w) t h (ground arith)
handle-IsOnMap s t party_leave w h =
    Stays-IsOnMap w (handle_packet s party_leave w) t h (remove-Stays s t w)
handle-IsOnMap s t (unknown code) w h = h

disconnect-Stays : (s t : ℕ) (w : World) → Stays w (on_disconnect s w) t
unfolding on_disconnect on_player_disconnect remove_session broadcast_except
disconnect-Stays s t w = ground (arith, remove-Stays s t w)

step-IsOnMap :
    (e : Event) (t : ℕ) (w : World) → IsOnMap (player w t) → IsOnMap (player (step e w) t)
unfolding step on_accept add_session
step-IsOnMap accepted t w h = ground (arith, h.left, h.right, h.top, h.bottom)
step-IsOnMap (packet s req) t w h = handle-IsOnMap s t req w h
step-IsOnMap (read_failed s) t w h =
    let h1 : IsOnMap (player (cut s w) t) = ground (arith, h.left, h.right, h.top, h.bottom) in
    Stays-IsOnMap (cut s w) (on_disconnect s (cut s w)) t h1 (disconnect-Stays s t (cut s w))
step-IsOnMap (write_failed s) t w h = ground (arith, h.left, h.right, h.top, h.bottom)

-- Whatever happens on the server, a player who is on the map stays on it.
pub run-IsOnMap :
    (es : List Event) (t : ℕ) (w : World) → IsOnMap (player w t) → IsOnMap (player (run es w) t)
unfolding run
run-IsOnMap [] t w h = h
run-IsOnMap (e ∷ es) t w h = run-IsOnMap es t (step e w) (step-IsOnMap e t w h)
