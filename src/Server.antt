-- ===== src/Server.antt =====
-- The events that reach the server: GameServer/TcpServer.cpp, GameServer/PacketHandler.cpp, the
-- handlers that main registers, OnPlayerDisconnect and OnHeartbeat of GameServer/main.cpp, and the
-- error paths of GameServer/Session.cpp.
pub mod Packets
pub mod Quiet
pub mod Linked
pub mod Alive
pub mod Sizes
pub mod Slots
pub mod Stays
pub mod Placed
pub mod Gone
pub mod Machine
pub mod Serving
pub mod Interleaved
pub mod Handled
pub mod Refined
pub mod Start
use mmorpg_simulator.Common.{
  ℕ, suc, ◌+◌, ◌&&◌, true, false, none, List, [], ◌∷◌, if◌then◌else◌, update, u32,
}
use mmorpg_simulator.Protocol.{heartbeat, char_leave}
use mmorpg_simulator.World.Data.{World, Session, new_player, empty_inventory}
use mmorpg_simulator.World.Sessions.{
  player, send, broadcast_except, has_session, add_session, remove_session,
}
use mmorpg_simulator.Account.{on_login, on_char_list, on_char_create}
use mmorpg_simulator.Entry.{on_char_select}
use mmorpg_simulator.Attendance.{on_attendance_check}
use mmorpg_simulator.Chat.{on_chat}
use mmorpg_simulator.Shop.{on_shop_open, on_shop_buy, on_shop_sell}
use mmorpg_simulator.Gear.{on_item_use, on_item_equip}
use mmorpg_simulator.Movement.{on_move}
use mmorpg_simulator.Quest.{on_quest_list, on_quest_accept, on_quest_complete}
use mmorpg_simulator.Party.{remove_from_party, on_party_invite, on_party_accept, on_party_leave}
use mmorpg_simulator.Combat.{on_attack}
use mmorpg_simulator.Server.Packets.{
  Request, login, char_list, char_create, char_select, attendance_check, heartbeat_check, move,
  attack, chat, item_use, item_equip, shop_open, shop_buy, shop_sell, quest_list, quest_accept,
  quest_complete, party_invite, party_accept, party_leave, unknown,
}

abbrev pub on_heartbeat : ℕ → World → World
on_heartbeat s w = send s heartbeat w

-- HandlePacket with the handlers that main registers. A type without a handler is passed over.
unfoldable pub handle_packet : ℕ → Request → World → World
handle_packet s (login req) w = on_login s req w
handle_packet s char_list w = on_char_list s w
handle_packet s (char_create req) w = on_char_create s req w
handle_packet s (char_select req) w = on_char_select s req w
handle_packet s attendance_check w = on_attendance_check s w
handle_packet s heartbeat_check w = on_heartbeat s w
handle_packet s (move req) w = on_move s req w
handle_packet s (attack req) w = on_attack s req w
handle_packet s (chat req) w = on_chat s req w
handle_packet s (item_use req) w = on_item_use s req w
handle_packet s (item_equip req) w = on_item_equip s req w
handle_packet s shop_open w = on_shop_open s w
handle_packet s (shop_buy req) w = on_shop_buy s req w
handle_packet s (shop_sell req) w = on_shop_sell s req w
handle_packet s quest_list w = on_quest_list s w
handle_packet s (quest_accept req) w = on_quest_accept s req w
handle_packet s (quest_complete req) w = on_quest_complete s req w
handle_packet s (party_invite req) w = on_party_invite s req w
handle_packet s (party_accept req) w = on_party_accept s req w
handle_packet s party_leave w = on_party_leave s w
handle_packet s (unknown code) w = w

-- The map entries of a session that is gone.
unfoldable pub on_player_disconnect : ℕ → World → World
on_player_disconnect s w =
    let w1 = remove_from_party s w in
    record w1 {
      pending_invites = update w1.pending_invites s none;
      inventories = update w1.inventories s empty_inventory;
      quest_progress = update w1.quest_progress s [];
    }

unfoldable pub on_disconnect : ℕ → World → World
unfolding broadcast_except remove_session
on_disconnect s w =
    let w1 = on_player_disconnect s w in
    let p = player w1 s in
    remove_session s (
      if has_session w1 s && p.logged_in
      then broadcast_except s (char_leave (record { char_uid = p.account_uid })) w1
      else w1)

abbrev pub cut : ℕ → World → World
cut s w = record w { heap = update w.heap s (record { player = player w s; connected = false }) }

-- DoAccept: the next number, and a fresh Session under it.
unfoldable pub on_accept : World → World
unfolding add_session
on_accept w =
    let s = w.next_session_id in
    add_session s (record { player = new_player; connected = true })
      (record w { next_session_id = u32 (s + 1) })

-- A new connection; a packet; an error of reading, which ends the session; one of writing, which
-- only keeps it from sending.
pub data Event : Type 0 where
  accepted : Event
  packet : ℕ → Request → Event
  read_failed : ℕ → Event
  write_failed : ℕ → Event

unfoldable pub step : Event → World → World
step accepted w = on_accept w
step (packet s req) w = handle_packet s req w
step (read_failed s) w = on_disconnect s (cut s w)
step (write_failed s) w = cut s w

unfoldable pub run : List Event → World → World
run [] w = w
run (e ∷ es) w = run es (step e w)
