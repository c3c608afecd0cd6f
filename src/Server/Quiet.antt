-- ===== src/Server/Quiet.antt =====
-- What most handlers leave alone: the parties and the monsters.
use mmorpg_simulator.Common.{ℕ, ◌≡◌, refl, List, [], ◌∷◌, arith, inl, inr, ◌⊎◌}
use mmorpg_simulator.Protocol.Requests
use mmorpg_simulator.World.Data.{World, Cell, ResultSet}
use mmorpg_simulator.World.Quiet.{IsQuiet}
use mmorpg_simulator.Quest.Frame.{complete-IsQuiet}
use mmorpg_simulator.Account.{on_login, on_char_list, on_char_create}
use mmorpg_simulator.Entry.{
  on_char_select, selected, enter_game, welcome, load_inventory, load_quest_progress,
  send_other_players,
}
use mmorpg_simulator.Chat.{on_chat}
use mmorpg_simulator.Party.{on_party_invite, on_party_accept, on_party_leave}
use mmorpg_simulator.Server.{handle_packet}
use mmorpg_simulator.Server.Packets.{
  Request, login, char_list, char_create, char_select, attendance_check, heartbeat_check, move,
  attack, chat, item_use, item_equip, shop_open, shop_buy, shop_sell, quest_list, quest_accept,
  quest_complete, party_invite, party_accept, party_leave, unknown,
}
use mmorpg_simulator.Shop.{on_shop_open, on_shop_buy, on_shop_sell}
use mmorpg_simulator.Gear.{on_item_use, on_item_equip}
use mmorpg_simulator.Movement.{on_move}
use mmorpg_simulator.Quest.{on_quest_list, on_quest_accept}
use mmorpg_simulator.Combat.{send_all_npcs, on_attack}

login-IsQuiet : (s : ℕ) (req : Requests.Login) (w : World) → IsQuiet w (on_login s req w)
unfolding on_login
login-IsQuiet s req w = ground arith

char_list-IsQuiet : (s : ℕ) (w : World) → IsQuiet w (on_char_list s w)
unfolding on_char_list
char_list-IsQuiet s w = ground arith

char_create-IsQuiet :
    (s : ℕ) (req : Requests.CharCreate) (w : World) → IsQuiet w (on_char_create s req w)
unfolding on_char_create
char_create-IsQuiet s req w = ground arith

load_inventory-IsQuiet : (s : ℕ) (w : World) → IsQuiet w (load_inventory s w)
unfolding load_inventory
load_inventory-IsQuiet s w = ground arith

welcome-IsQuiet : (s : ℕ) (w : World) → IsQuiet w (welcome s w)
unfolding welcome load_quest_progress send_other_players send_all_npcs
welcome-IsQuiet s w = grind (arith, load_inventory-IsQuiet)

enter_game-IsQuiet : (s uid : ℕ) (r : List Cell) (w : World) → IsQuiet w (enter_game s uid r w)
unfolding enter_game
enter_game-IsQuiet s uid r w = grind (arith, welcome-IsQuiet)

selected-IsQuiet : (s uid : ℕ) (rs : ResultSet) (w : World) → IsQuiet w (selected s uid rs w)
unfolding selected
selected-IsQuiet s uid [] w = ground arith
selected-IsQuiet s uid (r ∷ rs) w = enter_game-IsQuiet s uid r w

char_select-IsQuiet :
    (s : ℕ) (req : Requests.CharSelect) (w : World) → IsQuiet w (on_char_select s req w)
unfolding on_char_select
char_select-IsQuiet s req w = grind (arith, selected-IsQuiet)

shop_open-IsQuiet : (s : ℕ) (w : World) → IsQuiet w (on_shop_open s w)
unfolding on_shop_open
shop_open-IsQuiet s w = ground arith

move-IsQuiet : (s : ℕ) (req : Requests.Move) (w : World) → IsQuiet w (on_move s req w)
unfolding on_move
move-IsQuiet s req w = ground arith

shop_buy-IsQuiet : (s : ℕ) (req : Requests.ShopBuy) (w : World) → IsQuiet w (on_shop_buy s req w)
unfolding on_shop_buy
shop_buy-IsQuiet s req w = ground arith

shop_sell-IsQuiet : (s : ℕ) (req : Requests.ShopSell) (w : World) → IsQuiet w (on_shop_sell s req w)
unfolding on_shop_sell
shop_sell-IsQuiet s req w = ground arith

item_use-IsQuiet : (s : ℕ) (req : Requests.ItemUse) (w : World) → IsQuiet w (on_item_use s req w)
unfolding on_item_use
item_use-IsQuiet s req w = ground arith

item_equip-IsQuiet :
    (s : ℕ) (req : Requests.ItemEquip) (w : World) → IsQuiet w (on_item_equip s req w)
unfolding on_item_equip
item_equip-IsQuiet s req w = ground arith

quest_list-IsQuiet : (s : ℕ) (w : World) → IsQuiet w (on_quest_list s w)
unfolding on_quest_list
quest_list-IsQuiet s w = ground arith

quest_accept-IsQuiet :
    (s : ℕ) (req : Requests.QuestAccept) (w : World) → IsQuiet w (on_quest_accept s req w)
unfolding on_quest_accept
quest_accept-IsQuiet s req w = ground arith

-- The other handlers.
pub data Loud : Type 0 where
  attacks : Requests.Attack → Loud
  chats : Requests.Chat → Loud
  invites : Requests.PartyInvite → Loud
  accepts : Requests.PartyAccept → Loud
  leaves : Loud

abbrev pub loud_handler : ℕ → Loud → World → World
loud_handler s (attacks req) = on_attack s req
loud_handler s (chats req) = on_chat s req
loud_handler s (invites req) = on_party_invite s req
loud_handler s (accepts req) = on_party_accept s req
loud_handler s leaves = on_party_leave s

pub handle-cases :
    (s : ℕ) (req : Request) (w : World)
    → IsQuiet w (handle_packet s req w)
      ⊎ ((l : Loud) × (handle_packet s req w ≡ loud_handler s l w))
unfolding handle_packet
handle-cases s (login req) w = inl (login-IsQuiet s req w)
handle-cases s char_list w = inl (char_list-IsQuiet s w)
handle-cases s (char_create req) w = inl (char_create-IsQuiet s req w)
handle-cases s (char_select req) w = inl (char_select-IsQuiet s req w)
handle-cases s attendance_check w = inl (ground arith)
handle-cases s heartbeat_check w = inl (ground arith)
handle-cases s (move req) w = inl (move-IsQuiet s req w)
handle-cases s (attack req) w = inr (attacks req, refl)
handle-cases s (chat req) w = inr (chats req, refl)
handle-cases s (item_use req) w = inl (item_use-IsQuiet s req w)
handle-cases s (item_equip req) w = inl (item_equip-IsQuiet s req w)
handle-cases s shop_open w = inl (shop_open-IsQuiet s w)
handle-cases s (shop_buy req) w = inl (shop_buy-IsQuiet s req w)
handle-cases s (shop_sell req) w = inl (shop_sell-IsQuiet s req w)
handle-cases s quest_list w = inl (quest_list-IsQuiet s w)
handle-cases s (quest_accept req) w = inl (quest_accept-IsQuiet s req w)
handle-cases s (quest_complete req) w = inl (complete-IsQuiet s req w)
handle-cases s (party_invite req) w = inr (invites req, refl)
handle-cases s (party_accept req) w = inr (accepts req, refl)
handle-cases s party_leave w = inr (leaves, refl)
handle-cases s (unknown code) w = inl (ground arith)
