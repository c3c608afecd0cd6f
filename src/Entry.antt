-- ===== src/Entry.antt =====
-- Entering the game with a character (GameServer/main.cpp: OnCharSelect, SendOtherPlayers,
-- LoadInventory, LoadQuestProgress).
pub mod Loading
pub mod Select
use mmorpg_simulator.Common.{
  ℕ, zero, suc, ◌+◌, ◌-◌, ◌%◌, ◌++◌, not, ◌&&◌, Bool, true, Option, none, some, List, [], ◌∷◌, ◌==◌,
  if◌then◌else◌, map, take, length, replicate, codes, u8, u16,
}
use mmorpg_simulator.Common.Int.{pos}
use mmorpg_simulator.Protocol.{
  Packet, max_inventory, char_info, inventory_list, equip_result, error,
}
use mmorpg_simulator.Protocol.Payloads.{InventoryUpdate}
use mmorpg_simulator.Protocol.Requests.{CharSelect}
use mmorpg_simulator.World.Data.{
  World, Player, Session, Inventory, InvSlot, empty_inventory, no_item, ItemData, Cell, ProcCall,
  ResultSet,
}
use mmorpg_simulator.World.Sessions.{
  player, set_player, send, post, set_inventory, broadcast_except,
}
use mmorpg_simulator.World.Database.{call, reply, rows, more_rows, column, text_column, draw, drawn}
use mmorpg_simulator.Item.{find_item}
use mmorpg_simulator.Status.{send_char_info, public_info}
use mmorpg_simulator.Gear.{name_of}
use mmorpg_simulator.Quest.{QuestBook, put_progress, set_book}
use mmorpg_simulator.Combat.{send_all_npcs}
use mmorpg_simulator.Attendance.{send_attendance_info}

-- The newcomer learns of each other player who is in the game.
pub post_others : (ℕ → Session) → ℕ → List ℕ → List (ℕ × Packet) → List (ℕ × Packet)
post_others heap s [] sent = sent
post_others heap s (i ∷ is) sent = post_others heap s is (
    if not (i == s) && (heap i).player.logged_in
    then post heap s (char_info (public_info (heap i).player)) sent
    else sent)

-- And each of them learns of him.
unfoldable pub send_other_players : ℕ → World → World
unfolding post_others broadcast_except
send_other_players s w =
    let w1 = record w { sent = post_others w.heap s w.sessions w.sent } in
    broadcast_except s (char_info (public_info (player w s))) w1

-- The first twenty rows fill the slots from the front.
abbrev pub slot_of : List Cell → InvSlot
slot_of r = record { item_uid = column 0 r; item_tid = u16 (column 1 r) }

unfoldable pub loaded_slots : ResultSet → List InvSlot
loaded_slots rs =
    let taken = map slot_of (take max_inventory rs) in
    taken ++ replicate (max_inventory - length taken) no_item

-- One row of the equipment.
abbrev pub wear_row : List Cell → Inventory → Inventory
wear_row r inv =
    if column 0 r == 0
    then record inv { weapon_uid = column 1 r; weapon_tid = u16 (column 2 r) }
    else if column 0 r == 1
    then record inv { armor_uid = column 1 r; armor_tid = u16 (column 2 r) }
    else inv

unfoldable pub wear_rows : ResultSet → Inventory → Inventory
wear_rows [] inv = inv
wear_rows (r ∷ rs) inv = wear_rows rs (wear_row r inv)

unfoldable pub loaded_inventory : ResultSet → ResultSet → Inventory
unfolding loaded_slots wear_rows
loaded_inventory items worn = wear_rows worn (record empty_inventory { slots = loaded_slots items })

-- The entries of the list, for the slots whose item has a template.
abbrev list_entry : ℕ → InvSlot → Option ItemData → List InventoryUpdate
list_entry i v none = []
list_entry i v (some item) =
    if v.item_tid == 0
    then []
    else record { slot = i; item_id = item.id; item_name = take 31 item.name } ∷ []

pub list_entries : List ItemData → ℕ → List InvSlot → List InventoryUpdate
list_entries items i [] = []
list_entries items i (v ∷ vs) =
    list_entry i v (find_item items v.item_tid) ++ list_entries items (suc i) vs

-- What is worn sets attack and defence; without it they stay.
abbrev pub with_weapon : Option ItemData → Player → Player
with_weapon none p = p
with_weapon (some item) p = record p { atk = u16 (15 + item.atk) }

abbrev pub with_armor : Option ItemData → Player → Player
with_armor none p = p
with_armor (some item) p = record p { def = u16 (5 + item.def) }

unfoldable pub load_inventory : ℕ → World → World
unfolding list_entries
load_inventory s w =
    let c = ProcCall.inventory_load (player w s).char_uid in
    let a = reply c w in
    let inv = loaded_inventory (rows a) (more_rows a) in
    let wep = find_item w.items inv.weapon_tid in
    let arm = find_item w.items inv.armor_tid in
    let p = with_armor arm (with_weapon wep (player w s)) in
    let w1 = set_player s p (set_inventory s inv (call c w)) in
    let w2 = send s (inventory_list (list_entries w.items 0 inv.slots)) w1 in
    if inv.weapon_tid == 0 && inv.armor_tid == 0
    then w2
    else send s
        (equip_result (record {
          success = 1;
          slot = 0;
          atk = p.atk;
          def = p.def;
          weapon_name = name_of wep;
          armor_name = name_of arm;
          message = [];
        }))
        w2

unfoldable pub loaded_book : ResultSet → QuestBook → QuestBook
loaded_book [] book = book
loaded_book (r ∷ rs) book = loaded_book rs (
    put_progress book (u16 (column 0 r))
      (record { status = u8 (column 1 r); progress = u16 (column 2 r) }))

unfoldable pub load_quest_progress : ℕ → World → World
load_quest_progress s w =
    let c = ProcCall.quest_load (player w s).char_uid in
    set_book s (loaded_book (rows (reply c w)) []) (call c w)

-- The character as the database has it, at a place near the middle of the map. What it does not
-- tell stays as it was in the session: hp, attack, defence and the price of the next level.
unfoldable pub entered : ℕ → List Cell → ℕ → ℕ → Player → Player
entered uid r dx dy p = record p {
  char_uid = uid;
  logged_in = true;
  level = u16 (column 0 r);
  exp = column 1 r;
  gold = column 2 r;
  pos_x = pos (5 + dx % 10);
  pos_y = pos (5 + dy % 10);
}

-- The first row of the query for the name, if there is one, gives the name.
abbrev pub named : ResultSet → Player → Player
named [] p = p
named (r ∷ _) p = record p { name = take 19 (text_column 0 r) }

-- Everything that a character who has entered is told.
unfoldable pub welcome : ℕ → World → World
welcome s w = load_quest_progress s (
    load_inventory s
      (send_attendance_info s (send_other_players s (send_all_npcs s (send_char_info s w)))))

unfoldable pub enter_game : ℕ → ℕ → List Cell → World → World
enter_game s uid r w =
    let x = draw w in
    let w1 = drawn w in
    let y = draw w1 in
    let w2 = drawn w1 in
    let w3 = set_player s (entered uid r x y (player w2 s)) w2 in
    let c = ProcCall.character_name uid in
    let w4 = set_player s (named (rows (reply c w3)) (player w3 s)) (call c w3) in welcome s w4

-- The row that tells the character: none is an error.
unfoldable pub selected : ℕ → ℕ → ResultSet → World → World
selected s uid [] w =
    send s (error (record { error_code = 1; message = codes "Character not found" })) w
selected s uid (r ∷ rs) w = enter_game s uid r w

unfoldable pub on_char_select : ℕ → CharSelect → World → World
on_char_select s req w =
    let c = ProcCall.character_login (player w s).account_uid req.char_uid in
    selected s req.char_uid (rows (reply c w)) (call c w)
