-- ===== src/Gear.antt =====
-- Using and wearing items (GameServer/main.cpp: OnItemUse, OnItemEquip).
pub mod Use
pub mod Conservation
use Prim.Native.Nat.{min}
use mmorpg_simulator.Common.{
  ℕ, ◌+◌, not, ◌||◌, Option, none, some, ◌==◌, leb, if◌then◌else◌, set, take, Text, codes, text_eq,
  u16, [],
}
use mmorpg_simulator.Protocol.{max_inventory, item_use_result, inventory_update, equip_result}
use mmorpg_simulator.Protocol.Payloads.{EquipResult}
use mmorpg_simulator.Protocol.Requests.{ItemUse, ItemEquip}
use mmorpg_simulator.World.Data.{World, Player, Inventory, InvSlot, ItemData, no_item}
use mmorpg_simulator.World.Sessions.{player, set_player, send, set_inventory, broadcast}
use mmorpg_simulator.World.Database.{remove_item_from_db, equip_item_db}
use mmorpg_simulator.Item.{find_item, slot_at, put_slot}
use mmorpg_simulator.Status.{send_char_info}

abbrev pub consumable : Text
consumable = codes "consumable"

abbrev pub weapon : Text
weapon = codes "weapon"

-- std::min((uint16_t)(hp + item->hp), maxHp)
abbrev pub healed : Player → ItemData → ℕ
healed p item = min (u16 (p.hp + item.hp)) p.max_hp

use_from : ℕ → ℕ → ItemData → World → World
unfolding broadcast
use_from s slot item w =
    let p = player w s in
    let w1 = set_player s (record p { hp = healed p item }) w in
    let w2 = remove_item_from_db (slot_at (w1.inventories s) slot).item_uid w1 in
    let w3 = set_inventory s (put_slot (w2.inventories s) slot no_item) w2 in
    let w4 =
      broadcast
        (item_use_result (record {
          char_uid = p.char_uid;
          char_name = take 19 p.name;
          item_name = take 31 item.name;
          effect_type = 0;
          effect_value = item.hp;
        }))
        w3 in
    let w5 = send s (inventory_update (record { slot = slot; item_id = 0; item_name = [] })) w4 in
    send_char_info s w5

unfoldable pub on_item_use : ℕ → ItemUse → World → World
unfolding use_from
on_item_use s req w =
    if leb max_inventory req.slot || (slot_at (w.inventories s) req.slot).item_tid == 0
    then w
    else elim (find_item w.items (slot_at (w.inventories s) req.slot).item_tid) [
      | none ↦ w
      | some item ↦ if not (text_eq item.kind consumable) then w else use_from s req.slot item w
    ]

-- The weapon and the slot change places.
abbrev pub swap_weapon : Inventory → ℕ → Inventory
swap_weapon inv slot = record inv {
  slots = set inv.slots slot (record { item_uid = inv.weapon_uid; item_tid = inv.weapon_tid });
  weapon_uid = (slot_at inv slot).item_uid;
  weapon_tid = (slot_at inv slot).item_tid;
}

abbrev pub swap_armor : Inventory → ℕ → Inventory
swap_armor inv slot = record inv {
  slots = set inv.slots slot (record { item_uid = inv.armor_uid; item_tid = inv.armor_tid });
  armor_uid = (slot_at inv slot).item_uid;
  armor_tid = (slot_at inv slot).item_tid;
}

abbrev pub name_of : Option ItemData → Text
name_of none = []
name_of (some item) = take 31 item.name

-- What follows the swap: the database, the result, the slot and the character are reported.
abbrev report_equip : ℕ → ℕ → ℕ → ℕ → World → World
report_equip s slot eq_slot uid w =
    let p = player w s in
    let inv = w.inventories s in
    let w1 = equip_item_db p.char_uid eq_slot uid w in
    let w2 =
      send s
        (equip_result (record {
          success = 1;
          slot = slot;
          atk = p.atk;
          def = p.def;
          weapon_name = name_of (find_item w.items inv.weapon_tid);
          armor_name = name_of (find_item w.items inv.armor_tid);
          message = [];
        }))
        w1 in
    let tid = (slot_at inv slot).item_tid in
    let w3 =
      send s
        (inventory_update (record {
          slot = slot;
          item_id = tid;
          item_name = if tid == 0 then [] else name_of (find_item w.items tid);
        }))
        w2 in
    send_char_info s w3

equip_weapon : ℕ → ℕ → ItemData → World → World
equip_weapon s slot item w =
    let p = player w s in
    let w1 = set_inventory s (swap_weapon (w.inventories s) slot) w in
    let w2 = set_player s (record p { atk = u16 (15 + item.atk) }) w1 in
    report_equip s slot 0 (w2.inventories s).weapon_uid w2

equip_armor : ℕ → ℕ → ItemData → World → World
equip_armor s slot item w =
    let p = player w s in
    let w1 = set_inventory s (swap_armor (w.inventories s) slot) w in
    let w2 = set_player s (record p { def = u16 (5 + item.def) }) w1 in
    report_equip s slot 1 (w2.inventories s).armor_uid w2

abbrev cannot_equip : ℕ → EquipResult
cannot_equip slot = record {
  success = 0;
  slot = slot;
  atk = 0;
  def = 0;
  weapon_name = [];
  armor_name = [];
  message = codes "Cannot equip consumable";
}

-- An item that is neither a consumable nor a weapon is worn as armor.
unfoldable pub on_item_equip : ℕ → ItemEquip → World → World
unfolding equip_weapon equip_armor
on_item_equip s req w =
    if leb max_inventory req.slot || (slot_at (w.inventories s) req.slot).item_tid == 0
    then w
    else elim (find_item w.items (slot_at (w.inventories s) req.slot).item_tid) [
      | none ↦ w
      | some item ↦
          if text_eq item.kind consumable
          then send s (equip_result (cannot_equip req.slot)) w
          else if text_eq item.kind weapon
          then equip_weapon s req.slot item w
          else equip_armor s req.slot item w
    ]
