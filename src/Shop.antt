-- ===== src/Shop.antt =====
-- The shop (GameServer/main.cpp: OnShopOpen, OnShopBuy, OnShopSell).
pub mod Purse
pub mod Worth
use mmorpg_simulator.Common.{
  ℕ, ◌+◌, ◌-◌, ◌/◌, Bool, ◌||◌, Option, none, some, List, [], ◌∷◌, ◌==◌, ltb, leb, if◌then◌else◌,
  take, map, length, Text, codes, u64,
}
use mmorpg_simulator.Protocol.{max_inventory, shop_list, shop_result, inventory_update}
use mmorpg_simulator.Protocol.Payloads.{ShopEntry, ShopResult}
use mmorpg_simulator.Protocol.Requests.{ShopBuy, ShopSell}
use mmorpg_simulator.World.Data.{World, ItemData, InvSlot, no_item}
use mmorpg_simulator.World.Sessions.{player, set_player, send, set_inventory}
use mmorpg_simulator.World.Database.{new_item_uid, add_item_to_db, remove_item_from_db}
use mmorpg_simulator.Item.{find_item, find_empty_slot, slot_at, put_slot}

abbrev shop_entry : ItemData → ShopEntry
shop_entry item = record { item_id = item.id; item_name = take 31 item.name; price = item.price }

-- The first ten items.
unfoldable pub on_shop_open : ℕ → World → World
on_shop_open s w = send s (shop_list (map shop_entry (take 10 w.items))) w

-- `result.message` has room for 31 bytes and the end of the text; strcpy_s ends the program for a
-- longer text.
abbrev pub message_size : ℕ
message_size = 32

abbrev pub if_fits : Text → World → Option World
if_fits message w = if ltb (length message) message_size then some w else none

-- A result whose `success` stays 0.
abbrev pub refusal : ℕ → Text → ShopResult
refusal gold why = record { success = 0; item_id = 0; remain_gold = gold; message = why }

-- For an item whose name fits the message; for another one try_shop_buy stops.
buy_into : ℕ → ℕ → ItemData → ℕ → World → World
buy_into s item_id item slot w =
    let p = player w s in
    let gold = p.gold - item.price in
    let w1 = set_player s (record p { gold = gold }) w in
    let new_uid = new_item_uid p.char_uid item_id w1 in
    let w2 = add_item_to_db p.char_uid item_id w1 in
    let bought : InvSlot = record { item_uid = new_uid; item_tid = item_id } in
    let w3 = set_inventory s (put_slot (w2.inventories s) slot bought) w2 in
    let w4 =
      send s
        (inventory_update
          (record { slot = slot; item_id = item.id; item_name = take 31 item.name }))
        w3 in
    send s
      (shop_result
        (record { success = 1; item_id = item_id; remain_gold = gold; message = item.name }))
      w4

-- What OnShopBuy leaves where strcpy_s returns.
unfoldable pub on_shop_buy : ℕ → ShopBuy → World → World
unfolding buy_into
on_shop_buy s req w =
    let p = player w s in
    elim (find_item w.items req.item_id) [
      | none ↦ send s (shop_result (refusal p.gold (codes "Item not found"))) w
      | some item ↦
          if ltb p.gold item.price
          then send s (shop_result (refusal p.gold (codes "Not enough gold"))) w
          else elim (find_empty_slot (w.inventories s)) [
            | none ↦ send s (shop_result (refusal p.gold (codes "Inventory full"))) w
            | some slot ↦ buy_into s req.item_id item slot w
          ]
    ]

-- The text that strcpy_s copies into the result of a purchase.
abbrev pub buy_message : ℕ → ShopBuy → World → Text
buy_message s req w = elim (find_item w.items req.item_id) [
  | none ↦ codes "Item not found"
  | some item ↦
      if ltb (player w s).gold item.price
      then codes "Not enough gold"
      else elim (find_empty_slot (w.inventories s)) [
        | none ↦ codes "Inventory full"
        | some slot ↦ item.name
      ]
]

-- OnShopBuy. `none`: strcpy_s ends the program.
unfoldable pub try_shop_buy : ℕ → ShopBuy → World → Option World
try_shop_buy s req w = if_fits (buy_message s req w) (on_shop_buy s req w)

-- A fifth of the price, 0 for an item that no template has.
abbrev pub sell_price : Option ItemData → ℕ
sell_price none = 0
sell_price (some item) = item.price / 5

abbrev sold_name : Option ItemData → Text
sold_name none = codes "Unknown"
sold_name (some item) = item.name

-- `if (itemUid) RemoveItemFromDB(itemUid)`
abbrev forget_item : ℕ → World → World
forget_item uid w = record w {
  calls = if uid == 0 then w.calls else (remove_item_from_db uid w).calls;
}

-- For an item whose name fits the message; for another one try_shop_sell stops.
sell_from : ℕ → ℕ → World → World
sell_from s slot w =
    let p = player w s in
    let v = slot_at (w.inventories s) slot in
    let item = find_item w.items v.item_tid in
    let gold = u64 (p.gold + sell_price item) in
    let w1 = forget_item v.item_uid w in
    let w2 = set_player s (record p { gold = gold }) w1 in
    let w3 = set_inventory s (put_slot (w2.inventories s) slot no_item) w2 in
    let w4 = send s (inventory_update (record { slot = slot; item_id = 0; item_name = [] })) w3 in
    send s
      (shop_result (record {
        success = 2;
        item_id = v.item_tid;
        remain_gold = gold;
        message = sold_name item;
      }))
      w4

-- What OnShopSell leaves where strcpy_s returns.
unfoldable pub on_shop_sell : ℕ → ShopSell → World → World
unfolding sell_from
on_shop_sell s req w =
    if leb max_inventory req.slot || (slot_at (w.inventories s) req.slot).item_tid == 0
    then send s (shop_result (refusal 0 (codes "Invalid slot"))) w
    else sell_from s req.slot w

-- The text that strcpy_s copies into the result of a sale.
abbrev sell_message : ℕ → ShopSell → World → Text
sell_message s req w =
    let v = slot_at (w.inventories s) req.slot in
    if leb max_inventory req.slot || v.item_tid == 0
    then codes "Invalid slot"
    else sold_name (find_item w.items v.item_tid)

-- OnShopSell. `none`: strcpy_s ends the program.
unfoldable pub try_shop_sell : ℕ → ShopSell → World → Option World
try_shop_sell s req w = if_fits (sell_message s req w) (on_shop_sell s req w)
