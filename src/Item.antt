-- ===== src/Item.antt =====
-- Item templates, inventory slots and drops (GameServer/main.cpp: FindItem, FindEmptySlot,
-- RollDrop), and the block that hands out a quest's or a monster's item.
pub mod Slots
pub mod Drop
pub mod Frame
use mmorpg_simulator.Common.{
  ℕ, suc, ◌+◌, ◌%◌, Option, none, some, List, [], ◌∷◌, ◌==◌, ltb, if◌then◌else◌, get_or, set, take,
}
use mmorpg_simulator.Protocol.{item_drop}
use mmorpg_simulator.World.Data.{World, ItemData, DropEntry, InvSlot, Inventory, no_item}
use mmorpg_simulator.World.Sessions.{player, send, set_inventory}
use mmorpg_simulator.World.Database.{draw, drawn, new_item_uid, add_item_to_db}

unfoldable pub find_item : List ItemData → ℕ → Option ItemData
find_item [] id = none
find_item (item ∷ items) id = if item.id == id then some item else find_item items id

-- `inv.slots[i]` for an index that the callers have checked.
abbrev pub slot_at : Inventory → ℕ → InvSlot
slot_at inv i = get_or inv.slots i no_item

abbrev pub put_slot : Inventory → ℕ → InvSlot → Inventory
put_slot inv i v = record inv { slots = set inv.slots i v }

abbrev pub next_slot : Option ℕ → Option ℕ
next_slot none = none
next_slot (some i) = some (suc i)

unfoldable pub first_empty : List InvSlot → Option ℕ
first_empty [] = none
first_empty (v ∷ vs) = if v.item_tid == 0 then some 0 else next_slot (first_empty vs)

-- FindEmptySlot; -1 is `none`.
abbrev pub find_empty_slot : Inventory → Option ℕ
find_empty_slot inv = first_empty inv.slots

-- The loop of RollDrop over the drop table.
unfoldable pub pick_drop : List DropEntry → ℕ → ℕ → ℕ
pick_drop [] roll acc = 0
pick_drop (e ∷ es) roll acc =
    if ltb roll (acc + e.weight) then e.item_id else pick_drop es roll (acc + e.weight)

-- The item id that RollDrop gives where the division has a result. A table that is not empty costs
-- one number of rand().
abbrev pub roll_drop : World → ℕ
roll_drop w = elim w.drop_table [
  | [] ↦ 0
  | e ∷ es ↦ pick_drop w.drop_table (draw w % w.total_weight) 0
]

-- RollDrop. `none`: the weights of a table that is not empty sum to 0, and `rand() % 0` ends the
-- program.
abbrev pub roll : World → Option ℕ
roll w = elim w.drop_table [
  | [] ↦ some 0
  | e ∷ es ↦ if w.total_weight == 0 then none else some (roll_drop w)
]

abbrev pub rolled : World → World
rolled w = elim w.drop_table [ [] ↦ w | e ∷ es ↦ drawn w ]

-- A new item goes to the database, into a slot and to the client. Without a free slot, or for an
-- id that no template has, nothing happens.
unfoldable pub place_item : ℕ → ℕ → ItemData → ℕ → World → World
place_item s tid item slot w =
    let uid = (player w s).char_uid in
    let new_uid = new_item_uid uid tid w in
    let w1 = add_item_to_db uid tid w in
    let w2 =
      set_inventory s
        (put_slot (w1.inventories s) slot (record { item_uid = new_uid; item_tid = tid })) w1 in
    send s (item_drop (record { slot = slot; item_id = item.id; item_name = take 31 item.name })) w2

unfoldable pub give_item : ℕ → ℕ → World → World
unfolding place_item
give_item s tid w = elim (find_empty_slot (w.inventories s)) [
  | none ↦ w
  | some slot ↦ elim (find_item w.items tid) [ none ↦ w | some item ↦ place_item s tid item slot w ]
]
