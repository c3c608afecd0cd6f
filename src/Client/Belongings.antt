-- ===== src/Client/Belongings.antt =====
-- The handlers of GameClient/main.cpp for items and the shop. A count in a packet is that of the
-- entries in use: the loops for the shop and for quests would also follow a larger one, past the
-- ends of the arrays.
use mmorpg_simulator.Common.{
  ℕ, ◌==◌, ltb, true, if◌then◌else◌, List, [], ◌∷◌, ◌++◌, take, map, length, set, Text, codes,
}
use mmorpg_simulator.Protocol.{max_inventory}
use mmorpg_simulator.Protocol.Payloads
use mmorpg_simulator.Client.State.{ClientState, SeenSlot}
use mmorpg_simulator.Client.Words.{to_string}

abbrev pub seen_slot : ℕ → Text → SeenSlot
seen_slot id name = record { item_id = id; name = if id == 0 then [] else take 31 name }

unfoldable pub on_item_drop : Payloads.ItemDrop → ClientState → ClientState
on_item_drop drop c = record c {
  inventory =
      if ltb drop.slot max_inventory
      then set c.inventory drop.slot
          (record { item_id = drop.item_id; name = take 31 drop.item_name })
      else c.inventory;
  last_msg =
      codes "Dropped: " ++ drop.item_name ++ codes " [slot " ++ to_string drop.slot ++ codes "]";
}

unfoldable pub on_item_use_result : Payloads.ItemUseResult → ClientState → ClientState
on_item_use_result res c = record c {
  last_msg =
      res.char_name
      ++ codes " used "
      ++ res.item_name
      ++ codes " (+"
      ++ to_string res.effect_value
      ++ codes " HP)";
}

unfoldable pub on_equip_result : Payloads.EquipResult → ClientState → ClientState
on_equip_result res c = if res.success == 0 then record c { last_msg = res.message } else record c {
  my_player = record c.my_player { atk = res.atk; def = res.def };
  equipped_weapon = take 31 res.weapon_name;
  equipped_armor = take 31 res.armor_name;
  last_msg = codes "Equipped! ATK:" ++ to_string res.atk ++ codes " DEF:" ++ to_string res.def;
}

-- One slot of OnInventoryUpdate and of OnInventoryList.
abbrev pub show_slot : Payloads.InventoryUpdate → List SeenSlot → List SeenSlot
show_slot upd slots =
    if ltb upd.slot max_inventory
    then set slots upd.slot (seen_slot upd.item_id upd.item_name)
    else slots

unfoldable pub on_inventory_update : Payloads.InventoryUpdate → ClientState → ClientState
on_inventory_update upd c = record c { inventory = show_slot upd c.inventory }

unfoldable pub show_slots : List Payloads.InventoryUpdate → List SeenSlot → List SeenSlot
show_slots [] slots = slots
show_slots (upd ∷ upds) slots = show_slots upds (show_slot upd slots)

unfoldable pub on_inventory_list : List Payloads.InventoryUpdate → ClientState → ClientState
on_inventory_list items c = record c {
  inventory = show_slots (take max_inventory items) c.inventory;
}

-- The first entries of an array, replaced.
unfoldable pub overwrite {ℓ} : {A : Type ℓ} → List A → List A → List A
overwrite [] old = old
overwrite (v ∷ vs) [] = []
overwrite (v ∷ vs) (u ∷ old) = v ∷ overwrite vs old

abbrev pub cut_entry : Payloads.ShopEntry → Payloads.ShopEntry
cut_entry e = record e { item_name = take 31 e.item_name }

unfoldable pub on_shop_list : List Payloads.ShopEntry → ClientState → ClientState
on_shop_list entries c = record c {
  shop_count = length entries;
  shop_items = overwrite (map cut_entry entries) c.shop_items;
  show_shop = true;
}

unfoldable pub on_shop_result : Payloads.ShopResult → ClientState → ClientState
on_shop_result res c = record c {
  my_player = record c.my_player { gold = res.remain_gold };
  last_msg =
      if res.success == 1
      then codes "Bought: "
        ++ res.message
        ++ codes " (Gold:"
        ++ to_string res.remain_gold
        ++ codes ")"
      else if res.success == 2
      then codes "Sold: "
        ++ res.message
        ++ codes " (Gold:"
        ++ to_string res.remain_gold
        ++ codes ")"
      else codes "Shop: " ++ res.message;
}
