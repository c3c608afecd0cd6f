-- ===== src/Tests/Wearing.antt =====
-- Items in use.
use mmorpg_simulator.Common.{◌≡◌, ◌⊎◌, refl, codes, arith}
use mmorpg_simulator.World.Data.{World, ItemData, empty_inventory}
use mmorpg_simulator.World.Sessions.{player, set_inventory}
use mmorpg_simulator.Item.{find_item, put_slot}
use mmorpg_simulator.Gear.{on_item_use, on_item_equip}
use mmorpg_simulator.Gear.Use.{CanUse, IsUsed, use_or_same}
use mmorpg_simulator.Gear.Conservation.{holdings, equip_conserves}
use mmorpg_simulator.Tests.Town.{town}

abbrev potion : ItemData
potion = record {
  id = 5;
  name = codes "HP Potion";
  kind = codes "consumable";
  atk = 0;
  def = 0;
  hp = 50;
  price = 30;
}

-- A potion in slot 0 and a sword in slot 1.
abbrev packed : World
packed =
    set_inventory 1
      (put_slot (put_slot empty_inventory 0 (record { item_uid = 70; item_tid = 5 })) 1
        (record { item_uid = 71; item_tid = 1 }))
      town

use_or_same_example :
    (on_item_use 1 (record { slot = 0 }) packed ≡ packed)
    ⊎ ((item : ItemData) × CanUse 1 (record { slot = 0 }) packed item
        × IsUsed 1 0 item packed (on_item_use 1 (record { slot = 0 }) packed))
use_or_same_example = use_or_same 1 (record { slot = 0 }) packed (omega arith) (omega arith)

equip_conserves_example :
    holdings
      (record { item_uid = 71; item_tid = 1 })
      ((on_item_equip 1 (record { slot = 1 }) packed).inventories 1)
    ≡ holdings (record { item_uid = 71; item_tid = 1 }) (packed.inventories 1)
equip_conserves_example =
    equip_conserves 1 (record { slot = 1 }) packed (record { item_uid = 71; item_tid = 1 })

equip_atk : (player (on_item_equip 1 (record { slot = 1 }) packed) 1).atk ≡ 20
unfolding on_item_equip find_item
equip_atk = refl
