-- ===== src/Server/Sizes.antt =====
-- Handlers that leave every inventory its slots.
use mmorpg_simulator.Common.{
  ℕ, ◌≡◌, refl, ◌∙◌, inl, inr, List, [], ◌∷◌, arith, length, length-set, length-map, length-append,
  length-replicate, length-take, map, take, replicate, ◌-◌,
}
use mmorpg_simulator.Protocol.{max_inventory}
use mmorpg_simulator.Protocol.Requests
use mmorpg_simulator.World.Data.{
  World, Npc, Inventory, no_item, ResultSet, QuestData, QuestProgress,
}
use mmorpg_simulator.Item.{give_item, place_item}
use mmorpg_simulator.World.Sessions.{broadcast}
use mmorpg_simulator.Quest.{reward_item, complete_quest, on_quest_complete, update_quest_progress}
use mmorpg_simulator.Quest.Lifecycle.{complete_cases}
use mmorpg_simulator.Combat.{
  on_attack, hit_npc, kill_npc, bury_npc, respawn_first, spawn_npc, share_reward, share_each,
  share_one, drop_item,
}
use mmorpg_simulator.Shop.{on_shop_buy, on_shop_sell}
use mmorpg_simulator.Gear.{on_item_use, on_item_equip}
use mmorpg_simulator.Entry.{
  load_inventory, loaded_inventory, wear_rows, wear_row, loaded_slots, slot_of,
}

-- The slots of one player's inventory.
abbrev pub size : World → ℕ → ℕ
size w t = length (w.inventories t).slots

pub shop_buy-size :
    (s t : ℕ) (req : Requests.ShopBuy) (w : World) → size (on_shop_buy s req w) t ≡ size w t
unfolding on_shop_buy
shop_buy-size s t req w = grind (arith, length-set)

pub shop_sell-size :
    (s t : ℕ) (req : Requests.ShopSell) (w : World) → size (on_shop_sell s req w) t ≡ size w t
unfolding on_shop_sell
shop_sell-size s t req w = grind (arith, length-set)

pub item_use-size :
    (s t : ℕ) (req : Requests.ItemUse) (w : World) → size (on_item_use s req w) t ≡ size w t
unfolding on_item_use
item_use-size s t req w = grind (arith, length-set)

pub item_equip-size :
    (s t : ℕ) (req : Requests.ItemEquip) (w : World) → size (on_item_equip s req w) t ≡ size w t
unfolding on_item_equip
item_equip-size s t req w = grind (arith, length-set)

pub give_item-size : (s tid t : ℕ) (w : World) → size (give_item s tid w) t ≡ size w t
unfolding give_item place_item
give_item-size s tid t w = grind (arith, length-set)

pub reward_item-size : (s tid t : ℕ) (w : World) → size (reward_item s tid w) t ≡ size w t
unfolding reward_item
reward_item-size s tid t w = grind (arith, give_item-size)

pub complete_quest-size :
    (s t : ℕ) (q : QuestData) (v : QuestProgress) (id : ℕ) (w : World)
    → size (complete_quest s q v id w) t ≡ size w t
unfolding complete_quest
complete_quest-size s t q v id w = grind (arith, reward_item-size)

pub complete-size :
    (s t : ℕ) (req : Requests.QuestComplete) (w : World)
    → size (on_quest_complete s req w) t ≡ size w t
complete-size s t req w = elim (complete_cases s req w) [
  | inl (why, e) ↦ rw e refl
  | inr (q, v, can, e) ↦ rw e (complete_quest-size s t q v req.quest_id w)
]

pub share_one-size : (s exp gold m t : ℕ) (w : World) → size (share_one s exp gold m w) t ≡ size w t
unfolding share_one
share_one-size s exp gold m t w = ground arith

pub share_each-size :
    (s exp gold t : ℕ) (ms : List ℕ) (w : World) → size (share_each s exp gold ms w) t ≡ size w t
unfolding share_each
share_each-size s exp gold t [] w = refl
share_each-size s exp gold t (m ∷ ms) w =
    grind (arith, share_one-size, share_each-size s exp gold t ms)

pub share_reward-size : (s t : ℕ) (n : Npc) (w : World) → size (share_reward s n w) t ≡ size w t
unfolding share_reward
share_reward-size s t n w = grind (arith, share_each-size)

pub drop_item-size : (s t : ℕ) (w : World) → size (drop_item s w) t ≡ size w t
unfolding drop_item
drop_item-size s t w = grind (arith, give_item-size)

pub respawn_first-size : (t : ℕ) (w : World) → size (respawn_first w) t ≡ size w t
unfolding respawn_first spawn_npc
respawn_first-size t w = ground arith

pub bury_npc-size : (s i t : ℕ) (n : Npc) (w : World) → size (bury_npc s i n w) t ≡ size w t
unfolding bury_npc broadcast update_quest_progress
bury_npc-size s i t n w = grind (arith, share_reward-size, drop_item-size)

pub hit_npc-size : (s i t : ℕ) (n : Npc) (w : World) → size (hit_npc s i n w) t ≡ size w t
unfolding hit_npc kill_npc
hit_npc-size s i t n w = grind (arith, bury_npc-size, respawn_first-size)

pub attack-size :
    (s t : ℕ) (req : Requests.Attack) (w : World) → size (on_attack s req w) t ≡ size w t
unfolding on_attack
attack-size s t req w = grind (arith, hit_npc-size)

pub wear_rows-size :
    (rs : ResultSet) (inv : Inventory) → length (wear_rows rs inv).slots ≡ length inv.slots
unfolding wear_rows
wear_rows-size [] inv = refl
wear_rows-size (r ∷ rs) inv = wear_rows-size rs (wear_row r inv) ∙ ground arith

-- Whatever rows the database gives, a loaded inventory has twenty slots.
pub loaded-size :
    (items worn : ResultSet) → length (loaded_inventory items worn).slots ≡ max_inventory
unfolding loaded_inventory loaded_slots
loaded-size items worn =
    wear_rows-size worn _
    ∙ omega (
      arith,
      length-append (map slot_of (take max_inventory items))
          (replicate (max_inventory - length (map slot_of (take max_inventory items))) no_item),
      length-replicate (max_inventory - length (map slot_of (take max_inventory items))) no_item,
      length-map slot_of (take max_inventory items),
      length-take max_inventory items,
    )

pub load_inventory-size :
    (s t : ℕ) (w : World) → size w t ≡ max_inventory → size (load_inventory s w) t ≡ max_inventory
unfolding load_inventory
load_inventory-size s t w h = grind (arith, loaded-size)
