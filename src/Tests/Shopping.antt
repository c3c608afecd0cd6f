-- ===== src/Tests/Shopping.antt =====
-- The shop.
use mmorpg_simulator.Common.{
  ◌≡◌, ◌≤◌, refl, some, inl, inr, List, [], ◌∷◌, ◌⊎◌, codes, arith, ◌+◌, ◌-◌, ◌/◌,
}
use mmorpg_simulator.Protocol.Requests.{ShopBuy, ShopSell}
use mmorpg_simulator.World.Data.{World, ItemData}
use mmorpg_simulator.World.Sessions.{player}
use mmorpg_simulator.World.Database.{new_item_uid}
use mmorpg_simulator.Item.{find_item, first_empty, put_slot, slot_at}
use mmorpg_simulator.Shop.{on_shop_buy, try_shop_buy, try_shop_sell}
use mmorpg_simulator.Shop.Purse.{sell-buy}
use mmorpg_simulator.Shop.Worth.{worth, trade, trade-worth-le}
use mmorpg_simulator.Tests.Town.{town}

abbrev steel_sword : ItemData
steel_sword = record {
  id = 2;
  name = codes "Steel Sword";
  kind = codes "weapon";
  atk = 12;
  def = 0;
  hp = 0;
  price = 200;
}

abbrev after_purchase : World
after_purchase = on_shop_buy 1 (record { item_id = 2 }) town

gold_after : (player after_purchase 1).gold ≡ 300
unfolding on_shop_buy find_item first_empty
gold_after = refl

slot_after : slot_at (after_purchase.inventories 1) 0 ≡ record { item_uid = 77; item_tid = 2 }
unfolding on_shop_buy find_item first_empty new_item_uid
slot_after = refl

sell-buy_example :
    (w1 : World) × (w2 : World) × (try_shop_buy 1 (record { item_id = 2 }) town ≡ some w1)
    × (try_shop_sell 1 (record { slot = 0 }) w1 ≡ some w2)
    × ((player w2 1).gold ≡ 500 - 200 + 200 / 5)
    × (w2.inventories 1 ≡ put_slot (town.inventories 1) 0 (record { item_uid = 0; item_tid = 0 }))
unfolding find_item first_empty
sell-buy_example =
    sell-buy 1 2 town steel_sword 0 refl (omega arith) (λ e. omega arith) (omega arith)
      (omega arith) refl refl

abbrev errands : List (ShopBuy ⊎ ShopSell)
errands =
    inl (record { item_id = 2 })
    ∷ inr (record { slot = 0 })
    ∷ inr (record { slot = 7 })
    ∷ inl (record { item_id = 4 })
    ∷ []

trade-worth-le_example : worth 1 (trade 1 errands town) ≤ worth 1 town
trade-worth-le_example = trade-worth-le 1 errands town
