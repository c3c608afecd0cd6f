-- ===== src/Shop/Worth.antt =====
-- The shop makes nobody richer: gold and the resale price of what is held, taken together.
use mmorpg_simulator.Common.{
  ℕ, zero, suc, ◌+◌, ◌≤◌, ◌<◌, ◌≡◌, ◌≢◌, ◌⊎◌, inl, inr, some, List, [], ◌∷◌, arith, ◌==◌,
  if◌then◌else◌, length, set, get_or,
}
use native.Mathlib.Nat.{le_trans, le_refl}
use mmorpg_simulator.Protocol.Requests.{ShopBuy, ShopSell}
use mmorpg_simulator.World.Data.{World, ItemData, InvSlot, no_item}
use mmorpg_simulator.World.Sessions.{player}
use mmorpg_simulator.Item.{find_item, find_empty_slot, slot_at}
use mmorpg_simulator.Item.Slots.{first_empty-lt, tid_at, taken-lt}
use mmorpg_simulator.Shop.{on_shop_buy, on_shop_sell, sell_price}
use mmorpg_simulator.Shop.Purse.{
  Bought, bought_slot, buy-Bought, buy-cases, buy_refused, Sold, sell-Sold, sell-cases,
}

abbrev pub resale : List ItemData → InvSlot → ℕ
resale items v = if v.item_tid == 0 then 0 else sell_price (find_item items v.item_tid)

abbrev pub stock : List ItemData → List InvSlot → ℕ
stock items [] = 0
stock items (v ∷ vs) = resale items v + stock items vs

-- What the gold and the slots of a player are worth to the shop.
abbrev pub worth : ℕ → World → ℕ
worth s w = (player w s).gold + stock w.items (w.inventories s).slots

stock-set :
    (items : List ItemData) (vs : List InvSlot) (i : ℕ) (v : InvSlot)
    → i < length vs
    → stock items (set vs i v) + resale items (get_or vs i no_item)
      ≡ stock items vs + resale items v
stock-set items [] i v lt = elim lt [ ]
stock-set items (u ∷ vs) zero v lt = omega arith
stock-set items (u ∷ vs) (suc i) v lt = omega (arith, stock-set items vs i v)

Bought-worth-le :
    (s tid : ℕ) (item : ItemData) (slot : ℕ) (w w' : World)
    → find_item w.items tid ≡ some item
    → find_empty_slot (w.inventories s) ≡ some slot
    → Bought s tid item slot w w'
    → worth s w' ≤ worth s w
Bought-worth-le s tid item slot w w' found free b =
    let vs : List InvSlot = (w.inventories s).slots in
    let bound : resale w.items (bought_slot s tid w) ≤ item.price = ground arith in
    rw (b.held, b.same_items)
      (omega (
        arith,
        b.paid,
        bound,
        stock-set w.items vs slot (bought_slot s tid w) (first_empty-lt vs slot free),
      ))

-- No purchase, whatever is asked for, raises a player's worth.
pub buy-worth-le : (s : ℕ) (req : ShopBuy) (w : World) → worth s (on_shop_buy s req w) ≤ worth s w
buy-worth-le s req w = elim (buy-cases s req w) [
  | inl failed ↦ rw ((buy_refused s req w failed).1) (le_refl _)
  | inr (item, slot, found, rich, free) ↦
      Bought-worth-le s req.item_id item slot w _ found free
        (buy-Bought s req w item slot found rich free)
]

Sold-worth-le :
    (s slot : ℕ) (w w' : World)
    → (slot_at (w.inventories s) slot).item_tid ≢ 0
    → w'.items ≡ w.items
    → Sold s slot w w'
    → worth s w' ≤ worth s w
Sold-worth-le s slot w w' taken same b =
    let vs : List InvSlot = (w.inventories s).slots in
    let value : resale w.items (get_or vs slot no_item)
        ≡ sell_price (find_item w.items (tid_at vs slot)) =
      ground arith in
    rw (b.gained, b.freed, same)
      (omega (arith, value, stock-set w.items vs slot no_item (taken-lt vs slot taken)))

sell-items : (s : ℕ) (req : ShopSell) (w : World) → (on_shop_sell s req w).items ≡ w.items
unfolding on_shop_sell
sell-items s req w = ground arith

-- Nor does a sale.
pub sell-worth-le :
    (s : ℕ) (req : ShopSell) (w : World) → worth s (on_shop_sell s req w) ≤ worth s w
sell-worth-le s req w = elim (sell-cases s req w) [
  | inl refused ↦ rw refused (le_refl _)
  | inr (lt, taken) ↦
      Sold-worth-le s req.slot w _ taken (sell-items s req w) (sell-Sold s req w lt taken)
]

-- A session of shop requests, purchases and sales in any order.
pub trade : ℕ → List (ShopBuy ⊎ ShopSell) → World → World
trade s [] w = w
trade s (inl req ∷ reqs) w = trade s reqs (on_shop_buy s req w)
trade s (inr req ∷ reqs) w = trade s reqs (on_shop_sell s req w)

-- No sequence of purchases and sales, refused ones among them, raises a player's worth.
pub trade-worth-le :
    (s : ℕ) (reqs : List (ShopBuy ⊎ ShopSell)) (w : World) → worth s (trade s reqs w) ≤ worth s w
unfolding trade
trade-worth-le s [] w = le_refl _
trade-worth-le s (inl req ∷ reqs) w =
    le_trans (trade-worth-le s reqs (on_shop_buy s req w)) (buy-worth-le s req w)
trade-worth-le s (inr req ∷ reqs) w =
    le_trans (trade-worth-le s reqs (on_shop_sell s req w)) (sell-worth-le s req w)
