-- ===== src/Shop/Purse.antt =====
-- What a purchase and a sale do to the gold, the inventory and the database.
use mmorpg_simulator.Common.{
  ℕ, zero, suc, ap, ◌∙◌, ◌/◌, ◌^◌, ◌+◌, ◌-◌, ◌≤◌, ◌<◌, ◌≡◌, ◌≢◌, refl, ◌⊎◌, inl, inr, none, some,
  List, [], ◌∷◌, arith, length, set, Text, codes, u64, get_or-set_self, ltb, leb, ◌||◌, ◌==◌,
  ltb→lt, Bool-cases, Option-cases,
}
use mmorpg_simulator.Protocol.{shop_result, max_inventory}
use mmorpg_simulator.Protocol.Requests.{ShopBuy, ShopSell}
use mmorpg_simulator.World.Data.{World, Player, ItemData, InvSlot, ProcCall, no_item}
use mmorpg_simulator.World.Sessions.{player, send}
use mmorpg_simulator.World.Database.{new_item_uid}
use mmorpg_simulator.Item.{find_item, find_empty_slot, slot_at, put_slot}
use mmorpg_simulator.Item.Slots.{first_empty-lt}
use mmorpg_simulator.Shop.{
  on_shop_buy, on_shop_sell, try_shop_buy, try_shop_sell, refusal, sell_price, message_size,
}

-- Why a purchase fails.
abbrev pub CannotBuy : ℕ → ShopBuy → World → Type 0
CannotBuy s req w =
    (find_item w.items req.item_id ≡ none)
    ⊎ ((item : ItemData) × (find_item w.items req.item_id ≡ some item)
        × (((player w s).gold < item.price) ⊎ (find_empty_slot (w.inventories s) ≡ none)))

-- A purchase of an item that does not exist, is too dear or has no free slot sends one refusal
-- with the gold as it was, and changes nothing else.
pub buy_refused :
    (s : ℕ) (req : ShopBuy) (w : World)
    → CannotBuy s req w
    → (why : Text) × (on_shop_buy s req w ≡ send s (shop_result (refusal (player w s).gold why)) w)
unfolding on_shop_buy
buy_refused s req w (inl unknown) = (codes "Item not found", ground arith)
buy_refused s req w (inr (item, found, inl poor)) = (codes "Not enough gold", ground arith)
buy_refused s req w (inr (item, found, inr full)) =
    elim (Bool-cases (ltb (player w s).gold item.price)) [
      | inl poor ↦ (codes "Not enough gold", ground arith)
      | inr rich ↦ (codes "Inventory full", ground arith)
    ]

abbrev pub bought_slot : ℕ → ℕ → World → InvSlot
bought_slot s tid w = record { item_uid = new_item_uid (player w s).char_uid tid w; item_tid = tid }

-- What a purchase leaves behind.
pub record Bought (s : ℕ) (tid : ℕ) (item : ItemData) (slot : ℕ) (w w' : World) : Type 0 where
  pub paid : (player w' s).gold + item.price ≡ (player w s).gold
  pub same_player : player w' s ≡ record (player w s) { gold = (player w' s).gold }
  pub held : w'.inventories s ≡ put_slot (w.inventories s) slot (bought_slot s tid w)
  pub same_items : w'.items ≡ w.items
  pub stored : w'.calls ≡ ProcCall.inventory_add (player w s).char_uid tid ∷ w.calls

-- Buying an item that is sold, affordable and has a free slot takes exactly its price, puts it into
-- the first free slot with the uid of its new row, and touches neither the rest of the player nor
-- the items; the row is the one call of the database.
pub buy-Bought :
    (s : ℕ) (req : ShopBuy) (w : World) (item : ItemData) (slot : ℕ)
    → find_item w.items req.item_id ≡ some item
    → item.price ≤ (player w s).gold
    → find_empty_slot (w.inventories s) ≡ some slot
    → Bought s req.item_id item slot w (on_shop_buy s req w)
unfolding on_shop_buy new_item_uid
buy-Bought s req w item slot found rich free = ground arith

-- Every other player's data and inventory are as they were, whatever is asked for.
pub buy_others :
    (s t : ℕ) (req : ShopBuy) (w : World)
    → s ≢ t
    → (player (on_shop_buy s req w) t ≡ player w t)
      × ((on_shop_buy s req w).inventories t ≡ w.inventories t)
unfolding on_shop_buy
buy_others s t req w ne = ground arith

-- What a sale leaves behind.
pub record Sold (s : ℕ) (slot : ℕ) (w w' : World) : Type 0 where
  pub gained : player w' s ≡ record (player w s) {
    gold = u64 (
        (player w s).gold
        + sell_price (find_item w.items (slot_at (w.inventories s) slot).item_tid));
  }
  pub freed : w'.inventories s ≡ put_slot (w.inventories s) slot no_item

pub sell-Sold :
    (s : ℕ) (req : ShopSell) (w : World)
    → req.slot < max_inventory
    → (slot_at (w.inventories s) req.slot).item_tid ≢ 0
    → Sold s req.slot w (on_shop_sell s req w)
unfolding on_shop_sell
sell-Sold s req w lt taken = ground arith

pub set-set {ℓ} : {A : Type ℓ} (xs : List A) (i : ℕ) (a b : A) → set (set xs i a) i b ≡ set xs i b
set-set [] i a b = refl
set-set (x ∷ xs) zero a b = refl
set-set (x ∷ xs) (suc i) a b = ap (◌∷◌ x) (set-set xs i a b)

-- The gold and the inventory after a purchase and a sale.
sold_back :
    (s : ℕ) (tid : ℕ) (w : World) (item : ItemData) (slot : ℕ)
    → find_item w.items tid ≡ some item
    → tid ≢ 0
    → item.price ≤ (player w s).gold
    → (player w s).gold < 2 ^ 64
    → length (w.inventories s).slots ≡ max_inventory
    → find_empty_slot (w.inventories s) ≡ some slot
    → let w' =
        on_shop_sell s (record { slot = slot }) (on_shop_buy s (record { item_id = tid }) w) in
      ((player w' s).gold ≡ (player w s).gold - item.price + item.price / 5)
      × (w'.inventories s ≡ put_slot (w.inventories s) slot no_item)
sold_back s tid w item slot found known rich fits size free =
    let lt : slot < max_inventory =
      omega (arith, first_empty-lt (w.inventories s).slots slot free) in
    let w1 : World = on_shop_buy s (record { item_id = tid }) w in
    let b : Bought s tid item slot w w1 =
      buy-Bought s (record { item_id = tid }) w item slot found rich free in
    let here : slot_at (w1.inventories s) slot ≡ bought_slot s tid w =
      rw b.held (get_or-set_self (w.inventories s).slots slot _ no_item (omega arith)) in
    let sale : Sold s slot w1 (on_shop_sell s (record { slot = slot }) w1) =
      sell-Sold s (record { slot = slot }) w1 lt (rw here known) in
    let price : sell_price (find_item w1.items (slot_at (w1.inventories s) slot).item_tid)
        ≡ item.price / 5 =
      rw (here, b.same_items, found) refl in
    let gold : (player (on_shop_sell s (record { slot = slot }) w1) s).gold
        ≡ u64 ((player w1 s).gold + item.price / 5) =
      ap (λ (p : Player). p.gold) sale.gained ∙ ap (λ n. u64 ((player w1 s).gold + n)) price in
    (
      omega (arith, gold, b.paid),
      sale.freed
          ∙ ap (λ v. put_slot v slot no_item) b.held
          ∙ ap (λ vs. record (w.inventories s) { slots = vs })
              (set-set (w.inventories s).slots slot _ no_item),
    )

buy-some :
    (s : ℕ) (req : ShopBuy) (w : World) (item : ItemData) (slot : ℕ)
    → find_item w.items req.item_id ≡ some item
    → item.price ≤ (player w s).gold
    → find_empty_slot (w.inventories s) ≡ some slot
    → length item.name < message_size
    → try_shop_buy s req w ≡ some (on_shop_buy s req w)
unfolding try_shop_buy
buy-some s req w item slot found rich free short = ground arith

sell-some :
    (s : ℕ) (req : ShopSell) (w : World) (item : ItemData)
    → find_item w.items (slot_at (w.inventories s) req.slot).item_tid ≡ some item
    → length item.name < message_size
    → try_shop_sell s req w ≡ some (on_shop_sell s req w)
unfolding try_shop_sell
sell-some s req w item found short = ground arith

-- Buying an item that is sold and affordable and has a name of fewer than 32 bytes, and selling it
-- at once: both requests are handled to their end, together they cost the price less a fifth of it,
-- rounded down, and the inventory is as if the free slot had been cleared; the item's number is not
-- 0, the gold is a 64-bit number and the inventory has its twenty slots.
pub sell-buy :
    (s : ℕ) (tid : ℕ) (w : World) (item : ItemData) (slot : ℕ)
    → find_item w.items tid ≡ some item
    → length item.name < message_size
    → tid ≢ 0
    → item.price ≤ (player w s).gold
    → (player w s).gold < 2 ^ 64
    → length (w.inventories s).slots ≡ max_inventory
    → find_empty_slot (w.inventories s) ≡ some slot
    → (w1 : World) × (w2 : World) × (try_shop_buy s (record { item_id = tid }) w ≡ some w1)
      × (try_shop_sell s (record { slot = slot }) w1 ≡ some w2)
      × ((player w2 s).gold ≡ (player w s).gold - item.price + item.price / 5)
      × (w2.inventories s ≡ put_slot (w.inventories s) slot no_item)
sell-buy s tid w item slot found short known rich fits size free =
    let w1 : World = on_shop_buy s (record { item_id = tid }) w in
    let b : Bought s tid item slot w w1 =
      buy-Bought s (record { item_id = tid }) w item slot found rich free in
    let lt : slot < max_inventory =
      omega (arith, first_empty-lt (w.inventories s).slots slot free) in
    let here : slot_at (w1.inventories s) slot ≡ bought_slot s tid w =
      rw b.held (get_or-set_self (w.inventories s).slots slot _ no_item (omega arith)) in
    (
      w1,
      on_shop_sell s (record { slot = slot }) w1,
      buy-some s (record { item_id = tid }) w item slot found rich free short,
      sell-some s (record { slot = slot }) w1 item (rw (here, b.same_items, found) refl) short,
      (sold_back s tid w item slot found known rich fits size free).0,
      (sold_back s tid w item slot found known rich fits size free).1,
    )

-- Why a purchase goes through.
abbrev pub CanBuy : ℕ → ShopBuy → World → Type 0
CanBuy s req w =
    (item : ItemData) × (slot : ℕ) × (find_item w.items req.item_id ≡ some item)
    × (item.price ≤ (player w s).gold)
    × (find_empty_slot (w.inventories s) ≡ some slot)

pub buy-cases : (s : ℕ) (req : ShopBuy) (w : World) → CannotBuy s req w ⊎ CanBuy s req w
buy-cases s req w = elim (Option-cases (find_item w.items req.item_id)) [
  | inl unknown ↦ inl (inl unknown)
  | inr (item, found) ↦ elim (Option-cases (find_empty_slot (w.inventories s))) [
    | inl full ↦ inl (inr (item, found, inr full))
    | inr (slot, free) ↦ elim (Bool-cases (ltb (player w s).gold item.price)) [
      | inl poor ↦ inl (inr (item, found, inl (ltb→lt _ _ poor)))
      | inr rich ↦ inr (item, slot, found, ground arith, free)
    ]
  ]
]

pub sell-cases :
    (s : ℕ) (req : ShopSell) (w : World)
    → (on_shop_sell s req w ≡ send s (shop_result (refusal 0 (codes "Invalid slot"))) w)
      ⊎ ((req.slot < max_inventory) × ((slot_at (w.inventories s) req.slot).item_tid ≢ 0))
unfolding on_shop_sell
sell-cases s req w =
    elim (Bool-cases
      (leb max_inventory req.slot || (slot_at (w.inventories s) req.slot).item_tid == 0)) [
        | inl bad ↦ inl (rw bad refl)
        | inr good ↦ inr (ground arith)
      ]
