-- ===== src/Gear/Conservation.antt =====
-- Wearing items neither makes nor loses one.
use mmorpg_simulator.Common.{
  ℕ, zero, suc, ◌+◌, ◌<◌, ◌≡◌, ◌≢◌, refl, ◌⊎◌, inl, inr, List, [], ◌∷◌, arith, ◌==◌, ◌&&◌, length,
  set, get_or, if◌then◌else◌,
}
use mmorpg_simulator.Protocol.Requests.{ItemEquip}
use mmorpg_simulator.World.Data.{World, Inventory, InvSlot, no_item}
use mmorpg_simulator.Item.{slot_at}
use mmorpg_simulator.Item.Slots.{taken-lt}
use mmorpg_simulator.Gear.{on_item_equip, swap_weapon, swap_armor}

-- 1 for the item that is counted, by its uid and its template.
abbrev pub one : InvSlot → InvSlot → ℕ
one u v = if v.item_uid == u.item_uid && v.item_tid == u.item_tid then 1 else 0

abbrev pub count : InvSlot → List InvSlot → ℕ
count u [] = 0
count u (v ∷ vs) = one u v + count u vs

-- How often an inventory holds an item, in its slots, as the weapon and as the armor.
abbrev pub holdings : InvSlot → Inventory → ℕ
holdings u inv =
    count u inv.slots
    + one u (record { item_uid = inv.weapon_uid; item_tid = inv.weapon_tid })
    + one u (record { item_uid = inv.armor_uid; item_tid = inv.armor_tid })

count-set :
    (u : InvSlot) (vs : List InvSlot) (i : ℕ) (v : InvSlot)
    → i < length vs
    → count u (set vs i v) + one u (get_or vs i no_item) ≡ count u vs + one u v
count-set u [] i v lt = elim lt [ ]
count-set u (x ∷ vs) zero v lt = omega arith
count-set u (x ∷ vs) (suc i) v lt = omega (arith, count-set u vs i v)

holdings-swap_weapon :
    (u : InvSlot) (inv : Inventory) (i : ℕ)
    → i < length inv.slots
    → holdings u (swap_weapon inv i) ≡ holdings u inv
holdings-swap_weapon u inv i lt = omega (
  arith,
  count-set u inv.slots i (record { item_uid = inv.weapon_uid; item_tid = inv.weapon_tid }) lt,
)

holdings-swap_armor :
    (u : InvSlot) (inv : Inventory) (i : ℕ)
    → i < length inv.slots
    → holdings u (swap_armor inv i) ≡ holdings u inv
holdings-swap_armor u inv i lt = omega (
  arith,
  count-set u inv.slots i (record { item_uid = inv.armor_uid; item_tid = inv.armor_tid }) lt,
)

-- How a request to wear an item can end: in the inventory as it was, or in one of the two swaps
-- at a slot that is taken.
pub equip-cases :
    (s : ℕ) (req : ItemEquip) (w : World)
    → ((on_item_equip s req w).inventories s ≡ w.inventories s)
      ⊎ (((slot_at (w.inventories s) req.slot).item_tid ≢ 0)
          × (((on_item_equip s req w).inventories s ≡ swap_weapon (w.inventories s) req.slot)
              ⊎ ((on_item_equip s req w).inventories s ≡ swap_armor (w.inventories s) req.slot)))
unfolding on_item_equip
equip-cases s req w = ground arith

-- Whatever is asked to be worn, each item is held as often as before, in slots and worn together.
pub equip_conserves :
    (s : ℕ) (req : ItemEquip) (w : World) (u : InvSlot)
    → holdings u ((on_item_equip s req w).inventories s) ≡ holdings u (w.inventories s)
equip_conserves s req w u =
    let inv : Inventory = w.inventories s in
    elim (equip-cases s req w) [
      | inl same ↦ rw same refl
      | inr (taken, inl e) ↦
          rw e (holdings-swap_weapon u inv req.slot (taken-lt inv.slots req.slot taken))
      | inr (taken, inr e) ↦
          rw e (holdings-swap_armor u inv req.slot (taken-lt inv.slots req.slot taken))
    ]
