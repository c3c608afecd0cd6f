-- ===== src/Gear/Use.antt =====
-- Using an item.
use mmorpg_simulator.Common.{
  ℕ, ◌+◌, ◌≤◌, ◌<◌, ◌^◌, ◌≡◌, ◌≢◌, refl, ◌⊎◌, inl, inr, true, some, arith, text_eq, Bool-cases,
  Option-cases, leb, List, [], ◌∷◌, ◌==◌, ◌||◌, All, subst, u16,
}
use std.Option.{some-injective}
use Prim.Native.Nat.{min}
use mmorpg_simulator.Protocol.{max_inventory}
use mmorpg_simulator.Protocol.Requests.{ItemUse}
use mmorpg_simulator.World.Data.{World, ItemData, no_item, ProcCall}
use mmorpg_simulator.World.Sessions.{player}
use mmorpg_simulator.Item.{find_item, slot_at, put_slot}
use mmorpg_simulator.Gear.{on_item_use, consumable}

-- A request to use a slot that holds a consumable.
abbrev pub CanUse : ℕ → ItemUse → World → ItemData → Type 0
CanUse s req w item =
    (req.slot < max_inventory)
    × ((slot_at (w.inventories s) req.slot).item_tid ≢ 0)
    × (find_item w.items (slot_at (w.inventories s) req.slot).item_tid ≡ some item)
    × (text_eq item.kind consumable ≡ true)

-- Any other request changes nothing and sends nothing.
pub use-cases :
    (s : ℕ) (req : ItemUse) (w : World)
    → (on_item_use s req w ≡ w) ⊎ ((item : ItemData) × CanUse s req w item)
unfolding on_item_use
use-cases s req w =
    elim (Bool-cases
      (leb max_inventory req.slot || (slot_at (w.inventories s) req.slot).item_tid == 0)) [
        | inl bad ↦ inl (rw bad refl)
        | inr good ↦
            elim (Option-cases (find_item w.items (slot_at (w.inventories s) req.slot).item_tid)) [
              | inl unknown ↦ inl (rw (good, unknown, on_item_use) refl)
              | inr (item, found) ↦ elim (Bool-cases (text_eq item.kind consumable)) [
                | inl drinkable ↦ inr (item, (ground arith, ground arith, found, drinkable))
                | inr solid ↦ inl (ground arith)
              ]
            ]
      ]

-- What using an item of a slot leaves behind. His hp is the sum of his hp and the effect, or max_hp
-- where that is no more than the sum; or, where the sum does not fit 16 bits, what is left of it.
pub record IsUsed (s slot : ℕ) (item : ItemData) (w w' : World) : Type 0 where
  pub capped : (player w' s).hp ≤ (player w s).max_hp
  pub healed :
      ((player w' s).hp ≡ (player w s).hp + item.hp)
      ⊎ (((player w' s).hp ≡ (player w s).max_hp)
          × ((player w s).max_hp ≤ (player w s).hp + item.hp))
      ⊎ ((player w' s).hp + 2 ^ 16 ≡ (player w s).hp + item.hp)
  pub same_player : player w' s ≡ record (player w s) { hp = (player w' s).hp }
  pub emptied : w'.inventories s ≡ put_slot (w.inventories s) slot no_item
  pub deleted :
      w'.calls ≡ ProcCall.inventory_remove (slot_at (w.inventories s) slot).item_uid ∷ w.calls

healed-cases :
    (hp effect max_hp : ℕ)
    → hp < 2 ^ 16
    → effect < 2 ^ 16
    → (min (u16 (hp + effect)) max_hp ≤ max_hp)
      × ((min (u16 (hp + effect)) max_hp ≡ hp + effect)
          ⊎ ((min (u16 (hp + effect)) max_hp ≡ max_hp) × (max_hp ≤ hp + effect))
          ⊎ (min (u16 (hp + effect)) max_hp + 2 ^ 16 ≡ hp + effect))
healed-cases hp effect max_hp h e = ground arith

use-IsUsed :
    (s : ℕ) (req : ItemUse) (w : World) (item : ItemData)
    → CanUse s req w item
    → (player w s).hp < 2 ^ 16
    → item.hp < 2 ^ 16
    → IsUsed s req.slot item w (on_item_use s req w)
unfolding on_item_use
use-IsUsed s req w item (lt, taken, found, drinkable) h e =
    let hp : (player (on_item_use s req w) s).hp
        ≡ min (u16 ((player w s).hp + item.hp)) (player w s).max_hp =
      ground arith in
    let (capped, amount) = healed-cases (player w s).hp item.hp (player w s).max_hp h e in
    record {
      capped = rw hp capped;
      healed = rw hp amount;
      same_player = ground arith;
      emptied = ground arith;
      deleted = ground arith;
    }

find-All {κ} :
    (P : ItemData → Type κ) (items : List ItemData) (id : ℕ) (item : ItemData)
    → All P items
    → find_item items id ≡ some item
    → P item
unfolding find_item
find-All P [] id item h e = absurd (cc e)
find-All P (x ∷ items) id item h e = elim (Bool-cases (x.id == id)) [
  | inl same ↦ subst P (some-injective (ground (arith, same, e))) h.0
  | inr other ↦ find-All P items id item h.1 (ground (arith, other, e))
]

-- A request to use an item, of a player whose hp is a 16-bit number and with templates whose effects
-- are: it changes nothing, or its slot holds a consumable. Then the player's hp is the sum of his hp
-- and the effect, or max_hp where the sum is no less, or the sum less 2^16 where it does not fit, and
-- never above max_hp; nothing else of him changes, the slot is empty, and the one call of the
-- database deletes the item's row.
pub use_or_same :
    (s : ℕ) (req : ItemUse) (w : World)
    → (player w s).hp < 2 ^ 16
    → All (λ (item : ItemData). item.hp < 2 ^ 16) w.items
    → (on_item_use s req w ≡ w)
      ⊎ ((item : ItemData) × CanUse s req w item × IsUsed s req.slot item w (on_item_use s req w))
use_or_same s req w h fits = elim (use-cases s req w) [
  | inl same ↦ inl same
  | inr (item, can) ↦
      let (lt, taken, found, drinkable) = can in
      let small : item.hp < 2 ^ 16 =
        find-All (λ (i : ItemData). i.hp < 2 ^ 16) w.items _ item fits found in
      inr (item, can, use-IsUsed s req w item can h small)
]
