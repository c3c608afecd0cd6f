-- ===== src/Item/Slots.antt =====
-- FindItem and FindEmptySlot find what they look for.
use mmorpg_simulator.Common.{
  ℕ, zero, suc, ◌<◌, ◌≡◌, ◌≢◌, none, some, List, [], ◌∷◌, arith, refl, length, get_or,
}
use mmorpg_simulator.World.Data.{ItemData, InvSlot, no_item}
use mmorpg_simulator.Item.{find_item, first_empty}

pub find_item-id :
    (items : List ItemData) (id : ℕ) (item : ItemData)
    → find_item items id ≡ some item
    → item.id ≡ id
unfolding find_item
find_item-id [] id item h = cc
find_item-id (x ∷ items) id item h = ground (arith, find_item-id items id item)

abbrev pub tid_at : List InvSlot → ℕ → ℕ
tid_at vs i = (get_or vs i no_item).item_tid

pub first_empty-lt : (vs : List InvSlot) (i : ℕ) → first_empty vs ≡ some i → i < length vs
unfolding first_empty
first_empty-lt [] i h = cc
first_empty-lt (v ∷ vs) zero h = omega arith
first_empty-lt (v ∷ vs) (suc i) h = ground (arith, first_empty-lt vs i)

pub first_empty_free : (vs : List InvSlot) (i : ℕ) → first_empty vs ≡ some i → tid_at vs i ≡ 0
unfolding first_empty
first_empty_free [] i h = cc
first_empty_free (v ∷ vs) zero h = ground arith
first_empty_free (v ∷ vs) (suc i) h = ground (arith, first_empty_free vs i)

-- No slot before the one that is found is free.
pub first_empty_least :
    (vs : List InvSlot) (i : ℕ) → first_empty vs ≡ some i → (j : ℕ) → j < i → tid_at vs j ≢ 0
unfolding first_empty
first_empty_least [] i h j lt = cc
first_empty_least (v ∷ vs) zero h j lt = elim lt [ ]
first_empty_least (v ∷ vs) (suc i) h zero lt = ground arith
first_empty_least (v ∷ vs) (suc i) h (suc j) lt =
    first_empty_least vs i (ground arith) j (omega arith)

-- It fails only when every slot is taken.
pub first_empty-none :
    (vs : List InvSlot) → first_empty vs ≡ none → (i : ℕ) → i < length vs → tid_at vs i ≢ 0
unfolding first_empty
first_empty-none [] h i lt = elim lt [ ]
first_empty-none (v ∷ vs) h zero lt = ground arith
first_empty-none (v ∷ vs) h (suc i) lt = first_empty-none vs (ground arith) i (omega arith)

-- A slot that is taken is in range.
pub taken-lt : (vs : List InvSlot) (i : ℕ) → tid_at vs i ≢ 0 → i < length vs
taken-lt [] i h = absurd (h refl)
taken-lt (v ∷ vs) zero h = omega arith
taken-lt (v ∷ vs) (suc i) h = omega (arith, taken-lt vs i h)
