-- ===== src/Item/Drop.antt =====
-- RollDrop picks an entry of the table, each for as many values of the roll as its weight says.
use mmorpg_simulator.Common.{
  ℕ, ◌+◌, ◌≤◌, ◌<◌, ◌≡◌, refl, ap, inl, inr, Bool-cases, ltb, List, [], ◌∷◌, arith, ◌++◌,
}
use mmorpg_simulator.World.Data.{DropEntry}
use mmorpg_simulator.Item.{pick_drop}

-- The sum of the weights: `g_totalWeight` as the loader leaves it.
abbrev pub total : List DropEntry → ℕ
total [] = 0
total (e ∷ es) = e.weight + total es

-- Every roll that falls into an entry's share picks that entry: the share begins at the accumulated
-- weight plus the weights of the entries before, and is as long as the entry's weight.
pub pick_drop-share :
    (before : List DropEntry) (e : DropEntry) (after : List DropEntry) (roll acc : ℕ)
    → acc + total before ≤ roll
    → roll < acc + total before + e.weight
    → pick_drop (before ++ e ∷ after) roll acc ≡ e.item_id
unfolding pick_drop
pick_drop-share [] e after roll acc lo hi = ground arith
pick_drop-share (b ∷ before) e after roll acc lo hi =
    ground (arith, pick_drop-share before e after roll (acc + b.weight))

-- The item belongs to an entry of the table.
abbrev pub Picks : List DropEntry → ℕ → Type 0
Picks es id =
    (before : List DropEntry) × (e : DropEntry) × (after : List DropEntry) × (es
      ≡ before ++ e ∷ after)
    × (id ≡ e.item_id)

Picks-cons : (b : DropEntry) (es : List DropEntry) (id : ℕ) → Picks es id → Picks (b ∷ es) id
Picks-cons b es id (before, e, after, q, r) = (b ∷ before, e, after, ap (◌∷◌ b) q, r)

-- A roll from the accumulated weight on and below that plus the total picks an entry of the table:
-- the loop never runs off its end.
pub pick_drop-Picks :
    (es : List DropEntry) (roll acc : ℕ)
    → acc ≤ roll
    → roll < acc + total es
    → Picks es (pick_drop es roll acc)
unfolding pick_drop
pick_drop-Picks [] roll acc lo hi = absurd (omega arith)
pick_drop-Picks (e ∷ es) roll acc lo hi = elim (Bool-cases (ltb roll (acc + e.weight))) [
  | inl hit ↦ rw hit ([], e, es, refl, refl)
  | inr miss ↦
      rw miss
        (Picks-cons e es _ (pick_drop-Picks es roll (acc + e.weight) (ground arith) (omega arith)))
]
