-- ===== src/Movement/Bounds.antt =====
-- Players stay on the map, and the 16-bit arithmetic of OnMove shows nowhere on it.
use mmorpg_simulator.Common.{
  ℕ, ◌≢◌, ◌∙◌, sym, subst, ◌≡◌, ◌↔◌, true, arith, ◌&&◌, if◌then◌else◌, ◌==◌, ==_refl, ==_ne,
}
use mmorpg_simulator.Common.Int.{ℤ, pos, negsuc, ◌≤ℤ◌, ◌+ℤ◌, int16_small, +ℤ_parts, int16}
use mmorpg_simulator.Protocol.Requests.{Move}
use mmorpg_simulator.World.Data.{World, Player}
use mmorpg_simulator.World.Sessions.{player}
use native.Mathlib.Decide.{ℕ_discrete}
use mmorpg_simulator.Movement.{on_move, moved, on_map, is_near_quest_npc}

-- A player on one of the 20 by 20 fields.
pub record IsOnMap (p : Player) : Type 0 where
  pub left : pos 0 ≤ℤ p.pos_x
  pub right : p.pos_x ≤ℤ pos 19
  pub top : pos 0 ≤ℤ p.pos_y
  pub bottom : p.pos_y ≤ℤ pos 19

moved-IsOnMap : (p : Player) (req : Move) → IsOnMap p → IsOnMap (moved p req)
unfolding moved
moved-IsOnMap p req h = ground arith

-- The values of an int8_t.
abbrev pub IsInt8 : ℤ → Type 0
IsInt8 d = (negsuc 127 ≤ℤ d) × (d ≤ℤ pos 127)

-- The step in exact integers.
abbrev pub stepped : Player → Move → Player
stepped p req =
    let new_x = p.pos_x +ℤ req.dir_x in
    let new_y = p.pos_y +ℤ req.dir_y in
    if on_map new_x && on_map new_y then record p { pos_x = new_x; pos_y = new_y } else p

sum_small : (c d : ℤ) → pos 0 ≤ℤ c → c ≤ℤ pos 19 → IsInt8 d → int16 (c +ℤ d) ≡ c +ℤ d
sum_small c d lo hi (dlo, dhi) =
    int16_small (c +ℤ d) (omega (arith, +ℤ_parts c d)) (omega (arith, +ℤ_parts c d))

moved-stepped :
    (p : Player) (req : Move)
    → IsOnMap p
    → IsInt8 req.dir_x
    → IsInt8 req.dir_y
    → moved p req ≡ stepped p req
unfolding moved
moved-stepped p req h dx dy =
    rw
      (sum_small p.pos_x req.dir_x h.left h.right dx, sum_small p.pos_y req.dir_y h.top h.bottom dy)

mover : (s : ℕ) (req : Move) (w : World) → player (on_move s req w) s ≡ moved (player w s) req
unfolding on_move
mover s req w = ground arith

others_stay :
    (s : ℕ) (req : Move) (w : World) (t : ℕ) → s ≢ t → player (on_move s req w) t ≡ player w t
unfolding on_move
others_stay s req w t other = ground arith

-- No request of anybody, whatever direction it names, takes a player off the map.
pub move-IsOnMap :
    (s : ℕ) (req : Move) (w : World) (t : ℕ)
    → IsOnMap (player w t)
    → IsOnMap (player (on_move s req w) t)
move-IsOnMap s req w t h = elim (ℕ_discrete s t) [
  | yes same ↦
      subst (λ k. IsOnMap (player (on_move s req w) k)) same
        (rw (mover s req w)
          (moved-IsOnMap (player w s) req (subst (λ k. IsOnMap (player w k)) (sym same) h)))
  | no other ↦ rw (others_stay s req w t other) h
]

-- A player on the map who asks to move, by a direction of signed bytes, is moved to the field he
-- names, if that is on the map, and else stays, in exact integers; nobody else moves.
pub move-stepped :
    (s : ℕ) (req : Move) (w : World) (t : ℕ)
    → IsOnMap (player w s)
    → IsInt8 req.dir_x
    → IsInt8 req.dir_y
    → player (on_move s req w) t ≡ (if s == t then stepped (player w s) req else player w t)
move-stepped s req w t h dx dy = elim (ℕ_discrete s t) [
  | yes same ↦ rw (← same, ==_refl s) (mover s req w ∙ moved-stepped (player w s) req h dx dy)
  | no other ↦ rw (==_ne s t other) (others_stay s req w t other)
]

-- The quest giver serves exactly the nine fields from (1, 1) to (3, 3).
pub near_quest_npc_iff :
    (p : Player)
    → (is_near_quest_npc p ≡ true)
      ↔ ((pos 1 ≤ℤ p.pos_x) × (p.pos_x ≤ℤ pos 3) × (pos 1 ≤ℤ p.pos_y) × (p.pos_y ≤ℤ pos 3))
unfolding is_near_quest_npc
near_quest_npc_iff p = ground arith
