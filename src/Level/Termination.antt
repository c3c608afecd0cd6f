-- ===== src/Level/Termination.antt =====
-- The loop of CheckLevelUp ends, for every player, also where a counter has wrapped.
use mmorpg_simulator.Common.{
  ℕ, zero, suc, ◌+◌, ◌*◌, ◌<◌, ◌≡◌, inl, inr, true, List, [], ◌∷◌, arith, ◌==◌, leb, if◌then◌else◌,
  Bool-cases,
}
use mmorpg_simulator.World.Data.{Player}
use mmorpg_simulator.Level.{level_once, level_loop, level_fuel, leveled}

-- A round lowers three times the experience, or, where a round costs nothing, comes nearer to one
-- that does: `max_exp` is 0 only at level 0, or before the first round.
abbrev measure : Player → ℕ
measure p = 3 * p.exp + (if p.max_exp == 0 then (if p.level == 65535 then 2 else 1) else 0)

measure-level_once :
    (p : Player) → p.level < 65536 → leb p.max_exp p.exp ≡ true → measure (level_once p) < measure p
measure-level_once p range h = ground arith

loop_ends :
    (fuel : ℕ) (p : Player) (rounds : List Player)
    → p.level < 65536
    → measure p < fuel
    → let q = (level_loop fuel p rounds).0 in q.exp < q.max_exp
unfolding level_loop
loop_ends zero p rounds range m = elim m [ ]
loop_ends (suc fuel) p rounds range m = elim (Bool-cases (leb p.max_exp p.exp)) [
  | inl again ↦
      rw (again, level_loop)
        (loop_ends fuel (level_once p) (level_once p ∷ rounds) (omega arith)
          (omega (arith, measure-level_once p range again)))
  | inr done ↦ rw (done, level_loop) (ground arith)
]

-- After CheckLevelUp, from a level of 16 bits, the experience is below what the next level costs:
-- the fuel was enough.
pub leveled_ends : (p : Player) → p.level < 65536 → (leveled p).exp < (leveled p).max_exp
unfolding leveled
leveled_ends p range = loop_ends (level_fuel p) p [] range (ground arith)
