-- ===== src/Level/Gains.antt =====
-- What the rounds of CheckLevelUp add up to.
use mmorpg_simulator.Common.{
  ℕ, zero, suc, ◌+◌, ◌*◌, ◌≤◌, ◌<◌, ◌≡◌, List, [], ◌∷◌, arith, length, u16, ◌==◌, if◌then◌else◌,
}
use mmorpg_simulator.World.Data.{Player}
use mmorpg_simulator.Level.{level_once, level_loop, level_fuel, leveled, level_rounds}
use mmorpg_simulator.Level.Termination.{leveled_ends}

-- What `n` rounds cost from level `l` on: each level costs a hundred times its number.
abbrev pub cost : ℕ → ℕ → ℕ
cost l zero = 0
cost l (suc n) = l * 100 + cost (l + 1) n

-- The player after `n` rounds, as long as the level does not leave 16 bits.
pub record After (p : Player) (n : ℕ) (q : Player) : Type 0 where
  pub level : q.level ≡ p.level + n
  pub price : q.max_exp ≡ q.level * 100
  pub spent : p.exp ≡ q.exp + cost p.level n
  pub max_hp : q.max_hp ≡ (if n == 0 then p.max_hp else u16 (p.max_hp + 20 * n))
  pub atk : q.atk ≡ (if n == 0 then p.atk else u16 (p.atk + 3 * n))
  pub def : q.def ≡ (if n == 0 then p.def else u16 (p.def + 2 * n))
  pub hp : q.hp ≡ (if n == 0 then p.hp else q.max_hp)

After-zero : (p : Player) → p.max_exp ≡ p.level * 100 → After p 0 p
After-zero p price = ground arith

After-suc :
    (p : Player) (n : ℕ) (q : Player)
    → p.max_exp ≤ p.exp
    → p.max_exp ≡ p.level * 100
    → p.level + 1 < 65536
    → After (level_once p) n q
    → After p (suc n) q
After-suc p zero q h price range a = ground arith
After-suc p (suc n) q h price range a = ground arith

rounds_grow :
    (fuel : ℕ) (p : Player) (rounds : List Player)
    → length rounds ≤ length (level_loop fuel p rounds).1
unfolding level_loop
rounds_grow zero p rounds = omega arith
rounds_grow (suc fuel) p rounds =
    ground (arith, rounds_grow fuel (level_once p) (level_once p ∷ rounds))

loop-After :
    (fuel : ℕ) (p : Player) (rounds : List Player) (n : ℕ)
    → p.max_exp ≡ p.level * 100
    → length (level_loop fuel p rounds).1 ≡ n + length rounds
    → p.level + n < 65536
    → After p n (level_loop fuel p rounds).0
unfolding level_loop
loop-After zero p rounds n price len range = ground (arith, After-zero p price)
loop-After (suc fuel) p rounds zero price len range =
    ground (arith, After-zero p price, rounds_grow fuel (level_once p) (level_once p ∷ rounds))
loop-After (suc fuel) p rounds (suc n) price len range = ground (
  arith,
  loop-After fuel (level_once p) (level_once p ∷ rounds) n,
  After-suc p n (level_loop fuel (level_once p) (level_once p ∷ rounds)).0,
)

-- A player whose next level costs a hundred times his level rises by as many levels as packets are
-- sent, if these stay below 65536: the experience pays for exactly these levels and less than one
-- more remains, each level adds 20 hp, 3 attack and 2 defence modulo 2^16, and any level heals.
pub leveled-After :
    (p : Player)
    → p.max_exp ≡ p.level * 100
    → p.level + length (level_rounds p) < 65536
    → After p (length (level_rounds p)) (leveled p)
      × ((leveled p).exp < (p.level + length (level_rounds p)) * 100)
unfolding leveled level_rounds
leveled-After p price range =
    let n : ℕ = length (level_rounds p) in
    let a : After p n (leveled p) = loop-After (level_fuel p) p [] n price (omega arith) range in
    (a, omega (arith, leveled_ends p (omega arith), a.price, a.level))
