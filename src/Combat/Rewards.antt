-- ===== src/Combat/Rewards.antt =====
-- Who gets the gold of a kill.
use mmorpg_simulator.Common.{
  ℕ, zero, suc, ◌+◌, ◌/◌, ◌≡◌, refl, ap, inl, inr, false, ◌&&◌, List, [], ◌∷◌, arith, ◌==◌,
  Bool-cases, none, some, length, contains, u64, if◌then◌else◌,
}
use mmorpg_simulator.World.Data.{World, Npc, Player}
use mmorpg_simulator.World.Sessions.{player, has_session}
use mmorpg_simulator.Level.{level_loop, level_once, level_fuel, leveled}
use mmorpg_simulator.Party.{members_of, looked_up}
use mmorpg_simulator.Combat.{share_one, share_each, share_reward}

level_loop-gold :
    (fuel : ℕ) (p : Player) (rounds : List Player) → (level_loop fuel p rounds).0.gold ≡ p.gold
unfolding level_loop
level_loop-gold zero p rounds = refl
level_loop-gold (suc fuel) p rounds =
    ground (arith, level_loop-gold fuel (level_once p) (level_once p ∷ rounds))

-- Levels cost no gold.
pub leveled-gold : (p : Player) → (leveled p).gold ≡ p.gold
unfolding leveled
leveled-gold p = level_loop-gold (level_fuel p) p []

abbrev pub gold : World → ℕ → ℕ
gold w t = (player w t).gold

share_one-gold :
    (s exp g m : ℕ) (w : World) (t : ℕ)
    → gold (share_one s exp g m w) t ≡ (if m == t then u64 (gold w t + g) else gold w t)
unfolding share_one
share_one-gold s exp g m w t = ground (
  arith,
  leveled-gold (record (player w m) {
    exp = u64 ((player w m).exp + exp);
    gold = u64 ((player w m).gold + g);
  }),
)

share_one-sessions : (s exp g m : ℕ) (w : World) → (share_one s exp g m w).sessions ≡ w.sessions
unfolding share_one
share_one-sessions s exp g m w = ground arith

-- No number stands in the list twice.
abbrev pub Distinct : List ℕ → Type 0
Distinct [] = Unit {0}
Distinct (m ∷ ms) = (contains ms m ≡ false) × Distinct ms

share_each-gold :
    (s exp g : ℕ) (ms : List ℕ) (w : World) (t : ℕ)
    → Distinct ms
    → gold (share_each s exp g ms w) t
      ≡ (if contains ms t && has_session w t then u64 (gold w t + g) else gold w t)
unfolding share_each
share_each-gold s exp g [] w t d = refl
share_each-gold s exp g (m ∷ ms) w t d = elim (Bool-cases (has_session w m)) [
  | inl here ↦
      rw (here, share_each)
        (ground (
          arith,
          share_each-gold s exp g ms (share_one s exp g m w) t d.1,
          share_one-gold s exp g m w t,
          share_one-sessions s exp g m w,
          ap (λ js. contains js t) (share_one-sessions s exp g m w),
        ))
  | inr gone ↦ rw (gone, share_each) (ground (arith, share_each-gold s exp g ms w t d.1))
]

-- A kill by a player without a party pays him its gold in full, modulo 2^64, and nobody else any.
pub solo_gold :
    (s : ℕ) (n : Npc) (w : World) (t : ℕ)
    → w.player_party s ≡ none
    → gold (share_reward s n w) t ≡ (if s == t then u64 (gold w t + n.gold_reward) else gold w t)
unfolding share_reward
solo_gold s n w t alone = ground (
  arith,
  leveled-gold (record (player w s) {
    exp = u64 ((player w s).exp + n.exp_reward);
    gold = u64 ((player w s).gold + n.gold_reward);
  }),
)

-- In a party whose members are distinct, each member with a session gets the gold of a kill
-- divided by the number of members, rounded down, modulo 2^64, and nobody else gets any.
pub party_gold :
    (s pid : ℕ) (n : Npc) (w : World) (t : ℕ)
    → w.player_party s ≡ some pid
    → Distinct (members_of (w.parties pid))
    → let members = members_of (w.parties pid) in
      gold (share_reward s n w) t ≡ (
        if contains members t && has_session w t
        then u64 (gold w t + n.gold_reward / length members)
        else gold w t)
unfolding share_reward
party_gold s pid n w t e d =
    rw (e, share_reward)
      (share_each-gold s _ _ (members_of (w.parties pid))
        (record w { parties = looked_up w (some pid) }) t d)
