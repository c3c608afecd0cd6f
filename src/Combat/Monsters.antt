-- ===== src/Combat/Monsters.antt =====
-- The five monsters: after every attack all are alive, on the map, with hp left and with a number
-- that was given out before.
use mmorpg_simulator.Common.{
  ℕ, zero, suc, ◌+◌, ◌≤◌, ◌<◌, ◌^◌, ◌≡◌, refl, ap, ◌∙◌, inl, inr, true, false, List, [], ◌∷◌, arith,
  ◌==◌, Bool-cases, Option-cases, some, length, set, All,
}
use mmorpg_simulator.Common.Int.{pos, ◌≤ℤ◌}
use mmorpg_simulator.Protocol.Requests.{Attack}
use mmorpg_simulator.World.Data.{World, Npc}
use mmorpg_simulator.World.Sessions.{player, broadcast}
use mmorpg_simulator.Protocol.{npc_death}
use mmorpg_simulator.Quest.{update_quest_progress}
use mmorpg_simulator.Combat.{
  on_attack, hit_npc, kill_npc, find_npc, find_target, first_dead, respawn_first, spawn_npc,
  bury_npc, share_reward, hp_left, in_reach,
}
use mmorpg_simulator.Combat.Frame.{SameNpcs, share_reward-SameNpcs, drop_item-SameNpcs}

-- A monster that is alive, with `next` the next number.
pub record IsLive (next : ℕ) (n : Npc) : Type 0 where
  pub alive : n.alive ≡ true
  pub hurt : 0 < n.hp
  pub whole : n.hp ≤ n.max_hp
  pub numbered : n.uid < next
  pub left : pos 0 ≤ℤ n.pos_x
  pub right : n.pos_x ≤ℤ pos 19
  pub top : pos 0 ≤ℤ n.pos_y
  pub bottom : n.pos_y ≤ℤ pos 19

abbrev pub AreLive : World → Type 0
AreLive w = All (IsLive w.next_npc_uid) w.npcs

IsLive-mono : {m next : ℕ} (n : Npc) → m ≤ next → IsLive m n → IsLive next n
IsLive-mono n h l = ground arith

AreLive-mono : {m next : ℕ} (ns : List Npc) → m ≤ next → All (IsLive m) ns → All (IsLive next) ns
AreLive-mono [] h l = tt
AreLive-mono (n ∷ ns) h l = (IsLive-mono n h l.0, AreLive-mono ns h l.1)

AreLive-set :
    (next : ℕ) (ns : List Npc) (i : ℕ) (n : Npc)
    → All (IsLive next) ns
    → IsLive next n
    → All (IsLive next) (set ns i n)
AreLive-set next [] i n h l = tt
AreLive-set next (x ∷ ns) zero n h l = (l, h.1)
AreLive-set next (x ∷ ns) (suc i) n h l = (h.0, AreLive-set next ns i n h.1 l)

find_npc-lt :
    (ns : List Npc) (uid k j : ℕ) (n : Npc) → find_npc ns uid k ≡ some (j, n) → j < k + length ns
unfolding find_npc
find_npc-lt [] uid k j n e = cc
find_npc-lt (x ∷ ns) uid k j n e = ground (arith, find_npc-lt ns uid (suc k) j n)

find_npc-IsLive :
    (next : ℕ) (ns : List Npc) (uid k j : ℕ) (n : Npc)
    → All (IsLive next) ns
    → find_npc ns uid k ≡ some (j, n)
    → IsLive next n
unfolding find_npc
find_npc-IsLive next [] uid k j n h e = cc
find_npc-IsLive next (x ∷ ns) uid k j n h e =
    ground (arith, h.0, find_npc-IsLive next ns uid (suc k) j n h.1)

-- Among live monsters with one dead at place `i`, that one is found.
first_dead-set :
    (next : ℕ) (ns : List Npc) (i k : ℕ) (n : Npc)
    → All (IsLive next) ns
    → i < length ns
    → n.alive ≡ false
    → first_dead (set ns i n) k ≡ some (i + k, n)
unfolding first_dead
first_dead-set next [] i k n h lt dead = elim lt [ ]
first_dead-set next (x ∷ ns) zero k n h lt dead = ground arith
first_dead-set next (x ∷ ns) (suc i) k n h lt dead =
    ground (arith, first_dead-set next ns i (suc k) n h.1 (omega arith) dead)

set-set : (ns : List Npc) (i : ℕ) (a b : Npc) → set (set ns i a) i b ≡ set ns i b
set-set [] i a b = refl
set-set (x ∷ ns) zero a b = refl
set-set (x ∷ ns) (suc i) a b = ap (◌∷◌ x) (set-set ns i a b)

-- The world after a kill has fresh monsters in the places of the dead.
spawn_npc-AreLive :
    (i : ℕ) (n m : Npc) (w v : World)
    → AreLive w
    → SameNpcs (record w { npcs = set w.npcs i m }) v
    → w.next_npc_uid + 1 < 2 ^ 64
    → AreLive (spawn_npc i n v)
unfolding spawn_npc
spawn_npc-AreLive i n m w v h (same, next) small =
    rw (same, next, set-set w.npcs i m _)
      (AreLive-set _ w.npcs i _ (AreLive-mono w.npcs (omega arith) h) (ground arith))

respawn_first-AreLive :
    (i : ℕ) (m : Npc) (w v : World)
    → AreLive w
    → i < length w.npcs
    → m.alive ≡ false
    → SameNpcs (record w { npcs = set w.npcs i m }) v
    → w.next_npc_uid + 1 < 2 ^ 64
    → AreLive (respawn_first v)
unfolding respawn_first
respawn_first-AreLive i m w v h lt dead same small =
    let found : first_dead v.npcs 0 ≡ some (i, m) = rw same.0 (
      first_dead-set w.next_npc_uid w.npcs i 0 m h lt dead ∙ ap (λ k. some (k, m)) (omega arith)) in
    rw (found, respawn_first) (spawn_npc-AreLive i m m w v h same small)

bury_npc-SameNpcs :
    (s i : ℕ) (n : Npc) (w : World)
    → SameNpcs (record w { npcs = set w.npcs i (record n { alive = false }) }) (bury_npc s i n w)
unfolding bury_npc update_quest_progress
bury_npc-SameNpcs s i n w =
    let w1 =
      broadcast
        (npc_death
          (record { npc_uid = n.uid; exp_reward = n.exp_reward; gold_reward = n.gold_reward }))
        w in
    let w2 = record w1 { npcs = set w.npcs i (record n { alive = false }) } in
    let w3 = share_reward s n w2 in
    let w4 = update_quest_progress s w3 in
    let (p, p') = share_reward-SameNpcs s n w2 in
    let (q, q') = drop_item-SameNpcs s w4 in (q ∙ p, q' ∙ p')

kill_npc-AreLive :
    (s i : ℕ) (n : Npc) (w v : World)
    → AreLive w
    → i < length w.npcs
    → SameNpcs (record w { npcs = set w.npcs i n }) v
    → w.next_npc_uid + 1 < 2 ^ 64
    → AreLive (kill_npc s i n v)
unfolding kill_npc
kill_npc-AreLive s i n w v h lt same small =
    let dead = record n { alive = false } in
    let (p, p') = bury_npc-SameNpcs s i n v in
    respawn_first-AreLive i dead w (bury_npc s i n v) h lt refl
      (p ∙ ap (λ ns. set ns i dead) same.0 ∙ set-set w.npcs i n dead, p' ∙ same.1) small

hit_npc-AreLive :
    (s i : ℕ) (n : Npc) (w : World)
    → AreLive w
    → i < length w.npcs
    → IsLive w.next_npc_uid n
    → w.next_npc_uid + 1 < 2 ^ 64
    → AreLive (hit_npc s i n w)
unfolding hit_npc
hit_npc-AreLive s i n w h lt l small = elim (Bool-cases (hp_left (player w s) n == 0)) [
  | inl dies ↦
      rw dies (
        kill_npc-AreLive s i (record n { hp = hp_left (player w s) n }) w _ h lt (refl, refl) small)
  | inr lives ↦ rw lives (
      AreLive-set w.next_npc_uid w.npcs i (record n { hp = hp_left (player w s) n }) h
        (ground (arith, l.alive, l.hurt, l.whole)))
]

-- An attack, whatever it names and whether it kills, leaves all monsters alive, on the map, with hp
-- left and with a number that was given out, as long as the counter does not wrap.
pub attack-AreLive :
    (s : ℕ) (req : Attack) (w : World)
    → AreLive w
    → w.next_npc_uid + 1 < 2 ^ 64
    → AreLive (on_attack s req w)
unfolding on_attack find_target
attack-AreLive s req w h small = elim (Option-cases (find_npc w.npcs req.target_uid 0)) [
  | inl nobody ↦ rw (nobody, on_attack) h
  | inr ((i, n), e) ↦ elim (Bool-cases (in_reach (player w s) n)) [
    | inr far ↦ rw (e, far, on_attack) h
    | inl near ↦
        rw (e, near, on_attack)
          (hit_npc-AreLive s i n w h (omega (arith, find_npc-lt w.npcs req.target_uid 0 i n e))
            (find_npc-IsLive w.next_npc_uid w.npcs req.target_uid 0 i n h e) small)
  ]
]
