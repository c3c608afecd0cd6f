-- ===== src/Combat.antt =====
-- Monsters and fighting (GameServer/main.cpp: SpawnNPC, SendAllNPCs, OnAttack).
pub mod Frame
pub mod Monsters
pub mod Rewards
pub mod Parties
use mmorpg_simulator.Common.{
  ℕ, zero, suc, ◌+◌, ◌-◌, ◌/◌, ◌%◌, Bool, true, false, not, ◌&&◌, Option, none, some, List, [], ◌∷◌,
  ◌==◌, ltb, leb, if◌then◌else◌, length, set, get_or, u32, u64, contains,
}
use mmorpg_simulator.Common.Int.{ℤ, pos, ◌-ℤ◌, abs}
use mmorpg_simulator.Protocol.{Packet, attack_result, npc_spawn, npc_death, exp_update}
use mmorpg_simulator.Protocol.Requests.{Attack}
use mmorpg_simulator.World.Data.{World, Session, Player, Npc}
use mmorpg_simulator.World.Sessions.{player, set_player, send, broadcast, post, has_session}
use mmorpg_simulator.World.Database.{draw, drawn}
use mmorpg_simulator.Item.{roll_drop, rolled, give_item}
use mmorpg_simulator.Level.{check_level_up}
use mmorpg_simulator.Quest.{update_quest_progress}
use mmorpg_simulator.Party.{looked_up, members_of}
use mmorpg_simulator.Movement.{map_size}

abbrev pub spawn_note : Npc → Packet
spawn_note n =
    npc_spawn
      (record { npc_uid = n.uid; pos_x = n.pos_x; pos_y = n.pos_y; hp = n.hp; max_hp = n.max_hp })

-- The monster that takes a place anew: under the next number, at a random field, with full hp.
abbrev pub respawned : World → Npc → Npc
respawned w n = record n {
  uid = w.next_npc_uid;
  pos_x = pos (draw w % map_size);
  pos_y = pos (draw (drawn w) % map_size);
  hp = 30;
  max_hp = 30;
  alive = true;
}

unfoldable pub spawn_npc : ℕ → Npc → World → World
unfolding broadcast
spawn_npc i n w =
    let n' = respawned w n in
    broadcast (spawn_note n')
      (record (drawn (drawn w)) { npcs = set w.npcs i n'; next_npc_uid = u64 (w.next_npc_uid + 1) })

post_npcs : (ℕ → Session) → ℕ → List Npc → List (ℕ × Packet) → List (ℕ × Packet)
post_npcs heap s [] sent = sent
post_npcs heap s (n ∷ ns) sent =
    post_npcs heap s ns (if n.alive then post heap s (spawn_note n) sent else sent)

unfoldable pub send_all_npcs : ℕ → World → World
unfolding post_npcs
send_all_npcs s w = record w { sent = post_npcs w.heap s w.npcs w.sent }

-- The first monster that is alive and has the number, with its place.
unfoldable pub find_npc : List Npc → ℕ → ℕ → Option (ℕ × Npc)
find_npc [] uid i = none
find_npc (n ∷ ns) uid i = if n.alive && n.uid == uid then some (i, n) else find_npc ns uid (suc i)

unfoldable pub in_reach : Player → Npc → Bool
unfolding ◌-ℤ◌
in_reach p n = leb (abs (n.pos_x -ℤ p.pos_x)) 1 && leb (abs (n.pos_y -ℤ p.pos_y)) 1

abbrev if_in_reach : Player → Option (ℕ × Npc) → Option (ℕ × Npc)
if_in_reach p none = none
if_in_reach p (some (i, n)) = if in_reach p n then some (i, n) else none

unfoldable pub find_target : World → Player → ℕ → Option (ℕ × Npc)
unfolding find_npc
find_target w p uid = if_in_reach p (find_npc w.npcs uid 0)

abbrev pub damage : Player → Npc → ℕ
damage p n = if ltb n.def p.atk then p.atk - n.def else 1

abbrev pub hp_left : Player → Npc → ℕ
hp_left p n = if ltb (damage p n) n.hp then n.hp - damage p n else 0

-- Experience and gold for one player, and the levels that follow.
unfoldable pub reward_player : ℕ → ℕ → ℕ → World → World
reward_player s exp gold w =
    let p = player w s in
    let p' : Player = record p { exp = u64 (p.exp + exp); gold = u64 (p.gold + gold) } in
    check_level_up s
      (send s (exp_update (record { exp = u32 p'.exp; max_exp = p'.max_exp })) (set_player s p' w))

-- A member's share; the kill counts for the quests of the others here, for the killer's later.
unfoldable pub share_one : ℕ → ℕ → ℕ → ℕ → World → World
unfolding reward_player update_quest_progress
share_one s exp gold m w =
    let w1 = reward_player m exp gold w in if m == s then w1 else update_quest_progress m w1

unfoldable pub share_each : ℕ → ℕ → ℕ → List ℕ → World → World
unfolding share_one
share_each s exp gold [] w = w
share_each s exp gold (m ∷ ms) w =
    share_each s exp gold ms
      (elim (has_session w m) [ true ↦ share_one s exp gold m w | false ↦ w ])

-- The party's members get equal parts, rounded down; without a party the killer gets all.
unfoldable pub share_reward : ℕ → Npc → World → World
unfolding share_each reward_player
share_reward s n w = elim (w.player_party s) [
  | none ↦ reward_player s n.exp_reward n.gold_reward w
  | some pid ↦
      let members = members_of (w.parties pid) in
      share_each s (n.exp_reward / length members) (n.gold_reward / length members) members
        (record w { parties = looked_up w (some pid) })
]

unfoldable pub drop_item : ℕ → World → World
unfolding give_item
drop_item s w =
    let id = roll_drop w in let w1 = rolled w in if id == 0 then w1 else give_item s id w1

-- `for (...) if (!npcs[i].alive) { SpawnNPC(i); break; }`
unfoldable pub first_dead : List Npc → ℕ → Option (ℕ × Npc)
first_dead [] i = none
first_dead (n ∷ ns) i = if n.alive then first_dead ns (suc i) else some (i, n)

unfoldable pub respawn_first : World → World
unfolding first_dead spawn_npc
respawn_first w = elim (first_dead w.npcs 0) [ none ↦ w | some (i, n) ↦ spawn_npc i n w ]

-- The death of the monster at place `i`, which is `n` with its hp at 0, up to its replacement.
unfoldable pub bury_npc : ℕ → ℕ → Npc → World → World
unfolding broadcast
bury_npc s i n w =
    let w1 =
      broadcast
        (npc_death
          (record { npc_uid = n.uid; exp_reward = n.exp_reward; gold_reward = n.gold_reward }))
        w in
    let w2 = record w1 { npcs = set w1.npcs i (record n { alive = false }) } in
    let w3 = share_reward s n w2 in let w4 = update_quest_progress s w3 in drop_item s w4

unfoldable pub kill_npc : ℕ → ℕ → Npc → World → World
kill_npc s i n w = respawn_first (bury_npc s i n w)

unfoldable pub hit_npc : ℕ → ℕ → Npc → World → World
hit_npc s i n w =
    let p = player w s in
    let hp = hp_left p n in
    let n' = record n { hp = hp } in
    let w1 = record w { npcs = set w.npcs i n' } in
    let w2 =
      send s
        (attack_result
          (record { success = 1; target_uid = n.uid; damage = damage p n; target_hp = hp }))
        w1 in
    if hp == 0 then kill_npc s i n' w2 else w2

unfoldable pub on_attack : ℕ → Attack → World → World
unfolding find_target
on_attack s req w = elim (find_target w (player w s) req.target_uid) [
  | none ↦
      send s (attack_result (record { success = 0; target_uid = 0; damage = 0; target_hp = 0 })) w
  | some (i, n) ↦ hit_npc s i n w
]
