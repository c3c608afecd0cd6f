-- ===== src/Level.antt =====
-- Experience and levels (GameServer/main.cpp: CheckLevelUp).
pub mod Termination
pub mod Gains
use mmorpg_simulator.Common.{
  ℕ, zero, suc, ◌+◌, ◌-◌, ◌*◌, Bool, true, false, List, [], ◌∷◌, ◌++◌, leb, u16, map, if◌then◌else◌,
}
use mmorpg_simulator.Protocol.{Packet, level_up, exp_update}
use mmorpg_simulator.World.Data.{World, Player, Session}
use mmorpg_simulator.World.Sessions.{player, set_player, send}

-- One round of the loop. `level` and the stats are uint16_t.
abbrev pub level_once : Player → Player
level_once p =
    let level = u16 (p.level + 1) in
    let max_hp = u16 (p.max_hp + 20) in
    record p {
      exp = p.exp - p.max_exp;
      level = level;
      max_hp = max_hp;
      hp = max_hp;
      atk = u16 (p.atk + 3);
      def = u16 (p.def + 2);
      max_exp = level * 100;
    }

abbrev pub level_note : Player → Packet
level_note p =
    level_up (record { level = p.level; hp = p.hp; max_hp = p.max_hp; atk = p.atk; def = p.def })

-- `while (player.exp >= player.maxExp)`, with the players after each round, newest first.
unfoldable pub level_loop : ℕ → Player → List Player → Player × List Player
level_loop zero p rounds = (p, rounds)
level_loop (suc fuel) p rounds = elim (leb p.max_exp p.exp) [
  | true ↦ level_loop fuel (level_once p) (level_once p ∷ rounds)
  | false ↦ (p, rounds)
]

-- Enough rounds for every player: see `Termination`.
abbrev pub level_fuel : Player → ℕ
level_fuel p = 3 * p.exp + 3

unfoldable pub leveled : Player → Player
unfolding level_loop
leveled p = (level_loop (level_fuel p) p []).0

unfoldable pub level_rounds : Player → List Player
unfolding level_loop
level_rounds p = (level_loop (level_fuel p) p []).1

abbrev pub post_all : Session → ℕ → List Packet → List (ℕ × Packet) → List (ℕ × Packet)
post_all o s ks sent = if o.connected then map (λ k. (s, k)) ks ++ sent else sent

-- CheckLevelUp: the packet of each round goes out while the session is connected.
abbrev pub check_level_up : ℕ → World → World
check_level_up s w =
    let p = player w s in
    record (set_player s (leveled p) w) {
      sent = post_all (w.heap s) s (map level_note (level_rounds p)) w.sent;
    }
