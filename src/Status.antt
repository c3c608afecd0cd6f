-- ===== src/Status.antt =====
-- SendCharInfo and the public form of a player that others get (GameServer/main.cpp).
use mmorpg_simulator.Common.{ℕ, [], take, u32}
use mmorpg_simulator.Protocol.{char_info}
use mmorpg_simulator.Protocol.Payloads.{CharInfo}
use mmorpg_simulator.World.Data.{World, Player}
use mmorpg_simulator.World.Sessions.{player, send}

-- Without the name. `exp` is cut to 32 bits.
abbrev pub own_info : Player → CharInfo
own_info p = record {
  char_uid = p.account_uid;
  name = [];
  level = p.level;
  exp = u32 p.exp;
  pos_x = p.pos_x;
  pos_y = p.pos_y;
  hp = p.hp;
  max_hp = p.max_hp;
  gold = p.gold;
}

-- With the name, without experience and gold.
abbrev pub public_info : Player → CharInfo
public_info p = record {
  char_uid = p.account_uid;
  name = take 31 p.name;
  level = p.level;
  exp = 0;
  pos_x = p.pos_x;
  pos_y = p.pos_y;
  hp = p.hp;
  max_hp = p.max_hp;
  gold = 0;
}

abbrev pub send_char_info : ℕ → World → World
send_char_info s w = send s (char_info (own_info (player w s))) w
