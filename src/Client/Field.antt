-- ===== src/Client/Field.antt =====
-- The handlers of GameClient/main.cpp for accounts, characters, movement and combat.
use mmorpg_simulator.Common.{
  ℕ, ◌+◌, ◌==◌, true, not, if◌then◌else◌, none, some, List, [], ◌++◌, map, take, codes, u64,
}
use mmorpg_simulator.Protocol.Payloads
use mmorpg_simulator.Client.State.{
  ClientState, GameState, char_select_state, in_game_state, CharEntry, OwnPlayer, OtherPlayer,
  SeenNpc,
}
use mmorpg_simulator.Client.Maps.{find_key, put_key, erase_key}
use mmorpg_simulator.Client.Words.{to_string}

unfoldable pub on_login_result : Payloads.LoginResult → ClientState → ClientState
on_login_result result c = record c { account_uid = result.account_uid }

abbrev pub listed_entry : Payloads.CharListEntry → CharEntry
listed_entry e = record {
  char_uid = e.char_uid;
  name = take 20 e.name;
  char_type = e.char_type;
  level = e.level;
}

unfoldable pub on_char_list_result : List Payloads.CharListEntry → ClientState → ClientState
on_char_list_result entries c = record c {
  char_list = map listed_entry (take 5 entries);
  game_state = char_select_state;
}

unfoldable pub on_char_create_result : Payloads.CharCreateResult → ClientState → ClientState
on_char_create_result result c = record c {
  last_msg =
      if result.success == 0
      then codes "Create failed: " ++ result.message
      else codes "Character created!";
}

-- What OnCharInfo takes over about the own player.
abbrev pub taken_over : Payloads.CharInfo → OwnPlayer → OwnPlayer
taken_over info p = record p {
  level = info.level;
  exp = info.exp;
  pos_x = info.pos_x;
  pos_y = info.pos_y;
  hp = info.hp;
  max_hp = info.max_hp;
  gold = info.gold;
}

abbrev pub other_player : Payloads.CharInfo → OtherPlayer
other_player info = record {
  uid = info.char_uid;
  name = take 31 info.name;
  pos_x = info.pos_x;
  pos_y = info.pos_y;
}

abbrev pub enters : GameState → Payloads.CharInfo → ClientState → ClientState
enters char_select_state info c = record c {
  game_state = in_game_state;
  my_player = record (taken_over info c.my_player) { uid = info.char_uid };
}
enters _ info c =
    if info.char_uid == c.my_player.uid
    then record c { my_player = taken_over info c.my_player }
    else record c { other_players = put_key info.char_uid (other_player info) c.other_players }

unfoldable pub on_char_info : Payloads.CharInfo → ClientState → ClientState
on_char_info info c = enters c.game_state info c

unfoldable pub on_move_result : Payloads.MoveResult → ClientState → ClientState
on_move_result result c = if result.success == 0 then c else record c {
  my_player = record c.my_player { pos_x = result.pos_x; pos_y = result.pos_y };
  last_msg = [];
}

abbrev pub seen_npc : Payloads.NpcSpawn → SeenNpc
seen_npc spawn = record {
  uid = spawn.npc_uid;
  pos_x = spawn.pos_x;
  pos_y = spawn.pos_y;
  hp = spawn.hp;
  max_hp = spawn.max_hp;
}

unfoldable pub on_npc_spawn : Payloads.NpcSpawn → ClientState → ClientState
on_npc_spawn spawn c = record c { npcs = put_key spawn.npc_uid (seen_npc spawn) c.npcs }

unfoldable pub on_char_leave : Payloads.CharLeave → ClientState → ClientState
on_char_leave leave c = record c {
  other_players = erase_key leave.char_uid c.other_players;
  last_msg = codes "A player left the game";
}

unfoldable pub on_npc_death : Payloads.NpcDeath → ClientState → ClientState
on_npc_death death c = record c {
  npcs = erase_key death.npc_uid c.npcs;
  last_msg =
      codes "NPC defeated! +"
      ++ to_string death.exp_reward
      ++ codes " EXP +"
      ++ to_string death.gold_reward
      ++ codes " Gold";
  my_player = record c.my_player { gold = u64 (c.my_player.gold + death.gold_reward) };
}

-- `if (npcs.count(uid)) npcs[uid].hp = hp`
abbrev pub with_hp : ℕ → ℕ → List (ℕ × SeenNpc) → List (ℕ × SeenNpc)
with_hp uid hp npcs = elim (find_key uid npcs) [
  | none ↦ npcs
  | some n ↦ put_key uid (record n { hp = hp }) npcs
]

unfoldable pub on_attack_result : Payloads.AttackResult → ClientState → ClientState
on_attack_result result c =
    if result.success == 0 then record c { last_msg = codes "No target nearby!" } else record c {
      last_msg =
          codes "Hit! Damage:"
          ++ to_string result.damage
          ++ codes " NPC HP:"
          ++ to_string result.target_hp;
      npcs = with_hp result.target_uid result.target_hp c.npcs;
    }

unfoldable pub on_exp_update : Payloads.ExpUpdate → ClientState → ClientState
on_exp_update exp c = record c {
  my_player = record c.my_player { exp = exp.exp; max_exp = exp.max_exp };
}

unfoldable pub on_level_up : Payloads.LevelUp → ClientState → ClientState
on_level_up lvup c = record c {
  my_player = record c.my_player {
    level = lvup.level;
    hp = lvup.hp;
    max_hp = lvup.max_hp;
    atk = lvup.atk;
    def = lvup.def;
  };
  last_msg = codes "*** LEVEL UP! Lv." ++ to_string lvup.level ++ codes " ***";
}

unfoldable pub on_attendance_info : Payloads.AttendanceInfo → ClientState → ClientState
on_attendance_info info c = record c {
  attendance = record {
    today_attended = not (info.today_attended == 0);
    reward_gold = info.reward_gold;
  };
}

unfoldable pub on_attendance_result : Payloads.AttendanceResult → ClientState → ClientState
on_attendance_result result c =
    if result.success == 0
    then record c { last_msg = codes "Already attended today!" }
    else record c {
      attendance = record c.attendance { today_attended = true };
      my_player = record c.my_player { gold = u64 (c.my_player.gold + result.reward_gold) };
      last_msg = codes "Attendance checked! +" ++ to_string result.reward_gold ++ codes " Gold";
    }
