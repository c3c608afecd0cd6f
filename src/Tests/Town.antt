-- ===== src/Tests/Town.antt =====
-- A town with two players, five monsters and the templates of data/items.json and data/quests.json.
use mmorpg_simulator.Common.{ℕ, true, none, some, List, [], ◌∷◌, codes, Text, update}
use mmorpg_simulator.Common.Int.{pos}
use mmorpg_simulator.World.Data.{
  World, Env, Player, new_player, Session, Npc, ItemData, DropEntry, QuestData, empty_inventory,
  num,
}

-- rand() counts up, and each new row gets the number 77.
abbrev pub counting_env : Env
counting_env = record {
  rand = λ k. k;
  hash = λ t. 7;
  database = λ calls c. some (((num 77 ∷ []) ∷ []) ∷ []);
}

abbrev pub ann : Player
ann = record new_player {
  name = codes "ann";
  pos_x = pos 3;
  pos_y = pos 2;
  gold = 500;
  char_uid = 11;
  account_uid = 101;
  logged_in = true;
}

abbrev pub bob : Player
bob = record new_player { name = codes "bob"; char_uid = 12; account_uid = 102; logged_in = true }

abbrev pub online : Player → Session
online p = record { player = p; connected = true }

abbrev pub goblin : ℕ → ℕ → Npc
goblin uid hp = record {
  uid = uid;
  pos_x = pos 4;
  pos_y = pos 2;
  hp = hp;
  max_hp = 30;
  atk = 5;
  def = 2;
  exp_reward = 30;
  gold_reward = 10;
  alive = true;
}

abbrev template : ℕ → Text → Text → ℕ → ℕ → ℕ → ℕ → ItemData
template id name kind atk def hp price = record {
  id = id;
  name = name;
  kind = kind;
  atk = atk;
  def = def;
  hp = hp;
  price = price;
}

abbrev pub item_list : List ItemData
item_list =
    template 1 (codes "Rusty Sword") (codes "weapon") 5 0 0 50
    ∷ template 2 (codes "Steel Sword") (codes "weapon") 12 0 0 200
    ∷ template 3 (codes "Leather Armor") (codes "armor") 0 5 0 80
    ∷ template 4 (codes "Iron Armor") (codes "armor") 0 10 0 300
    ∷ template 5 (codes "HP Potion") (codes "consumable") 0 0 50 30
    ∷ []

abbrev pub drops : List DropEntry
drops =
    record { item_id = 1; weight = 20 }
    ∷ record { item_id = 3; weight = 20 }
    ∷ record { item_id = 5; weight = 40 }
    ∷ []

abbrev pub goblin_slayer : QuestData
goblin_slayer = record {
  id = 1;
  name = codes "Goblin Slayer";
  target = 3;
  reward_gold = 100;
  reward_exp = 50;
  reward_item_id = 0;
}

abbrev pub town : World
town = record {
  env = counting_env;
  heap = update (update (λ _. online new_player) 1 (online ann)) 2 (online bob);
  sessions = 1 ∷ 2 ∷ [];
  next_session_id = 3;
  npcs = goblin 1 10 ∷ goblin 2 30 ∷ goblin 3 30 ∷ goblin 4 30 ∷ goblin 5 30 ∷ [];
  next_npc_uid = 6;
  items = item_list;
  drop_table = drops;
  total_weight = 80;
  quests = goblin_slayer ∷ [];
  quest_progress = λ _. [];
  next_party_id = 1;
  parties = λ _. none;
  player_party = λ _. none;
  pending_invites = λ _. none;
  inventories = λ _. empty_inventory;
  sent = [];
  calls = [];
  rands = 0;
}
