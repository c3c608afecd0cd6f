-- ===== src/Client/State.antt =====
-- The globals of GameClient/main.cpp.
use mmorpg_simulator.Common.{ℕ, Bool, false, List, [], Text, replicate}
use mmorpg_simulator.Common.Int.{ℤ, pos}
use mmorpg_simulator.Protocol.{max_inventory, max_party, max_quest_list}
use mmorpg_simulator.Protocol.Payloads.{ShopEntry, QuestEntry, PartyMember}

pub data GameState : Type 0 where
  login_state char_select_state in_game_state : GameState

pub record CharEntry : Type 0 where
  pub char_uid : ℕ
  pub name : Text
  pub char_type : ℕ
  pub level : ℕ

pub record OwnPlayer : Type 0 where
  pub uid : ℕ
  pub pos_x : ℤ
  pub pos_y : ℤ
  pub level : ℕ
  pub hp : ℕ
  pub max_hp : ℕ
  pub atk : ℕ
  pub def : ℕ
  pub exp : ℕ
  pub max_exp : ℕ
  pub gold : ℕ

abbrev pub unknown_player : OwnPlayer
unknown_player = record {
  uid = 0;
  pos_x = pos 10;
  pos_y = pos 10;
  level = 1;
  hp = 100;
  max_hp = 100;
  atk = 15;
  def = 5;
  exp = 0;
  max_exp = 100;
  gold = 0;
}

pub record AttendanceState : Type 0 where
  pub today_attended : Bool
  pub reward_gold : ℕ

pub record OtherPlayer : Type 0 where
  pub uid : ℕ
  pub name : Text
  pub pos_x : ℤ
  pub pos_y : ℤ

pub record SeenNpc : Type 0 where
  pub uid : ℕ
  pub pos_x : ℤ
  pub pos_y : ℤ
  pub hp : ℕ
  pub max_hp : ℕ

pub record SeenSlot : Type 0 where
  pub item_id : ℕ
  pub name : Text

abbrev pub max_chat_log : ℕ
max_chat_log = 5

-- `other_players` and `npcs` are maps: the entries in the order of their keys. `shop_items`,
-- `quest_entries` and `party_members` are the arrays, with the counts of those in use.
pub record ClientState : Type 0 where
  pub game_state : GameState
  pub account_uid : ℕ
  pub char_list : List CharEntry
  pub my_player : OwnPlayer
  pub attendance : AttendanceState
  pub other_players : List (ℕ × OtherPlayer)
  pub npcs : List (ℕ × SeenNpc)
  pub last_msg : Text
  pub chat_log : List Text
  pub inventory : List SeenSlot
  pub show_inventory : Bool
  pub equipped_weapon : Text
  pub equipped_armor : Text
  pub shop_items : List ShopEntry
  pub shop_count : ℕ
  pub show_shop : Bool
  pub quest_entries : List QuestEntry
  pub quest_count : ℕ
  pub show_quest_list : Bool
  pub party_members : List PartyMember
  pub party_count : ℕ
  pub pending_invite : Bool
  pub inviter_name : Text

abbrev pub no_shop_entry : ShopEntry
no_shop_entry = record { item_id = 0; item_name = []; price = 0 }

abbrev pub no_quest_entry : QuestEntry
no_quest_entry = record { quest_id = 0; name = []; status = 0; progress = 0; target = 0 }

abbrev pub no_party_member : PartyMember
no_party_member = record {
  char_uid = 0;
  name = [];
  hp = 0;
  max_hp = 0;
  pos_x = pos 0;
  pos_y = pos 0;
}

abbrev pub started_client : ClientState
started_client = record {
  game_state = login_state;
  account_uid = 0;
  char_list = [];
  my_player = unknown_player;
  attendance = record { today_attended = false; reward_gold = 0 };
  other_players = [];
  npcs = [];
  last_msg = [];
  chat_log = [];
  inventory = replicate max_inventory (record { item_id = 0; name = [] });
  show_inventory = false;
  equipped_weapon = [];
  equipped_armor = [];
  shop_items = replicate 10 no_shop_entry;
  shop_count = 0;
  show_shop = false;
  quest_entries = replicate max_quest_list no_quest_entry;
  quest_count = 0;
  show_quest_list = false;
  party_members = replicate max_party no_party_member;
  party_count = 0;
  pending_invite = false;
  inviter_name = [];
}
