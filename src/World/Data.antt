-- ===== src/World/Data.antt =====
-- The structs of GameServer/main.cpp and Session.h, and the record of the globals.
use mmorpg_simulator.Common.{ℕ, Bool, false, Option, List, [], Text, replicate}
use mmorpg_simulator.Common.Int.{ℤ, pos}
use mmorpg_simulator.Protocol.{Packet, max_inventory}

pub record Player : Type 0 where
  pub name : Text
  pub pos_x : ℤ
  pub pos_y : ℤ
  pub level : ℕ
  pub hp : ℕ
  pub max_hp : ℕ
  pub atk : ℕ
  pub def : ℕ
  pub exp : ℕ
  pub max_exp : ℕ
  pub gold : ℕ
  pub account_uid : ℕ
  pub char_uid : ℕ
  pub logged_in : Bool

abbrev pub new_player : Player
new_player = record {
  name = [];
  pos_x = pos 10;
  pos_y = pos 10;
  level = 1;
  hp = 100;
  max_hp = 100;
  atk = 15;
  def = 5;
  exp = 0;
  max_exp = 100;
  gold = 0;
  account_uid = 0;
  char_uid = 0;
  logged_in = false;
}

-- A Session object; its receive buffer is modelled in `Framing`.
pub record Session : Type 0 where
  pub player : Player
  pub connected : Bool

pub record Npc : Type 0 where
  pub uid : ℕ
  pub pos_x : ℤ
  pub pos_y : ℤ
  pub hp : ℕ
  pub max_hp : ℕ
  pub atk : ℕ
  pub def : ℕ
  pub exp_reward : ℕ
  pub gold_reward : ℕ
  pub alive : Bool

pub record ItemData : Type 0 where
  pub id : ℕ
  pub name : Text
  pub kind : Text
  pub atk : ℕ
  pub def : ℕ
  pub hp : ℕ
  pub price : ℕ

pub record DropEntry : Type 0 where
  pub item_id : ℕ
  pub weight : ℕ

pub record QuestData : Type 0 where
  pub id : ℕ
  pub name : Text
  pub target : ℕ
  pub reward_gold : ℕ
  pub reward_exp : ℕ
  pub reward_item_id : ℕ

pub record QuestProgress : Type 0 where
  pub status : ℕ
  pub progress : ℕ

pub record Party : Type 0 where
  pub id : ℕ
  pub members : List ℕ

pub record InvSlot : Type 0 where
  pub item_uid : ℕ
  pub item_tid : ℕ

abbrev pub no_item : InvSlot
no_item = record { item_uid = 0; item_tid = 0 }

pub record Inventory : Type 0 where
  pub slots : List InvSlot
  pub weapon_uid : ℕ
  pub armor_uid : ℕ
  pub weapon_tid : ℕ
  pub armor_tid : ℕ

abbrev pub empty_inventory : Inventory
empty_inventory = record {
  slots = replicate max_inventory no_item;
  weapon_uid = 0;
  armor_uid = 0;
  weapon_tid = 0;
  armor_tid = 0;
}

-- The calls of stored procedures, and the query for a character's name.
pub data ProcCall : Type 0 where
  account_login : ℕ → ℕ → ProcCall
  character_list : ℕ → ProcCall
  character_create : ℕ → Text → ℕ → ProcCall
  character_login : ℕ → ℕ → ProcCall
  character_name : ℕ → ProcCall
  attendance_info : ℕ → ProcCall
  attendance_check : ℕ → ProcCall
  inventory_load : ℕ → ProcCall
  inventory_add : ℕ → ℕ → ProcCall
  inventory_remove : ℕ → ProcCall
  equip_item : ℕ → ℕ → ℕ → ProcCall
  unequip_item : ℕ → ℕ → ProcCall
  quest_load : ℕ → ProcCall
  quest_save : ℕ → ℕ → ℕ → ℕ → ProcCall

-- A column of a row. A number is the 64-bit pattern that the driver delivers.
pub data Cell : Type 0 where
  num : ℕ → Cell
  text : Text → Cell

abbrev pub ResultSet : Type 0
ResultSet = List (List Cell)

-- What is not under the repository's control: the values of rand(), std::hash of a string, and the
-- database. Its answer may depend on all calls before; `none` is a failed call.
pub record Env : Type 0 where
  pub rand : ℕ → ℕ
  pub hash : Text → ℕ
  pub database : List ProcCall → ProcCall → Option (List ResultSet)

pub record World : Type 0 where
  pub env : Env
  pub heap : ℕ → Session
  pub sessions : List ℕ
  pub next_session_id : ℕ
  pub npcs : List Npc
  pub next_npc_uid : ℕ
  pub items : List ItemData
  pub drop_table : List DropEntry
  pub total_weight : ℕ
  pub quests : List QuestData
  pub quest_progress : ℕ → List (ℕ × QuestProgress)
  pub next_party_id : ℕ
  pub parties : ℕ → Option Party
  pub player_party : ℕ → Option ℕ
  pub pending_invites : ℕ → Option ℕ
  pub inventories : ℕ → Inventory
  -- Newest first.
  pub sent : List (ℕ × Packet)
  pub calls : List ProcCall
  pub rands : ℕ
