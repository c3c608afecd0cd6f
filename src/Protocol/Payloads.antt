-- ===== src/Protocol/Payloads.antt =====
-- The payload structs that the server sends (Common/Protocol.h). A char array is the text in it;
-- the arrays of a list packet are the entries in use.
use mmorpg_simulator.Common.{ℕ, Text, List}
use mmorpg_simulator.Common.Int.{ℤ}

pub record LoginResult : Type 0 where
  pub success : ℕ
  pub account_uid : ℕ
  pub message : Text

pub record CharListEntry : Type 0 where
  pub char_uid : ℕ
  pub name : Text
  pub char_type : ℕ
  pub level : ℕ

pub record CharCreateResult : Type 0 where
  pub success : ℕ
  pub char_uid : ℕ
  pub message : Text

pub record CharInfo : Type 0 where
  pub char_uid : ℕ
  pub name : Text
  pub level : ℕ
  pub exp : ℕ
  pub pos_x : ℤ
  pub pos_y : ℤ
  pub hp : ℕ
  pub max_hp : ℕ
  pub gold : ℕ

pub record CharLeave : Type 0 where
  pub char_uid : ℕ

pub record MoveResult : Type 0 where
  pub success : ℕ
  pub pos_x : ℤ
  pub pos_y : ℤ

pub record AttackResult : Type 0 where
  pub success : ℕ
  pub target_uid : ℕ
  pub damage : ℕ
  pub target_hp : ℕ

pub record ErrorMessage : Type 0 where
  pub error_code : ℕ
  pub message : Text

pub record NpcSpawn : Type 0 where
  pub npc_uid : ℕ
  pub pos_x : ℤ
  pub pos_y : ℤ
  pub hp : ℕ
  pub max_hp : ℕ

pub record NpcDeath : Type 0 where
  pub npc_uid : ℕ
  pub exp_reward : ℕ
  pub gold_reward : ℕ

pub record ExpUpdate : Type 0 where
  pub exp : ℕ
  pub max_exp : ℕ

pub record LevelUp : Type 0 where
  pub level : ℕ
  pub hp : ℕ
  pub max_hp : ℕ
  pub atk : ℕ
  pub def : ℕ

pub record ChatLine : Type 0 where
  pub channel : ℕ
  pub sender_name : Text
  pub message : Text

pub record ItemDrop : Type 0 where
  pub slot : ℕ
  pub item_id : ℕ
  pub item_name : Text

pub record ItemUseResult : Type 0 where
  pub char_uid : ℕ
  pub char_name : Text
  pub item_name : Text
  pub effect_type : ℕ
  pub effect_value : ℕ

pub record EquipResult : Type 0 where
  pub success : ℕ
  pub slot : ℕ
  pub atk : ℕ
  pub def : ℕ
  pub weapon_name : Text
  pub armor_name : Text
  pub message : Text

pub record InventoryUpdate : Type 0 where
  pub slot : ℕ
  pub item_id : ℕ
  pub item_name : Text

pub record AttendanceInfo : Type 0 where
  pub today_attended : ℕ
  pub reward_gold : ℕ

pub record AttendanceResult : Type 0 where
  pub success : ℕ
  pub reward_gold : ℕ

pub record ShopEntry : Type 0 where
  pub item_id : ℕ
  pub item_name : Text
  pub price : ℕ

pub record ShopResult : Type 0 where
  pub success : ℕ
  pub item_id : ℕ
  pub remain_gold : ℕ
  pub message : Text

pub record QuestEntry : Type 0 where
  pub quest_id : ℕ
  pub name : Text
  pub status : ℕ
  pub progress : ℕ
  pub target : ℕ

pub record QuestAcceptResult : Type 0 where
  pub success : ℕ
  pub quest_id : ℕ
  pub message : Text

pub record QuestProgressNote : Type 0 where
  pub quest_id : ℕ
  pub progress : ℕ
  pub target : ℕ

pub record QuestReward : Type 0 where
  pub success : ℕ
  pub quest_id : ℕ
  pub reward_gold : ℕ
  pub reward_exp : ℕ
  pub reward_item_id : ℕ
  pub message : Text

pub record PartyMember : Type 0 where
  pub char_uid : ℕ
  pub name : Text
  pub hp : ℕ
  pub max_hp : ℕ
  pub pos_x : ℤ
  pub pos_y : ℤ

pub record PartyUpdate : Type 0 where
  pub member_count : ℕ
  pub members : List PartyMember
