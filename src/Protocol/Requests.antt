-- ===== src/Protocol/Requests.antt =====
-- The payload structs that a client sends (Common/Protocol.h), as the handlers read them.
use mmorpg_simulator.Common.{ℕ, Text}
use mmorpg_simulator.Common.Int.{ℤ}

pub record Login : Type 0 where
  pub account_id : Text
  pub password : Text

pub record CharCreate : Type 0 where
  pub name : Text
  pub char_type : ℕ

pub record CharSelect : Type 0 where
  pub char_uid : ℕ

pub record Move : Type 0 where
  pub dir_x : ℤ
  pub dir_y : ℤ

pub record Attack : Type 0 where
  pub target_uid : ℕ

pub record Chat : Type 0 where
  pub channel : ℕ
  pub target_name : Text
  pub message : Text

pub record ItemUse : Type 0 where
  pub slot : ℕ

pub record ItemEquip : Type 0 where
  pub slot : ℕ

pub record ShopBuy : Type 0 where
  pub item_id : ℕ

pub record ShopSell : Type 0 where
  pub slot : ℕ

pub record QuestAccept : Type 0 where
  pub quest_id : ℕ

pub record QuestComplete : Type 0 where
  pub quest_id : ℕ

pub record PartyInvite : Type 0 where
  pub target_name : Text

pub record PartyAccept : Type 0 where
  pub accept : ℕ
