-- ===== src/Wire/Goods.antt =====
-- The structs SC_... of Common/Protocol.h as bytes, packed: items, shop, quests and parties.
use mmorpg_simulator.Common.{ℕ, refl, List, Text, length}
use mmorpg_simulator.Protocol.Payloads
use mmorpg_simulator.Wire.Arrays.{chars, counted}
use mmorpg_simulator.Wire.Codec.{Codec, number, int16_t, pair, as_type, as_part}

abbrev pub item_drop_layout : Codec Payloads.ItemDrop
item_drop_layout =
    as_type (pair (number 1) (pair (number 2) (chars 32)))
      (λ p. record { slot = p.0; item_id = p.1.0; item_name = p.1.1 })
      (λ r. (r.slot, (r.item_id, r.item_name))) (λ r. refl)

abbrev pub item_use_result_layout : Codec Payloads.ItemUseResult
item_use_result_layout =
    as_type (pair (number 8) (pair (chars 20) (pair (chars 32) (pair (number 1) (number 2)))))
      (λ p. record {
        char_uid = p.0;
        char_name = p.1.0;
        item_name = p.1.1.0;
        effect_type = p.1.1.1.0;
        effect_value = p.1.1.1.1;
      })
      (λ r. (r.char_uid, (r.char_name, (r.item_name, (r.effect_type, r.effect_value))))) (λ r. refl)

abbrev pub equip_result_layout : Codec Payloads.EquipResult
equip_result_layout =
    as_type
      (pair (number 1) (
        pair (number 1)
          (pair (number 2) (pair (number 2) (pair (chars 32) (pair (chars 32) (chars 32)))))))
      (λ p. record {
        success = p.0;
        slot = p.1.0;
        atk = p.1.1.0;
        def = p.1.1.1.0;
        weapon_name = p.1.1.1.1.0;
        armor_name = p.1.1.1.1.1.0;
        message = p.1.1.1.1.1.1;
      })
      (λ r. (r.success, (r.slot, (r.atk, (r.def, (r.weapon_name, (r.armor_name, r.message)))))))
      (λ r. refl)

abbrev pub inventory_update_layout : Codec Payloads.InventoryUpdate
inventory_update_layout =
    as_type (pair (number 1) (pair (number 2) (chars 32)))
      (λ p. record { slot = p.0; item_id = p.1.0; item_name = p.1.1 })
      (λ r. (r.slot, (r.item_id, r.item_name))) (λ r. refl)

abbrev pub attendance_info_layout : Codec Payloads.AttendanceInfo
attendance_info_layout =
    as_type (pair (number 1) (number 4)) (λ p. record { today_attended = p.0; reward_gold = p.1 })
      (λ r. (r.today_attended, r.reward_gold)) (λ r. refl)

abbrev pub attendance_result_layout : Codec Payloads.AttendanceResult
attendance_result_layout =
    as_type (pair (number 1) (number 4)) (λ p. record { success = p.0; reward_gold = p.1 })
      (λ r. (r.success, r.reward_gold)) (λ r. refl)

abbrev pub shop_entry_layout : Codec Payloads.ShopEntry
shop_entry_layout =
    as_type (pair (number 2) (pair (chars 32) (number 4)))
      (λ p. record { item_id = p.0; item_name = p.1.0; price = p.1.1 })
      (λ r. (r.item_id, (r.item_name, r.price))) (λ r. refl)

abbrev pub shop_result_layout : Codec Payloads.ShopResult
shop_result_layout =
    as_type (pair (number 1) (pair (number 2) (pair (number 8) (chars 32))))
      (λ p. record { success = p.0; item_id = p.1.0; remain_gold = p.1.1.0; message = p.1.1.1 })
      (λ r. (r.success, (r.item_id, (r.remain_gold, r.message)))) (λ r. refl)

abbrev pub quest_entry_layout : Codec Payloads.QuestEntry
quest_entry_layout =
    as_type (pair (number 2) (pair (chars 32) (pair (number 1) (pair (number 2) (number 2)))))
      (λ p. record {
        quest_id = p.0;
        name = p.1.0;
        status = p.1.1.0;
        progress = p.1.1.1.0;
        target = p.1.1.1.1;
      })
      (λ r. (r.quest_id, (r.name, (r.status, (r.progress, r.target))))) (λ r. refl)

abbrev pub quest_accept_result_layout : Codec Payloads.QuestAcceptResult
quest_accept_result_layout =
    as_type (pair (number 1) (pair (number 2) (chars 64)))
      (λ p. record { success = p.0; quest_id = p.1.0; message = p.1.1 })
      (λ r. (r.success, (r.quest_id, r.message))) (λ r. refl)

abbrev pub quest_progress_note_layout : Codec Payloads.QuestProgressNote
quest_progress_note_layout =
    as_type (pair (number 2) (pair (number 2) (number 2)))
      (λ p. record { quest_id = p.0; progress = p.1.0; target = p.1.1 })
      (λ r. (r.quest_id, (r.progress, r.target))) (λ r. refl)

abbrev pub quest_reward_layout : Codec Payloads.QuestReward
quest_reward_layout =
    as_type
      (pair (number 1)
        (pair (number 2) (pair (number 4) (pair (number 4) (pair (number 2) (chars 64))))))
      (λ p. record {
        success = p.0;
        quest_id = p.1.0;
        reward_gold = p.1.1.0;
        reward_exp = p.1.1.1.0;
        reward_item_id = p.1.1.1.1.0;
        message = p.1.1.1.1.1;
      })
      (λ r.
        (r.success, (r.quest_id, (r.reward_gold, (r.reward_exp, (r.reward_item_id, r.message))))))
      (λ r. refl)

abbrev pub party_member_layout : Codec Payloads.PartyMember
party_member_layout =
    as_type
      (pair (number 8) (pair (chars 20) (pair (number 2) (pair (number 2) (pair int16_t int16_t)))))
      (λ p. record {
        char_uid = p.0;
        name = p.1.0;
        hp = p.1.1.0;
        max_hp = p.1.1.1.0;
        pos_x = p.1.1.1.1.0;
        pos_y = p.1.1.1.1.1;
      })
      (λ r. (r.char_uid, (r.name, (r.hp, (r.max_hp, (r.pos_x, r.pos_y)))))) (λ r. refl)

abbrev pub inventory_list_layout : Codec (List Payloads.InventoryUpdate)
inventory_list_layout = counted inventory_update_layout 20

abbrev pub shop_list_layout : Codec (List Payloads.ShopEntry)
shop_list_layout = counted shop_entry_layout 10

abbrev pub quest_list_layout : Codec (List Payloads.QuestEntry)
quest_list_layout = counted quest_entry_layout 10

abbrev pub party_invited_layout : Codec Text
party_invited_layout = chars 20

-- The count is that of the members listed.
abbrev pub party_update_layout : Codec Payloads.PartyUpdate
party_update_layout =
    as_part (counted party_member_layout 4)
      (λ vs. record { member_count = length vs; members = vs }) (λ r. r.members)

abbrev pub party_leave_layout : Codec ℕ
party_leave_layout = number 8
