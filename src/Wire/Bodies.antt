-- ===== src/Wire/Bodies.antt =====
-- The structs SC_... of Common/Protocol.h as bytes, packed: accounts, characters, combat and chat.
use mmorpg_simulator.Common.{refl, List}
use mmorpg_simulator.Protocol.Payloads
use mmorpg_simulator.Wire.Arrays.{chars, counted}
use mmorpg_simulator.Wire.Codec.{Codec, number, int16_t, pair, as_type}

abbrev pub login_result_layout : Codec Payloads.LoginResult
login_result_layout =
    as_type (pair (number 1) (pair (number 8) (chars 64)))
      (λ p. record { success = p.0; account_uid = p.1.0; message = p.1.1 })
      (λ r. (r.success, (r.account_uid, r.message))) (λ r. refl)

abbrev pub char_list_entry_layout : Codec Payloads.CharListEntry
char_list_entry_layout =
    as_type (pair (number 8) (pair (chars 20) (pair (number 1) (number 2))))
      (λ p. record { char_uid = p.0; name = p.1.0; char_type = p.1.1.0; level = p.1.1.1 })
      (λ r. (r.char_uid, (r.name, (r.char_type, r.level)))) (λ r. refl)

abbrev pub char_create_result_layout : Codec Payloads.CharCreateResult
char_create_result_layout =
    as_type (pair (number 1) (pair (number 8) (chars 32)))
      (λ p. record { success = p.0; char_uid = p.1.0; message = p.1.1 })
      (λ r. (r.success, (r.char_uid, r.message))) (λ r. refl)

abbrev pub char_info_layout : Codec Payloads.CharInfo
char_info_layout =
    as_type
      (pair (number 8) (
        pair (chars 32) (
          pair (number 2) (
            pair (number 4)
              (pair int16_t (pair int16_t (pair (number 2) (pair (number 2) (number 8)))))))))
      (λ p. record {
        char_uid = p.0;
        name = p.1.0;
        level = p.1.1.0;
        exp = p.1.1.1.0;
        pos_x = p.1.1.1.1.0;
        pos_y = p.1.1.1.1.1.0;
        hp = p.1.1.1.1.1.1.0;
        max_hp = p.1.1.1.1.1.1.1.0;
        gold = p.1.1.1.1.1.1.1.1;
      })
      (λ r. (
        r.char_uid,
        (r.name, (r.level, (r.exp, (r.pos_x, (r.pos_y, (r.hp, (r.max_hp, r.gold))))))),
      ))
      (λ r. refl)

abbrev pub char_leave_layout : Codec Payloads.CharLeave
char_leave_layout = as_type (number 8) (λ p. record { char_uid = p }) (λ r. r.char_uid) (λ r. refl)

abbrev pub move_result_layout : Codec Payloads.MoveResult
move_result_layout =
    as_type (pair (number 1) (pair int16_t int16_t))
      (λ p. record { success = p.0; pos_x = p.1.0; pos_y = p.1.1 })
      (λ r. (r.success, (r.pos_x, r.pos_y))) (λ r. refl)

abbrev pub attack_result_layout : Codec Payloads.AttackResult
attack_result_layout =
    as_type (pair (number 1) (pair (number 8) (pair (number 2) (number 2))))
      (λ p. record { success = p.0; target_uid = p.1.0; damage = p.1.1.0; target_hp = p.1.1.1 })
      (λ r. (r.success, (r.target_uid, (r.damage, r.target_hp)))) (λ r. refl)

abbrev pub error_message_layout : Codec Payloads.ErrorMessage
error_message_layout =
    as_type (pair (number 2) (chars 64)) (λ p. record { error_code = p.0; message = p.1 })
      (λ r. (r.error_code, r.message)) (λ r. refl)

abbrev pub npc_spawn_layout : Codec Payloads.NpcSpawn
npc_spawn_layout =
    as_type (pair (number 8) (pair int16_t (pair int16_t (pair (number 2) (number 2)))))
      (λ p. record {
        npc_uid = p.0;
        pos_x = p.1.0;
        pos_y = p.1.1.0;
        hp = p.1.1.1.0;
        max_hp = p.1.1.1.1;
      })
      (λ r. (r.npc_uid, (r.pos_x, (r.pos_y, (r.hp, r.max_hp))))) (λ r. refl)

abbrev pub npc_death_layout : Codec Payloads.NpcDeath
npc_death_layout =
    as_type (pair (number 8) (pair (number 4) (number 4)))
      (λ p. record { npc_uid = p.0; exp_reward = p.1.0; gold_reward = p.1.1 })
      (λ r. (r.npc_uid, (r.exp_reward, r.gold_reward))) (λ r. refl)

abbrev pub exp_update_layout : Codec Payloads.ExpUpdate
exp_update_layout =
    as_type (pair (number 4) (number 4)) (λ p. record { exp = p.0; max_exp = p.1 })
      (λ r. (r.exp, r.max_exp)) (λ r. refl)

abbrev pub level_up_layout : Codec Payloads.LevelUp
level_up_layout =
    as_type (pair (number 2) (pair (number 2) (pair (number 2) (pair (number 2) (number 2)))))
      (λ p. record { level = p.0; hp = p.1.0; max_hp = p.1.1.0; atk = p.1.1.1.0; def = p.1.1.1.1 })
      (λ r. (r.level, (r.hp, (r.max_hp, (r.atk, r.def))))) (λ r. refl)

abbrev pub chat_line_layout : Codec Payloads.ChatLine
chat_line_layout =
    as_type (pair (number 1) (pair (chars 20) (chars 128)))
      (λ p. record { channel = p.0; sender_name = p.1.0; message = p.1.1 })
      (λ r. (r.channel, (r.sender_name, r.message))) (λ r. refl)

abbrev pub char_list_layout : Codec (List Payloads.CharListEntry)
char_list_layout = counted char_list_entry_layout 5
