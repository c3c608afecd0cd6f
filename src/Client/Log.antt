-- ===== src/Client/Log.antt =====
-- The chat log that the client keeps.
use mmorpg_simulator.Common.{
  ℕ, suc, ◌-◌, ◌≤◌, ◌≡◌, refl, sym, ap, ◌∙◌, inl, inr, List, [], ◌∷◌, ◌++◌, Text, arith, length,
  length-append, drop, ltb, if◌then◌else◌, Bool-cases,
}
use mathlib.Core.List.{append_assoc, append-nil}
use mmorpg_simulator.Protocol.{Packet, chat}
use mmorpg_simulator.Client.State.{ClientState, max_chat_log}
use mmorpg_simulator.Client.Field.{
  on_login_result, on_char_list_result, on_char_create_result, on_char_info, on_char_leave,
  on_attendance_info, on_attendance_result, on_move_result, on_attack_result, on_npc_spawn,
  on_npc_death, on_exp_update, on_level_up,
}
use mmorpg_simulator.Client.Belongings.{
  on_item_drop, on_item_use_result, on_equip_result, on_inventory_update, on_inventory_list,
  on_shop_list, on_shop_result,
}
use mmorpg_simulator.Client.Company.{
  on_quest_list_result, on_quest_accept_result, on_quest_progress_update, on_quest_reward_result,
  on_party_invite_recv, on_party_update_recv, on_party_leave_recv, on_chat_msg, on_error, chat_text,
}
use mmorpg_simulator.Client.Dispatch.{handle_answer, handle_answers}

-- The lines of the chat among some packets.
unfoldable pub chat_lines : List Packet → List Text
chat_lines [] = []
chat_lines (chat r ∷ ks) = chat_text r ∷ chat_lines ks
chat_lines (_ ∷ ks) = chat_lines ks

-- The last `n` entries.
abbrev pub last_of : ℕ → List Text → List Text
last_of n xs = drop (length xs - n) xs

last_of_more :
    (n : ℕ) (x : Text) (xs : List Text) → n ≤ length xs → last_of n (x ∷ xs) ≡ last_of n xs
last_of_more n x xs h =
    let e : suc (length xs) - n ≡ suc (length xs - n) = omega (arith, h) in
    ap (λ k. drop k (x ∷ xs)) e

-- A log of at most `n` lines with one line more, of which the first goes when there are too many.
abbrev logged : ℕ → List Text → List Text
logged n log = if ltb n (length log) then drop 1 log else log

logged-last_of :
    (n : ℕ) (log more : List Text)
    → length log ≤ suc n
    → last_of n (logged n log ++ more) ≡ last_of n (log ++ more)
logged-last_of n [] more h = ground arith
logged-last_of n (x ∷ log) more h = elim (Bool-cases (ltb n (suc (length log)))) [
  | inl long ↦
      let enough : n ≤ length (log ++ more) = ground (arith, long, length-append log more) in
      rw long (sym (last_of_more n x (log ++ more) enough))
  | inr short ↦ rw short refl
]

logged-le : (n : ℕ) (log : List Text) → length log ≤ suc n → length (logged n log) ≤ n
logged-le n [] h = ground arith
logged-le n (x ∷ log) h = ground (arith, h)

quiet-chat_log :
    (k : Packet) (c : ClientState)
    → chat_lines (k ∷ []) ≡ []
    → (handle_answer k c).chat_log ≡ c.chat_log
unfolding handle_answer chat_lines on_login_result on_char_list_result on_char_create_result
    on_char_info on_char_leave on_attendance_info on_attendance_result on_move_result
    on_attack_result on_npc_spawn on_npc_death on_exp_update on_level_up on_item_drop
    on_item_use_result on_equip_result on_inventory_update on_inventory_list on_shop_list
    on_shop_result on_quest_list_result on_quest_accept_result on_quest_progress_update
    on_quest_reward_result on_party_invite_recv on_party_update_recv on_party_leave_recv on_error
quiet-chat_log (chat r) c h = cc
quiet-chat_log k c h = ground arith

-- Whatever packets come, the log shows the last five lines of the chat, of those it had and those
-- that came, if it had five at most.
pub answers-last_of :
    (ks : List Packet) (c : ClientState)
    → length c.chat_log ≤ max_chat_log
    → (handle_answers ks c).chat_log ≡ last_of max_chat_log (c.chat_log ++ chat_lines ks)
unfolding handle_answers handle_answer chat_lines on_chat_msg
answers-last_of [] c h =
    let none_dropped : length (c.chat_log ++ []) - 5 ≡ 0 =
      omega (arith, h, ap length (append-nil c.chat_log)) in
    sym (append-nil c.chat_log) ∙ ap (λ k. drop k (c.chat_log ++ [])) (sym none_dropped)
answers-last_of (chat r ∷ ks) c h =
    let log : List Text = c.chat_log ++ chat_text r ∷ [] in
    let small : length log ≤ 6 = omega (arith, h, length-append c.chat_log (chat_text r ∷ [])) in
    answers-last_of ks (on_chat_msg r c) (logged-le 5 log small)
    ∙ logged-last_of 5 log (chat_lines ks) small
    ∙ ap (last_of 5) (append_assoc c.chat_log (chat_text r ∷ []) (chat_lines ks))
answers-last_of (k ∷ ks) c h =
    let e : (handle_answer k c).chat_log ≡ c.chat_log = quiet-chat_log k c refl in
    answers-last_of ks (handle_answer k c) (omega (arith, h, ap length e))
    ∙ ap (λ log. last_of 5 (log ++ chat_lines ks)) e
