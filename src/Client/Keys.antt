-- ===== src/Client/Keys.antt =====
-- The keys in the loop of main, ReadSlot and CreateCharacter (GameClient/main.cpp). What is typed
-- at a prompt is an argument, and the packets that are sent are the result.
use mmorpg_simulator.Common.{
  ℕ, ◌+◌, ◌-◌, ◌*◌, ◌%◌, ◌^◌, ◌==◌, ltb, leb, ◌&&◌, ◌||◌, Bool, true, false, not, if◌then◌else◌,
  List, [], ◌∷◌, ◌++◌, take, length, get_or, Text, codes,
}
use mmorpg_simulator.Common.Int.{ℤ, pos, negsuc, pos_part, neg_part, abs, ◌-ℤ◌}
use mmorpg_simulator.Protocol.{max_inventory}
use mmorpg_simulator.Protocol.Payloads
use mmorpg_simulator.Movement.{quest_npc_x, quest_npc_y}
use mmorpg_simulator.Server.Packets.{
  Request, char_create, char_select, attendance_check, move, attack, item_use, item_equip,
  shop_open, shop_buy, shop_sell, quest_list, quest_accept, quest_complete, party_invite,
  party_accept, party_leave,
}
use mmorpg_simulator.Client.Lines.{chat_requests}
use mmorpg_simulator.Client.State.{
  ClientState, GameState, login_state, char_select_state, in_game_state, no_quest_entry,
  no_shop_entry,
}
use mmorpg_simulator.Client.Nearest.{find_nearest_npc, int_max}

-- The loop goes on, or ends; `throws`: std::out_of_range, which nothing catches.
pub data KeyOutcome : Type 0 where
  stays : List Request → ClientState → KeyOutcome
  leaves : KeyOutcome
  throws : KeyOutcome

-- What is typed at a prompt: a line, and the number that CreateCharacter asks for.
pub record Typed : Type 0 where
  pub line : Text
  pub number : ℤ

abbrev pub is_digit : ℕ → Bool
is_digit k = leb 48 k && leb k 57

-- The keys of ReadSlot, up to enter; escape empties the input.
abbrev pub slot_input : List ℕ → Text → Text
slot_input [] input = input
slot_input (k ∷ ks) input =
    if k == 13
    then input
    else if k == 27
    then []
    else if is_digit k
    then slot_input ks (input ++ k ∷ [])
    else slot_input ks input

abbrev pub number_from : ℕ → Text → ℕ
number_from n [] = n
number_from n (k ∷ ks) = number_from (n * 10 + (k - 48)) ks

-- The result of ReadSlot: no input, a number, or std::out_of_range.
pub data SlotInput : Type 0 where
  no_slot : SlotInput
  slot_number : ℕ → SlotInput
  too_large : SlotInput

abbrev pub slot_typed : Text → SlotInput
slot_typed [] = no_slot
slot_typed (k ∷ ks) =
    let n = number_from 0 (k ∷ ks) in if leb n int_max then slot_number n else too_large

unfoldable pub read_slot : List ℕ → SlotInput
read_slot keys = slot_typed (slot_input keys [])

-- A slot of the inventory is sent, any other is not.
abbrev pub with_slot : SlotInput → (ℕ → Request) → ClientState → KeyOutcome
with_slot no_slot ask c = stays [] c
with_slot (slot_number n) ask c = if ltb n max_inventory then stays (ask n ∷ []) c else stays [] c
with_slot too_large ask c = throws

abbrev pub slot_key : (ℕ → Request) → Typed → ClientState → KeyOutcome
slot_key ask typed c =
    if c.show_inventory then with_slot (read_slot typed.line) ask c else stays [] c

-- The conversion of an int to uint8_t.
abbrev pub uint8 : ℤ → ℕ
uint8 a = (pos_part a + (2 ^ 8 - neg_part a % 2 ^ 8)) % 2 ^ 8

unfoldable pub create_character : Typed → Request
create_character typed =
    char_create (record { name = take 19 typed.line; char_type = uint8 typed.number })

unfoldable pub select_key : ℕ → Typed → ClientState → KeyOutcome
select_key key typed c =
    if key == b'c' || key == b'C'
    then stays (create_character typed ∷ []) c
    else if leb (b'1') key && leb key (b'5')
    then (let idx = key - b'1' in
        if ltb idx (length c.char_list)
        then stays
            (char_select (record {
              char_uid =
                  (get_or c.char_list idx
                    (record { char_uid = 0; name = []; char_type = 0; level = 0 })).char_uid;
            })
              ∷ [])
            c
        else stays [] c)
    else if key == b'q' || key == b'Q'
    then leaves
    else stays [] c

-- tolower
abbrev pub lower : ℕ → ℕ
lower k = if leb b'A' k && leb k b'Z' then k + 32 else k

abbrev pub step_to : ℤ → ℤ → ClientState → KeyOutcome
step_to x y c = stays (move (record { dir_x = x; dir_y = y }) ∷ []) c

abbrev pub party_key : Typed → ClientState → KeyOutcome
party_key typed c =
    if ltb 0 c.party_count
    then stays (party_leave ∷ []) (record c { party_count = 0; last_msg = codes "Left party" })
    else stays (party_invite (record { target_name = take 19 typed.line }) ∷ []) c

abbrev pub accept_key : ClientState → KeyOutcome
accept_key c =
    if c.pending_invite
    then stays (party_accept (record { accept = 1 }) ∷ []) (record c { pending_invite = false })
    else stays [] c

abbrev pub reject_key : ClientState → KeyOutcome
reject_key c =
    if c.pending_invite
    then stays (party_accept (record { accept = 0 }) ∷ [])
        (record c { pending_invite = false; last_msg = codes "Invite rejected" })
    else stays [] c

abbrev pub shop_key : ClientState → KeyOutcome
shop_key c =
    stays (if c.show_shop then [] else shop_open ∷ [])
      (record c { show_shop = not c.show_shop; show_inventory = false; show_quest_list = false })

-- The client's own test for the quest giver.
unfoldable pub sees_quest_npc : ClientState → Bool
unfolding ◌-ℤ◌
sees_quest_npc c =
    leb (abs (c.my_player.pos_x -ℤ pos quest_npc_x)) 1
    && leb (abs (c.my_player.pos_y -ℤ pos quest_npc_y)) 1

abbrev pub quest_key : ClientState → KeyOutcome
quest_key c =
    if c.show_quest_list
    then stays [] (record c { show_quest_list = false })
    else if sees_quest_npc c
    then stays (quest_list ∷ [])
        (record c { show_quest_list = true; show_inventory = false; show_shop = false })
    else stays [] (record c { last_msg = codes "Move near Quest NPC (Q) to manage quests" })

abbrev pub quest_asked : Payloads.QuestEntry → List Request
quest_asked q =
    if q.status == 0
    then quest_accept (record { quest_id = q.quest_id }) ∷ []
    else if q.status == 2
    then quest_complete (record { quest_id = q.quest_id }) ∷ []
    else []

abbrev pub number_key : ℕ → ClientState → KeyOutcome
number_key idx c =
    if c.show_quest_list
    then stays
        (if ltb idx c.quest_count
          then quest_asked (get_or c.quest_entries idx no_quest_entry)
          else [])
        c
    else if c.show_shop
    then stays
        (if ltb idx c.shop_count
          then shop_buy (record { item_id = (get_or c.shop_items idx no_shop_entry).item_id }) ∷ []
          else [])
        c
    else stays [] c

-- `typed.line` is the slot, the name or the chat line that follows the key.
unfoldable pub game_key : ℕ → Typed → ClientState → KeyOutcome
game_key key typed c =
    let k = lower key in
    if k == b'w'
    then step_to (pos 0) (negsuc 0) c
    else if k == b's'
    then step_to (pos 0) (pos 1) c
    else if k == b'a'
    then step_to (negsuc 0) (pos 0) c
    else if k == b'd'
    then step_to (pos 1) (pos 0) c
    else if k == b' '
    then stays (attack (record { target_uid = find_nearest_npc c }) ∷ []) c
    else if k == b't'
    then stays (attendance_check ∷ []) c
    else if k == b'p'
    then party_key typed c
    else if k == b'y'
    then accept_key c
    else if k == b'n'
    then reject_key c
    else if k == b'i'
    then stays [] (record c { show_inventory = not c.show_inventory; show_shop = false })
    else if k == b'b'
    then shop_key c
    else if k == b'j'
    then quest_key c
    else if leb b'1' key && leb key b'9'
    then number_key (key - b'1') c
    else if k == b'u'
    then slot_key (λ slot. item_use (record { slot = slot })) typed c
    else if k == b'e'
    then slot_key (λ slot. item_equip (record { slot = slot })) typed c
    else if k == b'x'
    then slot_key (λ slot. shop_sell (record { slot = slot })) typed c
    else if k == 27
    then stays [] (record c { show_inventory = false; show_shop = false; show_quest_list = false })
    else if k == 13
    then stays (chat_requests typed.line) c
    else if k == b'q'
    then leaves
    else stays [] c

abbrev pub key_in : GameState → ℕ → Typed → ClientState → KeyOutcome
key_in login_state key typed c = stays [] c
key_in char_select_state key typed c = select_key key typed c
key_in in_game_state key typed c = game_key key typed c

-- One key in the loop of main.
unfoldable pub on_key : ℕ → Typed → ClientState → KeyOutcome
on_key key typed c = key_in c.game_state key typed c
