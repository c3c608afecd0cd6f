-- ===== src/Client/Asking.antt =====
-- What the keys make the client send.
use mmorpg_simulator.Common.{
  ℕ, ◌-◌, ◌<◌, ◌≡◌, refl, ◌==◌, ◌&&◌, ◌||◌, ltb, leb, ◌^◌, [], length, get_or, All, arith,
  Bool-cases, inl, inr,
}
use mmorpg_simulator.Common.Int.{ℤ, pos, negsuc}
use mmorpg_simulator.Protocol.Payloads
use mmorpg_simulator.Wire.Arrays.{IsChar}
use mmorpg_simulator.Wire.Codec.{IsSigned}
use mmorpg_simulator.Wire.Reading.{FitsRequest}
use mmorpg_simulator.Server.Packets.{
  Request, attack, item_use, item_equip, shop_sell, quest_list, party_leave, attendance_check,
}
use mmorpg_simulator.Client.State.{
  ClientState, login_state, char_select_state, in_game_state, no_quest_entry, no_shop_entry,
}
use mmorpg_simulator.Client.Nearest.{nearest_from, find_nearest_npc, int_max}
use mmorpg_simulator.Client.Keys.{
  Typed, SlotInput, no_slot, slot_number, too_large, read_slot, with_slot, slot_key,
  create_character, select_key, party_key, accept_key, reject_key, shop_key, quest_key,
  sees_quest_npc, quest_asked, number_key, game_key, key_in, on_key, step_to, lower,
}
use mmorpg_simulator.Client.Sound.{IsSound}
use mmorpg_simulator.Client.Fitting.{
  IsFitting, asks, asks_all, asks_none, ends, stops, branch, taken, All-get_or, nearest-lt,
  uint8-lt, chat-fits,
}

with_slot-fits :
    (i : SlotInput) (ask : ℕ → Request) (c : ClientState)
    → ((n : ℕ) → n < 256 → FitsRequest (ask n))
    → IsSound c
    → IsFitting (with_slot i ask c)
with_slot-fits no_slot ask c f h = asks_none c h
with_slot-fits (slot_number n) ask c f h = elim (Bool-cases (ltb n 20)) [
  | inl small ↦ rw small (asks (ask n) c (f n (ground (arith, small))) h)
  | inr large ↦ rw large (asks_none c h)
]
with_slot-fits too_large ask c f h = stops

slot_key-fits :
    (ask : ℕ → Request) (typed : Typed) (c : ClientState)
    → ((n : ℕ) → n < 256 → FitsRequest (ask n))
    → IsSound c
    → IsFitting (slot_key ask typed c)
slot_key-fits ask typed c f h =
    branch IsFitting c.show_inventory _ _ (with_slot-fits (read_slot typed.line) ask c f h)
      (asks_none c h)

quest_asked-fits : (q : Payloads.QuestEntry) → q.quest_id < 2 ^ 16 → All FitsRequest (quest_asked q)
quest_asked-fits q h =
    branch (All FitsRequest) (q.status == 0) _ _ (h, tt)
      (branch (All FitsRequest) (q.status == 2) _ _ (h, tt) tt)

number_key-fits : (idx : ℕ) (c : ClientState) → IsSound c → IsFitting (number_key idx c)
number_key-fits idx c h =
    branch IsFitting c.show_quest_list _ _
      (asks_all _ c
        (branch (All FitsRequest) (ltb idx c.quest_count) _ _
          (quest_asked-fits (get_or c.quest_entries idx no_quest_entry) (
            All-get_or (λ q. q.quest_id < 2 ^ 16) c.quest_entries idx no_quest_entry (omega arith)
              h.quests))
          tt)
        h)
      (branch IsFitting c.show_shop _ _
        (asks_all _ c
          (branch (All FitsRequest) (ltb idx c.shop_count) _ _
            (
              All-get_or (λ e. e.item_id < 2 ^ 16) c.shop_items idx no_shop_entry (omega arith)
                  h.shop,
              tt,
            )
            tt)
          h)
        (asks_none c h))

-- Only what is shown changes.
kept :
    (c d : ClientState)
    → d.char_list ≡ c.char_list
    → d.npcs ≡ c.npcs
    → d.shop_items ≡ c.shop_items
    → d.quest_entries ≡ c.quest_entries
    → IsSound c
    → IsSound d
kept c d a b e f h = record {
  chars = rw a h.chars;
  npcs = rw b h.npcs;
  shop = rw e h.shop;
  quests = rw f h.quests;
}

quest_key-fits : (c : ClientState) → IsSound c → IsFitting (quest_key c)
quest_key-fits c h =
    branch IsFitting c.show_quest_list _ _ (asks_none _ (kept c _ refl refl refl refl h)) (
      branch IsFitting (sees_quest_npc c) _ _
        (asks quest_list _ tt (kept c _ refl refl refl refl h))
        (asks_none _ (kept c _ refl refl refl refl h)))

party_key-fits :
    (typed : Typed) (c : ClientState)
    → All IsChar typed.line
    → IsSound c
    → IsFitting (party_key typed c)
party_key-fits typed c chars h =
    branch IsFitting (ltb 0 c.party_count) _ _
      (asks party_leave _ tt (kept c _ refl refl refl refl h))
      (asks _ c (taken 19 typed.line chars) h)

accept_key-fits : (c : ClientState) → IsSound c → IsFitting (accept_key c)
accept_key-fits c h =
    branch IsFitting c.pending_invite _ _ (asks _ _ (omega arith) (kept c _ refl refl refl refl h))
      (asks_none c h)

reject_key-fits : (c : ClientState) → IsSound c → IsFitting (reject_key c)
reject_key-fits c h =
    branch IsFitting c.pending_invite _ _ (asks _ _ (omega arith) (kept c _ refl refl refl refl h))
      (asks_none c h)

shop_key-fits : (c : ClientState) → IsSound c → IsFitting (shop_key c)
shop_key-fits c h =
    asks_all _ _ (branch (All FitsRequest) c.show_shop _ _ tt (tt, tt))
      (kept c _ refl refl refl refl h)

select_key-fits :
    (key : ℕ) (typed : Typed) (c : ClientState)
    → All IsChar typed.line
    → IsSound c
    → IsFitting (select_key key typed c)
unfolding select_key create_character
select_key-fits key typed c chars h =
    branch IsFitting (key == b'c' || key == b'C') _ _
      (asks (create_character typed) c (taken 19 typed.line chars, uint8-lt typed.number) h)
      (branch IsFitting (leb b'1' key && leb key b'5') _ _
        (branch IsFitting (ltb (key - b'1') (length c.char_list)) _ _
          (asks _ c
            (All-get_or (λ e. e.char_uid < 2 ^ 64) c.char_list (key - b'1')
              (record { char_uid = 0; name = []; char_type = 0; level = 0 }) (omega arith) h.chars)
            h)
          (asks_none c h))
        (branch IsFitting (key == b'q' || key == b'Q') _ _ ends (asks_none c h)))

step-fits :
    (x y : ℤ) (c : ClientState)
    → IsSigned 256 x
    → IsSigned 256 y
    → IsSound c
    → IsFitting (step_to x y c)
step-fits x y c hx hy h = asks _ c (hx, hy) h

game_key-fits :
    (key : ℕ) (typed : Typed) (c : ClientState)
    → All IsChar typed.line
    → IsSound c
    → IsFitting (game_key key typed c)
unfolding game_key find_nearest_npc
game_key-fits key typed c chars h =
    let k : ℕ = lower key in
    branch IsFitting (k == b'w') _ _ (step-fits (pos 0) (negsuc 0) c (omega arith) (omega arith) h)
      (branch IsFitting (k == b's') _ _ (step-fits (pos 0) (pos 1) c (omega arith) (omega arith) h)
        (branch IsFitting (k == b'a') _ _
          (step-fits (negsuc 0) (pos 0) c (omega arith) (omega arith) h)
          (branch IsFitting (k == b'd') _ _
            (step-fits (pos 1) (pos 0) c (omega arith) (omega arith) h)
            (branch IsFitting (k == b' ') _ _
              (asks (attack (record { target_uid = nearest_from c.my_player c.npcs 0 int_max })) c
                (nearest-lt c.my_player c.npcs 0 int_max (omega arith) h.npcs) h)
              (branch IsFitting (k == b't') _ _ (asks attendance_check c tt h) (
                branch IsFitting (k == b'p') _ _ (party_key-fits typed c chars h) (
                  branch IsFitting (k == b'y') _ _ (accept_key-fits c h) (
                    branch IsFitting (k == b'n') _ _ (reject_key-fits c h) (
                      branch IsFitting (k == b'i') _ _
                        (asks_none _ (kept c _ refl refl refl refl h))
                        (branch IsFitting (k == b'b') _ _ (shop_key-fits c h) (
                          branch IsFitting (k == b'j') _ _ (quest_key-fits c h) (
                            branch IsFitting (leb b'1' key && leb key b'9') _ _
                              (number_key-fits (key - b'1') c h)
                              (branch IsFitting (k == b'u') _ _
                                (slot_key-fits (λ slot. item_use (record { slot = slot })) typed c
                                  (λ n lt. lt) h)
                                (branch IsFitting (k == b'e') _ _
                                  (slot_key-fits (λ slot. item_equip (record { slot = slot })) typed
                                    c (λ n lt. lt) h)
                                  (branch IsFitting (k == b'x') _ _
                                    (slot_key-fits (λ slot. shop_sell (record { slot = slot }))
                                      typed c (λ n lt. lt) h)
                                    (branch IsFitting (k == 27) _ _
                                      (asks_none _ (kept c _ refl refl refl refl h))
                                      (branch IsFitting (k == 13) _ _
                                        (asks_all _ c (chat-fits typed.line chars) h)
                                        (branch IsFitting (k == b'q') _ _ ends
                                          (asks_none c h)))))))))))))))))))

-- Whatever key is pressed, in whatever state of the game, and whatever is typed at the prompt that
-- follows: the values of what is sent fit into its struct, and the client keeps numbers that fit.
pub on_key-IsFitting :
    (key : ℕ) (typed : Typed) (c : ClientState)
    → All IsChar typed.line
    → IsSound c
    → IsFitting (on_key key typed c)
unfolding on_key
on_key-IsFitting key typed c chars h =
    elim c.game_state as (λ g. IsFitting (key_in g key typed c)) [
      | login_state ↦ asks_none c h
      | char_select_state ↦ select_key-fits key typed c chars h
      | in_game_state ↦ game_key-fits key typed c chars h
    ]
