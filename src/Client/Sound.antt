-- ===== src/Client/Sound.antt =====
-- The numbers that the client takes from packets fit into the fields of its requests.
use mmorpg_simulator.Common.{
  ℕ, zero, suc, ◌<◌, ◌≡◌, refl, inl, inr, List, [], ◌∷◌, map, take, All, arith, ltb, leb,
  Option-cases, ◌==◌, ◌^◌, if◌then◌else◌, Bool-cases,
}
use mmorpg_simulator.Protocol.{
  Packet, char_list, shop_list, quest_list, npc_spawn, attack_result, npc_death,
  quest_accept_result, quest_progress, quest_reward,
}
use mmorpg_simulator.Protocol.Payloads
use mmorpg_simulator.Client.State.{ClientState, SeenNpc}
use mmorpg_simulator.Client.Field.{
  on_login_result, on_char_list_result, on_char_create_result, on_char_info, on_char_leave,
  on_attendance_info, on_attendance_result, on_move_result, on_attack_result, on_npc_spawn,
  on_npc_death, on_exp_update, on_level_up, listed_entry, with_hp, seen_npc,
}
use mmorpg_simulator.Client.Belongings.{
  on_item_drop, on_item_use_result, on_equip_result, on_inventory_update, on_inventory_list,
  on_shop_list, on_shop_result, overwrite, cut_entry,
}
use mmorpg_simulator.Client.Company.{
  on_quest_list_result, on_quest_accept_result, on_quest_progress_update, on_quest_reward_result,
  on_party_invite_recv, on_party_update_recv, on_party_leave_recv, on_chat_msg, on_error,
  change_quest, cut_quest, with_quest,
}
use mmorpg_simulator.Client.Dispatch.{handle_answer, handle_answers}
use mmorpg_simulator.Client.Maps.{find_key, put_key, erase_key}
use mmorpg_simulator.Wire.Bodies.{char_list_entry_layout}
use mmorpg_simulator.Wire.Goods.{shop_entry_layout, quest_entry_layout}
use mmorpg_simulator.Wire.Telling.{FitsPacket}

pub record IsSound (c : ClientState) : Type 0 where
  pub chars : All (λ e. e.char_uid < 2 ^ 64) c.char_list
  pub npcs : All (λ e. e.0 < 2 ^ 64) c.npcs
  pub shop : All (λ e. e.item_id < 2 ^ 16) c.shop_items
  pub quests : All (λ e. e.quest_id < 2 ^ 16) c.quest_entries

entries-chars :
    (n : ℕ) (es : List Payloads.CharListEntry)
    → All char_list_entry_layout.fits es
    → All (λ e. e.char_uid < 2 ^ 64) (map listed_entry (take n es))
entries-chars zero es h = tt
entries-chars (suc n) [] h = tt
entries-chars (suc n) (e ∷ es) h = (h.0.0, entries-chars n es h.1)

cut-shop :
    (es : List Payloads.ShopEntry)
    → All shop_entry_layout.fits es
    → All (λ e. e.item_id < 2 ^ 16) (map cut_entry es)
cut-shop [] h = tt
cut-shop (e ∷ es) h = (h.0.0, cut-shop es h.1)

cut-quests :
    (es : List Payloads.QuestEntry)
    → All quest_entry_layout.fits es
    → All (λ e. e.quest_id < 2 ^ 16) (map cut_quest es)
cut-quests [] h = tt
cut-quests (e ∷ es) h = (h.0.0, cut-quests es h.1)

All-overwrite :
    {A : Type 0} (P : A → Type 0) (vs old : List A)
    → All P vs
    → All P old
    → All P (overwrite vs old)
unfolding overwrite
All-overwrite P [] old h k = k
All-overwrite P (v ∷ vs) [] h k = tt
All-overwrite P (v ∷ vs) (u ∷ old) h k = (h.0, All-overwrite P vs old h.1 k.1)

All-change :
    (P : ℕ → Type 0) (n id : ℕ) (f : Payloads.QuestEntry → Payloads.QuestEntry)
    (qs : List Payloads.QuestEntry)
    → ((q : Payloads.QuestEntry) → P q.quest_id → P (f q).quest_id)
    → All (λ q. P q.quest_id) qs
    → All (λ q. P q.quest_id) (change_quest n id f qs)
unfolding change_quest
All-change P zero id f qs k h = h
All-change P (suc n) id f [] k h = tt
All-change P (suc n) id f (q ∷ qs) k h = elim (Bool-cases (q.quest_id == id)) [
  | inl here ↦ rw here (k q h.0, h.1)
  | inr there ↦ rw there (h.0, All-change P n id f qs k h.1)
]

module _ {V : Type 0} where
  All-put :
      (P : ℕ → Type 0) (k : ℕ) (v : V) (m : List (ℕ × V))
      → P k
      → All (λ e. P e.0) m
      → All (λ e. P e.0) (put_key k v m)
  unfolding put_key
  All-put P k v [] p h = (p, tt)
  All-put P k v ((j, u) ∷ m) p h = elim (Bool-cases (ltb k j)) [
    | inl less ↦ rw less (p, h)
    | inr more ↦ elim (Bool-cases (k == j)) [
      | inl same ↦ rw (more, same) (p, h.1)
      | inr other ↦ rw (more, other) (h.0, All-put P k v m p h.1)
    ]
  ]

  All-erase :
      (P : ℕ → Type 0) (k : ℕ) (m : List (ℕ × V))
      → All (λ e. P e.0) m
      → All (λ e. P e.0) (erase_key k m)
  unfolding erase_key
  All-erase P k [] h = tt
  All-erase P k ((j, u) ∷ m) h = elim (Bool-cases (k == j)) [
    | inl same ↦ rw same h.1
    | inr other ↦ rw other (h.0, All-erase P k m h.1)
  ]

-- The fields that requests are made of.
record SameAsked (c d : ClientState) : Type 0 where
  chars : d.char_list ≡ c.char_list
  npcs : d.npcs ≡ c.npcs
  shop : d.shop_items ≡ c.shop_items
  quests : d.quest_entries ≡ c.quest_entries

same : (c d : ClientState) → IsSound c → SameAsked c d → IsSound d
same c d h e = record {
  chars = rw e.chars h.chars;
  npcs = rw e.npcs h.npcs;
  shop = rw e.shop h.shop;
  quests = rw e.quests h.quests;
}

with_quest-IsSound :
    (id : ℕ) (f : Payloads.QuestEntry → Payloads.QuestEntry) (c : ClientState)
    → ((q : Payloads.QuestEntry) → (f q).quest_id ≡ q.quest_id)
    → IsSound c
    → IsSound (with_quest id f c)
with_quest-IsSound id f c keeps h = record {
  chars = h.chars;
  npcs = h.npcs;
  shop = h.shop;
  quests =
      All-change (λ n. n < 2 ^ 16) c.quest_count id f c.quest_entries (λ q lt. rw (keeps q) lt)
        h.quests;
}

All-with_hp :
    (P : ℕ → Type 0) (uid hp : ℕ) (m : List (ℕ × SeenNpc))
    → P uid
    → All (λ e. P e.0) m
    → All (λ e. P e.0) (with_hp uid hp m)
All-with_hp P uid hp m p h = elim (Option-cases (find_key uid m)) [
  | inl none_ ↦ rw (with_hp, none_) h
  | inr (n, e) ↦ rw (with_hp, e) (All-put P uid (record n { hp = hp }) m p h)
]

-- Quests with a new status have their numbers still.
changed :
    (id : ℕ) (f : Payloads.QuestEntry → Payloads.QuestEntry) (c d : ClientState)
    → ((q : Payloads.QuestEntry) → (f q).quest_id ≡ q.quest_id)
    → IsSound c
    → SameAsked (with_quest id f c) d
    → IsSound d
changed id f c d keeps h e = same (with_quest id f c) d (with_quest-IsSound id f c keeps h) e

pub handle-IsSound :
    (k : Packet) (c : ClientState) → FitsPacket k → IsSound c → IsSound (handle_answer k c)
unfolding handle_answer on_login_result on_char_list_result on_char_create_result on_char_info
    on_char_leave on_attendance_info on_attendance_result on_move_result on_attack_result
    on_npc_spawn on_npc_death on_exp_update on_level_up on_item_drop on_item_use_result
    on_equip_result on_inventory_update on_inventory_list on_shop_list on_shop_result
    on_quest_list_result on_quest_accept_result on_quest_progress_update on_quest_reward_result
    on_party_invite_recv on_party_update_recv on_party_leave_recv on_chat_msg on_error
handle-IsSound (char_list es) c f h = record {
  chars = entries-chars 5 es f.2;
  npcs = h.npcs;
  shop = h.shop;
  quests = h.quests;
}
handle-IsSound (shop_list es) c f h = record {
  chars = h.chars;
  npcs = h.npcs;
  shop =
      All-overwrite (λ e. e.item_id < 2 ^ 16) (map cut_entry es) c.shop_items (cut-shop es f.2)
        h.shop;
  quests = h.quests;
}
handle-IsSound (quest_list es) c f h = record {
  chars = h.chars;
  npcs = h.npcs;
  shop = h.shop;
  quests =
      All-overwrite (λ e. e.quest_id < 2 ^ 16) (map cut_quest es) c.quest_entries
        (cut-quests es f.2) h.quests;
}
handle-IsSound (npc_spawn r) c f h = record {
  chars = h.chars;
  npcs = All-put (λ k. k < 2 ^ 64) r.npc_uid (seen_npc r) c.npcs f.0 h.npcs;
  shop = h.shop;
  quests = h.quests;
}
handle-IsSound (npc_death r) c f h = record {
  chars = h.chars;
  npcs = All-erase (λ k. k < 2 ^ 64) r.npc_uid c.npcs h.npcs;
  shop = h.shop;
  quests = h.quests;
}
handle-IsSound (attack_result r) c f h = elim (Bool-cases (r.success == 0)) [
  | inl missed ↦ same c (handle_answer (attack_result r) c) h (ground (arith, missed))
  | inr hit ↦
      same (record c { npcs = with_hp r.target_uid r.target_hp c.npcs })
        (handle_answer (attack_result r) c)
        (record {
          chars = h.chars;
          npcs = All-with_hp (λ k. k < 2 ^ 64) r.target_uid r.target_hp c.npcs f.1.0 h.npcs;
          shop = h.shop;
          quests = h.quests;
        })
        (ground (arith, hit))
]
handle-IsSound (quest_accept_result r) c f h = elim (Bool-cases (r.success == 0)) [
  | inl refused ↦ same c (handle_answer (quest_accept_result r) c) h (ground (arith, refused))
  | inr accepted ↦
      changed r.quest_id (λ q. record q { status = 1; progress = 0 }) c
        (handle_answer (quest_accept_result r) c) (λ q. refl) h (ground (arith, accepted))
]
handle-IsSound (quest_progress r) c f h =
    changed r.quest_id
      (λ q. record q {
        progress = r.progress;
        target = r.target;
        status = if leb r.target r.progress then 2 else q.status;
      })
      c (handle_answer (quest_progress r) c) (λ q. refl) h (ground arith)
handle-IsSound (quest_reward r) c f h = elim (Bool-cases (r.success == 0)) [
  | inl refused ↦ same c (handle_answer (quest_reward r) c) h (ground (arith, refused))
  | inr paid ↦
      changed r.quest_id (λ q. record q { status = 3 }) c (handle_answer (quest_reward r) c)
        (λ q. refl) h (ground (arith, paid))
]
handle-IsSound k c f h = same c (handle_answer k c) h (ground arith)

-- Packets whose values fit leave the client with numbers that fit into its requests.
pub answers-IsSound :
    (ks : List Packet) (c : ClientState)
    → All FitsPacket ks
    → IsSound c
    → IsSound (handle_answers ks c)
unfolding handle_answers
answers-IsSound [] c f h = h
answers-IsSound (k ∷ ks) c f h =
    answers-IsSound ks (handle_answer k c) f.1 (handle-IsSound k c f.0 h)
