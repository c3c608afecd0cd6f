-- ===== src/Tests/Playing.antt =====
-- The client, and a server with its clients.
use mmorpg_simulator.Common.{
  ℕ, zero, suc, ◌≡◌, refl, ap, ◌⊎◌, inl, inr, Option, none, some, List, [], ◌∷◌, ◌++◌, arith,
  length, codes, Text, replicate, ◌<◌, ◌≤◌, true,
}
use mmorpg_simulator.Common.Int.{pos, ◌-ℤ◌}
use mmorpg_simulator.Protocol.{Packet, packet_type, char_list, chat, npc_spawn, heartbeat}
use mmorpg_simulator.Protocol.Types.{type_code}
use mmorpg_simulator.Framing.{frame}
use mmorpg_simulator.Framing.Chunks.{stream}
use mmorpg_simulator.World.Sessions.{player}
use mmorpg_simulator.Server.Interleaved.{IsServed, bytes_for}
use mmorpg_simulator.Server.Machine
use mmorpg_simulator.Server.Machine.{Arrival, serve}
use mmorpg_simulator.Server.Refined.{IsCaught}
use mmorpg_simulator.Server.Start.{started_machine, started_world, IsSafe, serve-IsSafe}
use mmorpg_simulator.World.Data.{World, ItemData}
use mmorpg_simulator.Item.{find_item}
use mmorpg_simulator.Shop.{on_shop_sell, try_shop_buy, message_size}
use mmorpg_simulator.Movement.{on_move}
use mmorpg_simulator.Client.State.{ClientState, started_client, max_chat_log, in_game_state}
use mmorpg_simulator.Client.Dispatch.{handle_answer, handle_answers}
use mmorpg_simulator.Client.Field.{on_char_list_result}
use mmorpg_simulator.Wire.Requests.{request_packet}
use mmorpg_simulator.Client.Keys.{Typed, on_key, select_key}
use mmorpg_simulator.Client.Lines.{typed_line, typed_line-backspace}
use mmorpg_simulator.Client.Log.{last_of, chat_lines, answers-last_of}
use mmorpg_simulator.Client.Nearest.{IsNearest, find_nearest_npc, find-IsNearest}
use mmorpg_simulator.Client.Receiving.{recv_loop, recv_loop-handle_answers}
use mmorpg_simulator.Client.Fitting.{IsFitting}
use mmorpg_simulator.Client.Asking.{on_key-IsFitting}
use mmorpg_simulator.Client.Mirror.{
  answers_to, unsent, ShowsPlace, move-ShowsPlace, buy-gold, sell_refused-gold,
}
use mmorpg_simulator.Client.Playing.{
  Happening, pressed, told, play, first_request, client_requests, sent_bytes, clients-IsServed,
  FitsClient,
}
use mmorpg_simulator.Tests.Town.{town, counting_env, item_list, drops, goblin_slayer}

-- Ann's client is told of her character's place, which it takes for hers only in the game.
abbrev nothing_typed : Typed
nothing_typed = record { line = []; number = pos 0 }

abbrev playing : ClientState
playing = record started_client {
  game_state = in_game_state;
  show_inventory = true;
  npcs =
      (4, record { uid = 4; pos_x = pos 10; pos_y = pos 12; hp = 30; max_hp = 30 })
      ∷ (7, record { uid = 7; pos_x = pos 9; pos_y = pos 9; hp = 30; max_hp = 30 })
      ∷ (8, record { uid = 8; pos_x = pos 19; pos_y = pos 0; hp = 30; max_hp = 30 })
      ∷ [];
}

find-IsNearest_example : IsNearest playing.my_player playing.npcs (find_nearest_npc playing)
unfolding ◌-ℤ◌
find-IsNearest_example = find-IsNearest playing (λ e. cc e) (omega arith)

on_key-IsFitting_example :
    IsFitting (on_key 117 (record { line = codes "12"; number = pos 0 }) playing)
on_key-IsFitting_example =
    on_key-IsFitting 117 (record { line = codes "12"; number = pos 0 }) playing (omega arith)
      (record { chars = tt; npcs = omega arith; shop = omega arith; quests = omega arith })

abbrev said : Text → Packet
said t = chat (record { channel = 0; sender_name = codes "bob"; message = t })

abbrev talk : List Packet
talk =
    said (codes "a")
    ∷ said (codes "b")
    ∷ heartbeat
    ∷ said (codes "c")
    ∷ said (codes "d")
    ∷ said (codes "e")
    ∷ said (codes "f")
    ∷ []

answers-last_of_example :
    (handle_answers talk playing).chat_log ≡ last_of max_chat_log ([] ++ chat_lines talk)
answers-last_of_example = answers-last_of talk playing (omega arith)

-- A monster and a heartbeat in two reads, with three bytes of a third packet.
abbrev seen : List Packet
seen =
    npc_spawn (record { npc_uid = 3; pos_x = pos 1; pos_y = pos 2; hp = 30; max_hp = 30 })
    ∷ heartbeat
    ∷ []

abbrev chunks : List (List ℕ)
chunks =
    (20 ∷ 0 ∷ 3 ∷ 5 ∷ 3 ∷ 0 ∷ 0 ∷ 0 ∷ 0 ∷ [])
    ∷ (0 ∷ 0 ∷ 0 ∷ 1 ∷ 0 ∷ 2 ∷ 0 ∷ 30 ∷ 0 ∷ 30 ∷ 0 ∷ 4 ∷ 0 ∷ 2 ∷ 255 ∷ 4 ∷ 0 ∷ 2 ∷ [])
    ∷ []

recv_loop-handle_answers_example :
    recv_loop (λ read pass. pass ∷ []) 30 chunks [] started_client
    ≡ some (4 ∷ 0 ∷ 2 ∷ [], handle_answers seen started_client)
unfolding stream frame packet_type type_code
recv_loop-handle_answers_example =
    recv_loop-handle_answers (λ read pass. pass ∷ []) 30 chunks [] seen (4 ∷ 0 ∷ 2 ∷ [])
      started_client (omega arith) (inl (omega arith)) (inl (omega arith)) refl (omega arith)

move-ShowsPlace_example :
    ShowsPlace
      (handle_answers
        (answers_to 1 (on_move 1 (record { dir_x = pos 1; dir_y = pos 0 }) (unsent town)).sent)
        playing)
      (player (on_move 1 (record { dir_x = pos 1; dir_y = pos 0 }) (unsent town)) 1)
move-ShowsPlace_example =
    move-ShowsPlace 1 (record { dir_x = pos 1; dir_y = pos 0 }) town playing refl

buy-gold_example :
    ((w' : World) × (try_shop_buy 1 (record { item_id = 2 }) (unsent town) ≡ some w')
      × ((handle_answers (answers_to 1 w'.sent) playing).my_player.gold ≡ (player w' 1).gold))
    ⊎ ((item : ItemData) × (find_item town.items 2 ≡ some item)
        × (message_size ≤ length item.name)
        × (try_shop_buy 1 (record { item_id = 2 }) (unsent town) ≡ none))
buy-gold_example = buy-gold 1 (record { item_id = 2 }) town playing refl

sell_refused-gold_example :
    ((handle_answers
        (answers_to 1 (on_shop_sell 1 (record { slot = 3 }) (unsent town)).sent)
        playing).my_player.gold
      ≡ 0)
    × (player (on_shop_sell 1 (record { slot = 3 }) (unsent town)) 1 ≡ player town 1)
sell_refused-gold_example = sell_refused-gold 1 (record { slot = 3 }) town playing refl (inr refl)

-- The conversion of the letters of ASCII, and of one letter of two bytes.
abbrev two_bytes : ℕ → Text
two_bytes wc = 195 ∷ 169 ∷ []

typed_line-backspace_example :
    typed_line two_bytes (codes "caf") (233 ∷ 8 ∷ 233 ∷ 13 ∷ [])
    ≡ typed_line two_bytes (codes "caf") (233 ∷ 13 ∷ [])
typed_line-backspace_example =
    typed_line-backspace two_bytes (codes "caf") 233 (233 ∷ 13 ∷ [])
      (record { lead = 195; more = 169 ∷ []; whole = refl; leads = refl; continues = refl })
      (omega arith) (omega arith) (omega arith) (omega arith)

abbrev arrivals : List Arrival
arrivals = Machine.opened ∷ Machine.received 1 (6 ∷ 0 ∷ 1 ∷ 4 ∷ 9 ∷ []) ∷ Machine.read_failed 1 ∷ []

serve-IsSafe_example :
    ((after : Machine.Machine) × (serve
          (λ read pass. [])
          20
          arrivals
          (started_machine (started_world counting_env item_list drops 80 (goblin_slayer ∷ [])))
        ≡ some after)
      × IsSafe after.world)
    ⊎ ((caught : IsCaught
          (λ read pass. [])
          20
          arrivals
          (started_machine (started_world counting_env item_list drops 80 (goblin_slayer ∷ []))))
        × IsSafe caught.before.after.world)
serve-IsSafe_example =
    serve-IsSafe (λ read pass. []) 20 arrivals counting_env item_list drops 80 (goblin_slayer ∷ [])
      (omega arith) (omega arith)

-- Ann logs in, is told of her character, selects it, and quits.
abbrev visit : List Happening
visit =
    told (char_list (record { char_uid = 11; name = codes "ann"; char_type = 0; level = 1 } ∷ []))
    ∷ pressed 49 nothing_typed
    ∷ []

abbrev clients : ℕ → Option (Text × List Happening)
clients (suc zero) = some (codes "ann", visit)
clients _ = none

abbrev sendings : List (ℕ × List ℕ)
sendings =
    (1, 68 ∷ 0 ∷ 1 ∷ 1 ∷ (codes "ann" ++ replicate 61 0) ++ 12 ∷ 0 ∷ [])
    ∷ (1, 5 ∷ 2 ∷ 11 ∷ 0 ∷ 0 ∷ 0 ∷ 0 ∷ 0 ∷ 0 ∷ 0 ∷ [])
    ∷ []

nobody_else : (t : ℕ) → bytes_for (suc (suc t)) sendings ≡ []
nobody_else t = ground arith

all_fit : (t : ℕ) → FitsClient (clients t)
all_fit zero = tt
all_fit (suc zero) = omega arith
all_fit (suc (suc t)) = tt

all_sent : (t : ℕ) → bytes_for t sendings ≡ sent_bytes (client_requests (clients t))
unfolding frame request_packet type_code play first_request on_key select_key handle_answer
    on_char_list_result
all_sent zero = refl
all_sent (suc zero) = refl
all_sent (suc (suc t)) = nobody_else t

few_sent : (t : ℕ) → length (bytes_for t sendings) < 100
few_sent zero = omega arith
few_sent (suc zero) = omega arith
few_sent (suc (suc t)) = omega (arith, ap length (nobody_else t))

clients-IsServed_example :
    IsServed
      (λ read pass. [])
      100
      sendings
      (started_machine town)
      (λ t. client_requests (clients t))
      (λ t. [])
clients-IsServed_example =
    clients-IsServed (λ read pass. []) 100 sendings town clients all_fit all_sent few_sent
