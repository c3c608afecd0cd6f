-- ===== src/Tests/Serving.antt =====
-- Events, logins and loading.
use mmorpg_simulator.Common.{
  ◌≡◌, refl, List, [], ◌∷◌, arith, codes, if◌then◌else◌, ◌==◌, ◌||◌, false,
}
use mmorpg_simulator.Protocol.Requests
use mmorpg_simulator.World.Data.{World, Cell, num}
use mmorpg_simulator.World.Sessions.{player}
use mmorpg_simulator.Party.Links.{IsLinked}
use mmorpg_simulator.Combat.Monsters.{AreLive}
use mmorpg_simulator.Quest.{available}
use mmorpg_simulator.Quest.Lifecycle.{quest_state}
use mmorpg_simulator.Entry.{on_char_select, load_quest_progress}
use mmorpg_simulator.Entry.Loading.{last_row, load-last_row}
use mmorpg_simulator.Entry.Select.{IsEntered, select-IsEntered}
use mmorpg_simulator.Server.{Event, accepted, packet, read_failed, write_failed, run, step}
use mmorpg_simulator.Server.Packets.{party_invite, party_accept, attack, char_select, shop_buy}
use mmorpg_simulator.Server.Linked.{run-IsLinked}
use mmorpg_simulator.Server.Alive.{run-AreLive}
use mmorpg_simulator.Server.Gone.{IsGone, lost-IsGone}
use mmorpg_simulator.Tests.Town.{town, ann}
use mmorpg_simulator.Tests.Partying.{town-IsLinked}

-- Ann invites Bob, who accepts; she kills a monster, and her connection is lost.
abbrev evening : List Event
evening =
    accepted
    ∷ packet 1 (party_invite (record { target_name = codes "bob" }))
    ∷ packet 2 (party_accept (record { accept = 1 }))
    ∷ packet 1 (attack (record { target_uid = 1 }))
    ∷ read_failed 1
    ∷ []

run-IsLinked_example : IsLinked (run evening town)
run-IsLinked_example = run-IsLinked evening town town-IsLinked (omega arith)

run-AreLive_example : AreLive (run evening town)
run-AreLive_example = run-AreLive evening town (ground arith) (omega arith)

-- Bob selects a character and buys a sword.
abbrev morning : List Event
morning =
    packet 2 (char_select (record { char_uid = 12 }))
    ∷ packet 2 (shop_buy (record { item_id = 1 }))
    ∷ write_failed 2
    ∷ []

lost-IsGone_example : IsGone 2 (step (read_failed 2) town)
lost-IsGone_example = lost-IsGone 2 town

abbrev visitor : Requests.Login
visitor = record { account_id = codes "test001"; password = [] }

-- The one row of every answer.
abbrev answer : List (List Cell)
answer = (num 77 ∷ []) ∷ []

load-last_row_example : quest_state 1 77 (load_quest_progress 1 town) ≡ last_row answer 77 available
load-last_row_example = load-last_row 1 77 town

select-IsEntered_example :
    IsEntered 12 (num 77 ∷ []) ann (player (on_char_select 1 (record { char_uid = 12 }) town) 1)
select-IsEntered_example = select-IsEntered 1 (record { char_uid = 12 }) town (num 77 ∷ []) [] refl

abbrev hello : Requests.Chat
hello = record { channel = 1; target_name = codes "bob"; message = codes "hi" }

-- The town, in which no session but those of Ann and Bob is connected.
abbrev quiet_town : World
quiet_town = record town {
  heap = λ i. if i == 1 || i == 2 then town.heap i else record (town.heap i) { connected = false };
}
