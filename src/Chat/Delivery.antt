-- ===== src/Chat/Delivery.antt =====
-- Who gets a line of chat.
use mmorpg_simulator.Common.{ℕ, suc, ◌&&◌, List, [], ◌∷◌, ◌==◌, if◌then◌else◌}
use mmorpg_simulator.Protocol.{Packet}
use mmorpg_simulator.Protocol.Requests.{Chat}
use mmorpg_simulator.World.Data.{World, Session}
use mmorpg_simulator.World.Sessions.{player}
use mmorpg_simulator.Party.{same_name}

-- How many packets were sent to a session.
pub sent_to : ℕ → List (ℕ × Packet) → ℕ
sent_to t [] = 0
sent_to t ((i, k) ∷ sent) = if i == t then suc (sent_to t sent) else sent_to t sent

-- How many sessions bear a name, and how often one of them is the session `t`.
pub bearers : (ℕ → Session) → Chat → List ℕ → ℕ
bearers heap req [] = 0
bearers heap req (i ∷ is) =
    if same_name (heap i).player.name req.target_name
    then suc (bearers heap req is)
    else bearers heap req is

pub bears : (ℕ → Session) → Chat → ℕ → List ℕ → ℕ
bears heap req t [] = 0
bears heap req t (i ∷ is) =
    if same_name (heap i).player.name req.target_name && (i == t)
    then suc (bears heap req t is)
    else bears heap req t is
