-- ===== src/World/Sessions.antt =====
-- Session::Send, SessionManager and the access to a session's player.
use mmorpg_simulator.Common.{
  ℕ, Bool, false, not, ◌&&◌, List, [], ◌∷◌, ◌==◌, if◌then◌else◌, update, contains, remove, ltb,
}
use mmorpg_simulator.Protocol.{Packet}
use mmorpg_simulator.World.Data.{World, Session, Player, Inventory}

-- `session->GetPlayer()`
abbrev pub player : World → ℕ → Player
player w s = (w.heap s).player

abbrev pub with_player : Session → Player → Session
with_player o p = record o { player = p }

abbrev pub set_player : ℕ → Player → World → World
set_player s p w = record w { heap = update w.heap s (with_player (w.heap s) p) }

-- A packet leaves only while the session is connected.
abbrev pub post : (ℕ → Session) → ℕ → Packet → List (ℕ × Packet) → List (ℕ × Packet)
post heap s k sent = if (heap s).connected then (s, k) ∷ sent else sent

abbrev pub send : ℕ → Packet → World → World
send s k w = record w { sent = post w.heap s k w.sent }

abbrev pub set_inventory : ℕ → Inventory → World → World
set_inventory s v w = record w { inventories = update w.inventories s v }

-- The loops of Broadcast and BroadcastExcept, which differ in whom they skip.
unfoldable pub post_each :
    (ℕ → Session) → (ℕ → Bool) → List ℕ → Packet → List (ℕ × Packet) → List (ℕ × Packet)
post_each heap skip [] k sent = sent
post_each heap skip (i ∷ is) k sent =
    post_each heap skip is k
      (if not (skip i) && (heap i).player.logged_in then post heap i k sent else sent)

unfoldable pub broadcast : Packet → World → World
broadcast k w = record w { sent = post_each w.heap (λ _. false) w.sessions k w.sent }

unfoldable pub broadcast_except : ℕ → Packet → World → World
broadcast_except e k w = record w { sent = post_each w.heap (λ i. i == e) w.sessions k w.sent }

-- `GetSession`: whether the manager holds the session.
abbrev pub has_session : World → ℕ → Bool
has_session w s = contains w.sessions s

-- std::map keeps its keys in order, each once.
unfoldable pub insert_key : ℕ → List ℕ → List ℕ
insert_key k [] = k ∷ []
insert_key k (j ∷ js) =
    if ltb k j then k ∷ j ∷ js else if k == j then j ∷ js else j ∷ insert_key k js

unfoldable pub add_session : ℕ → Session → World → World
unfolding insert_key
add_session s o w = record w { heap = update w.heap s o; sessions = insert_key s w.sessions }

unfoldable pub remove_session : ℕ → World → World
remove_session s w = record w { sessions = remove s w.sessions }
