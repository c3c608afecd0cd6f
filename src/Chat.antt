-- ===== src/Chat.antt =====
-- World, whisper and party chat (GameServer/main.cpp: OnChat).
pub mod Delivery
use mmorpg_simulator.Common.{
  ℕ, Option, none, some, List, [], ◌∷◌, ◌==◌, if◌then◌else◌, Bool, true, false, take, codes,
}
use mmorpg_simulator.Protocol.{Packet, chat, error}
use mmorpg_simulator.Protocol.Payloads.{ChatLine}
use mmorpg_simulator.Protocol.Requests.{Chat}
use mmorpg_simulator.World.Data.{World, Session, Player}
use mmorpg_simulator.World.Sessions.{player, send, post, broadcast}
use mmorpg_simulator.Party.{looked_up, members_for, post_members, same_name}

-- The line that goes out.
abbrev pub chat_line : Player → Chat → Packet
chat_line p req =
    chat (record {
      channel = req.channel;
      sender_name = take 19 p.name;
      message = take 127 req.message;
    })

abbrev chat_error : ℕ → World → World
chat_error s w = send s (error (record { error_code = 2; message = codes "Player not found" })) w

-- The loop of ForEach: a session of that name gets the line, and the sender gets it with each.
unfoldable pub whisper_each :
    (ℕ → Session) → Chat → ℕ → Packet → List ℕ → List (ℕ × Packet) → List (ℕ × Packet)
whisper_each heap req s k [] sent = sent
whisper_each heap req s k (i ∷ is) sent = whisper_each heap req s k is (
    if same_name (heap i).player.name req.target_name
    then post heap s k (post heap i k sent)
    else sent)

-- `found`
unfoldable pub is_anybody : (ℕ → Session) → Chat → List ℕ → Bool
is_anybody heap req [] = false
is_anybody heap req (i ∷ is) =
    if same_name (heap i).player.name req.target_name then true else is_anybody heap req is

unfoldable pub whisper : ℕ → Chat → Packet → World → World
whisper s req k w =
    let w1 = record w { sent = whisper_each w.heap req s k w.sessions w.sent } in
    if is_anybody w.heap req w.sessions then w1 else chat_error s w1

-- To every member that has a session.
unfoldable pub party_chat : ℕ → Packet → World → World
party_chat s k w = elim (w.player_party s) [
  | none ↦ send s (error (record { error_code = 2; message = codes "Not in a party" })) w
  | some pid ↦ record w {
    parties = looked_up w (some pid);
    sent = post_members w.heap w.sessions (members_for w (some pid)) k w.sent;
  }
]

unfoldable pub on_chat : ℕ → Chat → World → World
unfolding whisper party_chat broadcast
on_chat s req w =
    let k = chat_line (player w s) req in
    if req.channel == 0
    then broadcast k w
    else if req.channel == 1
    then whisper s req k w
    else if req.channel == 2
    then party_chat s k w
    else w
