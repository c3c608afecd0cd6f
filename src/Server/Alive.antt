-- ===== src/Server/Alive.antt =====
-- The monsters stay alive through all events.
use mmorpg_simulator.Common.{ℕ, ◌+◌, ◌≤◌, ◌<◌, ◌^◌, ◌≡◌, inl, inr, List, [], ◌∷◌, arith, length}
use mmorpg_simulator.Protocol.Requests
use mmorpg_simulator.World.Data.{World, Npc}
use mmorpg_simulator.World.Sessions.{add_session, remove_session, broadcast_except, broadcast}
use mmorpg_simulator.Party.{
  on_party_accept, on_party_invite, on_party_leave, remove_from_party, leave_party, disband,
  join_party, with_party, send_party_update,
}
use mmorpg_simulator.Quest.{update_quest_progress}
use mmorpg_simulator.Chat.{on_chat, whisper, party_chat}
use mmorpg_simulator.Combat.{on_attack, hit_npc, kill_npc, bury_npc, respawn_first, spawn_npc}
use mmorpg_simulator.Combat.Frame.{share_reward-IsQuiet, drop_item-IsQuiet, SameNpcs}
use mmorpg_simulator.Combat.Monsters.{AreLive, attack-AreLive}
use mmorpg_simulator.Server.{
  Event, accepted, packet, read_failed, write_failed, step, run, handle_packet, on_disconnect,
  on_player_disconnect, on_accept, cut,
}
use mmorpg_simulator.Server.Quiet.{
  Loud, attacks, chats, invites, accepts, leaves, loud_handler, handle-cases,
}

-- What one event does to the monsters: they are alive, and at most one number is given out.
record AreLiveAfter (w w' : World) : Type 0 where
  live : AreLive w'
  counted : w'.next_npc_uid ≤ w.next_npc_uid + 1

same : (w w' : World) → AreLive w → SameNpcs w w' → AreLiveAfter w w'
same w w' h (p, q) = record { live = rw (p, q) h; counted = omega (arith, q) }

respawn_first-counted : (w : World) → (respawn_first w).next_npc_uid ≤ w.next_npc_uid + 1
unfolding respawn_first spawn_npc
respawn_first-counted w = ground arith

bury_npc-counted :
    (s i : ℕ) (n : Npc) (w : World) → (bury_npc s i n w).next_npc_uid ≡ w.next_npc_uid
unfolding bury_npc broadcast update_quest_progress
bury_npc-counted s i n w = grind (arith, share_reward-IsQuiet, drop_item-IsQuiet)

hit_npc-counted :
    (s i : ℕ) (n : Npc) (w : World) → (hit_npc s i n w).next_npc_uid ≤ w.next_npc_uid + 1
unfolding hit_npc kill_npc
hit_npc-counted s i n w = grind (arith, bury_npc-counted, respawn_first-counted)

attack-counted :
    (s : ℕ) (req : Requests.Attack) (w : World)
    → (on_attack s req w).next_npc_uid ≤ w.next_npc_uid + 1
unfolding on_attack
attack-counted s req w = grind (arith, hit_npc-counted)

remove-SameNpcs : (s : ℕ) (w : World) → SameNpcs w (remove_from_party s w)
unfolding remove_from_party leave_party disband send_party_update
remove-SameNpcs s w = ground arith

loud-AreLiveAfter :
    (s : ℕ) (l : Loud) (w : World)
    → AreLive w
    → w.next_npc_uid + 1 < 2 ^ 64
    → AreLiveAfter w (loud_handler s l w)
unfolding on_chat whisper party_chat on_party_invite on_party_accept join_party with_party
    send_party_update on_party_leave
loud-AreLiveAfter s (attacks req) w h small = record {
  live = attack-AreLive s req w h small;
  counted = attack-counted s req w;
}
loud-AreLiveAfter s (chats req) w h small = same w (on_chat s req w) h (ground arith)
loud-AreLiveAfter s (invites req) w h small = same w (on_party_invite s req w) h (ground arith)
loud-AreLiveAfter s (accepts req) w h small = same w (on_party_accept s req w) h (ground arith)
loud-AreLiveAfter s leaves w h small = same w (remove_from_party s w) h (remove-SameNpcs s w)

cut-SameNpcs : (s : ℕ) (w : World) → SameNpcs w (on_disconnect s (cut s w))
unfolding on_disconnect on_player_disconnect remove_session broadcast_except
cut-SameNpcs s w = ground (arith, remove-SameNpcs s (cut s w))

step-AreLiveAfter :
    (e : Event) (w : World) → AreLive w → w.next_npc_uid + 1 < 2 ^ 64 → AreLiveAfter w (step e w)
unfolding step on_accept add_session
step-AreLiveAfter accepted w h small = same w (on_accept w) h (ground arith)
step-AreLiveAfter (packet s req) w h small = elim (handle-cases s req w) [
  | inl q ↦ same w (handle_packet s req w) h (q.npcs, q.next_npc_uid)
  | inr (l, e) ↦ rw e (loud-AreLiveAfter s l w h small)
]
step-AreLiveAfter (read_failed s) w h small =
    same w (on_disconnect s (cut s w)) h (cut-SameNpcs s w)
step-AreLiveAfter (write_failed s) w h small = same w (cut s w) h (ground arith)

-- Whatever happens on the server, all monsters are alive, on the map, with hp left and with a number
-- that was given out, as long as the counter of numbers does not wrap.
pub run-AreLive :
    (es : List Event) (w : World)
    → AreLive w
    → w.next_npc_uid + length es < 2 ^ 64
    → AreLive (run es w)
unfolding run
run-AreLive [] w h small = h
run-AreLive (e ∷ es) w h small =
    let a : AreLiveAfter w (step e w) = step-AreLiveAfter e w h (omega arith) in
    run-AreLive es (step e w) a.live (omega (arith, a.counted))
