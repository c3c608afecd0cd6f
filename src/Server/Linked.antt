-- ===== src/Server/Linked.antt =====
-- The parties stay linked through all events.
use mmorpg_simulator.Common.{
  ℕ, ◌+◌, ◌≤◌, ◌<◌, ◌^◌, ◌≡◌, some, sym, ap, ◌∙◌, inl, inr, Option-cases, List, [], ◌∷◌, arith,
  length,
}
use mmorpg_simulator.Protocol.{Packet}
use mmorpg_simulator.Protocol.Requests
use mmorpg_simulator.World.Data.{World}
use mmorpg_simulator.World.Quiet.{IsQuiet}
use mmorpg_simulator.World.Sessions.{add_session, remove_session, broadcast_except}
use mmorpg_simulator.Party.{
  on_party_accept, on_party_invite, on_party_leave, remove_from_party, leave_party, disband,
  join_party, with_party, send_party_update, looked_up,
}
use mmorpg_simulator.Party.Links.{IsLinked, remove-IsLinked}
use mmorpg_simulator.Party.Joining.{accept-IsLinked, invite-IsLinked, looked_up-same}
use mmorpg_simulator.Combat.Parties.{SameParties, SameParties-IsLinked, attack-SameParties}
use mmorpg_simulator.Chat.{on_chat, whisper, party_chat}
use mmorpg_simulator.Server.{
  Event, accepted, packet, read_failed, write_failed, step, run, handle_packet, on_disconnect,
  on_player_disconnect, on_accept, cut,
}
use mmorpg_simulator.Server.Packets.{Request}
use mmorpg_simulator.Server.Quiet.{
  Loud, attacks, chats, invites, accepts, leaves, loud_handler, handle-cases,
}

-- What one event does to the maps: they stay linked, and at most one number of a party is given out.
record IsLinkedAfter (w w' : World) : Type 0 where
  linked : IsLinked w'
  counted : w'.next_party_id ≤ w.next_party_id + 1

quiet : (w w' : World) → IsLinked w → IsQuiet w w' → IsLinkedAfter w w'
quiet w w' h q = record {
  linked = rw (q.parties, q.player_party, q.next_party_id) h;
  counted = omega (arith, q.next_party_id);
}

same : (w w' : World) → IsLinked w → SameParties w w' → IsLinkedAfter w w'
same w w' h q = record {
  linked = SameParties-IsLinked w w' q h;
  counted = omega (arith, q.next_party_id);
}

party_chat-SameParties :
    (s : ℕ) (k : Packet) (w : World) → IsLinked w → SameParties w (party_chat s k w)
unfolding party_chat
party_chat-SameParties s k w h = elim (Option-cases (w.player_party s)) [
  | inl alone ↦ rw (alone, party_chat) (ground arith)
  | inr (pid, e) ↦
      rw (e, party_chat)
        (let here : looked_up w (some pid) ≡ w.parties =
            ap (looked_up w) (sym e) ∙ looked_up-same s w h in
          ground arith)
]

chat-SameParties :
    (s : ℕ) (req : Requests.Chat) (w : World) → IsLinked w → SameParties w (on_chat s req w)
unfolding on_chat whisper
chat-SameParties s req w h = grind (arith, party_chat-SameParties)

accept-counted :
    (s : ℕ) (req : Requests.PartyAccept) (w : World)
    → (on_party_accept s req w).next_party_id ≤ w.next_party_id + 1
unfolding on_party_accept join_party with_party send_party_update
accept-counted s req w = ground arith

invite-counted :
    (s : ℕ) (req : Requests.PartyInvite) (w : World)
    → (on_party_invite s req w).next_party_id ≡ w.next_party_id
unfolding on_party_invite
invite-counted s req w = ground arith

remove-counted : (s : ℕ) (w : World) → (remove_from_party s w).next_party_id ≡ w.next_party_id
unfolding remove_from_party leave_party disband send_party_update
remove-counted s w = ground arith

loud-IsLinkedAfter :
    (s : ℕ) (l : Loud) (w : World)
    → IsLinked w
    → w.next_party_id + 1 < 2 ^ 32
    → IsLinkedAfter w (loud_handler s l w)
unfolding on_party_leave
loud-IsLinkedAfter s (attacks req) w h small =
    same w (loud_handler s (attacks req) w) h (attack-SameParties s req w h)
loud-IsLinkedAfter s (chats req) w h small =
    same w (loud_handler s (chats req) w) h (chat-SameParties s req w h)
loud-IsLinkedAfter s (invites req) w h small = record {
  linked = invite-IsLinked s req w h;
  counted = omega (arith, invite-counted s req w);
}
loud-IsLinkedAfter s (accepts req) w h small = record {
  linked = accept-IsLinked s req w h small;
  counted = accept-counted s req w;
}
loud-IsLinkedAfter s leaves w h small = record {
  linked = remove-IsLinked s w h;
  counted = omega (arith, remove-counted s w);
}

handle-IsLinkedAfter :
    (s : ℕ) (req : Request) (w : World)
    → IsLinked w
    → w.next_party_id + 1 < 2 ^ 32
    → IsLinkedAfter w (handle_packet s req w)
handle-IsLinkedAfter s req w h small = elim (handle-cases s req w) [
  | inl q ↦ quiet w (handle_packet s req w) h q
  | inr (l, e) ↦ rw e (loud-IsLinkedAfter s l w h small)
]

disconnect-SameParties :
    (s : ℕ) (w : World) → SameParties (remove_from_party s w) (on_disconnect s w)
unfolding on_disconnect on_player_disconnect remove_session broadcast_except
disconnect-SameParties s w = ground arith

cut-IsLinkedAfter : (s : ℕ) (w : World) → IsLinked w → IsLinkedAfter w (on_disconnect s (cut s w))
cut-IsLinkedAfter s w h =
    let w1 : World = remove_from_party s (cut s w) in
    let q : SameParties w1 (on_disconnect s (cut s w)) = disconnect-SameParties s (cut s w) in
    record {
      linked =
          SameParties-IsLinked w1 (on_disconnect s (cut s w)) q (remove-IsLinked s (cut s w) h);
      counted = omega (arith, q.next_party_id, remove-counted s (cut s w));
    }

accept-SameParties : (w : World) → SameParties w (on_accept w)
unfolding on_accept add_session
accept-SameParties w = ground arith

step-IsLinkedAfter :
    (e : Event) (w : World) → IsLinked w → w.next_party_id + 1 < 2 ^ 32 → IsLinkedAfter w (step e w)
unfolding step
step-IsLinkedAfter accepted w h small = same w (on_accept w) h (accept-SameParties w)
step-IsLinkedAfter (packet s req) w h small = handle-IsLinkedAfter s req w h small
step-IsLinkedAfter (read_failed s) w h small = cut-IsLinkedAfter s w h
step-IsLinkedAfter (write_failed s) w h small = same w (cut s w) h (ground arith)

-- Whatever happens on the server, connections, packets of any kind, and failures of reading and of
-- writing, the maps of the parties stay linked, as long as the counter of parties does not wrap.
pub run-IsLinked :
    (es : List Event) (w : World)
    → IsLinked w
    → w.next_party_id + length es < 2 ^ 32
    → IsLinked (run es w)
unfolding run
run-IsLinked [] w h small = h
run-IsLinked (e ∷ es) w h small =
    let a : IsLinkedAfter w (step e w) = step-IsLinkedAfter e w h (omega arith) in
    run-IsLinked es (step e w) a.linked (omega (arith, a.counted))
