-- ===== src/Party.antt =====
-- Parties (GameServer/main.cpp: SendPartyUpdate, RemoveFromParty, OnPartyInvite, OnPartyAccept,
-- OnPartyLeave).
pub mod Links
pub mod Joining
use mmorpg_simulator.Common.{
  ℕ, suc, ◌+◌, Bool, true, false, not, ◌||◌, Option, none, some, List, [], ◌∷◌, ◌++◌, ◌==◌, ltb,
  leb, if◌then◌else◌, length, take, contains, remove, map, Text, codes, text_eq, u8, u32, update,
}
use mmorpg_simulator.Common.Int.{pos}
use mmorpg_simulator.Protocol.{Packet, max_party, error, party_invite, party_update, party_leave}
use mmorpg_simulator.Protocol.Payloads.{PartyMember}
use mmorpg_simulator.Protocol.Requests.{PartyInvite, PartyAccept}
use mmorpg_simulator.World.Data.{World, Session, Party}
use mmorpg_simulator.World.Sessions.{player, send, post, has_session}

-- A member without a session leaves his entry zero.
abbrev party_member : (ℕ → Session) → List ℕ → ℕ → PartyMember
party_member heap sessions i =
    let p = (heap i).player in
    if contains sessions i
    then record {
      char_uid = p.char_uid;
      name = take 19 p.name;
      hp = p.hp;
      max_hp = p.max_hp;
      pos_x = p.pos_x;
      pos_y = p.pos_y;
    }
    else record { char_uid = 0; name = []; hp = 0; max_hp = 0; pos_x = pos 0; pos_y = pos 0 }

-- A packet to each member that has a session.
pub post_members : (ℕ → Session) → List ℕ → List ℕ → Packet → List (ℕ × Packet) → List (ℕ × Packet)
post_members heap sessions [] k sent = sent
post_members heap sessions (i ∷ is) k sent =
    post_members heap sessions is k (if contains sessions i then post heap i k sent else sent)

post_update : World → Option Party → List (ℕ × Packet)
unfolding post_members
post_update w none = w.sent
post_update w (some party) =
    post_members w.heap w.sessions party.members
      (party_update (record {
        member_count = u8 (length party.members);
        members = map (party_member w.heap w.sessions) (take max_party party.members);
      }))
      w.sent

unfoldable pub send_party_update : ℕ → World → World
unfolding post_update
send_party_update pid w = record w { sent = post_update w (w.parties pid) }

-- `for (auto mid : members) g_playerParty.erase(mid)`
unfoldable pub erase_each : List ℕ → (ℕ → Option ℕ) → ℕ → Option ℕ
erase_each [] f = f
erase_each (i ∷ is) f = erase_each is (update f i none)

-- The last member left is told that the party is no more.
post_disband : World → List ℕ → List (ℕ × Packet)
post_disband w [] = w.sent
post_disband w (i ∷ is) = if has_session w i then post w.heap i (party_leave 0) w.sent else w.sent

unfoldable pub disband : ℕ → List ℕ → World → World
unfolding post_disband
disband pid members w = record w {
  player_party = erase_each members w.player_party;
  parties = update w.parties pid none;
  sent = post_disband w members;
}

unfoldable pub leave_party : ℕ → ℕ → Party → World → World
unfolding post_members
leave_party s pid party w =
    let members = remove s party.members in
    let w1 = record w {
      player_party = update w.player_party s none;
      parties = update w.parties pid (some (record party { members = members }));
    } in
    let uid : ℕ = if has_session w s then (player w s).char_uid else 0 in
    let w2 = record w1 { sent = post_members w.heap w.sessions members (party_leave uid) w.sent } in
    if leb (length members) 1 then disband pid members w2 else send_party_update pid w2

unfoldable pub remove_from_party : ℕ → World → World
remove_from_party s w = elim (w.player_party s) [
  | none ↦ w
  | some pid ↦ elim (w.parties pid) [
    | none ↦ record w { player_party = update w.player_party s none }
    | some party ↦ leave_party s pid party w
  ]
]

-- strncmp over the twenty bytes of the names.
abbrev pub same_name : Text → Text → Bool
same_name a b = text_eq (take 20 a) (take 20 b)

-- The loop of ForEach that keeps the last session of that name.
unfoldable pub find_named : (ℕ → Session) → Text → List ℕ → Option ℕ → Option ℕ
find_named heap name [] found = found
find_named heap name (i ∷ is) found =
    find_named heap name is (if same_name (heap i).player.name name then some i else found)

abbrev pub party_error : Text → Packet
party_error why = error (record { error_code = 4; message = why })

abbrev pub members_of : Option Party → List ℕ
members_of none = []
members_of (some party) = party.members

-- `g_parties[pid]` for a player's party: operator[] makes an empty one where none is.
abbrev pub or_empty : (ℕ → Option Party) → ℕ → ℕ → Option Party
or_empty parties pid = elim (parties pid) [
  | some party ↦ parties
  | none ↦ update parties pid (some (record { id = 0; members = [] }))
]

abbrev pub looked_up : World → Option ℕ → ℕ → Option Party
looked_up w none = w.parties
looked_up w (some pid) = or_empty w.parties pid

abbrev pub members_for : World → Option ℕ → List ℕ
members_for w none = []
members_for w (some pid) = members_of (w.parties pid)

invite_from : ℕ → PartyInvite → World → World
unfolding find_named
invite_from s req w = elim (find_named w.heap req.target_name w.sessions none) [
  | none ↦ send s (party_error (codes "Player not found")) w
  | some t ↦
      if t == s
      then send s (party_error (codes "Player not found")) w
      else elim (w.player_party t) [
        | some _ ↦ send s (party_error (codes "Already in a party")) w
        | none ↦
            send t (party_invite (take 19 (player w s).name))
              (record w { pending_invites = update w.pending_invites t (some s) })
      ]
]

unfoldable pub on_party_invite : ℕ → PartyInvite → World → World
unfolding invite_from
on_party_invite s req w =
    let w1 = record w { parties = looked_up w (w.player_party s) } in
    if leb max_party (length (members_for w (w.player_party s)))
    then send s (party_error (codes "Party is full")) w1
    else invite_from s req w1

-- The inviter's party, which is made if he has none.
unfoldable pub party_of : ℕ → World → ℕ
party_of inviter w = elim (w.player_party inviter) [ some pid ↦ pid | none ↦ w.next_party_id ]

unfoldable pub with_party : ℕ → World → World
with_party inviter w = elim (w.player_party inviter) [
  | some pid ↦ w
  | none ↦
      let pid = w.next_party_id in
      record w {
        next_party_id = u32 (pid + 1);
        parties =
            update w.parties pid
              (some (record { id = pid; members = members_of (w.parties pid) ++ inviter ∷ [] }));
        player_party = update w.player_party inviter (some pid);
      }
]

abbrev party_id : Option Party → ℕ
party_id none = 0
party_id (some party) = party.id

-- The invited player joins, unless the party is full.
unfoldable pub join_party : ℕ → ℕ → World → World
join_party s pid w =
    let members = members_of (w.parties pid) in
    let id = party_id (w.parties pid) in
    if leb max_party (length members)
    then record w { parties = update w.parties pid (some (record { id = id; members = members })) }
    else send_party_update pid (record w {
      parties = update w.parties pid (some (record { id = id; members = members ++ s ∷ [] }));
      player_party = update w.player_party s (some pid);
    })

unfoldable pub on_party_accept : ℕ → PartyAccept → World → World
on_party_accept s req w = elim (w.pending_invites s) [
  | none ↦ w
  | some inviter ↦
      let w1 = record w { pending_invites = update w.pending_invites s none } in
      if req.accept == 0 || not (has_session w1 inviter)
      then w1
      else join_party s (party_of inviter w1) (with_party inviter w1)
]

unfoldable pub on_party_leave : ℕ → World → World
on_party_leave = remove_from_party
