-- ===== src/Party/Joining.antt =====
-- Inviting and joining keep the maps of the parties linked.
use mmorpg_simulator.Common.{
  ℕ, ◌+◌, ◌≤◌, ◌<◌, ◌^◌, ◌≡◌, ◌≢◌, refl, inl, inr, true, ◌||◌, not, some, none, [], ◌∷◌, ◌++◌,
  arith, ◌==◌, leb, length, length-append, contains, contains-append, update, u32, Bool-cases,
  Option-cases,
}
use mmorpg_simulator.Protocol.{max_party}
use mmorpg_simulator.Protocol.Requests.{PartyInvite, PartyAccept}
use mmorpg_simulator.World.Data.{World, Party}
use mmorpg_simulator.World.Sessions.{has_session}
use mmorpg_simulator.Party.{
  send_party_update, on_party_accept, on_party_invite, join_party, with_party, party_of, members_of,
  party_id, invite_from, or_empty, looked_up,
}
use mmorpg_simulator.Party.Links.{Parties, Members, AreLinked, IsLinked}

invite_from-IsLinked :
    (s : ℕ) (req : PartyInvite) (w : World) → IsLinked w → IsLinked (invite_from s req w)
unfolding invite_from
invite_from-IsLinked s req w h = ground arith

-- A player's party is there, so operator[] makes none.
pub looked_up-same : (s : ℕ) (w : World) → IsLinked w → looked_up w (w.player_party s) ≡ w.parties
looked_up-same s w h = elim (Option-cases (w.player_party s)) [
  | inl alone ↦ rw alone refl
  | inr (pid, e) ↦ elim (Option-cases (w.parties pid)) [
    | inl missing ↦ absurd (ground (arith, h.linked s pid))
    | inr (party, here) ↦ rw (e, here, or_empty) refl
  ]
]

-- Inviting, whoever is named and whatever the answer, keeps the maps linked.
pub invite-IsLinked :
    (s : ℕ) (req : PartyInvite) (w : World) → IsLinked w → IsLinked (on_party_invite s req w)
unfolding on_party_invite
invite-IsLinked s req w h =
    rw (looked_up-same s w h) (ground (arith, invite_from-IsLinked s req w h))

-- The state in which a player joins: his party may still have its first member only.
record Joinable (next : ℕ) (parties : Parties) (of : Members) (pid : ℕ) : Type 0 where
  linked : (s p : ℕ) → of s ≡ some p → contains (members_of (parties p)) s ≡ true
  sized :
      (p : ℕ) (party : Party)
      → p ≢ pid
      → parties p ≡ some party
      → (2 ≤ length party.members) × (length party.members ≤ max_party)
  fresh : (p : ℕ) (party : Party) → parties p ≡ some party → p < next
  given : pid < next
  some_one : 1 ≤ length (members_of (parties pid))
  room : length (members_of (parties pid)) ≤ max_party

module _ (s pid : ℕ) (w : World) (j : Joinable w.next_party_id w.parties w.player_party pid) where
  grown-AreLinked :
      length (members_of (w.parties pid)) < max_party
      → AreLinked w.next_party_id
          (update w.parties pid (
            some (record {
              id = party_id (w.parties pid);
              members = members_of (w.parties pid) ++ s ∷ [];
            })))
          (update w.player_party s (some pid))
  grown-AreLinked lt = record {
    linked = λ t p e.
        ground (arith, j.linked t p, contains-append (members_of (w.parties pid)) (s ∷ []) t);
    sized = λ p q e.
        ground
          (arith, j.sized p q, j.some_one, length-append (members_of (w.parties pid)) (s ∷ []));
    fresh = λ p q e. ground (arith, j.fresh p q, j.given);
  }

  full-AreLinked :
      max_party ≤ length (members_of (w.parties pid))
      → AreLinked w.next_party_id
          (update w.parties pid
            (some (record { id = party_id (w.parties pid); members = members_of (w.parties pid) })))
          w.player_party
  full-AreLinked lt = record {
    linked = λ t p e. ground (arith, j.linked t p);
    sized = λ p q e. ground (arith, j.sized p q, j.room);
    fresh = λ p q e. ground (arith, j.fresh p q, j.given);
  }

  join-IsLinked : IsLinked (join_party s pid w)
  unfolding join_party send_party_update
  join-IsLinked = elim (Bool-cases (leb max_party (length (members_of (w.parties pid))))) [
    | inl full ↦ rw full (full-AreLinked (ground arith))
    | inr space ↦ rw space (grown-AreLinked (ground arith))
  ]

-- No party has the next number yet.
next_unused : (w : World) → IsLinked w → w.parties w.next_party_id ≡ none
next_unused w h = elim (Option-cases (w.parties w.next_party_id)) [
  | inl unused ↦ unused
  | inr (party, e) ↦ absurd (omega (arith, h.fresh w.next_party_id party e))
]

new_party-Joinable :
    (inviter : ℕ) (w : World)
    → IsLinked w
    → w.next_party_id + 1 < 2 ^ 32
    → Joinable
        (u32 (w.next_party_id + 1))
        (update w.parties w.next_party_id
          (some (record { id = w.next_party_id; members = inviter ∷ [] })))
        (update w.player_party inviter (some w.next_party_id))
        w.next_party_id
new_party-Joinable inviter w h small =
    let id : ℕ = w.next_party_id in
    record {
      linked = λ t p e. ground (arith, h.linked t p, next_unused w h);
      sized = λ p q ne e. ground (arith, h.sized p q);
      fresh = λ p q e. ground (arith, h.fresh p q);
      given = omega arith;
      some_one = ground arith;
      room = ground arith;
    }

with_party-Joinable :
    (inviter : ℕ) (w : World)
    → IsLinked w
    → w.next_party_id + 1 < 2 ^ 32
    → let w' = with_party inviter w in
      Joinable w'.next_party_id w'.parties w'.player_party (party_of inviter w)
unfolding with_party party_of
with_party-Joinable inviter w h small = elim (Option-cases (w.player_party inviter)) [
  | inl alone ↦
      rw (alone, with_party, party_of, next_unused w h) (new_party-Joinable inviter w h small)
  | inr (pid, e) ↦ elim (Option-cases (w.parties pid)) [
    | inl missing ↦ absurd (ground (arith, h.linked inviter pid))
    | inr (party, here) ↦
        rw (e, with_party, party_of)
          (record {
            linked = h.linked;
            sized = λ p q ne e'. h.sized p q e';
            fresh = h.fresh;
            given = h.fresh pid party here;
            some_one = ground (arith, h.sized pid party);
            room = ground (arith, h.sized pid party);
          })
  ]
]

-- Answering an invitation, whatever the answer, keeps the maps linked, as long as the counter of
-- parties does not wrap.
pub accept-IsLinked :
    (s : ℕ) (req : PartyAccept) (w : World)
    → IsLinked w
    → w.next_party_id + 1 < 2 ^ 32
    → IsLinked (on_party_accept s req w)
unfolding on_party_accept
accept-IsLinked s req w h small = elim (Option-cases (w.pending_invites s)) [
  | inl nothing ↦ rw (nothing, on_party_accept) h
  | inr (inviter, e) ↦
      let w1 : World = record w { pending_invites = update w.pending_invites s none } in
      elim (Bool-cases (req.accept == 0 || not (has_session w1 inviter))) [
        | inl declined ↦ rw (e, declined, on_party_accept) h
        | inr joins ↦
            rw (e, joins, on_party_accept)
              (join-IsLinked s (party_of inviter w1) (with_party inviter w1)
                (with_party-Joinable inviter w1 h small))
      ]
]

-- A player of one party who accepts an invitation of a member of another party with room, while the
-- maps are linked and the inviter has a session, is listed in both parties and belongs to the
-- second.
pub accept_joins_second :
    (s : ℕ) (req : PartyAccept) (w : World) (old inviter pid : ℕ)
    → IsLinked w
    → w.player_party s ≡ some old
    → w.pending_invites s ≡ some inviter
    → req.accept ≢ 0
    → has_session w inviter ≡ true
    → w.player_party inviter ≡ some pid
    → old ≢ pid
    → length (members_of (w.parties pid)) < max_party
    → let w' = on_party_accept s req w in
      (w'.player_party s ≡ some pid)
      × (contains (members_of (w'.parties pid)) s ≡ true)
      × (contains (members_of (w'.parties old)) s ≡ true)
unfolding on_party_accept join_party with_party party_of send_party_update
accept_joins_second s req w old inviter pid h was pending yes_ there party other room =
    ground (arith, h.linked s old, contains-append (members_of (w.parties pid)) (s ∷ []) s)
