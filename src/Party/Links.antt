-- ===== src/Party/Links.antt =====
-- The two maps of the parties belong together.
use mmorpg_simulator.Common.{
  ℕ, ◌≤◌, ◌<◌, ◌≡◌, ◌≢◌, refl, inl, inr, true, Option, some, none, List, [], ◌∷◌, arith, ◌==◌, leb,
  length, contains, contains-remove_ne, length-remove-le, remove, update, Bool-cases, Option-cases,
}
use mmorpg_simulator.Protocol.{max_party}
use mmorpg_simulator.World.Data.{World, Party}
use mmorpg_simulator.Party.{
  remove_from_party, leave_party, disband, erase_each, send_party_update, members_of,
}

abbrev pub Parties : Type 0
Parties = ℕ → Option Party

abbrev pub Members : Type 0
Members = ℕ → Option ℕ

-- Who has a party is a member of it; a party has from two to four members; its number was given
-- out before.
pub record AreLinked (next : ℕ) (parties : Parties) (of : Members) : Type 0 where
  pub linked : (s pid : ℕ) → of s ≡ some pid → contains (members_of (parties pid)) s ≡ true
  pub sized :
      (pid : ℕ) (party : Party)
      → parties pid ≡ some party
      → (2 ≤ length party.members) × (length party.members ≤ max_party)
  pub fresh : (pid : ℕ) (party : Party) → parties pid ≡ some party → pid < next

abbrev pub IsLinked : World → Type 0
IsLinked w = AreLinked w.next_party_id w.parties w.player_party

erase_each-none : (is : List ℕ) (f : Members) (s : ℕ) → f s ≡ none → erase_each is f s ≡ none
unfolding erase_each
erase_each-none [] f s h = h
erase_each-none (i ∷ is) f s h = erase_each-none is (update f i none) s (ground arith)

erase_each-member :
    (is : List ℕ) (f : Members) (s : ℕ) → contains is s ≡ true → erase_each is f s ≡ none
unfolding erase_each
erase_each-member [] f s h = cc
erase_each-member (i ∷ is) f s h = elim (Bool-cases (i == s)) [
  | inl here ↦ erase_each-none is (update f i none) s (rw here refl)
  | inr later ↦ erase_each-member is (update f i none) s (rw later at h)
]

-- What is not erased was there before.
erase_each-some :
    (is : List ℕ) (f : Members) (s pid : ℕ) → erase_each is f s ≡ some pid → f s ≡ some pid
unfolding erase_each
erase_each-some [] f s pid h = h
erase_each-some (i ∷ is) f s pid h =
    let before : update f i none s ≡ some pid = erase_each-some is (update f i none) s pid h in
    ground arith

-- Removing a player from a party that keeps two members.
shrink-AreLinked :
    (next : ℕ) (parties : Parties) (of : Members) (s pid : ℕ) (party : Party)
    → AreLinked next parties of
    → parties pid ≡ some party
    → 2 ≤ length (remove s party.members)
    → AreLinked next
        (update parties pid (some (record party { members = remove s party.members })))
        (update of s none)
shrink-AreLinked next parties of s pid party h here two = record {
  linked = λ t p e. ground (arith, h.linked t p, contains-remove_ne s t party.members);
  sized = λ p q e. ground (arith, h.sized p q, h.sized pid party, length-remove-le s party.members);
  fresh = λ p q e. ground (arith, h.fresh p q, h.fresh pid party);
}

-- A party that keeps one member is dissolved.
dissolve-AreLinked :
    (next : ℕ) (parties : Parties) (of : Members) (s pid : ℕ) (party : Party)
    → AreLinked next parties of
    → parties pid ≡ some party
    → AreLinked next
        (update
          (update parties pid (some (record party { members = remove s party.members })))
          pid
          none)
        (erase_each (remove s party.members) (update of s none))
dissolve-AreLinked next parties of s pid party h here = record {
  linked = λ t p e.
      let was : update of s none t ≡ some p =
        erase_each-some (remove s party.members) (update of s none) t p e in
      let other : p ≢ pid = λ same. ground (
        arith,
        h.linked t p,
        contains-remove_ne s t party.members,
        erase_each-member (remove s party.members) (update of s none) t,
      ) in
      ground (arith, h.linked t p);
  sized = λ p q e. ground (arith, h.sized p q);
  fresh = λ p q e. ground (arith, h.fresh p q);
}

leave-AreLinked :
    (s pid : ℕ) (party : Party) (w : World)
    → IsLinked w
    → w.parties pid ≡ some party
    → IsLinked (leave_party s pid party w)
unfolding leave_party disband send_party_update
leave-AreLinked s pid party w h here = elim (Bool-cases (leb (length (remove s party.members)) 1)) [
  | inl few ↦
      rw few (dissolve-AreLinked w.next_party_id w.parties w.player_party s pid party h here)
  | inr enough ↦
      rw enough (
        shrink-AreLinked w.next_party_id w.parties w.player_party s pid party h here (ground arith))
]

-- Removing a player from his party keeps the maps linked, whether he has one or not and whether it
-- disbands.
pub remove-IsLinked : (s : ℕ) (w : World) → IsLinked w → IsLinked (remove_from_party s w)
unfolding remove_from_party
remove-IsLinked s w h = elim (Option-cases (w.player_party s)) [
  | inl alone ↦ rw (alone, remove_from_party) h
  | inr (pid, e) ↦ elim (Option-cases (w.parties pid)) [
    | inl missing ↦ absurd (ground (arith, h.linked s pid))
    | inr (party, here) ↦ rw (e, here, remove_from_party) (leave-AreLinked s pid party w h here)
  ]
]
