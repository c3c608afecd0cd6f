-- ===== src/Tests/Partying.antt =====
-- Parties.
use mmorpg_simulator.Common.{
  ℕ, ◌≡◌, refl, true, Option, none, some, [], ◌∷◌, arith, update, codes, contains,
}
use mmorpg_simulator.World.Data.{World, Party}
use mmorpg_simulator.Party.{on_party_invite, on_party_accept, members_of}
use mmorpg_simulator.Party.Links.{IsLinked}
use mmorpg_simulator.Party.Joining.{accept_joins_second}
use mmorpg_simulator.Tests.Town.{town}

pub town-IsLinked : IsLinked town
town-IsLinked = record { linked = λ s p e. cc; sized = λ p q e. cc; fresh = λ p q e. cc }

abbrev invited : World
invited = on_party_invite 1 (record { target_name = codes "bob" }) town

-- Ann, who is player 1, has invited player 2.
abbrev waiting : World
waiting = record town { pending_invites = update town.pending_invites 2 (some 1) }

-- Player 2 is in the party of 3 when the invitation of 1, who has one with 4, is answered.
abbrev pair : ℕ → ℕ → ℕ → Option Party
pair id a b = some (record { id = id; members = a ∷ b ∷ [] })

abbrev two_parties : World
two_parties = record waiting {
  next_party_id = 3;
  parties = update (update (λ _. none) 1 (pair 1 1 4)) 2 (pair 2 2 3);
  player_party =
      update (update (update (update (λ _. none) 1 (some 1)) 4 (some 1)) 2 (some 2)) 3 (some 2);
}

two_parties-IsLinked : IsLinked two_parties
two_parties-IsLinked = record {
  linked = λ s p e. ground arith;
  sized = λ p q e. ground arith;
  fresh = λ p q e. ground arith;
}

accept_joins_second_example :
    let w' = on_party_accept 2 (record { accept = 1 }) two_parties in
    (w'.player_party 2 ≡ some 1)
    × (contains (members_of (w'.parties 1)) 2 ≡ true)
    × (contains (members_of (w'.parties 2)) 2 ≡ true)
accept_joins_second_example =
    accept_joins_second 2 (record { accept = 1 }) two_parties 2 1 1 two_parties-IsLinked refl refl
      (λ e. omega arith) refl refl (λ e. omega arith) (omega arith)
