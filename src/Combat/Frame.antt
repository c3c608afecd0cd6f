-- ===== src/Combat/Frame.antt =====
-- What the rewards and the drop of a kill leave alone.
use mmorpg_simulator.Common.{ℕ, ◌≡◌, inl, inr, List, [], ◌∷◌, arith, Bool-cases, Option-cases, some}
use mmorpg_simulator.World.Data.{World, Npc}
use mmorpg_simulator.World.Sessions.{has_session}
use mmorpg_simulator.World.Quiet.{IsQuiet}
use mmorpg_simulator.Item.{rolled, roll_drop}
use mmorpg_simulator.Item.Frame.{give_item-IsQuiet}
use mmorpg_simulator.Party.{looked_up, members_of}
use mmorpg_simulator.Combat.{share_one, share_each, share_reward, drop_item}

share_one-IsQuiet : (s exp gold m : ℕ) (w : World) → IsQuiet w (share_one s exp gold m w)
unfolding share_one
share_one-IsQuiet s exp gold m w = ground arith

share_each-IsQuiet :
    (s exp gold : ℕ) (ms : List ℕ) (w : World) → IsQuiet w (share_each s exp gold ms w)
unfolding share_each
share_each-IsQuiet s exp gold [] w = ground arith
share_each-IsQuiet s exp gold (m ∷ ms) w = elim (Bool-cases (has_session w m)) [
  | inl here ↦
      rw (here, share_each)
        (ground (
          arith,
          share_each-IsQuiet s exp gold ms (share_one s exp gold m w),
          share_one-IsQuiet s exp gold m w,
        ))
  | inr gone ↦ rw (gone, share_each) (share_each-IsQuiet s exp gold ms w)
]

-- The state with the entry that operator[] makes where a player's party is missing.
abbrev pub opened : ℕ → World → World
opened s w = record w { parties = looked_up w (w.player_party s) }

pub share_reward-IsQuiet : (s : ℕ) (n : Npc) (w : World) → IsQuiet (opened s w) (share_reward s n w)
unfolding share_reward
share_reward-IsQuiet s n w = elim (Option-cases (w.player_party s)) [
  | inl alone ↦ rw (alone, share_reward) (ground arith)
  | inr (pid, e) ↦
      rw (e, share_reward)
        (share_each-IsQuiet s _ _ (members_of (w.parties pid))
          (record w { parties = looked_up w (some pid) }))
]

pub drop_item-IsQuiet : (s : ℕ) (w : World) → IsQuiet w (drop_item s w)
unfolding drop_item
drop_item-IsQuiet s w = ground (arith, give_item-IsQuiet s (roll_drop w) (rolled w))

-- The monsters and their numbers are as they were.
abbrev pub SameNpcs : World → World → Type 0
SameNpcs w w' = (w'.npcs ≡ w.npcs) × (w'.next_npc_uid ≡ w.next_npc_uid)

pub share_reward-SameNpcs : (s : ℕ) (n : Npc) (w : World) → SameNpcs w (share_reward s n w)
share_reward-SameNpcs s n w =
    let q : IsQuiet (opened s w) (share_reward s n w) = share_reward-IsQuiet s n w in
    (q.npcs, q.next_npc_uid)

pub drop_item-SameNpcs : (s : ℕ) (w : World) → SameNpcs w (drop_item s w)
drop_item-SameNpcs s w =
    let q : IsQuiet w (drop_item s w) = drop_item-IsQuiet s w in (q.npcs, q.next_npc_uid)
