-- ===== src/Server/Gone.antt =====
-- What a lost connection leaves behind.
use mmorpg_simulator.Common.{
  ℕ, ◌≡◌, false, none, List, [], ◌∷◌, arith, Option, contains-remove_self, update, update_self,
  remove,
}
use mmorpg_simulator.World.Data.{World, Party, empty_inventory}
use mmorpg_simulator.World.Sessions.{has_session, remove_session, broadcast_except}
use mmorpg_simulator.Party.{remove_from_party, leave_party, disband, erase_each, send_party_update}
use mmorpg_simulator.Server.{step, read_failed, on_disconnect, on_player_disconnect}

-- The server knows nothing of the session any more.
pub record IsGone (s : ℕ) (w : World) : Type 0 where
  pub session : has_session w s ≡ false
  pub party : w.player_party s ≡ none
  pub invite : w.pending_invites s ≡ none
  pub inventory : w.inventories s ≡ empty_inventory
  pub quests : w.quest_progress s ≡ []

erase_each-none : (is : List ℕ) (f : ℕ → Option ℕ) (s : ℕ) → f s ≡ none → erase_each is f s ≡ none
unfolding erase_each
erase_each-none [] f s h = h
erase_each-none (i ∷ is) f s h = erase_each-none is (update f i none) s (ground arith)

leave-none :
    (s pid : ℕ) (party : Party) (w : World) → (leave_party s pid party w).player_party s ≡ none
unfolding leave_party disband send_party_update
leave-none s pid party w = ground (
  arith,
  erase_each-none (remove s party.members) (update w.player_party s none) s
      (update_self w.player_party s none),
)

remove-none : (s : ℕ) (w : World) → (remove_from_party s w).player_party s ≡ none
unfolding remove_from_party
remove-none s w = grind (arith, leave-none)

-- After a session's connection is lost, the manager does not hold it, and it has no party, no
-- invitation, no items and no quests.
pub lost-IsGone : (s : ℕ) (w : World) → IsGone s (step (read_failed s) w)
unfolding step on_disconnect on_player_disconnect remove_session broadcast_except
lost-IsGone s w = grind (arith, remove-none, contains-remove_self)
