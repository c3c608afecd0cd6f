-- ===== src/Entry/Select.antt =====
-- What selecting a character sets.
use mmorpg_simulator.Common.{ℕ, ◌≡◌, List, ◌∷◌, arith, true, u16}
use mmorpg_simulator.Protocol.Requests.{CharSelect}
use mmorpg_simulator.World.Data.{World, Player, Cell, ResultSet, ProcCall}
use mmorpg_simulator.World.Sessions.{player}
use mmorpg_simulator.World.Database.{column, rows, reply}
use mmorpg_simulator.Combat.{send_all_npcs}
use mmorpg_simulator.Entry.{
  on_char_select, selected, enter_game, welcome, load_inventory, load_quest_progress,
  send_other_players, entered,
}

-- The player of the session before and after the character of row `r` is selected.
pub record IsEntered (uid : ℕ) (r : List Cell) (p q : Player) : Type 0 where
  pub number : q.char_uid ≡ uid
  pub in_game : q.logged_in ≡ true
  pub level : q.level ≡ u16 (column 0 r)
  pub exp : q.exp ≡ column 1 r
  pub gold : q.gold ≡ column 2 r
  pub hp : q.hp ≡ p.hp
  pub max_hp : q.max_hp ≡ p.max_hp
  pub max_exp : q.max_exp ≡ p.max_exp

-- A welcome changes attack and defence at most.
load_inventory-player :
    (s : ℕ) (w : World)
    → player (load_inventory s w) s ≡ record (player w s) {
      atk = (player (load_inventory s w) s).atk;
      def = (player (load_inventory s w) s).def;
    }
unfolding load_inventory
load_inventory-player s w = ground arith

welcome-player :
    (s : ℕ) (w : World)
    → player (welcome s w) s ≡ record (player w s) {
      atk = (player (welcome s w) s).atk;
      def = (player (welcome s w) s).def;
    }
unfolding welcome load_quest_progress send_other_players send_all_npcs
welcome-player s w = grind (arith, load_inventory-player)

-- If the database tells a row for the character, selecting it takes level, experience and gold from
-- the row, and leaves hp, its bound and the price of the next level as the session had them.
pub select-IsEntered :
    (s : ℕ) (req : CharSelect) (w : World) (r : List Cell) (rs : ResultSet)
    → rows (reply (ProcCall.character_login (player w s).account_uid req.char_uid) w) ≡ r ∷ rs
    → IsEntered req.char_uid r (player w s) (player (on_char_select s req w) s)
unfolding on_char_select selected enter_game entered
select-IsEntered s req w r rs told = rw (told, selected) (grind (arith, welcome-player))
