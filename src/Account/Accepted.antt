-- ===== src/Account/Accepted.antt =====
-- Every login is accepted.
use mmorpg_simulator.Common.{ℕ, ◌<◌, ◌^◌, ◌≡◌, arith, Text}
use mmorpg_simulator.Protocol.Requests.{Login}
use mmorpg_simulator.World.Data.{World, Env, Player}
use mmorpg_simulator.World.Sessions.{player}
use mmorpg_simulator.Account.{on_login, channel_id, positive_atoll}

-- The session of a player who has logged in: only the account's number is new.
pub record IsLoggedIn (p q : Player) : Type 0 where
  pub same : q ≡ record p { account_uid = q.account_uid }
  pub positive : 0 < q.account_uid
  pub signed : q.account_uid < 2 ^ 63

channel_id_bounds : (env : Env) (t : Text) → (0 < channel_id env t) × (channel_id env t < 2 ^ 63)
unfolding channel_id positive_atoll
channel_id_bounds env t = ground arith

-- Every login, whatever the name, the password and the answer of the database, gives the session an
-- account number that is positive in 64 bits, and changes nothing else about the player.
pub login-IsLoggedIn :
    (s : ℕ) (req : Login) (w : World) → IsLoggedIn (player w s) (player (on_login s req w) s)
unfolding on_login
login-IsLoggedIn s req w = ground (arith, channel_id_bounds w.env req.account_id)
