-- ===== src/Server/Stays.antt =====
-- Handlers that leave every player at his place.
use mmorpg_simulator.Common.{ℕ, zero, suc, ◌≡◌, inl, inr, List, [], ◌∷◌, arith}
use mmorpg_simulator.Protocol.Requests
use mmorpg_simulator.World.Data.{World, Npc, QuestData, QuestProgress}
use mmorpg_simulator.Item.{give_item, place_item}
use mmorpg_simulator.World.Sessions.{broadcast}
use mmorpg_simulator.Quest.{reward_item, complete_quest, on_quest_complete, update_quest_progress}
use mmorpg_simulator.Quest.Lifecycle.{complete_cases}
use mmorpg_simulator.Combat.{
  on_attack, hit_npc, kill_npc, bury_npc, respawn_first, spawn_npc, share_reward, share_each,
  share_one, drop_item, reward_player,
}
use mmorpg_simulator.Shop.{on_shop_buy, on_shop_sell}
use mmorpg_simulator.Gear.{on_item_use, on_item_equip}
use mmorpg_simulator.Account.{on_login, on_char_create}
use mmorpg_simulator.World.Data.{Player}
use mmorpg_simulator.World.Sessions.{player}
use mmorpg_simulator.Level.{level_loop, level_once, leveled}
use mmorpg_simulator.Movement.Bounds.{IsOnMap}

-- Two players at one place.
pub record IsSamePlace (p q : Player) : Type 0 where
  pub x : q.pos_x ≡ p.pos_x
  pub y : q.pos_y ≡ p.pos_y

abbrev pub Stays : World → World → ℕ → Type 0
Stays w w' t = IsSamePlace (player w t) (player w' t)

pub Stays-IsOnMap :
    (w w' : World) (t : ℕ) → IsOnMap (player w t) → Stays w w' t → IsOnMap (player w' t)
Stays-IsOnMap w w' t h q = ground (arith, h.left, h.right, h.top, h.bottom, q.x, q.y)

pub level_loop-place :
    (fuel : ℕ) (p : Player) (rounds : List Player) → IsSamePlace p (level_loop fuel p rounds).0
unfolding level_loop
level_loop-place zero p rounds = ground arith
level_loop-place (suc fuel) p rounds =
    ground (arith, level_loop-place fuel (level_once p) (level_once p ∷ rounds))

pub leveled-place : (p : Player) → IsSamePlace p (leveled p)
unfolding leveled
leveled-place p = level_loop-place _ p []

pub login-Stays : (s t : ℕ) (req : Requests.Login) (w : World) → Stays w (on_login s req w) t
unfolding on_login
login-Stays s t req w = ground arith

pub char_create-Stays :
    (s t : ℕ) (req : Requests.CharCreate) (w : World) → Stays w (on_char_create s req w) t
unfolding on_char_create
char_create-Stays s t req w = ground arith

pub shop_buy-Stays :
    (s t : ℕ) (req : Requests.ShopBuy) (w : World) → Stays w (on_shop_buy s req w) t
unfolding on_shop_buy
shop_buy-Stays s t req w = ground arith

pub shop_sell-Stays :
    (s t : ℕ) (req : Requests.ShopSell) (w : World) → Stays w (on_shop_sell s req w) t
unfolding on_shop_sell
shop_sell-Stays s t req w = ground arith

pub item_use-Stays :
    (s t : ℕ) (req : Requests.ItemUse) (w : World) → Stays w (on_item_use s req w) t
unfolding on_item_use
item_use-Stays s t req w = ground arith

pub item_equip-Stays :
    (s t : ℕ) (req : Requests.ItemEquip) (w : World) → Stays w (on_item_equip s req w) t
unfolding on_item_equip
item_equip-Stays s t req w = ground arith

pub give_item-Stays : (s tid t : ℕ) (w : World) → Stays w (give_item s tid w) t
unfolding give_item place_item
give_item-Stays s tid t w = ground arith

pub reward_item-Stays : (s tid t : ℕ) (w : World) → Stays w (reward_item s tid w) t
unfolding reward_item
reward_item-Stays s tid t w = grind (arith, give_item-Stays)

pub complete_quest-Stays :
    (s t : ℕ) (q : QuestData) (v : QuestProgress) (id : ℕ) (w : World)
    → Stays w (complete_quest s q v id w) t
unfolding complete_quest
complete_quest-Stays s t q v id w = grind (arith, reward_item-Stays, leveled-place)

pub complete-Stays :
    (s t : ℕ) (req : Requests.QuestComplete) (w : World) → Stays w (on_quest_complete s req w) t
complete-Stays s t req w = elim (complete_cases s req w) [
  | inl (why, e) ↦ rw e (ground arith)
  | inr (q, v, can, e) ↦ rw e (complete_quest-Stays s t q v req.quest_id w)
]

pub share_one-Stays : (s exp gold m t : ℕ) (w : World) → Stays w (share_one s exp gold m w) t
unfolding share_one reward_player update_quest_progress
share_one-Stays s exp gold m t w = grind (arith, leveled-place)

pub share_each-Stays :
    (s exp gold t : ℕ) (ms : List ℕ) (w : World) → Stays w (share_each s exp gold ms w) t
unfolding share_each
share_each-Stays s exp gold t [] w = ground arith
share_each-Stays s exp gold t (m ∷ ms) w =
    grind (arith, share_one-Stays, share_each-Stays s exp gold t ms)

pub share_reward-Stays : (s t : ℕ) (n : Npc) (w : World) → Stays w (share_reward s n w) t
unfolding share_reward reward_player
share_reward-Stays s t n w = grind (arith, share_each-Stays, leveled-place)

pub drop_item-Stays : (s t : ℕ) (w : World) → Stays w (drop_item s w) t
unfolding drop_item
drop_item-Stays s t w = grind (arith, give_item-Stays)

pub respawn_first-Stays : (t : ℕ) (w : World) → Stays w (respawn_first w) t
unfolding respawn_first spawn_npc
respawn_first-Stays t w = ground arith

pub bury_npc-Stays : (s i t : ℕ) (n : Npc) (w : World) → Stays w (bury_npc s i n w) t
unfolding bury_npc broadcast update_quest_progress
bury_npc-Stays s i t n w = grind (arith, share_reward-Stays, drop_item-Stays)

pub hit_npc-Stays : (s i t : ℕ) (n : Npc) (w : World) → Stays w (hit_npc s i n w) t
unfolding hit_npc kill_npc
hit_npc-Stays s i t n w = grind (arith, bury_npc-Stays, respawn_first-Stays)

pub attack-Stays : (s t : ℕ) (req : Requests.Attack) (w : World) → Stays w (on_attack s req w) t
unfolding on_attack
attack-Stays s t req w = grind (arith, hit_npc-Stays)
