-- ===== src/Client/Mirror.antt =====
-- What a client shows of its own player after a request, and what the server has.
use mmorpg_simulator.Common.{
  ℕ, ◌≡◌, refl, ◌∙◌, ◌==◌, true, false, if◌then◌else◌, List, [], ◌∷◌, ◌++◌, arith, Bool-cases, inl,
  inr, ◌≤◌, ◌⊎◌, ltb, length, some, none, Option-cases,
}
use mathlib.Core.List.{append-nil}
use mmorpg_simulator.Protocol.{Packet, move_result}
use mmorpg_simulator.Protocol.Requests
use mmorpg_simulator.World.Data.{World, Session, Player, ItemData}
use mmorpg_simulator.World.Sessions.{player, post_each, post, broadcast_except}
use mmorpg_simulator.Movement.{on_move, moved}
use mmorpg_simulator.Item.{slot_at, find_item}
use mmorpg_simulator.Shop.{on_shop_buy, on_shop_sell, try_shop_buy, buy_message, message_size}
use mmorpg_simulator.Client.Belongings.{on_shop_result, on_inventory_update}
use mmorpg_simulator.Protocol.{max_inventory}
use mmorpg_simulator.Client.State.{ClientState}
use mmorpg_simulator.Client.Field.{on_move_result}
use mmorpg_simulator.Client.Dispatch.{handle_answer, handle_answers}

-- The packets of a session among those that were sent, the oldest first.
unfoldable pub answers_to : ℕ → List (ℕ × Packet) → List Packet
answers_to t [] = []
answers_to t ((s, k) ∷ sent) = answers_to t sent ++ (if s == t then k ∷ [] else [])

-- A world in which nothing has been sent.
abbrev pub unsent : World → World
unsent w = record w { sent = [] }

not_to :
    (t i : ℕ) (k : Packet) (sent : List (ℕ × Packet))
    → i == t ≡ false
    → answers_to t ((i, k) ∷ sent) ≡ answers_to t sent
unfolding answers_to
not_to t i k sent e = rw e (append-nil (answers_to t sent))

post-skipped :
    (heap : ℕ → Session) (t i : ℕ) (k : Packet) (sent : List (ℕ × Packet))
    → i == t ≡ false
    → answers_to t (post heap i k sent) ≡ answers_to t sent
post-skipped heap t i k sent e = elim (Bool-cases (heap i).connected) [
  | inl open_ ↦ rw open_ (not_to t i k sent e)
  | inr closed ↦ rw closed refl
]

post_each-skipped :
    (heap : ℕ → Session) (t : ℕ) (is : List ℕ) (k : Packet) (sent : List (ℕ × Packet))
    → answers_to t (post_each heap (λ i. i == t) is k sent) ≡ answers_to t sent
unfolding post_each
post_each-skipped heap t [] k sent = refl
post_each-skipped heap t (i ∷ is) k sent = elim (Bool-cases (i == t)) [
  | inl here ↦ rw here (post_each-skipped heap t is k sent)
  | inr there ↦ elim (Bool-cases (heap i).player.logged_in) [
    | inl in_ ↦
        rw (there, in_)
          (post_each-skipped heap t is k (post heap i k sent) ∙ post-skipped heap t i k sent there)
    | inr out ↦ rw (there, out) (post_each-skipped heap t is k sent)
  ]
]

-- The own player, as the client shows him and as the server has him.
pub record ShowsPlace (c : ClientState) (p : Player) : Type 0 where
  pub pos_x : c.my_player.pos_x ≡ p.pos_x
  pub pos_y : c.my_player.pos_y ≡ p.pos_y

moved-answers :
    (s : ℕ) (req : Requests.Move) (w : World)
    → (w.heap s).connected ≡ true
    → answers_to s (on_move s req (unsent w)).sent
      ≡ move_result (record {
        success = 1;
        pos_x = (moved (player w s) req).pos_x;
        pos_y = (moved (player w s) req).pos_y;
      })
        ∷ []
unfolding on_move broadcast_except answers_to
moved-answers s req w open_ = post_each-skipped _ s w.sessions _ _ ∙ ground (arith, open_)

moved-player :
    (s : ℕ) (req : Requests.Move) (w : World)
    → player (on_move s req (unsent w)) s ≡ moved (player w s) req
unfolding on_move broadcast_except
moved-player s req w = ground arith

-- After a request to move, whatever the direction, the client that has handled what the server sent
-- it shows its player where the server has him, if it was connected.
pub move-ShowsPlace :
    (s : ℕ) (req : Requests.Move) (w : World) (c : ClientState)
    → (w.heap s).connected ≡ true
    → ShowsPlace
        (handle_answers (answers_to s (on_move s req (unsent w)).sent) c)
        (player (on_move s req (unsent w)) s)
unfolding handle_answers handle_answer on_move_result
move-ShowsPlace s req w c open_ =
    rw (moved-answers s req w open_, moved-player s req w) (record { pos_x = refl; pos_y = refl })

-- The client shows the gold of the player that a handled request to buy leaves.
shown_gold :
    (s : ℕ) (req : Requests.ShopBuy) (w : World) (c : ClientState)
    → (w.heap s).connected ≡ true
    → (handle_answers (answers_to s (on_shop_buy s req (unsent w)).sent) c).my_player.gold
      ≡ (player (on_shop_buy s req (unsent w)) s).gold
unfolding on_shop_buy handle_answers handle_answer answers_to on_inventory_update on_shop_result
shown_gold s req w c open_ = ground (arith, open_)

-- Only the name of an item is too long for the message of a purchase.
long_message :
    (s : ℕ) (req : Requests.ShopBuy) (w : World)
    → ltb (length (buy_message s req w)) message_size ≡ false
    → (item : ItemData) × (find_item w.items req.item_id ≡ some item)
      × (message_size ≤ length item.name)
long_message s req w long = elim (Option-cases (find_item w.items req.item_id)) [
  | inl unknown ↦ absurd (ground arith)
  | inr (item, found) ↦ (item, found, ground arith)
]

-- For a player who is connected, a request to buy is handled to its end, and then the client that
-- has handled what the server sent it shows the gold that its player has, whether the server sold or
-- refused; or the item has a name of at least 32 bytes, and the request ends the server's program.
pub buy-gold :
    (s : ℕ) (req : Requests.ShopBuy) (w : World) (c : ClientState)
    → (w.heap s).connected ≡ true
    → ((w' : World) × (try_shop_buy s req (unsent w) ≡ some w')
        × ((handle_answers (answers_to s w'.sent) c).my_player.gold ≡ (player w' s).gold))
      ⊎ ((item : ItemData) × (find_item w.items req.item_id ≡ some item)
          × (message_size ≤ length item.name)
          × (try_shop_buy s req (unsent w) ≡ none))
unfolding try_shop_buy
buy-gold s req w c open_ =
    elim (Bool-cases (ltb (length (buy_message s req (unsent w))) message_size)) [
      | inl short ↦
          inl (
            on_shop_buy s req (unsent w),
            rw (try_shop_buy, short) refl,
            shown_gold s req w c open_,
          )
      | inr long ↦
          let (item, found, long_name) = long_message s req (unsent w) long in
          inr (item, found, long_name, rw (try_shop_buy, long) refl)
    ]

-- A request to sell a slot that does not exist or is empty leaves the player as he was, and makes the
-- client that has handled what the server sent it show no gold, if it was connected.
pub sell_refused-gold :
    (s : ℕ) (req : Requests.ShopSell) (w : World) (c : ClientState)
    → (w.heap s).connected ≡ true
    → (max_inventory ≤ req.slot) ⊎ ((slot_at (w.inventories s) req.slot).item_tid ≡ 0)
    → ((handle_answers (answers_to s (on_shop_sell s req (unsent w)).sent) c).my_player.gold ≡ 0)
      × (player (on_shop_sell s req (unsent w)) s ≡ player w s)
unfolding on_shop_sell handle_answers handle_answer answers_to on_shop_result
sell_refused-gold s req w c open_ empty = ground (arith, open_, empty)
