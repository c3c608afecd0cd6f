-- ===== src/Movement.antt =====
-- Moving on the map, and its geometry (GameServer/main.cpp: OnMove, IsNearQuestNPC).
pub mod Bounds
use mmorpg_simulator.Common.{ℕ, ◌+◌, Bool, ◌&&◌, leb, if◌then◌else◌}
use mmorpg_simulator.Common.Int.{ℤ, pos, ◌+ℤ◌, ◌-ℤ◌, leb_ℤ, ltb_ℤ, int16, abs}
use mmorpg_simulator.Protocol.{move_result, char_info}
use mmorpg_simulator.Protocol.Requests.{Move}
use mmorpg_simulator.World.Data.{World, Player}
use mmorpg_simulator.World.Sessions.{player, set_player, send, broadcast_except}
use mmorpg_simulator.Status.{public_info}

abbrev pub map_size : ℕ
map_size = 20

abbrev pub quest_npc_x : ℕ
quest_npc_x = 2

abbrev pub quest_npc_y : ℕ
quest_npc_y = 2

abbrev pub on_map : ℤ → Bool
on_map c = leb_ℤ (pos 0) c && ltb_ℤ c (pos map_size)

-- A step that would leave the map leaves the player where he is.
unfoldable pub moved : Player → Move → Player
unfolding int16 ◌+ℤ◌
moved p req =
    let new_x = int16 (p.pos_x +ℤ req.dir_x) in
    let new_y = int16 (p.pos_y +ℤ req.dir_y) in
    if on_map new_x && on_map new_y then record p { pos_x = new_x; pos_y = new_y } else p

unfoldable pub on_move : ℕ → Move → World → World
unfolding broadcast_except moved
on_move s req w =
    let p = moved (player w s) req in
    let w1 = set_player s p w in
    let w2 = send s (move_result (record { success = 1; pos_x = p.pos_x; pos_y = p.pos_y })) w1 in
    broadcast_except s (char_info (public_info p)) w2

-- |x - QUEST_NPC_X| <= 1 && |y - QUEST_NPC_Y| <= 1
unfoldable pub is_near_quest_npc : Player → Bool
unfolding ◌-ℤ◌
is_near_quest_npc p =
    leb (abs (p.pos_x -ℤ pos quest_npc_x)) 1 && leb (abs (p.pos_y -ℤ pos quest_npc_y)) 1
