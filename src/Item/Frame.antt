-- ===== src/Item/Frame.antt =====
-- What handing out an item leaves alone.
use mmorpg_simulator.Common.{ℕ, ◌≡◌, arith, ap}
use mmorpg_simulator.World.Data.{World}
use mmorpg_simulator.World.Quiet.{IsQuiet}
use mmorpg_simulator.Item.{give_item}

-- Only the inventories, the calls of the database and the packets are touched.
pub give_item-frame :
    (s tid : ℕ) (w : World)
    → give_item s tid w ≡ record w {
      inventories = (give_item s tid w).inventories;
      sent = (give_item s tid w).sent;
      calls = (give_item s tid w).calls;
    }
unfolding give_item
give_item-frame s tid w = ground arith

pub give_item-IsQuiet : (s tid : ℕ) (w : World) → IsQuiet w (give_item s tid w)
give_item-IsQuiet s tid w = record {
  npcs = ap (λ (v : World). v.npcs) (give_item-frame s tid w);
  next_npc_uid = ap (λ (v : World). v.next_npc_uid) (give_item-frame s tid w);
  parties = ap (λ (v : World). v.parties) (give_item-frame s tid w);
  player_party = ap (λ (v : World). v.player_party) (give_item-frame s tid w);
  next_party_id = ap (λ (v : World). v.next_party_id) (give_item-frame s tid w);
}
