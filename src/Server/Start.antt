-- ===== src/Server/Start.antt =====
-- The start of the server: the globals of GameServer/main.cpp, and the monsters that main places.
-- The tables that LoadItems and LoadQuests read from the files are arguments.
use mmorpg_simulator.Common.{
  ℕ, zero, suc, ◌+◌, ◌-◌, ◌*◌, ◌%◌, ◌^◌, ◌≤◌, ◌<◌, ◌≡◌, refl, sym, ap, subst, ◌⊎◌, inl, inr, true,
  false, none, some, List, [], ◌∷◌, ◌++◌, arith, length, length-append, u64,
}
use mmorpg_simulator.Common.Int.{pos}
use mmorpg_simulator.World.Data.{
  World, Env, Npc, ItemData, DropEntry, QuestData, new_player, empty_inventory,
}
use mmorpg_simulator.World.Sessions.{player}
use mmorpg_simulator.Protocol.{max_inventory}
use mmorpg_simulator.World.Database.{draw, drawn}
use mmorpg_simulator.Movement.{map_size}
use mmorpg_simulator.Movement.Bounds.{IsOnMap}
use mmorpg_simulator.Combat.Monsters.{AreLive}
use mmorpg_simulator.Party.Links.{IsLinked}
use mmorpg_simulator.Server.{run, Event}
use mmorpg_simulator.Server.Packets.{Request}
use mmorpg_simulator.Server.Machine
use mmorpg_simulator.Server.Machine.{Machine, Arrival, serve}
use mmorpg_simulator.Server.Serving.{packets_of}
use mmorpg_simulator.Server.Refined.{
  IsTrace, quiet, opens, brings, fails_read, fails_write, IsRefined, IsCaught, serve-IsRefined,
  total,
}
use mmorpg_simulator.Server.Sizes.{size}
use mmorpg_simulator.Server.Slots.{run-size}
use mmorpg_simulator.Server.Placed.{run-IsOnMap}
use mmorpg_simulator.Server.Alive.{run-AreLive}
use mmorpg_simulator.Server.Linked.{run-IsLinked}

abbrev pub max_npc : ℕ
max_npc = 5

-- The members of NPC with their initial values, and what main sets.
abbrev pub first_npc : World → Npc
first_npc w = record {
  uid = w.next_npc_uid;
  pos_x = pos (draw w % map_size);
  pos_y = pos (draw (drawn w) % map_size);
  hp = 30;
  max_hp = 30;
  atk = 5;
  def = 2;
  exp_reward = 30;
  gold_reward = 10;
  alive = true;
}

-- The loop over the array, with `n` monsters to go.
unfoldable pub place_npcs : ℕ → World → World
place_npcs zero w = w
place_npcs (suc n) w = place_npcs n (record (drawn (drawn w)) {
  npcs = w.npcs ++ first_npc w ∷ [];
  next_npc_uid = u64 (w.next_npc_uid + 1);
})

abbrev pub unstarted : Env → List ItemData → List DropEntry → ℕ → List QuestData → World
unstarted env items drops weight quests = record {
  env = env;
  heap = λ s. record { player = new_player; connected = false };
  sessions = [];
  next_session_id = 1;
  npcs = [];
  next_npc_uid = 1;
  items = items;
  drop_table = drops;
  total_weight = weight;
  quests = quests;
  quest_progress = λ s. [];
  next_party_id = 1;
  parties = λ pid. none;
  player_party = λ s. none;
  pending_invites = λ s. none;
  inventories = λ s. empty_inventory;
  sent = [];
  calls = [];
  rands = 0;
}

unfoldable pub started_world : Env → List ItemData → List DropEntry → ℕ → List QuestData → World
started_world env items drops weight quests =
    place_npcs max_npc (unstarted env items drops weight quests)

-- What holds of a server at any time: its monsters live, its parties are linked, inventories have
-- their slots, and players are on the map.
pub record IsSafe (w : World) : Type 0 where
  pub live : AreLive w
  pub linked : IsLinked w
  pub slots : (t : ℕ) → size w t ≡ max_inventory
  pub placed : (t : ℕ) → IsOnMap (player w t)

module _ (env : Env) (items : List ItemData) (drops : List DropEntry) (weight : ℕ)
    (quests : List QuestData) where
  start-AreLive : AreLive (started_world env items drops weight quests)
  unfolding started_world place_npcs
  start-AreLive = ground arith

  start-IsSafe : IsSafe (started_world env items drops weight quests)
  unfolding started_world place_npcs
  start-IsSafe = record {
    live = start-AreLive;
    linked = record {
      linked = λ s pid e. absurd (cc e);
      sized = λ pid party e. absurd (cc e);
      fresh = λ pid party e. absurd (cc e);
    };
    slots = λ t. refl;
    placed = λ t. record {
      left = omega arith;
      right = omega arith;
      top = omega arith;
      bottom = omega arith;
    };
  }

  start-counted : (started_world env items drops weight quests).next_npc_uid ≡ 6
  unfolding started_world place_npcs
  start-counted = refl

  start-parties : (started_world env items drops weight quests).next_party_id ≡ 1
  unfolding started_world place_npcs
  start-parties = refl

-- From its start on, whatever the environment and the tables, and whatever happens, fewer than
-- 2^32 - 1 events: the server's monsters live, its parties are linked, all inventories have their
-- twenty slots, and all players are on the map.
pub reached-IsSafe :
    (env : Env) (items : List ItemData) (drops : List DropEntry) (weight : ℕ)
    (quests : List QuestData) (es : List Event)
    → length es < 2 ^ 32 - 1
    → IsSafe (run es (started_world env items drops weight quests))
reached-IsSafe env items drops weight quests es few =
    let w : World = started_world env items drops weight quests in
    let h : IsSafe w = start-IsSafe env items drops weight quests in
    record {
      live =
          run-AreLive es w h.live (omega (arith, few, start-counted env items drops weight quests));
      linked =
          run-IsLinked es w h.linked
            (omega (arith, few, start-parties env items drops weight quests));
      slots = λ t. run-size es t w (h.slots t);
      placed = λ t. run-IsOnMap es t w (h.placed t);
    }

length-packets_of : (s : ℕ) (rs : List Request) → length (packets_of s rs) ≡ length rs
length-packets_of s [] = refl
length-packets_of s (r ∷ rs) = ap suc (length-packets_of s rs)

-- Events of arrivals are no more than a read can bring, for each.
trace-length :
    (n : ℕ) {m after : Machine} (arrivals : List Arrival) (es : List Event)
    → IsTrace n m arrivals es after
    → length es ≤ suc n * length arrivals
trace-length n arrivals es (quiet m) = omega arith
trace-length n arrivals es (opens t) = grind (arith, trace-length n _ _ t)
trace-length n arrivals es (brings s bytes ks rs rest {es = later} cut read lt t) =
    grind (
      arith,
      lt,
      trace-length n _ _ t,
      length-append (packets_of s rs) later,
      length-packets_of s rs,
    )
trace-length n arrivals es (fails_read s t) = grind (arith, trace-length n _ _ t)
trace-length n arrivals es (fails_write s t) = grind (arith, trace-length n _ _ t)

-- A server of which clients have sent nothing yet.
abbrev pub started_machine : World → Machine
started_machine w = record { world = w; buffers = λ s. [] }

-- After arrivals that are handled the server is safe, and so it is up to a read that does not end.
refined-IsSafe :
    (stale : ℕ → ℕ → List ℕ) (fuel : ℕ) (arrivals : List Arrival) (env : Env)
    (items : List ItemData) (drops : List DropEntry) (weight : ℕ) (quests : List QuestData)
    → suc fuel * length arrivals < 2 ^ 32 - 1
    → (v : IsRefined stale fuel arrivals
        (started_machine (started_world env items drops weight quests)))
    → IsSafe v.after.world
refined-IsSafe stale fuel arrivals env items drops weight quests few v =
    subst IsSafe (sym v.world) (
      reached-IsSafe env items drops weight quests v.events
        (omega (arith, few, trace-length fuel arrivals v.events v.trace)))

front-few :
    (n : ℕ) (whole front back : List Arrival) (a : Arrival)
    → whole ≡ front ++ a ∷ back
    → n * length front ≤ n * length whole
front-few n whole front back a e = grind (arith, ap length e, length-append front (a ∷ back))

-- From the start on, whatever arrives at any session, in any pieces and whatever lies in the arrays
-- behind it, given more fuel than bytes arrive, with the fuel plus one times the number of arrivals
-- below 2^32 - 1, and as long as no handler ends the program by a text that is too long for its
-- array or a division by 0: either the server handles all of it, or it handles all up to a read at
-- which the loop comes, behind whole packets, to a header that says length 0, and does not end. In
-- the one case after all arrivals, in the other after those before that read, its monsters live, its
-- parties are linked, all inventories have their twenty slots and all players are on the map.
pub serve-IsSafe :
    (stale : ℕ → ℕ → List ℕ) (fuel : ℕ) (arrivals : List Arrival) (env : Env)
    (items : List ItemData) (drops : List DropEntry) (weight : ℕ) (quests : List QuestData)
    → total arrivals < fuel
    → suc fuel * length arrivals < 2 ^ 32 - 1
    → ((after : Machine) × (serve stale fuel arrivals
            (started_machine (started_world env items drops weight quests))
          ≡ some after)
        × IsSafe after.world)
      ⊎ ((caught : IsCaught stale fuel arrivals
            (started_machine (started_world env items drops weight quests)))
          × IsSafe caught.before.after.world)
serve-IsSafe stale fuel arrivals env items drops weight quests enough few =
    let m : Machine = started_machine (started_world env items drops weight quests) in
    elim (serve-IsRefined stale fuel arrivals m (λ t. omega (arith, enough))) [
      | inl v ↦
          inl (
            v.after,
            v.ends,
            refined-IsSafe stale fuel arrivals env items drops weight quests few v,
          )
      | inr c ↦ inr (
        c,
        refined-IsSafe stale fuel c.front env items drops weight quests
            (omega (
              arith,
              few,
              front-few (suc fuel) arrivals c.front c.back (Machine.received c.s c.bytes) c.whole,
            ))
            c.before,
      )
    ]
