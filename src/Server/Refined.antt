-- ===== src/Server/Refined.antt =====
-- Whatever bytes reach the server, it does what the server on requests does.
use mmorpg_simulator.Common.{
  ℕ, suc, ◌+◌, ◌<◌, ◌≡◌, refl, sym, ap, ◌∙◌, ◌⊎◌, inl, inr, none, some, List, [], ◌∷◌, ◌++◌, arith,
  length, length-append, update,
}
use mmorpg_simulator.Framing.{Incoming, process_buffer}
use mmorpg_simulator.Framing.Endless.{HasZeroLength}
use mmorpg_simulator.World.Data.{World}
use mmorpg_simulator.Server.{
  run, step, on_accept, on_disconnect, cut, Event, accepted, read_failed, write_failed,
}
use mmorpg_simulator.Server.Packets.{Request}
use mmorpg_simulator.Server.Machine
use mmorpg_simulator.Server.Machine.{Machine, Arrival, keep_rest, machine_step, serve}
use mmorpg_simulator.Server.Serving.{packets_of}
use mmorpg_simulator.Server.Handled.{AreRead, IsHandled, process-cases, zero_length_stuck}

-- What a server does that cuts packets off the bytes of each session and handles the requests read
-- from them: from a machine, by arrivals, the events and the machine after them. A read of session
-- `s` brings the requests, fewer than `n`, that are read from the packets which the bytes in the
-- buffer and the new bytes are cut into, and leaves what is behind those packets in the buffer.
pub data IsTrace (n : ℕ) : Machine → List Arrival → List Event → Machine → Type 0 where
  quiet : (m : Machine) → IsTrace n m [] [] m
  opens :
      {m after : Machine} {arrivals : List Arrival} {es : List Event}
      → IsTrace n
          (record {
            world = step accepted m.world;
            buffers = update m.buffers m.world.next_session_id [];
          })
          arrivals
          es
          after
      → IsTrace n m (Machine.opened ∷ arrivals) (accepted ∷ es) after
  brings :
      (s : ℕ) (bytes : List ℕ) (ks : List Incoming) (rs : List Request) (rest : List ℕ)
      {m after : Machine} {arrivals : List Arrival} {es : List Event}
      → process_buffer n (m.buffers s ++ bytes) ≡ some (ks, rest)
      → AreRead ks rs
      → length rs < n
      → IsTrace n
          (record { world = run (packets_of s rs) m.world; buffers = update m.buffers s rest })
          arrivals
          es
          after
      → IsTrace n m (Machine.received s bytes ∷ arrivals) (packets_of s rs ++ es) after
  fails_read :
      (s : ℕ) {m after : Machine} {arrivals : List Arrival} {es : List Event}
      → IsTrace n (record m { world = step (read_failed s) m.world }) arrivals es after
      → IsTrace n m (Machine.read_failed s ∷ arrivals) (read_failed s ∷ es) after
  fails_write :
      (s : ℕ) {m after : Machine} {arrivals : List Arrival} {es : List Event}
      → IsTrace n (record m { world = step (write_failed s) m.world }) arrivals es after
      → IsTrace n m (Machine.write_failed s ∷ arrivals) (write_failed s ∷ es) after

-- How many bytes all the reads bring.
abbrev pub total : List Arrival → ℕ
total [] = 0
total (Machine.received s bytes ∷ arrivals) = length bytes + total arrivals
total (_ ∷ arrivals) = total arrivals

-- The arrivals are handled, as the trace says, and the world is the one after its events.
pub record IsRefined (stale : ℕ → ℕ → List ℕ) (fuel : ℕ) (arrivals : List Arrival) (m : Machine)
    : Type 0 where
  pub events : List Event
  pub after : Machine
  pub trace : IsTrace fuel m arrivals events after
  pub ends : serve stale fuel arrivals m ≡ some after
  pub world : after.world ≡ run events m.world

-- The arrivals before some read are handled; at that read the loop comes to a header that says
-- length 0, and does not end on any amount of fuel.
pub record IsCaught (stale : ℕ → ℕ → List ℕ) (fuel : ℕ) (arrivals : List Arrival) (m : Machine)
    : Type 0 where
  pub front : List Arrival
  pub s : ℕ
  pub bytes : List ℕ
  pub back : List Arrival
  pub whole : arrivals ≡ front ++ Machine.received s bytes ∷ back
  pub before : IsRefined stale fuel front m
  pub zero_length : HasZeroLength (before.after.buffers s ++ bytes)
  pub stuck :
      (behind : ℕ → List ℕ) (more : ℕ)
      → machine_step behind more (Machine.received s bytes) before.after ≡ none
  pub lost : serve stale fuel arrivals m ≡ none

run-append : (xs ys : List Event) (w : World) → run (xs ++ ys) w ≡ run ys (run xs w)
unfolding run
run-append [] ys w = refl
run-append (e ∷ xs) ys w = run-append xs ys (step e w)

module _ (stale : ℕ → ℕ → List ℕ) (fuel : ℕ) (a : Arrival) (m m' : Machine) (now : List Event)
    (e : machine_step (stale 0) fuel a m ≡ some m') (world : m'.world ≡ run now m.world)
    (more : (arrivals : List Arrival) (es : List Event) (after : Machine)
      → IsTrace fuel m' arrivals es after
      → IsTrace fuel m (a ∷ arrivals) (now ++ es) after) where
  IsRefined-later :
      (arrivals : List Arrival)
      → IsRefined (λ arrival. stale (suc arrival)) fuel arrivals m'
      → IsRefined stale fuel (a ∷ arrivals) m
  unfolding serve
  IsRefined-later arrivals c = record {
    events = now ++ c.events;
    after = c.after;
    trace = more arrivals c.events c.after c.trace;
    ends = rw (serve, e) c.ends;
    world = c.world ∙ ap (run c.events) world ∙ sym (run-append now c.events m.world);
  }

  IsCaught-later :
      (arrivals : List Arrival)
      → IsCaught (λ arrival. stale (suc arrival)) fuel arrivals m'
      → IsCaught stale fuel (a ∷ arrivals) m
  unfolding serve
  IsCaught-later arrivals c = record {
    front = a ∷ c.front;
    s = c.s;
    bytes = c.bytes;
    back = c.back;
    whole = ap (◌∷◌ a) c.whole;
    before = record {
      events = now ++ c.before.events;
      after = c.before.after;
      trace = more c.front c.before.events c.before.after c.before.trace;
      ends = rw (serve, e) c.before.ends;
      world =
          c.before.world
          ∙ ap (run c.before.events) world
          ∙ sym (run-append now c.before.events m.world);
    };
    zero_length = c.zero_length;
    stuck = c.stuck;
    lost = rw (serve, e) c.lost;
  }

  go_on :
      (arrivals : List Arrival)
      → IsRefined (λ arrival. stale (suc arrival)) fuel arrivals m'
        ⊎ IsCaught (λ arrival. stale (suc arrival)) fuel arrivals m'
      → IsRefined stale fuel (a ∷ arrivals) m ⊎ IsCaught stale fuel (a ∷ arrivals) m
  go_on arrivals (inl r) = inl (IsRefined-later arrivals r)
  go_on arrivals (inr c) = inr (IsCaught-later arrivals c)

-- What a read leaves to the later arrivals.
read_on :
    (stale : ℕ → List ℕ) (fuel s : ℕ) (bytes : List ℕ) (arrivals : List Arrival) (m : Machine)
    (v : IsHandled stale fuel s (m.buffers s ++ bytes) m.world)
    → ((t : ℕ) → length (m.buffers t) + (length bytes + total arrivals) < fuel)
    → (t : ℕ) → length (update m.buffers s v.rest t) + total arrivals < fuel
read_on stale fuel s bytes arrivals m v h t =
    ground (arith, h s, h t, v.shorter, length-append (m.buffers s) bytes)

fresh_small :
    (fuel : ℕ) (arrivals : List Arrival) (m : Machine)
    → ((t : ℕ) → length (m.buffers t) + total arrivals < fuel)
    → (t : ℕ) → length (update m.buffers m.world.next_session_id [] t) + total arrivals < fuel
fresh_small fuel arrivals m h t = ground (arith, h t)

stuck_at :
    (behind : ℕ → List ℕ) (fuel s : ℕ) (bytes : List ℕ) (m : Machine)
    → HasZeroLength (m.buffers s ++ bytes)
    → machine_step behind fuel (Machine.received s bytes) m ≡ none
unfolding machine_step
stuck_at behind fuel s bytes m h =
    ap (keep_rest behind s m) (zero_length_stuck behind fuel s (m.buffers s ++ bytes) m.world h)

IsCaught-here :
    (stale : ℕ → ℕ → List ℕ) (fuel s : ℕ) (bytes : List ℕ) (arrivals : List Arrival) (m : Machine)
    → HasZeroLength (m.buffers s ++ bytes)
    → IsCaught stale fuel (Machine.received s bytes ∷ arrivals) m
unfolding serve run
IsCaught-here stale fuel s bytes arrivals m h = record {
  front = [];
  s = s;
  bytes = bytes;
  back = arrivals;
  whole = refl;
  before = record { events = []; after = m; trace = quiet m; ends = refl; world = refl };
  zero_length = h;
  stuck = λ behind more. stuck_at behind more s bytes m h;
  lost = rw (serve, stuck_at (stale 0) fuel s bytes m h) refl;
}

-- Whatever arrives, connections, bytes in any pieces and failures, and whatever the arrays hold
-- behind the bytes in use at each pass of the loop, given more fuel than bytes arrive at any
-- session, and as long as no handler ends the program by a text that is too long for its array or a
-- division by 0: either all of it is handled, each read as the requests of the packets that the session's
-- bytes are cut into, with what is behind them kept, and the server is where the server on requests
-- is after these events; or it is handled so up to a read at which the loop comes to a header that
-- says length 0, and does not end on any amount of fuel.
pub serve-IsRefined :
    (stale : ℕ → ℕ → List ℕ) (fuel : ℕ) (arrivals : List Arrival) (m : Machine)
    → ((t : ℕ) → length (m.buffers t) + total arrivals < fuel)
    → IsRefined stale fuel arrivals m ⊎ IsCaught stale fuel arrivals m
unfolding serve machine_step run step
serve-IsRefined stale fuel [] m h =
    inl (record { events = []; after = m; trace = quiet m; ends = refl; world = refl })
serve-IsRefined stale fuel (Machine.opened ∷ arrivals) m h =
    let m' : Machine = record {
      world = on_accept m.world;
      buffers = update m.buffers m.world.next_session_id [];
    } in
    go_on stale fuel Machine.opened m m' (accepted ∷ []) refl refl (λ rest es after t. opens t)
      arrivals
      (serve-IsRefined (λ arrival. stale (suc arrival)) fuel arrivals m'
        (fresh_small fuel arrivals m h))
serve-IsRefined stale fuel (Machine.received s bytes ∷ arrivals) m h =
    let enough : length (m.buffers s ++ bytes) < fuel =
      omega (arith, h s, length-append (m.buffers s) bytes) in
    elim (process-cases (stale 0) fuel s (m.buffers s ++ bytes) m.world enough) [
      | inl v ↦
          let m' : Machine = record {
            world = run (packets_of s v.requests) m.world;
            buffers = update m.buffers s v.rest;
          } in
          go_on stale fuel (Machine.received s bytes) m m' (packets_of s v.requests)
            (ap (keep_rest (stale 0) s m) v.ends) refl
            (λ rest es after t. brings s bytes v.packets v.requests v.rest v.cut v.read v.fewer t)
            arrivals
            (serve-IsRefined (λ arrival. stale (suc arrival)) fuel arrivals m'
              (read_on (stale 0) fuel s bytes arrivals m v h))
      | inr zero_length ↦ inr (IsCaught-here stale fuel s bytes arrivals m zero_length)
    ]
serve-IsRefined stale fuel (Machine.read_failed s ∷ arrivals) m h =
    let m' : Machine = record m { world = on_disconnect s (cut s m.world) } in
    go_on stale fuel (Machine.read_failed s) m m' (read_failed s ∷ []) refl refl
      (λ rest es after t. fails_read s t) arrivals
      (serve-IsRefined (λ arrival. stale (suc arrival)) fuel arrivals m' h)
serve-IsRefined stale fuel (Machine.write_failed s ∷ arrivals) m h =
    let m' : Machine = record m { world = cut s m.world } in
    go_on stale fuel (Machine.write_failed s) m m' (write_failed s ∷ []) refl refl
      (λ rest es after t. fails_write s t) arrivals
      (serve-IsRefined (λ arrival. stale (suc arrival)) fuel arrivals m' h)
