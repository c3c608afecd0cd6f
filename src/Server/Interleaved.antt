-- ===== src/Server/Interleaved.antt =====
-- Any number of clients at once, whose bytes reach the server in any pieces and any order.
use mmorpg_simulator.Common.{
  ℕ, suc, ◌<◌, ◌≡◌, ◌≢◌, refl, sym, ap, ◌∙◌, subst, some, List, [], ◌∷◌, ◌++◌, arith, length,
  length-append, All, update, update_self, update_ne, ◌==◌, if◌then◌else◌,
}
use native.Mathlib.Decide.{ℕ_discrete}
use mathlib.Core.List.{append_assoc, append-nil}
use mmorpg_simulator.Framing.RoundTrip.{IsPartial, frames}
use mmorpg_simulator.World.Data.{World}
use mmorpg_simulator.Server.{handle_packet, run, step, packet, Event}
use mmorpg_simulator.Server.Packets.{Request}
use mmorpg_simulator.Server.Machine.{Machine, Arrival, received, handle_bytes, machine_step, serve}
use mmorpg_simulator.Framing.Reads.{All-split, IsTaken, read-IsTaken, all_read}
use mmorpg_simulator.Wire.Requests.{request_packet}
use mmorpg_simulator.Server.Serving.{asked, packets_of, All-IsWritten, act_each-run}
use mmorpg_simulator.Wire.Reading.{FitsRequest}

-- Reads, each with its session and its bytes.
abbrev pub reads : List (ℕ × List ℕ) → List Arrival
reads [] = []
reads ((s, bytes) ∷ more) = received s bytes ∷ reads more

-- What the reads of one session bring together.
abbrev pub bytes_for : ℕ → List (ℕ × List ℕ) → List ℕ
bytes_for t [] = []
bytes_for t ((s, bytes) ∷ more) = if s == t then bytes ++ bytes_for t more else bytes_for t more

abbrev pub handled : List (ℕ × Request) → List Event
handled [] = []
handled ((s, r) ∷ more) = packet s r ∷ handled more

abbrev pub requests_of : ℕ → List (ℕ × Request) → List Request
requests_of t [] = []
requests_of t ((s, r) ∷ more) = if s == t then r ∷ requests_of t more else requests_of t more

-- The requests that the server has handled when it has read all: those that each client has
-- sent, in the client's order; what no packet ends stays in the buffers.
pub record IsServed (stale : ℕ → ℕ → List ℕ) (fuel : ℕ) (pieces : List (ℕ × List ℕ)) (m : Machine)
    (sent : ℕ → List Request) (rest : ℕ → List ℕ) : Type 0 where
  pub requests : List (ℕ × Request)
  pub after : Machine
  pub ends : serve stale fuel (reads pieces) m ≡ some after
  pub world : after.world ≡ run (handled requests) m.world
  pub order : (t : ℕ) → requests_of t requests ≡ sent t
  pub kept : (t : ℕ) → after.buffers t ≡ rest t

-- What a session has in its buffer, and what its reads will bring, is what its client has sent.
pub record IsFed (fuel : ℕ) (buffer later : List ℕ) (sent : List Request) (rest : List ℕ)
    : Type 0 where
  pub fits : All FitsRequest sent
  pub begun : IsPartial buffer
  pub unfinished : IsPartial rest
  pub bytes : buffer ++ later ≡ frames (asked sent) ++ rest
  pub enough : length (buffer ++ later) < fuel

abbrev each : ℕ → List Request → List (ℕ × Request)
each s [] = []
each s (r ∷ rs) = (s, r) ∷ each s rs

handled-each :
    (s : ℕ) (rs : List Request) (more : List (ℕ × Request)) (w : World)
    → run (handled (each s rs ++ more)) w ≡ run (handled more) (run (packets_of s rs) w)
unfolding run
handled-each s [] more w = refl
handled-each s (r ∷ rs) more w = handled-each s rs more (step (packet s r) w)

of_same :
    (s : ℕ) (rs : List Request) (more : List (ℕ × Request))
    → requests_of s (each s rs ++ more) ≡ rs ++ requests_of s more
of_same s [] more = refl
of_same s (r ∷ rs) more = ground (arith, of_same s rs more)

of_other :
    (s t : ℕ) (rs : List Request) (more : List (ℕ × Request))
    → s ≢ t
    → requests_of t (each s rs ++ more) ≡ requests_of t more
of_other s t [] more ne = refl
of_other s t (r ∷ rs) more ne = ground (arith, of_other s t rs more ne)

-- Where one read of session `s` leaves its client.
abbrev Taken : (ℕ → List ℕ) → ℕ → ℕ → List ℕ → List ℕ → List Request → List ℕ → World → Type 0
Taken stale fuel s p later rs rest w =
    IsTaken stale (handle_bytes s) request_packet (handle_packet s) fuel p later rs rest w

-- After a read of session `s` each session is fed with what is left.
IsFed-taken :
    (stale : ℕ → List ℕ) (fuel s : ℕ) (b bytes later : List ℕ) (rs : List Request) (rest : List ℕ)
    (w : World)
    → IsFed fuel b (bytes ++ later) rs rest
    → (t : Taken stale fuel s (b ++ bytes) later rs rest w) → IsFed fuel t.kept later t.then_ rest
IsFed-taken stale fuel s b bytes later rs rest w h t = record {
  fits = (All-split FitsRequest t.now t.then_ (subst (All FitsRequest) t.whole h.fits)).1;
  begun = t.partial;
  unfinished = h.unfinished;
  bytes = t.behind;
  enough = omega (
    arith,
    h.enough,
    t.shorter,
    length-append t.kept later,
    length-append b bytes,
    length-append b (bytes ++ later),
    length-append bytes later,
  );
}

bytes-same :
    (s : ℕ) (bytes : List ℕ) (pieces : List (ℕ × List ℕ))
    → bytes_for s ((s, bytes) ∷ pieces) ≡ bytes ++ bytes_for s pieces
bytes-same s bytes pieces = ground arith

bytes-other :
    (s u : ℕ) (bytes : List ℕ) (pieces : List (ℕ × List ℕ))
    → s ≢ u
    → bytes_for u ((s, bytes) ∷ pieces) ≡ bytes_for u pieces
bytes-other s u bytes pieces ne = ground arith

module _ (stale : ℕ → ℕ → List ℕ) (fuel s : ℕ) (bytes : List ℕ) (pieces : List (ℕ × List ℕ))
    (m : Machine) (sent : ℕ → List Request) (rest : ℕ → List ℕ)
    (h : (t : ℕ)
      → IsFed fuel (m.buffers t) (bytes_for t ((s, bytes) ∷ pieces)) (sent t) (rest t)) where
  here : IsFed fuel (m.buffers s) (bytes ++ bytes_for s pieces) (sent s) (rest s)
  here =
      subst (λ later. IsFed fuel (m.buffers s) later (sent s) (rest s)) (bytes-same s bytes pieces)
        (h s)

  first_taken :
      Taken (stale 0) fuel s (m.buffers s ++ bytes) (bytes_for s pieces) (sent s) (rest s) m.world
  first_taken =
      let e : (m.buffers s ++ bytes) ++ bytes_for s pieces
          ≡ m.buffers s ++ (bytes ++ bytes_for s pieces) =
        append_assoc (m.buffers s) bytes (bytes_for s pieces) in
      read-IsTaken (stale 0) (handle_bytes s) request_packet (handle_packet s) fuel
        (m.buffers s ++ bytes) (bytes_for s pieces) (sent s) (rest s) m.world
        (All-IsWritten s (sent s) here.fits) here.unfinished (e ∙ here.bytes)
        (omega (
          arith,
          here.enough,
          ap length e,
          length-append (m.buffers s ++ bytes) (bytes_for s pieces),
        ))

  IsFed-on :
      (u : ℕ)
      → IsFed fuel
          (update m.buffers s first_taken.kept u)
          (bytes_for u pieces)
          (update sent s first_taken.then_ u)
          (rest u)
  IsFed-on u = elim (ℕ_discrete s u) [
    | yes e ↦
        subst
          (λ v.
            IsFed fuel (update m.buffers s first_taken.kept v) (bytes_for v pieces)
              (update sent s first_taken.then_ v) (rest v))
          e
          (rw (update_self m.buffers s first_taken.kept, update_self sent s first_taken.then_)
            (IsFed-taken (stale 0) fuel s (m.buffers s) bytes (bytes_for s pieces) (sent s) (rest s)
              m.world here first_taken))
    | no ne ↦
        rw
          (
            update_ne m.buffers s first_taken.kept u ne,
            update_ne sent s first_taken.then_ u ne,
            ← bytes-other s u bytes pieces ne,
          )
          (h u)
  ]

  abbrev next_machine : Machine
  next_machine = record {
    world = run (packets_of s first_taken.now) m.world;
    buffers = update m.buffers s first_taken.kept;
  }

  requests_on :
      (u : ℕ) (more : List (ℕ × Request))
      → requests_of u more ≡ update sent s first_taken.then_ u
      → requests_of u (each s first_taken.now ++ more) ≡ sent u
  requests_on u more e = elim (ℕ_discrete s u) [
    | yes same ↦
        subst (λ v. requests_of v (each s first_taken.now ++ more) ≡ sent v) same
          (of_same s first_taken.now more
            ∙ ap (◌++◌ first_taken.now) (
                subst (λ v. requests_of v more ≡ update sent s first_taken.then_ v) (sym same) e
                ∙ update_self sent s first_taken.then_)
            ∙ sym first_taken.whole)
    | no ne ↦ of_other s u first_taken.now more ne ∙ e ∙ update_ne sent s first_taken.then_ u ne
  ]

  IsServed-on :
      IsServed
        (λ arrival. stale (suc arrival))
        fuel
        pieces
        next_machine
        (update sent s first_taken.then_)
        rest
      → IsServed stale fuel ((s, bytes) ∷ pieces) m sent rest
  unfolding serve machine_step
  IsServed-on v = record {
    requests = each s first_taken.now ++ v.requests;
    after = v.after;
    ends =
        rw (serve, machine_step, first_taken.ends, act_each-run s first_taken.now m.world) v.ends;
    world = v.world ∙ sym (handled-each s first_taken.now v.requests m.world);
    order = λ u. requests_on u v.requests (v.order u);
    kept = v.kept;
  }

-- While every session's bytes, those in its buffer and those of the reads to come, are requests
-- whose values fit, as packets one after the other with an unfinished one behind them, and no
-- buffer holds a whole packet yet: the server on bytes, given more fuel than any session has bytes,
-- handles all the reads, and is then where the server on requests is after an interleaving of the
-- sessions' requests, each session's in its order; what is unfinished stays in the buffers.
pub serve-IsServed :
    (stale : ℕ → ℕ → List ℕ) (fuel : ℕ) (pieces : List (ℕ × List ℕ)) (m : Machine)
    (sent : ℕ → List Request) (rest : ℕ → List ℕ)
    → ((t : ℕ) → IsFed fuel (m.buffers t) (bytes_for t pieces) (sent t) (rest t))
    → IsServed stale fuel pieces m sent rest
unfolding serve run
serve-IsServed stale fuel [] m sent rest h =
    let read : (t : ℕ) → (sent t ≡ []) × (m.buffers t ≡ rest t) = λ t.
      all_read (handle_bytes t) request_packet (handle_packet t) (m.buffers t) (rest t) (sent t)
        (All-IsWritten t (sent t) (h t).fits) (h t).begun (h t).unfinished
        (sym (append-nil (m.buffers t)) ∙ (h t).bytes) in
    record {
      requests = [];
      after = m;
      ends = refl;
      world = refl;
      order = λ t. sym (read t).0;
      kept = λ t. (read t).1;
    }
serve-IsServed stale fuel ((s, bytes) ∷ pieces) m sent rest h =
    IsServed-on stale fuel s bytes pieces m sent rest h (
      serve-IsServed (λ arrival. stale (suc arrival)) fuel pieces
        (next_machine stale fuel s bytes pieces m sent rest h)
        (update sent s (first_taken stale fuel s bytes pieces m sent rest h).then_) rest
        (IsFed-on stale fuel s bytes pieces m sent rest h))
