-- ===== src/Server/Handled.antt =====
-- What the loop of ProcessBuffer does on any bytes.
use mmorpg_simulator.Common.{
  ℕ, zero, suc, ◌-◌, ◌≤◌, ◌<◌, ◌≡◌, refl, sym, ap, ◌∙◌, subst, ◌⊎◌, inl, inr, none, some, List, [],
  ◌∷◌, ◌++◌, ◌||◌, true, false, arith, ltb, length, length-drop, take, drop, take-append-drop,
  Bool-cases,
}
use native.Mathlib.Decide.{ℕ_discrete}
use mathlib.Core.List.{append_assoc}
use mmorpg_simulator.Framing.{
  Incoming, packet_length, packet_code, first_packet, with_first, process_buffer,
}
use mmorpg_simulator.Framing.Loop.{loop}
use mmorpg_simulator.Framing.Endless.{HasZeroLength, here, behind}
use mmorpg_simulator.World.Data.{World}
use mmorpg_simulator.Server.{run, step, handle_packet}
use mmorpg_simulator.Server.Packets.{Request}
use mmorpg_simulator.Server.Machine.{process_packets}
use mmorpg_simulator.Server.Serving.{packets_of}
use mmorpg_simulator.Wire.Requests.{read_request}

-- Requests as they are read from packets, each from its packet's type and body; what lies behind
-- a body is read where a packet is shorter than its type.
pub data AreRead : List Incoming → List Request → Type 0 where
  none_read : AreRead [] []
  then_read :
      (k : Incoming) (more : List ℕ) {ks : List Incoming} {rs : List Request}
      → AreRead ks rs
      → AreRead (k ∷ ks) (read_request k.code (k.body ++ more) ∷ rs)

drop-four : (b more : List ℕ) → 4 ≤ length b → drop 4 (b ++ more) ≡ drop 4 b ++ more
drop-four [] more h = absurd (omega (arith, h))
drop-four (_ ∷ []) more h = absurd (omega (arith, h))
drop-four (_ ∷ _ ∷ []) more h = absurd (omega (arith, h))
drop-four (_ ∷ _ ∷ _ ∷ []) more h = absurd (omega (arith, h))
drop-four (_ ∷ _ ∷ _ ∷ _ ∷ b) more h = refl

-- The payload that a handler gets begins with the packet's body.
payload-body :
    (b more : List ℕ)
    → 4 ≤ length b
    → (first_packet b).body ++ (drop (packet_length b - 4) (drop 4 b) ++ more) ≡ drop 4 (b ++ more)
payload-body b more h =
    let n : ℕ = packet_length b - 4 in
    sym (append_assoc (take n (drop 4 b)) (drop n (drop 4 b)) more)
    ∙ ap (λ xs. xs ++ more) (take-append-drop n (drop 4 b))
    ∙ sym (drop-four b more h)

AreRead-first :
    (b more : List ℕ) (ks : List Incoming) (rs : List Request)
    → 4 ≤ length b
    → AreRead ks rs
    → AreRead (first_packet b ∷ ks) (read_request (packet_code b) (drop 4 (b ++ more)) ∷ rs)
AreRead-first b more ks rs h v =
    subst (λ p. AreRead (first_packet b ∷ ks) (read_request (packet_code b) p ∷ rs))
      (payload-body b more h)
      (then_read (first_packet b) (drop (packet_length b - 4) (drop 4 b) ++ more) v)

-- The loop ends: it has cut the packets off the front of the buffer and handled the requests that
-- it read from them.
pub record IsHandled (stale : ℕ → List ℕ) (fuel s : ℕ) (b : List ℕ) (w : World) : Type 0 where
  pub packets : List Incoming
  pub requests : List Request
  pub rest : List ℕ
  pub cut : process_buffer fuel b ≡ some (packets, rest)
  pub read : AreRead packets requests
  pub ends : process_packets stale fuel s b w ≡ some (rest, run (packets_of s requests) w)
  pub fewer : length requests < fuel
  pub shorter : length rest ≤ length b

stops :
    (stale : ℕ → List ℕ) (fuel s : ℕ) (b : List ℕ) (w : World)
    → ltb (length b) 4 || ltb (length b) (packet_length b) ≡ true
    → IsHandled stale (suc fuel) s b w
unfolding loop run process_buffer
stops stale fuel s b w h = record {
  packets = [];
  requests = [];
  rest = b;
  cut = ground arith;
  read = none_read;
  ends = ground arith;
  fewer = omega arith;
  shorter = omega arith;
}

goes :
    (stale : ℕ → List ℕ) (fuel s : ℕ) (b : List ℕ) (w : World)
    → ltb (length b) 4 || ltb (length b) (packet_length b) ≡ false
    → process_packets stale (suc fuel) s b w
      ≡ process_packets
          (λ pass. stale (suc pass))
          fuel
          s
          (drop (packet_length b) b)
          (handle_packet s (read_request (packet_code b) (drop 4 (b ++ stale 0))) w)
unfolding loop
goes stale fuel s b w long = ground arith

cuts :
    (fuel : ℕ) (b : List ℕ)
    → ltb (length b) 4 || ltb (length b) (packet_length b) ≡ false
    → process_buffer (suc fuel) b
      ≡ with_first (first_packet b) (process_buffer fuel (drop (packet_length b) b))
unfolding process_buffer
cuts fuel b long = ground arith

goes_on :
    (stale : ℕ → List ℕ) (fuel s : ℕ) (b : List ℕ) (w : World)
    → ltb (length b) 4 || ltb (length b) (packet_length b) ≡ false
    → IsHandled
        (λ pass. stale (suc pass))
        fuel
        s
        (drop (packet_length b) b)
        (handle_packet s (read_request (packet_code b) (drop 4 (b ++ stale 0))) w)
    → IsHandled stale (suc fuel) s b w
unfolding run step handle_packet
goes_on stale fuel s b w long v = record {
  packets = first_packet b ∷ v.packets;
  requests = read_request (packet_code b) (drop 4 (b ++ stale 0)) ∷ v.requests;
  rest = v.rest;
  cut = cuts fuel b long ∙ ap (with_first (first_packet b)) v.cut;
  read = AreRead-first b (stale 0) v.packets v.requests (ground arith) v.read;
  ends = goes stale fuel s b w long ∙ v.ends;
  fewer = omega (arith, v.fewer);
  shorter = omega (arith, v.shorter, length-drop (packet_length b) b);
}

pub process-cases :
    (stale : ℕ → List ℕ) (fuel s : ℕ) (b : List ℕ) (w : World)
    → length b < fuel
    → IsHandled stale fuel s b w ⊎ HasZeroLength b
process-cases stale zero s b w lt = elim lt [ ]
process-cases stale (suc fuel) s b w lt =
    let n : ℕ = packet_length b in
    elim (Bool-cases (ltb (length b) 4 || ltb (length b) n)) [
      | inl short ↦ inl (stops stale fuel s b w short)
      | inr long ↦ elim (ℕ_discrete n 0) [
        | yes idle ↦ inr (here (ground arith) idle)
        | no moves ↦
            let shorter : length (drop n b) < fuel = ground (arith, length-drop n b) in
            elim (process-cases (λ pass. stale (suc pass)) fuel s (drop n b)
              (handle_packet s (read_request (packet_code b) (drop 4 (b ++ stale 0))) w) shorter) [
                | inl v ↦ inl (goes_on stale fuel s b w long v)
                | inr zero_length ↦ inr (behind (ground arith) (ground arith) zero_length)
              ]
      ]
    ]

-- Where the loop comes to a header that says length 0, it does not end, whatever lies behind the
-- bytes in use.
pub zero_length_stuck :
    (stale : ℕ → List ℕ) (fuel s : ℕ) (b : List ℕ) (w : World)
    → HasZeroLength b
    → process_packets stale fuel s b w ≡ none
unfolding loop
zero_length_stuck stale zero s b w h = refl
zero_length_stuck stale (suc fuel) s b w (here size idle) = ground (
  arith,
  zero_length_stuck (λ pass. stale (suc pass)) fuel s b
      (handle_packet s (read_request (packet_code b) (drop 4 (b ++ stale 0))) w) (here size idle),
)
zero_length_stuck stale (suc fuel) s b w (behind size whole h) = ground (
  arith,
  zero_length_stuck (λ pass. stale (suc pass)) fuel s (drop (packet_length b) b)
      (handle_packet s (read_request (packet_code b) (drop 4 (b ++ stale 0))) w) h,
)
