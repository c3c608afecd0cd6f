-- ===== src/Framing/Loop.antt =====
-- The loop that cuts packets off the front of a buffer and calls a handler for each with a pointer
-- to its payload: ProcessBuffer of GameServer/Session.cpp and ProcessPackets of
-- GameClient/TcpClient.cpp.
use mmorpg_simulator.Common.{
  ℕ, zero, suc, ◌+◌, ◌≤◌, ◌<◌, ◌≡◌, ap, ◌∙◌, Option, none, some, List, [], ◌∷◌, ◌++◌, arith, ltb,
  length, length-append, drop, All, if◌then◌else◌,
}
use mathlib.Core.List.{append_assoc}
use mmorpg_simulator.Protocol.{header_size}
use mmorpg_simulator.Framing.{Incoming, frame, packet_length, packet_code}
use mmorpg_simulator.Framing.RoundTrip.{drop-append, IsSendable, IsPartial, frames}
use mmorpg_simulator.Framing.Delivery.{frame-length, frame-ge}

-- `stale`: what lies in memory behind the bytes in use, for each pass of the loop, the first as 0;
-- `handle`: the handlers, on the type and on the bytes from the payload on. `none`: the fuel ran
-- out.
unfoldable pub loop :
    {S : Type 0} → (ℕ → List ℕ) → (ℕ → List ℕ → S → S) → ℕ → List ℕ → S → Option (List ℕ × S)
loop stale handle zero buffer st = none
loop stale handle (suc fuel) buffer st =
    let payload = drop header_size (buffer ++ stale 0) in
    let later =
      loop (λ pass. stale (suc pass)) handle fuel (drop (packet_length buffer) buffer)
        (handle (packet_code buffer) payload st) in
    if ltb (length buffer) header_size
    then some (buffer, st)
    else if ltb (length buffer) (packet_length buffer)
    then some (buffer, st)
    else later

-- The fields of a frame that begins a buffer.
record IsBegun (k : Incoming) (buffer more : List ℕ) : Type 0 where
  code : packet_code buffer ≡ k.code
  least : 4 ≤ length buffer
  whole : packet_length buffer ≤ length buffer
  payload : (stale : List ℕ) → drop 4 (buffer ++ stale) ≡ k.body ++ (more ++ stale)
  behind : drop (packet_length buffer) buffer ≡ more

frame-IsBegun : (k : Incoming) (more : List ℕ) → IsSendable k → IsBegun k (frame k ++ more) more
unfolding frame
frame-IsBegun k more h =
    let size : packet_length (frame k ++ more) ≡ length (frame k) = frame-length k more h in
    let long : length (frame k ++ more) ≡ length (frame k) + length more =
      length-append (frame k) more in
    record {
      code = omega (arith, h.known);
      least = omega (arith, long, frame-ge k);
      whole = omega (arith, long, size);
      payload = λ stale. ap (drop 4) (append_assoc (frame k) more stale);
      behind = ap (λ n. drop n (frame k ++ more)) size ∙ drop-append (frame k) more;
    }

-- Messages of a type `X` that are written as packets, and from which the handler knows each.
pub record IsWritten {S X : Type 0} (handle : ℕ → List ℕ → S → S) (packet_of : X → Incoming)
    (act : X → S → S) (x : X) : Type 0 where
  pub sendable : IsSendable (packet_of x)
  pub known :
      (more : List ℕ) (st : S)
      → handle (packet_of x).code ((packet_of x).body ++ more) st ≡ act x st

abbrev pub packets_for : {X : Type 0} → (X → Incoming) → List X → List Incoming
packets_for f [] = []
packets_for f (x ∷ xs) = f x ∷ packets_for f xs

abbrev pub act_each : {S X : Type 0} → (X → S → S) → List X → S → S
act_each act [] st = st
act_each act (x ∷ xs) st = act_each act xs (act x st)

module _ {S X : Type 0} (handle : ℕ → List ℕ → S → S) (packet_of : X → Incoming)
    (act : X → S → S) where
  loop-partial :
      (stale : ℕ → List ℕ) (fuel : ℕ) (buffer : List ℕ) (st : S)
      → IsPartial buffer
      → loop stale handle (suc fuel) buffer st ≡ some (buffer, st)
  unfolding loop
  loop-partial stale fuel buffer st h = ground arith

  loop-begun :
      (stale : ℕ → List ℕ) (fuel : ℕ) (x : X) (buffer more : List ℕ) (st : S)
      → IsWritten handle packet_of act x
      → IsBegun (packet_of x) buffer more
      → loop stale handle (suc fuel) buffer st
        ≡ loop (λ pass. stale (suc pass)) handle fuel more (act x st)
  unfolding loop
  loop-begun stale fuel x buffer more st h b =
      rw (b.code, b.payload (stale 0), h.known (more ++ stale 0) st, b.behind)
        (ground (arith, b.least, b.whole))

  -- Whole packets are handled one after the other.
  pub loop-frames :
      (stale : ℕ → List ℕ) (fuel : ℕ) (xs : List X) (rest : List ℕ) (st : S)
      → All (IsWritten handle packet_of act) xs
      → IsPartial rest
      → length (frames (packets_for packet_of xs) ++ rest) < fuel
      → loop stale handle fuel (frames (packets_for packet_of xs) ++ rest) st
        ≡ some (rest, act_each act xs st)
  loop-frames stale zero xs rest st h partial lt = elim lt [ ]
  loop-frames stale (suc fuel) [] rest st h partial lt = loop-partial stale fuel rest st partial
  loop-frames stale (suc fuel) (x ∷ xs) rest st h partial lt =
      let k : Incoming = packet_of x in
      let more : List ℕ = frames (packets_for packet_of xs) ++ rest in
      let split : frames (packets_for packet_of (x ∷ xs)) ++ rest ≡ frame k ++ more =
        append_assoc (frame k) (frames (packets_for packet_of xs)) rest in
      let shorter : length more < fuel =
        omega (arith, lt, ap length split, length-append (frame k) more, frame-ge k) in
      ap (λ b. loop stale handle (suc fuel) b st) split
      ∙ loop-begun stale fuel x (frame k ++ more) more st h.0 (frame-IsBegun k more h.0.sendable)
      ∙ loop-frames (λ pass. stale (suc pass)) fuel xs rest (act x st) h.1 partial shorter
