-- ===== src/Framing/RoundTrip.antt =====
-- What is sent is what is received.
use mmorpg_simulator.Common.{
  ℕ, zero, suc, ◌+◌, ◌-◌, ◌≤◌, ◌<◌, ◌≡◌, refl, ap, ◌⊎◌, some, List, [], ◌∷◌, ◌++◌, arith, length,
  length-append, take, drop, All, u16,
}
use mathlib.Core.List.{append_assoc}
use mmorpg_simulator.Framing.{
  Incoming, frame, process_buffer, packet_length, with_first, word, bytes16,
}

-- A packet that Send can write: its length and its type fit into the header.
pub record IsSendable (k : Incoming) : Type 0 where
  pub fits : 4 + length k.body < 65536
  pub known : k.code < 65536

-- Bytes that hold no whole packet.
abbrev pub IsPartial : List ℕ → Type 0
IsPartial rest = (length rest < 4) ⊎ (length rest < packet_length rest)

pub take-append : (xs ys : List ℕ) → take (length xs) (xs ++ ys) ≡ xs
take-append [] ys = refl
take-append (x ∷ xs) ys = ap (◌∷◌ x) (take-append xs ys)

pub drop-append : (xs ys : List ℕ) → drop (length xs) (xs ++ ys) ≡ ys
drop-append [] ys = refl
drop-append (x ∷ xs) ys = drop-append xs ys

abbrev pub frames : List Incoming → List ℕ
frames [] = []
frames (k ∷ ks) = frame k ++ frames ks

pub process-partial :
    (fuel : ℕ) (rest : List ℕ) → IsPartial rest → process_buffer (suc fuel) rest ≡ some ([], rest)
unfolding process_buffer
process-partial fuel rest h = ground arith

-- The first packet of a buffer that begins with a frame.
pub process-frame :
    (fuel : ℕ) (k : Incoming) (more : List ℕ)
    → IsSendable k
    → process_buffer (suc fuel) (frame k ++ more) ≡ with_first k (process_buffer fuel more)
unfolding process_buffer frame
process-frame fuel k more h =
    let n : ℕ = length k.body in
    let len : word (bytes16 (u16 (4 + n))) ≡ suc (suc (suc (suc n))) = omega (arith, h.fits) in
    let code : word (bytes16 k.code) ≡ k.code = omega (arith, h.known) in
    let rest : suc (suc (suc (suc n))) - 4 ≡ n = omega arith in
    rw (len, code, rest, take-append k.body more, drop-append k.body more)
      (ground (arith, length-append k.body more))

process-frames :
    (fuel : ℕ) (ks : List Incoming) (rest : List ℕ)
    → All IsSendable ks
    → IsPartial rest
    → length ks < fuel
    → process_buffer fuel (frames ks ++ rest) ≡ some (ks, rest)
process-frames zero ks rest h partial lt = elim lt [ ]
process-frames (suc fuel) [] rest h partial lt = process-partial fuel rest partial
process-frames (suc fuel) (k ∷ ks) rest h partial lt =
    rw
      (
        append_assoc (frame k) (frames ks) rest,
        process-frame fuel k (frames ks ++ rest) h.0,
        process-frames fuel ks rest h.1 partial (omega arith),
      )
      refl

frames-length-le : (ks : List Incoming) → length ks ≤ length (frames ks)
unfolding frame
frames-length-le [] = omega arith
frames-length-le (k ∷ ks) = omega (arith, frames-length-le ks, length-append (frame k) (frames ks))

-- Any packets that were sent one after the other, with an unfinished one behind them, are cut into
-- the same packets in the same order, and what is unfinished stays in the buffer. More fuel than
-- there are bytes is enough.
pub process_buffer-frames :
    (fuel : ℕ) (ks : List Incoming) (rest : List ℕ)
    → All IsSendable ks
    → IsPartial rest
    → length (frames ks ++ rest) < fuel
    → process_buffer fuel (frames ks ++ rest) ≡ some (ks, rest)
process_buffer-frames fuel ks rest h partial lt =
    process-frames fuel ks rest h partial
      (omega (arith, frames-length-le ks, length-append (frames ks) rest))
