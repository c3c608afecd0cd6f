-- ===== src/Framing/Chunks.antt =====
-- The reads of Session::DoRead, and that the loop gives one result on every fuel that is enough.
use mmorpg_simulator.Common.{
  ℕ, zero, suc, ◌+◌, ◌≤◌, ◌≡◌, sym, ◌∙◌, ◌⊎◌, inl, inr, Option, none, some, List, [], ◌∷◌, ◌++◌,
  arith, ltb, length, ◌||◌, drop, Bool-cases, Option-cases,
}
use native.Mathlib.Nat.{add_comm}
use mmorpg_simulator.Framing.RoundTrip.{IsPartial}
use mmorpg_simulator.Framing.{Incoming, process_buffer, packet_length, first_packet}

abbrev pub before :
    List Incoming → Option (List Incoming × List ℕ) → Option (List Incoming × List ℕ)
before ks none = none
before ks (some (js, rest)) = some (ks ++ js, rest)

-- One read after the other: each chunk is put behind what stayed, and the loop runs.
unfoldable pub receive : ℕ → List (List ℕ) → List ℕ → Option (List Incoming × List ℕ)
receive fuel [] buffer = some ([], buffer)
receive fuel (c ∷ cs) buffer = elim (process_buffer fuel (buffer ++ c)) [
  | none ↦ none
  | some (ks, rest) ↦ before ks (receive fuel cs rest)
]

suc-add : (n m : ℕ) → suc (n + m) ≡ suc n + m
suc-add n m = omega arith

-- One round of the loop, in the three ways in which it can go.
abbrev Round : ℕ → List ℕ → List Incoming × List ℕ → Type 0
Round fuel buffer r =
    (IsPartial buffer × (r ≡ ([], buffer)))
    ⊎ ((ks : List Incoming) × (rest : List ℕ) × (4 ≤ length buffer)
        × (packet_length buffer ≤ length buffer)
        × (process_buffer fuel (drop (packet_length buffer) buffer) ≡ some (ks, rest))
        × (r ≡ (first_packet buffer ∷ ks, rest)))

Round-cases :
    (fuel : ℕ) (buffer : List ℕ) (r : List Incoming × List ℕ)
    → process_buffer (suc fuel) buffer ≡ some r
    → Round fuel buffer r
unfolding process_buffer
Round-cases fuel buffer r e =
    elim (Option-cases (process_buffer fuel (drop (packet_length buffer) buffer))) [
      | inl none_ ↦ inl (ground arith)
      | inr ((ks, rest), later) ↦
          elim (Bool-cases (ltb (length buffer) 4 || ltb (length buffer) (packet_length buffer))) [
            | inl short ↦ inl (ground arith)
            | inr long ↦ inr (ks, rest, ground arith, ground arith, later, ground arith)
          ]
    ]

round-partial :
    (fuel : ℕ) (buffer : List ℕ)
    → IsPartial buffer
    → process_buffer (suc fuel) buffer ≡ some ([], buffer)
unfolding process_buffer
round-partial fuel buffer h = ground arith

round-first :
    (fuel : ℕ) (buffer : List ℕ) (ks : List Incoming) (rest : List ℕ)
    → 4 ≤ length buffer
    → packet_length buffer ≤ length buffer
    → process_buffer fuel (drop (packet_length buffer) buffer) ≡ some (ks, rest)
    → process_buffer (suc fuel) buffer ≡ some (first_packet buffer ∷ ks, rest)
unfolding process_buffer
round-first fuel buffer ks rest size whole later = ground arith

-- More fuel does not change a result.
process-more_fuel :
    (fuel : ℕ) (buffer : List ℕ) (r : List Incoming × List ℕ) (more : ℕ)
    → process_buffer fuel buffer ≡ some r
    → process_buffer (fuel + more) buffer ≡ some r
unfolding process_buffer
process-more_fuel zero buffer r more e = cc
process-more_fuel (suc fuel) buffer r more e =
    rw (← suc-add fuel more) (elim (Round-cases fuel buffer r e) [
      | inl (part, q) ↦ rw q (round-partial (fuel + more) buffer part)
      | inr (ks, rest, size, whole, later, q) ↦ rw q (
          round-first (fuel + more) buffer ks rest size whole
            (process-more_fuel fuel (drop (packet_length buffer) buffer) (ks, rest) more later))
    ])

unfoldable pub stream : List (List ℕ) → List ℕ
stream [] = []
stream (c ∷ cs) = c ++ stream cs

pub process_unique :
    (f g : ℕ) (buffer : List ℕ) (r r' : List Incoming × List ℕ)
    → process_buffer f buffer ≡ some r
    → process_buffer g buffer ≡ some r'
    → r ≡ r'
process_unique f g buffer r r' e e' =
    let a : process_buffer (f + g) buffer ≡ some r = process-more_fuel f buffer r g e in
    let b : process_buffer (f + g) buffer ≡ some r' =
      rw (add_comm f g) (process-more_fuel g buffer r' f e') in
    cc (sym a ∙ b)
