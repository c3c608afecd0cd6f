-- ===== src/Framing/Endless.antt =====
-- When ProcessBuffer ends.
use mmorpg_simulator.Common.{
  ℕ, zero, suc, ◌≤◌, ◌<◌, ◌≡◌, refl, ◌⊎◌, inl, inr, none, some, List, [], ◌∷◌, ◌||◌, arith, ltb,
  length, drop, length-drop, Bool-cases,
}
use native.Mathlib.Decide.{ℕ_discrete}
use mmorpg_simulator.Framing.{Incoming, process_buffer, packet_length, first_packet}

-- With a header that says length 0 at the front of the buffer the loop ends on no amount of fuel.
pub zero_length_endless :
    (fuel : ℕ) (buffer : List ℕ)
    → 4 ≤ length buffer
    → packet_length buffer ≡ 0
    → process_buffer fuel buffer ≡ none
unfolding process_buffer
zero_length_endless zero buffer size zero_length = refl
zero_length_endless (suc fuel) buffer size zero_length =
    ground (arith, zero_length_endless fuel buffer size zero_length)

-- The loop comes to a header that says length 0: it stands at the front, or behind whole packets,
-- each as long as its own header says.
pub data HasZeroLength : List ℕ → Type 0 where
  here : {b : List ℕ} → 4 ≤ length b → packet_length b ≡ 0 → HasZeroLength b
  behind :
      {b : List ℕ}
      → 4 ≤ length b
      → packet_length b ≤ length b
      → HasZeroLength (drop (packet_length b) b)
      → HasZeroLength b

zero_length_lost :
    (fuel : ℕ) (buffer : List ℕ) → HasZeroLength buffer → process_buffer fuel buffer ≡ none
unfolding process_buffer
zero_length_lost zero buffer h = refl
zero_length_lost (suc fuel) buffer (here size zero_length) =
    zero_length_endless (suc fuel) buffer size zero_length
zero_length_lost (suc fuel) buffer (behind size whole h) =
    ground (arith, zero_length_lost fuel (drop (packet_length buffer) buffer) h)

-- With more fuel than there are bytes the loop ends, whatever the bytes; or it comes, behind whole
-- packets, to a header that says length 0, and then it ends on no amount of fuel.
pub ends_or_zero_length :
    (fuel : ℕ) (buffer : List ℕ)
    → length buffer < fuel
    → ((ks : List Incoming) × (rest : List ℕ) × (process_buffer fuel buffer ≡ some (ks, rest)))
      ⊎ (HasZeroLength buffer × ((more : ℕ) → process_buffer more buffer ≡ none))
unfolding process_buffer
ends_or_zero_length zero buffer lt = elim lt [ ]
ends_or_zero_length (suc fuel) buffer lt =
    let n : ℕ = packet_length buffer in
    elim (Bool-cases (ltb (length buffer) 4 || ltb (length buffer) n)) [
      | inl short ↦ inl ([], buffer, ground arith)
      | inr long ↦ elim (ℕ_discrete n 0) [
        | yes zero_length ↦
            let h : HasZeroLength buffer = here (ground arith) zero_length in
            inr (h, λ more. zero_length_lost more buffer h)
        | no moves ↦
            elim (ends_or_zero_length fuel (drop n buffer) (ground (arith, length-drop n buffer))) [
              | inl (ks, rest, e) ↦ inl (first_packet buffer ∷ ks, rest, ground (arith, e))
              | inr (later, lost) ↦
                  let h : HasZeroLength buffer = behind (ground arith) (ground arith) later in
                  inr (h, λ more. zero_length_lost more buffer h)
            ]
      ]
    ]
