-- ===== src/Loader/Ends.antt =====
-- When the loop over the objects of a file ends.
use mmorpg_simulator.Common.{
  ℕ, zero, suc, ◌≤◌, ◌<◌, ◌≡◌, refl, ◌⊎◌, inl, inr, none, some, List, [], ◌∷◌, arith, length, drop,
  Text, Option-cases,
}
use mmorpg_simulator.Loader.{objects, find_char, up_to_char}

-- Some opening brace is closed by none that follows.
pub data IsOpen : Text → Type 0 where
  here : (rest t : Text) → find_char 123 rest ≡ some t → find_char 125 t ≡ none → IsOpen rest
  later :
      (rest t u : Text)
      → find_char 123 rest ≡ some t
      → find_char 125 t ≡ some u
      → IsOpen (drop 1 u)
      → IsOpen rest

find_char-le :
    (c : ℕ) (s t : Text) → find_char c s ≡ some t → (1 ≤ length t) × (length t ≤ length s)
unfolding find_char
find_char-le c [] t e = cc
find_char-le c (b ∷ s) t e = ground (arith, find_char-le c s t)

drop-lt : (u : Text) → 1 ≤ length u → length (drop 1 u) < length u
drop-lt [] h = omega (arith, h)
drop-lt (b ∷ u) h = omega arith

open-none : (fuel : ℕ) (all rest : Text) → IsOpen all → IsOpen rest → objects fuel all rest ≡ none
unfolding objects
open-none zero all rest h o = refl
open-none (suc fuel) all rest h (here _ t e none_) =
    rw (objects, e, none_, open-none fuel all all h h) refl
open-none (suc fuel) all rest h (later _ t u e e' o) =
    rw (objects, e, e', open-none fuel all (drop 1 u) h o) refl

closed-some :
    (fuel : ℕ) (all rest : Text)
    → length rest < fuel
    → ((objs : List Text) × (objects fuel all rest ≡ some objs)) ⊎ IsOpen rest
unfolding objects
closed-some zero all rest lt = elim lt [ ]
closed-some (suc fuel) all rest lt = elim (Option-cases (find_char 123 rest)) [
  | inl none_ ↦ inl ([], rw (objects, none_) refl)
  | inr (t, e) ↦ elim (Option-cases (find_char 125 t)) [
    | inl none_ ↦ inr (here rest t e none_)
    | inr (u, e') ↦
        let shorter : length (drop 1 u) < fuel = omega (
          arith,
          lt,
          find_char-le 123 rest t e,
          find_char-le 125 t u e',
          drop-lt u (find_char-le 125 t u e').0,
        ) in
        elim (closed-some fuel all (drop 1 u) shorter) [
          | inl (objs, o) ↦ inl (up_to_char 125 t ∷ objs, rw (objects, e, e', o) refl)
          | inr o ↦ inr (later rest t u e e' o)
        ]
  ]
]

-- On more fuel than there are characters the loop over the objects of an array gives its objects, or
-- some brace of the array is not closed and the loop ends on no amount of fuel.
pub objects_end :
    (fuel : ℕ) (arr : Text)
    → length arr < fuel
    → ((objs : List Text) × (objects fuel arr arr ≡ some objs))
      ⊎ (IsOpen arr × ((more : ℕ) → objects more arr arr ≡ none))
objects_end fuel arr lt = elim (closed-some fuel arr arr lt) [
  | inl ends ↦ inl ends
  | inr o ↦ inr (o, λ more. open-none more arr arr o o)
]
