-- ===== src/Client/Maps.antt =====
-- std::map, of which GameClient/main.cpp uses operator[], erase, count and the loop over all entries.
use mmorpg_simulator.Common.{
  ℕ, ◌≡◌, ◌≢◌, refl, ◌==◌, ltb, if◌then◌else◌, Option, none, some, List, [], ◌∷◌, arith,
}

module _ {V : Type 0} where
  unfoldable pub find_key : ℕ → List (ℕ × V) → Option V
  find_key k [] = none
  find_key k ((j, v) ∷ m) = if k == j then some v else find_key k m

  unfoldable pub put_key : ℕ → V → List (ℕ × V) → List (ℕ × V)
  put_key k v [] = (k, v) ∷ []
  put_key k v ((j, u) ∷ m) =
      if ltb k j then (k, v) ∷ (j, u) ∷ m else if k == j then (k, v) ∷ m else (j, u) ∷ put_key k v m

  unfoldable pub erase_key : ℕ → List (ℕ × V) → List (ℕ × V)
  erase_key k [] = []
  erase_key k ((j, u) ∷ m) = if k == j then m else (j, u) ∷ erase_key k m

  pub find-put_self : (k : ℕ) (v : V) (m : List (ℕ × V)) → find_key k (put_key k v m) ≡ some v
  unfolding find_key put_key
  find-put_self k v [] = ground arith
  find-put_self k v ((j, u) ∷ m) = ground (arith, find-put_self k v m)

  pub find-put_ne :
      (k i : ℕ) (v : V) (m : List (ℕ × V)) → i ≢ k → find_key i (put_key k v m) ≡ find_key i m
  unfolding find_key put_key
  find-put_ne k i v [] ne = ground arith
  find-put_ne k i v ((j, u) ∷ m) ne = ground (arith, find-put_ne k i v m ne)

  pub find-erase_ne :
      (k i : ℕ) (m : List (ℕ × V)) → i ≢ k → find_key i (erase_key k m) ≡ find_key i m
  unfolding find_key erase_key
  find-erase_ne k i [] ne = refl
  find-erase_ne k i ((j, u) ∷ m) ne = ground (arith, find-erase_ne k i m ne)
