-- ===== src/Client/Words.antt =====
-- The texts that the client puts together: std::to_string and strings joined by +.
use mmorpg_simulator.Common.{ℕ, zero, suc, ◌+◌, ◌/◌, ◌%◌, ltb, if◌then◌else◌, [], ◌∷◌, ◌++◌, Text}

-- The decimal digits of a number, twenty at most: what is printed has at most 64 bits.
abbrev pub decimal : ℕ → ℕ → Text
decimal zero n = []
decimal (suc k) n =
    let front = decimal k (n / 10) in
    if ltb n 10 then (48 + n) ∷ [] else front ++ (48 + n % 10) ∷ []

abbrev pub to_string : ℕ → Text
to_string n = decimal 20 n
