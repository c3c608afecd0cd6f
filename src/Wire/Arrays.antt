-- ===== src/Wire/Arrays.antt =====
-- Arrays in a struct: texts in char arrays, and entries behind their count.
use mmorpg_simulator.Common.{
  ℕ, zero, suc, ◌+◌, ◌-◌, ◌*◌, ◌≤◌, ◌<◌, ◌≡◌, refl, ap, ◌∙◌, List, [], ◌∷◌, ◌++◌, arith, ◌==◌,
  if◌then◌else◌, leb, le→leb, length, length-append, length-replicate, take, drop, replicate, All,
  Text,
}
use mathlib.Core.List.{append_assoc}
use mmorpg_simulator.Framing.RoundTrip.{take-append}
use mmorpg_simulator.Wire.Codec.{Codec, get_number, put_number, drop_front}

-- A char array: the bytes of a text, and zeros behind them, of which the text leaves room for one.
-- The text of an array without a zero is taken to end with the array.
abbrev pub until_zero : List ℕ → Text
until_zero [] = []
until_zero (b ∷ bs) = if b == 0 then [] else b ∷ until_zero bs

abbrev pub IsChar : ℕ → Type 0
IsChar b = (0 < b) × (b < 256)

until_zero-zeros : (t : Text) (n : ℕ) → All IsChar t → until_zero (t ++ replicate n 0) ≡ t
until_zero-zeros [] zero h = refl
until_zero-zeros [] (suc n) h = refl
until_zero-zeros (b ∷ t) n h = ground (arith, until_zero-zeros t n h.1, h.0)

pub put_chars-size :
    (n : ℕ) (t : Text) → length t < n → length (t ++ replicate (n - length t) 0) ≡ n
put_chars-size n t h =
    omega (
      arith,
      length-append t (replicate (n - length t) 0),
      length-replicate {A = ℕ} (n - length t) 0,
    )

take_front : (n : ℕ) (xs ys : List ℕ) → length xs ≡ n → take n (xs ++ ys) ≡ xs
take_front n xs ys e = rw (← e) (take-append xs ys)

pub chars-get_put :
    (n : ℕ) (t : Text) (more : List ℕ)
    → (length t < n) × All IsChar t
    → until_zero (take n ((t ++ replicate (n - length t) 0) ++ more)) ≡ t
chars-get_put n t more (h, k) =
    ap until_zero (take_front n (t ++ replicate (n - length t) 0) more (put_chars-size n t h))
    ∙ until_zero-zeros t (n - length t) k

abbrev pub chars : ℕ → Codec Text
chars n = record {
  size = n;
  put = λ t. t ++ replicate (n - length t) 0;
  get = λ bs. until_zero (take n bs);
  fits = λ t. (length t < n) × All IsChar t;
  put_size = λ t h. put_chars-size n t h.0;
  get_put = chars-get_put n;
}

-- An array of `n` entries behind the byte that counts those in use; the others are zero.
module _ {A : Type 0} (c : Codec A) where
  abbrev pub put_each : List A → List ℕ
  put_each [] = []
  put_each (a ∷ vs) = c.put a ++ put_each vs

  abbrev pub get_each : ℕ → List ℕ → List A
  get_each zero bs = []
  get_each (suc k) bs = c.get bs ∷ get_each k (drop c.size bs)

  get_each-put_each :
      (vs : List A) (more : List ℕ)
      → All c.fits vs
      → get_each (length vs) (put_each vs ++ more) ≡ vs
  get_each-put_each [] more h = refl
  get_each-put_each (a ∷ vs) more (h, k) =
      rw (append_assoc (c.put a) (put_each vs) more, c.get_put a (put_each vs ++ more) h)
        (ap (λ bs. a ∷ get_each (length vs) bs)
            (drop_front c.size (c.put a) (put_each vs ++ more) (c.put_size a h))
          ∙ ap (◌∷◌ a) (get_each-put_each vs more k))

  put_each-size : (vs : List A) → All c.fits vs → length (put_each vs) ≡ length vs * c.size
  put_each-size [] h = omega arith
  put_each-size (a ∷ vs) (h, k) =
      grind (arith, length-append (c.put a) (put_each vs), c.put_size a h, put_each-size vs k)

  -- A count above the size of the array reads the whole array.
  abbrev pub get_counted : ℕ → List ℕ → List A
  get_counted n bs = let k = get_number 1 bs in get_each (if leb k n then k else n) (drop 1 bs)

  abbrev pub put_counted : ℕ → List A → List ℕ
  put_counted n vs =
      put_number 1 (length vs) ++ (put_each vs ++ replicate ((n - length vs) * c.size) 0)

  abbrev pub FitsCounted : ℕ → List A → Type 0
  FitsCounted n vs = (length vs ≤ n) × (length vs < 256) × All c.fits vs

  pub put_counted-size :
      (n : ℕ) (vs : List A) → FitsCounted n vs → length (put_counted n vs) ≡ 1 + n * c.size
  put_counted-size n vs (le, byte, h) =
      let zeros : ℕ = (n - length vs) * c.size in
      let split : n * c.size ≡ length vs * c.size + zeros = grind arith in
      omega (
        arith,
        length-append (put_number 1 (length vs)) (put_each vs ++ replicate zeros 0),
        length-append (put_each vs) (replicate zeros 0),
        put_each-size vs h,
        length-replicate {A = ℕ} zeros 0,
        split,
      )

  pub counted-get_put :
      (n : ℕ) (vs : List A) (more : List ℕ)
      → FitsCounted n vs
      → get_counted n (put_counted n vs ++ more) ≡ vs
  counted-get_put n vs more (le, byte, h) =
      let behind : List ℕ = replicate ((n - length vs) * c.size) 0 in
      let count : get_number 1 (put_counted n vs ++ more) ≡ length vs = omega (arith, byte) in
      rw (count, le→leb (length vs) n le, append_assoc (put_each vs) behind more)
        (get_each-put_each vs (behind ++ more) h)

  abbrev pub counted : ℕ → Codec (List A)
  counted n = record {
    size = 1 + n * c.size;
    put = put_counted n;
    get = get_counted n;
    fits = FitsCounted n;
    put_size = put_counted-size n;
    get_put = counted-get_put n;
  }
