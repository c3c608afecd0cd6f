-- ===== src/Wire/Codec.antt =====
-- How a packed struct lies in memory: a number of so many bytes, and one field behind another. `get`
-- reads from the front, as memcpy does.
use mmorpg_simulator.Common.{
  ℕ, zero, suc, ◌+◌, ◌-◌, ◌*◌, ◌/◌, ◌%◌, ◌<◌, ◌≡◌, refl, ap, ◌∙◌, List, [], ◌∷◌, ◌++◌, arith, ltb,
  if◌then◌else◌, length, length-append, drop,
}
use mmorpg_simulator.Common.Int.{ℤ, pos, negsuc}
use mathlib.Core.List.{append_assoc}
use mmorpg_simulator.Framing.RoundTrip.{drop-append}

-- A type of values in `size` bytes. A value that fits is read back, whatever follows it.
pub record Codec (A : Type 0) : Type 1 where
  pub size : ℕ
  pub put : A → List ℕ
  pub get : List ℕ → A
  pub fits : A → Type 0
  pub put_size : (a : A) → fits a → length (put a) ≡ size
  pub get_put : (a : A) (more : List ℕ) → fits a → get (put a ++ more) ≡ a

pub drop_front : (n : ℕ) (xs ys : List ℕ) → length xs ≡ n → drop n (xs ++ ys) ≡ ys
drop_front n xs ys e = rw (← e) (drop-append xs ys)

-- Unsigned numbers, the low byte first.
abbrev pub limit : ℕ → ℕ
limit zero = 1
limit (suc n) = 256 * limit n

abbrev pub put_number : ℕ → ℕ → List ℕ
put_number zero v = []
put_number (suc n) v = v % 256 ∷ put_number n (v / 256)

abbrev pub get_number : ℕ → List ℕ → ℕ
get_number zero bs = 0
get_number (suc n) [] = 0
get_number (suc n) (b ∷ bs) = b + 256 * get_number n bs

pub length-put_number : (n v : ℕ) → length (put_number n v) ≡ n
length-put_number zero v = refl
length-put_number (suc n) v = ap suc (length-put_number n (v / 256))

pub get_number-put_number :
    (n v : ℕ) (more : List ℕ) → v < limit n → get_number n (put_number n v ++ more) ≡ v
get_number-put_number zero v more h = omega arith
get_number-put_number (suc n) v more h =
    omega (arith, get_number-put_number n (v / 256) more (omega arith))

abbrev pub number : ℕ → Codec ℕ
number n = record {
  size = n;
  put = put_number n;
  get = get_number n;
  fits = λ v. v < limit n;
  put_size = λ v h. length-put_number n v;
  get_put = λ v more h. get_number-put_number n v more h;
}

-- Signed numbers in two's complement, of `n` bytes.
abbrev pub to_word : ℕ → ℤ → ℕ
to_word w (pos v) = v
to_word w (negsuc v) = w - 1 - v

abbrev pub of_word : ℕ → ℕ → ℤ
of_word w v = if ltb v (w / 2) then pos v else negsuc (w - 1 - v)

abbrev pub IsSigned : ℕ → ℤ → Type 0
IsSigned w (pos v) = v < w / 2
IsSigned w (negsuc v) = v < w / 2

pub of_word-to_word :
    (w : ℕ) (a : ℤ) → w / 2 + w / 2 ≡ w → IsSigned w a → of_word w (to_word w a) ≡ a
of_word-to_word w (pos v) even h = ground arith
of_word-to_word w (negsuc v) even h = ground arith

pub to_word-lt : (w : ℕ) (a : ℤ) → IsSigned w a → to_word w a < w
to_word-lt w (pos v) h = omega arith
to_word-lt w (negsuc v) h = omega arith

signed-get_put :
    (n : ℕ) (a : ℤ) (more : List ℕ)
    → limit n / 2 + limit n / 2 ≡ limit n
    → IsSigned (limit n) a
    → of_word (limit n) (get_number n (put_number n (to_word (limit n) a) ++ more)) ≡ a
signed-get_put n a more even h =
    rw (get_number-put_number n (to_word (limit n) a) more (to_word-lt (limit n) a h))
      (of_word-to_word (limit n) a even h)

pub signed1-get_put :
    (a : ℤ) (more : List ℕ)
    → IsSigned 256 a
    → of_word 256 (get_number 1 (put_number 1 (to_word 256 a) ++ more)) ≡ a
signed1-get_put a more h = signed-get_put 1 a more refl h

pub signed2-get_put :
    (a : ℤ) (more : List ℕ)
    → IsSigned 65536 a
    → of_word 65536 (get_number 2 (put_number 2 (to_word 65536 a) ++ more)) ≡ a
signed2-get_put a more h = signed-get_put 2 a more refl h

abbrev pub int8_t : Codec ℤ
int8_t = record {
  size = 1;
  put = λ a. put_number 1 (to_word 256 a);
  get = λ bs. of_word 256 (get_number 1 bs);
  fits = IsSigned 256;
  put_size = λ a h. length-put_number 1 (to_word 256 a);
  get_put = signed1-get_put;
}

abbrev pub int16_t : Codec ℤ
int16_t = record {
  size = 2;
  put = λ a. put_number 2 (to_word 65536 a);
  get = λ bs. of_word 65536 (get_number 2 bs);
  fits = IsSigned 65536;
  put_size = λ a h. length-put_number 2 (to_word 65536 a);
  get_put = signed2-get_put;
}

-- One field behind another.
pub pair-get_put :
    {A B : Type 0} (c : Codec A) (d : Codec B) (p : A × B) (more : List ℕ)
    → c.fits p.0 × d.fits p.1
    → (
      c.get ((c.put p.0 ++ d.put p.1) ++ more),
      d.get (drop c.size ((c.put p.0 ++ d.put p.1) ++ more)),
    )
      ≡ p
pair-get_put c d (a, b) more (h, k) =
    rw (append_assoc (c.put a) (d.put b) more, c.get_put a (d.put b ++ more) h)
      (ap (λ bs. (a, d.get bs)) (drop_front c.size (c.put a) (d.put b ++ more) (c.put_size a h))
        ∙ ap (λ v. (a, v)) (d.get_put b more k))

pub pair-put_size :
    {A B : Type 0} (c : Codec A) (d : Codec B) (p : A × B)
    → c.fits p.0 × d.fits p.1
    → length (c.put p.0 ++ d.put p.1) ≡ c.size + d.size
pair-put_size c d (a, b) (h, k) =
    omega (arith, length-append (c.put a) (d.put b), c.put_size a h, d.put_size b k)

abbrev pub pair : {A B : Type 0} → Codec A → Codec B → Codec (A × B)
pair c d = record {
  size = c.size + d.size;
  put = λ p. c.put p.0 ++ d.put p.1;
  get = λ bs. (c.get bs, d.get (drop c.size bs));
  fits = λ p. c.fits p.0 × d.fits p.1;
  put_size = pair-put_size c d;
  get_put = pair-get_put c d;
}

-- The same bytes read as a record.
pub as_type-get_put :
    {A B : Type 0} (c : Codec A) (f : A → B) (g : B → A) (back : (b : B) → f (g b) ≡ b) (b : B)
    (more : List ℕ)
    → c.fits (g b)
    → f (c.get (c.put (g b) ++ more)) ≡ b
as_type-get_put c f g back b more h = ap f (c.get_put (g b) more h) ∙ back b

abbrev pub as_type :
    {A B : Type 0} → Codec A → (f : A → B) → (g : B → A) → ((b : B) → f (g b) ≡ b) → Codec B
as_type c f g back = record {
  size = c.size;
  put = λ b. c.put (g b);
  get = λ bs. f (c.get bs);
  fits = λ b. c.fits (g b);
  put_size = λ b h. c.put_size (g b) h;
  get_put = as_type-get_put c f g back;
}

-- The same bytes read as a record of which they tell all.
pub as_part-get_put :
    {A B : Type 0} (c : Codec A) (f : A → B) (g : B → A) (b : B) (more : List ℕ)
    → c.fits (g b) × (f (g b) ≡ b)
    → f (c.get (c.put (g b) ++ more)) ≡ b
as_part-get_put c f g b more (h, back) = ap f (c.get_put (g b) more h) ∙ back

abbrev pub as_part : {A B : Type 0} → Codec A → (A → B) → (B → A) → Codec B
as_part c f g = record {
  size = c.size;
  put = λ b. c.put (g b);
  get = λ bs. f (c.get bs);
  fits = λ b. c.fits (g b) × (f (g b) ≡ b);
  put_size = λ b h. c.put_size (g b) h.0;
  get_put = as_part-get_put c f g;
}
