-- ===== src/Client/Lines.antt =====
-- The chat line of GameClient/main.cpp: how it is typed, and the request that it becomes.
use mmorpg_simulator.Common.{
  ◌≡◌, ◌≢◌, refl, ap, ◌∙◌, arith, ℕ, ◌==◌, ltb, leb, ◌&&◌, ◌||◌, Bool, true, false, if◌then◌else◌,
  Option, none, some, List, [], ◌∷◌, ◌++◌, take, drop, Text, codes,
}
use mmorpg_simulator.Server.Packets.{Request, chat}

-- (b & 0xC0) == 0x80, on a byte.
abbrev pub is_continuation : ℕ → Bool
is_continuation b = leb 128 b && ltb b 192

abbrev pub all_continuations : Text → Bool
all_continuations [] = true
all_continuations (b ∷ t) = is_continuation b && all_continuations t

-- The input without its end from the last byte on that is no continuation; a backspace.
unfoldable pub erase_char : Text → Text
erase_char [] = []
erase_char (b ∷ t) = if all_continuations t then [] else b ∷ erase_char t

-- The loop over _getwch, up to enter. `utf8`: WideCharToMultiByte on one character.
module _ (utf8 : ℕ → Text) where
  abbrev pub key_typed : Text → ℕ → Text
  key_typed input wc = if wc == 8 || wc == 127 then erase_char input else input ++ utf8 wc

  unfoldable pub typed_line : Text → List ℕ → Text
  typed_line input [] = input
  typed_line input (wc ∷ keys) =
      if wc == 13 || wc == 10 then input else typed_line (key_typed input wc) keys

abbrev pub space : ℕ
space = 32

-- input.rfind(prefix, 0) == 0
abbrev pub starts_with : Text → Text → Bool
starts_with [] t = true
starts_with (a ∷ p) [] = false
starts_with (a ∷ p) (b ∷ t) = a == b && starts_with p t

abbrev pub with_front : ℕ → Option (Text × Text) → Option (Text × Text)
with_front b none = none
with_front b (some (name, rest)) = some (b ∷ name, rest)

-- What stands before the first space, and behind it.
abbrev pub at_space : Text → Option (Text × Text)
at_space [] = none
at_space (b ∷ t) = if b == space then some ([], t) else with_front b (at_space t)

abbrev pub whisper_to : Option (Text × Text) → List Request
whisper_to none = []
whisper_to (some (name, rest)) =
    chat (record { channel = 1; target_name = take 19 name; message = take 127 rest }) ∷ []

abbrev pub say : ℕ → Text → Request
say channel line = chat (record { channel = channel; target_name = []; message = take 127 line })

-- What the line is sent as: a whisper that names nobody is not sent.
unfoldable pub chat_requests : Text → List Request
chat_requests [] = []
chat_requests (b ∷ t) =
    let input = b ∷ t in
    if starts_with (codes "/w ") input
    then whisper_to (at_space (drop 3 input))
    else if starts_with (codes "/p ") input
    then say 2 (drop 3 input) ∷ []
    else say 0 input ∷ []

-- A character in UTF-8: a byte that continues nothing, and those that continue it.
pub record IsEncoded (c : Text) : Type 0 where
  pub lead : ℕ
  pub more : Text
  pub whole : c ≡ lead ∷ more
  pub leads : is_continuation lead ≡ false
  pub continues : all_continuations more ≡ true

not_all :
    (t more : Text) (lead : ℕ)
    → is_continuation lead ≡ false
    → all_continuations (t ++ lead ∷ more) ≡ false
not_all [] more lead h = rw h refl
not_all (b ∷ t) more lead h = ground (arith, not_all t more lead h)

erase-append :
    (t more : Text) (lead : ℕ)
    → is_continuation lead ≡ false
    → all_continuations more ≡ true
    → erase_char (t ++ lead ∷ more) ≡ t
unfolding erase_char
erase-append [] more lead h k = rw k refl
erase-append (b ∷ t) more lead h k =
    rw (not_all t more lead h) (ap (◌∷◌ b) (erase-append t more lead h k))

-- A character typed and taken back leaves the line as if neither key had been pressed, whatever was
-- typed before and is typed after, if the conversion gives a character in UTF-8.
pub typed_line-backspace :
    (utf8 : ℕ → Text) (input : Text) (wc : ℕ) (keys : List ℕ)
    → IsEncoded (utf8 wc)
    → wc ≢ 8
    → wc ≢ 127
    → wc ≢ 13
    → wc ≢ 10
    → typed_line utf8 input (wc ∷ 8 ∷ keys) ≡ typed_line utf8 input keys
unfolding typed_line
typed_line-backspace utf8 input wc keys c backspace delete enter feed =
    let erased : erase_char (input ++ utf8 wc) ≡ input =
      ap (λ t. erase_char (input ++ t)) c.whole
      ∙ erase-append input c.more c.lead c.leads c.continues in
    ground (arith, erased)
