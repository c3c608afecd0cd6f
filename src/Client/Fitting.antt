-- ===== src/Client/Fitting.antt =====
-- The parts of what the keys make the client send.
use mmorpg_simulator.Common.{
  ℕ, zero, suc, ◌<◌, ◌==◌, ltb, ◌^◌, true, false, Bool, Option, none, some, List, [], ◌∷◌, take,
  drop, length, get_or, All, arith, if◌then◌else◌, Text, codes,
}
use mmorpg_simulator.Common.Int.{ℤ}
use mmorpg_simulator.Wire.Arrays.{IsChar}
use mmorpg_simulator.Wire.Reading.{FitsRequest}
use mmorpg_simulator.Server.Packets.{Request}
use mmorpg_simulator.Client.State.{ClientState, OwnPlayer, SeenNpc}
use mmorpg_simulator.Client.Nearest.{nearest_from, distance}
use mmorpg_simulator.Client.Lines.{
  at_space, with_front, whisper_to, say, chat_requests, space, starts_with,
}
use mmorpg_simulator.Client.Keys.{KeyOutcome, stays, leaves, throws, uint8}
use mmorpg_simulator.Client.Sound.{IsSound}

-- What is sent fits, and the client keeps numbers that fit.
unfoldable pub IsFitting : KeyOutcome → Type 0
IsFitting (stays rs c) = All FitsRequest rs × IsSound c
IsFitting leaves = Unit
IsFitting throws = Unit

pub asks :
    (r : Request) (c : ClientState) → FitsRequest r → IsSound c → IsFitting (stays (r ∷ []) c)
unfolding IsFitting
asks r c f h = ((f, tt), h)

pub asks_all :
    (rs : List Request) (c : ClientState) → All FitsRequest rs → IsSound c → IsFitting (stays rs c)
unfolding IsFitting
asks_all rs c f h = (f, h)

pub asks_none : (c : ClientState) → IsSound c → IsFitting (stays [] c)
unfolding IsFitting
asks_none c h = (tt, h)

pub ends : IsFitting leaves
unfolding IsFitting
ends = tt

pub stops : IsFitting throws
unfolding IsFitting
stops = tt

pub branch : {A : Type 0} (P : A → Type 0) (b : Bool) (x y : A) → P x → P y → P (if b then x else y)
branch P true x y h k = h
branch P false x y h k = k

pub taken : (n : ℕ) (t : Text) → All IsChar t → (length (take n t) < suc n) × All IsChar (take n t)
taken zero t h = (omega arith, tt)
taken (suc n) [] h = (omega arith, tt)
taken (suc n) (b ∷ t) h = let (le, chars) = taken n t h.1 in (omega (arith, le), (h.0, chars))

All-drop : (n : ℕ) (t : Text) → All IsChar t → All IsChar (drop n t)
All-drop zero t h = h
All-drop (suc n) [] h = tt
All-drop (suc n) (b ∷ t) h = All-drop n t h.1

pub All-get_or :
    {A : Type 0} (P : A → Type 0) (vs : List A) (i : ℕ) (d : A) → P d → All P vs → P (get_or vs i d)
All-get_or P [] i d p h = p
All-get_or P (v ∷ vs) zero d p h = h.0
All-get_or P (v ∷ vs) (suc i) d p h = All-get_or P vs i d p h.1

pub nearest-lt :
    (p : OwnPlayer) (npcs : List (ℕ × SeenNpc)) (b m : ℕ)
    → b < 2 ^ 64
    → All (λ e. e.0 < 2 ^ 64) npcs
    → nearest_from p npcs b m < 2 ^ 64
unfolding nearest_from
nearest-lt p [] b m lt h = lt
nearest-lt p ((uid, n) ∷ npcs) b m lt h =
    branch (λ r. r < 2 ^ 64) (ltb (distance p n) m) (nearest_from p npcs uid (distance p n))
      (nearest_from p npcs b m) (nearest-lt p npcs uid (distance p n) h.0 h.1)
      (nearest-lt p npcs b m lt h.1)

pub uint8-lt : (a : ℤ) → uint8 a < 256
uint8-lt a = omega arith

AtSpace : Option (Text × Text) → Type 0
AtSpace none = Unit
AtSpace (some (name, rest)) = All IsChar name × All IsChar rest

with_front-chars :
    (b : ℕ) (o : Option (Text × Text)) → IsChar b → AtSpace o → AtSpace (with_front b o)
unfolding AtSpace
with_front-chars b none h k = tt
with_front-chars b (some (name, rest)) h k = ((h, k.0), k.1)

at_space-chars : (t : Text) → All IsChar t → AtSpace (at_space t)
unfolding AtSpace
at_space-chars [] h = tt
at_space-chars (b ∷ t) h =
    branch AtSpace (b == space) (some ([], t)) (with_front b (at_space t)) (tt, h.1)
      (with_front-chars b (at_space t) h.0 (at_space-chars t h.1))

whisper_to-fits : (o : Option (Text × Text)) → AtSpace o → All FitsRequest (whisper_to o)
unfolding AtSpace
whisper_to-fits none h = tt
whisper_to-fits (some (name, rest)) h = ((omega arith, (taken 19 name h.0, taken 127 rest h.1)), tt)

say-fits : (channel : ℕ) (t : Text) → channel < 256 → All IsChar t → FitsRequest (say channel t)
say-fits channel t lt h = (lt, ((omega arith, tt), taken 127 t h))

pub chat-fits : (t : Text) → All IsChar t → All FitsRequest (chat_requests t)
unfolding chat_requests
chat-fits [] h = tt
chat-fits (b ∷ t) h =
    branch (All FitsRequest) (starts_with (codes "/w ") (b ∷ t)) _ _
      (whisper_to-fits (at_space (drop 3 (b ∷ t)))
        (at_space-chars (drop 3 (b ∷ t)) (All-drop 3 (b ∷ t) h)))
      (branch (All FitsRequest) (starts_with (codes "/p ") (b ∷ t)) _ _
        (say-fits 2 (drop 3 (b ∷ t)) (omega arith) (All-drop 3 (b ∷ t) h), tt)
        (say-fits 0 (b ∷ t) (omega arith) h, tt))
