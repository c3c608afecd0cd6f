-- ===== src/Client/Playing.antt =====
-- A client from its start to its end: main of GameClient/main.cpp, with Send of
-- GameClient/TcpClient.cpp.
use mmorpg_simulator.Common.{
  ℕ, ◌<◌, ◌≡◌, sym, ◌∙◌, inl, inr, Bool-cases, ltb, Option, none, some, List, [], ◌∷◌, ◌++◌, All,
  All-append, arith, length, Text, codes, if◌then◌else◌,
}
use mathlib.Core.List.{append-nil}
use mmorpg_simulator.Protocol.{Packet}
use mmorpg_simulator.Framing.RoundTrip.{frames}
use mmorpg_simulator.Server.Packets.{Request, login}
use mmorpg_simulator.Server.Serving.{asked}
use mmorpg_simulator.Server.Interleaved.{IsServed, bytes_for, serve-IsServed}
use mmorpg_simulator.Wire.Arrays.{IsChar}
use mmorpg_simulator.Wire.Reading.{FitsRequest}
use mmorpg_simulator.Wire.Telling.{FitsPacket}
use mmorpg_simulator.World.Data.{World}
use mmorpg_simulator.Server.Start.{started_machine}
use mmorpg_simulator.Client.State.{ClientState, started_client}
use mmorpg_simulator.Client.Dispatch.{handle_answer}
use mmorpg_simulator.Client.Keys.{Typed, KeyOutcome, stays, leaves, throws, on_key}
use mmorpg_simulator.Client.Sound.{IsSound, handle-IsSound}
use mmorpg_simulator.Client.Fitting.{IsFitting}
use mmorpg_simulator.Client.Asking.{on_key-IsFitting}

-- A key, with what is typed at the prompt that follows, or a packet that has come.
pub data Happening : Type 0 where
  pressed : ℕ → Typed → Happening
  told : Packet → Happening

abbrev pub carries_on : KeyOutcome → (ClientState → List Request) → List Request
carries_on (stays rs c) later = rs ++ later c
carries_on leaves later = []
carries_on throws later = []

-- The requests of a client, up to the end of its loop.
unfoldable pub play : List Happening → ClientState → List Request
play [] c = []
play (pressed key typed ∷ es) c = carries_on (on_key key typed c) (λ c'. play es c')
play (told k ∷ es) c = play es (handle_answer k c)

-- What main sends first, for the account that was typed. `none`: strcpy_s ends the program.
abbrev pub or_one : Text → Text
or_one [] = codes "1"
or_one (b ∷ t) = b ∷ t

unfoldable pub first_request : Text → Option Request
first_request input =
    let id = or_one input in
    if ltb (length id) 32 then some (login (record { account_id = id; password = [] })) else none

-- What Send puts on the wire for some requests.
abbrev pub sent_bytes : List Request → List ℕ
sent_bytes rs = frames (asked rs)

-- What is typed is bytes of a text, and what comes has values that fit.
abbrev pub FitsHappening : Happening → Type 0
FitsHappening (pressed key typed) = All IsChar typed.line
FitsHappening (told k) = FitsPacket k

carries_on-FitsRequest :
    (o : KeyOutcome) (later : ClientState → List Request)
    → IsFitting o
    → ((c : ClientState) → IsSound c → All FitsRequest (later c))
    → All FitsRequest (carries_on o later)
unfolding IsFitting
carries_on-FitsRequest (stays rs c) later f h = All-append FitsRequest rs (later c) f.0 (h c f.1)
carries_on-FitsRequest leaves later f h = tt
carries_on-FitsRequest throws later f h = tt

play-FitsRequest :
    (es : List Happening) (c : ClientState)
    → All FitsHappening es
    → IsSound c
    → All FitsRequest (play es c)
unfolding play
play-FitsRequest [] c f h = tt
play-FitsRequest (pressed key typed ∷ es) c f h =
    carries_on-FitsRequest (on_key key typed c) (λ c'. play es c')
      (on_key-IsFitting key typed c f.0 h) (λ c' h'. play-FitsRequest es c' f.1 h')
play-FitsRequest (told k ∷ es) c f h =
    play-FitsRequest es (handle_answer k c) f.1 (handle-IsSound k c f.0 h)

-- The requests of a client that starts, logs in and is used.
abbrev pub logged_in_by : Option Request → List Happening → List Request
logged_in_by none es = []
logged_in_by (some r) es = r ∷ play es started_client

abbrev pub requests_from : Text → List Happening → List Request
requests_from input es = logged_in_by (first_request input) es

started_client-IsSound : IsSound started_client
started_client-IsSound = record { chars = tt; npcs = tt; shop = omega arith; quests = omega arith }

or_one-chars : (t : Text) → All IsChar t → All IsChar (or_one t)
or_one-chars [] h = omega arith
or_one-chars (b ∷ t) h = h

requests-FitsRequest :
    (input : Text) (es : List Happening)
    → All IsChar input
    → All FitsHappening es
    → All FitsRequest (requests_from input es)
unfolding first_request
requests-FitsRequest input es h f = elim (Bool-cases (ltb (length (or_one input)) 32)) [
  | inl short ↦ rw short (
    ((ground (arith, short), or_one-chars input h), (omega arith, tt)),
    play-FitsRequest es started_client f started_client-IsSound,
  )
  | inr long ↦ rw long tt
]

-- The account that is typed and what happens, for a session that has a client.
abbrev pub client_requests : Option (Text × List Happening) → List Request
client_requests none = []
client_requests (some (input, es)) = requests_from input es

abbrev pub FitsClient : Option (Text × List Happening) → Type 0
FitsClient none = Unit
FitsClient (some (input, es)) = All IsChar input × All FitsHappening es

client-FitsRequest :
    (o : Option (Text × List Happening)) → FitsClient o → All FitsRequest (client_requests o)
client-FitsRequest none h = tt
client-FitsRequest (some (input, es)) h = requests-FitsRequest input es h.0 h.1

-- Any clients, each started with some account and used in some way, with texts typed as bytes and
-- packets coming in whose values fit, and a server whose buffers are empty: however the bytes that
-- the clients send are cut into reads and the reads follow on each other, and whatever the arrays
-- hold behind the bytes in use, given more fuel than each client has bytes, the server ends as
-- after an interleaving of the clients' requests, each client's in its order, and no byte is left.
pub clients-IsServed :
    (stale : ℕ → ℕ → List ℕ) (fuel : ℕ) (pieces : List (ℕ × List ℕ)) (w : World)
    (clients : ℕ → Option (Text × List Happening))
    → ((t : ℕ) → FitsClient (clients t))
    → ((t : ℕ) → bytes_for t pieces ≡ sent_bytes (client_requests (clients t)))
    → ((t : ℕ) → length (bytes_for t pieces) < fuel)
    → IsServed stale fuel pieces (started_machine w) (λ t. client_requests (clients t)) (λ t. [])
clients-IsServed stale fuel pieces w clients fit bytes enough =
    serve-IsServed stale fuel pieces (started_machine w) (λ t. client_requests (clients t))
      (λ t. [])
      (λ t. record {
        fits = client-FitsRequest (clients t) (fit t);
        begun = inl (omega arith);
        unfinished = inl (omega arith);
        bytes = bytes t ∙ sym (append-nil (sent_bytes (client_requests (clients t))));
        enough = enough t;
      })
