-- ===== src/Framing.antt =====
-- Packets on the wire: what Session::Send writes and how Session::ProcessBuffer cuts what has been
-- received (GameServer/Session.cpp). The buffer is the list of its first `recvSize_` bytes. A
-- handler gets a pointer to the payload; what is modelled is the bytes that the header's length
-- covers.
pub mod RoundTrip
pub mod Chunks
pub mod Endless
pub mod Delivery
pub mod Overlong
pub mod Loop
pub mod Reads
use mmorpg_simulator.Common.{
  ℕ, zero, suc, ◌+◌, ◌-◌, ◌*◌, ◌/◌, ◌%◌, Option, none, some, List, [], ◌∷◌, ◌++◌, ltb, length, take,
  drop, u16, if◌then◌else◌,
}
use mmorpg_simulator.Protocol.{header_size}

pub record Incoming : Type 0 where
  pub code : ℕ
  pub body : List ℕ

-- A uint16_t in memory, the low byte first.
abbrev pub bytes16 : ℕ → List ℕ
bytes16 n = n % 256 ∷ n / 256 % 256 ∷ []

abbrev pub word : List ℕ → ℕ
word (lo ∷ hi ∷ _) = lo + 256 * hi
word _ = 0

-- The header's two fields.
abbrev pub packet_length : List ℕ → ℕ
packet_length buffer = word buffer

abbrev pub packet_code : List ℕ → ℕ
packet_code buffer = word (drop 2 buffer)

-- What Send puts on the wire for a packet.
unfoldable pub frame : Incoming → List ℕ
frame k = bytes16 (u16 (header_size + length k.body)) ++ bytes16 k.code ++ k.body

abbrev pub first_packet : List ℕ → Incoming
first_packet buffer = record {
  code = packet_code buffer;
  body = take (packet_length buffer - header_size) (drop header_size buffer);
}

abbrev pub with_first : Incoming → Option (List Incoming × List ℕ) → Option (List Incoming × List ℕ)
with_first k none = none
with_first k (some (ks, rest)) = some (k ∷ ks, rest)

-- The packets for which the callback runs, and the bytes that stay. `none`: the fuel ran out.
unfoldable pub process_buffer : ℕ → List ℕ → Option (List Incoming × List ℕ)
process_buffer zero buffer = none
process_buffer (suc fuel) buffer =
    let later = process_buffer fuel (drop (packet_length buffer) buffer) in
    if ltb (length buffer) header_size
    then some ([], buffer)
    else if ltb (length buffer) (packet_length buffer)
    then some ([], buffer)
    else with_first (first_packet buffer) later
