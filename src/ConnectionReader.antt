-- ===== src/ConnectionReader.antt =====
-- ConnectionReader.hpp and ConnectionReader.cpp: the bytes that come over a connection. A packet is its
-- payload, the iterator `_packet` an index. What each call of Recv gives, in turn, is an argument;
-- `_freePackets` is never filled. `none` is an access past the end, or fuel that runs out.
pub mod Ends
use multi_threaded_socket.Common.{
  ℕ, zero, suc, ◌+◌, ◌-◌, min, Bool, true, false, Option, none, some, List, [], ◌∷◌, ◌++◌, length,
  take, drop, ltb, ◌==◌, if◌then◌else◌,
}
use multi_threaded_socket.MessageWriter.{payload}

pub record ConnectionReader : Type 0 where
  pub packets : List (List ℕ)
  pub packet : ℕ
  pub offset : ℕ
  pub error : Bool

abbrev pub new_reader : ConnectionReader
new_reader = record { packets = []; packet = 0; offset = 0; error = false }

-- What later calls of Recv give.
abbrev pub Received : Type 0
Received = List (List (List ℕ))

-- The list of packets that Recv gives, and what is left to come.
abbrev pub recv : Received → List (List ℕ) × Received
recv [] = ([], [])
recv (packets ∷ received) = (packets, received)

-- `GetPacket().GetPayload()`
abbrev pub current : ConnectionReader → List ℕ
current r = payload r.packets r.packet

-- GetNextPacket: whether there is a packet. When Recv gives none, the iterator stays at the end.
unfoldable pub get_next_packet :
    ConnectionReader → Bool → Received → Bool × ConnectionReader × Received
get_next_packet r stopped received =
    let (packets, received') = recv received in
    if stopped
    then (false, r, received)
    else if ltb (r.packet + 1) (length r.packets)
    then (true, record r { packet = r.packet + 1; offset = 0 }, received)
    else elim packets [
      | [] ↦ (false, record r { packet = r.packet + 1 }, received')
      | p ∷ ps ↦ (
        true,
        record r { packets = r.packets ++ p ∷ ps; packet = r.packet + 1; offset = 0 },
        received',
      )
    ]

-- One round of the loop of `read`, which stays in its packet.
unfoldable pub read_round : ConnectionReader → ℕ → List ℕ × ConnectionReader
read_round r wanted =
    let read_size = min wanted (length (current r) - r.offset) in
    (take read_size (drop r.offset (current r)), record r { offset = r.offset + read_size })

-- The loop of `read` on fuel. Behind the end of a packet the size wraps, and the copy is out of bounds:
-- `none`.
unfoldable pub read_rounds : ℕ → ConnectionReader → ℕ → Option (List ℕ × ConnectionReader)
unfolding read_round
read_rounds fuel r zero = some ([], r)
read_rounds zero r (suc wanted) = none
read_rounds (suc fuel) r (suc wanted) =
    let (got, r') = read_round r (suc wanted) in
    let more = read_rounds fuel r' (suc wanted - length got) in
    elim (ltb (length (current r)) r.offset) [
      | true ↦ none
      | false ↦ elim more [ none ↦ none | some (more, r'') ↦ some (got ++ more, r'') ]
    ]

-- The iterator is at the end: what Recv gives goes behind the packets, and it is at their beginning.
unfoldable pub refill : ConnectionReader → Received → ConnectionReader × Received
refill r received =
    let (packets, received') = recv received in
    if r.packet == length r.packets
    then (record r { packets = r.packets ++ packets; packet = 0 }, received')
    else (r, received)

-- The packet to read from, if there is one.
unfoldable pub advance : ConnectionReader → Bool → Received → Bool × ConnectionReader × Received
unfolding get_next_packet
advance r stopped received =
    if r.offset == length (current r)
    then get_next_packet r stopped received
    else (true, r, received)

-- `read`: the bytes, the reader and what is left to come. `stopped` is what `stop_requested` says at
-- the beginning, and `stopped_later` in GetNextPacket.
unfoldable pub read :
    ℕ
    → ConnectionReader
    → Bool
    → Bool
    → Received
    → ℕ
    → Option (List ℕ × ConnectionReader × Received)
unfolding refill advance read_rounds
read fuel r stopped stopped_later received size =
    let (r₁, received₁) = refill r received in
    let (found, r₂, received₂) = advance r₁ stopped_later received₁ in
    if stopped
    then some ([], r, received)
    else if ltb r₁.packet (length r₁.packets)
    then if found
      then elim (read_rounds fuel r₂ size) [
        | none ↦ none
        | some (got, r₃) ↦ some (got, r₃, received₂)
      ]
      else some ([], record r₂ { error = true }, received₂)
    else none
