-- ===== src/ConnectionWriter.antt =====
-- ConnectionWriter.hpp and ConnectionWriter.cpp: bytes that go over a connection. A packet is its
-- payload, the iterator `_packet` an index. What the sending thread has put into `_freePackets` at each
-- wait is an argument, and so is what `stop_requested` says; waiting itself is not modelled. `none` is
-- an access past the end, or fuel that runs out.
pub mod Rounds
pub mod Stream
use multi_threaded_socket.Common.{
  ℕ, zero, suc, ◌+◌, ◌-◌, min, Bool, true, false, Option, none, some, List, [], ◌∷◌, ◌++◌, length,
  take, drop, set, ltb, ◌==◌, if◌then◌else◌,
}
use multi_threaded_socket.Packet.Header.{copy_bytes}
use multi_threaded_socket.MessageWriter.{payload}

pub record ConnectionWriter : Type 0 where
  pub packets_to_send : List (List ℕ)
  pub packets : List (List ℕ)
  pub packet : ℕ
  pub offset : ℕ
  pub error : Bool

-- The free packets of each wait to come; of none, when a stop ends the wait.
abbrev pub Freed : Type 0
Freed = List (List (List ℕ))

-- The constructor, with the packets that Send2 gives.
unfoldable pub new_writer : List (List ℕ) → ConnectionWriter
new_writer packets = record {
  packets_to_send = [];
  packets = packets;
  packet = 0;
  offset = 0;
  error = false;
}

-- `GetPacket().GetPayload()`
abbrev pub current : ConnectionWriter → List ℕ
current w = payload w.packets w.packet

-- GetNextPacket: whether there is one.
unfoldable pub get_next_packet : ConnectionWriter → Freed → Bool × ConnectionWriter × Freed
get_next_packet w freed =
    if ltb (w.packet + 1) (length w.packets)
    then (true, record w { packet = w.packet + 1; offset = 0 }, freed)
    else elim freed [
      | [] ↦ (false, record w { packet = w.packet + 1 }, [])
      | free ∷ later ↦
          (true, record w { packets = w.packets ++ free; packet = w.packet + 1; offset = 0 }, later)
    ]

-- The copy of one round, and what is left to write.
unfoldable pub copy_round : ConnectionWriter → List ℕ → ConnectionWriter × List ℕ
unfolding copy_bytes
copy_round w src =
    let size = min (length src) (length (current w) - w.offset) in
    (
      record w {
        packets = set w.packets w.packet (copy_bytes (current w) w.offset (take size src));
        offset = w.offset + size;
      },
      drop size src,
    )

-- The loop of `write` on fuel. A packet that is full is left at once.
unfoldable pub write_rounds :
    ℕ → ConnectionWriter → List ℕ → Freed → Option (ConnectionWriter × Freed)
unfolding copy_round get_next_packet
write_rounds fuel w [] freed = some (w, freed)
write_rounds zero w (b ∷ src) freed = none
write_rounds (suc fuel) w (b ∷ src) freed =
    let (w', rest) = copy_round w (b ∷ src) in
    let (found, next, later) = get_next_packet w' freed in
    elim (ltb w.packet (length w.packets)) [
      | false ↦ none
      | true ↦ elim (w'.offset == length (current w')) [
        | false ↦ write_rounds fuel w' rest freed
        | true ↦ elim found [
          | true ↦ write_rounds fuel next rest later
          | false ↦ some (record next { error = true }, later)
        ]
      ]
    ]

-- `write`
unfoldable pub write : ConnectionWriter → Bool → List ℕ → Freed → Option (ConnectionWriter × Freed)
unfolding write_rounds
write w stopped src freed =
    if stopped then some (w, freed) else write_rounds (length src) w src freed

-- `flush`: the packets in front of the one that is written, and of that one what is written of it.
unfoldable pub flush : ConnectionWriter → Bool → Freed → ConnectionWriter × Freed
unfolding get_next_packet
flush w stopped freed =
    let full = take w.packet w.packets in
    let part = take w.offset (current w) in
    let w' = record w {
      packets_to_send = w.packets_to_send ++ full;
      packets = drop w.packet w.packets;
      packet = 0;
    } in
    let sent = record w' { packets_to_send = w'.packets_to_send ++ part ∷ [] } in
    let (found, next, later) = get_next_packet sent freed in
    if stopped
    then (w, freed)
    else if w.offset == 0
    then (w', freed)
    else (record next { packets = drop 1 next.packets; packet = next.packet - 1 }, later)

-- `operator<<` of a list of packets
unfoldable pub write_packets :
    ConnectionWriter → Bool → List (List ℕ) → Freed → ConnectionWriter × Freed
unfolding flush
write_packets w stopped packets freed =
    let (w', later) = flush w false freed in
    if stopped
    then (w, freed)
    else (record w' { packets_to_send = w'.packets_to_send ++ packets }, later)

-- GetFreePackets: what is not written, and the writer without it.
abbrev pub get_free_packets : ConnectionWriter → List (List ℕ) × ConnectionWriter
get_free_packets w = (w.packets, record w { packets = [] })

-- GetPacketToSend: what the sending thread takes.
abbrev pub get_packet_to_send : ConnectionWriter → List (List ℕ) × ConnectionWriter
get_packet_to_send w = (w.packets_to_send, record w { packets_to_send = [] })
