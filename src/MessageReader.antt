-- ===== src/MessageReader.antt =====
-- MessageReader.hpp and MessageReader.cpp: data read from the payloads of a list of packets, as
-- MessageWriter models them.
pub mod RoundTrip
pub mod Crossing
use multi_threaded_socket.Common.{
  ℕ, zero, suc, ◌+◌, ◌-◌, min, Option, none, some, List, [], ◌∷◌, ◌++◌, length, take, drop, ltb,
  ◌==◌, if◌then◌else◌,
}
use multi_threaded_socket.Packet.Bytes.{read_le}
use multi_threaded_socket.MessageWriter.{payload}

pub record MessageReader : Type 0 where
  pub packets : List (List ℕ)
  pub packet : ℕ
  pub offset : ℕ

-- The constructor asserts that there is a packet.
unfoldable pub message_reader : List (List ℕ) → Option MessageReader
message_reader [] = none
message_reader (p ∷ packets) = some (record { packets = p ∷ packets; packet = 0; offset = 4 })

unfoldable pub get_next_packet : MessageReader → Option MessageReader
get_next_packet r =
    if ltb (r.packet + 1) (length r.packets)
    then some (record r { packet = r.packet + 1; offset = 0 })
    else none

-- The copy of one round, from the packet `source`: what was read and the reader.
unfoldable pub copy_round : MessageReader → ℕ → ℕ → Option (List ℕ × MessageReader)
copy_round r source wanted =
    let from = payload r.packets source in
    let size = min wanted (length from - r.offset) in
    if ltb (length from) r.offset
    then none
    else some (take size (drop r.offset from), record r { offset = r.offset + size })

-- One round. As in MessageWriter, the assignment to `packet` does not bind it anew.
unfoldable pub read_round : MessageReader → ℕ → Option (List ℕ × MessageReader)
unfolding copy_round get_next_packet
read_round r wanted =
    if r.offset == length (payload r.packets r.packet)
    then elim (get_next_packet r) [ none ↦ none | some r' ↦ copy_round r' r.packet wanted ]
    else copy_round r r.packet wanted

unfoldable pub read_rounds : ℕ → MessageReader → ℕ → Option (List ℕ × MessageReader)
unfolding read_round
read_rounds fuel r zero = some ([], r)
read_rounds zero r (suc wanted) = none
read_rounds (suc fuel) r (suc wanted) = elim (read_round r (suc wanted)) [
  | none ↦ none
  | some (got, r') ↦ elim (read_rounds fuel r' (suc wanted - length got)) [
    | none ↦ none
    | some (more, r'') ↦ some (got ++ more, r'')
  ]
]

-- Each round reads a byte or goes on to another packet.
unfoldable pub read : MessageReader → ℕ → Option (List ℕ × MessageReader)
unfolding read_rounds
read r size = read_rounds (size + length r.packets) r size

-- `operator>>` of a list of packets: a 64-bit size, and that many packets behind this one, or all.
unfoldable pub read_packets : MessageReader → Option (List (List ℕ) × MessageReader)
unfolding read read_le
read_packets r = elim (read r 8) [
  | none ↦ none
  | some (bytes, r') ↦
      let tail = drop (r'.packet + 1) r'.packets in
      let size = read_le bytes 0 8 in
      some (
        take size tail,
        record r' {
          packets = take (r'.packet + 1) r'.packets ++ drop size tail;
          offset = length (payload r'.packets r'.packet);
        },
      )
]

-- The packets, and the reader without them.
unfoldable pub get_packets : MessageReader → List (List ℕ) × MessageReader
get_packets r = (r.packets, record r { packets = [] })

-- The packets before the one that is being read.
unfoldable pub get_free_packets : MessageReader → List (List ℕ) × MessageReader
get_free_packets r =
    (take r.packet r.packets, record r { packets = drop r.packet r.packets; packet = 0 })
