-- ===== src/MessageWriter.antt =====
-- MessageWriter.hpp and MessageWriter.cpp: data written into the payloads of a list of packets. A
-- packet is its payload, which is all that the class touches; the iterator `_packet` is an index.
-- `none` is a failed assertion, or an access past the end.
use multi_threaded_socket.Common.{
  ℕ, zero, suc, ◌+◌, ◌-◌, min, Option, none, some, List, [], ◌∷◌, ◌++◌, length, get_or, set, take,
  drop, ltb, ◌==◌, ◌&&◌, not, if◌then◌else◌,
}
use multi_threaded_socket.Packet.Header.{copy_bytes}
use multi_threaded_socket.Packet.Bytes.{write_le}

pub record MessageWriter : Type 0 where
  pub packets : List (List ℕ)
  pub packet : ℕ
  pub writed_packet_number : ℕ
  pub offset : ℕ

unfoldable pub message_writer : List (List ℕ) → MessageWriter
message_writer packets = record {
  packets = packets;
  packet = 0;
  writed_packet_number = 1;
  offset = 4;
}

-- `**_packet`, `GetPayload()` of it
abbrev pub payload : List (List ℕ) → ℕ → List ℕ
payload packets i = get_or packets i []

unfoldable pub get_next_packet : MessageWriter → Option MessageWriter
get_next_packet w =
    if ltb (w.packet + 1) (length w.packets)
    then some (record w {
      packet = w.packet + 1;
      writed_packet_number = w.writed_packet_number + 1;
      offset = 0;
    })
    else none

-- The copy of one round, into the packet `target`: the writer and what is left to write.
unfoldable pub copy_round : MessageWriter → ℕ → List ℕ → Option (MessageWriter × List ℕ)
unfolding copy_bytes
copy_round w target src =
    let to = payload w.packets target in
    let size = min (length src) (length to - w.offset) in
    if ltb (length to) w.offset
    then none
    else some (
      record w {
        packets = set w.packets target (copy_bytes to w.offset (take size src));
        offset = w.offset + size;
      },
      drop size src,
    )

-- One round. `packet` is a reference to the packet at which the round begins. The assignment
-- `packet = GetNextPacket()` does not bind it anew: it assigns IPacket, which has no members.
unfoldable pub write_round : MessageWriter → List ℕ → Option (MessageWriter × List ℕ)
unfolding copy_round get_next_packet
write_round w src =
    if w.offset == length (payload w.packets w.packet)
    then elim (get_next_packet w) [ none ↦ none | some w' ↦ copy_round w' w.packet src ]
    else copy_round w w.packet src

unfoldable pub write_rounds : ℕ → MessageWriter → List ℕ → Option MessageWriter
unfolding write_round
write_rounds fuel w [] = some w
write_rounds zero w (b ∷ src) = none
write_rounds (suc fuel) w (b ∷ src) = elim (write_round w (b ∷ src)) [
  | none ↦ none
  | some (w', rest) ↦ write_rounds fuel w' rest
]

-- Each round writes a byte or goes on to another packet.
unfoldable pub write : MessageWriter → List ℕ → Option MessageWriter
unfolding write_rounds
write w src = write_rounds (length src + length w.packets) w src

-- `operator<<` of a 64-bit size
unfoldable pub write_size : MessageWriter → ℕ → Option MessageWriter
unfolding write write_le
write_size w size = write w (write_le (0 ∷ 0 ∷ 0 ∷ 0 ∷ 0 ∷ 0 ∷ 0 ∷ 0 ∷ []) 0 8 size)

-- `operator<<` of a list of packets, which go behind the packet that is being written.
unfoldable pub write_packets : MessageWriter → List (List ℕ) → Option MessageWriter
unfolding write_size
write_packets w packets = elim (write_size w (length packets)) [
  | none ↦ none
  | some w' ↦
      let front = take (w'.packet + 1) w'.packets ++ packets in
      if ltb w'.packet (length w'.packets)
      then some (record {
        packets = front ++ drop (w'.packet + 1) w'.packets;
        packet = length front;
        writed_packet_number = w'.writed_packet_number + length packets;
        offset = 0;
      })
      else none
]

-- The packets, and the writer without them.
unfoldable pub get_packets : MessageWriter → List (List ℕ) × MessageWriter
get_packets w = (w.packets, record w { packets = [] })

-- Their number goes to the beginning of the first one.
unfoldable pub get_writed_packets : MessageWriter → Option (List (List ℕ) × MessageWriter)
unfolding write_le
get_writed_packets w =
    let last = if (w.offset == 0) && not (w.packet == 0) then w.packet - 1 else w.packet in
    let numbered = set w.packets 0 (write_le (payload w.packets 0) 0 4 w.writed_packet_number) in
    if (w.packet == 0) && (w.offset == 4)
    then some ([], w)
    else if ltb last (length w.packets)
    then some
        (take (last + 1) numbered, record w { packets = drop (last + 1) numbered; packet = 0 })
    else none

-- Up to `size` packets behind the one that is being written.
unfoldable pub get_data_packets : MessageWriter → ℕ → Option (List (List ℕ) × MessageWriter)
get_data_packets w size =
    let tail = drop (w.packet + 1) w.packets in
    if ltb w.packet (length w.packets)
    then some
        (take size tail, record w { packets = take (w.packet + 1) w.packets ++ drop size tail })
    else none

unfoldable pub add_free_packets : MessageWriter → List (List ℕ) → MessageWriter
add_free_packets w packets = record w { packets = w.packets ++ packets }
