-- ===== src/Tests/Messages.antt =====
-- Two packets of eight bytes, written within the first one and over its end.
use multi_threaded_socket.Common.{ℕ, ◌+◌, ◌≡◌, List, [], ◌∷◌, take, set, some, arith}
use multi_threaded_socket.Packet.Header.{copy_bytes}
use multi_threaded_socket.MessageWriter.{MessageWriter, payload, write}
use multi_threaded_socket.MessageReader.{read}
use multi_threaded_socket.MessageReader.RoundTrip.{current, round_trip}
use multi_threaded_socket.MessageReader.Crossing.{crossing_overwrites}

abbrev zeros : List ℕ
zeros = 0 ∷ 0 ∷ 0 ∷ 0 ∷ 0 ∷ 0 ∷ 0 ∷ 0 ∷ []

abbrev writer : MessageWriter
writer = record { packets = zeros ∷ zeros ∷ []; packet = 0; writed_packet_number = 1; offset = 4 }

round_trip_example :
    (w' : MessageWriter) × (write writer (1 ∷ 2 ∷ 3 ∷ []) ≡ some w')
    × (w'.packets ≡ set writer.packets writer.packet (current w'))
    × (w'.offset ≡ writer.offset + 3)
    × (read (record { packets = w'.packets; packet = writer.packet; offset = writer.offset }) 3
        ≡ some (
          1 ∷ 2 ∷ 3 ∷ [],
          record { packets = w'.packets; packet = w'.packet; offset = w'.offset },
        ))
round_trip_example = round_trip writer 1 (2 ∷ 3 ∷ []) (omega arith) (omega arith)

crossing_overwrites_example :
    (w' : MessageWriter) × (write writer (1 ∷ 2 ∷ 3 ∷ 4 ∷ 5 ∷ 6 ∷ []) ≡ some w')
    × (w'.packet ≡ writer.packet + 1)
    × (w'.offset ≡ 2)
    × (payload w'.packets (writer.packet + 1) ≡ payload writer.packets (writer.packet + 1))
    × (take 2 (payload w'.packets writer.packet) ≡ 5 ∷ 6 ∷ [])
    × (payload w'.packets writer.packet
        ≡ copy_bytes
            (copy_bytes (payload writer.packets writer.packet) writer.offset (1 ∷ 2 ∷ 3 ∷ 4 ∷ []))
            0
            (5 ∷ 6 ∷ []))
crossing_overwrites_example =
    crossing_overwrites writer 1 (2 ∷ 3 ∷ 4 ∷ []) 5 (6 ∷ []) (omega arith) (omega arith)
      (omega arith)
