-- ===== src/Packet/Header.antt =====
-- The classes Header, Acks and Payload of HeaderBuffer.hpp, over a buffer of bytes.
use multi_threaded_socket.Common.{
  ℕ, zero, suc, ◌+◌, ◌*◌, ◌/◌, ◌%◌, ◌^◌, Bool, false, List, [], ◌∷◌, ltb, ◌==◌, if◌then◌else◌,
  length, take, drop, set,
}
use multi_threaded_socket.Packet.Bytes.{read_le, write_le}
use multi_threaded_socket.Packet.Types.{
  PacketType, type_code, type_of_code, magic_number, header_size,
}

unfoldable pub is_valid : List ℕ → Bool
is_valid buf = if ltb (length buf) header_size then false else read_le buf 0 4 == magic_number

unfoldable pub get_packet_type : List ℕ → PacketType
get_packet_type buf = type_of_code (read_le buf 4 2)

unfoldable pub get_src_connection_id : List ℕ → ℕ
get_src_connection_id buf = read_le buf (4 + 2) 2

unfoldable pub get_dst_connection_id : List ℕ → ℕ
get_dst_connection_id buf = read_le buf (4 + 2 + 2) 2

unfoldable pub get_seq_number : List ℕ → ℕ
get_seq_number buf = read_le buf (4 + 2 + 2 + 2) 4

unfoldable pub get_ack_number : List ℕ → ℕ
get_ack_number buf = read_le buf (4 + 2 + 2 + 2 + 4) 4

unfoldable pub get_payload_size : List ℕ → ℕ
get_payload_size buf = read_le buf (4 + 2 + 2 + 2 + 4 + 4) 2

unfoldable pub set_magic : List ℕ → List ℕ
set_magic buf = write_le buf 0 4 magic_number

unfoldable pub set_packet_type : List ℕ → PacketType → List ℕ
set_packet_type buf type = write_le buf 4 2 (type_code type)

unfoldable pub set_src_connection_id : List ℕ → ℕ → List ℕ
set_src_connection_id buf connection_id = write_le buf (4 + 2) 2 connection_id

unfoldable pub set_dst_connection_id : List ℕ → ℕ → List ℕ
set_dst_connection_id buf connection_id = write_le buf (4 + 2 + 2) 2 connection_id

unfoldable pub set_seq_number : List ℕ → ℕ → List ℕ
set_seq_number buf seq = write_le buf (4 + 2 + 2 + 2) 4 seq

unfoldable pub set_ack_number : List ℕ → ℕ → List ℕ
set_ack_number buf ack = write_le buf (4 + 2 + 2 + 2 + 4) 4 ack

-- `PayloadSizeType` is uint16_t: the callers' sizes are cut to 16 bits.
unfoldable pub set_payload_size : List ℕ → ℕ → List ℕ
set_payload_size buf size = write_le buf (4 + 2 + 2 + 2 + 4 + 4) 2 (size % 2 ^ 16)

unfoldable pub read_acks : List ℕ → ℕ → ℕ → List ℕ
read_acks buf o zero = []
read_acks buf o (suc n) = read_le buf o 4 ∷ read_acks buf (o + 4) n

-- `std::ranges::copy` into the buffer as `SeqNumberType`s.
unfoldable pub copy_acks : List ℕ → ℕ → List ℕ → List ℕ
copy_acks buf o [] = buf
copy_acks buf o (a ∷ acks) = copy_acks (write_le buf o 4 a) (o + 4) acks

unfoldable pub get_acks : List ℕ → List ℕ
get_acks buf = read_acks buf header_size (get_payload_size buf / 4)

unfoldable pub set_acks : List ℕ → List ℕ → List ℕ
set_acks buf acks = copy_acks (set_payload_size buf (length acks * 4)) header_size acks

-- `std::memcpy` of the bytes to the buffer.
unfoldable pub copy_bytes : List ℕ → ℕ → List ℕ → List ℕ
copy_bytes buf o [] = buf
copy_bytes buf o (b ∷ bytes) = copy_bytes (set buf o b) (o + 1) bytes

unfoldable pub get_payload : List ℕ → List ℕ
get_payload buf = take (get_payload_size buf) (drop header_size buf)

unfoldable pub set_payload : List ℕ → List ℕ → List ℕ
set_payload buf payload = copy_bytes (set_payload_size buf (length payload)) header_size payload
