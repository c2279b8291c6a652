-- ===== src/Tests/Containers.antt =====
-- Lists of two chunks, and packets with contents.
use multi_threaded_socket.Common.{ℕ, ◌%◌, ◌^◌, ◌<◌, ◌≡◌, ◌≢◌, refl, [], ◌∷◌, arith, true}
use multi_threaded_socket.MultiList.{MultiList, Iterator, increment, post_increment}
use multi_threaded_socket.MultiList.Laws.{IsValid}
use multi_threaded_socket.MultiList.Iteration.{post_increment_moves}
use multi_threaded_socket.Packet.{
  is_valid, get_packet_type, set_packet_type, get_src_connection_id, set_src_connection_id,
  get_dst_connection_id, set_dst_connection_id, get_seq_number, set_seq_number, get_ack_number,
  set_ack_number, set_magic, set_payload_size,
}
use multi_threaded_socket.Packet.Types.{sack, type_code}
use multi_threaded_socket.Packet.Header
use multi_threaded_socket.Packet.Fields.{header_round_trip}
use multi_threaded_socket.Tests.{roomy}

abbrev two_chunks : MultiList ℕ
two_chunks = record { lists = (1 ∷ 2 ∷ []) ∷ (3 ∷ []) ∷ []; size = 3 }

abbrev one_chunk : MultiList ℕ
one_chunk = record { lists = (4 ∷ []) ∷ []; size = 1 }

two_chunks-IsValid : IsValid two_chunks
two_chunks-IsValid = record {
  chunks = ((omega arith, omega arith), ((omega arith, omega arith), tt));
  sized = refl;
}

one_chunk-IsValid : IsValid one_chunk
one_chunk-IsValid = record { chunks = ((omega arith, omega arith), tt); sized = refl }

abbrev at_two : Iterator
at_two = record { it1 = 0; it2 = 1 }

post_increment_example :
    ((post_increment two_chunks at_two).0 ≡ increment two_chunks at_two)
    × ((post_increment two_chunks at_two).1 ≡ increment two_chunks at_two)
    × ((post_increment two_chunks at_two).0 ≢ at_two)
post_increment_example = post_increment_moves two_chunks at_two

sack-small : type_code sack < 2 ^ 16
unfolding type_code
sack-small = omega arith

header_round_trip_example :
    let q = set_magic (
      set_payload_size
        (set_ack_number
          (set_seq_number
            (set_dst_connection_id (set_src_connection_id (set_packet_type roomy sack) 7) 9)
            70000)
          65536)
        30) in
    (is_valid q ≡ true)
    × (get_packet_type q ≡ sack)
    × (get_src_connection_id q ≡ 7)
    × (get_dst_connection_id q ≡ 9)
    × (get_seq_number q ≡ 70000)
    × (get_ack_number q ≡ 65536)
    × (Header.get_payload_size q.element ≡ 30 % 2 ^ 16)
header_round_trip_example =
    header_round_trip roomy sack 7 9 70000 65536 30 (omega arith) tt sack-small (omega arith)
      (omega arith) (omega arith) (omega arith)
