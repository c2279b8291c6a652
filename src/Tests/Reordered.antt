-- ===== src/Tests/Reordered.antt =====
-- A connection that receives its second packet first.
use multi_threaded_socket.Common.{
  ℕ, ◌<◌, ◌≡◌, refl, Bool, true, false, Option, none, some, List, [], ◌++◌, map, length, arith,
  count_up, Result, ok, err,
}
use multi_threaded_socket.Packet.{Packet, get_seq_number, get_packet_type}
use multi_threaded_socket.Packet.Types.{seq_mod, default_addr, type_of_code}
use multi_threaded_socket.Packet.Header
use multi_threaded_socket.Packet.Bytes.{read_le}
use multi_threaded_socket.RecvQueue.{
  add_packet, drain, new_queue, process_unordered_packets, take_user_data,
}
use multi_threaded_socket.Connection.{
  Connection, data_state, new_connection, process_recv_packets, recv, set_last_ack, recv_packet,
  count_received, get_free_recv_packets,
}
use multi_threaded_socket.ConnectionState.{on_recv_packets, state_on_recv, data_on_recv}
use multi_threaded_socket.ConnectionState.Delivery.{
  Steps, start, next, received, processed, read, connection_delivers,
}
use multi_threaded_socket.Tests.{numbered}

abbrev is_ok : {A : Type 0} → Result A → Bool
is_ok (ok a) = true
is_ok (err e) = false

abbrev value : Result (List Packet × Connection) → Connection → Connection
value (ok (freed, c)) d = c
value (err e) d = d

abbrev freed_of : Result (List Packet × Connection) → List Packet
freed_of (ok (freed, c)) = freed
freed_of (err e) = []

ok-value :
    (r : Result (List Packet × Connection)) (d : Connection)
    → is_ok r ≡ true
    → r ≡ ok (freed_of r, value r d)
ok-value (ok (freed, c)) d e = refl
ok-value (err x) d e = let no_way : false ≡ true = e in cc

abbrev opened : Connection
opened = new_connection data_state default_addr 7 0

abbrev second_received : Connection
second_received = value (on_recv_packets opened (numbered 2) 20) opened

abbrev both_received : Connection
both_received = value (on_recv_packets second_received (numbered 1) 30) opened

first_ok : is_ok (on_recv_packets opened (numbered 2) 20) ≡ true
unfolding on_recv_packets state_on_recv data_on_recv get_packet_type Header.get_packet_type
    type_of_code read_le recv_packet add_packet count_received get_seq_number Header.get_seq_number
    new_connection new_queue set_last_ack
first_ok = refl

second_ok : is_ok (on_recv_packets second_received (numbered 1) 30) ≡ true
unfolding on_recv_packets state_on_recv data_on_recv get_packet_type Header.get_packet_type
    type_of_code read_le recv_packet add_packet count_received get_seq_number Header.get_seq_number
    new_connection new_queue set_last_ack get_free_recv_packets
second_ok = refl

abbrev is_some : Option Connection → Bool
is_some none = false
is_some (some c) = true

abbrev get : Option Connection → Connection
get none = opened
get (some c) = c

some-get : (o : Option Connection) → is_some o ≡ true → o ≡ some (get o)
some-get (some c) e = refl
some-get none e = let no_way : false ≡ true = e in cc

abbrev in_order : Connection
in_order = get (process_recv_packets both_received)

process_ok : is_some (process_recv_packets both_received) ≡ true
unfolding on_recv_packets state_on_recv data_on_recv get_packet_type Header.get_packet_type
    type_of_code read_le recv_packet add_packet count_received get_seq_number Header.get_seq_number
    new_connection new_queue set_last_ack get_free_recv_packets process_recv_packets
    process_unordered_packets drain
process_ok = refl

word : (n : ℕ) → n < 256 → get_seq_number (numbered n) < seq_mod
unfolding get_seq_number Header.get_seq_number read_le
word n small = omega (arith, small)

abbrev given : List Packet
given = (recv in_order [] true).0

reordered-Steps : Steps false opened (given ++ []) (recv in_order [] true).1
reordered-Steps =
    next
      (received (numbered 2) 20 (word 2 (omega arith))
        (ok-value (on_recv_packets opened (numbered 2) 20) opened first_ok))
      (next
        (received (numbered 1) 30 (word 1 (omega arith))
          (ok-value (on_recv_packets second_received (numbered 1) 30) opened second_ok))
        (next (processed (some-get (process_recv_packets both_received) process_ok))
          (next (read [] true) start)))

connection_delivers_example :
    map get_seq_number ((given ++ []) ++ (recv in_order [] true).1.recv_queue.data_list)
    ≡ count_up 1 (length ((given ++ []) ++ (recv in_order [] true).1.recv_queue.data_list))
connection_delivers_example = connection_delivers false data_state default_addr 7 0 reordered-Steps

-- Two packets, in spite of the order in which they came.
two_given : length given ≡ 2
unfolding on_recv_packets state_on_recv data_on_recv get_packet_type Header.get_packet_type
    type_of_code read_le recv_packet add_packet count_received get_seq_number Header.get_seq_number
    new_connection new_queue set_last_ack get_free_recv_packets process_recv_packets
    process_unordered_packets drain recv take_user_data
two_given = refl
