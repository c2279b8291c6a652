-- ===== src/Tests/Receiving.antt =====
-- The receive queue on packets that come out of order.
use multi_threaded_socket.Common.{
  ℕ, ◌%◌, ◌<◌, ◌≤◌, ◌≡◌, ◌≢◌, ◌⊎◌, ◌+◌, refl, List, [], ◌∷◌, ◌++◌, map, length, some, none, arith,
  count_up,
}
use multi_threaded_socket.Packet.{Packet, get_seq_number}
use multi_threaded_socket.Packet.Types.{seq_mod, no_seq_number}
use multi_threaded_socket.Packet.Header
use multi_threaded_socket.Packet.Bytes.{read_le}
use multi_threaded_socket.RecvQueue.{
  RecvQueue, new_queue, add_packet, process_unordered_packets, queue_size,
}
use multi_threaded_socket.RecvQueue.Invariant.{
  IsValid, Added, after, new_queue-IsValid, add_packet-Added, add_packet-IsValid, process-IsValid,
  Processed, AtLimit, Fits, new_queue-Fits, add_packet-Fits,
}
use multi_threaded_socket.RecvQueue.Order.{
  Call, add, process, take_data, take_acks, run, run_in_order, process_delivers,
}
use multi_threaded_socket.Tests.{numbered}

numbered-word : get_seq_number (numbered 1) < seq_mod
unfolding get_seq_number Header.get_seq_number read_le
numbered-word = omega arith

numbered-small : get_seq_number (numbered 1) + 1 < no_seq_number
unfolding get_seq_number Header.get_seq_number read_le
numbered-small = omega arith

numbered-small₂ : get_seq_number (numbered 2) + 1 < no_seq_number
unfolding get_seq_number Header.get_seq_number read_le
numbered-small₂ = omega arith

-- The second packet comes first, and the first one twice.
abbrev calls : List Call
calls =
    add (numbered 2)
    ∷ process
    ∷ add (numbered 1)
    ∷ add (numbered 1)
    ∷ process
    ∷ take_data
    ∷ take_acks
    ∷ []

run_in_order_example :
    (taken : List Packet) × (q : RecvQueue) × (run new_queue calls ≡ some (taken, q))
    × (map get_seq_number (taken ++ q.data_list) ≡ count_up 1 (length (taken ++ q.data_list)))
run_in_order_example = run_in_order calls (numbered-small₂, (numbered-small, (numbered-small, tt)))

abbrev stored_one : RecvQueue
stored_one = after new_queue (add_packet new_queue (numbered 1))

add_packet-Added_example : Added stored_one (numbered 1) (add_packet stored_one (numbered 1))
add_packet-Added_example = add_packet-Added stored_one (numbered 1)

stored_one-IsValid : IsValid stored_one
stored_one-IsValid = add_packet-IsValid new_queue (numbered 1) new_queue-IsValid numbered-word

process-IsValid_example :
    Processed stored_one
    ⊎ ((process_unordered_packets stored_one ≡ none)
        × AtLimit stored_one.begin_full_received_ack stored_one.queue)
process-IsValid_example = process-IsValid stored_one stored_one-IsValid

stored_one-Fits : Fits stored_one
stored_one-Fits = add_packet-Fits new_queue (numbered 1) new_queue-Fits numbered-small

-- The first packet is stored.
stored :
    (s : ℕ)
    → stored_one.begin_full_received_ack ≤ s
    → s < 2
    → stored_one.queue (s % queue_size) ≢ none
unfolding add_packet new_queue get_seq_number Header.get_seq_number read_le
stored s low high empty =
    let one : s ≡ 1 = omega (arith, low, high) in
    let eq : some (numbered 1) ≡ none = rw one at empty in cc

stored_one-begin : stored_one.begin_full_received_ack ≡ 1
unfolding add_packet new_queue get_seq_number Header.get_seq_number read_le
stored_one-begin = refl

process_delivers_example :
    (q' : RecvQueue) × (process_unordered_packets stored_one ≡ some q')
    × (2 ≤ q'.begin_full_received_ack)
process_delivers_example =
    process_delivers stored_one 2 stored_one-IsValid stored_one-Fits
      (omega (arith, stored_one-begin)) stored
