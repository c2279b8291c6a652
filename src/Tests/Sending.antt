-- ===== src/Tests/Sending.antt =====
-- Packets on their way out, and their acknowledgements.
use mathlib.Core.List.{Perm}
use multi_threaded_socket.Common.{
  ◌*◌, ◌≤◌, ◌≡◌, refl, List, [], ◌∷◌, ◌++◌, length, take, drop, replicate, arith,
}
use multi_threaded_socket.Packet.{get_seq_number}
use multi_threaded_socket.Packet.Header
use multi_threaded_socket.Packet.Bytes.{read_le}
use multi_threaded_socket.SendQueue.{SendQueue, OutgoingPacket, get_packets_to_send}
use multi_threaded_socket.SendQueue.Heap.{Rises, get_packets_to_send_lem}
use multi_threaded_socket.SendQueue.Numbers.{Sent, send_packets_numbers}
use multi_threaded_socket.Stats.{
  new_context, speed_controller, SpeedController, second, time_ranged_stats,
}
use multi_threaded_socket.Stats.Speed.{poll, stalled_forever}
use multi_threaded_socket.Sample.{Sample, find}
use multi_threaded_socket.Sample.Acks.{Distinct}
use multi_threaded_socket.Sample.Held.{packets_out}
use multi_threaded_socket.InFlightQueue.{InFlightQueue, add_queue, get_all_packets}
use multi_threaded_socket.InFlightQueue
use multi_threaded_socket.InFlightQueue.Conservation.{held, process_acks-conserves}
use multi_threaded_socket.InFlightQueue.Sorting.{
  services, answered, DistinctNumbers, add_queue-conserves,
}
use multi_threaded_socket.Tests.{numbered, sent_at}

-- Two packets to send again and one new one.
abbrev waiting : SendQueue
waiting = record {
  resend = sent_at 5 2 ∷ sent_at 5 4 ∷ [];
  need_to_send = sent_at 0 7 ∷ [];
  service_need_to_send = [];
  next_packet_number = 7;
}

waiting-Rises : Rises 0 waiting.resend
unfolding get_seq_number Header.get_seq_number read_le
waiting-Rises = (omega arith, (omega arith, tt))

get_packets_to_send_example :
    let (packets, q') = get_packets_to_send waiting 2 in
    (packets ≡ take 2 (waiting.resend ++ waiting.need_to_send))
    × (q'.resend ++ q'.need_to_send ≡ drop 2 (waiting.resend ++ waiting.need_to_send))
    × (length packets ≤ 2)
    × Rises 0 q'.resend
    × (q'.service_need_to_send ≡ waiting.service_need_to_send)
get_packets_to_send_example = get_packets_to_send_lem waiting 2 waiting-Rises

send_packets_example :
    (sent : List OutgoingPacket) × Sent waiting (numbered 0 ∷ numbered 0 ∷ []) sent
send_packets_example =
    send_packets_numbers (numbered 0 ∷ numbered 0 ∷ []) waiting (omega arith, (omega arith, tt))
      (omega arith)

-- Packets 2 and 4, sent at time 5
abbrev sample : Sample
sample = record {
  packets = (2, sent_at 5 2) ∷ (4, sent_at 5 4) ∷ [];
  service_packet_number = 0;
  double_sent_packet_number = 0;
  time_ranged_stats = time_ranged_stats 5;
}

sample-Distinct : Distinct sample.packets
unfolding find
sample-Distinct = (refl, (refl, tt))

abbrev flight : InFlightQueue
flight = record {
  received_acks = 4 ∷ 9 ∷ [];
  speed = speed_controller new_context 0;
  samples = sample ∷ [];
  last_ack_number = 1;
}

wanted-DistinctNumbers : DistinctNumbers (sent_at 6 9 ∷ sent_at 6 10 ∷ [])
unfolding get_seq_number Header.get_seq_number read_le
wanted-DistinctNumbers = (λ e. (λ h. omega arith, tt), (λ e. tt, tt))

add_queue_example :
    let (free_internal, free_user, q') = add_queue flight (sent_at 6 9 ∷ sent_at 6 10 ∷ []) 6 in
    (free_internal ≡ services (sent_at 6 9 ∷ sent_at 6 10 ∷ []))
    × (free_user ≡ answered flight.received_acks (sent_at 6 9 ∷ sent_at 6 10 ∷ []))
    × (take (length flight.samples) q'.samples ≡ flight.samples)
    × Perm
        (free_internal ++ free_user ++ held q')
        (packets_out (sent_at 6 9 ∷ sent_at 6 10 ∷ []) ++ held flight)
add_queue_example =
    add_queue-conserves flight (sent_at 6 9 ∷ sent_at 6 10 ∷ []) 6 wanted-DistinctNumbers

process_acks_conserves_example :
    let (freed, q') = InFlightQueue.process_acks flight 9 in Perm (freed ++ held q') (held flight)
process_acks_conserves_example = process_acks-conserves flight 9

-- 100 seconds and more without a send
abbrev controller : SpeedController
controller = record {
  last_send = 0;
  stats = time_ranged_stats 0;
  real_speed = 0;
  min_speed = 1;
  max_speed = 100000;
  number = 0;
}

stalled_forever_example :
    poll controller (200 * second ∷ 300 * second ∷ [])
    ≡ replicate (length (200 * second ∷ 300 * second ∷ [])) 0
stalled_forever_example =
    stalled_forever (200 * second ∷ 300 * second ∷ []) controller (omega arith, (omega arith, tt))
