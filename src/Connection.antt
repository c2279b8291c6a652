-- ===== src/Connection.antt =====
-- Connection.hpp, Connection.cpp, ConnectionKey.hpp and Statistics.cpp: one connection, and the
-- methods through which its states act on it. A list of packets is the list that a MultiList stands
-- for (see MultiList.Laws and LockedList); `notifications` counts the calls of
-- NotifySendPacketsEvent. The time of a call is its last argument. The counters of Statistics are
-- taken not to overflow.
pub mod Packets
pub mod Reading
use multi_threaded_socket.Common.{
  take, drop, ltb, ℕ, ◌+◌, ◌-◌, Bool, true, false, ◌&&◌, Option, none, some, List, [], ◌∷◌, ◌++◌,
  map, length, take, drop, split_last, ltb, ◌==◌, if◌then◌else◌, Result, ok, err, ◌>>=◌,
  unknown_recv_queue_status,
}
use multi_threaded_socket.Packet.{Packet, set_payload_size}
use multi_threaded_socket.Packet.Types.{ConnectionAddr, max_payload_size}
use multi_threaded_socket.RecvQueue.{
  RecvQueue, RecvQueueStatus, invalid, new, full, duplicated, add_packet, process_unordered_packets,
  take_user_data,
}
use multi_threaded_socket.RecvQueue
use multi_threaded_socket.SendQueue.{SendQueue, OutgoingPacket, send_packets}
use multi_threaded_socket.SendQueue
use multi_threaded_socket.InFlightQueue.{InFlightQueue, add_queue, get_all_packets}
use multi_threaded_socket.InFlightQueue
use multi_threaded_socket.Stats.{new_context}

-- ConnectionState.hpp
pub data State : Type 0 where
  sending_syn waiting_syn waiting_syn_ack sending_syn_ack data_state closing closed_state : State

pub record Statistics : Type 0 where
  pub lost_packets : ℕ
  pub sent_packets : ℕ
  pub received_packets : ℕ
  pub duplicate_packets : ℕ
  pub overflow_packets : ℕ
  pub ack_send_packets : ℕ
  pub ack_received_packets : ℕ

abbrev pub no_statistics : Statistics
no_statistics = record {
  lost_packets = 0;
  sent_packets = 0;
  received_packets = 0;
  duplicate_packets = 0;
  overflow_packets = 0;
  ack_send_packets = 0;
  ack_received_packets = 0;
}

pub record ConnectionKey : Type 0 where
  pub id : ℕ
  pub dst_addr : ConnectionAddr

pub record Connection : Type 0 where
  pub key : ConnectionKey
  pub free_internal_send_packets : List Packet
  pub free_recv_packets : List Packet
  pub last_packet_receive : ℕ
  pub in_flight_queue : InFlightQueue
  pub recv_queue : RecvQueue
  pub send_queue : SendQueue
  pub free_user_send_packets : List Packet
  pub connected : Bool
  pub closed : Bool
  pub clean_recv_buffers : Bool
  pub clean_send_buffers : Bool
  pub connection_state : State
  pub statistics : Statistics
  pub send_user_data : List Packet
  pub destination_id : ℕ
  pub notifications : ℕ

unfoldable pub new_connection : State → ConnectionAddr → ℕ → ℕ → Connection
new_connection state addr my_id now = record {
  key = record { id = my_id; dst_addr = addr };
  free_internal_send_packets = [];
  free_recv_packets = [];
  last_packet_receive = now;
  in_flight_queue = InFlightQueue.new_queue new_context now;
  recv_queue = RecvQueue.new_queue;
  send_queue = SendQueue.new_queue;
  free_user_send_packets = [];
  connected = false;
  closed = false;
  clean_recv_buffers = false;
  clean_send_buffers = false;
  connection_state = state;
  statistics = no_statistics;
  send_user_data = [];
  destination_id = 0;
  notifications = 0;
}

-- `for (auto& packet : list) packet->SetPayloadSize(MaxPayloadSize)`
abbrev pub full_size : List Packet → List Packet
full_size = map λ p. set_payload_size p max_payload_size

abbrev pub notify_send_packets_event : Connection → Connection
notify_send_packets_event c = record c { notifications = c.notifications + 1 }

abbrev pub set_connected : Connection → Bool → Connection
set_connected c value = record c { connected = value }

abbrev pub set_destination_id : Connection → ℕ → Connection
set_destination_id c id = record c { destination_id = id }

-- What a waiting method gets when its wait is over: `ready` is the answer of the wait.
unfoldable pub get_free_send_packets : Connection → Bool → List Packet × Connection
get_free_send_packets c ready =
    if ready then (c.free_user_send_packets, record c { free_user_send_packets = [] }) else ([], c)

unfoldable pub try_get_free_send_packets : Connection → List Packet × Connection
try_get_free_send_packets c =
    (full_size c.free_user_send_packets, record c { free_user_send_packets = [] })

unfoldable pub send : Connection → List Packet → Connection
send c [] = c
send c (p ∷ packets) =
    notify_send_packets_event (record c { send_user_data = c.send_user_data ++ p ∷ packets })

unfoldable pub send2 : Connection → List Packet → Bool → List Packet × Connection
unfolding get_free_send_packets
send2 c packets ready =
    let sent =
      notify_send_packets_event (record c { send_user_data = c.send_user_data ++ packets }) in
    let (result, c') = get_free_send_packets sent ready in (full_size result, c')

unfoldable pub recv : Connection → List Packet → Bool → List Packet × Connection
recv c free_packets ready =
    let given = record c { free_recv_packets = c.free_recv_packets ++ free_packets } in
    let (packets, queue) = take_user_data c.recv_queue in
    if ready then (packets, record given { recv_queue = queue }) else ([], given)

-- Recv with a size: what it does first, and a round of its loop after a wait that is not stopped.
-- Other threads may act between the rounds.
unfoldable pub begin_recv : Connection → List Packet → Connection
begin_recv c free_packets = record c { free_recv_packets = c.free_recv_packets ++ free_packets }

unfoldable pub recv_some : Connection → ℕ → List Packet × Connection
recv_some c size = (
  take size c.recv_queue.data_list,
  record c { recv_queue = record c.recv_queue { data_list = drop size c.recv_queue.data_list } },
)

-- The loop, where no other thread acts: the answers of its waits, until a stop is requested.
unfoldable pub recv_rounds : Connection → ℕ → List Bool → List Packet × Connection
unfolding recv_some
recv_rounds c size [] = ([], c)
recv_rounds c size (ready ∷ waits) = elim (ltb 0 size && ready) [
  | true ↦
      let (packets, c') = recv_some c size in
      let (more, c'') = recv_rounds c' (size - length packets) waits in (packets ++ more, c'')
  | false ↦ if size == 0 then ([], c) else recv_rounds c size waits
]

-- Recv with a size
unfoldable pub recv_sized : Connection → List Packet → ℕ → List Bool → List Packet × Connection
unfolding begin_recv recv_rounds
recv_sized c free_packets size waits = recv_rounds (begin_recv c free_packets) size waits

unfoldable pub add_free_recv_packets : Connection → List Packet → Connection
add_free_recv_packets c packets = record c {
  free_recv_packets = c.free_recv_packets ++ full_size packets;
}

unfoldable pub add_free_send_packets : Connection → List Packet → Connection
add_free_send_packets c packets = record c {
  free_user_send_packets = c.free_user_send_packets ++ full_size packets;
}

-- AddFreeUserSendPackets
unfoldable pub add_free_user_send_packets : Connection → List Packet → Connection
add_free_user_send_packets c packets = record c {
  free_user_send_packets = c.free_user_send_packets ++ full_size packets;
}

-- The waiting readers and writers that it wakes change no state here.
unfoldable pub close : Connection → Connection
close c = record c { closed = true }

unfoldable pub can_be_deleted : Connection → Bool
can_be_deleted c = c.clean_recv_buffers && c.clean_send_buffers

unfoldable pub get_packets_to_send : Connection → ℕ → List OutgoingPacket × Connection
get_packets_to_send c now =
    let (service, queue₁) = SendQueue.get_service_packets_to_send c.send_queue in
    let (size, flight) = InFlightQueue.get_number_packet_to_send c.in_flight_queue now in
    let (packets, queue₂) = SendQueue.get_packets_to_send queue₁ size in
    let left = if length packets == 0 then size - length packets else 0 in
    if size == 0 then (service, record c { send_queue = queue₁; in_flight_queue = flight }) else (
      service ++ packets,
      record c {
        send_queue = queue₂;
        in_flight_queue = InFlightQueue.revert_number_packet_to_send flight left;
        statistics = record c.statistics {
          sent_packets = c.statistics.sent_packets + length packets;
        };
      },
    )

unfoldable pub set_internal_free_packets : Connection → List Packet → List Packet → Connection
set_internal_free_packets c internal received = record c {
  free_internal_send_packets = c.free_internal_send_packets ++ internal;
  free_recv_packets = c.free_recv_packets ++ received;
}

unfoldable pub process_sent_packets : Connection → List OutgoingPacket → ℕ → Connection
process_sent_packets c packets now =
    let (free_internal, free_user, flight) = add_queue c.in_flight_queue packets now in
    record c {
      in_flight_queue = flight;
      free_internal_send_packets = c.free_internal_send_packets ++ free_internal;
      free_user_send_packets = c.free_user_send_packets ++ full_size free_user;
    }

-- `none` if the receive queue's loop does not end.
unfoldable pub process_recv_packets : Connection → Option Connection
process_recv_packets c =
    if c.closed then some c else elim (process_unordered_packets c.recv_queue) [
      | none ↦ none
      | some queue ↦ some (record c { recv_queue = queue })
    ]

unfoldable pub send_service_packets : Connection → List Packet → Connection
send_service_packets c packets = notify_send_packets_event (record c {
  statistics = record c.statistics {
    ack_send_packets = c.statistics.ack_send_packets + length packets;
  };
  send_queue = send_packets c.send_queue packets false;
})

unfoldable pub send_data_packets : Connection → List Packet → Connection
send_data_packets c packets =
    notify_send_packets_event (record c { send_queue = send_packets c.send_queue packets true })

-- The switch of RecvPacket
unfoldable pub count_received : Statistics → RecvQueueStatus → Result Statistics
count_received s full = ok (record s { overflow_packets = s.overflow_packets + 1 })
count_received s duplicated = ok (record s { duplicate_packets = s.duplicate_packets + 1 })
count_received s new = ok (record s { received_packets = s.received_packets + 1 })
count_received s invalid = err unknown_recv_queue_status

-- The packet that the receive queue did not take, and the new connection.
unfoldable pub recv_packet : Connection → Packet → Result (Option Packet × Connection)
unfolding count_received
recv_packet c packet = do
  added ← add_packet c.recv_queue packet
  statistics ← count_received c.statistics added.0
  ok (added.1, record c { recv_queue = added.2; statistics = statistics })

unfoldable pub resend_packets : Connection → List OutgoingPacket → Connection
resend_packets c packets = notify_send_packets_event (record c {
  statistics = record c.statistics { lost_packets = c.statistics.lost_packets + length packets };
  send_queue = SendQueue.resend_packets c.send_queue packets;
})

unfoldable pub process_acks : Connection → ℕ → List Packet × Connection
process_acks c now =
    let (freed, flight) = InFlightQueue.process_acks c.in_flight_queue now in
    (freed, record c { in_flight_queue = flight })

unfoldable pub check_timeouts : Connection → ℕ → List OutgoingPacket × Connection
check_timeouts c now =
    let (lost, flight) = InFlightQueue.check_timeouts c.in_flight_queue now in
    (lost, record c { in_flight_queue = flight })

unfoldable pub add_acks : Connection → List ℕ → Connection
add_acks c acks = record c {
  statistics = record c.statistics { ack_received_packets = c.statistics.ack_received_packets + 1 };
  in_flight_queue = InFlightQueue.add_acks c.in_flight_queue acks;
}

unfoldable pub set_last_ack : Connection → ℕ → Connection
set_last_ack c ack = record c { in_flight_queue = InFlightQueue.set_last_ack c.in_flight_queue ack }

unfoldable pub get_send_user_data : Connection → List Packet × Connection
get_send_user_data c = (c.send_user_data, record c { send_user_data = [] })

unfoldable pub get_free_recv_packets : Connection → List Packet × Connection
get_free_recv_packets c = (c.free_recv_packets, record c { free_recv_packets = [] })

unfoldable pub clean_free_recv_packets : Connection → List Packet × Connection
unfolding get_free_recv_packets
clean_free_recv_packets c = get_free_recv_packets (record c { clean_recv_buffers = true })

unfoldable pub clean_free_send_packets : Connection → List Packet × Connection
clean_free_send_packets c =
    let (freed, flight) = get_all_packets c.in_flight_queue in
    (freed, record c { clean_send_buffers = true; in_flight_queue = flight })

-- `none` is the null pointer.
unfoldable pub get_free_send_packet : Connection → Option Packet × Connection
get_free_send_packet c = elim (split_last c.free_internal_send_packets) [
  | none ↦ (none, c)
  | some (left, packet) ↦ (some packet, record c { free_internal_send_packets = left })
]
