-- ===== src/Protocol/Sending.antt =====
-- FastTransportContext::ConnectionsRun, SendQueueStep and CheckRecvQueue: the loops over the
-- connections, and the way back of the packets that were sent. `connectionOutgoingPackets` is walked
-- in the order in which its keys come.
use multi_threaded_socket.Common.{
  ℕ, ◌≡◌, Bool, true, false, Option, none, some, List, [], ◌∷◌, ◌++◌, map, get_elem?, set, Result,
  ok, ◌>>=◌, if◌then◌else◌,
}
use multi_threaded_socket.Packet.{get_dst_addr, get_src_connection_id}
use multi_threaded_socket.Packet.Types.{af_inet}
use multi_threaded_socket.SendQueue.{OutgoingPacket}
use multi_threaded_socket.Connection.{
  Connection, ConnectionKey, get_packets_to_send, process_sent_packets, process_recv_packets,
}
use multi_threaded_socket.ConnectionState.{run}
use multi_threaded_socket.Protocol.{Context, same_key, find_connection, from_each}

-- A loop that calls each connection, and ends with the first exception.
unfoldable pub call_each :
    (Connection → Result Connection)
    → List Connection
    → List (ConnectionKey × ℕ)
    → Result (List Connection)
call_each call objects [] = ok objects
call_each call objects ((key, pointer) ∷ entries) = elim (get_elem? objects pointer) [
  | none ↦ call_each call objects entries
  | some c ↦ do c' ← call c; call_each call (set objects pointer c') entries
]

-- CheckRecvQueue; `none` if the loop of a connection's ProcessRecvPackets does not end.
unfoldable pub check_each : List Connection → List (ConnectionKey × ℕ) → Option (List Connection)
check_each objects [] = some objects
check_each objects ((key, pointer) ∷ entries) = elim (get_elem? objects pointer) [
  | none ↦ check_each objects entries
  | some c ↦ elim (process_recv_packets c) [
    | none ↦ none
    | some c' ↦ check_each (set objects pointer c') entries
  ]
]

unfoldable pub check_recv_queue : Context → Option Context
check_recv_queue t = elim (check_each t.objects t.connections) [
  | none ↦ none
  | some objects ↦ some (record t { objects = objects })
]

abbrev pub sent_key : OutgoingPacket → ConnectionKey
sent_key o = record { id = get_src_connection_id o.packet; dst_addr = get_dst_addr o.packet }

-- `connectionOutgoingPackets[key].push_back`
unfoldable pub add_to_group :
    OutgoingPacket
    → List (ConnectionKey × List OutgoingPacket)
    → List (ConnectionKey × List OutgoingPacket)
add_to_group o [] = (sent_key o, o ∷ []) ∷ []
add_to_group o ((key, packets) ∷ groups) =
    let rest = add_to_group o groups in
    if same_key key (sent_key o) then (key, packets ++ o ∷ []) ∷ groups else (key, packets) ∷ rest

unfoldable pub group_packets :
    List (ConnectionKey × List OutgoingPacket)
    → List OutgoingPacket
    → List (ConnectionKey × List OutgoingPacket)
group_packets groups [] = groups
group_packets groups (o ∷ packets) = group_packets (add_to_group o groups) packets

-- A group goes to its connection, or to the free packets when there is none.
unfoldable pub return_group : Context → ConnectionKey × List OutgoingPacket → ℕ → Context
return_group t (key, packets) now = elim (find_connection key t.connections) [
  | none ↦ record t {
    free_send_packets = t.free_send_packets ++ map (λ (o : OutgoingPacket). o.packet) packets;
  }
  | some pointer ↦ elim (get_elem? t.objects pointer) [
    | none ↦ t
    | some c ↦ record t { objects = set t.objects pointer (process_sent_packets c packets now) }
  ]
]

unfoldable pub return_groups : Context → List (ConnectionKey × List OutgoingPacket) → ℕ → Context
return_groups t [] now = t
return_groups t (group ∷ groups) now = return_groups (return_group t group now) groups now

abbrev pub any_packet : List OutgoingPacket → Bool
any_packet [] = false
any_packet (o ∷ packets) = true

-- SendQueueStep, after its wait; `send` is what the sockets give back of the packets.
unfoldable pub send_queue_step : Context → (List OutgoingPacket → List OutgoingPacket) → ℕ → Context
send_queue_step t send now =
    let (packets, objects) = from_each (λ c. get_packets_to_send c now) t.objects t.connections in
    return_groups (record t { objects = objects; ready_send = any_packet packets })
      (group_packets [] (send packets)) now

-- ConnectionsRun
unfoldable pub connections_run :
    Context → (List OutgoingPacket → List OutgoingPacket) → ℕ → Result Context
connections_run t send now = do
  objects ← call_each (λ c. run c now) t.objects t.connections
  ok (send_queue_step (record t { objects = objects }) send now)

-- The packets of a key in the groups, and among the packets, in their order.
abbrev pub group_of :
    ConnectionKey → List (ConnectionKey × List OutgoingPacket) → List OutgoingPacket
group_of key [] = []
group_of key ((k, packets) ∷ groups) =
    let rest = group_of key groups in if same_key k key then packets else rest

abbrev pub with_key : ConnectionKey → List OutgoingPacket → List OutgoingPacket
with_key key [] = []
with_key key (o ∷ packets) =
    let rest = with_key key packets in if same_key (sent_key o) key then o ∷ rest else rest

-- The packets went to AF_INET addresses, so that no comparison of them throws.
abbrev pub AreInternet : List OutgoingPacket → Type 0
AreInternet [] = Unit {0}
AreInternet (o ∷ packets) = ((get_dst_addr o.packet).family ≡ af_inet) × AreInternet packets
