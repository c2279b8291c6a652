-- ===== src/ConnectionState.antt =====
-- IConnectionState.hpp and IConnectionState.cpp, with the two methods of Connection.cpp that
-- dispatch to them: how a connection goes from state to state. An exception ends the thread that
-- meets it, so the state that it leaves behind is not modelled. Times are nanoseconds.
pub mod Frame
pub mod Machine
pub mod Running
pub mod Acks
pub mod Delivery
pub mod Roles
use multi_threaded_socket.Common.{
  ℕ, zero, suc, ◌+◌, ◌-◌, Bool, true, false, Option, none, some, List, [], ◌∷◌, ◌++◌, map, length,
  ltb, leb, if◌then◌else◌, Result, ok, err, ◌>>=◌, wrong_packet_type, wrong_packety_type,
  not_implemented,
}
use multi_threaded_socket.Packet.{
  Packet, get_packet_type, set_packet_type, get_src_connection_id, set_src_connection_id,
  set_dst_connection_id, get_ack_number, set_ack_number, get_acks, set_acks, set_addr, set_payload,
  is_valid, get_dst_addr,
}
use multi_threaded_socket.Packet.Types.{
  PacketType, syn, syn_ack, data_type, sack, none_type, ack, fin, close, unknown, max_acks_size,
}
use multi_threaded_socket.SendQueue.{OutgoingPacket}
use multi_threaded_socket.RecvQueue.{get_selective_acks, get_last_ack}
use multi_threaded_socket.Connection.{
  Connection, State, sending_syn, waiting_syn, waiting_syn_ack, sending_syn_ack, data_state,
  closing, closed_state, new_connection, set_connected, set_destination_id, get_free_send_packet,
  send_service_packets, send_data_packets, recv_packet, resend_packets, process_acks,
  check_timeouts, add_acks, set_last_ack, get_send_user_data, add_free_user_send_packets,
  get_free_recv_packets, notify_send_packets_event,
}
use multi_threaded_socket.Connection

-- What a handler of a received packet answers: the next state, the packets it frees, the connection.
abbrev pub Answer : Type 0
Answer = Result (State × List Packet × Connection)

unfoldable pub waiting_syn_on_recv : Packet → Connection → Answer
waiting_syn_on_recv packet c =
    if is_valid packet
    then elim (get_packet_type packet) [
      | syn ↦ ok (sending_syn_ack, packet ∷ [], set_destination_id c (get_src_connection_id packet))
      | _ ↦ err wrong_packet_type
    ]
    else ok (waiting_syn, packet ∷ [], Connection.close c)

-- `freePackets.push_back` of a pointer that may be null
abbrev pub unless_null : Option Packet → List Packet
unless_null none = []
unless_null (some packet) = packet ∷ []

unfoldable pub waiting_syn_ack_on_recv : Packet → Connection → Answer
waiting_syn_ack_on_recv packet c =
    let opened = set_connected (set_destination_id c (get_src_connection_id packet)) true in
    if is_valid packet
    then elim (get_packet_type packet) [
      | syn_ack ↦ ok (data_state, packet ∷ [], opened)
      | data_type ↦ do
        received ← recv_packet opened packet
        ok (data_state, unless_null received.0, received.1)
      | _ ↦ err wrong_packet_type
    ]
    else ok (waiting_syn_ack, packet ∷ [], Connection.close c)

unfoldable pub data_on_recv : Packet → Connection → Answer
data_on_recv packet c = elim (get_packet_type packet) [
  | syn_ack ↦ ok (data_state, packet ∷ [], c)
  | sack ↦
      ok (
        data_state,
        packet ∷ [],
        add_acks (set_last_ack c (get_ack_number packet)) (get_acks packet),
      )
  | data_type ↦ do
    received ← recv_packet (set_last_ack c (get_ack_number packet)) packet
    ok (data_state, unless_null received.0, received.1)
  | _ ↦ err wrong_packety_type
]

-- The virtual OnRecvPackets: the other states have the one of BasicConnectionState.
unfoldable pub state_on_recv : State → Packet → Connection → Answer
unfolding waiting_syn_on_recv waiting_syn_ack_on_recv data_on_recv
state_on_recv waiting_syn packet c = waiting_syn_on_recv packet c
state_on_recv waiting_syn_ack packet c = waiting_syn_ack_on_recv packet c
state_on_recv data_state packet c = data_on_recv packet c
state_on_recv _ packet c = err not_implemented

-- The Syn and SynAck packets, as they are handed to SendServicePackets.
abbrev pub syn_packet : Connection → Packet → Packet
syn_packet c packet =
    set_payload
      (set_addr (set_src_connection_id (set_packet_type packet syn) c.key.id) c.key.dst_addr) []

abbrev pub syn_ack_packet : Connection → Packet → Packet
syn_ack_packet c packet =
    set_payload
      (set_addr
        (set_src_connection_id
          (set_dst_connection_id (set_packet_type packet syn_ack) c.destination_id) c.key.id)
        c.key.dst_addr)
      []

unfoldable pub sending_syn_send : Connection → State × Connection
sending_syn_send c = elim (get_free_send_packet c).0 [
  | none ↦ (sending_syn, (get_free_send_packet c).1)
  | some packet ↦
      (waiting_syn_ack, send_service_packets (get_free_send_packet c).1 (syn_packet c packet ∷ []))
]

unfoldable pub sending_syn_ack_send : Connection → State × Connection
sending_syn_ack_send c = elim (get_free_send_packet c).0 [
  | none ↦ (sending_syn_ack, (get_free_send_packet c).1)
  | some packet ↦
      (data_state, send_service_packets (get_free_send_packet c).1 (syn_ack_packet c packet ∷ []))
]

-- The inner loop of DataState::SendPackets, with room for `room` more: what goes into the packet,
-- and the acknowledgements behind `acksOffset`.
unfoldable pub fill_acks : ℕ → ℕ → List ℕ → List ℕ × List ℕ
fill_acks room last_ack [] = ([], [])
fill_acks zero last_ack (a ∷ acks) = ([], a ∷ acks)
fill_acks (suc room) last_ack (a ∷ acks) = elim (leb last_ack a) [
  | true ↦ let (taken, rest) = fill_acks room last_ack acks in (a ∷ taken, rest)
  | false ↦ fill_acks (suc room) last_ack acks
]

abbrev pub sack_packet : Connection → Packet → List ℕ → Packet
sack_packet c packet acks =
    set_acks
      (set_addr
        (set_ack_number
          (set_dst_connection_id (set_src_connection_id (set_packet_type packet sack) c.key.id)
            c.destination_id)
          (get_last_ack c.recv_queue))
        c.key.dst_addr)
      acks

-- The outer loop. Each round takes at least one acknowledgement, so their number is fuel enough.
unfoldable pub send_acks : ℕ → ℕ → List ℕ → Connection → Connection
send_acks zero last_ack acks c = c
send_acks (suc fuel) last_ack [] c = c
send_acks (suc fuel) last_ack (a ∷ acks) c = elim (get_free_send_packet c).0 [
  | none ↦ (get_free_send_packet c).1
  | some packet ↦
      let (taken, rest) = fill_acks max_acks_size last_ack (a ∷ acks) in
      send_acks fuel last_ack rest
        (send_service_packets (get_free_send_packet c).1 (sack_packet c packet taken ∷ []))
]

abbrev pub data_packet : Connection → Packet → Packet
data_packet c packet =
    set_addr
      (set_dst_connection_id (set_src_connection_id (set_packet_type packet data_type) c.key.id)
        c.destination_id)
      c.key.dst_addr

abbrev pub resend_if_any : Connection → List OutgoingPacket → Connection
resend_if_any c [] = c
resend_if_any c (o ∷ packets) = resend_packets c (o ∷ packets)

abbrev pub send_if_any : Connection → List Packet → Connection
send_if_any c [] = c
send_if_any c (p ∷ packets) = send_data_packets c (map (data_packet c) (p ∷ packets))

unfoldable pub data_send : Connection → ℕ → State × Connection
data_send c now =
    let (acks, queue) = get_selective_acks c.recv_queue in
    let c₁ = send_acks (length acks) (get_last_ack queue) acks (record c { recv_queue = queue }) in
    let (lost, c₂) = check_timeouts c₁ now in
    let (user, c₃) = get_send_user_data (resend_if_any c₂ lost) in (data_state, send_if_any c₃ user)

-- The virtual SendPackets
unfoldable pub state_send : State → Connection → ℕ → Result (State × Connection)
unfolding sending_syn_send sending_syn_ack_send data_send
state_send sending_syn c now = ok (sending_syn_send c)
state_send sending_syn_ack c now = ok (sending_syn_ack_send c)
state_send waiting_syn_ack c now = ok (waiting_syn_ack, c)
state_send data_state c now = ok (data_send c now)
state_send _ c now = err not_implemented

-- The virtual OnTimeOut
unfoldable pub state_on_time_out : State → Connection → Result (State × Connection)
state_on_time_out waiting_syn_ack c = ok (sending_syn, c)
state_on_time_out data_state c = ok (data_state, Connection.close c)
state_on_time_out _ c = err not_implemented

-- The virtual GetTimeout
unfoldable pub state_timeout : State → ℕ
state_timeout data_state = 300000000000
state_timeout _ = 30000000000

unfoldable pub process_inflight_packets : Connection → ℕ → Connection
process_inflight_packets c now =
    let (freed, c') = process_acks c now in add_free_user_send_packets c' freed

-- Connection::OnRecvPackets: the freed packets and the new connection.
unfoldable pub on_recv_packets : Connection → Packet → ℕ → Result (List Packet × Connection)
unfolding state_on_recv
on_recv_packets c packet now = do
  answer ← state_on_recv c.connection_state packet (record c { last_packet_receive = now })
  let left = get_free_recv_packets (record answer.2 { connection_state = answer.0 })
  ok (answer.1 ++ left.0, notify_send_packets_event left.1)

-- Connection::Run, of a connection that has heard nothing for too long, and of another
unfoldable pub run_late : Connection → ℕ → Result Connection
unfolding state_on_time_out
run_late c now = do
  next ← state_on_time_out c.connection_state c
  ok (record next.1 { connection_state = next.0; last_packet_receive = now })

unfoldable pub run_in_time : Connection → ℕ → Result Connection
unfolding state_send process_inflight_packets
run_in_time c now = do
  next ← state_send c.connection_state c now
  ok (process_inflight_packets (record next.1 { connection_state = next.0 }) now)

-- Connection::Run
unfoldable pub run : Connection → ℕ → Result Connection
run c now =
    if ltb (state_timeout c.connection_state) (now - c.last_packet_receive)
    then run_late c now
    else run_in_time c now

-- ListenState::Listen: the connection, if one is made, and the freed packets. A packet of another
-- type is dropped with its pointer.
unfoldable pub listen : Packet → ℕ → ℕ → Result (Option Connection × List Packet)
unfolding on_recv_packets
listen packet my_id now = elim (get_packet_type packet) [
  | syn ↦ do
    made ← on_recv_packets (new_connection waiting_syn (get_dst_addr packet) my_id now) packet now
    ok (some made.1, made.0)
  | _ ↦ ok (none, [])
]
