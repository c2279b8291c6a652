-- ===== src/Tests/Connections.antt =====
-- The handshake of two connections, and what they do later.
use multi_threaded_socket.Common.{
  false, ◌≡◌, refl, true, List, [], ◌∷◌, ◌++◌, arith, ok, err, not_implemented,
}
use multi_threaded_socket.Packet.{Packet}
use multi_threaded_socket.Packet.Types.{default_addr}
use multi_threaded_socket.Connection.{
  Connection, State, sending_syn, waiting_syn, waiting_syn_ack, data_state, new_connection,
  recv_packet, send,
}
use multi_threaded_socket.Connection
use multi_threaded_socket.ConnectionState.{on_recv_packets, run}
use multi_threaded_socket.ConnectionState.Machine.{Received, on_recv_packets-Received}
use multi_threaded_socket.ConnectionState.Running.{Ran, run-Ran}
use multi_threaded_socket.ConnectionState.Delivery.{
  Steps, start, next, wrote, read, gave_send, closed_down,
}
use multi_threaded_socket.ConnectionState.Roles.{
  client, server, client_states, server_states, late_answer_throws,
}
use multi_threaded_socket.Tests.{numbered, typed, roomy}

abbrev fresh_client : Connection
fresh_client = new_connection sending_syn default_addr 7 0

abbrev fresh_server : Connection
fresh_server = new_connection waiting_syn default_addr 9 0

-- A client that has sent its Syn at time 0
abbrev waiting_client : Connection
waiting_client = record fresh_client { connection_state = waiting_syn_ack; last_packet_receive = 0 }

abbrev open_client : Connection
open_client = record fresh_client {
  connection_state = data_state;
  connected = true;
  free_internal_send_packets = roomy ∷ [];
}

-- Two packets wait for its reader.
abbrev reading_client : Connection
reading_client = record open_client {
  recv_queue = record open_client.recv_queue { data_list = numbered 1 ∷ numbered 2 ∷ [] };
}

on_recv_packets_example :
    Received waiting_client (typed 3 0) 20 (on_recv_packets waiting_client (typed 3 0) 20)
on_recv_packets_example = on_recv_packets-Received waiting_client (typed 3 0) 20

run_example : Ran open_client 20 (run open_client 20)
run_example = run-Ran open_client 20

-- The user gives a buffer, writes and reads.
abbrev writing_client : Connection
writing_client = send (Connection.add_free_send_packets fresh_client (roomy ∷ [])) (roomy ∷ [])

abbrev used_client : Connection
used_client = (Connection.recv writing_client [] true).1

abbrev got : List Packet
got = (Connection.recv writing_client [] true).0 ++ []

used_client-Steps : Steps false fresh_client got used_client
used_client-Steps =
    next (gave_send (roomy ∷ [])) (next (wrote (roomy ∷ [])) (next (read [] true) start))

client_states_example : client used_client.connection_state used_client.connected ≡ true
client_states_example = client_states default_addr 7 0 used_client-Steps

abbrev closed_server : Connection
closed_server = Connection.close fresh_server

closed_server-Steps : Steps true fresh_server [] closed_server
closed_server-Steps = next closed_down start

server_states_example : server closed_server.connection_state closed_server.connected ≡ true
server_states_example = server_states default_addr 9 0 closed_server-Steps

writing_server-Steps : Steps true closed_server [] (send closed_server (roomy ∷ []))
writing_server-Steps = next (wrote (roomy ∷ [])) start

late_answer_throws_example :
    (c' : Connection) × (run waiting_client 40000000000 ≡ ok c')
    × (c'.connection_state ≡ sending_syn)
    × (on_recv_packets c' (typed 3 0) 40000000001 ≡ err not_implemented)
late_answer_throws_example =
    late_answer_throws waiting_client (typed 3 0) 40000000000 40000000001 refl (omega arith)
