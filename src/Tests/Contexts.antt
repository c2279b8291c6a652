-- ===== src/Tests/Contexts.antt =====
-- A context with one connection, and packets that come to it.
use multi_threaded_socket.Common.{
  ℕ, ◌<◌, ◌≡◌, refl, true, false, some, List, [], ◌∷◌, get_elem?, All, All-single, All-nil, ok,
}
use multi_threaded_socket.Packet.{
  Packet, is_valid, get_packet_type, get_dst_connection_id, get_dst_addr,
}
use multi_threaded_socket.Packet.Types.{ConnectionAddr, equal_addr, type_of_code}
use multi_threaded_socket.Packet.Header
use multi_threaded_socket.Packet.Bytes.{read_le}
use multi_threaded_socket.SendQueue.{OutgoingPacket}
use multi_threaded_socket.Connection.{
  Connection, ConnectionKey, data_state, new_connection, can_be_deleted, get_free_recv_packets,
}
use multi_threaded_socket.ConnectionState.{on_recv_packets, state_on_recv, data_on_recv}
use multi_threaded_socket.Protocol.{
  Context, same_key, same_addr, find_connection, on_receive, on_known, is_closed,
  remove_recv_closed_connections, remove_send_closed_connections,
}
use multi_threaded_socket.Protocol.Invariant.{DistinctKeys, Owns, IsWellFormed}
use multi_threaded_socket.Protocol.Routing.{Routed, on_receive-Routed, on_receive-IsWellFormed}
use multi_threaded_socket.Protocol.Removal.{closed-removed, open-stays}
use multi_threaded_socket.Tests.{typed}

abbrev home : ConnectionAddr
home = record { family = 2; address = 1; port = 80 }

abbrev home_key : ConnectionKey
home_key = record { id = 9; dst_addr = home }

-- Packets that are sent to the connection 9 by the connection 7.
abbrev to_home : ℕ → Packet
to_home type = record (typed type 1) { dst_addr = home }

abbrev home_connection : Connection
home_connection = new_connection data_state home 9 0

abbrev closed_connection : Connection
closed_connection = record home_connection { closed = true }

abbrev context_of : Connection → Context
context_of c = record {
  objects = c ∷ [];
  connections = (home_key, 0) ∷ [];
  incoming_connections = [];
  free_recv_packets = [];
  free_send_packets = [];
  ready_send = true;
  next_id = 9;
}

home_context-IsWellFormed : IsWellFormed (context_of home_connection)
unfolding DistinctKeys find_connection new_connection
home_context-IsWellFormed = record {
  distinct = (refl, tt);
  owned = All-single (Owns (home_connection ∷ [])) (home_connection, refl, refl);
  waiting = All-nil (λ p. p < 1);
}

on_receive_example :
    Routed
      (context_of home_connection)
      (to_home 3)
      5
      (on_receive (context_of home_connection) (to_home 3) 5)
unfolding get_dst_addr
on_receive_example =
    on_receive-Routed (context_of home_connection) (to_home 3) 5 home_context-IsWellFormed refl

-- The connection has heard a SynAck at time 5.
abbrev heard_connection : Connection
heard_connection = record home_connection { last_packet_receive = 5; notifications = 1 }

heard :
    on_receive (context_of home_connection) (to_home 3) 5
    ≡ ok (to_home 3 ∷ [], context_of heard_connection)
unfolding on_receive on_known on_recv_packets state_on_recv data_on_recv is_valid get_packet_type
    get_dst_connection_id get_dst_addr Header.is_valid Header.get_packet_type
    Header.get_dst_connection_id type_of_code read_le find_connection same_key same_addr equal_addr
    new_connection get_free_recv_packets
heard = refl

on_receive-IsWellFormed_example : IsWellFormed (context_of heard_connection)
on_receive-IsWellFormed_example =
    on_receive-IsWellFormed (context_of home_connection) (context_of heard_connection) (to_home 3) 5
      (to_home 3 ∷ []) home_context-IsWellFormed heard

closed-removed_example :
    All
      (λ (entry : ConnectionKey × ℕ).
        is_closed
          (remove_send_closed_connections
            (remove_recv_closed_connections (context_of closed_connection)))
          entry
        ≡ false)
      (remove_send_closed_connections
        (remove_recv_closed_connections (context_of closed_connection))).connections
closed-removed_example = closed-removed (context_of closed_connection)

found : find_connection home_key (context_of home_connection).connections ≡ some 0
unfolding find_connection same_key same_addr equal_addr
found = refl

open-stays_example :
    (find_connection home_key
        (remove_recv_closed_connections (context_of home_connection)).connections
      ≡ some 0)
    × (get_elem? (remove_recv_closed_connections (context_of home_connection)).objects 0
        ≡ some home_connection)
    × (find_connection home_key
          (remove_send_closed_connections (context_of home_connection)).connections
        ≡ some 0)
    × (get_elem? (remove_send_closed_connections (context_of home_connection)).objects 0
        ≡ some home_connection)
unfolding new_connection can_be_deleted
open-stays_example =
    open-stays (context_of home_connection) home_key 0 home_connection found refl is_open stays
  where
    is_open : home_connection.closed ≡ false
    is_open = refl

    stays : can_be_deleted home_connection ≡ false
    stays = refl

-- Packets that were sent by two connections.
abbrev sent : List OutgoingPacket
sent =
    record { packet = to_home 4; send_time = 0; need_ack = true }
    ∷ record { packet = to_home 5; send_time = 1; need_ack = false }
    ∷ []
