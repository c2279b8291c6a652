-- ===== src/Protocol.antt =====
-- FastTransportProtocol.hpp, FastTransportProtocol.cpp, ConnectionKey.cpp and the buffers of
-- UDPQueue.cpp: the context that owns the connections. A `shared_ptr` to a connection is its index
-- in `objects`, so that the map and the list of incoming connections share it; no object is taken
-- out of `objects`. The map is the list of its pairs, in the order in which it is walked. What the
-- sockets receive and send back is an argument. The mutexes are what makes each function here a step.
pub mod Invariant
pub mod Routing
pub mod Sweep
pub mod Removal
pub mod Sending
pub mod Opening
use multi_threaded_socket.Common.{
  ℕ, zero, suc, ◌+◌, ◌%◌, ◌^◌, Bool, true, false, ◌&&◌, ◌||◌, Option, none, some, List, [], ◌∷◌,
  ◌++◌, length, get_elem?, set, replicate, split_last, ltb, ◌==◌, if◌then◌else◌, Result, ok, err,
  ◌>>=◌, not_implemented,
}
use multi_threaded_socket.Packet.{
  Packet, new_packet, is_valid, get_dst_addr, get_dst_connection_id, get_src_connection_id,
}
use multi_threaded_socket.Packet.Types.{ConnectionAddr, equal_addr}
use multi_threaded_socket.SendQueue.{OutgoingPacket}
use multi_threaded_socket.Connection.{
  Connection, ConnectionKey, sending_syn, new_connection, set_connected, set_internal_free_packets,
  can_be_deleted, get_packets_to_send, process_sent_packets, process_recv_packets,
  get_free_recv_packets, clean_free_recv_packets, clean_free_send_packets,
}
use multi_threaded_socket.ConnectionState.{on_recv_packets, run, listen}

pub record Context : Type 0 where
  pub objects : List Connection
  pub connections : List (ConnectionKey × ℕ)
  pub incoming_connections : List ℕ
  pub free_recv_packets : List Packet
  pub free_send_packets : List Packet
  pub ready_send : Bool
  pub next_id : ℕ

-- The constructor.
unfoldable pub new_context : Context
new_context = record {
  objects = [];
  connections = [];
  incoming_connections = [];
  free_recv_packets = [];
  free_send_packets = [];
  ready_send = true;
  next_id = 0;
}

-- `operator==` of addresses, where it does not throw: it throws for two of the same family other than
-- AF_INET, which is left out here, and never when one of the two is of AF_INET.
unfoldable pub same_addr : ConnectionAddr → ConnectionAddr → Bool
same_addr a b = elim (equal_addr a b) [ none ↦ false | some equal ↦ equal ]

-- ConnectionKey::operator==
unfoldable pub same_key : ConnectionKey → ConnectionKey → Bool
same_key a b = a.id == b.id && same_addr a.dst_addr b.dst_addr

-- `_connections.find`
unfoldable pub find_connection : ConnectionKey → List (ConnectionKey × ℕ) → Option ℕ
find_connection key [] = none
find_connection key ((k, pointer) ∷ connections) =
    if same_key k key then some pointer else find_connection key connections

-- `_connections.insert`
unfoldable pub insert_connection :
    ConnectionKey → ℕ → List (ConnectionKey × ℕ) → List (ConnectionKey × ℕ)
insert_connection key pointer connections = elim (find_connection key connections) [
  | none ↦ connections ++ (key, pointer) ∷ []
  | some _ ↦ connections
]

abbrev pub gso_size : ℕ
gso_size = 1400

-- UDPQueue::CreateBuffers
unfoldable pub create_buffers : ℕ → List Packet
create_buffers size = replicate size (new_packet gso_size)

-- GenerateID
unfoldable pub generate_id : Context → ℕ × Context
generate_id t = let id = (t.next_id + 1) % 2 ^ 16 in (id, record t { next_id = id })

-- A connection is made, gets its buffers and enters the map: the pointer to it.
unfoldable pub add_connection : Context → Connection → ℕ × Context
add_connection t c =
    let pointer = length t.objects in
    let buffered = set_internal_free_packets c (create_buffers 10000) (create_buffers 10000) in
    (
      pointer,
      record t {
        objects = t.objects ++ buffered ∷ [];
        connections = insert_connection c.key pointer t.connections;
      },
    )

-- Accept, when an incoming connection has come; the pointer is null when it stops waiting.
unfoldable pub accept : Context → Option ℕ × Context
accept t = elim (split_last t.incoming_connections) [
  | none ↦ (none, t)
  | some (left, pointer) ↦ elim (get_elem? t.objects pointer) [
    | none ↦ (none, t)
    | some c ↦ (
      some pointer,
      record t {
        objects = set t.objects pointer (set_connected c true);
        incoming_connections = left;
        connections = insert_connection c.key pointer t.connections;
      },
    )
  ]
]

-- Connect
unfoldable pub connect : Context → ConnectionAddr → ℕ → ℕ × Context
connect t dst_addr now =
    let (id, t') = generate_id t in add_connection t' (new_connection sending_syn dst_addr id now)

abbrev pub packet_key : Packet → ConnectionKey
packet_key packet = record { id = get_dst_connection_id packet; dst_addr = get_dst_addr packet }

-- OnReceive of a packet for no connection.
unfoldable pub on_unknown : Context → Packet → ℕ → Result (List Packet × Context)
on_unknown t packet now =
    let (id, t') = generate_id t in
    do
      (made, freed) ← listen packet id now
      elim made [
        | none ↦ ok (freed, t')
        | some c ↦
            let (pointer, t'') = add_connection t' c in
            ok (
              freed,
              record t'' { incoming_connections = t''.incoming_connections ++ pointer ∷ [] },
            )
      ]

-- OnReceive of a packet for a connection.
unfoldable pub on_known : Context → ℕ → Packet → ℕ → Result (List Packet × Context)
on_known t pointer packet now = elim (get_elem? t.objects pointer) [
  | none ↦ ok ([], t)
  | some c ↦ do
    (freed, c') ← on_recv_packets c packet now
    ok (freed, record t { objects = set t.objects pointer c' })
]

-- OnReceive of a packet.
unfoldable pub on_receive : Context → Packet → ℕ → Result (List Packet × Context)
on_receive t packet now =
    if is_valid packet
    then elim (find_connection (packet_key packet) t.connections) [
      | none ↦ on_unknown t packet now
      | some pointer ↦ on_known t pointer packet now
    ]
    else err not_implemented

-- OnReceive of a batch.
unfoldable pub on_receive_all : Context → List Packet → ℕ → Result (List Packet × Context)
on_receive_all t [] now = ok ([], t)
on_receive_all t (packet ∷ packets) now = do
  (freed, t') ← on_receive t packet now
  (rest, t'') ← on_receive_all t' packets now
  ok (freed ++ rest, t'')

abbrev pub is_closed : Context → ConnectionKey × ℕ → Bool
is_closed t entry = elim (get_elem? t.objects entry.1) [ none ↦ false | some c ↦ c.closed ]

abbrev pub any_closed : Context → List (ConnectionKey × ℕ) → Bool
any_closed t [] = false
any_closed t (entry ∷ entries) = is_closed t entry || any_closed t entries

-- The connection that `erase_if` looks at: what it gives back when it is closed, and what it is then.
unfoldable pub clean_if_closed :
    (Connection → List Packet × Connection) → Connection → List Packet × Connection
clean_if_closed clean c = if c.closed then clean c else ([], c)

-- `erase_if`: the packets given back, the objects, and the entries that stay.
unfoldable pub sweep :
    (Connection → List Packet × Connection)
    → List Connection
    → List (ConnectionKey × ℕ)
    → List Packet × List Connection × List (ConnectionKey × ℕ)
sweep clean objects [] = ([], objects, [])
sweep clean objects ((key, pointer) ∷ entries) = elim (get_elem? objects pointer) [
  | none ↦
      let (freed, objects', left) = sweep clean objects entries in
      (freed, objects', (key, pointer) ∷ left)
  | some c ↦
      let (mine, c') = clean_if_closed clean c in
      let (freed, objects', left) = sweep clean (set objects pointer c') entries in
      (mine ++ freed, objects', if can_be_deleted c' then left else (key, pointer) ∷ left)
]

-- RemoveRecvClosedConnections
unfoldable pub remove_recv_closed_connections : Context → Context
remove_recv_closed_connections t =
    let (freed, objects, left) = sweep clean_free_recv_packets t.objects t.connections in
    if any_closed t t.connections
    then record t {
      objects = objects;
      connections = left;
      free_recv_packets = t.free_recv_packets ++ freed;
    }
    else t

-- RemoveSendClosedConnections
unfoldable pub remove_send_closed_connections : Context → Context
remove_send_closed_connections t =
    let (freed, objects, left) = sweep clean_free_send_packets t.objects t.connections in
    if any_closed t t.connections
    then record t {
      objects = objects;
      connections = left;
      free_send_packets = t.free_send_packets ++ freed;
    }
    else t

-- The loops over `_connections` that take something from each connection.
unfoldable pub from_each :
    {A : Type 0}
    → (Connection → List A × Connection)
    → List Connection
    → List (ConnectionKey × ℕ)
    → List A × List Connection
from_each take_from objects [] = ([], objects)
from_each take_from objects ((key, pointer) ∷ entries) = elim (get_elem? objects pointer) [
  | none ↦ from_each take_from objects entries
  | some c ↦
      let (mine, c') = take_from c in
      let (rest, objects') = from_each take_from (set objects pointer c') entries in
      (mine ++ rest, objects')
]

-- GetConnectionsFreeRecvPackets
unfoldable pub get_connections_free_recv_packets : Context → List Packet × Context
get_connections_free_recv_packets t =
    let (packets, objects) = from_each get_free_recv_packets t.objects t.connections in
    (packets, record t { objects = objects })

-- InitRecvPackets, for the queue's number of packets.
unfoldable pub init_recv_packets : Context → ℕ → Context
init_recv_packets t size = record t { free_recv_packets = create_buffers size }

-- RecvQueueStep, with the packets that the sockets return for the free ones.
unfoldable pub recv_queue_step : Context → (List Packet → List Packet) → ℕ → Result Context
recv_queue_step t recv now = do
  (freed, t') ← on_receive_all (record t { free_recv_packets = [] }) (recv t.free_recv_packets) now
  let taken = get_connections_free_recv_packets t'
  ok (record taken.1 { free_recv_packets = taken.1.free_recv_packets ++ (freed ++ taken.0) })

-- OnSendPacket and OnOutgoingPackets
unfoldable pub on_send_packet : Context → Context
on_send_packet t = record t { ready_send = true }
