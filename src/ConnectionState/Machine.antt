-- ===== src/ConnectionState/Machine.antt =====
-- The states of a connection as a machine: what each of its methods may move it to.
use multi_threaded_socket.Common.{
  ℕ, ◌≡◌, refl, ◌∙◌, ap, Bool, true, false, ◌||◌, Option, List, ◌++◌, Bool-cases, ◌⊎◌, inl, inr,
  Result, ok, err, ◌>>=◌, Error,
}
use multi_threaded_socket.Packet.{Packet, get_packet_type, is_valid, get_seq_number}
use multi_threaded_socket.Packet.Types.{
  PacketType, syn, syn_ack, data_type, sack, none_type, ack, fin, close, unknown, no_seq_number,
}
use multi_threaded_socket.RecvQueue.{add_packet}
use multi_threaded_socket.RecvQueue.Invariant.{after}
use multi_threaded_socket.Connection.{
  Connection, State, sending_syn, waiting_syn, waiting_syn_ack, sending_syn_ack, data_state,
  closing, closed_state, recv_packet, get_free_recv_packets, set_last_ack, add_acks,
  notify_send_packets_event,
}
use multi_threaded_socket.Connection
use multi_threaded_socket.Connection.Packets.{Recv, unusable, took, recv_packet-Recv}
use multi_threaded_socket.ConnectionState.{
  Answer, unless_null, state_on_recv, on_recv_packets, waiting_syn_on_recv, waiting_syn_ack_on_recv,
  data_on_recv,
}

-- What a packet of a type makes of a state. A pair that is not here has no handler.
pub data Moves : State → PacketType → State → Type 0 where
  syn_heard : Moves waiting_syn syn sending_syn_ack
  syn_ack_heard : Moves waiting_syn_ack syn_ack data_state
  early_data_heard : Moves waiting_syn_ack data_type data_state
  syn_ack_heard_again : Moves data_state syn_ack data_state
  acks_heard : Moves data_state sack data_state
  data_heard : Moves data_state data_type data_state

-- The states that look whether a packet is valid.
pub data Looks : State → Type 0 where
  in_waiting_syn : Looks waiting_syn
  in_waiting_syn_ack : Looks waiting_syn_ack

-- A state that looks at it goes on only with a valid packet.
abbrev pub Heeds : State → Packet → Type 0
Heeds s packet = Looks s → is_valid packet ≡ true

-- A client's connection counts as connected when it leaves waiting_syn_ack.
abbrev pub opens : State → Bool
opens waiting_syn_ack = true
opens _ = false

-- The receive queue has added the packet, or is as it was.
abbrev pub QueueStep : Connection → Packet → Connection → Type 0
QueueStep c packet c' =
    (c'.recv_queue ≡ c.recv_queue)
    ⊎ (c'.recv_queue ≡ after c.recv_queue (add_packet c.recv_queue packet))

-- What a received packet does to a connection, in every case.
pub data Received (c : Connection) (packet : Packet) (now : ℕ)
    : Result (List Packet × Connection) → Type 0 where
  unhandled :
      {e : Error}
      → Heeds c.connection_state packet
      → ((s : State) → ¬ (Moves c.connection_state (get_packet_type packet) s))
      → Received c packet now (err e)
  unnumbered :
      {e : Error}
      → Heeds c.connection_state packet
      → get_packet_type packet ≡ data_type
      → get_seq_number packet ≡ no_seq_number
      → Received c packet now (err e)
  broken :
      {freed : List Packet} {c' : Connection}
      → is_valid packet ≡ false
      → Looks c.connection_state
      → c'.closed ≡ true
      → c'.connection_state ≡ c.connection_state
      → c'.connected ≡ c.connected
      → c'.recv_queue ≡ c.recv_queue
      → c'.last_packet_receive ≡ now
      → c'.key ≡ c.key
      → Received c packet now (ok (freed, c'))
  moved :
      {freed : List Packet} {c' : Connection}
      → Heeds c.connection_state packet
      → Moves c.connection_state (get_packet_type packet) c'.connection_state
      → c'.closed ≡ c.closed
      → c'.connected ≡ (opens c.connection_state || c.connected)
      → QueueStep c packet c'
      → c'.last_packet_receive ≡ now
      → c'.key ≡ c.key
      → Received c packet now (ok (freed, c'))

-- The same for the handler of a state.
data Answered (s : State) (packet : Packet) (c : Connection) : Answer → Type 0 where
  no_handler :
      {e : Error}
      → Heeds s packet
      → ((s' : State) → ¬ (Moves s (get_packet_type packet) s'))
      → Answered s packet c (err e)
  no_number :
      {e : Error}
      → Heeds s packet
      → get_packet_type packet ≡ data_type
      → get_seq_number packet ≡ no_seq_number
      → Answered s packet c (err e)
  refused :
      {freed : List Packet}
      → is_valid packet ≡ false
      → Looks s
      → Answered s packet c (ok (s, freed, Connection.close c))
  handled :
      {s' : State} {freed : List Packet} {c' : Connection}
      → Heeds s packet
      → Moves s (get_packet_type packet) s'
      → c'.closed ≡ c.closed
      → c'.connected ≡ (opens s || c.connected)
      → QueueStep c packet c'
      → c'.last_packet_receive ≡ c.last_packet_receive
      → c'.key ≡ c.key
      → Answered s packet c (ok (s', freed, c'))

abbrev heard : State → PacketType → Bool
heard waiting_syn syn = true
heard waiting_syn_ack syn_ack = true
heard waiting_syn_ack data_type = true
heard data_state syn_ack = true
heard data_state sack = true
heard data_state data_type = true
heard _ _ = false

Moves-heard : {s s' : State} {t : PacketType} → Moves s t s' → heard s t ≡ true
Moves-heard syn_heard = refl
Moves-heard syn_ack_heard = refl
Moves-heard early_data_heard = refl
Moves-heard syn_ack_heard_again = refl
Moves-heard acks_heard = refl
Moves-heard data_heard = refl

unheard :
    {s : State} {packet : Packet} {c : Connection} {e : Error} (t : PacketType)
    → Heeds s packet
    → get_packet_type packet ≡ t
    → heard s t ≡ false
    → Answered s packet c (err e)
unheard t valid type deaf = no_handler valid λ s' m. let hears = Moves-heard m in cc

waiting_syn-Answered :
    (packet : Packet) (c : Connection)
    → Answered waiting_syn packet c (waiting_syn_on_recv packet c)
unfolding waiting_syn_on_recv
waiting_syn-Answered packet c = elim (Bool-cases (is_valid packet)) [
  | inr bad ↦ rw (bad, waiting_syn_on_recv) (refused bad in_waiting_syn)
  | inl good ↦ by_type good (get_packet_type packet) refl
]
  where
    by_type :
        is_valid packet ≡ true
        → (t : PacketType) → get_packet_type packet ≡ t
        → Answered waiting_syn packet c (waiting_syn_on_recv packet c)
    by_type v syn e =
        rw (v, e, waiting_syn_on_recv)
          (handled (λ _. v) (rw e syn_heard) refl refl (inl refl) refl refl)
    by_type v none_type e = rw (v, e, waiting_syn_on_recv) (unheard none_type (λ _. v) e refl)
    by_type v ack e = rw (v, e, waiting_syn_on_recv) (unheard ack (λ _. v) e refl)
    by_type v syn_ack e = rw (v, e, waiting_syn_on_recv) (unheard syn_ack (λ _. v) e refl)
    by_type v data_type e = rw (v, e, waiting_syn_on_recv) (unheard data_type (λ _. v) e refl)
    by_type v sack e = rw (v, e, waiting_syn_on_recv) (unheard sack (λ _. v) e refl)
    by_type v fin e = rw (v, e, waiting_syn_on_recv) (unheard fin (λ _. v) e refl)
    by_type v close e = rw (v, e, waiting_syn_on_recv) (unheard close (λ _. v) e refl)
    by_type v (unknown n) e = rw (v, e, waiting_syn_on_recv) (unheard (unknown n) (λ _. v) e refl)

-- The packet goes to RecvPacket, and what it answers goes on.
data_step :
    {s : State} {packet : Packet} {c c₀ : Connection} {r : Result (Option Packet × Connection)}
    → Heeds s packet
    → get_packet_type packet ≡ data_type
    → Moves s data_type data_state
    → c₀.closed ≡ c.closed
    → c₀.connected ≡ (opens s || c.connected)
    → c₀.recv_queue ≡ c.recv_queue
    → c₀.last_packet_receive ≡ c.last_packet_receive
    → c₀.key ≡ c.key
    → Recv c₀ packet r
    → Answered s packet c (r >>= λ received. ok (data_state, unless_null received.0, received.1))
data_step valid type m closed connected queue last key (unusable e) = no_number valid type e
data_step valid type m closed connected queue last key (took t) =
    handled valid (rw type m) (ap (λ c. c.closed) t.rest ∙ closed)
      (ap (λ c. c.connected) t.rest ∙ connected) (inr (rw queue at t.queue))
      (ap (λ c. c.last_packet_receive) t.rest ∙ last) (ap (λ c. c.key) t.rest ∙ key)

waiting_syn_ack-Answered :
    (packet : Packet) (c : Connection)
    → Answered waiting_syn_ack packet c (waiting_syn_ack_on_recv packet c)
unfolding waiting_syn_ack_on_recv
waiting_syn_ack-Answered packet c = elim (Bool-cases (is_valid packet)) [
  | inr bad ↦ rw (bad, waiting_syn_ack_on_recv) (refused bad in_waiting_syn_ack)
  | inl good ↦ by_type good (get_packet_type packet) refl
]
  where
    by_type :
        is_valid packet ≡ true
        → (t : PacketType) → get_packet_type packet ≡ t
        → Answered waiting_syn_ack packet c (waiting_syn_ack_on_recv packet c)
    by_type v syn_ack e =
        rw (v, e, waiting_syn_ack_on_recv)
          (handled (λ _. v) (rw e syn_ack_heard) refl refl (inl refl) refl refl)
    by_type v data_type e =
        rw (v, e, waiting_syn_ack_on_recv)
          (data_step (λ _. v) e early_data_heard refl refl refl refl refl
            (recv_packet-Recv _ packet))
    by_type v none_type e = rw (v, e, waiting_syn_ack_on_recv) (unheard none_type (λ _. v) e refl)
    by_type v syn e = rw (v, e, waiting_syn_ack_on_recv) (unheard syn (λ _. v) e refl)
    by_type v ack e = rw (v, e, waiting_syn_ack_on_recv) (unheard ack (λ _. v) e refl)
    by_type v sack e = rw (v, e, waiting_syn_ack_on_recv) (unheard sack (λ _. v) e refl)
    by_type v fin e = rw (v, e, waiting_syn_ack_on_recv) (unheard fin (λ _. v) e refl)
    by_type v close e = rw (v, e, waiting_syn_ack_on_recv) (unheard close (λ _. v) e refl)
    by_type v (unknown n) e =
        rw (v, e, waiting_syn_ack_on_recv) (unheard (unknown n) (λ _. v) e refl)

-- The other states do not look.
looks : State → Bool
looks waiting_syn = true
looks waiting_syn_ack = true
looks _ = false

Looks-looks : {s : State} → Looks s → looks s ≡ true
unfolding looks
Looks-looks in_waiting_syn = refl
Looks-looks in_waiting_syn_ack = refl

careless_as : (s : State) (packet : Packet) → looks s ≡ false → Heeds s packet
careless_as s packet e l = let eager = Looks-looks l in cc

data-Answered :
    (packet : Packet) (c : Connection) → Answered data_state packet c (data_on_recv packet c)
unfolding looks data_on_recv set_last_ack add_acks
data-Answered packet c = by_type (get_packet_type packet) refl
  where
    by_type :
        (t : PacketType)
        → get_packet_type packet ≡ t
        → Answered data_state packet c (data_on_recv packet c)
    by_type syn_ack e =
        rw (e, data_on_recv)
          (handled (careless_as data_state packet refl) (rw e syn_ack_heard_again) refl refl
            (inl refl) refl refl)
    by_type sack e =
        rw (e, data_on_recv)
          (handled (careless_as data_state packet refl) (rw e acks_heard) refl refl (inl refl) refl
            refl)
    by_type data_type e =
        rw (e, data_on_recv)
          (data_step (careless_as data_state packet refl) e data_heard refl refl refl refl refl
            (recv_packet-Recv _ packet))
    by_type none_type e =
        rw (e, data_on_recv) (unheard none_type (careless_as data_state packet refl) e refl)
    by_type syn e = rw (e, data_on_recv) (unheard syn (careless_as data_state packet refl) e refl)
    by_type ack e = rw (e, data_on_recv) (unheard ack (careless_as data_state packet refl) e refl)
    by_type fin e = rw (e, data_on_recv) (unheard fin (careless_as data_state packet refl) e refl)
    by_type close e =
        rw (e, data_on_recv) (unheard close (careless_as data_state packet refl) e refl)
    by_type (unknown n) e =
        rw (e, data_on_recv) (unheard (unknown n) (careless_as data_state packet refl) e refl)

state-Answered :
    (s : State) (packet : Packet) (c : Connection) → Answered s packet c (state_on_recv s packet c)
unfolding looks state_on_recv
state-Answered waiting_syn packet c = waiting_syn-Answered packet c
state-Answered waiting_syn_ack packet c = waiting_syn_ack-Answered packet c
state-Answered data_state packet c = data-Answered packet c
state-Answered sending_syn packet c =
    no_handler (careless_as sending_syn packet refl) λ s m. let hears = Moves-heard m in cc
state-Answered sending_syn_ack packet c =
    no_handler (careless_as sending_syn_ack packet refl) λ s m. let hears = Moves-heard m in cc
state-Answered closing packet c =
    no_handler (careless_as closing packet refl) λ s m. let hears = Moves-heard m in cc
state-Answered closed_state packet c =
    no_handler (careless_as closed_state packet refl) λ s m. let hears = Moves-heard m in cc

-- Every branch of OnRecvPackets. It throws only for a packet whose type the state has no handler
-- for, or for a data packet whose number stands for none. While a connection waits for the handshake,
-- in waiting_syn or waiting_syn_ack, a packet that is not valid closes it, and changes no state, and
-- it goes on only with a valid one. Any packet that it goes on with moves the state
-- as Moves says, makes a client connected when it ends the handshake, and reaches the receive queue
-- at most once. The time of the packet is noted, and the connection keeps its key.
pub on_recv_packets-Received :
    (c : Connection) (packet : Packet) (now : ℕ)
    → Received c packet now (on_recv_packets c packet now)
unfolding on_recv_packets get_free_recv_packets Connection.close
on_recv_packets-Received c packet now =
    by_case (state-Answered c.connection_state packet (record c { last_packet_receive = now }))
  where
    by_case :
        {r : Answer}
        → Answered c.connection_state packet (record c { last_packet_receive = now }) r
        → Received c packet now (
            r >>= λ answer. ok (
              answer.1
                  ++ (get_free_recv_packets (record answer.2 { connection_state = answer.0 })).0,
              notify_send_packets_event
                  (get_free_recv_packets (record answer.2 { connection_state = answer.0 })).1,
            ))
    by_case (no_handler v h) = unhandled v h
    by_case (no_number v t e) = unnumbered v t e
    by_case (refused bad looks) = broken bad looks refl refl refl refl refl refl
    by_case (handled v m closed connected queue last key) =
        moved v m closed connected queue last key
