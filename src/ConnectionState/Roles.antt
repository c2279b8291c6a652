-- ===== src/ConnectionState/Roles.antt =====
-- Which states the connection of a client and that of a server come to, and what the handshake
-- makes of them.
use multi_threaded_socket.Common.{
  ℕ, ◌-◌, ◌<◌, ◌≡◌, refl, ◌∙◌, ap, Bool, true, false, ◌||◌, not, List, arith, Bool-cases, inl, inr,
  ok, err, not_implemented, ◌>>=◌,
}
use multi_threaded_socket.Packet.{Packet}
use multi_threaded_socket.Packet.Types.{ConnectionAddr, PacketType}
use multi_threaded_socket.Connection.{
  closing, closed_state, Connection, State, sending_syn, waiting_syn, waiting_syn_ack,
  sending_syn_ack, data_state, new_connection,
}
use multi_threaded_socket.ConnectionState.{
  on_recv_packets, run, run_late, state_timeout, state_on_time_out, state_on_recv,
}
use multi_threaded_socket.ConnectionState.Machine.{
  Moves, syn_heard, syn_ack_heard, early_data_heard, syn_ack_heard_again, acks_heard, data_heard,
  opens,
}
use multi_threaded_socket.ConnectionState.Running.{
  RunMoves, syn_waits, syn_sent, answer_waits, answer_sent, waits, starts_again, data_sent, gave_up,
  closes, late,
}
use multi_threaded_socket.ConnectionState.Delivery.{
  admitted, gave_some, Steps, start, next, Effect, heard, worked, ordered, gave, quiet, Step-Effect,
}

-- A client sends a Syn, waits for the SynAck, and is connected from then on.
abbrev pub client : State → Bool → Bool
client sending_syn connected = not connected
client waiting_syn_ack connected = not connected
client data_state connected = connected
client _ connected = false

-- A server hears a Syn, sends the SynAck and goes on; it is connected once it is accepted.
abbrev pub server : State → Bool → Bool
server waiting_syn connected = true
server sending_syn_ack connected = true
server data_state connected = true
server _ connected = false

client-Moves :
    (s s' : State) (t : PacketType) (b : Bool)
    → Moves s t s'
    → client s b ≡ true
    → client s' (opens s || b) ≡ true
client-Moves s s' t b syn_heard h = let no_way : false ≡ true = h in cc
client-Moves s s' t b syn_ack_heard h = refl
client-Moves s s' t b early_data_heard h = refl
client-Moves s s' t b syn_ack_heard_again h = h
client-Moves s s' t b acks_heard h = h
client-Moves s s' t b data_heard h = h

client-RunMoves :
    (s s' : State) (l b : Bool) → RunMoves s l s' → client s b ≡ true → client s' b ≡ true
client-RunMoves s s' l b syn_waits h = h
client-RunMoves s s' l b syn_sent h = h
client-RunMoves s s' l b answer_waits h = h
client-RunMoves s s' l b answer_sent h = let no_way : false ≡ true = h in cc
client-RunMoves s s' l b waits h = h
client-RunMoves s s' l b starts_again h = h
client-RunMoves s s' l b data_sent h = h
client-RunMoves s s' l b gave_up h = h

server-Moves :
    (s s' : State) (t : PacketType) (b : Bool)
    → Moves s t s'
    → server s b ≡ true
    → server s' (opens s || b) ≡ true
server-Moves s s' t b syn_heard h = refl
server-Moves s s' t b syn_ack_heard h = let no_way : false ≡ true = h in cc
server-Moves s s' t b early_data_heard h = let no_way : false ≡ true = h in cc
server-Moves s s' t b syn_ack_heard_again h = h
server-Moves s s' t b acks_heard h = h
server-Moves s s' t b data_heard h = h

server-RunMoves :
    (s s' : State) (l b : Bool) → RunMoves s l s' → server s b ≡ true → server s' b ≡ true
server-RunMoves s s' l b syn_waits h = let no_way : false ≡ true = h in cc
server-RunMoves s s' l b syn_sent h = let no_way : false ≡ true = h in cc
server-RunMoves s s' l b answer_waits h = h
server-RunMoves s s' l b answer_sent h = h
server-RunMoves s s' l b waits h = h
server-RunMoves s s' l b starts_again h = let no_way : false ≡ true = h in cc
server-RunMoves s s' l b data_sent h = h
server-RunMoves s s' l b gave_up h = h

-- A predicate on state and `connected` that both kinds of move keep is kept by every call.
module _ (incoming : Bool) (role : State → Bool → Bool)
    (moves : (s s' : State) (t : PacketType) (b : Bool)
      → Moves s t s'
      → role s b ≡ true
      → role s' (opens s || b) ≡ true)
    (runs : (s s' : State) (l b : Bool) → RunMoves s l s' → role s b ≡ true → role s' b ≡ true)
    (admits : (s : State) (b : Bool) → incoming ≡ true → role s b ≡ true → role s true ≡ true) where
  Effect-role :
      {c c' : Connection} {out : List Packet}
      → Effect incoming c out c'
      → role c.connection_state c.connected ≡ true
      → role c'.connection_state c'.connected ≡ true
  Effect-role {c} (heard packet w m closed connected q) h =
      rw connected (moves _ _ _ c.connected m h)
  Effect-role {c} (worked b m closed connected q) h = rw connected (runs _ _ b c.connected m h)
  Effect-role (ordered queue q e) h = rw (ap (λ c. c.connection_state) e, ap (λ c. c.connected) e) h
  Effect-role (gave state closed connected q) h = rw (state, connected) h
  Effect-role {c} (admitted is_incoming) h = admits c.connection_state c.connected is_incoming h
  Effect-role (gave_some size state closed connected q) h = rw (state, connected) h
  Effect-role (quiet state closed connected q) h = rw (state, connected) h

  Steps-role :
      {c c' : Connection} {out : List Packet}
      → Steps incoming c out c'
      → role c.connection_state c.connected ≡ true
      → role c'.connection_state c'.connected ≡ true
  Steps-role start h = h
  Steps-role (next s ss) h = Steps-role ss (Effect-role (Step-Effect s) h)

-- A connection that a client opened is, after any calls but Accept's of which none throws, in one
-- of sending_syn, waiting_syn_ack and data_state, and it is connected exactly in data_state.
pub client_states :
    (addr : ConnectionAddr) (my_id now : ℕ) {out : List Packet} {c : Connection}
    → Steps false (new_connection sending_syn addr my_id now) out c
    → client c.connection_state c.connected ≡ true
unfolding new_connection
client_states addr my_id now ss =
    Steps-role false client client-Moves client-RunMoves (λ s b e h. cc) ss refl

server-admits : (s : State) (b : Bool) → true ≡ true → server s b ≡ true → server s true ≡ true
server-admits waiting_syn b e h = refl
server-admits sending_syn_ack b e h = refl
server-admits data_state b e h = refl
server-admits sending_syn b e h = h
server-admits waiting_syn_ack b e h = h
server-admits closing b e h = h
server-admits closed_state b e h = h

-- A connection that a server made for a Syn is, after any calls of its methods of which none throws,
-- Accept included, in one of waiting_syn, sending_syn_ack and data_state.
pub server_states :
    (addr : ConnectionAddr) (my_id now : ℕ) {out : List Packet} {c : Connection}
    → Steps true (new_connection waiting_syn addr my_id now) out c
    → server c.connection_state c.connected ≡ true
unfolding new_connection
server_states addr my_id now ss =
    Steps-role true server server-Moves server-RunMoves server-admits ss refl

Effect-closed :
    {incoming : Bool} {c c' : Connection} {out : List Packet}
    → Effect incoming c out c'
    → c.closed ≡ true
    → c'.closed ≡ true
Effect-closed (heard packet w m closed connected q) h = closed ∙ h
Effect-closed {c = c} (worked b m closed connected q) h =
    elim (Bool-cases (closes c.connection_state b)) [
      | inl e ↦ rw e at closed
      | inr e ↦ (rw e at closed) ∙ h
    ]
Effect-closed (ordered queue q e) h = ap (λ c. c.closed) e ∙ h
Effect-closed (admitted is_incoming) h = h
Effect-closed (gave state closed connected q) h = closed ∙ h
Effect-closed (gave_some size state closed connected q) h = closed ∙ h
Effect-closed (quiet state closed connected q) h = closed h

-- No call opens a closed connection again.
pub closed_stays :
    {incoming : Bool} {c c' : Connection} {out : List Packet}
    → Steps incoming c out c'
    → c.closed ≡ true
    → c'.closed ≡ true
closed_stays start h = h
closed_stays (next s ss) h = closed_stays ss (Effect-closed (Step-Effect s) h)

-- Once a client has waited too long for its SynAck, Run goes back to sending_syn; whatever packet is
-- received before the next Run, the late SynAck included, makes OnRecvPackets throw.
pub late_answer_throws :
    (c : Connection) (packet : Packet) (now later : ℕ)
    → c.connection_state ≡ waiting_syn_ack
    → 30000000000 < now - c.last_packet_receive
    → (c' : Connection) × (run c now ≡ ok c')
      × (c'.connection_state ≡ sending_syn)
      × (on_recv_packets c' packet later ≡ err not_implemented)
unfolding run run_late on_recv_packets state_timeout state_on_time_out state_on_recv
late_answer_throws c packet now later waiting old =
    (record c { connection_state = sending_syn; last_packet_receive = now }, by_late, refl, refl)
  where
    is_late : late c now ≡ true
    is_late = rw waiting (ground (arith, old))

    by_late :
        run c now ≡ ok (record c { connection_state = sending_syn; last_packet_receive = now })
    by_late =
        rw (is_late, run)
          (ap
            (λ s. state_on_time_out s c >>= λ next.
              ok (record next.1 { connection_state = next.0; last_packet_receive = now }))
            waiting)
