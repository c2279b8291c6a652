-- ===== src/ConnectionState/Delivery.antt =====
-- A connection in use: any sequence of calls of its methods, and what its reader gets by them.
use multi_threaded_socket.Common.{
  take, drop, ℕ, ◌+◌, ◌<◌, ◌≡◌, refl, sym, ◌∙◌, ap, Bool, true, false, ◌||◌, none, some, List, [],
  ◌∷◌, ◌++◌, map, length, length-append, arith, count_up, count_up-append, ◌==◌, if◌then◌else◌,
  Bool-cases, Option-cases, inl, inr, ok, subst, ap₂,
}
use mathlib.Core.List.{map-append}
use multi_threaded_socket.Packet.{Packet, get_packet_type, get_seq_number}
use multi_threaded_socket.Packet.Types.{ConnectionAddr, seq_mod}
use multi_threaded_socket.SendQueue.{OutgoingPacket}
use multi_threaded_socket.RecvQueue.{RecvQueue, process_unordered_packets, take_user_data}
use multi_threaded_socket.InFlightQueue
use multi_threaded_socket.RecvQueue.Order.{
  Delivered, add-Delivered, process-Delivered, new_queue-Delivered, nothing_taken,
  take_acks-Delivered, take_data-Delivered, take_data-numbers, take_some-Delivered,
}
use multi_threaded_socket.Connection.{
  begin_recv, recv_some, Connection, State, sending_syn, waiting_syn, waiting_syn_ack,
  sending_syn_ack, data_state, closing, closed_state, new_connection, set_connected,
  get_free_send_packets, try_get_free_send_packets, send, send2, recv, add_free_recv_packets,
  add_free_send_packets, get_packets_to_send, set_internal_free_packets, process_sent_packets,
  process_recv_packets, clean_free_recv_packets, clean_free_send_packets,
}
use multi_threaded_socket.Connection
use multi_threaded_socket.ConnectionState.{on_recv_packets, run}
use multi_threaded_socket.ConnectionState.Machine.{
  Moves, Received, broken, moved, opens, QueueStep, on_recv_packets-Received,
}
use multi_threaded_socket.ConnectionState.Running.{
  RunMoves, QueueRead, Ran, ran, run-Ran, late, closes,
}

-- One call of a method of a connection, by the receiving thread, the sending thread or the user, and
-- the packets that the reader gets by it. A received packet has a 32-bit number. Accept sets an
-- incoming connection connected.
pub data Step (incoming : Bool) (c : Connection) : List Packet → Connection → Type 0 where
  received :
      {c' : Connection} (packet : Packet) {freed : List Packet} (now : ℕ)
      → get_seq_number packet < seq_mod
      → on_recv_packets c packet now ≡ ok (freed, c')
      → Step incoming c [] c'
  ran_once : {c' : Connection} (now : ℕ) → run c now ≡ ok c' → Step incoming c [] c'
  processed : {c' : Connection} → process_recv_packets c ≡ some c' → Step incoming c [] c'
  read :
      (free : List Packet) (ready : Bool)
      → Step incoming c (recv c free ready).0 (recv c free ready).1
  began : (free : List Packet) → Step incoming c [] (begin_recv c free)
  read_some : (size : ℕ) → Step incoming c (recv_some c size).0 (recv_some c size).1
  wrote : (packets : List Packet) → Step incoming c [] (send c packets)
  exchanged : (packets : List Packet) (ready : Bool) → Step incoming c [] (send2 c packets ready).1
  took_free : (ready : Bool) → Step incoming c [] (get_free_send_packets c ready).1
  tried_free : Step incoming c [] (try_get_free_send_packets c).1
  gave_recv : (packets : List Packet) → Step incoming c [] (add_free_recv_packets c packets)
  gave_send : (packets : List Packet) → Step incoming c [] (add_free_send_packets c packets)
  gave_internal :
      (packets packets' : List Packet)
      → Step incoming c [] (set_internal_free_packets c packets packets')
  to_wire : (now : ℕ) → Step incoming c [] (get_packets_to_send c now).1
  on_wire :
      (packets : List OutgoingPacket) (now : ℕ)
      → Step incoming c [] (process_sent_packets c packets now)
  accepted : incoming ≡ true → Step incoming c [] (set_connected c true)
  closed_down : Step incoming c [] (Connection.close c)
  cleaned_recv : Step incoming c [] (clean_free_recv_packets c).1
  cleaned_send : Step incoming c [] (clean_free_send_packets c).1

pub data Steps (incoming : Bool) : Connection → List Packet → Connection → Type 0 where
  start : {c : Connection} → Steps incoming c [] c
  next :
      {c c' c'' : Connection} {out out' : List Packet}
      → Step incoming c out c'
      → Steps incoming c' out' c''
      → Steps incoming c (out ++ out') c''

-- What a call does to the parts of a connection that matter below.
pub data Effect (incoming : Bool) (c : Connection) : List Packet → Connection → Type 0 where
  heard :
      {c' : Connection} (packet : Packet)
      → get_seq_number packet < seq_mod
      → Moves c.connection_state (get_packet_type packet) c'.connection_state
      → c'.closed ≡ c.closed
      → c'.connected ≡ (opens c.connection_state || c.connected)
      → QueueStep c packet c'
      → Effect incoming c [] c'
  worked :
      {c' : Connection} (b : Bool)
      → RunMoves c.connection_state b c'.connection_state
      → c'.closed ≡ (closes c.connection_state b || c.closed)
      → c'.connected ≡ c.connected
      → QueueRead c c'
      → Effect incoming c [] c'
  ordered :
      {c' : Connection} (queue : RecvQueue)
      → process_unordered_packets c.recv_queue ≡ some queue
      → c' ≡ record c { recv_queue = queue }
      → Effect incoming c [] c'
  gave :
      {c' : Connection}
      → c'.connection_state ≡ c.connection_state
      → c'.closed ≡ c.closed
      → c'.connected ≡ c.connected
      → c'.recv_queue ≡ (take_user_data c.recv_queue).1
      → Effect incoming c (take_user_data c.recv_queue).0 c'
  gave_some :
      {c' : Connection} (size : ℕ)
      → c'.connection_state ≡ c.connection_state
      → c'.closed ≡ c.closed
      → c'.connected ≡ c.connected
      → c'.recv_queue ≡ record c.recv_queue { data_list = drop size c.recv_queue.data_list }
      → Effect incoming c (take size c.recv_queue.data_list) c'
  quiet :
      {c' : Connection}
      → c'.connection_state ≡ c.connection_state
      → (c.closed ≡ true → c'.closed ≡ true)
      → c'.connected ≡ c.connected
      → QueueRead c c'
      → Effect incoming c [] c'
  admitted : incoming ≡ true → Effect incoming c [] (set_connected c true)

silent :
    {incoming : Bool} {c c' : Connection}
    → c'.connection_state ≡ c.connection_state
    → c'.closed ≡ c.closed
    → c'.connected ≡ c.connected
    → c'.recv_queue ≡ c.recv_queue
    → Effect incoming c [] c'
silent s closed connected q = quiet s (λ e. closed ∙ e) connected (inl q)

received-Effect :
    {incoming : Bool} {c c' : Connection} (packet : Packet) {freed : List Packet} (now : ℕ)
    → get_seq_number packet < seq_mod
    → on_recv_packets c packet now ≡ ok (freed, c')
    → Effect incoming c [] c'
received-Effect {incoming} {c} {c'} packet {freed} now w e =
    by_case (rw e at (on_recv_packets-Received c packet now))
  where
    by_case : Received c packet now (ok (freed, c')) → Effect incoming c [] c'
    by_case (broken bad looks closed state connected q l k) =
        quiet state (λ e. closed) connected (inl q)
    by_case (moved v m closed connected q l k) = heard packet w m closed connected q

ran-Effect :
    {incoming : Bool} {c c' : Connection} (now : ℕ) → run c now ≡ ok c' → Effect incoming c [] c'
ran-Effect {incoming} {c} {c'} now e = by_case (rw e at (run-Ran c now))
  where
    by_case : Ran c now (ok c') → Effect incoming c [] c'
    by_case (ran m connected closed q shaken) = worked (late c now) m closed connected q

closed_process : (c : Connection) → c.closed ≡ true → process_recv_packets c ≡ some c
unfolding process_recv_packets
closed_process c e =
    ap
      (λ b. if b then some c else elim (process_unordered_packets c.recv_queue) [
        | none ↦ none
        | some queue ↦ some (record c { recv_queue = queue })
      ])
      e

open_process :
    (c : Connection) (queue : RecvQueue)
    → c.closed ≡ false
    → process_unordered_packets c.recv_queue ≡ some queue
    → process_recv_packets c ≡ some (record c { recv_queue = queue })
unfolding process_recv_packets
open_process c queue opened q =
    ap₂
      (λ b r.
        if b
        then some c
        else elim r [ none ↦ none | some queue ↦ some (record c { recv_queue = queue }) ])
      opened q

stuck_process :
    (c : Connection)
    → c.closed ≡ false
    → process_unordered_packets c.recv_queue ≡ none
    → process_recv_packets c ≡ none
unfolding process_recv_packets
stuck_process c opened q =
    ap₂
      (λ b r.
        if b
        then some c
        else elim r [ none ↦ none | some queue ↦ some (record c { recv_queue = queue }) ])
      opened q

some_injective : {A : Type 0} {x y : A} → some x ≡ some y → x ≡ y
some_injective e = cc

none-some : {x : Connection} → ¬ (none ≡ some x)
none-some e = cc

wire-Effect :
    {incoming : Bool} (c : Connection) (now : ℕ)
    → Effect incoming c [] (get_packets_to_send c now).1
unfolding get_packets_to_send
wire-Effect c now =
    elim (Bool-cases ((InFlightQueue.get_number_packet_to_send c.in_flight_queue now).0 == 0)) [
      | inl e ↦ rw (e, get_packets_to_send) (silent refl refl refl refl)
      | inr e ↦ rw (e, get_packets_to_send) (silent refl refl refl refl)
    ]

processed-Effect :
    {incoming : Bool} {c c' : Connection}
    → process_recv_packets c ≡ some c'
    → Effect incoming c [] c'
unfolding process_recv_packets
processed-Effect {incoming} {c} {c'} e = elim (Bool-cases c.closed) [
  | inl closed ↦
      let same = sym (closed_process c closed) ∙ e in
      let eq = some_injective same in
      subst (λ x. Effect incoming c [] x) eq (silent {c = c} {c' = c} refl refl refl refl)
  | inr opened ↦ elim (Option-cases (process_unordered_packets c.recv_queue)) [
    | inl stuck ↦ absurd (none-some (sym (stuck_process c opened stuck) ∙ e))
    | inr (queue, q) ↦ ordered queue q (some_injective (sym e ∙ open_process c queue opened q))
  ]
]

read-Effect :
    {incoming : Bool} (c : Connection) (free : List Packet) (ready : Bool)
    → Effect incoming c (recv c free ready).0 (recv c free ready).1
unfolding recv
read-Effect c free true = gave refl refl refl refl
read-Effect c free false = silent refl refl refl refl

pub Step-Effect :
    {incoming : Bool} {c c' : Connection} {out : List Packet}
    → Step incoming c out c'
    → Effect incoming c out c'
unfolding begin_recv recv_some get_free_send_packets try_get_free_send_packets send send2
    add_free_recv_packets add_free_send_packets get_packets_to_send set_internal_free_packets
    process_sent_packets clean_free_recv_packets clean_free_send_packets Connection.close
Step-Effect (received packet now w e) = received-Effect packet now w e
Step-Effect (ran_once now e) = ran-Effect now e
Step-Effect (processed e) = processed-Effect e
Step-Effect {incoming} {c} (read free ready) = read-Effect c free ready
Step-Effect (began free) = silent refl refl refl refl
Step-Effect (read_some size) = gave_some size refl refl refl refl
Step-Effect (wrote []) = silent refl refl refl refl
Step-Effect (wrote (p ∷ packets)) = silent refl refl refl refl
Step-Effect (exchanged packets true) = silent refl refl refl refl
Step-Effect (exchanged packets false) = silent refl refl refl refl
Step-Effect (took_free true) = silent refl refl refl refl
Step-Effect (took_free false) = silent refl refl refl refl
Step-Effect tried_free = silent refl refl refl refl
Step-Effect (gave_recv packets) = silent refl refl refl refl
Step-Effect (gave_send packets) = silent refl refl refl refl
Step-Effect (gave_internal packets packets') = silent refl refl refl refl
Step-Effect {incoming} {c} (to_wire now) = wire-Effect c now
Step-Effect (on_wire packets now) = silent refl refl refl refl
Step-Effect (accepted is_incoming) = admitted is_incoming
Step-Effect closed_down = quiet refl (λ e. refl) refl (inl refl)
Step-Effect cleaned_recv = silent refl refl refl refl
Step-Effect cleaned_send = silent refl refl refl refl

QueueRead-Delivered :
    (c c' : Connection) (n : ℕ)
    → QueueRead c c'
    → Delivered c.recv_queue n
    → Delivered c'.recv_queue n
QueueRead-Delivered c c' n (inl e) d = subst (λ q. Delivered q n) (sym e) d
QueueRead-Delivered c c' n (inr e) d =
    subst (λ q. Delivered q n) (sym e) (take_acks-Delivered c.recv_queue n d)

QueueStep-Delivered :
    (c c' : Connection) (n : ℕ) (packet : Packet)
    → get_seq_number packet < seq_mod
    → QueueStep c packet c'
    → Delivered c.recv_queue n
    → Delivered c'.recv_queue n
QueueStep-Delivered c c' n packet w (inl e) d = subst (λ q. Delivered q n) (sym e) d
QueueStep-Delivered c c' n packet w (inr e) d =
    subst (λ q. Delivered q n) (sym e) (add-Delivered c.recv_queue packet n w d)

ordered-Delivered :
    (q q' : RecvQueue) (n : ℕ)
    → process_unordered_packets q ≡ some q'
    → Delivered q n
    → Delivered q' n
ordered-Delivered q q' n e d = process-Delivered q q' n e d

nothing :
    {q : RecvQueue} (n : ℕ) → Delivered q n → (map get_seq_number [] ≡ []) × Delivered q (n + 0)
nothing n d = (refl, nothing_taken _ n d)

-- A call keeps the queue in order, and what it gives the reader are the next numbers.
Effect-Delivered :
    {incoming : Bool} {c c' : Connection} {out : List Packet} (n : ℕ)
    → Effect incoming c out c'
    → Delivered c.recv_queue n
    → (map get_seq_number out ≡ count_up n (length out)) × Delivered c'.recv_queue (n + length out)
Effect-Delivered {incoming} {c} {c'} n (heard packet w m closed connected q) d =
    nothing n (QueueStep-Delivered c c' n packet w q d)
Effect-Delivered {incoming} {c} {c'} n (worked b m closed connected q) d =
    nothing n (QueueRead-Delivered c c' n q d)
Effect-Delivered {incoming} {c} n (ordered queue q e) d = nothing n (
    subst (λ q. Delivered q n) (sym (ap (λ c. c.recv_queue) e))
      (ordered-Delivered c.recv_queue queue n q d))
Effect-Delivered {incoming} {c} n (gave state closed connected q) d = (
  take_data-numbers c.recv_queue n d,
  subst (λ q. Delivered q (n + length (take_user_data c.recv_queue).0)) (sym q)
      (take_data-Delivered c.recv_queue n d),
)
Effect-Delivered {incoming} {c} {c'} n (gave_some size state closed connected q) d =
    let (numbers, d₁) = take_some-Delivered c.recv_queue n size d in
    (numbers, subst (λ q. Delivered q (n + length (take size c.recv_queue.data_list))) (sym q) d₁)
Effect-Delivered n (admitted is_incoming) d = nothing n d
Effect-Delivered {incoming} {c} {c'} n (quiet state closed connected q) d =
    nothing n (QueueRead-Delivered c c' n q d)

Steps-Delivered :
    {incoming : Bool} {c c' : Connection} {out : List Packet} (n : ℕ)
    → Steps incoming c out c'
    → Delivered c.recv_queue n
    → (map get_seq_number out ≡ count_up n (length out)) × Delivered c'.recv_queue (n + length out)
Steps-Delivered n start d = nothing n d
Steps-Delivered n (next {out = out} {out' = out'} s ss) d =
    let (numbers, d₁) = Effect-Delivered n (Step-Effect s) d in
    let (numbers', d₂) = Steps-Delivered (n + length out) ss d₁ in
    (
      rw (map-append, numbers, numbers', length-append out out')
          (count_up-append n (length out) (length out')),
      subst (Delivered _) (omega (arith, length-append out out')) d₂,
    )

-- Whatever packets a connection receives, and however the calls of the receiving thread, the sending
-- thread and the user interleave, for as long as none throws: the packets that the reader has got so
-- far, and behind them those that wait for it, are numbered 1, 2, 3, ... without a gap or a
-- repetition.
pub connection_delivers :
    (incoming : Bool) (state : State) (addr : ConnectionAddr) (my_id now : ℕ) {out : List Packet}
    {c : Connection}
    → Steps incoming (new_connection state addr my_id now) out c
    → map get_seq_number (out ++ c.recv_queue.data_list)
      ≡ count_up 1 (length (out ++ c.recv_queue.data_list))
unfolding new_connection
connection_delivers incoming state addr my_id now {out} {c} ss =
    let (numbers, d) = Steps-Delivered 1 ss new_queue-Delivered in
    rw (map-append, numbers, d.numbers, length-append out c.recv_queue.data_list)
      (count_up-append 1 (length out) (length c.recv_queue.data_list))
