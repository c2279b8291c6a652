-- ===== src/ConnectionState/Running.antt =====
-- Connection::Run, on every branch.
use multi_threaded_socket.Common.{
  ℕ, ◌-◌, ◌≡◌, refl, ◌∙◌, Bool, true, false, not, ◌||◌, ltb, Bool-cases, Option-cases, ◌⊎◌, inl,
  inr, Result, ok, err, ◌>>=◌, Error, List, [], ◌∷◌, ◌++◌, none, some, ap, split_last,
  split_last-append, split_last-none,
}
use multi_threaded_socket.Packet.{Packet, set_magic, set_seq_number}
use multi_threaded_socket.Packet.Types.{no_seq_number}
use multi_threaded_socket.SendQueue.{SendQueue, outgoing}
use multi_threaded_socket.ConnectionState.Acks.{service_queue, free_queue}
use multi_threaded_socket.RecvQueue.{get_selective_acks}
use multi_threaded_socket.Connection.{
  Connection, State, sending_syn, waiting_syn, waiting_syn_ack, sending_syn_ack, data_state,
  closing, closed_state, get_free_send_packet, process_acks, add_free_user_send_packets,
}
use multi_threaded_socket.Connection
use multi_threaded_socket.ConnectionState.{
  state_timeout, state_on_time_out, state_send, run, run_late, run_in_time,
  process_inflight_packets, syn_packet, syn_ack_packet, sending_syn_send, sending_syn_ack_send,
  data_send,
}
use multi_threaded_socket.ConnectionState.Frame.{
  Kept, Kept-refl, sending_syn_send-Kept, sending_syn_ack_send-Kept, data_send-Kept,
  process_inflight_packets-Kept, process_inflight_packets-state,
}

-- Whether a connection has heard nothing for longer than its state allows.
abbrev pub late : Connection → ℕ → Bool
late c now = ltb (state_timeout c.connection_state) (now - c.last_packet_receive)

-- What Run makes of a state, in time and late. A pair that is not here throws.
pub data RunMoves : State → Bool → State → Type 0 where
  syn_waits : RunMoves sending_syn false sending_syn
  syn_sent : RunMoves sending_syn false waiting_syn_ack
  answer_waits : RunMoves sending_syn_ack false sending_syn_ack
  answer_sent : RunMoves sending_syn_ack false data_state
  waits : RunMoves waiting_syn_ack false waiting_syn_ack
  starts_again : RunMoves waiting_syn_ack true sending_syn
  data_sent : RunMoves data_state false data_state
  gave_up : RunMoves data_state true data_state

abbrev pub runs : State → Bool → Bool
runs sending_syn late = not late
runs sending_syn_ack late = not late
runs waiting_syn_ack late = true
runs data_state late = true
runs _ late = false

pub RunMoves-runs : {s s' : State} {b : Bool} → RunMoves s b s' → runs s b ≡ true
RunMoves-runs syn_waits = refl
RunMoves-runs syn_sent = refl
RunMoves-runs answer_waits = refl
RunMoves-runs answer_sent = refl
RunMoves-runs waits = refl
RunMoves-runs starts_again = refl
RunMoves-runs data_sent = refl
RunMoves-runs gave_up = refl

-- The receive queue is as it was, or has given its selective acknowledgements away.
abbrev pub QueueRead : Connection → Connection → Type 0
QueueRead c c' =
    (c'.recv_queue ≡ c.recv_queue) ⊎ (c'.recv_queue ≡ (get_selective_acks c.recv_queue).1)

-- A late connection in data_state is closed.
abbrev pub closes : State → Bool → Bool
closes data_state late = late
closes _ late = false

-- The last of the connection's own free packets goes behind the service packets to be sent, as `make`
-- makes it, and the state moves on; without a free packet nothing happens.
abbrev pub HandsOut : Connection → (Packet → Packet) → State → State → State → SendQueue → Type 0
HandsOut c make from to s' q' =
    ((c.free_internal_send_packets ≡ []) × (s' ≡ from) × (q' ≡ c.send_queue))
    ⊎ ((left : List Packet) × (packet : Packet) × (c.free_internal_send_packets
          ≡ left ++ packet ∷ [])
        × (s' ≡ to)
        × (q'.service_need_to_send
            ≡ c.send_queue.service_need_to_send
              ++ outgoing (set_seq_number (set_magic (make packet)) no_seq_number) false ∷ []))

-- What goes into the send queue for the handshake.
abbrev pub Shaken : State → Bool → Connection → State → SendQueue → Type 0
Shaken sending_syn false c s' q' = HandsOut c (syn_packet c) sending_syn waiting_syn_ack s' q'
Shaken sending_syn_ack false c s' q' =
    HandsOut c (syn_ack_packet c) sending_syn_ack data_state s' q'
Shaken waiting_syn_ack late c s' q' = q' ≡ c.send_queue
Shaken data_state true c s' q' = q' ≡ c.send_queue
Shaken _ _ c s' q' = Unit

pub data Ran (c : Connection) (now : ℕ) : Result Connection → Type 0 where
  threw :
      {e : Error}
      → ((s : State) → ¬ (RunMoves c.connection_state (late c now) s))
      → Ran c now (err e)
  ran :
      {c' : Connection}
      → RunMoves c.connection_state (late c now) c'.connection_state
      → c'.connected ≡ c.connected
      → c'.closed ≡ (closes c.connection_state (late c now) || c.closed)
      → QueueRead c c'
      → Shaken c.connection_state (late c now) c c'.connection_state c'.send_queue
      → Ran c now (ok c')

-- The same for the two handlers that Run calls.
data Went (s : State) (b : Bool) (c : Connection) : Result (State × Connection) → Type 0 where
  stuck : {e : Error} → ((s' : State) → ¬ (RunMoves s b s')) → Went s b c (err e)
  went :
      {s' : State} {c' : Connection}
      → RunMoves s b s'
      → c'.connected ≡ c.connected
      → c'.closed ≡ (closes s b || c.closed)
      → QueueRead c c'
      → Shaken s b c s' c'.send_queue
      → Went s b c (ok (s', c'))

kept :
    {s s' : State} {c c' : Connection}
    → closes s false ≡ false
    → RunMoves s false s'
    → Kept c c'
    → Shaken s false c s' c'.send_queue
    → Went s false c (ok (s', c'))
kept stays m k shaken = went m k.connected (rw stays k.closed) (inl k.queue) shaken

-- What a state that sends one packet of the handshake does.
free_packet :
    (c : Connection) (packet : Packet)
    → (get_free_send_packet c).0 ≡ some packet
    → (left : List Packet) × (c.free_internal_send_packets ≡ left ++ packet ∷ [])
unfolding get_free_send_packet
free_packet c packet h = elim (Option-cases (split_last c.free_internal_send_packets)) [
  | inl e ↦ let bad : none ≡ some packet = rw (e, get_free_send_packet) at h in cc
  | inr ((left, last), e) ↦
      let found : some last ≡ some packet = rw (e, get_free_send_packet) at h in
      let same : last ≡ packet = cc in
      (
        left,
        split_last-append c.free_internal_send_packets left last e ∙ ap (λ p. left ++ p ∷ []) same,
      )
]

no_free_packet :
    (c : Connection)
    → (get_free_send_packet c).0 ≡ none
    → (c.free_internal_send_packets ≡ []) × ((get_free_send_packet c).1.send_queue ≡ c.send_queue)
unfolding get_free_send_packet
no_free_packet c h = elim (Option-cases (split_last c.free_internal_send_packets)) [
  | inl e ↦ rw (e, get_free_send_packet) (split_last-none c.free_internal_send_packets e, refl)
  | inr ((left, last), e) ↦ let bad : some last ≡ none = rw (e, get_free_send_packet) at h in cc
]

sending_syn-Shaken :
    (c : Connection)
    → Shaken sending_syn false c (sending_syn_send c).0 (sending_syn_send c).1.send_queue
unfolding sending_syn_send
sending_syn-Shaken c = elim (Option-cases (get_free_send_packet c).0) [
  | inl e ↦
      let (empty, same) = no_free_packet c e in rw (e, sending_syn_send) (inl (empty, refl, same))
  | inr (p, e) ↦
      let (left, split) = free_packet c p e in
      rw (e, sending_syn_send)
        (inr (
          left,
          p,
          split,
          refl,
          service_queue (get_free_send_packet c).1 (syn_packet c p)
              ∙ ap
                  (λ q.
                    q.service_need_to_send
                    ++ outgoing (set_seq_number (set_magic (syn_packet c p)) no_seq_number) false
                      ∷ [])
                  (free_queue c),
        ))
]

sending_syn_ack-Shaken :
    (c : Connection)
    → Shaken sending_syn_ack false c
        (sending_syn_ack_send c).0
        (sending_syn_ack_send c).1.send_queue
unfolding sending_syn_ack_send
sending_syn_ack-Shaken c = elim (Option-cases (get_free_send_packet c).0) [
  | inl e ↦
      let (empty, same) = no_free_packet c e in
      rw (e, sending_syn_ack_send) (inl (empty, refl, same))
  | inr (p, e) ↦
      let (left, split) = free_packet c p e in
      rw (e, sending_syn_ack_send)
        (inr (
          left,
          p,
          split,
          refl,
          service_queue (get_free_send_packet c).1 (syn_ack_packet c p)
              ∙ ap
                  (λ q.
                    q.service_need_to_send
                    ++ outgoing (set_seq_number (set_magic (syn_ack_packet c p)) no_seq_number)
                        false
                      ∷ [])
                  (free_queue c),
        ))
]

inflight-send_queue :
    (c : Connection) (now : ℕ) → (process_inflight_packets c now).send_queue ≡ c.send_queue
unfolding process_inflight_packets process_acks add_free_user_send_packets
inflight-send_queue c now = refl

sending_syn-moves : (c : Connection) → RunMoves sending_syn false (sending_syn_send c).0
unfolding sending_syn_send
sending_syn-moves c = elim (Option-cases (get_free_send_packet c).0) [
  | inl e ↦ rw (e, sending_syn_send) syn_waits
  | inr (p, e) ↦ rw (e, sending_syn_send) syn_sent
]

sending_syn_ack-moves : (c : Connection) → RunMoves sending_syn_ack false (sending_syn_ack_send c).0
unfolding sending_syn_ack_send
sending_syn_ack-moves c = elim (Option-cases (get_free_send_packet c).0) [
  | inl e ↦ rw (e, sending_syn_ack_send) answer_waits
  | inr (p, e) ↦ rw (e, sending_syn_ack_send) answer_sent
]

data-Went : (c : Connection) (now : ℕ) → Went data_state false c (ok (data_send c now))
unfolding data_send
data-Went c now =
    let k = data_send-Kept c now in went data_sent k.connected k.closed (inr k.queue) tt

state_send-Went : (s : State) (c : Connection) (now : ℕ) → Went s false c (state_send s c now)
unfolding state_send
state_send-Went sending_syn c now =
    kept refl (sending_syn-moves c) (sending_syn_send-Kept c) (sending_syn-Shaken c)
state_send-Went sending_syn_ack c now =
    kept refl (sending_syn_ack-moves c) (sending_syn_ack_send-Kept c) (sending_syn_ack-Shaken c)
state_send-Went waiting_syn_ack c now = kept refl waits (Kept-refl c) refl
state_send-Went data_state c now = data-Went c now
state_send-Went waiting_syn c now = stuck λ s m. let runs = RunMoves-runs m in cc
state_send-Went closing c now = stuck λ s m. let runs = RunMoves-runs m in cc
state_send-Went closed_state c now = stuck λ s m. let runs = RunMoves-runs m in cc

state_on_time_out-Went : (s : State) (c : Connection) → Went s true c (state_on_time_out s c)
unfolding state_on_time_out Connection.close
state_on_time_out-Went waiting_syn_ack c = went starts_again refl refl (inl refl) refl
state_on_time_out-Went data_state c = went gave_up refl refl (inl refl) refl
state_on_time_out-Went sending_syn c = stuck λ s m. let runs = RunMoves-runs m in cc
state_on_time_out-Went sending_syn_ack c = stuck λ s m. let runs = RunMoves-runs m in cc
state_on_time_out-Went waiting_syn c = stuck λ s m. let runs = RunMoves-runs m in cc
state_on_time_out-Went closing c = stuck λ s m. let runs = RunMoves-runs m in cc
state_on_time_out-Went closed_state c = stuck λ s m. let runs = RunMoves-runs m in cc

run_late-Ran : (c : Connection) (now : ℕ) → late c now ≡ true → Ran c now (run_late c now)
unfolding run_late
run_late-Ran c now l = by_case (state_on_time_out-Went c.connection_state c)
  where
    by_case :
        {r : Result (State × Connection)}
        → Went c.connection_state true c r
        → Ran c now (
            r >>= λ next.
            ok (record next.1 { connection_state = next.0; last_packet_receive = now }))
    by_case (stuck h) = threw (rw l h)
    by_case (went m connected closed queue shaken) =
        ran (rw l m) connected (rw l closed) queue (rw l shaken)

run_in_time-Ran : (c : Connection) (now : ℕ) → late c now ≡ false → Ran c now (run_in_time c now)
unfolding run_in_time
run_in_time-Ran c now l = by_case (state_send-Went c.connection_state c now)
  where
    by_case :
        {r : Result (State × Connection)}
        → Went c.connection_state false c r
        → Ran c now (
            r >>= λ next.
            ok (process_inflight_packets (record next.1 { connection_state = next.0 }) now))
    by_case (stuck h) = threw (rw l h)
    by_case (went {s'} {c'} m connected closed queue shaken) =
        let k = process_inflight_packets-Kept (record c' { connection_state = s' }) now in
        ran (rw (l, process_inflight_packets-state (record c' { connection_state = s' }) now) m)
          (k.connected ∙ connected) (rw l (k.closed ∙ closed)) (rw k.queue queue)
          (rw
            (
              l,
              process_inflight_packets-state (record c' { connection_state = s' }) now,
              inflight-send_queue (record c' { connection_state = s' }) now,
            )
            shaken)

-- Run throws exactly when the state is one that RunMoves does not list: late in
-- a state without OnTimeOut, or in time in a state without SendPackets. Otherwise the state moves as
-- RunMoves says; the connection is closed when it was late in data_state, and is not opened or
-- connected by it; and the receive queue loses nothing but its selective acknowledgements. In time in
-- sending_syn or sending_syn_ack, the Syn or the SynAck is queued and the state moves on if there is a
-- free packet, and neither happens if there is none; while it waits for the SynAck, or is late, nothing
-- is queued. What data_state queues is not said here.
pub run-Ran : (c : Connection) (now : ℕ) → Ran c now (run c now)
unfolding run
run-Ran c now = elim (Bool-cases (late c now)) [
  | inl l ↦ rw (l, run) (run_late-Ran c now l)
  | inr l ↦ rw (l, run) (run_in_time-Ran c now l)
]
