-- ===== src/Protocol/Routing.antt =====
-- Where FastTransportContext::OnReceive takes a packet, on every branch.
use multi_threaded_socket.Common.{
  ℕ, ◌+◌, ◌%◌, ◌^◌, ◌<◌, ◌≡◌, ◌≢◌, refl, sym, subst, true, false, none, some, List, [], ◌∷◌, ◌++◌,
  arith, length, length-set, length-append, get_elem?, get_elem?-last, set, Bool-cases,
  Option-cases, inl, inr, All, All-append, All-single, All-map, Result, ok, err, Error,
  not_implemented,
}
use multi_threaded_socket.Packet.{
  Packet, is_valid, get_packet_type, get_dst_addr, get_src_connection_id,
}
use multi_threaded_socket.Packet.Types.{
  PacketType, none_type, syn, ack, syn_ack, data_type, sack, fin, close, unknown, af_inet,
}
use multi_threaded_socket.Connection.{
  Connection, waiting_syn, sending_syn_ack, new_connection, set_destination_id,
  set_internal_free_packets, get_free_recv_packets,
}
use multi_threaded_socket.ConnectionState.{
  on_recv_packets, listen, state_on_recv, waiting_syn_on_recv,
}
use multi_threaded_socket.ConnectionState.Machine.{
  Received, broken, moved, on_recv_packets-Received,
}
use multi_threaded_socket.Protocol.{
  Context, find_connection, insert_connection, create_buffers, generate_id, add_connection,
  packet_key, on_unknown, on_known, on_receive,
}
use multi_threaded_socket.Protocol.Invariant.{
  Owns, IsWellFormed, find_connection-Owns, insert-DistinctKeys, insert-All, set-Owns, more-Owns,
}

-- The connection that a Syn makes.
abbrev pub incoming : Packet → ℕ → ℕ → Connection
incoming packet id now = record (new_connection waiting_syn (get_dst_addr packet) id now) {
  connection_state = sending_syn_ack;
  destination_id = get_src_connection_id packet;
  notifications = 1;
}

abbrev pub next_id : Context → ℕ
next_id t = (t.next_id + 1) % 2 ^ 16

pub data Routed (t : Context) (packet : Packet) (now : ℕ)
    : Result (List Packet × Context) → Type 0 where
  invalid : is_valid packet ≡ false → Routed t packet now (err not_implemented)
  delivered :
      (pointer : ℕ) (c c' : Connection) (freed : List Packet)
      → is_valid packet ≡ true
      → find_connection (packet_key packet) t.connections ≡ some pointer
      → get_elem? t.objects pointer ≡ some c
      → c.key ≡ packet_key packet
      → on_recv_packets c packet now ≡ ok (freed, c')
      → Routed t packet now (ok (freed, record t { objects = set t.objects pointer c' }))
  refused :
      (pointer : ℕ) (c : Connection) (e : Error)
      → is_valid packet ≡ true
      → find_connection (packet_key packet) t.connections ≡ some pointer
      → get_elem? t.objects pointer ≡ some c
      → c.key ≡ packet_key packet
      → on_recv_packets c packet now ≡ err e
      → Routed t packet now (err e)
  ignored :
      is_valid packet ≡ true
      → find_connection (packet_key packet) t.connections ≡ none
      → get_packet_type packet ≢ syn
      → Routed t packet now (ok ([], record t { next_id = next_id t }))
  opened :
      is_valid packet ≡ true
      → find_connection (packet_key packet) t.connections ≡ none
      → get_packet_type packet ≡ syn
      → (c : Connection)
      → c
        ≡ set_internal_free_packets
            (incoming packet (next_id t) now)
            (create_buffers 10000)
            (create_buffers 10000)
      → Routed t packet now (
          ok (
            packet ∷ [],
            record t {
              next_id = next_id t;
              objects = t.objects ++ c ∷ [];
              connections = insert_connection c.key (length t.objects) t.connections;
              incoming_connections = t.incoming_connections ++ length t.objects ∷ [];
            },
          ))

answer_syn :
    (packet : Packet) (c : Connection)
    → is_valid packet ≡ true
    → get_packet_type packet ≡ syn
    → waiting_syn_on_recv packet c
      ≡ ok (sending_syn_ack, packet ∷ [], set_destination_id c (get_src_connection_id packet))
unfolding waiting_syn_on_recv
answer_syn packet c v e = rw (v, e, waiting_syn_on_recv) refl

heard_syn :
    (packet : Packet) (id now : ℕ)
    → is_valid packet ≡ true
    → get_packet_type packet ≡ syn
    → on_recv_packets (new_connection waiting_syn (get_dst_addr packet) id now) packet now
      ≡ ok (packet ∷ [], incoming packet id now)
unfolding on_recv_packets state_on_recv new_connection get_free_recv_packets
heard_syn packet id now v e =
    rw (answer_syn packet (new_connection waiting_syn (get_dst_addr packet) id now) v e) refl

listen_syn :
    (packet : Packet) (id now : ℕ)
    → is_valid packet ≡ true
    → get_packet_type packet ≡ syn
    → listen packet id now ≡ ok (some (incoming packet id now), packet ∷ [])
unfolding listen
listen_syn packet id now v e = rw (e, listen) (rw (heard_syn packet id now v e) refl)

on_unknown-syn :
    (t : Context) (packet : Packet) (now : ℕ)
    → is_valid packet ≡ true
    → get_packet_type packet ≡ syn
    → find_connection (packet_key packet) t.connections ≡ none
    → Routed t packet now (on_unknown t packet now)
unfolding on_unknown generate_id add_connection set_internal_free_packets
on_unknown-syn t packet now v e n =
    rw (listen_syn packet (next_id t) now v e, on_unknown) (opened v n e _ refl)

not_syn :
    (t : Context) (packet : Packet) (now : ℕ)
    → is_valid packet ≡ true
    → listen packet (next_id t) now ≡ ok (none, [])
    → get_packet_type packet ≢ syn
    → find_connection (packet_key packet) t.connections ≡ none
    → Routed t packet now (on_unknown t packet now)
unfolding on_unknown generate_id
not_syn t packet now v e n f = rw (e, on_unknown) (ignored v f n)

on_unknown-Routed :
    (t : Context) (packet : Packet) (now : ℕ)
    → is_valid packet ≡ true
    → find_connection (packet_key packet) t.connections ≡ none
    → Routed t packet now (on_unknown t packet now)
unfolding listen
on_unknown-Routed t packet now v n = by_type (get_packet_type packet) refl
  where
    by_type :
        (type : PacketType)
        → get_packet_type packet ≡ type
        → Routed t packet now (on_unknown t packet now)
    by_type syn e = on_unknown-syn t packet now v e n
    by_type none_type e = not_syn t packet now v (rw (e, listen) refl) (λ s. cc) n
    by_type ack e = not_syn t packet now v (rw (e, listen) refl) (λ s. cc) n
    by_type syn_ack e = not_syn t packet now v (rw (e, listen) refl) (λ s. cc) n
    by_type data_type e = not_syn t packet now v (rw (e, listen) refl) (λ s. cc) n
    by_type sack e = not_syn t packet now v (rw (e, listen) refl) (λ s. cc) n
    by_type fin e = not_syn t packet now v (rw (e, listen) refl) (λ s. cc) n
    by_type close e = not_syn t packet now v (rw (e, listen) refl) (λ s. cc) n
    by_type (unknown m) e = not_syn t packet now v (rw (e, listen) refl) (λ s. cc) n

on_known-Routed :
    (t : Context) (packet : Packet) (now pointer : ℕ)
    → is_valid packet ≡ true
    → find_connection (packet_key packet) t.connections ≡ some pointer
    → Owns t.objects (packet_key packet, pointer)
    → Routed t packet now (on_known t pointer packet now)
unfolding on_known
on_known-Routed t packet now pointer v f (c, e, k) = by_result (on_recv_packets c packet now) refl
  where
    by_result :
        (r : Result (List Packet × Connection))
        → on_recv_packets c packet now ≡ r
        → Routed t packet now (on_known t pointer packet now)
    by_result (err x) q = rw (e, q, on_known) (refused pointer c x v f e k q)
    by_result (ok (freed, c')) q = rw (e, q, on_known) (delivered pointer c c' freed v f e k q)

routed :
    (t : Context) (packet : Packet) (now : ℕ)
    → IsWellFormed t
    → Routed t packet now (on_receive t packet now)
unfolding on_receive
routed t packet now w = elim (Bool-cases (is_valid packet)) [
  | inr bad ↦ rw (bad, on_receive) (invalid bad)
  | inl v ↦ elim (Option-cases (find_connection (packet_key packet) t.connections)) [
    | inl n ↦ rw (v, n, on_receive) (on_unknown-Routed t packet now v n)
    | inr (p, f) ↦
        rw (v, f, on_receive)
          (on_known-Routed t packet now p v f
            (find_connection-Owns t.objects (packet_key packet) t.connections p w.owned f))
  ]
]

-- In a well-formed context, for a packet whose destination is an AF_INET address, so that no comparison
-- of addresses throws: OnReceive throws for a packet that is not valid. A valid packet whose
-- destination address and id are the key of a connection goes to OnRecvPackets of that connection,
-- whose exception is thrown on; no other connection changes, and neither do the map and the list of
-- incoming connections. For any other packet an id is used up; it is dropped unless it is a Syn,
-- which makes a connection with that id in sending_syn_ack, the last of the incoming ones, that has
-- the sender's id and two pools of 10000 packets; the Syn is given back.
pub on_receive-Routed :
    (t : Context) (packet : Packet) (now : ℕ)
    → IsWellFormed t
    → (get_dst_addr packet).family ≡ af_inet
    → Routed t packet now (on_receive t packet now)
on_receive-Routed t packet now w inet = routed t packet now w

recv-key :
    (c c' : Connection) (packet : Packet) (now : ℕ) (freed : List Packet)
    → on_recv_packets c packet now ≡ ok (freed, c')
    → c'.key ≡ c.key
recv-key c c' packet now freed e = by_case (rw e at (on_recv_packets-Received c packet now))
  where
    by_case : Received c packet now (ok (freed, c')) → c'.key ≡ c.key
    by_case (broken bad looks closed state connected q l k) = k
    by_case (moved v m closed connected q l k) = k

-- A connection is added to a well-formed context.
pub added-IsWellFormed :
    (t : Context) (c : Connection) (id : ℕ) (waiting : List ℕ)
    → IsWellFormed t
    → All (λ p. p < length t.objects + 1) waiting
    → IsWellFormed (record t {
      next_id = id;
      objects = t.objects ++ c ∷ [];
      connections = insert_connection c.key (length t.objects) t.connections;
      incoming_connections = waiting;
    })
added-IsWellFormed t c id waiting w h = record {
  distinct = insert-DistinctKeys c.key (length t.objects) t.connections w.distinct;
  owned =
      insert-All (Owns (t.objects ++ c ∷ [])) c.key (length t.objects) t.connections
        (All-map (Owns t.objects) (Owns (t.objects ++ c ∷ [])) (more-Owns t.objects c) t.connections
          w.owned)
        (c, get_elem?-last t.objects c, refl);
  waiting = subst (λ n. All (λ p. p < n) waiting) (sym (length-append t.objects (c ∷ []))) h;
}

-- An exception, or a well-formed context.
abbrev Sound : Result (List Packet × Context) → Type 0
Sound (err e) = Unit
Sound (ok r) = IsWellFormed r.1

-- Whatever packet comes to a well-formed context, the context stays well-formed when OnReceive does
-- not throw.
pub on_receive-IsWellFormed :
    (t t' : Context) (packet : Packet) (now : ℕ) (freed : List Packet)
    → IsWellFormed t
    → on_receive t packet now ≡ ok (freed, t')
    → IsWellFormed t'
on_receive-IsWellFormed t t' packet now freed w e = subst Sound e (by_case (routed t packet now w))
  where
    by_case : {r : Result (List Packet × Context)} → Routed t packet now r → Sound r
    by_case (invalid v) = tt
    by_case (refused pointer c x v f at k q) = tt
    by_case (delivered pointer c c' f v found at k q) = record {
      distinct = w.distinct;
      owned =
          All-map (Owns t.objects) (Owns (set t.objects pointer c'))
            (λ entry. set-Owns t.objects pointer c c' entry at (recv-key c c' packet now f q))
            t.connections w.owned;
      waiting =
          subst (λ n. All (λ p. p < n) t.incoming_connections)
            (sym (length-set t.objects pointer c')) w.waiting;
    }
    by_case (ignored v n s) = record { distinct = w.distinct; owned = w.owned; waiting = w.waiting }
    by_case (opened v n s c x) =
        added-IsWellFormed t c (next_id t) (t.incoming_connections ++ length t.objects ∷ []) w (
          All-append (λ p. p < length t.objects + 1) t.incoming_connections (length t.objects ∷ [])
            (All-map (λ p. p < length t.objects) (λ p. p < length t.objects + 1)
              (λ p h. omega arith) t.incoming_connections w.waiting)
            (All-single (λ p. p < length t.objects + 1) (omega arith)))
