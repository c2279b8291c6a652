-- ===== src/ConnectionState/Frame.antt =====
-- What the methods that send leave alone.
use multi_threaded_socket.Common.{
  ℕ, zero, suc, ◌≡◌, refl, ◌∙◌, List, [], ◌∷◌, split_last, Option-cases, inl, inr,
}
use multi_threaded_socket.Packet.{Packet}
use multi_threaded_socket.SendQueue.{OutgoingPacket}
use multi_threaded_socket.RecvQueue.{get_selective_acks}
use multi_threaded_socket.Connection.{
  Connection, get_free_send_packet, send_service_packets, send_data_packets, resend_packets,
  check_timeouts, process_acks, add_free_user_send_packets, get_send_user_data,
}
use multi_threaded_socket.ConnectionState.{
  send_acks, sending_syn_send, sending_syn_ack_send, resend_if_any, send_if_any, data_send,
  process_inflight_packets,
}

-- The parts of a connection that the methods which send do not touch.
pub record Kept (c c' : Connection) : Type 0 where
  pub connected : c'.connected ≡ c.connected
  pub closed : c'.closed ≡ c.closed
  pub destination : c'.destination_id ≡ c.destination_id
  pub key : c'.key ≡ c.key
  pub queue : c'.recv_queue ≡ c.recv_queue

pub Kept-refl : (c : Connection) → Kept c c
Kept-refl c = record {
  connected = refl;
  closed = refl;
  destination = refl;
  key = refl;
  queue = refl;
}

pub Kept-trans : {a b c : Connection} → Kept a b → Kept b c → Kept a c
Kept-trans l r = record {
  connected = r.connected ∙ l.connected;
  closed = r.closed ∙ l.closed;
  destination = r.destination ∙ l.destination;
  key = r.key ∙ l.key;
  queue = r.queue ∙ l.queue;
}

pub get_free_send_packet-Kept : (c : Connection) → Kept c (get_free_send_packet c).1
unfolding get_free_send_packet
get_free_send_packet-Kept c = elim (Option-cases (split_last c.free_internal_send_packets)) [
  | inl e ↦ rw (e, get_free_send_packet) (Kept-refl c)
  | inr (p, e) ↦
      rw (e, get_free_send_packet)
        (record { connected = refl; closed = refl; destination = refl; key = refl; queue = refl })
]

pub send_service_packets-Kept :
    (c : Connection) (packets : List Packet) → Kept c (send_service_packets c packets)
unfolding send_service_packets
send_service_packets-Kept c packets = record {
  connected = refl;
  closed = refl;
  destination = refl;
  key = refl;
  queue = refl;
}

pub send_acks-Kept :
    (fuel last_ack : ℕ) (acks : List ℕ) (c : Connection) → Kept c (send_acks fuel last_ack acks c)
unfolding send_acks
send_acks-Kept zero last_ack acks c = Kept-refl c
send_acks-Kept (suc fuel) last_ack [] c = Kept-refl c
send_acks-Kept (suc fuel) last_ack (a ∷ acks) c = elim (Option-cases (get_free_send_packet c).0) [
  | inl e ↦ rw (e, send_acks) (get_free_send_packet-Kept c)
  | inr (p, e) ↦
      rw (e, send_acks)
        (Kept-trans (get_free_send_packet-Kept c)
          (Kept-trans (send_service_packets-Kept _ _) (send_acks-Kept fuel last_ack _ _)))
]

pub sending_syn_send-Kept : (c : Connection) → Kept c (sending_syn_send c).1
unfolding sending_syn_send
sending_syn_send-Kept c = elim (Option-cases (get_free_send_packet c).0) [
  | inl e ↦ rw (e, sending_syn_send) (get_free_send_packet-Kept c)
  | inr (p, e) ↦
      rw (e, sending_syn_send)
        (Kept-trans (get_free_send_packet-Kept c) (send_service_packets-Kept _ _))
]

pub sending_syn_ack_send-Kept : (c : Connection) → Kept c (sending_syn_ack_send c).1
unfolding sending_syn_ack_send
sending_syn_ack_send-Kept c = elim (Option-cases (get_free_send_packet c).0) [
  | inl e ↦ rw (e, sending_syn_ack_send) (get_free_send_packet-Kept c)
  | inr (p, e) ↦
      rw (e, sending_syn_ack_send)
        (Kept-trans (get_free_send_packet-Kept c) (send_service_packets-Kept _ _))
]

pub check_timeouts-Kept : (c : Connection) (now : ℕ) → Kept c (check_timeouts c now).1
unfolding check_timeouts
check_timeouts-Kept c now = record {
  connected = refl;
  closed = refl;
  destination = refl;
  key = refl;
  queue = refl;
}

pub resend_if_any-Kept :
    (c : Connection) (packets : List OutgoingPacket) → Kept c (resend_if_any c packets)
unfolding resend_packets
resend_if_any-Kept c [] = Kept-refl c
resend_if_any-Kept c (o ∷ packets) = record {
  connected = refl;
  closed = refl;
  destination = refl;
  key = refl;
  queue = refl;
}

pub send_if_any-Kept : (c : Connection) (packets : List Packet) → Kept c (send_if_any c packets)
unfolding send_data_packets
send_if_any-Kept c [] = Kept-refl c
send_if_any-Kept c (p ∷ packets) = record {
  connected = refl;
  closed = refl;
  destination = refl;
  key = refl;
  queue = refl;
}

pub get_send_user_data-Kept : (c : Connection) → Kept c (get_send_user_data c).1
unfolding get_send_user_data
get_send_user_data-Kept c = record {
  connected = refl;
  closed = refl;
  destination = refl;
  key = refl;
  queue = refl;
}

pub process_inflight_packets-Kept :
    (c : Connection) (now : ℕ) → Kept c (process_inflight_packets c now)
unfolding process_inflight_packets process_acks add_free_user_send_packets
process_inflight_packets-Kept c now = record {
  connected = refl;
  closed = refl;
  destination = refl;
  key = refl;
  queue = refl;
}

-- The state that a connection is in is no part of the above.
pub process_inflight_packets-state :
    (c : Connection) (now : ℕ)
    → (process_inflight_packets c now).connection_state ≡ c.connection_state
unfolding process_inflight_packets process_acks add_free_user_send_packets
process_inflight_packets-state c now = refl

-- DataState::SendPackets leaves these alone too, but for the acknowledgements that it takes.
abbrev pub without_acks : Connection → Connection
without_acks c = record c { recv_queue = (get_selective_acks c.recv_queue).1 }

pub data_send-Kept : (c : Connection) (now : ℕ) → Kept (without_acks c) (data_send c now).1
unfolding data_send
data_send-Kept c now = Kept-trans (send_acks-Kept _ _ _ _) (
    Kept-trans (check_timeouts-Kept _ now) (
      Kept-trans (resend_if_any-Kept _ _)
        (Kept-trans (get_send_user_data-Kept _) (send_if_any-Kept _ _))))
