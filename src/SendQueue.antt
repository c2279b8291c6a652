-- ===== src/SendQueue.antt =====
-- SendQueue.hpp, SendQueue.cpp and OutgoingPacket.hpp: what a connection has to send.
-- A MultiList is the list that it stands for (see MultiList.Laws). The heap `_resendPackets` is the
-- list of its packets in the order in which `pop_heap` takes them; the order of packets with one
-- number, which the heap does not fix, is that of their arrival.
pub mod Heap
pub mod Numbers
use multi_threaded_socket.Common.{
  ℕ, zero, suc, ◌+◌, ◌-◌, ◌%◌, Bool, true, false, Option, none, some, List, [], ◌∷◌, ◌++◌, take,
  drop, ltb, if◌then◌else◌,
}
use multi_threaded_socket.Packet.{Packet, get_seq_number, set_seq_number, set_magic}
use multi_threaded_socket.Packet.Types.{seq_mod, no_seq_number}

pub record OutgoingPacket : Type 0 where
  pub packet : Packet
  pub send_time : ℕ
  pub need_ack : Bool

-- The constructor; a default `time_point` is 0.
abbrev pub outgoing : Packet → Bool → OutgoingPacket
outgoing packet need_ack = record { packet = packet; send_time = 0; need_ack = need_ack }

pub record SendQueue : Type 0 where
  pub resend : List OutgoingPacket
  pub need_to_send : List OutgoingPacket
  pub service_need_to_send : List OutgoingPacket
  pub next_packet_number : ℕ

unfoldable pub new_queue : SendQueue
new_queue = record {
  resend = [];
  need_to_send = [];
  service_need_to_send = [];
  next_packet_number = 0;
}

unfoldable pub send_packets : SendQueue → List Packet → Bool → SendQueue
send_packets q [] need_ack = q
send_packets q (packet ∷ packets) true =
    let number = (q.next_packet_number + 1) % seq_mod in
    send_packets
      (record q {
        need_to_send =
            q.need_to_send ++ outgoing (set_seq_number (set_magic packet) number) true ∷ [];
        next_packet_number = number;
      })
      packets true
send_packets q (packet ∷ packets) false =
    send_packets
      (record q {
        service_need_to_send =
            q.service_need_to_send
            ++ outgoing (set_seq_number (set_magic packet) no_seq_number) false ∷ [];
      })
      packets false

abbrev pub number : OutgoingPacket → ℕ
number o = get_seq_number o.packet

-- `OutgoingComparator`: the heap's top is the packet that is greater than no other, which is the one
-- with the smallest number.
pub comparator : OutgoingPacket → OutgoingPacket → Bool
comparator left right = ltb (number right) (number left)

-- push_back and push_heap: behind every packet that it does not come before.
pub push_heap : List OutgoingPacket → OutgoingPacket → List OutgoingPacket
unfolding comparator
push_heap [] o = o ∷ []
push_heap (x ∷ xs) o = if comparator x o then o ∷ x ∷ xs else x ∷ push_heap xs o

-- ReSendPackets
pub resend_packets : SendQueue → List OutgoingPacket → SendQueue
resend_packets q [] = q
resend_packets q (o ∷ packets) = resend_packets (record q { resend = push_heap q.resend o }) packets

-- pop_heap and pop_back: the first packet that the comparator puts below no other, and the rest.
pub pop_heap : List OutgoingPacket → Option (OutgoingPacket × List OutgoingPacket)
unfolding comparator
pop_heap [] = none
pop_heap (o ∷ heap) = elim (pop_heap heap) [
  | none ↦ some (o, [])
  | some (top, left) ↦ if comparator o top then some (top, o ∷ left) else some (o, heap)
]

-- The loop of GetPacketsToSend: the packets popped, the heap left, the size left.
pub pop_resend : List OutgoingPacket → ℕ → List OutgoingPacket × List OutgoingPacket × ℕ
unfolding pop_heap
pop_resend heap zero = ([], heap, zero)
pop_resend heap (suc size) = elim (pop_heap heap) [
  | none ↦ ([], heap, suc size)
  | some (o, left) ↦ let (popped, heap', size') = pop_resend left size in (o ∷ popped, heap', size')
]

pub get_packets_to_send : SendQueue → ℕ → List OutgoingPacket × SendQueue
get_packets_to_send q size =
    let (popped, heap, left) = pop_resend q.resend size in
    (
      popped ++ take left q.need_to_send,
      record q { resend = heap; need_to_send = drop left q.need_to_send },
    )

-- `TryGenerate` of the greatest `size_t`
pub get_service_packets_to_send : SendQueue → List OutgoingPacket × SendQueue
get_service_packets_to_send q = (
  take 0xffffffffffffffff q.service_need_to_send,
  record q { service_need_to_send = drop 0xffffffffffffffff q.service_need_to_send },
)
