-- ===== src/RecvQueue.antt =====
-- RecvQueue.hpp and RecvQueue.cpp: the received packets of a connection, put back in order.
-- The vector `_queue` of `QueueSize` pointers is a function from indices, since each access is at an
-- index modulo `QueueSize`. A method under a lock, or on an atomic, is one step.
pub mod Invariant
pub mod Order
use multi_threaded_socket.Common.{
  ℕ, zero, suc, ◌+◌, ◌-◌, ◌%◌, ◌^◌, Bool, true, false, Option, none, some, List, [], ◌∷◌, ◌++◌, ltb,
  leb, ◌==◌, if◌then◌else◌, Result, ok, err, wrong_packet_number,
}
use multi_threaded_socket.Packet.{Packet, get_seq_number}
use multi_threaded_socket.Packet.Types.{seq_mod, no_seq_number}

-- RecvQueueStatus.hpp
pub data RecvQueueStatus : Type 0 where
  invalid new full duplicated : RecvQueueStatus

-- The constant `QueueSize`
abbrev pub queue_size : ℕ
queue_size = 250000

abbrev pub Slots : Type 0
Slots = ℕ → Option Packet

pub record RecvQueue : Type 0 where
  pub queue : Slots
  pub data_list : List Packet
  pub selective_acks : List ℕ
  pub begin_full_received_ack : ℕ

-- `_queue[i] = value`
abbrev pub assign : Slots → ℕ → Option Packet → Slots
assign slots i value j = if i == j then value else slots j

unfoldable pub new_queue : RecvQueue
new_queue = record {
  queue = λ i. none;
  data_list = [];
  selective_acks = [];
  begin_full_received_ack = 1;
}

-- The returned pointer is the packet that the queue did not take.
unfoldable pub add_packet :
    RecvQueue → Packet → Result (RecvQueueStatus × Option Packet × RecvQueue)
add_packet q packet =
    if number == no_seq_number
    then err wrong_packet_number
    else if ltb number q.begin_full_received_ack
    then ok (duplicated, some packet, acked)
    else if leb queue_size (number - q.begin_full_received_ack)
    then ok (full, some packet, q)
    else elim (q.queue (number % queue_size)) [
      | some _ ↦ ok (duplicated, some packet, acked)
      | none ↦
          ok
            (new, none, record acked { queue = assign q.queue (number % queue_size) (some packet) })
    ]
  where
    number : ℕ
    number = get_seq_number packet

    acked : RecvQueue
    acked = record q { selective_acks = q.selective_acks ++ number ∷ [] }

-- The loop of ProccessUnorderedPackets, on fuel: the packets in order, the slots, the counter. `none`
-- when the assertion on the counter fails, or the fuel runs out.
unfoldable pub drain : ℕ → Slots → ℕ → Option (List Packet × Slots × ℕ)
drain zero slots begin = none
drain (suc fuel) slots begin =
    let rest = drain fuel (assign slots (begin % queue_size) none) ((begin + 1) % seq_mod) in
    if begin == no_seq_number then none else elim (slots (begin % queue_size)) [
      | none ↦ some ([], slots, begin)
      | some packet ↦ elim rest [
        | none ↦ none
        | some (packets, slots', begin') ↦ some (packet ∷ packets, slots', begin')
      ]
    ]

-- `none` if the assertion fails or the loop does not end. The notification of waiting readers changes no state.
unfoldable pub process_unordered_packets : RecvQueue → Option RecvQueue
process_unordered_packets q = elim (drain (suc queue_size) q.queue q.begin_full_received_ack) [
  | none ↦ none
  | some (packets, slots, begin) ↦ some (record q {
    queue = slots;
    data_list = q.data_list ++ packets;
    begin_full_received_ack = begin;
  })
]

-- The reader's `GetUserData().LockedSwap` with an empty list.
unfoldable pub take_user_data : RecvQueue → List Packet × RecvQueue
take_user_data q = (q.data_list, record q { data_list = [] })

pub get_selective_acks : RecvQueue → List ℕ × RecvQueue
get_selective_acks q = (q.selective_acks, record q { selective_acks = [] })

pub get_last_ack : RecvQueue → ℕ
get_last_ack q = (q.begin_full_received_ack + seq_mod - 1) % seq_mod
