-- ===== src/InFlightQueue.antt =====
-- InFlightQueue.hpp and InFlightQueue.cpp: the packets that were sent and are not yet acknowledged,
-- and the selective acknowledgements that no packet has answered yet (a set, as a list). A method is
-- one step: what another thread adds to the set while a method holds it apart comes after it.
pub mod Conservation
pub mod Sorting
use multi_threaded_socket.Common.{
  ℕ, ◌+◌, max, Bool, true, false, Option, none, some, List, [], ◌∷◌, ◌++◌, ◌||◌, ◌==◌,
  if◌then◌else◌,
}
use multi_threaded_socket.Packet.{Packet, get_seq_number}
use multi_threaded_socket.SendQueue.{OutgoingPacket}
use multi_threaded_socket.Stats.{
  ConnectionContext, SpeedController, speed_controller, get_timeout, update_speed_stats,
}
use multi_threaded_socket.Stats
use multi_threaded_socket.Sample.{Sample, Entries, new_sample, is_dead, free_packets}
use multi_threaded_socket.Sample

pub record InFlightQueue : Type 0 where
  pub received_acks : List ℕ
  pub speed : SpeedController
  pub samples : List Sample
  pub last_ack_number : ℕ

pub new_queue : ConnectionContext → ℕ → InFlightQueue
new_queue context now = record {
  received_acks = [];
  speed = speed_controller context now;
  samples = [];
  last_ack_number = 0;
}

pub contains : ℕ → List ℕ → Bool
contains n [] = false
contains n (a ∷ acks) = a == n || contains n acks

pub remove : ℕ → List ℕ → List ℕ
remove n [] = []
remove n (a ∷ acks) = if a == n then acks else a ∷ remove n acks

-- `queue[n] = packet` of the unordered map
pub put : ℕ → OutgoingPacket → Entries → Entries
put n o [] = (n, o) ∷ []
put n o ((k, x) ∷ es) = if k == n then (n, o) ∷ es else (k, x) ∷ put n o es

-- What the loop of AddQueue collects.
pub record Sorted : Type 0 where
  pub queue : Entries
  pub acks : List ℕ
  pub free_internal : List Packet
  pub free_user : List Packet
  pub service : ℕ
  pub double : ℕ

-- One round of the loop
pub sort_packet : Sorted → OutgoingPacket → Sorted
unfolding contains remove put
sort_packet s o =
    if o.need_ack
    then (if contains (get_seq_number o.packet) s.acks
        then record s {
          double = s.double + 1;
          acks = remove (get_seq_number o.packet) s.acks;
          free_user = s.free_user ++ o.packet ∷ [];
        }
        else record s { queue = put (get_seq_number o.packet) o s.queue })
    else record s { service = s.service + 1; free_internal = s.free_internal ++ o.packet ∷ [] }

pub sort_packets : Sorted → List OutgoingPacket → Sorted
sort_packets s [] = s
sort_packets s (o ∷ packets) = sort_packets (sort_packet s o) packets

-- The internal packets freed, the user's packets freed, the new queue.
pub add_queue : InFlightQueue → List OutgoingPacket → ℕ → List Packet × List Packet × InFlightQueue
add_queue q packets now =
    let s =
      sort_packets
        (record {
          queue = [];
          acks = q.received_acks;
          free_internal = [];
          free_user = [];
          service = 0;
          double = 0;
        })
        packets in
    (
      s.free_internal,
      s.free_user,
      record q {
        received_acks = s.acks;
        samples = q.samples ++ new_sample s.queue s.service s.double now ∷ [];
      },
    )

pub set_last_ack : InFlightQueue → ℕ → InFlightQueue
set_last_ack q last_ack = record q { last_ack_number = max q.last_ack_number last_ack }

pub insert_acks : List ℕ → List ℕ → List ℕ
unfolding contains
insert_acks received [] = received
insert_acks received (a ∷ acks) =
    insert_acks (if contains a received then received else received ++ a ∷ []) acks

pub add_acks : InFlightQueue → List ℕ → InFlightQueue
unfolding insert_acks
add_acks q acks = record q { received_acks = insert_acks q.received_acks acks }

-- The loops over the samples: each hands the acknowledgements that it has not used to the next.
pub process_samples : List Sample → List ℕ → ℕ → ℕ → List Packet × List ℕ × List Sample
process_samples [] acks last now = ([], acks, [])
process_samples (s ∷ samples) acks last now =
    let (freed, acks₁, s') = Sample.process_acks s acks last now in
    let (freed', acks₂, samples') = process_samples samples acks₁ last now in
    (freed ++ freed', acks₂, s' ∷ samples')

pub process_acks : InFlightQueue → ℕ → List Packet × InFlightQueue
process_acks q now =
    let (freed, acks, samples) = process_samples q.samples q.received_acks q.last_ack_number now in
    (freed, record q { received_acks = acks; samples = samples })

pub timeout_samples : List Sample → ℕ → ℕ → List OutgoingPacket × List Sample
timeout_samples [] timeout now = ([], [])
timeout_samples (s ∷ samples) timeout now =
    let (lost, s') = Sample.check_timeouts s timeout now in
    let (lost', samples') = timeout_samples samples timeout now in (lost ++ lost', s' ∷ samples')

-- `remove_if`: a dead sample is removed, after the controller has taken its statistics.
pub bury : List Sample → SpeedController → List Sample × SpeedController
bury [] speed = ([], speed)
bury (s ∷ samples) speed =
    let dead = is_dead s in
    let (alive, speed') =
      bury samples (if dead then update_speed_stats speed s.time_ranged_stats else speed) in
    (if dead then alive else s ∷ alive, speed')

pub check_timeouts : InFlightQueue → ℕ → List OutgoingPacket × InFlightQueue
check_timeouts q now =
    let (lost, samples) = timeout_samples q.samples (get_timeout q.speed) now in
    let (alive, speed) = bury samples q.speed in (lost, record q { samples = alive; speed = speed })

pub get_number_packet_to_send : InFlightQueue → ℕ → ℕ × InFlightQueue
get_number_packet_to_send q now =
    let (n, speed) = Stats.get_number_packet_to_send q.speed now in (n, record q { speed = speed })

pub revert_number_packet_to_send : InFlightQueue → ℕ → InFlightQueue
revert_number_packet_to_send q number = record q {
  speed = Stats.revert_number_packet_to_send q.speed number;
}

pub free_samples : List Sample → List Packet × List Sample
free_samples [] = ([], [])
free_samples (s ∷ samples) =
    let (freed, s') = free_packets s in
    let (freed', samples') = free_samples samples in (freed ++ freed', s' ∷ samples')

pub get_all_packets : InFlightQueue → List Packet × InFlightQueue
get_all_packets q =
    let (freed, samples) = free_samples q.samples in (freed, record q { samples = samples })
