-- ===== src/Sample.antt =====
-- Sample.hpp and Sample.cpp: packets that were sent together and are not yet acknowledged. The
-- unordered map is an association list, gone through in its order; a set of numbers is a list. The
-- time of a call is its last argument.
pub mod Acks
pub mod Held
use multi_threaded_socket.Common.{
  ℕ, zero, suc, ◌+◌, ◌-◌, Bool, true, false, Option, none, some, List, [], ◌∷◌, ◌++◌, map, ltb, leb,
  ◌==◌, if◌then◌else◌,
}
use multi_threaded_socket.Packet.{Packet}
use multi_threaded_socket.SendQueue.{OutgoingPacket}
use multi_threaded_socket.Stats.{TimeRangedStats, time_ranged_stats, add_packet}

abbrev pub Entries : Type 0
Entries = List (ℕ × OutgoingPacket)

pub record Sample : Type 0 where
  pub packets : Entries
  pub service_packet_number : ℕ
  pub double_sent_packet_number : ℕ
  pub time_ranged_stats : TimeRangedStats

unfoldable pub new_sample : Entries → ℕ → ℕ → ℕ → Sample
new_sample packets service double now = record {
  packets = packets;
  service_packet_number = service;
  double_sent_packet_number = double;
  time_ranged_stats = time_ranged_stats now;
}

-- `_packets.find(n)`, and `_packets.erase` of what it finds
unfoldable pub find : ℕ → Entries → Option OutgoingPacket
find n [] = none
find n ((k, o) ∷ es) = if k == n then some o else find n es

pub erase : ℕ → Entries → Entries
erase n [] = []
erase n ((k, o) ∷ es) = if k == n then es else (k, o) ∷ erase n es

abbrev pub Freed : Type 0
Freed = List Packet × Entries × TimeRangedStats

-- A packet that is acknowledged goes to the statistics.
acknowledged : TimeRangedStats → OutgoingPacket → ℕ → TimeRangedStats
acknowledged stats o now = add_packet stats false o.send_time (now - o.send_time)

-- The first loop of ProcessAcks: packets up to the last acknowledgement are freed.
pub free_acked : Entries → TimeRangedStats → ℕ → ℕ → Freed
unfolding acknowledged
free_acked [] stats last now = ([], [], stats)
free_acked ((k, o) ∷ es) stats last now =
    let hit = leb k last in
    let (freed, kept, stats') =
      free_acked es (if hit then acknowledged stats o now else stats) last now in
    if hit then (o.packet ∷ freed, kept, stats') else (freed, (k, o) ∷ kept, stats')

-- The second loop, over the selective acknowledgements: the acknowledgements left, and the rest.
pub free_selected :
    List ℕ → Entries → TimeRangedStats → ℕ → ℕ → List ℕ × List Packet × Entries × TimeRangedStats
unfolding acknowledged
free_selected [] es stats last now = ([], [], es, stats)
free_selected (ack ∷ acks) es stats last now =
    let skipped = free_selected acks es stats last now in
    if leb ack last then skipped else elim (find ack es) [
      | none ↦ (ack ∷ skipped.0, skipped.1, skipped.2, skipped.3)
      | some o ↦
          let (acks', freed, kept, stats') =
            free_selected acks (erase ack es) (acknowledged stats o now) last now in
          (acks', o.packet ∷ freed, kept, stats')
    ]

-- The packets freed, the acknowledgements left, the sample left.
pub process_acks : Sample → List ℕ → ℕ → ℕ → List Packet × List ℕ × Sample
process_acks s acks last now =
    let (freed, kept, stats) = free_acked s.packets s.time_ranged_stats last now in
    let (acks', freed', kept', stats') = free_selected acks kept stats last now in
    (freed ++ freed', acks', record s { packets = kept'; time_ranged_stats = stats' })

-- The loop of CheckTimeouts: the packets that have timed out, those that have not.
pub expire : Entries → TimeRangedStats → ℕ → ℕ → List OutgoingPacket × Entries × TimeRangedStats
expire [] stats timeout now = ([], [], stats)
expire ((k, o) ∷ es) stats timeout now =
    let late = ltb timeout (now - o.send_time) in
    let (lost, kept, stats') =
      expire es (if late then add_packet stats true o.send_time 0 else stats) timeout now in
    if late then (o ∷ lost, kept, stats') else (lost, (k, o) ∷ kept, stats')

pub check_timeouts : Sample → ℕ → ℕ → List OutgoingPacket × Sample
check_timeouts s timeout now =
    let (lost, kept, stats) = expire s.packets s.time_ranged_stats timeout now in
    (lost, record s { packets = kept; time_ranged_stats = stats })

unfoldable pub is_dead : Sample → Bool
is_dead s = elim s.packets [ [] ↦ true | e ∷ es ↦ false ]

-- The packets of the entries
abbrev pub packets_of : Entries → List Packet
packets_of [] = []
packets_of ((k, o) ∷ es) = o.packet ∷ packets_of es

unfoldable pub free_packets : Sample → List Packet × Sample
free_packets s = (packets_of s.packets, record s { packets = [] })
