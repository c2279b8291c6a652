-- ===== src/Connection/Packets.antt =====
-- Connection::RecvPacket, on every branch.
use multi_threaded_socket.Common.{
  ℕ, ◌+◌, ◌≡◌, refl, Option, none, some, arith, ◌⊎◌, inl, inr, Result, ok, err, wrong_packet_number,
}
use multi_threaded_socket.Packet.{Packet, get_seq_number}
use multi_threaded_socket.Packet.Types.{no_seq_number}
use multi_threaded_socket.RecvQueue.{add_packet}
use multi_threaded_socket.RecvQueue.Invariant.{
  Added, refused, late, ahead, twice, stored, add_packet-Added, after,
}
use multi_threaded_socket.Connection.{Connection, Statistics, recv_packet, count_received}

-- The packets that were counted as taken, as duplicates or as too far ahead.
abbrev pub counted : Statistics → ℕ
counted s = s.received_packets + s.duplicate_packets + s.overflow_packets

-- What RecvPacket does with a packet that it does not refuse: `back` is the packet it hands back.
pub record Taken (c : Connection) (packet : Packet) (back : Option Packet) (c' : Connection)
    : Type 0 where
  pub queue : c'.recv_queue ≡ after c.recv_queue (add_packet c.recv_queue packet)
  pub rest : c' ≡ record c { recv_queue = c'.recv_queue; statistics = c'.statistics }
  pub once : counted c'.statistics ≡ counted c.statistics + 1
  pub owner :
      ((back ≡ none) × (c'.statistics.received_packets ≡ c.statistics.received_packets + 1))
      ⊎ ((back ≡ some packet) × (c'.statistics.received_packets ≡ c.statistics.received_packets))

pub data Recv (c : Connection) (packet : Packet)
    : Result (Option Packet × Connection) → Type 0 where
  unusable : get_seq_number packet ≡ no_seq_number → Recv c packet (err wrong_packet_number)
  took :
      {back : Option Packet} {c' : Connection}
      → Taken c packet back c'
      → Recv c packet (ok (back, c'))

-- RecvPacket throws exactly on the number that stands for none, and not for its receive queue's
-- answer. Any other packet is counted once, as taken, duplicate or too far ahead; it is handed back
-- unless it is counted as taken; and nothing but the receive queue and the statistics changes.
pub recv_packet-Recv : (c : Connection) (packet : Packet) → Recv c packet (recv_packet c packet)
unfolding recv_packet count_received
recv_packet-Recv c packet = by_case (add_packet-Added c.recv_queue packet) refl
  where
    by_case :
        {r : _}
        → Added c.recv_queue packet r
        → add_packet c.recv_queue packet ≡ r
        → Recv c packet (recv_packet c packet)
    by_case (refused e) a = rw (a, recv_packet) (unusable e)
    by_case (late l) a =
        rw (a, recv_packet)
          (took (record {
            queue = rw a refl;
            rest = refl;
            once = omega arith;
            owner = inr (refl, refl);
          }))
    by_case (ahead l) a =
        rw (a, recv_packet)
          (took (record {
            queue = rw a refl;
            rest = refl;
            once = omega arith;
            owner = inr (refl, refl);
          }))
    by_case (twice p s l h) a =
        rw (a, recv_packet)
          (took (record {
            queue = rw a refl;
            rest = refl;
            once = omega arith;
            owner = inr (refl, refl);
          }))
    by_case (stored s l h n) a =
        rw (a, recv_packet)
          (took (record {
            queue = rw a refl;
            rest = refl;
            once = omega arith;
            owner = inl (refl, refl);
          }))
