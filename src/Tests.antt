-- ===== src/Tests.antt =====
-- Small packets, queues and connections on which the theorems are tried.
pub mod Receiving
pub mod Sending
pub mod Containers
pub mod Connections
pub mod Messages
pub mod Reordered
pub mod Files
pub mod Contexts
pub mod OpenFiles
pub mod Reads
pub mod Blocks
pub mod Streams
use multi_threaded_socket.Common.{ℕ, List, [], ◌∷◌, ◌++◌, true, replicate}
use multi_threaded_socket.Packet.{Packet}
use multi_threaded_socket.Packet.Types.{default_addr}
use multi_threaded_socket.SendQueue.{OutgoingPacket}

-- A packet of nothing but its header, with a type, below 256, and a number, below 256.
abbrev pub typed : ℕ → ℕ → Packet
typed t n = record {
  element =
      0x78 ∷ 0x56 ∷ 0x34 ∷ 0x12 ∷ t ∷ 0 ∷ 7 ∷ 0 ∷ 9 ∷ 0 ∷ n ∷ 0 ∷ 0 ∷ 0 ∷ 0 ∷ 0 ∷ 0 ∷ 0 ∷ 0 ∷ 0
      ∷ [];
  src_addr = default_addr;
  dst_addr = default_addr;
  time = 0;
}

-- A data packet
abbrev pub numbered : ℕ → Packet
numbered n = typed 4 n

-- A packet with room for 30 bytes more than its header
abbrev pub roomy : Packet
roomy = record {
  element = replicate 50 0;
  src_addr = default_addr;
  dst_addr = default_addr;
  time = 0;
}

abbrev pub sent_at : ℕ → ℕ → OutgoingPacket
sent_at time n = record { packet = numbered n; send_time = time; need_ack = true }
