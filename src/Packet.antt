-- ===== src/Packet.antt =====
-- Packet.hpp and Packet.cpp: a buffer of bytes, addresses and a time. The getters and setters go
-- through HeaderBuffer.hpp.
pub mod Bytes
pub mod Types
pub mod Header
pub mod Fields
pub mod Contents
use multi_threaded_socket.Common.{ℕ, ◌+◌, ◌%◌, ◌^◌, Bool, List, ltb, take, replicate, length}
use Types.{PacketType, ConnectionAddr, default_addr, header_size}
use Header

pub record Packet : Type 0 where
  pub element : List ℕ
  pub src_addr : ConnectionAddr
  pub dst_addr : ConnectionAddr
  pub time : ℕ

-- The constructor: `size` zero bytes.
unfoldable pub new_packet : ℕ → Packet
new_packet size = record {
  element = replicate size 0;
  src_addr = default_addr;
  dst_addr = default_addr;
  time = 0;
}

unfoldable pub get_acks : Packet → List ℕ
unfolding Header.get_acks
get_acks p = Header.get_acks p.element

unfoldable pub set_acks : Packet → List ℕ → Packet
unfolding Header.set_acks
set_acks p acks = record p { element = Header.set_acks p.element acks }

unfoldable pub get_packet_type : Packet → PacketType
unfolding Header.get_packet_type
get_packet_type p = Header.get_packet_type p.element

unfoldable pub set_packet_type : Packet → PacketType → Packet
unfolding Header.set_packet_type
set_packet_type p type = record p { element = Header.set_packet_type p.element type }

unfoldable pub get_src_connection_id : Packet → ℕ
unfolding Header.get_src_connection_id
get_src_connection_id p = Header.get_src_connection_id p.element

unfoldable pub set_src_connection_id : Packet → ℕ → Packet
unfolding Header.set_src_connection_id
set_src_connection_id p id = record p { element = Header.set_src_connection_id p.element id }

unfoldable pub get_dst_connection_id : Packet → ℕ
unfolding Header.get_dst_connection_id
get_dst_connection_id p = Header.get_dst_connection_id p.element

unfoldable pub set_dst_connection_id : Packet → ℕ → Packet
unfolding Header.set_dst_connection_id
set_dst_connection_id p id = record p { element = Header.set_dst_connection_id p.element id }

unfoldable pub get_seq_number : Packet → ℕ
unfolding Header.get_seq_number
get_seq_number p = Header.get_seq_number p.element

unfoldable pub set_seq_number : Packet → ℕ → Packet
unfolding Header.set_seq_number
set_seq_number p seq = record p { element = Header.set_seq_number p.element seq }

unfoldable pub get_ack_number : Packet → ℕ
unfolding Header.get_ack_number
get_ack_number p = Header.get_ack_number p.element

unfoldable pub set_ack_number : Packet → ℕ → Packet
unfolding Header.set_ack_number
set_ack_number p ack = record p { element = Header.set_ack_number p.element ack }

unfoldable pub set_magic : Packet → Packet
unfolding Header.set_magic
set_magic p = record p { element = Header.set_magic p.element }

unfoldable pub is_valid : Packet → Bool
unfolding Header.is_valid
is_valid p = Header.is_valid p.element

unfoldable pub get_payload : Packet → List ℕ
unfolding Header.get_payload
get_payload p = Header.get_payload p.element

unfoldable pub set_payload : Packet → List ℕ → Packet
unfolding Header.set_payload
set_payload p payload = record p { element = Header.set_payload p.element payload }

unfoldable pub set_payload_size : Packet → ℕ → Packet
unfolding Header.set_payload_size
set_payload_size p size = record p { element = Header.set_payload_size p.element size }

-- The span of header and payload. A payload size past the end would be undefined; it is cut here.
unfoldable pub get_buffer : Packet → List ℕ
unfolding Header.get_payload_size
get_buffer p = take (header_size + Header.get_payload_size p.element) p.element

unfoldable pub get_dst_addr : Packet → ConnectionAddr
get_dst_addr p = p.dst_addr

unfoldable pub set_addr : Packet → ConnectionAddr → Packet
set_addr p addr = record p { dst_addr = addr }
