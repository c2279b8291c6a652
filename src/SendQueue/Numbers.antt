-- ===== src/SendQueue/Numbers.antt =====
-- The numbers that packets are given.
use mathlib.Core.List.{append_assoc, append-nil}
use multi_threaded_socket.Common.{
  ℕ, suc, ◌+◌, ◌%◌, ◌≤◌, ◌<◌, ◌≡◌, refl, subst, sym, inl, ap, ◌∙◌, true, List, [], ◌∷◌, ◌++◌, arith,
  length,
}
use multi_threaded_socket.Packet.{Packet, get_seq_number, set_seq_number, set_magic, is_valid}
use multi_threaded_socket.Packet.Types.{seq_mod, header_size}
use multi_threaded_socket.Packet.Bytes.{
  write_le, read_le-write_le, read-write_le_disjoint, length-write_le,
}
use multi_threaded_socket.Packet.Types.{magic_number}
use multi_threaded_socket.SendQueue.{OutgoingPacket, SendQueue, number, outgoing, send_packets}

-- A packet whose buffer has room for the header.
abbrev pub HaveHeaders : List Packet → Type 0
HaveHeaders [] = Unit {0}
HaveHeaders (p ∷ ps) = (header_size ≤ length p.element) × HaveHeaders ps

stamped_number :
    (p : Packet) (n : ℕ)
    → header_size ≤ length p.element
    → n < seq_mod
    → (get_seq_number (set_seq_number (set_magic p) n) ≡ n)
      × (is_valid (set_seq_number (set_magic p) n) ≡ true)
unfolding get_seq_number set_seq_number set_magic is_valid
stamped_number p n h b = (
  read_le-write_le stamped 10 4 n (omega (arith, sized)) (omega arith),
  ground (
    arith,
    sized,
    length-write_le stamped 10 4 n,
    read-write_le_disjoint stamped 10 4 n 0 4 (inl (omega arith)),
    read_le-write_le p.element 0 4 magic_number (omega arith) (omega arith),
  ),
)
  where
    stamped : List ℕ
    stamped = write_le p.element 0 4 magic_number

    sized : length stamped ≡ length p.element
    sized = length-write_le p.element 0 4 magic_number

-- What the data packets become, with the first number `n`.
abbrev pub IsNumbered : ℕ → List Packet → List OutgoingPacket → Type 0
IsNumbered n [] [] = Unit {0}
IsNumbered n [] (o ∷ os) = ⊥
IsNumbered n (p ∷ ps) [] = ⊥
IsNumbered n (p ∷ ps) (o ∷ os) =
    (o.packet ≡ set_seq_number (set_magic p) n)
    × (number o ≡ n)
    × (o.need_ack ≡ true)
    × (is_valid o.packet ≡ true)
    × IsNumbered (n + 1) ps os

-- What sending data packets does to the queue, `sent` being what the packets become.
pub record Sent (q : SendQueue) (packets : List Packet) (sent : List OutgoingPacket) : Type 0 where
  pub appended : (send_packets q packets true).need_to_send ≡ q.need_to_send ++ sent
  pub counted : length sent ≡ length packets
  pub numbered : IsNumbered (q.next_packet_number + 1) packets sent
  pub next :
      (send_packets q packets true).next_packet_number ≡ q.next_packet_number + length packets
  pub resend_kept : (send_packets q packets true).resend ≡ q.resend
  pub service_kept : (send_packets q packets true).service_need_to_send ≡ q.service_need_to_send

-- Data packets go behind those that wait, in their order, each with the next number and the magic
-- number in its header and nothing else changed; they are valid and want an acknowledgement. Nothing else in the queue changes.
pub send_packets_numbers :
    (packets : List Packet) (q : SendQueue)
    → HaveHeaders packets
    → q.next_packet_number + length packets < seq_mod
    → (sent : List OutgoingPacket) × Sent q packets sent
unfolding send_packets
send_packets_numbers [] q h b = (
  [],
  record {
    appended = sym (append-nil q.need_to_send);
    counted = refl;
    numbered = tt;
    next = omega arith;
    resend_kept = refl;
    service_kept = refl;
  },
)
send_packets_numbers (p ∷ packets) q h b =
    let n = (q.next_packet_number + 1) % seq_mod in
    let eq : n ≡ q.next_packet_number + 1 = omega arith in
    let o = outgoing (set_seq_number (set_magic p) n) true in
    let q₁ : SendQueue = record q {
      need_to_send = q.need_to_send ++ o ∷ [];
      next_packet_number = n;
    } in
    let (sent, s) = send_packets_numbers packets q₁ h.1 (omega arith) in
    let (num, valid) = stamped_number p n h.0 (omega arith) in
    (
      o ∷ sent,
      record {
        appended = s.appended ∙ append_assoc q.need_to_send (o ∷ []) sent;
        counted = ap suc s.counted;
        numbered = (
          ap (set_seq_number (set_magic p)) eq,
          num ∙ eq,
          refl,
          valid,
          subst (λ k. IsNumbered (k + 1) packets sent) eq s.numbered,
        );
        next = omega (arith, s.next);
        resend_kept = s.resend_kept;
        service_kept = s.service_kept;
      },
    )
