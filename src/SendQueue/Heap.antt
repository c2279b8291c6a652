-- ===== src/SendQueue/Heap.antt =====
-- The packets to send again go first, the smallest number first.
use mathlib.Core.List.{Perm, perm_middle}
use mathlib.Core.List.Perm
use multi_threaded_socket.Common.{
  ℕ, zero, suc, ◌≤◌, ◌≡◌, refl, ap, List, [], ◌∷◌, ◌++◌, arith, length, some, false, take, drop,
  length-take, ltb, Bool-cases, inl, inr,
}
use multi_threaded_socket.SendQueue.{
  OutgoingPacket, SendQueue, number, push_heap, resend_packets, pop_heap, pop_resend,
  get_packets_to_send,
}

-- The numbers do not fall, and are at least `low`.
abbrev pub Rises : ℕ → List OutgoingPacket → Type 0
Rises low [] = Unit {0}
Rises low (o ∷ os) = (low ≤ number o) × Rises (number o) os

Rises-mono : (a b : ℕ) (os : List OutgoingPacket) → a ≤ b → Rises b os → Rises a os
Rises-mono a b [] h r = tt
Rises-mono a b (o ∷ os) h r = (omega arith, r.1)

push_heap-Rises :
    (low : ℕ) (os : List OutgoingPacket) (o : OutgoingPacket)
    → low ≤ number o
    → Rises low os
    → Rises low (push_heap os o)
unfolding push_heap
push_heap-Rises low [] o h r = omega arith
push_heap-Rises low (x ∷ xs) o h r = elim (Bool-cases (ltb (number o) (number x))) [
  | inl e ↦ rw e (h, (ground arith, r.1))
  | inr e ↦ rw e (r.0, push_heap-Rises (number x) xs o (ground arith) r.1)
]

push_heap-perm : (os : List OutgoingPacket) (o : OutgoingPacket) → Perm (push_heap os o) (o ∷ os)
unfolding push_heap
push_heap-perm [] o = Perm.refl (o ∷ [])
push_heap-perm (x ∷ xs) o = elim (Bool-cases (ltb (number o) (number x))) [
  | inl e ↦ rw e (Perm.refl (o ∷ x ∷ xs))
  | inr e ↦ rw e (Perm.trans (Perm.cons x (push_heap-perm xs o)) (Perm.swap o x xs))
]

-- Packets put back are all kept, the order stays that of the numbers, and nothing else changes.
pub resend_packets_lem :
    (packets : List OutgoingPacket) (q : SendQueue)
    → Rises 0 q.resend
    → let q' = resend_packets q packets in
      Rises 0 q'.resend
      × Perm q'.resend (packets ++ q.resend)
      × (q'.need_to_send ≡ q.need_to_send)
      × (q'.service_need_to_send ≡ q.service_need_to_send)
      × (q'.next_packet_number ≡ q.next_packet_number)
unfolding resend_packets
resend_packets_lem [] q r = (r, Perm.refl q.resend, refl, refl, refl)
resend_packets_lem (o ∷ packets) q r =
    let (a, p, b, c, d) =
      resend_packets_lem packets (record q { resend = push_heap q.resend o })
        (push_heap-Rises 0 q.resend o (omega arith) r) in
    (
      a,
      Perm.trans p (
          Perm.trans (Perm.append (Perm.refl packets) (push_heap-perm q.resend o))
            (perm_middle packets q.resend)),
      b,
      c,
      d,
    )

Rises-drop : (os : List OutgoingPacket) (low n : ℕ) → Rises low os → Rises 0 (drop n os)
Rises-drop [] low zero r = tt
Rises-drop [] low (suc n) r = tt
Rises-drop (o ∷ os) low zero r = (omega arith, r.1)
Rises-drop (o ∷ os) low (suc n) r = Rises-drop os (number o) n r.1

-- The top of packets in order is the first one.
pop_heap-Rises :
    (low : ℕ) (o : OutgoingPacket) (heap : List OutgoingPacket)
    → Rises low (o ∷ heap)
    → pop_heap (o ∷ heap) ≡ some (o, heap)
unfolding pop_heap
pop_heap-Rises low o [] r = refl
pop_heap-Rises low o (x ∷ heap) r =
    let first = pop_heap-Rises (number o) x heap r.1 in
    let below : ltb (number x) (number o) ≡ false = (let k = r.1.0 in ground arith) in
    rw (pop_heap, first, below) refl

pop_resend_lem :
    (low : ℕ) (heap new : List OutgoingPacket) (size : ℕ)
    → Rises low heap
    → let (popped, heap', left) = pop_resend heap size in
      (popped ++ take left new ≡ take size (heap ++ new))
      × (heap' ++ drop left new ≡ drop size (heap ++ new))
      × (heap' ≡ drop size heap)
unfolding pop_resend
pop_resend_lem low [] new zero r = (refl, refl, refl)
pop_resend_lem low [] new (suc size) r = (refl, refl, refl)
pop_resend_lem low (o ∷ heap) new zero r = (refl, refl, refl)
pop_resend_lem low (o ∷ heap) new (suc size) r =
    let (a, b, c) = pop_resend_lem (number o) heap new size r.1 in
    rw (pop_resend, pop_heap-Rises low o heap r) (ap (◌∷◌ o) a, b, c)

-- GetPacketsToSend takes the first `size` of the packets to send again, smallest number first,
-- followed by the new ones, and leaves the rest of them in order; it gives no more than `size`, and
-- touches no service packet.
pub get_packets_to_send_lem :
    (q : SendQueue) (size : ℕ)
    → Rises 0 q.resend
    → let (packets, q') = get_packets_to_send q size in
      (packets ≡ take size (q.resend ++ q.need_to_send))
      × (q'.resend ++ q'.need_to_send ≡ drop size (q.resend ++ q.need_to_send))
      × (length packets ≤ size)
      × Rises 0 q'.resend
      × (q'.service_need_to_send ≡ q.service_need_to_send)
unfolding get_packets_to_send
get_packets_to_send_lem q size r =
    let (a, b, c) = pop_resend_lem 0 q.resend q.need_to_send size r in
    (
      a,
      b,
      omega (arith, ap length a, length-take size (q.resend ++ q.need_to_send)),
      rw c (Rises-drop q.resend 0 size r),
      refl,
    )
