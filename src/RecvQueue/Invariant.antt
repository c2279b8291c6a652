-- ===== src/RecvQueue/Invariant.antt =====
-- Where a stored packet lies, and that every operation keeps it so.
use multi_threaded_socket.Common.{
  ℕ, zero, suc, ◌+◌, ◌-◌, ◌%◌, ◌≤◌, ◌<◌, ◌≡◌, ◌≢◌, ◌⊎◌, inl, inr, refl, Option, none, some, List,
  [], ◌∷◌, ◌++◌, map, arith, length, ltb, leb, ◌==◌, false, Bool-cases, Option-cases, count_up,
  Result, ok, err, wrong_packet_number, subst, ap₂,
}
use multi_threaded_socket.Packet.{Packet, get_seq_number}
use multi_threaded_socket.Packet.Types.{seq_mod, no_seq_number}
use multi_threaded_socket.RecvQueue.{
  RecvQueue, RecvQueueStatus, new, full, duplicated, queue_size, Slots, assign, new_queue,
  add_packet, drain, process_unordered_packets,
}

-- A stored packet has a number in the window that begins at `b`, and lies at its number's index.
pub record Lies (b i : ℕ) (p : Packet) : Type 0 where
  pub above : b ≤ get_seq_number p
  pub below : get_seq_number p < b + queue_size
  pub usable : get_seq_number p < no_seq_number
  pub index : i ≡ get_seq_number p % queue_size

abbrev pub AllLie : ℕ → Slots → Type 0
AllLie b slots = (i : ℕ) (p : Packet) → slots i ≡ some p → Lies b i p

pub record IsValid (q : RecvQueue) : Type 0 where
  pub positive : 1 ≤ q.begin_full_received_ack
  pub bounded : q.begin_full_received_ack ≤ no_seq_number
  pub lie : AllLie q.begin_full_received_ack q.queue

pub new_queue-IsValid : IsValid new_queue
unfolding new_queue
new_queue-IsValid = record { positive = omega arith; bounded = omega arith; lie = λ i p e. cc }

-- What add_packet answers, and what it does to the queue, in every case.
pub data Added (q : RecvQueue) (packet : Packet)
    : Result (RecvQueueStatus × Option Packet × RecvQueue) → Type 0 where
  refused : get_seq_number packet ≡ no_seq_number → Added q packet (err wrong_packet_number)
  late :
      get_seq_number packet < q.begin_full_received_ack
      → Added q packet (
          ok (
            duplicated,
            some packet,
            record q { selective_acks = q.selective_acks ++ get_seq_number packet ∷ [] },
          ))
  ahead :
      q.begin_full_received_ack + queue_size ≤ get_seq_number packet
      → Added q packet (ok (full, some packet, q))
  twice :
      (p : Packet)
      → q.queue (get_seq_number packet % queue_size) ≡ some p
      → q.begin_full_received_ack ≤ get_seq_number packet
      → get_seq_number packet < q.begin_full_received_ack + queue_size
      → Added q packet (
          ok (
            duplicated,
            some packet,
            record q { selective_acks = q.selective_acks ++ get_seq_number packet ∷ [] },
          ))
  stored :
      q.queue (get_seq_number packet % queue_size) ≡ none
      → q.begin_full_received_ack ≤ get_seq_number packet
      → get_seq_number packet < q.begin_full_received_ack + queue_size
      → get_seq_number packet ≢ no_seq_number
      → Added q packet (
          ok (
            new,
            none,
            record q {
              selective_acks = q.selective_acks ++ get_seq_number packet ∷ [];
              queue = assign q.queue (get_seq_number packet % queue_size) (some packet);
            },
          ))

-- AddPacket in every case. It throws on the number that stands for none. Below the counter a packet is
-- a duplicate, and acknowledged again; from the counter plus `queue_size` on it is handed back, with
-- nothing changed. Between these it is stored at its index, once: if something lies there it is a
-- duplicate. Whatever is not stored is handed back.
pub add_packet-Added : (q : RecvQueue) (packet : Packet) → Added q packet (add_packet q packet)
unfolding add_packet
add_packet-Added q packet = elim (Bool-cases (get_seq_number packet == no_seq_number)) [
  | inl e ↦ rw e (refused (ground arith))
  | inr e ↦ elim (Bool-cases (ltb (get_seq_number packet) q.begin_full_received_ack)) [
    | inl l ↦ rw (e, l) (late (ground arith))
    | inr l ↦
        elim (Bool-cases (leb queue_size (get_seq_number packet - q.begin_full_received_ack))) [
          | inl f ↦ rw (e, l, f) (ahead (ground arith))
          | inr f ↦ elim (Option-cases (q.queue (get_seq_number packet % queue_size))) [
            | inl s ↦ rw (e, l, f, s) (stored s (ground arith) (ground arith) (ground arith))
            | inr (p, s) ↦ rw (e, l, f, s) (twice p s (ground arith) (ground arith))
          ]
        ]
  ]
]

-- What `add_packet` leaves behind: after an exception the queue is as it was.
abbrev pub after : RecvQueue → Result (RecvQueueStatus × Option Packet × RecvQueue) → RecvQueue
after q (ok (status, free, q')) = q'
after q (err e) = q

assign-AllLie :
    (b : ℕ) (slots : Slots) (packet : Packet)
    → AllLie b slots
    → b ≤ get_seq_number packet
    → get_seq_number packet < b + queue_size
    → get_seq_number packet < no_seq_number
    → AllLie b (assign slots (get_seq_number packet % queue_size) (some packet))
assign-AllLie b slots packet v above below usable i p e =
    elim (Bool-cases (get_seq_number packet % queue_size == i)) [
      | inl hit ↦
          let eq : some packet ≡ some p = rw hit at e in
          let same : packet ≡ p = cc in
          subst (Lies b i) same
            (record { above = above; below = below; usable = usable; index = ground arith })
      | inr miss ↦ v i p (rw miss at e)
    ]

-- Adding a packet, whose number has 32 bits, keeps the invariant.
pub add_packet-IsValid :
    (q : RecvQueue) (packet : Packet)
    → IsValid q
    → get_seq_number packet < seq_mod
    → IsValid (after q (add_packet q packet))
add_packet-IsValid q packet v word = by_case (add_packet-Added q packet)
  where
    by_case :
        {r : Result (RecvQueueStatus × Option Packet × RecvQueue)}
        → Added q packet r
        → IsValid (after q r)
    by_case (refused e) = v
    by_case (late l) = record { positive = v.positive; bounded = v.bounded; lie = v.lie }
    by_case (ahead l) = v
    by_case (twice p s a b) = record { positive = v.positive; bounded = v.bounded; lie = v.lie }
    by_case (stored s a b n) = record {
      positive = v.positive;
      bounded = v.bounded;
      lie = assign-AllLie q.begin_full_received_ack q.queue packet v.lie a b (omega arith);
    }

-- The packet in the first slot of the window, if any, is the window's first.
first-number :
    (b : ℕ) (slots : Slots) (p : Packet)
    → AllLie b slots
    → slots (b % queue_size) ≡ some p
    → (get_seq_number p ≡ b) × (b < no_seq_number)
first-number b slots p v e =
    let l = v (b % queue_size) p e in
    let lo = l.above in
    let hi = l.below in let ix = l.index in let us = l.usable in (omega arith, omega arith)

-- Without its first slot the rest of the window lies in the next window.
clear-AllLie :
    (b : ℕ) (slots : Slots) → AllLie b slots → AllLie (b + 1) (assign slots (b % queue_size) none)
clear-AllLie b slots v i p e = elim (Bool-cases (b % queue_size == i)) [
  | inl hit ↦ let eq : none ≡ some p = rw hit at e in cc
  | inr miss ↦
      let l = v i p (rw miss at e) in
      let ix = l.index in
      let lo = l.above in
      let hi = l.below in
      record { above = ground arith; below = omega arith; usable = l.usable; index = ix }
]

clear-old :
    (slots : Slots) (k i : ℕ) (p : Packet) → assign slots k none i ≡ some p → slots i ≡ some p
clear-old slots k i p e = elim (Bool-cases (k == i)) [
  | inl hit ↦ let eq : none ≡ some p = rw hit at e in cc
  | inr miss ↦ rw miss at e
]

clear-kept :
    (b : ℕ) (slots : Slots) (i : ℕ) (p : Packet)
    → AllLie b slots
    → slots i ≡ some p
    → b < get_seq_number p
    → assign slots (b % queue_size) none i ≡ some p
clear-kept b slots i p v e above = elim (Bool-cases (b % queue_size == i)) [
  | inl hit ↦
      let l = v i p e in
      let ix = l.index in
      let hi = l.below in let same : b % queue_size ≡ i = ground arith in absurd (omega arith)
  | inr miss ↦ rw miss e
]

-- What the loop returns: the packets numbered from `b` up to the new counter, in order, and nothing
-- lost of the others.
pub record Drained (slots : Slots) (b : ℕ) (packets : List Packet) (slots' : Slots) (b' : ℕ)
    : Type 0 where
  pub numbers : map get_seq_number packets ≡ count_up b (length packets)
  pub moved : b' ≡ b + length packets
  pub bounded : b' < no_seq_number
  pub stops : slots' (b' % queue_size) ≡ none
  pub lie : AllLie b' slots'
  pub kept : (i : ℕ) (p : Packet) → slots i ≡ some p → b' ≤ get_seq_number p → slots' i ≡ some p
  pub old : (i : ℕ) (p : Packet) → slots' i ≡ some p → slots i ≡ some p

drain-none :
    (fuel b : ℕ) (slots : Slots)
    → (b == no_seq_number) ≡ false
    → slots (b % queue_size) ≡ none
    → drain (suc fuel) slots b ≡ some ([], slots, b)
unfolding drain
drain-none fuel b slots m e = rw (m, e, drain) refl

drain-some :
    (fuel b : ℕ) (slots : Slots) (p : Packet) {ps : List Packet} {slots' : Slots} {b' : ℕ}
    → (b == no_seq_number) ≡ false
    → slots (b % queue_size) ≡ some p
    → (b + 1) % seq_mod ≡ b + 1
    → drain fuel (assign slots (b % queue_size) none) (b + 1) ≡ some (ps, slots', b')
    → drain (suc fuel) slots b ≡ some (p ∷ ps, slots', b')
unfolding drain
drain-some fuel b slots p m e next d = rw (m, e, next, d, drain) refl

drain-fails :
    (fuel b : ℕ) (slots : Slots) (p : Packet)
    → slots (b % queue_size) ≡ some p
    → (b + 1) % seq_mod ≡ b + 1
    → drain fuel (assign slots (b % queue_size) none) (b + 1) ≡ none
    → drain (suc fuel) slots b ≡ none
unfolding drain
drain-fails fuel b slots p e next d = elim (Bool-cases (b == no_seq_number)) [
  | inl m ↦ rw (m, drain) refl
  | inr m ↦ rw (m, e, next, d, drain) refl
]

-- The counter is the greatest number, or may come to it: the number before it is stored.
abbrev pub AtLimit : ℕ → Slots → Type 0
AtLimit b slots =
    (b ≡ no_seq_number)
    ⊎ ((i : ℕ) × (p : Packet) × (slots i ≡ some p) × (get_seq_number p + 1 ≡ no_seq_number))

-- The loop ends, or its assertion fails.
abbrev pub Drains : ℕ → ℕ → Slots → Type 0
Drains fuel b slots =
    ((packets : List Packet) × (slots' : Slots) × (b' : ℕ) × (drain fuel slots b
        ≡ some (packets, slots', b'))
      × Drained slots b packets slots' b')
    ⊎ ((drain fuel slots b ≡ none) × AtLimit b slots)

-- With more fuel than the window `[b, limit)` is wide, the loop ends by itself.
pub drain-Drained :
    (fuel b limit : ℕ) (slots : Slots)
    → AllLie b slots
    → b ≤ no_seq_number
    → ((i : ℕ) (p : Packet) → slots i ≡ some p → get_seq_number p < limit)
    → b ≤ limit
    → limit < b + fuel
    → Drains fuel b slots
unfolding drain
drain-Drained zero b limit slots v small lim lo h = absurd (omega arith)
drain-Drained (suc fuel) b limit slots v small lim lo h = elim (Bool-cases (b == no_seq_number)) [
  | inl m ↦ inr (rw (m, drain) refl, inl (ground arith))
  | inr m ↦ elim (Option-cases (slots (b % queue_size))) [
    | inl e ↦ inl (
      [],
      slots,
      b,
      drain-none fuel b slots m e,
      record {
        numbers = refl;
        moved = omega arith;
        bounded = ground arith;
        stops = e;
        lie = v;
        kept = λ i p s _. s;
        old = λ i p s. s;
      },
    )
    | inr (p, e) ↦
        let (n, u) = first-number b slots p v e in
        let slots₁ = assign slots (b % queue_size) none in
        let pl = lim (b % queue_size) p e in
        let next : (b + 1) % seq_mod ≡ b + 1 = omega arith in
        let more =
          drain-Drained fuel (b + 1) limit slots₁ (clear-AllLie b slots v) (omega arith)
            (λ i q s. lim i q (clear-old slots (b % queue_size) i q s)) (omega arith)
            (omega arith) in
        elim more [
          | inr (d, inl top) ↦
              inr (drain-fails fuel b slots p e next d, inr (b % queue_size, p, e, omega arith))
          | inr (d, inr (i, q, s, top)) ↦ inr (
            drain-fails fuel b slots p e next d,
            inr (i, q, clear-old slots (b % queue_size) i q s, top),
          )
          | inl (ps, slots', b', d, r) ↦ inl (
            p ∷ ps,
            slots',
            b',
            drain-some fuel b slots p m e next d,
            record {
              numbers = ap₂ ◌∷◌ n r.numbers;
              moved = omega (arith, r.moved);
              bounded = r.bounded;
              stops = r.stops;
              lie = r.lie;
              kept = λ i q s above.
                  r.kept i q (clear-kept b slots i q v s (omega (arith, r.moved))) above;
              old = λ i q s. clear-old slots (b % queue_size) i q (r.old i q s);
            },
          )
        ]
  ]
]

-- What ProccessUnorderedPackets makes of a queue when it returns.
abbrev pub Processed : RecvQueue → Type 0
Processed q =
    (packets : List Packet) × (q' : RecvQueue) × (process_unordered_packets q ≡ some q')
    × IsValid q'
    × (q'.data_list ≡ q.data_list ++ packets)
    × Drained q.queue q.begin_full_received_ack packets q'.queue q'.begin_full_received_ack

-- Putting packets in order ends, or the assertion that the counter is not the greatest number fails;
-- this only when the counter is at that number, or a packet with the number before it is stored. When
-- it ends it keeps the invariant: exactly the packets that the loop drained go to the reader, behind
-- those that wait there.
pub process-IsValid :
    (q : RecvQueue)
    → IsValid q
    → Processed q
      ⊎ ((process_unordered_packets q ≡ none) × AtLimit q.begin_full_received_ack q.queue)
unfolding process_unordered_packets
process-IsValid q v = finish (
    drain-Drained (suc queue_size) q.begin_full_received_ack
      (q.begin_full_received_ack + queue_size) q.queue v.lie v.bounded
      (λ i p s. (v.lie i p s).below) (omega arith) (omega arith))
  where
    finish :
        Drains (suc queue_size) q.begin_full_received_ack q.queue
        → Processed q
          ⊎ ((process_unordered_packets q ≡ none) × AtLimit q.begin_full_received_ack q.queue)
    finish (inr (e, top)) = inr (rw (e, process_unordered_packets) refl, top)
    finish (inl (packets, slots', b', e, r)) = inl (
      packets,
      record q { queue = slots'; data_list = q.data_list ++ packets; begin_full_received_ack = b' },
      rw (e, process_unordered_packets) refl,
      record {
        positive = omega (arith, v.positive, r.moved);
        bounded = omega (arith, r.bounded);
        lie = r.lie;
      },
      refl,
      r,
    )

-- The counter is below the greatest number, and every stored number below the one before it.
pub record Fits (q : RecvQueue) : Type 0 where
  pub begin : q.begin_full_received_ack < no_seq_number
  pub numbers : (i : ℕ) (p : Packet) → q.queue i ≡ some p → get_seq_number p + 1 < no_seq_number

pub new_queue-Fits : Fits new_queue
unfolding new_queue
new_queue-Fits = record { begin = omega arith; numbers = λ i p e. cc }

pub add_packet-Fits :
    (q : RecvQueue) (packet : Packet)
    → Fits q
    → get_seq_number packet + 1 < no_seq_number
    → Fits (after q (add_packet q packet))
add_packet-Fits q packet v small = by_case (add_packet-Added q packet)
  where
    by_case :
        {r : Result (RecvQueueStatus × Option Packet × RecvQueue)}
        → Added q packet r
        → Fits (after q r)
    by_case (refused e) = v
    by_case (late l) = record { begin = v.begin; numbers = v.numbers }
    by_case (ahead l) = v
    by_case (twice p s a b) = record { begin = v.begin; numbers = v.numbers }
    by_case (stored s a b n) = record {
      begin = v.begin;
      numbers = λ i p e. elim (Bool-cases (get_seq_number packet % queue_size == i)) [
        | inl hit ↦
            let eq : some packet ≡ some p = rw hit at e in
            let same : packet ≡ p = cc in
            subst (λ x. get_seq_number x + 1 < no_seq_number) same small
        | inr miss ↦ v.numbers i p (rw miss at e)
      ];
    }

-- Below the greatest numbers the assertion holds.
pub process-Fits : (q : RecvQueue) → IsValid q → Fits q → Processed q
process-Fits q v f = elim (process-IsValid q v) [
  | inl r ↦ r
  | inr (e, inl top) ↦ absurd (omega (arith, f.begin, top))
  | inr (e, inr (i, p, s, top)) ↦ absurd (omega (arith, f.numbers i p s, top))
]
