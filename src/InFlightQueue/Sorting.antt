-- ===== src/InFlightQueue/Sorting.antt =====
-- What AddQueue does with the packets that have been sent.
use mathlib.Core.List.{append-nil, append_assoc, Perm, perm_middle, perm_append_comm}
use mathlib.Core.List.Perm
use multi_threaded_socket.Common.{
  ℕ, ◌≡◌, ◌≢◌, refl, sym, subst, ap, ◌∙◌, inl, inr, true, none, some, List, [], ◌∷◌, ◌++◌, arith,
  ◌==◌, Bool-cases, ◌&&◌, if◌then◌else◌, length, take,
}
use multi_threaded_socket.Packet.{Packet}
use multi_threaded_socket.SendQueue.{OutgoingPacket, number}
use multi_threaded_socket.Sample.{Sample, Entries, find, packets_of, new_sample}
use multi_threaded_socket.Sample.Held.{packets_out}
use multi_threaded_socket.InFlightQueue.{
  InFlightQueue, Sorted, put, contains, remove, sort_packet, sort_packets, add_queue,
}
use multi_threaded_socket.InFlightQueue.Conservation.{held, held_by}

-- No packet that wants an acknowledgement has the number n.
abbrev pub Absent : ℕ → List OutgoingPacket → Type 0
Absent n [] = Unit {0}
Absent n (o ∷ os) = (o.need_ack ≡ true → number o ≢ n) × Absent n os

-- The packets that want an acknowledgement have distinct numbers.
abbrev pub DistinctNumbers : List OutgoingPacket → Type 0
DistinctNumbers [] = Unit {0}
DistinctNumbers (o ∷ os) = (o.need_ack ≡ true → Absent (number o) os) × DistinctNumbers os

-- None of them is in the map yet.
abbrev Unheld : Entries → List OutgoingPacket → Type 0
Unheld es [] = Unit {0}
Unheld es (o ∷ os) = (o.need_ack ≡ true → find (number o) es ≡ none) × Unheld es os

find-put :
    (a n : ℕ) (o : OutgoingPacket) (es : Entries)
    → a ≢ n
    → find a es ≡ none
    → find a (put n o es) ≡ none
unfolding find put
find-put a n o [] ne e = ground arith
find-put a n o ((k, x) ∷ es) ne e = ground (arith, find-put a n o es ne)

put-perm :
    (n : ℕ) (o : OutgoingPacket) (es : Entries)
    → find n es ≡ none
    → Perm (packets_of (put n o es)) (o.packet ∷ packets_of es)
unfolding find put
put-perm n o [] e = Perm.refl (o.packet ∷ [])
put-perm n o ((k, x) ∷ es) e = elim (Bool-cases (k == n)) [
  | inl hit ↦ let bad : some x ≡ none = rw hit at e in cc
  | inr miss ↦
      let rest : find n es ≡ none = rw miss at e in
      rw miss (
        Perm.trans (Perm.cons x.packet (put-perm n o es rest))
          (Perm.swap o.packet x.packet (packets_of es)))
]

Unheld-put :
    (n : ℕ) (o : OutgoingPacket) (es : Entries) (os : List OutgoingPacket)
    → Absent n os
    → Unheld es os
    → Unheld (put n o es) os
Unheld-put n o es [] a u = tt
Unheld-put n o es (x ∷ os) a u =
    (λ need. find-put (number x) n o es (a.0 need) (u.0 need), Unheld-put n o es os a.1 u.1)

-- The packets of a state of the loop.
abbrev pub sorted_packets : Sorted → List Packet
sorted_packets s = s.free_internal ++ s.free_user ++ packets_of s.queue

sort_packet-perm :
    (s : Sorted) (o : OutgoingPacket)
    → (o.need_ack ≡ true → find (number o) s.queue ≡ none)
    → Perm (sorted_packets (sort_packet s o)) (o.packet ∷ sorted_packets s)
unfolding sort_packet
sort_packet-perm s o fresh = elim (Bool-cases o.need_ack) [
  | inr e ↦
      rw
        (
          e,
          append_assoc s.free_internal (o.packet ∷ []) s.free_user,
          append_assoc s.free_internal (o.packet ∷ s.free_user) (packets_of s.queue),
          append_assoc s.free_internal s.free_user (packets_of s.queue),
        )
        (perm_middle s.free_internal (s.free_user ++ packets_of s.queue))
  | inl e ↦ elim (Bool-cases (contains (number o) s.acks)) [
    | inl c ↦
        rw
          (
            e,
            c,
            ← append_assoc s.free_internal s.free_user (o.packet ∷ []),
            append_assoc (s.free_internal ++ s.free_user) (o.packet ∷ []) (packets_of s.queue),
          )
          (perm_middle (s.free_internal ++ s.free_user) (packets_of s.queue))
    | inr c ↦
        simp (e, c)
          (Perm.trans
            (Perm.append (Perm.refl (s.free_internal ++ s.free_user))
              (put-perm (number o) o s.queue (fresh e)))
            (perm_middle (s.free_internal ++ s.free_user) (packets_of s.queue)))
  ]
]

sort_packet-Unheld :
    (s : Sorted) (o : OutgoingPacket) (os : List OutgoingPacket)
    → (o.need_ack ≡ true → Absent (number o) os)
    → Unheld s.queue os
    → Unheld (sort_packet s o).queue os
unfolding sort_packet
sort_packet-Unheld s o os a u = elim (Bool-cases o.need_ack) [
  | inr e ↦ rw e u
  | inl e ↦ elim (Bool-cases (contains (number o) s.acks)) [
    | inl c ↦ rw (e, c) u
    | inr c ↦ simp (e, c) (Unheld-put (number o) o s.queue os (a e) u)
  ]
]

sort_packets-perm :
    (packets : List OutgoingPacket) (s : Sorted)
    → DistinctNumbers packets
    → Unheld s.queue packets
    → Perm (sorted_packets (sort_packets s packets)) (packets_out packets ++ sorted_packets s)
unfolding sort_packets
sort_packets-perm [] s d u = Perm.refl (sorted_packets s)
sort_packets-perm (o ∷ packets) s d u =
    Perm.trans
      (sort_packets-perm packets (sort_packet s o) d.1 (sort_packet-Unheld s o packets d.0 u.1))
      (Perm.trans (Perm.append (Perm.refl (packets_out packets)) (sort_packet-perm s o u.0))
        (perm_middle (packets_out packets) (sorted_packets s)))

Unheld-nil : (os : List OutgoingPacket) → Unheld [] os
unfolding find
Unheld-nil [] = tt
Unheld-nil (o ∷ os) = (λ need. refl, Unheld-nil os)

held_by-append : (a b : List Sample) → held_by (a ++ b) ≡ held_by a ++ held_by b
held_by-append [] b = refl
held_by-append (s ∷ a) b =
    ap (◌++◌ (packets_of s.packets)) (held_by-append a b)
    ∙ sym (append_assoc (packets_of s.packets) (held_by a) (held_by b))

-- The packets that want no acknowledgement.
abbrev pub services : List OutgoingPacket → List Packet
services [] = []
services (o ∷ os) = if o.need_ack then services os else o.packet ∷ services os

-- The packets that want an acknowledgement which has come already.
abbrev pub answered : List ℕ → List OutgoingPacket → List Packet
answered acks [] = []
answered acks (o ∷ os) =
    if o.need_ack && contains (number o) acks then o.packet ∷ answered acks os else answered acks os

contains-remove : (m n : ℕ) (acks : List ℕ) → m ≢ n → contains m (remove n acks) ≡ contains m acks
unfolding contains remove
contains-remove m n [] ne = refl
contains-remove m n (a ∷ acks) ne = ground (arith, contains-remove m n acks ne)

answered-remove :
    (n : ℕ) (acks : List ℕ) (os : List OutgoingPacket)
    → Absent n os
    → answered (remove n acks) os ≡ answered acks os
answered-remove n acks [] a = refl
answered-remove n acks (o ∷ os) a =
    let rest = answered-remove n acks os a.1 in
    elim (Bool-cases o.need_ack) [
      | inr e ↦ rw e rest
      | inl e ↦ rw (e, contains-remove (number o) n acks (a.0 e), rest) refl
    ]

sort_packets-services :
    (packets : List OutgoingPacket) (s : Sorted)
    → (sort_packets s packets).free_internal ≡ s.free_internal ++ services packets
unfolding sort_packets sort_packet
sort_packets-services [] s = sym (append-nil s.free_internal)
sort_packets-services (o ∷ packets) s =
    let rest = sort_packets-services packets (sort_packet s o) in
    elim (Bool-cases o.need_ack) [
      | inr e ↦ rest ∙ rw e (append_assoc s.free_internal (o.packet ∷ []) (services packets))
      | inl e ↦ elim (Bool-cases (contains (number o) s.acks)) [
        | inl c ↦ rest ∙ rw (e, c) refl
        | inr c ↦ rest ∙ rw (e, c) refl
      ]
    ]

sort_packets-answered :
    (packets : List OutgoingPacket) (s : Sorted)
    → DistinctNumbers packets
    → (sort_packets s packets).free_user ≡ s.free_user ++ answered s.acks packets
unfolding sort_packets sort_packet
sort_packets-answered [] s d = sym (append-nil s.free_user)
sort_packets-answered (o ∷ packets) s d =
    let rest = sort_packets-answered packets (sort_packet s o) d.1 in
    elim (Bool-cases o.need_ack) [
      | inr e ↦ rest ∙ rw e refl
      | inl e ↦ elim (Bool-cases (contains (number o) s.acks)) [
        | inl c ↦
            rest
            ∙ rw (e, c, answered-remove (number o) s.acks packets (d.0 e))
                (append_assoc s.free_user (o.packet ∷ []) (answered s.acks packets))
        | inr c ↦ rest ∙ rw (e, c) refl
      ]
    ]

take_front : (xs ys : List Sample) → take (length xs) (xs ++ ys) ≡ xs
take_front [] ys = refl
take_front (x ∷ xs) ys = ap (◌∷◌ x) (take_front xs ys)

-- Of the packets that were sent, each goes to one of three places, if the numbers of those that want
-- an acknowledgement are distinct: those that want none back to the connection's own packets, those
-- whose acknowledgement has come already back to the user's, and all others into flight. The samples
-- that were in flight before stay as they are.
pub add_queue-conserves :
    (q : InFlightQueue) (packets : List OutgoingPacket) (now : ℕ)
    → DistinctNumbers packets
    → let (free_internal, free_user, q') = add_queue q packets now in
      (free_internal ≡ services packets)
      × (free_user ≡ answered q.received_acks packets)
      × (take (length q.samples) q'.samples ≡ q.samples)
      × Perm (free_internal ++ free_user ++ held q') (packets_out packets ++ held q)
unfolding add_queue new_sample
add_queue-conserves q packets now d =
    let s₀ : Sorted = record {
      queue = [];
      acks = q.received_acks;
      free_internal = [];
      free_user = [];
      service = 0;
      double = 0;
    } in
    let s = sort_packets s₀ packets in
    let p : Perm (sorted_packets s) (packets_out packets) =
      subst (Perm (sorted_packets s)) (append-nil (packets_out packets))
        (sort_packets-perm packets s₀ d (Unheld-nil packets)) in
    (
      sort_packets-services packets s₀,
      sort_packets-answered packets s₀ d,
      take_front q.samples _,
      rw (held_by-append, append-nil)
          (Perm.trans
            (Perm.append (Perm.refl (s.free_internal ++ s.free_user))
              (perm_append_comm (held q) (packets_of s.queue)))
            (rw (← append_assoc (s.free_internal ++ s.free_user) (packets_of s.queue) (held q))
              (Perm.append p (Perm.refl (held q))))),
    )
