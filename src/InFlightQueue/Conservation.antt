-- ===== src/InFlightQueue/Conservation.antt =====
-- The packets in flight are conserved: each packet that is handed to the queue is held by it or has
-- been handed out again, exactly once.
use mathlib.Core.List.{append_assoc, Perm, perm_append_comm}
use mathlib.Core.List.Perm
use multi_threaded_socket.Common.{
  ℕ, ◌≡◌, refl, ap, inl, inr, true, List, [], ◌∷◌, ◌++◌, arith, Bool-cases,
}
use multi_threaded_socket.Packet.{Packet}
use multi_threaded_socket.SendQueue.{OutgoingPacket}
use multi_threaded_socket.Stats.{SpeedController, update_speed_stats, get_timeout}
use multi_threaded_socket.Sample.{
  Sample, Entries, find, packets_of, is_dead, new_sample, free_packets,
}
use multi_threaded_socket.Sample
use multi_threaded_socket.Sample.Held.{packets_out, process_acks-perm, check_timeouts-perm}
use multi_threaded_socket.InFlightQueue.{
  InFlightQueue, process_samples, process_acks, timeout_samples, bury, check_timeouts, free_samples,
  get_all_packets,
}

-- The packets that the samples hold.
abbrev pub held_by : List Sample → List Packet
held_by [] = []
held_by (s ∷ samples) = packets_of s.packets ++ held_by samples

abbrev pub held : InFlightQueue → List Packet
held q = held_by q.samples

regroup_perm :
    (a b c d x y : List Packet)
    → Perm (a ++ c) x
    → Perm (b ++ d) y
    → Perm ((a ++ b) ++ (c ++ d)) (x ++ y)
regroup_perm a b c d x y p q = Perm.trans (swap_middle a b c d) (Perm.append p q)
  where
    swap_middle : (a b c d : List Packet) → Perm ((a ++ b) ++ (c ++ d)) ((a ++ c) ++ (b ++ d))
    swap_middle a b c d =
        rw
          (
            append_assoc a b (c ++ d),
            append_assoc a c (b ++ d),
            ← append_assoc b c d,
            ← append_assoc c b d,
          )
          (Perm.append (Perm.refl a) (Perm.append (perm_append_comm b c) (Perm.refl d)))

process_samples-perm :
    (samples : List Sample) (acks : List ℕ) (last now : ℕ)
    → let (freed, _, samples') = process_samples samples acks last now in
      Perm (freed ++ held_by samples') (held_by samples)
unfolding process_samples
process_samples-perm [] acks last now = Perm.refl []
process_samples-perm (s ∷ samples) acks last now =
    let (freed, acks₁, s') = Sample.process_acks s acks last now in
    let (freed', _, samples') = process_samples samples acks₁ last now in
    regroup_perm freed freed' (packets_of s'.packets) (held_by samples') (packets_of s.packets)
      (held_by samples) (process_acks-perm s acks last now)
      (process_samples-perm samples acks₁ last now)

-- ProcessAcks frees packets that were held, and holds the others.
pub process_acks-conserves :
    (q : InFlightQueue) (now : ℕ)
    → let (freed, q') = process_acks q now in Perm (freed ++ held q') (held q)
unfolding process_acks
process_acks-conserves q now = process_samples-perm q.samples q.received_acks q.last_ack_number now

packets_out-append :
    (a b : List OutgoingPacket) → packets_out (a ++ b) ≡ packets_out a ++ packets_out b
packets_out-append [] b = refl
packets_out-append (o ∷ a) b = ap (◌∷◌ o.packet) (packets_out-append a b)

timeout_samples-perm :
    (samples : List Sample) (timeout now : ℕ)
    → let (lost, samples') = timeout_samples samples timeout now in
      Perm (packets_out lost ++ held_by samples') (held_by samples)
unfolding timeout_samples
timeout_samples-perm [] timeout now = Perm.refl []
timeout_samples-perm (s ∷ samples) timeout now =
    let (lost, s') = Sample.check_timeouts s timeout now in
    let (lost', samples') = timeout_samples samples timeout now in
    rw (packets_out-append lost lost') (
      regroup_perm (packets_out lost) (packets_out lost') (packets_of s'.packets) (held_by samples')
        (packets_of s.packets) (held_by samples) (check_timeouts-perm s timeout now)
        (timeout_samples-perm samples timeout now))

dead-empty : (s : Sample) → is_dead s ≡ true → packets_of s.packets ≡ []
unfolding is_dead
dead-empty s e = ground arith

held_by-bury :
    (samples : List Sample) (speed : SpeedController)
    → held_by (bury samples speed).0 ≡ held_by samples
unfolding bury
held_by-bury [] speed = refl
held_by-bury (s ∷ samples) speed = elim (Bool-cases (is_dead s)) [
  | inl e ↦
      rw (e, dead-empty s e) (held_by-bury samples (update_speed_stats speed s.time_ranged_stats))
  | inr e ↦ rw e (ap (◌++◌ (packets_of s.packets)) (held_by-bury samples speed))
]

-- CheckTimeouts hands out packets that were held, and holds the others, though it drops samples.
pub check_timeouts-conserves :
    (q : InFlightQueue) (now : ℕ)
    → let (lost, q') = check_timeouts q now in Perm (packets_out lost ++ held q') (held q)
unfolding check_timeouts
check_timeouts-conserves q now =
    let (lost, samples) = timeout_samples q.samples (get_timeout q.speed) now in
    rw (held_by-bury samples q.speed) (timeout_samples-perm q.samples (get_timeout q.speed) now)

-- GetAllPackets hands out everything that was held, and holds nothing after it.
pub get_all_packets_lem :
    (q : InFlightQueue) → let (freed, q') = get_all_packets q in (freed ≡ held q) × (held q' ≡ [])
unfolding get_all_packets free_samples free_packets
get_all_packets_lem q = go q.samples
  where
    go :
        (samples : List Sample)
        → ((free_samples samples).0 ≡ held_by samples) × (held_by (free_samples samples).1 ≡ [])
    go [] = (refl, refl)
    go (s ∷ samples) = (ap (◌++◌ (packets_of s.packets)) (go samples).0, (go samples).1)
