-- ===== src/Sample/Held.antt =====
-- No operation of a sample loses a packet or hands one out twice.
use mathlib.Core.List.{append_assoc, Perm, perm_middle}
use mathlib.Core.List.Perm
use multi_threaded_socket.Common.{
  ℕ, ◌-◌, ◌≡◌, inl, inr, true, some, List, [], ◌∷◌, ◌++◌, ltb, leb, ◌==◌, Bool-cases, Option-cases,
}
use multi_threaded_socket.Packet.{Packet}
use multi_threaded_socket.SendQueue.{OutgoingPacket}
use multi_threaded_socket.Stats.{TimeRangedStats, add_packet}
use multi_threaded_socket.Sample.{
  Entries, Sample, find, erase, acknowledged, free_acked, free_selected, process_acks, expire,
  check_timeouts, packets_of,
}

abbrev pub packets_out : List OutgoingPacket → List Packet
packets_out [] = []
packets_out (o ∷ os) = o.packet ∷ packets_out os

free_acked-perm :
    (es : Entries) (stats : TimeRangedStats) (last now : ℕ)
    → let (freed, kept, _) = free_acked es stats last now in
      Perm (freed ++ packets_of kept) (packets_of es)
unfolding free_acked
free_acked-perm [] stats last now = Perm.refl []
free_acked-perm ((k, o) ∷ es) stats last now = elim (Bool-cases (leb k last)) [
  | inl e ↦ rw e (Perm.cons o.packet (free_acked-perm es (acknowledged stats o now) last now))
  | inr e ↦
      rw e (Perm.trans (perm_middle _ _) (Perm.cons o.packet (free_acked-perm es stats last now)))
]

erase-perm :
    (n : ℕ) (es : Entries) (o : OutgoingPacket)
    → find n es ≡ some o
    → Perm (o.packet ∷ packets_of (erase n es)) (packets_of es)
unfolding find erase
erase-perm n [] o e = cc
erase-perm n ((k, x) ∷ es) o e = elim (Bool-cases (k == n)) [
  | inl hit ↦
      let found : some x ≡ some o = rw hit at e in
      let same : x ≡ o = cc in rw (hit, same) (Perm.refl (o.packet ∷ packets_of es))
  | inr miss ↦
      let found : find n es ≡ some o = rw miss at e in
      rw miss
        (Perm.trans (Perm.swap x.packet o.packet _) (Perm.cons x.packet (erase-perm n es o found)))
]

free_selected-perm :
    (acks : List ℕ) (es : Entries) (stats : TimeRangedStats) (last now : ℕ)
    → let (_, freed, kept, _) = free_selected acks es stats last now in
      Perm (freed ++ packets_of kept) (packets_of es)
unfolding free_selected
free_selected-perm [] es stats last now = Perm.refl (packets_of es)
free_selected-perm (ack ∷ acks) es stats last now = elim (Bool-cases (leb ack last)) [
  | inl e ↦ rw e (free_selected-perm acks es stats last now)
  | inr e ↦ elim (Option-cases (find ack es)) [
    | inl n ↦ rw (e, n) (free_selected-perm acks es stats last now)
    | inr (o, f) ↦
        rw (e, f)
          (Perm.trans
            (Perm.cons o.packet
              (free_selected-perm acks (erase ack es) (acknowledged stats o now) last now))
            (erase-perm ack es o f))
  ]
]

-- The packets that acknowledgements free and those that stay are together those that were there.
pub process_acks-perm :
    (s : Sample) (acks : List ℕ) (last now : ℕ)
    → let (freed, _, s') = process_acks s acks last now in
      Perm (freed ++ packets_of s'.packets) (packets_of s.packets)
unfolding process_acks
process_acks-perm s acks last now =
    let (freed, kept, stats) = free_acked s.packets s.time_ranged_stats last now in
    let (_, freed', kept', _) = free_selected acks kept stats last now in
    rw (append_assoc freed freed' (packets_of kept')) (
      Perm.trans (Perm.append (Perm.refl freed) (free_selected-perm acks kept stats last now))
        (free_acked-perm s.packets s.time_ranged_stats last now))

expire-perm :
    (es : Entries) (stats : TimeRangedStats) (timeout now : ℕ)
    → let (lost, kept, _) = expire es stats timeout now in
      Perm (packets_out lost ++ packets_of kept) (packets_of es)
unfolding expire
expire-perm [] stats timeout now = Perm.refl []
expire-perm ((k, o) ∷ es) stats timeout now = elim (Bool-cases (ltb timeout (now - o.send_time))) [
  | inl e ↦
      rw e (Perm.cons o.packet (expire-perm es (add_packet stats true o.send_time 0) timeout now))
  | inr e ↦
      rw e (Perm.trans (perm_middle _ _) (Perm.cons o.packet (expire-perm es stats timeout now)))
]

-- The packets that have timed out and those that stay are together those that were there.
pub check_timeouts-perm :
    (s : Sample) (timeout now : ℕ)
    → let (lost, s') = check_timeouts s timeout now in
      Perm (packets_out lost ++ packets_of s'.packets) (packets_of s.packets)
unfolding check_timeouts
check_timeouts-perm s timeout now = expire-perm s.packets s.time_ranged_stats timeout now
