-- ===== src/ConnectionState/Acks.antt =====
-- The loop of DataState::SendPackets that acknowledges what was received.
use mathlib.Core.List.{append_assoc, append-nil}
use multi_threaded_socket.Common.{
  ℕ, zero, suc, ◌≤◌, ◌<◌, ◌≡◌, refl, sym, ◌∙◌, ap, ap₂, true, false, none, some, List, [], ◌∷◌,
  ◌++◌, length, length-append, arith, leb, if◌then◌else◌, Bool-cases, Option-cases, ◌⊎◌, inl, inr,
  split_last, split_last-none,
}
use multi_threaded_socket.Packet.{Packet, set_magic, set_seq_number}
use multi_threaded_socket.Packet.Types.{no_seq_number, max_acks_size}
use multi_threaded_socket.SendQueue.{OutgoingPacket, outgoing, send_packets}
use multi_threaded_socket.Connection.{Connection, get_free_send_packet, send_service_packets}
use multi_threaded_socket.ConnectionState.{fill_acks, send_acks, sack_packet}
use multi_threaded_socket.ConnectionState.Frame.{
  Kept, Kept-trans, get_free_send_packet-Kept, send_service_packets-Kept,
}

-- The acknowledgements that are worth sending: those not below the last one.
abbrev pub fresh : ℕ → List ℕ → List ℕ
fresh last_ack [] = []
fresh last_ack (a ∷ acks) = if leb last_ack a then a ∷ fresh last_ack acks else fresh last_ack acks

fresh-append :
    (last_ack : ℕ) (xs ys : List ℕ)
    → fresh last_ack (xs ++ ys) ≡ fresh last_ack xs ++ fresh last_ack ys
fresh-append last_ack [] ys = refl
fresh-append last_ack (a ∷ xs) ys = elim (Bool-cases (leb last_ack a)) [
  | inl e ↦ rw e (ap (◌∷◌ a) (fresh-append last_ack xs ys))
  | inr e ↦ rw e (fresh-append last_ack xs ys)
]

-- What one packet takes: the fresh ones of a prefix, which ends with the list or the room.
pub record Filled (room last_ack : ℕ) (acks taken rest : List ℕ) : Type 0 where
  pub used : List ℕ
  pub split : acks ≡ used ++ rest
  pub fresh_ones : taken ≡ fresh last_ack used
  pub fits : length taken ≤ room
  pub shorter : 1 ≤ room → 1 ≤ length acks → length rest < length acks

pub fill_acks-Filled :
    (room last_ack : ℕ) (acks : List ℕ)
    → Filled room last_ack acks (fill_acks room last_ack acks).0 (fill_acks room last_ack acks).1
unfolding fill_acks
fill_acks-Filled room last_ack [] = record {
  used = [];
  split = refl;
  fresh_ones = refl;
  fits = omega arith;
  shorter = λ r h. absurd (omega arith);
}
fill_acks-Filled zero last_ack (a ∷ acks) = record {
  used = [];
  split = refl;
  fresh_ones = refl;
  fits = omega arith;
  shorter = λ r h. absurd (omega arith);
}
fill_acks-Filled (suc room) last_ack (a ∷ acks) = elim (Bool-cases (leb last_ack a)) [
  | inl e ↦ rw (e, fill_acks) (more e (fill_acks-Filled room last_ack acks))
  | inr e ↦ rw (e, fill_acks) (skipped e (fill_acks-Filled (suc room) last_ack acks))
]
  where
    less : (rest used : List ℕ) → acks ≡ used ++ rest → length rest < suc (length acks)
    less rest used e = omega (arith, ap length e, length-append used rest)

    more :
        {taken rest : List ℕ}
        → leb last_ack a ≡ true
        → Filled room last_ack acks taken rest
        → Filled (suc room) last_ack (a ∷ acks) (a ∷ taken) rest
    more e f = record {
      used = a ∷ f.used;
      split = ap (◌∷◌ a) f.split;
      fresh_ones = rw e (ap (◌∷◌ a) f.fresh_ones);
      fits = omega (arith, f.fits);
      shorter = λ r h. less _ f.used f.split;
    }

    skipped :
        {taken rest : List ℕ}
        → leb last_ack a ≡ false
        → Filled (suc room) last_ack acks taken rest
        → Filled (suc room) last_ack (a ∷ acks) taken rest
    skipped e f = record {
      used = a ∷ f.used;
      split = ap (◌∷◌ a) f.split;
      fresh_ones = rw e f.fresh_ones;
      fits = f.fits;
      shorter = λ r h. less _ f.used f.split;
    }

abbrev pub concat : List (Packet × List ℕ) → List ℕ
concat [] = []
concat ((packet, acks) ∷ sent) = acks ++ concat sent

-- What lies in the send queue for the packets and acknowledgements sent.
abbrev pub sacks : Connection → List (Packet × List ℕ) → List OutgoingPacket
sacks c [] = []
sacks c ((packet, acks) ∷ sent) =
    outgoing (set_seq_number (set_magic (sack_packet c packet acks)) no_seq_number) false
    ∷ sacks c sent

abbrev pub AllFit : List (Packet × List ℕ) → Type 0
AllFit [] = Unit {0}
AllFit ((packet, acks) ∷ sent) = (length acks ≤ max_acks_size) × AllFit sent

-- What the loop does to a connection: the Sack packets that it queues, each with what it holds, and
-- the acknowledgements used and dropped.
pub record Acknowledged (c : Connection) (last_ack : ℕ) (acks : List ℕ) (c' : Connection)
    : Type 0 where
  pub sent : List (Packet × List ℕ)
  pub used : List ℕ
  pub dropped : List ℕ
  pub split : acks ≡ used ++ dropped
  pub contents : concat sent ≡ fresh last_ack used
  pub sizes : AllFit sent
  pub queued :
      c'.send_queue.service_need_to_send ≡ c.send_queue.service_need_to_send ++ sacks c sent
  pub ends : (dropped ≡ []) ⊎ (c'.free_internal_send_packets ≡ [])

sacks-Kept :
    {c c' : Connection} (sent : List (Packet × List ℕ)) → Kept c c' → sacks c' sent ≡ sacks c sent
sacks-Kept [] k = refl
sacks-Kept ((packet, acks) ∷ sent) k = rw (k.key, k.destination, k.queue, sacks-Kept sent k) refl

pub service_queue :
    (c : Connection) (p : Packet)
    → (send_service_packets c (p ∷ [])).send_queue.service_need_to_send
      ≡ c.send_queue.service_need_to_send
        ++ outgoing (set_seq_number (set_magic p) no_seq_number) false ∷ []
unfolding send_service_packets send_packets
service_queue c p = refl

pub free_queue : (c : Connection) → (get_free_send_packet c).1.send_queue ≡ c.send_queue
unfolding get_free_send_packet
free_queue c = elim (Option-cases (split_last c.free_internal_send_packets)) [
  | inl e ↦ rw (e, get_free_send_packet) refl
  | inr (p, e) ↦ rw (e, get_free_send_packet) refl
]

sack_queue :
    (c : Connection) (packet : Packet) (acks : List ℕ)
    → (send_service_packets
        (get_free_send_packet c).1
        (sack_packet c packet acks ∷ [])).send_queue.service_need_to_send
      ≡ c.send_queue.service_need_to_send ++ sacks c ((packet, acks) ∷ [])
sack_queue c packet acks =
    service_queue (get_free_send_packet c).1 (sack_packet c packet acks)
    ∙ ap (λ q. q.service_need_to_send ++ sacks c ((packet, acks) ∷ [])) (free_queue c)

none_free :
    (c : Connection)
    → (get_free_send_packet c).0 ≡ none
    → (get_free_send_packet c).1.free_internal_send_packets ≡ []
unfolding get_free_send_packet
none_free c h = elim (Option-cases (split_last c.free_internal_send_packets)) [
  | inl e ↦ rw (e, get_free_send_packet) (split_last-none c.free_internal_send_packets e)
  | inr (p, e) ↦ let eq : some p.1 ≡ none = rw (e, get_free_send_packet) at h in cc
]

-- Nothing more is sent.
stopped :
    {c c' : Connection} {last_ack : ℕ} (acks : List ℕ)
    → c'.send_queue ≡ c.send_queue
    → (acks ≡ []) ⊎ (c'.free_internal_send_packets ≡ [])
    → Acknowledged c last_ack acks c'
stopped {c} acks queue why = record {
  sent = [];
  used = [];
  dropped = acks;
  split = refl;
  contents = refl;
  sizes = tt;
  queued =
      ap (λ q. q.service_need_to_send) queue ∙ sym (append-nil c.send_queue.service_need_to_send);
  ends = why;
}

-- One packet more is sent before the rest.
one_more :
    {c c₁ c' : Connection} {last_ack : ℕ} {acks taken rest : List ℕ} (packet : Packet)
    → Kept c c₁
    → c₁.send_queue.service_need_to_send
      ≡ c.send_queue.service_need_to_send ++ sacks c ((packet, taken) ∷ [])
    → Filled max_acks_size last_ack acks taken rest
    → Acknowledged c₁ last_ack rest c'
    → Acknowledged c last_ack acks c'
one_more {c} {last_ack = last_ack} {taken = taken} packet k queue f r = record {
  sent = (packet, taken) ∷ r.sent;
  used = f.used ++ r.used;
  dropped = r.dropped;
  split = f.split ∙ ap (f.used ++◌) r.split ∙ sym (append_assoc f.used r.used r.dropped);
  contents =
      ap₂ (λ a b. a ++ b) f.fresh_ones r.contents ∙ sym (fresh-append last_ack f.used r.used);
  sizes = (f.fits, r.sizes);
  queued =
      r.queued
      ∙ ap₂ (λ a b. a ++ b) queue (sacks-Kept r.sent k)
      ∙ append_assoc c.send_queue.service_need_to_send (sacks c ((packet, taken) ∷ []))
          (sacks c r.sent);
  ends = r.ends;
}

-- The loop uses the acknowledgements in their order, up to the last one or until no free packet is
-- left; only then it drops the rest. The ones that are not below the last acknowledgement go, in their
-- order, into the Sack packets that it puts behind the service packets to be sent, at most
-- `max_acks_size` into each.
pub send_acks_lem :
    (fuel last_ack : ℕ) (acks : List ℕ) (c : Connection)
    → length acks ≤ fuel
    → Acknowledged c last_ack acks (send_acks fuel last_ack acks c)
unfolding send_acks
send_acks_lem zero last_ack [] c enough = stopped [] refl (inl refl)
send_acks_lem zero last_ack (a ∷ acks) c enough = absurd (omega arith)
send_acks_lem (suc fuel) last_ack [] c enough = stopped [] refl (inl refl)
send_acks_lem (suc fuel) last_ack (a ∷ acks) c enough =
    elim (Option-cases (get_free_send_packet c).0) [
      | inl e ↦ rw (e, send_acks) (stopped (a ∷ acks) (free_queue c) (inr (none_free c e)))
      | inr (packet, e) ↦
          let f = fill_acks-Filled max_acks_size last_ack (a ∷ acks) in
          rw (e, send_acks)
            (one_more packet
              (Kept-trans (get_free_send_packet-Kept c) (send_service_packets-Kept _ _))
              (sack_queue c packet _) f
              (send_acks_lem fuel last_ack _ _
                (omega (arith, f.shorter (omega arith) (omega arith)))))
    ]
