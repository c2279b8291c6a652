-- ===== src/RecvQueue/Order.antt =====
-- What the reader sees over a whole history of calls, from a new queue on.
use mathlib.Core.List.{map-append}
use multi_threaded_socket.Common.{
  ◌∙◌, sym, some-injective, take, drop, take-append-drop, ap₂, zero, suc, ℕ, ◌+◌, ◌%◌, ◌≤◌, ◌<◌,
  ◌≡◌, ◌≢◌, inl, inr, refl, subst, ap, Option, none, some, List, [], ◌∷◌, ◌++◌, map, arith, length,
  length-append, Option-cases, count_up, count_up-append, dec_lt,
}
use multi_threaded_socket.Packet.{Packet, get_seq_number}
use multi_threaded_socket.Packet.Types.{seq_mod, no_seq_number}
use multi_threaded_socket.RecvQueue.{
  RecvQueue, queue_size, Slots, new_queue, add_packet, process_unordered_packets, take_user_data,
  get_selective_acks,
}
use multi_threaded_socket.RecvQueue.Invariant.{
  IsValid, new_queue-IsValid, Added, refused, late, ahead, twice, stored, after, add_packet-Added,
  add_packet-IsValid, process-IsValid, Drained, AllLie, Fits, new_queue-Fits, add_packet-Fits,
  process-Fits,
}

-- What the connection and the reader call.
pub data Call : Type 0 where
  add : Packet → Call
  process take_data take_acks : Call

-- One call: the packets that the reader gets by it, and the new queue. A refused packet leaves the
-- queue alone.
pub step : RecvQueue → Call → Option (List Packet × RecvQueue)
step q (add packet) = some ([], after q (add_packet q packet))
step q process = elim (process_unordered_packets q) [ none ↦ none | some q' ↦ some ([], q') ]
step q take_data = some (take_user_data q)
step q take_acks = some ([], (get_selective_acks q).1)

pub run : RecvQueue → List Call → Option (List Packet × RecvQueue)
run q [] = some ([], q)
run q (c ∷ cs) = elim (step q c) [
  | none ↦ none
  | some (taken, q') ↦ elim (run q' cs) [
    | none ↦ none
    | some (later, q'') ↦ some (taken ++ later, q'')
  ]
]

-- Packet numbers are below 2^32 - 2.
abbrev pub AreSmall : List Call → Type 0
AreSmall [] = Unit {0}
AreSmall (add packet ∷ cs) = (get_seq_number packet + 1 < no_seq_number) × AreSmall cs
AreSmall (process ∷ cs) = AreSmall cs
AreSmall (take_data ∷ cs) = AreSmall cs
AreSmall (take_acks ∷ cs) = AreSmall cs

-- `n` packets have been delivered, of which the last ones still wait in the queue.
pub record Delivered (q : RecvQueue) (start : ℕ) : Type 0 where
  pub valid : IsValid q
  pub numbers : map get_seq_number q.data_list ≡ count_up start (length q.data_list)
  pub reached : q.begin_full_received_ack ≡ start + length q.data_list

data-after :
    (q : RecvQueue) (packet : Packet)
    → ((after q (add_packet q packet)).data_list ≡ q.data_list)
      × ((after q (add_packet q packet)).begin_full_received_ack ≡ q.begin_full_received_ack)
data-after q packet = by_case (add_packet-Added q packet)
  where
    by_case :
        {r : _}
        → Added q packet r
        → ((after q r).data_list ≡ q.data_list)
          × ((after q r).begin_full_received_ack ≡ q.begin_full_received_ack)
    by_case (refused e) = (refl, refl)
    by_case (late l) = (refl, refl)
    by_case (ahead l) = (refl, refl)
    by_case (twice p s a b) = (refl, refl)
    by_case (stored s a b n) = (refl, refl)

pub add-Delivered :
    (q : RecvQueue) (packet : Packet) (start : ℕ)
    → get_seq_number packet < seq_mod
    → Delivered q start
    → Delivered (after q (add_packet q packet)) start
add-Delivered q packet start w d =
    let (e, b) = data-after q packet in
    record {
      valid = add_packet-IsValid q packet d.valid w;
      numbers = rw e d.numbers;
      reached = rw (e, b) d.reached;
    }

moved-Delivered :
    (q q' : RecvQueue) (start : ℕ) (packets : List Packet)
    → Delivered q start
    → IsValid q'
    → q'.data_list ≡ q.data_list ++ packets
    → Drained q.queue q.begin_full_received_ack packets q'.queue q'.begin_full_received_ack
    → Delivered q' start
moved-Delivered q q' start packets d v l r = record {
  valid = v;
  numbers =
      rw (l, map-append, d.numbers, r.numbers, d.reached, length-append q.data_list packets)
        (count_up-append start (length q.data_list) (length packets));
  reached = omega (arith, ap length l, length-append q.data_list packets, r.moved, d.reached);
}

-- When putting packets in order returns.
pub process-Delivered :
    (q q' : RecvQueue) (start : ℕ)
    → process_unordered_packets q ≡ some q'
    → Delivered q start
    → Delivered q' start
process-Delivered q q' start e d = elim (process-IsValid q d.valid) [
  | inl (packets, q₁, e₁, v, l, r) ↦
      let same : q₁ ≡ q' = some-injective _ _ (sym e₁ ∙ e) in
      subst (λ q. Delivered q start) same (moved-Delivered q q₁ start packets d v l r)
  | inr (e₁, top) ↦ let bad : ◌≡◌ {A = Option RecvQueue} none (some q') = sym e₁ ∙ e in cc
]

pub take_acks-Delivered :
    (q : RecvQueue) (start : ℕ) → Delivered q start → Delivered (get_selective_acks q).1 start
unfolding get_selective_acks
take_acks-Delivered q start d = record {
  valid = record { positive = d.valid.positive; bounded = d.valid.bounded; lie = d.valid.lie };
  numbers = d.numbers;
  reached = d.reached;
}

pub take_data-Delivered :
    (q : RecvQueue) (start : ℕ)
    → Delivered q start
    → Delivered (take_user_data q).1 (start + length (take_user_data q).0)
unfolding take_user_data
take_data-Delivered q start d = record {
  valid = record { positive = d.valid.positive; bounded = d.valid.bounded; lie = d.valid.lie };
  numbers = refl;
  reached = omega (arith, d.reached);
}

-- A list with consecutive numbers, cut in two.
numbers-cut :
    (xs : List Packet) (s n : ℕ)
    → map get_seq_number xs ≡ count_up s (length xs)
    → (map get_seq_number (take n xs) ≡ count_up s (length (take n xs)))
      × (map get_seq_number (drop n xs) ≡ count_up (s + length (take n xs)) (length (drop n xs)))
numbers-cut xs s zero e = (refl, e ∙ ap (λ k. count_up k (length xs)) (omega arith))
numbers-cut [] s (suc n) e = (refl, refl)
numbers-cut (x ∷ xs) s (suc n) e =
    let head : get_seq_number x ≡ s = cc in
    let tail : map get_seq_number xs ≡ count_up (s + 1) (length xs) = cc in
    let (taken, left) = numbers-cut xs (s + 1) n tail in
    (ap₂ ◌∷◌ head taken, left ∙ ap (λ k. count_up k (length (drop n xs))) (omega arith))

-- A reader that takes no more than `n` packets.
pub take_some-Delivered :
    (q : RecvQueue) (start n : ℕ)
    → Delivered q start
    → (map get_seq_number (take n q.data_list) ≡ count_up start (length (take n q.data_list)))
      × Delivered
          (record q { data_list = drop n q.data_list })
          (start + length (take n q.data_list))
take_some-Delivered q start n d =
    let (taken, left) = numbers-cut q.data_list start n d.numbers in
    (
      taken,
      record {
        valid = record {
          positive = d.valid.positive;
          bounded = d.valid.bounded;
          lie = d.valid.lie;
        };
        numbers = left;
        reached = omega (
          arith,
          d.reached,
          length-append (take n q.data_list) (drop n q.data_list),
          ap length (take-append-drop n q.data_list),
        );
      },
    )

-- What the reader takes has the next numbers.
pub take_data-numbers :
    (q : RecvQueue) (start : ℕ)
    → Delivered q start
    → map get_seq_number (take_user_data q).0 ≡ count_up start (length (take_user_data q).0)
unfolding take_user_data
take_data-numbers q start d = d.numbers

-- A queue in order that is not near the greatest number.
record Safe (q : RecvQueue) (start : ℕ) : Type 0 where
  delivered : Delivered q start
  fits : Fits q

record Ran (q : RecvQueue) (start : ℕ) (cs : List Call) (taken : List Packet) (q' : RecvQueue)
    : Type 0 where
  ran : run q cs ≡ some (taken, q')
  numbers : map get_seq_number taken ≡ count_up start (length taken)
  rest : Delivered q' (start + length taken)

Ran-cons :
    (q q₁ q' : RecvQueue) (start : ℕ) (c : Call) (cs : List Call) (t taken : List Packet)
    → step q c ≡ some (t, q₁)
    → map get_seq_number t ≡ count_up start (length t)
    → Ran q₁ (start + length t) cs taken q'
    → Ran q start (c ∷ cs) (t ++ taken) q'
unfolding run
Ran-cons q q₁ q' start c cs t taken e n r = record {
  ran = rw (e, run, r.ran) refl;
  numbers =
      rw (map-append, n, r.numbers, length-append t taken)
        (count_up-append start (length t) (length taken));
  rest = subst (Delivered q') (omega (arith, length-append t taken)) r.rest;
}

pub nothing_taken : (q : RecvQueue) (start : ℕ) → Delivered q start → Delivered q (start + 0)
nothing_taken q start d = subst (Delivered q) (omega arith) d

run-Ran :
    (cs : List Call) (q : RecvQueue) (start : ℕ)
    → AreSmall cs
    → Safe q start
    → (taken : List Packet) × (q' : RecvQueue) × Ran q start cs taken q'
unfolding run step take_user_data get_selective_acks
run-Ran [] q start w d =
    ([], q, record { ran = refl; numbers = refl; rest = nothing_taken q start d.delivered })
run-Ran (add packet ∷ cs) q start w d =
    let q₁ = after q (add_packet q packet) in
    let word : get_seq_number packet < seq_mod = omega (arith, w.0) in
    let (taken, q', r) = run-Ran cs q₁ (start + 0) w.1 (record {
      delivered = nothing_taken q₁ start (add-Delivered q packet start word d.delivered);
      fits = add_packet-Fits q packet d.fits w.0;
    }) in
    (taken, q', Ran-cons q q₁ q' start (add packet) cs [] taken refl refl r)
run-Ran (process ∷ cs) q start w d =
    let (packets, q₁, e, v, l, p) = process-Fits q d.delivered.valid d.fits in
    let (taken, q', r) = run-Ran cs q₁ (start + 0) w (record {
      delivered = nothing_taken q₁ start (moved-Delivered q q₁ start packets d.delivered v l p);
      fits = record { begin = p.bounded; numbers = λ i x s. d.fits.numbers i x (p.old i x s) };
    }) in
    (taken, q', Ran-cons q q₁ q' start process cs [] taken (rw (e, step) refl) refl r)
run-Ran (take_data ∷ cs) q start w d =
    let q₁ = (take_user_data q).1 in
    let (taken, q', r) = run-Ran cs q₁ (start + length q.data_list) w (record {
      delivered = take_data-Delivered q start d.delivered;
      fits = record { begin = d.fits.begin; numbers = d.fits.numbers };
    }) in
    (
      q.data_list ++ taken,
      q',
      Ran-cons q q₁ q' start take_data cs q.data_list taken refl d.delivered.numbers r,
    )
run-Ran (take_acks ∷ cs) q start w d =
    let q₁ = (get_selective_acks q).1 in
    let (taken, q', r) = run-Ran cs q₁ (start + 0) w (record {
      delivered = nothing_taken q₁ start (take_acks-Delivered q start d.delivered);
      fits = record { begin = d.fits.begin; numbers = d.fits.numbers };
    }) in
    (taken, q', Ran-cons q q₁ q' start take_acks cs [] taken refl refl r)

-- The loop does not stop in front of a stored packet of the window.
Drained-full :
    (slots : Slots) (b b' : ℕ) (packets : List Packet) (slots' : Slots)
    → Drained slots b packets slots' b'
    → AllLie b slots
    → b' < b + queue_size
    → ¬ (slots (b' % queue_size) ≢ none)
Drained-full slots b b' packets slots' r lie h filled =
    elim (Option-cases (slots (b' % queue_size))) [
      | inl e ↦ filled e
      | inr (p, e) ↦
          let l = lie (b' % queue_size) p e in
          let same : b' ≤ get_seq_number p = omega (arith, l.above, l.below, l.index, r.moved) in
          let kept = r.kept (b' % queue_size) p e same in let stop = r.stops in cc
    ]

pub new_queue-Delivered : Delivered new_queue 1
unfolding new_queue
new_queue-Delivered = record { valid = new_queue-IsValid; numbers = refl; reached = omega arith }

-- Whatever is received of packets numbered below 2^32 - 2, and in whatever order, duplicates and
-- packets out of range included: the calls all end, without an assertion that fails, and the packets
-- that the reader has taken, with those that wait for it, are numbered 1, 2, 3, ... without a gap or
-- a repetition.
pub run_in_order :
    (cs : List Call)
    → AreSmall cs
    → (taken : List Packet) × (q : RecvQueue) × (run new_queue cs ≡ some (taken, q))
      × (map get_seq_number (taken ++ q.data_list) ≡ count_up 1 (length (taken ++ q.data_list)))
run_in_order cs w =
    let (taken, q, r) =
      run-Ran cs new_queue 1 w
        (record { delivered = new_queue-Delivered; fits = new_queue-Fits }) in
    (
      taken,
      q,
      r.ran,
      rw (map-append, r.numbers, r.rest.numbers, length-append taken q.data_list)
          (count_up-append 1 (length taken) (length q.data_list)),
    )

-- If every number from the counter up to, not including, `e` is stored, where `e` is within the
-- window, and the counter and the stored numbers are so small that no assertion fails, then putting
-- packets in order ends and moves the counter to `e` or beyond.
pub process_delivers :
    (q : RecvQueue) (e : ℕ)
    → IsValid q
    → Fits q
    → e ≤ q.begin_full_received_ack + queue_size
    → ((s : ℕ) → q.begin_full_received_ack ≤ s → s < e → q.queue (s % queue_size) ≢ none)
    → (q' : RecvQueue) × (process_unordered_packets q ≡ some q') × (e ≤ q'.begin_full_received_ack)
process_delivers q e v f small full =
    let (packets, q', eq, _, _, r) = process-Fits q v f in
    (
      q',
      eq,
      elim (dec_lt q'.begin_full_received_ack e) [
        | no h ↦ omega arith
        | yes h ↦ absurd (
            Drained-full q.queue q.begin_full_received_ack q'.begin_full_received_ack packets
              q'.queue r v.lie (omega arith)
              (full q'.begin_full_received_ack (omega (arith, r.moved)) h))
      ],
    )
