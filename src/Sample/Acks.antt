-- ===== src/Sample/Acks.antt =====
-- Which packets acknowledgements free.
use multi_threaded_socket.Common.{
  ℕ, ◌≤◌, ◌<◌, ◌≡◌, refl, inl, inr, none, List, [], ◌∷◌, arith, leb, ◌==◌, Bool-cases, Option-cases,
}
use multi_threaded_socket.Stats.{TimeRangedStats}
use multi_threaded_socket.Sample.{
  Entries, Sample, find, erase, acknowledged, free_acked, free_selected, process_acks,
}

-- The keys of a map are distinct.
abbrev pub Distinct : Entries → Type 0
Distinct [] = Unit {0}
Distinct ((k, o) ∷ es) = (find k es ≡ none) × Distinct es

-- Every key is above the last acknowledgement.
abbrev pub AllAbove : ℕ → Entries → Type 0
AllAbove last [] = Unit {0}
AllAbove last ((k, o) ∷ es) = (last < k) × AllAbove last es

find-erase : (a n : ℕ) (es : Entries) → find a es ≡ none → find a (erase n es) ≡ none
unfolding find erase
find-erase a n [] e = refl
find-erase a n ((k, o) ∷ es) e = ground (arith, find-erase a n es)

find-erase_self : (n : ℕ) (es : Entries) → Distinct es → find n (erase n es) ≡ none
unfolding find erase
find-erase_self n [] d = refl
find-erase_self n ((k, o) ∷ es) d = elim (Bool-cases (k == n)) [
  | inl e ↦ let same : k ≡ n = ground arith in rw e (rw same at (d.0))
  | inr e ↦ rw (e, e) (find-erase_self n es d.1)
]

erase-Distinct : (n : ℕ) (es : Entries) → Distinct es → Distinct (erase n es)
unfolding erase
erase-Distinct n [] d = tt
erase-Distinct n ((k, o) ∷ es) d = elim (Bool-cases (k == n)) [
  | inl e ↦ rw e d.1
  | inr e ↦ rw e (find-erase k n es d.0, erase-Distinct n es d.1)
]

erase-AllAbove : (last n : ℕ) (es : Entries) → AllAbove last es → AllAbove last (erase n es)
unfolding erase
erase-AllAbove last n [] d = tt
erase-AllAbove last n ((k, o) ∷ es) d = ground (arith, erase-AllAbove last n es d.1)

find-AllAbove : (last a : ℕ) (es : Entries) → AllAbove last es → a ≤ last → find a es ≡ none
unfolding find
find-AllAbove last a [] d h = refl
find-AllAbove last a ((k, o) ∷ es) d h = ground (arith, find-AllAbove last a es d.1)

find-free_acked :
    (a : ℕ) (es : Entries) (stats : TimeRangedStats) (last now : ℕ)
    → find a es ≡ none
    → find a (free_acked es stats last now).1 ≡ none
unfolding find free_acked
find-free_acked a [] stats last now e = refl
find-free_acked a ((k, o) ∷ es) stats last now e = ground (
  arith,
  find-free_acked a es (acknowledged stats o now) last now,
  find-free_acked a es stats last now,
)

-- The first loop keeps exactly packets above the last acknowledgement.
free_acked_lem :
    (es : Entries) (stats : TimeRangedStats) (last now : ℕ)
    → Distinct es
    → AllAbove last (free_acked es stats last now).1 × Distinct (free_acked es stats last now).1
unfolding free_acked
free_acked_lem [] stats last now d = (tt, tt)
free_acked_lem ((k, o) ∷ es) stats last now d = elim (Bool-cases (leb k last)) [
  | inl e ↦ rw e (free_acked_lem es (acknowledged stats o now) last now d.1)
  | inr e ↦
      let (a, b) = free_acked_lem es stats last now d.1 in
      rw e ((ground arith, a), (find-free_acked k es stats last now d.0, b))
]

find-free_selected :
    (a : ℕ) (acks : List ℕ) (es : Entries) (stats : TimeRangedStats) (last now : ℕ)
    → find a es ≡ none
    → find a (free_selected acks es stats last now).2 ≡ none
unfolding free_selected
find-free_selected a [] es stats last now h = h
find-free_selected a (ack ∷ acks) es stats last now h = elim (Bool-cases (leb ack last)) [
  | inl e ↦ rw e (find-free_selected a acks es stats last now h)
  | inr e ↦ elim (Option-cases (find ack es)) [
    | inl n ↦ rw (e, n) (find-free_selected a acks es stats last now h)
    | inr (o, f) ↦
        rw (e, f)
          (find-free_selected a acks (erase ack es) (acknowledged stats o now) last now
            (find-erase a ack es h))
  ]
]

-- None of the acknowledged numbers is a key.
abbrev pub NoneHeld : List ℕ → Entries → Type 0
NoneHeld [] es = Unit {0}
NoneHeld (a ∷ acks) es = (find a es ≡ none) × NoneHeld acks es

free_selected_lem :
    (acks : List ℕ) (es : Entries) (stats : TimeRangedStats) (last now : ℕ)
    → Distinct es
    → AllAbove last es
    → let kept = (free_selected acks es stats last now).2 in
      NoneHeld acks kept × Distinct kept × AllAbove last kept
unfolding free_selected
free_selected_lem [] es stats last now d v = (tt, d, v)
free_selected_lem (ack ∷ acks) es stats last now d v = elim (Bool-cases (leb ack last)) [
  | inl e ↦
      let (a, b, c) = free_selected_lem acks es stats last now d v in
      rw e (
        (
          find-free_selected ack acks es stats last now
              (find-AllAbove last ack es v (ground arith)),
          a,
        ),
        b,
        c,
      )
  | inr e ↦ elim (Option-cases (find ack es)) [
    | inl n ↦
        let (a, b, c) = free_selected_lem acks es stats last now d v in
        rw (e, n) ((find-free_selected ack acks es stats last now n, a), b, c)
    | inr (o, f) ↦
        let (a, b, c) =
          free_selected_lem acks (erase ack es) (acknowledged stats o now) last now
            (erase-Distinct ack es d) (erase-AllAbove last ack es v) in
        rw (e, f)
          (
            (
              find-free_selected ack acks (erase ack es) (acknowledged stats o now) last now
                  (find-erase_self ack es d),
              a,
            ),
            b,
            c,
          )
  ]
]

-- After ProcessAcks the sample holds no packet that is acknowledged: neither up to the last
-- acknowledgement nor by a selective one. Its keys are still distinct.
pub process_acks_lem :
    (s : Sample) (acks : List ℕ) (last now : ℕ)
    → Distinct s.packets
    → let (_, _, s') = process_acks s acks last now in
      NoneHeld acks s'.packets × Distinct s'.packets × AllAbove last s'.packets
unfolding process_acks
process_acks_lem s acks last now d =
    let (_, kept, stats) = free_acked s.packets s.time_ranged_stats last now in
    let (above, distinct) = free_acked_lem s.packets s.time_ranged_stats last now d in
    free_selected_lem acks kept stats last now distinct above
