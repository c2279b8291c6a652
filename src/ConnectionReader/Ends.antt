-- ===== src/ConnectionReader/Ends.antt =====
-- When `read` ends.
use multi_threaded_socket.Common.{
  ℕ, zero, suc, ◌+◌, ◌-◌, ◌≤◌, ◌<◌, ◌≡◌, refl, ap, ◌∙◌, min, none, some, List, [], ◌++◌, arith,
  length, take, drop, length-take, length-drop, Bool-cases, false, ltb, inl, inr, leb,
  if◌then◌else◌,
}
use mathlib.Core.List.{append-nil}
use multi_threaded_socket.ConnectionReader.{ConnectionReader, current, read_round, read_rounds}

-- The bytes of the packet that are not read yet.
abbrev pub rest : ConnectionReader → List ℕ
rest r = drop r.offset (current r)

got_size :
    (r : ConnectionReader) (wanted : ℕ)
    → length (read_round r wanted).0 ≡ min wanted (length (rest r))
unfolding read_round
got_size r wanted = omega (
  arith,
  length-take (min wanted (length (current r) - r.offset)) (rest r),
  length-drop r.offset (current r),
)

next_rest :
    (r : ConnectionReader) (wanted : ℕ)
    → length (rest (read_round r wanted).1) ≡ length (rest r) - wanted
unfolding read_round
next_rest r wanted =
    let n = min wanted (length (current r) - r.offset) in
    omega (arith, length-drop r.offset (current r), length-drop (r.offset + n) (current r))

-- While more is wanted than the packet has left, the loop goes on.
stuck :
    (fuel : ℕ) (r : ConnectionReader) (wanted : ℕ)
    → length (rest r) < wanted
    → read_rounds fuel r wanted ≡ none
unfolding read_rounds
stuck fuel r zero h = absurd (omega arith)
stuck zero r (suc wanted) h = refl
stuck (suc fuel) r (suc wanted) h =
    let again : read_rounds fuel (read_round r (suc wanted)).1
          (suc wanted - length (read_round r (suc wanted)).0)
        ≡ none =
      stuck fuel (read_round r (suc wanted)).1 (suc wanted - length (read_round r (suc wanted)).0)
        (omega (arith, got_size r (suc wanted), next_rest r (suc wanted))) in
    elim (Bool-cases (ltb (length (current r)) r.offset)) [
      | inl g ↦ rw (g, read_rounds) refl
      | inr g ↦ rw (g, again, read_rounds) refl
    ]

-- What is wanted is in the packet: one round reads it.
one_round :
    (r : ConnectionReader) (wanted : ℕ)
    → wanted ≤ length (rest r)
    → read_round r wanted ≡ (take wanted (rest r), record r { offset = r.offset + wanted })
unfolding read_round
one_round r wanted h =
    let n : min wanted (length (current r) - r.offset) ≡ wanted =
      omega (arith, length-drop r.offset (current r)) in
    rw n refl

no_round : (fuel : ℕ) (r : ConnectionReader) (n : ℕ) → n ≡ 0 → read_rounds fuel r n ≡ some ([], r)
unfolding read_rounds
no_round fuel r zero h = refl
no_round fuel r (suc n) h = absurd (omega arith)

ends :
    (fuel : ℕ) (r : ConnectionReader) (wanted : ℕ)
    → wanted ≤ fuel
    → wanted ≤ length (rest r)
    → read_rounds fuel r wanted
      ≡ some (take wanted (rest r), record r { offset = r.offset + wanted })
unfolding read_rounds
ends fuel r zero b h = ap (λ n. some ([], record r { offset = n })) (omega arith)
ends zero r (suc wanted) b h = absurd (omega arith)
ends (suc fuel) r (suc wanted) b h =
    let one = one_round r (suc wanted) h in
    let none_left : suc wanted - length (read_round r (suc wanted)).0 ≡ 0 =
      omega (arith, got_size r (suc wanted)) in
    let guard : ltb (length (current r)) r.offset ≡ false =
      (let left = length-drop r.offset (current r) in ground arith) in
    rw
      (
        guard,
        no_round fuel (read_round r (suc wanted)).1
            (suc wanted - length (read_round r (suc wanted)).0) none_left,
        read_rounds,
      )
      (ap (λ (p : List ℕ × ConnectionReader). some (p.0 ++ [], p.1)) one
        ∙ ap (λ (l : List ℕ). some (l, record r { offset = r.offset + suc wanted }))
            (append-nil (take (suc wanted) (rest r))))

-- When the reader stands in its packet, the loop of `read` ends exactly when the packet has all that is wanted: it reads these bytes then,
-- and the reader stands behind them. Otherwise no number of rounds is enough: the loop never goes on
-- to the next packet.
pub read_rounds_end :
    (fuel : ℕ) (r : ConnectionReader) (wanted : ℕ)
    → wanted ≤ fuel
    → r.offset ≤ length (current r)
    → read_rounds fuel r wanted ≡ (
        if leb wanted (length (rest r))
        then some (take wanted (rest r), record r { offset = r.offset + wanted })
        else none)
read_rounds_end fuel r wanted b inside = elim (Bool-cases (leb wanted (length (rest r)))) [
  | inl e ↦ rw e (ends fuel r wanted b (ground arith))
  | inr e ↦ rw e (stuck fuel r wanted (ground arith))
]
