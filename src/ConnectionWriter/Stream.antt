-- ===== src/ConnectionWriter/Stream.antt =====
-- What is written goes out as a stream of bytes.
use multi_threaded_socket.Common.{
  ℕ, zero, suc, ◌≤◌, ◌<◌, ◌≡◌, ◌⊎◌, refl, sym, ap, ◌∙◌, subst, true, false, Option, some, List, [],
  ◌∷◌, ◌++◌, arith, length, ltb, ◌==◌, Bool-cases, inl, inr,
}
use mathlib.Core.List.{append-nil}
use multi_threaded_socket.ConnectionWriter.{
  ConnectionWriter, Freed, current, get_next_packet, copy_round, write_rounds, write,
}
use multi_threaded_socket.ConnectionWriter.Rounds.{
  written, IsReady, AllFilled, UsedUp, Moved, moved, copy_round-written, copy_round-filled,
  copy_round-inside, copy_round-close, copy_round-fewer,
}

-- How the loop of `write` ends.
abbrev pub Wrote : ConnectionWriter → List ℕ → Option (ConnectionWriter × Freed) → Type 0
Wrote w src r =
    (w' : ConnectionWriter) × (later : Freed) × (r ≡ some (w', later))
    × (((w'.error ≡ true)
          × UsedUp w' later
          × ((left : List ℕ) × (written w' ++ left ≡ written w ++ src)))
        ⊎ ((written w' ≡ written w ++ src) × IsReady w'))

carry :
    (w w' : ConnectionWriter) (src rest : List ℕ) (r : Option (ConnectionWriter × Freed))
    → written w' ++ rest ≡ written w ++ src
    → Wrote w' rest r
    → Wrote w src r
carry w w' src rest r e (v, later, q, inl (x, y, (left, z))) =
    (v, later, q, inl (x, y, (left, z ∙ e)))
carry w w' src rest r e (v, later, q, inr (x, y)) = (v, later, q, inr (x ∙ e, y))

-- What a round of the loop goes on to, by its tests.
module _ (fuel : ℕ) (w : ConnectionWriter) (x : ℕ) (src : List ℕ) (freed : Freed)
    (there : ltb w.packet (length w.packets) ≡ true) where
  filled_to : ConnectionWriter
  filled_to = (copy_round w (x ∷ src)).0

  left : List ℕ
  left = (copy_round w (x ∷ src)).1

  goes_on :
      (filled_to.offset == length (current filled_to)) ≡ false
      → write_rounds (suc fuel) w (x ∷ src) freed ≡ write_rounds fuel filled_to left freed
  unfolding write_rounds filled_to left
  goes_on e = rw (there, e, write_rounds) refl

  stops :
      (filled_to.offset == length (current filled_to)) ≡ true
      → (get_next_packet filled_to freed).0 ≡ false
      → write_rounds (suc fuel) w (x ∷ src) freed
        ≡ some (
          record (get_next_packet filled_to freed).1 { error = true },
          (get_next_packet filled_to freed).2,
        )
  unfolding write_rounds filled_to left
  stops e m = rw (there, e, m, write_rounds) refl

  moves :
      (filled_to.offset == length (current filled_to)) ≡ true
      → (get_next_packet filled_to freed).0 ≡ true
      → write_rounds (suc fuel) w (x ∷ src) freed
        ≡ write_rounds fuel
            (get_next_packet filled_to freed).1
            left
            (get_next_packet filled_to freed).2
  unfolding write_rounds filled_to left
  moves e m = rw (there, e, m, write_rounds) refl

write_rounds-Wrote :
    (fuel : ℕ) (w : ConnectionWriter) (src : List ℕ) (freed : Freed)
    → length src ≤ fuel
    → IsReady w
    → AllFilled freed
    → Wrote w src (write_rounds fuel w src freed)
unfolding write_rounds Moved filled_to left
write_rounds-Wrote fuel w [] freed b h a = (w, freed, refl, inr (sym (append-nil (written w)), h))
write_rounds-Wrote zero w (x ∷ src) freed b h a = absurd (omega arith)
write_rounds-Wrote (suc fuel) w (x ∷ src) freed b h a =
    let w' = (copy_round w (x ∷ src)).0 in
    let rest = (copy_round w (x ∷ src)).1 in
    let there : ltb w.packet (length w.packets) ≡ true =
      (let k : w.packet < length w.packets = h.here in ground arith) in
    let kept = copy_round-written w (x ∷ src) h in
    let filled = copy_round-filled w (x ∷ src) h in
    let fewer : length rest ≤ fuel = omega (arith, copy_round-fewer w (x ∷ src) h) in
    let inside : w'.packet < length w'.packets = copy_round-inside w (x ∷ src) h in
    let close : w'.offset ≤ length (current w') = copy_round-close w (x ∷ src) h in
    elim (Bool-cases (w'.offset == length (current w'))) [
      | inl e ↦
          let full : w'.offset ≡ length (current w') = ground arith in
          elim (moved w' inside full filled freed a) [
            | inl m ↦
                subst (Wrote w (x ∷ src)) (sym (stops fuel w x src freed there e m.0))
                  (_, _, refl, inl (refl, m.1, (rest, ap (λ l. l ++ rest) m.2 ∙ kept)))
            | inr m ↦ subst (Wrote w (x ∷ src)) (sym (moves fuel w x src freed there e m.0)) (
                carry w (get_next_packet w' freed).1 (x ∷ src) rest _
                  (ap (λ l. l ++ rest) m.2 ∙ kept)
                  (write_rounds-Wrote fuel (get_next_packet w' freed).1 rest
                    (get_next_packet w' freed).2 fewer m.1 m.3))
          ]
      | inr e ↦ subst (Wrote w (x ∷ src)) (sym (goes_on fuel w x src freed there e)) (
          carry w w' (x ∷ src) rest _ kept (
            write_rounds-Wrote fuel w' rest freed fewer
              (record {
                here = inside;
                room = (let ne : ¬ (w'.offset ≡ length (current w')) = ground arith in omega arith);
                filled = filled;
              })
              a))
    ]

-- When there is a packet with room, and no packet is empty, neither here nor of those that come,
-- `write` returns: either it sets the error, no wait gives more, and the stream, which ends with the
-- last packet, is what was written before with a first part of the bytes behind it; or the
-- stream is what was written before with all bytes behind it, over as many packets as they take, and
-- there is again a packet with room.
pub write-Wrote :
    (w : ConnectionWriter) (src : List ℕ) (freed : Freed)
    → IsReady w
    → AllFilled freed
    → Wrote w src (write w false src freed)
unfolding write
write-Wrote w src freed h a = write_rounds-Wrote (length src) w src freed (omega arith) h a
