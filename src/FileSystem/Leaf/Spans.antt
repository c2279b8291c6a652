-- ===== src/FileSystem/Leaf/Spans.antt =====
-- The spans of a range's packets, as pieces of the bytes of the packets.
use multi_threaded_socket.Common.{
  ℕ, zero, suc, ◌+◌, ◌-◌, ◌≤◌, ◌<◌, ◌≡◌, ◌∙◌, refl, sym, ap, ap₂, min, Option, none, some, List, [],
  ◌∷◌, ◌++◌, arith, length, take, drop, take_all, take-append_le, take-append_ge, drop-append_le,
  drop-append_ge, length-append, Bool-cases, inl, inr, leb,
}
use mathlib.Core.List.{append-nil}
use multi_threaded_socket.MultiList.{concat}
use multi_threaded_socket.FileSystem.Leaf.Reading.{skip_packets, take_spans, total_size}

take-append :
    (n : ℕ) (xs ys : List ℕ)
    → take n (xs ++ ys) ≡ take (min (length xs) n) xs ++ take (n - min (length xs) n) ys
take-append n xs ys = elim (Bool-cases (leb (length xs) n)) [
  | inl e ↦
      let whole : min (length xs) n ≡ length xs = ground arith in
      let front : xs ≡ take (min (length xs) n) xs =
        sym (take_all (min (length xs) n) xs (omega arith)) in
      take-append_ge n (n - length xs) xs ys (ground arith)
      ∙ ap₂ (λ front m. front ++ take m ys) front (ap (λ m. n - m) (sym whole))
  | inr e ↦
      let part : min (length xs) n ≡ n = ground arith in
      let none_left : 0 ≡ n - min (length xs) n = omega (arith, part) in
      take-append_le n xs ys (ground arith)
      ∙ sym (append-nil (take n xs))
      ∙ ap₂ (λ k m. take k xs ++ take m ys) (sym part) none_left
]

pub total_size-concat : (spans : List (List ℕ)) → total_size spans ≡ length (concat spans)
total_size-concat [] = refl
total_size-concat (s ∷ spans) =
    omega (arith, total_size-concat spans, length-append s (concat spans))

pub take_spans-concat : (n : ℕ) (ps : List (List ℕ)) → concat (take_spans n ps) ≡ take n (concat ps)
unfolding take_spans
take_spans-concat zero [] = refl
take_spans-concat (suc n) [] = refl
take_spans-concat zero (p ∷ ps) = refl
take_spans-concat (suc n) (p ∷ ps) =
    ap (◌++◌ (take (min (length p) (suc n)) p))
      (take_spans-concat (suc n - min (length p) (suc n)) ps)
    ∙ sym (take-append (suc n) p (concat ps))

pub total_size-append :
    (xs ys : List (List ℕ)) → total_size (xs ++ ys) ≡ total_size xs + total_size ys
total_size-append [] ys = omega arith
total_size-append (x ∷ xs) ys = omega (arith, total_size-append xs ys)

-- The packets that the search leaves are the bytes from `start` on.
pub data Skipped (start : ℕ) (ps : List (List ℕ)) : Option (List ℕ × List (List ℕ)) → Type 0 where
  past : length (concat ps) ≤ start → Skipped start ps none
  at :
      (first : List ℕ) (rest : List (List ℕ))
      → first ++ concat rest ≡ drop start (concat ps)
      → start < length (concat ps)
      → Skipped start ps (some (first, rest))

pub skip_packets-Skipped :
    (start : ℕ) (ps : List (List ℕ)) → Skipped start ps (skip_packets start ps)
unfolding skip_packets
skip_packets-Skipped start [] = past (omega arith)
skip_packets-Skipped start (p ∷ ps) = elim (Bool-cases (leb (length p) start)) [
  | inl e ↦ rw e (
      behind (skip_packets (start - length p) ps) (ground arith)
        (skip_packets-Skipped (start - length p) ps))
  | inr e ↦ rw e (
      at (drop start p) ps (sym (drop-append_le start p (concat ps) (ground arith)))
        (ground (arith, length-append p (concat ps))))
]
  where
    behind :
        (found : Option (List ℕ × List (List ℕ)))
        → length p ≤ start
        → Skipped (start - length p) ps found
        → Skipped start (p ∷ ps) found
    behind none h (past k) = past (omega (arith, length-append p (concat ps)))
    behind (some (f, r)) h (at first rest k l) =
        at first rest
          (k ∙ sym (drop-append_ge start (start - length p) p (concat ps) (omega arith)))
          (omega (arith, length-append p (concat ps)))
