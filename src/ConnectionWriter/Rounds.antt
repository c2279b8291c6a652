-- ===== src/ConnectionWriter/Rounds.antt =====
-- One round of the loop of `write`, and the move to the next packet.
use multi_threaded_socket.Common.{
  ℕ, zero, suc, ◌+◌, ◌-◌, ◌≤◌, ◌<◌, ◌≡◌, ◌⊎◌, refl, sym, ap, ap₂, ◌∙◌, min, true, false, List, [],
  ◌∷◌, ◌++◌, arith, length, take, drop, set, length-set, get_or-set_self, take-append-drop,
  take_all, length-take, length-drop, length-append, take-append_le, ltb, Bool-cases, inl, inr, All,
  All-append,
}
use mathlib.Core.List.{append-nil, append_assoc}
use multi_threaded_socket.MultiList.{concat}
use multi_threaded_socket.Packet.Header.{copy_bytes}
use multi_threaded_socket.Packet.Contents.{length-copy_bytes}
use multi_threaded_socket.MessageWriter.{payload}
use multi_threaded_socket.ConnectionWriter.{
  ConnectionWriter, Freed, current, get_next_packet, copy_round,
}

-- All bytes that were written so far, in their order.
abbrev pub written : ConnectionWriter → List ℕ
written w =
    concat w.packets_to_send ++ (concat (take w.packet w.packets) ++ take w.offset (current w))

abbrev pub NotEmpty : List ℕ → Type 0
NotEmpty p = 0 < length p

-- There is a packet with room, and no packet is empty.
pub record IsReady (w : ConnectionWriter) : Type 0 where
  pub here : w.packet < length w.packets
  pub room : w.offset < length (current w)
  pub filled : All NotEmpty w.packets

-- Each wait gives packets, and none of them is empty.
abbrev pub AllFilled : Freed → Type 0
AllFilled = All (λ packets. (0 < length packets) × All NotEmpty packets)

take-set : (xs : List (List ℕ)) (i : ℕ) (x : List ℕ) → take i (set xs i x) ≡ take i xs
take-set [] zero x = refl
take-set [] (suc i) x = refl
take-set (y ∷ xs) zero x = refl
take-set (y ∷ xs) (suc i) x = ap (◌∷◌ y) (take-set xs i x)

take-suc-set :
    (xs : List ℕ) (i b : ℕ) → i < length xs → take (suc i) (set xs i b) ≡ take i xs ++ b ∷ []
take-suc-set [] i b h = absurd (omega arith)
take-suc-set (x ∷ xs) zero b h = refl
take-suc-set (x ∷ xs) (suc i) b h = ap (◌∷◌ x) (take-suc-set xs i b (omega arith))

take-suc :
    (xs : List (List ℕ)) (i : ℕ)
    → i < length xs
    → concat (take (suc i) xs) ≡ concat (take i xs) ++ payload xs i
take-suc [] i h = absurd (omega arith)
take-suc (x ∷ xs) zero h = append-nil x
take-suc (x ∷ xs) (suc i) h =
    ap (◌++◌ x) (take-suc xs i (omega arith))
    ∙ sym (append_assoc x (concat (take i xs)) (payload xs i))

succ : (n : ℕ) → n + 1 ≡ suc n
succ n = omega arith

-- The bytes that are copied stand behind those in front of them.
take_copied :
    (bytes buf : List ℕ) (o : ℕ)
    → o + length bytes ≤ length buf
    → take (o + length bytes) (copy_bytes buf o bytes) ≡ take o buf ++ bytes
unfolding copy_bytes
take_copied [] buf o h = ap (λ n. take n buf) (omega arith) ∙ sym (append-nil (take o buf))
take_copied (b ∷ bytes) buf o h =
    ap (λ n. take n (copy_bytes (set buf o b) (o + 1) bytes)) (omega arith)
    ∙ take_copied bytes (set buf o b) (o + 1) (omega (arith, length-set buf o b))
    ∙ ap (λ n. take n (set buf o b) ++ bytes) (succ o)
    ∙ ap (λ l. l ++ bytes) (take-suc-set buf o b (omega arith))
    ∙ append_assoc (take o buf) (b ∷ []) bytes

set-NotEmpty :
    (xs : List (List ℕ)) (i : ℕ) (x : List ℕ)
    → All NotEmpty xs
    → NotEmpty x
    → All NotEmpty (set xs i x)
unfolding All
set-NotEmpty [] i x h k = tt
set-NotEmpty (y ∷ xs) zero x h k = (k, h.1)
set-NotEmpty (y ∷ xs) (suc i) x h k = (h.0, set-NotEmpty xs i x h.1 k)

payload-NotEmpty :
    (xs : List (List ℕ)) (i : ℕ) → All NotEmpty xs → i < length xs → NotEmpty (payload xs i)
unfolding All
payload-NotEmpty [] i h k = absurd (omega arith)
payload-NotEmpty (x ∷ xs) zero h k = h.0
payload-NotEmpty (x ∷ xs) (suc i) h k = payload-NotEmpty xs i h.1 (omega arith)

regroup :
    (sent full part xs ys : List ℕ)
    → (sent ++ (full ++ (part ++ xs))) ++ ys ≡ (sent ++ (full ++ part)) ++ (xs ++ ys)
regroup sent full part xs ys = simp append_assoc

-- One round, of bytes for which there may be no room: what fits is written.
module _ (w : ConnectionWriter) (src : List ℕ) (ready : IsReady w) where
  size : ℕ
  size = min (length src) (length (current w) - w.offset)

  copied : List ℕ
  copied = copy_bytes (current w) w.offset (take size src)

  size_taken : length (take size src) ≡ size
  unfolding size
  size_taken = length-take size src ∙ omega arith

  current-copied : current (copy_round w src).0 ≡ copied
  unfolding copy_round copied size
  current-copied = get_or-set_self w.packets w.packet copied [] ready.here

  length-copied : length (current (copy_round w src).0) ≡ length (current w)
  unfolding copied
  length-copied = ap length current-copied ∙ length-copy_bytes (take size src) (current w) w.offset

  offset-copied : (copy_round w src).0.offset ≡ w.offset + length (take size src)
  unfolding copy_round size
  offset-copied = omega (arith, size_taken)

  pub copy_round-written : written (copy_round w src).0 ++ (copy_round w src).1 ≡ written w ++ src
  unfolding copy_round copied size
  copy_round-written =
      ap (λ l. (concat w.packets_to_send ++ l) ++ drop size src)
        (ap₂ ◌++◌ (ap concat (take-set w.packets w.packet copied)) (
          ap (take (w.offset + size)) current-copied
          ∙ ap (λ n. take (w.offset + n) copied) (sym size_taken)
          ∙ take_copied (take size src) (current w) w.offset
              (omega (arith, size_taken, ready.room))))
      ∙ regroup (concat w.packets_to_send) (concat (take w.packet w.packets))
          (take w.offset (current w)) (take size src) (drop size src)
      ∙ ap (◌++◌ (written w)) (take-append-drop size src)

  pub copy_round-filled : All NotEmpty (copy_round w src).0.packets
  unfolding copy_round copied size
  copy_round-filled =
      set-NotEmpty w.packets w.packet copied ready.filled
        (omega (arith, ready.room, length-copy_bytes (take size src) (current w) w.offset))

  pub copy_round-inside : (copy_round w src).0.packet < length (copy_round w src).0.packets
  unfolding copy_round copied size
  copy_round-inside = omega (arith, ready.here, length-set w.packets w.packet copied)

  pub copy_round-close : (copy_round w src).0.offset ≤ length (current (copy_round w src).0)
  unfolding size
  copy_round-close = omega (arith, offset-copied, length-copied, size_taken, ready.room)

  pub copy_round-fewer : length (copy_round w src).1 ≤ length src - 1
  unfolding copy_round size
  copy_round-fewer = omega (arith, length-drop size src, ready.room)

-- All packets are written, and no wait gives more.
abbrev pub UsedUp : ConnectionWriter → Freed → Type 0
UsedUp w freed = (w.packet ≡ length w.packets) × (freed ≡ [])

past_end : (xs : List (List ℕ)) (i : ℕ) → length xs ≤ i → payload xs i ≡ []
past_end [] i h = refl
past_end (x ∷ xs) zero h = absurd (omega arith)
past_end (x ∷ xs) (suc i) h = past_end xs i (omega arith)

take_nothing : (n : ℕ) (xs : List ℕ) → xs ≡ [] → take n xs ≡ []
take_nothing zero [] e = refl
take_nothing (suc n) [] e = refl
take_nothing n (x ∷ xs) e = cc

-- A packet that is full is left: what is written stays as it is.
module _ (w : ConnectionWriter) (inside : w.packet < length w.packets)
    (full : w.offset ≡ length (current w)) (filled : All NotEmpty w.packets) where
  next-written :
      (packets : List (List ℕ))
      → concat (take (w.packet + 1) packets) ≡ concat (take (w.packet + 1) w.packets)
      → concat w.packets_to_send ++ (concat (take (w.packet + 1) packets) ++ []) ≡ written w
  next-written packets e = ap (◌++◌ (concat w.packets_to_send)) (
      append-nil (concat (take (w.packet + 1) packets))
      ∙ e
      ∙ ap (λ n. concat (take n w.packets)) (succ w.packet)
      ∙ take-suc w.packets w.packet inside
      ∙ ap (◌++◌ (concat (take w.packet w.packets)))
          (sym (take_all w.offset (current w) (omega arith))))

  -- What GetNextPacket does.
  unfoldable pub Moved : Freed → Type 0
  Moved freed =
      (((get_next_packet w freed).0 ≡ false)
        × UsedUp (get_next_packet w freed).1 (get_next_packet w freed).2
        × (written (get_next_packet w freed).1 ≡ written w))
      ⊎ (((get_next_packet w freed).0 ≡ true)
          × IsReady (get_next_packet w freed).1
          × (written (get_next_packet w freed).1 ≡ written w)
          × AllFilled (get_next_packet w freed).2)

  pub moved : (freed : Freed) → AllFilled freed → Moved freed
  unfolding get_next_packet Moved All
  moved freed a = elim (Bool-cases (ltb (w.packet + 1) (length w.packets))) [
    | inl e ↦
        let more : w.packet + 1 < length w.packets = ground arith in
        rw e (
          inr (
            refl,
            record {
              here = more;
              room = payload-NotEmpty w.packets (w.packet + 1) filled more;
              filled = filled;
            },
            next-written w.packets refl,
            a,
          ))
    | inr e ↦ by_freed freed a e
  ]
    where
      before : ltb (w.packet + 1) (length w.packets) ≡ false → length w.packets ≤ w.packet + 1
      before e = ground arith

      by_freed :
          (freed : Freed)
          → AllFilled freed
          → ltb (w.packet + 1) (length w.packets) ≡ false
          → Moved freed
      by_freed [] a e = rw e (
          inl (
            refl,
            (omega (arith, before e), refl),
            ap (λ l. concat w.packets_to_send ++ (concat (take (w.packet + 1) w.packets) ++ l))
                  (take_nothing w.offset (payload w.packets (w.packet + 1))
                    (past_end w.packets (w.packet + 1) (before e)))
                ∙ next-written w.packets refl,
          ))
      by_freed (free ∷ later) a e =
          let sum = length-append w.packets free in
          let more : w.packet + 1 < length (w.packets ++ free) = omega (arith, sum, a.0.0) in
          rw e (
            inr (
              refl,
              record {
                here = more;
                room =
                    payload-NotEmpty (w.packets ++ free) (w.packet + 1)
                      (All-append NotEmpty w.packets free filled a.0.1) more;
                filled = All-append NotEmpty w.packets free filled a.0.1;
              },
              next-written (w.packets ++ free)
                  (ap concat (take-append_le (w.packet + 1) w.packets free (omega arith))),
              a.1,
            ))
