-- ===== src/Packet/Contents.antt =====
-- What follows the header: selective acknowledgements, or the payload.
use multi_threaded_socket.Common.{
  ℕ, zero, suc, ◌+◌, ◌*◌, ◌/◌, ◌%◌, ◌^◌, ◌≤◌, ◌<◌, ◌≡◌, inl, refl, ◌∙◌, List, [], ◌∷◌, arith,
  length, take, drop, set, length-set, get_or, get_or-set_self, get_or-set_ne, ap₂,
}
use multi_threaded_socket.Packet.Bytes.{
  read_le, write_le, read_le-write_le, read-write_le_disjoint, length-write_le,
}
use multi_threaded_socket.Packet.Types.{header_size}
use multi_threaded_socket.Packet.{
  Packet, get_acks, set_acks, get_payload, set_payload, get_seq_number,
}
use multi_threaded_socket.Packet.Header
use multi_threaded_socket.Packet.Header.{read_acks, copy_acks, copy_bytes}

abbrev pub AreSeqNumbers : List ℕ → Type 0
AreSeqNumbers [] = Unit {0}
AreSeqNumbers (a ∷ acks) = (a < 2 ^ 32) × AreSeqNumbers acks

-- Copying acknowledgements leaves the integers before them.
read-copy_acks :
    (acks : List ℕ) (buf : List ℕ) (o o' w : ℕ)
    → o' + w ≤ o
    → read_le (copy_acks buf o acks) o' w ≡ read_le buf o' w
unfolding copy_acks
read-copy_acks [] buf o o' w h = refl
read-copy_acks (a ∷ acks) buf o o' w h =
    read-copy_acks acks (write_le buf o 4 a) (o + 4) o' w (omega arith)
    ∙ read-write_le_disjoint buf o 4 a o' w (inl h)

read_acks-copy_acks :
    (acks : List ℕ) (buf : List ℕ) (o : ℕ)
    → o + length acks * 4 ≤ length buf
    → AreSeqNumbers acks
    → read_acks (copy_acks buf o acks) o (length acks) ≡ acks
unfolding read_acks copy_acks
read_acks-copy_acks [] buf o h fit = refl
read_acks-copy_acks (a ∷ acks) buf o h fit =
    ap₂ ◌∷◌
      (read-copy_acks acks (write_le buf o 4 a) (o + 4) o 4 (omega arith)
        ∙ read_le-write_le buf o 4 a (omega arith) fit.0)
      (read_acks-copy_acks acks (write_le buf o 4 a) (o + 4)
        (omega (arith, length-write_le buf o 4 a)) fit.1)

-- The acknowledgements that a packet is given are read back from it, in order.
pub get_acks-set_acks :
    (p : Packet) (acks : List ℕ)
    → header_size + length acks * 4 ≤ length p.element
    → length acks * 4 < 2 ^ 16
    → AreSeqNumbers acks
    → get_acks (set_acks p acks) ≡ acks
unfolding get_acks set_acks Header.set_payload_size Header.get_payload_size
get_acks-set_acks p acks h small fit = rw count (
    read_acks-copy_acks acks sized header_size
      (rw (length-write_le p.element 18 2 (length acks * 4 % 2 ^ 16)) h) fit)
  where
    sized : List ℕ
    sized = write_le p.element 18 2 (length acks * 4 % 2 ^ 16)

    count : read_le (copy_acks sized header_size acks) 18 2 / 4 ≡ length acks
    count = omega (
      arith,
      read-copy_acks acks sized header_size 18 2 (omega arith),
      read_le-write_le p.element 18 2 (length acks * 4 % 2 ^ 16) (omega arith) (omega arith),
    )

get_or-copy_bytes :
    (bytes : List ℕ) (buf : List ℕ) (o j : ℕ)
    → j < o
    → get_or (copy_bytes buf o bytes) j 0 ≡ get_or buf j 0
unfolding copy_bytes
get_or-copy_bytes [] buf o j h = refl
get_or-copy_bytes (b ∷ bytes) buf o j h =
    get_or-copy_bytes bytes (set buf o b) (o + 1) j (omega arith)
    ∙ get_or-set_ne buf o j b 0 (omega arith)

pub read-copy_bytes :
    (bytes : List ℕ) (buf : List ℕ) (o o' w : ℕ)
    → o' + w ≤ o
    → read_le (copy_bytes buf o bytes) o' w ≡ read_le buf o' w
unfolding read_le
read-copy_bytes bytes buf o o' zero h = refl
read-copy_bytes bytes buf o o' (suc w) h = omega (
  arith,
  get_or-copy_bytes bytes buf o o' (omega arith),
  read-copy_bytes bytes buf o (o' + 1) w (omega arith),
)

take-drop-suc :
    (xs : List ℕ) (i n : ℕ)
    → i < length xs
    → take (suc n) (drop i xs) ≡ get_or xs i 0 ∷ take n (drop (suc i) xs)
take-drop-suc [] i n h = absurd (omega arith)
take-drop-suc (x ∷ xs) zero n h = refl
take-drop-suc (x ∷ xs) (suc i) n h = take-drop-suc xs i n (omega arith)

pub length-copy_bytes :
    (bytes : List ℕ) (buf : List ℕ) (o : ℕ) → length (copy_bytes buf o bytes) ≡ length buf
unfolding copy_bytes
length-copy_bytes [] buf o = refl
length-copy_bytes (b ∷ bytes) buf o =
    length-copy_bytes bytes (set buf o b) (o + 1) ∙ length-set buf o b

pub take-copy_bytes :
    (bytes : List ℕ) (buf : List ℕ) (o : ℕ)
    → o + length bytes ≤ length buf
    → take (length bytes) (drop o (copy_bytes buf o bytes)) ≡ bytes
unfolding copy_bytes
take-copy_bytes [] buf o h = refl
take-copy_bytes (b ∷ bytes) buf o h =
    take-drop-suc (copy_bytes (set buf o b) (o + 1) bytes) o (length bytes)
      (omega (arith, length-copy_bytes bytes (set buf o b) (o + 1), length-set buf o b))
    ∙ ap₂ ◌∷◌
        (get_or-copy_bytes bytes (set buf o b) (o + 1) o (omega arith)
          ∙ get_or-set_self buf o b 0 (omega arith))
        (rw (← next)
          (take-copy_bytes bytes (set buf o b) (o + 1) (omega (arith, length-set buf o b))))
  where
    next : o + 1 ≡ suc o
    next = omega arith

-- The payload that a packet is given is read back from it, and the sequence number is not touched.
pub get_payload-set_payload :
    (p : Packet) (payload : List ℕ)
    → header_size + length payload ≤ length p.element
    → length payload < 2 ^ 16
    → (get_payload (set_payload p payload) ≡ payload)
      × (get_seq_number (set_payload p payload) ≡ get_seq_number p)
unfolding get_payload set_payload get_seq_number Header.set_payload_size Header.get_payload_size
get_payload-set_payload p payload h small = (
  rw size (
      take-copy_bytes payload sized header_size
        (rw (length-write_le p.element 18 2 (length payload % 2 ^ 16)) h)),
  read-copy_bytes payload sized header_size 10 4 (omega arith)
      ∙ read-write_le_disjoint p.element 18 2 (length payload % 2 ^ 16) 10 4 (inl (omega arith)),
)
  where
    sized : List ℕ
    sized = write_le p.element 18 2 (length payload % 2 ^ 16)

    size : read_le (copy_bytes sized header_size payload) 18 2 ≡ length payload
    size = omega (
      arith,
      read-copy_bytes payload sized header_size 18 2 (omega arith),
      read_le-write_le p.element 18 2 (length payload % 2 ^ 16) (omega arith) (omega arith),
    )
