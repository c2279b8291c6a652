-- ===== src/MessageReader/RoundTrip.antt =====
-- What MessageWriter writes and MessageReader reads, within a packet and across its end.
use multi_threaded_socket.Common.{
  ℕ, zero, suc, ◌+◌, ◌-◌, ◌≤◌, ◌<◌, ◌≡◌, refl, sym, ap, ◌∙◌, min, some, List, [], ◌∷◌, arith,
  length, set, get_or-set_self, take, drop, take_all, drop_all, ltb, ◌==◌, false,
}
use mathlib.Core.List.{append-nil}
use multi_threaded_socket.Packet.Header.{copy_bytes}
use multi_threaded_socket.Packet.Contents.{length-copy_bytes, take-copy_bytes}
use multi_threaded_socket.MessageWriter.{MessageWriter, payload, write, write_round, write_rounds}
use multi_threaded_socket.MessageWriter
use multi_threaded_socket.MessageReader.{MessageReader, read, read_round, read_rounds}
use multi_threaded_socket.MessageReader

-- The packet that is written, and its size.
abbrev pub current : MessageWriter → List ℕ
current w = payload w.packets w.packet

abbrev pub wrote : MessageWriter → List ℕ → MessageWriter
wrote w bytes = record w {
  packets = set w.packets w.packet (copy_bytes (current w) w.offset bytes);
  offset = w.offset + length bytes;
}

-- A round that stays within its packet.
write_round-fits :
    (w : MessageWriter) (bytes : List ℕ)
    → w.offset < length (current w)
    → w.offset + length bytes ≤ length (current w)
    → write_round w bytes ≡ some (wrote w bytes, [])
unfolding write_round MessageWriter.copy_round
write_round-fits w bytes inside fits =
    let e₁ : (w.offset == length (current w)) ≡ false = ground arith in
    let e₂ : ltb (length (current w)) w.offset ≡ false = ground arith in
    let e₃ : min (length bytes) (length (current w) - w.offset) ≡ length bytes = ground arith in
    rw
      (
        e₁,
        e₂,
        e₃,
        take_all (length bytes) bytes (omega arith),
        drop_all (length bytes) bytes (omega arith),
      )
      refl

pub write_rounds-step :
    (fuel : ℕ) (w w' : MessageWriter) (b : ℕ) (bytes rest : List ℕ)
    → write_round w (b ∷ bytes) ≡ some (w', rest)
    → write_rounds (suc fuel) w (b ∷ bytes) ≡ write_rounds fuel w' rest
unfolding write_rounds
write_rounds-step fuel w w' b bytes rest e = rw (e, write_rounds) refl

pub write_rounds-done : (fuel : ℕ) (w : MessageWriter) → write_rounds fuel w [] ≡ some w
unfolding write_rounds
write_rounds-done zero w = refl
write_rounds-done (suc fuel) w = refl

pub write_fuel :
    (w : MessageWriter) (b : ℕ) (bytes : List ℕ)
    → write w (b ∷ bytes) ≡ write_rounds (suc (length bytes + length w.packets)) w (b ∷ bytes)
unfolding write
write_fuel w b bytes =
    let more : length (b ∷ bytes) + length w.packets ≡ suc (length bytes + length w.packets) =
      omega arith in
    ap (λ fuel. write_rounds fuel w (b ∷ bytes)) more

write-fits :
    (w : MessageWriter) (b : ℕ) (bytes : List ℕ)
    → w.offset + suc (length bytes) ≤ length (current w)
    → write w (b ∷ bytes) ≡ some (wrote w (b ∷ bytes))
write-fits w b bytes fits =
    write_fuel w b bytes
    ∙ write_rounds-step (length bytes + length w.packets) w (wrote w (b ∷ bytes)) b bytes []
        (write_round-fits w (b ∷ bytes) (omega arith) fits)
    ∙ write_rounds-done (length bytes + length w.packets) (wrote w (b ∷ bytes))

-- The packet that is read.
abbrev pub source : MessageReader → List ℕ
source r = payload r.packets r.packet

-- A round that stays within its packet.
read_round-fits :
    (r : MessageReader) (size : ℕ)
    → r.offset < length (source r)
    → r.offset + size ≤ length (source r)
    → read_round r size
      ≡ some (take size (drop r.offset (source r)), record r { offset = r.offset + size })
unfolding read_round MessageReader.copy_round
read_round-fits r size inside fits =
    let e₁ : (r.offset == length (source r)) ≡ false = ground arith in
    let e₂ : ltb (length (source r)) r.offset ≡ false = ground arith in
    let e₃ : min size (length (source r) - r.offset) ≡ size = ground arith in rw (e₁, e₂, e₃) refl

read_rounds-last :
    (fuel : ℕ) (r r' : MessageReader) (size : ℕ) (bytes : List ℕ)
    → read_round r (suc size) ≡ some (bytes, r')
    → length bytes ≡ suc size
    → read_rounds (suc fuel) r (suc size) ≡ some (bytes, r')
unfolding read_rounds
read_rounds-last fuel r r' size bytes e l =
    let done : suc size - length bytes ≡ 0 = omega (arith, l) in
    rw (e, read_rounds, done, append-nil bytes) refl

read_fuel :
    (r : MessageReader) (size : ℕ)
    → read r (suc size) ≡ read_rounds (suc (size + length r.packets)) r (suc size)
unfolding read
read_fuel r size =
    let more : suc size + length r.packets ≡ suc (size + length r.packets) = omega arith in
    ap (λ fuel. read_rounds fuel r (suc size)) more

-- Data that fits into what is left of the packet being written is written, into this packet only; a
-- reader that stands there reads it back, and both stand behind it then.
pub round_trip :
    (w : MessageWriter) (b : ℕ) (bytes : List ℕ)
    → w.packet < length w.packets
    → w.offset + suc (length bytes) ≤ length (current w)
    → (w' : MessageWriter) × (write w (b ∷ bytes) ≡ some w')
      × (w'.packets ≡ set w.packets w.packet (current w'))
      × (w'.offset ≡ w.offset + suc (length bytes))
      × (read
            (record { packets = w'.packets; packet = w.packet; offset = w.offset })
            (suc (length bytes))
          ≡ some
              (b ∷ bytes, record { packets = w'.packets; packet = w'.packet; offset = w'.offset }))
round_trip w b bytes here fits = (
  wrote w (b ∷ bytes),
  write-fits w b bytes fits,
  ap (set w.packets w.packet) (sym written),
  refl,
  read_back,
)
  where
    reader : MessageReader
    reader = record {
      packets = (wrote w (b ∷ bytes)).packets;
      packet = w.packet;
      offset = w.offset;
    }

    written : source reader ≡ copy_bytes (current w) w.offset (b ∷ bytes)
    written =
        get_or-set_self w.packets w.packet (copy_bytes (current w) w.offset (b ∷ bytes)) [] here

    sized : length (source reader) ≡ length (current w)
    sized = ap length written ∙ length-copy_bytes (b ∷ bytes) (current w) w.offset

    round :
        read_round reader (suc (length bytes))
        ≡ some (b ∷ bytes, record reader { offset = w.offset + suc (length bytes) })
    round =
        read_round-fits reader (suc (length bytes)) (omega (arith, sized)) (omega (arith, sized))
        ∙ ap (λ got. some (got, record reader { offset = w.offset + suc (length bytes) }))
            (ap (λ p. take (suc (length bytes)) (drop w.offset p)) written
              ∙ take-copy_bytes (b ∷ bytes) (current w) w.offset fits)

    read_back :
        read reader (suc (length bytes))
        ≡ some (b ∷ bytes, record reader { offset = w.offset + suc (length bytes) })
    read_back =
        read_fuel reader (length bytes)
        ∙ read_rounds-last (length bytes + length reader.packets) reader
            (record reader { offset = w.offset + suc (length bytes) }) (length bytes) (b ∷ bytes)
            round refl
