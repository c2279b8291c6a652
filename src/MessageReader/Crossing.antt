-- ===== src/MessageReader/Crossing.antt =====
-- What MessageWriter does where a packet ends.
use multi_threaded_socket.Common.{
  ℕ, suc, ◌+◌, ◌-◌, ◌≤◌, ◌<◌, ◌≡◌, refl, ap, ◌∙◌, min, some, List, [], ◌∷◌, ◌++◌, arith, length,
  length-append, length-set, set, get_or-set_self, get_or-set_ne, take, drop, take_all, drop_all,
  ltb, ◌==◌, true, false,
}
use multi_threaded_socket.Packet.Header.{copy_bytes}
use multi_threaded_socket.Packet.Contents.{length-copy_bytes, take-copy_bytes}
use multi_threaded_socket.MessageWriter.{MessageWriter, payload, write, write_round, write_rounds}
use multi_threaded_socket.MessageWriter
use multi_threaded_socket.MessageReader.RoundTrip.{
  current, wrote, write_rounds-step, write_rounds-done, write_fuel,
}

take-exact : (xs ys : List ℕ) → take (length xs) (xs ++ ys) ≡ xs
take-exact [] ys = refl
take-exact (x ∷ xs) ys = ap (◌∷◌ x) (take-exact xs ys)

drop-exact : (xs ys : List ℕ) → drop (length xs) (xs ++ ys) ≡ ys
drop-exact [] ys = refl
drop-exact (x ∷ xs) ys = drop-exact xs ys

-- A round that fills its packet.
write_round-fills :
    (w : MessageWriter) (first rest : List ℕ)
    → w.offset < length (current w)
    → w.offset + length first ≡ length (current w)
    → write_round w (first ++ rest) ≡ some (wrote w first, rest)
unfolding write_round MessageWriter.copy_round
write_round-fills w first rest inside fills =
    let e₁ : (w.offset == length (current w)) ≡ false = ground arith in
    let e₂ : ltb (length (current w)) w.offset ≡ false = ground arith in
    let e₃ : min (length (first ++ rest)) (length (current w) - w.offset) ≡ length first =
      ground (arith, length-append first rest) in
    rw (e₁, e₂, e₃, take-exact first rest, drop-exact first rest) refl

-- A round at the end of its packet: it goes on to the next packet, and writes into this one.
write_round-stays :
    (w : MessageWriter) (bytes : List ℕ)
    → w.offset ≡ length (current w)
    → w.packet + 1 < length w.packets
    → length bytes ≤ length (current w)
    → write_round w bytes
      ≡ some (
        record {
          packets = set w.packets w.packet (copy_bytes (current w) 0 bytes);
          packet = w.packet + 1;
          writed_packet_number = w.writed_packet_number + 1;
          offset = 0 + length bytes;
        },
        [],
      )
unfolding write_round MessageWriter.copy_round MessageWriter.get_next_packet
write_round-stays w bytes full more fits =
    let e₁ : (w.offset == length (current w)) ≡ true = ground arith in
    let e₂ : ltb (w.packet + 1) (length w.packets) ≡ true = ground arith in
    let e₃ : ltb (length (current w)) 0 ≡ false = ground arith in
    let e₄ : min (length bytes) (length (current w) - 0) ≡ length bytes = ground arith in
    rw
      (
        e₁,
        e₂,
        e₃,
        e₄,
        take_all (length bytes) bytes (omega arith),
        drop_all (length bytes) bytes (omega arith),
      )
      refl

-- Data that goes over the end of its packet, by no more than the packet's size: what fits is written
-- at the offset, but the rest of it goes to the beginning of the same packet, over what was there. Of
-- that packet nothing else changes, and the next packet is
-- as it was, though the writer stands in it, behind as many bytes.
pub crossing_overwrites :
    (w : MessageWriter) (a : ℕ) (first : List ℕ) (b : ℕ) (rest : List ℕ)
    → w.packet + 1 < length w.packets
    → w.offset + suc (length first) ≡ length (current w)
    → suc (length rest) ≤ length (current w)
    → (w' : MessageWriter) × (write w (a ∷ first ++ b ∷ rest) ≡ some w')
      × (w'.packet ≡ w.packet + 1)
      × (w'.offset ≡ suc (length rest))
      × (payload w'.packets (w.packet + 1) ≡ payload w.packets (w.packet + 1))
      × (take (suc (length rest)) (payload w'.packets w.packet) ≡ b ∷ rest)
      × (payload w'.packets w.packet
          ≡ copy_bytes (copy_bytes (current w) w.offset (a ∷ first)) 0 (b ∷ rest))
crossing_overwrites w a first b rest more fills fits =
    (w₂, rounds, refl, omega arith, next_kept, overwritten, both)
  where
    w₁ : MessageWriter
    w₁ = wrote w (a ∷ first)

    w₂ : MessageWriter
    w₂ = record {
      packets = set w₁.packets w.packet (copy_bytes (current w₁) 0 (b ∷ rest));
      packet = w.packet + 1;
      writed_packet_number = w.writed_packet_number + 1;
      offset = 0 + suc (length rest);
    }

    filled : current w₁ ≡ copy_bytes (current w) w.offset (a ∷ first)
    filled =
        get_or-set_self w.packets w.packet (copy_bytes (current w) w.offset (a ∷ first)) []
          (omega (arith, more))

    sized : length (current w₁) ≡ length (current w)
    sized = ap length filled ∙ length-copy_bytes (a ∷ first) (current w) w.offset

    packets_sized : length w₁.packets ≡ length w.packets
    packets_sized = length-set w.packets w.packet (copy_bytes (current w) w.offset (a ∷ first))

    rounds : write w (a ∷ first ++ b ∷ rest) ≡ some w₂
    rounds =
        let fuel : length (first ++ b ∷ rest) + length w.packets
            ≡ suc (length first + length rest + length w.packets) =
          omega (arith, length-append first (b ∷ rest)) in
        write_fuel w a (first ++ b ∷ rest)
        ∙ write_rounds-step _ w w₁ a (first ++ b ∷ rest) (b ∷ rest)
            (write_round-fills w (a ∷ first) (b ∷ rest) (omega (arith, fills)) fills)
        ∙ ap (λ n. write_rounds n w₁ (b ∷ rest)) fuel
        ∙ write_rounds-step _ w₁ w₂ b rest [] (
            write_round-stays w₁ (b ∷ rest) (omega (arith, fills, sized))
              (omega (arith, more, packets_sized)) (omega (arith, fits, sized)))
        ∙ write_rounds-done _ w₂

    next_kept : payload w₂.packets (w.packet + 1) ≡ payload w.packets (w.packet + 1)
    next_kept =
        get_or-set_ne w₁.packets w.packet (w.packet + 1) (copy_bytes (current w₁) 0 (b ∷ rest)) []
          (omega arith)
        ∙ get_or-set_ne w.packets w.packet (w.packet + 1)
            (copy_bytes (current w) w.offset (a ∷ first)) [] (omega arith)

    both :
        payload w₂.packets w.packet
        ≡ copy_bytes (copy_bytes (current w) w.offset (a ∷ first)) 0 (b ∷ rest)
    both =
        get_or-set_self w₁.packets w.packet (copy_bytes (current w₁) 0 (b ∷ rest)) []
          (omega (arith, more, packets_sized))
        ∙ ap (λ buf. copy_bytes buf 0 (b ∷ rest)) filled

    overwritten : take (suc (length rest)) (payload w₂.packets w.packet) ≡ b ∷ rest
    overwritten =
        ap (take (suc (length rest))) (
          get_or-set_self w₁.packets w.packet (copy_bytes (current w₁) 0 (b ∷ rest)) []
            (omega (arith, more, packets_sized)))
        ∙ take-copy_bytes (b ∷ rest) (current w₁) 0 (omega (arith, fits, sized))
