-- ===== src/Tests/Streams.antt =====
-- A stream of bytes that is written and read over the end of a packet.
use multi_threaded_socket.Common.{◌≡◌, refl, [], ◌∷◌, none, some, false, arith, All}
use multi_threaded_socket.ConnectionReader.{ConnectionReader, read_rounds}
use multi_threaded_socket.ConnectionReader.Ends.{read_rounds_end}
use multi_threaded_socket.ConnectionWriter.{
  ConnectionWriter, Freed, new_writer, write, write_rounds, copy_round, get_next_packet, flush,
}
use multi_threaded_socket.ConnectionWriter.Rounds.{IsReady, AllFilled}
use multi_threaded_socket.ConnectionWriter.Stream.{Wrote, write-Wrote}

abbrev half_read : ConnectionReader
half_read = record {
  packets = (1 ∷ 2 ∷ 3 ∷ []) ∷ (4 ∷ 5 ∷ []) ∷ [];
  packet = 0;
  offset = 1;
  error = false;
}

-- Two bytes are left, and three are wanted.
read_rounds_end_example : read_rounds 3 half_read 3 ≡ none
read_rounds_end_example = read_rounds_end 3 half_read 3 (omega arith) (omega arith)

abbrev two_empty : ConnectionWriter
two_empty = new_writer ((0 ∷ 0 ∷ []) ∷ (0 ∷ 0 ∷ []) ∷ [])

abbrev one_more : Freed
one_more = ((0 ∷ 0 ∷ 0 ∷ []) ∷ []) ∷ []

two_empty-IsReady : IsReady two_empty
unfolding All new_writer
two_empty-IsReady = record {
  here = omega arith;
  room = omega arith;
  filled = (omega arith, (omega arith, tt));
}

one_more-AllFilled : AllFilled one_more
unfolding All
one_more-AllFilled = ((omega arith, (omega arith, tt)), tt)

-- Five bytes fill both packets and the first byte of a third, which a wait gives.
write_example :
    Wrote two_empty
      (1 ∷ 2 ∷ 3 ∷ 4 ∷ 5 ∷ [])
      (write two_empty false (1 ∷ 2 ∷ 3 ∷ 4 ∷ 5 ∷ []) one_more)
write_example =
    write-Wrote two_empty (1 ∷ 2 ∷ 3 ∷ 4 ∷ 5 ∷ []) one_more two_empty-IsReady one_more-AllFilled

-- What `flush` sends of it.
written_out :
    (w : ConnectionWriter) × (write two_empty false (1 ∷ 2 ∷ 3 ∷ 4 ∷ 5 ∷ []) one_more
      ≡ some (w, []))
    × ((flush w false []).0.packets_to_send ≡ (1 ∷ 2 ∷ []) ∷ (3 ∷ 4 ∷ []) ∷ (5 ∷ []) ∷ [])
unfolding write write_rounds copy_round get_next_packet flush new_writer
written_out = (_, refl, refl)
