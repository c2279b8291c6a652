-- ===== src/Connection/Reading.antt =====
-- Connection::Recv with a size.
use multi_threaded_socket.Common.{ℕ, Bool, false, ◌||◌, List, [], ◌∷◌, if◌then◌else◌}
use multi_threaded_socket.Packet.{Packet}
use multi_threaded_socket.Connection.{Connection, recv_some}

-- Whether a wait ends because packets are there.
abbrev pub any_ready : List Bool → Bool
any_ready [] = false
any_ready (ready ∷ waits) = ready || any_ready waits

abbrev after_waits : Bool → Connection → ℕ → List Packet × Connection
after_waits ready c size = if ready then recv_some c size else ([], c)
