-- ===== src/Packet/Types.antt =====
-- HeaderTypes.hpp, and the address of ConnectionAddr.hpp that a packet carries.
use multi_threaded_socket.Common.{
  ℕ, ◌+◌, ◌^◌, ◌≡◌, refl, Bool, false, ◌==◌, if◌then◌else◌, Option, some, none,
}

-- `enum class PacketType : int16_t`. `unknown n` is a value n that no enumerator has.
pub data PacketType : Type 0 where
  none_type syn ack syn_ack data_type sack fin close : PacketType
  unknown : ℕ → PacketType

-- The underlying 16-bit value.
unfoldable pub type_code : PacketType → ℕ
type_code none_type = 0
type_code syn = 1
type_code ack = 2
type_code syn_ack = 3
type_code data_type = 4
type_code sack = 8
type_code fin = 16
type_code close = 32
type_code (unknown n) = n

unfoldable pub type_of_code : ℕ → PacketType
type_of_code c =
    if c == 0
    then none_type
    else if c == 1
    then syn
    else if c == 2
    then ack
    else if c == 3
    then syn_ack
    else if c == 4
    then data_type
    else if c == 8
    then sack
    else if c == 16
    then fin
    else if c == 32
    then close
    else unknown c

-- No enumerator has the value of an `unknown`.
abbrev pub IsCanonical : PacketType → Type 0
IsCanonical (unknown n) = type_of_code n ≡ unknown n
IsCanonical _ = Unit {0}

pub type_of_code-type_code : (t : PacketType) → IsCanonical t → type_of_code (type_code t) ≡ t
unfolding type_of_code type_code
type_of_code-type_code none_type h = refl
type_of_code-type_code syn h = refl
type_of_code-type_code ack h = refl
type_of_code-type_code syn_ack h = refl
type_of_code-type_code data_type h = refl
type_of_code-type_code sack h = refl
type_of_code-type_code fin h = refl
type_of_code-type_code close h = refl
type_of_code-type_code (unknown n) h = h

abbrev pub magic_number : ℕ
magic_number = 0x12345678

abbrev pub seq_mod : ℕ
seq_mod = 2 ^ 32

-- `~SeqNumberType {}`
abbrev pub no_seq_number : ℕ
no_seq_number = 0xffffffff

abbrev pub max_acks_size : ℕ
max_acks_size = 300

abbrev pub max_payload_size : ℕ
max_payload_size = 1300

abbrev pub header_size : ℕ
header_size = 4 + 2 + 2 + 2 + 4 + 4 + 2

-- The parts of `sockaddr_storage` that the class reads: the family, the address and the port.
pub record ConnectionAddr : Type 0 where
  pub family : ℕ
  pub address : ℕ
  pub port : ℕ

abbrev pub default_addr : ConnectionAddr
default_addr = record { family = 0; address = 0; port = 0 }

abbrev pub af_inet : ℕ
af_inet = 2

-- `operator==`; `none` is the exception "Not implemented".
unfoldable pub equal_addr : ConnectionAddr → ConnectionAddr → Option Bool
equal_addr a b =
    if a.family == b.family
    then (if a.family == af_inet
        then (if a.port == b.port then some (a.address == b.address) else some false)
        else none)
    else some false
