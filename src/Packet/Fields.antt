-- ===== src/Packet/Fields.antt =====
-- The seven header fields as independent variables.
use multi_threaded_socket.Common.{
  ℕ, ◌+◌, ◌%◌, ◌^◌, ◌≤◌, ◌<◌, ◌≡◌, ◌⊎◌, inl, inr, refl, ap, ◌∙◌, Bool, true, false, List, [], ◌∷◌,
  arith, length, ◌==◌, if◌then◌else◌, Bool-cases,
}
use multi_threaded_socket.Packet.Bytes.{
  read_le, write_le, pow256, read_le-write_le, read-write_le_disjoint, length-write_le,
}
use multi_threaded_socket.Packet.Types.{
  PacketType, type_code, type_of_code, type_of_code-type_code, IsCanonical, header_size,
  magic_number,
}
use multi_threaded_socket.Packet.{
  Packet, get_packet_type, set_packet_type, get_src_connection_id, set_src_connection_id,
  get_dst_connection_id, set_dst_connection_id, get_seq_number, set_seq_number, get_ack_number,
  set_ack_number, set_magic, is_valid, set_payload_size,
}
use multi_threaded_socket.Packet.Header

-- The numeric fields of the header.
pub data Field : Type 0 where
  magic_field type_field src_field dst_field seq_field ack_field size_field : Field

abbrev pub offset : Field → ℕ
offset magic_field = 0
offset type_field = 4
offset src_field = 6
offset dst_field = 8
offset seq_field = 10
offset ack_field = 14
offset size_field = 18

abbrev pub width : Field → ℕ
width magic_field = 4
width type_field = 2
width src_field = 2
width dst_field = 2
width seq_field = 4
width ack_field = 4
width size_field = 2

-- A field's value as the code's getters see it.
abbrev pub field : Field → List ℕ → ℕ
field f buf = read_le buf (offset f) (width f)

pub width-fits : (f : Field) → offset f + width f ≤ header_size
width-fits magic_field = omega arith
width-fits _ = omega arith

same-eq : (f g : Field) → (offset f == offset g) ≡ true → f ≡ g
same-eq f g e = ground arith

disjoint :
    (f g : Field)
    → (offset f == offset g) ≡ false
    → (offset g + width g ≤ offset f) ⊎ (offset f + width f ≤ offset g)
disjoint f g e = ground arith

abbrev pub same_field : Field → Field → Bool
same_field f g = offset f == offset g

-- Storing a value in one field gives that value back and leaves each of the other fields.
pub field-write :
    (f g : Field) (v : ℕ) (buf : List ℕ)
    → header_size ≤ length buf
    → v < pow256 (width f)
    → field g (write_le buf (offset f) (width f) v) ≡ (if same_field f g then v else field g buf)
field-write f g v buf h b = elim (Bool-cases (same_field f g)) [
  | inl e ↦
      rw (e, same-eq f g e)
        (read_le-write_le buf (offset g) (width g) v (omega (arith, width-fits g))
          (rw (same-eq f g e) at b))
  | inr e ↦
      rw e (read-write_le_disjoint buf (offset f) (width f) v (offset g) (width g) (disjoint f g e))
]

-- A sequence of stores, and the last value that it stores in a field.
abbrev pub write_fields : List (Field × ℕ) → List ℕ → List ℕ
write_fields [] buf = buf
write_fields ((f, v) ∷ ws) buf = write_fields ws (write_le buf (offset f) (width f) v)

abbrev pub last_value : List (Field × ℕ) → Field → ℕ → ℕ
last_value [] g d = d
last_value ((f, v) ∷ ws) g d = last_value ws g (if same_field f g then v else d)

abbrev pub Fit : List (Field × ℕ) → Type 0
Fit [] = Unit {0}
Fit ((f, v) ∷ ws) = (v < pow256 (width f)) × Fit ws

pub field-write_fields :
    (ws : List (Field × ℕ)) (g : Field) (buf : List ℕ)
    → header_size ≤ length buf
    → Fit ws
    → field g (write_fields ws buf) ≡ last_value ws g (field g buf)
field-write_fields [] g buf h fit = refl
field-write_fields ((f, v) ∷ ws) g buf h fit =
    field-write_fields ws g (write_le buf (offset f) (width f) v)
      (rw (length-write_le buf (offset f) (width f) v) h) fit.1
    ∙ ap (last_value ws g) (field-write f g v buf h fit.0)

length-write_fields :
    (ws : List (Field × ℕ)) (buf : List ℕ) → length (write_fields ws buf) ≡ length buf
length-write_fields [] buf = refl
length-write_fields ((f, v) ∷ ws) buf =
    length-write_fields ws (write_le buf (offset f) (width f) v)
    ∙ length-write_le buf (offset f) (width f) v

-- A packet given all its header fields reads back every one of them, and is valid.
pub header_round_trip :
    (p : Packet) (type : PacketType) (src dst seq ack size : ℕ)
    → header_size ≤ length p.element
    → IsCanonical type
    → type_code type < 2 ^ 16
    → src < 2 ^ 16
    → dst < 2 ^ 16
    → seq < 2 ^ 32
    → ack < 2 ^ 32
    → let q = set_magic (
        set_payload_size
          (set_ack_number
            (set_seq_number
              (set_dst_connection_id (set_src_connection_id (set_packet_type p type) src) dst)
              seq)
            ack)
          size) in
      (is_valid q ≡ true)
      × (get_packet_type q ≡ type)
      × (get_src_connection_id q ≡ src)
      × (get_dst_connection_id q ≡ dst)
      × (get_seq_number q ≡ seq)
      × (get_ack_number q ≡ ack)
      × (Header.get_payload_size q.element ≡ size % 2 ^ 16)
unfolding is_valid get_packet_type set_packet_type get_src_connection_id set_src_connection_id
    get_dst_connection_id set_dst_connection_id get_seq_number set_seq_number get_ack_number
    set_ack_number set_magic set_payload_size Header.get_payload_size
header_round_trip p type src dst seq ack size h canonical ht hs hd hq ha = (
  ground (arith, read magic_field, length-write_fields stores p.element),
  ap type_of_code (read type_field) ∙ type_of_code-type_code type canonical,
  read src_field,
  read dst_field,
  read seq_field,
  read ack_field,
  read size_field,
)
  where
    stores : List (Field × ℕ)
    stores =
        (type_field, type_code type)
        ∷ (src_field, src)
        ∷ (dst_field, dst)
        ∷ (seq_field, seq)
        ∷ (ack_field, ack)
        ∷ (size_field, size % 2 ^ 16)
        ∷ (magic_field, magic_number)
        ∷ []

    read :
        (g : Field)
        → field g (write_fields stores p.element) ≡ last_value stores g (field g p.element)
    read g = field-write_fields stores g p.element h (omega arith)
