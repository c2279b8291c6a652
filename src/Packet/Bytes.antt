-- ===== src/Packet/Bytes.antt =====
-- Integers in a byte buffer: what `std::memcpy` of an unsigned integer of `w` bytes to and from a
-- `std::span<std::byte>` does on a little-endian host. A byte is a number below 256.
use multi_threaded_socket.Common.{
  ℕ, zero, suc, ◌+◌, ◌*◌, ◌/◌, ◌%◌, ◌≤◌, ◌<◌, ◌≡◌, ◌⊎◌, inl, refl, ◌∙◌, List, arith, length, get_or,
  set, length-set, get_or-set_self, get_or-set_ne,
}

-- memcpy(&result, buffer + offset, w). A read past the end would be undefined; it gives 0 here.
unfoldable pub read_le : List ℕ → ℕ → ℕ → ℕ
read_le buf o zero = 0
read_le buf o (suc w) = get_or buf o 0 + 256 * read_le buf (o + 1) w

-- memcpy(buffer + offset, &value, w). A write past the end would be undefined; it is dropped here.
unfoldable pub write_le : List ℕ → ℕ → ℕ → ℕ → List ℕ
write_le buf o zero v = buf
write_le buf o (suc w) v = write_le (set buf o (v % 256)) (o + 1) w (v / 256)

pub length-write_le : (buf : List ℕ) (o w v : ℕ) → length (write_le buf o w v) ≡ length buf
unfolding write_le
length-write_le buf o zero v = refl
length-write_le buf o (suc w) v =
    length-write_le (set buf o (v % 256)) (o + 1) w (v / 256) ∙ length-set buf o (v % 256)

pub get_or-write_le_out :
    (buf : List ℕ) (o w v j : ℕ)
    → (j < o) ⊎ (o + w ≤ j)
    → get_or (write_le buf o w v) j 0 ≡ get_or buf j 0
unfolding write_le
get_or-write_le_out buf o zero v j h = refl
get_or-write_le_out buf o (suc w) v j h =
    get_or-write_le_out (set buf o (v % 256)) (o + 1) w (v / 256) j (ground arith)
    ∙ get_or-set_ne buf o j (v % 256) 0 (ground arith)

-- A write leaves every integer that it does not overlap.
pub read-write_le_disjoint :
    (buf : List ℕ) (o w v o' w' : ℕ)
    → (o' + w' ≤ o) ⊎ (o + w ≤ o')
    → read_le (write_le buf o w v) o' w' ≡ read_le buf o' w'
unfolding read_le
read-write_le_disjoint buf o w v o' zero h = refl
read-write_le_disjoint buf o w v o' (suc w') h = omega (
  arith,
  get_or-write_le_out buf o w v o' (ground arith),
  read-write_le_disjoint buf o w v (o' + 1) w' (ground arith),
)

abbrev pub pow256 : ℕ → ℕ
pow256 zero = 1
pow256 (suc w) = 256 * pow256 w

pub read_le-write_le :
    (buf : List ℕ) (o w v : ℕ)
    → o + w ≤ length buf
    → v < pow256 w
    → read_le (write_le buf o w v) o w ≡ v
unfolding read_le write_le
read_le-write_le buf o zero v h b = omega arith
read_le-write_le buf o (suc w) v h b = omega (
  arith,
  get_or-write_le_out (set buf o (v % 256)) (o + 1) w (v / 256) o (inl (omega arith)),
  get_or-set_self buf o (v % 256) 0 (omega arith),
  read_le-write_le (set buf o (v % 256)) (o + 1) w (v / 256)
      (omega (arith, length-set buf o (v % 256))) (omega arith),
)
