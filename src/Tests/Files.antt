-- ===== src/Tests/Files.antt =====
-- A file of 12 bytes, of which a cache holds the first 5, and a directory with two files.
use multi_threaded_socket.Common.{
  ℕ, ◌-◌, ◌/◌, ◌≡◌, ◌≢◌, refl, min, inl, subst, some-injective, some, List, [], ◌∷◌, ◌++◌, arith,
  find, assign, Distinct, All, All-single, ok, false,
}
use multi_threaded_socket.MultiList.{concat}
use multi_threaded_socket.FileSystem.Range.{Range, new_range, pin, upper_bound}
use multi_threaded_socket.FileSystem.Range.Slice.{slice}
use multi_threaded_socket.FileSystem.Leaf.{Leaf, in_cache, block_size}
use multi_threaded_socket.FileSystem.Leaf.Data.{add_data, get_first_block_index}
use multi_threaded_socket.FileSystem.Leaf.Reading.{
  View, get_data, read_rounds, find_range, pin_range, read_packets, skip_packets, take_spans,
}
use multi_threaded_socket.FileSystem.Leaf.Agreement.{Holds, Agrees, assign-Agrees}
use multi_threaded_socket.FileSystem.Leaf.AddData.{Fits, add_data-Agrees}
use multi_threaded_socket.FileSystem.Leaf.GetData.{Read, empty_view, get_data-Read}
use multi_threaded_socket.FileSystem.Leaf.Eviction.{get_data-pinned}
use multi_threaded_socket.FileSystem.Tree
use multi_threaded_socket.FileSystem.Tree.{
  leaf, none_left, child, name_less, serialize, deserialize,
}
use multi_threaded_socket.FileSystem.Tree.RoundTrip.{IsValid, Behind, deserialize-serialize}

-- Its byte at an offset is the offset.
abbrev file : ℕ → ℕ
file n = n

abbrev first_bytes : Range
first_bytes = new_range 0 5 ((0 ∷ 1 ∷ 2 ∷ []) ∷ (3 ∷ 4 ∷ []) ∷ [])

abbrev empty_leaf : Leaf
empty_leaf = record {
  size = 12;
  nlookup = 0;
  self_pin = false;
  blocks = [];
  pieces_status = in_cache ∷ [];
  pending_jobs = [];
}

abbrev cached_leaf : Leaf
cached_leaf = record empty_leaf { blocks = (0, first_bytes ∷ []) ∷ [] }

empty_leaf-Agrees : Agrees file empty_leaf
unfolding Agrees find
empty_leaf-Agrees index ranges e = cc

first_bytes-Holds : Holds file first_bytes
unfolding slice
first_bytes-Holds = record { contents = refl; filled = omega arith; counted = omega arith }

cached_leaf-Agrees : Agrees file cached_leaf
unfolding assign
cached_leaf-Agrees =
    assign-Agrees file empty_leaf 0 (first_bytes ∷ []) empty_leaf-Agrees
      (All-single (Holds file) first_bytes-Holds) cached_leaf refl

cached_leaf-Distinct : Distinct cached_leaf.blocks
unfolding Distinct find
cached_leaf-Distinct = (refl, tt)

-- The three bytes that follow.
abbrev next_bytes : List (List ℕ)
next_bytes = (5 ∷ 6 ∷ 7 ∷ []) ∷ []

next_bytes-Fits :
    (ranges : List Range)
    → find (5 / block_size) cached_leaf.blocks ≡ some ranges
    → All (Fits 5 next_bytes) ranges
unfolding find Fits
next_bytes-Fits ranges e =
    subst (All (Fits 5 next_bytes)) (some-injective (first_bytes ∷ []) ranges e)
      (All-single (Fits 5 next_bytes) (inl (omega arith)))

next_bytes_contents : concat next_bytes ≡ slice file 5 3
unfolding slice
next_bytes_contents = refl

add_data_example : Agrees file (add_data cached_leaf 5 3 next_bytes).0
add_data_example =
    add_data-Agrees file 5 3 next_bytes next_bytes_contents (omega arith) cached_leaf
      cached_leaf-Agrees next_bytes-Fits

get_data_example :
    (v : View) × (get_data cached_leaf 1 10 ≡ ok v)
    × Read file (empty_view file cached_leaf) 1 (min 10 (12 - 1)) v
get_data_example = get_data-Read file cached_leaf 1 10 cached_leaf-Agrees

-- Four bytes from the second on are there. The range is pinned once more when the loop finds that it
-- ends there.
abbrev read_view : View
read_view = record {
  leaf = record cached_leaf { blocks = (0, pin (pin first_bytes) ∷ []) ∷ [] };
  spans = (1 ∷ 2 ∷ []) ∷ (3 ∷ 4 ∷ []) ∷ [];
  pinned = (0, 0) ∷ (0, 0) ∷ [];
}

read_view_read : get_data cached_leaf 1 10 ≡ ok read_view
unfolding get_data read_rounds find_range pin_range read_packets skip_packets take_spans find assign
    upper_bound pin
read_view_read = refl

get_data_pinned_example :
    All (λ (p : ℕ × ℕ). get_first_block_index read_view.leaf ≢ some p.0) read_view.pinned
get_data_pinned_example =
    get_data-pinned file cached_leaf 1 10 read_view cached_leaf-Agrees cached_leaf-Distinct
      read_view_read

-- A directory `d` with the files `a` and `b`, whose sizes are 5 and 300.
abbrev directory : Tree.Leaf
directory =
    leaf (100 ∷ []) 2 0
      (child (leaf (97 ∷ []) 1 5 none_left) (child (leaf (98 ∷ []) 1 300 none_left) none_left))

directory-IsValid : IsValid directory
unfolding IsValid Behind name_less
directory-IsValid = (
  omega arith,
  omega arith,
  omega arith,
  omega arith,
  (
    (omega arith, omega arith, omega arith, omega arith, tt),
    (refl, tt),
    ((omega arith, omega arith, omega arith, omega arith, tt), tt, tt),
  ),
)

deserialize_example : deserialize (serialize directory ++ 7 ∷ []) ≡ some (directory, 7 ∷ [])
deserialize_example = deserialize-serialize directory (7 ∷ []) directory-IsValid
