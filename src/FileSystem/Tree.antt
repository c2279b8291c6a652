-- ===== src/FileSystem/Tree.antt =====
-- LeafSerializer.hpp, ByteStream.hpp and the children of a leaf in Leaf.cpp: a tree of leaves, and
-- the bytes that it is sent as. A name is its bytes, and `children` is the map's leaves in the
-- order of their names, which are its keys. The stream is a parameter of the source: here it is the
-- bytes that were written and not yet read; a read of more than there is gives `none`.
pub mod RoundTrip
use multi_threaded_socket.Common.{
  ℕ, zero, suc, ◌+◌, ◌*◌, ◌/◌, ◌%◌, Bool, true, false, ◌&&◌, Option, none, some, List, [], ◌∷◌,
  ◌++◌, length, take, drop, ltb, leb, ◌==◌, if◌then◌else◌,
}

mutual
  pub data Leaf : Type 0 where
    leaf : (name : List ℕ) (type size : ℕ) (children : Children) → Leaf

  pub data Children : Type 0 where
    none_left : Children
    child : Leaf → Children → Children

abbrev pub get_name : Leaf → List ℕ
get_name (leaf name type size children) = name

abbrev pub get_children : Leaf → Children
get_children (leaf name type size children) = children

abbrev pub count : Children → ℕ
count none_left = 0
count (child l children) = suc (count children)

-- `operator<` of strings: byte by byte.
unfoldable pub name_less : List ℕ → List ℕ → Bool
name_less [] [] = false
name_less [] (y ∷ ys) = true
name_less (x ∷ xs) [] = false
name_less (x ∷ xs) (y ∷ ys) = let rest = name_less xs ys in if x == y then rest else ltb x y

-- `children.insert`: in its place, unless the name is there.
unfoldable pub insert_child : Leaf → Children → Children
insert_child l none_left = child l none_left
insert_child l (child x children) =
    let rest = insert_child l children in
    if name_less (get_name l) (get_name x)
    then child l (child x children)
    else if name_less (get_name x) (get_name l)
    then child x rest
    else child x children

-- AddChild of a leaf, outside a FileTree.
abbrev pub add_child : Leaf → Leaf → Leaf
add_child (leaf name type size children) l = leaf name type size (insert_child l children)

-- FindChild
unfoldable pub find_child : List ℕ → Children → Option Leaf
find_child name none_left = none
find_child name (child x children) =
    let rest = find_child name children in
    if name_less name (get_name x)
    then none
    else if name_less (get_name x) name
    then rest
    else some x

-- `write` of an unsigned integer of `w` bytes: the low byte first.
unfoldable pub write_trivial : ℕ → ℕ → List ℕ
write_trivial zero v = []
write_trivial (suc w) v = v % 256 ∷ write_trivial w (v / 256)

-- `operator<<` of a string, and so of a path: a length in 32 bits, and the bytes.
unfoldable pub write_string : List ℕ → List ℕ
write_string s = write_trivial 4 (length s) ++ s

-- Serialize
unfoldable mutual
  pub serialize : Leaf → List ℕ
  serialize (leaf name type size children) =
      write_string name
      ++ (write_trivial 1 type
          ++ (write_trivial 8 size
              ++ (write_trivial 8 (count children) ++ serialize_children children)))

  pub serialize_children : Children → List ℕ
  serialize_children none_left = []
  serialize_children (child l children) = serialize l ++ serialize_children children

-- A read that fails ends the function.
infixl 5 ◌>>=◌
abbrev pub ◌>>=◌ : {A B : Type 0} → Option A → (A → Option B) → Option B
none >>= f = none
some a >>= f = f a

-- `read` of an unsigned integer of `w` bytes: the integer, and the bytes left.
unfoldable pub read_trivial : ℕ → List ℕ → Option (ℕ × List ℕ)
read_trivial zero bytes = some (0, bytes)
read_trivial (suc w) [] = none
read_trivial (suc w) (b ∷ bytes) = do
  (high, rest) ← read_trivial w bytes
  some (b + 256 * high, rest)

-- `operator>>` of a string, and so of a path.
unfoldable pub read_string : List ℕ → Option (List ℕ × List ℕ)
read_string bytes = do
  (size, rest) ← read_trivial 4 bytes
  if leb size (length rest) then some (take size rest, drop size rest) else none

-- Deserialize on fuel; the number of bytes is enough of it.
unfoldable mutual
  pub deserialize_leaf : ℕ → List ℕ → Option (Leaf × List ℕ)
  deserialize_leaf zero bytes = none
  deserialize_leaf (suc fuel) bytes = do
    (name, bytes) ← read_string bytes
    (type, bytes) ← read_trivial 1 bytes
    (size, bytes) ← read_trivial 8 bytes
    (number, bytes) ← read_trivial 8 bytes
    deserialize_children fuel number bytes (leaf name type size none_left)

  -- The loop over the children, which are added to the leaf.
  pub deserialize_children : ℕ → ℕ → List ℕ → Leaf → Option (Leaf × List ℕ)
  deserialize_children fuel zero bytes l = some (l, bytes)
  deserialize_children zero (suc number) bytes l = none
  deserialize_children (suc fuel) (suc number) bytes l = do
    (c, bytes) ← deserialize_leaf fuel bytes
    deserialize_children fuel number bytes (add_child l c)

unfoldable pub deserialize : List ℕ → Option (Leaf × List ℕ)
deserialize bytes = deserialize_leaf (length bytes) bytes
