-- ===== src/FileSystem/Tree/RoundTrip.antt =====
-- A tree that is sent is the tree that is read.
use multi_threaded_socket.Common.{
  ℕ, zero, suc, ◌+◌, ◌/◌, ◌≤◌, ◌<◌, ◌≡◌, ◌∙◌, refl, sym, ap, true, false, some, List, [], ◌∷◌, ◌++◌,
  arith, length, length-append, take-append_ge, drop-append_ge, leb,
}
use mathlib.Core.List.{append_assoc, append-nil}
use multi_threaded_socket.Packet.Bytes.{pow256}
use multi_threaded_socket.FileSystem.Tree.{
  Leaf, leaf, Children, none_left, child, get_name, count, name_less, insert_child, add_child,
  write_trivial, write_string, serialize, serialize_children, read_trivial, read_string,
  deserialize_leaf, deserialize_children, deserialize,
}

read_trivial-write_trivial :
    (w v : ℕ) (rest : List ℕ)
    → v < pow256 w
    → read_trivial w (write_trivial w v ++ rest) ≡ some (v, rest)
unfolding read_trivial write_trivial
read_trivial-write_trivial zero v rest h = ap (λ n. some (n, rest)) (omega arith)
read_trivial-write_trivial (suc w) v rest h =
    rw (read_trivial-write_trivial w (v / 256) rest (omega arith))
      (ap (λ n. some (n, rest)) (omega arith))

length-write_trivial : (w v : ℕ) → length (write_trivial w v) ≡ w
unfolding write_trivial
length-write_trivial zero v = refl
length-write_trivial (suc w) v = ap suc (length-write_trivial w (v / 256))

read_string-write_string :
    (s rest : List ℕ) → length s < pow256 4 → read_string (write_string s ++ rest) ≡ some (s, rest)
unfolding read_string write_string
read_string-write_string s rest h =
    rw
      (
        append_assoc (write_trivial 4 (length s)) s rest,
        read_trivial-write_trivial 4 (length s) (s ++ rest) h,
        fits,
        take-append_ge (length s) 0 s rest (omega arith) ∙ append-nil s,
        drop-append_ge (length s) 0 s rest (omega arith),
      )
      refl
  where
    fits : leb (length s) (length (s ++ rest)) ≡ true
    fits = ground (arith, length-append s rest)

name_less-asym : (xs ys : List ℕ) → name_less xs ys ≡ true → name_less ys xs ≡ false
unfolding name_less
name_less-asym [] [] h = refl
name_less-asym [] (y ∷ ys) h = refl
name_less-asym (x ∷ xs) [] h = cc
name_less-asym (x ∷ xs) (y ∷ ys) h = ground (arith, name_less-asym xs ys)

-- Every name of the children comes behind the name.
unfoldable pub Behind : List ℕ → Children → Type 0
Behind name none_left = Unit
Behind name (child l children) = (name_less name (get_name l) ≡ true) × Behind name children

-- Names and sizes fit their fields, and the children are in the order of a map: by their names,
-- which are distinct.
unfoldable mutual
  pub IsValid : Leaf → Type 0
  IsValid (leaf name type size children) =
      (length name < pow256 4)
      × (type < 256)
      × (size < pow256 8)
      × (count children < pow256 8)
      × AreValid children

  pub AreValid : Children → Type 0
  AreValid none_left = Unit
  AreValid (child l children) = IsValid l × Behind (get_name l) children × AreValid children

-- The number of calls that reading takes.
mutual
  leaf_fuel : Leaf → ℕ
  leaf_fuel (leaf name type size children) = 1 + children_fuel children

  children_fuel : Children → ℕ
  children_fuel none_left = 0
  children_fuel (child l children) = 1 + leaf_fuel l + children_fuel children

add_all : Leaf → Children → Leaf
add_all l none_left = l
add_all l (child c children) = add_all (add_child l c) children

append : Children → Children → Children
append none_left ds = ds
append (child c cs) ds = child c (append cs ds)

append_none_left : (cs : Children) → append cs none_left ≡ cs
unfolding append
append_none_left none_left = refl
append_none_left (child x cs) = ap (child x) (append_none_left cs)

append-child :
    (cs : Children) (c : Leaf) (ds : Children)
    → append (append cs (child c none_left)) ds ≡ append cs (child c ds)
unfolding append
append-child none_left c ds = refl
append-child (child x cs) c ds = ap (child x) (append-child cs c ds)

-- Every name of the first children comes in front of every name of the second.
Before : Children → Children → Type 0
Before none_left ds = Unit
Before (child c cs) ds = Behind (get_name c) ds × Before cs ds

Before-child :
    (cs : Children) (c : Leaf) (ds : Children)
    → Before cs (child c ds)
    → Behind (get_name c) ds
    → Before (append cs (child c none_left)) ds
unfolding Before append Behind
Before-child none_left c ds h k = (k, tt)
Before-child (child x cs) c ds h k = (h.0.1, Before-child cs c ds h.1 k)

insert_child-last :
    (cs : Children) (c : Leaf) (ds : Children)
    → Before cs (child c ds)
    → insert_child c cs ≡ append cs (child c none_left)
unfolding Before append Behind insert_child
insert_child-last none_left c ds h = refl
insert_child-last (child x cs) c ds h =
    rw (name_less-asym (get_name x) (get_name c) h.0.0, h.0.0)
      (ap (child x) (insert_child-last cs c ds h.1))

add_all-append :
    (name : List ℕ) (type size : ℕ) (cs ds : Children)
    → Before cs ds
    → AreValid ds
    → add_all (leaf name type size cs) ds ≡ leaf name type size (append cs ds)
unfolding add_all IsValid append Behind
add_all-append name type size cs none_left h v =
    ap (leaf name type size) (sym (append_none_left cs))
add_all-append name type size cs (child d ds) h v = rw (insert_child-last cs d ds h) (
    add_all-append name type size (append cs (child d none_left)) ds (Before-child cs d ds h v.1)
      v.2
    ∙ ap (leaf name type size) (append-child cs d ds))

fields_apart :
    (a b c d e rest : List ℕ)
    → a ++ (b ++ (c ++ (d ++ e))) ++ rest ≡ a ++ (b ++ (c ++ (d ++ (e ++ rest))))
fields_apart a b c d e rest =
    append_assoc a (b ++ (c ++ (d ++ e))) rest
    ∙ ap (◌++◌ a) (
        append_assoc b (c ++ (d ++ e)) rest
        ∙ ap (◌++◌ b) (append_assoc c (d ++ e) rest ∙ ap (◌++◌ c) (append_assoc d e rest)))

length_fields :
    (a b c d e : List ℕ)
    → length (a ++ (b ++ (c ++ (d ++ e)))) ≡ length a + length b + length c + length d + length e
length_fields a b c d e = omega (
  arith,
  length-append a (b ++ (c ++ (d ++ e))),
  length-append b (c ++ (d ++ e)),
  length-append c (d ++ e),
  length-append d e,
)

-- What the header fields of a leaf read back as.
read_header :
    (fuel : ℕ) (name : List ℕ) (type size : ℕ) (children : Children) (rest : List ℕ)
    → IsValid (leaf name type size children)
    → deserialize_leaf (suc fuel) (serialize (leaf name type size children) ++ rest)
      ≡ deserialize_children fuel
          (count children)
          (serialize_children children ++ rest)
          (leaf name type size none_left)
unfolding deserialize_leaf serialize IsValid
read_header fuel name type size children rest v =
    rw
      (
        fields_apart (write_string name) (write_trivial 1 type) (write_trivial 8 size)
            (write_trivial 8 (count children)) (serialize_children children) rest,
        read_string-write_string name
            (write_trivial 1 type
              ++ (write_trivial 8 size
                  ++ (write_trivial 8 (count children) ++ (serialize_children children ++ rest))))
            v.0,
        read_trivial-write_trivial 1 type
            (write_trivial 8 size
              ++ (write_trivial 8 (count children) ++ (serialize_children children ++ rest)))
            v.1,
        read_trivial-write_trivial 8 size
            (write_trivial 8 (count children) ++ (serialize_children children ++ rest)) v.2,
        read_trivial-write_trivial 8 (count children) (serialize_children children ++ rest) v.3,
      )
      refl

mutual
  unfolding leaf_fuel IsValid append Before add_all serialize deserialize_leaf

  read_leaf :
      (l : Leaf) (fuel : ℕ) (rest : List ℕ)
      → IsValid l
      → leaf_fuel l ≤ fuel
      → deserialize_leaf fuel (serialize l ++ rest) ≡ some (l, rest)
  read_leaf (leaf name type size children) zero rest v h = absurd (omega arith)
  read_leaf (leaf name type size children) (suc fuel) rest v h =
      read_header fuel name type size children rest v
      ∙ read_children children fuel rest (leaf name type size none_left) v.4 (omega arith)
      ∙ ap (λ l. some (l, rest)) (add_all-append name type size none_left children tt v.4)

  read_children :
      (cs : Children) (fuel : ℕ) (rest : List ℕ) (l : Leaf)
      → AreValid cs
      → children_fuel cs ≤ fuel
      → deserialize_children fuel (count cs) (serialize_children cs ++ rest) l
        ≡ some (add_all l cs, rest)
  read_children none_left fuel rest l v h = refl
  read_children (child c cs) zero rest l v h = absurd (omega arith)
  read_children (child c cs) (suc fuel) rest l v h =
      rw
        (
          append_assoc (serialize c) (serialize_children cs) rest,
          read_leaf c fuel (serialize_children cs ++ rest) v.0 (omega arith),
        )
        (read_children cs fuel rest (add_child l c) v.2 (omega arith))

mutual
  unfolding leaf_fuel serialize

  leaf_fuel-le : (l : Leaf) → 1 + leaf_fuel l ≤ length (serialize l)
  leaf_fuel-le (leaf name type size children) = omega (
    arith,
    children_fuel-le children,
    length_fields (write_string name) (write_trivial 1 type) (write_trivial 8 size)
        (write_trivial 8 (count children)) (serialize_children children),
    length-write_trivial 8 size,
    length-write_trivial 8 (count children),
  )

  children_fuel-le : (cs : Children) → children_fuel cs ≤ length (serialize_children cs)
  children_fuel-le none_left = omega arith
  children_fuel-le (child c cs) = omega (
    arith,
    leaf_fuel-le c,
    children_fuel-le cs,
    length-append (serialize c) (serialize_children cs),
  )

-- A tree whose names and sizes fit their fields and whose children stand in the order of their
-- names, which are distinct, is read back as it was sent, and what follows it in the stream is left.
pub deserialize-serialize :
    (l : Leaf) (rest : List ℕ) → IsValid l → deserialize (serialize l ++ rest) ≡ some (l, rest)
unfolding deserialize
deserialize-serialize l rest v =
    read_leaf l (length (serialize l ++ rest)) rest v
      (omega (arith, leaf_fuel-le l, length-append (serialize l) rest))
