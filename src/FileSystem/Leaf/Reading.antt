-- ===== src/FileSystem/Leaf/Reading.antt =====
-- Leaf::GetData. A span is the bytes that it points to, and a pinned range is named by its block's
-- index and its offset.
use multi_threaded_socket.Common.{
  ℕ, zero, suc, ◌+◌, ◌-◌, ◌/◌, min, Option, none, some, List, [], ◌∷◌, ◌++◌, leb, ◌&&◌,
  if◌then◌else◌, length, take, drop, find, assign, split_last, Result, ok, err, data_not_found,
}
use multi_threaded_socket.FileSystem.Range.{Range, range_end, pin, upper_bound}
use multi_threaded_socket.FileSystem.Leaf.{Leaf, block_size}

-- The packet that holds the byte `start` of the packets: its bytes from there, and the packets
-- behind it.
unfoldable pub skip_packets : ℕ → List (List ℕ) → Option (List ℕ × List (List ℕ))
skip_packets start [] = none
skip_packets start (p ∷ ps) =
    let rest = skip_packets (start - length p) ps in
    if leb (length p) start then rest else some (drop start p, ps)

-- The spans of `readed` bytes at most.
unfoldable pub take_spans : ℕ → List (List ℕ) → List (List ℕ)
take_spans readed [] = []
take_spans zero (p ∷ ps) = []
take_spans (suc n) (p ∷ ps) =
    let size = min (length p) (suc n) in take size p ∷ take_spans (suc n - size) ps

-- The spans of a range's packets from the byte `start` on, if they reach it.
unfoldable pub read_packets : List (List ℕ) → ℕ → ℕ → Result (Option (List (List ℕ)))
read_packets [] start readed = err data_not_found
read_packets (p ∷ ps) start readed = elim (skip_packets start (p ∷ ps)) [
  | none ↦ ok none
  | some (first, rest) ↦ ok (some (take_spans readed (first ∷ rest)))
]

abbrev pub total_size : List (List ℕ) → ℕ
total_size [] = 0
total_size (s ∷ spans) = length s + total_size spans

pub record View : Type 0 where
  pub leaf : Leaf
  pub spans : List (List ℕ)
  pub pinned : List (ℕ × ℕ)

-- What the lookup finds: the block's ranges in front, the range, and the ranges behind it.
unfoldable pub find_range : Leaf → ℕ → Option (List Range × Range × List Range)
find_range l offset = elim (find (offset / block_size) l.blocks) [
  | none ↦ none
  | some ranges ↦
      let (before, after) = upper_bound offset ranges in
      elim (split_last before) [
        | none ↦ none
        | some (init, r) ↦
            if leb r.offset offset && leb offset (range_end r) then some (init, r, after) else none
      ]
]

unfoldable pub pin_range : Leaf → ℕ → List Range → Range → List Range → Leaf
pin_range l offset init r after = record l {
  blocks = assign (offset / block_size) (init ++ pin r ∷ after) l.blocks;
}

-- The loop of GetData on fuel; the bytes that are left to read are enough of it.
unfoldable pub read_rounds : ℕ → View → ℕ → ℕ → Result View
read_rounds zero v offset readed = ok v
read_rounds (suc fuel) v offset zero = ok v
read_rounds (suc fuel) v offset (suc n) = elim (find_range v.leaf offset) [
  | none ↦ ok v
  | some (init, r, after) ↦
      let leaf = pin_range v.leaf offset init r after in
      let pinned = v.pinned ++ (offset / block_size, r.offset) ∷ [] in
      elim (read_packets r.packets (offset - r.offset) (suc n)) [
        | err e ↦ err e
        | ok read ↦ elim read [
          | none ↦ ok (record v { leaf = leaf; pinned = pinned })
          | some spans ↦
              read_rounds fuel (record { leaf = leaf; spans = v.spans ++ spans; pinned = pinned })
                (offset + total_size spans) (suc n - total_size spans)
        ]
      ]
]

-- GetData
unfoldable pub get_data : Leaf → ℕ → ℕ → Result View
get_data l offset size =
    let empty : View = record { leaf = l; spans = []; pinned = [] } in
    if leb l.size offset
    then ok empty
    else let readed = min size (l.size - offset) in read_rounds readed empty offset readed
