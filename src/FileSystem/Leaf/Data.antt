-- ===== src/FileSystem/Leaf/Data.antt =====
-- Leaf::AddData, ExtractBlock and GetFirstBlockIndex.
use multi_threaded_socket.Common.{
  ℕ, ◌+◌, ◌-◌, ◌/◌, min, Bool, false, Option, none, some, List, [], ◌∷◌, ◌++◌, ltb, leb, ◌==◌, ◌&&◌,
  ◌||◌, if◌then◌else◌, length, take, drop, find, assign, erase, split_last,
}
use multi_threaded_socket.FileSystem.Range.{Range, new_range, range_end, is_pinned, upper_bound}
use multi_threaded_socket.FileSystem.Leaf.{Leaf, block_size, set_status, not_found, in_cache}

-- The first packet's payload, of which all the packets of a range are supposed to have the size.
abbrev pub packet_size : List (List ℕ) → ℕ
packet_size [] = 0
packet_size (p ∷ ps) = length p

-- How many packets a range that reaches beyond `offset` makes superfluous.
abbrev pub skipped_packets : Range → ℕ → ℕ
skipped_packets prev offset =
    (range_end prev - offset + packet_size prev.packets - 1) / packet_size prev.packets

-- `insert` into the set: a range with the offset of one that is there is dropped.
unfoldable pub insert_after : List Range → Range → List Range → ℕ → ℕ → List (List ℕ) → List Range
insert_after init prev after offset size packets =
    if prev.offset == offset
    then init ++ prev ∷ after
    else init ++ prev ∷ new_range offset size packets ∷ after

-- The data goes in front of the range that begins where it ends, and joins it to the range that
-- ends where it begins. `before` are the ranges in front of that range.
unfoldable pub join_next : List Range → Range → List Range → ℕ → ℕ → List (List ℕ) → List Range
join_next before next after offset size packets =
    let joined = record next {
      offset = offset;
      size = next.size + size;
      packets = packets ++ next.packets;
    } in
    elim (split_last before) [
      | none ↦ joined ∷ after
      | some (init, prev) ↦
          if range_end prev == offset
          then init
            ++ record prev {
              packets = prev.packets ++ (packets ++ next.packets);
              size = prev.size + size + next.size;
            }
              ∷ after
          else before ++ joined ∷ after
    ]

-- No range begins at or in front of the data. The first range is given back when the data covers it.
unfoldable pub insert_first : List Range → ℕ → ℕ → List (List ℕ) → List Range × List (List ℕ)
insert_first [] offset size packets = (new_range offset size packets ∷ [], [])
insert_first (next ∷ after) offset size packets =
    if leb (range_end next) (offset + size)
    then (new_range offset size packets ∷ after, next.packets)
    else (new_range offset size packets ∷ next ∷ after, [])

-- The data begins inside `prev`: the packets that `prev` holds already are given back.
unfoldable pub skip_overlap :
    List Range → Range → List Range → ℕ → ℕ → List (List ℕ) → List Range × List (List ℕ)
skip_overlap init prev after offset size packets =
    let n = skipped_packets prev offset in
    (
      init
          ++ record prev {
            packets = prev.packets ++ drop n packets;
            size = prev.size + size - (range_end prev - offset);
          }
            ∷ after,
      take n packets,
    )

-- `prev` is the last range that begins at or in front of the data.
unfoldable pub add_behind :
    List Range → Range → List Range → ℕ → ℕ → List (List ℕ) → List Range × List (List ℕ)
add_behind init prev after offset size packets =
    if range_end prev == offset
    then (
      init ++ record prev { packets = prev.packets ++ packets; size = prev.size + size } ∷ after,
      [],
    )
    else if ltb offset (range_end prev) && ltb 1 (length prev.packets)
    then skip_overlap init prev after offset size packets
    else (insert_after init prev after offset size packets, [])

-- No range begins where the data ends.
unfoldable pub add_apart :
    List Range → List Range → ℕ → ℕ → List (List ℕ) → List Range × List (List ℕ)
add_apart before after offset size packets = elim (split_last before) [
  | none ↦ insert_first after offset size packets
  | some (init, prev) ↦ add_behind init prev after offset size packets
]

-- AddData in a block that is there: the block's ranges, and the packets that are given back.
unfoldable pub add_range : List Range → ℕ → ℕ → List (List ℕ) → List Range × List (List ℕ)
add_range ranges offset size packets =
    let (before, after) = upper_bound offset ranges in
    elim after [
      | [] ↦ add_apart before [] offset size packets
      | next ∷ rest ↦
          if next.offset == offset + size
          then (join_next before next rest offset size packets, [])
          else add_apart before (next ∷ rest) offset size packets
    ]

-- AddData
unfoldable pub add_data : Leaf → ℕ → ℕ → List (List ℕ) → Leaf × List (List ℕ)
add_data l offset size packets =
    let index = offset / block_size in
    elim (find index l.blocks) [
      | none ↦ (
        record l {
          blocks = assign index (new_range offset size packets ∷ []) l.blocks;
          pieces_status = set_status l.pieces_status index in_cache;
        },
        [],
      )
      | some ranges ↦
          let (ranges', skipped) = add_range ranges offset size packets in
          (record l { blocks = assign index ranges' l.blocks }, skipped)
    ]

abbrev pub all_packets : List Range → List (List ℕ)
all_packets [] = []
all_packets (r ∷ ranges) = r.packets ++ all_packets ranges

abbrev pub first_offset : List Range → ℕ
first_offset [] = 0
first_offset (r ∷ ranges) = r.offset

-- ExtractBlock
unfoldable pub extract_block : Leaf → ℕ → Leaf × ℕ × List (List ℕ)
extract_block l index = elim (find index l.blocks) [
  | none ↦ (l, 0, [])
  | some ranges ↦ (
    record l {
      blocks = erase index l.blocks;
      pieces_status = set_status l.pieces_status index not_found;
    },
    first_offset ranges,
    all_packets ranges,
  )
]

abbrev pub any_pinned : List Range → Bool
any_pinned [] = false
any_pinned (r ∷ ranges) = is_pinned r || any_pinned ranges

abbrev pub min_index : Option ℕ → ℕ → Option ℕ
min_index none index = some index
min_index (some least) index = some (min least index)

-- GetFirstBlockIndex; SIZE_MAX is `none`.
unfoldable pub first_block_index : List (ℕ × List Range) → Option ℕ → Option ℕ
first_block_index [] least = least
first_block_index ((index, ranges) ∷ blocks) least =
    first_block_index blocks (if any_pinned ranges then least else min_index least index)

unfoldable pub get_first_block_index : Leaf → Option ℕ
get_first_block_index l = first_block_index l.blocks none
