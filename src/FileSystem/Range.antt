-- ===== src/FileSystem/Range.antt =====
-- FileCache/Range.hpp and Range.cpp: a piece of a file in the cache, in the packets that brought it.
-- A packet is its payload, the only part of it that the cache reads; a MultiList is the list that
-- it stands for (see MultiList.Laws). Offsets are not negative and sums stay below 2 ^ 63.
pub mod Slice
use multi_threaded_socket.Common.{ℕ, ◌+◌, Bool, List, [], ◌∷◌, ltb, if◌then◌else◌}

pub record Range : Type 0 where
  pub offset : ℕ
  pub size : ℕ
  pub packets : List (List ℕ)
  pub counter : ℕ

abbrev pub new_range : ℕ → ℕ → List (List ℕ) → Range
new_range offset size packets = record {
  offset = offset;
  size = size;
  packets = packets;
  counter = 1;
}

abbrev pub range_end : Range → ℕ
range_end r = r.offset + r.size

-- Pin
unfoldable pub pin : Range → Range
pin r = record r { counter = r.counter + 1 }

-- IsPinned
unfoldable pub is_pinned : Range → Bool
is_pinned r = ltb 1 r.counter

-- `upper_bound` of a set that is sorted by offset: the ranges in front of it, and the ranges from it.
unfoldable pub upper_bound : ℕ → List Range → List Range × List Range
upper_bound offset [] = ([], [])
upper_bound offset (r ∷ ranges) =
    let (before, after) = upper_bound offset ranges in
    if ltb offset r.offset then ([], r ∷ ranges) else (r ∷ before, after)
