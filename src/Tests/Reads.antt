-- ===== src/Tests/Reads.antt =====
-- A tree with one leaf, of a file of 12 bytes whose first 5 are cached, and reads of it.
use multi_threaded_socket.Common.{
  ℕ, ◌+◌, ◌≡◌, refl, ap, false, none, some, List, [], ◌∷◌, arith, length, find, assign, Option, ok,
  ◌==◌, pos, ◌+ℤ◌, some-injective, Bool-cases, inl, inr, sym,
}
use multi_threaded_socket.FileSystem.Range.{new_range, upper_bound, pin}
use multi_threaded_socket.FileSystem.Leaf.{Leaf, in_cache, not_found, invalidate_data_cache}
use multi_threaded_socket.FileSystem.Leaf.Data
use multi_threaded_socket.FileSystem.Leaf.Reading.{
  View, read_rounds, find_range, pin_range, read_packets, skip_packets, take_spans,
}
use multi_threaded_socket.FileSystem.Leaf.Reading
use multi_threaded_socket.FileSystem.FileTree.{
  FileTree, FreeData, Shard, no_data, new_tree, add_data, get_data, get_free_data,
  invalidate_cache_leaf, add_count,
}
use multi_threaded_socket.FileSystem.FileTree.Accounting.{Accounted}
use multi_threaded_socket.FileSystem.Leaf.Counts.{cached_packets}
use multi_threaded_socket.FileSystem.FileTree.Steps.{
  Reach, here, next, added, reached_get_free_data, stale_entry,
}
use multi_threaded_socket.Jobs.{ReadJob, CacheState, Action, reply_data}
use multi_threaded_socket.Jobs.FuseRead
use multi_threaded_socket.Jobs.FuseRead.{
  read_cached, read_all, read_missing, read_partial, fetch_block, trigger_prefetch, prefetch,
  clipped,
}
use multi_threaded_socket.Jobs.Answers.{pending, all_handed, execute-Balanced}
use multi_threaded_socket.Jobs.Spinning.{Spins, HasHole, fuse_read-Spins}

abbrev file : ℕ → ℕ
file n = n

abbrev pub hash : ℕ → ℕ
hash n = n

abbrev pub first : Shard → ℕ
first s = 0

abbrev pub empty_leaf : Leaf
empty_leaf = record {
  size = 12;
  nlookup = 0;
  self_pin = false;
  blocks = [];
  pieces_status = not_found ∷ [];
  pending_jobs = [];
}

abbrev pub two_packets : List (List ℕ)
two_packets = (0 ∷ 1 ∷ 2 ∷ []) ∷ (3 ∷ 4 ∷ []) ∷ []

abbrev pub cached_leaf : Leaf
cached_leaf = record empty_leaf {
  blocks = (0, new_range 0 5 two_packets ∷ []) ∷ [];
  pieces_status = in_cache ∷ [];
}

abbrev one_leaf : FileTree
one_leaf = new_tree ((7, empty_leaf) ∷ [])

-- After the two packets have come.
abbrev filled : FileTree
filled = record {
  leaves = (7, cached_leaf) ∷ [];
  cache_per_shard = [] ∷ [] ∷ [] ∷ ((7, pos 2) ∷ []) ∷ [];
  grand_total_cached_packets = pos 2;
}

one_leaf_filled : add_data hash one_leaf 7 0 5 two_packets ≡ ok (filled, [])
unfolding add_data Data.add_data new_tree find assign add_count ◌+ℤ◌
one_leaf_filled = refl

at_seven : find 7 one_leaf.leaves ≡ some empty_leaf
unfolding find new_tree
at_seven = refl

nothing_cached :
    (inode : ℕ) (l : Leaf) → find inode ((7, empty_leaf) ∷ []) ≡ some l → cached_packets l ≡ 0
unfolding find
nothing_cached inode l e = elim (Bool-cases (7 == inode)) [
  | inl t ↦ ap cached_packets (sym (some-injective empty_leaf l (rw t at e)))
  | inr t ↦ let absent : ◌≡◌ {A = Option Leaf} none (some l) = rw t at e in cc
]

filled_reached : Reach hash first one_leaf filled
filled_reached = next here (added 7 0 5 two_packets [] empty_leaf at_seven one_leaf_filled)

reached_get_free_data_example :
    (t' : FileTree) × (free : FreeData) × (get_free_data first filled 3 ≡ ok (t', free))
    × Accounted hash t'
    × (t'.grand_total_cached_packets +ℤ pos (length free.data_packets) ≡ pos 2)
reached_get_free_data_example =
    reached_get_free_data hash first ((7, empty_leaf) ∷ []) filled 3 nothing_cached filled_reached
      (omega arith)

-- The file is invalidated: its entry in the shard 3 stays.
abbrev invalidated : FileTree
invalidated = record filled { leaves = (7, empty_leaf) ∷ [] }

filled_invalidated : invalidate_cache_leaf filled 7 ≡ ok invalidated
unfolding invalidate_cache_leaf invalidate_data_cache find assign
filled_invalidated = refl

stale_entry_example :
    (get_free_data first invalidated 3 ≡ ok (invalidated, no_data)) × (pos 2 ≡ pos 2)
stale_entry_example =
    stale_entry first filled invalidated 3 ((7, pos 2) ∷ []) 7 (pos 2) refl refl filled_invalidated

abbrev filled_state : CacheState
filled_state = record { tree = filled; pending_reads = [] }

-- A read of three bytes from the second on.
abbrev pub short_read : ReadJob
short_read = record { request = 1; inode = 7; size = 3; offset = 1; remote_file = 5; pins = [] }

abbrev pinned_leaf : Leaf
pinned_leaf = record cached_leaf { blocks = (0, pin (new_range 0 5 two_packets) ∷ []) ∷ [] }

abbrev pinned_state : CacheState
pinned_state = record {
  tree = record filled { leaves = (7, pinned_leaf) ∷ [] };
  pending_reads = [];
}

abbrev short_answer : List Action
short_answer = reply_data 1 ((1 ∷ 2 ∷ []) ∷ (3 ∷ []) ∷ []) ∷ []

short_read_run : FuseRead.execute filled_state short_read false ≡ ok (pinned_state, short_answer)
unfolding FuseRead.execute get_data Reading.get_data read_rounds find_range pin_range read_packets
    skip_packets take_spans upper_bound pin find assign read_cached read_all trigger_prefetch
    prefetch
short_read_run = refl

execute_balanced_example :
    pending 1 pinned_state + all_handed 1 short_answer ≡ pending 1 filled_state + 1
execute_balanced_example =
    execute-Balanced 1 filled_state short_read false pinned_state short_answer short_read_run

pub cached_there : find 7 filled.leaves ≡ some cached_leaf
unfolding find
cached_there = refl

-- A read behind the bytes that are cached.
abbrev far_read : ReadJob
far_read = record short_read { offset = 8 }

far_read-HasHole : HasHole cached_leaf far_read
unfolding find_range find upper_bound
far_read-HasHole = record { inside = omega arith; hole = refl; status = refl }

far_read_example : Spins 3 filled_state far_read
far_read_example = fuse_read-Spins 3 filled_state far_read cached_leaf cached_there far_read-HasHole
