-- ===== src/FileSystem/FileTree.antt =====
-- FileTree.hpp and FileTree.cpp: the cached data of all files, and its count. An inode is the address
-- of a leaf, FUSE_ROOT_ID that of the root: `leaves` is the leaf at each. `std::hash` is a parameter,
-- and so is the entry that an `unordered_map` has first.
pub mod Shards
pub mod Accounting
pub mod Operations
pub mod Steps
use multi_threaded_socket.Common.{
  ℕ, ◌+◌, ◌-◌, ◌*◌, ◌%◌, min, Bool, true, false, Option, none, some, List, [], ◌∷◌, ltb, leb,
  if◌then◌else◌, length, get_or, get_elem?, set, replicate, find, assign, erase, Result, ok, err,
  ◌>>=◌, no_leaf, out_of_range, assertion_failed, ℤ, pos, negsuc, ◌+ℤ◌, ◌-ℤ◌, sub_ℕ, ltb_ℤ,
}
use multi_threaded_socket.FileSystem.Leaf.{Leaf, block_size, invalidate_data_cache}
use multi_threaded_socket.FileSystem.Leaf.Data
use multi_threaded_socket.FileSystem.Leaf.Data.{extract_block, get_first_block_index}
use multi_threaded_socket.FileSystem.Leaf.Reading.{View}
use multi_threaded_socket.FileSystem.Leaf.Reading

abbrev pub Shard : Type 0
Shard = List (ℕ × ℤ)

pub record FileTree : Type 0 where
  pub leaves : List (ℕ × Leaf)
  pub cache_per_shard : List Shard
  pub grand_total_cached_packets : ℤ

pub record FreeData : Type 0 where
  pub inode : ℕ
  pub offset : ℕ
  pub size : ℕ
  pub data_packets : List (List ℕ)

abbrev pub no_data : FreeData
no_data = record { inode = 0; offset = 0; size = 0; data_packets = [] }

abbrev pub max_cache_packets : ℕ
max_cache_packets = 10000

abbrev pub shard_count : ℕ
shard_count = 4

-- 2 ^ 64
abbrev pub size_mod : ℕ
size_mod = 18446744073709551616

-- A tree of these leaves, with nothing counted.
unfoldable pub new_tree : List (ℕ × Leaf) → FileTree
new_tree leaves = record {
  leaves = leaves;
  cache_per_shard = replicate shard_count [];
  grand_total_cached_packets = pos 0;
}

abbrev pub leaf_at : FileTree → ℕ → Result Leaf
leaf_at t inode = elim (find inode t.leaves) [ none ↦ err no_leaf | some l ↦ ok l ]

abbrev pub put_leaf : FileTree → ℕ → Leaf → FileTree
put_leaf t inode l = record t { leaves = assign inode l t.leaves }

-- GetData, which pins ranges of the leaf.
unfoldable pub get_data : FileTree → ℕ → ℕ → ℕ → Result (FileTree × View)
get_data t inode offset size =
    leaf_at t inode >>= λ l. Reading.get_data l offset size >>= λ v. ok (put_leaf t inode v.leaf, v)

-- InvalidateCacheLeafJob::ExecuteCachedTree, for the leaf at an inode
unfoldable pub invalidate_cache_leaf : FileTree → ℕ → Result FileTree
invalidate_cache_leaf t inode =
    leaf_at t inode >>= λ l. ok (put_leaf t inode (invalidate_data_cache l))

-- NeedsEviction
unfoldable pub needs_eviction : FileTree → Bool
needs_eviction t = ltb_ℤ (pos max_cache_packets) t.grand_total_cached_packets

-- The count of an inode in its shard goes up by `added`.
unfoldable pub add_count : Shard → ℕ → ℤ → Shard
add_count shard inode added = elim (find inode shard) [
  | none ↦ assign inode added shard
  | some count ↦ assign inode (count +ℤ added) shard
]

-- The count goes down, and an entry of none is erased.
unfoldable pub sub_count : Shard → ℕ → ℤ → ℕ → Result Shard
sub_count shard inode count extracted = elim (count -ℤ pos extracted) [
  | pos n ↦ ok (if ltb 0 n then assign inode (pos n) shard else erase inode shard)
  | negsuc n ↦ err assertion_failed
]

-- The bytes of a block that are of the file: a negative number wraps.
unfoldable pub block_bytes : ℕ → ℕ → ℕ
block_bytes size start =
    if leb start size then min block_size (size - start) else (size_mod + size - start) % size_mod

-- GetFreeData, of the entry of `inode` with its count
unfoldable pub free_block : FileTree → ℕ → Shard → ℕ → ℤ → Result (FileTree × FreeData)
free_block t shard_index shard inode count = leaf_at t inode >>= λ l.
    elim (get_first_block_index l) [
      | none ↦ ok (t, no_data)
      | some index ↦
          let (l', offset, packets) = extract_block l index in
          sub_count shard inode count (length packets) >>= λ shard'. ok (
            record t {
              leaves = assign inode l' t.leaves;
              cache_per_shard = set t.cache_per_shard shard_index shard';
              grand_total_cached_packets = t.grand_total_cached_packets -ℤ pos (length packets);
            },
            record {
              inode = inode;
              offset = offset;
              size = block_bytes l'.size (index * block_size);
              data_packets = packets;
            },
          )
    ]

-- GetFreeData; `first` tells which entry of a shard that is not empty `begin` gives.
unfoldable pub get_free_data : (Shard → ℕ) → FileTree → ℕ → Result (FileTree × FreeData)
get_free_data first t shard_index = elim (get_elem? t.cache_per_shard shard_index) [
  | none ↦ err out_of_range
  | some shard ↦ elim (get_elem? shard (first shard)) [
    | none ↦ ok (t, no_data)
    | some (inode, count) ↦ free_block t shard_index shard inode count
  ]
]

module _ (hash : ℕ → ℕ) where
  -- ShardForInode
  unfoldable pub shard_for_inode : ℕ → ℕ
  shard_for_inode inode = hash inode % shard_count

  -- AddData
  unfoldable pub add_data : FileTree → ℕ → ℕ → ℕ → List (List ℕ) → Result (FileTree × List (List ℕ))
  unfolding shard_for_inode
  add_data t inode offset size packets = leaf_at t inode >>= λ l.
      let (l', free_packets) = Data.add_data l offset size packets in
      let added = sub_ℕ (length packets) (length free_packets) in
      let index = shard_for_inode inode in
      elim (get_elem? t.cache_per_shard index) [
        | none ↦ err out_of_range
        | some shard ↦ ok (
          record t {
            leaves = assign inode l' t.leaves;
            cache_per_shard = set t.cache_per_shard index (add_count shard inode added);
            grand_total_cached_packets = t.grand_total_cached_packets +ℤ added;
          },
          free_packets,
        )
      ]
