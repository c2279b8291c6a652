-- ===== src/Jobs/ApplyBlock.antt =====
-- ApplyBlockCacheJob.cpp: a block has come. It is put into the cache, the reads that waited for it
-- go on, and what is over the bound is evicted.
use multi_threaded_socket.Common.{
  ℕ, zero, suc, ◌+◌, ◌*◌, ◌/◌, min, Option, none, some, List, [], ◌∷◌, ◌++◌, length, map, find,
  erase, Result, ok, err, ◌>>=◌, null_buffer, no_pending_read, split_last, true, false, pos_part,
}
use multi_threaded_socket.FileSystem.Leaf.{block_size, take_pending_jobs}
use multi_threaded_socket.FileSystem.Leaf.Reading.{View}
use multi_threaded_socket.FileSystem.Leaf.Reading
use multi_threaded_socket.FileSystem.FileTree.{
  FileTree, FreeData, Shard, leaf_at, get_data, add_data, get_free_data, needs_eviction,
  shard_for_inode,
}
use multi_threaded_socket.Jobs.{
  CacheState, Action, reply_data, fuse_read, write_file_cache, free_recv_packets,
}
use multi_threaded_socket.Jobs.FuseRead.{with_leaf}

pub record BlockJob : Type 0 where
  pub request : Option ℕ
  pub inode : ℕ
  pub size : ℕ
  pub offset : ℕ
  pub skipped : ℕ
  pub packets : List (List ℕ)

-- The bytes that came: all packets but the last are as long as the first.
unfoldable pub bytes_of : List (List ℕ) → ℕ
bytes_of [] = 0
bytes_of (p ∷ ps) = elim (split_last (p ∷ ps)) [
  | none ↦ 0
  | some (init, last) ↦ length init * length p + length last
]

-- The answer, when there is a request. GetData pins the ranges of its view, which is released when the
-- answer is given, and its pins with it: the tree is as before. A buffer without data is a null pointer, which is followed.
unfoldable pub reply : FileTree → BlockJob → ℕ → Result (FileTree × List Action)
reply t job reply_size = elim job.request [
  | none ↦ ok (t, [])
  | some request ↦ get_data t job.inode job.offset reply_size >>= λ (_, v). elim v.spans [
    | [] ↦ err null_buffer
    | span ∷ spans ↦ ok (t, reply_data request (span ∷ spans) ∷ [])
  ]
]

-- FuseReadFilePendingJob::Execute of each of these requests, which waited for the block `index`.
unfoldable pub run_pending : List ℕ → CacheState → ℕ → ℕ → Result (CacheState × List Action)
run_pending [] s inode index = ok (s, [])
run_pending (request ∷ requests) s inode index = elim (find request s.pending_reads) [
  | none ↦ err no_pending_read
  | some job ↦ leaf_at s.tree inode >>= λ l.
      Reading.get_data l (index * block_size) block_size >>= λ arrived.
      Reading.get_data arrived.leaf (job.offset / block_size * block_size) block_size >>= λ asked.
      run_pending requests
        (record (with_leaf s inode asked.leaf) { pending_reads = erase request s.pending_reads })
        inode index
      >>= λ (s', actions). ok (
        s',
        fuse_read (record job { request = request; pins = arrived.pinned ++ asked.pinned })
            ∷ actions,
      )
]

-- TakePendingJobs and the loop over them
unfoldable pub wake : CacheState → ℕ → ℕ → Result (CacheState × List Action)
unfolding run_pending
wake s inode index = leaf_at s.tree inode >>= λ l.
    let (l', requests) = take_pending_jobs l index in
    run_pending requests (with_leaf s inode l') inode index

module _ (first : Shard → ℕ) where
  -- The loop of the eviction on fuel; the packets that are counted are enough of it.
  unfoldable pub evict : ℕ → FileTree → ℕ → Result (FileTree × List FreeData)
  evict zero t shard_index = ok (t, [])
  evict (suc fuel) t shard_index = elim (needs_eviction t) [
    | false ↦ ok (t, [])
    | true ↦ get_free_data first t shard_index >>= λ (t', free). elim free.data_packets [
      | [] ↦ ok (t', [])
      | p ∷ ps ↦ evict fuel t' shard_index >>= λ (t'', frees). ok (t'', free ∷ frees)
    ]
  ]

abbrev pub give_back : List (List ℕ) → List Action
give_back [] = []
give_back (p ∷ ps) = free_recv_packets (p ∷ ps) ∷ []

-- ApplyBlockCacheJob::ExecuteCachedTree
unfoldable pub execute :
    (ℕ → ℕ) → (Shard → ℕ) → CacheState → BlockJob → Result (CacheState × List Action)
unfolding bytes_of reply wake evict shard_for_inode
execute hash first s job =
    let readed = bytes_of job.packets in
    let reply_size = min (readed + job.skipped) job.size in
    let at = job.offset + job.skipped in
    add_data hash s.tree job.inode at readed job.packets >>= λ (t, free_packets).
    reply t job reply_size >>= λ (t', replies).
    wake (record s { tree = t' }) job.inode (at / block_size) >>= λ (s', woken).
    evict first (pos_part s'.tree.grand_total_cached_packets) s'.tree
      (shard_for_inode hash job.inode)
    >>= λ (t'', frees). ok (
      record s' { tree = t'' },
      replies ++ (woken ++ (map write_file_cache frees ++ give_back free_packets)),
    )
