-- ===== src/Jobs/FuseRead.antt =====
-- FuseReadFileJob.cpp: a read of a file, from its cache, from the disk cache or over the network.
use multi_threaded_socket.Common.{
  ℕ, zero, suc, ◌+◌, ◌-◌, ◌*◌, ◌/◌, Bool, List, [], ◌∷◌, ltb, leb, if◌then◌else◌, ◌++◌, assign,
  Result, ok, ◌>>=◌,
}
use multi_threaded_socket.FileSystem.Leaf.{
  Leaf, not_found, in_flight, in_cache, on_disk, block_size, get_status, set_in_flight,
  add_pending_job,
}
use multi_threaded_socket.FileSystem.Leaf.Reading.{View, total_size}
use multi_threaded_socket.FileSystem.Leaf.Reading
use multi_threaded_socket.FileSystem.FileTree.{leaf_at, put_leaf, get_data}
use multi_threaded_socket.Jobs.{
  ReadJob, CacheState, Action, without_pins, reply_data, reply_error, fuse_read, request_read_file,
  read_file_cache, prefix_disk_read,
}

-- The leaf of the job is put back.
abbrev pub with_leaf : CacheState → ℕ → Leaf → CacheState
with_leaf s inode l = record s { tree = put_leaf s.tree inode l }

abbrev pub request_block : ReadJob → ℕ → Action
request_block job index =
    request_read_file job.inode block_size (index * block_size) job.remote_file

-- AddPendingJob of a FuseReadFilePendingJob, which takes the request over.
unfoldable pub add_pending : CacheState → ReadJob → Leaf → ℕ → CacheState
add_pending s job l index = record {
  tree = put_leaf s.tree job.inode (add_pending_job l index job.request);
  pending_reads = assign job.request (without_pins job) s.pending_reads;
}

-- The loop of TriggerPrefetch over `n` blocks from `index` on
unfoldable pub prefetch : ℕ → ReadJob → Leaf → ℕ → Leaf × List Action
prefetch zero job l index = (l, [])
prefetch (suc n) job l index =
    let (l', started) = set_in_flight l index in
    let (l'', actions) = prefetch n job l' (index + 1) in
    if leb l.size (index * block_size)
    then (l, [])
    else (l'', if started then request_block job index ∷ actions else actions)

abbrev pub prefetch_ahead : ℕ
prefetch_ahead = 4

-- TriggerPrefetch
unfoldable pub trigger_prefetch : ReadJob → Leaf → ℕ → Leaf × List Action
unfolding prefetch
trigger_prefetch job l index = prefetch prefetch_ahead job l (index + 1)

-- The block is on its way or here already.
unfoldable pub join_fetch : CacheState → ReadJob → Leaf → ℕ → CacheState × List Action
unfolding add_pending
join_fetch s job l index = elim (get_status l.pieces_status index) [
  | in_cache ↦ (s, fuse_read (without_pins job) ∷ [])
  | not_found ↦ (add_pending s job l index, [])
  | in_flight ↦ (add_pending s job l index, [])
  | on_disk ↦ (add_pending s job l index, [])
]

-- FetchBlock
unfoldable pub fetch_block : CacheState → ReadJob → Leaf → ℕ → CacheState × List Action
unfolding add_pending trigger_prefetch join_fetch
fetch_block s job l index =
    let (l', started) = set_in_flight l index in
    let s' = add_pending s job l' index in
    let (l'', requests) = trigger_prefetch job (add_pending_job l' index job.request) index in
    if started
    then (with_leaf s' job.inode l'', request_block job index ∷ requests)
    else join_fetch s job l index

-- The next block is neither on disk nor in memory.
unfoldable pub wait_next : CacheState → ReadJob → Leaf → ℕ → CacheState × List Action
unfolding add_pending join_fetch
wait_next s job l index = elim (get_status l.pieces_status index) [
  | in_cache ↦ (s, fuse_read (without_pins job) ∷ [])
  | not_found ↦ (add_pending s job (set_in_flight l index).0 index, request_block job index ∷ [])
  | in_flight ↦ (add_pending s job l index, [])
  | on_disk ↦ (add_pending s job l index, [])
]

abbrev pub full_disk_read : CacheState → ReadJob → CacheState × List Action
full_disk_read s job = (s, read_file_cache job.request job.inode job.size job.offset [] ∷ [])

-- The read goes on in the next block, which is not on disk: its part is taken from memory.
unfoldable pub read_next : CacheState → ReadJob → Leaf → ℕ → ℕ → Result (CacheState × List Action)
unfolding wait_next
read_next s job l block_end next =
    Reading.get_data l block_end (job.offset + job.size - block_end) >>= λ pinned.
    let s' = with_leaf s job.inode pinned.leaf in
    elim pinned.spans [
      | [] ↦ ok (wait_next s' job pinned.leaf next)
      | span ∷ spans ↦
          ok (s', read_file_cache job.request job.inode job.size job.offset (span ∷ spans) ∷ [])
    ]

-- The first block of the read is on disk.
unfoldable pub disk_read : CacheState → ReadJob → Leaf → ℕ → Result (CacheState × List Action)
unfolding read_next
disk_read s job l index =
    let block_end = (index + 1) * block_size in
    let next = block_end / block_size in
    if ltb block_end (job.offset + job.size)
    then elim (get_status l.pieces_status next) [
      | on_disk ↦ ok (full_disk_read s job)
      | not_found ↦ read_next s job l block_end next
      | in_flight ↦ read_next s job l block_end next
      | in_cache ↦ read_next s job l block_end next
    ]
    else ok (full_disk_read s job)

-- The cache has nothing at the offset.
unfoldable pub read_missing : CacheState → ReadJob → Leaf → Result (CacheState × List Action)
unfolding disk_read fetch_block
read_missing s job l =
    let index = job.offset / block_size in
    elim (get_status l.pieces_status index) [
      | on_disk ↦ disk_read s job l index
      | not_found ↦ ok (fetch_block s job l index)
      | in_flight ↦ ok (fetch_block s job l index)
      | in_cache ↦ ok (fetch_block s job l index)
    ]

-- The cache has less than was asked for.
unfoldable pub read_partial : CacheState → ReadJob → Leaf → List (List ℕ) → CacheState × List Action
unfolding fetch_block
read_partial s job l spans =
    let next = (job.offset + total_size spans) / block_size in
    elim (get_status l.pieces_status next) [
      | on_disk ↦ (
        s,
        prefix_disk_read job.request spans job.inode (next * block_size)
              (job.size - total_size spans)
            ∷ [],
      )
      | not_found ↦ fetch_block s job l next
      | in_flight ↦ fetch_block s job l next
      | in_cache ↦ fetch_block s job l next
    ]

-- The cache has all that was asked for.
unfoldable pub read_all : CacheState → ReadJob → Leaf → List (List ℕ) → CacheState × List Action
unfolding trigger_prefetch
read_all s job l spans =
    let (l', requests) = trigger_prefetch job l (job.offset / block_size) in
    (with_leaf s job.inode l', requests ++ reply_data job.request spans ∷ [])

unfoldable pub read_cached : CacheState → ReadJob → View → Result (CacheState × List Action)
unfolding read_missing read_partial read_all
read_cached s job v = elim v.spans [
  | [] ↦ read_missing s job v.leaf
  | span ∷ spans ↦ ok (
      if ltb (total_size (span ∷ spans)) job.size
      then read_partial s job v.leaf (span ∷ spans)
      else read_all s job v.leaf (span ∷ spans))
]

-- The read ends with the file.
abbrev pub clipped : ReadJob → Leaf → ReadJob
clipped job l = record job {
  size = if ltb l.size (job.offset + job.size) then l.size - job.offset else job.size;
}

-- FuseReadFileJob::ExecuteCachedTree
unfoldable pub execute : CacheState → ReadJob → Bool → Result (CacheState × List Action)
unfolding read_cached
execute s job stopped =
    if stopped
    then ok (s, reply_error job.request ∷ [])
    else leaf_at s.tree job.inode >>= λ l.
        let job' = clipped job l in
        if leb l.size job.offset
        then ok (s, reply_error job.request ∷ [])
        else get_data s.tree job.inode job.offset job'.size >>= λ (t, v).
            read_cached (record s { tree = t }) job' v
