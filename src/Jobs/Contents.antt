-- ===== src/Jobs/Contents.antt =====
-- What FuseReadFileJob answers: the bytes of the file.
use multi_threaded_socket.Common.{ℕ, ◌+◌, ◌-◌, ◌*◌, ◌/◌, ◌≤◌, ◌≡◌, ◌%◌, List, All}
use multi_threaded_socket.MultiList.{concat}
use multi_threaded_socket.FileSystem.Range.Slice.{slice}
use multi_threaded_socket.FileSystem.Leaf.{Leaf, block_size}
use multi_threaded_socket.FileSystem.Leaf.Reading.{total_size}
use multi_threaded_socket.FileSystem.Leaf.Reading
use multi_threaded_socket.Jobs.{
  ReadJob, Action, reply_data, reply_error, fuse_read, request_read_file, read_file_cache,
  prefix_disk_read, write_file_cache, free_recv_packets,
}

module _ (file : ℕ → ℕ) (refuses : Type 0) where
  -- What an action for `size` bytes from `offset` on holds: all of them; or those in front of what is
  -- read from the disk, from the beginning of the block on in which they end; or those of the next
  -- block. What is requested is a whole block. An error answers what is refused.
  abbrev pub Described : ℕ → ℕ → Action → Type 0
  Described offset size (reply_data r spans) = concat spans ≡ slice file offset size
  Described offset size (reply_error r) = refuses
  Described offset size (fuse_read job) = (job.offset ≡ offset) × (job.size ≡ size)
  Described offset size (request_read_file inode n at remote) =
      (n ≡ block_size) × (at % block_size ≡ 0)
  Described offset size (read_file_cache r f n at append) =
      (at ≡ offset)
      × (n ≡ size)
      × (concat append ≡ slice file ((offset / block_size + 1) * block_size) (total_size append))
      × (total_size append ≤ offset + size - (offset / block_size + 1) * block_size)
  Described offset size (prefix_disk_read r spans f at n) =
      (concat spans ≡ slice file offset (total_size spans))
      × (total_size spans + n ≡ size)
      × (at ≡ (offset + total_size spans) / block_size * block_size)
  Described offset size (write_file_cache free) = Unit
  Described offset size (free_recv_packets packets) = Unit

  abbrev pub AllDescribed : ReadJob → List Action → Type 0
  AllDescribed job = All (Described job.offset job.size)
