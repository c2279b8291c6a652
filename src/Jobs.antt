-- ===== src/Jobs.antt =====
-- SimpleNetworkProtocol/Protocol/src/FileSystem/FileCache: the jobs that read a file through its
-- cache. What a job hands to the scheduler, to FUSE or to the network is an action. A request of FUSE
-- is a number, and so is a remote file; the pending job of a request in a leaf has the request's
-- number, and `pending_reads` is what it holds. The file of the disk cache is named by the inode of
-- its leaf. Pins are not given back (see FileSystem.Leaf.Reading).
pub mod FuseRead
pub mod Answers
pub mod Contents
pub mod Spinning
pub mod ApplyBlock
pub mod Eviction
pub mod Woken
pub mod Waking
pub mod Waiting
use multi_threaded_socket.Common.{ℕ, List, [], ◌++◌}
use multi_threaded_socket.FileSystem.FileTree.{FileTree, FreeData}

-- FuseReadFileJob: the members, the two pins as one list.
pub record ReadJob : Type 0 where
  pub request : ℕ
  pub inode : ℕ
  pub size : ℕ
  pub offset : ℕ
  pub remote_file : ℕ
  pub pins : List (ℕ × ℕ)

-- The constructor without pins.
abbrev pub without_pins : ReadJob → ReadJob
without_pins job = record job { pins = [] }

pub data Action : Type 0 where
  -- fuse_reply_data, fuse_reply_err
  reply_data : ℕ → List (List ℕ) → Action
  reply_error : ℕ → Action
  -- FuseReadFileJob
  fuse_read : ReadJob → Action
  -- RequestReadFileJob of no request: inode, size, offset, remote file
  request_read_file : ℕ → ℕ → ℕ → ℕ → Action
  -- ReadFileCacheJob: request, file, size, offset, data to append
  read_file_cache : ℕ → ℕ → ℕ → ℕ → List (List ℕ) → Action
  -- PrefixDiskReadFileCacheJob: request, data in front, file, offset, size
  prefix_disk_read : ℕ → List (List ℕ) → ℕ → ℕ → ℕ → Action
  -- WriteFileCacheJob
  write_file_cache : FreeData → Action
  -- FreeRecvPacketsJob
  free_recv_packets : List (List ℕ) → Action

pub record CacheState : Type 0 where
  pub tree : FileTree
  pub pending_reads : List (ℕ × ReadJob)
