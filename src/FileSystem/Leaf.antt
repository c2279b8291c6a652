-- ===== src/FileSystem/Leaf.antt =====
-- Leaf.hpp, Leaf.cpp, PiecesStatus.hpp and PiecesStatus.cpp: what a file of the tree keeps of its
-- contents, who waits for it, and who refers to it. The children are in FileSystem.Tree.
-- `_data` is a map from a block's index to its set of ranges, which is the list of them sorted by
-- offset. A pending job is a number.
pub mod Data
pub mod Reading
pub mod Agreement
pub mod AddData
pub mod Bytes
pub mod Spans
pub mod GetData
pub mod Pins
pub mod Eviction
pub mod Jobs
pub mod Pinning
pub mod Counts
use multi_threaded_socket.Common.{
  ℕ, ◌+◌, ◌-◌, ◌/◌, Bool, true, false, Option, none, some, List, [], ◌∷◌, ◌++◌, ltb, leb, ◌==◌,
  if◌then◌else◌, length, get_or, set, replicate, find, assign, erase,
}
use multi_threaded_socket.FileSystem.Range.{Range}

pub data PieceStatus : Type 0 where
  not_found in_flight in_cache on_disk : PieceStatus

-- `GetStatus`; out of range it is undefined, and `not_found` here.
abbrev pub get_status : List PieceStatus → ℕ → PieceStatus
get_status statuses index = get_or statuses index not_found

-- `SetStatus`; out of range it is undefined, and changes nothing here.
abbrev pub set_status : List PieceStatus → ℕ → PieceStatus → List PieceStatus
set_status = set

abbrev pub block_size : ℕ
block_size = 1300000

pub record Leaf : Type 0 where
  pub size : ℕ
  pub nlookup : ℕ
  pub self_pin : Bool
  pub blocks : List (ℕ × List Range)
  pub pieces_status : List PieceStatus
  pub pending_jobs : List (ℕ × List ℕ)

-- The constructor: a status for each block, none of them here.
unfoldable pub new_leaf : ℕ → Leaf
new_leaf size = record {
  size = size;
  nlookup = 0;
  self_pin = false;
  blocks = [];
  pieces_status = replicate (size / block_size + 1) not_found;
  pending_jobs = [];
}

-- AddRef: the first reference captures the pin.
unfoldable pub add_ref : Leaf → Leaf
add_ref l = record l {
  nlookup = l.nlookup + 1;
  self_pin = if l.nlookup == 0 then true else l.self_pin;
}

-- ReleaseRef: the last reference gives the pin back. `nlookup` is at most `_nlookup` (asserted).
unfoldable pub release_ref : Leaf → ℕ → Leaf
release_ref l nlookup = record l {
  nlookup = l.nlookup - nlookup;
  self_pin = if l.nlookup == nlookup then false else l.self_pin;
}

-- SetInFlight
unfoldable pub set_in_flight : Leaf → ℕ → Leaf × Bool
set_in_flight l index = elim (get_status l.pieces_status index) [
  | not_found ↦ (record l { pieces_status = set_status l.pieces_status index in_flight }, true)
  | in_flight ↦ (l, false)
  | in_cache ↦ (l, false)
  | on_disk ↦ (l, false)
]

-- AddPendingJob
unfoldable pub add_pending_job : Leaf → ℕ → ℕ → Leaf
add_pending_job l index job = elim (find index l.pending_jobs) [
  | none ↦ record l { pending_jobs = assign index (job ∷ []) l.pending_jobs }
  | some jobs ↦ record l { pending_jobs = assign index (jobs ++ job ∷ []) l.pending_jobs }
]

-- TakePendingJobs
unfoldable pub take_pending_jobs : Leaf → ℕ → Leaf × List ℕ
take_pending_jobs l index = elim (find index l.pending_jobs) [
  | none ↦ (l, [])
  | some jobs ↦ (record l { pending_jobs = erase index l.pending_jobs }, jobs)
]

-- InvalidateDataCache
unfoldable pub invalidate_data_cache : Leaf → Leaf
invalidate_data_cache l = record l {
  blocks = [];
  pieces_status = replicate (l.size / block_size + 1) not_found;
}
