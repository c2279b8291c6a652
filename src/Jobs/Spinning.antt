-- ===== src/Jobs/Spinning.antt =====
-- A read that FuseReadFileJob puts off for ever.
use multi_threaded_socket.Common.{
  ℕ, zero, suc, ◌-◌, ◌/◌, ◌<◌, ◌≡◌, refl, ap, min, false, none, some, [], ◌∷◌, arith, leb, find,
  find-assign_self, ok, ◌>>=◌, Bool-cases, inl, inr,
}
use multi_threaded_socket.FileSystem.Leaf.{Leaf, in_cache, block_size, get_status, set_in_flight}
use multi_threaded_socket.FileSystem.Leaf.Reading.{View, find_range, read_rounds}
use multi_threaded_socket.FileSystem.Leaf.Reading
use multi_threaded_socket.FileSystem.FileTree.{get_data}
use multi_threaded_socket.FileSystem.FileTree.Operations.{at_leaf}
use multi_threaded_socket.Jobs.{ReadJob, CacheState, without_pins, fuse_read}
use multi_threaded_socket.Jobs.FuseRead.{
  with_leaf, join_fetch, fetch_block, read_missing, read_cached, clipped, execute,
}

-- `n` times in turn the job, when it is executed, does nothing but schedule itself again.
abbrev pub Spins : ℕ → CacheState → ReadJob → Type 0
Spins zero s job = Unit
Spins (suc n) s job =
    (s' : CacheState) × (job' : ReadJob) × (execute s job false ≡ ok (s', fuse_read job' ∷ []))
    × Spins n s' job'

-- The block of the offset is in the cache, but no range of it reaches the offset.
pub record HasHole (l : Leaf) (job : ReadJob) : Type 0 where
  pub inside : job.offset < l.size
  pub hole : find_range l job.offset ≡ none
  pub status : get_status l.pieces_status (job.offset / block_size) ≡ in_cache

no_rounds :
    (l : Leaf) (offset : ℕ)
    → find_range l offset ≡ none
    → (fuel readed : ℕ)
    → read_rounds fuel (record { leaf = l; spans = []; pinned = [] }) offset readed
      ≡ ok (record { leaf = l; spans = []; pinned = [] })
unfolding read_rounds
no_rounds l offset e zero readed = refl
no_rounds l offset e (suc fuel) zero = refl
no_rounds l offset e (suc fuel) (suc n) = rw (e, read_rounds) refl

empty_read :
    (l : Leaf) (offset size : ℕ)
    → find_range l offset ≡ none
    → Reading.get_data l offset size ≡ ok (record { leaf = l; spans = []; pinned = [] })
unfolding Reading.get_data
empty_read l offset size e = elim (Bool-cases (leb l.size offset)) [
  | inl t ↦ rw t refl
  | inr t ↦ rw t (no_rounds l offset e (min size (l.size - offset)) (min size (l.size - offset)))
]

not_started :
    (l : Leaf) (index : ℕ)
    → get_status l.pieces_status index ≡ in_cache
    → (set_in_flight l index).1 ≡ false
unfolding set_in_flight
not_started l index e = rw (e, set_in_flight) refl

spin_fetch :
    (s : CacheState) (job : ReadJob) (l : Leaf) (index : ℕ)
    → get_status l.pieces_status index ≡ in_cache
    → fetch_block s job l index ≡ (s, fuse_read (without_pins job) ∷ [])
unfolding fetch_block join_fetch
spin_fetch s job l index e = rw (not_started l index e, fetch_block, e, join_fetch) refl

spin_missing :
    (s : CacheState) (job : ReadJob) (l : Leaf)
    → get_status l.pieces_status (job.offset / block_size) ≡ in_cache
    → read_missing s job l ≡ ok (s, fuse_read (without_pins job) ∷ [])
unfolding read_missing
spin_missing s job l e =
    rw (e, read_missing) (ap ok (spin_fetch s job l (job.offset / block_size) e))

spin_once :
    (s : CacheState) (job : ReadJob) (l : Leaf)
    → find job.inode s.tree.leaves ≡ some l
    → HasHole l job
    → execute s job false
      ≡ ok (with_leaf s job.inode l, fuse_read (without_pins (clipped job l)) ∷ [])
unfolding execute read_cached get_data
spin_once s job l there h =
    let past : leb l.size job.offset ≡ false = (let i = h.inside in ground arith) in
    rw
      (
        at_leaf s.tree job.inode l there,
        ◌>>=◌,
        past,
        empty_read l job.offset (clipped job l).size h.hole,
        ◌>>=◌,
      )
      (spin_missing (with_leaf s job.inode l) (clipped job l) l h.status)

-- While the block of the offset is in the cache, but no range of it holds the offset or ends at it, a
-- read of the byte there is neither answered nor made to wait: FuseReadFileJob schedules itself again, as often as it is
-- executed, and changes nothing that could end this.
pub fuse_read-Spins :
    (n : ℕ) (s : CacheState) (job : ReadJob) (l : Leaf)
    → find job.inode s.tree.leaves ≡ some l
    → HasHole l job
    → Spins n s job
fuse_read-Spins zero s job l there h = tt
fuse_read-Spins (suc n) s job l there h = (
  with_leaf s job.inode l,
  without_pins (clipped job l),
  spin_once s job l there h,
  fuse_read-Spins n (with_leaf s job.inode l) (without_pins (clipped job l)) l
      (find-assign_self job.inode l s.tree.leaves)
      (record { inside = h.inside; hole = h.hole; status = h.status }),
)
