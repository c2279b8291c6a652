-- ===== src/Tests/Blocks.antt =====
-- A block comes for which a read waits.
use multi_threaded_socket.Common.{
  ℕ, ◌+◌, ◌≡◌, refl, false, none, some, List, [], ◌∷◌, arith, find, assign, erase, Distinct, ◌/◌,
  ok, ℤ, pos, ◌+ℤ◌, Option, Bool-cases, inl, inr, ap, sym, subst, some-injective, ◌==◌, get_elem?,
  zero, suc, ◌%◌, ◌≤ℤ◌,
}
use multi_threaded_socket.FileSystem.Range.{upper_bound, pin}
use multi_threaded_socket.FileSystem.Leaf.{Leaf, in_cache, in_flight, take_pending_jobs}
use multi_threaded_socket.FileSystem.Leaf.Data
use multi_threaded_socket.FileSystem.Leaf.Reading.{
  read_rounds, find_range, pin_range, read_packets, skip_packets, take_spans,
}
use multi_threaded_socket.FileSystem.Leaf.Reading
use multi_threaded_socket.FileSystem.FileTree.{
  FileTree, Shard, new_tree, add_data, get_data, needs_eviction, shard_for_inode, add_count,
}
use multi_threaded_socket.FileSystem.FileTree.Accounting.{Accounted}
use multi_threaded_socket.FileSystem.FileTree.Shards.{count_in}
use multi_threaded_socket.FileSystem.FileTree.Steps.{new_tree-Accounted}
use multi_threaded_socket.FileSystem.Leaf.Counts.{cached_packets}
use multi_threaded_socket.Jobs.{CacheState, Action, fuse_read}
use multi_threaded_socket.Jobs.Answers.{pending, all_handed}
use multi_threaded_socket.Jobs.ApplyBlock
use multi_threaded_socket.Jobs.ApplyBlock.{BlockJob, bytes_of, reply, run_pending, wake, evict}
use multi_threaded_socket.Jobs.Eviction.{Evicts, evict-Evicted, Ended, execute-Ended}
use multi_threaded_socket.FileSystem.Leaf.{block_size}
use multi_threaded_socket.Jobs.Woken.{scheduled, waits_for}
use multi_threaded_socket.Jobs.Waiting.{apply_block-Balanced}
use multi_threaded_socket.Tests.Reads.{
  hash, first, empty_leaf, cached_leaf, two_packets, short_read,
}

-- The read 1 waits for the block 0.
abbrev waited_leaf : Leaf
waited_leaf = record empty_leaf { pieces_status = in_flight ∷ []; pending_jobs = (0, 1 ∷ []) ∷ [] }

abbrev waiting_state : CacheState
waiting_state = record {
  tree = new_tree ((7, waited_leaf) ∷ []);
  pending_reads = (1, short_read) ∷ [];
}

abbrev block : BlockJob
block = record {
  request = none;
  inode = 7;
  size = 1300000;
  offset = 0;
  skipped = 0;
  packets = two_packets;
}

-- The block is in the cache, and the read goes on with its pins.
abbrev arrived_state : CacheState
arrived_state = record {
  tree = record {
    leaves =
        (
          7,
          record {
            size = 12;
            nlookup = 0;
            self_pin = false;
            blocks =
                (0, record { offset = 0; size = 5; packets = two_packets; counter = 5 } ∷ []) ∷ [];
            pieces_status = in_cache ∷ [];
            pending_jobs = [];
          },
        )
        ∷ [];
    cache_per_shard = [] ∷ [] ∷ [] ∷ ((7, pos 2) ∷ []) ∷ [];
    grand_total_cached_packets = pos 2;
  };
  pending_reads = [];
}

abbrev goes_on : List Action
goes_on = fuse_read (record short_read { pins = (0, 0) ∷ (0, 0) ∷ (0, 0) ∷ (0, 0) ∷ [] }) ∷ []

block_arrives : ApplyBlock.execute hash first waiting_state block ≡ ok (arrived_state, goes_on)
unfolding ApplyBlock.execute add_data Data.add_data new_tree find assign add_count ◌+ℤ◌
    shard_for_inode bytes_of reply wake run_pending evict take_pending_jobs erase Reading.get_data
    read_rounds find_range pin_range read_packets skip_packets take_spans upper_bound pin
    needs_eviction get_data
block_arrives = refl

waited_there : find 7 waiting_state.tree.leaves ≡ some waited_leaf
unfolding find new_tree
waited_there = refl

waited_Distinct : Distinct waited_leaf.pending_jobs
unfolding Distinct find
waited_Distinct = (refl, tt)

apply_block_example :
    (pending 1 arrived_state + all_handed 1 goes_on ≡ pending 1 waiting_state + 0)
    × (scheduled goes_on ≡ waits_for waited_leaf ((block.offset + block.skipped) / block_size))
apply_block_example =
    apply_block-Balanced hash first waiting_state block waited_leaf 1 arrived_state goes_on
      waited_there waited_Distinct block_arrives

nothing_cached :
    (inode : ℕ) (l : Leaf) → find inode ((7, waited_leaf) ∷ []) ≡ some l → cached_packets l ≡ 0
unfolding find
nothing_cached inode l e = elim (Bool-cases (7 == inode)) [
  | inl t ↦ ap cached_packets (sym (some-injective waited_leaf l (rw t at e)))
  | inr t ↦ let absent : ◌≡◌ {A = Option Leaf} none (some l) = rw t at e in cc
]

block_applied_example : Accounted hash arrived_state.tree × Ended hash first arrived_state.tree 3
unfolding shard_for_inode
block_applied_example =
    execute-Ended hash first waiting_state block waited_leaf arrived_state goes_on
      (new_tree-Accounted hash first ((7, waited_leaf) ∷ []) nothing_cached) waited_there
      block_arrives

-- A tree that counts more packets than its leaf holds.
abbrev overfull : FileTree
overfull = record {
  leaves = (7, cached_leaf) ∷ [];
  cache_per_shard = [] ∷ [] ∷ [] ∷ ((7, pos 20000) ∷ []) ∷ [];
  grand_total_cached_packets = pos 20000;
}

-- Its shards
in_shards :
    (P : ℕ → Shard → Type 0)
    → ((i : ℕ) → P i [])
    → P 3 ((7, pos 20000) ∷ [])
    → (i : ℕ) (s : Shard) → get_elem? overfull.cache_per_shard i ≡ some s
    → P i s
in_shards P h k zero s e = subst (P 0) (some-injective _ _ e) (h 0)
in_shards P h k (suc zero) s e = subst (P 1) (some-injective _ _ e) (h 1)
in_shards P h k (suc (suc zero)) s e = subst (P 2) (some-injective _ _ e) (h 2)
in_shards P h k (suc (suc (suc zero))) s e = subst (P 3) (some-injective _ _ e) k
in_shards P h k (suc (suc (suc (suc i)))) s e = cc

overfull-Accounted : Accounted hash overfull
unfolding Distinct find shard_for_inode ◌+ℤ◌
overfull-Accounted = record {
  shards = refl;
  distinct = in_shards (λ i s. Distinct s) (λ i. tt) (refl, tt);
  own = λ i s inode count e.
      in_shards
        (λ i s.
          find inode s ≡ some count
          → (inode % 4 ≡ i) × ((l : Leaf) × (find inode overfull.leaves ≡ some l)))
        (λ i h. cc) (only inode count) i s e;
  covered = covers;
  total = refl;
}
  where
    only :
        (inode : ℕ) (count : ℤ)
        → find inode ((7, pos 20000) ∷ []) ≡ some count
        → (inode % 4 ≡ 3) × ((l : Leaf) × (find inode overfull.leaves ≡ some l))
    only inode count h = elim (Bool-cases (7 == inode)) [
      | inl t ↦ let same : 7 ≡ inode = ground arith in (omega arith, (cached_leaf, rw t refl))
      | inr t ↦ let absent : ◌≡◌ {A = Option ℤ} none (some count) = rw t at h in cc
    ]

    of_seven :
        (l : Leaf) (s : Shard)
        → find 7 overfull.leaves ≡ some l
        → get_elem? overfull.cache_per_shard 3 ≡ some s
        → pos (cached_packets l) ≤ℤ count_in s 7
    of_seven l s f e =
        let leaf : cached_leaf ≡ l = some-injective _ _ f in
        let shard : ◌≡◌ {A = Shard} ((7, pos 20000) ∷ []) s = some-injective _ _ e in
        subst (λ x. pos (cached_packets x) ≤ℤ count_in s 7) leaf
          (subst (λ x. pos 2 ≤ℤ count_in x 7) shard (omega arith))

    covers :
        (inode : ℕ) (l : Leaf) (s : Shard)
        → find inode overfull.leaves ≡ some l
        → get_elem? overfull.cache_per_shard (shard_for_inode hash inode) ≡ some s
        → pos (cached_packets l) ≤ℤ count_in s inode
    covers inode l s f e = elim (Bool-cases (7 == inode)) [
      | inl t ↦
          let same : 7 ≡ inode = ground arith in
          subst
            (λ n.
              find n overfull.leaves ≡ some l
              → get_elem? overfull.cache_per_shard (n % 4) ≡ some s
              → pos (cached_packets l) ≤ℤ count_in s n)
            same (of_seven l s) f e
      | inr t ↦ let absent : ◌≡◌ {A = Option Leaf} none (some l) = rw t at f in cc
    ]

evict_example : Evicts hash first 20000 overfull 3
evict_example =
    evict-Evicted hash first 20000 overfull 3 overfull-Accounted (omega arith) (omega arith)
