-- ===== src/FileSystem/FileTree/Steps.antt =====
-- Sequences of calls on a FileTree, and what InvalidateCacheLeafJob leaves behind.
use multi_threaded_socket.Common.{
  ℕ, zero, suc, ◌<◌, ◌≡◌, refl, sym, ap, ◌∙◌, subst, none, some, List, [], arith, length, get_elem?,
  find, replicate, find-assign_self, ok, ◌>>=◌, bind_ok, ok-injective, Distinct, ◌≢◌,
  some-injective, ℤ, pos, ◌+ℤ◌, ◌≤ℤ◌, int_laws,
}
use multi_threaded_socket.FileSystem.Leaf.{Leaf, invalidate_data_cache}
use multi_threaded_socket.FileSystem.Leaf.Data.{get_first_block_index, first_block_index}
use multi_threaded_socket.FileSystem.Leaf.Reading.{View}
use multi_threaded_socket.FileSystem.Leaf.Counts.{cached_packets}
use multi_threaded_socket.FileSystem.FileTree.{
  FileTree, FreeData, Shard, no_data, leaf_at, put_leaf, add_data, get_data, get_free_data,
  free_block, invalidate_cache_leaf, new_tree, shard_for_inode,
}
use multi_threaded_socket.FileSystem.FileTree.Shards.{count_in}
use multi_threaded_socket.FileSystem.FileTree.Accounting.{Accounted}
use multi_threaded_socket.FileSystem.FileTree.Operations.{
  at_leaf, add_data-Accounted, get_free_data-Accounted, get_data-Accounted,
  invalidate_cache_leaf-Accounted,
}

abbrev no_shard : Shard
no_shard = []

-- The shards of a new tree are empty.
no_entries :
    (n i : ℕ) (s : Shard)
    → get_elem? (replicate n (no_shard)) i ≡ some s
    → (P : Shard → Type 0) → P []
    → P s
no_entries zero i s e P h = cc
no_entries (suc n) zero s e P h = subst P (some-injective _ _ e) h
no_entries (suc n) (suc i) s e P h = no_entries n i s e P h

emptied : (l : Leaf) → get_first_block_index (invalidate_data_cache l) ≡ none
unfolding get_first_block_index first_block_index invalidate_data_cache
emptied l = refl

module _ (hash : ℕ → ℕ) (first : Shard → ℕ) where
  -- A call that returns.
  pub data Step (t t' : FileTree) : Type 0 where
    added :
        (inode offset size : ℕ) (packets back : List (List ℕ)) (l : Leaf)
        → find inode t.leaves ≡ some l
        → add_data hash t inode offset size packets ≡ ok (t', back)
        → Step t t'
    freed : (i : ℕ) (free : FreeData) → i < 4 → get_free_data first t i ≡ ok (t', free) → Step t t'
    read :
        (inode offset size : ℕ) (v : View) → get_data t inode offset size ≡ ok (t', v) → Step t t'
    invalidated : (inode : ℕ) → invalidate_cache_leaf t inode ≡ ok t' → Step t t'

  pub data Reach (s : FileTree) : FileTree → Type 0 where
    here : Reach s s
    next : {t u : FileTree} → Reach s t → Step t u → Reach s u

  Step-Accounted : (t t' : FileTree) → Step t t' → Accounted hash t → Accounted hash t'
  Step-Accounted t t' (added inode offset size packets back l at e) a =
      let (u, b, run, a') = add_data-Accounted hash t inode offset size packets l a at in
      subst (Accounted hash)
        (ap (λ (p : FileTree × List (List ℕ)). p.0) (ok-injective _ _ (sym run ∙ e))) a'
  Step-Accounted t t' (freed i free h e) a =
      let (u, f, run, a', _) = get_free_data-Accounted hash first t i a h in
      subst (Accounted hash)
        (ap (λ (p : FileTree × FreeData). p.0) (ok-injective _ _ (sym run ∙ e))) a'
  Step-Accounted t t' (read inode offset size v e) a =
      get_data-Accounted hash t inode offset size t' v a e
  Step-Accounted t t' (invalidated inode e) a = invalidate_cache_leaf-Accounted hash t inode t' a e

  pub Reach-Accounted : {s t : FileTree} → Accounted hash s → Reach s t → Accounted hash t
  Reach-Accounted a here = a
  Reach-Accounted a (next {t} {u} r st) = Step-Accounted t u st (Reach-Accounted a r)

  pub new_tree-Accounted :
      (leaves : List (ℕ × Leaf))
      → ((inode : ℕ) (l : Leaf) → find inode leaves ≡ some l → cached_packets l ≡ 0)
      → Accounted hash (new_tree leaves)
  unfolding new_tree Distinct find
  new_tree-Accounted leaves empty = record {
    shards = refl;
    distinct = λ i s e. no_entries 4 i s e (λ x. Distinct x) tt;
    own = λ i s inode count e f.
        absurd (no_entries 4 i s e (λ x. find inode x ≢ some count) (λ h. cc) f);
    covered = λ inode l s f e.
        no_entries 4 (shard_for_inode hash inode) s e
          (λ x. pos (cached_packets l) ≤ℤ count_in x inode) (none_cached inode l (empty inode l f));
    total = omega int_laws;
  }
    where
      none_cached :
          (inode : ℕ) (l : Leaf)
          → cached_packets l ≡ 0
          → pos (cached_packets l) ≤ℤ count_in [] inode
      none_cached inode l h = omega arith

  -- However calls of AddData, GetData, GetFreeData and InvalidateCacheLeafJob follow one another on
  -- a tree whose caches were empty: GetFreeData of each of the four shards returns, since no leaf
  -- holds more packets than are counted for it, and the total falls by the packets that it gives
  -- out.
  pub reached_get_free_data :
      (leaves : List (ℕ × Leaf)) (t : FileTree) (i : ℕ)
      → ((inode : ℕ) (l : Leaf) → find inode leaves ≡ some l → cached_packets l ≡ 0)
      → Reach (new_tree leaves) t
      → i < 4
      → (t' : FileTree) × (free : FreeData) × (get_free_data first t i ≡ ok (t', free))
        × Accounted hash t'
        × (t'.grand_total_cached_packets +ℤ pos (length free.data_packets)
            ≡ t.grand_total_cached_packets)
  reached_get_free_data leaves t i empty r h =
      get_free_data-Accounted hash first t i (Reach-Accounted (new_tree-Accounted leaves empty) r) h

-- Once InvalidateCacheLeafJob has emptied the leaf whose entry is the first of its shard, the entry
-- stays: GetFreeData of the shard gives nothing and changes nothing, however many packets the other
-- leaves of the shard hold, and the total, packets that are gone included, is as it was.
pub stale_entry :
    (first : Shard → ℕ) (t t' : FileTree) (i : ℕ) (s : Shard) (inode : ℕ) (count : ℤ)
    → get_elem? t.cache_per_shard i ≡ some s
    → get_elem? s (first s) ≡ some (inode, count)
    → invalidate_cache_leaf t inode ≡ ok t'
    → (get_free_data first t' i ≡ ok (t', no_data))
      × (t'.grand_total_cached_packets ≡ t.grand_total_cached_packets)
unfolding invalidate_cache_leaf get_free_data free_block
stale_entry first t t' i s inode count mine entry e =
    let (l, there, done) = bind_ok (leaf_at t inode) _ e in
    let same : put_leaf t inode (invalidate_data_cache l) ≡ t' = ok-injective _ _ done in
    subst
      (λ (u : FileTree).
        (get_free_data first u i ≡ ok (u, no_data))
        × (u.grand_total_cached_packets ≡ t.grand_total_cached_packets))
      same
      (
        rw
            (
              mine,
              entry,
              get_free_data,
              at_leaf (put_leaf t inode (invalidate_data_cache l)) inode (invalidate_data_cache l)
                  (find-assign_self inode (invalidate_data_cache l) t.leaves),
              ◌>>=◌,
              emptied l,
            )
            refl,
        refl,
      )
