-- ===== src/FileSystem/FileTree/Operations.antt =====
-- The operations of a FileTree keep its accounts.
use multi_threaded_socket.Common.{
  ℕ, zero, suc, ◌+◌, ◌-◌, ◌*◌, ◌%◌, ◌≤◌, ◌<◌, ◌≡◌, refl, sym, ap, ◌∙◌, subst, none, some, List, [],
  ◌∷◌, arith, length, get_elem?, set, ◌==◌, find, assign, Bool-cases, Option-cases, inl, inr, ok,
  err, Result, Result-cases, ok-injective, ◌>>=◌, bind_ok, no_leaf, ℤ, pos, negsuc, ◌+ℤ◌, ◌-ℤ◌,
  ◌≤ℤ◌, sub_ℕ, int_laws, +ℤ_parts, Distinct,
}
use multi_threaded_socket.FileSystem.Leaf.{Leaf, block_size, invalidate_data_cache}
use multi_threaded_socket.FileSystem.Leaf.Data
use multi_threaded_socket.FileSystem.Leaf.Data.{extract_block, get_first_block_index}
use multi_threaded_socket.FileSystem.Leaf.Reading.{View}
use multi_threaded_socket.FileSystem.Leaf.Reading
use multi_threaded_socket.FileSystem.Leaf.Counts.{
  cached_packets, add_data-cached_packets, extract_block-cached_packets, get_data-cached_packets,
}
use multi_threaded_socket.FileSystem.FileTree.{
  FileTree, FreeData, Shard, no_data, leaf_at, put_leaf, add_data, get_data, get_free_data,
  free_block, shard_for_inode, shard_count, invalidate_cache_leaf, add_count, block_bytes,
}
use multi_threaded_socket.FileSystem.FileTree.Shards.{
  or_zero, Changed, add_count-Changed, sub_count-Changed,
}
use multi_threaded_socket.FileSystem.FileTree.Accounting.{Accounted, changed-Accounted}

pub at_leaf :
    (t : FileTree) (inode : ℕ) (l : Leaf) → find inode t.leaves ≡ some l → leaf_at t inode ≡ ok l
at_leaf t inode l e = rw (e, leaf_at) refl

set_same :
    (shards : List Shard) (i : ℕ) (s : Shard)
    → get_elem? shards i ≡ some s
    → set shards i s ≡ shards
set_same [] i s e = refl
set_same (x ∷ shards) zero s e = ground arith
set_same (x ∷ shards) (suc i) s e = ap (◌∷◌ x) (set_same shards i s e)

found :
    (shards : List Shard) (i : ℕ) → i < length shards → (s : Shard) × (get_elem? shards i ≡ some s)
found [] i h = absurd (omega arith)
found (x ∷ shards) zero h = (x, refl)
found (x ∷ shards) (suc i) h = found shards i (omega arith)

-- What is left of a count that covers what goes.
covered_count : (c : ℤ) (n n' p : ℕ) → n' + p ≤ n → pos n ≤ℤ c → (m : ℕ) × (c ≡ pos (p + m))
covered_count (pos k) n n' p h b = (k - p, ap pos (omega arith))
covered_count (negsuc k) n n' p h b = absurd (omega arith)

pub find_leaf :
    (t : FileTree) (inode : ℕ) (l : Leaf) → leaf_at t inode ≡ ok l → find inode t.leaves ≡ some l
find_leaf t inode l e = elim (Option-cases (find inode t.leaves)) [
  | inl h ↦ let absent : ◌≡◌ {A = Result Leaf} (err no_leaf) (ok l) = rw (h, leaf_at) at e in cc
  | inr (m, h) ↦ let same : m ≡ l = ok-injective _ _ (rw (h, leaf_at) at e) in h ∙ ap some same
]

-- GetData of the tree is GetData of the leaf, which is put back.
pub get_data-leaf :
    (t : FileTree) (inode offset size : ℕ) (l : Leaf) (t' : FileTree) (v : View)
    → find inode t.leaves ≡ some l
    → get_data t inode offset size ≡ ok (t', v)
    → (Reading.get_data l offset size ≡ ok v) × (put_leaf t inode v.leaf ≡ t')
unfolding get_data
get_data-leaf t inode offset size l t' v there e =
    elim (Result-cases (Reading.get_data l offset size)) [
      | inl (error, r) ↦
          let absent : ◌≡◌ {A = Result (FileTree × View)} (err error) (ok (t', v)) =
            rw (at_leaf t inode l there, ◌>>=◌, r) at e in
          cc
      | inr (u, r) ↦
          let same : ◌≡◌ {A = FileTree × View} (put_leaf t inode u.leaf, u) (t', v) =
            ok-injective _ _ (rw (at_leaf t inode l there, ◌>>=◌, r) at e) in
          let view : u ≡ v = ap (λ (p : FileTree × View). p.1) same in
          (
            r ∙ ap ok view,
            ap (λ (w : View). put_leaf t inode w.leaf) (sym view)
                ∙ ap (λ (p : FileTree × View). p.0) same,
          )
    ]

unchanged : (s : Shard) (inode : ℕ) → Distinct s → Changed s s inode (pos 0)
unchanged s inode h = record {
  distinct = h;
  others = λ j n. refl;
  count = omega int_laws;
  sum = omega int_laws;
}

cached_invalid : (l : Leaf) → cached_packets (invalidate_data_cache l) ≡ 0
unfolding invalidate_data_cache
cached_invalid l = refl

Shard_in :
    (s : Shard) (i inode : ℕ) (c : ℤ)
    → Distinct s
    → get_elem? s i ≡ some (inode, c)
    → find inode s ≡ some c
unfolding find Distinct
Shard_in [] i inode c d e = cc
Shard_in ((k, v) ∷ s) zero inode c d e = ground arith
Shard_in ((k, v) ∷ s) (suc i) inode c d e =
    let ih = Shard_in s i inode c d.1 e in
    elim (Bool-cases (k == inode)) [
      | inl t ↦
          let same : k ≡ inode = ground arith in
          let gone : find inode s ≡ none = ap (λ j. find j s) (sym same) ∙ d.0 in cc
      | inr t ↦ rw t ih
    ]

module _ (hash : ℕ → ℕ) where
  -- The shard of an inode is there.
  shard_of :
      (t : FileTree) (inode : ℕ)
      → Accounted hash t
      → (s : Shard) × (get_elem? t.cache_per_shard (shard_for_inode hash inode) ≡ some s)
  unfolding shard_for_inode
  shard_of t inode a =
      found t.cache_per_shard (hash inode % shard_count) (let n = a.shards in omega arith)

  -- A leaf that holds no more than before is put in its place.
  pub put_leaf-Accounted :
      (t : FileTree) (inode : ℕ) (l l' : Leaf)
      → Accounted hash t
      → find inode t.leaves ≡ some l
      → cached_packets l' ≤ cached_packets l
      → Accounted hash (put_leaf t inode l')
  put_leaf-Accounted t inode l l' a here le =
      let (s, mine) = shard_of t inode a in
      changed-Accounted hash t (put_leaf t inode l') inode l l' s s (pos 0) a here mine
        (unchanged s inode (a.distinct _ s mine)) refl
        (sym (set_same t.cache_per_shard (shard_for_inode hash inode) s mine)) (omega int_laws)
        (omega int_laws)

  -- AddData on a leaf that is there returns, and keeps the accounts.
  pub add_data-Accounted :
      (t : FileTree) (inode offset size : ℕ) (packets : List (List ℕ)) (l : Leaf)
      → Accounted hash t
      → find inode t.leaves ≡ some l
      → (t' : FileTree) × (back : List (List ℕ)) × (add_data hash t inode offset size packets
          ≡ ok (t', back))
        × Accounted hash t'
  unfolding add_data
  add_data-Accounted t inode offset size packets l a here =
      let (s, mine) = shard_of t inode a in
      let l' = (Data.add_data l offset size packets).0 in
      let back = (Data.add_data l offset size packets).1 in
      let added = sub_ℕ (length packets) (length back) in
      let t' : FileTree = record {
        leaves = assign inode l' t.leaves;
        cache_per_shard =
            set t.cache_per_shard (shard_for_inode hash inode) (add_count s inode added);
        grand_total_cached_packets = t.grand_total_cached_packets +ℤ added;
      } in
      (
        t',
        back,
        rw (at_leaf t inode l here, ◌>>=◌, mine) refl,
        changed-Accounted hash t t' inode l l' s (add_count s inode added) added a here mine
            (add_count-Changed s inode added (a.distinct _ s mine)) refl refl
            (counted (cached_packets l) (cached_packets l') (length packets) (length back)
              (add_data-cached_packets l offset size packets))
            refl,
      )
    where
      counted : (n n' p b : ℕ) → n' + b ≤ n + p → pos n' ≤ℤ pos n +ℤ sub_ℕ p b
      counted n n' p b h = ground (arith, +ℤ_parts (pos n) (sub_ℕ p b))

  -- The block that goes is of packets that are counted.
  free_block-Accounted :
      (t : FileTree) (i : ℕ) (s : Shard) (inode : ℕ) (c : ℤ)
      → Accounted hash t
      → get_elem? t.cache_per_shard i ≡ some s
      → find inode s ≡ some c
      → (t' : FileTree) × (free : FreeData) × (free_block t i s inode c ≡ ok (t', free))
        × Accounted hash t'
        × (t'.grand_total_cached_packets +ℤ pos (length free.data_packets)
            ≡ t.grand_total_cached_packets)
  unfolding free_block
  free_block-Accounted t i s inode c a mine e =
      let (own, (l, here)) = a.own i s inode c mine e in
      elim (Option-cases (get_first_block_index l)) [
        | inl b ↦ (t, no_data, rw (at_leaf t inode l here, ◌>>=◌, b) refl, a, omega int_laws)
        | inr (index, b) ↦
            let l' = (extract_block l index).0 in
            let packets = (extract_block l index).2 in
            let mine' = ap (get_elem? t.cache_per_shard) own ∙ mine in
            let bound = a.covered inode l s here mine' in
            let fewer = extract_block-cached_packets l index in
            let (m, left) =
              covered_count c (cached_packets l) (cached_packets l') (length packets) fewer
                (subst (λ x. pos (cached_packets l) ≤ℤ or_zero x) e bound) in
            let (s', run, changed) =
              sub_count-Changed s inode c (length packets) m (a.distinct i s mine) e left in
            let t' : FileTree = record {
              leaves = assign inode l' t.leaves;
              cache_per_shard = set t.cache_per_shard i s';
              grand_total_cached_packets = t.grand_total_cached_packets -ℤ pos (length packets);
            } in
            let free : FreeData = record {
              inode = inode;
              offset = (extract_block l index).1;
              size = block_bytes l'.size (index * block_size);
              data_packets = packets;
            } in
            (
              t',
              free,
              rw (at_leaf t inode l here, ◌>>=◌, b, run, ◌>>=◌) refl,
              changed-Accounted hash t t' inode l l' s s' (pos 0 -ℤ pos (length packets)) a here
                  mine' changed refl (ap (λ k. set t.cache_per_shard k s') (sym own))
                  (omega (int_laws, fewer)) (omega int_laws),
              omega int_laws,
            )
      ]

  -- GetFreeData of a shard that there is returns, the assertion of a count holds, the accounts are
  -- kept, and the total falls by the packets that are given out.
  pub get_free_data-Accounted :
      (first : Shard → ℕ) (t : FileTree) (i : ℕ)
      → Accounted hash t
      → i < 4
      → (t' : FileTree) × (free : FreeData) × (get_free_data first t i ≡ ok (t', free))
        × Accounted hash t'
        × (t'.grand_total_cached_packets +ℤ pos (length free.data_packets)
            ≡ t.grand_total_cached_packets)
  unfolding get_free_data
  get_free_data-Accounted first t i a h =
      let (s, mine) = found t.cache_per_shard i (let n = a.shards in omega arith) in
      elim (Option-cases (get_elem? s (first s))) [
        | inl e ↦ (t, no_data, rw (mine, e, get_free_data) refl, a, omega int_laws)
        | inr ((inode, c), e) ↦
            let (t', free, run, a', total) =
              free_block-Accounted t i s inode c a mine
                (Shard_in s (first s) inode c (a.distinct i s mine) e) in
            (t', free, rw (mine, e, get_free_data) run, a', total)
      ]

  -- A reader pins ranges; no packet comes or goes.
  pub get_data-Accounted :
      (t : FileTree) (inode offset size : ℕ) (t' : FileTree) (v : View)
      → Accounted hash t
      → get_data t inode offset size ≡ ok (t', v)
      → Accounted hash t'
  unfolding get_data
  get_data-Accounted t inode offset size t' v a e =
      let (l, here, read) = bind_ok (leaf_at t inode) _ e in
      let (u, run, done) = bind_ok (Reading.get_data l offset size) _ read in
      let same : ◌≡◌ {A = FileTree × View} (put_leaf t inode u.leaf, u) (t', v) =
        ok-injective _ _ done in
      subst (Accounted hash) (ap (λ (p : FileTree × View). p.0) same) (
        put_leaf-Accounted t inode l u.leaf a (find_leaf t inode l here)
          (omega (arith, get_data-cached_packets l offset size u run)))

  -- What a leaf has cached is forgotten, and stays counted.
  pub invalidate_cache_leaf-Accounted :
      (t : FileTree) (inode : ℕ) (t' : FileTree)
      → Accounted hash t
      → invalidate_cache_leaf t inode ≡ ok t'
      → Accounted hash t'
  unfolding invalidate_cache_leaf
  invalidate_cache_leaf-Accounted t inode t' a e =
      let (l, here, done) = bind_ok (leaf_at t inode) _ e in
      subst (Accounted hash) (ok-injective _ _ done) (
        put_leaf-Accounted t inode l (invalidate_data_cache l) a (find_leaf t inode l here)
          (omega (arith, cached_invalid l)))
