-- ===== src/Jobs/Eviction.antt =====
-- The eviction at the end of ApplyBlockCacheJob, and the accounts of the tree through the whole job.
use multi_threaded_socket.Common.{
  ℕ, zero, suc, ◌+◌, ◌*◌, ◌/◌, ◌%◌, ◌≤◌, ◌<◌, ◌≡◌, ◌⊎◌, refl, sym, ap, ◌∙◌, subst, min, true, false,
  Option, none, some, List, [], ◌∷◌, length, arith, find, erase, Result, ok, err, ◌>>=◌, bind_ok,
  ok-injective, Bool-cases, Option-cases, inl, inr, ℤ, pos, ◌+ℤ◌, pos_part, int_laws, parts_of_eq,
  +ℤ_parts, null_buffer, no_pending_read,
}
use multi_threaded_socket.FileSystem.Leaf.{Leaf, block_size, take_pending_jobs}
use multi_threaded_socket.FileSystem.Leaf.Reading.{View}
use multi_threaded_socket.FileSystem.Leaf.Reading
use multi_threaded_socket.FileSystem.Leaf.Counts.{cached_packets, get_data-cached_packets}
use multi_threaded_socket.FileSystem.FileTree.{
  FileTree, FreeData, Shard, leaf_at, get_data, add_data, get_free_data, needs_eviction,
  shard_for_inode, shard_count,
}
use multi_threaded_socket.FileSystem.FileTree.Accounting.{Accounted}
use multi_threaded_socket.FileSystem.FileTree.Operations.{
  find_leaf, put_leaf-Accounted, add_data-Accounted, get_free_data-Accounted,
}
use multi_threaded_socket.Jobs.{CacheState, Action, reply_data}
use multi_threaded_socket.Jobs.FuseRead.{with_leaf}
use multi_threaded_socket.Jobs.ApplyBlock.{
  BlockJob, bytes_of, reply, run_pending, wake, evict, execute,
}

abbrev pub packets_in : List FreeData → ℕ
packets_in [] = 0
packets_in (free ∷ frees) = length free.data_packets + packets_in frees

module _ (hash : ℕ → ℕ) (first : Shard → ℕ) where
  -- The eviction had a reason to end: the total is within the bound, or the shard gave nothing.
  abbrev pub Ended : FileTree → ℕ → Type 0
  Ended t i =
      (needs_eviction t ≡ false)
      ⊎ ((u : FileTree) × (free : FreeData) × (get_free_data first u i ≡ ok (t, free))
          × (free.data_packets ≡ []))

  -- What the eviction of a shard makes of a tree.
  pub record Evicted (t : FileTree) (i : ℕ) (t' : FileTree) (frees : List FreeData) : Type 0 where
    pub accounted : Accounted hash t'
    pub total :
        t'.grand_total_cached_packets +ℤ pos (packets_in frees) ≡ t.grand_total_cached_packets
    pub ended : Ended t' i

  no_more : (t : FileTree) → pos_part t.grand_total_cached_packets ≤ 0 → needs_eviction t ≡ false
  unfolding needs_eviction
  no_more t h = ground arith

  falls : (g g' : ℤ) (n k : ℕ) → g' +ℤ pos (suc n) ≡ g → pos_part g ≤ suc k → pos_part g' ≤ k
  falls g g' n k e h = ground (arith, parts_of_eq _ _ e, +ℤ_parts g' (pos (suc n)))

  abbrev pub Evicts : ℕ → FileTree → ℕ → Type 0
  Evicts fuel t i =
      (t' : FileTree) × (frees : List FreeData) × (evict first fuel t i ≡ ok (t', frees))
      × Evicted t i t' frees

  -- One round that gives a block, or nothing.
  evict_round :
      (fuel : ℕ) (t : FileTree) (i : ℕ) (t' : FileTree) (free : FreeData) (packets : List (List ℕ))
      → free.data_packets ≡ packets
      → needs_eviction t ≡ true
      → get_free_data first t i ≡ ok (t', free)
      → Accounted hash t'
      → t'.grand_total_cached_packets +ℤ pos (length packets) ≡ t.grand_total_cached_packets
      → pos_part t.grand_total_cached_packets ≤ suc fuel
      → (pos_part t'.grand_total_cached_packets ≤ fuel → Evicts fuel t' i)
      → Evicts (suc fuel) t i
  unfolding evict
  evict_round fuel t i t' free [] d e run a total b again = (
    t',
    [],
    rw (e, evict, run, ◌>>=◌, d) refl,
    record { accounted = a; total = total; ended = inr (t, free, run, d) },
  )
  evict_round fuel t i t' free (p ∷ ps) d e run a total b again =
      let (t'', frees, rest, done) = again (
        falls t.grand_total_cached_packets t'.grand_total_cached_packets (length ps) fuel total
          b) in
      (
        t'',
        free ∷ frees,
        rw (e, evict, run, ◌>>=◌, d, rest, ◌>>=◌)
            (ap (λ x. ok (t'', record free { data_packets = x } ∷ frees)) d),
        record {
          accounted = done.accounted;
          total = sums _ _ _ _ _ _ (ap length d) total done.total;
          ended = done.ended;
        },
      )
    where
      sums :
          (g g' g'' : ℤ) (n m k : ℕ)
          → n ≡ m
          → g' +ℤ pos m ≡ g
          → g'' +ℤ pos k ≡ g'
          → g'' +ℤ pos (n + k) ≡ g
      sums g g' g'' n m k x y z = omega (int_laws, parts_of_eq _ _ y, parts_of_eq _ _ z)

  -- The eviction loop of ApplyBlockCacheJob ends: the total is within the bound then, or GetFreeData
  -- gave nothing for the shard. The total falls by the packets that are given out, and the accounts
  -- stay in order.
  pub evict-Evicted :
      (fuel : ℕ) (t : FileTree) (i : ℕ)
      → Accounted hash t
      → i < 4
      → pos_part t.grand_total_cached_packets ≤ fuel
      → Evicts fuel t i
  unfolding evict
  evict-Evicted zero t i a h b =
      (t, [], refl, record { accounted = a; total = omega int_laws; ended = inl (no_more t b) })
  evict-Evicted (suc fuel) t i a h b = elim (Bool-cases (needs_eviction t)) [
    | inr e ↦
        (t, [], rw (e, evict) refl, record { accounted = a; total = omega int_laws; ended = inl e })
    | inl e ↦
        let (t', free, run, a', total) = get_free_data-Accounted hash first t i a h in
        evict_round fuel t i t' free free.data_packets refl e run a' total b
          (λ less. evict-Evicted fuel t' i a' h less)
  ]

  -- The leaf of a state is put back with no more packets.
  read-Accounted :
      (s : CacheState) (inode : ℕ) (l : Leaf) (offset size : ℕ) (v : View)
      → Accounted hash s.tree
      → find inode s.tree.leaves ≡ some l
      → Reading.get_data l offset size ≡ ok v
      → Accounted hash (with_leaf s inode v.leaf).tree
  read-Accounted s inode l offset size v a there e =
      put_leaf-Accounted hash s.tree inode l v.leaf a there
        (omega (arith, get_data-cached_packets l offset size v e))

  reply-Accounted :
      (t : FileTree) (job : BlockJob) (size : ℕ) (r : FileTree × List Action)
      → Accounted hash t
      → reply t job size ≡ ok r
      → Accounted hash r.0
  unfolding reply
  reply-Accounted t job size r a e = by_request job.request e
    where
      by_request :
          (request : Option ℕ)
          → elim request as (λ x. Result (FileTree × List Action)) [
            | none ↦ ok (t, [])
            | some id ↦ get_data t job.inode job.offset size >>= λ (t', v).
                elim v.spans as (λ x. Result (FileTree × List Action)) [
                  | [] ↦ err null_buffer
                  | span ∷ spans ↦ ok (t, reply_data id (span ∷ spans) ∷ [])
                ]
          ]
            ≡ ok r
          → Accounted hash r.0
      by_request none h =
          subst (λ (q : FileTree × List Action). Accounted hash q.0) (ok-injective _ _ h) a
      by_request (some id) h =
          let ((t', v), read, rest) = bind_ok (get_data t job.inode job.offset size) _ h in
          by_spans id v.spans rest
        where
          by_spans :
              (id : ℕ) (spans : List (List ℕ))
              → elim spans as (λ x. Result (FileTree × List Action)) [
                | [] ↦ err null_buffer
                | span ∷ rest ↦ ok (t, reply_data id (span ∷ rest) ∷ [])
              ]
                ≡ ok r
              → Accounted hash r.0
          by_spans id [] h = cc
          by_spans id (span ∷ rest) h =
              subst (λ (q : FileTree × List Action). Accounted hash q.0) (ok-injective _ _ h) a

  run_pending-Accounted :
      (requests : List ℕ) (s : CacheState) (inode index : ℕ) (r : CacheState × List Action)
      → Accounted hash s.tree
      → run_pending requests s inode index ≡ ok r
      → Accounted hash r.0.tree
  unfolding run_pending
  run_pending-Accounted [] s inode index r a e =
      subst (λ (q : CacheState × List Action). Accounted hash q.0.tree) (ok-injective _ _ e) a
  run_pending-Accounted (request ∷ requests) s inode index r a e =
      elim (Option-cases (find request s.pending_reads)) [
        | inl f ↦
            let absent : ◌≡◌ {A = Result (CacheState × List Action)} (err no_pending_read) (ok r) =
              rw (f, run_pending) at e in
            cc
        | inr (job, f) ↦
            let (l, there, run) = bind_ok (leaf_at s.tree inode) _ (rw (f, run_pending) at e) in
            let (v, read, run') =
              bind_ok (Reading.get_data l (index * block_size) block_size) _ run in
            let (w, read', run'') =
              bind_ok (Reading.get_data v.leaf (job.offset / block_size * block_size) block_size) _
                run' in
            let kept =
              put_leaf-Accounted hash s.tree inode l w.leaf a (find_leaf s.tree inode l there) (
                omega (
                  arith,
                  get_data-cached_packets l (index * block_size) block_size v read,
                  get_data-cached_packets v.leaf (job.offset / block_size * block_size) block_size w
                      read',
                )) in
            let (q, rest, done) =
              bind_ok
                (run_pending requests
                  (record (with_leaf s inode w.leaf) {
                    pending_reads = erase request s.pending_reads;
                  })
                  inode index)
                _ run'' in
            subst (λ (q : CacheState × List Action). Accounted hash q.0.tree)
              (ok-injective _ _ done)
              (run_pending-Accounted requests
                (record (with_leaf s inode w.leaf) {
                  pending_reads = erase request s.pending_reads;
                })
                inode index q kept rest)
      ]

  take_pending_jobs-cached_packets :
      (l : Leaf) (index : ℕ) → cached_packets (take_pending_jobs l index).0 ≡ cached_packets l
  unfolding take_pending_jobs
  take_pending_jobs-cached_packets l index = elim (Option-cases (find index l.pending_jobs)) [
    | inl e ↦ rw (e, take_pending_jobs) refl
    | inr (jobs, e) ↦ rw (e, take_pending_jobs) refl
  ]

  wake-Accounted :
      (s : CacheState) (inode index : ℕ) (r : CacheState × List Action)
      → Accounted hash s.tree
      → wake s inode index ≡ ok r
      → Accounted hash r.0.tree
  unfolding wake
  wake-Accounted s inode index r a e =
      let (l, there, run) = bind_ok (leaf_at s.tree inode) _ e in
      run_pending-Accounted (take_pending_jobs l index).1
        (with_leaf s inode (take_pending_jobs l index).0) inode index r
        (put_leaf-Accounted hash s.tree inode l (take_pending_jobs l index).0 a
          (find_leaf s.tree inode l there)
          (omega (arith, take_pending_jobs-cached_packets l index)))
        run

  -- When ApplyBlockCacheJob returns, the accounts of the tree are in order, and either no more
  -- packets are counted than may be cached, or GetFreeData gave nothing for the shard of the block's
  -- file.
  pub execute-Ended :
      (s : CacheState) (job : BlockJob) (l : Leaf) (s' : CacheState) (actions : List Action)
      → Accounted hash s.tree
      → find job.inode s.tree.leaves ≡ some l
      → execute hash first s job ≡ ok (s', actions)
      → Accounted hash s'.tree × Ended s'.tree (shard_for_inode hash job.inode)
  unfolding execute shard_for_inode
  execute-Ended s job l s' actions a there e =
      let at = job.offset + job.skipped in
      let readed = bytes_of job.packets in
      let shard = hash job.inode % shard_count in
      let (t₁, back, added, a₁) =
        add_data-Accounted hash s.tree job.inode at readed job.packets l a there in
      let ((t₁', back'), added', e₁) =
        bind_ok (add_data hash s.tree job.inode at readed job.packets) _ e in
      let same : t₁ ≡ t₁' =
        ap (λ (p : FileTree × List (List ℕ)). p.0) (ok-injective _ _ (sym added ∙ added')) in
      let ((t₂, replies), replied, e₂) =
        bind_ok (reply t₁' job (min (readed + job.skipped) job.size)) _ e₁ in
      let a₂ =
        reply-Accounted t₁' job (min (readed + job.skipped) job.size) (t₂, replies)
          (subst (Accounted hash) same a₁) replied in
      let ((s₃, woken), waked, e₃) =
        bind_ok (wake (record s { tree = t₂ }) job.inode (at / block_size)) _ e₂ in
      let a₃ =
        wake-Accounted (record s { tree = t₂ }) job.inode (at / block_size) (s₃, woken) a₂ waked in
      let fuel = pos_part s₃.tree.grand_total_cached_packets in
      let (t₄, frees, evicted, done) =
        evict-Evicted fuel s₃.tree shard a₃ (omega arith) (omega arith) in
      let ((t₄', frees'), evicted', e₄) = bind_ok (evict first fuel s₃.tree shard) _ e₃ in
      let same' : t₄ ≡ t₄' =
        ap (λ (p : FileTree × List FreeData). p.0) (ok-injective _ _ (sym evicted ∙ evicted')) in
      let last : t₄ ≡ s'.tree =
        same' ∙ ap (λ (p : CacheState × List Action). p.0.tree) (ok-injective _ _ e₄) in
      subst (λ t. Accounted hash t × Ended t shard) last (done.accounted, done.ended)
