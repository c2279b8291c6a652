-- ===== src/Jobs/Waking.antt =====
-- The reads that wait for a block go on when it comes: ApplyBlockCacheJob loses none of them.
use multi_threaded_socket.Common.{
  ℕ, zero, suc, ◌+◌, ◌*◌, ◌/◌, ◌≡◌, refl, sym, ap, ◌∙◌, subst, Option, none, some, List, [], ◌∷◌,
  length, arith, find, erase, erase_absent, assign, Distinct, Result, ok, err, ◌>>=◌, bind_ok,
  ok-injective, Bool-cases, Option-cases, inl, inr, get_elem?, ℤ, null_buffer, no_pending_read,
  out_of_range, some-injective, ◌%◌, ◌==◌,
}
use multi_threaded_socket.FileSystem.Leaf.{Leaf, block_size, take_pending_jobs}
use multi_threaded_socket.FileSystem.Leaf.Data
use multi_threaded_socket.FileSystem.Leaf.Data.{extract_block, get_first_block_index}
use multi_threaded_socket.FileSystem.Leaf.Reading.{View}
use multi_threaded_socket.FileSystem.Leaf.Reading
use multi_threaded_socket.FileSystem.Leaf.Pinning.{get_data-pending_jobs}
use multi_threaded_socket.FileSystem.FileTree.{
  FileTree, FreeData, Shard, leaf_at, get_data, add_data, get_free_data, free_block, sub_count,
  needs_eviction, shard_for_inode, shard_count,
}
use multi_threaded_socket.FileSystem.FileTree.Operations.{at_leaf, find_leaf, get_data-leaf}
use multi_threaded_socket.Jobs.{CacheState, Action, reply_data}
use multi_threaded_socket.Jobs.FuseRead.{with_leaf}
use multi_threaded_socket.Jobs.Answers.{
  weight, weight-assign_old, is, all_handed, times, pending_in,
}
use multi_threaded_socket.Jobs.ApplyBlock.{BlockJob, reply, run_pending, wake, evict}

weight-erase :
    {A : Type 0} (f : A → ℕ) (k : ℕ) (v : A) (m : List (ℕ × A))
    → Distinct m
    → find k m ≡ some v
    → weight f (erase k m) + f v ≡ weight f m
unfolding find erase Distinct
weight-erase f k v [] d e = cc
weight-erase f k v ((key, w) ∷ m) d e = elim (Bool-cases (key == k)) [
  | inl t ↦
      let same : ◌≡◌ {A = ℕ} (f w) (f v) = ap f (some-injective _ _ (rw t at e)) in
      let key_eq : key ≡ k = ground arith in
      let gone : erase k m ≡ m = erase_absent k m (ap (λ j. find j m) (sym key_eq) ∙ d.0) in
      rw (t, gone) (omega arith)
  | inr t ↦ rw t (omega (arith, weight-erase f k v m d.1 (rw t at e)))
]

module _ (request : ℕ) where
  abbrev pub waiting : FileTree → ℕ
  waiting t = weight (λ l. pending_in request l) t.leaves

  -- A leaf is put back with the same pending jobs.
  put-waiting :
      (t : FileTree) (inode : ℕ) (l l' : Leaf)
      → find inode t.leaves ≡ some l
      → l'.pending_jobs ≡ l.pending_jobs
      → weight (λ m. pending_in request m) (assign inode l' t.leaves) ≡ waiting t
  put-waiting t inode l l' there e = omega (
    arith,
    weight-assign_old (λ m. pending_in request m) inode l' l t.leaves there,
    ap (λ jobs. weight (times request) jobs) e,
  )

  pub add_data-jobs :
      (l : Leaf) (offset size : ℕ) (packets : List (List ℕ))
      → (Data.add_data l offset size packets).0.pending_jobs ≡ l.pending_jobs
  unfolding Data.add_data
  add_data-jobs l offset size packets = elim (Option-cases (find (offset / block_size) l.blocks)) [
    | inl e ↦ rw (e, Data.add_data) refl
    | inr (ranges, e) ↦ rw (e, Data.add_data) refl
  ]

  pub add_data-waiting :
      (hash : ℕ → ℕ) (t : FileTree) (inode offset size : ℕ) (packets : List (List ℕ))
      (t' : FileTree) (back : List (List ℕ))
      → add_data hash t inode offset size packets ≡ ok (t', back)
      → waiting t' ≡ waiting t
  unfolding add_data shard_for_inode
  add_data-waiting hash t inode offset size packets t' back e =
      let (l, there, run) = bind_ok (leaf_at t inode) _ e in
      let kept =
        put-waiting t inode l (Data.add_data l offset size packets).0 (find_leaf t inode l there)
          (add_data-jobs l offset size packets) in
      elim (Option-cases (get_elem? t.cache_per_shard (hash inode % shard_count))) [
        | inl s ↦
            let absent : ◌≡◌ {A = Result (FileTree × List (List ℕ))} (err out_of_range)
                (ok (t', back)) =
              rw s at run in
            cc
        | inr (shard, s) ↦
            sym
              (ap (λ (p : FileTree × List (List ℕ)). waiting p.0) (ok-injective _ _ (rw s at run)))
            ∙ kept
      ]

  extract_block-jobs :
      (l : Leaf) (index : ℕ) → (extract_block l index).0.pending_jobs ≡ l.pending_jobs
  unfolding extract_block
  extract_block-jobs l index = elim (Option-cases (find index l.blocks)) [
    | inl e ↦ rw (e, extract_block) refl
    | inr (ranges, e) ↦ rw (e, extract_block) refl
  ]

  free_block-waiting :
      (t : FileTree) (i : ℕ) (shard : Shard) (inode : ℕ) (count : ℤ) (r : FileTree × FreeData)
      → free_block t i shard inode count ≡ ok r
      → waiting r.0 ≡ waiting t
  unfolding free_block
  free_block-waiting t i shard inode count r e =
      let (l, there, run) = bind_ok (leaf_at t inode) _ e in
      elim (Option-cases (get_first_block_index l)) [
        | inl b ↦
            sym (ap (λ (p : FileTree × FreeData). waiting p.0) (ok-injective _ _ (rw b at run)))
        | inr (index, b) ↦
            let (shard', subtracted, done) =
              bind_ok (sub_count shard inode count (length (extract_block l index).2)) _
                (rw b at run) in
            sym (ap (λ (p : FileTree × FreeData). waiting p.0) (ok-injective _ _ done))
            ∙ put-waiting t inode l (extract_block l index).0 (find_leaf t inode l there)
                (extract_block-jobs l index)
      ]

  get_free_data-waiting :
      (first : Shard → ℕ) (t : FileTree) (i : ℕ) (r : FileTree × FreeData)
      → get_free_data first t i ≡ ok r
      → waiting r.0 ≡ waiting t
  unfolding get_free_data
  get_free_data-waiting first t i r e = elim (Option-cases (get_elem? t.cache_per_shard i)) [
    | inl s ↦
        let absent : ◌≡◌ {A = Result (FileTree × FreeData)} (err out_of_range) (ok r) =
          rw (s, get_free_data) at e in
        cc
    | inr (shard, s) ↦ elim (Option-cases (get_elem? shard (first shard))) [
      | inl b ↦ sym (
          ap (λ (p : FileTree × FreeData). waiting p.0)
            (ok-injective _ _ (rw (s, b, get_free_data) at e)))
      | inr ((inode, count), b) ↦
          free_block-waiting t i shard inode count r (rw (s, b, get_free_data) at e)
    ]
  ]

  evict_rest :
      (first : Shard → ℕ) (fuel : ℕ) (t : FileTree) (i : ℕ) (free : FreeData)
      (packets : List (List ℕ)) (r : FileTree × List FreeData)
      → elim packets as (λ x. Result (FileTree × List FreeData)) [
        | [] ↦ ok (t, [])
        | p ∷ ps ↦ evict first fuel t i >>= λ (t', frees). ok (t', free ∷ frees)
      ]
        ≡ ok r
      → ((q : FileTree × List FreeData) → evict first fuel t i ≡ ok q → waiting q.0 ≡ waiting t)
      → waiting r.0 ≡ waiting t
  evict_rest first fuel t i free [] r e again =
      sym (ap (λ (p : FileTree × List FreeData). waiting p.0) (ok-injective _ _ e))
  evict_rest first fuel t i free (p ∷ ps) r e again =
      let (q, run, done) = bind_ok (evict first fuel t i) _ e in
      sym (ap (λ (p : FileTree × List FreeData). waiting p.0) (ok-injective _ _ done)) ∙ again q run

  pub evict-waiting :
      (first : Shard → ℕ) (fuel : ℕ) (t : FileTree) (i : ℕ) (r : FileTree × List FreeData)
      → evict first fuel t i ≡ ok r
      → waiting r.0 ≡ waiting t
  unfolding evict
  evict-waiting first zero t i r e =
      sym (ap (λ (p : FileTree × List FreeData). waiting p.0) (ok-injective _ _ e))
  evict-waiting first (suc fuel) t i r e = elim (Bool-cases (needs_eviction t)) [
    | inr n ↦
        sym (
          ap (λ (p : FileTree × List FreeData). waiting p.0)
            (ok-injective _ _ (rw (n, evict) at e)))
    | inl n ↦
        let ((t', free), given, rest) = bind_ok (get_free_data first t i) _ (rw (n, evict) at e) in
        evict_rest first fuel t' i free free.data_packets r rest
          (λ q again. evict-waiting first fuel t' i q again)
        ∙ get_free_data-waiting first t i (t', free) given
  ]

  -- How often a block's own request is there.
  abbrev pub own : Option ℕ → ℕ
  own none = 0
  own (some id) = is request id

  get_data-waiting :
      (t : FileTree) (inode offset size : ℕ) (t' : FileTree) (v : View)
      → get_data t inode offset size ≡ ok (t', v)
      → waiting t' ≡ waiting t
  unfolding get_data
  get_data-waiting t inode offset size t' v e =
      let (l, there, run) = bind_ok (leaf_at t inode) _ e in
      let found = find_leaf t inode l there in
      let (read, put) = get_data-leaf t inode offset size l t' v found e in
      ap waiting (sym put)
      ∙ put-waiting t inode l v.leaf found (get_data-pending_jobs l offset size v read)

  pub reply-Balanced :
      (t : FileTree) (job : BlockJob) (size : ℕ) (r : FileTree × List Action)
      → reply t job size ≡ ok r
      → waiting r.0 + all_handed request r.1 ≡ waiting t + own job.request
  unfolding reply
  reply-Balanced t job size r e = by_request job.request e
    where
      by_spans :
          (id : ℕ) (spans : List (List ℕ))
          → elim spans as (λ x. Result (FileTree × List Action)) [
            | [] ↦ err null_buffer
            | span ∷ rest ↦ ok (t, reply_data id (span ∷ rest) ∷ [])
          ]
            ≡ ok r
          → waiting r.0 + all_handed request r.1 ≡ waiting t + is request id
      by_spans id [] h = cc
      by_spans id (span ∷ rest) h =
          subst
            (λ (q : FileTree × List Action).
              waiting q.0 + all_handed request q.1 ≡ waiting t + is request id)
            (ok-injective _ _ h) (omega arith)

      by_request :
          (id : Option ℕ)
          → elim id as (λ x. Result (FileTree × List Action)) [
            | none ↦ ok (t, [])
            | some n ↦ get_data t job.inode job.offset size >>= λ (t', v).
                elim v.spans as (λ x. Result (FileTree × List Action)) [
                  | [] ↦ err null_buffer
                  | span ∷ spans ↦ ok (t, reply_data n (span ∷ spans) ∷ [])
                ]
          ]
            ≡ ok r
          → waiting r.0 + all_handed request r.1 ≡ waiting t + own id
      by_request none h =
          subst
            (λ (q : FileTree × List Action). waiting q.0 + all_handed request q.1 ≡ waiting t + 0)
            (ok-injective _ _ h) (omega arith)
      by_request (some n) h =
          let ((t', v), read, rest) = bind_ok (get_data t job.inode job.offset size) _ h in
          by_spans n v.spans rest

  run_pending-Balanced :
      (requests : List ℕ) (s : CacheState) (inode index : ℕ) (r : CacheState × List Action)
      → run_pending requests s inode index ≡ ok r
      → waiting r.0.tree + all_handed request r.1 ≡ waiting s.tree + times request requests
  unfolding run_pending
  run_pending-Balanced [] s inode index r e =
      subst
        (λ (q : CacheState × List Action).
          waiting q.0.tree + all_handed request q.1 ≡ waiting s.tree + 0)
        (ok-injective _ _ e) (omega arith)
  run_pending-Balanced (id ∷ requests) s inode index r e =
      elim (Option-cases (find id s.pending_reads)) [
        | inl f ↦
            let absent : ◌≡◌ {A = Result (CacheState × List Action)} (err no_pending_read) (ok r) =
              rw (f, run_pending) at e in
            cc
        | inr (job, f) ↦
            let (l, there, run) = bind_ok (leaf_at s.tree inode) _ (rw (f, run_pending) at e) in
            let (v, read, run') =
              bind_ok (Reading.get_data l (index * block_size) block_size) _ run in
            let (w, read', run'') =
              bind_ok (Reading.get_data v.leaf (job.offset / block_size * block_size) block_size) _
                run' in
            let jobs =
              get_data-pending_jobs v.leaf (job.offset / block_size * block_size) block_size w read'
              ∙ get_data-pending_jobs l (index * block_size) block_size v read in
            let kept = put-waiting s.tree inode l w.leaf (find_leaf s.tree inode l there) jobs in
            let s' : CacheState = record (with_leaf s inode w.leaf) {
              pending_reads = erase id s.pending_reads;
            } in
            let (q, rest, done) = bind_ok (run_pending requests s' inode index) _ run'' in
            let ih = run_pending-Balanced requests s' inode index q rest in
            subst
              (λ (p : CacheState × List Action).
                waiting p.0.tree + all_handed request p.1
                ≡ waiting s.tree + (is request id + times request requests))
              (ok-injective _ _ done) (omega (arith, ih, kept))
      ]

  take_pending_jobs-pending_in :
      (l : Leaf) (index : ℕ)
      → Distinct l.pending_jobs
      → pending_in request (take_pending_jobs l index).0
          + times request (take_pending_jobs l index).1
        ≡ pending_in request l
  unfolding take_pending_jobs
  take_pending_jobs-pending_in l index d = elim (Option-cases (find index l.pending_jobs)) [
    | inl e ↦ rw (e, take_pending_jobs) (omega arith)
    | inr (jobs, e) ↦
        rw (e, take_pending_jobs) (weight-erase (times request) index jobs l.pending_jobs d e)
  ]

  pub wake-Balanced :
      (s : CacheState) (inode index : ℕ) (l : Leaf) (r : CacheState × List Action)
      → find inode s.tree.leaves ≡ some l
      → Distinct l.pending_jobs
      → wake s inode index ≡ ok r
      → waiting r.0.tree + all_handed request r.1 ≡ waiting s.tree
  unfolding wake
  wake-Balanced s inode index l r there d e = omega (
    arith,
    run_pending-Balanced (take_pending_jobs l index).1
        (with_leaf s inode (take_pending_jobs l index).0) inode index r
        (rw (at_leaf s.tree inode l there, ◌>>=◌) at e),
    take_pending_jobs-pending_in l index d,
    weight-assign_old (λ m. pending_in request m) inode (take_pending_jobs l index).0 l
        s.tree.leaves there,
  )
