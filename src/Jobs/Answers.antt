-- ===== src/Jobs/Answers.antt =====
-- Who holds a request of FUSE: each is answered or handed on once.
use multi_threaded_socket.Common.{
  ℕ, zero, suc, ◌+◌, ◌-◌, ◌*◌, ◌/◌, ◌≡◌, refl, ap, ◌∙◌, subst, Bool, true, false, none, some, List,
  [], ◌∷◌, ◌++◌, arith, ltb, leb, ◌==◌, if◌then◌else◌, find, find-assign_self, assign, Result, ok,
  bind_ok, ok-injective, Bool-cases, Option-cases, inl, inr,
}
use multi_threaded_socket.FileSystem.Leaf.{
  Leaf, PieceStatus, not_found, in_flight, in_cache, on_disk, block_size, get_status, set_in_flight,
  add_pending_job,
}
use multi_threaded_socket.FileSystem.Leaf.Reading.{View, total_size}
use multi_threaded_socket.FileSystem.Leaf.Reading
use multi_threaded_socket.FileSystem.Leaf.Pinning.{get_data-pending_jobs}
use multi_threaded_socket.FileSystem.FileTree.{FileTree, leaf_at, put_leaf, get_data}
use multi_threaded_socket.FileSystem.FileTree.Operations.{find_leaf}
use multi_threaded_socket.Jobs.{
  ReadJob, CacheState, Action, reply_data, reply_error, fuse_read, request_read_file,
  read_file_cache, prefix_disk_read, write_file_cache, free_recv_packets,
}
use multi_threaded_socket.Jobs.FuseRead.{
  with_leaf, add_pending, prefetch, trigger_prefetch, join_fetch, fetch_block, wait_next,
  full_disk_read, read_next, disk_read, read_missing, read_partial, read_all, read_cached, clipped,
  execute,
}

-- The sum of what the values of a map weigh.
module _ {A : Type 0} (f : A → ℕ) where
  abbrev pub weight : List (ℕ × A) → ℕ
  weight [] = 0
  weight ((key, value) ∷ m) = f value + weight m

  weight-assign_new :
      (k : ℕ) (v : A) (m : List (ℕ × A)) → find k m ≡ none → weight (assign k v m) ≡ weight m + f v
  unfolding find assign
  weight-assign_new k v [] e = omega arith
  weight-assign_new k v ((key, old) ∷ m) e = ground (arith, weight-assign_new k v m)

  pub weight-assign_old :
      (k : ℕ) (v old : A) (m : List (ℕ × A))
      → find k m ≡ some old
      → weight (assign k v m) + f old ≡ weight m + f v
  unfolding find assign
  weight-assign_old k v old [] e = cc
  weight-assign_old k v old ((key, w) ∷ m) e = ground (arith, weight-assign_old k v old m)

module _ (request : ℕ) where
  abbrev pub is : ℕ → ℕ
  is r = if r == request then 1 else 0

  -- How often an action answers the request or hands it on.
  abbrev pub handed : Action → ℕ
  handed (reply_data r spans) = is r
  handed (reply_error r) = is r
  handed (fuse_read job) = is job.request
  handed (request_read_file inode size offset remote) = 0
  handed (read_file_cache r file size offset append) = is r
  handed (prefix_disk_read r spans file offset size) = is r
  handed (write_file_cache free) = 0
  handed (free_recv_packets packets) = 0

  abbrev pub all_handed : List Action → ℕ
  all_handed [] = 0
  all_handed (a ∷ actions) = handed a + all_handed actions

  abbrev pub times : List ℕ → ℕ
  times [] = 0
  times (r ∷ rs) = is r + times rs

  -- How often it waits in a leaf, and in all leaves.
  abbrev pub pending_in : Leaf → ℕ
  pending_in l = weight times l.pending_jobs

  abbrev pub pending : CacheState → ℕ
  pending s = weight (λ l. pending_in l) s.tree.leaves

  times-append : (xs ys : List ℕ) → times (xs ++ ys) ≡ times xs + times ys
  times-append [] ys = omega arith
  times-append (x ∷ xs) ys = omega (arith, times-append xs ys)

  add_pending_job-pending_in :
      (l : Leaf) (index r : ℕ) → pending_in (add_pending_job l index r) ≡ pending_in l + is r
  unfolding add_pending_job
  add_pending_job-pending_in l index r = elim (Option-cases (find index l.pending_jobs)) [
    | inl e ↦
        rw (e, add_pending_job)
          (omega (arith, weight-assign_new times index (r ∷ []) l.pending_jobs e))
    | inr (jobs, e) ↦
        rw (e, add_pending_job)
          (omega (
            arith,
            weight-assign_old times index (jobs ++ r ∷ []) jobs l.pending_jobs e,
            times-append jobs (r ∷ []),
          ))
  ]

  set_in_flight-pending_in :
      (l : Leaf) (index : ℕ) → pending_in (set_in_flight l index).0 ≡ pending_in l
  unfolding set_in_flight
  set_in_flight-pending_in l index = ground arith

  prefetch-kept :
      (n : ℕ) (job : ReadJob) (l : Leaf) (index : ℕ)
      → (pending_in (prefetch n job l index).0 ≡ pending_in l)
        × (all_handed (prefetch n job l index).1 ≡ 0)
  unfolding prefetch
  prefetch-kept zero job l index = (refl, refl)
  prefetch-kept (suc n) job l index = ground (
    arith,
    prefetch-kept n job (set_in_flight l index).0 (index + 1),
    set_in_flight-pending_in l index,
  )

  with_leaf-pending :
      (s : CacheState) (inode : ℕ) (l l' : Leaf)
      → find inode s.tree.leaves ≡ some l
      → pending (with_leaf s inode l') + pending_in l ≡ pending s + pending_in l'
  with_leaf-pending s inode l l' here =
      weight-assign_old (λ m. pending_in m) inode l' l s.tree.leaves here

  -- Nothing of the request is lost, and it does not multiply.
  abbrev Balanced : CacheState → ℕ → CacheState × List Action → Type 0
  Balanced s n (s', actions) = pending s' + all_handed actions ≡ pending s + n

  add_pending-pending :
      (s : CacheState) (job : ReadJob) (l l' : Leaf) (index : ℕ)
      → find job.inode s.tree.leaves ≡ some l
      → pending_in l' ≡ pending_in l
      → pending (add_pending s job l' index) ≡ pending s + is job.request
  unfolding add_pending
  add_pending-pending s job l l' index here same = omega (
    arith,
    with_leaf-pending s job.inode l (add_pending_job l' index job.request) here,
    add_pending_job-pending_in l' index job.request,
  )

  module _ (s : CacheState) (job : ReadJob) (l : Leaf)
      (here : find job.inode s.tree.leaves ≡ some l) where
    join_fetch-Balanced : (index : ℕ) → Balanced s (is job.request) (join_fetch s job l index)
    unfolding join_fetch
    join_fetch-Balanced index = by_status (get_status l.pieces_status index) refl
      where
        waits : pending (add_pending s job l index) + 0 ≡ pending s + is job.request
        waits = omega (arith, add_pending-pending s job l l index here refl)

        by_status :
            (status : PieceStatus)
            → get_status l.pieces_status index ≡ status
            → Balanced s (is job.request) (join_fetch s job l index)
        by_status in_cache e = rw (e, join_fetch) (omega arith)
        by_status not_found e = rw (e, join_fetch) waits
        by_status in_flight e = rw (e, join_fetch) waits
        by_status on_disk e = rw (e, join_fetch) waits

    wait_next-Balanced : (index : ℕ) → Balanced s (is job.request) (wait_next s job l index)
    unfolding wait_next
    wait_next-Balanced index = by_status (get_status l.pieces_status index) refl
      where
        waits : pending (add_pending s job l index) + 0 ≡ pending s + is job.request
        waits = omega (arith, add_pending-pending s job l l index here refl)

        by_status :
            (status : PieceStatus)
            → get_status l.pieces_status index ≡ status
            → Balanced s (is job.request) (wait_next s job l index)
        by_status in_cache e = rw (e, wait_next) (omega arith)
        by_status not_found e =
            rw (e, wait_next)
              (omega (
                arith,
                add_pending-pending s job l (set_in_flight l index).0 index here
                    (set_in_flight-pending_in l index),
              ))
        by_status in_flight e = rw (e, wait_next) waits
        by_status on_disk e = rw (e, wait_next) waits

    prefetch-Balanced :
        (l' : Leaf) (index : ℕ) (s' : CacheState)
        → find job.inode s'.tree.leaves ≡ some l'
        → (pending (with_leaf s' job.inode (trigger_prefetch job l' index).0) ≡ pending s')
          × (all_handed (trigger_prefetch job l' index).1 ≡ 0)
    unfolding trigger_prefetch
    prefetch-Balanced l' index s' there =
        let (kept, none_handed) = prefetch-kept 4 job l' (index + 1) in
        (
          omega (arith, with_leaf-pending s' job.inode l' (prefetch 4 job l' (index + 1)).0 there),
          none_handed,
        )

    fetch_block-Balanced : (index : ℕ) → Balanced s (is job.request) (fetch_block s job l index)
    unfolding fetch_block add_pending
    fetch_block-Balanced index = elim (Bool-cases (set_in_flight l index).1) [
      | inl e ↦
          let l' = (set_in_flight l index).0 in
          let waiting =
            add_pending-pending s job l l' index here (set_in_flight-pending_in l index) in
          let (kept, none_handed) =
            prefetch-Balanced (add_pending_job l' index job.request) index
              (add_pending s job l' index)
              (find-assign_self job.inode (add_pending_job l' index job.request) s.tree.leaves) in
          rw (e, fetch_block) (omega (arith, kept, none_handed, waiting))
      | inr e ↦ rw (e, fetch_block) (join_fetch-Balanced index)
    ]

  -- The state after GetData on a leaf.
  got_data :
      (s : CacheState) (inode : ℕ) (l : Leaf) (offset size : ℕ) (v : View)
      → find inode s.tree.leaves ≡ some l
      → Reading.get_data l offset size ≡ ok v
      → (find inode (with_leaf s inode v.leaf).tree.leaves ≡ some v.leaf)
        × (pending (with_leaf s inode v.leaf) ≡ pending s)
  got_data s inode l offset size v here e = (
    find-assign_self inode v.leaf s.tree.leaves,
    omega (
      arith,
      with_leaf-pending s inode l v.leaf here,
      ap (λ jobs. weight times jobs) (get_data-pending_jobs l offset size v e),
    ),
  )

  read_next-Balanced :
      (s : CacheState) (job : ReadJob) (l : Leaf) (block_end next : ℕ)
      (r : CacheState × List Action)
      → find job.inode s.tree.leaves ≡ some l
      → read_next s job l block_end next ≡ ok r
      → Balanced s (is job.request) r
  unfolding read_next
  read_next-Balanced s job l block_end next r here e =
      let (pinned, run, done) =
        bind_ok (Reading.get_data l block_end (job.offset + job.size - block_end)) _ e in
      let s' = with_leaf s job.inode pinned.leaf in
      let (there, kept) =
        got_data s job.inode l block_end (job.offset + job.size - block_end) pinned here run in
      by_spans pinned.spans s' pinned.leaf kept there done
    where
      by_spans :
          (spans : List (List ℕ)) (s' : CacheState) (l' : Leaf)
          → pending s' ≡ pending s
          → find job.inode s'.tree.leaves ≡ some l'
          → elim spans as (λ x. Result (CacheState × List Action)) [
            | [] ↦ ok (wait_next s' job l' next)
            | span ∷ rest ↦
                ok
                  (s', read_file_cache job.request job.inode job.size job.offset (span ∷ rest) ∷ [])
          ]
            ≡ ok r
          → Balanced s (is job.request) r
      by_spans [] s' l' kept there h =
          subst (Balanced s (is job.request)) (ok-injective _ _ h)
            (omega (arith, kept, wait_next-Balanced s' job l' there next))
      by_spans (span ∷ rest) s' l' kept there h =
          subst (Balanced s (is job.request)) (ok-injective _ _ h) (omega (arith, kept))

  disk_read-Balanced :
      (s : CacheState) (job : ReadJob) (l : Leaf) (index : ℕ) (r : CacheState × List Action)
      → find job.inode s.tree.leaves ≡ some l
      → disk_read s job l index ≡ ok r
      → Balanced s (is job.request) r
  unfolding disk_read
  disk_read-Balanced s job l index r here e =
      elim (Bool-cases (ltb ((index + 1) * block_size) (job.offset + job.size))) [
        | inl t ↦
            by_status (get_status l.pieces_status ((index + 1) * block_size / block_size))
              (rw t at e)
        | inr t ↦ full (rw t at e)
      ]
    where
      full : ok (full_disk_read s job) ≡ ok r → Balanced s (is job.request) r
      full h = subst (Balanced s (is job.request)) (ok-injective _ _ h) (omega arith)

      by_status :
          (status : PieceStatus)
          → elim status as (λ x. Result (CacheState × List Action)) [
            | on_disk ↦ ok (full_disk_read s job)
            | not_found ↦
                read_next s job l ((index + 1) * block_size) ((index + 1) * block_size / block_size)
            | in_flight ↦
                read_next s job l ((index + 1) * block_size) ((index + 1) * block_size / block_size)
            | in_cache ↦
                read_next s job l ((index + 1) * block_size) ((index + 1) * block_size / block_size)
          ]
            ≡ ok r
          → Balanced s (is job.request) r
      by_status on_disk h = full h
      by_status not_found h = read_next-Balanced s job l _ _ r here h
      by_status in_flight h = read_next-Balanced s job l _ _ r here h
      by_status in_cache h = read_next-Balanced s job l _ _ r here h

  read_missing-Balanced :
      (s : CacheState) (job : ReadJob) (l : Leaf) (r : CacheState × List Action)
      → find job.inode s.tree.leaves ≡ some l
      → read_missing s job l ≡ ok r
      → Balanced s (is job.request) r
  unfolding read_missing
  read_missing-Balanced s job l r here e =
      by_status (get_status l.pieces_status (job.offset / block_size)) e
    where
      fetch :
          ok (fetch_block s job l (job.offset / block_size)) ≡ ok r → Balanced s (is job.request) r
      fetch h =
          subst (Balanced s (is job.request)) (ok-injective _ _ h)
            (fetch_block-Balanced s job l here (job.offset / block_size))

      by_status :
          (status : PieceStatus)
          → elim status as (λ x. Result (CacheState × List Action)) [
            | on_disk ↦ disk_read s job l (job.offset / block_size)
            | not_found ↦ ok (fetch_block s job l (job.offset / block_size))
            | in_flight ↦ ok (fetch_block s job l (job.offset / block_size))
            | in_cache ↦ ok (fetch_block s job l (job.offset / block_size))
          ]
            ≡ ok r
          → Balanced s (is job.request) r
      by_status on_disk h = disk_read-Balanced s job l (job.offset / block_size) r here h
      by_status not_found h = fetch h
      by_status in_flight h = fetch h
      by_status in_cache h = fetch h

  read_partial-Balanced :
      (s : CacheState) (job : ReadJob) (l : Leaf) (spans : List (List ℕ))
      → find job.inode s.tree.leaves ≡ some l
      → Balanced s (is job.request) (read_partial s job l spans)
  unfolding read_partial
  read_partial-Balanced s job l spans here =
      by_status (get_status l.pieces_status ((job.offset + total_size spans) / block_size)) refl
    where
      fetch :
          Balanced s
            (is job.request)
            (fetch_block s job l ((job.offset + total_size spans) / block_size))
      fetch = fetch_block-Balanced s job l here ((job.offset + total_size spans) / block_size)

      by_status :
          (status : PieceStatus)
          → get_status l.pieces_status ((job.offset + total_size spans) / block_size) ≡ status
          → Balanced s (is job.request) (read_partial s job l spans)
      by_status on_disk e = rw (e, read_partial) (omega arith)
      by_status not_found e = rw (e, read_partial) fetch
      by_status in_flight e = rw (e, read_partial) fetch
      by_status in_cache e = rw (e, read_partial) fetch

  pub all_handed-append :
      (xs ys : List Action) → all_handed (xs ++ ys) ≡ all_handed xs + all_handed ys
  all_handed-append [] ys = omega arith
  all_handed-append (x ∷ xs) ys = omega (arith, all_handed-append xs ys)

  read_all-Balanced :
      (s : CacheState) (job : ReadJob) (l : Leaf) (spans : List (List ℕ))
      → find job.inode s.tree.leaves ≡ some l
      → Balanced s (is job.request) (read_all s job l spans)
  unfolding read_all
  read_all-Balanced s job l spans here =
      let index = job.offset / block_size in
      let (kept, none_handed) = prefetch-Balanced s job l here l index s here in
      omega (
        arith,
        kept,
        none_handed,
        all_handed-append (trigger_prefetch job l index).1 (reply_data job.request spans ∷ []),
      )

  read_cached-Balanced :
      (s : CacheState) (job : ReadJob) (v : View) (r : CacheState × List Action)
      → find job.inode s.tree.leaves ≡ some v.leaf
      → read_cached s job v ≡ ok r
      → Balanced s (is job.request) r
  unfolding read_cached
  read_cached-Balanced s job v r here e = by_spans v.spans e
    where
      by_spans :
          (spans : List (List ℕ))
          → elim spans as (λ x. Result (CacheState × List Action)) [
            | [] ↦ read_missing s job v.leaf
            | span ∷ rest ↦ ok (
                if ltb (total_size (span ∷ rest)) job.size
                then read_partial s job v.leaf (span ∷ rest)
                else read_all s job v.leaf (span ∷ rest))
          ]
            ≡ ok r
          → Balanced s (is job.request) r
      by_spans [] h = read_missing-Balanced s job v.leaf r here h
      by_spans (span ∷ rest) h = elim (Bool-cases (ltb (total_size (span ∷ rest)) job.size)) [
        | inl t ↦
            subst (Balanced s (is job.request)) (ok-injective _ _ (rw t at h))
              (read_partial-Balanced s job v.leaf (span ∷ rest) here)
        | inr t ↦
            subst (Balanced s (is job.request)) (ok-injective _ _ (rw t at h))
              (read_all-Balanced s job v.leaf (span ∷ rest) here)
      ]

  -- When FuseReadFileJob is executed and does not throw, its request is answered or handed on once:
  -- of the replies, of the jobs that are scheduled and of the pending jobs that are added, one has
  -- the request. No other request is answered, handed on or dropped.
  pub execute-Balanced :
      (s : CacheState) (job : ReadJob) (stopped : Bool) (s' : CacheState) (actions : List Action)
      → execute s job stopped ≡ ok (s', actions)
      → pending s' + all_handed actions ≡ pending s + (if job.request == request then 1 else 0)
  unfolding execute get_data
  execute-Balanced s job true s' actions e =
      subst (Balanced s (is job.request)) (ok-injective _ _ e) (omega arith)
  execute-Balanced s job false s' actions e =
      let (l, there, run) = bind_ok (leaf_at s.tree job.inode) _ e in
      let here = find_leaf s.tree job.inode l there in
      elim (Bool-cases (leb l.size job.offset)) [
        | inl t ↦ subst (Balanced s (is job.request)) (ok-injective _ _ (rw t at run)) (omega arith)
        | inr t ↦
            let ((tree, v), got, rest) =
              bind_ok (get_data s.tree job.inode job.offset (clipped job l).size) _ (rw t at run) in
            let (l', there', run') = bind_ok (leaf_at s.tree job.inode) _ got in
            let here' = find_leaf s.tree job.inode l' there' in
            let (u, read, done) =
              bind_ok (Reading.get_data l' job.offset (clipped job l).size) _ run' in
            let same : ◌≡◌ {A = FileTree × View} (put_leaf s.tree job.inode u.leaf, u) (tree, v) =
              ok-injective _ _ done in
            let (found, kept) =
              got_data s job.inode l' job.offset (clipped job l).size u here' read in
            let cached : read_cached (with_leaf s job.inode u.leaf) (clipped job l) u
                ≡ ok (s', actions) =
              ap
                (λ (p : FileTree × View). read_cached (record s { tree = p.0 }) (clipped job l) p.1)
                same
              ∙ rest in
            omega (
              arith,
              kept,
              read_cached-Balanced (with_leaf s job.inode u.leaf) (clipped job l) u (s', actions)
                  found cached,
            )
      ]
