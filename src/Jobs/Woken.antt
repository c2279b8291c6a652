-- ===== src/Jobs/Woken.antt =====
-- Which reads ApplyBlockCacheJob lets go on.
use multi_threaded_socket.Common.{
  ℕ, ◌*◌, ◌/◌, ◌≡◌, refl, sym, ap, ◌∙◌, subst, none, some, List, [], ◌∷◌, ◌++◌, find, erase, Result,
  ok, err, bind_ok, ok-injective, Option-cases, inl, inr, no_pending_read, map, Option, ◌>>=◌,
  null_buffer,
}
use multi_threaded_socket.FileSystem.Leaf.{Leaf, block_size, take_pending_jobs}
use multi_threaded_socket.FileSystem.Leaf.Reading
use multi_threaded_socket.FileSystem.FileTree.{FileTree, FreeData, leaf_at, get_data}
use multi_threaded_socket.FileSystem.FileTree.Operations.{at_leaf}
use multi_threaded_socket.Jobs.{
  CacheState, Action, reply_data, reply_error, fuse_read, request_read_file, read_file_cache,
  prefix_disk_read, write_file_cache, free_recv_packets,
}
use multi_threaded_socket.Jobs.FuseRead.{with_leaf}
use multi_threaded_socket.Jobs.ApplyBlock.{BlockJob, reply, run_pending, wake, give_back}

-- The requests of the reads that are scheduled.
abbrev pub scheduled : List Action → List ℕ
scheduled [] = []
scheduled (fuse_read job ∷ actions) = job.request ∷ scheduled actions
scheduled (reply_data r spans ∷ actions) = scheduled actions
scheduled (reply_error r ∷ actions) = scheduled actions
scheduled (request_read_file i n at remote ∷ actions) = scheduled actions
scheduled (read_file_cache r f n at append ∷ actions) = scheduled actions
scheduled (prefix_disk_read r spans f at n ∷ actions) = scheduled actions
scheduled (write_file_cache free ∷ actions) = scheduled actions
scheduled (free_recv_packets packets ∷ actions) = scheduled actions

pub scheduled-append : (xs ys : List Action) → scheduled (xs ++ ys) ≡ scheduled xs ++ scheduled ys
scheduled-append [] ys = refl
scheduled-append (fuse_read job ∷ xs) ys = ap (◌∷◌ job.request) (scheduled-append xs ys)
scheduled-append (reply_data r spans ∷ xs) ys = scheduled-append xs ys
scheduled-append (reply_error r ∷ xs) ys = scheduled-append xs ys
scheduled-append (request_read_file i n at remote ∷ xs) ys = scheduled-append xs ys
scheduled-append (read_file_cache r f n at append ∷ xs) ys = scheduled-append xs ys
scheduled-append (prefix_disk_read r spans f at n ∷ xs) ys = scheduled-append xs ys
scheduled-append (write_file_cache free ∷ xs) ys = scheduled-append xs ys
scheduled-append (free_recv_packets packets ∷ xs) ys = scheduled-append xs ys

pub scheduled-written : (frees : List FreeData) → scheduled (map write_file_cache frees) ≡ []
scheduled-written [] = refl
scheduled-written (free ∷ frees) = scheduled-written frees

pub scheduled-give_back : (packets : List (List ℕ)) → scheduled (give_back packets) ≡ []
scheduled-give_back [] = refl
scheduled-give_back (p ∷ ps) = refl

-- The requests that wait in a leaf for a block, in their order.
abbrev pub or_none : Option (List ℕ) → List ℕ
or_none none = []
or_none (some requests) = requests

abbrev pub waits_for : Leaf → ℕ → List ℕ
waits_for l index = or_none (find index l.pending_jobs)

taken-waits_for : (l : Leaf) (index : ℕ) → (take_pending_jobs l index).1 ≡ waits_for l index
unfolding take_pending_jobs
taken-waits_for l index = elim (Option-cases (find index l.pending_jobs)) [
  | inl e ↦ rw (e, take_pending_jobs) refl
  | inr (jobs, e) ↦ rw (e, take_pending_jobs) refl
]

pub reply-scheduled :
    (t : FileTree) (job : BlockJob) (size : ℕ) (r : FileTree × List Action)
    → reply t job size ≡ ok r
    → scheduled r.1 ≡ []
unfolding reply
reply-scheduled t job size r e = by_request job.request e
  where
    by_spans :
        (id : ℕ) (spans : List (List ℕ))
        → elim spans as (λ x. Result (FileTree × List Action)) [
          | [] ↦ err null_buffer
          | span ∷ rest ↦ ok (t, reply_data id (span ∷ rest) ∷ [])
        ]
          ≡ ok r
        → scheduled r.1 ≡ []
    by_spans id [] k = cc
    by_spans id (span ∷ rest) k =
        subst (λ (q : FileTree × List Action). scheduled q.1 ≡ []) (ok-injective _ _ k) refl

    by_request :
        (id : Option ℕ)
        → elim id as (λ x. Result (FileTree × List Action)) [
          | none ↦ ok (t, [])
          | some n ↦ get_data t job.inode job.offset size >>= λ (t', v).
              elim v.spans as (λ x. Result (FileTree × List Action)) [
                | [] ↦ err null_buffer
                | span ∷ spans ↦ ok (t, reply_data n (span ∷ spans) ∷ [])
              ]
        ]
          ≡ ok r
        → scheduled r.1 ≡ []
    by_request none k =
        subst (λ (q : FileTree × List Action). scheduled q.1 ≡ []) (ok-injective _ _ k) refl
    by_request (some n) k =
        let ((t', v), read, rest) = bind_ok (get_data t job.inode job.offset size) _ k in
        by_spans n v.spans rest

run_pending-scheduled :
    (requests : List ℕ) (s : CacheState) (inode index : ℕ) (r : CacheState × List Action)
    → run_pending requests s inode index ≡ ok r
    → scheduled r.1 ≡ requests
unfolding run_pending
run_pending-scheduled [] s inode index r e =
    subst (λ (q : CacheState × List Action). scheduled q.1 ≡ []) (ok-injective _ _ e) refl
run_pending-scheduled (request ∷ requests) s inode index r e =
    elim (Option-cases (find request s.pending_reads)) [
      | inl f ↦
          let absent : ◌≡◌ {A = Result (CacheState × List Action)} (err no_pending_read) (ok r) =
            rw (f, run_pending) at e in
          cc
      | inr (job, f) ↦
          let (l, there, run) = bind_ok (leaf_at s.tree inode) _ (rw (f, run_pending) at e) in
          let (v, read, run') =
            bind_ok (Reading.get_data l (index * block_size) block_size) _ run in
          let (w, read', run'') =
            bind_ok (Reading.get_data v.leaf (job.offset / block_size * block_size) block_size) _
              run' in
          let s' : CacheState = record (with_leaf s inode w.leaf) {
            pending_reads = erase request s.pending_reads;
          } in
          let (q, rest, done) = bind_ok (run_pending requests s' inode index) _ run'' in
          subst (λ (p : CacheState × List Action). scheduled p.1 ≡ request ∷ requests)
            (ok-injective _ _ done)
            (ap (◌∷◌ request) (run_pending-scheduled requests s' inode index q rest))
    ]

pub wake-scheduled :
    (s : CacheState) (inode index : ℕ) (l : Leaf) (r : CacheState × List Action)
    → find inode s.tree.leaves ≡ some l
    → wake s inode index ≡ ok r
    → scheduled r.1 ≡ waits_for l index
unfolding wake
wake-scheduled s inode index l r there e =
    let (m, found, run) = bind_ok (leaf_at s.tree inode) _ e in
    let same : m ≡ l = ok-injective _ _ (sym found ∙ at_leaf s.tree inode l there) in
    run_pending-scheduled (take_pending_jobs m index).1
      (with_leaf s inode (take_pending_jobs m index).0) inode index r run
    ∙ taken-waits_for m index
    ∙ ap (λ k. waits_for k index) same
