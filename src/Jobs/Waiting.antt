-- ===== src/Jobs/Waiting.antt =====
-- ApplyBlockCacheJob as a whole: each request that waited for the block goes on.
use multi_threaded_socket.Common.{
  ℕ, ◌+◌, ◌/◌, ◌%◌, ◌≡◌, refl, sym, ap, ◌∙◌, subst, min, Option, none, some, List, [], ◌∷◌, ◌++◌,
  map, arith, find, find-assign_self, Distinct, Result, ok, err, ◌>>=◌, bind_ok, ok-injective,
  Option-cases, inl, inr, get_elem?, pos_part, null_buffer, out_of_range,
}
use multi_threaded_socket.FileSystem.Leaf.{Leaf, block_size}
use multi_threaded_socket.FileSystem.Leaf.Data
use multi_threaded_socket.FileSystem.Leaf.Reading.{View}
use multi_threaded_socket.FileSystem.Leaf.Pinning.{get_data-pending_jobs}
use multi_threaded_socket.FileSystem.FileTree.{
  FileTree, FreeData, Shard, get_data, add_data, shard_for_inode, shard_count,
}
use multi_threaded_socket.FileSystem.FileTree.Operations.{at_leaf, get_data-leaf}
use multi_threaded_socket.Jobs.{CacheState, Action, reply_data, write_file_cache}
use multi_threaded_socket.Jobs.Answers.{all_handed, pending, all_handed-append}
use multi_threaded_socket.Jobs.ApplyBlock.{
  BlockJob, bytes_of, reply, wake, evict, execute, give_back,
}
use mathlib.Core.List.{append-nil}
use multi_threaded_socket.Jobs.Woken.{
  scheduled, waits_for, or_none, scheduled-append, scheduled-written, scheduled-give_back,
  reply-scheduled, wake-scheduled,
}
use multi_threaded_socket.Jobs.Waking.{
  own, add_data-jobs, add_data-waiting, reply-Balanced, wake-Balanced, evict-waiting,
}

-- The leaf at an inode has these pending jobs.
abbrev HasJobs : FileTree → ℕ → List (ℕ × List ℕ) → Type 0
HasJobs t inode jobs = (l : Leaf) × (find inode t.leaves ≡ some l) × (l.pending_jobs ≡ jobs)

add_data-HasJobs :
    (hash : ℕ → ℕ) (t : FileTree) (inode offset size : ℕ) (packets : List (List ℕ)) (l : Leaf)
    (t' : FileTree) (back : List (List ℕ))
    → find inode t.leaves ≡ some l
    → add_data hash t inode offset size packets ≡ ok (t', back)
    → HasJobs t' inode l.pending_jobs
unfolding add_data shard_for_inode
add_data-HasJobs hash t inode offset size packets l t' back there e =
    elim (Option-cases (get_elem? t.cache_per_shard (hash inode % shard_count))) [
      | inl s ↦
          let absent : ◌≡◌ {A = Result (FileTree × List (List ℕ))} (err out_of_range)
              (ok (t', back)) =
            rw (at_leaf t inode l there, ◌>>=◌, s) at e in
          cc
      | inr (shard, s) ↦
          subst (λ (p : FileTree × List (List ℕ)). HasJobs p.0 inode l.pending_jobs)
            (ok-injective _ _ (rw (at_leaf t inode l there, ◌>>=◌, s) at e))
            (
              (Data.add_data l offset size packets).0,
              find-assign_self inode (Data.add_data l offset size packets).0 t.leaves,
              add_data-jobs 0 l offset size packets,
            )
    ]

get_data-HasJobs :
    (t : FileTree) (inode offset size : ℕ) (jobs : List (ℕ × List ℕ)) (t' : FileTree) (v : View)
    → HasJobs t inode jobs
    → get_data t inode offset size ≡ ok (t', v)
    → HasJobs t' inode jobs
get_data-HasJobs t inode offset size jobs t' v (l, there, same) e =
    let (read, put) = get_data-leaf t inode offset size l t' v there e in
    subst (λ u. HasJobs u inode jobs) put
      (
        v.leaf,
        find-assign_self inode v.leaf t.leaves,
        get_data-pending_jobs l offset size v read ∙ same,
      )

reply-HasJobs :
    (t : FileTree) (job : BlockJob) (size : ℕ) (jobs : List (ℕ × List ℕ))
    (r : FileTree × List Action)
    → HasJobs t job.inode jobs
    → reply t job size ≡ ok r
    → HasJobs r.0 job.inode jobs
unfolding reply
reply-HasJobs t job size jobs r h e = by_request job.request e
  where
    by_spans :
        (id : ℕ) (spans : List (List ℕ))
        → elim spans as (λ x. Result (FileTree × List Action)) [
          | [] ↦ err null_buffer
          | span ∷ rest ↦ ok (t, reply_data id (span ∷ rest) ∷ [])
        ]
          ≡ ok r
        → HasJobs r.0 job.inode jobs
    by_spans id [] k = cc
    by_spans id (span ∷ rest) k =
        subst (λ (q : FileTree × List Action). HasJobs q.0 job.inode jobs) (ok-injective _ _ k) h

    by_request :
        (id : Option ℕ)
        → elim id as (λ x. Result (FileTree × List Action)) [
          | none ↦ ok (t, [])
          | some n ↦ get_data t job.inode job.offset size >>= λ (t', v).
              elim v.spans as (λ x. Result (FileTree × List Action)) [
                | [] ↦ err null_buffer
                | span ∷ spans ↦ ok (t, reply_data n (span ∷ spans) ∷ [])
              ]
        ]
          ≡ ok r
        → HasJobs r.0 job.inode jobs
    by_request none k =
        subst (λ (q : FileTree × List Action). HasJobs q.0 job.inode jobs) (ok-injective _ _ k) h
    by_request (some n) k =
        let ((t', v), read, rest) = bind_ok (get_data t job.inode job.offset size) _ k in
        by_spans n v.spans rest

written_none :
    (request : ℕ) (frees : List FreeData) → all_handed request (map write_file_cache frees) ≡ 0
written_none request [] = refl
written_none request (free ∷ frees) = omega (arith, written_none request frees)

back_none : (request : ℕ) (packets : List (List ℕ)) → all_handed request (give_back packets) ≡ 0
back_none request [] = refl
back_none request (p ∷ ps) = refl

-- When ApplyBlockCacheJob returns, no request is lost: what waits and what is handed on are together
-- what waited, and the job's own request. The reads that it schedules are those of the requests that
-- waited in the leaf for the block that has come, each once and in their order.
pub apply_block-Balanced :
    (hash : ℕ → ℕ) (first : Shard → ℕ) (s : CacheState) (job : BlockJob) (l : Leaf) (request : ℕ)
    (s' : CacheState) (actions : List Action)
    → find job.inode s.tree.leaves ≡ some l
    → Distinct l.pending_jobs
    → execute hash first s job ≡ ok (s', actions)
    → (pending request s' + all_handed request actions
        ≡ pending request s + own request job.request)
      × (scheduled actions ≡ waits_for l ((job.offset + job.skipped) / block_size))
unfolding execute
apply_block-Balanced hash first s job l request s' actions there distinct e =
    let at = job.offset + job.skipped in
    let size = min (bytes_of job.packets + job.skipped) job.size in
    let ((t₁, back), added, e₁) =
      bind_ok (add_data hash s.tree job.inode at (bytes_of job.packets) job.packets) _ e in
    let jobs₁ =
      add_data-HasJobs hash s.tree job.inode at (bytes_of job.packets) job.packets l t₁ back there
        added in
    let ((t₂, replies), replied, e₂) = bind_ok (reply t₁ job size) _ e₁ in
    let (l₂, there₂, same) = reply-HasJobs t₁ job size l.pending_jobs (t₂, replies) jobs₁ replied in
    let ((s₃, woken), waked, e₃) =
      bind_ok (wake (record s { tree = t₂ }) job.inode (at / block_size)) _ e₂ in
    let ((t₄, frees), evicted, e₄) =
      bind_ok
        (evict first (pos_part s₃.tree.grand_total_cached_packets) s₃.tree
          (shard_for_inode hash job.inode))
        _ e₃ in
    subst
      (λ (q : CacheState × List Action).
        (pending request q.0 + all_handed request q.1 ≡ pending request s + own request job.request)
        × (scheduled q.1 ≡ waits_for l (at / block_size)))
      (ok-injective _ _ e₄)
      (
        omega (
          arith,
          add_data-waiting request hash s.tree job.inode at (bytes_of job.packets) job.packets t₁
              back added,
          reply-Balanced request t₁ job size (t₂, replies) replied,
          wake-Balanced request (record s { tree = t₂ }) job.inode (at / block_size) l₂ (s₃, woken)
              there₂ (subst Distinct (sym same) distinct) waked,
          evict-waiting request first (pos_part s₃.tree.grand_total_cached_packets) s₃.tree
              (shard_for_inode hash job.inode) (t₄, frees) evicted,
          all_handed-append request replies
              (woken ++ (map write_file_cache frees ++ give_back back)),
          all_handed-append request woken (map write_file_cache frees ++ give_back back),
          all_handed-append request (map write_file_cache frees) (give_back back),
          written_none request frees,
          back_none request back,
        ),
        rw
            (
              scheduled-append replies (woken ++ (map write_file_cache frees ++ give_back back)),
              reply-scheduled t₁ job size (t₂, replies) replied,
              scheduled-append woken (map write_file_cache frees ++ give_back back),
              scheduled-append (map write_file_cache frees) (give_back back),
              scheduled-written frees,
              scheduled-give_back back,
              append-nil (scheduled woken),
            )
            (wake-scheduled (record s { tree = t₂ }) job.inode (at / block_size) l₂ (s₃, woken)
                there₂ waked
              ∙ ap (λ jobs. or_none (find (at / block_size) jobs)) same),
      )
