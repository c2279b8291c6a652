-- ===== src/FileSystem/Leaf/Jobs.antt =====
-- Who waits for a block, who refers to the leaf, and which block has been asked for.
use multi_threaded_socket.Common.{
  ℕ, ◌≤◌, ◌<◌, ◌≡◌, ◌≢◌, ◌∙◌, refl, sym, ap, subst, Bool, true, false, Option, none, some, List, [],
  ◌∷◌, ◌++◌, arith, length, find, find-assign_self, find-assign_ne, find-erase_self, find-erase_ne,
  get_or-set_self, Option-cases, inl, inr, ltb,
}
use multi_threaded_socket.FileSystem.Leaf.{
  Leaf, PieceStatus, not_found, in_flight, in_cache, on_disk, get_status, set_status, set_in_flight,
  add_pending_job, take_pending_jobs, add_ref, release_ref, new_leaf,
}

-- The jobs that wait for a block.
abbrev pub jobs_of : Option (List ℕ) → List ℕ
jobs_of none = []
jobs_of (some jobs) = jobs

abbrev pub waiting : Leaf → ℕ → List ℕ
waiting l index = jobs_of (find index l.pending_jobs)

-- AddPendingJob puts the job behind those that wait for its block, and no other block's jobs change.
pub add_pending_job_lem :
    (l : Leaf) (index job i : ℕ)
    → (waiting (add_pending_job l index job) index ≡ waiting l index ++ job ∷ [])
      × (index ≢ i → waiting (add_pending_job l index job) i ≡ waiting l i)
unfolding add_pending_job
add_pending_job_lem l index job i = elim (Option-cases (find index l.pending_jobs)) [
  | inl e ↦
      rw (e, add_pending_job)
        (
          ap jobs_of (find-assign_self index (job ∷ []) l.pending_jobs),
          (λ q. ap jobs_of (find-assign_ne index i (job ∷ []) l.pending_jobs q)),
        )
  | inr (jobs, e) ↦
      rw (e, add_pending_job)
        (
          ap jobs_of (find-assign_self index (jobs ++ job ∷ []) l.pending_jobs),
          (λ q. ap jobs_of (find-assign_ne index i (jobs ++ job ∷ []) l.pending_jobs q)),
        )
]

-- TakePendingJobs returns the jobs that wait for the block in the order in which they came; then
-- none waits for it, and no other block's jobs change.
pub take_pending_jobs_lem :
    (l : Leaf) (index i : ℕ)
    → ((take_pending_jobs l index).1 ≡ waiting l index)
      × (waiting (take_pending_jobs l index).0 index ≡ [])
      × (index ≢ i → waiting (take_pending_jobs l index).0 i ≡ waiting l i)
unfolding take_pending_jobs
take_pending_jobs_lem l index i = elim (Option-cases (find index l.pending_jobs)) [
  | inl e ↦ rw (e, take_pending_jobs) (refl, ap jobs_of e, λ q. refl)
  | inr (jobs, e) ↦
      rw (e, take_pending_jobs)
        (
          refl,
          ap jobs_of (find-erase_self index l.pending_jobs),
          (λ q. ap jobs_of (find-erase_ne index i l.pending_jobs q)),
        )
]

-- Steps on the references of a leaf: AddRef, and ReleaseRef of no more than there are.
pub data RefSteps : Leaf → Leaf → Type 0 where
  start : {l : Leaf} → RefSteps l l
  add : {l l' : Leaf} → RefSteps l l' → RefSteps l (add_ref l')
  release :
      {l l' : Leaf} (n : ℕ) → RefSteps l l' → 0 < n → n ≤ l'.nlookup → RefSteps l (release_ref l' n)

-- After any sequence of references taken and released, of which no release is of more references
-- than there are, a leaf that had none at first keeps itself alive exactly when it has a reference.
pub refs-pinned : (size : ℕ) (l : Leaf) → RefSteps (new_leaf size) l → l.self_pin ≡ ltb 0 l.nlookup
unfolding add_ref release_ref new_leaf
refs-pinned size l r = held r refl
  where
    held :
        {l l' : Leaf}
        → RefSteps l l'
        → l.self_pin ≡ ltb 0 l.nlookup
        → l'.self_pin ≡ ltb 0 l'.nlookup
    held start h = h
    held (add r) h = let kept = held r h in ground arith
    held (release n r p b) h = let kept = held r h in ground arith

already_asked :
    (l : Leaf) (index : ℕ)
    → get_status l.pieces_status index ≡ in_flight
    → set_in_flight l index ≡ (l, false)
unfolding set_in_flight
already_asked l index e = rw (e, set_in_flight) refl

-- SetInFlight on a block of the file answers true only when the block is not there and not asked
-- for; after it the block is never `NotFound`, and the next SetInFlight answers false and changes
-- nothing.
pub set_in_flight-once :
    (l : Leaf) (index : ℕ)
    → index < length l.pieces_status
    → let (l', first) = set_in_flight l index in
      ((first ≡ true) → get_status l.pieces_status index ≡ not_found)
      × (get_status l'.pieces_status index ≢ not_found)
      × (set_in_flight l' index ≡ (l', false))
unfolding set_in_flight
set_in_flight-once l index h = by_case (get_status l.pieces_status index) refl
  where
    asked : get_status (set_status l.pieces_status index in_flight) index ≡ in_flight
    asked = get_or-set_self l.pieces_status index in_flight not_found h

    answered :
        (r : Leaf × Bool)
        → set_in_flight l index ≡ r
        → ((r.1 ≡ true) → get_status l.pieces_status index ≡ not_found)
        → (get_status r.0.pieces_status index ≢ not_found)
        → (set_in_flight r.0 index ≡ (r.0, false))
        → let (l', first) = set_in_flight l index in
          ((first ≡ true) → get_status l.pieces_status index ≡ not_found)
          × (get_status l'.pieces_status index ≢ not_found)
          × (set_in_flight l' index ≡ (l', false))
    answered r e a b c =
        subst
          (λ (q : Leaf × Bool).
            ((q.1 ≡ true) → get_status l.pieces_status index ≡ not_found)
            × (get_status q.0.pieces_status index ≢ not_found)
            × (set_in_flight q.0 index ≡ (q.0, false)))
          (sym e) (a, b, c)

    by_case :
        (s : PieceStatus)
        → get_status l.pieces_status index ≡ s
        → let (l', first) = set_in_flight l index in
          ((first ≡ true) → get_status l.pieces_status index ≡ not_found)
          × (get_status l'.pieces_status index ≢ not_found)
          × (set_in_flight l' index ≡ (l', false))
    by_case not_found e =
        answered (record l { pieces_status = set_status l.pieces_status index in_flight }, true)
          (rw (e, set_in_flight) refl) (λ q. e)
          (λ q. let no_way : in_flight ≡ not_found = sym asked ∙ q in cc)
          (already_asked _ index asked)
    by_case in_flight e =
        answered (l, false) (rw (e, set_in_flight) refl) (λ q. cc) (λ q. cc)
          (rw (e, set_in_flight) refl)
    by_case in_cache e =
        answered (l, false) (rw (e, set_in_flight) refl) (λ q. cc) (λ q. cc)
          (rw (e, set_in_flight) refl)
    by_case on_disk e =
        answered (l, false) (rw (e, set_in_flight) refl) (λ q. cc) (λ q. cc)
          (rw (e, set_in_flight) refl)
