-- ===== src/FileSystem/Leaf/Agreement.antt =====
-- What a leaf's cache is to be: each range holds the bytes of the file that it stands for.
use multi_threaded_socket.Common.{
  ℕ, ◌+◌, ◌-◌, ◌≤◌, ◌<◌, ◌≡◌, ◌∙◌, refl, sym, ap, ap₂, some, List, [], ◌∷◌, ◌++◌, arith, length,
  take, drop, length-append, take-append-drop, drop-append_ge, find, assign, find-assign_self,
  find-assign_ne, ℕ_discrete, subst, All, Bool-cases, inl, inr, ltb,
}
use multi_threaded_socket.MultiList.{concat}
use multi_threaded_socket.FileSystem.Range.{Range, upper_bound}
use multi_threaded_socket.FileSystem.Range.Slice.{
  slice, slice_append, length-slice, drop-slice, concat-append,
}
use multi_threaded_socket.FileSystem.Leaf.{Leaf}

-- The range's packets are the bytes of the file that it stands for, there are some, and the cache
-- itself counts as a user of the range.
pub record Holds (file : ℕ → ℕ) (r : Range) : Type 0 where
  pub contents : concat r.packets ≡ slice file r.offset r.size
  pub filled : 0 < r.size
  pub counted : 0 < r.counter

-- Every range of every block does.
unfoldable pub Agrees : (ℕ → ℕ) → Leaf → Type 0
Agrees file l =
    (index : ℕ) (ranges : List Range) → find index l.blocks ≡ some ranges → All (Holds file) ranges

module _ (file : ℕ → ℕ) where
  -- Two runs of packets, the second where the first ends.
  pub contents_append :
      (xs ys : List (List ℕ)) (o m n : ℕ)
      → concat xs ≡ slice file o m
      → concat ys ≡ slice file (o + m) n
      → concat (xs ++ ys) ≡ slice file o (m + n)
  contents_append xs ys o m n h k = concat-append xs ys ∙ ap₂ ◌++◌ h k ∙ slice_append file o m n

  -- What is behind the first packets of a run.
  pub contents_drop :
      (n : ℕ) (xs : List (List ℕ)) (o m k : ℕ)
      → concat xs ≡ slice file o m
      → length (concat (take n xs)) ≡ k
      → concat (drop n xs) ≡ slice file (o + k) (m - k)
  contents_drop n xs o m k h e =
      sym (drop-append_ge k 0 (concat (take n xs)) (concat (drop n xs)) (omega arith))
      ∙ ap (drop k)
          (sym (concat-append (take n xs) (drop n xs)) ∙ ap concat (take-append-drop n xs) ∙ h)
      ∙ drop-slice file o k m

  pub length_contents :
      (n : ℕ) (xs : List (List ℕ)) (o m : ℕ)
      → concat xs ≡ slice file o m
      → length (concat (take n xs)) ≤ m
  length_contents n xs o m h = omega (
    arith,
    length-append (concat (take n xs)) (concat (drop n xs)),
    ap length (concat-append (take n xs) (drop n xs)),
    ap (λ l. length (concat l)) (take-append-drop n xs),
    ap length h,
    length-slice file o m,
  )

-- The ranges in front of an offset and behind it are the ranges.
pub upper_bound-append :
    (offset : ℕ) (ranges : List Range)
    → (upper_bound offset ranges).0 ++ (upper_bound offset ranges).1 ≡ ranges
unfolding upper_bound
upper_bound-append offset [] = refl
upper_bound-append offset (r ∷ ranges) = ground (arith, upper_bound-append offset ranges)

pub upper_bound-le :
    (offset : ℕ) (ranges : List Range) → All (λ r. r.offset ≤ offset) (upper_bound offset ranges).0
unfolding upper_bound All
upper_bound-le offset [] = tt
upper_bound-le offset (r ∷ ranges) = elim (Bool-cases (ltb offset r.offset)) [
  | inl e ↦ rw e tt
  | inr e ↦ rw e (ground arith, upper_bound-le offset ranges)
]

-- A block is put in, or in the place of another.
pub assign-Agrees :
    (file : ℕ → ℕ) (l : Leaf) (index : ℕ) (ranges : List Range)
    → Agrees file l
    → All (Holds file) ranges
    → (l' : Leaf) → l'.blocks ≡ assign index ranges l.blocks
    → Agrees file l'
unfolding Agrees
assign-Agrees file l index ranges h k l' b j found e = elim (ℕ_discrete index j) [
  | yes p ↦
      let self : find j l'.blocks ≡ some ranges =
        ap (find j) b
        ∙ ap (λ i. find j (assign i ranges l.blocks)) p
        ∙ find-assign_self j ranges l.blocks in
      let same : ranges ≡ found = cc in subst (All (Holds file)) same k
  | no p ↦ h j found (sym (ap (find j) b ∙ find-assign_ne index j ranges l.blocks p) ∙ e)
]

pub Agrees-find :
    (file : ℕ → ℕ) (l : Leaf)
    → Agrees file l
    → (index : ℕ) (ranges : List Range) → find index l.blocks ≡ some ranges
    → All (Holds file) ranges
unfolding Agrees
Agrees-find file l h index ranges e = h index ranges e
