-- ===== src/MultiList/Iteration.antt =====
-- Going over a MultiList with its iterators.
use native.Mathlib.Numerals.{add-one}
use multi_threaded_socket.Common.{
  ℕ, zero, suc, ◌+◌, ◌≤◌, ◌<◌, ◌≡◌, ◌≢◌, ◌⊎◌, inl, inr, refl, sym, ap, ◌∙◌, true, false, some, List,
  [], ◌∷◌, ◌++◌, arith, length, length-append, drop, length-drop, ◌==◌, Bool-cases, get_elem?,
  drop_all,
}
use multi_threaded_socket.MultiList.{
  MultiList, Iterator, concat, to_list, chunk_length, chunk_elem, begin, end, increment,
  post_increment, equal, deref, visit,
}
use multi_threaded_socket.MultiList.Laws.{AreChunks, IsValid}

module _ {ℓ} {A : Type ℓ} where
  -- The elements from an iterator on.
  abbrev pub from : List (List A) → ℕ → ℕ → List A
  from [] i j = []
  from (c ∷ cs) zero j = drop j c ++ concat cs
  from (c ∷ cs) (suc i) j = from cs i j

  -- An iterator into a chunk, or the end.
  abbrev pub Points : List (List A) → ℕ → ℕ → Type 0
  Points cs i j = (j < chunk_length cs i) ⊎ ((i ≡ length cs) × (j ≡ 0))

  drop-elem :
      (c : List A) (j : ℕ)
      → j < length c
      → (x : A) × (get_elem? c j ≡ some x) × (drop j c ≡ x ∷ drop (suc j) c)
  drop-elem [] j h = absurd (omega arith)
  drop-elem (x ∷ c) zero h = (x, refl, refl)
  drop-elem (x ∷ c) (suc j) h = drop-elem c j (omega arith)

  length-from : (cs : List (List A)) (i j : ℕ) → length (from cs i j) ≤ length (concat cs)
  length-from [] i j = omega arith
  length-from (c ∷ cs) zero j =
      omega
        (arith, length-append (drop j c) (concat cs), length-append c (concat cs), length-drop j c)
  length-from (c ∷ cs) (suc i) j = omega (arith, length-from cs i j, length-append c (concat cs))

  -- At an element: it is the first of those from the iterator on.
  from-elem :
      (cs : List (List A)) (i j : ℕ)
      → j < chunk_length cs i
      → (x : A) × (chunk_elem cs i j ≡ some x)
        × (from cs i j ≡ x ∷ from cs i (suc j))
        × (i < length cs)
  unfolding chunk_elem
  from-elem [] i j h = absurd (omega arith)
  from-elem (c ∷ cs) zero j h =
      let (x, e, d) = drop-elem c j h in (x, e, ap (λ l. l ++ concat cs) d, omega arith)
  from-elem (c ∷ cs) (suc i) j h = let (x, e, d, b) = from-elem cs i j h in (x, e, d, omega arith)

  -- At the end of a chunk the next chunk begins.
  from-next :
      (cs : List (List A)) (i j : ℕ) → j ≡ chunk_length cs i → from cs i j ≡ from cs (suc i) 0
  from-next [] i j h = refl
  from-next (c ∷ []) zero j h = rw (drop_all j c (omega arith)) refl
  from-next (c ∷ d ∷ cs) zero j h = rw (drop_all j c (omega arith)) refl
  from-next (c ∷ cs) (suc i) j h = from-next cs i j h

  Points-next : (cs : List (List A)) (i : ℕ) → AreChunks cs → i < length cs → Points cs (suc i) 0
  Points-next [] i v h = absurd (omega arith)
  Points-next (c ∷ []) zero v h = inr (omega arith)
  Points-next (c ∷ d ∷ cs) zero v h = inl v.1.0.0
  Points-next (c ∷ cs) (suc i) v h = elim (Points-next cs i v.1 (omega arith)) [
    | inl p ↦ inl p
    | inr p ↦ inr (omega arith)
  ]

  from_end : (cs : List (List A)) → from cs (length cs) 0 ≡ []
  from_end [] = refl
  from_end (c ∷ cs) = from_end cs

  -- Incrementing at an element goes to the one after it, or to the end.
  pub increment_lem :
      (l : MultiList A) (i : Iterator)
      → AreChunks l.lists
      → i.it2 < chunk_length l.lists i.it1
      → let n = increment l i in
        Points l.lists n.it1 n.it2 × (from l.lists n.it1 n.it2 ≡ from l.lists i.it1 (suc i.it2))
  unfolding increment
  increment_lem l i v h = elim (Bool-cases (i.it2 + 1 == chunk_length l.lists i.it1)) [
    | inl e ↦
        let (x, _, _, b) = from-elem l.lists i.it1 i.it2 h in
        rw (e, add-one)
          (Points-next l.lists i.it1 v b, sym (from-next l.lists i.it1 (suc i.it2) (ground arith)))
    | inr e ↦ rw (e, add-one) (inl (ground arith), refl)
  ]

  visit-from :
      (fuel : ℕ) (l : MultiList A) (i : Iterator)
      → AreChunks l.lists
      → Points l.lists i.it1 i.it2
      → length (from l.lists i.it1 i.it2) < fuel
      → visit fuel l i ≡ some (from l.lists i.it1 i.it2)
  unfolding visit equal end deref
  visit-from zero l i v p h = absurd (omega arith)
  visit-from (suc fuel) l i v (inr (e, z)) h =
      let e1 : (i.it1 == length l.lists) ≡ true = ground arith in
      let e2 : (i.it2 == 0) ≡ true = ground arith in rw (e1, e2, e, z, from_end l.lists)
  visit-from (suc fuel) l i v (inl p) h =
      let (x, d, f, b) = from-elem l.lists i.it1 i.it2 p in
      let (q, g) = increment_lem l i v p in
      let ih = visit-from fuel l (increment l i) v q (omega (arith, ap length g, ap length f)) in
      let e1 : (i.it1 == length l.lists) ≡ false = ground arith in rw (e1, d, ih, g, f)

  Points-begin : (cs : List (List A)) → AreChunks cs → Points cs 0 0
  Points-begin [] v = inr (omega arith)
  Points-begin (c ∷ cs) v = inl v.0.0

  from_begin : (cs : List (List A)) → from cs 0 0 ≡ concat cs
  from_begin [] = refl
  from_begin (c ∷ cs) = refl

  -- A loop from `begin` to `end` by `++` visits each element once, in order, and ends within
  -- `size() + 1` tests.
  pub visit_all : (l : MultiList A) → IsValid l → visit (suc l.size) l (begin l) ≡ some (to_list l)
  unfolding begin
  visit_all l v =
      visit-from (suc l.size) l (begin l) v.chunks (Points-begin l.lists v.chunks)
        (omega (arith, v.sized, ap length (from_begin l.lists)))
      ∙ ap some (from_begin l.lists)

  -- `operator++(int)` returns the new position, not the old one.
  pub post_increment_moves :
      (l : MultiList A) (i : Iterator)
      → ((post_increment l i).0 ≡ increment l i)
        × ((post_increment l i).1 ≡ increment l i)
        × ((post_increment l i).0 ≢ i)
  unfolding post_increment increment
  post_increment_moves l i = (
    refl,
    refl,
    λ e. ground (arith, ap (λ (k : Iterator). k.it1) e, ap (λ (k : Iterator). k.it2) e),
  )
