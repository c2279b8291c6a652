-- ===== src/MultiList/Laws.antt =====
-- The operations of MultiList as operations on the list that it stands for, and the invariant of
-- the chunks and of the cached size.
use mathlib.Core.List.{append-nil, append_assoc}
use multi_threaded_socket.Common.{
  ℕ, zero, suc, ◌+◌, ◌-◌, ◌≤◌, ◌<◌, ◌≡◌, ◌≢◌, ◌⊎◌, inl, inr, refl, sym, ap, ◌∙◌, true, false, none,
  some, List, [], ◌∷◌, ◌++◌, arith, length, length-append, take, drop, length-take, length-drop,
  take-append_le, drop-append_le, take-append_ge, drop-append_ge, Option-cases, ltb, Bool-cases,
}
use multi_threaded_socket.MultiList.{
  MultiList, chunk_size, push_lists, push_back, join_lists, splice, generate, try_generate, empty,
  last_elem, last_list, back, init, cons_chunk, pop_lists, pop_back, concat, to_list,
}

module _ {ℓ} {A : Type ℓ} where
  -- Every chunk holds between one and ten elements.
  abbrev pub AreChunks : List (List A) → Type 0
  AreChunks [] = Unit {0}
  AreChunks (c ∷ cs) = ((0 < length c) × (length c ≤ chunk_size)) × AreChunks cs

  -- The chunks are chunks, and `_size` is the number of the elements.
  pub record IsValid (l : MultiList A) : Type 0 where
    pub chunks : AreChunks l.lists
    pub sized : l.size ≡ length (to_list l)

  concat-push : (cs : List (List A)) (x : A) → concat (push_lists cs x) ≡ concat cs ++ x ∷ []
  unfolding push_lists
  concat-push [] x = refl
  concat-push (c ∷ []) x = ground (arith, append-nil c, append-nil (c ++ x ∷ []))
  concat-push (c ∷ d ∷ cs) x =
      ap (◌++◌ c) (concat-push (d ∷ cs) x) ∙ sym (append_assoc c (concat (d ∷ cs)) (x ∷ []))

  push-AreChunks : (cs : List (List A)) (x : A) → AreChunks cs → AreChunks (push_lists cs x)
  unfolding push_lists
  push-AreChunks [] x v = omega arith
  push-AreChunks (c ∷ []) x v = ground (arith, length-append c (x ∷ []))
  push-AreChunks (c ∷ d ∷ cs) x v = (v.0, push-AreChunks (d ∷ cs) x v.1)

  -- `push_back` appends its element, and keeps the invariant.
  pub push_back_lem :
      (l : MultiList A) (x : A)
      → IsValid l
      → (to_list (push_back l x) ≡ to_list l ++ x ∷ []) × IsValid (push_back l x)
  unfolding push_back
  push_back_lem l x v = (
    concat-push l.lists x,
    record {
      chunks = push-AreChunks l.lists x v.chunks;
      sized =
          omega
            (arith, v.sized, ap length (concat-push l.lists x), length-append (to_list l) (x ∷ []));
    },
  )

  concat-join : (cs ds : List (List A)) → concat (join_lists cs ds) ≡ concat cs ++ concat ds
  unfolding join_lists
  concat-join [] ds = refl
  concat-join (c ∷ []) [] = sym (append-nil (concat (c ∷ [])))
  concat-join (c ∷ []) (d ∷ ds) = ground (arith, append-nil c, append_assoc c d (concat ds))
  concat-join (c ∷ c' ∷ cs) ds =
      ap (◌++◌ c) (concat-join (c' ∷ cs) ds) ∙ sym (append_assoc c (concat (c' ∷ cs)) (concat ds))

  join-AreChunks :
      (cs ds : List (List A)) → AreChunks cs → AreChunks ds → AreChunks (join_lists cs ds)
  unfolding join_lists
  join-AreChunks [] ds v w = w
  join-AreChunks (c ∷ []) [] v w = v
  join-AreChunks (c ∷ []) (d ∷ ds) v w = ground (arith, length-append c d)
  join-AreChunks (c ∷ c' ∷ cs) ds v w = (v.0, join-AreChunks (c' ∷ cs) ds v.1 w)

  -- `splice` moves all elements of the other list to the end of this one.
  pub splice_lem :
      (l that : MultiList A)
      → IsValid l
      → IsValid that
      → (to_list (splice l that).0 ≡ to_list l ++ to_list that)
        × IsValid (splice l that).0
        × (to_list (splice l that).1 ≡ [])
        × IsValid (splice l that).1
  unfolding splice
  splice_lem l that v w = (
    concat-join l.lists that.lists,
    record {
      chunks = join-AreChunks l.lists that.lists v.chunks w.chunks;
      sized = omega (
        arith,
        v.sized,
        w.sized,
        ap length (concat-join l.lists that.lists),
        length-append (to_list l) (to_list that),
      );
    },
    refl,
    record { chunks = tt; sized = refl },
  )

  -- What the loop of TryGenerate takes and leaves, and the count that it keeps.
  record Generated (cs : List (List A)) (n : ℕ) (r : List (List A) × ℕ × List (List A))
      : Type ℓ where
    taken : concat r.0 ≡ take n (concat cs)
    left : concat r.2 ≡ drop n (concat cs)
    count : r.1 ≡ length (concat r.0)
    taken_chunks : AreChunks r.0
    left_chunks : AreChunks r.2

  take_nil : (n : ℕ) → take {A = A} n [] ≡ []
  take_nil zero = refl
  take_nil (suc n) = refl

  drop_nil : (n : ℕ) → drop {A = A} n [] ≡ []
  drop_nil zero = refl
  drop_nil (suc n) = refl

  generate-Generated : (cs : List (List A)) (n : ℕ) → AreChunks cs → Generated cs n (generate cs n)
  unfolding generate
  generate-Generated [] n v = record {
    taken = sym (take_nil n);
    left = sym (drop_nil n);
    count = refl;
    taken_chunks = tt;
    left_chunks = tt;
  }
  generate-Generated (c ∷ cs) zero v = record {
    taken = refl;
    left = refl;
    count = refl;
    taken_chunks = tt;
    left_chunks = v;
  }
  generate-Generated (c ∷ cs) (suc n) v = elim (Bool-cases (ltb (suc n) (length c))) [
    | inl short ↦ rw short (record {
      taken =
          append-nil (take (suc n) c) ∙ sym (take-append_le (suc n) c (concat cs) (ground arith));
      left = sym (drop-append_le (suc n) c (concat cs) (ground arith));
      count = ground (arith, length-take (suc n) c, append-nil (take (suc n) c));
      taken_chunks = ground (arith, length-take (suc n) c);
      left_chunks = ground (arith, length-drop (suc n) c);
    })
    | inr long ↦
        let h = generate-Generated cs (suc n - length c) v.1 in
        let m : suc n ≡ length c + (suc n - length c) = ground arith in
        rw long (record {
          taken =
              ap (◌++◌ c) h.taken ∙ sym (take-append_ge (suc n) (suc n - length c) c (concat cs) m);
          left = h.left ∙ sym (drop-append_ge (suc n) (suc n - length c) c (concat cs) m);
          count =
              omega (arith, h.count, length-append c (concat (generate cs (suc n - length c)).0));
          taken_chunks = (v.0, h.taken_chunks);
          left_chunks = h.left_chunks;
        })
  ]

  -- `TryGenerate(n)` moves the first `n` elements, or all if there are fewer, to a new list.
  pub try_generate_lem :
      (l : MultiList A) (n : ℕ)
      → IsValid l
      → let (taken, left) = try_generate l n in
        (to_list taken ≡ take n (to_list l))
        × (to_list left ≡ drop n (to_list l))
        × IsValid taken
        × IsValid left
  unfolding try_generate
  try_generate_lem l n v =
      let h = generate-Generated l.lists n v.chunks in
      (
        h.taken,
        h.left,
        record { chunks = h.taken_chunks; sized = h.count },
        record {
          chunks = h.left_chunks;
          sized = omega (
            arith,
            h.count,
            v.sized,
            ap length h.taken,
            ap length h.left,
            length-take n (to_list l),
            length-drop n (to_list l),
          );
        },
      )

  init-last : (c : List A) (x : A) → last_elem c ≡ some x → c ≡ init c ++ x ∷ []
  unfolding last_elem init
  init-last [] x e = cc
  init-last (y ∷ []) x e = cc
  init-last (y ∷ z ∷ c) x e = ap (◌∷◌ y) (init-last (z ∷ c) x e)

  concat-cons_chunk : (c : List A) → concat (cons_chunk c) ≡ c
  unfolding cons_chunk
  concat-cons_chunk [] = refl
  concat-cons_chunk (x ∷ c) = append-nil (x ∷ c)

  concat-pop :
      (cs : List (List A)) (x : A)
      → last_list cs ≡ some x
      → concat cs ≡ concat (pop_lists cs) ++ x ∷ []
  unfolding last_list pop_lists
  concat-pop [] x e = cc
  concat-pop (c ∷ []) x e =
      append-nil c ∙ init-last c x e ∙ ap (λ d. d ++ x ∷ []) (sym (concat-cons_chunk (init c)))
  concat-pop (c ∷ d ∷ cs) x e =
      ap (◌++◌ c) (concat-pop (d ∷ cs) x e)
      ∙ sym (append_assoc c (concat (pop_lists (d ∷ cs))) (x ∷ []))

  length-init : (c : List A) → length (init c) ≡ length c - 1
  unfolding init
  length-init [] = refl
  length-init (x ∷ []) = refl
  length-init (x ∷ y ∷ c) = omega (arith, length-init (y ∷ c))

  cons-AreChunks : (c : List A) → length c ≤ chunk_size → AreChunks (cons_chunk c)
  unfolding cons_chunk
  cons-AreChunks [] h = tt
  cons-AreChunks (x ∷ c) h = omega arith

  pop-AreChunks : (cs : List (List A)) → AreChunks cs → AreChunks (pop_lists cs)
  unfolding pop_lists
  pop-AreChunks [] v = tt
  pop-AreChunks (c ∷ []) v = cons-AreChunks (init c) (omega (arith, length-init c))
  pop-AreChunks (c ∷ d ∷ cs) v = (v.0, pop-AreChunks (d ∷ cs) v.1)

  last_elem-some : (c : List A) → 0 < length c → last_elem c ≢ none
  unfolding last_elem
  last_elem-some [] h e = omega arith
  last_elem-some (x ∷ []) h e = cc
  last_elem-some (x ∷ y ∷ c) h e = last_elem-some (y ∷ c) (omega arith) e

  last_list-some :
      (c : List A) (cs : List (List A)) → AreChunks (c ∷ cs) → last_list (c ∷ cs) ≢ none
  unfolding last_list
  last_list-some c [] v e = last_elem-some c v.0.0 e
  last_list-some c (d ∷ cs) v e = last_list-some d cs v.1 e

  -- An empty list; or a last element `x`, with the list that `pop_back` leaves.
  abbrev pub BackPop : MultiList A → Type ℓ
  BackPop l =
      ((empty l ≡ true) × (to_list l ≡ []) × (back l ≡ none))
      ⊎ ((x : A) × (empty l ≡ false)
          × (back l ≡ some x)
          × (to_list l ≡ to_list (pop_back l) ++ x ∷ [])
          × IsValid (pop_back l))

  pop_split :
      (cs : List (List A)) (n : ℕ)
      → IsValid (record { lists = cs; size = n })
      → BackPop (record { lists = cs; size = n })
  unfolding empty back pop_back last_list
  pop_split [] n v = inl (refl, refl, refl)
  pop_split (c ∷ cs) n v = elim (Option-cases (last_list (c ∷ cs))) [
    | inl e ↦ absurd (last_list-some c cs v.chunks e)
    | inr (x, e) ↦
        let eq = concat-pop (c ∷ cs) x e in
        inr (
          x,
          refl,
          e,
          eq,
          record {
            chunks = pop-AreChunks (c ∷ cs) v.chunks;
            sized = omega (
              arith,
              v.sized,
              ap length eq,
              length-append (concat (pop_lists (c ∷ cs))) (x ∷ []),
            );
          },
        )
  ]

  -- `empty` tells exactly whether there is no element; else `back` gives the last element, and
  -- `pop_back` leaves the others and keeps the invariant.
  pub back-pop_back : (l : MultiList A) → IsValid l → BackPop l
  back-pop_back l v = pop_split l.lists l.size v
