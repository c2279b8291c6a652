-- ===== src/FileSystem/FileCache/Recency.antt =====
-- GetFile returns an open file, and closes none of those that were used last.
use multi_threaded_socket.Common.{
  ℕ, zero, suc, ◌-◌, ◌<◌, ◌≡◌, ◌≢◌, ◌∙◌, refl, sym, ap, ap₂, true, false, none, some, List, [], ◌∷◌,
  ◌++◌, arith, length, length-append, take, take-append_le, leb, ◌==◌, Bool-cases, Option-cases,
  inl, inr, split_last, split_last-append, split_last-none, take_all, ◌+◌, ◌≤◌, if◌then◌else◌, find,
  assign, erase, find-assign_self, find-assign_ne, find-erase_self, find-erase_ne, assign-Distinct,
  ℕ_discrete, some-injective,
}
use multi_threaded_socket.FileSystem.FileCache.{
  FileCache, max_files, cleanup_files, remove, cleanup, cleanup_old_files, make_room, get_file,
}
use multi_threaded_socket.FileSystem.FileCache.Bounds.{
  occurs, is_some, NoRepeat, IsValid, closed_last, used, make_room-IsValid, length-assign_new,
}

occurs-take : (p n : ℕ) (xs : List ℕ) → occurs p (take n xs) ≡ true → occurs p xs ≡ true
occurs-take p zero xs h = cc
occurs-take p (suc n) [] h = cc
occurs-take p (suc n) (x ∷ xs) h = ground (arith, occurs-take p n xs)

cleanup-absent :
    (n : ℕ) (c : FileCache) (p : ℕ)
    → find p c.opened_files ≡ none
    → find p (cleanup n c).opened_files ≡ none
unfolding cleanup
cleanup-absent zero c p h = h
cleanup-absent (suc n) c p h = elim (Option-cases (split_last c.lru_list)) [
  | inl e ↦ rw (e, cleanup) h
  | inr ((left, last), e) ↦
      rw (e, cleanup)
        (cleanup-absent n (record { opened_files = erase last c.opened_files; lru_list = left }) p
          (elim (ℕ_discrete last p) [
            | yes q ↦
                ap (λ i. find i (erase last c.opened_files)) (sym q)
                ∙ find-erase_self last c.opened_files
            | no q ↦ find-erase_ne last p c.opened_files q ∙ h
          ]))
]

make_room-absent :
    (c : FileCache) (p : ℕ)
    → find p c.opened_files ≡ none
    → find p (make_room c).opened_files ≡ none
unfolding make_room cleanup_old_files
make_room-absent c p h = elim (Bool-cases (leb max_files (length c.opened_files))) [
  | inl e ↦ rw (e, make_room) (cleanup-absent cleanup_files c p h)
  | inr e ↦ rw (e, make_room) h
]

cleanup-kept :
    (n : ℕ) (c : FileCache) (p : ℕ)
    → IsValid c
    → occurs p (take (length c.lru_list - n) c.lru_list) ≡ true
    → find p (cleanup n c).opened_files ≡ find p c.opened_files
unfolding cleanup
cleanup-kept zero c p v h = refl
cleanup-kept (suc n) c p v h = elim (Option-cases (split_last c.lru_list)) [
  | inl e ↦ rw (e, cleanup) refl
  | inr ((left, last), e) ↦
      rw (e, cleanup)
        (let parts : c.lru_list ≡ left ++ last ∷ [] = split_last-append c.lru_list left last e in
          let w = closed_last c left last v parts in
          let among : occurs p (take (length left - n) left) ≡ true = in_left left last parts in
          let other : last ≢ p = λ q. differs left last w among q in
          cleanup-kept n (record { opened_files = erase last c.opened_files; lru_list = left }) p w
            among
          ∙ find-erase_ne last p c.opened_files other)
]
  where
    in_left :
        (left : List ℕ) (last : ℕ)
        → c.lru_list ≡ left ++ last ∷ []
        → occurs p (take (length left - n) left) ≡ true
    in_left left last parts =
        let fewer : length c.lru_list - suc n ≡ length left - n =
          omega (arith, ap length parts, length-append left (last ∷ [])) in
        let front : take (length c.lru_list - suc n) c.lru_list ≡ take (length left - n) left =
          ap₂ take fewer parts ∙ take-append_le (length left - n) left (last ∷ []) (omega arith) in
        sym (ap (occurs p) front) ∙ h

    differs :
        (left : List ℕ) (last : ℕ)
        → IsValid (record { opened_files = erase last c.opened_files; lru_list = left })
        → occurs p (take (length left - n) left) ≡ true
        → last ≢ p
    differs left last w among q =
        let there : occurs p left ≡ true = occurs-take p (length left - n) left among in
        let gone : occurs last left ≡ false =
          w.same last ∙ ap is_some (find-erase_self last c.opened_files) in
        let both : occurs last left ≡ occurs p left = ap (λ i. occurs i left) q in cc

make_room-kept :
    (c : FileCache) (p : ℕ)
    → IsValid c
    → occurs p (take cleanup_files c.lru_list) ≡ true
    → find p (make_room c).opened_files ≡ find p c.opened_files
unfolding make_room cleanup_old_files
make_room-kept c p v h = elim (Bool-cases (leb max_files (length c.opened_files))) [
  | inl e ↦
      let full : length c.lru_list - cleanup_files ≡ cleanup_files =
        ground (arith, v.sized, v.bounded) in
      rw (e, make_room)
        (cleanup-kept cleanup_files c p v (ap (λ n. occurs p (take n c.lru_list)) full ∙ h))
  | inr e ↦ rw (e, make_room) refl
]

-- A list without a path
abbrev pub without : ℕ → List ℕ → List ℕ
without path [] = []
without path (p ∷ paths) = if p == path then without path paths else p ∷ without path paths

without-absent : (path : ℕ) (xs : List ℕ) → occurs path xs ≡ false → without path xs ≡ xs
without-absent path [] h = refl
without-absent path (x ∷ xs) h =
    let other : (x == path) ≡ false = ground arith in
    let rest : occurs path xs ≡ false = ground arith in
    rw other (ap (◌∷◌ x) (without-absent path xs rest))

remove-without : (path : ℕ) (xs : List ℕ) → NoRepeat xs → remove path xs ≡ without path xs
unfolding remove NoRepeat
remove-without path [] h = refl
remove-without path (x ∷ xs) h = elim (Bool-cases (x == path)) [
  | inl e ↦
      let same : x ≡ path = ground arith in
      rw e (sym (without-absent path xs (ap (λ y. occurs y xs) (sym same) ∙ h.0)))
  | inr e ↦ rw e (ap (◌∷◌ x) (remove-without path xs h.1))
]

cleanup-list :
    (n : ℕ) (c : FileCache) → (cleanup n c).lru_list ≡ take (length c.lru_list - n) c.lru_list
unfolding cleanup
cleanup-list zero c = sym (take_all (length c.lru_list - 0) c.lru_list (omega arith))
cleanup-list (suc n) c = elim (Option-cases (split_last c.lru_list)) [
  | inl e ↦
      let empty : c.lru_list ≡ [] = split_last-none c.lru_list e in
      rw (e, cleanup) (empty ∙ sym (no_more (length c.lru_list - suc n) c.lru_list empty))
  | inr ((left, last), e) ↦
      let parts : c.lru_list ≡ left ++ last ∷ [] = split_last-append c.lru_list left last e in
      let fewer : length c.lru_list - suc n ≡ length left - n =
        omega (arith, ap length parts, length-append left (last ∷ [])) in
      rw (e, cleanup)
        (cleanup-list n (record { opened_files = erase last c.opened_files; lru_list = left })
          ∙ sym (
              ap₂ take fewer parts
              ∙ take-append_le (length left - n) left (last ∷ []) (omega arith)))
]
  where
    no_more : (k : ℕ) (xs : List ℕ) → xs ≡ [] → take k xs ≡ []
    no_more zero [] h = refl
    no_more (suc k) [] h = refl
    no_more k (x ∷ xs) h = cc

-- The list begins with the path, and goes on as it was without it, for 50 paths at least.
abbrev pub Recent : FileCache → ℕ → FileCache → Type 0
Recent c path c' =
    (kept : ℕ) × (cleanup_files ≤ kept) × (c'.lru_list ≡ path ∷ take kept (without path c.lru_list))

make_room-list :
    (c : FileCache)
    → IsValid c
    → (kept : ℕ) × (cleanup_files ≤ kept) × ((make_room c).lru_list ≡ take kept c.lru_list)
unfolding make_room cleanup_old_files
make_room-list c v = elim (Bool-cases (leb max_files (length c.opened_files))) [
  | inl e ↦
      let full : cleanup_files ≤ length c.lru_list - cleanup_files =
        ground (arith, v.sized, v.bounded) in
      (length c.lru_list - cleanup_files, full, rw (e, make_room) (cleanup-list cleanup_files c))
  | inr e ↦ (
    length c.lru_list + cleanup_files,
    omega arith,
    rw (e, make_room) (sym (take_all (length c.lru_list + cleanup_files) c.lru_list (omega arith))),
  )
]

used-Recent :
    (c : FileCache) (path : ℕ)
    → IsValid c
    → Recent c path (record c { lru_list = path ∷ remove path c.lru_list })
used-Recent c path v = (
  length (without path c.lru_list) + cleanup_files,
  omega arith,
  ap (◌∷◌ path) (
      remove-without path c.lru_list v.no_repeat
      ∙ sym (
          take_all (length (without path c.lru_list) + cleanup_files) (without path c.lru_list)
            (omega arith))),
)

opened-Recent :
    (c : FileCache) (path : ℕ) (files : List (ℕ × ℕ))
    → IsValid c
    → find path c.opened_files ≡ none
    → Recent c path (record { opened_files = files; lru_list = path ∷ (make_room c).lru_list })
opened-Recent c path files v e =
    let (kept, enough, front) = make_room-list c v in
    let absent : occurs path c.lru_list ≡ false = v.same path ∙ ap is_some e in
    (
      kept,
      enough,
      ap (◌∷◌ path) (front ∙ ap (take kept) (sym (without-absent path c.lru_list absent))),
    )

opened :
    (c : FileCache) (path file : ℕ)
    → IsValid c
    → find path c.opened_files ≡ none
    → length c.opened_files < max_files
    → IsValid
        (record { opened_files = assign path file c.opened_files; lru_list = path ∷ c.lru_list })
unfolding NoRepeat
opened c path file v e room = record {
  distinct = assign-Distinct path file c.opened_files v.distinct;
  no_repeat = (v.same path ∙ ap is_some e, v.no_repeat);
  same = λ p. elim (Bool-cases (path == p)) [
    | inl q ↦
        let here : path ≡ p = ground arith in
        rw q (
          sym (
            ap is_some (
              ap (λ i. find i (assign path file c.opened_files)) (sym here)
              ∙ find-assign_self path file c.opened_files)))
    | inr q ↦
        rw q
          (v.same p ∙ sym (ap is_some (find-assign_ne path p file c.opened_files (ground arith))))
  ];
  sized = length-assign_new path file c.opened_files e ∙ ap suc v.sized;
  bounded = omega (arith, length-assign_new path file c.opened_files e);
}

-- When the open files and the list of their paths are in step and at most 100 files are open, they
-- still are after GetFile. The file that it returns is the one that is open for the path from then
-- on, and the one that was if there was one. The path is now the first of the list, and the others
-- follow in the order of their use as before, 50 of them at least. The 50 files that were used last stay open.
pub get_file_lem :
    (c : FileCache) (path file : ℕ)
    → IsValid c
    → let (c', got) = get_file c path file in
      IsValid c'
      × (find path c'.opened_files ≡ some got)
      × Recent c path c'
      × ((old : ℕ) → find path c.opened_files ≡ some old → got ≡ old)
      × ((p : ℕ)
          → occurs p (take cleanup_files c.lru_list) ≡ true
          → find p c'.opened_files ≡ find p c.opened_files)
unfolding get_file
get_file_lem c path file v = elim (Option-cases (find path c.opened_files)) [
  | inl e ↦
      let (w, room) = make_room-IsValid c v in
      rw (e, get_file)
        (
          opened (make_room c) path file w (make_room-absent c path e) room,
          find-assign_self path file (make_room c).opened_files,
          opened-Recent c path (assign path file (make_room c).opened_files) v e,
          (λ old q. cc),
          (λ p h.
              find-assign_ne path p file (make_room c).opened_files (differs p e h)
              ∙ make_room-kept c p v h),
        )
  | inr (f, e) ↦
      rw (e, get_file)
        (used c path f v e, e, used-Recent c path v, (λ old q. some-injective _ _ q), (λ p h. refl))
]
  where
    differs :
        (p : ℕ)
        → find path c.opened_files ≡ none
        → occurs p (take cleanup_files c.lru_list) ≡ true
        → path ≢ p
    differs p e h q =
        let there : occurs p c.lru_list ≡ true = occurs-take p cleanup_files c.lru_list h in
        let absent : occurs path c.lru_list ≡ false = v.same path ∙ ap is_some e in
        let both : occurs path c.lru_list ≡ occurs p c.lru_list = ap (λ i. occurs i c.lru_list) q in
        cc
