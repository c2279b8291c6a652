-- ===== src/FileSystem/FileCache/Bounds.antt =====
-- How many files are open, and that the list and the map have the same paths.
use multi_threaded_socket.Common.{
  ℕ, zero, suc, ◌-◌, ◌≤◌, ◌<◌, ◌≡◌, ◌∙◌, refl, sym, ap, subst, Bool, true, false, ◌||◌, Option,
  none, some, List, [], ◌∷◌, ◌++◌, arith, length, length-append, leb, ◌==◌, Bool-cases,
  Option-cases, inl, inr, split_last, split_last-append, split_last-none, find, assign, erase,
  find-erase_self, find-erase_ne, Distinct, erase-Distinct, ℕ_discrete,
}
use multi_threaded_socket.FileSystem.FileCache.{
  FileCache, max_files, cleanup_files, remove, cleanup, cleanup_old_files, make_room,
}

abbrev pub occurs : ℕ → List ℕ → Bool
occurs path [] = false
occurs path (p ∷ paths) = (p == path) || occurs path paths

abbrev pub is_some : {A : Type 0} → Option A → Bool
is_some none = false
is_some (some a) = true

unfoldable pub NoRepeat : List ℕ → Type 0
NoRepeat [] = Unit
NoRepeat (p ∷ paths) = (occurs p paths ≡ false) × NoRepeat paths

pub record IsValid (c : FileCache) : Type 0 where
  pub distinct : Distinct c.opened_files
  pub no_repeat : NoRepeat c.lru_list
  pub same : (p : ℕ) → occurs p c.lru_list ≡ is_some (find p c.opened_files)
  pub sized : length c.opened_files ≡ length c.lru_list
  pub bounded : length c.opened_files ≤ max_files

occurs-remove_ne : (p q : ℕ) (xs : List ℕ) → (q == p) ≡ false → occurs p (remove q xs) ≡ occurs p xs
unfolding remove
occurs-remove_ne p q [] h = refl
occurs-remove_ne p q (x ∷ xs) h = ground (arith, occurs-remove_ne p q xs h)

occurs-remove_self : (q : ℕ) (xs : List ℕ) → NoRepeat xs → occurs q (remove q xs) ≡ false
unfolding remove NoRepeat
occurs-remove_self q [] h = refl
occurs-remove_self q (x ∷ xs) h = elim (Bool-cases (x == q)) [
  | inl e ↦ let same : x ≡ q = ground arith in rw e (ap (λ y. occurs y xs) (sym same) ∙ h.0)
  | inr e ↦ rw (e, e) (occurs-remove_self q xs h.1)
]

length-remove : (q : ℕ) (xs : List ℕ) → occurs q xs ≡ true → suc (length (remove q xs)) ≡ length xs
unfolding remove
length-remove q [] h = cc
length-remove q (x ∷ xs) h = ground (arith, length-remove q xs)

remove-NoRepeat : (q : ℕ) (xs : List ℕ) → NoRepeat xs → NoRepeat (remove q xs)
unfolding remove NoRepeat
remove-NoRepeat q [] h = h
remove-NoRepeat q (x ∷ xs) h = elim (Bool-cases (x == q)) [
  | inl e ↦ rw e h.1
  | inr e ↦ rw e (occurs-remove_ne x q xs (ground arith) ∙ h.0, remove-NoRepeat q xs h.1)
]

pub occurs-snoc : (p q : ℕ) (xs : List ℕ) → occurs p (xs ++ q ∷ []) ≡ (occurs p xs || (q == p))
occurs-snoc p q [] = ground arith
occurs-snoc p q (x ∷ xs) = ground (arith, occurs-snoc p q xs)

snoc-NoRepeat :
    (q : ℕ) (xs : List ℕ) → NoRepeat (xs ++ q ∷ []) → NoRepeat xs × (occurs q xs ≡ false)
unfolding NoRepeat
snoc-NoRepeat q [] h = (tt, refl)
snoc-NoRepeat q (x ∷ xs) h =
    let (left, absent) = snoc-NoRepeat q xs h.1 in
    let both : (occurs x xs || (q == x)) ≡ false = sym (occurs-snoc x q xs) ∙ h.0 in
    ((ground arith, left), ground arith)

erase_absent : (k : ℕ) (m : List (ℕ × ℕ)) → find k m ≡ none → erase k m ≡ m
unfolding find erase
erase_absent k [] h = refl
erase_absent k ((j, v) ∷ m) h = elim (Bool-cases (j == k)) [
  | inl e ↦ let found : some v ≡ none = rw e at h in cc
  | inr e ↦ rw e (ap (◌∷◌ (j, v)) (erase_absent k m (rw e at h)))
]

length-erase :
    (k : ℕ) (m : List (ℕ × ℕ))
    → Distinct m
    → is_some (find k m) ≡ true
    → suc (length (erase k m)) ≡ length m
unfolding find erase Distinct
length-erase k [] d h = cc
length-erase k ((j, v) ∷ m) d h = elim (Bool-cases (j == k)) [
  | inl e ↦
      let here : j ≡ k = ground arith in
      let gone : find k m ≡ none = ap (λ i. find i m) (sym here) ∙ d.0 in
      rw e (ap (λ l. suc (length l)) (erase_absent k m gone))
  | inr e ↦ rw e (ap suc (length-erase k m d.1 (rw e at h)))
]

pub length-assign_new :
    (k v : ℕ) (m : List (ℕ × ℕ)) → find k m ≡ none → length (assign k v m) ≡ suc (length m)
unfolding find assign
length-assign_new k v [] h = refl
length-assign_new k v ((j, u) ∷ m) h = elim (Bool-cases (j == k)) [
  | inl e ↦ let found : some u ≡ none = rw e at h in cc
  | inr e ↦ rw e (ap suc (length-assign_new k v m (rw e at h)))
]

-- A file that is open is used again.
pub used :
    (c : FileCache) (path file : ℕ)
    → IsValid c
    → find path c.opened_files ≡ some file
    → IsValid (record c { lru_list = path ∷ remove path c.lru_list })
unfolding NoRepeat
used c path file v e = record {
  distinct = v.distinct;
  no_repeat =
      (occurs-remove_self path c.lru_list v.no_repeat, remove-NoRepeat path c.lru_list v.no_repeat);
  same = λ p. elim (Bool-cases (path == p)) [
    | inl q ↦
        let here : path ≡ p = ground arith in
        rw q (sym (ap is_some (ap (λ i. find i c.opened_files) (sym here) ∙ e)))
    | inr q ↦ rw q (occurs-remove_ne p path c.lru_list q ∙ v.same p)
  ];
  sized = v.sized ∙ sym (length-remove path c.lru_list (v.same path ∙ ap is_some e));
  bounded = v.bounded;
}

-- The last file is closed.
pub closed_last :
    (c : FileCache) (left : List ℕ) (last : ℕ)
    → IsValid c
    → c.lru_list ≡ left ++ last ∷ []
    → IsValid (record { opened_files = erase last c.opened_files; lru_list = left })
closed_last c left last v e = record {
  distinct = erase-Distinct last c.opened_files v.distinct;
  no_repeat = apart.0;
  same = λ p. elim (ℕ_discrete last p) [
    | yes q ↦
        ap (λ i. occurs i left) (sym q)
        ∙ apart.1
        ∙ sym (
            ap is_some (
              ap (λ i. find i (erase last c.opened_files)) (sym q)
              ∙ find-erase_self last c.opened_files))
    | no q ↦
        let behind : occurs p c.lru_list ≡ (occurs p left || (last == p)) =
          ap (occurs p) e ∙ occurs-snoc p last left in
        let kept : occurs p left ≡ occurs p c.lru_list = ground arith in
        kept ∙ v.same p ∙ sym (ap is_some (find-erase_ne last p c.opened_files q))
  ];
  sized = omega (arith, shorter, v.sized, ap length e, length-append left (last ∷ []));
  bounded = omega (arith, shorter, v.bounded);
}
  where
    apart : NoRepeat left × (occurs last left ≡ false)
    apart = snoc-NoRepeat last left (subst NoRepeat e v.no_repeat)

    open_one : is_some (find last c.opened_files) ≡ true
    open_one = sym (v.same last) ∙ ap (occurs last) e ∙ occurs-snoc last last left ∙ ground arith

    shorter : suc (length (erase last c.opened_files)) ≡ length c.opened_files
    shorter = length-erase last c.opened_files v.distinct open_one

cleanup-IsValid :
    (n : ℕ) (c : FileCache)
    → IsValid c
    → IsValid (cleanup n c) × (length (cleanup n c).lru_list ≡ length c.lru_list - n)
unfolding cleanup
cleanup-IsValid zero c v = (v, omega arith)
cleanup-IsValid (suc n) c v = elim (Option-cases (split_last c.lru_list)) [
  | inl e ↦
      let empty : c.lru_list ≡ [] = split_last-none c.lru_list e in
      rw (e, cleanup) (v, omega (arith, ap length empty))
  | inr ((left, last), e) ↦
      let parts : c.lru_list ≡ left ++ last ∷ [] = split_last-append c.lru_list left last e in
      let (w, l) =
        cleanup-IsValid n (record { opened_files = erase last c.opened_files; lru_list = left })
          (closed_last c left last v parts) in
      rw (e, cleanup) (w, omega (arith, l, ap length parts, length-append left (last ∷ [])))
]

pub make_room-IsValid :
    (c : FileCache)
    → IsValid c
    → IsValid (make_room c) × (length (make_room c).opened_files < max_files)
unfolding make_room cleanup_old_files
make_room-IsValid c v = elim (Bool-cases (leb max_files (length c.opened_files))) [
  | inl e ↦
      let (w, l) = cleanup-IsValid cleanup_files c v in
      rw (e, make_room) (w, omega (arith, l, w.sized, v.sized, v.bounded))
  | inr e ↦ rw (e, make_room) (v, ground arith)
]
