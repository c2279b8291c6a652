-- ===== src/FileSystem/Leaf/Eviction.antt =====
-- Which block Leaf::GetFirstBlockIndex picks for eviction, and what ExtractBlock takes out.
use multi_threaded_socket.Common.{
  ℕ, ◌/◌, ◌≤◌, ◌≡◌, ◌≢◌, ◌⊎◌, ◌∙◌, refl, sym, ap, min, true, false, Option, none, some, List, [],
  ◌∷◌, arith, subst, some-injective, leb, find, find-erase_self, find-erase_ne, Distinct,
  erase-Distinct, ok, All, All-map, All-nil, ℕ_discrete, Bool-cases, Option-cases, inl, inr, ◌==◌,
}
use multi_threaded_socket.FileSystem.Range.{Range}
use multi_threaded_socket.FileSystem.Leaf.{Leaf, block_size}
use multi_threaded_socket.FileSystem.Leaf.Data.{
  any_pinned, min_index, first_block_index, get_first_block_index, extract_block,
}
use multi_threaded_socket.FileSystem.Leaf.Reading.{View, get_data}
use multi_threaded_socket.FileSystem.Leaf.Agreement.{Agrees}
use multi_threaded_socket.FileSystem.Leaf.Bytes.{cached_byte, cached_found}
use multi_threaded_socket.FileSystem.Leaf.Pins.{HasPinned}
use multi_threaded_socket.FileSystem.Leaf.GetData.{get_data-Read}

-- A block that may go.
abbrev pub Evictable : List (ℕ × List Range) → ℕ → Type 0
Evictable blocks i =
    (ranges : List Range) × (find i blocks ≡ some ranges) × (any_pinned ranges ≡ false)

Evictable-cons :
    (k : ℕ) (ranges : List Range) (blocks : List (ℕ × List Range)) (i : ℕ)
    → find k blocks ≡ none
    → Evictable blocks i
    → Evictable ((k, ranges) ∷ blocks) i
unfolding find
Evictable-cons k ranges blocks i d (rs, e, p) = elim (Bool-cases (k == i)) [
  | inl t ↦
      let same : k ≡ i = ground arith in
      let gone : find i blocks ≡ none = ap (λ j. find j blocks) (sym same) ∙ d in cc
  | inr t ↦ (rs, rw t e, p)
]

Evictable-here :
    (ranges : List Range) (blocks : List (ℕ × List Range)) (i : ℕ)
    → any_pinned ranges ≡ false
    → Evictable ((i, ranges) ∷ blocks) i
unfolding find
Evictable-here ranges blocks i p = (ranges, ground arith, p)

first_block_index-Evictable :
    (blocks : List (ℕ × List Range)) (least : Option ℕ) (i : ℕ)
    → Distinct blocks
    → first_block_index blocks least ≡ some i
    → (least ≡ some i) ⊎ Evictable blocks i
unfolding first_block_index Distinct find
first_block_index-Evictable [] least i d e = inl e
first_block_index-Evictable ((k, ranges) ∷ blocks) least i d e =
    elim (Bool-cases (any_pinned ranges)) [
      | inl p ↦ elim (first_block_index-Evictable blocks least i d.1 (rw p at e)) [
        | inl h ↦ inl h
        | inr h ↦ inr (Evictable-cons k ranges blocks i d.0 h)
      ]
      | inr p ↦ elim (first_block_index-Evictable blocks (min_index least k) i d.1 (rw p at e)) [
        | inl h ↦ here least p h
        | inr h ↦ inr (Evictable-cons k ranges blocks i d.0 h)
      ]
    ]
  where
    here :
        (acc : Option ℕ)
        → any_pinned ranges ≡ false
        → min_index acc k ≡ some i
        → (acc ≡ some i) ⊎ Evictable ((k, ranges) ∷ blocks) i
    here none p h =
        let same : k ≡ i = some-injective _ _ h in
        inr (subst (Evictable ((k, ranges) ∷ blocks)) same (Evictable-here ranges blocks k p))
    here (some a) p h = elim (Bool-cases (leb a k)) [
      | inl t ↦ inl (ground arith)
      | inr t ↦
          let same : k ≡ i = ground arith in
          inr (subst (Evictable ((k, ranges) ∷ blocks)) same (Evictable-here ranges blocks k p))
    ]

first_block_index-least :
    (blocks : List (ℕ × List Range)) (least : Option ℕ) (i : ℕ)
    → first_block_index blocks least ≡ some i
    → ((a : ℕ) → least ≡ some a → i ≤ a) × ((j : ℕ) → Evictable blocks j → i ≤ j)
unfolding first_block_index find
first_block_index-least [] least i e = (
  (λ a h. let same : ◌≡◌ {A = Option ℕ} (some a) (some i) = sym h ∙ e in ground arith),
  (λ j (rs, h, p). cc),
)
first_block_index-least ((k, ranges) ∷ blocks) least i e = elim (Bool-cases (any_pinned ranges)) [
  | inl p ↦
      let (first, rest) = first_block_index-least blocks least i (rw p at e) in
      (
        first,
        λ j (rs, h, q). elim (Bool-cases (k == j)) [
          | inl t ↦ let same : ranges ≡ rs = some-injective _ _ (rw t at h) in cc
          | inr t ↦ rest j (rs, rw t at h, q)
        ],
      )
  | inr p ↦
      let (first, rest) = first_block_index-least blocks (min_index least k) i (rw p at e) in
      (
        below least first,
        λ j (rs, h, q). elim (Bool-cases (k == j)) [
          | inl t ↦ subst (λ m. i ≤ m) (equal j t) (here least first)
          | inr t ↦ rest j (rs, rw t at h, q)
        ],
      )
]
  where
    equal : (j : ℕ) → (k == j) ≡ true → k ≡ j
    equal j t = ground arith

    below :
        (acc : Option ℕ)
        → ((a : ℕ) → min_index acc k ≡ some a → i ≤ a)
        → (a : ℕ) → acc ≡ some a
        → i ≤ a
    below none first a h = cc
    below (some b) first a h =
        let bound : i ≤ min b k = first (min b k) refl in
        let same : b ≡ a = some-injective _ _ h in omega arith

    here : (acc : Option ℕ) → ((a : ℕ) → min_index acc k ≡ some a → i ≤ a) → i ≤ k
    here none first = first k refl
    here (some b) first = let bound : i ≤ min b k = first (min b k) refl in omega arith

-- The block that GetFirstBlockIndex returns is there, with none of its ranges pinned, and has the
-- smallest index of the blocks of which no range is pinned.
pub get_first_block_index-least :
    (l : Leaf) (i : ℕ)
    → Distinct l.blocks
    → get_first_block_index l ≡ some i
    → Evictable l.blocks i × ((j : ℕ) → Evictable l.blocks j → i ≤ j)
unfolding get_first_block_index
get_first_block_index-least l i d e = (
  elim (first_block_index-Evictable l.blocks none i d e) [ inl h ↦ cc | inr h ↦ h ],
  (first_block_index-least l.blocks none i e).1,
)

pinned_stays :
    (l : Leaf) (i : ℕ) → Distinct l.blocks → HasPinned l i → get_first_block_index l ≢ some i
pinned_stays l i d (ranges, e, p) h =
    let (ranges', e', p') = (get_first_block_index-least l i d h).0 in
    let same : ranges ≡ ranges' = some-injective _ _ (sym e ∙ e') in cc

-- When the blocks of a cache that agrees with a file have distinct indices, the block of no range
-- that GetData pinned is picked for eviction in the cache that it leaves.
pub get_data-pinned :
    (file : ℕ → ℕ) (l : Leaf) (offset size : ℕ) (v : View)
    → Agrees file l
    → Distinct l.blocks
    → get_data l offset size ≡ ok v
    → All (λ (p : ℕ × ℕ). get_first_block_index v.leaf ≢ some p.0) v.pinned
get_data-pinned file l offset size v h d e =
    let (v', e', read) = get_data-Read file l offset size h in
    let same : v' ≡ v = ok-injective (sym e' ∙ e) in
    subst (λ w. All (λ (p : ℕ × ℕ). get_first_block_index w.leaf ≢ some p.0) w.pinned) same
      (let held = read.held (record { distinct = d; held = nothing_pinned }) in
        All-map (λ (p : ℕ × ℕ). HasPinned v'.leaf p.0)
          (λ (p : ℕ × ℕ). get_first_block_index v'.leaf ≢ some p.0)
          (λ p. pinned_stays v'.leaf p.0 held.distinct) v'.pinned held.held)
  where
    nothing_pinned : All (λ (p : ℕ × ℕ). HasPinned l p.0) []
    nothing_pinned = All-nil (λ (p : ℕ × ℕ). HasPinned l p.0)

    ok-injective : {w w' : View} → ok w ≡ ok w' → w ≡ w'
    ok-injective q = cc

module _ (l : Leaf) (index : ℕ) where
  extracted_gone : find index (extract_block l index).0.blocks ≡ none
  unfolding extract_block
  extracted_gone = elim (Option-cases (find index l.blocks)) [
    | inl e ↦ rw (e, extract_block) e
    | inr (ranges, e) ↦ rw (e, extract_block) (find-erase_self index l.blocks)
  ]

  extracted_ne : (j : ℕ) → index ≢ j → find j (extract_block l index).0.blocks ≡ find j l.blocks
  unfolding extract_block
  extracted_ne j q = elim (Option-cases (find index l.blocks)) [
    | inl e ↦ rw (e, extract_block) refl
    | inr (ranges, e) ↦ rw (e, extract_block) (find-erase_ne index j l.blocks q)
  ]

  extracted-Distinct : Distinct l.blocks → Distinct (extract_block l index).0.blocks
  unfolding extract_block
  extracted-Distinct d = elim (Option-cases (find index l.blocks)) [
    | inl e ↦ rw (e, extract_block) d
    | inr (ranges, e) ↦ rw (e, extract_block) (erase-Distinct index l.blocks d)
  ]

-- When ExtractBlock takes a block out of a cache that agrees with a file, what is left agrees with
-- the file, holds no byte of that block, and of the other blocks the bytes that it held; the indices
-- stay distinct.
pub extract_block_lem :
    (file : ℕ → ℕ) (l : Leaf) (index : ℕ)
    → Agrees file l
    → Distinct l.blocks
    → Agrees file (extract_block l index).0
      × Distinct (extract_block l index).0.blocks
      × ((o : ℕ) → o / block_size ≡ index → cached_byte (extract_block l index).0 o ≡ none)
      × ((o : ℕ)
          → o / block_size ≢ index
          → cached_byte (extract_block l index).0 o ≡ cached_byte l o)
unfolding Agrees cached_byte
extract_block_lem file l index h d = (
  (λ j found k. elim (ℕ_discrete index j) [
    | yes q ↦
        let gone : find j (extract_block l index).0.blocks ≡ none =
          ap (λ i. find i (extract_block l index).0.blocks) (sym q) ∙ extracted_gone l index in
        cc
    | no q ↦ h j found (sym (extracted_ne l index j q) ∙ k)
  ]),
  extracted-Distinct l index d,
  (λ o q.
      rw (ap (λ i. find i (extract_block l index).0.blocks) q ∙ extracted_gone l index, cached_byte)
        refl),
  (λ o q.
      cached_found (extract_block l index).0 l o
        (extracted_ne l index (o / block_size) (λ r. q (sym r)))),
)
