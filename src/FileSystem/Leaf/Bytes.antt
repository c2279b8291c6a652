-- ===== src/FileSystem/Leaf/Bytes.antt =====
-- The byte that a cache holds at an offset, as an independent description of what it can read.
use multi_threaded_socket.Common.{
  ℕ, ◌-◌, ◌/◌, ◌≤◌, ◌≡◌, ◌∙◌, refl, sym, ap, Option, none, some, List, [], ◌∷◌, ◌++◌, arith,
  get_elem?, get_elem?-none, length, All, All-last, All-middle, All-replace, subst, leb, ◌&&◌, find,
  assign, find-assign_self, find-assign_ne, ℕ_discrete, split_last, split_last-cons,
  split_last-append, Bool-cases, Option-cases, inl, inr, ltb, if◌then◌else◌,
}
use mathlib.Core.List.{append_assoc}
use multi_threaded_socket.MultiList.{concat}
use multi_threaded_socket.FileSystem.Range.Slice.{length-slice}
use multi_threaded_socket.FileSystem.Range.{Range, range_end, pin, upper_bound}
use multi_threaded_socket.FileSystem.Leaf.{Leaf, block_size}
use multi_threaded_socket.FileSystem.Leaf.Reading.{find_range, pin_range}
use multi_threaded_socket.FileSystem.Leaf.Agreement.{
  Holds, Agrees, Agrees-find, assign-Agrees, upper_bound-append, upper_bound-le,
}

abbrev pub byte_of : Range → ℕ → Option ℕ
byte_of r offset = get_elem? (concat r.packets) (offset - r.offset)

-- The byte in the last of the ranges that begin at the offset or in front of it.
unfoldable pub byte_in : ℕ → Option ℕ → List Range → Option ℕ
byte_in offset byte [] = byte
byte_in offset byte (r ∷ ranges) =
    let rest = byte_in offset (byte_of r offset) ranges in
    if ltb offset r.offset then byte else rest

unfoldable pub cached_byte : Leaf → ℕ → Option ℕ
cached_byte l offset = elim (find (offset / block_size) l.blocks) [
  | none ↦ none
  | some ranges ↦ byte_in offset none ranges
]

byte_in-pin :
    (offset : ℕ) (byte : Option ℕ) (init : List Range) (r : Range) (after : List Range)
    → byte_in offset byte (init ++ pin r ∷ after) ≡ byte_in offset byte (init ++ r ∷ after)
unfolding byte_in pin
byte_in-pin offset byte [] r after = refl
byte_in-pin offset byte (x ∷ init) r after =
    ap (λ rest. if ltb offset x.offset then byte else rest)
      (byte_in-pin offset (byte_of x offset) init r after)

byte_in-upper_bound :
    (offset : ℕ) (byte : Option ℕ) (ranges : List Range)
    → byte_in offset byte ranges ≡ elim (split_last (upper_bound offset ranges).0) [
      | none ↦ byte
      | some (init, r) ↦ byte_of r offset
    ]
unfolding byte_in upper_bound
byte_in-upper_bound offset byte [] = refl
byte_in-upper_bound offset byte (r ∷ ranges) = elim (Bool-cases (ltb offset r.offset)) [
  | inl e ↦ rw e refl
  | inr e ↦
      rw
        (
          e,
          split_last-cons r (upper_bound offset ranges).0,
          byte_in-upper_bound offset (byte_of r offset) ranges,
        )
        (elim (Option-cases (split_last (upper_bound offset ranges).0)) [
          | inl s ↦ rw s refl
          | inr (p, s) ↦ rw s refl
        ])
]

-- What the lookup finds, and what it does not.
pub record Found (l : Leaf) (offset : ℕ) (init : List Range) (r : Range) (after : List Range)
    : Type 0 where
  pub block : find (offset / block_size) l.blocks ≡ some (init ++ r ∷ after)
  pub from : r.offset ≤ offset
  pub to : offset ≤ range_end r
  pub byte : cached_byte l offset ≡ byte_of r offset

pub data Lookup (file : ℕ → ℕ) (l : Leaf) (offset : ℕ)
    : Option (List Range × Range × List Range) → Type 0 where
  missing : cached_byte l offset ≡ none → Lookup file l offset none
  present :
      (init : List Range) (r : Range) (after : List Range)
      → Found l offset init r after
      → Holds file r
      → Lookup file l offset (some (init, r, after))

-- A range that ends in front of the offset has no byte there.
byte_of-none :
    (file : ℕ → ℕ) (r : Range) (offset : ℕ)
    → Holds file r
    → range_end r ≤ offset
    → byte_of r offset ≡ none
byte_of-none file r offset h b =
    get_elem?-none (concat r.packets) (offset - r.offset)
      (omega (arith, ap length h.contents, length-slice file r.offset r.size))

module _ (file : ℕ → ℕ) (l : Leaf) (offset : ℕ) (h : Agrees file l) where
  module _ (ranges : List Range) (e : find (offset / block_size) l.blocks ≡ some ranges) where
    before : List Range
    before = (upper_bound offset ranges).0

    block_byte : cached_byte l offset ≡ elim (split_last (upper_bound offset ranges).0) [
      | none ↦ none
      | some (init, r) ↦ byte_of r offset
    ]
    unfolding cached_byte
    block_byte = rw (e, cached_byte) (byte_in-upper_bound offset none ranges)

    last_range :
        (init : List Range) (r : Range)
        → split_last (upper_bound offset ranges).0 ≡ some (init, r)
        → (ranges ≡ init ++ r ∷ (upper_bound offset ranges).1)
          × (r.offset ≤ offset)
          × Holds file r
          × (cached_byte l offset ≡ byte_of r offset)
    last_range init r s = (
      same,
      All-last (λ x. x.offset ≤ offset) init r
          (subst (All (λ x. x.offset ≤ offset)) ends (upper_bound-le offset ranges)),
      All-middle (Holds file) init r (upper_bound offset ranges).1
          (subst (All (Holds file)) same (Agrees-find file l h (offset / block_size) ranges e)),
      block_byte ∙ rw s refl,
    )
      where
        ends : (upper_bound offset ranges).0 ≡ init ++ r ∷ []
        ends = split_last-append (upper_bound offset ranges).0 init r s

        same : ranges ≡ init ++ r ∷ (upper_bound offset ranges).1
        same =
            sym (upper_bound-append offset ranges)
            ∙ ap (λ b. b ++ (upper_bound offset ranges).1) ends
            ∙ append_assoc init (r ∷ []) (upper_bound offset ranges).1

  pub find_range-Lookup : Lookup file l offset (find_range l offset)
  unfolding find_range cached_byte
  find_range-Lookup = elim (Option-cases (find (offset / block_size) l.blocks)) [
    | inl e ↦ rw (e, find_range) (missing (rw (e, cached_byte) refl))
    | inr (ranges, e) ↦ elim (Option-cases (split_last (upper_bound offset ranges).0)) [
      | inl s ↦ rw (e, s, find_range) (missing (block_byte ranges e ∙ rw s refl))
      | inr ((init, r), s) ↦
          let (same, at, holds, byte) = last_range ranges e init r s in
          elim (Bool-cases (leb r.offset offset && leb offset (range_end r))) [
            | inl t ↦
                rw (e, s, t, find_range)
                  (present init r (upper_bound offset ranges).1
                    (record { block = e ∙ ap some same; from = at; to = ground arith; byte = byte })
                    holds)
            | inr t ↦
                rw (e, s, t, find_range)
                  (missing (byte ∙ byte_of-none file r offset holds (ground arith)))
          ]
    ]
  ]

-- The bytes are those of the block.
pub cached_found :
    (l l' : Leaf) (o : ℕ)
    → find (o / block_size) l.blocks ≡ find (o / block_size) l'.blocks
    → cached_byte l o ≡ cached_byte l' o
unfolding cached_byte
cached_found l l' o e =
    ap (λ found. elim found [ none ↦ none | some ranges ↦ byte_in o none ranges ]) e

cached_some :
    (l : Leaf) (o : ℕ) (ranges : List Range)
    → find (o / block_size) l.blocks ≡ some ranges
    → cached_byte l o ≡ byte_in o none ranges
unfolding cached_byte
cached_some l o ranges e = rw (e, cached_byte) refl

-- Pinning a range changes no byte, and keeps the agreement.
module _ {l : Leaf} {offset : ℕ} {init : List Range} {r : Range} {after : List Range} where
  pub pin_range-byte :
      Found l offset init r after
      → (o : ℕ) → cached_byte (pin_range l offset init r after) o ≡ cached_byte l o
  unfolding pin_range
  pin_range-byte f o = elim (ℕ_discrete (offset / block_size) (o / block_size)) [
    | yes p ↦
        let there : find (o / block_size)
              (assign (offset / block_size) (init ++ pin r ∷ after) l.blocks)
            ≡ some (init ++ pin r ∷ after) =
          ap (λ i. find i (assign (offset / block_size) (init ++ pin r ∷ after) l.blocks)) (sym p)
          ∙ find-assign_self (offset / block_size) (init ++ pin r ∷ after) l.blocks in
        let was : find (o / block_size) l.blocks ≡ some (init ++ r ∷ after) =
          ap (λ i. find i l.blocks) (sym p) ∙ f.block in
        cached_some (pin_range l offset init r after) o (init ++ pin r ∷ after) there
        ∙ byte_in-pin o none init r after
        ∙ sym (cached_some l o (init ++ r ∷ after) was)
    | no p ↦
        cached_found (pin_range l offset init r after) l o
          (find-assign_ne (offset / block_size) (o / block_size) (init ++ pin r ∷ after) l.blocks p)
  ]

  pub pin_range-Agrees :
      (file : ℕ → ℕ)
      → Found l offset init r after
      → Agrees file l
      → Agrees file (pin_range l offset init r after)
  unfolding pin_range pin
  pin_range-Agrees file f h =
      assign-Agrees file l (offset / block_size) (init ++ pin r ∷ after) h
        (All-replace (Holds file) init after r (pin r)
          (Agrees-find file l h (offset / block_size) (init ++ r ∷ after) f.block) pinned)
        (pin_range l offset init r after) refl
    where
      pinned : Holds file r → Holds file (pin r)
      pinned k = record {
        contents = k.contents;
        filled = k.filled;
        counted = omega (arith, k.counted);
      }
