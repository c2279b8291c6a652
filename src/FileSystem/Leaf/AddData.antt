-- ===== src/FileSystem/Leaf/AddData.antt =====
-- Leaf::AddData keeps the cache in agreement with the file.
use multi_threaded_socket.Common.{
  ℕ, ◌+◌, ◌-◌, ◌/◌, ◌≤◌, ◌<◌, ◌≡◌, ◌⊎◌, ◌∙◌, refl, sym, ap, some, List, [], ◌∷◌, ◌++◌, arith,
  length, take, drop, find, split_last, split_last-append, All, All-append, All-left, All-right,
  All-last, All-single, All-replace, Bool-cases, Option-cases, inl, inr, ltb, leb, ◌==◌, ◌&&◌,
  subst,
}
use mathlib.Core.List.{append_assoc}
use multi_threaded_socket.MultiList.{concat}
use multi_threaded_socket.FileSystem.Range.{Range, new_range, range_end, upper_bound}
use multi_threaded_socket.FileSystem.Range.Slice.{slice, slice_eq}
use multi_threaded_socket.FileSystem.Leaf.{Leaf, block_size}
use multi_threaded_socket.FileSystem.Leaf.Data.{
  skipped_packets, insert_after, join_next, insert_first, skip_overlap, add_behind, add_apart,
  add_range, add_data,
}
use multi_threaded_socket.FileSystem.Leaf.Agreement.{
  Holds, Agrees, assign-Agrees, Agrees-find, contents_append, contents_drop, length_contents,
  upper_bound-append, upper_bound-le,
}

-- The range does not reach beyond where the data begins, or has one packet, or the packets that it
-- makes superfluous are as long as what it has beyond that.
unfoldable pub Fits : ℕ → List (List ℕ) → Range → Type 0
Fits offset packets r =
    (range_end r ≤ offset)
    ⊎ (offset < r.offset)
    ⊎ (length r.packets ≤ 1)
    ⊎ (length (concat (take (skipped_packets r offset) packets)) ≡ range_end r - offset)

module _ (file : ℕ → ℕ) (offset size : ℕ) (packets : List (List ℕ))
    (contents : concat packets ≡ slice file offset size) (filled : 0 < size) where
  new_range-Holds : Holds file (new_range offset size packets)
  new_range-Holds = record { contents = contents; filled = filled; counted = omega arith }

  insert_after-All :
      (init : List Range) (prev : Range) (after : List Range)
      → All (Holds file) (init ++ prev ∷ after)
      → All (Holds file) (insert_after init prev after offset size packets)
  unfolding insert_after All
  insert_after-All init prev after h = elim (Bool-cases (prev.offset == offset)) [
    | inl e ↦ rw e h
    | inr e ↦ rw e (
        All-append (Holds file) init (prev ∷ new_range offset size packets ∷ after)
          (All-left (Holds file) init (prev ∷ after) h) (k.0, (new_range-Holds, k.1)))
  ]
    where
      k : All (Holds file) (prev ∷ after)
      k = All-right (Holds file) init (prev ∷ after) h

  next_contents :
      (next : Range)
      → next.offset ≡ offset + size
      → Holds file next
      → concat (packets ++ next.packets) ≡ slice file offset (size + next.size)
  next_contents next e h =
      contents_append file packets next.packets offset size next.size contents
        (h.contents ∙ slice_eq file e refl)

  joined-Holds :
      (next : Range)
      → next.offset ≡ offset + size
      → Holds file next
      → Holds file (record next {
        offset = offset;
        size = next.size + size;
        packets = packets ++ next.packets;
      })
  joined-Holds next e h = record {
    contents = next_contents next e h ∙ slice_eq file refl (omega arith);
    filled = omega arith;
    counted = h.counted;
  }

  both-Holds :
      (prev next : Range)
      → next.offset ≡ offset + size
      → range_end prev ≡ offset
      → Holds file prev
      → Holds file next
      → Holds file (record prev {
        packets = prev.packets ++ (packets ++ next.packets);
        size = prev.size + size + next.size;
      })
  both-Holds prev next e e' h k = record {
    contents =
        contents_append file prev.packets (packets ++ next.packets) prev.offset prev.size
          (size + next.size) h.contents (next_contents next e k ∙ slice_eq file (sym e') refl)
        ∙ slice_eq file refl (omega arith);
    filled = omega arith;
    counted = h.counted;
  }

  join_next-All :
      (before : List Range) (next : Range) (after : List Range)
      → next.offset ≡ offset + size
      → All (Holds file) before
      → All (Holds file) (next ∷ after)
      → All (Holds file) (join_next before next after offset size packets)
  unfolding All join_next
  join_next-All before next after e h k = elim (Option-cases (split_last before)) [
    | inl s ↦ rw (s, join_next) (joined-Holds next e k.0, k.1)
    | inr ((init, prev), s) ↦
        let hs : All (Holds file) (init ++ prev ∷ []) =
          subst (All (Holds file)) (split_last-append before init prev s) h in
        elim (Bool-cases (range_end prev == offset)) [
          | inl t ↦
              rw (s, t, join_next)
                (All-append (Holds file) init (_ ∷ after)
                  (All-left (Holds file) init (prev ∷ []) hs)
                  (
                    both-Holds prev next e (ground arith)
                        (All-right (Holds file) init (prev ∷ []) hs).0 k.0,
                    k.1,
                  ))
          | inr t ↦
              rw (s, t, join_next)
                (All-append (Holds file) before (_ ∷ after) h (joined-Holds next e k.0, k.1))
        ]
  ]

  insert_first-All :
      (ranges : List Range)
      → All (Holds file) ranges
      → All (Holds file) (insert_first ranges offset size packets).0
  unfolding insert_first All
  insert_first-All [] h = (new_range-Holds, h)
  insert_first-All (next ∷ after) h = elim (Bool-cases (leb (range_end next) (offset + size))) [
    | inl e ↦ rw e (new_range-Holds, h.1)
    | inr e ↦ rw e (new_range-Holds, h)
  ]

  skipped-Holds :
      (prev : Range)
      → prev.offset ≤ offset
      → offset < range_end prev
      → length (concat (take (skipped_packets prev offset) packets)) ≡ range_end prev - offset
      → Holds file prev
      → Holds file (record prev {
        packets = prev.packets ++ drop (skipped_packets prev offset) packets;
        size = prev.size + size - (range_end prev - offset);
      })
  skipped-Holds prev at inside e h = record {
    contents =
        contents_append file prev.packets (drop n packets) prev.offset prev.size
          (size - (range_end prev - offset)) h.contents
          (contents_drop file n packets offset size (range_end prev - offset) contents e
            ∙ slice_eq file (omega arith) refl)
        ∙ slice_eq file refl (omega (arith, short));
    filled = omega (arith, h.filled);
    counted = h.counted;
  }
    where
      n : ℕ
      n = skipped_packets prev offset

      short : length (concat (take n packets)) ≤ size
      short = length_contents file n packets offset size contents

  behind-Holds :
      (prev : Range)
      → range_end prev ≡ offset
      → Holds file prev
      → Holds file (record prev { packets = prev.packets ++ packets; size = prev.size + size })
  behind-Holds prev e h = record {
    contents =
        contents_append file prev.packets packets prev.offset prev.size size h.contents
          (contents ∙ slice_eq file (sym e) refl);
    filled = omega (arith, h.filled);
    counted = h.counted;
  }

  add_behind-All :
      (init : List Range) (prev : Range) (after : List Range)
      → prev.offset ≤ offset
      → Fits offset packets prev
      → All (Holds file) (init ++ prev ∷ after)
      → All (Holds file) (add_behind init prev after offset size packets).0
  unfolding add_behind skip_overlap Fits
  add_behind-All init prev after at fits h = elim (Bool-cases (range_end prev == offset)) [
    | inl e ↦ rw e (All-replace (Holds file) init after prev _ h (behind-Holds prev (ground arith)))
    | inr e ↦ elim (Bool-cases (ltb offset (range_end prev) && ltb 1 (length prev.packets))) [
      | inl t ↦
          rw (e, t)
            (All-replace (Holds file) init after prev _ h
              (skipped-Holds prev at (ground arith) (ground arith)))
      | inr t ↦ rw (e, t) (insert_after-All init prev after h)
    ]
  ]

  add_apart-All :
      (before after : List Range)
      → All (λ r. r.offset ≤ offset) before
      → All (Fits offset packets) before
      → All (Holds file) (before ++ after)
      → All (Holds file) (add_apart before after offset size packets).0
  unfolding add_apart
  add_apart-All before after at fits h = elim (Option-cases (split_last before)) [
    | inl s ↦ rw (s, add_apart) (insert_first-All after (All-right (Holds file) before after h))
    | inr ((init, prev), s) ↦
        let e : before ≡ init ++ prev ∷ [] = split_last-append before init prev s in
        rw (s, add_apart)
          (add_behind-All init prev after
            (All-last (λ r. r.offset ≤ offset) init prev
              (subst (All (λ r. r.offset ≤ offset)) e at))
            (All-last (Fits offset packets) init prev (subst (All (Fits offset packets)) e fits))
            (subst (All (Holds file)) (ap (λ l. l ++ after) e ∙ append_assoc init (prev ∷ []) after)
              h))
  ]

  add_range-All :
      (ranges : List Range)
      → All (Fits offset packets) ranges
      → All (Holds file) ranges
      → All (Holds file) (add_range ranges offset size packets).0
  unfolding add_range
  add_range-All ranges fits h = by_case (upper_bound offset ranges).1 refl
    where
      before : List Range
      before = (upper_bound offset ranges).0

      e : before ++ (upper_bound offset ranges).1 ≡ ranges
      e = upper_bound-append offset ranges

      at : All (λ r. r.offset ≤ offset) before
      at = upper_bound-le offset ranges

      fits' : All (Fits offset packets) before
      fits' =
          All-left (Fits offset packets) before (upper_bound offset ranges).1
            (subst (All (Fits offset packets)) (sym e) fits)

      h' : All (Holds file) (before ++ (upper_bound offset ranges).1)
      h' = subst (All (Holds file)) (sym e) h

      h'' :
          (next : Range) (rest : List Range)
          → (upper_bound offset ranges).1 ≡ next ∷ rest
          → All (Holds file) (before ++ next ∷ rest)
      h'' next rest a = subst (λ l. All (Holds file) (before ++ l)) a h'

      by_case :
          (after : List Range)
          → (upper_bound offset ranges).1 ≡ after
          → All (Holds file) (add_range ranges offset size packets).0
      by_case [] a =
          rw (a, add_range)
            (add_apart-All before [] at fits' (subst (λ l. All (Holds file) (before ++ l)) a h'))
      by_case (next ∷ rest) a = elim (Bool-cases (next.offset == offset + size)) [
        | inl t ↦
            rw (a, t, add_range)
              (join_next-All before next rest (ground arith)
                (All-left (Holds file) before (next ∷ rest) (h'' next rest a))
                (All-right (Holds file) before (next ∷ rest) (h'' next rest a)))
        | inr t ↦
            rw (a, t, add_range) (add_apart-All before (next ∷ rest) at fits' (h'' next rest a))
      ]

  -- When the cache agrees with a file, and data of that file comes that fits the ranges of its
  -- block (it does not begin inside a range of several packets, or the packets that are skipped are
  -- as long as the overlap), the cache that AddData leaves agrees with the file.
  pub add_data-Agrees :
      (l : Leaf)
      → Agrees file l
      → ((ranges : List Range)
          → find (offset / block_size) l.blocks ≡ some ranges
          → All (Fits offset packets) ranges)
      → Agrees file (add_data l offset size packets).0
  unfolding add_data
  add_data-Agrees l h fits = elim (Option-cases (find (offset / block_size) l.blocks)) [
    | inl e ↦
        rw (e, add_data)
          (assign-Agrees file l (offset / block_size) (new_range offset size packets ∷ []) h
            (All-single (Holds file) new_range-Holds) _ refl)
    | inr (ranges, e) ↦
        rw (e, add_data)
          (assign-Agrees file l (offset / block_size) (add_range ranges offset size packets).0 h
            (add_range-All ranges (fits ranges e) (Agrees-find file l h _ ranges e)) _ refl)
  ]
