-- ===== src/FileSystem/Leaf/Counts.antt =====
-- How many packets a leaf holds, before and after AddData and ExtractBlock.
use multi_threaded_socket.Common.{
  ℕ, ◌+◌, ◌-◌, ◌≤◌, ◌≡◌, refl, sym, ap, Option, none, some, List, [], ◌∷◌, ◌++◌, ◌/◌, arith, length,
  take, drop, length-append, take-append-drop, find, assign, erase, split_last, split_last-append,
  split_last-none, Bool-cases, Option-cases, inl, inr, ltb, leb, ◌==◌, ◌&&◌, subst, ok,
  some-injective, ◌∙◌,
}
use mathlib.Core.List.{append_assoc}
use multi_threaded_socket.FileSystem.Leaf.Reading.{View, find_range, pin_range, get_data}
use multi_threaded_socket.FileSystem.Leaf.Pinning.{get_data-keeps}
use multi_threaded_socket.FileSystem.Range.{Range, range_end, upper_bound, pin}
use multi_threaded_socket.FileSystem.Leaf.{Leaf, block_size}
use multi_threaded_socket.FileSystem.Leaf.Agreement.{upper_bound-append}
use multi_threaded_socket.FileSystem.Leaf.Data.{
  skipped_packets, insert_after, join_next, insert_first, skip_overlap, add_behind, add_apart,
  add_range, add_data, all_packets, extract_block,
}

abbrev pub range_packets : List Range → ℕ
range_packets [] = 0
range_packets (r ∷ ranges) = length r.packets + range_packets ranges

abbrev pub block_packets : List (ℕ × List Range) → ℕ
block_packets [] = 0
block_packets ((index, ranges) ∷ blocks) = range_packets ranges + block_packets blocks

abbrev pub cached_packets : Leaf → ℕ
cached_packets l = block_packets l.blocks

range_packets-append :
    (xs ys : List Range) → range_packets (xs ++ ys) ≡ range_packets xs + range_packets ys
range_packets-append [] ys = omega arith
range_packets-append (r ∷ xs) ys = omega (arith, range_packets-append xs ys)

pub length-all_packets : (ranges : List Range) → length (all_packets ranges) ≡ range_packets ranges
length-all_packets [] = refl
length-all_packets (r ∷ ranges) =
    omega (arith, length-append r.packets (all_packets ranges), length-all_packets ranges)

split_length : (n : ℕ) (ps : List (List ℕ)) → length (take n ps) + length (drop n ps) ≡ length ps
split_length n ps =
    omega (arith, length-append (take n ps) (drop n ps), ap length (take-append-drop n ps))

-- Of the packets that were held and those that came, these are held and those are given back.
abbrev Counted : List Range → List (List ℕ) → List Range × List (List ℕ) → Type 0
Counted ranges packets (held, back) =
    range_packets held + length back ≤ range_packets ranges + length packets

module _ (offset size : ℕ) (packets : List (List ℕ)) where
  insert_first-Counted :
      (after : List Range) → Counted after packets (insert_first after offset size packets)
  unfolding insert_first
  insert_first-Counted [] = omega arith
  insert_first-Counted (next ∷ after) = elim (Bool-cases (leb (range_end next) (offset + size))) [
    | inl e ↦ rw e (omega arith)
    | inr e ↦ rw e (omega arith)
  ]

  insert_after-Counted :
      (init : List Range) (prev : Range) (after : List Range)
      → range_packets (insert_after init prev after offset size packets)
        ≤ range_packets (init ++ prev ∷ after) + length packets
  unfolding insert_after
  insert_after-Counted init prev after = elim (Bool-cases (prev.offset == offset)) [
    | inl e ↦ rw e (omega arith)
    | inr e ↦ rw e (
        omega (
          arith,
          range_packets-append init (prev ∷ after),
          range_packets-append init (
              prev
              ∷ record { offset = offset; size = size; packets = packets; counter = 1 }
              ∷ after),
        ))
  ]

  skip_overlap-Counted :
      (init : List Range) (prev : Range) (after : List Range)
      → Counted (init ++ prev ∷ after) packets (skip_overlap init prev after offset size packets)
  unfolding skip_overlap
  skip_overlap-Counted init prev after =
      let n = skipped_packets prev offset in
      omega (
        arith,
        split_length n packets,
        length-append prev.packets (drop n packets),
        range_packets-append init (prev ∷ after),
        range_packets-append init (
            record prev {
              packets = prev.packets ++ drop n packets;
              size = prev.size + size - (range_end prev - offset);
            }
            ∷ after),
      )

  add_behind-Counted :
      (init : List Range) (prev : Range) (after : List Range)
      → Counted (init ++ prev ∷ after) packets (add_behind init prev after offset size packets)
  unfolding add_behind
  add_behind-Counted init prev after = elim (Bool-cases (range_end prev == offset)) [
    | inl e ↦ rw e (
        omega (
          arith,
          length-append prev.packets packets,
          range_packets-append init (prev ∷ after),
          range_packets-append init
              (record prev { packets = prev.packets ++ packets; size = prev.size + size } ∷ after),
        ))
    | inr e ↦ elim (Bool-cases (ltb offset (range_end prev) && ltb 1 (length prev.packets))) [
      | inl t ↦ rw (e, t) (skip_overlap-Counted init prev after)
      | inr t ↦ rw (e, t) (omega (arith, insert_after-Counted init prev after))
    ]
  ]

  add_apart-Counted :
      (before after : List Range)
      → Counted (before ++ after) packets (add_apart before after offset size packets)
  unfolding add_apart
  add_apart-Counted before after = elim (Option-cases (split_last before)) [
    | inl s ↦ rw (s, add_apart, split_last-none before s) (insert_first-Counted after)
    | inr ((init, prev), s) ↦
        let e : before ≡ init ++ prev ∷ [] = split_last-append before init prev s in
        rw (s, add_apart)
          (omega (
            arith,
            add_behind-Counted init prev after,
            range_packets-append before after,
            ap range_packets e,
            range_packets-append init (prev ∷ []),
            range_packets-append init (prev ∷ after),
          ))
  ]

  join_next-Counted :
      (before : List Range) (next : Range) (after : List Range)
      → range_packets (join_next before next after offset size packets)
        ≡ range_packets (before ++ next ∷ after) + length packets
  unfolding join_next
  join_next-Counted before next after = elim (Option-cases (split_last before)) [
    | inl s ↦
        rw (s, join_next, split_last-none before s)
          (omega (arith, length-append packets next.packets))
    | inr ((init, prev), s) ↦
        let e : before ≡ init ++ prev ∷ [] = split_last-append before init prev s in
        let counts = ap range_packets e in
        elim (Bool-cases (range_end prev == offset)) [
          | inl t ↦
              rw (s, join_next, t)
                (omega (
                  arith,
                  length-append packets next.packets,
                  length-append prev.packets (packets ++ next.packets),
                  range_packets-append before (next ∷ after),
                  counts,
                  range_packets-append init (prev ∷ []),
                  range_packets-append init (
                      record prev {
                        packets = prev.packets ++ (packets ++ next.packets);
                        size = prev.size + size + next.size;
                      }
                      ∷ after),
                ))
          | inr t ↦
              rw (s, join_next, t)
                (omega (
                  arith,
                  length-append packets next.packets,
                  range_packets-append before (next ∷ after),
                  range_packets-append before (
                      record next {
                        offset = offset;
                        size = next.size + size;
                        packets = packets ++ next.packets;
                      }
                      ∷ after),
                ))
        ]
  ]

  pub add_range-Counted :
      (ranges : List Range) → Counted ranges packets (add_range ranges offset size packets)
  unfolding add_range
  add_range-Counted ranges = by_case (upper_bound offset ranges).1 refl
    where
      before : List Range
      before = (upper_bound offset ranges).0

      by_case :
          (after : List Range)
          → (upper_bound offset ranges).1 ≡ after
          → Counted ranges packets (add_range ranges offset size packets)
      by_case [] a =
          let all : before ++ [] ≡ ranges =
            subst (λ l. before ++ l ≡ ranges) a (upper_bound-append offset ranges) in
          rw (a, add_range)
            (subst (λ l. Counted l packets (add_apart before [] offset size packets)) all
              (add_apart-Counted before []))
      by_case (next ∷ rest) a =
          let all : before ++ next ∷ rest ≡ ranges =
            subst (λ l. before ++ l ≡ ranges) a (upper_bound-append offset ranges) in
          elim (Bool-cases (next.offset == offset + size)) [
            | inl t ↦
                rw (a, add_range, t)
                  (omega (arith, join_next-Counted before next rest, ap range_packets all))
            | inr t ↦
                rw (a, add_range, t)
                  (subst
                    (λ l. Counted l packets (add_apart before (next ∷ rest) offset size packets))
                    all (add_apart-Counted before (next ∷ rest)))
          ]

-- A block put in, or in the place of another.
block_packets-assign_new :
    (index : ℕ) (ranges : List Range) (blocks : List (ℕ × List Range))
    → find index blocks ≡ none
    → block_packets (assign index ranges blocks) ≡ block_packets blocks + range_packets ranges
unfolding find assign
block_packets-assign_new index ranges [] e = omega arith
block_packets-assign_new index ranges ((k, old) ∷ blocks) e =
    ground (arith, block_packets-assign_new index ranges blocks)

block_packets-assign_old :
    (index : ℕ) (ranges old : List Range) (blocks : List (ℕ × List Range))
    → find index blocks ≡ some old
    → block_packets (assign index ranges blocks) + range_packets old
      ≡ block_packets blocks + range_packets ranges
unfolding find assign
block_packets-assign_old index ranges old [] e = cc
block_packets-assign_old index ranges old ((k, rs) ∷ blocks) e =
    ground (arith, block_packets-assign_old index ranges old blocks)

block_packets-erase_le :
    (index : ℕ) (blocks : List (ℕ × List Range))
    → block_packets (erase index blocks) ≤ block_packets blocks
unfolding erase
block_packets-erase_le index [] = omega arith
block_packets-erase_le index ((k, rs) ∷ blocks) =
    ground (arith, block_packets-erase_le index blocks)

block_packets-erase :
    (index : ℕ) (old : List Range) (blocks : List (ℕ × List Range))
    → find index blocks ≡ some old
    → block_packets (erase index blocks) + range_packets old ≤ block_packets blocks
unfolding find erase
block_packets-erase index old [] e = cc
block_packets-erase index old ((k, rs) ∷ blocks) e =
    ground (arith, block_packets-erase index old blocks, block_packets-erase_le index blocks)

-- AddData holds or gives back no more packets than were held and came.
pub add_data-cached_packets :
    (l : Leaf) (offset size : ℕ) (packets : List (List ℕ))
    → let (l', back) = add_data l offset size packets in
      cached_packets l' + length back ≤ cached_packets l + length packets
unfolding add_data
add_data-cached_packets l offset size packets =
    elim (Option-cases (find (offset / block_size) l.blocks)) [
      | inl e ↦
          rw (e, add_data)
            (omega (
              arith,
              block_packets-assign_new (offset / block_size)
                  (record { offset = offset; size = size; packets = packets; counter = 1 } ∷ [])
                  l.blocks e,
            ))
      | inr (ranges, e) ↦
          rw (e, add_data)
            (omega (
              arith,
              add_range-Counted offset size packets ranges,
              block_packets-assign_old (offset / block_size)
                  (add_range ranges offset size packets).0 ranges l.blocks e,
            ))
    ]

-- ExtractBlock takes out no more packets than are held.
pub extract_block-cached_packets :
    (l : Leaf) (index : ℕ)
    → let (l', offset, packets) = extract_block l index in
      cached_packets l' + length packets ≤ cached_packets l
unfolding extract_block
extract_block-cached_packets l index = elim (Option-cases (find index l.blocks)) [
  | inl e ↦ rw (e, extract_block) (omega arith)
  | inr (ranges, e) ↦
      rw (e, extract_block)
        (omega (arith, block_packets-erase index ranges l.blocks e, length-all_packets ranges))
]

pin_range-cached_packets :
    (l : Leaf) (offset : ℕ) (init : List Range) (r : Range) (after : List Range)
    → find_range l offset ≡ some (init, r, after)
    → cached_packets (pin_range l offset init r after) ≡ cached_packets l
unfolding find_range pin_range pin
pin_range-cached_packets l offset init r after e =
    elim (Option-cases (find (offset / block_size) l.blocks)) [
      | inl a ↦
          let absent : ◌≡◌ {A = Option (List Range × Range × List Range)} none
              (some (init, r, after)) =
            rw (a, find_range) at e in
          cc
      | inr (ranges, a) ↦ elim (Option-cases (split_last (upper_bound offset ranges).0)) [
        | inl s ↦
            let absent : ◌≡◌ {A = Option (List Range × Range × List Range)} none
                (some (init, r, after)) =
              rw (a, s, find_range) at e in
            cc
        | inr ((init', r'), s) ↦
            elim (Bool-cases (leb r'.offset offset && leb offset (range_end r'))) [
              | inl t ↦
                  let found : ◌≡◌ {A = Option (List Range × Range × List Range)}
                      (some (init', r', (upper_bound offset ranges).1)) (some (init, r, after)) =
                    rw (a, s, t, find_range) at e in
                  let whole : (upper_bound offset ranges).0 ≡ init' ++ r' ∷ [] =
                    split_last-append (upper_bound offset ranges).0 init' r' s in
                  let split : ranges ≡ init ++ r ∷ after =
                    sym (upper_bound-append offset ranges)
                    ∙ ap (λ x. x ++ (upper_bound offset ranges).1) whole
                    ∙ append_assoc init' (r' ∷ []) (upper_bound offset ranges).1
                    ∙ ap (λ (x : List Range × Range × List Range). x.0 ++ x.1 ∷ x.2)
                        (some-injective _ _ found) in
                  omega (
                    arith,
                    block_packets-assign_old (offset / block_size) (init ++ pin r ∷ after) ranges
                        l.blocks a,
                    ap range_packets split,
                    range_packets-append init (r ∷ after),
                    range_packets-append init (pin r ∷ after),
                  )
              | inr t ↦
                  let absent : ◌≡◌ {A = Option (List Range × Range × List Range)} none
                      (some (init, r, after)) =
                    rw (a, s, t, find_range) at e in
                  cc
            ]
      ]
    ]

-- GetData pins ranges, and keeps all packets.
pub get_data-cached_packets :
    (l : Leaf) (offset size : ℕ) (v : View)
    → get_data l offset size ≡ ok v
    → cached_packets v.leaf ≡ cached_packets l
get_data-cached_packets = get_data-keeps (λ l. cached_packets l) pin_range-cached_packets
