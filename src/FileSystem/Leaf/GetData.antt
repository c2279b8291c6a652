-- ===== src/FileSystem/Leaf/GetData.antt =====
-- What Leaf::GetData reads: the bytes of the file, up to the first that is not in the cache.
use multi_threaded_socket.Common.{
  ℕ, zero, suc, ◌+◌, ◌-◌, ◌≤◌, ◌<◌, ◌≡◌, ◌⊎◌, ◌∙◌, refl, sym, ap, ap₂, min, Option, none, some,
  List, [], ◌∷◌, ◌++◌, ◌/◌, arith, length, take, drop, get_elem?-none, Bool-cases, inl, inr, leb,
  Result, ok, err,
}
use mathlib.Core.List.{append-nil, append_assoc}
use multi_threaded_socket.MultiList.{concat}
use multi_threaded_socket.FileSystem.Range.{Range}
use multi_threaded_socket.FileSystem.Range.Slice.{
  slice, slice_eq, slice_append, length-slice, drop-slice, take-slice, concat-append,
}
use multi_threaded_socket.FileSystem.Leaf.{Leaf, block_size}
use multi_threaded_socket.FileSystem.Leaf.Reading.{
  View, skip_packets, take_spans, total_size, find_range, pin_range, read_packets, read_rounds,
  get_data,
}
use multi_threaded_socket.FileSystem.Leaf.Agreement.{Holds, Agrees}
use multi_threaded_socket.FileSystem.Leaf.Pins.{IsHeld, pin_range-IsHeld}
use multi_threaded_socket.FileSystem.Leaf.Bytes.{
  byte_of, cached_byte, Found, Lookup, missing, present, find_range-Lookup, pin_range-byte,
  pin_range-Agrees,
}
use multi_threaded_socket.FileSystem.Leaf.Spans.{
  total_size-concat, take_spans-concat, total_size-append, Skipped, past, at, skip_packets-Skipped,
}

module _ (file : ℕ → ℕ) where
  -- What a round reads of a range that holds the byte at `offset`.
  round_contents :
      (r : Range) (offset n : ℕ) (first : List ℕ) (rest : List (List ℕ))
      → Holds file r
      → r.offset ≤ offset
      → first ++ concat rest ≡ drop (offset - r.offset) (concat r.packets)
      → concat (take_spans n (first ∷ rest))
        ≡ slice file offset (min n (r.size - (offset - r.offset)))
  round_contents r offset n first rest h from e =
      take_spans-concat n (first ∷ rest)
      ∙ ap (take n) (
          e
          ∙ ap (drop (offset - r.offset)) h.contents
          ∙ drop-slice file r.offset (offset - r.offset) r.size
          ∙ slice_eq file (omega arith) refl)
      ∙ take-slice file offset n (r.size - (offset - r.offset))

  -- `v` is what a read of `want` bytes gives, from the view `u` on.
  pub record Read (u : View) (offset want : ℕ) (v : View) : Type 0 where
    pub new : List (List ℕ)
    pub spans : v.spans ≡ u.spans ++ new
    pub contents : concat new ≡ slice file offset (total_size new)
    pub within : total_size new ≤ want
    pub stopped : (total_size new ≡ want) ⊎ (cached_byte u.leaf (offset + total_size new) ≡ none)
    pub agrees : Agrees file v.leaf
    pub same : (o : ℕ) → cached_byte v.leaf o ≡ cached_byte u.leaf o
    pub held : IsHeld u → IsHeld v

  no_more :
      (u : View) (offset want : ℕ) (v : View)
      → v.spans ≡ u.spans
      → Agrees file v.leaf
      → (want ≡ 0) ⊎ (cached_byte u.leaf offset ≡ none)
      → ((o : ℕ) → cached_byte v.leaf o ≡ cached_byte u.leaf o)
      → (IsHeld u → IsHeld v)
      → Read u offset want v
  unfolding slice
  no_more u offset want v e h why same held = record {
    new = [];
    spans = e ∙ sym (append-nil u.spans);
    contents = refl;
    within = omega arith;
    stopped = elim why [ inl e ↦ inl (sym e) | inr e ↦ inr (ap (cached_byte u.leaf) here ∙ e) ];
    agrees = h;
    same = same;
    held = held;
  }
    where
      here : offset + 0 ≡ offset
      here = omega arith

  one_more :
      (u w : View) (offset want : ℕ) (round : List (List ℕ)) (v : View)
      → w.spans ≡ u.spans ++ round
      → ((o : ℕ) → cached_byte w.leaf o ≡ cached_byte u.leaf o)
      → (IsHeld u → IsHeld w)
      → concat round ≡ slice file offset (total_size round)
      → total_size round ≤ want
      → Read w (offset + total_size round) (want - total_size round) v
      → Read u offset want v
  one_more u w offset want round v more same held e within r = record {
    new = round ++ r.new;
    spans = r.spans ∙ ap (λ s. s ++ r.new) more ∙ append_assoc u.spans round r.new;
    contents =
        concat-append round r.new
        ∙ ap₂ ◌++◌ e r.contents
        ∙ slice_append file offset (total_size round) (total_size r.new)
        ∙ slice_eq file refl (sym both);
    within = omega (arith, r.within, both);
    stopped = elim r.stopped [
      | inl k ↦ inl (omega (arith, both))
      | inr k ↦ inr (
          ap (cached_byte u.leaf) there
          ∙ sym (same (offset + total_size round + total_size r.new))
          ∙ k)
    ];
    agrees = r.agrees;
    same = λ o. r.same o ∙ same o;
    held = λ h. r.held (held h);
  }
    where
      both : total_size (round ++ r.new) ≡ total_size round + total_size r.new
      both = total_size-append round r.new

      there : offset + total_size (round ++ r.new) ≡ offset + total_size round + total_size r.new
      there = omega (arith, both)

  abbrev ReadsOn : ℕ → View → ℕ → ℕ → Type 0
  ReadsOn fuel u offset want =
      (v : View) × (read_rounds fuel u offset want ≡ ok v) × Read u offset want v

  -- What the packets of a range give.
  data Packets (r : Range) (offset n : ℕ) : Result (Option (List (List ℕ))) → Type 0 where
    beyond : byte_of r offset ≡ none → Packets r offset n (ok none)
    round :
        (spans : List (List ℕ))
        → concat spans ≡ slice file offset (total_size spans)
        → total_size spans ≤ n
        → 0 < total_size spans
        → Packets r offset n (ok (some spans))

  skipped_packets :
      (r : Range) (offset n : ℕ) (q : List ℕ) (qs : List (List ℕ))
      → Holds file r
      → r.offset ≤ offset
      → r.packets ≡ q ∷ qs
      → (skipped : Option (List ℕ × List (List ℕ)))
      → skip_packets (offset - r.offset) (q ∷ qs) ≡ skipped
      → Skipped (offset - r.offset) (q ∷ qs) skipped
      → Packets r offset (suc n) (read_packets (q ∷ qs) (offset - r.offset) (suc n))
  unfolding read_packets
  skipped_packets r offset n q qs h from p none s (past k) =
      rw (s, read_packets) (beyond (get_elem?-none (concat r.packets) (offset - r.offset) (rw p k)))
  skipped_packets r offset n q qs h from p (some (a, b)) s (at first rest c k) =
      rw (s, read_packets)
        (round (take_spans (suc n) (first ∷ rest)) (read ∙ slice_eq file refl (sym total))
          (omega (arith, total)) (omega (arith, total, some_left)))
    where
      read :
          concat (take_spans (suc n) (first ∷ rest))
          ≡ slice file offset (min (suc n) (r.size - (offset - r.offset)))
      read = round_contents r offset (suc n) first rest h from (rw p c)

      total :
          total_size (take_spans (suc n) (first ∷ rest))
          ≡ min (suc n) (r.size - (offset - r.offset))
      total =
          total_size-concat (take_spans (suc n) (first ∷ rest))
          ∙ ap length read
          ∙ length-slice file offset (min (suc n) (r.size - (offset - r.offset)))

      some_left : offset - r.offset < r.size
      some_left = omega (
        arith,
        k,
        ap (λ l. length (concat l)) p,
        ap length h.contents,
        length-slice file r.offset r.size,
      )

  read_packets-Packets :
      (r : Range) (offset n : ℕ)
      → Holds file r
      → r.offset ≤ offset
      → Packets r offset (suc n) (read_packets r.packets (offset - r.offset) (suc n))
  read_packets-Packets r offset n h from = by_packets r.packets refl
    where
      by_packets :
          (ps : List (List ℕ))
          → r.packets ≡ ps
          → Packets r offset (suc n) (read_packets ps (offset - r.offset) (suc n))
      by_packets [] p = absurd (
          omega (
            arith,
            ap (λ l. length (concat l)) p,
            ap length h.contents,
            length-slice file r.offset r.size,
            h.filled,
          ))
      by_packets (q ∷ qs) p =
          skipped_packets r offset n q qs h from p (skip_packets (offset - r.offset) (q ∷ qs)) refl
            (skip_packets-Skipped (offset - r.offset) (q ∷ qs))

  -- A range is found.
  hit_step :
      (fuel : ℕ) (v : View) (offset n : ℕ) (init : List Range) (r : Range) (after : List Range)
      → Agrees file v.leaf
      → find_range v.leaf offset ≡ some (init, r, after)
      → Found v.leaf offset init r after
      → Holds file r
      → ((v' : View) (o m : ℕ) → Agrees file v'.leaf → m ≤ n → ReadsOn fuel v' o m)
      → ReadsOn (suc fuel) v offset (suc n)
  unfolding read_rounds
  hit_step fuel v offset n init r after h e f holds next =
      by_case (read_packets r.packets (offset - r.offset) (suc n)) refl
        (read_packets-Packets r offset n holds f.from)
    where
      leaf : Leaf
      leaf = pin_range v.leaf offset init r after

      agrees : Agrees file leaf
      agrees = pin_range-Agrees file f h

      pinned : List (ℕ × ℕ)
      pinned = v.pinned ++ (offset / block_size, r.offset) ∷ []

      by_case :
          (read : Result (Option (List (List ℕ))))
          → read_packets r.packets (offset - r.offset) (suc n) ≡ read
          → Packets r offset (suc n) read
          → ReadsOn (suc fuel) v offset (suc n)
      by_case (err _) p x3 = elim x3 [ ]
      by_case (ok none) p (beyond none_here) = (
        record v { leaf = leaf; pinned = pinned },
        rw (e, p, read_rounds) refl,
        no_more v offset (suc n) (record v { leaf = leaf; pinned = pinned }) refl agrees
            (inr (f.byte ∙ none_here)) (pin_range-byte f)
            (pin_range-IsHeld v offset init r after v.spans holds.counted),
      )
      by_case (ok (some s)) p (round spans read within progress) =
          let (v', run, rest) =
            next (record { leaf = leaf; spans = v.spans ++ spans; pinned = pinned })
              (offset + total_size spans) (suc n - total_size spans) agrees (omega arith) in
          (
            v',
            rw (e, p, read_rounds) run,
            one_more v (record { leaf = leaf; spans = v.spans ++ spans; pinned = pinned }) offset
                (suc n) spans v' refl (pin_range-byte f)
                (pin_range-IsHeld v offset init r after (v.spans ++ spans) holds.counted) read
                within rest,
          )

  looked_up :
      (fuel : ℕ) (v : View) (offset n : ℕ)
      → Agrees file v.leaf
      → ((v' : View) (o m : ℕ) → Agrees file v'.leaf → m ≤ n → ReadsOn fuel v' o m)
      → (found : Option (List Range × Range × List Range)) → find_range v.leaf offset ≡ found
      → Lookup file v.leaf offset found
      → ReadsOn (suc fuel) v offset (suc n)
  unfolding read_rounds
  looked_up fuel v offset n h next none e (missing m) =
      (v, rw (e, read_rounds) refl, no_more v offset (suc n) v refl h (inr m) (λ o. refl) (λ k. k))
  looked_up fuel v offset n h next (some (i, x, a)) e (present init r after f k) =
      hit_step fuel v offset n init r after h e f k next

  read_rounds-Read :
      (fuel : ℕ) (v : View) (offset want : ℕ)
      → Agrees file v.leaf
      → want ≤ fuel
      → ReadsOn fuel v offset want
  unfolding read_rounds
  read_rounds-Read zero v offset zero h b =
      (v, refl, no_more v offset 0 v refl h (inl refl) (λ o. refl) (λ k. k))
  read_rounds-Read zero v offset (suc n) h b = absurd (omega arith)
  read_rounds-Read (suc fuel) v offset zero h b =
      (v, refl, no_more v offset 0 v refl h (inl refl) (λ o. refl) (λ k. k))
  read_rounds-Read (suc fuel) v offset (suc n) h b =
      looked_up fuel v offset n h (λ v' o m h' l. read_rounds-Read fuel v' o m h' (omega arith))
        (find_range v.leaf offset) refl (find_range-Lookup file v.leaf offset h)

  abbrev pub empty_view : Leaf → View
  empty_view l = record { leaf = l; spans = []; pinned = [] }

  -- On a cache that agrees with a file, GetData throws nothing and ends. Its spans are the bytes of
  -- the file from the offset on, as many as were asked for and the file has, or as many as there are
  -- in front of the first that the cache does not hold. The cache still agrees with the file and
  -- holds the bytes that it held.
  pub get_data-Read :
      (l : Leaf) (offset size : ℕ)
      → Agrees file l
      → (v : View) × (get_data l offset size ≡ ok v)
        × Read (empty_view l) offset (min size (l.size - offset)) v
  unfolding get_data
  get_data-Read l offset size h = elim (Bool-cases (leb l.size offset)) [
    | inl e ↦ (
      empty_view l,
      rw e refl,
      no_more (empty_view l) offset (min size (l.size - offset)) (empty_view l) refl h
          (inl (ground arith)) (λ o. refl) (λ k. k),
    )
    | inr e ↦
        let (v, run, read) =
          read_rounds-Read (min size (l.size - offset)) (empty_view l) offset
            (min size (l.size - offset)) h (omega arith) in
        (v, rw e run, read)
  ]
