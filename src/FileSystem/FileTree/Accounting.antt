-- ===== src/FileSystem/FileTree/Accounting.antt =====
-- How many packets the cache holds, and how many it is said to hold.
use multi_threaded_socket.Common.{
  ℕ, ◌<◌, ◌≡◌, ◌≢◌, sym, ap, ◌∙◌, subst, some, List, length, get_elem?, set, find, assign,
  find-assign_self, find-assign_ne, Distinct, length-set, get_elem?-set_self, get_elem?-set_ne,
  get_elem?-some, inl, inr, ◌⊎◌, some-injective, ℕ_discrete, ℤ, pos, ◌+ℤ◌, ◌≤ℤ◌, int_laws,
  parts_of_eq,
}
use multi_threaded_socket.FileSystem.Leaf.{Leaf}
use multi_threaded_socket.FileSystem.Leaf.Counts.{cached_packets}
use multi_threaded_socket.FileSystem.FileTree.{FileTree, Shard, shard_for_inode}
use multi_threaded_socket.FileSystem.FileTree.Shards.{
  shard_total, shards_total, shards_total-set, count_in, or_zero, Changed,
}

sum_changed : (g t t' s s' d : ℤ) → g ≡ t → s' ≡ s +ℤ d → t' +ℤ s ≡ t +ℤ s' → g +ℤ d ≡ t'
sum_changed g t t' s s' d e f h =
    omega (int_laws, parts_of_eq _ _ e, parts_of_eq _ _ f, parts_of_eq _ _ h)

module _ (hash : ℕ → ℕ) where
  -- Every shard counts only leaves of its own that are there, no leaf holds more packets than its
  -- count, and the total is the sum of the counts.
  pub record Accounted (t : FileTree) : Type 0 where
    pub shards : length t.cache_per_shard ≡ 4
    pub distinct : (i : ℕ) (s : Shard) → get_elem? t.cache_per_shard i ≡ some s → Distinct s
    pub own :
        (i : ℕ) (s : Shard) (inode : ℕ) (count : ℤ)
        → get_elem? t.cache_per_shard i ≡ some s
        → find inode s ≡ some count
        → (shard_for_inode hash inode ≡ i) × ((l : Leaf) × (find inode t.leaves ≡ some l))
    pub covered :
        (inode : ℕ) (l : Leaf) (s : Shard)
        → find inode t.leaves ≡ some l
        → get_elem? t.cache_per_shard (shard_for_inode hash inode) ≡ some s
        → pos (cached_packets l) ≤ℤ count_in s inode
    pub total : t.grand_total_cached_packets ≡ shards_total t.cache_per_shard

  -- A shard of the tree is the one that changed, or another.
  shard_cases :
      (shards : List Shard) (k i : ℕ) (s s' x : Shard)
      → get_elem? shards k ≡ some s
      → get_elem? (set shards k s') i ≡ some x
      → ((k ≡ i) × (x ≡ s')) ⊎ ((k ≢ i) × (get_elem? shards i ≡ some x))
  shard_cases shards k i s s' x here e = elim (ℕ_discrete k i) [
    | yes p ↦
        let inside : k < length shards = get_elem?-some shards k s here in
        inl (
          p,
          some-injective _ _ (
              sym e
              ∙ ap (get_elem? (set shards k s')) (sym p)
              ∙ get_elem?-set_self shards k s' inside),
        )
    | no p ↦ inr (p, sym (get_elem?-set_ne shards k i s' p) ∙ e)
  ]

  module _ (t t' : FileTree) (inode : ℕ) (l l' : Leaf) (s s' : Shard) (d : ℤ) (a : Accounted t)
      (here : find inode t.leaves ≡ some l)
      (mine : get_elem? t.cache_per_shard (shard_for_inode hash inode) ≡ some s)
      (c : Changed s s' inode d) (leaves : t'.leaves ≡ assign inode l' t.leaves)
      (shards : t'.cache_per_shard ≡ set t.cache_per_shard (shard_for_inode hash inode) s') where
    in_shard :
        (i : ℕ) (x : Shard)
        → get_elem? t'.cache_per_shard i ≡ some x
        → ((shard_for_inode hash inode ≡ i) × (x ≡ s'))
          ⊎ ((shard_for_inode hash inode ≢ i) × (get_elem? t.cache_per_shard i ≡ some x))
    in_shard i x e =
        shard_cases t.cache_per_shard (shard_for_inode hash inode) i s s' x mine
          (sym (ap (λ l. get_elem? l i) shards) ∙ e)

    changed-leaf :
        (j : ℕ) (m : Leaf)
        → find j t'.leaves ≡ some m
        → ((inode ≡ j) × (m ≡ l')) ⊎ ((inode ≢ j) × (find j t.leaves ≡ some m))
    changed-leaf j m e = elim (ℕ_discrete inode j) [
      | yes p ↦
          let self : find j t'.leaves ≡ some l' =
            ap (find j) leaves
            ∙ ap (λ i. find j (assign i l' t.leaves)) p
            ∙ find-assign_self j l' t.leaves in
          inl (p, some-injective _ _ (sym e ∙ self))
      | no p ↦ inr (p, sym (find-assign_ne inode j l' t.leaves p) ∙ ap (find j) (sym leaves) ∙ e)
    ]

    still-there :
        (j : ℕ) (m : Leaf) → find j t.leaves ≡ some m → (m' : Leaf) × (find j t'.leaves ≡ some m')
    still-there j m e = elim (ℕ_discrete inode j) [
      | yes p ↦ (
        l',
        ap (find j) leaves
            ∙ ap (λ i. find j (assign i l' t.leaves)) p
            ∙ find-assign_self j l' t.leaves,
      )
      | no p ↦ (m, ap (find j) leaves ∙ find-assign_ne inode j l' t.leaves p ∙ e)
    ]

    changed-own :
        (i : ℕ) (x : Shard) (j : ℕ) (count : ℤ)
        → get_elem? t'.cache_per_shard i ≡ some x
        → find j x ≡ some count
        → (shard_for_inode hash j ≡ i) × ((m : Leaf) × (find j t'.leaves ≡ some m))
    changed-own i x j count e f = elim (in_shard i x e) [
      | inl (p, same) ↦ elim (ℕ_discrete inode j) [
        | yes q ↦ (
          ap (shard_for_inode hash) (sym q) ∙ p,
          still-there j l (ap (λ n. find n t.leaves) (sym q) ∙ here),
        )
        | no q ↦
            let (o, (m, there)) =
              a.own (shard_for_inode hash inode) s j count mine
                (sym (c.others j q) ∙ ap (find j) (sym same) ∙ f) in
            (o ∙ p, still-there j m there)
      ]
      | inr (p, old) ↦ let (o, (m, there)) = a.own i x j count old f in (o, still-there j m there)
    ]

    changed-covered :
        pos (cached_packets l') ≤ℤ pos (cached_packets l) +ℤ d
        → (j : ℕ) (m : Leaf) (x : Shard) → find j t'.leaves ≡ some m
        → get_elem? t'.cache_per_shard (shard_for_inode hash j) ≡ some x
        → pos (cached_packets m) ≤ℤ count_in x j
    changed-covered fits j m x f e = elim (changed-leaf j m f) [
      | inl (p, same) ↦ elim (in_shard (shard_for_inode hash j) x e) [
        | inl (q, eq) ↦
            let old = a.covered inode l s here mine in
            let new : pos (cached_packets l') ≤ℤ count_in s' inode =
              omega (int_laws, old, fits, parts_of_eq _ _ c.count) in
            subst (λ y. pos (cached_packets m) ≤ℤ count_in y j) (sym eq)
              (subst (λ n. pos (cached_packets m) ≤ℤ count_in s' n) p
                (subst (λ n. pos (cached_packets n) ≤ℤ count_in s' inode) (sym same) new))
        | inr (q, eq) ↦ absurd (q (ap (shard_for_inode hash) p))
      ]
      | inr (p, there) ↦ elim (in_shard (shard_for_inode hash j) x e) [
        | inl (q, eq) ↦
            let old = a.covered j m s there (ap (get_elem? t.cache_per_shard) (sym q) ∙ mine) in
            let counts : count_in s j ≡ count_in x j =
              sym (ap (λ y. count_in y j) eq ∙ ap or_zero (c.others j p)) in
            subst (λ n. pos (cached_packets m) ≤ℤ n) counts old
        | inr (q, eq) ↦ a.covered j m x there eq
      ]
    ]

    -- A leaf and its count change together.
    pub changed-Accounted :
        pos (cached_packets l') ≤ℤ pos (cached_packets l) +ℤ d
        → t'.grand_total_cached_packets ≡ t.grand_total_cached_packets +ℤ d
        → Accounted t'
    changed-Accounted fits total = record {
      shards =
          ap length shards
          ∙ length-set t.cache_per_shard (shard_for_inode hash inode) s'
          ∙ a.shards;
      distinct = λ i x e. elim (in_shard i x e) [
        | inl (p, same) ↦ subst Distinct (sym same) c.distinct
        | inr (p, old) ↦ a.distinct i x old
      ];
      own = changed-own;
      covered = changed-covered fits;
      total =
          total
          ∙ sum_changed _ _ _ _ _ d a.total c.sum (
              ap (λ l. shards_total l +ℤ shard_total s) shards
              ∙ shards_total-set t.cache_per_shard (shard_for_inode hash inode) s s' mine);
    }
