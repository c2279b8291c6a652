-- ===== src/FileSystem/FileTree/Shards.antt =====
-- The counts of the shards of a FileTree: one entry changes, and the sum with it.
use multi_threaded_socket.Common.{
  ℕ, zero, suc, ◌+◌, ◌≡◌, ◌≢◌, refl, sym, ap, ◌∙◌, Option, none, some, List, [], ◌∷◌, arith,
  get_elem?, set, ltb, ◌==◌, find, assign, erase, erase_absent, find-assign_self, find-assign_ne,
  find-erase_self, find-erase_ne, Distinct, assign-Distinct, erase-Distinct, Bool-cases,
  Option-cases, inl, inr, ok, ℤ, pos, ◌+ℤ◌, ◌-ℤ◌, int_laws, parts_of_eq, +ℤ_front, +ℤ_front_one,
  +ℤ_front_sum, +ℤ_exchange, +ℤ_zero, +ℤ_comm,
}
use multi_threaded_socket.FileSystem.FileTree.{Shard, add_count, sub_count}

abbrev pub shard_total : Shard → ℤ
shard_total [] = pos 0
shard_total ((inode, count) ∷ shard) = count +ℤ shard_total shard

abbrev pub shards_total : List Shard → ℤ
shards_total [] = pos 0
shards_total (shard ∷ shards) = shard_total shard +ℤ shards_total shards

abbrev pub or_zero : Option ℤ → ℤ
or_zero none = pos 0
or_zero (some count) = count

abbrev pub count_in : Shard → ℕ → ℤ
count_in shard inode = or_zero (find inode shard)

pub shards_total-set :
    (shards : List Shard) (i : ℕ) (s s' : Shard)
    → get_elem? shards i ≡ some s
    → shards_total (set shards i s') +ℤ shard_total s ≡ shards_total shards +ℤ shard_total s'
shards_total-set [] i s s' e = cc
shards_total-set (x ∷ shards) zero s s' e =
    let same : x ≡ s = ground arith in
    rw same (+ℤ_exchange (shard_total s') (shard_total s) (shards_total shards))
shards_total-set (x ∷ shards) (suc i) s s' e =
    +ℤ_front (shard_total x) _ _ _ _ (shards_total-set shards i s s' e)

shard_total-assign_new :
    (k : ℕ) (v : ℤ) (s : Shard) → find k s ≡ none → shard_total (assign k v s) ≡ shard_total s +ℤ v
unfolding find assign
shard_total-assign_new k v [] e = +ℤ_comm v (pos 0)
shard_total-assign_new k v ((key, old) ∷ s) e = elim (Bool-cases (key == k)) [
  | inl t ↦ let absent : ◌≡◌ {A = Option ℤ} (some old) none = rw t at e in cc
  | inr t ↦ rw t (+ℤ_front_one old _ _ _ (shard_total-assign_new k v s (rw t at e)))
]

shard_total-assign_old :
    (k : ℕ) (v c : ℤ) (s : Shard)
    → find k s ≡ some c
    → shard_total (assign k v s) +ℤ c ≡ shard_total s +ℤ v
unfolding find assign
shard_total-assign_old k v c [] e = cc
shard_total-assign_old k v c ((key, old) ∷ s) e = elim (Bool-cases (key == k)) [
  | inl t ↦
      let same : ◌≡◌ {A = Option ℤ} (some old) (some c) = rw t at e in
      let eq : old ≡ c = cc in rw (t, eq) (+ℤ_exchange v c (shard_total s))
  | inr t ↦ rw t (+ℤ_front old _ _ _ _ (shard_total-assign_old k v c s (rw t at e)))
]

shard_total-erase :
    (k : ℕ) (c : ℤ) (s : Shard)
    → Distinct s
    → find k s ≡ some c
    → shard_total (erase k s) +ℤ c ≡ shard_total s
unfolding find erase Distinct
shard_total-erase k c [] d e = cc
shard_total-erase k c ((key, old) ∷ s) d e = elim (Bool-cases (key == k)) [
  | inl t ↦
      let same : ◌≡◌ {A = Option ℤ} (some old) (some c) = rw t at e in
      let eq : old ≡ c = cc in
      let key_eq : key ≡ k = ground arith in
      let gone : erase k s ≡ s = erase_absent k s (ap (λ j. find j s) (sym key_eq) ∙ d.0) in
      rw (t, gone, eq) (+ℤ_comm (shard_total s) c)
  | inr t ↦ rw t (+ℤ_front_sum old _ _ _ (shard_total-erase k c s d.1 (rw t at e)))
]

cancel : (a t c d : ℤ) → a +ℤ c ≡ t +ℤ (c +ℤ d) → a ≡ t +ℤ d
cancel a t c d h = omega (int_laws, parts_of_eq _ _ h)

less : (a t c : ℤ) (n m : ℕ) → c ≡ pos (n + m) → a +ℤ c ≡ t +ℤ pos m → a ≡ t +ℤ (pos 0 -ℤ pos n)
less a t c n m e h = omega (int_laws, parts_of_eq _ _ h, parts_of_eq _ _ e)

less_all : (a t c : ℤ) (n m : ℕ) → c ≡ pos (n + m) → m ≡ 0 → a +ℤ c ≡ t → a ≡ t +ℤ (pos 0 -ℤ pos n)
less_all a t c n m e z h = omega (int_laws, parts_of_eq _ _ h, parts_of_eq _ _ e)

-- The count of `inode` changes by `d`.
pub record Changed (s s' : Shard) (inode : ℕ) (d : ℤ) : Type 0 where
  pub distinct : Distinct s'
  pub others : (j : ℕ) → inode ≢ j → find j s' ≡ find j s
  pub count : count_in s' inode ≡ count_in s inode +ℤ d
  pub sum : shard_total s' ≡ shard_total s +ℤ d

pub add_count-Changed :
    (s : Shard) (inode : ℕ) (added : ℤ)
    → Distinct s
    → Changed s (add_count s inode added) inode added
unfolding add_count
add_count-Changed s inode added h = elim (Option-cases (find inode s)) [
  | inl e ↦
      rw (e, add_count)
        (record {
          distinct = assign-Distinct inode added s h;
          others = λ j n. find-assign_ne inode j added s n;
          count = rw (find-assign_self inode added s, e) (+ℤ_zero added);
          sum = shard_total-assign_new inode added s e;
        })
  | inr (c, e) ↦
      rw (e, add_count)
        (record {
          distinct = assign-Distinct inode (c +ℤ added) s h;
          others = λ j n. find-assign_ne inode j (c +ℤ added) s n;
          count = rw (find-assign_self inode (c +ℤ added) s, e) refl;
          sum = cancel _ _ _ _ (shard_total-assign_old inode (c +ℤ added) c s e);
        })
]

pub sub_count-Changed :
    (s : Shard) (inode : ℕ) (c : ℤ) (n m : ℕ)
    → Distinct s
    → find inode s ≡ some c
    → c ≡ pos (n + m)
    → (s' : Shard) × (sub_count s inode c n ≡ ok s') × Changed s s' inode (pos 0 -ℤ pos n)
unfolding sub_count
sub_count-Changed s inode c n m h e b =
    let left : c -ℤ pos n ≡ pos m = rw b (omega int_laws) in
    elim (Bool-cases (ltb 0 m)) [
      | inl t ↦ (
        assign inode (pos m) s,
        rw (left, sub_count, t) refl,
        record {
          distinct = assign-Distinct inode (pos m) s h;
          others = λ j k. find-assign_ne inode j (pos m) s k;
          count = rw (find-assign_self inode (pos m) s, e, b) (omega int_laws);
          sum = less _ _ _ n m b (shard_total-assign_old inode (pos m) c s e);
        },
      )
      | inr t ↦ (
        erase inode s,
        rw (left, sub_count, t) refl,
        record {
          distinct = erase-Distinct inode s h;
          others = λ j k. find-erase_ne inode j s k;
          count =
              rw (find-erase_self inode s, e, b)
                (let none_left : m ≡ 0 = ground arith in omega int_laws);
          sum = less_all _ _ _ n m b (ground arith) (shard_total-erase inode c s h e);
        },
      )
    ]
