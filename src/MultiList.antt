-- ===== src/MultiList.antt =====
-- LockedList/include/MultiList.hpp: a list kept as a list of chunks, with a cached size.
-- An iterator is the index of its chunk and the index within the chunk.
pub mod Laws
pub mod Iteration
use multi_threaded_socket.Common.{
  ℕ, zero, suc, ◌+◌, ◌-◌, Bool, true, false, ◌&&◌, ◌||◌, not, Option, none, some, List, [], ◌∷◌,
  ◌++◌, ltb, ◌==◌, if◌then◌else◌, length, take, drop, get_elem?,
}

-- `_lists` and `_size`
pub record MultiList {ℓ} (A : Type ℓ) : Type ℓ where
  pub lists : List (List A)
  pub size : ℕ

-- The static constant `Size`: how many elements `push_back` and `splice` put in a chunk.
abbrev pub chunk_size : ℕ
chunk_size = 10

module _ {ℓ} {A : Type ℓ} where
  -- The default constructor
  abbrev pub nothing : MultiList A
  nothing = record { lists = []; size = 0 }

  push_lists : List (List A) → A → List (List A)
  push_lists [] x = (x ∷ []) ∷ []
  push_lists (c ∷ []) x =
      if ltb (length c) chunk_size then (c ++ x ∷ []) ∷ [] else c ∷ (x ∷ []) ∷ []
  push_lists (c ∷ d ∷ cs) x = c ∷ push_lists (d ∷ cs) x

  pub push_back : MultiList A → A → MultiList A
  push_back l x = record { lists = push_lists l.lists x; size = l.size + 1 }

  -- The last chunk and the first of the other list become one, if they are small.
  join_lists : List (List A) → List (List A) → List (List A)
  join_lists [] ds = ds
  join_lists (c ∷ []) [] = c ∷ []
  join_lists (c ∷ []) (d ∷ ds) =
      if ltb (length c + length d) chunk_size then (c ++ d) ∷ ds else c ∷ d ∷ ds
  join_lists (c ∷ c' ∷ cs) ds = c ∷ join_lists (c' ∷ cs) ds

  -- `splice(MultiList&&)`: this list and what is left of the other.
  pub splice : MultiList A → MultiList A → MultiList A × MultiList A
  splice l that =
      (record { lists = join_lists l.lists that.lists; size = l.size + that.size }, nothing)

  -- The loop of `TryGenerate`: the chunks taken, how many elements they hold, the chunks left.
  generate : List (List A) → ℕ → List (List A) × ℕ × List (List A)
  generate [] n = ([], 0, [])
  generate (c ∷ cs) zero = ([], 0, c ∷ cs)
  generate (c ∷ cs) (suc n) =
      let later = generate cs (suc n - length c) in
      if ltb (suc n) (length c)
      then (take (suc n) c ∷ [], suc n, drop (suc n) c ∷ cs)
      else (c ∷ later.0, length c + later.1, later.2)

  -- The new list, and this one without its elements.
  pub try_generate : MultiList A → ℕ → MultiList A × MultiList A
  try_generate l n =
      let (taken, count, left) = generate l.lists n in
      (record { lists = taken; size = count }, record { lists = left; size = l.size - count })

  pub empty : MultiList A → Bool
  empty l = elim l.lists [ [] ↦ true | c ∷ cs ↦ false ]

  last_elem : List A → Option A
  last_elem [] = none
  last_elem (x ∷ []) = some x
  last_elem (x ∷ y ∷ xs) = last_elem (y ∷ xs)

  last_list : List (List A) → Option A
  last_list [] = none
  last_list (c ∷ []) = last_elem c
  last_list (c ∷ d ∷ cs) = last_list (d ∷ cs)

  first_list : List (List A) → Option A
  first_list [] = none
  first_list (c ∷ cs) = get_elem? c 0

  -- `front` and `back` of an empty list are undefined: `none`.
  pub front : MultiList A → Option A
  front l = first_list l.lists

  pub back : MultiList A → Option A
  unfolding last_elem last_list
  back l = last_list l.lists

  init : List A → List A
  init [] = []
  init (x ∷ []) = []
  init (x ∷ y ∷ xs) = x ∷ init (y ∷ xs)

  cons_chunk : List A → List (List A)
  cons_chunk [] = []
  cons_chunk (x ∷ xs) = (x ∷ xs) ∷ []

  -- The last chunk loses its last element, and is removed if that was its only one.
  pop_lists : List (List A) → List (List A)
  pop_lists [] = []
  pop_lists (c ∷ []) = cons_chunk (init c)
  pop_lists (c ∷ d ∷ cs) = c ∷ pop_lists (d ∷ cs)

  pub pop_back : MultiList A → MultiList A
  pop_back l = record { lists = pop_lists l.lists; size = l.size - 1 }

  pub swap : MultiList A → MultiList A → MultiList A × MultiList A
  swap l that = (that, l)

  -- The chunks in one piece: what the list stands for.
  abbrev pub concat : List (List A) → List A
  concat [] = []
  concat (c ∷ cs) = c ++ concat cs

  abbrev pub to_list : MultiList A → List A
  to_list l = concat l.lists

pub record Iterator : Type 0 where
  pub it1 : ℕ
  pub it2 : ℕ

module _ {ℓ} {A : Type ℓ} where
  -- The size of a chunk
  abbrev pub chunk_length : List (List A) → ℕ → ℕ
  chunk_length [] i = 0
  chunk_length (c ∷ cs) zero = length c
  chunk_length (c ∷ cs) (suc i) = chunk_length cs i

  pub begin : MultiList A → Iterator
  begin l = record { it1 = 0; it2 = 0 }

  -- The default `_it2` is 0.
  pub end : MultiList A → Iterator
  end l = record { it1 = length l.lists; it2 = 0 }

  -- `operator++()`
  pub increment : MultiList A → Iterator → Iterator
  increment l i =
      if i.it2 + 1 == chunk_length l.lists i.it1
      then record { it1 = i.it1 + 1; it2 = 0 }
      else record i { it2 = i.it2 + 1 }

  -- `operator++(int)`: what it returns, and what the iterator becomes.
  pub post_increment : MultiList A → Iterator → Iterator × Iterator
  post_increment l i =
      let next =
        if i.it2 + 1 == chunk_length l.lists i.it1
        then record { it1 = i.it1 + 1; it2 = 0 }
        else record i { it2 = i.it2 + 1 } in
      (next, next)

  -- `operator--()`
  pub decrement : MultiList A → Iterator → Iterator
  decrement l i =
      if i.it1 == length l.lists
      then record { it1 = i.it1 - 1; it2 = chunk_length l.lists (i.it1 - 1) - 1 }
      else if i.it2 == 0
      then record { it1 = i.it1 - 1; it2 = chunk_length l.lists (i.it1 - 1) - 1 }
      else record i { it2 = i.it2 - 1 }

  -- `operator--(int)`
  pub post_decrement : MultiList A → Iterator → Iterator × Iterator
  unfolding decrement
  post_decrement l i = (i, decrement l i)

  -- `operator==`
  pub equal : MultiList A → Iterator → Iterator → Bool
  equal l i j =
      if i.it1 == j.it1 then (if i.it2 == j.it2 then true else i.it1 == length l.lists) else false

  chunk_elem : List (List A) → ℕ → ℕ → Option A
  chunk_elem [] i j = none
  chunk_elem (c ∷ cs) zero j = get_elem? c j
  chunk_elem (c ∷ cs) (suc i) j = chunk_elem cs i j

  -- `operator*`; `none` is undefined.
  pub deref : MultiList A → Iterator → Option A
  unfolding chunk_elem
  deref l i = chunk_elem l.lists i.it1 i.it2

  -- `for (it = begin(); it != end(); ++it)`, from `i`, on fuel: the elements that it visits.
  pub visit : ℕ → MultiList A → Iterator → Option (List A)
  visit zero l i = none
  visit (suc fuel) l i =
      let rest = visit fuel l (increment l i) in
      if equal l i (end l) then some [] else elim (deref l i) [
        | none ↦ none
        | some x ↦ elim rest [ none ↦ none | some xs ↦ some (x ∷ xs) ]
      ]
