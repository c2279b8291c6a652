-- ===== src/LockedList.antt =====
-- LockedList/include/LockedList.hpp: a MultiList behind a lock. Every method holds the lock from
-- its first to its last access, so each is one step on the list. Waiting is not modelled: a waiting
-- method changes no list, and returns when its condition holds, time is up or a stop is requested.
use mathlib.Core.List.{append-nil}
use multi_threaded_socket.Common.{
  ℕ, ◌≤◌, ◌≡◌, refl, sym, Bool, Option, [], ◌++◌, length, take, drop, take_all, drop_all, arith,
  ltb, if◌then◌else◌, Bool-cases, inl, inr,
}
use multi_threaded_socket.MultiList.{
  MultiList, nothing, push_back, splice, try_generate, empty, back, pop_back, to_list,
}
use multi_threaded_socket.MultiList.Laws.{IsValid, splice_lem, try_generate_lem, back-pop_back}
use multi_threaded_socket.MultiList

module _ {ℓ} {A : Type ℓ} where
  -- This list and what is left of the other.
  pub locked_splice : MultiList A → MultiList A → MultiList A × MultiList A
  locked_splice list that = if empty that then (list, that) else splice list that

  pub locked_swap : MultiList A → MultiList A → MultiList A × MultiList A
  locked_swap list that = MultiList.swap list that

  -- The result and this list.
  pub locked_try_generate : MultiList A → ℕ → MultiList A × MultiList A
  locked_try_generate list size =
      if ltb size list.size then try_generate list size else (list, nothing)

  pub locked_push_back : MultiList A → A → MultiList A
  locked_push_back list element = push_back list element

  -- `none` on an empty list, where it is undefined.
  pub locked_get_back : MultiList A → Option A × MultiList A
  locked_get_back list = (back list, pop_back list)

  pub locked_empty : MultiList A → Bool
  locked_empty list = empty list

  pub locked_size : MultiList A → ℕ
  locked_size list = list.size

  -- `LockedTryGenerate(n)` hands over the first `n` elements, all if there are no more, and keeps
  -- the others; both lists are well formed.
  pub locked_try_generate_lem :
      (list : MultiList A) (n : ℕ)
      → IsValid list
      → let (result, left) = locked_try_generate list n in
        (to_list result ≡ take n (to_list list))
        × (to_list left ≡ drop n (to_list list))
        × IsValid result
        × IsValid left
  unfolding locked_try_generate
  locked_try_generate_lem list n v = elim (Bool-cases (ltb n list.size)) [
    | inl e ↦ rw e (try_generate_lem list n v)
    | inr e ↦
        let fits : length (to_list list) ≤ n = ground (arith, v.sized) in
        rw e (
          sym (take_all n (to_list list) fits),
          sym (drop_all n (to_list list) fits),
          v,
          record { chunks = tt; sized = refl },
        )
  ]

  -- `LockedSplice` puts all elements of the other list behind those of this one, and leaves none.
  pub locked_splice_lem :
      (list that : MultiList A)
      → IsValid list
      → IsValid that
      → let (list', that') = locked_splice list that in
        (to_list list' ≡ to_list list ++ to_list that) × (to_list that' ≡ []) × IsValid list'
  unfolding locked_splice
  locked_splice_lem list that v w = elim (back-pop_back that w) [
    | inl (e, n, _) ↦ rw (e, n) (sym (append-nil (to_list list)), refl, v)
    | inr (_, e, _, _, _) ↦ let (l, w', n, _) = splice_lem list that v w in rw e (l, n, w')
  ]
