-- ===== src/FileSystem/Range/Slice.antt =====
-- The bytes of a file, as an independent description of what a range holds.
use multi_threaded_socket.Common.{
  ℕ, zero, suc, ◌+◌, ◌-◌, ◌≡◌, refl, ap, ap₂, ◌∙◌, sym, List, [], ◌∷◌, ◌++◌, min, arith, length,
  take, drop,
}
use multi_threaded_socket.MultiList.{concat}
use mathlib.Core.List.{append_assoc}
use native.Mathlib.Numerals.{unary_clauses}

-- `size` bytes of the file from `offset` on.
unfoldable pub slice : (ℕ → ℕ) → ℕ → ℕ → List ℕ
slice file offset zero = []
slice file offset (suc size) = file offset ∷ slice file (suc offset) size

module _ (file : ℕ → ℕ) where
  pub slice_eq : {o o' n n' : ℕ} → o ≡ o' → n ≡ n' → slice file o n ≡ slice file o' n'
  slice_eq = ap₂ (slice file)

  pub length-slice : (o n : ℕ) → length (slice file o n) ≡ n
  unfolding slice
  length-slice o zero = refl
  length-slice o (suc n) = ap suc (length-slice (suc o) n)

  pub slice_append : (o m n : ℕ) → slice file o m ++ slice file (o + m) n ≡ slice file o (m + n)
  unfolding slice
  slice_append o zero n = slice_eq (omega arith) (omega arith)
  slice_append o (suc m) n =
      ap (◌∷◌ (file o))
        (ap (◌++◌ (slice file (suc o) m)) (slice_eq shift refl) ∙ slice_append (suc o) m n)
      ∙ ap (slice file o) more
    where
      shift : o + suc m ≡ suc o + m
      shift = omega arith

      more : suc (m + n) ≡ suc m + n
      more = omega arith

  pub drop-slice : (o m n : ℕ) → drop m (slice file o n) ≡ slice file (o + m) (n - m)
  unfolding slice
  drop-slice o zero n = slice_eq (omega arith) (omega arith)
  drop-slice o (suc m) zero = sym (ap (slice file (o + suc m)) none_left)
    where
      none_left : 0 - suc m ≡ 0
      none_left = omega arith
  drop-slice o (suc m) (suc n) = drop-slice (suc o) m n ∙ slice_eq (omega arith) (omega arith)

  pub take-slice : (o m n : ℕ) → take m (slice file o n) ≡ slice file o (min m n)
  unfolding slice
  take-slice o zero n = simp unary_clauses refl
  take-slice o (suc m) zero = simp unary_clauses refl
  take-slice o (suc m) (suc n) = simp unary_clauses (ap (◌∷◌ (file o)) (take-slice (suc o) m n))

pub concat-append : (xs ys : List (List ℕ)) → concat (xs ++ ys) ≡ concat xs ++ concat ys
concat-append [] ys = refl
concat-append (x ∷ xs) ys =
    ap (◌++◌ x) (concat-append xs ys) ∙ sym (append_assoc x (concat xs) (concat ys))
