-- ===== src/Common/Elements.antt =====
-- A property of each element of a list.
use mathlib.Core.Path.{◌≡◌, refl}
use mathlib.Core.Option.{Option, none, some}
use mathlib.Core.List.{List, [], ◌∷◌, ◌++◌}
use multi_threaded_socket.Common.Lists.{split_last}
use multi_threaded_socket.Common.Tests.{Option-cases}
use native.Mathlib.Omega.{arith}
use mathlib.Core.Logic.{inl, inr}

module _ {ℓ} {A : Type ℓ} (P : A → Type 0) where
  unfoldable pub All : List A → Type 0
  All [] = Unit
  All (x ∷ xs) = P x × All xs

module _ {ℓ} {A : Type ℓ} (P : A → Type 0) where
  pub All-append : (xs ys : List A) → All P xs → All P ys → All P (xs ++ ys)
  unfolding All
  All-append [] ys h k = k
  All-append (x ∷ xs) ys h k = (h.0, All-append xs ys h.1 k)

  pub All-nil : All P []
  unfolding All
  All-nil = tt

  pub All-single : {x : A} → P x → All P (x ∷ [])
  unfolding All
  All-single h = (h, tt)

  pub All-left : (xs ys : List A) → All P (xs ++ ys) → All P xs
  unfolding All
  All-left [] ys h = tt
  All-left (x ∷ xs) ys h = (h.0, All-left xs ys h.1)

  pub All-right : (xs ys : List A) → All P (xs ++ ys) → All P ys
  unfolding All
  All-right [] ys h = h
  All-right (x ∷ xs) ys h = All-right xs ys h.1

  pub All-last : (xs : List A) (x : A) → All P (xs ++ x ∷ []) → P x
  unfolding All
  All-last xs x h = (All-right xs (x ∷ []) h).0

  pub All-middle : (xs : List A) (x : A) (ys : List A) → All P (xs ++ x ∷ ys) → P x
  unfolding All
  All-middle xs x ys h = (All-right xs (x ∷ ys) h).0

module _ {ℓ} {A : Type ℓ} where
  pub All-every : (P : A → Type 0) → ((x : A) → P x) → (xs : List A) → All P xs
  unfolding All
  All-every P f [] = tt
  All-every P f (x ∷ xs) = (f x, All-every P f xs)

  pub All-map : (P Q : A → Type 0) → ((x : A) → P x → Q x) → (xs : List A) → All P xs → All Q xs
  unfolding All
  All-map P Q f [] h = tt
  All-map P Q f (x ∷ xs) h = (f x h.0, All-map P Q f xs h.1)

-- An element is put back with what may have changed of it.
module _ {ℓ} {A : Type ℓ} (P : A → Type 0) where
  pub All-replace :
      (xs ys : List A) (x y : A) → All P (xs ++ x ∷ ys) → (P x → P y) → All P (xs ++ y ∷ ys)
  unfolding All
  All-replace xs ys x y h f =
      let k = All-right P xs (x ∷ ys) h in
      All-append P xs (y ∷ ys) (All-left P xs (x ∷ ys) h) (f k.0, k.1)

module _ {ℓ} {A : Type ℓ} where
  pub split_last-none : (xs : List A) → split_last xs ≡ none → xs ≡ []
  split_last-none [] e = refl
  split_last-none (x ∷ []) e = cc
  split_last-none (x ∷ y ∷ xs) e = elim (Option-cases (split_last (y ∷ xs))) [
    | inl h ↦ let eq : ◌≡◌ {A = List A} (y ∷ xs) [] = split_last-none (y ∷ xs) h in cc
    | inr ((init, last), h) ↦
        let eq : ◌≡◌ {A = Option (List A × A)} (some (x ∷ init, last)) none = rw h at e in cc
  ]

  pub split_last-append :
      (xs init : List A) (last : A) → split_last xs ≡ some (init, last) → xs ≡ init ++ last ∷ []
  split_last-append [] init last e = cc
  split_last-append (x ∷ []) init last e = ground arith
  split_last-append (x ∷ y ∷ xs) init last e = elim (Option-cases (split_last (y ∷ xs))) [
    | inl h ↦ let eq : ◌≡◌ {A = Option (List A × A)} none (some (init, last)) = rw h at e in cc
    | inr ((init', last'), h) ↦
        let eq : ◌≡◌ {A = Option (List A × A)} (some (x ∷ init', last')) (some (init, last)) =
          rw h at e in
        let ih = split_last-append (y ∷ xs) init' last' h in ground arith
  ]

  pub split_last-cons :
      (x : A) (xs : List A)
      → split_last (x ∷ xs)
        ≡ elim (split_last xs) [ none ↦ some ([], x) | some (init, last) ↦ some (x ∷ init, last) ]
  split_last-cons x [] = refl
  split_last-cons x (y ∷ ys) = elim (Option-cases (split_last (y ∷ ys))) [
    | inl e ↦ let absent : ◌≡◌ {A = List A} (y ∷ ys) [] = split_last-none (y ∷ ys) e in cc
    | inr (p, e) ↦ rw e refl
  ]
