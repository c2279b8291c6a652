-- ===== src/Common/Maps.antt =====
-- Maps from numbers: `std::map` and `std::unordered_map` as lists of pairs. The first pair of a key
-- is the one that counts; `assign` keeps the keys distinct.
use Prim.Native.Nat.{ℕ}
use mathlib.Core.Path.{◌≡◌, refl, ◌∙◌}
use mathlib.Core.Logic.{◌≢◌, inl, inr}
use mathlib.Core.Option.{Option, none, some}
use mathlib.Core.List.{List, [], ◌∷◌}
use native.Mathlib.Omega.{arith}
use multi_threaded_socket.Common.Tests.{Bool-cases, ◌==◌, if◌then◌else◌}

module _ {ℓ} {A : Type ℓ} where
  unfoldable pub find : ℕ → List (ℕ × A) → Option A
  find k [] = none
  find k ((key, value) ∷ m) = if key == k then some value else find k m

  -- `m[k] = value`
  unfoldable pub assign : ℕ → A → List (ℕ × A) → List (ℕ × A)
  assign k value [] = (k, value) ∷ []
  assign k value ((key, old) ∷ m) =
      if key == k then (key, value) ∷ m else (key, old) ∷ assign k value m

  unfoldable pub erase : ℕ → List (ℕ × A) → List (ℕ × A)
  erase k [] = []
  erase k ((key, value) ∷ m) = if key == k then erase k m else (key, value) ∷ erase k m

  pub find-assign_self : (k : ℕ) (v : A) (m : List (ℕ × A)) → find k (assign k v m) ≡ some v
  unfolding find assign
  find-assign_self k v [] = ground arith
  find-assign_self k v ((key, old) ∷ m) = ground (arith, find-assign_self k v m)

  pub find-assign_ne :
      (k j : ℕ) (v : A) (m : List (ℕ × A)) → k ≢ j → find j (assign k v m) ≡ find j m
  unfolding find assign
  find-assign_ne k j v [] h = ground arith
  find-assign_ne k j v ((key, old) ∷ m) h = ground (arith, find-assign_ne k j v m h)

  pub find-erase_self : (k : ℕ) (m : List (ℕ × A)) → find k (erase k m) ≡ none
  unfolding find erase
  find-erase_self k [] = refl
  find-erase_self k ((key, old) ∷ m) = ground (arith, find-erase_self k m)

  pub find-erase_ne : (k j : ℕ) (m : List (ℕ × A)) → k ≢ j → find j (erase k m) ≡ find j m
  unfolding find erase
  find-erase_ne k j [] h = refl
  find-erase_ne k j ((key, old) ∷ m) h = ground (arith, find-erase_ne k j m h)

  pub erase_absent : (k : ℕ) (m : List (ℕ × A)) → find k m ≡ none → erase k m ≡ m
  unfolding find erase
  erase_absent k [] e = refl
  erase_absent k ((key, old) ∷ m) e = ground (arith, erase_absent k m)

-- No key stands twice.
module _ {A : Type 0} where
  unfoldable pub Distinct : List (ℕ × A) → Type 0
  Distinct [] = Unit
  Distinct ((key, value) ∷ m) = (find key m ≡ none) × Distinct m

  pub assign-Distinct : (k : ℕ) (v : A) (m : List (ℕ × A)) → Distinct m → Distinct (assign k v m)
  unfolding Distinct assign find
  assign-Distinct k v [] d = (refl, tt)
  assign-Distinct k v ((key, old) ∷ m) d = elim (Bool-cases (key == k)) [
    | inl e ↦ rw e d
    | inr e ↦ rw e (find-assign_ne k key v m (ground arith) ∙ d.0, assign-Distinct k v m d.1)
  ]

  pub erase-Distinct : (k : ℕ) (m : List (ℕ × A)) → Distinct m → Distinct (erase k m)
  unfolding Distinct erase
  erase-Distinct k [] d = d
  erase-Distinct k ((key, old) ∷ m) d = elim (Bool-cases (key == k)) [
    | inl e ↦ rw e (erase-Distinct k m d.1)
    | inr e ↦ rw e (find-erase_ne k key m (ground arith) ∙ d.0, erase-Distinct k m d.1)
  ]
