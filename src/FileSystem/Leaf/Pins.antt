-- ===== src/FileSystem/Leaf/Pins.antt =====
-- The ranges that a view points into stay pinned while the view is read.
use multi_threaded_socket.Common.{
  ℕ, ◌/◌, ◌<◌, ◌≡◌, ◌∙◌, subst, true, some, List, [], ◌∷◌, ◌++◌, arith, find, find-assign_self,
  find-assign_ne, Distinct, assign-Distinct, ℕ_discrete, All, All-append, All-single, All-map,
}
use multi_threaded_socket.FileSystem.Range.{Range, pin, is_pinned}
use multi_threaded_socket.FileSystem.Leaf.{Leaf, block_size}
use multi_threaded_socket.FileSystem.Leaf.Data.{any_pinned}
use multi_threaded_socket.FileSystem.Leaf.Reading.{View, pin_range}

-- The block is there, with a range that is pinned.
abbrev pub HasPinned : Leaf → ℕ → Type 0
HasPinned l i = (ranges : List Range) × (find i l.blocks ≡ some ranges) × (any_pinned ranges ≡ true)

pub record IsHeld (v : View) : Type 0 where
  pub distinct : Distinct v.leaf.blocks
  pub held : All (λ p. HasPinned v.leaf p.0) v.pinned

any_pinned-pin :
    (init : List Range) (r : Range) (after : List Range)
    → 0 < r.counter
    → any_pinned (init ++ pin r ∷ after) ≡ true
unfolding pin is_pinned
any_pinned-pin [] r after h = ground arith
any_pinned-pin (x ∷ init) r after h = ground (arith, any_pinned-pin init r after h)

pin_range-here :
    (l : Leaf) (offset : ℕ) (init : List Range) (r : Range) (after : List Range)
    → 0 < r.counter
    → HasPinned (pin_range l offset init r after) (offset / block_size)
unfolding pin_range
pin_range-here l offset init r after h = (
  init ++ pin r ∷ after,
  find-assign_self (offset / block_size) (init ++ pin r ∷ after) l.blocks,
  any_pinned-pin init r after h,
)

pin_range-kept :
    (l : Leaf) (offset : ℕ) (init : List Range) (r : Range) (after : List Range) (i : ℕ)
    → 0 < r.counter
    → HasPinned l i
    → HasPinned (pin_range l offset init r after) i
unfolding pin_range
pin_range-kept l offset init r after i h (ranges, e, p) =
    elim (ℕ_discrete (offset / block_size) i) [
      | yes q ↦
          subst (HasPinned (pin_range l offset init r after)) q
            (pin_range-here l offset init r after h)
      | no q ↦
          (ranges, find-assign_ne (offset / block_size) i (init ++ pin r ∷ after) l.blocks q ∙ e, p)
    ]

pub pin_range-IsHeld :
    (v : View) (offset : ℕ) (init : List Range) (r : Range) (after : List Range)
    (spans : List (List ℕ))
    → 0 < r.counter
    → IsHeld v
    → IsHeld (record {
      leaf = pin_range v.leaf offset init r after;
      spans = spans;
      pinned = v.pinned ++ (offset / block_size, r.offset) ∷ [];
    })
unfolding pin_range
pin_range-IsHeld v offset init r after spans h k = record {
  distinct = assign-Distinct (offset / block_size) (init ++ pin r ∷ after) v.leaf.blocks k.distinct;
  held =
      All-append (λ p. HasPinned (pin_range v.leaf offset init r after) p.0) v.pinned
        ((offset / block_size, r.offset) ∷ [])
        (All-map (λ p. HasPinned v.leaf p.0)
          (λ p. HasPinned (pin_range v.leaf offset init r after) p.0)
          (λ p. pin_range-kept v.leaf offset init r after p.0 h) v.pinned k.held)
        (All-single (λ p. HasPinned (pin_range v.leaf offset init r after) p.0)
          (pin_range-here v.leaf offset init r after h));
}
