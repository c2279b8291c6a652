-- ===== src/FileSystem/Leaf/Pinning.antt =====
-- What GetData leaves alone: it only pins ranges.
use multi_threaded_socket.Common.{
  ℕ, zero, suc, ◌+◌, ◌-◌, ◌/◌, ◌≡◌, refl, sym, ap, ◌∙◌, min, none, some, List, [], ◌∷◌, ◌++◌, leb,
  Result, ok, err, Result-cases, Option-cases, Bool-cases, ok-injective, inl, inr,
}
use multi_threaded_socket.FileSystem.Range.{Range}
use multi_threaded_socket.FileSystem.Leaf.{Leaf, block_size}
use multi_threaded_socket.FileSystem.Leaf.Reading.{
  View, find_range, pin_range, read_packets, read_rounds, get_data, total_size,
}

-- What pinning a range that was looked up leaves alone.
module _ {B : Type 0} (f : Leaf → B)
    (keep : (l : Leaf) (offset : ℕ) (init : List Range) (r : Range) (after : List Range)
      → find_range l offset ≡ some (init, r, after)
      → f (pin_range l offset init r after) ≡ f l) where
  read_rounds-keeps :
      (fuel : ℕ) (v : View) (offset readed : ℕ) (v' : View)
      → read_rounds fuel v offset readed ≡ ok v'
      → f v'.leaf ≡ f v.leaf
  unfolding read_rounds
  read_rounds-keeps zero v offset readed v' e =
      ap (λ (u : View). f u.leaf) (ok-injective _ _ (sym e))
  read_rounds-keeps (suc fuel) v offset zero v' e =
      ap (λ (u : View). f u.leaf) (ok-injective _ _ (sym e))
  read_rounds-keeps (suc fuel) v offset (suc n) v' e =
      elim (Option-cases (find_range v.leaf offset)) [
        | inl a ↦ ap (λ (u : View). f u.leaf) (ok-injective _ _ (sym (rw (a, read_rounds) at e)))
        | inr ((init, r, after), a) ↦
            let leaf = pin_range v.leaf offset init r after in
            let pinned = v.pinned ++ (offset / block_size, r.offset) ∷ [] in
            let kept = keep v.leaf offset init r after a in
            elim (Result-cases (read_packets r.packets (offset - r.offset) (suc n))) [
              | inl (error, b) ↦
                  let absent : ◌≡◌ {A = Result View} (err error) (ok v') =
                    rw (a, b, read_rounds) at e in
                  cc
              | inr (none, b) ↦
                  ap (λ (u : View). f u.leaf) (ok-injective _ _ (sym (rw (a, b, read_rounds) at e)))
                  ∙ kept
              | inr (some spans, b) ↦
                  read_rounds-keeps fuel
                    (record { leaf = leaf; spans = v.spans ++ spans; pinned = pinned })
                    (offset + total_size spans) (suc n - total_size spans) v'
                    (rw (a, b, read_rounds) at e)
                  ∙ kept
            ]
      ]

  pub get_data-keeps :
      (l : Leaf) (offset size : ℕ) (v : View) → get_data l offset size ≡ ok v → f v.leaf ≡ f l
  unfolding get_data
  get_data-keeps l offset size v e = elim (Bool-cases (leb l.size offset)) [
    | inl t ↦ ap (λ (u : View). f u.leaf) (ok-injective _ _ (sym (rw (t, get_data) at e)))
    | inr t ↦
        read_rounds-keeps (min size (l.size - offset))
          (record { leaf = l; spans = []; pinned = [] }) offset (min size (l.size - offset)) v
          (rw (t, get_data) at e)
  ]

pub get_data-pending_jobs :
    (l : Leaf) (offset size : ℕ) (v : View)
    → get_data l offset size ≡ ok v
    → v.leaf.pending_jobs ≡ l.pending_jobs
unfolding pin_range
get_data-pending_jobs = get_data-keeps (λ l. l.pending_jobs) (λ l offset init r after e. refl)
