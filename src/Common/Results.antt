-- ===== src/Common/Results.antt =====
-- Results of functions that may throw `std::runtime_error`, one error for each message that is
-- thrown in the modelled code; `out_of_range` is what `at` throws, `assertion_failed` an `assert`
-- that does not hold. Undefined behaviour has errors of its own: `no_leaf`, an inode that is no
-- leaf's address; `null_buffer`, an answer without data; `no_pending_read`, a job that is not there.
use mathlib.Core.Path.{◌≡◌, refl}
use mathlib.Core.Logic.{◌⊎◌, inl, inr}

pub data Error : Type 0 where
  wrong_packet_number wrong_packet_type wrong_packety_type not_implemented : Error
  unknown_recv_queue_status data_not_found out_of_range assertion_failed no_leaf : Error
  null_buffer no_pending_read : Error

pub data Result {ℓ} (A : Type ℓ) : Type ℓ where
  ok : A → Result A
  err : Error → Result A

infixl 5 ◌>>=◌
abbrev pub ◌>>=◌ {ℓ κ} : {A : Type ℓ} {B : Type κ} → Result A → (A → Result B) → Result B
ok a >>= f = f a
err e >>= f = err e

pub Result-cases {ℓ} :
    {A : Type ℓ} (r : Result A) → ((e : Error) × (r ≡ err e)) ⊎ ((a : A) × (r ≡ ok a))
Result-cases (ok a) = inr (a, refl)
Result-cases (err e) = inl (e, refl)

pub ok-injective {ℓ} : {A : Type ℓ} (a b : A) → ok a ≡ ok b → a ≡ b
ok-injective a b h = cc

-- Where a call and what follows it return, the call returned something to go on with.
pub bind_ok {ℓ κ} :
    {A : Type ℓ} {C : Type κ} {c : C} (r : Result A) (next : A → Result C)
    → (r >>= next) ≡ ok c
    → (a : A) × (r ≡ ok a) × (next a ≡ ok c)
bind_ok (err e) next h = cc
bind_ok (ok a) next h = (a, refl, h)
