-- ===== src/Stats/Speed.antt =====
-- SpeedController over time.
use native.Mathlib.Nat.{div-eq_of_lt, div-mul-le_self}
use multi_threaded_socket.Common.{
  ℕ, ◌+◌, ◌-◌, ◌*◌, ◌/◌, ◌≤◌, ◌<◌, ◌≡◌, refl, sym, subst, ap₂, ◌^◌, List, [], ◌∷◌, arith, length,
  replicate, ltb, ◌==◌, ◌%◌, Bool-cases, inl, inr, false,
}
use multi_threaded_socket.Stats.{
  SpeedController, second, interval, get_number_packet_to_send, clamp, stable_speed,
}

-- The numbers that successive calls return, at the given times.
pub poll : SpeedController → List ℕ → List ℕ
poll c [] = []
poll c (now ∷ times) = let (n, c') = get_number_packet_to_send c now in n ∷ poll c' times

abbrev pub Late : ℕ → List ℕ → Type 0
Late last [] = Unit {0}
Late last (now ∷ times) = (last + 100 * second < now) × Late last times

stalled_once :
    (c : SpeedController) (now : ℕ)
    → c.last_send + 100 * second < now
    → ((get_number_packet_to_send c now).0 ≡ 0)
      × ((get_number_packet_to_send c now).1.last_send ≡ c.last_send)
unfolding get_number_packet_to_send
stalled_once c now h =
    let late : 100 * second < now - c.last_send = omega arith in
    let z : 100 * second / (now - c.last_send) ≡ 0 = div-eq_of_lt late in rw z (ground arith)

-- Once more than 100 seconds have passed since the last send, no call ever allows a packet again.
pub stalled_forever :
    (times : List ℕ) (c : SpeedController)
    → Late c.last_send times
    → poll c times ≡ replicate (length times) 0
unfolding poll
stalled_forever [] c h = refl
stalled_forever (now ∷ times) c h =
    let (z, l) = stalled_once c now h.0 in
    ap₂ ◌∷◌ z (
      stalled_forever times (get_number_packet_to_send c now).1
        (subst (λ t. Late t times) (sym l) h.1))

clamp-le : (v lo hi : ℕ) → lo ≤ hi → clamp v lo hi ≤ hi
unfolding clamp
clamp-le v lo hi h = ground arith

-- A call that comes at least half an interval after the last send keeps to the greatest speed that is
-- set: the number that it allows, times the number of such waits in 100 seconds, is at most that speed
-- times the intervals in 100 seconds.
pub number_bounded :
    (c : SpeedController) (now : ℕ)
    → c.min_speed ≤ c.max_speed
    → interval / 2 ≤ now - c.last_send
    → (get_number_packet_to_send c now).0 * (100 * second / (now - c.last_send))
      ≤ c.max_speed * (second / interval) * 100
unfolding get_number_packet_to_send
number_bounded c now h late =
    let diff = now - c.last_send in
    let coefficient = 100 * second / diff in
    let product = clamp stable_speed c.min_speed c.max_speed * (second / interval) * 100 in
    let limit : product ≤ c.max_speed * (second / interval) * 100 =
      omega (arith, clamp-le stable_speed c.min_speed c.max_speed h) in
    let quotient : product % 2 ^ 64 / coefficient * coefficient ≤ product % 2 ^ 64 =
      div-mul-le_self (product % 2 ^ 64) coefficient in
    let early : ltb diff (interval / 2) ≡ false = ground arith in
    elim (Bool-cases (coefficient == 0)) [
      | inl z ↦ rw (early, z) (omega arith)
      | inr z ↦ rw (early, z) (omega arith)
    ]
