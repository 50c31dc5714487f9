-- ===== src/Scoring/Backoffs.antt =====
-- internal/scoring/consumer.go: the waits between the attempts.
use ta_platform.Prelude.{
  ℕ, zero, suc, ◌-◌, ◌*◌, ◌^◌, ◌≤◌, ◌<◌, ◌≡◌, ap, ◌∙◌, arith, inl, inr, Bool-cases, pos, min_ℤ,
  mul64_exact, ltb_ℤ,
}
use Prim.Native.Nat.{min}
use native.Mathlib.Nat.{pow-suc}
use ta_platform.Scoring.{doubled, backoff}

power_pos : (n : ℕ) → 1 ≤ 2 ^ n
power_pos zero = omega arith
power_pos (suc n) = omega (arith, power_pos n)

power : (w n : ℕ) → (w * 2) * 2 ^ n ≡ w * 2 ^ suc n
power w n = grind (arith, pow-suc 2 n)

-- A wait that has reached the bound.
capped : (w k m : ℕ) → m ≤ w → 1 ≤ k → min_ℤ (pos w) (pos m) ≡ pos (min (w * k) m)
capped w k m h l = let big : w ≤ w * k = grind arith in ground arith

-- The wait doubles as long as it is below the bound, which a wait that is doubled keeps it below 2^63.
doubled-min :
    (n w m : ℕ)
    → 0 < w
    → m ≤ 2 ^ 62
    → min_ℤ (doubled n (pos w) (pos m)) (pos m) ≡ pos (min (w * 2 ^ n) m)
unfolding doubled
doubled-min zero w m h k = ground arith
doubled-min (suc n) w m h k = elim (Bool-cases (ltb_ℤ (pos w) (pos m))) [
  | inl below ↦
      let small : w * 2 < 2 ^ 63 = ground arith in
      let twice : (w * 2) * 2 ^ n ≡ w * 2 ^ suc n = power w n in
      rw below (
        ap (λ x. min_ℤ (doubled n x (pos m)) (pos m)) (mul64_exact w 2 small)
        ∙ (doubled-min n (w * 2) m (omega arith) k ∙ ap (λ x. pos (min x m)) twice))
  | inr enough ↦ rw enough (capped w (2 ^ suc n) m (ground arith) (power_pos (suc n)))
]

-- Where the base wait is positive and the bound at most 2^62 nanoseconds, the wait after an attempt
-- is the base doubled once for each attempt before it, or the bound if that is less; the products
-- do not wrap.
pub backoff-min :
    (base_backoff max_backoff attempt : ℕ)
    → 0 < base_backoff
    → max_backoff ≤ 2 ^ 62
    → backoff (pos base_backoff) (pos max_backoff) attempt
      ≡ pos (min (base_backoff * 2 ^ (attempt - 1)) max_backoff)
unfolding backoff
backoff-min b m attempt h k = doubled-min (attempt - 1) b m h k
