-- ===== src/Billing/Rounding.antt =====
-- perMillionCeil of internal/billing/pricing.go rounds up, and by less than a cent.
use ta_platform.Prelude.{
  ℕ, ◌+◌, ◌-◌, ◌*◌, ◌/◌, ◌%◌, ◌^◌, ◌≤◌, ◌<◌, ◌≡◌, arith, ltb, if◌then◌else◌, pos, wrap64_id,
}
use ta_platform.Billing.Pricing.{per_million_ceil}

-- The rounded quotient that per_million_ceil computes before Int64.
abbrev ceil_million : ℕ → ℕ
ceil_million p = if ltb 0 (p % 1000000) then p / 1000000 + 1 else p / 1000000

ceil_million_bounds :
    (p : ℕ) → (p ≤ ceil_million p * 1000000) × (ceil_million p * 1000000 < p + 1000000)
ceil_million_bounds p = ground arith

pub per_million_ceil-eq :
    (q c : ℕ)
    → 0 < q
    → 0 < c
    → q * c ≤ 1000000 * (2 ^ 63 - 1)
    → per_million_ceil (pos q) (pos c) ≡ pos (ceil_million (q * c))
unfolding per_million_ceil
per_million_ceil-eq q c hq hc h =
    ground (arith, ceil_million_bounds (q * c), wrap64_id (pos (ceil_million (q * c))))

-- For a positive token count and price whose charge fits an int64, the charge in cents is the
-- exact quotient by one million rounded up: it is never below it, and above it by less than a cent.
pub per_million_ceil_exact :
    (q c : ℕ)
    → 0 < q
    → 0 < c
    → q * c ≤ 1000000 * (2 ^ 63 - 1)
    → (n : ℕ) × (per_million_ceil (pos q) (pos c) ≡ pos n)
      × (q * c ≤ n * 1000000)
      × (n * 1000000 < q * c + 1000000)
per_million_ceil_exact q c hq hc h =
    let b = ceil_million_bounds (q * c) in
    (ceil_million (q * c), per_million_ceil-eq q c hq hc h, b.0, b.1)
