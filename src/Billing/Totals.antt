-- ===== src/Billing/Totals.antt =====
-- Totals of internal/billing/pricing.go.
use ta_platform.Prelude.{
  Bool, true, false, Option, none, some, List, [], ◌∷◌, if◌then◌else◌, ℤ, pos, ltb_ℤ, add64, sub64,
}
use ta_platform.Billing.Pricing.{Line, Kind, credit}

pub record Sums : Type 0 where
  pub subtotal : ℤ
  pub credits : ℤ
  pub total : ℤ

abbrev pub is_credit : Kind → Bool
is_credit credit = true
is_credit _ = false

-- The loop, with its two counters; `total` is set after it.
unfoldable pub totals_loop : ℤ → ℤ → List Line → ℤ × ℤ
totals_loop subtotal credits [] = (subtotal, credits)
totals_loop subtotal credits (line ∷ lines) =
    totals_loop (if is_credit line.kind then subtotal else add64 subtotal line.amount_cents)
      (if is_credit line.kind then sub64 credits line.amount_cents else credits) lines

-- `none` is the error "credits exceed the subtotal".
unfoldable pub totals : List Line → Option Sums
unfolding totals_loop
totals lines =
    let (subtotal, credits) = totals_loop (pos 0) (pos 0) lines in
    let total = sub64 subtotal credits in
    if ltb_ℤ total (pos 0)
    then none
    else some (record { subtotal = subtotal; credits = credits; total = total })
