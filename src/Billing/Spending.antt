-- ===== src/Billing/Spending.antt =====
-- How ApplyCredits of internal/billing/pricing.go spends the credits of a company.
use Prim.Native.Nat.{min}
use ta_platform.Prelude.{
  ℕ, ◌+◌, ◌-◌, ◌^◌, ◌<◌, ◌≡◌, refl, false, List, [], ◌∷◌, ◌++◌, arith, ◌==◌, if◌then◌else◌, pos,
  pos_part, neg_part, leb_ℤ, min_ℤ, sub64_exact, neg64_exact,
}
use ta_platform.Billing.Pricing.{Line}
use ta_platform.Billing.Credits.{Credit, credit_line, apply_loop}

-- What a credit can pay.
abbrev pub fund : Credit → ℕ
fund c = pos_part c.remaining_cents

abbrev pub funds : List Credit → ℕ
funds [] = 0
funds (c ∷ cs) = fund c + funds cs

-- What the credit lines take off the invoice.
abbrev pub spent : List Line → ℕ
spent [] = 0
spent (l ∷ ls) = neg_part l.amount_cents + spent ls

-- What a round applies, as a number.
min_ℤ-fund : (d : ℕ) (c : Credit) → pos_part (min_ℤ c.remaining_cents (pos d)) ≡ min (fund c) d
min_ℤ-fund d c = ground arith

min_ℤ_pos :
    (d : ℕ) (c : Credit)
    → leb_ℤ (min_ℤ c.remaining_cents (pos d)) (pos 0) ≡ false
    → min_ℤ c.remaining_cents (pos d) ≡ pos (min (fund c) d)
min_ℤ_pos d c h = ground arith

-- One round of the loop, on numbers.
pub apply_loop-cons :
    (d : ℕ) (c : Credit) (cs : List Credit)
    → d < 2 ^ 63
    → apply_loop (pos d) (c ∷ cs) ≡ (
        if d == 0
        then []
        else if fund c == 0
        then apply_loop (pos d) cs
        else credit_line c (pos (min (fund c) d)) ∷ apply_loop (pos (d - min (fund c) d)) cs)
unfolding apply_loop
apply_loop-cons d c cs h =
    ground (arith, min_ℤ-fund d c, min_ℤ_pos d c, sub64_exact d (min (fund c) d))

spent-cons :
    (d : ℕ) (c : Credit) (ls : List Line)
    → 0 < d
    → d < 2 ^ 63
    → neg_part (credit_line c (pos d)).amount_cents ≡ d
unfolding credit_line
spent-cons d c ls h k = rw (neg64_exact d h k) (omega arith)

-- The credits pay the invoice as far as they reach.
pub spent-apply_loop :
    (d : ℕ) (cs : List Credit) → d < 2 ^ 63 → spent (apply_loop (pos d) cs) ≡ min d (funds cs)
spent-apply_loop d [] h = unfold apply_loop in omega arith
spent-apply_loop d (c ∷ cs) h = rw (apply_loop-cons d c cs h) (
    ground (
      arith,
      spent-cons (min (fund c) d) c [],
      spent-apply_loop d cs h,
      spent-apply_loop (d - min (fund c) d) cs,
    ))

-- Once nothing is due no credit is touched.
pub apply_loop-zero : (cs : List Credit) → apply_loop (pos 0) cs ≡ []
unfolding apply_loop
apply_loop-zero [] = refl
apply_loop-zero (c ∷ cs) = refl

drained : (d a b : ℕ) → d - min a d - b ≡ d - (a + b)
drained d a b = omega arith

-- The credits that stand first are spent first: the loop over `xs ++ ys` is the loop over `xs`,
-- and then the loop over `ys` for what `xs` left due.
pub apply_loop-append :
    (d : ℕ) (xs ys : List Credit)
    → d < 2 ^ 63
    → apply_loop (pos d) (xs ++ ys) ≡ apply_loop (pos d) xs ++ apply_loop (pos (d - funds xs)) ys
apply_loop-append d [] ys h = unfold apply_loop in ground arith
apply_loop-append d (c ∷ cs) ys h = rw (apply_loop-cons d c (cs ++ ys) h) (
    rw (apply_loop-cons d c cs h) (
      ground (
        arith,
        apply_loop-zero ys,
        apply_loop-append d cs ys h,
        apply_loop-append (d - min (fund c) d) cs ys,
        drained d (fund c) (funds cs),
      )))
