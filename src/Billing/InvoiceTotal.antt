-- ===== src/Billing/InvoiceTotal.antt =====
-- The totals of an invoice: charges of Price followed by the lines of ApplyCredits, as
-- closeCompany of internal/billing/close.go joins them.
use Prim.Native.Nat.{min}
use ta_platform.Prelude.{
  ℕ, ◌+◌, ◌-◌, ◌^◌, ◌≤◌, ◌<◌, ◌≡◌, refl, ap, ◌∙◌, true, some, List, [], ◌∷◌, ◌++◌, arith, ℤ, pos,
  pos_part, neg_part, sub64, sub64_exact, sub64_of_neg, add64, add64_exact, All, sort_stable,
  insert_sorted, if◌then◌else◌, All-if, append-nil, neg64_exact, ◌==◌,
}
use ta_platform.Billing.Pricing.{Usage, PriceTable, Line, price}
use ta_platform.Billing.Credits.{
  Credit, credit_less, sort_credits, credit_line, apply_loop, apply_credits,
}
use ta_platform.Billing.Totals.{is_credit, totals_loop, totals}
use ta_platform.Billing.Close.{invoice_lines}
use ta_platform.Billing.Spending.{fund, funds, spent, apply_loop-cons, spent-apply_loop}
use ta_platform.Billing.Charges.{IsCharge, gross, exact_charge, IsMetered, IsAccepted, price_exact}

totals_loop-append :
    (s c : ℤ) (xs ys : List Line)
    → totals_loop s c (xs ++ ys) ≡ totals_loop (totals_loop s c xs).0 (totals_loop s c xs).1 ys
unfolding totals_loop
totals_loop-append s c [] ys = refl
totals_loop-append s c (x ∷ xs) ys =
    totals_loop-append (if is_credit x.kind then s else add64 s x.amount_cents)
      (if is_credit x.kind then sub64 c x.amount_cents else c) xs ys

totals_loop-charges :
    (s : ℕ) (c : ℤ) (ls : List Line)
    → All IsCharge ls
    → s + gross ls < 2 ^ 63
    → totals_loop (pos s) c ls ≡ (pos (s + gross ls), c)
unfolding totals_loop
totals_loop-charges s c [] h k = ground arith
totals_loop-charges s c (l ∷ ls) h k = ground (
  arith,
  totals_loop-charges (s + pos_part l.amount_cents) c ls h.1,
  add64_exact s (pos_part l.amount_cents),
)

-- A line that takes off the invoice.
abbrev pub IsCreditLine : Line → Type 0
IsCreditLine l = (is_credit l.kind ≡ true) × (pos_part l.amount_cents ≡ 0)

totals_loop-credits :
    (s : ℤ) (c : ℕ) (ls : List Line)
    → All IsCreditLine ls
    → c + spent ls < 2 ^ 63
    → totals_loop s (pos c) ls ≡ (s, pos (c + spent ls))
unfolding totals_loop
totals_loop-credits s c [] h k = ground arith
totals_loop-credits s c (l ∷ ls) h k = ground (
  arith,
  totals_loop-credits s (c + neg_part l.amount_cents) ls h.1,
  sub64_of_neg c l.amount_cents,
)

credit_line-IsCreditLine :
    (c : Credit) (n : ℕ) → 0 < n → n < 2 ^ 63 → IsCreditLine (credit_line c (pos n))
unfolding credit_line
credit_line-IsCreditLine c n h k = rw (neg64_exact n h k) (refl, refl)

apply_loop-IsCreditLine :
    (d : ℕ) (cs : List Credit) → d < 2 ^ 63 → All IsCreditLine (apply_loop (pos d) cs)
apply_loop-IsCreditLine d [] h = unfold apply_loop in tt
apply_loop-IsCreditLine d (c ∷ cs) h = rw (apply_loop-cons d c cs h) (
    All-if IsCreditLine (d == 0) _ _ (λ _. tt)
      (λ due.
        All-if IsCreditLine (fund c == 0) _ _ (λ _. apply_loop-IsCreditLine d cs h)
          (λ pays. (
            credit_line-IsCreditLine c (min (fund c) d) (ground arith) (omega arith),
            apply_loop-IsCreditLine (d - min (fund c) d) cs (omega arith),
          ))))

-- The totals of charges followed by credit lines that do not exceed them.
totals-join :
    (xs ys : List Line)
    → All IsCharge xs
    → All IsCreditLine ys
    → gross xs < 2 ^ 63
    → spent ys ≤ gross xs
    → totals (xs ++ ys)
      ≡ some (record {
        subtotal = pos (gross xs);
        credits = pos (spent ys);
        total = pos (gross xs - spent ys);
      })
unfolding totals
totals-join xs ys h k f g = rw (totals_loop-append (pos 0) (pos 0) xs ys) (
    rw (totals_loop-charges 0 (pos 0) xs h (omega arith)) (
      rw (totals_loop-credits (pos (0 + gross xs)) 0 ys k (omega arith))
        (ground (arith, sub64_exact (gross xs) (spent ys)))))

funds-insert_sorted :
    (c : Credit) (cs : List Credit) → funds (insert_sorted credit_less c cs) ≡ fund c + funds cs
unfolding insert_sorted
funds-insert_sorted c [] = refl
funds-insert_sorted c (x ∷ xs) = ground (arith, funds-insert_sorted c xs)

-- Sorting the credits changes nothing in what they can pay.
pub funds-sort_credits : (cs : List Credit) → funds (sort_credits cs) ≡ funds cs
unfolding sort_credits sort_stable
funds-sort_credits [] = refl
funds-sort_credits (c ∷ cs) =
    funds-insert_sorted c (sort_stable credit_less cs)
    ∙ ap (λ n. fund c + n) (funds-sort_credits cs)

-- For every list of credits and every subtotal that an int64 holds, the credit lines take off as
-- much of the subtotal as the credits can pay, and no more.
pub spent-apply_credits :
    (d : ℕ) (cs : List Credit)
    → d < 2 ^ 63
    → All IsCreditLine (apply_credits (pos d) cs)
      × (spent (apply_credits (pos d) cs) ≡ min d (funds cs))
unfolding apply_credits
spent-apply_credits d cs h = (
  apply_loop-IsCreditLine d (sort_credits cs) h,
  spent-apply_loop d (sort_credits cs) h ∙ ap (min d) (funds-sort_credits cs),
)

totals_of_charges :
    (xs : List Line)
    → All IsCharge xs
    → gross xs < 2 ^ 63
    → totals xs
      ≡ some (record { subtotal = pos (gross xs); credits = pos 0; total = pos (gross xs) })
totals_of_charges xs h f =
    ground (arith, ap totals (append-nil xs), totals-join xs [] h tt f (omega arith))

-- The lines that the callback returns, and their totals, for charges that fit an int64.
pub invoice_lines-totals :
    (xs : List Line) (cs : List Credit) (n : ℕ)
    → All IsCharge xs
    → gross xs ≡ n
    → n < 2 ^ 63
    → (invoice_lines xs cs ≡ some (xs ++ apply_credits (pos n) cs))
      × (totals (xs ++ apply_credits (pos n) cs)
          ≡ some (record {
            subtotal = pos n;
            credits = pos (min n (funds cs));
            total = pos (n - min n (funds cs));
          }))
unfolding invoice_lines
invoice_lines-totals xs cs n h e f =
    let (lines, paid) = spent-apply_credits n cs f in
    (
      rw (totals_of_charges xs h (omega arith), invoice_lines) (rw e),
      rw (totals-join xs (apply_credits (pos n) cs) h lines (omega arith) (omega arith))
          (rw (e, paid)),
    )

-- For counted usage and an accepted table whose exact charge fits an int64, the lines of the
-- invoice are computed and their totals are accepted: the subtotal is the exact charge, the
-- credits are the least of the charge and what the credits hold, and the total is the rest.
pub invoice_total :
    (u : Usage) (t : PriceTable) (cs : List Credit)
    → IsMetered u
    → IsAccepted t
    → exact_charge u t < 2 ^ 63
    → (ls : List Line) × (invoice_lines (price u t) cs ≡ some ls)
      × (totals ls
          ≡ some (record {
            subtotal = pos (exact_charge u t);
            credits = pos (min (exact_charge u t) (funds cs));
            total = pos (exact_charge u t - min (exact_charge u t) (funds cs));
          }))
invoice_total u t cs m a h =
    let (charges, sum) = price_exact u t m a h in
    let (lines, sums) = invoice_lines-totals (price u t) cs (exact_charge u t) charges sum h in
    (price u t ++ apply_credits (pos (exact_charge u t)) cs, lines, sums)
