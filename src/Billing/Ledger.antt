-- ===== src/Billing/Ledger.antt =====
-- What the invoices of internal/store/postgres/billing.go take from the credits of a company.
use Prim.Native.Nat.{min, max}
use ta_platform.Prelude.{
  ℕ, ◌+◌, ◌-◌, ◌^◌, ◌≤◌, ◌<◌, ◌≡◌, ◌∙◌, refl, ap, Bool, true, false, not, ◌&&◌, List, [], ◌∷◌,
  arith, ◌==◌, if◌then◌else◌, ℤ, pos, pos_part, neg_part, eqb_ℤ, +ℤ_left_of_neg, +ℤ_of_neg, All,
  Bool-cases, inl, inr, insert_sorted, sort_stable, neg64_exact,
}
use ta_platform.Billing.Pricing.{Line}
use ta_platform.Billing.Credits.{
  Credit, credit_less, sort_credits, credit_line, apply_loop, apply_credits,
}
use ta_platform.Billing.Spending.{fund, apply_loop-cons}
use ta_platform.Billing.Store.{
  Invoice, CreditRow, is_at, is_void, names, sum_lines, sum_others, put_invoice, remaining,
  available_credits,
}

-- What the lines of one invoice take from a credit.
abbrev pub taken_lines : ℕ → List Line → ℕ
taken_lines id [] = 0
taken_lines id (l ∷ ls) =
    (if names id l.credit_id then neg_part l.amount_cents else 0) + taken_lines id ls

-- What one invoice takes from a credit of the company: nothing if it is void.
abbrev pub taken_invoice : ℕ → ℕ → Invoice → ℕ
taken_invoice company id i =
    if company == i.company_id && not (is_void i.status) then taken_lines id i.lines else 0

-- What all invoices take from a credit.
abbrev pub taken : ℕ → ℕ → List Invoice → ℕ
taken company id [] = 0
taken company id (i ∷ is) = taken_invoice company id i + taken company id is

-- What the invoices at other keys than the given one take from a credit.
abbrev pub taken_others : ℕ → ℤ → ℕ → ℕ → List Invoice → ℕ
taken_others at_company period company id [] = 0
taken_others at_company period company id (i ∷ is) =
    (if is_at at_company period i then 0 else taken_invoice company id i)
    + taken_others at_company period company id is

-- What the rows of a credit grant.
abbrev pub granted : ℕ → ℕ → List CreditRow → ℕ
granted company id [] = 0
granted company id (c ∷ cs) =
    (if company == c.company_id && id == c.id then pos_part c.amount_cents else 0)
    + granted company id cs

-- A line that names a credit takes off.
abbrev pub IsSigned : Line → Type 0
IsSigned l = (id : ℕ) → names id l.credit_id ≡ true → pos_part l.amount_cents ≡ 0

-- No two invoices have one key.
abbrev pub IsKeyed : List Invoice → Type 0
IsKeyed [] = Unit
IsKeyed (i ∷ is) = All (λ j. is_at i.company_id i.period j ≡ false) is × IsKeyed is

pub taken_others-le :
    (ac : ℕ) (p : ℤ) (co id : ℕ) (is : List Invoice) → taken_others ac p co id is ≤ taken co id is
taken_others-le ac p co id [] = omega arith
taken_others-le ac p co id (i ∷ is) = ground (arith, taken_others-le ac p co id is)

-- Where no invoice has the key, all are others.
taken_others-eq :
    (v : Invoice) (co id : ℕ) (is : List Invoice)
    → All (λ j. is_at v.company_id v.period j ≡ false) is
    → taken_others v.company_id v.period co id is ≡ taken co id is
taken_others-eq v co id [] h = refl
taken_others-eq v co id (i ∷ is) h = ground (arith, taken_others-eq v co id is h.1)

-- Two keys that agree with one agree.
is_at_trans :
    (v i j : Invoice)
    → is_at v.company_id v.period i ≡ true
    → is_at i.company_id i.period j ≡ false
    → is_at v.company_id v.period j ≡ false
is_at_trans v i j h k = ground arith

All-at :
    (v i : Invoice) (is : List Invoice)
    → is_at v.company_id v.period i ≡ true
    → All (λ j. is_at i.company_id i.period j ≡ false) is
    → All (λ j. is_at v.company_id v.period j ≡ false) is
All-at v i [] h k = tt
All-at v i (j ∷ is) h k = (is_at_trans v i j h k.0, All-at v i is h k.1)

pub taken-put_invoice :
    (v : Invoice) (co id : ℕ) (is : List Invoice)
    → IsKeyed is
    → taken co id (put_invoice v is)
      ≡ taken_invoice co id v + taken_others v.company_id v.period co id is
unfolding put_invoice
taken-put_invoice v co id [] k = refl
taken-put_invoice v co id (i ∷ is) k = elim (Bool-cases (is_at v.company_id v.period i)) [
  | inl e ↦ ground (arith, taken_others-eq v co id is (All-at v i is e k.0))
  | inr e ↦ ground (arith, taken-put_invoice v co id is k.1)
]

-- The sums in SQL, where lines that name a credit take off.
sum_lines-taken :
    (id : ℕ) (ls : List Line)
    → All IsSigned ls
    → (pos_part (sum_lines id ls) ≡ 0) × (neg_part (sum_lines id ls) ≡ taken_lines id ls)
unfolding sum_lines
sum_lines-taken id [] h = (refl, refl)
sum_lines-taken id (l ∷ ls) h = ground (
  arith,
  sum_lines-taken id ls h.1,
  h.0 id,
  +ℤ_of_neg (if names id l.credit_id then l.amount_cents else pos 0) (sum_lines id ls),
)

abbrev pub AllSigned : List Invoice → Type 0
AllSigned is = All (λ (i : Invoice). All IsSigned i.lines) is

abbrev pub is_other : ℕ → ℤ → Invoice → Bool
is_other co p i = co == i.company_id && (not (eqb_ℤ p i.period) && not (is_void i.status))

-- The test in SQL, against the key and the company of the invoice.
is_other-taken :
    (co : ℕ) (p : ℤ) (i : Invoice) (n : ℕ)
    → (if is_other co p i then n else 0)
      ≡ (if is_at co p i then 0 else if co == i.company_id && not (is_void i.status) then n else 0)
is_other-taken co p i n = ground arith

parts-if :
    (b : Bool) (z : ℤ)
    → pos_part z ≡ 0
    → (pos_part (if b then z else pos 0) ≡ 0)
      × (neg_part (if b then z else pos 0) ≡ (if b then neg_part z else 0))
parts-if true z h = (h, refl)
parts-if false z h = (refl, refl)

sum_others-taken :
    (co : ℕ) (p : ℤ) (id : ℕ) (is : List Invoice)
    → AllSigned is
    → (pos_part (sum_others co p id is) ≡ 0)
      × (neg_part (sum_others co p id is) ≡ taken_others co p co id is)
unfolding sum_others
sum_others-taken co p id [] h = (refl, refl)
sum_others-taken co p id (i ∷ is) h =
    let (none_taken, rest) = sum_others-taken co p id is h.1 in
    let (signed, lines) = sum_lines-taken id i.lines h.0 in
    let (zero_here, here) = parts-if (is_other co p i) (sum_lines id i.lines) signed in
    let (sum_zero, sum) =
      +ℤ_of_neg (if is_other co p i then sum_lines id i.lines else pos 0) (sum_others co p id is)
        zero_here none_taken in
    (
      sum_zero,
      omega (
        arith,
        sum,
        rest,
        here
            ∙ ap (λ n. if is_other co p i then n else 0) lines
            ∙ is_other-taken co p i (taken_lines id i.lines),
      ),
    )

-- What the credits of an id can pay.
abbrev pub due_of : ℕ → List Credit → ℕ
due_of id [] = 0
due_of id (c ∷ cs) = (if id == c.id then fund c else 0) + due_of id cs

due_of-insert_sorted :
    (id : ℕ) (c : Credit) (cs : List Credit)
    → due_of id (insert_sorted credit_less c cs) ≡ due_of id (c ∷ cs)
unfolding insert_sorted
due_of-insert_sorted id c [] = refl
due_of-insert_sorted id c (x ∷ xs) = ground (arith, due_of-insert_sorted id c xs)

due_of-sort_credits : (id : ℕ) (cs : List Credit) → due_of id (sort_credits cs) ≡ due_of id cs
unfolding sort_credits sort_stable
due_of-sort_credits id [] = refl
due_of-sort_credits id (c ∷ cs) =
    due_of-insert_sorted id c (sort_stable credit_less cs)
    ∙ ap (λ n. (if id == c.id then fund c else 0) + n) (due_of-sort_credits id cs)

taken_credit_line :
    (id n : ℕ) (c : Credit) (ls : List Line)
    → 0 < n
    → n < 2 ^ 63
    → taken_lines id (credit_line c (pos n) ∷ ls)
      ≡ (if id == c.id then n else 0) + taken_lines id ls
unfolding credit_line
taken_credit_line id n c ls h k = ground (arith, neg64_exact n h k)

taken_apply_loop :
    (id d : ℕ) (cs : List Credit)
    → d < 2 ^ 63
    → taken_lines id (apply_loop (pos d) cs) ≤ due_of id cs
taken_apply_loop id d [] h = unfold apply_loop in omega arith
taken_apply_loop id d (c ∷ cs) h = rw (apply_loop-cons d c cs h) (
    ground (
      arith,
      taken_apply_loop id d cs h,
      taken_apply_loop id (d - min (fund c) d) cs,
      taken_credit_line id (min (fund c) d) c (apply_loop (pos (d - min (fund c) d)) cs),
    ))

pub taken_apply_credits :
    (id d : ℕ) (cs : List Credit)
    → d < 2 ^ 63
    → taken_lines id (apply_credits (pos d) cs) ≤ due_of id cs
unfolding apply_credits
taken_apply_credits id d cs h =
    omega (arith, taken_apply_loop id d (sort_credits cs) h, due_of-sort_credits id cs)

-- The balance of a row is at most its grant less what the other invoices take.
remaining-le :
    (co : ℕ) (p : ℤ) (is : List Invoice) (c : CreditRow)
    → AllSigned is
    → pos_part (remaining co p is c) ≤ pos_part c.amount_cents - taken_others co p co c.id is
remaining-le co p is c s =
    let (signed, others) = sum_others-taken co p c.id is s in
    omega (arith, others, +ℤ_left_of_neg c.amount_cents (sum_others co p c.id is) signed)

-- The credits offered to an invoice and what the others take are within the grant, or the others
-- take more than that already.
pub due_of-available :
    (co id : ℕ) (p e : ℤ) (is : List Invoice) (cs : List CreditRow)
    → AllSigned is
    → due_of id (available_credits co p e is cs) + taken_others co p co id is
      ≤ max (granted co id cs) (taken_others co p co id is)
unfolding available_credits
due_of-available co id p e is [] s = omega arith
due_of-available co id p e is (c ∷ cs) s =
    ground (arith, due_of-available co id p e is cs s, remaining-le co p is c s)
