-- ===== src/Billing/Closing.antt =====
-- What the close run of internal/billing/close.go does to the tables, and what it reports.
use mathlib.Core.Path.{subst}
use ta_platform.Prelude.{
  ℕ, ◌+◌, ◌^◌, ◌≤◌, ◌<◌, ◌≡◌, refl, ap, sym, ◌∙◌, Bool, true, Option, none, some, List, [], ◌∷◌,
  ◌++◌, arith, ◌==◌, if◌then◌else◌, ℤ, pos, eqb_ℤ, All, All-append, All-map, Bool-cases, some_eq,
  ==_iff, ==_refl, inl, inr,
}
use ta_platform.Billing.Pricing.{
  Usage, PriceTable, Line, Parsed, table, rejected, parse_price_table, price,
}
use ta_platform.Billing.Credits.{Credit, apply_credits}
use ta_platform.Billing.Charges.{IsMetered, IsAccepted, exact_charge, price_exact}
use ta_platform.Billing.InvoiceTotal.{invoice_lines-totals, spent-apply_credits}
use ta_platform.Billing.Store.{Company, Db, DraftOutcome, created, recomputed, final}
use ta_platform.Billing.Ledger.{IsSigned, taken_lines, due_of, taken_apply_credits}
use ta_platform.Billing.Solvency.{IsSolvent, IsFair, write_draft-IsSolvent}
use ta_platform.Billing.Close.{
  Planned, Report, UsageRows, invoice_lines, close_priced, close_company, note, usage_of,
  close_loop, is_planned, unplanned, close_read, close, empty_report, report,
}

abbrev IsUnnamed : Line → Type 0
IsUnnamed l = l.credit_id ≡ none

price-IsUnnamed : (u : Usage) (t : PriceTable) → All IsUnnamed (price u t)
unfolding price
price-IsUnnamed u t = ground arith

unnamed-taken :
    (id : ℕ) (xs ys : List Line) → All IsUnnamed xs → taken_lines id (xs ++ ys) ≡ taken_lines id ys
unnamed-taken id [] ys h = refl
unnamed-taken id (x ∷ xs) ys h = ground (arith, unnamed-taken id xs ys h.1, h.0)

unnamed-IsSigned : (l : Line) → IsUnnamed l → IsSigned l
unnamed-IsSigned l h id n = cc (h, n)

-- The lines that the callback makes from charges that name no credit.
lines-IsFair :
    (xs : List Line) (n : ℕ) (cs : List Credit)
    → All IsUnnamed xs
    → n < 2 ^ 63
    → All IsSigned (xs ++ apply_credits (pos n) cs)
      × ((id : ℕ) → taken_lines id (xs ++ apply_credits (pos n) cs) ≤ due_of id cs)
lines-IsFair xs n cs h f = (
  All-append IsSigned xs (apply_credits (pos n) cs) (All-map unnamed-IsSigned xs h)
      (All-map (λ l c id _. c.1) (apply_credits (pos n) cs) (spent-apply_credits n cs f).0),
  λ id.
      omega
        (arith, unnamed-taken id xs (apply_credits (pos n) cs) h, taken_apply_credits id n cs f),
)

invoice_lines-IsFair :
    (u : Usage) (t : PriceTable)
    → IsMetered u
    → IsAccepted t
    → exact_charge u t < 2 ^ 63
    → IsFair (invoice_lines (price u t))
invoice_lines-IsFair u t m a f cs ls h =
    let (charges, sum) = price_exact u t m a f in
    let made = (invoice_lines-totals (price u t) cs (exact_charge u t) charges sum f).0 in
    subst (λ xs. All IsSigned xs × ((id : ℕ) → taken_lines id xs ≤ due_of id cs))
      (some_eq _ ls (sym made ∙ h))
      (lines-IsFair (price u t) (exact_charge u t) cs (price-IsUnnamed u t) f)

-- A plan whose table is rejected, or prices the usage of the company within an int64.
abbrev pub IsBillable : UsageRows → Planned → Type 0
IsBillable rows p =
    (t : PriceTable)
    → parse_price_table p.price_table ≡ table t
    → IsMetered (usage_of p.company.company_id rows)
      × IsAccepted t
      × (exact_charge (usage_of p.company.company_id rows) t < 2 ^ 63)

close_priced-IsSolvent :
    (c : Company) (d e : ℤ) (fault : Bool) (u : Usage) (r : Parsed) (db : Db)
    → ((t : PriceTable) → r ≡ table t → IsMetered u × IsAccepted t × (exact_charge u t < 2 ^ 63))
    → IsSolvent db
    → IsSolvent (close_priced c d e fault u r db).0
unfolding close_priced
close_priced-IsSolvent c d e fault u (rejected x) db ok h = h
close_priced-IsSolvent c d e fault u (table t) db ok h =
    let (m, a, f) = ok t refl in
    write_draft-IsSolvent c d e fault (invoice_lines (price u t)) db
      (invoice_lines-IsFair u t m a f) h

close_loop-IsSolvent :
    (d e : ℤ) (faults : ℕ → Bool) (rows : UsageRows) (ps : List Planned) (db : Db) (r : Report)
    → All (IsBillable rows) ps
    → IsSolvent db
    → IsSolvent (close_loop d e faults rows ps db r).0
unfolding close_loop close_company
close_loop-IsSolvent d e faults rows [] db r b h = h
close_loop-IsSolvent d e faults rows (p ∷ ps) db r b h =
    let id = p.company.company_id in
    let step = close_company p d e (faults id) (usage_of id rows) db in
    close_loop-IsSolvent d e faults rows ps step.0 (note id step.1 r) b.1 (
      close_priced-IsSolvent p.company d e (faults id) (usage_of id rows)
        (parse_price_table p.price_table) db b.0 h)

-- A whole close run, with whatever transactions failing, leaves the tables solvent if they were:
-- no two invoices have one key, and the invoices that are not void take from each credit of a
-- company at most what was granted. The exact charge of each company must fit an int64.
pub close-IsSolvent :
    (start : ℤ → ℤ) (d e : ℤ) (faults : ℕ → Bool) (rows : UsageRows) (ps : List Planned) (db : Db)
    → All (IsBillable rows) ps
    → IsSolvent db
    → IsSolvent (close start d e faults (some rows) (some ps) db).0
unfolding close close_read
close-IsSolvent start d e faults rows ps db b h = elim (Bool-cases (eqb_ℤ d (start d))) [
  | inl at_start ↦ rw at_start (close_loop-IsSolvent d e faults rows ps db empty_report b h)
  | inr other ↦ rw other h
]

-- How often an id stands in a list.
abbrev pub times : ℕ → List ℕ → ℕ
times id [] = 0
times id (x ∷ xs) = (if id == x then 1 else 0) + times id xs

abbrev pub ids_of : List Planned → List ℕ
ids_of [] = []
ids_of (p ∷ ps) = p.company.company_id ∷ ids_of ps

times-append : (id : ℕ) (xs ys : List ℕ) → times id (xs ++ ys) ≡ times id xs + times id ys
times-append id [] ys = omega arith
times-append id (x ∷ xs) ys = omega (arith, times-append id xs ys)

-- How often an id is reported under an outcome.
abbrev pub reported : ℕ → Report → ℕ
reported id r =
    times id r.created_ids
    + times id r.recomputed_ids
    + times id r.final_ids
    + times id r.failed_ids

note-reported :
    (id k : ℕ) (o : Option DraftOutcome) (r : Report)
    → reported id (note k o r) ≡ reported id r + (if id == k then 1 else 0)
unfolding note
note-reported id k none r = omega (arith, times-append id r.failed_ids (k ∷ []))
note-reported id k (some created) r = omega (arith, times-append id r.created_ids (k ∷ []))
note-reported id k (some recomputed) r = omega (arith, times-append id r.recomputed_ids (k ∷ []))
note-reported id k (some final) r = omega (arith, times-append id r.final_ids (k ∷ []))

close_loop-reported :
    (d e : ℤ) (faults : ℕ → Bool) (rows : UsageRows) (ps : List Planned) (db : Db) (r : Report)
    (id : ℕ)
    → reported id (close_loop d e faults rows ps db r).1 ≡ reported id r + times id (ids_of ps)
unfolding close_loop
close_loop-reported d e faults rows [] db r id = omega arith
close_loop-reported d e faults rows (p ∷ ps) db r id =
    let k = p.company.company_id in
    let step = close_company p d e (faults k) (usage_of k rows) db in
    omega (
      arith,
      close_loop-reported d e faults rows ps step.0 (note k step.1 r) id,
      note-reported id k step.1 r,
    )

note-unplanned :
    (k : ℕ) (o : Option DraftOutcome) (r : Report) → (note k o r).unplanned_ids ≡ r.unplanned_ids
unfolding note
note-unplanned k none r = refl
note-unplanned k (some created) r = refl
note-unplanned k (some recomputed) r = refl
note-unplanned k (some final) r = refl

close_loop-unplanned :
    (d e : ℤ) (faults : ℕ → Bool) (rows : UsageRows) (ps : List Planned) (db : Db) (r : Report)
    → (close_loop d e faults rows ps db r).1.unplanned_ids ≡ r.unplanned_ids
unfolding close_loop
close_loop-unplanned d e faults rows [] db r = refl
close_loop-unplanned d e faults rows (p ∷ ps) db r =
    let k = p.company.company_id in
    let step = close_company p d e (faults k) (usage_of k rows) db in
    close_loop-unplanned d e faults rows ps step.0 (note k step.1 r) ∙ note-unplanned k step.1 r

abbrev pub ids_with_usage : UsageRows → List ℕ
ids_with_usage [] = []
ids_with_usage ((id, u) ∷ rows) = id ∷ ids_with_usage rows

times-unplanned :
    (id : ℕ) (ps : List Planned) (rows : UsageRows)
    → times id (unplanned ps rows)
      ≡ (if is_planned id ps then 0 else times id (ids_with_usage rows))
unfolding unplanned
times-unplanned id ps [] = ground arith
times-unplanned id ps ((k, u) ∷ rows) = elim (Bool-cases (id == k)) [
  | inl same ↦ rw (← (==_iff id k).0 same) (ground (arith, times-unplanned id ps rows, ==_refl id))
  | inr other ↦ ground (arith, times-unplanned id ps rows)
]

-- A run whose reads succeed for the start of a month always ends in a report, whatever
-- transactions fail. In it every company on a plan stands as often as it was listed, counted over
-- created, recomputed, final and failed together; a company stands as unplanned as often as it
-- has usage if no plan lists it, and never otherwise.
pub close_reports_all :
    (start : ℤ → ℤ) (d e : ℤ) (faults : ℕ → Bool) (rows : UsageRows) (ps : List Planned) (db : Db)
    → eqb_ℤ d (start d) ≡ true
    → (r : Report) × ((close start d e faults (some rows) (some ps) db).1 ≡ report r)
      × ((id : ℕ) → reported id r ≡ times id (ids_of ps))
      × ((id : ℕ)
          → times id r.unplanned_ids
            ≡ (if is_planned id ps then 0 else times id (ids_with_usage rows)))
unfolding close close_read
close_reports_all start d e faults rows ps db at_start =
    let r = (close_loop d e faults rows ps db empty_report).1 in
    (
      record r { unplanned_ids = r.unplanned_ids ++ unplanned ps rows },
      rw at_start refl,
      λ id. omega (arith, close_loop-reported d e faults rows ps db empty_report id),
      λ id. omega (
        arith,
        times-append id r.unplanned_ids (unplanned ps rows),
        times-unplanned id ps rows,
        ap (times id) (close_loop-unplanned d e faults rows ps db empty_report),
      ),
    )
