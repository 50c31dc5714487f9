-- ===== src/Billing/Store.antt =====
-- internal/store/postgres/billing.go: the invoices and credits tables and their transactions.
-- An invoice is named by its unique key (company_id, period) in place of the generated id.
-- A transaction that fails anywhere is rolled back; `fault` says that a statement of it, or the
-- commit, fails. Sums in SQL are exact.
use ta_platform.Prelude.Results.{Result, ok, err}
use ta_platform.Prelude.{
  ℕ, String, Bool, true, false, not, ◌&&◌, Option, none, some, List, [], ◌∷◌, ◌==◌, if◌then◌else◌,
  ℤ, pos, ltb_ℤ, eqb_ℤ, ◌+ℤ◌,
}
use ta_platform.Billing.Pricing.{Line}
use ta_platform.Billing.Credits.{Credit}
use ta_platform.Billing.Totals.{Sums, totals}

pub data Status : Type 0 where
  draft issued void : Status

-- The company of a WriteDraft, with now() in its transaction.
pub record Company : Type 0 where
  pub company_id : ℕ
  pub plan_id : String
  pub currency : String
  pub now : ℤ

pub record Invoice : Type 0 where
  pub company_id : ℕ
  pub period : ℤ
  pub plan_id : String
  pub currency : String
  pub status : Status
  pub subtotal_cents : ℤ
  pub credits_cents : ℤ
  pub total_cents : ℤ
  pub computed_at : ℤ
  pub lines : List Line

pub record CreditRow : Type 0 where
  pub company_id : ℕ
  pub id : ℕ
  pub description : String
  pub amount_cents : ℤ
  pub granted_at : ℤ
  pub expires_at : Option ℤ

pub record Db : Type 0 where
  pub invoices : List Invoice
  pub credits : List CreditRow

pub data DraftOutcome : Type 0 where
  created recomputed final : DraftOutcome

pub data StoreError : Type 0 where
  database compute_failed totals_failed invoice_not_draft : StoreError

abbrev pub is_draft : Status → Bool
is_draft draft = true
is_draft _ = false

abbrev pub is_void : Status → Bool
is_void void = true
is_void _ = false

abbrev pub is_at : ℕ → ℤ → Invoice → Bool
is_at company period i = company == i.company_id && eqb_ℤ period i.period

unfoldable pub find_invoice : ℕ → ℤ → List Invoice → Option Invoice
find_invoice company period [] = none
find_invoice company period (i ∷ is) =
    if is_at company period i then some i else find_invoice company period is

-- Writes the row of the invoice's key, or appends it.
unfoldable pub put_invoice : Invoice → List Invoice → List Invoice
put_invoice v [] = v ∷ []
put_invoice v (i ∷ is) =
    let rest = put_invoice v is in if is_at v.company_id v.period i then v ∷ is else i ∷ rest

abbrev pub names : ℕ → Option ℕ → Bool
names id none = false
names id (some c) = id == c

-- sum(l.amount_cents) over the lines of one invoice that name the credit
unfoldable pub sum_lines : ℕ → List Line → ℤ
sum_lines id [] = pos 0
sum_lines id (l ∷ ls) = (if names id l.credit_id then l.amount_cents else pos 0) +ℤ sum_lines id ls

-- The subquery of availableCredits: the other invoices of the company that are not void.
unfoldable pub sum_others : ℕ → ℤ → ℕ → List Invoice → ℤ
unfolding sum_lines
sum_others company period id [] = pos 0
sum_others company period id (i ∷ is) =
    (if company == i.company_id && (not (eqb_ℤ period i.period) && not (is_void i.status))
      then sum_lines id i.lines
      else pos 0)
    +ℤ sum_others company period id is

abbrev unexpired : Option ℤ → ℤ → Bool
unexpired none period = true
unexpired (some e) period = ltb_ℤ period e

-- The WHERE clause; `period_end` is `period + interval '1 month'`.
abbrev pub is_available : ℕ → ℤ → ℤ → CreditRow → Bool
is_available company period period_end c =
    company == c.company_id && (ltb_ℤ c.granted_at period_end && unexpired c.expires_at period)

abbrev pub remaining : ℕ → ℤ → List Invoice → CreditRow → ℤ
remaining company period is c = c.amount_cents +ℤ sum_others company period c.id is

-- The rows that match and still have a balance.
unfoldable pub available_credits : ℕ → ℤ → ℤ → List Invoice → List CreditRow → List Credit
unfolding sum_others
available_credits company period period_end is [] = []
available_credits company period period_end is (c ∷ cs) =
    let rest = available_credits company period period_end is cs in
    let balance = remaining company period is c in
    if is_available company period period_end c && ltb_ℤ (pos 0) balance
    then record {
      id = c.id;
      description = c.description;
      remaining_cents = balance;
      granted_at = c.granted_at;
      expires_at = c.expires_at;
    }
      ∷ rest
    else rest

-- The row that INSERT makes, with the column defaults.
abbrev pub blank : Company → ℤ → Invoice
blank c period = record {
  company_id = c.company_id;
  period = period;
  plan_id = c.plan_id;
  currency = c.currency;
  status = draft;
  subtotal_cents = pos 0;
  credits_cents = pos 0;
  total_cents = pos 0;
  computed_at = c.now;
  lines = [];
}

abbrev pub filled : Company → Invoice → Sums → List Line → Invoice
filled c i sums ls = record i {
  plan_id = c.plan_id;
  currency = c.currency;
  subtotal_cents = sums.subtotal;
  credits_cents = sums.credits;
  total_cents = sums.total;
  computed_at = c.now;
  lines = ls;
}

-- After Totals: the writes and the commit.
unfoldable pub write_sums :
    Company
    → Invoice
    → DraftOutcome
    → Db
    → List Line
    → Option Sums
    → Db × Result StoreError DraftOutcome
write_sums c i outcome db ls none = (db, err totals_failed)
write_sums c i outcome db ls (some sums) =
    (record db { invoices = put_invoice (filled c i sums ls) db.invoices }, ok outcome)

-- After `compute`.
unfoldable pub write_lines :
    Company → Invoice → DraftOutcome → Db → Option (List Line) → Db × Result StoreError DraftOutcome
unfolding write_sums
write_lines c i outcome db none = (db, err compute_failed)
write_lines c i outcome db (some ls) = write_sums c i outcome db ls (totals ls)

-- From the locked invoice on.
unfoldable pub write_locked :
    Company
    → ℤ
    → ℤ
    → (List Credit → Option (List Line))
    → Db
    → Invoice
    → DraftOutcome
    → Db × Result StoreError DraftOutcome
unfolding write_lines
write_locked c period period_end compute db i outcome =
    if is_draft i.status
    then write_lines c i outcome db
        (compute (available_credits c.company_id period period_end db.invoices db.credits))
    else (db, ok final)

-- The invoice that INSERT ... ON CONFLICT DO NOTHING left at the key, and the outcome.
abbrev pub inserted : Company → ℤ → Option Invoice → Invoice × DraftOutcome
inserted c period none = (blank c period, created)
inserted c period (some i) = (i, recomputed)

unfoldable pub write_draft :
    Company
    → ℤ
    → ℤ
    → Bool
    → (List Credit → Option (List Line))
    → Db
    → Db × Result StoreError DraftOutcome
unfolding write_locked find_invoice put_invoice available_credits
write_draft c period period_end fault compute db =
    let (i, outcome) = inserted c period (find_invoice c.company_id period db.invoices) in
    if fault then (db, err database) else write_locked c period period_end compute db i outcome

issue_found : Db → Option Invoice → Db × Result StoreError (Unit {0})
issue_found db none = (db, err invoice_not_draft)
issue_found db (some i) =
    if is_draft i.status
    then (record db { invoices = put_invoice (record i { status = issued }) db.invoices }, ok tt)
    else (db, err invoice_not_draft)

-- UPDATE ... WHERE status = 'draft'; no affected row is ErrInvoiceNotDraft.
unfoldable pub issue_invoice : ℕ → ℤ → Bool → Db → Db × Result StoreError (Unit {0})
unfolding find_invoice put_invoice issue_found
issue_invoice company period fault db =
    if fault then (db, err database) else issue_found db (find_invoice company period db.invoices)
