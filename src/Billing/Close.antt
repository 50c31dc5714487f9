-- ===== src/Billing/Close.antt =====
-- internal/billing/close.go: the close run over all companies on a plan.
use ta_platform.Prelude.Results.{Result, ok, err}
use ta_platform.Prelude.{
  ℕ, Bool, true, false, not, Option, none, some, List, [], ◌∷◌, ◌++◌, ◌==◌, if◌then◌else◌, ℤ, pos,
  eqb_ℤ,
}
use ta_platform.Billing.Pricing.{
  Usage, PriceTable, Line, Parsed, table, rejected, parse_price_table, price,
}
use ta_platform.Billing.Credits.{Credit, apply_credits}
use ta_platform.Billing.Totals.{Sums, totals}
use ta_platform.Billing.Store.{
  Company, Db, StoreError, DraftOutcome, created, recomputed, final, write_draft,
}

-- A company on a plan, with what the strict JSON decoder makes of its price table.
pub record Planned : Type 0 where
  pub company : Company
  pub price_table : Option PriceTable

abbrev with_credits : List Line → List Credit → Option Sums → Option (List Line)
with_credits charges credits none = none
with_credits charges credits (some sums) = some (charges ++ apply_credits sums.subtotal credits)

-- The callback of closeCompany; `none` is the error of Totals.
unfoldable pub invoice_lines : List Line → List Credit → Option (List Line)
invoice_lines charges credits = with_credits charges credits (totals charges)

-- The outcome of closeCompany; `none` is an error.
abbrev outcome_of : Result StoreError DraftOutcome → Option DraftOutcome
outcome_of (ok o) = some o
outcome_of (err e) = none

unfoldable pub close_priced :
    Company → ℤ → ℤ → Bool → Usage → Parsed → Db → Db × Option DraftOutcome
close_priced c period period_end fault usage (rejected e) db = (db, none)
close_priced c period period_end fault usage (table t) db =
    let (db', result) = write_draft c period period_end fault (invoice_lines (price usage t)) db in
    (db', outcome_of result)

unfoldable pub close_company : Planned → ℤ → ℤ → Bool → Usage → Db → Db × Option DraftOutcome
unfolding close_priced
close_company p period period_end fault usage db =
    close_priced p.company period period_end fault usage (parse_price_table p.price_table) db

pub record Report : Type 0 where
  pub created_ids : List ℕ
  pub recomputed_ids : List ℕ
  pub final_ids : List ℕ
  pub unplanned_ids : List ℕ
  pub failed_ids : List ℕ

abbrev pub empty_report : Report
empty_report = record {
  created_ids = [];
  recomputed_ids = [];
  final_ids = [];
  unplanned_ids = [];
  failed_ids = [];
}

-- The switch of Close.
unfoldable pub note : ℕ → Option DraftOutcome → Report → Report
note id none r = record r { failed_ids = r.failed_ids ++ id ∷ [] }
note id (some created) r = record r { created_ids = r.created_ids ++ id ∷ [] }
note id (some recomputed) r = record r { recomputed_ids = r.recomputed_ids ++ id ∷ [] }
note id (some final) r = record r { final_ids = r.final_ids ++ id ∷ [] }

-- The usage rows, in the order in which Go ranges over the map.
abbrev pub UsageRows : Type 0
UsageRows = List (ℕ × Usage)

abbrev no_usage : Usage
no_usage = record {
  sessions = pos 0;
  managed_input_tokens = pos 0;
  managed_output_tokens = pos 0;
  byok_input_tokens = pos 0;
  byok_output_tokens = pos 0;
  runs = pos 0;
  run_duration_ms = pos 0;
}

-- usage[companyID]; a missing key reads as the zero Usage
unfoldable pub usage_of : ℕ → UsageRows → Usage
usage_of id [] = no_usage
usage_of id ((k, u) ∷ rows) = if id == k then u else usage_of id rows

-- The loop over the companies; `faults` says for which of them the transaction fails.
unfoldable pub close_loop :
    ℤ → ℤ → (ℕ → Bool) → UsageRows → List Planned → Db → Report → Db × Report
unfolding close_company note usage_of
close_loop period period_end faults rows [] db r = (db, r)
close_loop period period_end faults rows (p ∷ ps) db r =
    let id = p.company.company_id in
    let (db', outcome) = close_company p period period_end (faults id) (usage_of id rows) db in
    close_loop period period_end faults rows ps db' (note id outcome r)

abbrev pub is_planned : ℕ → List Planned → Bool
is_planned id [] = false
is_planned id (p ∷ ps) = if id == p.company.company_id then true else is_planned id ps

-- The loop over the usage of companies without a plan.
unfoldable pub unplanned : List Planned → UsageRows → List ℕ
unplanned ps [] = []
unplanned ps ((id, u) ∷ rows) =
    let rest = unplanned ps rows in if not (is_planned id ps) then id ∷ rest else rest

pub data CloseError : Type 0 where
  not_a_month usage_unavailable companies_unavailable : CloseError

pub data Closed : Type 0 where
  report : Report → Closed
  failed : CloseError → Closed

-- After the check of the period, with what the two reads returned.
unfoldable pub close_read :
    ℤ → ℤ → (ℕ → Bool) → Option UsageRows → Option (List Planned) → Db → Db × Closed
unfolding close_loop unplanned
close_read period period_end faults none companies db = (db, failed usage_unavailable)
close_read period period_end faults (some rows) none db = (db, failed companies_unavailable)
close_read period period_end faults (some rows) (some ps) db =
    let (db', r) = close_loop period period_end faults rows ps db empty_report in
    (db', report (record r { unplanned_ids = r.unplanned_ids ++ unplanned ps rows }))

-- Close. `usage` and `companies` are what the two reads return, `none` for their errors;
-- `period_start` is PeriodStart, the calendar arithmetic of package time.
unfoldable pub close :
    (ℤ → ℤ) → ℤ → ℤ → (ℕ → Bool) → Option UsageRows → Option (List Planned) → Db → Db × Closed
unfolding close_read
close period_start period period_end faults usage companies db =
    if not (eqb_ℤ period (period_start period))
    then (db, failed not_a_month)
    else close_read period period_end faults usage companies db
