-- ===== src/Examples/Billing.antt =====
-- internal/billing and internal/store/postgres/billing.go at a small tenant.
use mathlib.Core.List.{Perm}
use mathlib.Core.Path.{subst}
use Prim.Native.Nat.{min}
use ta_platform.Prelude.{
  ℕ, ◌-◌, ◌^◌, ◌<◌, ◌≡◌, refl, true, false, Option, none, some, List, [], ◌∷◌, ◌++◌, arith,
  if◌then◌else◌, pos, wrap64, ◌+ℤ◌, ◌-ℤ◌, ◌*ℤ◌, IsSorted, All, sort_stable,
}
use ta_platform.Billing.{
  Usage, PriceTable, Line, Credit, Company, Invoice, CreditRow, Db, Planned, issued, created, price,
  billable, usage_of, per_million_ceil, parse_price_table, table, totals, apply_credits, apply_loop,
  sort_credits, credit_less, invoice_lines, write_draft, close, Report, report, is_planned,
}
use ta_platform.Billing.Charges.{gross, exact_charge, IsMetered, IsAccepted}
use ta_platform.Billing.InvoiceTotal.{invoice_total}
use ta_platform.Billing.Spending.{funds, spent}
use ta_platform.Billing.Order.{apply_credits_priority}
use ta_platform.Billing.Recompute.{recomputed_at, again, write_draft-write_draft}
use ta_platform.Billing.Solvency.{IsSolvent}
use ta_platform.Billing.Closing.{
  IsBillable, close-IsSolvent, close_reports_all, reported, times, ids_of, ids_with_usage,
}
use ta_platform.Prelude.Results.{ok}

abbrev march_usage : Usage
march_usage = record {
  sessions = pos 12;
  managed_input_tokens = pos 1500001;
  managed_output_tokens = pos 20;
  byok_input_tokens = pos 7;
  byok_output_tokens = pos 8;
  runs = pos 3;
  run_duration_ms = pos 900;
}

abbrev team_plan : PriceTable
team_plan = record {
  base_fee_cents = pos 5000;
  included_sessions = pos 10;
  session_cents = pos 250;
  managed_input_per_million_cents = pos 300;
  managed_output_per_million_cents = pos 1500;
  included_runs = pos 100;
  run_cents = pos 2;
}

-- 5000 + 2 * 250 + ceil(450.0003) + ceil(0.03)
march_charge : exact_charge march_usage team_plan ≡ 5952
march_charge = refl

march_lines : gross (price march_usage team_plan) ≡ 5952
unfolding price billable per_million_ceil ◌-ℤ◌ ◌*ℤ◌ wrap64
march_lines = refl

march-IsMetered : IsMetered march_usage
march-IsMetered = omega arith

plan-IsAccepted : IsAccepted team_plan
unfolding parse_price_table
plan-IsAccepted = record { parsed = refl; sessions_fit = omega arith; runs_fit = omega arith }

abbrev trial_credit : Credit
trial_credit = record {
  id = 9;
  description = "";
  remaining_cents = pos 1000;
  granted_at = pos 5;
  expires_at = some (pos 90);
}

abbrev goodwill : Credit
goodwill = record {
  id = 4;
  description = "outage";
  remaining_cents = pos 700;
  granted_at = pos 2;
  expires_at = none;
}

invoice_total_example :
    (ls : List Line) × (invoice_lines (price march_usage team_plan) (goodwill ∷ trial_credit ∷ [])
      ≡ some ls)
    × (totals ls
        ≡ some (record {
          subtotal = pos (exact_charge march_usage team_plan);
          credits =
              pos (min (exact_charge march_usage team_plan) (funds (goodwill ∷ trial_credit ∷ [])));
          total = pos (
              exact_charge march_usage team_plan
              - min (exact_charge march_usage team_plan) (funds (goodwill ∷ trial_credit ∷ [])));
        }))
invoice_total_example =
    invoice_total march_usage team_plan (goodwill ∷ trial_credit ∷ []) march-IsMetered
      plan-IsAccepted (omega arith)

-- The credit that expires goes first.
expiring_first : sort_credits (goodwill ∷ trial_credit ∷ []) ≡ trial_credit ∷ goodwill ∷ []
unfolding sort_credits sort_stable
expiring_first = refl

apply_credits_priority_example :
    Perm ((trial_credit ∷ []) ++ goodwill ∷ []) (goodwill ∷ trial_credit ∷ [])
    × IsSorted credit_less ((trial_credit ∷ []) ++ goodwill ∷ [])
    × (apply_credits (pos 1200) (goodwill ∷ trial_credit ∷ [])
        ≡ apply_loop (pos 1200) (trial_credit ∷ [])
          ++ apply_loop (pos (1200 - funds (trial_credit ∷ []))) (goodwill ∷ []))
    × (spent (apply_loop (pos 1200) (trial_credit ∷ [])) ≡ min 1200 (funds (trial_credit ∷ [])))
    × (spent (apply_loop (pos (1200 - funds (trial_credit ∷ []))) (goodwill ∷ []))
        ≡ min (1200 - funds (trial_credit ∷ [])) (funds (goodwill ∷ [])))
apply_credits_priority_example =
    apply_credits_priority 1200 (goodwill ∷ trial_credit ∷ []) (trial_credit ∷ []) (goodwill ∷ [])
      (omega arith) expiring_first

abbrev acme : Company
acme = record { company_id = 1; plan_id = "team"; currency = "USD"; now = pos 91 }

abbrev granted_row : CreditRow
granted_row = record {
  company_id = 1;
  id = 9;
  description = "";
  amount_cents = pos 1000;
  granted_at = pos 5;
  expires_at = none;
}

abbrev fresh_db : Db
fresh_db = record { invoices = []; credits = granted_row ∷ [] }

abbrev march_compute : List Credit → Option (List Line)
march_compute = invoice_lines (price march_usage team_plan)

abbrev march_db : Db
march_db = (write_draft acme (pos 60) (pos 90) false march_compute fresh_db).0

march_closed :
    write_draft acme (pos 60) (pos 90) false march_compute fresh_db ≡ (march_db, ok created)
unfolding write_draft invoice_lines price billable per_million_ceil totals apply_credits sort_stable
    wrap64 ◌-ℤ◌ ◌*ℤ◌ ◌+ℤ◌
march_closed = refl

write_draft-write_draft_example :
    write_draft (record acme { now = pos 95 }) (pos 60) (pos 90) false march_compute march_db
    ≡ (recomputed_at acme (pos 60) (pos 95) created march_db, ok (again created))
write_draft-write_draft_example =
    write_draft-write_draft acme (pos 95) (pos 60) (pos 90) march_compute fresh_db march_db created
      march_closed

abbrev issued_invoice : Invoice
issued_invoice = record {
  company_id = 1;
  period = pos 60;
  plan_id = "team";
  currency = "USD";
  status = issued;
  subtotal_cents = pos 5000;
  credits_cents = pos 0;
  total_cents = pos 5000;
  computed_at = pos 80;
  lines = [];
}

abbrev issued_db : Db
issued_db = record { invoices = issued_invoice ∷ []; credits = granted_row ∷ [] }

abbrev acme_planned : Planned
acme_planned = record { company = acme; price_table = some team_plan }

fresh-IsSolvent : IsSolvent fresh_db
fresh-IsSolvent = record { keyed = tt; signed = tt; within = λ company id. omega arith }

table_eq : (a b : PriceTable) → table a ≡ table b → a ≡ b
table_eq a b h = cc

abbrev AtPlan : PriceTable → Type 0
AtPlan t = IsMetered march_usage × IsAccepted t × (exact_charge march_usage t < 2 ^ 63)

acme-IsBillable : All (IsBillable ((1, march_usage) ∷ (2, march_usage) ∷ [])) (acme_planned ∷ [])
unfolding parse_price_table usage_of
acme-IsBillable = (
  λ t h. subst AtPlan (table_eq team_plan t h) (march-IsMetered, plan-IsAccepted, omega arith),
  tt,
)

close-IsSolvent_example :
    IsSolvent
      (close
        (λ t. t)
        (pos 60)
        (pos 90)
        (λ id. false)
        (some ((1, march_usage) ∷ (2, march_usage) ∷ []))
        (some (acme_planned ∷ []))
        fresh_db).0
close-IsSolvent_example =
    close-IsSolvent (λ t. t) (pos 60) (pos 90) (λ id. false)
      ((1, march_usage) ∷ (2, march_usage) ∷ []) (acme_planned ∷ []) fresh_db acme-IsBillable
      fresh-IsSolvent

close_reports_all_example :
    (r : Report) × ((close
        (λ t. t)
        (pos 60)
        (pos 90)
        (λ id. true)
        (some ((1, march_usage) ∷ (2, march_usage) ∷ []))
        (some (acme_planned ∷ []))
        fresh_db).1
      ≡ report r)
    × ((id : ℕ) → reported id r ≡ times id (ids_of (acme_planned ∷ [])))
    × ((id : ℕ)
        → times id r.unplanned_ids ≡ (
            if is_planned id (acme_planned ∷ [])
            then 0
            else times id (ids_with_usage ((1, march_usage) ∷ (2, march_usage) ∷ []))))
close_reports_all_example =
    close_reports_all (λ t. t) (pos 60) (pos 90) (λ id. true)
      ((1, march_usage) ∷ (2, march_usage) ∷ []) (acme_planned ∷ []) fresh_db refl
