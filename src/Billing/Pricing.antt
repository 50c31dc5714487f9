-- ===== src/Billing/Pricing.antt =====
-- internal/billing/pricing.go: usage, price tables and charge lines.
use ta_platform.Prelude.{
  ℕ, ◌+◌, ◌*◌, ◌/◌, ◌%◌, String, Bool, ◌||◌, Option, none, some, List, [], ◌∷◌, ◌++◌, ltb,
  if◌then◌else◌, ℤ, pos, pos_part, ltb_ℤ, leb_ℤ, max_ℤ, wrap64, sub64, mul64,
}

pub record Usage : Type 0 where
  pub sessions : ℤ
  pub managed_input_tokens : ℤ
  pub managed_output_tokens : ℤ
  pub byok_input_tokens : ℤ
  pub byok_output_tokens : ℤ
  pub runs : ℤ
  pub run_duration_ms : ℤ

pub record PriceTable : Type 0 where
  pub base_fee_cents : ℤ
  pub included_sessions : ℤ
  pub session_cents : ℤ
  pub managed_input_per_million_cents : ℤ
  pub managed_output_per_million_cents : ℤ
  pub included_runs : ℤ
  pub run_cents : ℤ

pub data Kind : Type 0 where
  base_fee sessions managed_input_tokens managed_output_tokens runs credit : Kind

-- The formats of the descriptions, with their arguments.
pub data Description : Type 0 where
  monthly_platform_fee managed_ai_input_tokens managed_ai_output_tokens : Description
  sessions_beyond_included : ℤ → Description
  runs_beyond_included : ℤ → Description
  credit_plain : Description
  credit_described : String → Description

pub record Line : Type 0 where
  pub kind : Kind
  pub description : Description
  pub quantity : ℤ
  pub amount_cents : ℤ
  pub credit_id : Option ℕ

pub data PriceTableError : Type 0 where
  not_a_price_table negative_price : PriceTableError

pub data Parsed : Type 0 where
  table : PriceTable → Parsed
  rejected : PriceTableError → Parsed

abbrev is_neg : ℤ → Bool
is_neg value = ltb_ℤ value (pos 0)

-- The checks of ParsePriceTable on what the strict JSON decoder returned, `none` for its error.
-- Which negative field the error names depends on the map's order, and is left out.
unfoldable pub parse_price_table : Option PriceTable → Parsed
parse_price_table none = rejected not_a_price_table
parse_price_table (some t) =
    if is_neg t.base_fee_cents
      || (is_neg t.included_sessions
          || (is_neg t.session_cents
              || (is_neg t.managed_input_per_million_cents
                  || (is_neg t.managed_output_per_million_cents
                      || (is_neg t.included_runs || is_neg t.run_cents)))))
    then rejected negative_price
    else table t

-- The product is a big.Int; `Int64` keeps the low 64 bits of the quotient.
unfoldable pub per_million_ceil : ℤ → ℤ → ℤ
per_million_ceil quantity cents_per_million =
    if leb_ℤ quantity (pos 0) || leb_ℤ cents_per_million (pos 0)
    then pos 0
    else let product = pos_part quantity * pos_part cents_per_million in
      let quotient = product / 1000000 in
      wrap64 (pos (if ltb 0 (product % 1000000) then quotient + 1 else quotient))

-- max(used - included, 0)
unfoldable pub billable : ℤ → ℤ → ℤ
billable used included = max_ℤ (sub64 used included) (pos 0)

-- One charge line, or nothing.
abbrev pub charge : Bool → Line → List Line
charge test line = if test then line ∷ [] else []

abbrev plain : Kind → Description → ℤ → ℤ → Line
plain kind description quantity amount = record {
  kind = kind;
  description = description;
  quantity = quantity;
  amount_cents = amount;
  credit_id = none;
}

abbrev pub base_lines : PriceTable → List Line
base_lines t = plain base_fee monthly_platform_fee (pos 1) t.base_fee_cents ∷ []

-- The two metered charges: what exceeds the included amount, at a price each.
abbrev pub metered_lines : Kind → (ℤ → Description) → ℤ → ℤ → ℤ → List Line
metered_lines kind describe used included cents =
    let n = billable used included in
    if ltb_ℤ (pos 0) n
    then charge (ltb_ℤ (pos 0) cents) (plain kind (describe included) n (mul64 n cents))
    else []

-- The two token charges.
abbrev pub token_lines : Kind → Description → ℤ → ℤ → List Line
token_lines kind description tokens price =
    let cents = per_million_ceil tokens price in
    charge (ltb_ℤ (pos 0) cents) (plain kind description tokens cents)

unfoldable pub price : Usage → PriceTable → List Line
price u t =
    base_lines t
    ++ (metered_lines sessions sessions_beyond_included u.sessions t.included_sessions
          t.session_cents
        ++ (token_lines managed_input_tokens managed_ai_input_tokens u.managed_input_tokens
              t.managed_input_per_million_cents
            ++ (token_lines managed_output_tokens managed_ai_output_tokens u.managed_output_tokens
                  t.managed_output_per_million_cents
                ++ metered_lines runs runs_beyond_included u.runs t.included_runs t.run_cents)))
