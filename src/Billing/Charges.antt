-- ===== src/Billing/Charges.antt =====
-- The charge lines of Price in internal/billing/pricing.go add up to the plan's exact charge.
use ta_platform.Prelude.{
  ℕ, zero, suc, ◌+◌, ◌-◌, ◌*◌, ◌/◌, ◌%◌, ◌^◌, ◌<◌, ◌≡◌, refl, Bool, true, false, some, List, [],
  ◌∷◌, ◌++◌, arith, ltb, ℤ, pos, pos_part, neg_part, ◌-ℤ◌, wrap64, mul64_exact, All, All-append,
  if◌then◌else◌,
}
use ta_platform.Billing.Pricing.{
  Usage, PriceTable, Kind, Description, Line, table, parse_price_table, per_million_ceil, billable,
  price, metered_lines, token_lines, base_lines, charge, sessions, runs, sessions_beyond_included,
  runs_beyond_included, managed_input_tokens, managed_output_tokens, managed_ai_input_tokens,
  managed_ai_output_tokens,
}
use ta_platform.Billing.Totals.{is_credit}
use ta_platform.Billing.Rounding.{per_million_ceil-eq}

-- A line that adds to the invoice.
abbrev pub IsCharge : Line → Type 0
IsCharge l = (is_credit l.kind ≡ false) × (neg_part l.amount_cents ≡ 0)

abbrev pub gross : List Line → ℕ
gross [] = 0
gross (l ∷ ls) = pos_part l.amount_cents + gross ls

pub gross-append : (xs ys : List Line) → gross (xs ++ ys) ≡ gross xs + gross ys
gross-append [] ys = omega arith
gross-append (x ∷ xs) ys = omega (arith, gross-append xs ys)

-- A metered charge in exact arithmetic: what exceeds the included amount, times the price.
abbrev pub exact_metered : ℤ → ℤ → ℤ → ℕ
exact_metered used included cents = (pos_part used - pos_part included) * pos_part cents

-- A token charge in exact arithmetic: the quotient by one million, rounded up.
abbrev pub exact_tokens : ℤ → ℤ → ℕ
exact_tokens tokens cents = (pos_part tokens * pos_part cents + 999999) / 1000000

abbrev pub exact_charge : Usage → PriceTable → ℕ
exact_charge u t =
    pos_part t.base_fee_cents
    + (exact_metered u.sessions t.included_sessions t.session_cents
        + (exact_tokens u.managed_input_tokens t.managed_input_per_million_cents
            + (exact_tokens u.managed_output_tokens t.managed_output_per_million_cents
                + exact_metered u.runs t.included_runs t.run_cents)))

-- Lines that are charges of a total.
abbrev Charges : List Line → ℕ → Type 0
Charges ls n = All IsCharge ls × (gross ls ≡ n)

Charges-append :
    (xs ys : List Line) {m n : ℕ} → Charges xs m → Charges ys n → Charges (xs ++ ys) (m + n)
Charges-append xs ys h k =
    (All-append IsCharge xs ys h.0 k.0, omega (arith, gross-append xs ys, h.1, k.1))

billable_exact : (u i : ℕ) → u < 2 ^ 63 → i < 2 ^ 63 → billable (pos u) (pos i) ≡ pos (u - i)
unfolding billable ◌-ℤ◌ wrap64
billable_exact u i h k = ground arith

charge-Charges :
    (l : Line) (n : ℕ) (test : Bool)
    → is_credit l.kind ≡ false
    → (test ≡ true → l.amount_cents ≡ pos n)
    → (test ≡ false → n ≡ 0)
    → Charges (charge test l) n
charge-Charges l n true k h z = ground (arith, h refl)
charge-Charges l n false k h z = ground (arith, z refl)

metered_lines-Charges :
    (k : Kind) (d : ℤ → Description) (u i c : ℕ)
    → is_credit k ≡ false
    → u < 2 ^ 63
    → i < 2 ^ 63
    → (u - i) * c < 2 ^ 63
    → Charges (metered_lines k d (pos u) (pos i) (pos c)) ((u - i) * c)
metered_lines-Charges k d u i c isc hu hi h =
    rw (billable_exact u i hu hi) (ground (arith, mul64_exact (u - i) c h))

ceil_million-eq :
    (p : ℕ)
    → (if ltb 0 (p % 1000000) then p / 1000000 + 1 else p / 1000000) ≡ (p + 999999) / 1000000
ceil_million-eq p = ground arith

per_million_ceil_any :
    (q c : ℕ)
    → (q * c + 999999) / 1000000 < 2 ^ 63
    → per_million_ceil (pos q) (pos c) ≡ pos ((q * c + 999999) / 1000000)
per_million_ceil_any zero c h = unfold per_million_ceil in ground arith
per_million_ceil_any (suc q) zero h = unfold per_million_ceil in ground arith
per_million_ceil_any (suc q) (suc c) h =
    ground (arith, per_million_ceil-eq (suc q) (suc c), ceil_million-eq (suc q * suc c))

token_lines-Charges :
    (k : Kind) (d : Description) (q c : ℕ)
    → is_credit k ≡ false
    → (q * c + 999999) / 1000000 < 2 ^ 63
    → Charges (token_lines k d (pos q) (pos c)) ((q * c + 999999) / 1000000)
token_lines-Charges k d q c isc h = rw (per_million_ceil_any q c h) (ground arith)

-- A count that an int64 holds.
abbrev pub IsCount : ℤ → Type 0
IsCount z = (neg_part z ≡ 0) × (pos_part z < 2 ^ 63)

-- The metered counts of a usage row are counts.
pub record IsMetered (u : Usage) : Type 0 where
  pub sessions : IsCount u.sessions
  pub input : IsCount u.managed_input_tokens
  pub output : IsCount u.managed_output_tokens
  pub runs : IsCount u.runs

-- A table that ParsePriceTable returns, its fields being int64.
pub record IsAccepted (t : PriceTable) : Type 0 where
  pub parsed : parse_price_table (some t) ≡ table t
  pub sessions_fit : pos_part t.included_sessions < 2 ^ 63
  pub runs_fit : pos_part t.included_runs < 2 ^ 63

abbrev AllNonneg : PriceTable → Type 0
AllNonneg t =
    (neg_part t.base_fee_cents ≡ 0)
    × (neg_part t.included_sessions ≡ 0)
    × (neg_part t.session_cents ≡ 0)
    × (neg_part t.managed_input_per_million_cents ≡ 0)
    × (neg_part t.managed_output_per_million_cents ≡ 0)
    × (neg_part t.included_runs ≡ 0)
    × (neg_part t.run_cents ≡ 0)

parse_price_table-AllNonneg : (t : PriceTable) → parse_price_table (some t) ≡ table t → AllNonneg t
unfolding parse_price_table
parse_price_table-AllNonneg t h = ground arith

metered_of_counts :
    (k : Kind) (d : ℤ → Description) (u i c : ℤ)
    → is_credit k ≡ false
    → IsCount u
    → IsCount i
    → neg_part c ≡ 0
    → exact_metered u i c < 2 ^ 63
    → Charges (metered_lines k d u i c) (exact_metered u i c)
metered_of_counts k d (pos u) (pos i) (pos c) isc hu hi hc h =
    metered_lines-Charges k d u i c isc hu.1 hi.1 h
metered_of_counts k d u i c isc hu hi hc h = absurd (omega arith)

tokens_of_counts :
    (k : Kind) (d : Description) (q c : ℤ)
    → is_credit k ≡ false
    → IsCount q
    → neg_part c ≡ 0
    → exact_tokens q c < 2 ^ 63
    → Charges (token_lines k d q c) (exact_tokens q c)
tokens_of_counts k d (pos q) (pos c) isc hq hc h = token_lines-Charges k d q c isc h
tokens_of_counts k d q c isc hq hc h = absurd (omega arith)

-- For counted usage and an accepted table whose exact charge fits an int64, every line of `price`
-- is a charge, with a kind other than credit, no credit named and an amount that is not negative,
-- and the lines add up to the exact charge.
pub price_exact :
    (u : Usage) (t : PriceTable)
    → IsMetered u
    → IsAccepted t
    → exact_charge u t < 2 ^ 63
    → All IsCharge (price u t) × (gross (price u t) ≡ exact_charge u t)
unfolding price
price_exact u t m a h =
    let n = parse_price_table-AllNonneg t a.parsed in
    Charges-append (base_lines t) _ ((((refl, n.0), tt), omega arith)) (
      Charges-append _ _
        (metered_of_counts sessions sessions_beyond_included u.sessions t.included_sessions
          t.session_cents refl m.sessions (n.1, a.sessions_fit) n.2 (omega arith))
        (Charges-append _ _
          (tokens_of_counts managed_input_tokens managed_ai_input_tokens u.managed_input_tokens
            t.managed_input_per_million_cents refl m.input n.3 (omega arith))
          (Charges-append _ _
            (tokens_of_counts managed_output_tokens managed_ai_output_tokens u.managed_output_tokens
              t.managed_output_per_million_cents refl m.output n.4 (omega arith))
            (metered_of_counts runs runs_beyond_included u.runs t.included_runs t.run_cents refl
              m.runs (n.5, a.runs_fit) n.6 (omega arith)))))
