-- ===== src/Billing/Credits.antt =====
-- internal/billing/credits.go and ApplyCredits of pricing.go.
use ta_platform.Prelude.{
  ℕ, String, Bool, true, false, not, Option, none, some, List, [], ◌∷◌, ltb, str_eq, if◌then◌else◌,
  ℤ, pos, ltb_ℤ, leb_ℤ, eqb_ℤ, min_ℤ, sub64, neg64, sort_stable,
}
use ta_platform.Billing.Pricing.{Line, Description, credit, credit_plain, credit_described}

pub record Credit : Type 0 where
  pub id : ℕ
  pub description : String
  pub remaining_cents : ℤ
  pub granted_at : ℤ
  pub expires_at : Option ℤ

-- the last two cases of the switch in sortCredits
abbrev granted_less : Credit → Credit → Bool
granted_less a b =
    if not (eqb_ℤ a.granted_at b.granted_at) then ltb_ℤ a.granted_at b.granted_at else ltb a.id b.id

abbrev expiry_less : Option ℤ → Option ℤ → Bool → Bool
expiry_less (some x) none rest = true
expiry_less none (some y) rest = false
expiry_less (some x) (some y) rest = if not (eqb_ℤ x y) then ltb_ℤ x y else rest
expiry_less none none rest = rest

unfoldable pub credit_less : Credit → Credit → Bool
credit_less a b = expiry_less a.expires_at b.expires_at (granted_less a b)

unfoldable pub sort_credits : List Credit → List Credit
unfolding credit_less
sort_credits = sort_stable credit_less

abbrev describe : String → Description
describe text = if not (str_eq text "") then credit_described text else credit_plain

unfoldable pub credit_line : Credit → ℤ → Line
credit_line c applied = record {
  kind = credit;
  description = describe c.description;
  quantity = pos 1;
  amount_cents = neg64 applied;
  credit_id = some c.id;
}

-- The loop of ApplyCredits over the ordered credits.
unfoldable pub apply_loop : ℤ → List Credit → List Line
unfolding credit_line
apply_loop due [] = []
apply_loop due (c ∷ rest) =
    let applied = min_ℤ c.remaining_cents due in
    let skipped = apply_loop due rest in
    let spent = apply_loop (sub64 due applied) rest in
    if leb_ℤ due (pos 0)
    then []
    else if leb_ℤ applied (pos 0)
    then skipped
    else credit_line c applied ∷ spent

unfoldable pub apply_credits : ℤ → List Credit → List Line
unfolding apply_loop sort_credits
apply_credits subtotal_cents credits = apply_loop subtotal_cents (sort_credits credits)
