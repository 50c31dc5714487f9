-- ===== src/Billing/Order.antt =====
-- The order in which ApplyCredits of internal/billing spends the credits (credits.go).
use Prim.Native.Nat.{min}
use mathlib.Core.List.{Perm}
use ta_platform.Prelude.{
  ℕ, ◌-◌, ◌^◌, ◌<◌, ◌≡◌, refl, true, false, List, ◌++◌, arith, ℤ, pos, IsWeakOrder, IsSorted,
  sort_stable-IsSorted, sort_stable-perm,
}
use ta_platform.Billing.Credits.{Credit, credit_less, sort_credits, apply_loop, apply_credits}
use ta_platform.Billing.Spending.{funds, spent, apply_loop-append, spent-apply_loop}

credit_less_asym : (x y : Credit) → credit_less x y ≡ true → credit_less y x ≡ false
unfolding credit_less
credit_less_asym x y h = ground arith

credit_less_neg_trans :
    (x y z : Credit) → credit_less x y ≡ false → credit_less y z ≡ false → credit_less x z ≡ false
unfolding credit_less
credit_less_neg_trans x y z h k = ground arith

-- The switch of sortCredits is a strict weak order.
credit_less-IsWeakOrder : IsWeakOrder credit_less
credit_less-IsWeakOrder = record { asym = credit_less_asym; neg_trans = credit_less_neg_trans }

sort_credits-perm : (cs : List Credit) → Perm (sort_credits cs) cs
unfolding sort_credits
sort_credits-perm = sort_stable-perm credit_less

sort_credits-IsSorted : (cs : List Credit) → IsSorted credit_less (sort_credits cs)
unfolding sort_credits
sort_credits-IsSorted = sort_stable-IsSorted credit_less credit_less-IsWeakOrder

apply_credits-sort :
    (d : ℤ) (cs : List Credit) → apply_credits d cs ≡ apply_loop d (sort_credits cs)
unfolding apply_credits
apply_credits-sort d cs = refl

-- The credits are spent in an order of theirs in which none is below one before it: the soonest
-- to expire first, those that never expire last, then the oldest grant, then the least id. Cut
-- this order anywhere, for a subtotal that an int64 holds: the lines are those of the first part,
-- which take off all that this part can pay or is due, and then those of the second part, which
-- take off only what is left.
pub apply_credits_priority :
    (d : ℕ) (cs xs ys : List Credit)
    → d < 2 ^ 63
    → sort_credits cs ≡ xs ++ ys
    → Perm (xs ++ ys) cs
      × IsSorted credit_less (xs ++ ys)
      × (apply_credits (pos d) cs ≡ apply_loop (pos d) xs ++ apply_loop (pos (d - funds xs)) ys)
      × (spent (apply_loop (pos d) xs) ≡ min d (funds xs))
      × (spent (apply_loop (pos (d - funds xs)) ys) ≡ min (d - funds xs) (funds ys))
apply_credits_priority d cs xs ys h e = (
  rw e at (sort_credits-perm cs),
  rw e at (sort_credits-IsSorted cs),
  rw (apply_credits-sort (pos d) cs, e) (apply_loop-append d xs ys h),
  spent-apply_loop d xs h,
  spent-apply_loop (d - funds xs) ys (omega arith),
)
