-- ===== src/Billing/Solvency.antt =====
-- No close of internal/billing spends more of a credit than was granted.
use ta_platform.Prelude.{
  ℕ, ◌≤◌, ◌≡◌, refl, Bool, true, false, Option, none, some, List, [], ◌∷◌, arith, ◌==◌, ℤ, All,
  All-map, Bool-cases, ==_iff, eqb_ℤ→eq, inl, inr,
}
use ta_platform.Billing.Pricing.{Line}
use ta_platform.Billing.Credits.{Credit}
use ta_platform.Billing.Totals.{Sums, totals}
use ta_platform.Billing.Store.{
  Company, Invoice, Db, DraftOutcome, is_at, is_draft, put_invoice, find_invoice, available_credits,
  filled, write_sums, write_lines, inserted, write_locked, write_draft,
}
use ta_platform.Billing.Ledger.{
  taken_lines, taken, granted, IsSigned, IsKeyed, AllSigned, taken-put_invoice, due_of,
  due_of-available, taken_others-le,
}

-- The tables: unique keys, lines that take off what they name, and no credit overspent.
pub record IsSolvent (db : Db) : Type 0 where
  pub keyed : IsKeyed db.invoices
  pub signed : AllSigned db.invoices
  pub within : (company id : ℕ) → taken company id db.invoices ≤ granted company id db.credits

put_invoice-not_at :
    (j v : Invoice) (is : List Invoice)
    → is_at j.company_id j.period v ≡ false
    → All (λ k. is_at j.company_id j.period k ≡ false) is
    → All (λ k. is_at j.company_id j.period k ≡ false) (put_invoice v is)
unfolding put_invoice
put_invoice-not_at j v [] h k = (h, tt)
put_invoice-not_at j v (i ∷ is) h k = elim (Bool-cases (is_at v.company_id v.period i)) [
  | inl e ↦ rw e (h, k.1)
  | inr e ↦ rw e (k.0, put_invoice-not_at j v is h k.1)
]

is_at_swap :
    (i v : Invoice) → is_at v.company_id v.period i ≡ false → is_at i.company_id i.period v ≡ false
is_at_swap i v h = ground arith

is_at_same :
    (i v j : Invoice)
    → is_at v.company_id v.period i ≡ true
    → is_at i.company_id i.period j ≡ false
    → is_at v.company_id v.period j ≡ false
is_at_same i v j h k = ground arith

pub put_invoice-IsKeyed :
    (v : Invoice) (is : List Invoice) → IsKeyed is → IsKeyed (put_invoice v is)
unfolding put_invoice
put_invoice-IsKeyed v [] h = (tt, tt)
put_invoice-IsKeyed v (i ∷ is) h = elim (Bool-cases (is_at v.company_id v.period i)) [
  | inl e ↦ rw e (All-map (λ j. is_at_same i v j e) is h.0, h.1)
  | inr e ↦ rw e (put_invoice-not_at i v is (is_at_swap i v e) h.0, put_invoice-IsKeyed v is h.1)
]

put_invoice-AllSigned :
    (v : Invoice) (is : List Invoice)
    → All IsSigned v.lines
    → AllSigned is
    → AllSigned (put_invoice v is)
unfolding put_invoice
put_invoice-AllSigned v [] s h = (s, tt)
put_invoice-AllSigned v (i ∷ is) s h = elim (Bool-cases (is_at v.company_id v.period i)) [
  | inl e ↦ rw e (s, h.1)
  | inr e ↦ rw e (h.0, put_invoice-AllSigned v is s h.1)
]

-- An invoice whose lines come from the credits on offer.
module _ (v : Invoice) (e : ℤ) (db : Db) (h : IsSolvent db)
    (paid : (id : ℕ)
      → taken_lines id v.lines
        ≤ due_of id (available_credits v.company_id v.period e db.invoices db.credits)) where
  within_self :
      (id : ℕ)
      → taken v.company_id id (put_invoice v db.invoices) ≤ granted v.company_id id db.credits
  within_self id = ground (
    arith,
    taken-put_invoice v v.company_id id db.invoices h.keyed,
    paid id,
    due_of-available v.company_id id v.period e db.invoices db.credits h.signed,
    taken_others-le v.company_id v.period v.company_id id db.invoices,
    h.within v.company_id id,
  )

  within_else :
      (co id : ℕ)
      → (co == v.company_id) ≡ false
      → taken co id (put_invoice v db.invoices) ≤ granted co id db.credits
  within_else co id ne = ground (
    arith,
    taken-put_invoice v co id db.invoices h.keyed,
    taken_others-le v.company_id v.period co id db.invoices,
    h.within co id,
  )

  -- Such an invoice keeps the tables solvent.
  put_invoice-IsSolvent :
      All IsSigned v.lines → IsSolvent (record db { invoices = put_invoice v db.invoices })
  put_invoice-IsSolvent s = record {
    keyed = put_invoice-IsKeyed v db.invoices h.keyed;
    signed = put_invoice-AllSigned v db.invoices s h.signed;
    within = λ co id. elim (Bool-cases (co == v.company_id)) [
      | inl same ↦ rw ((==_iff co v.company_id).0 same) (within_self id)
      | inr other ↦ within_else co id other
    ];
  }

-- What makes a callback of the store safe: its lines take from the credits that it is handed.
abbrev pub IsFair : (List Credit → Option (List Line)) → Type 0
IsFair compute =
    (cs : List Credit) (ls : List Line)
    → compute cs ≡ some ls
    → All IsSigned ls × ((id : ℕ) → taken_lines id ls ≤ due_of id cs)

-- The lines for the invoice at hand are signed, and take what is on offer to it.
abbrev IsFairFor : Invoice → ℤ → Db → List Line → Type 0
IsFairFor i e db ls =
    All IsSigned ls
    × ((id : ℕ)
        → taken_lines id ls
          ≤ due_of id (available_credits i.company_id i.period e db.invoices db.credits))

write_sums-IsSolvent :
    (c : Company) (i : Invoice) (o : DraftOutcome) (db : Db) (e : ℤ) (ls : List Line)
    (t : Option Sums)
    → IsSolvent db
    → IsFairFor i e db ls
    → IsSolvent (write_sums c i o db ls t).0
unfolding write_sums
write_sums-IsSolvent c i o db e ls none h fair = h
write_sums-IsSolvent c i o db e ls (some sums) h fair =
    put_invoice-IsSolvent (filled c i sums ls) e db h fair.1 fair.0

write_lines-IsSolvent :
    (c : Company) (i : Invoice) (o : DraftOutcome) (db : Db) (e : ℤ) (ls : Option (List Line))
    → IsSolvent db
    → ((xs : List Line) → ls ≡ some xs → IsFairFor i e db xs)
    → IsSolvent (write_lines c i o db ls).0
unfolding write_lines
write_lines-IsSolvent c i o db e none h fair = h
write_lines-IsSolvent c i o db e (some xs) h fair =
    write_sums-IsSolvent c i o db e xs (totals xs) h (fair xs refl)

-- `find_invoice` returns an invoice of the key, and so does the insertion.
pub find_invoice-at :
    (co : ℕ) (p : ℤ) (is : List Invoice) (i : Invoice)
    → find_invoice co p is ≡ some i
    → (i.company_id ≡ co) × (i.period ≡ p)
unfolding find_invoice
find_invoice-at co p [] i h = absurd (cc)
find_invoice-at co p (j ∷ is) i h = ground (arith, find_invoice-at co p is i, eqb_ℤ→eq p j.period)

pub inserted-at :
    (c : Company) (p : ℤ) (o : Option Invoice)
    → ((i : Invoice) → o ≡ some i → (i.company_id ≡ c.company_id) × (i.period ≡ p))
    → ((inserted c p o).0.company_id ≡ c.company_id) × ((inserted c p o).0.period ≡ p)
inserted-at c p none h = (refl, refl)
inserted-at c p (some i) h = h i refl

write_locked-IsSolvent :
    (c : Company) (p e : ℤ) (compute : List Credit → Option (List Line)) (db : Db) (i : Invoice)
    (o : DraftOutcome)
    → i.company_id ≡ c.company_id
    → i.period ≡ p
    → IsFair compute
    → IsSolvent db
    → IsSolvent (write_locked c p e compute db i o).0
unfolding write_locked
write_locked-IsSolvent c p e compute db i o ec ep fair h = elim (Bool-cases (is_draft i.status)) [
  | inl d ↦
      rw (d, ← ec, ← ep)
        (write_lines-IsSolvent c i o db e
          (compute (available_credits i.company_id i.period e db.invoices db.credits)) h
          (λ xs. fair (available_credits i.company_id i.period e db.invoices db.credits) xs))
  | inr d ↦ rw d h
]

-- With a fair callback the store keeps the tables solvent, whatever fails on the way.
pub write_draft-IsSolvent :
    (c : Company) (p e : ℤ) (fault : Bool) (compute : List Credit → Option (List Line)) (db : Db)
    → IsFair compute
    → IsSolvent db
    → IsSolvent (write_draft c p e fault compute db).0
unfolding write_draft
write_draft-IsSolvent c p e true compute db fair h = h
write_draft-IsSolvent c p e false compute db fair h =
    let found = find_invoice c.company_id p db.invoices in
    let (company, period) = inserted-at c p found (find_invoice-at c.company_id p db.invoices) in
    write_locked-IsSolvent c p e compute db (inserted c p found).0 (inserted c p found).1 company
      period fair h
