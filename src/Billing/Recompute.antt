-- ===== src/Billing/Recompute.antt =====
-- Closing a period again (internal/store/postgres/billing.go): drafts are recomputed to the same
-- rows, and issued and void invoices stay as they are.
use ta_platform.Prelude.Results.{Result, ok, err}
use ta_platform.Prelude.{
  ℕ, ◌≡◌, ◌∙◌, refl, ap, sym, Bool, true, false, Option, none, some, List, [], ◌∷◌, arith,
  if◌then◌else◌, ℤ, pos, ◌+ℤ◌, Bool-cases, inl, inr,
}
use ta_platform.Billing.Pricing.{Line}
use ta_platform.Billing.Credits.{Credit}
use ta_platform.Billing.Totals.{Sums, totals}
use ta_platform.Billing.Ledger.{is_other}
use ta_platform.Billing.Solvency.{find_invoice-at, inserted-at}
use ta_platform.Billing.Store.{
  Company, Invoice, CreditRow, Db, DraftOutcome, recomputed, final, StoreError, is_at, is_draft,
  find_invoice, put_invoice, sum_lines, sum_others, available_credits, filled, inserted, write_sums,
  write_lines, write_locked, write_draft,
}

is_at_self : (v : Invoice) → is_at v.company_id v.period v ≡ true
is_at_self v = ground arith

find-put_invoice :
    (v : Invoice) (is : List Invoice)
    → find_invoice v.company_id v.period (put_invoice v is) ≡ some v
unfolding find_invoice put_invoice
find-put_invoice v [] = rw (is_at_self v)
find-put_invoice v (i ∷ is) = elim (Bool-cases (is_at v.company_id v.period i)) [
  | inl e ↦ rw (e) (rw (is_at_self v))
  | inr e ↦ rw e (rw e (find-put_invoice v is))
]

-- The row of a key is computed at another time.
abbrev pub stamp : ℕ → ℤ → ℤ → List Invoice → List Invoice
stamp company period later [] = []
stamp company period later (i ∷ is) =
    let rest = stamp company period later is in
    if is_at company period i then record i { computed_at = later } ∷ is else i ∷ rest

put-stamp :
    (v : Invoice) (later : ℤ) (is : List Invoice)
    → put_invoice (record v { computed_at = later }) (put_invoice v is)
      ≡ stamp v.company_id v.period later (put_invoice v is)
unfolding put_invoice
put-stamp v later [] = rw (is_at_self v) refl
put-stamp v later (i ∷ is) = elim (Bool-cases (is_at v.company_id v.period i)) [
  | inl e ↦ rw e (rw (is_at_self v) refl)
  | inr e ↦ rw e (rw e (ap (λ t. i ∷ t) (put-stamp v later is)))
]

-- An invoice at the key is none of the others.
not_other : (co : ℕ) (p : ℤ) (i : Invoice) → is_at co p i ≡ true → is_other co p i ≡ false
not_other co p i h = ground arith

-- The key's own invoice does not enter the balances that it is offered.
sum_others-put_invoice :
    (v : Invoice) (id : ℕ) (is : List Invoice)
    → sum_others v.company_id v.period id (put_invoice v is)
      ≡ sum_others v.company_id v.period id is
unfolding sum_others put_invoice ◌+ℤ◌
sum_others-put_invoice v id [] = rw (not_other v.company_id v.period v (is_at_self v)) refl
sum_others-put_invoice v id (i ∷ is) = elim (Bool-cases (is_at v.company_id v.period i)) [
  | inl e ↦
      rw (e, not_other v.company_id v.period i e, not_other v.company_id v.period v (is_at_self v))
        refl
  | inr e ↦ rw e (
      ap
        (λ (n : ℤ). (if is_other v.company_id v.period i then sum_lines id i.lines else pos 0) +ℤ n)
        (sum_others-put_invoice v id is))
]

available-put_invoice :
    (v : Invoice) (e : ℤ) (is : List Invoice) (cs : List CreditRow)
    → available_credits v.company_id v.period e (put_invoice v is) cs
      ≡ available_credits v.company_id v.period e is cs
unfolding available_credits
available-put_invoice v e is [] = refl
available-put_invoice v e is (c ∷ cs) =
    rw (sum_others-put_invoice v c.id is, available-put_invoice v e is cs) refl

-- What a write that succeeds has done.
write_sums-ok :
    (c : Company) (i : Invoice) (o q : DraftOutcome) (db db' : Db) (ls : List Line)
    (t : Option Sums)
    → write_sums c i o db ls t ≡ (db', ok q)
    → (sums : Sums) × (t ≡ some sums)
      × (db' ≡ record db { invoices = put_invoice (filled c i sums ls) db.invoices })
      × (q ≡ o)
unfolding write_sums
write_sums-ok c i o q db db' ls none h = absurd (cc)
write_sums-ok c i o q db db' ls (some sums) h = (sums, refl, ground arith, ground arith)

write_lines-ok :
    (c : Company) (i : Invoice) (o q : DraftOutcome) (db db' : Db) (wl : Option (List Line))
    → write_lines c i o db wl ≡ (db', ok q)
    → (ls : List Line) × (sums : Sums) × (wl ≡ some ls)
      × (totals ls ≡ some sums)
      × (db' ≡ record db { invoices = put_invoice (filled c i sums ls) db.invoices })
      × (q ≡ o)
unfolding write_lines
write_lines-ok c i o q db db' none h = absurd (cc)
write_lines-ok c i o q db db' (some ls) h =
    let (sums, good, wrote, same) = write_sums-ok c i o q db db' ls (totals ls) h in
    (ls, sums, refl, good, wrote, same)

write_lines-some :
    (c : Company) (i : Invoice) (o : DraftOutcome) (db : Db) (ls : List Line) (sums : Sums)
    → totals ls ≡ some sums
    → write_lines c i o db (some ls)
      ≡ (record db { invoices = put_invoice (filled c i sums ls) db.invoices }, ok o)
unfolding write_lines write_sums
write_lines-some c i o db ls sums t = rw t refl

-- One more close of the same draft, after the lines were written, writes them again.
rewrite :
    (c : Company) (later p e : ℤ) (compute : List Credit → Option (List Line)) (db : Db)
    (v : Invoice) (ls : List Line) (sums : Sums)
    → v.company_id ≡ c.company_id
    → v.period ≡ p
    → is_draft v.status ≡ true
    → filled (record c { now = later }) v sums ls ≡ record v { computed_at = later }
    → compute (available_credits v.company_id v.period e db.invoices db.credits) ≡ some ls
    → totals ls ≡ some sums
    → write_draft
        (record c { now = later })
        p
        e
        false
        compute
        (record db { invoices = put_invoice v db.invoices })
      ≡ (
        record db { invoices = stamp c.company_id p later (put_invoice v db.invoices) },
        ok recomputed,
      )
unfolding write_draft write_locked
rewrite c later p e compute db v ls sums ec ep d same f t =
    rw (← ec, ← ep, find-put_invoice v db.invoices)
      (rw (d, available-put_invoice v e db.invoices db.credits, f)
        (write_lines-some (record c { company_id = v.company_id; now = later }) v recomputed
            (record db { invoices = put_invoice v db.invoices }) ls sums t
          ∙ rw (same, put-stamp v later db.invoices) refl))

-- The outcome of a second close.
abbrev pub again : DraftOutcome → DraftOutcome
again final = final
again _ = recomputed

-- The tables after it.
abbrev pub recomputed_at : Company → ℤ → ℤ → DraftOutcome → Db → Db
recomputed_at c p later final db = db
recomputed_at c p later _ db = record db { invoices = stamp c.company_id p later db.invoices }

-- Only a stored invoice is no draft.
inserted-final :
    (c : Company) (p : ℤ) (o : Option Invoice)
    → is_draft (inserted c p o).0.status ≡ false
    → (i : Invoice) × (o ≡ some i) × (is_draft i.status ≡ false)
inserted-final c p none h = absurd (cc)
inserted-final c p (some i) h = (i, refl, h)

write_locked-draft :
    (c : Company) (p e : ℤ) (compute : List Credit → Option (List Line)) (db : Db) (i : Invoice)
    (o : DraftOutcome)
    → is_draft i.status ≡ true
    → write_locked c p e compute db i o
      ≡ write_lines c i o db (compute (available_credits c.company_id p e db.invoices db.credits))
unfolding write_locked
write_locked-draft c p e compute db i o d = rw d refl

write_locked-final :
    (c : Company) (p e : ℤ) (compute : List Credit → Option (List Line)) (db : Db) (i : Invoice)
    (o : DraftOutcome)
    → is_draft i.status ≡ false
    → write_locked c p e compute db i o ≡ (db, ok final)
unfolding write_locked
write_locked-final c p e compute db i o d = rw d refl

-- An invoice that is issued or void is returned as final with the tables untouched, whatever the
-- callback is.
pub write_draft-final :
    (c : Company) (p e : ℤ) (compute : List Credit → Option (List Line)) (db : Db) (i : Invoice)
    → find_invoice c.company_id p db.invoices ≡ some i
    → is_draft i.status ≡ false
    → write_draft c p e false compute db ≡ (db, ok final)
unfolding write_draft
write_draft-final c p e compute db i f d = rw f (write_locked-final c p e compute db i recomputed d)

-- A close that fails leaves the tables untouched.
pub write_draft-err :
    (c : Company) (p e : ℤ) (fault : Bool) (compute : List Credit → Option (List Line)) (db : Db)
    (x : StoreError)
    → (write_draft c p e fault compute db).1 ≡ err x
    → (write_draft c p e fault compute db).0 ≡ db
unfolding write_draft write_locked write_lines write_sums
write_draft-err c p e fault compute db x h = ground arith

-- The second close, where the first found a draft or made one.
again-draft :
    (c : Company) (later p e : ℤ) (compute : List Credit → Option (List Line)) (db db' : Db)
    (i : Invoice) (o q : DraftOutcome)
    → i.company_id ≡ c.company_id
    → i.period ≡ p
    → is_draft i.status ≡ true
    → again o ≡ recomputed
    → ((d : Db)
        → recomputed_at c p later o d
          ≡ record d { invoices = stamp c.company_id p later d.invoices })
    → write_locked c p e compute db i o ≡ (db', ok q)
    → write_draft (record c { now = later }) p e false compute db'
      ≡ (recomputed_at c p later q db', ok (again q))
again-draft c later p e compute db db' i o q ec ep d a at h =
    let (ls, sums, f, t, wrote, same) =
      write_lines-ok c i o q db db'
        (compute (available_credits c.company_id p e db.invoices db.credits))
        (sym (write_locked-draft c p e compute db i o d) ∙ h) in
    rw (wrote, same, a, at)
      (rewrite c later p e compute db (filled c i sums ls) ls sums ec ep d refl (rw (ec, ep) f) t)

ok_eq :
    (a b : Db) (x y : DraftOutcome)
    → ◌≡◌ {A = Db × Result StoreError DraftOutcome} (a, ok x) (b, ok y)
    → (a ≡ b) × (x ≡ y)
ok_eq a b x y h = ground arith

again-inserted : (c : Company) (p : ℤ) (o : Option Invoice) → again (inserted c p o).1 ≡ recomputed
again-inserted c p none = refl
again-inserted c p (some i) = refl

write_draft-locked :
    (c : Company) (p e : ℤ) (compute : List Credit → Option (List Line)) (db : Db)
    → let (i, o) = inserted c p (find_invoice c.company_id p db.invoices) in
      write_draft c p e false compute db ≡ write_locked c p e compute db i o
unfolding write_draft
write_draft-locked c p e compute db = refl

recomputed_at-inserted :
    (c : Company) (p later : ℤ) (o : Option Invoice) (d : Db)
    → recomputed_at c p later (inserted c p o).1 d
      ≡ record d { invoices = stamp c.company_id p later d.invoices }
recomputed_at-inserted c p later none d = refl
recomputed_at-inserted c p later (some i) d = refl

-- A close that is accepted can be run again at any later time: the second run is accepted, and is final if
-- the first was and recomputed otherwise. It leaves the tables as the first left them, but for the time at
-- which the company's draft was computed.
pub write_draft-write_draft :
    (c : Company) (later p e : ℤ) (compute : List Credit → Option (List Line)) (db db' : Db)
    (q : DraftOutcome)
    → write_draft c p e false compute db ≡ (db', ok q)
    → write_draft (record c { now = later }) p e false compute db'
      ≡ (recomputed_at c p later q db', ok (again q))
write_draft-write_draft c later p e compute db db' q h =
    let found = find_invoice c.company_id p db.invoices in
    let (i, o) = inserted c p found in
    let (ec, ep) = inserted-at c p found (find_invoice-at c.company_id p db.invoices) in
    elim (Bool-cases (is_draft (inserted c p found).0.status)) [
      | inl d ↦
          again-draft c later p e compute db db' (inserted c p found).0 (inserted c p found).1 q ec
            ep d (again-inserted c p found) (recomputed_at-inserted c p later found)
            (sym (write_draft-locked c p e compute db) ∙ h)
      | inr d ↦
          let (j, f, n) = inserted-final c p found d in
          let fixed = write_draft-final c p e compute db j f n in
          let (same, left) = ok_eq db db' final q (sym fixed ∙ h) in
          rw (← same, ← left) (write_draft-final (record c { now = later }) p e compute db j f n)
    ]
