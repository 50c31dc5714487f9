-- ===== src/Workspace/Ordering.antt =====
-- internal/candidateworkspace/diff.go: the diffs of a session are kept in the client's order.
use ta_platform.Prelude.Results.{Result, ok, err, err_not_ok, ok_eq}
use ta_platform.Prelude.{
  ℕ, ◌≤◌, ◌≡◌, refl, ap, Bool, false, Option, some, ◌≤ℤ◌, inl, inr, Option-cases,
}
use ta_platform.EventStore.{Message, Db, StoreError, diff_out_of_order, Session, record_diff}
use ta_platform.EventStore.Diffs.{rows_of, record_diff-stale}
use ta_platform.Workspace.{
  DiffRequest, accepted, out_of_order, invalid_diff, record_failed, DiffRules, validate_diff,
  diff_recorded, submit,
}

diff_recorded-accepted :
    (a r n x y : ℕ) (p : Db × Result StoreError ℕ)
    → (diff_recorded a r p).1 ≡ ok (accepted n x y)
    → ((diff_recorded a r p).0 ≡ p.0) × (p.1 ≡ ok n)
diff_recorded-accepted a r n x y (db, ok m) h =
    (refl, ap (λ k. ok k) (numbers (ok_eq (accepted m a r) (accepted n x y) h)))
  where
    numbers : accepted m a r ≡ accepted n x y → m ≡ n
    numbers h = cc
diff_recorded-accepted a r n x y (db, err diff_out_of_order) h =
    absurd (different (ok_eq (out_of_order a r) (accepted n x y) h))
  where
    different : out_of_order a r ≡ accepted n x y → ⊥
    different h = cc
diff_recorded-accepted a r n x y (db, err _) h =
    absurd (err_not_ok record_failed (accepted n x y) h)

submit-recorded :
    (rules : DiffRules) (s : Session) (r : DiffRequest) (fault : Bool) (build : ℕ → Option Message)
    (db : Db) (i n x y : ℕ)
    → s.interview_id ≡ some i
    → (submit rules s r fault build db).1 ≡ ok (accepted n x y)
    → ((submit rules s r fault build db).0
        ≡ (record_diff s.company_id s.id i r.client_sequence fault build db).0)
      × ((record_diff s.company_id s.id i r.client_sequence fault build db).1 ≡ ok n)
unfolding submit
submit-recorded rules s r fault build db i n x y b h = elim (Option-cases (validate_diff rules r)) [
  | inl bad ↦ absurd (err_not_ok invalid_diff (accepted n x y) (rw (b, bad) at h))
  | inr ((a, d), good) ↦
      rw (b, good)
        (diff_recorded-accepted a d n x y
          (record_diff s.company_id s.id i r.client_sequence fault build db) (rw (b, good) at h))
]

submit-refused :
    (rules : DiffRules) (s : Session) (r : DiffRequest) (build : ℕ → Option Message) (db : Db)
    (i a d : ℕ)
    → s.interview_id ≡ some i
    → validate_diff rules r ≡ some (a, d)
    → record_diff s.company_id s.id i r.client_sequence false build db ≡ (db, err diff_out_of_order)
    → submit rules s r false build db ≡ (db, ok (out_of_order a d))
unfolding submit
submit-refused rules s r build db i a d b v e = rw (b, v) (ap (λ p. diff_recorded a d p) e)

-- Once a diff of a session is accepted, a valid diff of the session whose client sequence is not
-- above its own is answered as out of order, with its counts and no error, and leaves the tables as
-- they are, where the session has at most one row.
pub submit-submit :
    (rules : DiffRules) (s : Session) (r r' : DiffRequest) (fault : Bool)
    (build build' : ℕ → Option Message) (db : Db) (i n x y a d : ℕ)
    → s.interview_id ≡ some i
    → rows_of s.company_id s.id i db.sessions ≤ 1
    → (submit rules s r fault build db).1 ≡ ok (accepted n x y)
    → validate_diff rules r' ≡ some (a, d)
    → r'.client_sequence ≤ℤ r.client_sequence
    → submit rules s r' false build' (submit rules s r fault build db).0
      ≡ ((submit rules s r fault build db).0, ok (out_of_order a d))
submit-submit rules s r r' fault build build' db i n x y a d b one h v l =
    let (same, recorded) = submit-recorded rules s r fault build db i n x y b h in
    submit-refused rules s r' build' (submit rules s r fault build db).0 i a d b v (
      rw same (
        record_diff-stale s.company_id s.id i r.client_sequence r'.client_sequence fault build
          build' db n one recorded l))
