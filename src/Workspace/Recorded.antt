-- ===== src/Workspace/Recorded.antt =====
-- internal/candidateworkspace/run.go: what a run leaves behind.
use ta_platform.Prelude.Results.{Result, ok, err, err_not_ok, ok_eq}
use ta_platform.Prelude.{
  append_assoc, ◌++◌, ℕ, ◌+◌, ◌≡◌, refl, sym, ◌∙◌, ap, Bool, true, false, Option, none, some, List,
  [], ◌∷◌, ==_refl, arith, inl, inr, Bool-cases,
}
use mathlib.Core.Path.{subst}
use ta_platform.EventStore.{Message, Db, StoreError, Session}
use ta_platform.EventStore.Written.{Adds, record_events-Adds, record_events-built}
use ta_platform.EventStore.Trace.{last_number}
use ta_platform.EventStore.Numbering.{record_events-last_number}
use ta_platform.Workspace.{
  Execution, run_result, run_completed, no_interview, invalid_run, run_in_progress, lock_failed,
  one_message, snapshot_failed, Runs, RunWorld, is_held, release, record_one, run_recorded,
  run_requested, run_locked, run_bound, run_session, requested,
}

release-first : (id : ℕ) (ls : List ℕ) → release id (id ∷ ls) ≡ ls
unfolding release
release-first id ls = rw (==_refl id) refl

run_bound-locks :
    (w : RunWorld) (s : Session) (rs : Runs) (i : Option ℕ)
    → w.release_fails ≡ false
    → ((run_bound w s rs i).0.locks ≡ rs.locks)
      × (is_held s.id rs.locks ≡ true → (run_bound w s rs i).0 ≡ rs)
run_bound-locks w s rs none h = (refl, λ held. refl)
run_bound-locks w s rs (some i) h = elim (Bool-cases w.is_valid) [
  | inr wrong ↦ rw wrong (refl, λ held. refl)
  | inl right ↦ elim (Bool-cases w.lock_error) [
    | inl broken ↦ rw (right, broken) (refl, λ held. refl)
    | inr working ↦ elim (Bool-cases (is_held s.id rs.locks)) [
      | inl taken ↦ rw (right, working, taken) (refl, λ held. refl)
      | inr free ↦
          rw (right, working, free, h)
            (release-first s.id rs.locks, λ held. absurd (false_true held))
    ]
  ]
]
  where
    false_true : false ≡ true → ⊥
    false_true h = cc

-- Run gives the lock back on every path, those of its errors included, unless the release fails:
-- the locks after it are those before it. A run of a session that has one in progress changes
-- nothing.
pub run_session-locks :
    (w : RunWorld) (s : Session) (rs : Runs)
    → w.release_fails ≡ false
    → ((run_session w s rs).0.locks ≡ rs.locks)
      × (is_held s.id rs.locks ≡ true → (run_session w s rs).0 ≡ rs)
unfolding run_session
run_session-locks w s rs h = run_bound-locks w s rs s.interview_id h

-- A run gave its interview the next two numbers, and added at the end of the outbox the messages that were
-- built of execution.requested with the first and of execution.completed with the second.
abbrev pub IsRecorded : RunWorld → Session → ℕ → Db → Db → Type 0
IsRecorded w s i db after =
    let last = last_number s.company_id i db.interviews in
    (last_number s.company_id i after.interviews ≡ last + 2)
    × ((first : Message) × (second : Message) × (w.message requested (last + 1) ≡ some first)
        × (w.message (run_completed w.executed) (last + 2) ≡ some second)
        × (after.outbox
            ≡ db.outbox
              ++ (record { id = db.next_id; message = first }
                  ∷ record { id = db.next_id + 1; message = second }
                  ∷ [])))

-- One event was recorded.
abbrev IsOne : Session → ℕ → (ℕ → Option Message) → Db → Db → Type 0
IsOne s i build db after =
    let last = last_number s.company_id i db.interviews in
    (last_number s.company_id i after.interviews ≡ last + 1)
    × ((m : Message) × (build (last + 1) ≡ some m) × Adds m db after)

record_one-IsOne :
    (s : Session) (i n : ℕ) (fault : Bool) (build : ℕ → Option Message) (db : Db)
    → (record_one s i fault build db).1 ≡ ok n
    → IsOne s i build db (record_one s i fault build db).0
record_one-IsOne s i n fault build db h =
    let many : ℕ → Option (List Message) = λ k. one_message (build k) in
    let next = record_events-last_number s.company_id i n fault many db h in
    let (ms, built) = record_events-built s.company_id i n fault many db h in
    let (m, single, made) = of_one (build n) ms built in
    (
      next.1,
      (
        m,
        ap build (sym next.0) ∙ made,
        record_events-Adds s.company_id i n fault many db m (ap one_message made) h,
      ),
    )
  where
    of_one :
        (o : Option Message) (ms : List Message)
        → one_message o ≡ some ms
        → (m : Message) × (ms ≡ m ∷ []) × (o ≡ some m)
    of_one none ms q = cc
    of_one (some m) ms q = (m, ground arith, refl)

both-IsRecorded :
    (w : RunWorld) (s : Session) (i : ℕ) (db mid after : Db)
    → IsOne s i (w.message requested) db mid
    → IsOne s i (w.message (run_completed w.executed)) mid after
    → IsRecorded w s i db after
both-IsRecorded w s i db mid after (l, (m, p, a)) (k, (r, q, b)) =
    let last : ℕ = last_number s.company_id i db.interviews in
    let two : last_number s.company_id i mid.interviews + 1 ≡ last + 2 = omega arith in
    (
      omega arith,
      (
        m,
        r,
        p,
        rw two at q,
        b.0
            ∙ rw (a.0, a.1)
                (append_assoc db.outbox (record { id = db.next_id; message = m } ∷ [])
                  (record { id = db.next_id + 1; message = r } ∷ [])),
      ),
    )

run_recorded-ok :
    (x y : Execution) (r : Db × Result StoreError ℕ)
    → (run_recorded x r).1 ≡ ok y
    → (n : ℕ) × (r.1 ≡ ok n) × (y ≡ x) × ((run_recorded x r).0 ≡ r.0)
run_recorded-ok x y (db, err e) h = absurd (err_not_ok _ y h)
run_recorded-ok x y (db, ok n) h = (n, refl, sym (ok_eq x y h), refl)

run_requested-ok :
    (w : RunWorld) (s : Session) (i : ℕ) (r : Db × Result StoreError ℕ) (x : Execution)
    → (run_requested w s i r).1 ≡ ok x
    → (n : ℕ) × (r.1 ≡ ok n)
      × (x ≡ run_result w.executed)
      × IsOne s i (w.message (run_completed w.executed)) r.0 (run_requested w s i r).0
run_requested-ok w s i (db, err e) x h = absurd (err_not_ok _ x h)
run_requested-ok w s i (db, ok n) x h =
    let build : ℕ → Option Message = w.message (run_completed w.executed) in
    let second = record_one s i w.completed_fault build db in
    let (m, recorded, same, kept) = run_recorded-ok (run_result w.executed) x second h in
    (
      n,
      refl,
      same,
      subst (IsOne s i build db) (sym kept)
          (record_one-IsOne s i m w.completed_fault build db recorded),
    )

run_locked-ok :
    (w : RunWorld) (s : Session) (i : ℕ) (db : Db) (x : Execution)
    → (run_locked w s i db).1 ≡ ok x
    → (x ≡ run_result w.executed) × IsRecorded w s i db (run_locked w s i db).0
run_locked-ok w s i db x h = elim (Bool-cases w.put_fails) [
  | inl lost ↦ absurd (err_not_ok snapshot_failed x (rw lost at h))
  | inr stored ↦
      let first = record_one s i w.requested_fault (w.message requested) db in
      let (n, recorded, same, last) = run_requested-ok w s i first x (rw stored at h) in
      let next = record_one-IsOne s i n w.requested_fault (w.message requested) db recorded in
      rw stored (same, both-IsRecorded w s i db (first.0) (run_requested w s i first).0 next last)
]

run_bound-ok :
    (w : RunWorld) (s : Session) (rs : Runs) (b : Option ℕ) (x : Execution)
    → (run_bound w s rs b).1 ≡ ok x
    → (i : ℕ) × (b ≡ some i)
      × (is_held s.id rs.locks ≡ false)
      × (x ≡ run_result w.executed)
      × IsRecorded w s i rs.db (run_bound w s rs b).0.db
run_bound-ok w s rs none x h = absurd (err_not_ok no_interview x h)
run_bound-ok w s rs (some i) x h = elim (Bool-cases w.is_valid) [
  | inr wrong ↦ absurd (err_not_ok invalid_run x (rw wrong at h))
  | inl right ↦ elim (Bool-cases w.lock_error) [
    | inl broken ↦ absurd (err_not_ok lock_failed x (rw (right, broken) at h))
    | inr working ↦ elim (Bool-cases (is_held s.id rs.locks)) [
      | inl taken ↦ absurd (err_not_ok run_in_progress x (rw (right, working, taken) at h))
      | inr free ↦
          let (same, last) = run_locked-ok w s i rs.db x (rw (right, working, free) at h) in
          rw (right, working, free) (i, refl, refl, same, last)
    ]
  ]
]

-- A run that returns a result took a free lock, and its result is what the sandbox returned or the report of
-- its failure. It gave its interview the next two numbers, and the outbox has two more messages at its end:
-- the one of execution.requested with the first number and the one of execution.completed with the second.
pub run_session-events :
    (w : RunWorld) (s : Session) (rs : Runs) (x : Execution)
    → (run_session w s rs).1 ≡ ok x
    → (i : ℕ) × (s.interview_id ≡ some i)
      × (is_held s.id rs.locks ≡ false)
      × (x ≡ run_result w.executed)
      × IsRecorded w s i rs.db (run_session w s rs).0.db
unfolding run_session
run_session-events w s rs x h = run_bound-ok w s rs s.interview_id x h
