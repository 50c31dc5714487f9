-- ===== src/EventStore/Diffs.antt =====
-- internal/store/postgres/diffs.go: RecordDiff takes the diffs of a session in order.
use ta_platform.Prelude.Results.{Result, ok, err, err_not_ok}
use ta_platform.Prelude.{
  ℕ, ◌+◌, ◌≤◌, ◌≡◌, refl, sym, ◌∙◌, ap, Bool, true, false, Option, none, some, List, [], ◌∷◌,
  if◌then◌else◌, ℤ, pos, ◌≤ℤ◌, ltb_ℤ, arith, inl, inr, Bool-cases, Option-cases, some_eq,
}
use ta_platform.EventStore.{
  Message, Interview, Session, Db, StoreError, database, diff_out_of_order, build_failed,
  is_session_of, after_session, advance_diff, diff_allocated, record_diff, allocate_sequence,
  insert_outbox,
}

-- The rows of a session that is bound to the interview; the primary key allows one.
abbrev pub rows_of : ℕ → ℕ → ℕ → List Session → ℕ
rows_of c k i [] = 0
rows_of c k i (s ∷ ss) = (if is_session_of c k i s then 1 else 0) + rows_of c k i ss

no_more : (x : ℕ) → 0 + x ≡ 0 → x ≡ 0
no_more x h = omega arith

advance_diff-no_row :
    (c k i : ℕ) (n : ℤ) (ss : List Session) → rows_of c k i ss ≡ 0 → advance_diff c k i n ss ≡ none
unfolding advance_diff
advance_diff-no_row c k i n [] h = refl
advance_diff-no_row c k i n (s ∷ ss) h = elim (Bool-cases (is_session_of c k i s)) [
  | inl mine ↦ absurd (positive (rows_of c k i ss) (rw mine at h))
  | inr other ↦
      rw (other, advance_diff-no_row c k i n ss (no_more (rows_of c k i ss) (rw other at h))) refl
]
  where
    positive : (m : ℕ) → 1 + m ≡ 0 → ⊥
    positive m h = omega arith

after_session-some :
    (s : Session) (r : Option (List Session)) (us : List Session)
    → after_session s r ≡ some us
    → (ts : List Session) × (r ≡ some ts) × (us ≡ s ∷ ts)
after_session-some s none us h = absurd (cc)
after_session-some s (some ts) us h = (ts, refl, sym (some_eq (s ∷ ts) us h))

-- After a row was advanced to `n`, no row can be advanced to a number up to it.
advance_diff-stale :
    (c k i : ℕ) (n m : ℤ) (ss us : List Session)
    → rows_of c k i ss ≤ 1
    → m ≤ℤ n
    → advance_diff c k i n ss ≡ some us
    → advance_diff c k i m us ≡ none
unfolding advance_diff
advance_diff-stale c k i n m [] us one l h = absurd (cc)
advance_diff-stale c k i n m (s ∷ ss) us one l h = elim (Bool-cases (is_session_of c k i s)) [
  | inl mine ↦
      let alone : rows_of c k i ss ≡ 0 = at_most (rows_of c k i ss) (rw mine at one) in
      elim (Bool-cases (ltb_ℤ s.last_diff_sequence n)) [
        | inl newer ↦
            let moved =
              some_eq (record s { last_diff_sequence = n } ∷ ss) us (rw (mine, newer) at h) in
            let old : ltb_ℤ n m ≡ false = ground arith in
            rw (← moved, mine, old, advance_diff-no_row c k i m ss alone) refl
        | inr stale ↦
            let nothing = advance_diff-no_row c k i n ss alone in
            absurd (none_not_some us (rw (mine, stale, nothing) at h))
      ]
  | inr other ↦
      let (ts, eq, shape) = after_session-some s (advance_diff c k i n ss) us (rw other at h) in
      rw
        (
          shape,
          other,
          advance_diff-stale c k i n m ss ts (fewer (rows_of c k i ss) (rw other at one)) l eq,
        )
        refl
]
  where
    at_most : (x : ℕ) → 1 + x ≤ 1 → x ≡ 0
    at_most x h = omega arith

    fewer : (x : ℕ) → 0 + x ≤ 1 → x ≤ 1
    fewer x h = omega arith

    none_not_some : (us : List Session) → ◌≡◌ {A = Option (List Session)} none (some us) → ⊥
    none_not_some us h = cc

diff_allocated-sessions :
    (build : ℕ → Option Message) (mid before : Db) (r : Result StoreError (ℕ × List Interview))
    (q : ℕ)
    → (diff_allocated build mid before r).1 ≡ ok q
    → (diff_allocated build mid before r).0.sessions ≡ mid.sessions
unfolding insert_outbox
diff_allocated-sessions build mid before (err e) q h = absurd (err_not_ok e q h)
diff_allocated-sessions build mid before (ok (first, vs)) q h = elim (Option-cases (build first)) [
  | inl none_built ↦ absurd (err_not_ok build_failed q (rw none_built at h))
  | inr (m, built) ↦ rw built refl
]

record_diff-sessions :
    (c k i : ℕ) (n : ℤ) (fault : Bool) (build : ℕ → Option Message) (db : Db) (q : ℕ)
    → (record_diff c k i n fault build db).1 ≡ ok q
    → advance_diff c k i n db.sessions ≡ some (record_diff c k i n fault build db).0.sessions
unfolding record_diff
record_diff-sessions c k i n true build db q h = absurd (err_not_ok database q h)
record_diff-sessions c k i n false build db q h =
    elim (Option-cases (advance_diff c k i n db.sessions)) [
      | inl refused ↦ absurd (err_not_ok diff_out_of_order q (rw refused at h))
      | inr (ss, moved) ↦
          let kept =
            diff_allocated-sessions build (record db { sessions = ss }) db
              (allocate_sequence c i (pos 1) db.interviews) q (rw moved at h) in
          moved ∙ (rw moved (ap (λ l. some l) (sym kept)))
    ]

record_diff-refused :
    (c k i : ℕ) (m : ℤ) (build : ℕ → Option Message) (db : Db)
    → advance_diff c k i m db.sessions ≡ none
    → record_diff c k i m false build db ≡ (db, err diff_out_of_order)
unfolding record_diff
record_diff-refused c k i m build db e = rw e refl

-- Where the session has at most one row: after a diff was recorded, no diff whose client sequence
-- is not above its own is recorded for the session; it is out of order, and the tables stay as
-- they are.
pub record_diff-stale :
    (c k i : ℕ) (n m : ℤ) (fault : Bool) (build build' : ℕ → Option Message) (db : Db) (q : ℕ)
    → rows_of c k i db.sessions ≤ 1
    → (record_diff c k i n fault build db).1 ≡ ok q
    → m ≤ℤ n
    → record_diff c k i m false build' (record_diff c k i n fault build db).0
      ≡ ((record_diff c k i n fault build db).0, err diff_out_of_order)
record_diff-stale c k i n m fault build build' db q one h l =
    record_diff-refused c k i m build' (record_diff c k i n fault build db).0 (
      advance_diff-stale c k i n m db.sessions (record_diff c k i n fault build db).0.sessions one l
        (record_diff-sessions c k i n fault build db q h))
