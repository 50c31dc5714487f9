-- ===== src/EventStore/Numbers.antt =====
-- The numbers that each transaction of internal/store/postgres gives to an interview.
use ta_platform.EventStore.Allocation.{IsNext, IsNext-none, IsNext-allocated, insert_all-interviews}
use ta_platform.Prelude.Results.{Result, ok, err, err_not_ok}
use ta_platform.Prelude.{
  ℕ, ◌≡◌, refl, String, Bool, true, false, ◌&&◌, Option, none, some, List, [], ◌∷◌, ◌++◌, ◌==◌, ℤ,
  pos, pos_part, inl, inr, Bool-cases, Option-cases,
}
use ta_platform.EventStore.Trace.{given, given_start, given_score}
use ta_platform.EventStore.{
  Message, Interview, Db, StoreError, StartParams, Started, Score, advance, allocated,
  allocate_sequence, record_events, record_allocated, insert_all, Invite, consume_invite,
  start_number, bound_advance, start_allocated, start_consumed, start_built, new_session,
  session_taken, invalid_invite, insert_outbox, score_allocated, score_exists, session_exists,
  interview_open, drain_rows, selected, Row, record_diff, diff_allocated, advance_diff,
  start_session, save_numbered, drain,
}

record_allocated-IsNext :
    (c i co iv : ℕ) (count : ℤ) (build : ℕ → Option (List Message)) (db : Db)
    (r : Result StoreError (ℕ × List Interview))
    → allocate_sequence co iv count db.interviews ≡ r
    → IsNext c i
        (given (c == co && i == iv) (pos_part count) (record_allocated build db r).1)
        db
        (record_allocated build db r).0
record_allocated-IsNext c i co iv count build db (err e) h = IsNext-none c i db db refl
record_allocated-IsNext c i co iv count build db (ok (first, vs)) h =
    elim (Option-cases (build first)) [
      | inl none_built ↦ rw none_built (IsNext-none c i db db refl)
      | inr (ms, built) ↦ rw built (
          IsNext-allocated c i co iv count first db (insert_all ms (record db { interviews = vs }))
            vs h (insert_all-interviews ms (record db { interviews = vs })))
    ]

pub record_events-IsNext :
    (c i co iv : ℕ) (count : ℤ) (fault : Bool) (build : ℕ → Option (List Message)) (db : Db)
    → IsNext c i
        (given (c == co && i == iv) (pos_part count) (record_events co iv count fault build db).1)
        db
        (record_events co iv count fault build db).0
unfolding record_events
record_events-IsNext c i co iv count true build db = IsNext-none c i db db refl
record_events-IsNext c i co iv count false build db =
    record_allocated-IsNext c i co iv count build db (allocate_sequence co iv count db.interviews)
      refl

diff_allocated-IsNext :
    (c i co iv : ℕ) (build : ℕ → Option Message) (db mid : Db)
    (r : Result StoreError (ℕ × List Interview))
    → allocate_sequence co iv (pos 1) db.interviews ≡ r
    → IsNext c i
        (given (c == co && i == iv) 1 (diff_allocated build mid db r).1)
        db
        (diff_allocated build mid db r).0
unfolding insert_outbox
diff_allocated-IsNext c i co iv build db mid (err e) h = IsNext-none c i db db refl
diff_allocated-IsNext c i co iv build db mid (ok (first, vs)) h =
    elim (Option-cases (build first)) [
      | inl none_built ↦ rw none_built (IsNext-none c i db db refl)
      | inr (m, built) ↦ rw built (
          IsNext-allocated c i co iv (pos 1) first db
            (insert_outbox m (record mid { interviews = vs })) vs h refl)
    ]

pub record_diff-IsNext :
    (c i co s iv : ℕ) (client : ℤ) (fault : Bool) (build : ℕ → Option Message) (db : Db)
    → IsNext c i
        (given (c == co && i == iv) 1 (record_diff co s iv client fault build db).1)
        db
        (record_diff co s iv client fault build db).0
unfolding record_diff
record_diff-IsNext c i co s iv client true build db = IsNext-none c i db db refl
record_diff-IsNext c i co s iv client false build db =
    elim (Option-cases (advance_diff co s iv client db.sessions)) [
      | inl refused ↦ rw refused (IsNext-none c i db db refl)
      | inr (ss, moved) ↦ rw moved (
          diff_allocated-IsNext c i co iv build db (record db { sessions = ss })
            (allocate_sequence co iv (pos 1) db.interviews) refl)
    ]

score_allocated-IsNext :
    (c i co iv : ℕ) (build : ℕ → Option Message) (db mid : Db)
    (r : Result StoreError (ℕ × List Interview))
    → allocate_sequence co iv (pos 1) db.interviews ≡ r
    → IsNext c i
        (given_score (c == co && i == iv) (score_allocated build mid db r).1)
        db
        (score_allocated build mid db r).0
unfolding insert_outbox
score_allocated-IsNext c i co iv build db mid (err e) h = IsNext-none c i db db refl
score_allocated-IsNext c i co iv build db mid (ok (first, vs)) h =
    elim (Option-cases (build first)) [
      | inl none_built ↦ rw none_built (IsNext-none c i db db refl)
      | inr (m, built) ↦ rw built (
          IsNext-allocated c i co iv (pos 1) first db
            (insert_outbox m (record mid { interviews = vs })) vs h refl)
    ]

pub save_numbered-IsNext :
    (c i : ℕ) (s : Score) (fault : Bool) (build : ℕ → Option Message) (db : Db)
    → IsNext c i
        (given_score (c == s.company_id && i == s.interview_id) (save_numbered s fault build db).1)
        db
        (save_numbered s fault build db).0
unfolding save_numbered
save_numbered-IsNext c i s true build db = IsNext-none c i db db refl
save_numbered-IsNext c i s false build db =
    elim (Bool-cases (interview_open s.company_id s.interview_id db.interviews)) [
      | inl found ↦ elim (Bool-cases (score_exists s.company_id s.session_id db.scores)) [
        | inl exists ↦ rw (found, exists) (IsNext-none c i db db refl)
        | inr new ↦ elim (Bool-cases (session_exists s.company_id s.session_id db.sessions)) [
          | inl session ↦
              rw (found, new, session)
                (score_allocated-IsNext c i s.company_id s.interview_id build db
                  (record db { scores = db.scores ++ (s ∷ []) })
                  (allocate_sequence s.company_id s.interview_id (pos 1) db.interviews) refl)
          | inr gone ↦ rw (found, new, gone) (IsNext-none c i db db refl)
        ]
      ]
      | inr closed ↦ elim (Bool-cases (score_exists s.company_id s.session_id db.scores)) [
        | inl exists ↦ rw (closed, exists) (IsNext-none c i db db refl)
        | inr new ↦ rw (closed, new) (IsNext-none c i db db refl)
      ]
    ]

drain_rows-interviews :
    (published committed : Bool) (rows : List Row) (db : Db)
    → (drain_rows published committed rows db).0.interviews ≡ db.interviews
unfolding drain_rows
drain_rows-interviews published committed [] db = refl
drain_rows-interviews false committed (r ∷ rs) db = refl
drain_rows-interviews true false (r ∷ rs) db = refl
drain_rows-interviews true true (r ∷ rs) db = refl

pub drain-interviews :
    (limit : ℕ) (locked published committed : Bool) (db : Db)
    → (drain limit locked published committed db).0.interviews ≡ db.interviews
unfolding drain
drain-interviews limit false published committed db = refl
drain-interviews limit true published committed db =
    drain_rows-interviews published committed (selected limit db) db

start_number-allocated :
    (r : Option (ℕ × List Interview)) (a : ℕ × List Interview)
    → start_number r ≡ ok a
    → allocated 1 r ≡ ok a
start_number-allocated none a h = absurd (err_not_ok invalid_invite a h)
start_number-allocated (some x) a h = h

start_number-allocate_sequence :
    (co iv : ℕ) (vs : List Interview) (a : ℕ × List Interview)
    → start_number (advance co iv 1 vs) ≡ ok a
    → allocate_sequence co iv (pos 1) vs ≡ ok a
unfolding allocate_sequence
start_number-allocate_sequence co iv vs a h = start_number-allocated (advance co iv 1 vs) a h

start_allocated-IsNext :
    (c i iv : ℕ) (build : Started → Option Message) (p : StartParams) (v : Invite)
    (is : List Invite) (db : Db) (r : Result StoreError (ℕ × List Interview))
    → v.interview_id ≡ some iv
    → start_number (advance v.company_id iv 1 db.interviews) ≡ r
    → IsNext c i
        (given_start c i (start_allocated build p v is db r).1)
        db
        (start_allocated build p v is db r).0
unfolding insert_outbox
start_allocated-IsNext c i iv build p v is db (err e) bound h = IsNext-none c i db db refl
start_allocated-IsNext c i iv build p v is db (ok (first, vs)) bound h =
    let started : Started = record {
      session = new_session v p;
      invite_id = v.id;
      sequence_number = first;
    } in
    elim (Bool-cases (session_taken v.company_id p.session_id p.token_hash db.sessions)) [
      | inl taken ↦ rw taken (IsNext-none c i db db refl)
      | inr free ↦ elim (Option-cases (build started)) [
        | inl none_built ↦ rw (free, none_built) (IsNext-none c i db db refl)
        | inr (m, built) ↦
            rw (free, built, bound)
              (IsNext-allocated c i v.company_id iv (pos 1) first db
                (start_built started
                  (record db {
                    interviews = vs;
                    invites = is;
                    sessions = db.sessions ++ (new_session v p ∷ []);
                  })
                  db (some m)).0
                vs (start_number-allocate_sequence v.company_id iv db.interviews (first, vs) h)
                refl)
      ]
    ]

start_bound-IsNext :
    (c i : ℕ) (build : Started → Option Message) (p : StartParams) (v : Invite) (is : List Invite)
    (db : Db) (b : Option ℕ)
    → v.interview_id ≡ b
    → let r = start_allocated build p v is db (bound_advance v.company_id b db.interviews) in
      IsNext c i (given_start c i r.1) db r.0
start_bound-IsNext c i build p v is db none e = IsNext-none c i db db refl
start_bound-IsNext c i build p v is db (some iv) e =
    start_allocated-IsNext c i iv build p v is db
      (start_number (advance v.company_id iv 1 db.interviews)) e refl

start_consumed-IsNext :
    (c i : ℕ) (build : Started → Option Message) (p : StartParams) (db : Db)
    (r : Option (Invite × List Invite))
    → IsNext c i
        (given_start c i (start_consumed build p db r).1)
        db
        (start_consumed build p db r).0
start_consumed-IsNext c i build p db none = IsNext-none c i db db refl
start_consumed-IsNext c i build p db (some (v, is)) =
    start_bound-IsNext c i build p v is db v.interview_id refl

pub start_session-IsNext :
    (c i : ℕ) (hash : String) (now : ℤ) (p : StartParams) (fault : Bool)
    (build : Started → Option Message) (db : Db)
    → IsNext c i
        (given_start c i (start_session hash now p fault build db).1)
        db
        (start_session hash now p fault build db).0
unfolding start_session
start_session-IsNext c i hash now p true build db = IsNext-none c i db db refl
start_session-IsNext c i hash now p false build db =
    start_consumed-IsNext c i build p db (consume_invite hash now db.invites)
