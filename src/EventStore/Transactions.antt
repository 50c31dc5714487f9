-- ===== src/EventStore/Transactions.antt =====
-- internal/store/postgres: what a transaction of the event store can do to the outbox, as one
-- principle for RecordEvents, RecordDiff, StartSession and SaveScore.
use ta_platform.Prelude.Results.{Result, ok, err}
use ta_platform.Prelude.{
  ℕ, ◌≡◌, refl, String, Bool, true, false, Option, none, some, List, [], ◌∷◌, ◌++◌, ℤ, pos, inl,
  inr, Bool-cases, Option-cases,
}
use ta_platform.EventStore.{
  Message, Interview, Db, StoreError, Score, StartParams, Started, Invite, insert_all,
  insert_outbox, record_allocated, record_events, allocate_sequence, record_diff, diff_allocated,
  advance_diff, save_numbered, score_allocated, score_exists, interview_open, session_exists,
  start_session, start_allocated, start_consumed, consume_invite, bound_advance, session_taken,
  new_session,
}

-- A property that holds of the tables and of whatever a write of messages to the outbox makes of
-- tables with the same outbox.
module _ {ℓ} (P : Db → Type ℓ) (db : Db) (same : P db)
    (written : (ms : List Message) (mid : Db)
      → mid.outbox ≡ db.outbox
      → mid.next_id ≡ db.next_id
      → P (insert_all ms mid)) where
  one_written :
      (m : Message) (mid : Db)
      → mid.outbox ≡ db.outbox
      → mid.next_id ≡ db.next_id
      → P (insert_outbox m mid)
  unfolding insert_all
  one_written m mid o n = written (m ∷ []) mid o n

  record_allocated-writes :
      (build : ℕ → Option (List Message)) (r : Result StoreError (ℕ × List Interview))
      → P (record_allocated build db r).0
  record_allocated-writes build (err e) = same
  record_allocated-writes build (ok (first, vs)) = elim (Option-cases (build first)) [
    | inl none_built ↦ rw none_built same
    | inr (ms, built) ↦ rw built (written ms (record db { interviews = vs }) refl refl)
  ]

  pub record_events-writes :
      (co iv : ℕ) (count : ℤ) (fault : Bool) (build : ℕ → Option (List Message))
      → P (record_events co iv count fault build db).0
  unfolding record_events
  record_events-writes co iv count true build = same
  record_events-writes co iv count false build =
      record_allocated-writes build (allocate_sequence co iv count db.interviews)

  diff_allocated-writes :
      (build : ℕ → Option Message) (mid : Db) (r : Result StoreError (ℕ × List Interview))
      → mid.outbox ≡ db.outbox
      → mid.next_id ≡ db.next_id
      → P (diff_allocated build mid db r).0
  diff_allocated-writes build mid (err e) o n = same
  diff_allocated-writes build mid (ok (first, vs)) o n = elim (Option-cases (build first)) [
    | inl none_built ↦ rw none_built same
    | inr (m, built) ↦ rw built (one_written m (record mid { interviews = vs }) o n)
  ]

  pub record_diff-writes :
      (co s iv : ℕ) (client : ℤ) (fault : Bool) (build : ℕ → Option Message)
      → P (record_diff co s iv client fault build db).0
  unfolding record_diff
  record_diff-writes co s iv client true build = same
  record_diff-writes co s iv client false build =
      elim (Option-cases (advance_diff co s iv client db.sessions)) [
        | inl refused ↦ rw refused same
        | inr (ss, moved) ↦ rw moved (
            diff_allocated-writes build (record db { sessions = ss })
              (allocate_sequence co iv (pos 1) db.interviews) refl refl)
      ]

  score_allocated-writes :
      (build : ℕ → Option Message) (mid : Db) (r : Result StoreError (ℕ × List Interview))
      → mid.outbox ≡ db.outbox
      → mid.next_id ≡ db.next_id
      → P (score_allocated build mid db r).0
  score_allocated-writes build mid (err e) o n = same
  score_allocated-writes build mid (ok (first, vs)) o n = elim (Option-cases (build first)) [
    | inl none_built ↦ rw none_built same
    | inr (m, built) ↦ rw built (one_written m (record mid { interviews = vs }) o n)
  ]

  pub save_numbered-writes :
      (s : Score) (fault : Bool) (build : ℕ → Option Message) → P (save_numbered s fault build db).0
  unfolding save_numbered
  save_numbered-writes s true build = same
  save_numbered-writes s false build =
      elim (Bool-cases (interview_open s.company_id s.interview_id db.interviews)) [
        | inr closed ↦ rw closed same
        | inl found ↦ elim (Bool-cases (score_exists s.company_id s.session_id db.scores)) [
          | inl exists ↦ rw (found, exists) same
          | inr new ↦ elim (Bool-cases (session_exists s.company_id s.session_id db.sessions)) [
            | inr gone ↦ rw (found, new, gone) same
            | inl session ↦
                rw (found, new, session)
                  (score_allocated-writes build (record db { scores = db.scores ++ (s ∷ []) })
                    (allocate_sequence s.company_id s.interview_id (pos 1) db.interviews) refl refl)
          ]
        ]
      ]

  start_allocated-writes :
      (build : Started → Option Message) (p : StartParams) (v : Invite) (is : List Invite)
      (r : Result StoreError (ℕ × List Interview))
      → P (start_allocated build p v is db r).0
  start_allocated-writes build p v is (err e) = same
  start_allocated-writes build p v is (ok (first, vs)) =
      let started : Started = record {
        session = new_session v p;
        invite_id = v.id;
        sequence_number = first;
      } in
      elim (Bool-cases (session_taken v.company_id p.session_id p.token_hash db.sessions)) [
        | inl taken ↦ rw taken same
        | inr free ↦ elim (Option-cases (build started)) [
          | inl none_built ↦ rw (free, none_built) same
          | inr (m, built) ↦
              rw (free, built)
                (one_written m
                  (record db {
                    interviews = vs;
                    invites = is;
                    sessions = db.sessions ++ (new_session v p ∷ []);
                  })
                  refl refl)
        ]
      ]

  start_consumed-writes :
      (build : Started → Option Message) (p : StartParams) (r : Option (Invite × List Invite))
      → P (start_consumed build p db r).0
  start_consumed-writes build p none = same
  start_consumed-writes build p (some (v, is)) =
      start_allocated-writes build p v is (bound_advance v.company_id v.interview_id db.interviews)

  pub start_session-writes :
      (hash : String) (now : ℤ) (p : StartParams) (fault : Bool) (build : Started → Option Message)
      → P (start_session hash now p fault build db).0
  unfolding start_session
  start_session-writes hash now p true build = same
  start_session-writes hash now p false build =
      start_consumed-writes build p (consume_invite hash now db.invites)
