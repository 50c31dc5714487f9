-- ===== src/EventStore/Scores.antt =====
-- internal/store/postgres/scores.go: ScoreExists and SaveScore.
use ta_platform.Prelude.Results.{Result, ok, err}
use ta_platform.Prelude.{
  ℕ, Bool, true, false, not, ◌&&◌, Option, none, some, List, [], ◌∷◌, ◌++◌, ◌==◌, if◌then◌else◌,
  pos,
}
use ta_platform.EventStore.Tables.{
  Message, Interview, Session, Score, Db, StoreError, database, interview_gone, interview_not_found,
  build_failed, is_open,
}
use ta_platform.EventStore.Outbox.{insert_outbox}
use ta_platform.EventStore.Sequence.{allocate_sequence}

unfoldable pub score_exists : ℕ → ℕ → List Score → Bool
score_exists company session [] = false
score_exists company session (s ∷ ss) =
    let rest = score_exists company session ss in
    if company == s.company_id && session == s.session_id then true else rest

-- The rows that the SELECT of the insert finds.
unfoldable pub interview_open : ℕ → ℕ → List Interview → Bool
interview_open company interview [] = false
interview_open company interview (v ∷ vs) =
    let rest = interview_open company interview vs in
    if is_open company interview v then true else rest

-- The foreign key of the score.
unfoldable pub session_exists : ℕ → ℕ → List Session → Bool
session_exists company session [] = false
session_exists company session (s ∷ ss) =
    let rest = session_exists company session ss in
    if company == s.company_id && session == s.id then true else rest

abbrev pub as_gone : StoreError → StoreError
as_gone interview_not_found = interview_gone
as_gone e = e

abbrev pub score_built : ℕ → Db → Db → Option Message → Db × Result StoreError (Option ℕ)
score_built sequence db before none = (before, err build_failed)
score_built sequence db before (some m) = (insert_outbox m db, ok (some sequence))

abbrev pub score_allocated :
    (ℕ → Option Message)
    → Db
    → Db
    → Result StoreError (ℕ × List Interview)
    → Db × Result StoreError (Option ℕ)
score_allocated build db before (err e) = (before, err (as_gone e))
score_allocated build db before (ok (sequence, vs)) =
    score_built sequence (record db { interviews = vs }) before (build sequence)

-- After the insert of a new row.
abbrev pub score_inserted : Score → (ℕ → Option Message) → Db → Db × Result StoreError (Option ℕ)
score_inserted s build db =
    score_allocated build (record db { scores = db.scores ++ (s ∷ []) }) db
      (allocate_sequence s.company_id s.interview_id (pos 1) db.interviews)

-- SaveScore with the number that it allocates for the message, if it inserts the score.
unfoldable pub save_numbered :
    Score → Bool → (ℕ → Option Message) → Db → Db × Result StoreError (Option ℕ)
unfolding score_exists interview_open session_exists allocate_sequence insert_outbox
save_numbered s fault build db =
    let exists = score_exists s.company_id s.session_id db.scores in
    if fault
    then (db, err database)
    else if not (interview_open s.company_id s.interview_id db.interviews)
    then (db, (if exists then ok none else err interview_gone))
    else if exists
    then (db, ok none)
    else if not (session_exists s.company_id s.session_id db.sessions)
    then (db, err interview_gone)
    else score_inserted s build db

abbrev pub is_saved : Result StoreError (Option ℕ) → Result StoreError Bool
is_saved (err e) = err e
is_saved (ok none) = ok false
is_saved (ok (some n)) = ok true

unfoldable pub save_score : Score → Bool → (ℕ → Option Message) → Db → Db × Result StoreError Bool
unfolding save_numbered
save_score s fault build db = let (after, r) = save_numbered s fault build db in (after, is_saved r)
