-- ===== src/Scoring/Idempotence.antt =====
-- internal/scoring/service.go: a session that is scored stays scored, and what a score holds.
use ta_platform.Prelude.Results.{Result, ok, err, err_not_ok}
use ta_platform.Prelude.{
  ℕ, ◌≡◌, refl, Bool, true, false, not, ◌&&◌, Option, none, some, List, inl, inr, Bool-cases,
}
use ta_platform.Metrics.{Metrics, Event, compute}
use ta_platform.EventStore.{
  Db, Message, Score, StoreError, interview_gone, score_exists, save_score,
}
use ta_platform.EventStore.Once.{save_score-ok}
use ta_platform.Scoring.{
  Trigger, Log, Progress, Outcome, already_scored, behind, permanent, transient, Service, score,
  saved, score_progress, score_timeline, score_computed, unrecommended, recommend, answered, Answer,
  recommended, not_recommended, caught_up,
}

recommend-key :
    (r : Option (Metrics → Answer)) (s : Score)
    → ((recommend r s).company_id ≡ s.company_id) × ((recommend r s).session_id ≡ s.session_id)
unfolding recommend
recommend-key none s = (refl, refl)
recommend-key (some ask) s = keyed (ask s.metrics)
  where
    keyed :
        (a : Answer)
        → ((answered s a).company_id ≡ s.company_id) × ((answered s a).session_id ≡ s.session_id)
    keyed (recommended model r) = (refl, refl)
    keyed (not_recommended model code) = (refl, refl)

saved-ok : (r : Result StoreError Bool) (o : Outcome) → saved r ≡ ok o → (b : Bool) × (r ≡ ok b)
saved-ok (ok b) o h = (b, refl)
saved-ok (err interview_gone) o h = absurd (err_not_ok permanent o h)
saved-ok (err _) o h = absurd (err_not_ok transient o h)

-- The session of the trigger has a score.
abbrev pub IsScored : Trigger → Db → Type 0
IsScored t db = score_exists t.company_id t.session_id db.scores ≡ true

save_score-at :
    (company session : ℕ) (s : Score) (fault : Bool) (build : ℕ → Option Message) (db : Db)
    (b : Bool)
    → s.company_id ≡ company
    → s.session_id ≡ session
    → (save_score s fault build db).1 ≡ ok b
    → score_exists company session (save_score s fault build db).0.scores ≡ true
save_score-at company session s fault build db b c k h =
    rw (← c, ← k) (save_score-ok s fault build db b h)

score_computed-ok :
    (v : Service) (fault : Bool) (t : Trigger) (complete : Bool) (db : Db) (m : Option Metrics)
    (o : Outcome)
    → (score_computed v fault t complete db m).1 ≡ ok o
    → IsScored t (score_computed v fault t complete db m).0
score_computed-ok v fault t complete db none o h = absurd (err_not_ok permanent o h)
score_computed-ok v fault t complete db (some m) o h =
    let s = recommend v.recommender (unrecommended t m complete v.now) in
    let (c, k) = recommend-key v.recommender (unrecommended t m complete v.now) in
    let (b, eq) = saved-ok (save_score s fault (v.message s) db).1 o h in
    save_score-at t.company_id t.session_id s fault (v.message s) db b c k eq

score_timeline-ok :
    (v : Service) (fault : Bool) (t : Trigger) (complete : Bool) (db : Db)
    (es : Option (List Event)) (o : Outcome)
    → (score_timeline v fault t complete db es).1 ≡ ok o
    → IsScored t (score_timeline v fault t complete db es).0
score_timeline-ok v fault t complete db none o h = absurd (err_not_ok transient o h)
score_timeline-ok v fault t complete db (some es) o h =
    score_computed-ok v fault t complete db (compute v.decoders es) o h

score_progress-ok :
    (v : Service) (log : Log) (fault : Bool) (t : Trigger) (last : Bool) (db : Db)
    (p : Option Progress) (o : Outcome)
    → (score_progress v log fault t last db p).1 ≡ ok o
    → IsScored t (score_progress v log fault t last db p).0
score_progress-ok v log fault t last db none o h = absurd (err_not_ok transient o h)
score_progress-ok v log fault t last db (some p) o h =
    let complete = caught_up p t.sequence_number in
    elim (Bool-cases (not (caught_up p t.sequence_number) && not last)) [
      | inl waits ↦ absurd (err_not_ok behind o (rw waits at h))
      | inr goes ↦
          rw goes (score_timeline-ok v fault t complete db (log.timeline t) o (rw goes at h))
    ]

score-IsScored :
    (v : Service) (log : Log) (unread fault : Bool) (t : Trigger) (last : Bool) (db : Db)
    (o : Outcome)
    → (score v log unread fault t last db).1 ≡ ok o
    → IsScored t (score v log unread fault t last db).0
unfolding score
score-IsScored v log true fault t last db o h = absurd (err_not_ok transient o h)
score-IsScored v log false fault t last db o h =
    elim (Bool-cases (score_exists t.company_id t.session_id db.scores)) [
      | inl exists ↦ rw exists exists
      | inr new ↦ rw new (score_progress-ok v log fault t last db (log.progress t) o (rw new at h))
    ]

score-again :
    (v : Service) (log : Log) (fault : Bool) (t : Trigger) (last : Bool) (db : Db)
    → IsScored t db
    → score v log false fault t last db ≡ (db, ok already_scored)
unfolding score
score-again v log fault t last db h = rw h refl

-- Scoring is idempotent on the session: once Score has succeeded, with either outcome, any later
-- Score for a trigger of the same session that can read the tables answers that it is already
-- scored and leaves the tables as they are, whatever the log, the service and the trigger's number
-- are by then.
pub score-score :
    (v v' : Service) (log log' : Log) (unread fault fault' : Bool) (t t' : Trigger)
    (last last' : Bool) (db : Db) (o : Outcome)
    → (score v log unread fault t last db).1 ≡ ok o
    → t'.company_id ≡ t.company_id
    → t'.session_id ≡ t.session_id
    → let after = (score v log unread fault t last db).0 in
      score v' log' false fault' t' last' after ≡ (after, ok already_scored)
score-score v v' log log' unread fault fault' t t' last last' db o h c k =
    score-again v' log' fault' t' last' (score v log unread fault t last db).0
      (rw (c, k) (score-IsScored v log unread fault t last db o h))
