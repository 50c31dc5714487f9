-- ===== src/Scoring/Retries.antt =====
-- internal/scoring/consumer.go: the retries of a trigger come to an end.
use ta_platform.Prelude.Results.{Result, ok, err}
use ta_platform.Prelude.{
  ℕ, zero, suc, ◌+◌, ◌≤◌, ◌<◌, ◌⊎◌, Bool, true, false, Option, none, some, List, leb, arith, inl,
  inr, Bool-cases, refl, All, ◌≡◌, ◌||◌, [], ◌∷◌,
}
use ta_platform.Events.{Envelope}
use ta_platform.Metrics.{Metrics, Event, compute}
use ta_platform.EventStore.{Db, StoreError, interview_gone, score_exists, save_score}
use ta_platform.Scoring.{
  Trigger, Parsed, invalid, skipped, triggered, Parsers, parse_trigger, Log, Progress, Outcome,
  ScoreError, behind, permanent, transient, Service, score, saved, score_progress, score_timeline,
  score_computed, unrecommended, recommend, caught_up, Attempt, Handled, unfinished, finished,
  attempts, attempted, handle, handle_parsed, Fetched, ends_run, run_consumer,
}

abbrev IsSettled : Result ScoreError Outcome → Type 0
IsSettled (err behind) = ⊥
IsSettled _ = Unit

saved-IsSettled : (r : Result StoreError Bool) → IsSettled (saved r)
saved-IsSettled (err interview_gone) = tt
saved-IsSettled (err _) = tt
saved-IsSettled (ok true) = tt
saved-IsSettled (ok false) = tt

score_computed-IsSettled :
    (v : Service) (fault : Bool) (t : Trigger) (complete : Bool) (db : Db) (m : Option Metrics)
    → IsSettled (score_computed v fault t complete db m).1
score_computed-IsSettled v fault t complete db none = tt
score_computed-IsSettled v fault t complete db (some m) =
    let s = recommend v.recommender (unrecommended t m complete v.now) in
    saved-IsSettled (save_score s fault (v.message s) db).1

score_timeline-IsSettled :
    (v : Service) (fault : Bool) (t : Trigger) (complete : Bool) (db : Db)
    (es : Option (List Event))
    → IsSettled (score_timeline v fault t complete db es).1
score_timeline-IsSettled v fault t complete db none = tt
score_timeline-IsSettled v fault t complete db (some es) =
    score_computed-IsSettled v fault t complete db (compute v.decoders es)

score_progress-IsSettled :
    (v : Service) (log : Log) (fault : Bool) (t : Trigger) (db : Db) (p : Option Progress)
    → IsSettled (score_progress v log fault t true db p).1
score_progress-IsSettled v log fault t db none = tt
score_progress-IsSettled v log fault t db (some p) =
    elim (Bool-cases (caught_up p t.sequence_number)) [
      | inl complete ↦ rw complete (score_timeline-IsSettled v fault t true db (log.timeline t))
      | inr partial ↦ rw partial (score_timeline-IsSettled v fault t false db (log.timeline t))
    ]

-- The last attempt never waits for the log.
score-IsSettled :
    (v : Service) (log : Log) (unread fault : Bool) (t : Trigger) (db : Db)
    → IsSettled (score v log unread fault t true db).1
unfolding score
score-IsSettled v log true fault t db = tt
score-IsSettled v log false fault t db =
    elim (Bool-cases (score_exists t.company_id t.session_id db.scores)) [
      | inl exists ↦ rw exists tt
      | inr new ↦ rw new (score_progress-IsSettled v log fault t db (log.progress t))
    ]

-- How a message may be left by a consumer with so many attempts.
abbrev pub IsWithin : ℕ → Handled → Type 0
IsWithin max_attempts unfinished = ⊥
IsWithin max_attempts (finished t o n) = (1 ≤ n) × (n ≤ max_attempts)
IsWithin max_attempts _ = Unit

attempted-IsWithin :
    (max_attempts attempt : ℕ) (t : Trigger) (cut_short : Bool) (r : Db × Result ScoreError Outcome)
    (again : Db × Handled)
    → 1 ≤ attempt
    → attempt ≤ max_attempts
    → (IsSettled r.1 ⊎ IsWithin max_attempts again.1)
    → IsWithin max_attempts (attempted t attempt cut_short r again).1
attempted-IsWithin max_attempts attempt t cut_short (after, ok o) again l h k = (l, h)
attempted-IsWithin max_attempts attempt t true (after, err behind) again l h k = tt
attempted-IsWithin max_attempts attempt t false (after, err behind) again l h (inl k) = absurd k
attempted-IsWithin max_attempts attempt t false (after, err behind) again l h (inr k) = k
attempted-IsWithin max_attempts attempt t cut_short (after, err permanent) again l h k = tt
attempted-IsWithin max_attempts attempt t cut_short (after, err transient) again l h k = tt

attempts-IsWithin :
    (fuel : ℕ) (v : Service) (world : ℕ → Attempt) (max_attempts : ℕ) (t : Trigger) (attempt : ℕ)
    (db : Db)
    → 1 ≤ attempt
    → attempt ≤ max_attempts
    → max_attempts < attempt + fuel
    → IsWithin max_attempts (attempts fuel v world max_attempts t attempt db).1
unfolding attempts
attempts-IsWithin zero v world max_attempts t attempt db l h f = absurd (omega arith)
attempts-IsWithin (suc fuel) v world max_attempts t attempt db l h f =
    let a = world attempt in
    let r = score v a.log a.unread a.fault t (leb max_attempts attempt) db in
    let again = attempts fuel v world max_attempts t (attempt + 1) r.0 in
    elim (Bool-cases (leb max_attempts attempt)) [
      | inl last ↦
          attempted-IsWithin max_attempts attempt t a.cut_short r again l h
            (inl (rw last (score-IsSettled v a.log a.unread a.fault t db)))
      | inr more ↦ attempted-IsWithin max_attempts attempt t a.cut_short r again l h (
          inr (
            attempts-IsWithin fuel v world max_attempts t (attempt + 1) r.0 (omega arith)
              (ground arith) (omega arith)))
    ]

-- A consumer with at least one attempt leaves every message, whatever the log, the database and
-- the recommender do at each attempt, after at most so many attempts; a trigger that is scored is
-- scored at one of them. Fuel for the attempts is enough for the loop.
pub handle-IsWithin :
    (p : Parsers) (v : Service) (world : ℕ → Attempt) (max_attempts : ℕ) (m : Option Envelope)
    (db : Db)
    → 1 ≤ max_attempts
    → IsWithin max_attempts (handle max_attempts p v world max_attempts m db).1
unfolding handle
handle-IsWithin p v world max_attempts none db h = tt
handle-IsWithin p v world max_attempts (some e) db h = within (parse_trigger p e)
  where
    within :
        (q : Parsed)
        → IsWithin max_attempts (handle_parsed max_attempts v world max_attempts q db).1
    within invalid = tt
    within skipped = tt
    within (triggered t) =
        attempts-IsWithin max_attempts v world max_attempts t 1 db (omega arith) h (omega arith)

-- A consumer commits a message only after it was left without an error, at one of its attempts.
pub run_consumer-IsWithin :
    (p : Parsers) (v : Service) (max_attempts : ℕ) (ms : List Fetched) (db : Db)
    → 1 ≤ max_attempts
    → All
        (λ h. IsWithin max_attempts h × (ends_run h ≡ false))
        (run_consumer p v max_attempts ms db).1
unfolding run_consumer
run_consumer-IsWithin p v max_attempts [] db l = tt
run_consumer-IsWithin p v max_attempts (m ∷ ms) db l =
    let r = handle max_attempts p v m.world max_attempts m.value db in
    elim (Bool-cases (ends_run r.1 || m.commit_fails)) [
      | inl stops ↦ rw stops tt
      | inr goes ↦ rw goes (
        (
          handle-IsWithin p v m.world max_attempts m.value db l,
          left (ends_run r.1) m.commit_fails goes,
        ),
        run_consumer-IsWithin p v max_attempts ms r.0 l,
      )
    ]
  where
    left : (a b : Bool) → a || b ≡ false → a ≡ false
    left false b h = refl
    left true b h = absurd (cc)
